-- ===== src/Safe.antt =====
-- src/builder.rs, with the cells of the context that it changes: calls on a sound builder.
pub mod Values
pub mod Sound
pub mod Changes
pub mod Rules
pub mod Emit
pub mod Arith
pub mod Memory
pub mod Store
pub mod Address
pub mod Convert
pub mod Bitcast
pub mod Compare
pub mod Aggregate
pub mod Scalars
pub mod Atomics
pub mod Checked
pub mod Flow
pub mod Blocks
pub mod Args
pub mod Call
pub mod Unwind
pub mod Params
pub mod Calls
pub mod Program
pub mod Panic
pub mod CompareEffect
pub mod ConvertEffect
pub mod TailCall
pub mod Finish
pub mod Stable
pub mod Runs
