-- ===== src/Builder.antt =====
-- src/builder.rs, with the parts of src/context.rs that it calls: statements, temporaries,
-- arithmetic and control flow, as state passing.
pub mod Names
pub mod State
pub mod Queries
pub mod Emit
pub mod Arith
pub mod Checked
pub mod Memory
pub mod Address
pub mod Convert
pub mod Compare
pub mod RealTests
pub mod Aggregate
pub mod Atomics
pub mod Call
pub mod Unwind
pub mod Params
pub mod Flow
pub mod Ends
pub mod Effect
pub mod Operators
