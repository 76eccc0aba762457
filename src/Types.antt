-- ===== src/Types.antt =====
-- src/types.rs: the interned C types, their C spelling and their alignment.
pub mod Kind
pub mod Store
pub mod Interning
pub mod Render
pub mod Fuel
pub mod Total
pub mod Stable
pub mod Brackets
pub mod Align
pub mod AlignPower
pub mod AlignTotal
pub mod Defs
pub mod DefsBrackets
