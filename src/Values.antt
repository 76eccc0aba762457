-- ===== src/Values.antt =====
-- src/values.rs: the values of the generated code and their C spelling.
pub mod Store
pub mod Render
pub mod Fresh
pub mod Literal
pub mod Total
