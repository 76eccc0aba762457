-- ===== src/Module.antt =====
-- src/module.rs: the functions under construction and the C file that they end up in.
pub mod Function
pub mod Render
pub mod Blocks
pub mod Balance
pub mod Total
pub mod Signature
pub mod Defined
pub mod ParamTexts
pub mod Declarations
pub mod Source
pub mod SourceTotal
pub mod Unit
pub mod Wellformed
pub mod Globals
