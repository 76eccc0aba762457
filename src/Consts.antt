-- ===== src/Consts.antt =====
-- src/consts.rs: constants of scalar types.
pub mod Signed
pub mod Values
pub mod Exact
