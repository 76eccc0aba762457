-- ===== src/CAst.antt =====
-- src/c_ast.rs: the C syntax tree, its printing, and the pretty printer of statements.
pub mod Op
pub mod Expr
pub mod Build
pub mod Stmt
pub mod Printer
pub mod Layout
pub mod Brackets
pub mod StmtBrackets
