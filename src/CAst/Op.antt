-- ===== src/CAst/Op.antt =====
-- src/c_ast.rs: the C operators and their spelling.
use rustc_codegen_c.Prelude.Text.{Text, str}

pub data CBinOp : Type 0 where
  add sub mul div rem shl shr bit_and bit_or bit_xor : CBinOp
  eq ne lt le gt ge log_and log_or : CBinOp

unfoldable pub display_binop : CBinOp → Text
display_binop CBinOp.add = str "+"
display_binop CBinOp.sub = str "-"
display_binop CBinOp.mul = str "*"
display_binop CBinOp.div = str "/"
display_binop CBinOp.rem = str "%"
display_binop CBinOp.shl = str "<<"
display_binop CBinOp.shr = str ">>"
display_binop CBinOp.bit_and = str "&"
display_binop CBinOp.bit_or = str "|"
display_binop CBinOp.bit_xor = str "^"
display_binop CBinOp.eq = str "=="
display_binop CBinOp.ne = str "!="
display_binop CBinOp.lt = str "<"
display_binop CBinOp.le = str "<="
display_binop CBinOp.gt = str ">"
display_binop CBinOp.ge = str ">="
display_binop CBinOp.log_and = str "&&"
display_binop CBinOp.log_or = str "||"

pub data CUnaryOp : Type 0 where
  neg bit_not log_not : CUnaryOp

unfoldable pub display_unary : CUnaryOp → Text
display_unary CUnaryOp.neg = str "-"
display_unary CUnaryOp.bit_not = str "~"
display_unary CUnaryOp.log_not = str "!"
