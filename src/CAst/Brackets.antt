-- ===== src/CAst/Brackets.antt =====
-- src/c_ast.rs: printing keeps brackets matched. Names, literals, type texts and raw texts are
-- copied as they are, so they are assumed to be balanced themselves.
use rustc_codegen_c.Prelude.{refl, ◌∙◌}
use rustc_codegen_c.Prelude.Brackets.{IsBalanced, scan_over, append-IsBalanced}
use rustc_codegen_c.CAst.Op.{CBinOp, CUnaryOp, display_binop, display_unary}
use rustc_codegen_c.CAst.Expr.{
  CExpr, CExprs, nil, cons, var, lit, bin_op, unary_op, cast, deref, addr_of, call, field, index,
  ternary, sizeof, sizeof_type, compound_literal, paren, raw, display, display_items, display_more,
}

-- The texts that an expression copies are balanced.
abbrev mutual
  pub LeavesBalanced : CExpr → Type 0
  LeavesBalanced (var name) = IsBalanced name
  LeavesBalanced (lit s) = IsBalanced s
  LeavesBalanced (bin_op lhs op rhs) = LeavesBalanced lhs × LeavesBalanced rhs
  LeavesBalanced (unary_op op e) = LeavesBalanced e
  LeavesBalanced (cast ty e) = IsBalanced ty × LeavesBalanced e
  LeavesBalanced (deref ty e) = IsBalanced ty × LeavesBalanced e
  LeavesBalanced (addr_of e) = LeavesBalanced e
  LeavesBalanced (call func args) = LeavesBalanced func × ItemsBalanced args
  LeavesBalanced (field e name) = LeavesBalanced e × IsBalanced name
  LeavesBalanced (index e i) = LeavesBalanced e × LeavesBalanced i
  LeavesBalanced (ternary c a b) = LeavesBalanced c × LeavesBalanced a × LeavesBalanced b
  LeavesBalanced (sizeof e) = LeavesBalanced e
  LeavesBalanced (sizeof_type ty) = IsBalanced ty
  LeavesBalanced (compound_literal ty elts) = IsBalanced ty × ItemsBalanced elts
  LeavesBalanced (paren e) = LeavesBalanced e
  LeavesBalanced (raw s) = IsBalanced s

  pub ItemsBalanced : CExprs → Type 0
  ItemsBalanced nil = Unit
  ItemsBalanced (cons e es) = LeavesBalanced e × ItemsBalanced es

binop-IsBalanced : (op : CBinOp) → IsBalanced (display_binop op)
unfolding display_binop
binop-IsBalanced CBinOp.add st = refl
binop-IsBalanced _ st = refl

unary-IsBalanced : (op : CUnaryOp) → IsBalanced (display_unary op)
unfolding display_unary
unary-IsBalanced CUnaryOp.neg st = refl
unary-IsBalanced _ st = refl

mutual
  unfolding display

  expr-IsBalanced : (e : CExpr) → LeavesBalanced e → IsBalanced (display e)
  expr-IsBalanced (var name) h = h
  expr-IsBalanced (lit s) h = h
  expr-IsBalanced (bin_op lhs op rhs) (hl, hr) = λ st.
      scan_over (display lhs) _ st (expr-IsBalanced lhs hl)
      ∙ scan_over (display_binop op) _ st (binop-IsBalanced op)
      ∙ expr-IsBalanced rhs hr st
  expr-IsBalanced (unary_op op e) h = λ st.
      scan_over (display_unary op) _ st (unary-IsBalanced op)
      ∙ scan_over (display e) _ _ (expr-IsBalanced e h)
  expr-IsBalanced (cast ty e) (ht, h) = λ st. scan_over ty _ _ ht ∙ expr-IsBalanced e h st
  expr-IsBalanced (deref ty e) (ht, h) = λ st. scan_over ty _ _ ht ∙ expr-IsBalanced e h st
  expr-IsBalanced (addr_of e) h = λ st. expr-IsBalanced e h st
  expr-IsBalanced (call func args) (hf, ha) = λ st.
      scan_over (display func) _ st (expr-IsBalanced func hf)
      ∙ scan_over (display_items args) _ _ (items-IsBalanced args ha)
  expr-IsBalanced (field e name) (h, hn) =
      λ st. scan_over (display e) _ st (expr-IsBalanced e h) ∙ hn st
  expr-IsBalanced (index e i) (h, hi) = λ st.
      scan_over (display e) _ st (expr-IsBalanced e h)
      ∙ scan_over (display i) _ _ (expr-IsBalanced i hi)
  expr-IsBalanced (ternary c a b) (hc, ha, hb) = λ st.
      scan_over (display c) _ _ (expr-IsBalanced c hc)
      ∙ scan_over (display a) _ _ (expr-IsBalanced a ha)
      ∙ scan_over (display b) _ _ (expr-IsBalanced b hb)
  expr-IsBalanced (sizeof e) h = λ st. scan_over (display e) _ _ (expr-IsBalanced e h)
  expr-IsBalanced (sizeof_type ty) h = λ st. scan_over ty _ _ h
  expr-IsBalanced (compound_literal ty elts) (ht, h) =
      λ st. scan_over ty _ _ ht ∙ scan_over (display_items elts) _ _ (items-IsBalanced elts h)
  expr-IsBalanced (paren e) h = λ st. scan_over (display e) _ _ (expr-IsBalanced e h)
  expr-IsBalanced (raw s) h = h

  items-IsBalanced : (es : CExprs) → ItemsBalanced es → IsBalanced (display_items es)
  items-IsBalanced nil h = λ st. refl
  items-IsBalanced (cons e es) (h, hs) =
      append-IsBalanced (display e) _ (expr-IsBalanced e h) (more-IsBalanced es hs)

  more-IsBalanced : (es : CExprs) → ItemsBalanced es → IsBalanced (display_more es)
  more-IsBalanced nil h = λ st. refl
  more-IsBalanced (cons e es) (h, hs) =
      append-IsBalanced (display e) _ (expr-IsBalanced e h) (more-IsBalanced es hs)

-- An expression whose copied texts have matching brackets is printed as a text with matching
-- brackets.
pub display-IsBalanced : (e : CExpr) → LeavesBalanced e → IsBalanced (display e)
display-IsBalanced e h = expr-IsBalanced e h
