-- ===== src/CAst/Layout.antt =====
-- src/c_ast.rs: what the pretty printer writes. `layout` says it without a printer: the text of a
-- statement at an indent level. The printer appends that text and comes back to its level.
use rustc_codegen_c.Prelude.{
  ℕ, zero, suc, ◌+◌, ◌≡◌, refl, ap, ◌∙◌, List, [], ◌∷◌, ◌++◌, none, some, append_assoc, append-nil,
  arith,
}
use rustc_codegen_c.Prelude.Text.{Text, str, fmt, newline, lines}
use rustc_codegen_c.CAst.Expr.{CExpr, display}
use rustc_codegen_c.CAst.Stmt.{
  CStmt, CStmts, assign, expr, return, goto, cond_goto, switch, unreachable, do_while, fallthrough,
  raw, nil, cons, stmts,
}
use rustc_codegen_c.CAst.Printer.{
  PrettyPrinter, push_str, push_spaces, push_newline, line, indent, dedent, write_line, fmt_cases,
  fmt_raw, fmt_stmt, fmt_stmts, print_stmts,
}

unfoldable pub spaces : ℕ → Text
spaces zero = []
spaces (suc n) = str "  " ++ spaces n

-- One line of output: the indent, the text, a newline.
unfoldable pub text_line : ℕ → Text → Text
text_line n t = spaces n ++ t ++ newline

unfoldable pub layout_cases : ℕ → List (CExpr × Text) → Text
layout_cases n [] = []
layout_cases n ((val, label) ∷ cases) =
    text_line n (fmt (str "case " ∷ display val ∷ str ": goto " ∷ label ∷ str ";" ∷ []))
    ++ layout_cases n cases

unfoldable pub layout_raw : ℕ → List Text → Text
layout_raw n [] = []
layout_raw n (t ∷ ts) = text_line n t ++ layout_raw n ts

unfoldable mutual
  pub layout : ℕ → CStmt → Text
  layout n (assign target value) =
      text_line n (fmt (display target ∷ str " = " ∷ display value ∷ str ";" ∷ []))
  layout n (expr e) = text_line n (fmt (display e ∷ str ";" ∷ []))
  layout n (return none) = text_line n (str "return;")
  layout n (return (some e)) = text_line n (fmt (str "return " ∷ display e ∷ str ";" ∷ []))
  layout n (goto label) = text_line n (fmt (str "goto " ∷ label ∷ str ";" ∷ []))
  layout n (cond_goto cond then_label else_label) = text_line n (
      fmt (
        str "if ("
        ∷ display cond
        ∷ str ") goto "
        ∷ then_label
        ∷ str "; else goto "
        ∷ else_label
        ∷ str ";"
        ∷ []))
  layout n (switch e cases default) = fmt (
      text_line n (fmt (str "switch (" ∷ display e ∷ str ") {" ∷ []))
      ∷ layout_cases (n + 1) cases
      ∷ text_line (n + 1) (fmt (str "default: goto " ∷ default ∷ str ";" ∷ []))
      ∷ text_line n (str "}")
      ∷ [])
  layout n unreachable = text_line n (str "abort();")
  layout n (do_while body cond) = fmt (
      text_line n (str "do {")
      ∷ layout_all (n + 1) body
      ∷ text_line n (fmt (str "} while (" ∷ display cond ∷ str ");" ∷ []))
      ∷ [])
  layout n fallthrough = text_line n (str "; /* fallthrough */")
  layout n (raw s) = layout_raw n (lines s)

  pub layout_all : ℕ → CStmts → Text
  layout_all n nil = []
  layout_all n (cons s ss) = layout n s ++ layout_all n ss

abbrev at_level : ℕ → Text → PrettyPrinter
at_level n t = record { buf = t; indent = n }

push_spaces_lem : (k n : ℕ) (b : Text) → push_spaces k (at_level n b) ≡ at_level n (b ++ spaces k)
unfolding push_spaces spaces
push_spaces_lem zero n b = rw append-nil
push_spaces_lem (suc k) n b = rw (push_spaces_lem k n (b ++ str "  ")) (rw append_assoc)

write_line_lem :
    (n : ℕ) (parts : List Text) (b : Text)
    → write_line parts (at_level n b) ≡ at_level n (b ++ text_line n (fmt parts))
unfolding write_line text_line
write_line_lem n parts b =
    ap (λ pp. push_newline (push_str (fmt parts) pp)) (push_spaces_lem n n b)
    ∙ ap (at_level n) (simp append_assoc)

line_lem : (n : ℕ) (t : Text) (b : Text) → line t (at_level n b) ≡ at_level n (b ++ text_line n t)
unfolding line text_line
line_lem n t b =
    ap (λ pp. push_newline (push_str t pp)) (push_spaces_lem n n b)
    ∙ ap (at_level n) (simp append_assoc)

fmt_cases_lem :
    (n : ℕ) (cases : List (CExpr × Text)) (b : Text)
    → fmt_cases cases (at_level n b) ≡ at_level n (b ++ layout_cases n cases)
unfolding fmt_cases layout_cases
fmt_cases_lem n [] b = rw append-nil
fmt_cases_lem n ((val, label) ∷ cases) b =
    ap (fmt_cases cases)
      (write_line_lem n (str "case " ∷ display val ∷ str ": goto " ∷ label ∷ str ";" ∷ []) b)
    ∙ fmt_cases_lem n cases _
    ∙ ap (at_level n) (append_assoc b _ _)

fmt_raw_lem :
    (n : ℕ) (ts : List Text) (b : Text)
    → fmt_raw ts (at_level n b) ≡ at_level n (b ++ layout_raw n ts)
unfolding fmt_raw layout_raw
fmt_raw_lem n [] b = rw append-nil
fmt_raw_lem n (t ∷ ts) b =
    ap (fmt_raw ts) (line_lem n t b) ∙ fmt_raw_lem n ts _ ∙ ap (at_level n) (append_assoc b _ _)

indent_lem : (n : ℕ) (b : Text) → indent (at_level n b) ≡ at_level (n + 1) b
unfolding indent
indent_lem n b = refl

dedent_lem : (n : ℕ) (b : Text) → dedent (at_level (n + 1) b) ≡ at_level n b
unfolding dedent
dedent_lem n b = ap (λ m. at_level m b) (omega arith)

ruleset printing = (write_line_lem, line_lem, fmt_cases_lem, indent_lem, dedent_lem, append_assoc)

-- A `switch` and a `do` loop raise the level for their bodies and lower it again.
switch_lem :
    (n : ℕ) (e : CExpr) (cases : List (CExpr × Text)) (default b : Text)
    → fmt_stmt (switch e cases default) (at_level n b)
      ≡ at_level n (b ++ layout n (switch e cases default))
unfolding fmt_stmt layout
switch_lem n e cases default b = simp printing

mutual
  unfolding fmt_stmt layout

  fmt_stmt_at :
      (s : CStmt) (n : ℕ) (b : Text) → fmt_stmt s (at_level n b) ≡ at_level n (b ++ layout n s)
  fmt_stmt_at (assign target value) n b = rw write_line_lem
  fmt_stmt_at (expr e) n b = rw write_line_lem
  fmt_stmt_at (return none) n b = rw line_lem
  fmt_stmt_at (return (some e)) n b = rw write_line_lem
  fmt_stmt_at (goto label) n b = rw write_line_lem
  fmt_stmt_at (cond_goto cond then_label else_label) n b = rw write_line_lem
  fmt_stmt_at (switch e cases default) n b = switch_lem n e cases default b
  fmt_stmt_at unreachable n b = rw line_lem
  fmt_stmt_at (do_while body cond) n b = simp (printing, fmt_stmts_at body)
  fmt_stmt_at fallthrough n b = rw line_lem
  fmt_stmt_at (raw s) n b = fmt_raw_lem n (lines s) b

  fmt_stmts_at :
      (ss : CStmts) (n : ℕ) (b : Text)
      → fmt_stmts ss (at_level n b) ≡ at_level n (b ++ layout_all n ss)
  fmt_stmts_at nil n b = rw append-nil
  fmt_stmts_at (cons s ss) n b =
      ap (fmt_stmts ss) (fmt_stmt_at s n b)
      ∙ fmt_stmts_at ss n _
      ∙ ap (at_level n) (append_assoc b _ _)

-- The printer appends to its buffer the layout of the statement at its level, and nothing else:
-- the buffer before it stays, and the level is what it was.
pub fmt_stmt-layout :
    (s : CStmt) (pp : PrettyPrinter)
    → fmt_stmt s pp ≡ record pp { buf = pp.buf ++ layout pp.indent s }
fmt_stmt-layout s pp = fmt_stmt_at s pp.indent pp.buf

-- Printing a list of statements writes their layouts one after the other.
pub print_stmts-layout : (ss : List CStmt) (n : ℕ) → print_stmts ss n ≡ layout_all n (stmts ss)
unfolding print_stmts
print_stmts-layout ss n = ap (λ pp. pp.buf) (fmt_stmts_at (stmts ss) n [])
