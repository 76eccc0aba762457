-- ===== src/CAst/Printer.antt =====
-- src/c_ast.rs: the pretty printer. A method that takes `&mut self` returns the new printer.
use rustc_codegen_c.Prelude.{ℕ, zero, suc, ◌+◌, ◌-◌, List, [], ◌∷◌, ◌++◌, none, some}
use rustc_codegen_c.Prelude.Text.{Text, str, fmt, newline, lines}
use rustc_codegen_c.CAst.Expr.{CExpr, display}
use rustc_codegen_c.CAst.Stmt.{
  CStmt, CStmts, assign, expr, return, goto, cond_goto, switch, unreachable, do_while, fallthrough,
  raw, nil, cons, stmts,
}

pub record PrettyPrinter : Type 0 where
  pub buf : Text
  pub indent : ℕ

-- `self.buf.push_str(text)`, and `write!(self.buf, …)`
abbrev pub push_str : Text → PrettyPrinter → PrettyPrinter
push_str text pp = record pp { buf = pp.buf ++ text }

unfoldable pub push_spaces : ℕ → PrettyPrinter → PrettyPrinter
push_spaces zero pp = pp
push_spaces (suc n) pp = push_spaces n (push_str (str "  ") pp)

unfoldable pub push_indent : PrettyPrinter → PrettyPrinter
unfolding push_spaces
push_indent pp = push_spaces pp.indent pp

unfoldable pub push_newline : PrettyPrinter → PrettyPrinter
push_newline pp = push_str newline pp

unfoldable pub line : Text → PrettyPrinter → PrettyPrinter
unfolding push_indent push_newline
line text pp = push_newline (push_str text (push_indent pp))

unfoldable pub indent : PrettyPrinter → PrettyPrinter
indent pp = record pp { indent = pp.indent + 1 }

unfoldable pub dedent : PrettyPrinter → PrettyPrinter
dedent pp = record pp { indent = pp.indent - 1 }

unfoldable pub fmt_expr : CExpr → PrettyPrinter → PrettyPrinter
unfolding display
fmt_expr e pp = push_str (display e) pp

-- `push_indent`, one `write!`, `push_newline`: what most statements do.
unfoldable pub write_line : List Text → PrettyPrinter → PrettyPrinter
unfolding push_indent push_newline
write_line parts pp = push_newline (push_str (fmt parts) (push_indent pp))

-- `for (val, label) in cases`
unfoldable pub fmt_cases : List (CExpr × Text) → PrettyPrinter → PrettyPrinter
unfolding write_line display
fmt_cases [] pp = pp
fmt_cases ((val, label) ∷ cases) pp =
    fmt_cases cases
      (write_line (str "case " ∷ display val ∷ str ": goto " ∷ label ∷ str ";" ∷ []) pp)

-- `for raw_line in s.lines()`
unfoldable pub fmt_raw : List Text → PrettyPrinter → PrettyPrinter
unfolding line
fmt_raw [] pp = pp
fmt_raw (raw_line ∷ rest) pp = fmt_raw rest (line raw_line pp)

unfoldable mutual
  pub fmt_stmt : CStmt → PrettyPrinter → PrettyPrinter
  fmt_stmt (assign target value) pp =
      write_line (display target ∷ str " = " ∷ display value ∷ str ";" ∷ []) pp
  fmt_stmt (expr e) pp = write_line (display e ∷ str ";" ∷ []) pp
  fmt_stmt (return none) pp = line (str "return;") pp
  fmt_stmt (return (some e)) pp = write_line (str "return " ∷ display e ∷ str ";" ∷ []) pp
  fmt_stmt (goto label) pp = write_line (str "goto " ∷ label ∷ str ";" ∷ []) pp
  fmt_stmt (cond_goto cond then_label else_label) pp =
      write_line
        (str "if ("
          ∷ display cond
          ∷ str ") goto "
          ∷ then_label
          ∷ str "; else goto "
          ∷ else_label
          ∷ str ";"
          ∷ [])
        pp
  fmt_stmt (switch e cases default) pp =
      let opened = indent (write_line (str "switch (" ∷ display e ∷ str ") {" ∷ []) pp) in
      let listed = fmt_cases cases opened in
      line (str "}") (dedent (write_line (str "default: goto " ∷ default ∷ str ";" ∷ []) listed))
  fmt_stmt unreachable pp = line (str "abort();") pp
  fmt_stmt (do_while body cond) pp =
      let inner = fmt_stmts body (indent (line (str "do {") pp)) in
      write_line (str "} while (" ∷ display cond ∷ str ");" ∷ []) (dedent inner)
  fmt_stmt fallthrough pp = line (str "; /* fallthrough */") pp
  fmt_stmt (raw s) pp = fmt_raw (lines s) pp

  pub fmt_stmts : CStmts → PrettyPrinter → PrettyPrinter
  fmt_stmts nil pp = pp
  fmt_stmts (cons s ss) pp = fmt_stmts ss (fmt_stmt s pp)

-- `PrettyPrinter::with_indent` on a node whose `fmt_c` is given, and `finish` or `to_string`.
unfoldable pub with_indent : (PrettyPrinter → PrettyPrinter) → ℕ → PrettyPrinter
with_indent fmt_c level = fmt_c (record { buf = []; indent = level })

unfoldable pub new : (PrettyPrinter → PrettyPrinter) → PrettyPrinter
unfolding with_indent
new fmt_c = with_indent fmt_c 0

abbrev pub finish : PrettyPrinter → Text
finish pp = pp.buf

-- `PrettyPrinter::with_indent(&statements, level).to_string()`
unfoldable pub print_stmts : List CStmt → ℕ → Text
unfolding with_indent fmt_stmts write_line line indent dedent fmt_cases fmt_raw lines display
print_stmts ss level = finish (with_indent (fmt_stmts (stmts ss)) level)
