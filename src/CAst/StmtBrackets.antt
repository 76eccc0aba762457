-- ===== src/CAst/StmtBrackets.antt =====
-- src/c_ast.rs: printing statements keeps brackets matched, raw statements of several lines
-- included.
use rustc_codegen_c.Prelude.{
  ℕ, zero, suc, ◌+◌, ◌≡◌, refl, sym, ap, fun_ext, ◌∙◌, List, [], ◌∷◌, ◌++◌, none, some, arith,
  append_assoc, append-nil, Bool-cases, ◌==◌, ==_iff, inl, inr,
}
use rustc_codegen_c.Prelude.Text.{Text, str, fmt, newline, lines, lines_from, drop_cr}
use rustc_codegen_c.Prelude.Brackets.{
  IsBalanced, Awaited, scan, scan_char, scan_over, scan-append, and_then, append-IsBalanced,
}
use rustc_codegen_c.CAst.Expr.{CExpr, display}
use rustc_codegen_c.CAst.Brackets.{LeavesBalanced, display-IsBalanced}
use rustc_codegen_c.CAst.Stmt.{
  CStmt, CStmts, assign, expr, return, goto, cond_goto, switch, unreachable, do_while, fallthrough,
  raw, nil, cons, stmts,
}
use rustc_codegen_c.CAst.Printer.{print_stmts}
use rustc_codegen_c.CAst.Layout.{
  spaces, text_line, layout_cases, layout_raw, layout, layout_all, print_stmts-layout,
}

abbrev pub CasesBalanced : List (CExpr × Text) → Type 0
CasesBalanced [] = Unit
CasesBalanced ((val, label) ∷ cases) = LeavesBalanced val × IsBalanced label × CasesBalanced cases

-- The texts that a statement copies are balanced.
abbrev mutual
  pub StmtBalanced : CStmt → Type 0
  StmtBalanced (assign target value) = LeavesBalanced target × LeavesBalanced value
  StmtBalanced (expr e) = LeavesBalanced e
  StmtBalanced (return none) = Unit
  StmtBalanced (return (some e)) = LeavesBalanced e
  StmtBalanced (goto label) = IsBalanced label
  StmtBalanced (cond_goto cond a b) = LeavesBalanced cond × IsBalanced a × IsBalanced b
  StmtBalanced (switch e cases default) =
      LeavesBalanced e × CasesBalanced cases × IsBalanced default
  StmtBalanced unreachable = Unit
  StmtBalanced (do_while body cond) = StmtsBalanced body × LeavesBalanced cond
  StmtBalanced fallthrough = Unit
  StmtBalanced (raw s) = IsBalanced s

  pub StmtsBalanced : CStmts → Type 0
  StmtsBalanced nil = Unit
  StmtsBalanced (cons s ss) = StmtBalanced s × StmtsBalanced ss

spaces-IsBalanced : (n : ℕ) → IsBalanced (spaces n)
unfolding spaces
spaces-IsBalanced zero st = refl
spaces-IsBalanced (suc n) st = spaces-IsBalanced n st

-- Indent and newline hold no bracket.
scan-text_line :
    (n : ℕ) (t rest : Text) (st : Awaited)
    → scan (text_line n t ++ rest) st ≡ and_then (scan t st) (scan rest)
unfolding text_line
scan-text_line n t rest st =
    rw (append_assoc (spaces n ++ t) newline rest, append_assoc (spaces n) t (newline ++ rest))
      (scan_over (spaces n) _ st (spaces-IsBalanced n) ∙ scan-append t (newline ++ rest) st)

-- A line is passed over by the state that its text leads to.
text_line_step :
    (n : ℕ) (t rest : Text) (st st' : Awaited)
    → scan t st ≡ some st'
    → scan (text_line n t ++ rest) st ≡ scan rest st'
text_line_step n t rest st st' h = scan-text_line n t rest st ∙ ap (λ r. and_then r (scan rest)) h

-- A line at the end of a text.
text_line_last :
    (n : ℕ) (t : Text) (st st' : Awaited)
    → scan t st ≡ some st'
    → scan (text_line n t) st ≡ some st'
text_line_last n t st st' h =
    ap (λ u. scan u st) (sym (append-nil (text_line n t))) ∙ text_line_step n t [] st st' h

text_line-IsBalanced : (n : ℕ) (t : Text) → IsBalanced t → IsBalanced (text_line n t)
text_line-IsBalanced n t h st = text_line_last n t st st (h st)

scan-drop_cr : (t : Text) (st : Awaited) → scan (drop_cr t) st ≡ scan t st
scan-drop_cr [] st = refl
scan-drop_cr (c ∷ []) st = ground arith
scan-drop_cr (c ∷ d ∷ t) st = ap (and_then (scan_char c st)) (fun_ext (scan-drop_cr (d ∷ t)))

-- The lines of a text are scanned as the text is.
scan-lines_from :
    (n : ℕ) (t cur : Text) (st : Awaited)
    → scan (layout_raw n (lines_from t cur)) st ≡ scan (cur ++ t) st
unfolding lines_from layout_raw
scan-lines_from n [] [] st = refl
scan-lines_from n [] (c ∷ cur) st =
    scan-text_line n (c ∷ cur) [] st ∙ sym (scan-append (c ∷ cur) [] st)
scan-lines_from n (c ∷ t) cur st = elim (Bool-cases (c == 10)) [
  | inl ends ↦ rw ends (
      scan-text_line n (drop_cr cur) _ st
      ∙ ap (λ r. and_then r (scan (layout_raw n (lines_from t [])))) (scan-drop_cr cur st)
      ∙ ap (and_then (scan cur st)) (fun_ext (scan-lines_from n t []))
      ∙ ap (and_then (scan cur st)) (ap (λ d. scan (d ∷ t)) (sym ((==_iff c 10).0 ends)))
      ∙ sym (scan-append cur (c ∷ t) st))
  | inr goes ↦
      rw goes
        (scan-lines_from n t (cur ++ c ∷ []) st ∙ ap (λ u. scan u st) (append_assoc cur (c ∷ []) t))
]

-- A raw statement may hold brackets that close on a later line of it.
raw-IsBalanced : (n : ℕ) (s : Text) → IsBalanced s → IsBalanced (layout_raw n (lines s))
unfolding lines
raw-IsBalanced n s h st = scan-lines_from n s [] st ∙ h st

cases-IsBalanced :
    (n : ℕ) (cases : List (CExpr × Text)) → CasesBalanced cases → IsBalanced (layout_cases n cases)
unfolding layout_cases
cases-IsBalanced n [] _ = λ st. refl
cases-IsBalanced n ((val, label) ∷ cases) (hv, hl, hs) =
    append-IsBalanced (text_line n _) _
      (text_line-IsBalanced n
        (fmt (str "case " ∷ display val ∷ str ": goto " ∷ label ∷ str ";" ∷ []))
        λ st. scan_over (display val) _ st (display-IsBalanced val hv) ∙ scan_over label _ st hl)
      (cases-IsBalanced n cases hs)

mutual
  unfolding layout

  stmt-IsBalanced : (n : ℕ) (s : CStmt) → StmtBalanced s → IsBalanced (layout n s)
  stmt-IsBalanced n (assign target value) (ht, hv) = text_line-IsBalanced n _ λ st.
      scan_over (display target) _ st (display-IsBalanced target ht)
      ∙ scan_over (display value) _ st (display-IsBalanced value hv)
  stmt-IsBalanced n (expr e) h =
      text_line-IsBalanced n _ λ st. scan_over (display e) _ st (display-IsBalanced e h)
  stmt-IsBalanced n (return none) h = text_line-IsBalanced n _ λ st. refl
  stmt-IsBalanced n (return (some e)) h =
      text_line-IsBalanced n _ λ st. scan_over (display e) _ st (display-IsBalanced e h)
  stmt-IsBalanced n (goto label) h = text_line-IsBalanced n _ λ st. scan_over label _ st h
  stmt-IsBalanced n (cond_goto cond a b) (hc, ha, hb) = text_line-IsBalanced n _ λ st.
      scan_over (display cond) _ _ (display-IsBalanced cond hc)
      ∙ scan_over a _ st ha
      ∙ scan_over b _ st hb
  stmt-IsBalanced n (switch e cases default) (he, hc, hd) = λ st.
      text_line_step n _ _ st (b'}' ∷ st) (scan_over (display e) _ _ (display-IsBalanced e he))
      ∙ scan_over (layout_cases (n + 1) cases) _ _ (cases-IsBalanced (n + 1) cases hc)
      ∙ text_line_step (n + 1) (fmt (str "default: goto " ∷ default ∷ str ";" ∷ [])) _ _ _
          (scan_over default _ _ hd)
      ∙ text_line_last n (str "}") _ st refl
  stmt-IsBalanced n unreachable h = text_line-IsBalanced n _ λ st. refl
  stmt-IsBalanced n (do_while body cond) (hb, hc) = λ st.
      text_line_step n (str "do {") _ st (b'}' ∷ st) refl
      ∙ scan_over (layout_all (n + 1) body) _ _ (stmts-IsBalanced (n + 1) body hb)
      ∙ text_line_last n (fmt (str "} while (" ∷ display cond ∷ str ");" ∷ [])) _ st
          (scan_over (display cond) _ _ (display-IsBalanced cond hc))
  stmt-IsBalanced n fallthrough h = text_line-IsBalanced n _ λ st. refl
  stmt-IsBalanced n (raw s) h = raw-IsBalanced n s h

  stmts-IsBalanced : (n : ℕ) (ss : CStmts) → StmtsBalanced ss → IsBalanced (layout_all n ss)
  stmts-IsBalanced n nil h = λ st. refl
  stmts-IsBalanced n (cons s ss) (h, hs) =
      append-IsBalanced (layout n s) _ (stmt-IsBalanced n s h) (stmts-IsBalanced n ss hs)

-- Statements whose copied texts have matching brackets are printed as a text with matching
-- brackets, at every level.
pub print_stmts-IsBalanced :
    (ss : List CStmt) (n : ℕ) → StmtsBalanced (stmts ss) → IsBalanced (print_stmts ss n)
print_stmts-IsBalanced ss n h = rw print_stmts-layout (stmts-IsBalanced n (stmts ss) h)
