-- ===== src/Module/Balance.antt =====
-- src/module.rs: a function whose parts are balanced is written as a balanced text. The builder's
-- operations on a function keep its parts balanced.
use rustc_codegen_c.Prelude.{
  ℕ, suc, ◌≡◌, refl, ap, ◌∙◌, Bool, true, false, not, ◌&&◌, List, [], ◌∷◌, ◌++◌, Option, none, some,
  All, All-append, if◌then◌else◌, ℕ_discrete,
}
use rustc_codegen_c.Prelude.Text.{Text, str, fmt, fmt_line, newline, contains_text}
use rustc_codegen_c.Prelude.Dict.{get}
use rustc_codegen_c.Prelude.Brackets.{
  IsBalanced, scan, scan_over, scan-append, and_then, append-IsBalanced, join-IsBalanced,
}
use rustc_codegen_c.Prelude.Outcome.{ok, Gives, Gives-bind, Gives-ok, Gives-of-ok}
use rustc_codegen_c.CAst.Stmt.{CStmt, stmts}
use rustc_codegen_c.CAst.StmtBrackets.{StmtBalanced, StmtsBalanced, print_stmts-IsBalanced}
use rustc_codegen_c.CAst.Printer.{print_stmts}
use rustc_codegen_c.Types.Kind.{TypeRef}
use rustc_codegen_c.Types.Store.{TypeStore}
use rustc_codegen_c.Types.Render.{render, render_decl}
use rustc_codegen_c.Types.Brackets.{NamesBalanced, render-IsBalanced, render_decl-IsBalanced}
use rustc_codegen_c.Module.Function.{
  BasicBlockData, FunctionDef, BasicBlockId, emit, set_terminated, add_local_decl, new_block,
  push_stmt, end_block,
}
use rustc_codegen_c.Module.Blocks.{BlocksBelow, All-modify, new_block-blocks}
use rustc_codegen_c.Module.Render.{
  param_text, params_from, is_empty, fixed_params, params_joined, decl_lines, block_text,
  block_texts, weak_pragma, signature_line, render_function,
}

abbrev pub BlockBalanced : BasicBlockData → Type 0
BlockBalanced b = IsBalanced b.label × StmtsBalanced (stmts b.statements)

-- The texts that a function copies are balanced.
pub record FunctionBalanced (f : FunctionDef) : Type 0 where
  pub name : IsBalanced f.name
  pub prefix : IsBalanced f.linkage_prefix
  pub params : All (λ p. IsBalanced p.1) f.params
  pub overrides :
      (i : ℕ) (t : Text) → get ℕ_discrete f.param_type_overrides i ≡ some t → IsBalanced t
  pub decls : All IsBalanced f.local_decls
  pub blocks : All (λ p. BlockBalanced p.1) f.blocks

fmt_line-IsBalanced : (ts : List Text) → IsBalanced (fmt ts) → IsBalanced (fmt_line ts)
fmt_line-IsBalanced ts h = append-IsBalanced (fmt ts) newline h λ st. refl

-- A choice of two balanced texts.
if-IsBalanced :
    (b : Bool) (s t : Text) → IsBalanced s → IsBalanced t → IsBalanced (if b then s else t)
if-IsBalanced true s t hs ht = hs
if-IsBalanced false s t hs ht = ht

nil-IsBalanced : IsBalanced []
nil-IsBalanced st = refl

module _ (types : TypeStore) (names : NamesBalanced types) where
  param_text-Gives :
      (ty : TypeRef) (name : Text) (o : Option Text)
      → IsBalanced name
      → ((t : Text) → o ≡ some t → IsBalanced t)
      → Gives IsBalanced (param_text types ty name o)
  param_text-Gives ty name none hn ho =
      Gives-of-ok (render_decl types ty name) λ x e. render_decl-IsBalanced types names ty name hn e
  param_text-Gives ty name (some t) hn ho = λ st. scan_over t _ st (ho t refl) ∙ hn st

  params_from-Gives :
      (overrides : List (ℕ × Text)) (i : ℕ) (params : List (TypeRef × Text))
      → All (λ p. IsBalanced p.1) params
      → ((i : ℕ) (t : Text) → get ℕ_discrete overrides i ≡ some t → IsBalanced t)
      → Gives (All IsBalanced) (params_from types overrides i params)
  unfolding params_from
  params_from-Gives overrides i [] hp ho = tt
  params_from-Gives overrides i ((ty, name) ∷ params) (h, hs) ho =
      Gives-bind IsBalanced (All IsBalanced) (param_text types ty name (get ℕ_discrete overrides i))
        _ (param_text-Gives ty name (get ℕ_discrete overrides i) h (ho i))
        λ x hx.
          Gives-bind (All IsBalanced) (All IsBalanced) (params_from types overrides (suc i) params)
            _ (params_from-Gives overrides (suc i) params hs ho) λ xs hxs. (hx, hxs)

fixed_params-IsBalanced :
    (xs : List Text) (variadic : Bool) → All IsBalanced xs → IsBalanced (fixed_params xs variadic)
fixed_params-IsBalanced [] true h = nil-IsBalanced
fixed_params-IsBalanced [] false h = λ st. refl
fixed_params-IsBalanced (x ∷ xs) variadic h = join-IsBalanced (str ", ") (x ∷ xs) (λ st. refl) h

params_joined-IsBalanced :
    (xs : List Text) (variadic : Bool) → All IsBalanced xs → IsBalanced (params_joined xs variadic)
unfolding params_joined
params_joined-IsBalanced xs false h = fixed_params-IsBalanced xs false h
params_joined-IsBalanced xs true h =
    append-IsBalanced (if is_empty fixed then fixed else fixed ++ str ", ") (str "...")
      (if-IsBalanced (is_empty fixed) fixed (fixed ++ str ", ") hf
        (append-IsBalanced fixed (str ", ") hf λ st. refl))
      (λ st. refl)
  where
    fixed : Text
    fixed = fixed_params xs true

    hf : IsBalanced fixed
    hf = fixed_params-IsBalanced xs true h

decl_lines-IsBalanced : (ds : List Text) → All IsBalanced ds → IsBalanced (decl_lines ds)
unfolding decl_lines
decl_lines-IsBalanced [] _ = nil-IsBalanced
decl_lines-IsBalanced (d ∷ ds) (h, hs) =
    append-IsBalanced (fmt_line (str "  " ∷ d ∷ [])) _ (fmt_line-IsBalanced (str "  " ∷ d ∷ []) h)
      (decl_lines-IsBalanced ds hs)

block_text-IsBalanced : (b : BasicBlockData) → BlockBalanced b → IsBalanced (block_text b)
unfolding block_text
block_text-IsBalanced b (hl, hs) =
    append-IsBalanced (fmt_line (b.label ∷ str ":" ∷ [])) _
      (fmt_line-IsBalanced (b.label ∷ str ":" ∷ [])
        (append-IsBalanced b.label (str ":") hl λ st. refl))
      (append-IsBalanced (print_stmts b.statements 1) _ (print_stmts-IsBalanced b.statements 1 hs) (
        if-IsBalanced (not b.terminated) (fmt_line (str "  ; /* fallthrough */" ∷ [])) []
          (λ st. refl) nil-IsBalanced))

block_texts-IsBalanced :
    (bs : List (ℕ × BasicBlockData)) → All (λ p. BlockBalanced p.1) bs → IsBalanced (block_texts bs)
unfolding block_texts
block_texts-IsBalanced [] _ = nil-IsBalanced
block_texts-IsBalanced ((id, b) ∷ bs) (h, hs) =
    append-IsBalanced (block_text b) _ (block_text-IsBalanced b h) (block_texts-IsBalanced bs hs)

pragma-IsBalanced : (f : FunctionDef) → IsBalanced f.name → IsBalanced (weak_pragma f)
unfolding weak_pragma
pragma-IsBalanced f h =
    if-IsBalanced (f.is_weak && not (contains_text f.linkage_prefix (str "static"))) _ []
      (fmt_line-IsBalanced (str "#pragma weak " ∷ f.name ∷ []) λ st. h st) nil-IsBalanced

-- The line of the signature before its end.
abbrev signature_text : FunctionDef → Text → List Text → Text
signature_text f ret xs = fmt (
    f.linkage_prefix
    ∷ ret
    ∷ str " "
    ∷ f.name
    ∷ str "("
    ∷ params_joined xs f.is_variadic
    ∷ str ") {"
    ∷ [])

-- The line of the signature leaves one curly bracket open.
signature_line-scan :
    (f : FunctionDef) (ret : Text) (xs : List Text) (rest : Text) (st : List ℕ)
    → FunctionBalanced f
    → IsBalanced ret
    → All IsBalanced xs
    → scan (signature_line f ret xs ++ rest) st ≡ scan rest (b'}' ∷ st)
unfolding signature_line
signature_line-scan f ret xs rest st h hr hxs =
    scan-append (signature_line f ret xs) rest st
    ∙ ap (λ r. and_then r (scan rest))
        (scan-append (signature_text f ret xs) newline st
          ∙ ap (λ r. and_then r (scan newline))
              (scan_over f.linkage_prefix _ st h.prefix
                ∙ scan_over ret _ _ hr
                ∙ scan_over f.name _ _ h.name
                ∙ scan_over (params_joined xs f.is_variadic) _ _
                    (params_joined-IsBalanced xs f.is_variadic hxs)))

module _ (types : TypeStore) (names : NamesBalanced types) where
  -- If a function is written, its text has matching brackets, the braces of its body included,
  -- provided that its name, prefix, parameters, declarations, labels and statements and the struct
  -- names have.
  pub render_function-IsBalanced :
      (f : FunctionDef) {t : Text}
      → FunctionBalanced f
      → render_function f types ≡ ok t
      → IsBalanced t
  unfolding render_function
  render_function-IsBalanced f h e =
      Gives-ok IsBalanced (render_function f types)
        (Gives-bind (All IsBalanced) IsBalanced
          (params_from types f.param_type_overrides 0 f.params) _
          (params_from-Gives types names f.param_type_overrides 0 f.params h.params h.overrides)
          λ xs hxs.
            Gives-bind IsBalanced IsBalanced (render types f.return_type) _
              (Gives-of-ok (render types f.return_type)
                λ x hx. render-IsBalanced types names f.return_type hx)
              λ ret hr st.
                scan_over (weak_pragma f) _ st (pragma-IsBalanced f h.name)
                ∙ signature_line-scan f ret xs _ st h hr hxs
                ∙ scan_over (decl_lines f.local_decls) _ _
                    (decl_lines-IsBalanced f.local_decls h.decls)
                ∙ scan_over (if not (is_empty f.local_decls) then newline else []) _ _ (
                    if-IsBalanced (not (is_empty f.local_decls)) newline [] (λ st. refl)
                      nil-IsBalanced)
                ∙ scan_over (block_texts f.blocks) _ _ (block_texts-IsBalanced f.blocks h.blocks))
        e

push-StmtsBalanced :
    (ss : List CStmt) (s : CStmt)
    → StmtsBalanced (stmts ss)
    → StmtBalanced s
    → StmtsBalanced (stmts (ss ++ s ∷ []))
push-StmtsBalanced [] s _ h = (h, tt)
push-StmtsBalanced (t ∷ ss) s (ht, hs) h = (ht, push-StmtsBalanced ss s hs h)

-- A call of the builder keeps a function ready to be written.
pub emit-FunctionBalanced :
    (f : FunctionDef) (bb : BasicBlockId) (stmt : CStmt)
    → StmtBalanced stmt
    → FunctionBalanced f
    → FunctionBalanced (emit f bb stmt)
unfolding emit
emit-FunctionBalanced f bb stmt hs h = record {
  name = h.name;
  prefix = h.prefix;
  params = h.params;
  overrides = h.overrides;
  decls = h.decls;
  blocks =
      All-modify (λ p. BlockBalanced p.1) f.blocks bb (push_stmt stmt)
        (λ i b hb. (hb.0, push-StmtsBalanced b.statements stmt hb.1 hs)) h.blocks;
}

pub set_terminated-FunctionBalanced :
    (f : FunctionDef) (bb : BasicBlockId)
    → FunctionBalanced f
    → FunctionBalanced (set_terminated f bb)
unfolding set_terminated
set_terminated-FunctionBalanced f bb h = record {
  name = h.name;
  prefix = h.prefix;
  params = h.params;
  overrides = h.overrides;
  decls = h.decls;
  blocks = All-modify (λ p. BlockBalanced p.1) f.blocks bb end_block (λ i b hb. hb) h.blocks;
}

pub add_local_decl-FunctionBalanced :
    (f : FunctionDef) (decl : Text)
    → IsBalanced decl
    → FunctionBalanced f
    → FunctionBalanced (add_local_decl f decl)
unfolding add_local_decl
add_local_decl-FunctionBalanced f decl hd h = record {
  name = h.name;
  prefix = h.prefix;
  params = h.params;
  overrides = h.overrides;
  blocks = h.blocks;
  decls = All-append IsBalanced f.local_decls (decl ∷ []) h.decls (hd, tt);
}

-- Where the blocks' numbers are below the counter, a new block with a label that has matching
-- brackets keeps every text of the function so.
pub new_block-FunctionBalanced :
    (f : FunctionDef) (label : Text)
    → IsBalanced label
    → BlocksBelow f
    → FunctionBalanced f
    → FunctionBalanced (new_block f label).0
new_block-FunctionBalanced f label hl below h = record {
  name = unfold new_block in h.name;
  prefix = unfold new_block in h.prefix;
  params = unfold new_block in h.params;
  overrides = unfold new_block in h.overrides;
  decls = unfold new_block in h.decls;
  blocks =
      rw (new_block-blocks f label below)
        (All-append (λ p. BlockBalanced p.1) f.blocks _ h.blocks ((hl, tt), tt));
}
