-- ===== src/Module/Declarations.antt =====
-- src/module.rs: `CModule::to_c_source` reads off a written function what the function is, and
-- leaves out the declarations that its definitions contradict.
use rustc_codegen_c.Prelude.{
  ℕ, suc, ◌≡◌, refl, sym, ap, ◌∙◌, true, false, not, List, [], ◌∷◌, ◌++◌, Option, none, some, ◌⊎◌,
  All, All-append, length, arith, ◌==◌, if◌then◌else◌, append_assoc, subst, ℕ_discrete, inl, inr,
}
use mathlib.Core.Logic.{◌≢◌}
use rustc_codegen_c.Prelude.Text.{Text, str, fmt, fmt_line}
use rustc_codegen_c.Prelude.Outcome.{ok, >>=-eq-ok, Gives-ok}
use rustc_codegen_c.Prelude.Dict.{get}
use rustc_codegen_c.Types.Kind.{TypeRef}
use rustc_codegen_c.Types.Store.{TypeStore}
use rustc_codegen_c.Types.Render.{render}
use rustc_codegen_c.Module.Function.{FunctionDef}
use rustc_codegen_c.Module.Render.{
  param_text, params_from, params_joined, weak_pragma, signature_line, render_function,
}
use rustc_codegen_c.Module.Defined.{
  Says, DefinedWith, DefinedWith-unique, DefinedWith-not_Undefined, defined_sigs_count,
}
use rustc_codegen_c.Module.Signature.{
  defined_sigs, Lacks, NoSpaces, param_count, signature_of, signature_of-function, skips,
  kept_decls,
}
use rustc_codegen_c.Module.ParamTexts.{
  SaysParams, count-params_joined, params_joined-Lacks, pragma-Lacks,
}

-- The number of parameters is kept on the way to their texts.
length-params_from :
    (types : TypeStore) (overrides : List (ℕ × Text)) (i : ℕ) (params : List (TypeRef × Text))
    {xs : List Text}
    → params_from types overrides i params ≡ ok xs
    → length xs ≡ length params
unfolding params_from
length-params_from types overrides i [] e = Gives-ok (λ ys. length ys ≡ 0) (ok []) refl e
length-params_from types overrides i ((ty, name) ∷ params) e =
    let (x, hx, e1) = >>=-eq-ok (param_text types ty name (get ℕ_discrete overrides i)) _ e in
    let (ys, hys, e2) = >>=-eq-ok (params_from types overrides (suc i) params) _ e1 in
    Gives-ok (λ zs. length zs ≡ suc (length params)) (ok (x ∷ ys))
      (ap suc (length-params_from types overrides (suc i) params hys)) e2

function_text :
    (pragma prefix ret name params tail : Text)
    → fmt (
        pragma
        ∷ fmt_line (prefix ∷ ret ∷ str " " ∷ name ∷ str "(" ∷ params ∷ str ") {" ∷ [])
        ∷ tail
        ∷ [])
      ≡ fmt (
          (pragma ++ prefix ++ ret)
          ∷ str " "
          ∷ name
          ∷ str "("
          ∷ params
          ∷ str ")"
          ∷ (str " {\n" ++ tail)
          ∷ [])
function_text pragma prefix ret name params tail = simp append_assoc

-- What `to_c_source` relies on in the parts of a function.
pub record IsReadable (types : TypeStore) (f : FunctionDef) : Type 0 where
  pub fixed : f.is_variadic ≡ false
  pub name : Lacks b'(' f.name × NoSpaces f.name
  pub prefix : Lacks b'(' f.linkage_prefix
  pub ret : (x : Text) → render types f.return_type ≡ ok x → Lacks b'(' x
  pub params :
      (xs : List Text)
      → params_from types f.param_type_overrides 0 f.params ≡ ok xs
      → All (Lacks b',') xs × All (Lacks b')') xs × SaysParams xs

-- `to_c_source` reads off a written function its name and the number of its parameters, where the
-- function is not variadic, neither its name nor what stands before it has an opening bracket, the
-- name has no white space, and the parameters' texts have no commas and closing brackets and do
-- not read as `void` or blank.
pub signature_of-render_function :
    (types : TypeStore) (f : FunctionDef) {t : Text}
    → IsReadable types f
    → render_function f types ≡ ok t
    → signature_of t ≡ ok (some (f.name, length f.params))
unfolding render_function signature_line
signature_of-render_function types f h e =
    let (xs, hxs, e1) = >>=-eq-ok (params_from types f.param_type_overrides 0 f.params) _ e in
    let (ret, hret, e2) = >>=-eq-ok (render types f.return_type) _ e1 in
    let (commas, brackets, says) = h.params xs hxs in
    let before =
      All-append (λ d. (d == b'(') ≡ false) (weak_pragma f ++ f.linkage_prefix) ret
        (All-append (λ d. (d == b'(') ≡ false) (weak_pragma f) f.linkage_prefix
          (pragma-Lacks f h.name.0) h.prefix)
        (h.ret ret hret) in
    let closed =
      subst (λ v. Lacks b')' (params_joined xs v)) (sym h.fixed)
        (params_joined-Lacks xs brackets) in
    let count =
      subst (λ v. param_count (params_joined xs v) ≡ length xs) (sym h.fixed)
        (count-params_joined xs commas says) in
    Gives-ok (λ t. signature_of t ≡ ok (some (f.name, length f.params))) _
      (ap signature_of (
          function_text (weak_pragma f) f.linkage_prefix ret f.name (params_joined xs f.is_variadic)
            _)
        ∙ signature_of-function (weak_pragma f ++ f.linkage_prefix ++ ret) f.name
            (params_joined xs f.is_variadic) _ before h.name.0 h.name.1 closed
        ∙ ap (λ n. ok (some (f.name, n)))
            (count ∙ length-params_from types f.param_type_overrides 0 f.params hxs))
      e2

-- The declaration is of a function whose last definition has another number of parameters.
pub record IsContradicted (defs : List Text) (d : Text) : Type 0 where
  pub name : Text
  pub declared : ℕ
  pub defined : ℕ
  pub says : Says d name declared
  pub definition : DefinedWith defs name defined
  pub differ : defined ≢ declared

-- `kept` are the declarations of `decls`, in their order, that the definitions do not contradict.
pub data IsSelection (defs : List Text) : List Text → List Text → Type 0 where
  stop : IsSelection defs [] []
  keep :
      {d : Text} {decls kept : List Text}
      → ¬ IsContradicted defs d
      → IsSelection defs decls kept
      → IsSelection defs (d ∷ decls) (d ∷ kept)
  leave_out :
      {d : Text} {decls kept : List Text}
      → IsContradicted defs d
      → IsSelection defs decls kept
      → IsSelection defs (d ∷ decls) kept

kept_not-IsContradicted :
    (defs : List Text) (d name : Text) (n : ℕ)
    → Says d name n
    → ((m : ℕ) → DefinedWith defs name m → m ≡ n)
    → ¬ IsContradicted defs d
kept_not-IsContradicted defs d name n s same c =
    let p = sym s ∙ c.says in
    let name_eq : name ≡ c.name = cc in
    let count_eq : n ≡ c.declared = cc in
    c.differ (
      same c.defined (subst (λ x. DefinedWith defs x c.defined) (sym name_eq) c.definition)
      ∙ count_eq)

same_counts : (m n : ℕ) → m ≡ n → not (m == n) ≡ false
same_counts m n h = ground arith

other_counts : (m n : ℕ) → m ≢ n → not (m == n) ≡ true
other_counts m n h = ground arith

skips-IsContradicted :
    (defs : List Text) (d : Text) (sig : Option (Text × ℕ)) {sigs : List (Text × ℕ)}
    → defined_sigs defs [] ≡ ok sigs
    → signature_of d ≡ ok sig
    → ((skips sigs sig ≡ true) × IsContradicted defs d)
      ⊎ ((skips sigs sig ≡ false) × (¬ IsContradicted defs d))
unfolding skips
skips-IsContradicted defs d none hd e = inr (refl, λ c. let p = sym e ∙ c.says in cc)
skips-IsContradicted defs d (some (name, n)) {sigs = sigs} hd e =
    elim (defined_sigs_count defs [] name hd) [
      | inl (m, h, g) ↦ elim (ℕ_discrete m n) [
        | yes p ↦ inr (
          rw g (same_counts m n p),
          kept_not-IsContradicted defs d name n e (λ k h'. DefinedWith-unique h' h ∙ p),
        )
        | no p ↦ inl (
          rw g (other_counts m n p),
          record { name = name; declared = n; defined = m; says = e; definition = h; differ = p },
        )
      ]
      | inr (u, g) ↦ inr (
        rw g refl,
        kept_not-IsContradicted defs d name n e (λ k h'. absurd (DefinedWith-not_Undefined h' u)),
      )
    ]

-- If the definitions and the declarations are read without a panic, the declarations that are
-- written are, in their order, exactly those that are not of a function whose last definition has
-- another number of parameters.
pub kept_decls-IsSelection :
    (defs decls : List Text) {sigs : List (Text × ℕ)} {kept : List Text}
    → defined_sigs defs [] ≡ ok sigs
    → kept_decls sigs decls ≡ ok kept
    → IsSelection defs decls kept
unfolding kept_decls
kept_decls-IsSelection defs [] hd e = Gives-ok (IsSelection defs []) (ok []) IsSelection.stop e
kept_decls-IsSelection defs (x ∷ decls) {sigs = sigs} hd e =
    let (sig, hsig, e1) = >>=-eq-ok (signature_of x) _ e in
    let (rest, hrest, e2) = >>=-eq-ok (kept_decls sigs decls) _ e1 in
    let ih = kept_decls-IsSelection defs decls hd hrest in
    Gives-ok (IsSelection defs (x ∷ decls)) (ok (if skips sigs sig then rest else x ∷ rest))
      (elim (skips-IsContradicted defs x sig hd hsig) [
        | inl (s, c) ↦ rw s (IsSelection.leave_out c ih)
        | inr (s, c) ↦ rw s (IsSelection.keep c ih)
      ])
      e2
