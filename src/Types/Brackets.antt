-- ===== src/Types/Brackets.antt =====
-- src/types.rs: the C spelling of a type has matching brackets, if the struct names have.
use rustc_codegen_c.Prelude.{
  ℕ, zero, suc, Bool, true, false, ◌≡◌, refl, ◌∙◌, List, [], ◌∷◌, none, some, All, get_elem?,
  length, get_elem?-push_cases, ◌==◌, if◌then◌else◌, Option-cases, inl, inr, both_branches,
}
use rustc_codegen_c.Prelude.Text.{Text, str, fmt}
use rustc_codegen_c.Prelude.Decimal.{show}
use rustc_codegen_c.Prelude.Brackets.{
  IsBalanced, scan_over, append-IsBalanced, show-IsBalanced, join-IsBalanced,
}
use rustc_codegen_c.Prelude.Outcome.{Outcome, ok, traverse, >>=-eq-ok, Gives, Gives-bind, Gives-ok}
use rustc_codegen_c.Types.Kind.{
  TypeRef, CTypeKind, c_bits, void, bool, int, float, ptr, array, struct, function, vector,
  ptr_width,
}
use rustc_codegen_c.Types.Store.{TypeStore, new, intern, index_of, get}
use rustc_codegen_c.Types.Interning.{get_of_elem, get-none, intern_old, intern_new}
use rustc_codegen_c.Types.Render.{
  arg_list, args_joined, render_int, render_float, render_kind, render_fuel, render, decl_kind,
  render_decl,
}

abbrev pub NameBalanced : CTypeKind → Type 0
NameBalanced (struct fields packed (some name)) = IsBalanced name
NameBalanced _ = Unit

-- The names of the store's structs are balanced.
abbrev pub NamesBalanced : TypeStore → Type 0
NamesBalanced s = (k : CTypeKind) (i : TypeRef) → get_elem? s.types i ≡ some k → NameBalanced k

pub new-NamesBalanced : NamesBalanced new
unfolding new
new-NamesBalanced k i h = cc

pub intern-NamesBalanced :
    (s : TypeStore) (k : CTypeKind)
    → NamesBalanced s
    → NameBalanced k
    → NamesBalanced (intern s k).0
intern-NamesBalanced s k names name = elim (Option-cases (index_of s k)) [
  | inl fresh ↦ rw (intern_new s k fresh) λ j i h. elim (get_elem?-push_cases s.types k j i h) [
    | inl e ↦ names j i e
    | inr (e, p) ↦ rw (← p) name
  ]
  | inr (i, old) ↦ rw (intern_old s k old) names
]

traverse-Gives :
    (f : TypeRef → Outcome Text) (ts : List TypeRef)
    → ((t : TypeRef) → Gives IsBalanced (f t))
    → Gives (All IsBalanced) (traverse f ts)
unfolding traverse
traverse-Gives f [] h = tt
traverse-Gives f (t ∷ ts) h = Gives-bind IsBalanced (All IsBalanced) (f t) _ (h t) λ x hx.
    Gives-bind (All IsBalanced) (All IsBalanced) (traverse f ts) _ (traverse-Gives f ts h)
      λ xs hxs. (hx, hxs)

arg_list-IsBalanced : (xs : List Text) → All IsBalanced xs → IsBalanced (arg_list xs)
arg_list-IsBalanced [] h = λ st. refl
arg_list-IsBalanced (x ∷ xs) h = join-IsBalanced (str ", ") (x ∷ xs) (λ st. refl) h

args-IsBalanced :
    (xs : List Text) (variadic : Bool) → All IsBalanced xs → IsBalanced (args_joined xs variadic)
unfolding args_joined
args-IsBalanced xs true h = append-IsBalanced (arg_list xs) _ (arg_list-IsBalanced xs h) λ st. refl
args-IsBalanced xs false h = arg_list-IsBalanced xs h

int-IsBalanced : (bits : ℕ) (signed : Bool) → IsBalanced (render_int bits signed)
unfolding render_int
int-IsBalanced bits signed = int_cases (bits == 1) signed
  where
    int_cases :
        (one signed : Bool)
        → IsBalanced (
            if one
            then str "_Bool"
            else fmt
                ((if signed then str "int" else str "uint") ∷ show (c_bits bits) ∷ str "_t" ∷ []))
    int_cases true signed = λ st. refl
    int_cases false true = λ st. scan_over (show (c_bits bits)) _ st (show-IsBalanced (c_bits bits))
    int_cases false false =
        λ st. scan_over (show (c_bits bits)) _ st (show-IsBalanced (c_bits bits))

float-Gives : (bits : ℕ) → Gives IsBalanced (render_float bits)
unfolding render_float
float-Gives bits =
    both_branches (Gives IsBalanced) (bits == 16) (λ st. refl)
      (both_branches (Gives IsBalanced) (bits == 32) (λ st. refl)
        (both_branches (Gives IsBalanced) (bits == 64) (λ st. refl)
          (both_branches (Gives IsBalanced) (bits == 128) (λ st. refl) tt)))

render_kind-Gives :
    (rec : TypeRef → Outcome Text) (ty : TypeRef) (k : CTypeKind)
    → ((t : TypeRef) → Gives IsBalanced (rec t))
    → NameBalanced k
    → Gives IsBalanced (render_kind rec ty k)
unfolding render_kind
render_kind-Gives rec ty void ih h = λ st. refl
render_kind-Gives rec ty bool ih h = λ st. refl
render_kind-Gives rec ty (int bits signed) ih h = int-IsBalanced bits signed
render_kind-Gives rec ty (float bits) ih h = float-Gives bits
render_kind-Gives rec ty ptr ih h = λ st. refl
render_kind-Gives rec ty (array element len) ih h =
    Gives-bind IsBalanced IsBalanced (rec element) _ (ih element)
      λ e he st. scan_over e _ st he ∙ scan_over (show len) _ _ (show-IsBalanced len)
render_kind-Gives rec ty (struct fields packed none) ih h = show-IsBalanced ty
render_kind-Gives rec ty (struct fields packed (some name)) ih h = h
render_kind-Gives rec ty (function ret args variadic) ih h =
    Gives-bind (All IsBalanced) IsBalanced (traverse rec args) _ (traverse-Gives rec args ih)
      λ xs hxs. Gives-bind IsBalanced IsBalanced (rec ret) _ (ih ret) λ r hr st.
        scan_over r _ st hr
        ∙ scan_over (args_joined xs variadic) _ _ (args-IsBalanced xs variadic hxs)
render_kind-Gives rec ty (vector element len) ih h = show-IsBalanced ty
render_kind-Gives rec ty (ptr_width true) ih h = λ st. refl
render_kind-Gives rec ty (ptr_width false) ih h = λ st. refl

module _ (s : TypeStore) (names : NamesBalanced s) where
  render_fuel-Gives : (f : ℕ) (t : TypeRef) → Gives IsBalanced (render_fuel f s t)
  unfolding render_fuel
  render_fuel-Gives zero t = tt
  render_fuel-Gives (suc f) t = elim (Option-cases (get_elem? s.types t)) [
    | inl missing ↦ rw (get-none s t missing) tt
    | inr (k, e) ↦
        rw (get_of_elem s t e)
          (render_kind-Gives (render_fuel f s) t k (render_fuel-Gives f) (names k t e))
  ]

  render-Gives : (t : TypeRef) → Gives IsBalanced (render s t)
  unfolding render
  render-Gives t = render_fuel-Gives (suc (length s.types)) t

  -- The spelling of a type is a balanced text.
  pub render-IsBalanced : (t : TypeRef) {x : Text} → render s t ≡ ok x → IsBalanced x
  render-IsBalanced t h = Gives-ok IsBalanced (render s t) (render-Gives t) h

  decl_kind-Gives :
      (t : TypeRef) (name : Text) (k : CTypeKind)
      → IsBalanced name
      → Gives IsBalanced (decl_kind s t name k)
  unfolding decl_kind
  decl_kind-Gives t name (array element len) hn =
      Gives-bind IsBalanced IsBalanced (render s element) _ (render-Gives element) λ e he st.
        scan_over e _ st he ∙ scan_over name _ _ hn ∙ scan_over (show len) _ _ (show-IsBalanced len)
  decl_kind-Gives t name (function ret args variadic) hn =
      Gives-bind (All IsBalanced) IsBalanced (traverse (render s) args) _
        (traverse-Gives (render s) args render-Gives)
        λ xs hxs. Gives-bind IsBalanced IsBalanced (render s ret) _ (render-Gives ret) λ r hr st.
          scan_over r _ st hr
          ∙ scan_over name _ _ hn
          ∙ scan_over (args_joined xs variadic) _ _ (args-IsBalanced xs variadic hxs)
  decl_kind-Gives t name _ hn =
      Gives-bind IsBalanced IsBalanced (render s t) _ (render-Gives t)
        λ r hr st. scan_over r _ st hr ∙ hn st

  -- So is the declaration of a variable, if the variable's name is.
  pub render_decl-IsBalanced :
      (t : TypeRef) (name : Text) {x : Text}
      → IsBalanced name
      → render_decl s t name ≡ ok x
      → IsBalanced x
  unfolding render_decl
  render_decl-IsBalanced t name hn h =
      let (k, hk, h') = >>=-eq-ok (get s t) _ h in
      Gives-ok IsBalanced (decl_kind s t name k) (decl_kind-Gives t name k hn) h'
