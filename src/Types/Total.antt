-- ===== src/Types/Total.antt =====
-- src/types.rs: on a store whose types refer to earlier types only, `render` and `render_decl`
-- return: no index is out of bounds, no float width is unknown, and the recursion ends.
use rustc_codegen_c.Prelude.{
  ℕ, zero, suc, ◌<◌, ◌≡◌, ◌⊎◌, inl, inr, refl, List, [], ◌∷◌, none, some, All, All-map, length,
  get_elem?-push_cases, get_elem?, get_elem?_total, arith, Option-cases,
}
use rustc_codegen_c.Prelude.Text.{Text}
use rustc_codegen_c.Prelude.Outcome.{Outcome, ok, ◌>>=◌, traverse}
use rustc_codegen_c.Types.Kind.{
  TypeRef, CTypeKind, void, bool, int, float, ptr, array, struct, function, vector, ptr_width,
}
use rustc_codegen_c.Types.Store.{TypeStore, new, intern, index_of}
use rustc_codegen_c.Types.Render.{
  render_float, render_kind, render_fuel, render, decl_kind, render_decl,
}
use rustc_codegen_c.Types.Interning.{get_of_elem, intern_old, intern_new}

-- Every type that the kind refers to has an index below `n`.
abbrev pub RefsBelow : ℕ → CTypeKind → Type 0
RefsBelow n (array element len) = element < n
RefsBelow n (struct fields packed name) = All (λ f. f < n) fields
RefsBelow n (function ret args variadic) = (ret < n) × All (λ a. a < n) args
RefsBelow n (vector element len) = element < n
RefsBelow n _ = Unit

-- The float widths that C spells.
abbrev pub IsFloatWidth : ℕ → Type 0
IsFloatWidth b = (b ≡ 16) ⊎ ((b ≡ 32) ⊎ ((b ≡ 64) ⊎ (b ≡ 128)))

abbrev pub WidthKnown : CTypeKind → Type 0
WidthKnown (float bits) = IsFloatWidth bits
WidthKnown _ = Unit

pub record IsClosed (s : TypeStore) : Type 0 where
  pub refs : (k : CTypeKind) (i : TypeRef) → get_elem? s.types i ≡ some k → RefsBelow i k
  pub widths : (k : CTypeKind) (i : TypeRef) → get_elem? s.types i ≡ some k → WidthKnown k

pub new-IsClosed : IsClosed new
unfolding new
new-IsClosed = record { refs = λ k i h. cc; widths = λ k i h. cc }

-- Interning a kind that refers to types of the store, with a float width that C has, keeps the
-- store closed: types refer to earlier types only.
pub intern-IsClosed :
    (s : TypeStore) (k : CTypeKind)
    → IsClosed s
    → RefsBelow (length s.types) k
    → WidthKnown k
    → IsClosed (intern s k).0
intern-IsClosed s k c below known = elim (Option-cases (index_of s k)) [
  | inl fresh ↦ rw (intern_new s k fresh) (record {
    refs = λ j i h. elim (get_elem?-push_cases s.types k j i h) [
      | inl e ↦ c.refs j i e
      | inr (e, p) ↦ rw (e, ← p) below
    ];
    widths = λ j i h. elim (get_elem?-push_cases s.types k j i h) [
      | inl e ↦ c.widths j i e
      | inr (e, p) ↦ rw (← p) known
    ];
  })
  | inr (i, old) ↦ rw (intern_old s k old) c
]

-- A call that returns.
abbrev pub Ends {ℓ} : {A : Type ℓ} → Outcome A → Type ℓ
Ends {A} r = (x : A) × (r ≡ ok x)

pub Ends-bind {ℓ} :
    {A B : Type ℓ} (r : Outcome A) (f : A → Outcome B)
    → Ends r
    → ((a : A) → Ends (f a))
    → Ends (r >>= f)
Ends-bind r f (a, e) k = rw e (k a)

pub traverse-Ends :
    {A : Type 0} (f : TypeRef → Outcome A) (ts : List TypeRef)
    → All (λ t. Ends (f t)) ts
    → Ends (traverse f ts)
unfolding traverse
traverse-Ends f [] _ = ([], refl)
traverse-Ends f (t ∷ ts) ((x, h), hs) = let (xs, e) = traverse-Ends f ts hs in (x ∷ xs, rw h (rw e))

float-Ends : (bits : ℕ) → IsFloatWidth bits → Ends (render_float bits)
unfolding render_float
float-Ends bits (inl e) = rw e (_, refl)
float-Ends bits (inr (inl e)) = rw e (_, refl)
float-Ends bits (inr (inr (inl e))) = rw e (_, refl)
float-Ends bits (inr (inr (inr e))) = rw e (_, refl)

render_kind-Ends :
    (rec : TypeRef → Outcome Text) (n : ℕ) (ty : TypeRef) (k : CTypeKind)
    → ((t : TypeRef) → t < n → Ends (rec t))
    → RefsBelow n k
    → WidthKnown k
    → Ends (render_kind rec ty k)
unfolding render_kind
render_kind-Ends rec n ty void ih b w = (_, refl)
render_kind-Ends rec n ty bool ih b w = (_, refl)
render_kind-Ends rec n ty (int bits signed) ih b w = (_, refl)
render_kind-Ends rec n ty (float bits) ih b w = float-Ends bits w
render_kind-Ends rec n ty ptr ih b w = (_, refl)
render_kind-Ends rec n ty (array element len) ih b w =
    Ends-bind (rec element) _ (ih element b) λ e. (_, refl)
render_kind-Ends rec n ty (struct fields packed none) ih b w = (_, refl)
render_kind-Ends rec n ty (struct fields packed (some name)) ih b w = (_, refl)
render_kind-Ends rec n ty (function ret args variadic) ih (br, ba) w =
    Ends-bind (traverse rec args) _ (traverse-Ends rec args (All-map args ih ba))
      λ xs. Ends-bind (rec ret) _ (ih ret br) λ x. (_, refl)
render_kind-Ends rec n ty (vector element len) ih b w = (_, refl)
render_kind-Ends rec n ty (ptr_width signed) ih b w = (_, refl)

render_fuel-Ends :
    (f : ℕ) (s : TypeStore) (t : TypeRef)
    → IsClosed s
    → t < f
    → t < length s.types
    → Ends (render_fuel f s t)
unfolding render_fuel
render_fuel-Ends zero s t c lt _ = elim lt [ ]
render_fuel-Ends (suc f) s t c lt inside =
    let (k, e) = get_elem?_total s.types t inside in
    rw (get_of_elem s t e) (
      render_kind-Ends (render_fuel f s) t t k
        (λ u below. render_fuel-Ends f s u c (omega arith) (omega arith)) (c.refs k t e)
        (c.widths k t e))

-- Every type of a closed store has a C spelling: `render` returns.
pub render_total :
    (s : TypeStore) (t : TypeRef) → IsClosed s → t < length s.types → Ends (render s t)
unfolding render
render_total s t c inside = render_fuel-Ends (suc (length s.types)) s t c (omega arith) inside

pub refs_inside : (k : CTypeKind) (m n : ℕ) → m < n → RefsBelow m k → RefsBelow n k
refs_inside (array element len) m n h b = omega arith
refs_inside (struct fields packed name) m n h b = All-map fields (λ f lt. omega arith) b
refs_inside (function ret args variadic) m n h (br, ba) =
    (omega arith, All-map args (λ f lt. omega arith) ba)
refs_inside (vector element len) m n h b = omega arith
refs_inside _ m n h b = tt

decl_kind-Ends :
    (s : TypeStore) (t : TypeRef) (name : Text) (k : CTypeKind)
    → IsClosed s
    → t < length s.types
    → RefsBelow (length s.types) k
    → Ends (decl_kind s t name k)
unfolding decl_kind
decl_kind-Ends s t name (array element len) c inside b =
    Ends-bind (render s element) _ (render_total s element c b) λ e. (_, refl)
decl_kind-Ends s t name (function ret args variadic) c inside (br, ba) =
    Ends-bind (traverse (render s) args) _
      (traverse-Ends (render s) args (All-map args (λ a lt. render_total s a c lt) ba))
      λ xs. Ends-bind (render s ret) _ (render_total s ret c br) λ x. (_, refl)
decl_kind-Ends s t name _ c inside b =
    Ends-bind (render s t) _ (render_total s t c inside) λ x. (_, refl)

-- Every type of a closed store can be written as the declaration of a variable: `render_decl`
-- returns.
pub render_decl_total :
    (s : TypeStore) (t : TypeRef) (name : Text)
    → IsClosed s
    → t < length s.types
    → Ends (render_decl s t name)
unfolding render_decl
render_decl_total s t name c inside =
    let (k, e) = get_elem?_total s.types t inside in
    rw (get_of_elem s t e)
      (decl_kind-Ends s t name k c inside (refs_inside k t (length s.types) inside (c.refs k t e)))
