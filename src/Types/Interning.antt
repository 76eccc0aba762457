-- ===== src/Types/Interning.antt =====
-- src/types.rs: interning gives each kind one index, and indices stay valid.
use rustc_codegen_c.Prelude.{
  ◌⊎◌, ◌%◌, ◌^◌, ◌<◌, ◌≡◌, ◌↔◌, sym, ap, ◌∙◌, Option, none, some, length, get_elem?,
  get_elem?-push_lt, get_elem?-push_self, get_elem?-push_cases, get_elem?-lt, arith, Option-cases,
  inl, inr,
}
use mathlib.Core.Option.{some-injective}
use rustc_codegen_c.Prelude.Dict.{get-insert_self, get-insert_ne}
use rustc_codegen_c.Prelude.Outcome.{ok}
use rustc_codegen_c.Prelude.Outcome.{panic}
use rustc_codegen_c.Types.Kind.{TypeRef, CTypeKind, CTypeKind-discrete}
use rustc_codegen_c.Types.Store.{TypeStore, new, intern, get, index_of, add_type}

-- The index and the vector say the same: a kind is indexed exactly where it stands.
pub record IsWf (s : TypeStore) : Type 0 where
  pub indexed : (k : CTypeKind) (i : TypeRef) → index_of s k ≡ some i → get_elem? s.types i ≡ some k
  pub known : (k : CTypeKind) (i : TypeRef) → get_elem? s.types i ≡ some k → index_of s k ≡ some i

pub new-IsWf : IsWf new
unfolding new
new-IsWf = record { indexed = λ k i h. cc; known = λ k i h. cc }

-- A store with room for one more index.
abbrev pub HasRoom : TypeStore → Type 0
HasRoom s = length s.types < 2 ^ 32

pub intern_old :
    (s : TypeStore) (k : CTypeKind) {i : TypeRef} → index_of s k ≡ some i → intern s k ≡ (s, i)
unfolding intern
intern_old s k h = rw (h, intern)

pub intern_new : (s : TypeStore) (k : CTypeKind) → index_of s k ≡ none → intern s k ≡ add_type s k
unfolding intern
intern_new s k h = rw (h, intern)

-- A panic apart, `get` is the vector's lookup.
pub get-eq-ok :
    (s : TypeStore) (t : TypeRef) {k : CTypeKind} → get s t ≡ ok k → get_elem? s.types t ≡ some k
unfolding get
get-eq-ok s t h = ground arith

pub get_of_elem :
    (s : TypeStore) (t : TypeRef) {k : CTypeKind} → get_elem? s.types t ≡ some k → get s t ≡ ok k
unfolding get
get_of_elem s t h = rw h

-- The numbers that the store hands out do not wrap while it has room.
add_ref : (s : TypeStore) → HasRoom s → length s.types % 2 ^ 32 ≡ length s.types
add_ref s room = omega arith

pub get-none : (s : TypeStore) (t : TypeRef) → get_elem? s.types t ≡ none → get s t ≡ panic
unfolding get
get-none s t h = rw h

-- In a well-formed store with room, the index that `intern` returns stands for the kind.
pub get-intern :
    (s : TypeStore) (k : CTypeKind) → IsWf s → HasRoom s → get (intern s k).0 (intern s k).1 ≡ ok k
get-intern s k wf room = elim (Option-cases (index_of s k)) [
  | inl fresh ↦
      rw (intern_new s k fresh, add_ref s room)
        (get_of_elem _ (length s.types) (get_elem?-push_self s.types k))
  | inr (i, old) ↦ rw (intern_old s k old) (get_of_elem s i (wf.indexed k i old))
]

-- Interning leaves every index that is already in use where it is.
pub get-intern_stable :
    (s : TypeStore) (j : CTypeKind) (t : TypeRef) {k : CTypeKind}
    → get s t ≡ ok k
    → get (intern s j).0 t ≡ ok k
get-intern_stable s j t h = elim (Option-cases (index_of s j)) [
  | inl fresh ↦ rw (intern_new s j fresh) (
      let e = get-eq-ok s t h in
      get_of_elem _ t (get_elem?-push_lt s.types j t (get_elem?-lt s.types t e) ∙ e))
  | inr (i, old) ↦ rw (intern_old s j old) h
]

-- What the index says after an insertion.
index-add :
    (s : TypeStore) (j k : CTypeKind) (i : TypeRef)
    → HasRoom s
    → index_of (add_type s j).0 k ≡ some i
    → ((j ≡ k) × (i ≡ length s.types)) ⊎ (index_of s k ≡ some i)
index-add s j k i room h = elim (CTypeKind-discrete j k) [
  | yes p ↦ inl (
    p,
    some-injective i (length s.types) (
        sym h
        ∙ ap (index_of (add_type s j).0) (sym p)
        ∙ get-insert_self CTypeKind-discrete s.index j _
        ∙ ap {B = Option TypeRef} some (add_ref s room)),
  )
  | no p ↦ inr (sym (get-insert_ne CTypeKind-discrete s.index j k _ p) ∙ h)
]

add_type-IsWf :
    (s : TypeStore) (j : CTypeKind)
    → IsWf s
    → HasRoom s
    → index_of s j ≡ none
    → IsWf (add_type s j).0
add_type-IsWf s j wf room fresh = record {
  indexed = λ k i h. elim (index-add s j k i room h) [
    | inl (p, e) ↦ rw e (get_elem?-push_self s.types j ∙ ap {B = Option CTypeKind} some p)
    | inr old ↦
        let e = wf.indexed k i old in get_elem?-push_lt s.types j i (get_elem?-lt s.types i e) ∙ e
  ];
  known = λ k i h. elim (get_elem?-push_cases s.types j k i h) [
    | inl e ↦
        let seen = wf.known k i e in
        get-insert_ne CTypeKind-discrete s.index j k _
          (λ p. absurd (cc (seen, fresh, ap (index_of s) p)))
        ∙ seen
    | inr (e, p) ↦ rw e (
        ap (index_of (add_type s j).0) (sym p)
        ∙ get-insert_self CTypeKind-discrete s.index j _
        ∙ ap {B = Option TypeRef} some (add_ref s room))
  ];
}

-- Interning into a store with room keeps the index and the vector in agreement.
pub intern-IsWf : (s : TypeStore) (k : CTypeKind) → IsWf s → HasRoom s → IsWf (intern s k).0
intern-IsWf s k wf room = elim (Option-cases (index_of s k)) [
  | inl fresh ↦ rw (intern_new s k fresh) (add_type-IsWf s k wf room fresh)
  | inr (i, old) ↦ rw (intern_old s k old) wf
]

ok-injective : (j k : CTypeKind) → ok j ≡ ok k → j ≡ k
ok-injective j k e = cc

-- In a well-formed store with room, of two kinds that are interned one after the other the second
-- gets the index of the first exactly when the kinds are equal.
pub intern-canonical :
    (s : TypeStore) (j k : CTypeKind)
    → IsWf s
    → HasRoom s
    → HasRoom (intern s j).0
    → ((intern s j).1 ≡ (intern (intern s j).0 k).1) ↔ (j ≡ k)
intern-canonical s j k wf room room' =
    let s' = (intern s j).0 in
    let r = (intern s j).1 in
    let wf' = intern-IsWf s j wf room in
    let here = get-intern s j wf room in
    (
      λ e. ok-injective j k (
          sym (get-intern_stable s' k r here)
          ∙ ap (get (intern s' k).0) e
          ∙ get-intern s' k wf' room'),
      λ p. sym (
          ap (λ m. (intern s' m).1) (sym p)
          ∙ ap (λ m. m.1) (intern_old s' j (wf'.known j r (get-eq-ok s' r here)))),
    )
