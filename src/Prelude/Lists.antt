-- ===== src/Prelude/Lists.antt =====
-- Lists measured and indexed by native numbers, and predicates on all items.
use Prim.Native.Nat.{ℕ, zero, suc, ◌+◌, ◌<◌}
use mathlib.Core.Path.{◌≡◌, refl, ap, subst}
use mathlib.Core.Logic.{◌⊎◌, inl, inr}
use mathlib.Core.List.{List, [], ◌∷◌, ◌++◌}
use mathlib.Core.Option.{Option, none, some, some-injective}
use native.Mathlib.Omega.{arith}

module _ {ℓ} {A : Type ℓ} where
  abbrev pub length : List A → ℕ
  length [] = 0
  length (x ∷ xs) = suc (length xs)

  abbrev pub get_elem? : List A → ℕ → Option A
  get_elem? [] i = none
  get_elem? (x ∷ xs) zero = some x
  get_elem? (x ∷ xs) (suc i) = get_elem? xs i

  pub length-append : (xs ys : List A) → length (xs ++ ys) ≡ length xs + length ys
  length-append [] ys = omega arith
  length-append (x ∷ xs) ys = omega (arith, length-append xs ys)

module _ {ℓ} {A : Type ℓ} where
  -- `v.push(x)` leaves the items of `v` where they are.
  pub get_elem?-push_lt :
      (xs : List A) (x : A) (i : ℕ) → i < length xs → get_elem? (xs ++ x ∷ []) i ≡ get_elem? xs i
  get_elem?-push_lt [] x i h = elim h [ ]
  get_elem?-push_lt (y ∷ ys) x zero h = refl
  get_elem?-push_lt (y ∷ ys) x (suc i) h = get_elem?-push_lt ys x i (omega arith)

  -- The pushed item stands at the old length.
  pub get_elem?-push_self : (xs : List A) (x : A) → get_elem? (xs ++ x ∷ []) (length xs) ≡ some x
  get_elem?-push_self [] x = refl
  get_elem?-push_self (y ∷ ys) x = get_elem?-push_self ys x

  pub get_elem?-lt : (xs : List A) (i : ℕ) {x : A} → get_elem? xs i ≡ some x → i < length xs
  get_elem?-lt [] i h = cc
  get_elem?-lt (y ∷ ys) zero h = omega arith
  get_elem?-lt (y ∷ ys) (suc i) h = omega (arith, get_elem?-lt ys i h)

  pub get_elem?_total : (xs : List A) (i : ℕ) → i < length xs → (x : A) × (get_elem? xs i ≡ some x)
  get_elem?_total [] i h = elim h [ ]
  get_elem?_total (y ∷ ys) zero h = (y, refl)
  get_elem?_total (y ∷ ys) (suc i) h = get_elem?_total ys i (omega arith)

  -- What stands in a vector after a push was there, or is the pushed item.
  pub get_elem?-push_cases :
      (xs : List A) (x y : A) (i : ℕ)
      → get_elem? (xs ++ x ∷ []) i ≡ some y
      → (get_elem? xs i ≡ some y) ⊎ ((i ≡ length xs) × (x ≡ y))
  get_elem?-push_cases [] x y zero h = inr (refl, some-injective x y h)
  get_elem?-push_cases [] x y (suc i) h = cc
  get_elem?-push_cases (z ∷ xs) x y zero h = inl h
  get_elem?-push_cases (z ∷ xs) x y (suc i) h = elim (get_elem?-push_cases xs x y i h) [
    | inl e ↦ inl e
    | inr (e, p) ↦ inr (ap suc e, p)
  ]

module _ {ℓ κ} {A : Type ℓ} where
  -- `P` holds of every item.
  abbrev pub All : (A → Type κ) → List A → Type κ
  All P [] = Unit
  All P (x ∷ xs) = P x × All P xs

module _ {ℓ κ} {A : Type ℓ} (P : A → Type κ) where
  pub All-append : (xs ys : List A) → All P xs → All P ys → All P (xs ++ ys)
  All-append [] ys _ hy = hy
  All-append (x ∷ xs) ys (px, hx) hy = (px, All-append xs ys hx hy)

  pub All-push : (xs : List A) (x : A) → All P xs → P x → All P (xs ++ x ∷ [])
  All-push xs x hs h = All-append xs (x ∷ []) hs (h, tt)

  pub All-get_elem? : (xs : List A) (i : ℕ) {x : A} → All P xs → get_elem? xs i ≡ some x → P x
  All-get_elem? [] i hs e = cc
  All-get_elem? (y ∷ ys) zero {x} (h, hs) e = subst P (some-injective y x e) h
  All-get_elem? (y ∷ ys) (suc i) (h, hs) e = All-get_elem? ys i hs e

module _ {ℓ κ} {A : Type ℓ} where
  pub All-map {μ} :
      {P : A → Type κ} {Q : A → Type μ} (xs : List A) → ((x : A) → P x → Q x) → All P xs → All Q xs
  All-map [] f _ = tt
  All-map (x ∷ xs) f (h, hs) = (f x h, All-map xs f hs)
