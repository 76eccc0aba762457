-- ===== src/Prelude/Outcome.antt =====
-- What a Rust call that can fail gives: a value, a panic, or no end (the fuel of a recursion that
-- the types do not bound ran out).
use mathlib.Core.Path.{◌≡◌, refl, subst}
use mathlib.Core.List.{List, [], ◌∷◌}
use mathlib.Core.Option.{Option, none, some}

pub data Outcome {ℓ} (A : Type ℓ) : Type ℓ where
  ok : A → Outcome A
  panic : Outcome A
  diverge : Outcome A

infixl 5 ◌>>=◌ ◌>>◌
abbrev pub ◌>>=◌ {ℓ κ} : {A : Type ℓ} {B : Type κ} → Outcome A → (A → Outcome B) → Outcome B
ok a >>= f = f a
panic >>= f = panic
diverge >>= f = diverge

abbrev pub ◌>>◌ {ℓ} : {B : Type ℓ} → Outcome (Unit {0}) → Outcome B → Outcome B
m >> k = m >>= λ _. k

-- `iter().map(f).collect()` where `f` can fail.
unfoldable pub traverse {ℓ κ} :
    {A : Type ℓ} {B : Type κ} → (A → Outcome B) → List A → Outcome (List B)
traverse f [] = ok []
traverse f (x ∷ xs) = f x >>= λ y. traverse f xs >>= λ ys. ok (y ∷ ys)

-- Indexing and `unwrap`: a panic where there is nothing.
abbrev pub expect {ℓ} : {A : Type ℓ} → Option A → Outcome A
expect none = panic
expect (some a) = ok a

-- If the call returns, its value satisfies `P`.
abbrev pub Gives {ℓ} : {A : Type ℓ} → (A → Type 0) → Outcome A → Type 0
Gives P (ok a) = P a
Gives P panic = Unit
Gives P diverge = Unit

pub Gives-bind {κ ℓ} :
    {A : Type ℓ} (P : A → Type 0) {B : Type κ} (Q : B → Type 0) (step : Outcome A)
    (next : A → Outcome B)
    → Gives P step
    → ((mid : A) → P mid → Gives Q (next mid))
    → Gives Q (step >>= next)
Gives-bind P Q (ok mid) next holds then_holds = then_holds mid holds
Gives-bind P Q panic next holds then_holds = tt
Gives-bind P Q diverge next holds then_holds = tt

pub Gives-ok {ℓ} :
    {A : Type ℓ} (P : A → Type 0) (r : Outcome A) {a : A} → Gives P r → r ≡ ok a → P a
Gives-ok P r h e = subst (Gives P) e h

pub Gives-of-ok {ℓ} :
    {A : Type ℓ} {P : A → Type 0} (r : Outcome A) → ((a : A) → r ≡ ok a → P a) → Gives P r
Gives-of-ok (ok a) h = h a refl
Gives-of-ok panic h = tt
Gives-of-ok diverge h = tt

pub >>=-eq-ok {ℓ κ} :
    {B : Type κ} {out : B} {A : Type ℓ} (step : Outcome A) (next : A → Outcome B)
    → (step >>= next) ≡ ok out
    → (mid : A) × (step ≡ ok mid) × (next mid ≡ ok out)
>>=-eq-ok (ok mid) next e = (mid, refl, e)
>>=-eq-ok panic next e = cc
>>=-eq-ok diverge next e = cc
