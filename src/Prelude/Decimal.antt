-- ===== src/Prelude/Decimal.antt =====
-- `Display` of an unsigned integer: its decimal digits.
use Prim.Native.Nat.{ℕ, zero, suc, ◌+◌, ◌-◌, ◌*◌, ◌/◌, ◌%◌, ◌<◌, ◌≤◌}
use mathlib.Core.Path.{◌≡◌, refl, sym, ◌∙◌, ap}
use mathlib.Core.Bool.{true, false}
use mathlib.Core.List.{[], ◌∷◌, ◌++◌}
use native.Mathlib.Omega.{arith}
use mathlib.Core.Logic.{inl, inr}
use rustc_codegen_c.Prelude.Tests.{if◌then◌else◌, ltb, ltb→lt, Bool-cases}
use rustc_codegen_c.Prelude.Lists.{All, All-append}
use rustc_codegen_c.Prelude.Text.{Text, str}

-- The digits of `n`, by rounds of division; `suc n` rounds are more than enough.
digits : ℕ → ℕ → Text
digits zero n = []
digits (suc f) n =
    let more = digits f (n / 10) ++ (b'0' + n % 10) ∷ [] in
    if ltb n 10 then (b'0' + n) ∷ [] else more

unfoldable pub show : ℕ → Text
unfolding digits
show n = digits (suc n) n

-- The number that decimal digits spell.
abbrev pub read_from : ℕ → Text → ℕ
read_from n [] = n
read_from n (c ∷ t) = read_from (n * 10 + (c - b'0')) t

pub read-append : (s t : Text) (n : ℕ) → read_from n (s ++ t) ≡ read_from (read_from n s) t
read-append [] t n = refl
read-append (c ∷ s) t n = read-append s t _

digits_small : (f n : ℕ) → ltb n 10 ≡ true → digits (suc f) n ≡ (b'0' + n) ∷ []
unfolding digits
digits_small f n h = rw h

digits_large :
    (f n : ℕ) → ltb n 10 ≡ false → digits (suc f) n ≡ digits f (n / 10) ++ (b'0' + n % 10) ∷ []
unfolding digits
digits_large f n h = rw h

read-digits : (f n : ℕ) → n < f → read_from 0 (digits f n) ≡ n
read-digits zero n h = elim h [ ]
read-digits (suc f) n h = elim (Bool-cases (ltb n 10)) [
  | inl small ↦ rw (digits_small f n small) (omega arith)
  | inr large ↦
      rw (digits_large f n large, read-append (digits f (n / 10)))
        (rw (read-digits f (n / 10) (ground arith)) (omega arith))
]

pub read-show : (n : ℕ) → read_from 0 (show n) ≡ n
unfolding show
read-show n = read-digits (suc n) n (omega arith)

-- Different numbers print differently.
pub show-injective : (m n : ℕ) → show m ≡ show n → m ≡ n
show-injective m n e = sym (read-show m) ∙ ap (read_from 0) e ∙ read-show n

abbrev pub IsDigit : ℕ → Type 0
IsDigit c = (b'0' ≤ c) × (c ≤ b'9')

digits-IsDigit : (f n : ℕ) → All IsDigit (digits f n)
digits-IsDigit zero n = unfold digits in tt
digits-IsDigit (suc f) n = elim (Bool-cases (ltb n 10)) [
  | inl small ↦ rw (digits_small f n small) ((omega arith, omega (arith, ltb→lt n 10 small)), tt)
  | inr large ↦ rw (digits_large f n large) (
      All-append IsDigit (digits f (n / 10)) _ (digits-IsDigit f (n / 10))
        ((omega arith, omega arith), tt))
]

pub show-IsDigit : (n : ℕ) → All IsDigit (show n)
unfolding show
show-IsDigit n = digits-IsDigit (suc n) n

show_u64 : show 18446744073709551615 ≡ str "18446744073709551615"
unfolding show
show_u64 = refl
