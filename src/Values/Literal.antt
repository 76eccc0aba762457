-- ===== src/Values/Literal.antt =====
-- src/values.rs: integer constants are spelled as C constants of the same value.
use rustc_codegen_c.Prelude.{
  ℕ, zero, suc, ◌+◌, ◌-◌, ◌*◌, ◌/◌, ◌%◌, ◌^◌, ◌≤◌, ◌<◌, ◌≡◌, refl, ap, ◌∙◌, Bool, true, false,
  Bool-cases, inl, inr, ◌&&◌, [], ◌∷◌, ◌++◌, arith, leb,
}
use rustc_codegen_c.Prelude.Text.{Text, str, fmt}
use rustc_codegen_c.Prelude.Int.{
  ℤ, pos, negsuc, ltb_ℤ, leb_ℤ, eq_ℤ, show_ℤ, to_u128, to_i128, IsI128,
}
use rustc_codegen_c.Prelude.Decimal.{show}
use rustc_codegen_c.Values.Render.{render_int_const, render_uint_const, i64_min, i64_max, u64_max}

-- The C constants that the backend writes: `nLL`, `-nLL`, the least `long long` as a difference,
-- `nULL`, and 128-bit values from two 64-bit halves.
pub data CConst : Type 0 where
  ll : ℕ → CConst
  minus_ll : ℕ → CConst
  difference : ℕ → ℕ → CConst
  ull : ℕ → CConst
  wide_unsigned : ℕ → ℕ → CConst
  wide_signed : ℕ → ℕ → CConst

pub spell : CConst → Text
spell (ll n) = show n ++ str "LL"
spell (minus_ll n) = str "-" ++ show n ++ str "LL"
spell (difference a b) = fmt (str "(-" ∷ show a ∷ str "LL - " ∷ show b ∷ str "LL)" ∷ [])
spell (ull n) = show n ++ str "ULL"
spell (wide_unsigned hi lo) =
    fmt (str "((uint128_t)" ∷ show hi ∷ str "ULL << 64 | " ∷ show lo ∷ str "ULL)" ∷ [])
spell (wide_signed hi lo) =
    fmt (str "((int128_t)((uint128_t)" ∷ show hi ∷ str "ULL << 64 | " ∷ show lo ∷ str "ULL))" ∷ [])

-- Every literal fits the type of its suffix, and no signed operation overflows.
abbrev pub IsLegal : CConst → Type 0
IsLegal (ll n) = n < 2 ^ 63
IsLegal (minus_ll n) = n < 2 ^ 63
IsLegal (difference a b) = (a < 2 ^ 63) × (b < 2 ^ 63) × (a + b ≤ 2 ^ 63)
IsLegal (ull n) = n < 2 ^ 64
IsLegal (wide_unsigned hi lo) = (hi < 2 ^ 64) × (lo < 2 ^ 64)
IsLegal (wide_signed hi lo) = (hi < 2 ^ 64) × (lo < 2 ^ 64)

-- -n
abbrev minus : ℕ → ℤ
minus zero = pos 0
minus (suc n) = negsuc n

-- What C computes for them. The shift clears the low 64 bits, so `|` of a low half is a sum.
abbrev pub value : CConst → ℤ
value (ll n) = pos n
value (minus_ll n) = minus n
value (difference a b) = minus (a + b)
value (ull n) = pos n
value (wide_unsigned hi lo) = pos (hi * 2 ^ 64 % 2 ^ 128 + lo)
value (wide_signed hi lo) = to_i128 (hi * 2 ^ 64 % 2 ^ 128 + lo)

-- `t` is the spelling of a legal C constant of value `z`.
abbrev pub Spells : Text → ℤ → Type 0
Spells t z = (c : CConst) × (t ≡ spell c) × IsLegal c × (value c ≡ z)

-- An unsigned constant below 2^128 is written as a C constant of its value, in which every literal
-- fits the type of its suffix.
pub uint_const-Spells : (u : ℕ) → u < 2 ^ 128 → Spells (render_uint_const u) (pos u)
unfolding render_uint_const spell
uint_const-Spells u h = elim (Bool-cases (leb u u64_max)) [
  | inl fits ↦ rw fits (ull u, refl, ground arith, refl)
  | inr wide ↦
      rw wide
        (wide_unsigned (u / 2 ^ 64) (u % 2 ^ 64), refl, (omega arith, omega arith), ground arith)
]

to_u128_lt : (z : ℤ) → to_u128 z < 2 ^ 128
to_u128_lt (pos n) = omega arith
to_u128_lt (negsuc n) = omega arith

-- Reading the two's complement back gives the integer.
to_i128-to_u128 : (z : ℤ) → IsI128 z → to_i128 (to_u128 z) ≡ z
to_i128-to_u128 (pos n) h = ground arith
to_i128-to_u128 (negsuc n) h = ground arith

halves : (u : ℕ) → u < 2 ^ 128 → u / 2 ^ 64 * 2 ^ 64 % 2 ^ 128 + u % 2 ^ 64 ≡ u
halves u h = omega arith

-- The split into two halves.
abbrev wide_text : ℕ → Text
wide_text u = fmt (
    str "((int128_t)((uint128_t)"
    ∷ show (u / 2 ^ 64)
    ∷ str "ULL << 64 | "
    ∷ show (u % 2 ^ 64)
    ∷ str "ULL))"
    ∷ [])

wide-Spells : (z : ℤ) → IsI128 z → Spells (wide_text (to_u128 z)) z
unfolding spell
wide-Spells z h =
    let lt = to_u128_lt z in
    (
      wide_signed (to_u128 z / 2 ^ 64) (to_u128 z % 2 ^ 64),
      refl,
      (omega arith, omega arith),
      ap to_i128 (halves (to_u128 z) lt) ∙ to_i128-to_u128 z h,
    )

in_i64 : ℤ → Bool
in_i64 i = ltb_ℤ i64_min i && leb_ℤ i i64_max

in_i64_pos : (n : ℕ) → in_i64 (pos n) ≡ true → n < 2 ^ 63
unfolding in_i64
in_i64_pos n h = ground arith

in_i64_neg : (n : ℕ) → in_i64 (negsuc n) ≡ true → suc n < 2 ^ 63
unfolding in_i64
in_i64_neg n h = ground arith

int_const_in : (z : ℤ) → in_i64 z ≡ true → render_int_const z ≡ show_ℤ z ++ str "LL"
unfolding in_i64 render_int_const
int_const_in z h = rw h

int_const_min : render_int_const i64_min ≡ str "(-9223372036854775807LL - 1LL)"
unfolding render_int_const
int_const_min = refl

int_const_out :
    (z : ℤ) → in_i64 z ≡ false → eq_ℤ z i64_min ≡ false → render_int_const z ≡ wide_text (to_u128 z)
unfolding in_i64 render_int_const
int_const_out z h k = rw (h, k)

-- A constant in the range of `i128` is written as a C constant of its value, in which every
-- literal fits the type of its suffix and no signed operation overflows.
pub int_const-Spells : (z : ℤ) → IsI128 z → Spells (render_int_const z) z
unfolding spell
int_const-Spells (pos n) h = elim (Bool-cases (in_i64 (pos n))) [
  | inl fits ↦ rw (int_const_in (pos n) fits) (ll n, unfold show_ℤ in refl, in_i64_pos n fits, refl)
  | inr wide ↦ rw (int_const_out (pos n) wide (ground arith)) (wide-Spells (pos n) h)
]
int_const-Spells (negsuc n) h = elim (Bool-cases (in_i64 (negsuc n))) [
  | inl fits ↦
      rw (int_const_in (negsuc n) fits)
        (minus_ll (suc n), unfold show_ℤ in refl, in_i64_neg n fits, refl)
  | inr wide ↦ elim (Bool-cases (eq_ℤ (negsuc n) i64_min)) [
    | inl least ↦
        let e : n ≡ 2 ^ 63 - 1 = ground arith in
        rw e (rw int_const_min (difference (2 ^ 63 - 1) 1, unfold show in refl, omega arith, refl))
    | inr other ↦ rw (int_const_out (negsuc n) wide other) (wide-Spells (negsuc n) h)
  ]
]
