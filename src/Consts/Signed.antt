-- ===== src/Consts/Signed.antt =====
-- src/consts.rs: sign extension of the bits of a constant.
use native.Mathlib.Nat.{
  mul-div_cancel, mul-add-div_right, div-eq_of_lt, mul-add-mod_self_left, mod-lt, mod-eq_of_lt,
  div-add-mod, mul-lt-mul_of_pos_right, mul-le-mul_right, pow-suc, one-le-pow,
}
use rustc_codegen_c.Prelude.{
  ℕ, zero, suc, ◌+◌, ◌-◌, ◌*◌, ◌/◌, ◌%◌, ◌^◌, ◌≤◌, ◌<◌, ◌≡◌, refl, sym, ap, ◌∙◌, true, false, arith,
  ltb, leb, if◌then◌else◌, Bool-cases, inl, inr,
}
use rustc_codegen_c.Prelude.Int.{ℤ, pos, negsuc, to_u128, to_i128, shift_right}

-- `x << k` on an `i128`: the bits move up, and those above the word are lost.
abbrev pub shift_left : ℤ → ℕ → ℤ
shift_left z k = to_i128 (to_u128 z * 2 ^ k % 2 ^ 128)

-- The amount of a shift counts modulo the width of the word, so that `bits` 0 shifts by nothing.
unfoldable pub sign_extend_to_i128 : ℕ → ℕ → ℤ
sign_extend_to_i128 val bits =
    if leb 128 bits
    then to_i128 val
    else let shift = (128 - bits) % 128 in shift_right (shift_left (to_i128 val) shift) shift

-- The signed numbers of `b + 1` bits.
abbrev pub IsSigned : ℕ → ℤ → Type 0
IsSigned b (pos n) = n < 2 ^ b
IsSigned b (negsuc n) = n < 2 ^ b

pow_add : (a b : ℕ) → 2 ^ (a + b) ≡ 2 ^ a * 2 ^ b
pow_add a zero = grind arith
pow_add a (suc b) =
    let e : a + suc b ≡ suc (a + b) = omega arith in
    let left = pow-suc 2 (a + b) in
    let right = pow-suc 2 b in rw (e, left, right, pow_add a b) (grind arith)

scale : (m c q v : ℕ) → (m * q + v) * c ≡ m * c * q + v * c
scale m c q v = grind arith

mod_scaled : (x m c : ℕ) → 0 < c → 0 < m → (x * c) % (m * c) ≡ (x % m) * c
mod_scaled x m c hc hm =
    let e : m * (x / m) + x % m ≡ x = div-add-mod x m in
    let r : x * c ≡ m * c * (x / m) + (x % m) * c =
      ap (λ y. y * c) (sym e) ∙ scale m c (x / m) (x % m) in
    let lt : x % m < m = mod-lt x hm in
    let small : (x % m) * c < m * c = mul-lt-mul_of_pos_right lt hc in
    rw r (mul-add-mod_self_left (m * c) (x / m) ((x % m) * c) ∙ mod-eq_of_lt small)

down_low : (v c : ℕ) → 0 < c → v * c / c ≡ v
down_low v c hc = mul-div_cancel v hc

above : (v c d m : ℕ) → 0 < c → m ≡ v + 1 + d → m * c - 1 - v * c ≡ d * c + (c - 1)
above v c d m hc e =
    let whole : m * c ≡ v * c + c + d * c = rw e (grind arith) in omega (arith, whole)

down_high : (v c m : ℕ) → 0 < c → v < m → (m * c - 1 - v * c) / c ≡ m - 1 - v
down_high v c m hc hv =
    let e : m * c - 1 - v * c ≡ (m - 1 - v) * c + (c - 1) =
      above v c (m - 1 - v) m hc (omega arith) in
    let below : c - 1 < c = omega arith in
    let none_left : (c - 1) / c ≡ 0 = div-eq_of_lt below in
    let last : m - 1 - v + (c - 1) / c ≡ m - 1 - v = omega (arith, none_left) in
    rw e (mul-add-div_right hc (m - 1 - v) (c - 1) ∙ last)

-- The word `v * c` read as signed, where the word has `h` times `c` numbers below its half.
abbrev read_signed : ℕ → ℕ → ℤ
read_signed half n = if ltb n half then pos n else negsuc (2 * half - 1 - n)

abbrev down_by : ℤ → ℕ → ℤ
down_by (pos n) c = pos (n / c)
down_by (negsuc n) c = negsuc (n / c)

-- Moved up, read as signed and moved down, `v` is read as signed by the smaller half.
down_up :
    (v c h : ℕ) → 0 < c → v < 2 * h → down_by (read_signed (h * c) (v * c)) c ≡ read_signed h v
down_up v c h hc hv = elim (Bool-cases (ltb v h)) [
  | inl e ↦
      let lt : v < h = ground arith in
      let small : v * c < h * c = mul-lt-mul_of_pos_right lt hc in
      let e' : ltb (v * c) (h * c) ≡ true = ground arith in rw (e, e') (ap pos (down_low v c hc))
  | inr e ↦
      let le : h ≤ v = ground arith in
      let big : h * c ≤ v * c = mul-le-mul_right c le in
      let e' : ltb (v * c) (h * c) ≡ false = ground arith in
      let twice : 2 * (h * c) ≡ 2 * h * c = grind arith in
      rw (e, e', twice) (ap negsuc (down_high v c (2 * h) hc hv))
]

read_signed-IsSigned : (b v : ℕ) → v < 2 * 2 ^ b → IsSigned b (read_signed (2 ^ b) v)
read_signed-IsSigned b v h = elim (Bool-cases (ltb v (2 ^ b))) [
  | inl e ↦ let lt : v < 2 ^ b = ground arith in rw e lt
  | inr e ↦
      let le : 2 ^ b ≤ v = ground arith in
      let lt : 2 * 2 ^ b - 1 - v < 2 ^ b = omega arith in rw e lt
]

double_half : (h c : ℕ) → 2 ^ 127 ≡ h * c → 2 ^ 128 ≡ 2 * h * c
double_half h c e = let twice : 2 * (h * c) ≡ 2 * h * c = grind arith in omega arith

double_pos : (h : ℕ) → 0 < h → 0 < 2 * h
double_pos h e = omega arith

word_back : (val : ℕ) → val < 2 ^ 128 → to_u128 (to_i128 val) ≡ val
word_back val h = elim (Bool-cases (ltb val (2 ^ 127))) [
  | inl e ↦ let lt : val < 2 ^ 127 = ground arith in rw e (omega arith)
  | inr e ↦ let le : 2 ^ 127 ≤ val = ground arith in rw e (omega arith)
]

shift_right_down : (z : ℤ) (k : ℕ) → shift_right z k ≡ down_by z (2 ^ k)
shift_right_down (pos n) k = refl
shift_right_down (negsuc n) k = refl

-- Below the width of the word, the code reads the low bits of the constant as a signed number.
low_bits :
    (val b : ℕ)
    → val < 2 ^ 128
    → b < 127
    → sign_extend_to_i128 val (b + 1) ≡ read_signed (2 ^ b) (val % (2 * 2 ^ b))
unfolding sign_extend_to_i128
low_bits val b hv hb =
    let c = 2 ^ (127 - b) in
    let narrow : leb 128 (b + 1) ≡ false = ground arith in
    let amount : (128 - (b + 1)) % 128 ≡ 127 - b = omega arith in
    let sum : b + (127 - b) ≡ 127 = omega arith in
    let half : 2 ^ 127 ≡ 2 ^ b * c = ap (λ n. 2 ^ n) (sym sum) ∙ pow_add b (127 - b) in
    let word : 2 ^ 128 ≡ 2 * 2 ^ b * c = double_half (2 ^ b) c half in
    let hc : 0 < c = one-le-pow (127 - b) 2 (omega arith) in
    let hm : 0 < 2 * 2 ^ b = double_pos (2 ^ b) (one-le-pow b 2 (omega arith)) in
    let scaled = mod_scaled val (2 * 2 ^ b) c hc hm in
    rw (narrow, amount)
      (ap (λ x. shift_right (to_i128 (x * c % 2 ^ 128)) (127 - b)) (word_back val hv)
        ∙ shift_right_down (to_i128 (val * c % 2 ^ 128)) (127 - b)
        ∙ ap (λ w. down_by (read_signed (2 ^ 127) (val * c % w)) c) word
        ∙ ap (λ w. down_by (read_signed (2 ^ 127) w) c) scaled
        ∙ ap (λ w. down_by (read_signed w (val % (2 * 2 ^ b) * c)) c) half
        ∙ down_up (val % (2 * 2 ^ b)) c (2 ^ b) hc (mod-lt val hm))

-- At the width of the word as well.
pub sign_extend-read_signed :
    (val b : ℕ)
    → val < 2 ^ 128
    → b < 128
    → sign_extend_to_i128 val (b + 1) ≡ read_signed (2 ^ b) (val % (2 * 2 ^ b))
sign_extend-read_signed val b hv hb = elim (Bool-cases (ltb b 127)) [
  | inl e ↦ low_bits val b hv (ground arith)
  | inr e ↦
      let whole : b ≡ 127 = ground arith in
      let same : val % 2 ^ 128 ≡ val = mod-eq_of_lt hv in
      rw whole (unfold sign_extend_to_i128 in ap to_i128 (sym same))
]

less_one : (m c : ℕ) → 0 < c → m * c ≡ m * (c - 1) + m
less_one m zero hc = elim hc [ ]
less_one m (suc c) hc = let e : suc c - 1 ≡ c = omega arith in rw e (grind arith)

times_two : (x : ℕ) → x * 2 ^ 1 ≡ 2 * x
times_two x = omega arith

le_scaled : (m c : ℕ) → 0 < c → m ≤ m * c
le_scaled m c hc = let step : m * c ≡ m * (c - 1) + m = less_one m c hc in omega arith

read_signed-mod :
    (h c v : ℕ) → 0 < c → 2 ^ 128 ≡ 2 * h * c → v < 2 * h → to_u128 (read_signed h v) % (2 * h) ≡ v
read_signed-mod h c v hc word hv =
    let inside : 2 * h ≤ 2 * h * c = le_scaled (2 * h) c hc in
    elim (Bool-cases (ltb v h)) [
      | inl e ↦
          let low : v % 2 ^ 128 ≡ v = mod-eq_of_lt (omega arith) in rw (e, low) (mod-eq_of_lt hv)
      | inr e ↦
          let low : (2 * h - 1 - v) % 2 ^ 128 ≡ 2 * h - 1 - v = mod-eq_of_lt (omega arith) in
          let step : 2 * h * c ≡ 2 * h * (c - 1) + 2 * h = less_one (2 * h) c hc in
          let flipped : 2 ^ 128 - 1 - (2 * h - 1 - v) ≡ 2 * h * (c - 1) + v = omega arith in
          rw (e, low, flipped) (mul-add-mod_self_left (2 * h) (c - 1) v ∙ mod-eq_of_lt hv)
    ]

-- For 1 to 128 bits and a value below 2^128, sign extension gives a number in the signed range of
-- these bits, with the same low bits as the value.
pub sign_extend_to_i128-IsSigned :
    (val b : ℕ)
    → val < 2 ^ 128
    → b < 128
    → IsSigned b (sign_extend_to_i128 val (b + 1))
      × (to_u128 (sign_extend_to_i128 val (b + 1)) % 2 ^ (b + 1) ≡ val % 2 ^ (b + 1))
sign_extend_to_i128-IsSigned val b hv hb =
    let c = 2 ^ (127 - b) in
    let sum : b + (127 - b) ≡ 127 = omega arith in
    let half : 2 ^ 127 ≡ 2 ^ b * c = ap (λ n. 2 ^ n) (sym sum) ∙ pow_add b (127 - b) in
    let word : 2 ^ 128 ≡ 2 * 2 ^ b * c = double_half (2 ^ b) c half in
    let hc : 0 < c = one-le-pow (127 - b) 2 (omega arith) in
    let hm : 0 < 2 * 2 ^ b = double_pos (2 ^ b) (one-le-pow b 2 (omega arith)) in
    let below = mod-lt val hm in
    let next : 2 ^ (b + 1) ≡ 2 * 2 ^ b = pow_add b 1 ∙ times_two (2 ^ b) in
    rw (sign_extend-read_signed val b hv hb, next)
      (
        read_signed-IsSigned b (val % (2 * 2 ^ b)) below,
        read_signed-mod (2 ^ b) c (val % (2 * 2 ^ b)) hc word below,
      )
