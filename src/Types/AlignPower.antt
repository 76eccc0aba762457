-- ===== src/Types/AlignPower.antt =====
-- src/types.rs: the natural alignment of a type is a power of two, as `_Alignas` demands.
use native.Mathlib.Nat.{pow-suc}
use rustc_codegen_c.Prelude.{
  ℕ, zero, suc, ◌*◌, ◌/◌, ◌%◌, ◌^◌, ◌≤◌, ◌<◌, ◌≡◌, refl, max, true, false, List, [], ◌∷◌, some, leb,
  Bool-cases, inl, inr, All, All-map, both_branches, length, get_elem?, get_elem?_total, arith,
}
use rustc_codegen_c.Prelude.Outcome.{Outcome, ok, traverse}
use rustc_codegen_c.Types.Kind.{
  TypeRef, CTypeKind, c_bits, void, bool, int, float, ptr, array, struct, function, vector,
  ptr_width,
}
use rustc_codegen_c.Types.Store.{TypeStore}
use rustc_codegen_c.Types.Interning.{get_of_elem}
use rustc_codegen_c.Types.Total.{IsClosed, RefsBelow, WidthKnown, IsFloatWidth}
use rustc_codegen_c.Types.Align.{
  grow, next_power_of_two, max_from, max_or_one, align_kind, align_fuel, natural_align_bytes,
}

abbrev pub IsPowerOfTwo : ℕ → Type 0
IsPowerOfTwo a = (k : ℕ) × (a ≡ 2 ^ k)

grow_bounds :
    (f p n : ℕ)
    → IsPowerOfTwo p
    → n ≤ p * 2 ^ f
    → IsPowerOfTwo (grow (suc f) p n) × (n ≤ grow (suc f) p n)
unfolding grow
grow_bounds zero p n hp h = let fits : leb n p ≡ true = ground arith in rw fits (hp, omega arith)
grow_bounds (suc f) p n (k, e) h = elim (Bool-cases (leb n p)) [
  | inl fits ↦ rw fits ((k, e), ground arith)
  | inr over ↦
      let h' : n ≤ p * (2 ^ f * 2) = rw pow-suc at h in
      rw over (grow_bounds f (2 * p) n (suc k, rw (pow-suc 2 k) (omega (arith, e))) (omega arith))
]

-- Up to 2^63 `next_power_of_two` gives a power of two that is no smaller.
pub next_power_of_two_bounds :
    (n : ℕ) → n ≤ 2 ^ 63 → IsPowerOfTwo (next_power_of_two n) × (n ≤ next_power_of_two n)
unfolding next_power_of_two
next_power_of_two_bounds n h = grow_bounds 63 1 n (0, refl) (omega arith)

max-IsPowerOfTwo : (m n : ℕ) → IsPowerOfTwo m → IsPowerOfTwo n → IsPowerOfTwo (max m n)
max-IsPowerOfTwo m n hm hn = elim (Bool-cases (leb m n)) [
  | inl h ↦ let e : max m n ≡ n = ground arith in rw e hn
  | inr h ↦ let e : max m n ≡ m = ground arith in rw e hm
]

max_from-IsPowerOfTwo :
    (xs : List ℕ) (m : ℕ) → IsPowerOfTwo m → All IsPowerOfTwo xs → IsPowerOfTwo (max_from m xs)
max_from-IsPowerOfTwo [] m hm _ = hm
max_from-IsPowerOfTwo (x ∷ xs) m hm (h, hs) =
    max_from-IsPowerOfTwo xs (max m x) (max-IsPowerOfTwo m x hm h) hs

max_or_one-IsPowerOfTwo : (xs : List ℕ) → All IsPowerOfTwo xs → IsPowerOfTwo (max_or_one xs)
max_or_one-IsPowerOfTwo [] _ = (0, refl)
max_or_one-IsPowerOfTwo (x ∷ xs) (h, hs) = max_from-IsPowerOfTwo xs x h hs

-- The alignments that scalars have: powers of two up to 16.
abbrev IsSmallPower : ℕ → Type 0
IsSmallPower a = IsPowerOfTwo a × (a ≤ 16)

abbrev pub IsScalar : CTypeKind → Type 0
IsScalar bool = Unit
IsScalar (int bits signed) = Unit
IsScalar (float bits) = Unit
IsScalar ptr = Unit
IsScalar (ptr_width signed) = Unit
IsScalar _ = ⊥

-- Vectors hold scalars, at most 2^59 of them, so that their size is below 2^64.
pub record VectorsFit (s : TypeStore) : Type 0 where
  pub short : (i element len : ℕ) → get_elem? s.types i ≡ some (vector element len) → len ≤ 2 ^ 59
  pub scalar :
      (i element len : ℕ) (k : CTypeKind)
      → get_elem? s.types i ≡ some (vector element len)
      → get_elem? s.types element ≡ some k
      → IsScalar k

int_align : (bits : ℕ) → IsSmallPower (max (c_bits bits / 8) 1)
unfolding c_bits
int_align bits =
    both_branches (λ c. IsSmallPower (max (c / 8) 1)) (leb bits 8) ((0, refl), omega arith)
      (both_branches (λ c. IsSmallPower (max (c / 8) 1)) (leb bits 16) ((1, refl), omega arith)
        (both_branches (λ c. IsSmallPower (max (c / 8) 1)) (leb bits 32) ((2, refl), omega arith)
          (both_branches (λ c. IsSmallPower (max (c / 8) 1)) (leb bits 64) ((3, refl), omega arith)
            ((4, refl), omega arith))))

float_align : (bits : ℕ) → IsFloatWidth bits → IsSmallPower (max (bits / 8) 1)
float_align bits (inl e) = rw e ((1, refl), omega arith)
float_align bits (inr (inl e)) = rw e ((2, refl), omega arith)
float_align bits (inr (inr (inl e))) = rw e ((3, refl), omega arith)
float_align bits (inr (inr (inr e))) = rw e ((4, refl), omega arith)

-- A vector of at most 2^59 elements of at most 16 bytes.
vector_size : (a len : ℕ) → a ≤ 16 → len ≤ 2 ^ 59 → a * len ≤ 2 ^ 63
vector_size a len h k = let m : a * len ≤ 16 * len = grind arith in omega arith

module _ (pointer_bytes : ℕ) (hp : IsSmallPower pointer_bytes) where
  scalar_align :
      (rec : TypeRef → Outcome ℕ) (k : CTypeKind)
      → IsScalar k
      → WidthKnown k
      → (a : ℕ) × (align_kind rec pointer_bytes k ≡ ok a) × IsSmallPower a
  unfolding align_kind
  scalar_align rec void h w = absurd h
  scalar_align rec bool h w = (1, refl, ((0, refl), omega arith))
  scalar_align rec (int bits signed) h w = (_, refl, int_align bits)
  scalar_align rec (float bits) h w = (_, refl, float_align bits w)
  scalar_align rec ptr h w = (_, refl, hp)
  scalar_align rec (array element len) h w = absurd h
  scalar_align rec (struct fields packed name) h w = absurd h
  scalar_align rec (function ret args variadic) h w = absurd h
  scalar_align rec (vector element len) h w = absurd h
  scalar_align rec (ptr_width signed) h w = (_, refl, hp)

  -- A call that returns a power of two.
  abbrev Aligns : Outcome ℕ → Type 0
  Aligns r = (a : ℕ) × (r ≡ ok a) × IsPowerOfTwo a

  -- What a round asks of a vector: few elements, of a small alignment.
  abbrev VectorCase : (TypeRef → Outcome ℕ) → CTypeKind → Type 0
  VectorCase rec (vector element len) =
      (len ≤ 2 ^ 59) × ((a : ℕ) × (rec element ≡ ok a) × IsSmallPower a)
  VectorCase rec _ = Unit

  traverse-Aligns :
      (rec : TypeRef → Outcome ℕ) (ts : List TypeRef)
      → All (λ t. Aligns (rec t)) ts
      → (as' : List ℕ) × (traverse rec ts ≡ ok as') × All IsPowerOfTwo as'
  unfolding traverse
  traverse-Aligns rec [] _ = ([], refl, tt)
  traverse-Aligns rec (t ∷ ts) ((a, e, h), rest) =
      let (as', es, hs) = traverse-Aligns rec ts rest in (a ∷ as', rw (e, es), (h, hs))

  align_kind-Aligns :
      (rec : TypeRef → Outcome ℕ) (n : ℕ) (k : CTypeKind)
      → ((t : TypeRef) → t < n → Aligns (rec t))
      → RefsBelow n k
      → WidthKnown k
      → VectorCase rec k
      → Aligns (align_kind rec pointer_bytes k)
  unfolding align_kind
  align_kind-Aligns rec n void ih b w v = (1, refl, (0, refl))
  align_kind-Aligns rec n bool ih b w v = (1, refl, (0, refl))
  align_kind-Aligns rec n (int bits signed) ih b w v = (_, refl, (int_align bits).0)
  align_kind-Aligns rec n (float bits) ih b w v = (_, refl, (float_align bits w).0)
  align_kind-Aligns rec n ptr ih b w v = (_, refl, hp.0)
  align_kind-Aligns rec n (array element len) ih b w v = ih element b
  align_kind-Aligns rec n (struct fields true name) ih b w v = (1, refl, (0, refl))
  align_kind-Aligns rec n (struct fields false name) ih b w v =
      let (as', e, hs) = traverse-Aligns rec fields (All-map fields ih b) in
      (max_or_one as', rw e, max_or_one-IsPowerOfTwo as' hs)
  align_kind-Aligns rec n (function ret args variadic) ih b w v = (_, refl, hp.0)
  align_kind-Aligns rec n (vector element len) ih b w (short, (a, e, (ha, small))) =
      let total : a * len ≤ 2 ^ 63 = vector_size a len small short in
      (
        next_power_of_two (a * len % 2 ^ 64),
        rw e,
        (next_power_of_two_bounds (a * len % 2 ^ 64) (omega arith)).0,
      )
  align_kind-Aligns rec n (ptr_width signed) ih b w v = (_, refl, hp.0)

  module _ (s : TypeStore) (c : IsClosed s) (fit : VectorsFit s) where
    scalar_aligns :
        (f : ℕ) (t : TypeRef) (k : CTypeKind)
        → 0 < f
        → get_elem? s.types t ≡ some k
        → IsScalar k
        → (a : ℕ) × (align_fuel f s pointer_bytes t ≡ ok a) × IsSmallPower a
    unfolding align_fuel
    scalar_aligns zero t k pos e sc = elim pos [ ]
    scalar_aligns (suc f) t k pos e sc =
        rw (get_of_elem s t e) (scalar_align _ k sc (c.widths k t e))

    vector_case :
        (f : ℕ) (t : TypeRef) (k : CTypeKind)
        → t < suc f
        → t < length s.types
        → get_elem? s.types t ≡ some k
        → VectorCase (align_fuel f s pointer_bytes) k
    vector_case f t (vector element len) lt inside e =
        let below = c.refs (vector element len) t e in
        let (k, ek) = get_elem?_total s.types element (omega arith) in
        (
          fit.short t element len e,
          scalar_aligns f element k (omega arith) ek (fit.scalar t element len k e ek),
        )
    vector_case f t _ lt inside e = tt

    align_fuel-Aligns :
        (f : ℕ) (t : TypeRef) → t < f → t < length s.types → Aligns (align_fuel f s pointer_bytes t)
    unfolding align_fuel
    align_fuel-Aligns zero t lt inside = elim lt [ ]
    align_fuel-Aligns (suc f) t lt inside =
        let (k, e) = get_elem?_total s.types t inside in
        rw (get_of_elem s t e) (
          align_kind-Aligns (align_fuel f s pointer_bytes) t k
            (λ u below. align_fuel-Aligns f u (omega arith) (omega arith)) (c.refs k t e)
            (c.widths k t e) (vector_case f t k lt inside e))

    -- For pointers of 1 to 16 bytes, a power of two, every type of a closed store whose vectors
    -- are of scalars and have at most 2^59 elements has an alignment, and it is a power of two.
    pub natural_align-IsPowerOfTwo :
        (t : TypeRef)
        → t < length s.types
        → (a : ℕ) × (natural_align_bytes s t pointer_bytes ≡ ok a) × IsPowerOfTwo a
    unfolding natural_align_bytes
    natural_align-IsPowerOfTwo t inside =
        align_fuel-Aligns (suc (length s.types)) t (omega arith) inside
