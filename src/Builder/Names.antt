-- ===== src/Builder/Names.antt =====
-- src/context.rs: symbol names as C identifiers.
use rustc_codegen_c.Prelude.{
  subst, ℕ, ◌≡◌, refl, Bool, true, ◌||◌, [], ◌∷◌, map, All, length, ◌==◌, if◌then◌else◌, arith,
  Bool-cases, inl, inr, ap, ◌⊎◌, ◌≤◌, sym, ◌∙◌,
}
use mathlib.Core.Bool.{true≢false}
use rustc_codegen_c.Prelude.Text.{Text, str, fmt, text_eq, text_eq_refl, is_ascii_alphanumeric}

abbrev pub is_name_char : ℕ → Bool
is_name_char c = is_ascii_alphanumeric c || c == b'_'

abbrev pub sanitize_char : ℕ → ℕ
sanitize_char c = if is_name_char c then c else b'_'

unfoldable pub sanitize_name : Text → Text
sanitize_name name = map sanitize_char name

unfoldable pub asm_label : Text → Text → Text
asm_label original sanitized =
    if text_eq original sanitized then [] else fmt (str " __asm__(\"" ∷ original ∷ str "\")" ∷ [])

-- A digit, a capital letter, a small letter or an underscore.
abbrev pub IsNameChar : ℕ → Type 0
IsNameChar c = ((48 ≤ c) × (c ≤ 57)) ⊎ (((65 ≤ c) × (c ≤ 90)) ⊎ (((97 ≤ c) × (c ≤ 122)) ⊎ (c ≡ 95)))

-- A name that C identifiers are made of.
abbrev pub IsName : Text → Type 0
IsName = All IsNameChar

is_name_char-IsNameChar : (c : ℕ) → is_name_char c ≡ true → IsNameChar c
is_name_char-IsNameChar c h = ground arith

IsNameChar-is_name_char : (c : ℕ) → IsNameChar c → is_name_char c ≡ true
IsNameChar-is_name_char c h = ground arith

-- What `d` is for a character `c`: the same where a name may have it, and an underscore where not.
abbrev pub Sanitizes : ℕ → ℕ → Type 0
Sanitizes c d = (IsNameChar c × (d ≡ c)) ⊎ ((¬ IsNameChar c) × (d ≡ 95))

sanitize_char-Sanitizes : (c : ℕ) → Sanitizes c (sanitize_char c)
sanitize_char-Sanitizes c = elim (Bool-cases (is_name_char c)) [
  | inl e ↦ rw e (inl (is_name_char-IsNameChar c e, refl))
  | inr e ↦ rw e (inr (λ h. true≢false (sym (IsNameChar-is_name_char c h) ∙ e), refl))
]

Sanitizes-IsNameChar : (c d : ℕ) → Sanitizes c d → IsNameChar d
Sanitizes-IsNameChar c d (inl (h, e)) = subst IsNameChar (sym e) h
Sanitizes-IsNameChar c d (inr (h, e)) = inr (inr (inr e))

-- The relation of two texts, character by character.
abbrev pub SanitizesAll : Text → Text → Type 0
SanitizesAll [] [] = Unit
SanitizesAll (c ∷ s) (d ∷ t) = Sanitizes c d × SanitizesAll s t
SanitizesAll _ _ = ⊥

sanitize_name-SanitizesAll : (name : Text) → SanitizesAll name (sanitize_name name)
unfolding sanitize_name
sanitize_name-SanitizesAll [] = tt
sanitize_name-SanitizesAll (c ∷ name) = (sanitize_char-Sanitizes c, sanitize_name-SanitizesAll name)

SanitizesAll-IsName : (s t : Text) → SanitizesAll s t → IsName t × (length t ≡ length s)
SanitizesAll-IsName [] [] _ = (tt, refl)
SanitizesAll-IsName (c ∷ s) (d ∷ t) (h, hs) =
    let (names, e) = SanitizesAll-IsName s t hs in
    ((Sanitizes-IsNameChar c d h, names), omega (arith, e))
SanitizesAll-IsName [] (d ∷ t) h = absurd h
SanitizesAll-IsName (c ∷ s) [] h = absurd h

-- Sanitizing gives ASCII letters, digits and underscores only, as many as the name has characters:
-- such a character stays as it is, and any other becomes an underscore.
pub sanitize_name-IsName :
    (name : Text)
    → IsName (sanitize_name name)
      × (length (sanitize_name name) ≡ length name)
      × SanitizesAll name (sanitize_name name)
sanitize_name-IsName name =
    let h = sanitize_name-SanitizesAll name in
    let (names, e) = SanitizesAll-IsName name (sanitize_name name) h in (names, e, h)

sanitize_name-id : (name : Text) → IsName name → sanitize_name name ≡ name
unfolding sanitize_name
sanitize_name-id [] _ = refl
sanitize_name-id (c ∷ name) (h, hs) =
    rw (IsNameChar-is_name_char c h) (ap (λ t. c ∷ t) (sanitize_name-id name hs))

-- A name of letters, digits and underscores is kept as it is and needs no label.
pub asm_label-sanitize_name :
    (name : Text)
    → IsName name
    → (sanitize_name name ≡ name) × (asm_label name (sanitize_name name) ≡ [])
unfolding asm_label
asm_label-sanitize_name name h =
    (sanitize_name-id name h, rw (sanitize_name-id name h, text_eq_refl name) refl)
