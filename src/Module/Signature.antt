-- ===== src/Module/Signature.antt =====
-- src/module.rs: how `CModule::to_c_source` reads the name and the number of the parameters off a
-- declaration or a definition that was written before.
use rustc_codegen_c.Prelude.{
  ℕ, ◌+◌, ◌≡◌, refl, sym, ap, ◌∙◌, Bool, true, false, ◌&&◌, ◌||◌, List, [], ◌∷◌, ◌++◌, Option, none,
  some, arith, ltb, leb, ◌==◌, if◌then◌else◌, All, All-append, append_assoc, not,
}
use rustc_codegen_c.Prelude.Text.{Text, str, fmt, text_eq, Text-discrete}
use rustc_codegen_c.Prelude.Dict.{get, insert}
use rustc_codegen_c.Module.Render.{is_empty}
use mathlib.Core.Option
use rustc_codegen_c.Prelude.Outcome.{Outcome, ok, panic, ◌>>=◌}

-- `char::is_whitespace`: the code points with the property White_Space.
abbrev pub is_whitespace : ℕ → Bool
is_whitespace c =
    (leb 9 c && leb c 13)
    || c == 32
    || c == 133
    || c == 160
    || c == 5760
    || (leb 8192 c && leb c 8202)
    || c == 8232
    || c == 8233
    || c == 8239
    || c == 8287
    || c == 12288

-- `find(c)`: what stands before the first `c`, and what stands behind it.
unfoldable pub split_first : ℕ → Text → Option (Text × Text)
split_first c [] = none
split_first c (d ∷ t) =
    let rest = split_first c t in
    if d == c then some ([], t) else Option.map (λ p. (d ∷ p.0, p.1)) rest

-- `rfind(is_whitespace)`: the last white space, and what stands behind it.
abbrev pub last_space_or : Option (ℕ × Text) → ℕ → Text → Option (ℕ × Text)
last_space_or (some p) c t = some p
last_space_or none c t = if is_whitespace c then some (c, t) else none

unfoldable pub split_last_space : Text → Option (ℕ × Text)
split_last_space [] = none
split_last_space (c ∷ t) = last_space_or (split_last_space t) c t

-- `trim`
abbrev pub is_blank : Text → Bool
is_blank [] = true
is_blank (c ∷ t) = is_whitespace c && is_blank t

abbrev pub trim_start : Text → Text
trim_start [] = []
trim_start (c ∷ t) = let rest = trim_start t in if is_whitespace c then rest else c ∷ t

abbrev pub trim_end : Text → Text
trim_end [] = []
trim_end (c ∷ t) = let rest = c ∷ trim_end t in if is_blank (c ∷ t) then [] else rest

abbrev pub trim : Text → Text
trim t = trim_end (trim_start t)

-- `split(c).count()`: one more than the separators.
abbrev pub split_count : ℕ → Text → ℕ
split_count c [] = 1
split_count c (d ∷ t) = let rest = split_count c t in if d == c then 1 + rest else rest

unfoldable pub param_count : Text → ℕ
param_count params =
    if text_eq (trim params) (str "void") || is_empty (trim params)
    then 0
    else split_count b',' params

-- The name and the number of parameters. `name_start` is one byte behind the white space, so that
-- slicing there panics if the white space takes more than one byte.
abbrev pub sig_from_close : Text → Option (Text × Text) → Outcome (Option (Text × ℕ))
sig_from_close name none = ok none
sig_from_close name (some (params, rest)) = ok (some (name, param_count params))

abbrev pub sig_from_space : Option (ℕ × Text) → Text → Outcome (Option (Text × ℕ))
sig_from_space none after = ok none
sig_from_space (some (c, name)) after =
    if ltb c 128 then sig_from_close name (split_first b')' after) else panic

abbrev pub sig_from_paren : Option (Text × Text) → Outcome (Option (Text × ℕ))
sig_from_paren none = ok none
sig_from_paren (some (before, after)) = sig_from_space (split_last_space before) after

unfoldable pub signature_of : Text → Outcome (Option (Text × ℕ))
signature_of text = sig_from_paren (split_first b'(' text)

abbrev pub add_sig : Option (Text × ℕ) → List (Text × ℕ) → List (Text × ℕ)
add_sig none sigs = sigs
add_sig (some (name, count)) sigs = insert Text-discrete sigs name count

-- `defined_sigs`: for each name the number of parameters of its last definition.
unfoldable pub defined_sigs : List Text → List (Text × ℕ) → Outcome (List (Text × ℕ))
defined_sigs [] m = ok m
defined_sigs (d ∷ defs) m = do sig ← signature_of d; defined_sigs defs (add_sig sig m)

-- A declaration whose function is defined with another number of parameters is left out.
abbrev pub conflicts : Option ℕ → ℕ → Bool
conflicts none decl_count = false
conflicts (some def_count) decl_count = not (def_count == decl_count)

unfoldable pub skips : List (Text × ℕ) → Option (Text × ℕ) → Bool
skips sigs none = false
skips sigs (some (name, decl_count)) = conflicts (get Text-discrete sigs name) decl_count

unfoldable pub kept_decls : List (Text × ℕ) → List Text → Outcome (List Text)
kept_decls sigs [] = ok []
kept_decls sigs (d ∷ decls) = do
  sig ← signature_of d
  rest ← kept_decls sigs decls
  ok (if skips sigs sig then rest else d ∷ rest)

-- A text without the character `c`.
abbrev pub Lacks : ℕ → Text → Type 0
Lacks c = All (λ d. (d == c) ≡ false)

abbrev pub NoSpaces : Text → Type 0
NoSpaces = All (λ c. is_whitespace c ≡ false)

split_first-append : (c : ℕ) (s t : Text) → Lacks c s → split_first c (s ++ c ∷ t) ≡ some (s, t)
unfolding split_first
split_first-append c [] t _ = let same : (c == c) ≡ true = ground arith in rw same refl
split_first-append c (d ∷ s) t (h, hs) = rw (h, split_first-append c s t hs) refl

split_last_space-none : (t : Text) → NoSpaces t → split_last_space t ≡ none
unfolding split_last_space
split_last_space-none [] _ = refl
split_last_space-none (c ∷ t) (h, hs) = rw (split_last_space-none t hs, h) refl

split_last_space-append :
    (s t : Text) → NoSpaces t → split_last_space (s ++ b' ' ∷ t) ≡ some (b' ', t)
unfolding split_last_space
split_last_space-append [] t h = rw (split_last_space-none t h) refl
split_last_space-append (c ∷ s) t h = rw (split_last_space-append s t h) refl

-- From a text that starts like a C function, `before name(params)`, with no bracket before the
-- name and neither brackets nor white space in it, the program reads that name and the number of
-- the parameters between the brackets.
pub signature_of-function :
    (before name params rest : Text)
    → Lacks b'(' before
    → Lacks b'(' name
    → NoSpaces name
    → Lacks b')' params
    → signature_of (fmt (before ∷ str " " ∷ name ∷ str "(" ∷ params ∷ str ")" ∷ rest ∷ []))
      ≡ ok (some (name, param_count params))
unfolding signature_of
signature_of-function before name params rest hb hn hs hp =
    let whole = append_assoc before (b' ' ∷ name) (b'(' ∷ (params ++ (b')' ∷ rest))) in
    let open_at =
      split_first-append b'(' (before ++ b' ' ∷ name) (params ++ (b')' ∷ rest))
        (All-append (λ d. (d == b'(') ≡ false) before (b' ' ∷ name) hb (refl, hn)) in
    let name_at = split_last_space-append before name hs in
    let close_at = split_first-append b')' params rest hp in
    ap (λ t. sig_from_paren (split_first b'(' t)) (sym whole)
    ∙ ap sig_from_paren open_at
    ∙ ap (λ s. sig_from_space s (params ++ (b')' ∷ rest))) name_at
    ∙ ap (sig_from_close name) close_at
