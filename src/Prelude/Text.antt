-- ===== src/Prelude/Text.antt =====
-- A Rust `String` is the list of its code points. `str` reads a literal, `join` is `[T]::join`.
use Prim.Native.Char.{code}
use Prim.Native.String.{String}
use Prim.Native.Nat.{ℕ}
use mathlib.Core.Path.{◌≡◌, refl}
use native.Mathlib.Omega.{arith}
use mathlib.Core.Bool.{Bool, true, false, ◌&&◌, ◌||◌}
use mathlib.Core.List.{List, [], ◌∷◌, ◌++◌}
use native.Mathlib.Decide.{ℕ_discrete}
use rustc_codegen_c.Prelude.Tests.{leb, ◌==◌, if◌then◌else◌}

abbrev pub Text : Type 0
Text = List ℕ

-- The code points of a literal. `String` has its own `[]` and `∷`.
abbrev pub str : String → Text
str String.[] = []
str (String.◌∷◌ c s) = code c ∷ str s

-- `write!` and `format!` with their pieces in order.
abbrev pub fmt : List Text → Text
fmt [] = []
fmt (t ∷ []) = t
fmt (t ∷ u ∷ ts) = t ++ fmt (u ∷ ts)

abbrev pub newline : Text
newline = 10 ∷ []

-- The items after the first, each behind the separator.
abbrev pub join_rest : Text → List Text → Text
join_rest sep [] = []
join_rest sep (t ∷ ts) = sep ++ t ++ join_rest sep ts

-- `parts.join(sep)`
abbrev pub join : Text → List Text → Text
join sep [] = []
join sep (t ∷ ts) = t ++ join_rest sep ts

unfoldable pub Text-discrete : Discrete Text
Text-discrete = hlevel ℕ_discrete

-- `str::lines`: the pieces between newlines, without a last empty one (a `\r` before a newline
-- belongs to the line ending).
abbrev pub drop_cr : Text → Text
drop_cr [] = []
drop_cr (c ∷ []) = if c == 13 then [] else c ∷ []
drop_cr (c ∷ d ∷ t) = c ∷ drop_cr (d ∷ t)

unfoldable pub lines_from : Text → Text → List Text
lines_from [] [] = []
lines_from [] (c ∷ cur) = (c ∷ cur) ∷ []
lines_from (c ∷ t) cur =
    let ended = drop_cr cur ∷ lines_from t [] in
    let going = lines_from t (cur ++ c ∷ []) in if c == 10 then ended else going

unfoldable pub lines : Text → List Text
unfolding lines_from
lines t = lines_from t []

-- `char::is_ascii_alphanumeric`
abbrev pub is_ascii_alphanumeric : ℕ → Bool
is_ascii_alphanumeric c =
    (leb b'0' c && leb c b'9') || (leb b'A' c && leb c b'Z') || (leb b'a' c && leb c b'z')

-- `s.contains(pattern)`
abbrev pub starts_with : Text → Text → Bool
starts_with t [] = true
starts_with [] (d ∷ p) = false
starts_with (c ∷ t) (d ∷ p) = c == d && starts_with t p

abbrev pub contains_text : Text → Text → Bool
contains_text [] p = starts_with [] p
contains_text (c ∷ t) p = starts_with (c ∷ t) p || contains_text t p

-- `s == t`
abbrev pub text_eq : Text → Text → Bool
text_eq [] [] = true
text_eq [] (d ∷ t) = false
text_eq (c ∷ s) [] = false
text_eq (c ∷ s) (d ∷ t) = c == d && text_eq s t

pub text_eq_refl : (t : Text) → text_eq t t ≡ true
text_eq_refl [] = refl
text_eq_refl (c ∷ t) = let same : (c == c) ≡ true = ground arith in rw same (text_eq_refl t)

-- `writeln!`
abbrev pub fmt_line : List Text → Text
fmt_line ts = fmt ts ++ newline
