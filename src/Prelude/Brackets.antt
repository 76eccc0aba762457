-- ===== src/Prelude/Brackets.antt =====
-- Texts whose round, square and curly brackets match.
use mathlib.Core.Path.{◌≡◌, refl, ◌∙◌, ap, fun_ext}
use mathlib.Core.Option.{Option, none, some}
use mathlib.Core.List.{List, [], ◌∷◌, ◌++◌}
use Prim.Native.Nat.{ℕ}
use native.Mathlib.Omega.{arith}
use rustc_codegen_c.Prelude.Tests.{◌==◌, if◌then◌else◌}
use rustc_codegen_c.Prelude.Text.{Text, join, join_rest}
use rustc_codegen_c.Prelude.Lists.{All}
use rustc_codegen_c.Prelude.Decimal.{IsDigit, show, show-IsDigit}

-- The closing brackets that are awaited, innermost first.
abbrev pub Awaited : Type 0
Awaited = List ℕ

abbrev close : ℕ → Awaited → Option Awaited
close c [] = none
close c (d ∷ st) = if c == d then some st else none

-- One character: an opening bracket is pushed, a closing one must be the awaited one.
abbrev pub scan_char : ℕ → Awaited → Option Awaited
scan_char c st =
    if c == b'('
    then some (b')' ∷ st)
    else if c == b'['
    then some (b']' ∷ st)
    else if c == b'{'
    then some (b'}' ∷ st)
    else if c == b')'
    then close c st
    else if c == b']'
    then close c st
    else if c == b'}'
    then close c st
    else some st

abbrev pub and_then : Option Awaited → (Awaited → Option Awaited) → Option Awaited
and_then none f = none
and_then (some st) f = f st

abbrev pub scan : Text → Awaited → Option Awaited
scan [] st = some st
scan (c ∷ t) st = and_then (scan_char c st) (scan t)

-- Every bracket of the text is closed, in order, inside the text.
abbrev pub IsBalanced : Text → Type 0
IsBalanced t = (st : Awaited) → scan t st ≡ some st

and_then_assoc :
    (r : Option Awaited) (f g : Awaited → Option Awaited)
    → and_then r (λ st. and_then (f st) g) ≡ and_then (and_then r f) g
and_then_assoc none f g = refl
and_then_assoc (some st) f g = refl

pub scan-append : (s t : Text) (st : Awaited) → scan (s ++ t) st ≡ and_then (scan s st) (scan t)
scan-append [] t st = refl
scan-append (c ∷ s) t st =
    ap (and_then (scan_char c st)) (fun_ext (scan-append s t))
    ∙ and_then_assoc (scan_char c st) (scan s) (scan t)

-- A balanced part can be passed over.
pub scan_over : (s t : Text) (st : Awaited) → IsBalanced s → scan (s ++ t) st ≡ scan t st
scan_over s t st h = scan-append s t st ∙ ap (λ r. and_then r (scan t)) (h st)

pub append-IsBalanced : (s t : Text) → IsBalanced s → IsBalanced t → IsBalanced (s ++ t)
append-IsBalanced s t hs ht st = scan_over s t st hs ∙ ht st

-- Characters that are no brackets.
abbrev pub IsPlain : ℕ → Type 0
IsPlain c = (st : Awaited) → scan_char c st ≡ some st

pub IsPlain-IsBalanced : (t : Text) → All IsPlain t → IsBalanced t
IsPlain-IsBalanced [] _ st = refl
IsPlain-IsBalanced (c ∷ t) (h, hs) st =
    ap (λ r. and_then r (scan t)) (h st) ∙ IsPlain-IsBalanced t hs st

digits-IsPlain : (t : Text) → All IsDigit t → All IsPlain t
digits-IsPlain [] _ = tt
digits-IsPlain (c ∷ t) ((lo, hi), hs) = (λ st. ground arith, digits-IsPlain t hs)

pub show-IsBalanced : (n : ℕ) → IsBalanced (show n)
show-IsBalanced n = IsPlain-IsBalanced (show n) (digits-IsPlain (show n) (show-IsDigit n))

join_rest-IsBalanced :
    (sep : Text) (ts : List Text)
    → IsBalanced sep
    → All IsBalanced ts
    → IsBalanced (join_rest sep ts)
join_rest-IsBalanced sep [] hsep _ = λ st. refl
join_rest-IsBalanced sep (t ∷ ts) hsep (h, hs) =
    append-IsBalanced (sep ++ t) _ (append-IsBalanced sep t hsep h)
      (join_rest-IsBalanced sep ts hsep hs)

pub join-IsBalanced :
    (sep : Text) (ts : List Text) → IsBalanced sep → All IsBalanced ts → IsBalanced (join sep ts)
join-IsBalanced sep [] hsep _ = λ st. refl
join-IsBalanced sep (t ∷ ts) hsep (h, hs) =
    append-IsBalanced t _ h (join_rest-IsBalanced sep ts hsep hs)
