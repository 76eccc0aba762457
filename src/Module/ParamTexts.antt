-- ===== src/Module/ParamTexts.antt =====
-- src/module.rs: the parameters that `CModule::to_c_source` counts in the text of a function.
use rustc_codegen_c.Prelude.{
  ℕ, ◌+◌, ◌≡◌, refl, ◌∙◌, Bool, true, false, not, ◌&&◌, ◌||◌, List, [], ◌∷◌, ◌++◌, All, All-append,
  length, arith, ◌==◌, both_branches,
}
use rustc_codegen_c.Prelude.Text.{Text, str, join, join_rest, newline, contains_text, text_eq}
use rustc_codegen_c.Module.Function.{FunctionDef}
use rustc_codegen_c.Module.Render.{is_empty, params_joined, weak_pragma}
use rustc_codegen_c.Module.Signature.{Lacks, split_count, trim, param_count}

-- A test for `Lacks`, for literals.
abbrev pub lacks : ℕ → Text → Bool
lacks c [] = true
lacks c (d ∷ t) = not (d == c) && lacks c t

pub lacks-Lacks : (c : ℕ) (t : Text) → lacks c t ≡ true → Lacks c t
lacks-Lacks c [] _ = tt
lacks-Lacks c (d ∷ t) h = split (d == c) h (lacks-Lacks c t)
  where
    split :
        (b : Bool)
        → (not b && lacks c t) ≡ true
        → (lacks c t ≡ true → Lacks c t)
        → (b ≡ false) × Lacks c t
    split true h k = cc
    split false h k = (refl, k h)

split_count-append : (s t : Text) → Lacks b',' s → split_count b',' (s ++ t) ≡ split_count b',' t
split_count-append [] t _ = refl
split_count-append (c ∷ s) t (h, hs) = rw h (split_count-append s t hs)

split_count-join_rest :
    (xs : List Text)
    → All (Lacks b',') xs
    → split_count b',' (join_rest (str ", ") xs) ≡ 1 + length xs
split_count-join_rest [] _ = refl
split_count-join_rest (x ∷ xs) (h, hs) =
    let rest = split_count-append x (join_rest (str ", ") xs) h ∙ split_count-join_rest xs hs in
    rw rest (omega arith)

split_count-join :
    (x : Text) (xs : List Text)
    → All (Lacks b',') (x ∷ xs)
    → split_count b',' (join (str ", ") (x ∷ xs)) ≡ 1 + length xs
split_count-join x xs (h, hs) = split_count-append x _ h ∙ split_count-join_rest xs hs

-- The text between the brackets does not stand for an empty list of parameters.
abbrev pub SaysParams : List Text → Type 0
SaysParams [] = Unit
SaysParams (x ∷ xs) =
    let params = join (str ", ") (x ∷ xs) in
    (text_eq (trim params) (str "void") || is_empty (trim params)) ≡ false

pub count-params_joined :
    (xs : List Text)
    → All (Lacks b',') xs
    → SaysParams xs
    → param_count (params_joined xs false) ≡ length xs
unfolding param_count params_joined
count-params_joined [] _ _ = refl
count-params_joined (x ∷ xs) h says = rw (says, split_count-join x xs h) (omega arith)

join_rest-Lacks : (xs : List Text) → All (Lacks b')') xs → Lacks b')' (join_rest (str ", ") xs)
join_rest-Lacks [] _ = tt
join_rest-Lacks (x ∷ xs) (h, hs) =
    (refl, (refl, All-append (λ d. (d == b')') ≡ false) x _ h (join_rest-Lacks xs hs)))

pub params_joined-Lacks :
    (xs : List Text) → All (Lacks b')') xs → Lacks b')' (params_joined xs false)
unfolding params_joined
params_joined-Lacks [] _ = lacks-Lacks b')' (str "void") refl
params_joined-Lacks (x ∷ xs) (h, hs) =
    All-append (λ d. (d == b')') ≡ false) x _ h (join_rest-Lacks xs hs)

pub pragma-Lacks : (f : FunctionDef) → Lacks b'(' f.name → Lacks b'(' (weak_pragma f)
unfolding weak_pragma
pragma-Lacks f h =
    both_branches (Lacks b'(') (f.is_weak && not (contains_text f.linkage_prefix (str "static")))
      (All-append (λ d. (d == b'(') ≡ false) (str "#pragma weak " ++ f.name) newline
        (All-append (λ d. (d == b'(') ≡ false) (str "#pragma weak ") f.name
          (lacks-Lacks b'(' (str "#pragma weak ") refl) h)
        (refl, tt))
      tt
