-- ===== src/Module/Defined.antt =====
-- src/module.rs: the signatures that `CModule::to_c_source` collects from the definitions.
use rustc_codegen_c.Prelude.{
  ℕ, ◌≡◌, refl, ◌∙◌, sym, ap, ◌⊎◌, inl, inr, List, [], ◌∷◌, Option, none, some, All,
}
use rustc_codegen_c.Prelude.Text.{Text, Text-discrete}
use rustc_codegen_c.Prelude.Outcome.{ok, >>=-eq-ok, Gives-ok}
use rustc_codegen_c.Prelude.Dict.{get, insert, get-insert_self, get-insert_ne}
use rustc_codegen_c.Module.Signature.{signature_of, add_sig, defined_sigs}

-- The text says a function of the name with the number of parameters.
abbrev pub Says : Text → Text → ℕ → Type 0
Says d name count = signature_of d ≡ ok (some (name, count))

-- None of the definitions is of the name.
abbrev pub Undefined : List Text → Text → Type 0
Undefined defs name = All (λ d. (count : ℕ) → ¬ Says d name count) defs

-- The last of the definitions of the name has the number of parameters.
pub data DefinedWith : List Text → Text → ℕ → Type 0 where
  last :
      {d : Text} {defs : List Text} {name : Text} {count : ℕ}
      → Says d name count
      → Undefined defs name
      → DefinedWith (d ∷ defs) name count
  later :
      {d : Text} {defs : List Text} {name : Text} {count : ℕ}
      → DefinedWith defs name count
      → DefinedWith (d ∷ defs) name count

pub DefinedWith-not_Undefined :
    {defs : List Text} {name : Text} {count : ℕ}
    → DefinedWith defs name count
    → ¬ Undefined defs name
DefinedWith-not_Undefined (DefinedWith.last s _) (none_of_it, _) = none_of_it _ s
DefinedWith-not_Undefined (DefinedWith.later h) (_, hs) = DefinedWith-not_Undefined h hs

same_count : (d name : Text) (m n : ℕ) → Says d name m → Says d name n → m ≡ n
same_count d name m n s t = let p = sym s ∙ t in cc

-- A name has one last definition.
pub DefinedWith-unique :
    {defs : List Text} {name : Text} {m n : ℕ}
    → DefinedWith defs name m
    → DefinedWith defs name n
    → m ≡ n
DefinedWith-unique (DefinedWith.last s _) (DefinedWith.last t _) = same_count _ _ _ _ s t
DefinedWith-unique (DefinedWith.last _ u) (DefinedWith.later k) =
    absurd (DefinedWith-not_Undefined k u)
DefinedWith-unique (DefinedWith.later h) (DefinedWith.last _ u) =
    absurd (DefinedWith-not_Undefined h u)
DefinedWith-unique (DefinedWith.later h) (DefinedWith.later k) = DefinedWith-unique h k

abbrev count_of : List (Text × ℕ) → Text → Option ℕ
count_of sigs name = get Text-discrete sigs name

-- One more signature is of the name, and found under it, or leaves what is found under the name.
add_sig_count :
    (d : Text) (sig : Option (Text × ℕ)) (sigs : List (Text × ℕ)) (name : Text)
    → signature_of d ≡ ok sig
    → ((m : ℕ) × Says d name m × (count_of (add_sig sig sigs) name ≡ some m))
      ⊎ (((n : ℕ) → ¬ Says d name n) × (count_of (add_sig sig sigs) name ≡ count_of sigs name))
add_sig_count d none sigs name e = inr (λ n s. let p = sym e ∙ s in cc, refl)
add_sig_count d (some (other, m)) sigs name e = elim (Text-discrete other name) [
  | yes p ↦ inl (
    m,
    e ∙ ap (λ o. ok (some (o, m))) p,
    ap (λ o. count_of (insert Text-discrete sigs o m) name) p
        ∙ get-insert_self Text-discrete sigs name m,
  )
  | no p ↦ inr (λ n s. let q = sym e ∙ s in p (cc), get-insert_ne Text-discrete sigs other name m p)
]

-- What `defined_sigs` finds under a name: the number of parameters of its last definition, or what
-- it started from.
pub defined_sigs_count :
    (defs : List Text) (start : List (Text × ℕ)) (name : Text) {sigs : List (Text × ℕ)}
    → defined_sigs defs start ≡ ok sigs
    → ((m : ℕ) × DefinedWith defs name m × (count_of sigs name ≡ some m))
      ⊎ (Undefined defs name × (count_of sigs name ≡ count_of start name))
unfolding defined_sigs
defined_sigs_count [] start name e =
    inr (tt, Gives-ok (λ s. count_of s name ≡ count_of start name) (ok start) refl e)
defined_sigs_count (d ∷ defs) start name e =
    let (sig, hsig, e1) = >>=-eq-ok (signature_of d) _ e in
    elim (defined_sigs_count defs (add_sig sig start) name e1) [
      | inl (m, h, g) ↦ inl (m, DefinedWith.later h, g)
      | inr (u, g) ↦ elim (add_sig_count d sig start name hsig) [
        | inl (m, s, g1) ↦ inl (m, DefinedWith.last s u, g ∙ g1)
        | inr (no_sig, g1) ↦ inr ((no_sig, u), g ∙ g1)
      ]
    ]
