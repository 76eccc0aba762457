-- ===== src/Module/Globals.antt =====
-- src/module.rs: every extern global is declared once.
use rustc_codegen_c.Prelude.{
  ◌≡◌, refl, ◌∙◌, true, false, List, [], ◌∷◌, ◌++◌, length, length-append, arith, ◌==◌, Bool-cases,
  inl, inr,
}
use rustc_codegen_c.Prelude.Text.{Text, text_eq, text_eq_refl}
use rustc_codegen_c.Module.Source.{CModule, contains_name, add_global_decl}

-- No name stands twice.
abbrev pub IsNodup : List Text → Type 0
IsNodup [] = Unit
IsNodup (n ∷ names) = (contains_name names n ≡ false) × IsNodup names

-- There is one declaration for each name, and each name is there once.
pub record DeclaredOnce (m : CModule) : Type 0 where
  pub names : IsNodup m.declared_extern_globals
  pub decls : length m.global_extern_decls ≡ length m.declared_extern_globals

text_eq_sym : (s t : Text) → text_eq s t ≡ text_eq t s
text_eq_sym [] [] = refl
text_eq_sym [] (d ∷ t) = refl
text_eq_sym (c ∷ s) [] = refl
text_eq_sym (c ∷ s) (d ∷ t) =
    let same : (c == d) ≡ (d == c) = ground arith in rw (same, text_eq_sym s t) refl

contains_name-push_self : (names : List Text) (n : Text) → contains_name (names ++ n ∷ []) n ≡ true
contains_name-push_self [] n = rw (text_eq_refl n) refl
contains_name-push_self (x ∷ names) n = elim (Bool-cases (text_eq x n)) [
  | inl e ↦ rw e refl
  | inr e ↦ rw e (contains_name-push_self names n)
]

contains_name-push :
    (names : List Text) (x n : Text)
    → contains_name names x ≡ false
    → text_eq n x ≡ false
    → contains_name (names ++ n ∷ []) x ≡ false
contains_name-push [] x n _ h = rw h refl
contains_name-push (y ∷ names) x n fresh h = elim (Bool-cases (text_eq y x)) [
  | inl e ↦ cc
  | inr e ↦ rw e (contains_name-push names x n (rw e at fresh) h)
]

push-IsNodup :
    (names : List Text) (n : Text)
    → IsNodup names
    → contains_name names n ≡ false
    → IsNodup (names ++ n ∷ [])
push-IsNodup [] n _ _ = (refl, tt)
push-IsNodup (x ∷ names) n (hx, hs) fresh = elim (Bool-cases (text_eq x n)) [
  | inl e ↦ cc
  | inr e ↦ (
    contains_name-push names x n hx (text_eq_sym n x ∙ e),
    push-IsNodup names n hs (rw e at fresh),
  )
]

-- Adding an extern global keeps the names of the extern globals distinct, with one declaration for
-- each.
pub add_global_decl-DeclaredOnce :
    (m : CModule) (name decl : Text) → DeclaredOnce m → DeclaredOnce (add_global_decl m name decl)
unfolding add_global_decl
add_global_decl-DeclaredOnce m name decl h =
    elim (Bool-cases (contains_name m.declared_extern_globals name)) [
      | inl known ↦ rw known h
      | inr fresh ↦ rw fresh (record {
        names = push-IsNodup m.declared_extern_globals name h.names fresh;
        decls =
            let l = length-append m.global_extern_decls (decl ∷ []) in
            let r = length-append m.declared_extern_globals (name ∷ []) in
            let e = h.decls in omega arith;
      })
    ]

-- A second declaration of the extern global that was added last changes nothing, whatever its text
-- is.
pub add_global_decl_again :
    (m : CModule) (name decl other : Text)
    → add_global_decl (add_global_decl m name decl) name other ≡ add_global_decl m name decl
unfolding add_global_decl
add_global_decl_again m name decl other =
    elim (Bool-cases (contains_name m.declared_extern_globals name)) [
      | inl known ↦ rw known (rw known refl)
      | inr fresh ↦ rw fresh (rw (contains_name-push_self m.declared_extern_globals name) refl)
    ]
