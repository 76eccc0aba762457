-- ===== src/Module/SourceTotal.antt =====
-- src/module.rs: where CModule::to_c_source can panic.
use rustc_codegen_c.Prelude.{
  ℕ, suc, ◌<◌, ◌≡◌, ◌==◌, refl, Bool, true, false, List, [], ◌∷◌, Option, none, some, All, length,
  get_elem?, get_elem?-lt, get_elem?_total, lt→ltb, ltb, ◌&&◌, arith, if◌then◌else◌,
}
use rustc_codegen_c.Prelude.Text.{Text}
use mathlib.Core.Option
use rustc_codegen_c.Prelude.Outcome.{Outcome}
use rustc_codegen_c.Types.Kind.{TypeRef, CTypeKind, struct, vector, ptr, ptr_width}
use rustc_codegen_c.Types.Store.{TypeStore}
use rustc_codegen_c.Types.Interning.{get_of_elem}
use rustc_codegen_c.Types.Defs.{
  field_lines, vector_elem, type_defs, struct_defs_from, render_struct_defs,
}
use rustc_codegen_c.Types.Total.{
  Ends, Ends-bind, IsClosed, RefsBelow, refs_inside, render_total, render_decl_total,
}
use rustc_codegen_c.Module.Signature.{
  is_whitespace, split_first, split_last_space, last_space_or, sig_from_close, sig_from_space,
  sig_from_paren, signature_of, add_sig, defined_sigs, kept_decls,
}
use rustc_codegen_c.Module.Source.{CModule, generated_source, source_or, to_c_source}

-- A text of ASCII characters.
abbrev pub IsAscii : Text → Type 0
IsAscii t = All (λ c. c < 128) t

-- The test for it.
abbrev pub is_ascii : Text → Bool
is_ascii [] = true
is_ascii (c ∷ t) = ltb c 128 && is_ascii t

pub is_ascii-IsAscii : (t : Text) → is_ascii t ≡ true → IsAscii t
is_ascii-IsAscii [] h = tt
is_ascii-IsAscii (c ∷ t) h = (ground arith, is_ascii-IsAscii t (by_test (ltb c 128) (is_ascii t) h))
  where
    by_test : (p q : Bool) → (p && q) ≡ true → q ≡ true
    by_test true q e = e
    by_test false q e = cc

abbrev BeforeAscii : Option (Text × Text) → Type 0
BeforeAscii none = Unit
BeforeAscii (some (before, after)) = IsAscii before

abbrev SpaceAscii : Option (ℕ × Text) → Type 0
SpaceAscii none = Unit
SpaceAscii (some (c, name)) = c < 128

split_first-BeforeAscii : (c : ℕ) (t : Text) → IsAscii t → BeforeAscii (split_first c t)
unfolding split_first
split_first-BeforeAscii c [] _ = tt
split_first-BeforeAscii c (d ∷ t) (h, hs) =
    by_test (d == c) (split_first c t) (split_first-BeforeAscii c t hs)
  where
    by_test :
        (same : Bool) (o : Option (Text × Text))
        → BeforeAscii o
        → BeforeAscii (if same then some ([], t) else Option.map (λ p. (d ∷ p.0, p.1)) o)
    by_test true o ho = tt
    by_test false none ho = tt
    by_test false (some (p, q)) ho = (h, ho)

last_space_or-SpaceAscii :
    (o : Option (ℕ × Text)) (c : ℕ) (t : Text)
    → SpaceAscii o
    → c < 128
    → SpaceAscii (last_space_or o c t)
last_space_or-SpaceAscii (some p) c t ho h = ho
last_space_or-SpaceAscii none c t ho h = by_test (is_whitespace c)
  where
    by_test : (space : Bool) → SpaceAscii (if space then some (c, t) else none)
    by_test true = h
    by_test false = tt

split_last_space-SpaceAscii : (t : Text) → IsAscii t → SpaceAscii (split_last_space t)
unfolding split_last_space
split_last_space-SpaceAscii [] _ = tt
split_last_space-SpaceAscii (c ∷ t) (h, hs) =
    last_space_or-SpaceAscii (split_last_space t) c t (split_last_space-SpaceAscii t hs) h

sig_from_close-Ends : (name : Text) (o : Option (Text × Text)) → Ends (sig_from_close name o)
sig_from_close-Ends name none = (_, refl)
sig_from_close-Ends name (some (params, rest)) = (_, refl)

sig_from_space-Ends :
    (o : Option (ℕ × Text)) (after : Text) → SpaceAscii o → Ends (sig_from_space o after)
sig_from_space-Ends none after h = (_, refl)
sig_from_space-Ends (some (c, name)) after h =
    rw (lt→ltb c 128 h) (sig_from_close-Ends name (split_first b')' after))

sig_from_paren-Ends : (o : Option (Text × Text)) → BeforeAscii o → Ends (sig_from_paren o)
sig_from_paren-Ends none h = (_, refl)
sig_from_paren-Ends (some (before, after)) h =
    sig_from_space-Ends (split_last_space before) after (split_last_space-SpaceAscii before h)

signature_of-Ends : (t : Text) → IsAscii t → Ends (signature_of t)
unfolding signature_of
signature_of-Ends t h = sig_from_paren-Ends (split_first b'(' t) (split_first-BeforeAscii b'(' t h)

defined_sigs-Ends :
    (defs : List Text) (sigs : List (Text × ℕ)) → All IsAscii defs → Ends (defined_sigs defs sigs)
unfolding defined_sigs
defined_sigs-Ends [] sigs _ = (_, refl)
defined_sigs-Ends (d ∷ defs) sigs (h, hs) =
    Ends-bind (signature_of d) _ (signature_of-Ends d h)
      λ sig. defined_sigs-Ends defs (add_sig sig sigs) hs

kept_decls-Ends :
    (sigs : List (Text × ℕ)) (decls : List Text) → All IsAscii decls → Ends (kept_decls sigs decls)
unfolding kept_decls
kept_decls-Ends sigs [] _ = (_, refl)
kept_decls-Ends sigs (d ∷ decls) (h, hs) =
    Ends-bind (signature_of d) _ (signature_of-Ends d h)
      λ sig. Ends-bind (kept_decls sigs decls) _ (kept_decls-Ends sigs decls hs) λ rest. (_, refl)

module _ (s : TypeStore) (closed : IsClosed s) where
  field_lines-Ends :
      (j : ℕ) (fs : List TypeRef) → All (λ f. f < length s.types) fs → Ends (field_lines s j fs)
  unfolding field_lines
  field_lines-Ends j [] _ = (_, refl)
  field_lines-Ends j (f ∷ fs) (h, hs) = Ends-bind _ _ (render_decl_total s f _ closed h) λ decl.
      Ends-bind (field_lines s (suc j) fs) _ (field_lines-Ends (suc j) fs hs) λ rest. (_, refl)

  vector_elem-Ends :
      (element : TypeRef) (k : CTypeKind)
      → element < length s.types
      → Ends (vector_elem s element k)
  unfolding vector_elem
  vector_elem-Ends element ptr h = (_, refl)
  vector_elem-Ends element (ptr_width signed) h = (_, refl)
  vector_elem-Ends element _ h = render_total s element closed h

  type_defs-Ends : (i : ℕ) (k : CTypeKind) → RefsBelow (length s.types) k → Ends (type_defs s i k)
  unfolding type_defs
  type_defs-Ends i (struct fields packed none) h =
      Ends-bind (field_lines s 0 fields) _ (field_lines-Ends 0 fields h) λ lines. (_, refl)
  type_defs-Ends i (vector element len) h =
      let (k, e) = get_elem?_total s.types element h in
      rw (get_of_elem s element e)
        (Ends-bind (vector_elem s element k) _ (vector_elem-Ends element k h) λ text. (_, refl))
  type_defs-Ends i _ h = (_, refl)

  struct_defs_from-Ends :
      (i : ℕ) (ks : List CTypeKind)
      → All (RefsBelow (length s.types)) ks
      → Ends (struct_defs_from s i ks)
  unfolding struct_defs_from
  struct_defs_from-Ends i [] _ = (_, refl)
  struct_defs_from-Ends i (k ∷ ks) (h, hs) =
      Ends-bind (type_defs s i k) _ (type_defs-Ends i k h) λ here.
        Ends-bind (struct_defs_from s (suc i) ks) _ (struct_defs_from-Ends (suc i) ks hs)
          λ rest. (_, refl)

-- Every item that has a number in the list has the property.
All-elem :
    {A : Type 0} (P : A → Type 0) (xs : List A)
    → ((i : ℕ) (x : A) → get_elem? xs i ≡ some x → P x)
    → All P xs
All-elem P [] h = tt
All-elem P (x ∷ xs) h = (h 0 x refl, All-elem P xs λ i y e. h (suc i) y e)

render_struct_defs-Ends : (s : TypeStore) → IsClosed s → Ends (render_struct_defs s)
unfolding render_struct_defs
render_struct_defs-Ends s c = struct_defs_from-Ends s c 0 s.types (
    All-elem (RefsBelow (length s.types)) s.types
      λ i k e. refs_inside k i (length s.types) (get_elem?-lt s.types i e) (c.refs k i e))

source_or-Ends : (o : Option Text) (r : Outcome Text) → Ends r → Ends (source_or o r)
source_or-Ends (some src) r h = (_, refl)
source_or-Ends none r h = h

-- The C file of a module is written: `to_c_source` returns, if the types are closed and the texts of
-- the functions and of their declarations are of ASCII characters.
pub to_c_source_total :
    (preamble : Text) (m : CModule)
    → IsClosed m.types
    → All IsAscii m.function_defs
    → All IsAscii m.function_decls
    → Ends (to_c_source preamble m)
unfolding to_c_source generated_source
to_c_source_total preamble m c hd hf = source_or-Ends m.precompiled_source _ (
    Ends-bind (render_struct_defs m.types) _ (render_struct_defs-Ends m.types c) λ structs.
      Ends-bind (defined_sigs m.function_defs []) _ (defined_sigs-Ends m.function_defs [] hd)
        λ sigs.
          Ends-bind (kept_decls sigs m.function_decls) _ (kept_decls-Ends sigs m.function_decls hf)
            λ decls. (_, refl))
