-- ===== src/Safe/Changes.antt =====
-- src/builder.rs: the changes of a builder that all calls are made of.
use rustc_codegen_c.Prelude.{
  ◌<◌, ◌%◌, ◌^◌, ◌+◌, ◌≡◌, ◌∙◌, List, [], ◌∷◌, some, All, All-map, length, get_elem?,
  get_elem?-push_cases, length-append, Option-cases, inl, inr, ◌⊎◌, arith, sym, ap, subst,
}
use mathlib.Core.Option.{some-injective}
use mathlib.Core.Logic.{if_pos, if_neg}
use rustc_codegen_c.Prelude.Text.{Text, Text-discrete}
use rustc_codegen_c.Prelude.Dict.{modify, get-modify_self, get-insert_self, get-insert_ne}
use rustc_codegen_c.Types.Kind.{TypeRef, CTypeKind, CTypeKind-discrete}
use rustc_codegen_c.Types.Store.{TypeStore, index_of, intern, add_type}
use rustc_codegen_c.Types.Interning.{
  intern_old, intern_new, get_of_elem, get-eq-ok, get-intern_stable,
}
use rustc_codegen_c.Types.Brackets.{NameBalanced, intern-NamesBalanced}
use rustc_codegen_c.Types.Stable.{length-intern}
use rustc_codegen_c.Types.Total.{RefsBelow, WidthKnown, intern-IsClosed}
use rustc_codegen_c.Values.Store.{CValueKind, ValueStore, alloc, next_temp}
use rustc_codegen_c.Values.Total as Values
use rustc_codegen_c.Values.Fresh.{get-alloc_stable}
use rustc_codegen_c.Module.Function.{FunctionDef}
use rustc_codegen_c.Builder.State.{Builder, change_function}
use rustc_codegen_c.Safe.Values.{KindSound}
use rustc_codegen_c.Safe.Sound.{
  FunctionSound, IsSound, HasType, Grows, ModuleBalanced-with_open, KindSound-mono,
  FunctionSound-mono,
}

-- The builder after the type of the kind is interned.
abbrev pub with_type : Builder → CTypeKind → Builder
with_type b k = record b { types = (intern b.types k).0 }

get_elem?-intern :
    (s : TypeStore) (k j : CTypeKind) (i : TypeRef)
    → get_elem? s.types i ≡ some j
    → get_elem? (intern s k).0.types i ≡ some j
get_elem?-intern s k j i h =
    get-eq-ok (intern s k).0 i (get-intern_stable s k i (get_of_elem s i h))

pub intern-Grows : (b : Builder) (k : CTypeKind) → Grows b (with_type b k)
intern-Grows b k = record {
  types = λ i j h. get_elem?-intern b.types k j i h;
  values = λ v info h. h;
  opened = λ o. o;
  balanced = λ m. m;
}

index_after :
    (s : TypeStore) (k j : CTypeKind) (i : TypeRef)
    → index_of (add_type s k).0 j ≡ some i
    → (i ≡ length s.types % 2 ^ 32) ⊎ (index_of s j ≡ some i)
index_after s k j i h = elim (CTypeKind-discrete k j) [
  | yes p ↦ inl (
      some-injective i (length s.types % 2 ^ 32) (
        sym h
        ∙ ap (index_of (add_type s k).0) (sym p)
        ∙ get-insert_self CTypeKind-discrete s.index k _))
  | no p ↦ inr (sym (get-insert_ne CTypeKind-discrete s.index k j _ p) ∙ h)
]

index-intern :
    (s : TypeStore) (k j : CTypeKind) (i : TypeRef)
    → ((j : CTypeKind) (i : TypeRef) → index_of s j ≡ some i → i < length s.types)
    → index_of (intern s k).0 j ≡ some i
    → i < length (intern s k).0.types
index-intern s k j i below h = elim (Option-cases (index_of s k)) [
  | inl fresh ↦
      let e = length-append {0} s.types (k ∷ []) in
      rw (intern_new s k fresh)
        (elim (index_after s k j i
          (subst (λ (r : TypeStore × TypeRef). index_of r.0 j ≡ some i) (intern_new s k fresh) h)) [
            | inl new ↦ omega arith
            | inr old ↦ let lt = below j i old in omega arith
          ])
  | inr (i', old) ↦ rw (intern_old s k old) (
      below j i
        (subst (λ (r : TypeStore × TypeRef). index_of r.0 j ≡ some i) (intern_old s k old) h))
]

pub intern_inside :
    (s : TypeStore) (k : CTypeKind)
    → ((j : CTypeKind) (i : TypeRef) → index_of s j ≡ some i → i < length s.types)
    → (intern s k).1 < length (intern s k).0.types
intern_inside s k below = elim (Option-cases (index_of s k)) [
  | inl fresh ↦
      rw (intern_new s k fresh) (let e = length-append {0} s.types (k ∷ []) in omega arith)
  | inr (i, old) ↦ rw (intern_old s k old) (below k i old)
]

-- Interning a kind that names types of the store keeps the builder sound.
pub intern-IsSound :
    (b : Builder) (k : CTypeKind)
    → IsSound b
    → NameBalanced k
    → RefsBelow (length b.types.types) k
    → WidthKnown k
    → IsSound (with_type b k)
intern-IsSound b k s name below known =
    let le = length-intern b.types k in
    record {
      types = intern-IsClosed b.types k s.types below known;
      index = λ j i h. index-intern b.types k j i s.index h;
      names = intern-NamesBalanced b.types k s.names name;
      values = s.values;
      sound = λ v info h.
          let (lt, kind) = s.sound v info h in (omega arith, KindSound-mono _ _ info.kind le kind);
      functions =
          All-map b.c_module.open_functions (λ p h. FunctionSound-mono _ _ p.1 le h) s.functions;
    }

-- The builder after a value is allocated.
abbrev pub with_value : Builder → CValueKind → TypeRef → Builder
with_value b kind ty = record b { values = (alloc b.values kind ty).0 }

pub alloc-Grows : (b : Builder) (kind : CValueKind) (ty : TypeRef) → Grows b (with_value b kind ty)
alloc-Grows b kind ty = record {
  types = λ i j h. h;
  values = λ v info h. get-alloc_stable b.values kind ty v h;
  opened = λ o. o;
  balanced = λ m. m;
}

pub alloc_inside :
    (s : ValueStore) (kind : CValueKind) (ty : TypeRef)
    → (alloc s kind ty).1 < length (alloc s kind ty).0.values
unfolding alloc
alloc_inside s kind ty =
    let e = length-append {0} s.values (record { kind = kind; ty = ty } ∷ []) in omega arith

-- Allocating a value of a type of the store, which refers to values of the store and copies texts
-- with matching brackets, keeps the builder sound.
pub alloc-IsSound :
    (b : Builder) (kind : CValueKind) (ty : TypeRef)
    → IsSound b
    → HasType b ty
    → Values.RefsBelow (length b.values.values) kind
    → KindSound (length b.types.types) kind
    → IsSound (with_value b kind ty)
alloc-IsSound b kind ty s inside below sound = record {
  types = s.types;
  index = s.index;
  names = s.names;
  values = Values.alloc-IsClosed b.values kind ty s.values below;
  sound =
      unfold alloc in
      λ v info h.
        elim (get_elem?-push_cases b.values.values (record { kind = kind; ty = ty }) info v h) [
          | inl old ↦ s.sound v info old
          | inr (_, p) ↦ rw (← p) (inside, sound)
        ];
  functions = s.functions;
}

-- The builder after a temporary is made.
abbrev pub with_temp : Builder → TypeRef → Builder
with_temp b ty = record b { values = (next_temp b.values ty).0 }

pub temp-Grows : (b : Builder) (ty : TypeRef) → Grows b (with_temp b ty)
temp-Grows b ty = record {
  types = λ i j h. h;
  values = unfold next_temp in λ v info h. get-alloc_stable _ (CValueKind.temp _) ty v h;
  opened = λ o. o;
  balanced = λ m. m;
}

pub temp_inside :
    (s : ValueStore) (ty : TypeRef) → (next_temp s ty).1 < length (next_temp s ty).0.values
unfolding next_temp
temp_inside s ty = alloc_inside _ (CValueKind.temp s.temp_counter) ty

-- A temporary of a type of the store keeps the builder sound.
pub temp-IsSound :
    (b : Builder) (ty : TypeRef) → IsSound b → HasType b ty → IsSound (with_temp b ty)
unfolding next_temp
temp-IsSound b ty s inside =
    alloc-IsSound
      (record b {
        values = record b.values { temp_counter = (b.values.temp_counter + 1) % 2 ^ 32 };
      })
      (CValueKind.temp b.values.temp_counter) ty
      (record {
        types = s.types;
        index = s.index;
        names = s.names;
        values = s.values;
        sound = s.sound;
        functions = s.functions;
      })
      inside tt tt

module _ {V : Type 0} (P : Text × V → Type 0) where
  pub All-modify_text :
      (m : List (Text × V)) (k : Text) (g : V → V)
      → ((i : Text) (w : V) → P (i, w) → P (i, g w))
      → All P m
      → All P (modify Text-discrete m k g)
  All-modify_text [] k g keep _ = tt
  All-modify_text ((i, w) ∷ m) k g keep (h, hs) = elim (Text-discrete i k) [
    | yes p ↦ rw (if_pos (Text-discrete i k) p) (keep i w h, hs)
    | no p ↦ rw (if_neg (Text-discrete i k) p) (h, All-modify_text m k g keep hs)
  ]

pub change-Grows : (b : Builder) (g : FunctionDef → FunctionDef) → Grows b (change_function b g)
change-Grows b g = record {
  types = λ i j h. h;
  values = λ v info h. h;
  opened = λ o. (g o.0, get-modify_self Text-discrete b.c_module.open_functions b.current_fn g o.1);
  balanced = λ m. ModuleBalanced-with_open b.c_module _ _ m;
}

-- A change of the current function that keeps functions sound keeps the builder sound.
pub change-IsSound :
    (b : Builder) (g : FunctionDef → FunctionDef)
    → IsSound b
    → ((f : FunctionDef)
        → FunctionSound (length b.types.types) f
        → FunctionSound (length b.types.types) (g f))
    → IsSound (change_function b g)
change-IsSound b g s keep = record {
  types = s.types;
  index = s.index;
  names = s.names;
  values = s.values;
  sound = s.sound;
  functions =
      All-modify_text (λ p. FunctionSound (length b.types.types) p.1) b.c_module.open_functions
        b.current_fn g (λ i f h. keep f h) s.functions;
}
