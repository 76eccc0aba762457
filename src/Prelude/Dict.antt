-- ===== src/Prelude/Dict.antt =====
-- The maps of the standard library as association lists with at most one entry for a key:
-- `FxHashMap`, `BTreeMap` and `BTreeSet`, where the program only looks up, inserts and removes.
use mathlib.Core.Path.{◌≡◌, refl}
use mathlib.Core.Logic.{◌≢◌, ite, if_pos, if_neg}
use mathlib.Core.List.{List, [], ◌∷◌}
use mathlib.Core.Option.{Option, none, some}
use Prim.Native.Nat.{ℕ}
use rustc_codegen_c.Prelude.Tests.{ltb, ◌==◌, if◌then◌else◌}
use native.Mathlib.Omega.{arith}

module _ {ℓ} {K V : Type ℓ} (dec : Discrete K) where
  -- `map.get(&k)`
  abbrev pub get : List (K × V) → K → Option V
  get [] k = none
  get ((j, v) ∷ m) k = ite (dec j k) (some v) (get m k)

  -- `map.insert(k, v)`
  abbrev pub insert : List (K × V) → K → V → List (K × V)
  insert [] k v = (k, v) ∷ []
  insert ((j, w) ∷ m) k v = ite (dec j k) ((j, v) ∷ m) ((j, w) ∷ insert m k v)

  -- `if let Some(x) = map.get_mut(&k) { *x = f(*x) }`
  abbrev pub modify : List (K × V) → K → (V → V) → List (K × V)
  modify [] k f = []
  modify ((j, w) ∷ m) k f = ite (dec j k) ((j, f w) ∷ m) ((j, w) ∷ modify m k f)

  -- `map.remove(&k)`, what stays
  abbrev pub remove : List (K × V) → K → List (K × V)
  remove [] k = []
  remove ((j, w) ∷ m) k = ite (dec j k) m ((j, w) ∷ remove m k)

  pub get-insert_self : (m : List (K × V)) (k : K) (v : V) → get (insert m k v) k ≡ some v
  get-insert_self [] k v = rw (if_pos (dec k k) refl)
  get-insert_self ((j, w) ∷ m) k v = elim (dec j k) [
    | yes p ↦ rw (if_pos (dec j k) p) (rw (if_pos (dec j k) p))
    | no p ↦ rw (if_neg (dec j k) p) (rw (if_neg (dec j k) p) (get-insert_self m k v))
  ]

  pub get-insert_ne : (m : List (K × V)) (k j : K) (v : V) → k ≢ j → get (insert m k v) j ≡ get m j
  get-insert_ne [] k j v h = rw (if_neg (dec k j) h)
  get-insert_ne ((i, w) ∷ m) k j v h = grind (arith, get-insert_ne m k j v h)

  pub get-modify_self :
      (m : List (K × V)) (k : K) (f : V → V) {v : V}
      → get m k ≡ some v
      → get (modify m k f) k ≡ some (f v)
  get-modify_self [] k f h = cc
  get-modify_self ((i, w) ∷ m) k f {v} h =
      grind (arith, λ (p : get m k ≡ some v). get-modify_self m k f p)

  pub get-modify_ne :
      (m : List (K × V)) (k j : K) (f : V → V) → k ≢ j → get (modify m k f) j ≡ get m j
  get-modify_ne [] k j f h = refl
  get-modify_ne ((i, w) ∷ m) k j f h = grind (arith, get-modify_ne m k j f h)

-- `BTreeMap` with number keys, kept in the order of its iteration.
abbrev pub insert_sorted {ℓ} : {V : Type ℓ} → List (ℕ × V) → ℕ → V → List (ℕ × V)
insert_sorted [] k v = (k, v) ∷ []
insert_sorted ((j, w) ∷ m) k v =
    if ltb k j
    then (k, v) ∷ (j, w) ∷ m
    else if j == k
    then (k, v) ∷ m
    else (j, w) ∷ insert_sorted m k v
