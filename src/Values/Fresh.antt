-- ===== src/Values/Fresh.antt =====
-- src/values.rs: temporaries get names of their own, and values stay where they are.
use rustc_codegen_c.Prelude.{
  ℕ, ◌+◌, ◌%◌, ◌^◌, ◌<◌, ◌≡◌, ◌≢◌, inl, inr, refl, sym, ap, ◌∙◌, ◌++◌, some, arith, length,
  get_elem?, get_elem?-push_lt, get_elem?-push_self, get_elem?-push_cases, get_elem?-lt,
}
use rustc_codegen_c.Prelude.Text.{Text, str}
use rustc_codegen_c.Prelude.Decimal.{show, show-injective}
use rustc_codegen_c.Prelude.Outcome.{Outcome, ok}
use rustc_codegen_c.Types.Kind.{TypeRef}
use rustc_codegen_c.Values.Store.{
  ValueRef, CValueKind, CValueInfo, ValueStore, new, alloc, next_temp, get, temp,
}
use rustc_codegen_c.Values.Render.{render_kind, render_fuel, render}

abbrev pub HasRoom : ValueStore → Type 0
HasRoom s = length s.values < 2 ^ 32

-- Numbers of temporaries in use are below the counter.
abbrev pub IsFresh : ValueStore → Type 0
IsFresh s =
    (v : ValueRef) (info : CValueInfo) (id : ℕ)
    → get_elem? s.values v ≡ some info
    → info.kind ≡ temp id
    → id < s.temp_counter

pub new-IsFresh : IsFresh new
unfolding new
new-IsFresh v info id h e = cc

-- In a store with room, the reference that `alloc` returns stands for the value and its type.
pub get-alloc :
    (s : ValueStore) (k : CValueKind) (ty : TypeRef)
    → HasRoom s
    → get (alloc s k ty).0 (alloc s k ty).1 ≡ ok (record { kind = k; ty = ty })
unfolding alloc get
get-alloc s k ty room =
    let e : length s.values % 2 ^ 32 ≡ length s.values = omega arith in
    rw e (rw (get_elem?-push_self s.values (record { kind = k; ty = ty })))

pub get-alloc_stable :
    (s : ValueStore) (k : CValueKind) (ty : TypeRef) (v : ValueRef) {info : CValueInfo}
    → get_elem? s.values v ≡ some info
    → get_elem? (alloc s k ty).0.values v ≡ some info
unfolding alloc
get-alloc_stable s k ty v h = get_elem?-push_lt s.values _ v (get_elem?-lt s.values v h) ∙ h

temp-injective : (m n : ℕ) → temp m ≡ temp n → m ≡ n
temp-injective m n e = cc

-- Until the counter reaches 2^32, a new temporary keeps the numbers of the temporaries below the
-- counter.
pub next_temp-IsFresh :
    (s : ValueStore) (ty : TypeRef)
    → IsFresh s
    → s.temp_counter + 1 < 2 ^ 32
    → IsFresh (next_temp s ty).0
unfolding next_temp alloc
next_temp-IsFresh s ty fresh lt v info id h e = elim (get_elem?-push_cases s.values _ info v h) [
  | inl old ↦ let before = fresh v info id old e in omega arith
  | inr (_, p) ↦
      let same = temp-injective s.temp_counter id (ap (λ (x : CValueInfo). x.kind) p ∙ e) in
      omega arith
]

pub render_temp :
    (s : ValueStore) (v : ValueRef) (info : CValueInfo) (id : ℕ)
    → get_elem? s.values v ≡ some info
    → info.kind ≡ temp id
    → render s v ≡ ok (str "_t" ++ show id)
unfolding render render_fuel get
render_temp s v info id h e = rw h (rw e (unfold render_kind in refl))

temp_name-injective :
    (s t : Text) → ◌≡◌ {A = Outcome Text} (ok (str "_t" ++ s)) (ok (str "_t" ++ t)) → s ≡ t
temp_name-injective s t e = cc

pub next_temp-elem :
    (s : ValueStore) (ty : TypeRef)
    → HasRoom s
    → get_elem? (next_temp s ty).0.values (next_temp s ty).1
      ≡ some (record { kind = temp s.temp_counter; ty = ty })
unfolding next_temp alloc
next_temp-elem s ty room =
    let e : length s.values % 2 ^ 32 ≡ length s.values = omega arith in
    rw e (get_elem?-push_self s.values (record { kind = temp s.temp_counter; ty = ty }))

next_temp-stable :
    (s : ValueStore) (ty : TypeRef) (v : ValueRef) {info : CValueInfo}
    → get_elem? s.values v ≡ some info
    → get_elem? (next_temp s ty).0.values v ≡ some info
unfolding next_temp
next_temp-stable s ty v h =
    get-alloc_stable (record s { temp_counter = (s.temp_counter + 1) % 2 ^ 32 })
      (temp s.temp_counter) ty v h

-- In a store with room whose temporaries have numbers below the counter, the name of a new
-- temporary is not the name of any temporary before it.
pub next_temp-ne :
    (s : ValueStore) (ty : TypeRef) (v : ValueRef) (info : CValueInfo) (id : ℕ)
    → IsFresh s
    → HasRoom s
    → get_elem? s.values v ≡ some info
    → info.kind ≡ temp id
    → render (next_temp s ty).0 (next_temp s ty).1 ≢ render (next_temp s ty).0 v
next_temp-ne s ty v info id fresh room h e same =
    let s' = (next_temp s ty).0 in
    let here = render_temp s' (next_temp s ty).1 _ s.temp_counter (next_temp-elem s ty room) refl in
    let there = render_temp s' v info id (next_temp-stable s ty v h) e in
    let equal =
      show-injective s.temp_counter id (temp_name-injective _ _ (sym here ∙ same ∙ there)) in
    let below = fresh v info id h e in absurd (omega arith)
