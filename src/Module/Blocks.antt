-- ===== src/Module/Blocks.antt =====
-- src/module.rs: blocks get numbers of their own, stand in the order of their creation, and are
-- written one by one.
use rustc_codegen_c.Prelude.{
  ℕ, ◌+◌, ◌^◌, ◌≤◌, ◌<◌, ◌≡◌, refl, ap, ◌∙◌, false, List, [], ◌∷◌, ◌++◌, none, some, All,
  All-append, arith, ltb, ◌==◌, if◌then◌else◌, ℕ_discrete,
}
use mathlib.Core.Option
use mathlib.Core.Logic.{if_pos, if_neg}
use rustc_codegen_c.Prelude.Text.{Text}
use rustc_codegen_c.Prelude.Dict.{get, modify, insert_sorted}
use rustc_codegen_c.CAst.Stmt.{CStmt}
use rustc_codegen_c.Module.Function.{
  BasicBlockId, BasicBlockData, FunctionDef, block_at, new, new_block, emit, set_terminated,
  push_stmt, end_block,
}

module _ {V : Type 0} where
  -- The keys of a map are below `n`.
  abbrev pub KeysBelow : ℕ → List (ℕ × V) → Type 0
  KeysBelow n = All (λ p. p.0 < n)

  KeysBelow-mono : (m n : ℕ) (ps : List (ℕ × V)) → m ≤ n → KeysBelow m ps → KeysBelow n ps
  KeysBelow-mono m n [] h _ = tt
  KeysBelow-mono m n (p ∷ ps) h (b, bs) = (omega arith, KeysBelow-mono m n ps h bs)

  -- A key above all others goes to the end.
  insert_sorted_last :
      (m : List (ℕ × V)) (k : ℕ) (v : V) → KeysBelow k m → insert_sorted m k v ≡ m ++ (k, v) ∷ []
  insert_sorted_last [] k v _ = refl
  insert_sorted_last ((j, w) ∷ m) k v (b, bs) =
      let after : ltb k j ≡ false = ground arith in
      let other : (j == k) ≡ false = ground arith in
      rw (after, other) (ap (λ r. (j, w) ∷ r) (insert_sorted_last m k v bs))

  get_above : (m : List (ℕ × V)) (k : ℕ) → KeysBelow k m → get ℕ_discrete m k ≡ none
  get_above [] k _ = refl
  get_above ((j, w) ∷ m) k (b, bs) = grind (arith, get_above m k bs)

  get-push :
      (m : List (ℕ × V)) (k j : ℕ) (v : V)
      → KeysBelow k m
      → get ℕ_discrete (m ++ (k, v) ∷ []) j ≡ (if k == j then some v else get ℕ_discrete m j)
  get-push [] k j v _ = ground arith
  get-push ((i, w) ∷ m) k j v (b, bs) = ground (arith, get-push m k j v bs)

  get-modify :
      (m : List (ℕ × V)) (k j : ℕ) (g : V → V)
      → get ℕ_discrete (modify ℕ_discrete m k g) j
        ≡ (if k == j then Option.map g (get ℕ_discrete m j) else get ℕ_discrete m j)
  get-modify [] k j g = ground arith
  get-modify ((i, w) ∷ m) k j g = ground (arith, get-modify m k j g)

  -- What holds of all entries, and of the changed one, holds after a change.
  pub All-modify :
      (P : ℕ × V → Type 0) (m : List (ℕ × V)) (k : ℕ) (g : V → V)
      → ((i : ℕ) (w : V) → P (i, w) → P (i, g w))
      → All P m
      → All P (modify ℕ_discrete m k g)
  All-modify P [] k g keep _ = tt
  All-modify P ((i, w) ∷ m) k g keep (h, hs) = elim (ℕ_discrete i k) [
    | yes p ↦ rw (if_pos (ℕ_discrete i k) p) (keep i w h, hs)
    | no p ↦ rw (if_neg (ℕ_discrete i k) p) (h, All-modify P m k g keep hs)
  ]

-- The numbers of the blocks are below the counter, which has not wrapped.
abbrev pub BlocksBelow : FunctionDef → Type 0
BlocksBelow f = KeysBelow f.block_counter f.blocks

pub new-BlocksBelow :
    (name : Text) (ret : ℕ) (params : List (ℕ × Text)) → BlocksBelow (new name ret params)
unfolding new
new-BlocksBelow name ret params = tt

abbrev pub empty_block : Text → BasicBlockData
empty_block label = record { label = label; statements = []; terminated = false }

-- A new block goes behind all others, with its label, empty and without an end.
pub new_block-blocks :
    (f : FunctionDef) (label : Text)
    → BlocksBelow f
    → (new_block f label).0.blocks ≡ f.blocks ++ ((new_block f label).1, empty_block label) ∷ []
unfolding new_block
new_block-blocks f label below = insert_sorted_last f.blocks f.block_counter _ below

-- Where the blocks' numbers are below the counter, the number of a new block was not in use; under
-- it stands the new block, and every other number leads to the block that it led to before.
pub new_block-block_at :
    (f : FunctionDef) (label : Text) (bb : BasicBlockId)
    → BlocksBelow f
    → (block_at f (new_block f label).1 ≡ none)
      × (block_at (new_block f label).0 bb
          ≡ (if (new_block f label).1 == bb then some (empty_block label) else block_at f bb))
new_block-block_at f label bb below = (
  unfold new_block in get_above f.blocks f.block_counter below,
  ap (λ m. get ℕ_discrete m bb) (new_block-blocks f label below)
      ∙ unfold new_block in get-push f.blocks f.block_counter bb (empty_block label) below,
)

-- Until the counter reaches 2^32, a new block keeps the blocks' numbers below the counter.
pub new_block-BlocksBelow :
    (f : FunctionDef) (label : Text)
    → BlocksBelow f
    → f.block_counter + 1 < 2 ^ 32
    → BlocksBelow (new_block f label).0
new_block-BlocksBelow f label below room = rw (new_block-blocks f label below) (
    unfold new_block in
    All-append _ f.blocks _ (KeysBelow-mono f.block_counter _ f.blocks (omega arith) below)
      (omega arith, tt))

-- A statement goes to the end of its block, and no other block changes. An unknown block drops it.
pub emit-block_at :
    (f : FunctionDef) (bb j : BasicBlockId) (stmt : CStmt)
    → block_at (emit f bb stmt) j
      ≡ (if bb == j then Option.map (push_stmt stmt) (block_at f j) else block_at f j)
unfolding emit
emit-block_at f bb j stmt = get-modify f.blocks bb j (push_stmt stmt)

pub set_terminated-block_at :
    (f : FunctionDef) (bb j : BasicBlockId)
    → block_at (set_terminated f bb) j
      ≡ (if bb == j then Option.map end_block (block_at f j) else block_at f j)
unfolding set_terminated
set_terminated-block_at f bb j = get-modify f.blocks bb j end_block

pub emit-BlocksBelow :
    (f : FunctionDef) (bb : BasicBlockId) (stmt : CStmt)
    → BlocksBelow f
    → BlocksBelow (emit f bb stmt)
unfolding emit
emit-BlocksBelow f bb stmt below = All-modify _ f.blocks bb (push_stmt stmt) (λ i w h. h) below

pub set_terminated-BlocksBelow :
    (f : FunctionDef) (bb : BasicBlockId) → BlocksBelow f → BlocksBelow (set_terminated f bb)
unfolding set_terminated
set_terminated-BlocksBelow f bb below = All-modify _ f.blocks bb end_block (λ i w h. h) below
