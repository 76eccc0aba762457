-- ===== src/Safe/Blocks.antt =====
-- src/builder.rs: new blocks on a sound builder.
use rustc_codegen_c.Prelude.{
  ℕ, ◌≡◌, ◌∙◌, sym, false, List, [], ◌∷◌, some, All, ltb, ◌==◌, Option-cases, inl, inr,
  both_branches, length, arith, subst, All-map,
}
use rustc_codegen_c.Prelude.Text.{Text, Text-discrete}
use rustc_codegen_c.Prelude.Decimal.{show}
use rustc_codegen_c.Prelude.Dict.{get, modify, insert_sorted, get-modify_self, get-modify_ne}
use rustc_codegen_c.Prelude.Brackets.{
  IsBalanced, IsPlain, IsPlain-IsBalanced, scan_over, show-IsBalanced,
}
use rustc_codegen_c.Values.Store.{ValueRef}
use rustc_codegen_c.Module.Function.{FunctionDef, BasicBlockId, new_block}
use rustc_codegen_c.Module.Balance.{BlockBalanced}
use rustc_codegen_c.Module.Render.{is_empty}
use rustc_codegen_c.Builder.Names.{IsName, IsNameChar, sanitize_name, sanitize_name-IsName}
use rustc_codegen_c.Builder.State.{Builder}
use rustc_codegen_c.Builder.Flow.{
  new_label, sibling_label, add_block, append_block, append_sibling_block,
}
use rustc_codegen_c.Safe.Sound.{FunctionSound, IsSound, HasValue, ModuleBalanced-with_open}
use rustc_codegen_c.Safe.Changes.{All-modify_text}
use rustc_codegen_c.Safe.Rules.{Done, here, grow, with_text}
use rustc_codegen_c.Safe.Flow.{All-get}

module _ {V : Type 0} (P : ℕ × V → Type 0) where
  All-insert_sorted :
      (m : List (ℕ × V)) (k : ℕ) (v : V) → P (k, v) → All P m → All P (insert_sorted m k v)
  All-insert_sorted [] k v h _ = (h, tt)
  All-insert_sorted ((j, w) ∷ m) k v h (hw, hs) =
      both_branches (All P) (ltb k j) (h, (hw, hs))
        (both_branches (All P) (j == k) (h, hs) (hw, All-insert_sorted m k v h hs))

name_char-IsPlain : (c : ℕ) → IsNameChar c → IsPlain c
name_char-IsPlain c h st = ground arith

name-IsPlain : (t : Text) → IsName t → All IsPlain t
name-IsPlain t h = All-map t name_char-IsPlain h

sanitized-IsBalanced : (name : Text) → IsBalanced (sanitize_name name)
sanitized-IsBalanced name =
    IsPlain-IsBalanced (sanitize_name name)
      (name-IsPlain (sanitize_name name) (sanitize_name-IsName name).0)

sibling-IsBalanced : (counter : ℕ) (name : Text) → IsBalanced (sibling_label counter name)
sibling-IsBalanced counter name =
    λ st. scan_over (show counter) _ st (show-IsBalanced counter) ∙ sanitized-IsBalanced name st

label-IsBalanced : (counter : ℕ) (name : Text) → IsBalanced (new_label counter name)
label-IsBalanced counter name =
    both_branches IsBalanced (is_empty name) (λ st. show-IsBalanced counter st)
      (sibling-IsBalanced counter name)

new_block_sound :
    (n : ℕ) (f : FunctionDef) (label : Text)
    → IsBalanced label
    → FunctionSound n f
    → FunctionSound n (new_block f label).0
unfolding new_block
new_block_sound n f label hl h = record {
  balanced = record {
    name = h.balanced.name;
    prefix = h.balanced.prefix;
    params = h.balanced.params;
    overrides = h.balanced.overrides;
    decls = h.balanced.decls;
    blocks =
        All-insert_sorted (λ p. BlockBalanced p.1) f.blocks f.block_counter
          (record { label = label; statements = []; terminated = false }) (hl, tt)
          h.balanced.blocks;
  };
  ret = h.ret;
  params = h.params;
  ret_data = h.ret_data;
  retbuf = h.retbuf;
}

-- A call that returns a block.
abbrev pub IsBlock : Builder → BasicBlockId → Type 0
IsBlock b bb = Unit

stays_open :
    (m : List (Text × FunctionDef)) (k j : Text) (g : FunctionDef → FunctionDef)
    → (f : FunctionDef) × (get Text-discrete m j ≡ some f)
    → (f : FunctionDef) × (get Text-discrete (modify Text-discrete m k g) j ≡ some f)
stays_open m k j g (f, e) = elim (Text-discrete k j) [
  | yes p ↦ (
    g f,
    subst (λ i. get Text-discrete (modify Text-discrete m k g) i ≡ some (g f)) p
        (get-modify_self Text-discrete m k g
          (subst (λ i. get Text-discrete m i ≡ some f) (sym p) e)),
  )
  | no p ↦ (f, get-modify_ne Text-discrete m k j g p ∙ e)
]

add_block_safe :
    {b : Builder} (fn_name : Text) (label_at : ℕ → Text)
    → IsSound b
    → ((counter : ℕ) → IsBalanced (label_at counter))
    → Done b IsBlock (add_block fn_name label_at b)
unfolding add_block
add_block_safe {b = b} fn_name label_at s hl =
    elim (Option-cases (get Text-discrete b.c_module.open_functions fn_name)) [
      | inl e ↦ rw e (here s tt)
      | inr (f, e) ↦
          let hf =
            All-get Text-discrete (FunctionSound (length b.types.types)) b.c_module.open_functions
              fn_name s.functions e in
          rw e (
            grow
              (record {
                types = λ i k h. h;
                values = λ v info h. h;
                opened = λ o. stays_open b.c_module.open_functions fn_name b.current_fn _ o;
                balanced = λ m. ModuleBalanced-with_open b.c_module _ _ m;
              })
              (here
                (record {
                  types = s.types;
                  index = s.index;
                  names = s.names;
                  values = s.values;
                  sound = s.sound;
                  functions =
                      All-modify_text (λ p. FunctionSound (length b.types.types) p.1)
                        b.c_module.open_functions fn_name _
                        (λ i g h.
                          new_block_sound (length b.types.types) f (label_at f.block_counter)
                            (hl f.block_counter) hf)
                        s.functions;
                })
                tt))
    ]

-- On a sound builder, a new block of the function that a value of the store names returns and
-- leaves the builder sound.
pub append_block_safe :
    {b : Builder} {llfn : ValueRef} (name : Text)
    → IsSound b
    → HasValue b llfn
    → Done b IsBlock (append_block llfn name b)
unfolding append_block
append_block_safe name s h =
    with_text s _ h λ x bx. add_block_safe x _ s (λ counter. label-IsBalanced counter name)

pub append_sibling_block_safe :
    {b : Builder} (name : Text) → IsSound b → Done b IsBlock (append_sibling_block name b)
unfolding append_sibling_block
append_sibling_block_safe {b = b} name s =
    add_block_safe b.current_fn _ s (λ counter. sibling-IsBalanced counter name)
