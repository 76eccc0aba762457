-- ===== src/Safe/Flow.antt =====
-- src/builder.rs: the ends of blocks, on a sound builder.
use rustc_codegen_c.Prelude.{
  ℕ, ◌%◌, ◌/◌, ◌^◌, ◌-◌, ◌≡◌, refl, ◌∙◌, Bool, true, false, List, [], ◌∷◌, Option, none, some, All,
  ltb, both_branches, Option-cases, inl, inr, length, subst, sym, ℕ_discrete,
}
use mathlib.Core.Option.{some-injective}
use mathlib.Core.Logic.{if_pos, if_neg}
use rustc_codegen_c.Prelude.Text.{Text, str, fmt, Text-discrete}
use rustc_codegen_c.Prelude.Decimal.{show}
use rustc_codegen_c.Prelude.Dict.{get}
use rustc_codegen_c.Prelude.Brackets.{IsBalanced, scan_over, show-IsBalanced}
use rustc_codegen_c.CAst.Brackets.{LeavesBalanced}
use rustc_codegen_c.CAst.Stmt.{CStmt}
use rustc_codegen_c.CAst.StmtBrackets.{StmtBalanced, CasesBalanced}
use rustc_codegen_c.Types.Kind.{CTypeKind}
use rustc_codegen_c.Values.Store.{ValueRef}
use rustc_codegen_c.Module.Function.{FunctionDef, BasicBlockId, BasicBlockData, block_at}
use rustc_codegen_c.Module.Balance.{BlockBalanced}
use rustc_codegen_c.Builder.State.{Builder, current_function}
use rustc_codegen_c.Builder.Emit.{block_label, label_in, label_or}
use rustc_codegen_c.Builder.Flow.{
  set_terminated, end_with, switch_to_block, retbuf_of, ret_void_stmt, ret_void, ret_rest,
  returns_void, ret, br, cond_br, switch_expr, case_expr, switch_cases, switch, unreachable,
}
use rustc_codegen_c.Safe.Sound.{FunctionSound, IsSound, HasValue, HasValue-Grows}
use rustc_codegen_c.Safe.Changes.{change-Grows}
use rustc_codegen_c.Safe.Rules.{
  Done, IsUnit, here, grow, after_run, with_type_of, with_kind_of, with_text, ends-IsSound,
}
use rustc_codegen_c.Safe.Emit.{emit_safe}

module _ {K V : Type 0} (dec : Discrete K) (P : V → Type 0) where
  -- What holds of all entries holds of the one that is found.
  pub All-get : (m : List (K × V)) (k : K) {v : V} → All (λ p. P p.1) m → get dec m k ≡ some v → P v
  All-get [] k _ e = cc
  All-get ((j, w) ∷ m) k {v = v} (h, hs) e = elim (dec j k) [
    | yes p ↦ subst P (some-injective w v (sym (if_pos (dec j k) p (some w) (get dec m k)) ∙ e)) h
    | no p ↦ All-get m k hs (sym (if_neg (dec j k) p (some w) (get dec m k)) ∙ e)
  ]

-- The current function of a sound builder, if it is open.
abbrev pub CurrentSound : Builder → Option FunctionDef → Type 0
CurrentSound b none = Unit
CurrentSound b (some f) = FunctionSound (length b.types.types) f

pub current_sound : {b : Builder} → IsSound b → CurrentSound b (current_function b)
current_sound {b = b} s = elim (Option-cases (current_function b)) [
  | inl e ↦ rw e tt
  | inr (f, e) ↦ rw e (
      All-get Text-discrete (FunctionSound (length b.types.types)) b.c_module.open_functions
        b.current_fn s.functions e)
]

bb_label-IsBalanced : (bb : BasicBlockId) → IsBalanced (fmt (str "bb" ∷ show bb ∷ []))
bb_label-IsBalanced bb = λ st. show-IsBalanced bb st

-- The label of a block has matching brackets, that of a missing block included.
pub block_label-IsBalanced :
    {b : Builder} (bb : BasicBlockId) → IsSound b → IsBalanced (block_label b bb)
unfolding block_label
block_label-IsBalanced {b = b} bb s = in_function (current_function b) (current_sound s)
  where
    in_block :
        (f : FunctionDef) (o : Option BasicBlockData)
        → block_at f bb ≡ o
        → FunctionSound (length b.types.types) f
        → IsBalanced (label_or bb o)
    in_block f none e h = bb_label-IsBalanced bb
    in_block f (some blk) e h = (All-get ℕ_discrete BlockBalanced f.blocks bb h.balanced.blocks e).0

    in_function : (o : Option FunctionDef) → CurrentSound b o → IsBalanced (label_in bb o)
    in_function none h = bb_label-IsBalanced bb
    in_function (some f) h = in_block f (block_at f bb) refl h

-- On a sound builder, the end of a block with a statement of matching brackets returns and leaves
-- the builder sound.
pub end_with_safe :
    {b : Builder} (stmt : CStmt) → IsSound b → StmtBalanced stmt → Done b IsUnit (end_with stmt b)
unfolding end_with set_terminated
end_with_safe stmt s h =
    after_run _ (emit_safe stmt s h)
      λ _ b1 s1 g1 _. grow (change-Grows _ _) (here (ends-IsSound s1) tt)

pub switch_to_block_safe :
    {b : Builder} (bb : BasicBlockId) → IsSound b → Done b IsUnit (switch_to_block bb b)
unfolding switch_to_block
switch_to_block_safe {b = b} bb s =
    grow (record { types = λ i k h. h; values = λ v info h. h; opened = λ o. o; balanced = λ m. m })
      (here {b = record b { current_bb = bb }}
        (record {
          types = s.types;
          index = s.index;
          names = s.names;
          values = s.values;
          sound = s.sound;
          functions = s.functions;
        })
        tt)

retbuf-StmtBalanced :
    (b : Builder) (o : Option FunctionDef)
    → CurrentSound b o
    → StmtBalanced (ret_void_stmt (retbuf_of o))
retbuf-StmtBalanced b none h = tt
retbuf-StmtBalanced b (some f) h = by_name f.retbuf_name h.retbuf
  where
    by_name :
        (o : Option Text)
        → ((t : Text) → o ≡ some t → IsBalanced t)
        → StmtBalanced (ret_void_stmt o)
    by_name none h = tt
    by_name (some t) h = h t refl

pub ret_void_safe : {b : Builder} → IsSound b → Done b IsUnit (ret_void b)
unfolding ret_void
ret_void_safe {b = b} s =
    end_with_safe _ s (retbuf-StmtBalanced b (current_function b) (current_sound s))

ret_rest_safe :
    {b : Builder} {v : ValueRef} (is_void : Bool)
    → IsSound b
    → HasValue b v
    → Done b IsUnit (ret_rest v is_void b)
ret_rest_safe true s h = end_with_safe _ s tt
ret_rest_safe false s h = with_text s _ h λ x bx. end_with_safe _ s bx

abbrev IsBool : Builder → Bool → Type 0
IsBool b t = Unit

returns_void_safe :
    {b : Builder} (o : Option FunctionDef)
    → IsSound b
    → CurrentSound b o
    → Done b IsBool (returns_void o b)
returns_void_safe none s h = here s tt
returns_void_safe (some f) s h = with_kind_of s _ h.ret λ kind e _. here s tt

-- On a sound builder, a return of a value of the store returns and leaves the builder sound.
pub ret_safe : {b : Builder} {v : ValueRef} → IsSound b → HasValue b v → Done b IsUnit (ret v b)
unfolding ret
ret_safe {b = b} s h =
    after_run _ (returns_void_safe (current_function b) s (current_sound s))
      λ is_void b' s' g _. ret_rest_safe is_void s' (HasValue-Grows g h)

pub br_safe : {b : Builder} (dest : BasicBlockId) → IsSound b → Done b IsUnit (br dest b)
unfolding br
br_safe dest s = end_with_safe _ s (block_label-IsBalanced dest s)

pub cond_br_safe :
    {b : Builder} {cond : ValueRef} (then_bb else_bb : BasicBlockId)
    → IsSound b
    → HasValue b cond
    → Done b IsUnit (cond_br cond then_bb else_bb b)
unfolding cond_br
cond_br_safe then_bb else_bb s h = with_text s _ h λ c bc.
    end_with_safe _ s (bc, block_label-IsBalanced then_bb s, block_label-IsBalanced else_bb s)

switch_expr-LeavesBalanced :
    (kind : CTypeKind) (x : Text) → IsBalanced x → LeavesBalanced (switch_expr kind x)
switch_expr-LeavesBalanced (CTypeKind.int bits true) x h =
    (λ st. scan_over (show bits) _ st (show-IsBalanced bits), h)
switch_expr-LeavesBalanced (CTypeKind.ptr_width true) x h = (λ st. refl, h)
switch_expr-LeavesBalanced _ x h = h

case_expr-LeavesBalanced : (constant : ℕ) → LeavesBalanced (case_expr constant)
case_expr-LeavesBalanced constant =
    both_branches LeavesBalanced (ltb (2 ^ 64 - 1) constant)
      (λ st.
        scan_over (show (constant / 2 ^ 64)) _ _ (show-IsBalanced (constant / 2 ^ 64))
        ∙ scan_over (show (constant % 2 ^ 64)) _ _ (show-IsBalanced (constant % 2 ^ 64)))
      (λ st. scan_over (show constant) _ st (show-IsBalanced constant))

cases-CasesBalanced :
    {b : Builder} (cases : List (ℕ × BasicBlockId))
    → IsSound b
    → CasesBalanced (switch_cases b cases)
cases-CasesBalanced [] s = tt
cases-CasesBalanced ((constant, bb) ∷ cases) s =
    (case_expr-LeavesBalanced constant, block_label-IsBalanced bb s, cases-CasesBalanced cases s)

-- On a sound builder, a switch on a value of the store returns and leaves the builder sound.
pub switch_safe :
    {b : Builder} {v : ValueRef} (else_bb : BasicBlockId) (cases : List (ℕ × BasicBlockId))
    → IsSound b
    → HasValue b v
    → Done b IsUnit (switch v else_bb cases b)
unfolding switch
switch_safe {b = b} else_bb cases s h = with_text s _ h λ x bx. with_type_of s _ h λ ty ht.
    with_kind_of s _ ht λ kind e _.
      end_with_safe
        (CStmt.switch (switch_expr kind x) (switch_cases b cases) (block_label b else_bb)) s
        (
          switch_expr-LeavesBalanced kind x bx,
          cases-CasesBalanced cases s,
          block_label-IsBalanced else_bb s,
        )

pub unreachable_safe : {b : Builder} → IsSound b → Done b IsUnit (unreachable b)
unfolding unreachable
unreachable_safe s = end_with_safe _ s tt
