-- ===== src/Safe/Runs.antt =====
-- src/builder.rs and src/lib.rs: sequences of valid calls on a builder, and the C file at their end.
use rustc_codegen_c.Prelude.{All, ◌≡◌}
use rustc_codegen_c.Prelude.Text.{Text}
use rustc_codegen_c.Prelude.Brackets.{IsBalanced}
use rustc_codegen_c.Prelude.Outcome.{ok, Gives-ok}
use rustc_codegen_c.Module.Source.{CModule, to_c_source}
use rustc_codegen_c.Module.SourceTotal.{IsAscii, to_c_source_total}
use rustc_codegen_c.Module.Unit.{finish_module}
use rustc_codegen_c.Module.Wellformed.{ModuleBalanced, to_c_source-IsBalanced}
use rustc_codegen_c.Builder.State.{Builder}
use rustc_codegen_c.Safe.Sound.{IsSound, Grows, Grows-refl, Grows-trans}
use rustc_codegen_c.Safe.Rules.{Done}
use rustc_codegen_c.Safe.Program.{run_safe}
use rustc_codegen_c.Safe.Calls.{Call, Answer, Valid, AnswerSound, run}
use rustc_codegen_c.Safe.Stable.{Valid-Grows}
use rustc_codegen_c.Safe.Finish.{finish_module_types, Finished, finish_module-Finished}

-- The builders that valid calls lead to, one after the other.
pub data Runs : Builder → Builder → Type 0 where
  stop : {b : Builder} → Runs b b
  step :
      {b mid b' : Builder} (c : Call) (a : Answer)
      → Valid b c
      → run c b ≡ ok (a, mid)
      → Runs mid b'
      → Runs b b'

run_preserves :
    (c : Call) (b : Builder) {a : Answer} {b' : Builder}
    → IsSound b
    → Valid b c
    → run c b ≡ ok (a, b')
    → IsSound b' × Grows b b'
run_preserves c b s v e =
    let d = run_safe c b s v in
    Gives-ok (λ (p : Answer × Builder). IsSound p.1 × Grows b p.1) (run c b)
      (rw d.returns (d.sound, d.grows)) e

-- Valid calls, however many, keep a builder sound, and what was in its stores stays where it is.
pub Runs-IsSound : {b b' : Builder} → Runs b b' → IsSound b → IsSound b' × Grows b b'
Runs-IsSound stop s = (s, Grows-refl)
Runs-IsSound (step {b = b} {mid = mid} c a v e rest) s =
    let (s', g) = run_preserves c b s v e in
    let (s'', g') = Runs-IsSound rest s' in (s'', Grows-trans g g')

-- A call that is valid on a sound builder still returns after any number of other valid calls, and
-- what it returns is of the stores.
pub Runs-answers :
    {b b' : Builder} (c : Call) → Runs b b' → IsSound b → Valid b c → Done b' AnswerSound (run c b')
Runs-answers {b' = b'} c r s v =
    let (s', g) = Runs-IsSound r s in run_safe c b' s' (Valid-Grows c g v)

-- Where valid calls, however many, are made on a sound builder whose module has matching brackets,
-- the module is finished after them: no function stays open, there is one text of a function more
-- for every open function, and the texts of the module have matching brackets.
pub Runs-finish :
    {b b' : Builder}
    → Runs b b'
    → IsSound b
    → ModuleBalanced b.c_module
    → Finished b'.c_module b'.c_module.open_functions (finish_module b'.c_module b'.types b'.values)
Runs-finish {b' = b'} r s m =
    let (s', g) = Runs-IsSound r s in
    finish_module-Finished b'.types s'.types s'.names b'.c_module b'.values (g.balanced m)
      s'.functions

-- Where valid calls, however many, are made on a sound builder whose module has matching brackets,
-- and the module is then finished, the C file that `to_c_source` writes of it, if it returns, has
-- matching brackets, provided that the preamble has.
pub Runs-c_source :
    {b b' : Builder} (preamble : Text) {m : CModule} {t : Text}
    → Runs b b'
    → IsSound b
    → ModuleBalanced b.c_module
    → IsBalanced preamble
    → finish_module b'.c_module b'.types b'.values ≡ ok m
    → to_c_source preamble m ≡ ok t
    → IsBalanced t
Runs-c_source {b' = b'} preamble {m = m} r s h hp e src =
    let d = Runs-finish r s h in
    let balanced =
      Gives-ok ModuleBalanced (finish_module b'.c_module b'.types b'.values)
        (rw d.returns d.balanced) e in
    to_c_source-IsBalanced preamble m hp balanced src

-- Where valid calls, however many, are made on a sound builder whose module has matching brackets,
-- the preamble has, and the texts of the functions and declarations of the finished module are of
-- ASCII characters, `to_c_source` returns a C file, and it has matching brackets.
pub Runs-writes :
    {b b' : Builder} (preamble : Text) {m : CModule}
    → Runs b b'
    → IsSound b
    → ModuleBalanced b.c_module
    → IsBalanced preamble
    → finish_module b'.c_module b'.types b'.values ≡ ok m
    → All IsAscii m.function_defs
    → All IsAscii m.function_decls
    → (t : Text) × (to_c_source preamble m ≡ ok t) × IsBalanced t
Runs-writes {b' = b'} preamble {m = m} r s h hp e hd hf =
    let (s', g) = Runs-IsSound r s in
    let same =
      Gives-ok (λ m'. m'.types ≡ b'.types) (finish_module b'.c_module b'.types b'.values)
        (finish_module_types b'.types s'.types s'.names b'.c_module b'.values (g.balanced h)
          s'.functions)
        e in
    let (t, src) = to_c_source_total preamble m (rw same s'.types) hd hf in
    (t, src, Runs-c_source preamble r s h hp e src)
