-- ===== src/Module/Unit.antt =====
-- src/lib.rs: the end of `module_codegen`, where the functions that are still open are finished and
-- the stores of the context become those of the module.
use rustc_codegen_c.Prelude.{List, [], ◌∷◌, map}
use rustc_codegen_c.Prelude.Text.{Text}
use rustc_codegen_c.Prelude.Outcome.{Outcome, ok, ◌>>=◌}
use rustc_codegen_c.Types.Store.{TypeStore}
use rustc_codegen_c.Values.Store.{ValueStore}
use rustc_codegen_c.Module.Source.{CModule, finalize_function}

-- The loop over the names of the open functions.
unfoldable pub finalize_all : CModule → List Text → TypeStore → Outcome CModule
finalize_all m [] types = ok m
finalize_all m (name ∷ names) types = do
  m' ← finalize_function m name types
  finalize_all m' names types

unfoldable pub finish_module : CModule → TypeStore → ValueStore → Outcome CModule
finish_module m types values = do
  m' ← finalize_all m (map (λ p. p.0) m.open_functions) types
  ok (record m' { types = types; values = values })
