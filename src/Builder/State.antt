-- ===== src/Builder/State.antt =====
-- src/builder.rs: what a `Builder` reads and changes, its own fields and the cells of its context,
-- and the calls that pass through the context.
use rustc_codegen_c.Prelude.{Option}
use rustc_codegen_c.Prelude.Text.{Text, Text-discrete}
use rustc_codegen_c.Prelude.Dict.{get, modify}
use rustc_codegen_c.Prelude.Outcome.{Outcome, ok}
use rustc_codegen_c.Prelude.Outcome as Outcome
use rustc_codegen_c.Types.Kind.{TypeRef, CTypeKind}
use rustc_codegen_c.Types.Store.{TypeStore}
use rustc_codegen_c.Types.Store as Types
use rustc_codegen_c.Types.Render as TypeText
use rustc_codegen_c.Values.Store.{ValueStore, ValueRef}
use rustc_codegen_c.Values.Store as Values
use rustc_codegen_c.Values.Render as ValueText
use rustc_codegen_c.Module.Function.{FunctionDef, BasicBlockId}
use rustc_codegen_c.Module.Function as Function
use rustc_codegen_c.Module.Source.{CModule}

-- `types`, `values` and `c_module` (`module`) are the cells of the context.
pub record Builder : Type 0 where
  pub types : TypeStore
  pub values : ValueStore
  pub c_module : CModule
  pub current_bb : BasicBlockId
  pub current_fn : Text

-- A call on a builder: a value and the changed builder.
abbrev pub Build : Type 0 → Type 0
Build A = Builder → Outcome (A × Builder)

infixl 5 ◌>>=◌ ◌>>◌
abbrev pub ◌>>=◌ : {A B : Type 0} → Build A → (A → Build B) → Build B
(m >>= f) b = Outcome.◌>>=◌ (m b) λ p. f p.0 p.1

abbrev pub ◌>>◌ : {B : Type 0} → Build (Unit {0}) → Build B → Build B
m >> k = m >>= λ _. k

abbrev pub give : {A : Type 0} → A → Build A
give a b = ok (a, b)

-- A call that reads the builder.
abbrev pub ask : {A : Type 0} → (Builder → Outcome A) → Build A
ask f b = Outcome.◌>>=◌ (f b) λ a. ok (a, b)

-- `self.cx.values.borrow().get_type(v)`
abbrev pub get_type : ValueRef → Build TypeRef
get_type v = ask λ b. Values.get_type b.values v

-- `self.cx.types.borrow().get(ty)`
abbrev pub get_kind : TypeRef → Build CTypeKind
get_kind ty = ask λ b. Types.get b.types ty

abbrev pub render_value : ValueRef → Build Text
render_value v = ask λ b. ValueText.render b.values v

abbrev pub render_type : TypeRef → Build Text
render_type ty = ask λ b. TypeText.render b.types ty

abbrev pub render_type_decl : TypeRef → Text → Build Text
render_type_decl ty name = ask λ b. TypeText.render_decl b.types ty name

abbrev pub intern_type : CTypeKind → Build TypeRef
intern_type kind b = let r = Types.intern b.types kind in ok (r.1, record b { types = r.0 })

abbrev pub new_temp : TypeRef → Build ValueRef
new_temp ty b = let r = Values.next_temp b.values ty in ok (r.1, record b { values = r.0 })

-- `module.open_functions.get(&self.current_fn)`
abbrev pub current_function : Builder → Option FunctionDef
current_function b = get Text-discrete b.c_module.open_functions b.current_fn

-- `if let Some(func) = module.open_functions.get_mut(&self.current_fn)`
abbrev pub change_function : Builder → (FunctionDef → FunctionDef) → Builder
change_function b g = record b {
  c_module = record b.c_module {
    open_functions = modify Text-discrete b.c_module.open_functions b.current_fn g;
  };
}

abbrev pub with_function : (FunctionDef → FunctionDef) → Build Unit
with_function g b = ok (tt, change_function b g)

abbrev pub add_local_decl : Text → Build Unit
add_local_decl decl = with_function λ f. Function.add_local_decl f decl
