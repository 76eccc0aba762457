-- ===== src/Tests/SafeTests.antt =====
-- src/builder.rs and src/lib.rs: calls on a sound builder in the first block of a function.
use rustc_codegen_c.Prelude.{
  inl, All, ℕ, ◌+◌, ◌<◌, ◌≡◌, refl, true, false, not, List, [], ◌∷◌, none, some, arith, length,
}
use rustc_codegen_c.Prelude.Text.{Text, str, fmt, newline}
use rustc_codegen_c.Prelude.Brackets.{IsBalanced}
use rustc_codegen_c.Prelude.Outcome.{ok, panic}
use rustc_codegen_c.Prelude.Int.{pos}
use rustc_codegen_c.CAst.Build.{var}
use rustc_codegen_c.CAst.Build as Expr
use rustc_codegen_c.CAst.Op.{CBinOp}
use rustc_codegen_c.Types.Kind.{CTypeKind, bool, int, array}
use rustc_codegen_c.Types.Store as Types
use rustc_codegen_c.Types.Render as TypeText
use rustc_codegen_c.Types.Total.{new-IsClosed}
use rustc_codegen_c.Types.Brackets.{new-NamesBalanced}
use rustc_codegen_c.Values.Store as Values
use rustc_codegen_c.Values.Total as ValueTotal
use rustc_codegen_c.Module.Function.{new, new_block}
use rustc_codegen_c.Module.Source.{CModule, new_module, to_c_source}
use rustc_codegen_c.Module.Wellformed.{ModuleBalanced}
use rustc_codegen_c.Module.SourceTotal.{IsAscii, is_ascii-IsAscii}
use rustc_codegen_c.Module.Unit.{finish_module}
use rustc_codegen_c.Builder.State.{Builder}
use rustc_codegen_c.Builder.Convert.{zext}
use rustc_codegen_c.Builder.Compare.{IntPredicate, icmp, RealPredicate, real_test}
use rustc_codegen_c.Builder.Call.{call}
use rustc_codegen_c.Builder.RealTests.{Real, holds, eval_test, real_test-holds, real_test_on_nan}
use rustc_codegen_c.Builder.Operators.{with_unsigned}
use rustc_codegen_c.Builder.Effect.{AddsTemp}
use rustc_codegen_c.Safe.Sound.{IsSound, FunctionSound, HasValue, Grows}
use rustc_codegen_c.Safe.Changes.{with_type, with_temp, intern-IsSound, temp-IsSound}
use rustc_codegen_c.Safe.Rules.{Done}
use rustc_codegen_c.Safe.Arith.{BinaryOp}
use rustc_codegen_c.Safe.Program.{run_safe}
use rustc_codegen_c.Safe.Calls.{Call, AnswerSound, run}
use rustc_codegen_c.Safe.Runs.{
  Runs-writes, Runs, Runs-IsSound, Runs-answers, Runs-finish, Runs-c_source,
}
use rustc_codegen_c.Safe.Finish.{Finished}
use rustc_codegen_c.Safe.Panic.{IsFunction, call_panics}
use rustc_codegen_c.Safe.CompareEffect.{ComparesBy, IsGreater, IntOperands, compared, icmp_adds}
use rustc_codegen_c.Safe.ConvertEffect.{zext_adds}
use rustc_codegen_c.Tests.Samples.{ints-long, arrays, arrays-long, one_temp, one_temp-long}
use rustc_codegen_c.Tests.BuilderTests.{
  two_blocks, first, builder, builder-WritesTo, builder-IsReady, value_text, value_type, int_kind,
  int_text,
}

-- A builder without types, values and functions.
abbrev blank : Builder
blank = record {
  types = Types.new;
  values = Values.new;
  c_module = new_module (str "m");
  current_bb = 0;
  current_fn = str "f";
}

blank-IsSound : IsSound blank
unfolding Types.new Values.new new_module
blank-IsSound = record {
  types = new-IsClosed;
  index = λ k i h. cc;
  names = new-NamesBalanced;
  values = ValueTotal.new-IsClosed;
  sound = λ v info h. cc;
  functions = tt;
}

-- The builder with the types and the value of the samples.
abbrev stores : Builder
stores = with_temp (with_type (with_type blank (int 32 true)) (array 0 4)) 0

stores-IsSound : IsSound stores
stores-IsSound =
    temp-IsSound (with_type (with_type blank (int 32 true)) (array 0 4)) 0
      (intern-IsSound (with_type blank (int 32 true)) (array 0 4)
        (intern-IsSound blank (int 32 true) blank-IsSound tt tt tt) tt (rw ints-long (omega arith))
        tt)
      (rw arrays-long (omega arith))

two_blocks-FunctionSound : FunctionSound (length arrays.types) two_blocks
unfolding new new_block
two_blocks-FunctionSound = record {
  balanced = record {
    name = λ st. refl;
    prefix = λ st. refl;
    params = tt;
    overrides = λ i t h. cc;
    decls = tt;
    blocks = ((λ st. refl, tt), ((λ st. refl, tt), tt));
  };
  ret = rw arrays-long (omega arith);
  params = tt;
  ret_data = λ ty e. cc;
  retbuf = λ name e. cc;
}

builder-IsSound : IsSound builder
builder-IsSound = record {
  types = stores-IsSound.types;
  index = stores-IsSound.index;
  names = stores-IsSound.names;
  values = stores-IsSound.values;
  sound = stores-IsSound.sound;
  functions = (two_blocks-FunctionSound, tt);
}

builder-ModuleBalanced : ModuleBalanced builder.c_module
unfolding new_module
builder-ModuleBalanced = record {
  types = new-NamesBalanced;
  struct_defs = tt;
  global_extern_decls = tt;
  global_decls = tt;
  function_decls = tt;
  function_defs = tt;
  data_sections = tt;
  constructor_defs = tt;
  precompiled = λ t h. cc;
}

zero_inside : HasValue builder 0
zero_inside = rw one_temp-long (omega arith)

-- A comparison of the value with itself.
abbrev compare : Call
compare = Call.int_compare IntPredicate.int_slt 0 0

run_safe_example : Done builder AnswerSound (run compare builder)
run_safe_example = run_safe compare builder builder-IsSound (zero_inside, zero_inside)

-- The sum of the value with itself.
abbrev add : Call
add = Call.binary_op BinaryOp.add 0 0

abbrev added : Done builder AnswerSound (run add builder)
added = run_safe add builder builder-IsSound (zero_inside, zero_inside)

add-Runs : Runs builder added.after
add-Runs = Runs.step add added.result (zero_inside, zero_inside) added.returns Runs.stop

Runs-IsSound_example : IsSound added.after × Grows builder added.after
Runs-IsSound_example = Runs-IsSound add-Runs builder-IsSound

Runs-answers_example : Done added.after AnswerSound (run compare added.after)
Runs-answers_example = Runs-answers compare add-Runs builder-IsSound (zero_inside, zero_inside)

Runs-finish_example :
    Finished added.after.c_module added.after.c_module.open_functions
      (finish_module added.after.c_module added.after.types added.after.values)
Runs-finish_example = Runs-finish add-Runs builder-IsSound builder-ModuleBalanced

-- The text of the function.
abbrev f_text : Text
f_text =
    str
      "#pragma weak f\nint32_t f(void) {\nbb0:\n  ; /* fallthrough */\nbb1:\n  ; /* fallthrough */\n}\n"

-- The module in which the function is finished, and its C file.
abbrev finished_module : CModule
finished_module = record (new_module (str "m")) {
  types = arrays;
  values = one_temp;
  function_defs = f_text ∷ [];
}

builder_finishes : finish_module builder.c_module builder.types builder.values ≡ ok finished_module
unfolding finish_module rustc_codegen_c.Module.Unit.finalize_all
    rustc_codegen_c.Module.Source.finalize_function rustc_codegen_c.Prelude.Text.Text-discrete
    rustc_codegen_c.Prelude.ℕ_discrete rustc_codegen_c.Module.Render.render_function
    rustc_codegen_c.Module.Render.params_from rustc_codegen_c.Types.Kind.CTypeKind-discrete
    rustc_codegen_c.CAst.Printer.fmt_stmts rustc_codegen_c.CAst.Printer.print_stmts
    rustc_codegen_c.CAst.Printer.line rustc_codegen_c.CAst.Printer.indent
    rustc_codegen_c.CAst.Printer.with_indent rustc_codegen_c.CAst.Printer.dedent
    rustc_codegen_c.CAst.Printer.push_indent rustc_codegen_c.CAst.Printer.push_newline
    rustc_codegen_c.CAst.Printer.push_spaces rustc_codegen_c.CAst.Printer.write_line
    rustc_codegen_c.Module.Render.block_text rustc_codegen_c.Module.Render.block_texts
    rustc_codegen_c.Module.Render.decl_lines rustc_codegen_c.Module.Render.params_joined
    rustc_codegen_c.Module.Render.signature_line rustc_codegen_c.Module.Render.weak_pragma new_block
    new new_module TypeText.render TypeText.render_fuel Types.get Types.intern Types.new
    TypeText.render_kind TypeText.render_int
builder_finishes = refl

abbrev source : Text
source = fmt (str "/* preamble */\n" ∷ f_text ∷ newline ∷ [])

source_written : to_c_source (str "/* preamble */\n") finished_module ≡ ok source
unfolding to_c_source new_module rustc_codegen_c.Module.Source.generated_source
    rustc_codegen_c.Types.Defs.render_struct_defs rustc_codegen_c.Types.Defs.struct_defs_from
    Types.intern Types.new rustc_codegen_c.Types.Kind.CTypeKind-discrete
    rustc_codegen_c.Types.Defs.type_defs rustc_codegen_c.Module.Signature.defined_sigs
    rustc_codegen_c.Module.Signature.signature_of rustc_codegen_c.Module.Signature.split_first
    rustc_codegen_c.Module.Signature.split_last_space rustc_codegen_c.Module.Signature.kept_decls
    rustc_codegen_c.Module.Source.on_lines
source_written = refl

Runs-c_source_example : IsBalanced source
Runs-c_source_example =
    Runs-c_source (str "/* preamble */\n") Runs.stop builder-IsSound builder-ModuleBalanced
      (λ st. refl) builder_finishes source_written

f_text-IsAscii : IsAscii f_text
f_text-IsAscii = is_ascii-IsAscii f_text refl

no_declarations : All IsAscii finished_module.function_decls
unfolding new_module
no_declarations = tt

Runs-writes_example :
    (t : Text) × (to_c_source (str "/* preamble */\n") finished_module ≡ ok t) × IsBalanced t
Runs-writes_example =
    Runs-writes (str "/* preamble */\n") Runs.stop builder-IsSound builder-ModuleBalanced
      (λ st. refl) builder_finishes (f_text-IsAscii, tt) no_declarations

no_signature : Values.get_fn_sig one_temp 0 ≡ ok none
unfolding Values.get_fn_sig Values.get Values.next_temp Values.alloc Values.new
no_signature = refl

int_is_no-IsFunction : ¬ IsFunction (int 32 true)
int_is_no-IsFunction h = elim h [ ]

call_panics_example : call 0 none 0 (0 ∷ []) builder ≡ panic
call_panics_example =
    call_panics builder 0 none 0 (0 ∷ []) none builder-IsSound zero_inside (zero_inside, tt)
      no_signature int_kind int_is_no-IsFunction

builder-IntOperands : IntOperands builder 0 0 (str "_t0") (str "_t0") 32 32 true true
builder-IntOperands = record {
  lhs_ty = 0;
  rhs_ty = 0;
  left = value_text;
  right = value_text;
  lhs_typed = value_type;
  rhs_typed = value_type;
  lhs_kind = int_kind;
  rhs_kind = int_kind;
}

same_width : IsGreater 32 32 32
same_width = record { left = omega arith; right = omega arith; reached = inl refl }

compared_text :
    TypeText.render
      (compared builder 32 false).types
      (Types.intern (with_type builder bool).types (int 32 false)).1
    ≡ ok (str "uint32_t")
unfolding TypeText.render TypeText.render_fuel Types.get Types.intern Types.new
    rustc_codegen_c.Types.Kind.CTypeKind-discrete rustc_codegen_c.Prelude.ℕ_discrete
    TypeText.render_kind TypeText.render_int
compared_text = refl

icmp_adds_example :
    AddsTemp
      (compared builder 32 false)
      two_blocks
      first
      (Types.intern builder.types bool).1
      (Expr.binop
        (Expr.cast (str "uint32_t") (var (str "_t0")))
        CBinOp.lt
        (Expr.cast (str "uint32_t") (var (str "_t0"))))
      (icmp IntPredicate.int_ult 0 0 builder)
icmp_adds_example =
    icmp_adds builder two_blocks first IntPredicate.int_ult CBinOp.lt false 0 0 32 32 32 true true
      builder-IsReady builder-IsSound.index builder-WritesTo builder-IntOperands
      ComparesBy.unsigned_less same_width (omega arith) compared_text

unsigned_text :
    TypeText.render (with_unsigned builder 32).types (Types.intern builder.types (int 32 false)).1
    ≡ ok (str "uint32_t")
unfolding TypeText.render TypeText.render_fuel Types.get Types.intern Types.new
    rustc_codegen_c.Types.Kind.CTypeKind-discrete rustc_codegen_c.Prelude.ℕ_discrete
    TypeText.render_kind TypeText.render_int
unsigned_text = refl

zext_adds_example :
    AddsTemp
      (with_unsigned builder 32)
      two_blocks
      first
      0
      (Expr.cast (str "int32_t") (Expr.cast (str "uint32_t") (var (str "_t0"))))
      (zext 0 0 builder)
zext_adds_example =
    zext_adds builder two_blocks first 0 0 32 builder-IsReady builder-WritesTo value_text value_type
      int_kind (rw arrays-long (omega arith)) int_text unsigned_text

-- Every variable stands for 3, and every variable for no number.
abbrev threes : Text → Real
threes x = Real.number (pos 3)

abbrev no_number : Text → Real
no_number x = Real.nan

real_test-holds_example :
    eval_test threes (real_test RealPredicate.real_olt (str "x") (str "y"))
    ≡ some (holds RealPredicate.real_olt (Real.number (pos 3)) (Real.number (pos 3)))
real_test-holds_example = real_test-holds RealPredicate.real_olt threes (str "x") (str "y") refl

real_test_on_nan_example :
    eval_test no_number (real_test RealPredicate.real_ult (str "x") (str "y"))
    ≡ some (not (holds RealPredicate.real_ult Real.nan Real.nan))
real_test_on_nan_example =
    real_test_on_nan RealPredicate.real_ult no_number (str "x") (str "y") refl refl
