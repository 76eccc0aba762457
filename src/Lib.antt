-- ===== src/Lib.antt =====
-- rustc_codegen_c: a backend of rustc that writes C. This library models the part of the backend
-- that turns what rustc asks for into C text: types and values in stores, expressions and
-- statements as a syntax tree, functions of basic blocks, the module that becomes one C file, and
-- the builder that rustc drives.
--
-- The parts, their sources (paths from the repository's root) and their files:
--   src/c_ast.rs: CAst/Op, CAst/Expr, CAst/Build (CExpr and its constructors, Display), CAst/Stmt
--     (CStmt), CAst/Printer (PrettyPrinter, print_stmts). CAst/Layout says what the printer writes
--     without a printer; CAst/Brackets and CAst/StmtBrackets are about matching brackets.
--   src/types.rs: Types/Kind (CTypeKind), Types/Store (TypeStore, intern, get), Types/Render (render,
--     render_decl), Types/Align (natural_align_bytes), Types/Defs (render_struct_defs). The proofs
--     are in Types/Interning, Types/Fuel, Types/Total, Types/Stable, Types/AlignPower,
--     Types/Brackets and Types/DefsBrackets.
--   src/values.rs: Values/Store (ValueStore and its operations), Values/Render (render). The proofs
--     are in Values/Literal (integer constants), Values/Fresh (temporaries) and Values/Total.
--   src/module.rs: Module/Function (FunctionDef), Module/Render (FunctionDef::render),
--     Module/Signature (how CModule::to_c_source reads signatures), Module/Source (CModule). The
--     proofs are in Module/Blocks, Module/Balance, Module/Total, Module/Defined,
--     Module/ParamTexts, Module/Declarations, Module/Globals, Module/Wellformed and
--     Module/SourceTotal.
--   src/context.rs, src/builder.rs: Builder/Names (sanitize_name, asm_label), Builder/State (the
--     builder and the calls into its context), Builder/Emit (emit, temporaries, binary
--     operations, casts), Builder/Arith, Builder/Checked, Builder/Flow; Builder/Memory (stack
--     slots, loads, stores), Builder/Address (gep, memcpy), Builder/Convert (casts, saturation,
--     bitcast), Builder/Compare (icmp, fcmp, select), Builder/Aggregate (elements, fields,
--     scalars), Builder/Atomics, Builder/Call (call, tail_call), Builder/Unwind (invoke, landing
--     pads, resume), Builder/Params (build, get_param). Builder/Effect and Builder/Operators have
--     proofs on statements, with Builder/Ends for what returns and switches write,
--     Builder/RealTests on comparisons of floats.
--   src/types.rs again, the methods of rustc's traits: Builder/Queries.
--   src/lib.rs: Module/Unit, the end of module_codegen.
--   src/consts.rs: Consts/Signed (sign_extend_to_i128), Consts/Values (scalar constants), Consts/Exact
--     (what they are written as).
--   Calls of the builder together: Safe/Sound has the invariant of a builder with the cells of its
--     context, and what a call leaves as it is; Safe/Changes the changes that calls are made of,
--     Safe/Rules and Safe/Emit the rules for their composition, Safe/Values the texts of values.
--     Safe/Arith, Safe/Checked, Safe/Memory, Safe/Store, Safe/Address, Safe/Convert, Safe/Bitcast,
--     Safe/Compare, Safe/Aggregate, Safe/Scalars, Safe/Atomics, Safe/Flow, Safe/Blocks, Safe/Args,
--     Safe/Call, Safe/Unwind and Safe/Params go through the calls; Safe/Calls puts them together as
--     a data type with their conditions, Safe/Program and Safe/Stable are on all of them, Safe/Runs
--     makes sequences of them, and Safe/Finish ends them with the C file.
--     Safe/CompareEffect, Safe/ConvertEffect, Safe/Panic and Safe/TailCall are on single calls.
-- Prelude holds what the parts share: texts, decimal numerals, maps, results of calls, matching
-- brackets. Tests applies the theorems at concrete inputs.
--
-- How the code is modelled. A `&mut self` method returns the new record; a call on a builder takes
-- the builder and returns a value and the changed builder, where the cells of the context are fields
-- of the builder. A String is the list of its code points. A call that can panic or not end returns
-- an `Outcome`: `panic` for an index out of bounds and an unknown float width, `diverge` when the
-- fuel of a recursion is used up. `render` of a type and of a value recurse through indices, which
-- the types of Rust do not bound, so their models take as fuel one more than the size of the store;
-- that is enough for a closed store, in which every entry refers to earlier entries only. u32 counters
-- and references wrap at 2^32. Maps are association lists with one entry for a key; the blocks of
-- a function stand in the order of their numbers and the open functions of a module in the order of
-- their names, as BTreeMap iterates.
--
-- Parameters: the text of src/c/preamble.c is an argument of `to_c_source`, and the width of
-- pointers, which rustc gives, one of the operations that need it. A float is given by its
-- class and the text that Rust's formatting gives for it. Of a calling convention (FnAbi), a call
-- uses three facts, which are a record: whether the result is indirect, whether it is a boolean
-- scalar, and how the C type of its layout is found. The C type of a scalar is an argument of
-- `to_immediate_scalar`. Where a theorem uses the last two, they are asked to return a type of the
-- store and to keep the invariant. The methods that rustc gives sizes and alignments take numbers
-- of bytes. Borrowing a cell that is borrowed is a panic where the code does it.
--
-- Not modelled: in src/builder.rs, load_operand, write_operand_repeatedly, store_fn_arg, store_arg
-- and get_static, which go by layouts and definitions of rustc, and the methods without a body;
-- the rest of src/consts.rs, src/context.rs and src/types.rs, src/type_of.rs and src/intrinsic.rs,
-- which work on rustc's own types (the functions that a builder works on are opened there, so that
-- sequences of calls start from a module in which they are open); src/debuginfo.rs, which is
-- empty; the rest of src/lib.rs, src/write.rs, src/allocator.rs, src/builtins.rs and
-- src/native_stubs.rs, which are input and output, the interface to rustc, and fixed texts.
pub mod Prelude
pub mod CAst
pub mod Types
pub mod Values
pub mod Module
pub mod Builder
pub mod Consts
pub mod Safe
mod Tests
