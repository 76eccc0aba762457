-- ===== src/Tests/Samples.antt =====
-- src/types.rs and src/values.rs: the stores that the tests work on.
use rustc_codegen_c.Prelude.{◌≡◌, refl, true, length, arith}
use rustc_codegen_c.Types.Kind.{CTypeKind-discrete, int, array}
use rustc_codegen_c.Types.Store.{TypeStore, new, intern}
use rustc_codegen_c.Types.Interning.{IsWf, new-IsWf, intern-IsWf}
use rustc_codegen_c.Types.Total.{IsClosed, new-IsClosed, intern-IsClosed}
use rustc_codegen_c.Types.Brackets.{NamesBalanced, new-NamesBalanced, intern-NamesBalanced}
use rustc_codegen_c.Values.Store.{ValueStore, next_temp, alloc, uint_const, vector_const}
use rustc_codegen_c.Values.Store as Values
use rustc_codegen_c.Values.Fresh.{IsFresh, new-IsFresh, next_temp-IsFresh}

-- A store with `int32_t`, and with arrays of four of them.
abbrev pub ints : TypeStore
ints = (intern new (int 32 true)).0

abbrev pub arrays : TypeStore
arrays = (intern ints (array 0 4)).0

pub ints-long : length ints.types ≡ 1
unfolding intern new
ints-long = refl

pub arrays-long : length arrays.types ≡ 2
unfolding intern new CTypeKind-discrete
arrays-long = refl

pub ints-IsWf : IsWf ints
ints-IsWf = intern-IsWf new (int 32 true) new-IsWf (unfold new in omega arith)

pub ints-IsClosed : IsClosed ints
ints-IsClosed = intern-IsClosed new (int 32 true) new-IsClosed tt tt

pub arrays-IsClosed : IsClosed arrays
arrays-IsClosed = intern-IsClosed ints (array 0 4) ints-IsClosed (rw ints-long (omega arith)) tt

pub arrays-NamesBalanced : NamesBalanced arrays
arrays-NamesBalanced =
    intern-NamesBalanced ints (array 0 4)
      (intern-NamesBalanced new (int 32 true) new-NamesBalanced tt) tt

-- A store with one temporary of the type `int32_t`.
abbrev pub one_temp : ValueStore
one_temp = (next_temp Values.new 0).0

pub one_temp-long : length one_temp.values ≡ 1
unfolding next_temp alloc Values.new
one_temp-long = refl

pub one_temp-IsFresh : IsFresh one_temp
one_temp-IsFresh = next_temp-IsFresh Values.new 0 new-IsFresh (unfold Values.new in omega arith)
