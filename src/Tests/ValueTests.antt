-- ===== src/Tests/ValueTests.antt =====
-- src/values.rs at concrete values.
use rustc_codegen_c.Prelude.{◌-◌, ◌^◌, ◌≡◌, ◌≢◌, refl, arith}
use rustc_codegen_c.Prelude.Text.{str}
use rustc_codegen_c.Prelude.Int.{pos, negsuc}
use rustc_codegen_c.Types.Total.{Ends}
use rustc_codegen_c.Values.Store.{new, alloc, next_temp, temp, param, ptr_offset}
use rustc_codegen_c.Values.Render.{render, render_int_const, render_uint_const}
use rustc_codegen_c.Values.Literal.{Spells, uint_const-Spells, int_const-Spells}
use rustc_codegen_c.Values.Fresh.{next_temp-ne}
use rustc_codegen_c.Values.Total.{IsClosed, new-IsClosed, alloc-IsClosed, render_value_total}
use rustc_codegen_c.Tests.Samples.{one_temp, one_temp-long, one_temp-IsFresh}

-- The least `i64` is written as a difference.
least_i64 : render_int_const (negsuc (2 ^ 63 - 1)) ≡ str "(-9223372036854775807LL - 1LL)"
unfolding render_int_const
least_i64 = refl

uint_const-Spells_example : Spells (render_uint_const (2 ^ 64)) (pos (2 ^ 64))
uint_const-Spells_example = uint_const-Spells (2 ^ 64) (omega arith)

int_const-Spells_example : Spells (render_int_const (negsuc (2 ^ 63 - 1))) (negsuc (2 ^ 63 - 1))
int_const-Spells_example = int_const-Spells (negsuc (2 ^ 63 - 1)) (omega arith)

next_temp-ne_example :
    render (next_temp one_temp 0).0 (next_temp one_temp 0).1 ≢ render (next_temp one_temp 0).0 0
next_temp-ne_example =
    next_temp-ne one_temp 0 0 (record { kind = temp 0; ty = 0 }) 0 one_temp-IsFresh
      (rw one_temp-long (omega arith)) (unfold next_temp new alloc in refl) refl

one_param : IsClosed (alloc new (param 0) 0).0
one_param = alloc-IsClosed new (param 0) 0 new-IsClosed tt

offset-IsClosed : IsClosed (alloc (alloc new (param 0) 0).0 (ptr_offset 0 8) 0).0
offset-IsClosed =
    alloc-IsClosed (alloc new (param 0) 0).0 (ptr_offset 0 8) 0 one_param
      (unfold alloc new in omega arith)

render_value_total_example : Ends (render (alloc (alloc new (param 0) 0).0 (ptr_offset 0 8) 0).0 1)
render_value_total_example =
    render_value_total (alloc (alloc new (param 0) 0).0 (ptr_offset 0 8) 0).0 1 offset-IsClosed
      (unfold alloc new in omega arith)
