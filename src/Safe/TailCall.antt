-- ===== src/Safe/TailCall.antt =====
-- src/builder.rs: tail calls by a function pointer.
use rustc_codegen_c.Prelude.{◌≡◌, refl, List, none, some}
use rustc_codegen_c.Prelude.Outcome.{ok}
use rustc_codegen_c.Types.Kind.{TypeRef, void}
use rustc_codegen_c.Types.Interning.{IsWf, HasRoom, get-intern}
use rustc_codegen_c.Values.Store.{ValueRef}
use rustc_codegen_c.Values.Store as Values
use rustc_codegen_c.Builder.State.{Builder, current_function}
use rustc_codegen_c.Builder.Flow.{retbuf_of, ret_void}
use rustc_codegen_c.Builder.Call.{FnAbi, call, tail_call}
use rustc_codegen_c.Safe.Changes.{with_type}

-- Where the call of a tail call returns, over a well-formed store of types with room, a tail call of
-- a value without a signature, such as a function pointer, in a function without a buffer for its
-- result ends the block as `ret_void` does, whatever type the callee returns: the result is dropped.
pub tail_call_drops_result :
    (b : Builder) (llty : TypeRef) (abi : FnAbi) (llfn : ValueRef) (args : List ValueRef)
    {result : ValueRef} {b' : Builder}
    → call llty (some abi) llfn args b ≡ ok (result, b')
    → retbuf_of (current_function b') ≡ none
    → Values.get_fn_sig b'.values llfn ≡ ok none
    → IsWf b'.types
    → HasRoom b'.types
    → tail_call llty abi llfn args b ≡ ret_void (with_type b' void)
unfolding tail_call
tail_call_drops_result b llty abi llfn args {b' = b'} e hr hs wf room =
    rw (e, hr, hs, get-intern b'.types void wf room) refl
