-- ===== src/Safe/Rules.antt =====
-- src/builder.rs: how the steps of a call are put together on a sound builder.
use rustc_codegen_c.Prelude.{◌≡◌, refl, length, get_elem?_total}
use rustc_codegen_c.Prelude.Text.{Text}
use rustc_codegen_c.Prelude.Brackets.{IsBalanced}
use rustc_codegen_c.Prelude.Outcome.{Outcome, ok}
use rustc_codegen_c.Prelude.Outcome as Outcome
use rustc_codegen_c.CAst.Stmt.{CStmt}
use rustc_codegen_c.CAst.StmtBrackets.{StmtBalanced}
use rustc_codegen_c.Types.Kind.{TypeRef, CTypeKind}
use rustc_codegen_c.Types.Store as Types
use rustc_codegen_c.Types.Render as TypeText
use rustc_codegen_c.Types.Interning.{get_of_elem}
use rustc_codegen_c.Types.Brackets.{render-IsBalanced as type-IsBalanced, render_decl-IsBalanced}
use rustc_codegen_c.Types.Total.{RefsBelow, refs_inside, render_total, render_decl_total}
use rustc_codegen_c.Values.Store.{ValueRef, CValueInfo}
use rustc_codegen_c.Values.Store as Values
use rustc_codegen_c.Values.Render as ValueText
use rustc_codegen_c.Values.Total.{render_value_total}
use rustc_codegen_c.Module.Function.{FunctionDef, BasicBlockId}
use rustc_codegen_c.Module.Function as Function
use rustc_codegen_c.Module.Balance.{
  emit-FunctionBalanced, set_terminated-FunctionBalanced, add_local_decl-FunctionBalanced,
}
use rustc_codegen_c.Builder.State.{Builder, change_function}
use rustc_codegen_c.Safe.Values.{render-IsBalanced}
use rustc_codegen_c.Safe.Sound.{
  IsSound, Grows, Grows-trans, Grows-refl, HasType, HasValue, ValueSound,
}
use rustc_codegen_c.Safe.Changes.{change-IsSound}

-- A call that returns a value with the property, and leaves a sound builder in which everything
-- that was there before still is.
pub record Done {A : Type 0} (b : Builder) (Q : Builder → A → Type 0) (run : Outcome (A × Builder))
    : Type 0 where
  pub result : A
  pub after : Builder
  pub returns : run ≡ ok (result, after)
  pub sound : IsSound after
  pub grows : Grows b after
  pub holds : Q after result

-- A call that returns a value of the store.
abbrev pub IsValue : Builder → ValueRef → Type 0
IsValue b v = HasValue b v

abbrev pub IsType : Builder → TypeRef → Type 0
IsType b ty = HasType b ty

-- A call that returns nothing.
abbrev pub IsUnit : Builder → Unit {0} → Type 0
IsUnit b u = Unit

module _ {A : Type 0} {Q : Builder → A → Type 0} where
  pub here : {b : Builder} {a : A} → IsSound b → Q b a → Done b Q (ok (a, b))
  here {b = b} {a = a} s h = record {
    result = a;
    after = b;
    returns = refl;
    sound = s;
    grows = Grows-refl;
    holds = h;
  }

  -- The rest of a call that has changed the builder.
  pub grow :
      {b b' : Builder} {run : Outcome (A × Builder)} → Grows b b' → Done b' Q run → Done b Q run
  grow g d = record {
    result = d.result;
    after = d.after;
    returns = d.returns;
    sound = d.sound;
    grows = Grows-trans g d.grows;
    holds = d.holds;
  }

  -- One call after another.
  pub after_run :
      {B : Type 0} {P : Builder → B → Type 0} {b : Builder} {run : Outcome (B × Builder)}
      (next : B × Builder → Outcome (A × Builder))
      → Done b P run
      → ((x : B) (b' : Builder) → IsSound b' → Grows b b' → P b' x → Done b' Q (next (x, b')))
      → Done b Q (Outcome.◌>>=◌ run next)
  after_run next d k = rw d.returns (grow d.grows (k d.result d.after d.sound d.grows d.holds))

  -- A query that returns: the builder stays as it is.
  pub with_answer :
      {B : Type 0} {b : Builder} {answer : Outcome B} {x : B}
      (next : B × Builder → Outcome (A × Builder))
      → answer ≡ ok x
      → Done b Q (next (x, b))
      → Done b Q (Outcome.◌>>=◌ (Outcome.◌>>=◌ answer λ a. ok (a, b)) next)
  with_answer next e d = rw e d

  module _ {b : Builder} (s : IsSound b) where
    pub with_type_of :
        {v : ValueRef} (next : TypeRef × Builder → Outcome (A × Builder))
        → HasValue b v
        → ((ty : TypeRef) → HasType b ty → Done b Q (next (ty, b)))
        → Done b Q (Outcome.◌>>=◌ (Outcome.◌>>=◌ (Values.get_type b.values v) λ a. ok (a, b)) next)
    unfolding Values.get_type Values.get
    with_type_of {v = v} next h k =
        let (info, e) = get_elem?_total b.values.values v h in rw e (k info.ty (s.sound v info e).0)

    pub with_info :
        {v : ValueRef} {B : Type 0} {f : CValueInfo → B}
        (next : B × Builder → Outcome (A × Builder))
        → HasValue b v
        → ((info : CValueInfo)
            → ValueSound (length b.types.types) info
            → Done b Q (next (f info, b)))
        → Done b Q (
            Outcome.◌>>=◌
              (Outcome.◌>>=◌
                (Outcome.◌>>=◌ (Values.get b.values v) λ info. ok (f info))
                λ a. ok (a, b))
              next)
    unfolding Values.get
    with_info {v = v} next h k =
        let (info, e) = get_elem?_total b.values.values v h in rw e (k info (s.sound v info e))

    pub with_kind_of :
        {ty : TypeRef} (next : CTypeKind × Builder → Outcome (A × Builder))
        → HasType b ty
        → ((kind : CTypeKind)
            → Types.get b.types ty ≡ ok kind
            → RefsBelow (length b.types.types) kind
            → Done b Q (next (kind, b)))
        → Done b Q (Outcome.◌>>=◌ (Outcome.◌>>=◌ (Types.get b.types ty) λ a. ok (a, b)) next)
    with_kind_of {ty = ty} next h k =
        let (kind, e) = get_elem?_total b.types.types ty h in
        let g = get_of_elem b.types ty e in
        with_answer _ g
          (k kind g (refs_inside kind ty (length b.types.types) h (s.types.refs kind ty e)))

    pub with_text :
        {v : ValueRef} (next : Text × Builder → Outcome (A × Builder))
        → HasValue b v
        → ((x : Text) → IsBalanced x → Done b Q (next (x, b)))
        → Done b Q (Outcome.◌>>=◌ (Outcome.◌>>=◌ (ValueText.render b.values v) λ a. ok (a, b)) next)
    with_text {v = v} next h k =
        let (x, e) = render_value_total b.values v s.values h in
        let balanced =
          render-IsBalanced (length b.types.types) b.values (λ u info i. (s.sound u info i).1) v
            e in
        with_answer _ e (k x balanced)

    pub with_type_text :
        {ty : TypeRef} (next : Text × Builder → Outcome (A × Builder))
        → HasType b ty
        → ((x : Text) → IsBalanced x → Done b Q (next (x, b)))
        → Done b Q (Outcome.◌>>=◌ (Outcome.◌>>=◌ (TypeText.render b.types ty) λ a. ok (a, b)) next)
    with_type_text {ty = ty} next h k =
        let (x, e) = render_total b.types ty s.types h in
        with_answer _ e (k x (type-IsBalanced b.types s.names ty e))

    pub with_decl_text :
        {ty : TypeRef} (name : Text) (next : Text × Builder → Outcome (A × Builder))
        → HasType b ty
        → IsBalanced name
        → ((x : Text) → IsBalanced x → Done b Q (next (x, b)))
        → Done b Q (
            Outcome.◌>>=◌
              (Outcome.◌>>=◌ (TypeText.render_decl b.types ty name) λ a. ok (a, b))
              next)
    with_decl_text {ty = ty} name next h hn k =
        let (x, e) = render_decl_total b.types ty name s.types h in
        with_answer _ e (k x (render_decl-IsBalanced b.types s.names ty name hn e))

-- A change of the current function.
abbrev pub emits : Builder → CStmt → Builder
emits b stmt = change_function b λ f. Function.emit f b.current_bb stmt

abbrev pub declares : Builder → Text → Builder
declares b decl = change_function b λ f. Function.add_local_decl f decl

abbrev pub ends : Builder → Builder
ends b = change_function b λ f. Function.set_terminated f b.current_bb

pub emits-IsSound :
    {b : Builder} (stmt : CStmt) → IsSound b → StmtBalanced stmt → IsSound (emits b stmt)
emits-IsSound {b = b} stmt s h = change-IsSound b _ s λ f hf. record {
  balanced = emit-FunctionBalanced f b.current_bb stmt h hf.balanced;
  ret = unfold Function.emit in hf.ret;
  params = unfold Function.emit in hf.params;
  ret_data = unfold Function.emit in hf.ret_data;
  retbuf = unfold Function.emit in hf.retbuf;
}

pub declares-IsSound :
    {b : Builder} (decl : Text) → IsSound b → IsBalanced decl → IsSound (declares b decl)
declares-IsSound {b = b} decl s h = change-IsSound b _ s λ f hf. record {
  balanced = add_local_decl-FunctionBalanced f decl h hf.balanced;
  ret = unfold Function.add_local_decl in hf.ret;
  params = unfold Function.add_local_decl in hf.params;
  ret_data = unfold Function.add_local_decl in hf.ret_data;
  retbuf = unfold Function.add_local_decl in hf.retbuf;
}

pub ends-IsSound : {b : Builder} → IsSound b → IsSound (ends b)
ends-IsSound {b = b} s = change-IsSound b _ s λ f hf. record {
  balanced = set_terminated-FunctionBalanced f b.current_bb hf.balanced;
  ret = unfold Function.set_terminated in hf.ret;
  params = unfold Function.set_terminated in hf.params;
  ret_data = unfold Function.set_terminated in hf.ret_data;
  retbuf = unfold Function.set_terminated in hf.retbuf;
}
