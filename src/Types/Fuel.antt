-- ===== src/Types/Fuel.antt =====
-- src/types.rs: more fuel does not change what `render` returns, so the bound on it only says
-- when the recursion of the source ends.
use rustc_codegen_c.Prelude.{ℕ, zero, suc, ◌+◌, ◌≡◌, ap, ◌∙◌, List, [], ◌∷◌, arith, none, some}
use rustc_codegen_c.Prelude.Text.{Text}
use rustc_codegen_c.Prelude.Outcome.{Outcome, ok, traverse, >>=-eq-ok}
use rustc_codegen_c.Types.Kind.{TypeRef, CTypeKind, array, struct, function}
use rustc_codegen_c.Types.Store.{TypeStore, get}
use rustc_codegen_c.Types.Render.{render_kind, render_fuel}

-- `g` returns whatever `f` returns.
abbrev pub Extends : (TypeRef → Outcome Text) → (TypeRef → Outcome Text) → Type 0
Extends f g = (t : TypeRef) (x : Text) → f t ≡ ok x → g t ≡ ok x

pub traverse-Extends :
    (f g : TypeRef → Outcome Text) (ts : List TypeRef) {xs : List Text}
    → Extends f g
    → traverse f ts ≡ ok xs
    → traverse g ts ≡ ok xs
unfolding traverse
traverse-Extends f g [] e h = h
traverse-Extends f g (t ∷ ts) e h =
    let (x, hx, h') = >>=-eq-ok (f t) _ h in
    let (ys, hys, h'') = >>=-eq-ok (traverse f ts) _ h' in
    rw (e t x hx) (rw (traverse-Extends f g ts e hys) h'')

-- A round of `render` returns the same with a recursive call that returns more often.
pub render_kind-Extends :
    (f g : TypeRef → Outcome Text) (ty : TypeRef) (k : CTypeKind) {x : Text}
    → Extends f g
    → render_kind f ty k ≡ ok x
    → render_kind g ty k ≡ ok x
unfolding render_kind
render_kind-Extends f g ty (array element len) e h =
    let (x, hx, h') = >>=-eq-ok (f element) _ h in rw (e element x hx) h'
render_kind-Extends f g ty (function ret args variadic) e h =
    let (xs, hxs, h') = >>=-eq-ok (traverse f args) _ h in
    let (x, hx, h'') = >>=-eq-ok (f ret) _ h' in
    rw (traverse-Extends f g args e hxs) (rw (e ret x hx) h'')
render_kind-Extends f g ty (struct fields packed none) e h = h
render_kind-Extends f g ty (struct fields packed (some name)) e h = h
render_kind-Extends f g ty _ e h = h

render_fuel-suc : (f : ℕ) (s : TypeStore) → Extends (render_fuel f s) (render_fuel (suc f) s)
unfolding render_fuel
render_fuel-suc zero s t x h = cc
render_fuel-suc (suc f) s t x h =
    let (k, hk, h') = >>=-eq-ok (get s t) _ h in
    rw hk (render_kind-Extends _ _ t k (render_fuel-suc f s) h')

-- What `render` returns on some fuel it returns on any larger fuel.
pub render_fuel_mono :
    (d f : ℕ) (s : TypeStore) (t : TypeRef) {x : Text}
    → render_fuel f s t ≡ ok x
    → render_fuel (d + f) s t ≡ ok x
render_fuel_mono zero f s t h = ap (λ n. render_fuel n s t) (omega arith) ∙ h
render_fuel_mono (suc d) f s t {x} h =
    ap (λ n. render_fuel n s t) (omega arith)
    ∙ render_fuel-suc (d + f) s t x (render_fuel_mono d f s t h)
