-- ===== src/Builder/RealTests.antt =====
-- src/builder.rs: what the comparisons of floats compute in C, against the predicates of rustc.
use rustc_codegen_c.Prelude.{
  ◌≡◌, refl, Bool, true, false, not, ◌&&◌, ◌||◌, Option, none, some, Bool-cases, inl, inr, ap,
  subst, arith,
}
use rustc_codegen_c.Prelude.Int.{ℤ, ltb_ℤ, leb_ℤ, eq_ℤ}
use rustc_codegen_c.Prelude.Text.{Text}
use rustc_codegen_c.CAst.Op.{CBinOp, CUnaryOp}
use rustc_codegen_c.CAst.Expr.{CExpr}
use rustc_codegen_c.Builder.Compare.{RealPredicate, RealTest, real_test}

-- A float, as far as comparisons tell floats apart: NaN, or a number on a scale.
pub data Real : Type 0 where
  nan : Real
  number : ℤ → Real

abbrev pub is_number : Real → Bool
is_number Real.nan = false
is_number (Real.number x) = true

-- A comparison that does not hold of NaN.
abbrev ordered : (ℤ → ℤ → Bool) → Real → Real → Bool
ordered f (Real.number x) (Real.number y) = f x y
ordered f _ _ = false

abbrev unordered : Real → Real → Bool
unordered (Real.number x) (Real.number y) = false
unordered _ _ = true

-- The meaning of the predicates in LLVM: the ordered ones do not hold where an operand is NaN, the
-- unordered ones do.
unfoldable pub holds : RealPredicate → Real → Real → Bool
holds RealPredicate.real_predicate_false x y = false
holds RealPredicate.real_oeq x y = ordered eq_ℤ x y
holds RealPredicate.real_ogt x y = ordered (λ a b. ltb_ℤ b a) x y
holds RealPredicate.real_oge x y = ordered (λ a b. leb_ℤ b a) x y
holds RealPredicate.real_olt x y = ordered ltb_ℤ x y
holds RealPredicate.real_ole x y = ordered leb_ℤ x y
holds RealPredicate.real_one x y = ordered (λ a b. not (eq_ℤ a b)) x y
holds RealPredicate.real_ord x y = not (unordered x y)
holds RealPredicate.real_uno x y = unordered x y
holds RealPredicate.real_ueq x y = unordered x y || ordered eq_ℤ x y
holds RealPredicate.real_ugt x y = unordered x y || ordered (λ a b. ltb_ℤ b a) x y
holds RealPredicate.real_uge x y = unordered x y || ordered (λ a b. leb_ℤ b a) x y
holds RealPredicate.real_ult x y = unordered x y || ordered ltb_ℤ x y
holds RealPredicate.real_ule x y = unordered x y || ordered leb_ℤ x y
holds RealPredicate.real_une x y = unordered x y || ordered (λ a b. not (eq_ℤ a b)) x y
holds RealPredicate.real_predicate_true x y = true

-- C's comparison operators: only `!=` holds of NaN.
abbrev compare_in_c : CBinOp → Real → Real → Option Bool
compare_in_c CBinOp.eq x y = some (ordered eq_ℤ x y)
compare_in_c CBinOp.ne x y = some (not (ordered eq_ℤ x y))
compare_in_c CBinOp.lt x y = some (ordered ltb_ℤ x y)
compare_in_c CBinOp.le x y = some (ordered leb_ℤ x y)
compare_in_c CBinOp.gt x y = some (ordered (λ a b. ltb_ℤ b a) x y)
compare_in_c CBinOp.ge x y = some (ordered (λ a b. leb_ℤ b a) x y)
compare_in_c _ x y = none

abbrev both : (Bool → Bool → Bool) → Option Bool → Option Bool → Option Bool
both f (some p) (some q) = some (f p q)
both f _ _ = none

abbrev negated : Option Bool → Option Bool
negated none = none
negated (some p) = some (not p)

-- What C computes for a test on variables: comparisons, their negations, and `&&` and `||` of them.
unfoldable pub eval : (Text → Real) → CExpr → Option Bool
eval env (CExpr.bin_op (CExpr.var l) op (CExpr.var r)) = compare_in_c op (env l) (env r)
eval env (CExpr.bin_op p CBinOp.log_and q) =
    let x = eval env p in let y = eval env q in both (λ a b. a && b) x y
eval env (CExpr.bin_op p CBinOp.log_or q) =
    let x = eval env p in let y = eval env q in both (λ a b. a || b) x y
eval env (CExpr.unary_op CUnaryOp.log_not p) = negated (eval env p)
eval env _ = none

unfoldable pub eval_test : (Text → Real) → RealTest → Option Bool
eval_test env (RealTest.constant value) = some value
eval_test env (RealTest.test expr) = eval env expr

-- The predicates that say the same of numbers.
abbrev pub is_exact : RealPredicate → Bool
is_exact RealPredicate.real_one = false
is_exact RealPredicate.real_ueq = false
is_exact RealPredicate.real_ugt = false
is_exact RealPredicate.real_uge = false
is_exact RealPredicate.real_ult = false
is_exact RealPredicate.real_ule = false
is_exact _ = true

number_eq : (x : ℤ) → eq_ℤ x x ≡ true
number_eq x = ground arith

une_lem :
    (x y : Real) → not (ordered eq_ℤ x y) ≡ (unordered x y || ordered (λ a b. not (eq_ℤ a b)) x y)
une_lem Real.nan y = refl
une_lem (Real.number a) Real.nan = refl
une_lem (Real.number a) (Real.number b) = refl

uno_lem : (x y : Real) → (not (ordered eq_ℤ x x) || not (ordered eq_ℤ y y)) ≡ unordered x y
uno_lem Real.nan y = refl
uno_lem (Real.number a) Real.nan = rw (number_eq a) refl
uno_lem (Real.number a) (Real.number b) = rw (number_eq a, number_eq b) refl

ord_lem :
    (x y : Real)
    → (not (not (ordered eq_ℤ x x)) && not (not (ordered eq_ℤ y y))) ≡ not (unordered x y)
ord_lem Real.nan y = refl
ord_lem (Real.number a) Real.nan = rw (number_eq a) refl
ord_lem (Real.number a) (Real.number b) = rw (number_eq a, number_eq b) refl

inexact_agrees :
    (op : RealPredicate) (env : Text → Real) (l r : Text) (a b : ℤ)
    → env l ≡ Real.number a
    → env r ≡ Real.number b
    → is_exact op ≡ false
    → eval_test env (real_test op l r) ≡ some (holds op (Real.number a) (Real.number b))
unfolding eval_test eval real_test holds
inexact_agrees RealPredicate.real_one env l r a b ex ey h = rw (ex, ey) refl
inexact_agrees RealPredicate.real_ueq env l r a b ex ey h = rw (ex, ey) refl
inexact_agrees RealPredicate.real_ugt env l r a b ex ey h = rw (ex, ey) refl
inexact_agrees RealPredicate.real_uge env l r a b ex ey h = rw (ex, ey) refl
inexact_agrees RealPredicate.real_ult env l r a b ex ey h = rw (ex, ey) refl
inexact_agrees RealPredicate.real_ule env l r a b ex ey h = rw (ex, ey) refl
inexact_agrees _ env l r a b ex ey h = cc

inexact_cases :
    (op : RealPredicate) (env : Text → Real) (l r : Text) (x y : Real)
    → env l ≡ x
    → env r ≡ y
    → is_exact op ≡ false
    → (is_number x && is_number y) ≡ true
    → eval_test env (real_test op l r) ≡ some (holds op x y)
inexact_cases op env l r (Real.number a) (Real.number b) ex ey h n =
    inexact_agrees op env l r a b ex ey h
inexact_cases op env l r Real.nan y ex ey h n = cc
inexact_cases op env l r (Real.number a) Real.nan ex ey h n = cc

exact_agrees :
    (op : RealPredicate) (env : Text → Real) (l r : Text)
    → is_exact op ≡ true
    → eval_test env (real_test op l r) ≡ some (holds op (env l) (env r))
unfolding eval_test eval real_test holds
exact_agrees RealPredicate.real_une env l r h = ap {B = Option Bool} some (une_lem (env l) (env r))
exact_agrees RealPredicate.real_uno env l r h = ap {B = Option Bool} some (uno_lem (env l) (env r))
exact_agrees RealPredicate.real_ord env l r h = ap {B = Option Bool} some (ord_lem (env l) (env r))
exact_agrees RealPredicate.real_oeq env l r h = refl
exact_agrees RealPredicate.real_ogt env l r h = refl
exact_agrees RealPredicate.real_oge env l r h = refl
exact_agrees RealPredicate.real_olt env l r h = refl
exact_agrees RealPredicate.real_ole env l r h = refl
exact_agrees RealPredicate.real_predicate_false env l r h = refl
exact_agrees RealPredicate.real_predicate_true env l r h = refl
exact_agrees _ env l r h = cc

-- The C expression that a comparison of floats is written as computes what the predicate says, NaN
-- included, for the predicates `oeq`, `ogt`, `oge`, `olt`, `ole`, `une`, `ord`, `uno`, true and
-- false; for the others it does where no operand is NaN.
pub real_test-holds :
    (op : RealPredicate) (env : Text → Real) (l r : Text)
    → (is_exact op || (is_number (env l) && is_number (env r))) ≡ true
    → eval_test env (real_test op l r) ≡ some (holds op (env l) (env r))
real_test-holds op env l r h = elim (Bool-cases (is_exact op)) [
  | inl e ↦ exact_agrees op env l r e
  | inr e ↦
      inexact_cases op env l r (env l) (env r) refl refl e
        (subst (λ p. (p || (is_number (env l) && is_number (env r))) ≡ true) e h)
]

-- For the predicates `one`, `ueq`, `ugt`, `uge`, `ult` and `ule`, the C expression computes the
-- opposite of what the predicate says where the left operand is NaN.
pub real_test_on_nan :
    (op : RealPredicate) (env : Text → Real) (l r : Text)
    → env l ≡ Real.nan
    → is_exact op ≡ false
    → eval_test env (real_test op l r) ≡ some (not (holds op (env l) (env r)))
unfolding eval_test eval real_test holds
real_test_on_nan RealPredicate.real_one env l r e h = rw e refl
real_test_on_nan RealPredicate.real_ueq env l r e h = rw e refl
real_test_on_nan RealPredicate.real_ugt env l r e h = rw e refl
real_test_on_nan RealPredicate.real_uge env l r e h = rw e refl
real_test_on_nan RealPredicate.real_ult env l r e h = rw e refl
real_test_on_nan RealPredicate.real_ule env l r e h = rw e refl
real_test_on_nan _ env l r e h = cc
