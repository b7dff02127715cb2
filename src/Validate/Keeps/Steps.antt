-- ===== src/Validate/Keeps/Steps.antt =====
-- Lemmas about the steps that the operators share.
use wavm.Prelude.{ℕ, ◌≡◌, refl, Bool, true, false, List, arith, leb}
use wavm.Ir.Features.{Feature}
use wavm.Ir.Module.{Module, space_size, get_type-some, table_type, exception_type}
use wavm.Ir.Types.{ValueType, TableType, ExceptionType}
use wavm.Validate.Control as C
use wavm.Validate.Parametric as P
use wavm.Validate.Keeps.{Checks, Keeps, Keeps-bind, Keeps-pure, Keeps-lift}
use wavm.Validate.Keeps.Operands.{pop-Keeps}
use wavm.Validate.Keeps.References.{in_range-Checks}
use wavm.Validate.Result.{ValidationException, validate_unless, validate_feature, in_range}
use wavm.Validate.State.{ControlContext, Context, V, ◌>>=◌, ◌>>◌, lift}

feature-Checks :
    (m : Module) (f : Feature) → Checks (λ _. Unit {0}) (validate_feature m.feature_spec f)
feature-Checks m f = ground arith

unless-Checks : (e : ValidationException) (b : Bool) → Checks (λ _. b ≡ false) (validate_unless e b)
unless-Checks e true = tt
unless-Checks e false = refl

module _ (ctx : Context) (c : ControlContext) (cs : List ControlContext)
    (base : List ValueType) where
  abbrev pub Ok : V (Unit {0}) → Type 0
  Ok m = Keeps c cs base (λ _. Unit {0}) m

  pub feature-Keeps : (f : Feature) → Ok (C.feature ctx f)
  feature-Keeps f = Keeps-lift c cs base _ (feature-Checks ctx.ir f)

  -- A step whose value is used by the next, with nothing known of it.
  pub then_ :
      {A : Type 0} {m : V A} {f : A → V (Unit {0})}
      → Keeps c cs base (λ _. Unit {0}) m
      → ((a : A) → Ok (f a))
      → Ok (m >>= f)
  then_ h k = Keeps-bind c cs base h λ a _. k a

  -- After a `VALIDATE_UNLESS` its comparison is false.
  pub unless-Keeps :
      {A : Type 0} {P : A → Type 0} (e : ValidationException) (b : Bool) {m : V A}
      → (b ≡ false → Keeps c cs base P m)
      → Keeps c cs base P (lift (validate_unless e b) >> m)
  unless-Keeps e b h =
      Keeps-bind c cs base (Keeps-lift c cs base (validate_unless e b) (unless-Checks e b))
        λ _ low. h low

  pub drop-Keeps : (type : ValueType) → Ok (C.pop_ type)
  drop-Keeps type = then_ (pop-Keeps c cs base type) λ _. Keeps-pure c cs base tt tt

  pub table_at-Keeps : (i : ℕ) → Keeps c cs base (λ (_ : TableType). Unit {0}) (P.table_at ctx i)
  table_at-Keeps i =
      unless-Keeps ValidationException.invalid_index (leb (space_size ctx.ir.tables) i) λ low.
        let (t, e) = get_type-some (λ d. d) ctx.ir.tables i (ground arith) in
        Keeps-lift c cs base (in_range (table_type ctx.ir i)) (in_range-Checks t e)

  pub exception_type-Keeps :
      (i : ℕ) → Keeps c cs base (λ (_ : ExceptionType). Unit {0}) (C.exception_type_at ctx i)
  exception_type-Keeps i =
      unless-Keeps ValidationException.invalid_index (leb (space_size ctx.ir.exception_types) i)
        λ low.
          let (t, e) = get_type-some (λ d. d) ctx.ir.exception_types i (ground arith) in
          Keeps-lift c cs base (in_range (exception_type ctx.ir i)) (in_range-Checks t e)
