-- ===== src/Prelude/Results.antt =====
-- Go's `(value, error)` results, the errors of the program, and actions that may fail on a state
-- which they change also when they fail.
use Prim.Native.Nat.{ℕ}
use Prim.Native.String.{String}
use mathlib.Core.List.{List}
use mathlib.Core.Path.{◌≡◌, refl}
use openshift_capi_alicloud.Prelude.Tests.{ℤ}

-- The operands of a formatted message, which the model leaves unrendered.
pub data Operand : Type 0 where
  str : String → Operand
  num : ℕ → Operand
  int : ℤ → Operand
  strs : List String → Operand

-- sdkerrors.ServerError, of the Alibaba Cloud SDK: what the program reads of it.
pub record ServerError : Type 0 where
  pub error_code : String
  pub http_status : ℕ

-- An `error` that is not nil: the SDK's, the controller's terminalError, fmt.Errorf without and
-- with `%w`, and one made elsewhere.
pub data Error : Type 0 where
  server : ServerError → Error
  terminal : (reason format : String) → List Operand → Error
  errorf : (format : String) → List Operand → Error
  wrapped : (format : String) → List Operand → Error → Error
  foreign : String → Error

-- A message of a condition: text, fmt.Sprintf, or err.Error().
pub data Message : Type 0 where
  empty : Message
  sprintf : (format : String) → List Operand → Message
  of_error : Error → Message

pub data Result (A : Type 0) : Type 0 where
  ok : A → Result A
  err : Error → Result A

abbrev pub Action : Type 0 → Type 0 → Type 0
Action S A = S → Result A × S

abbrev pub and_then : {S A B : Type 0} → Result A × S → (A → Action S B) → Result B × S
and_then (ok a, s) f = f a s
and_then (err e, s) f = (err e, s)

infixl 5 ◌>>=◌ ◌>>◌
abbrev pub ◌>>=◌ : {S A B : Type 0} → Action S A → (A → Action S B) → Action S B
◌>>=◌ m f s = and_then (m s) f

abbrev pub ◌>>◌ : {S B : Type 0} → Action S (Unit {0}) → Action S B → Action S B
m >> k = m >>= λ _. k

abbrev pub return : {S A : Type 0} → A → Action S A
return a s = (ok a, s)

abbrev pub throw : {S A : Type 0} → Error → Action S A
throw e s = (err e, s)

-- A bind that succeeds has a first part that succeeds.
pub and_then-eq-ok :
    {S A B : Type 0} (r : Result A × S) (f : A → Action S B) {b : B} {t : S}
    → and_then r f ≡ (ok b, t)
    → (a : A) × (s : S) × (r ≡ (ok a, s)) × (f a s ≡ (ok b, t))
and_then-eq-ok (ok a, s) f h = (a, s, refl, h)
and_then-eq-ok (err e, s) f h = cc
