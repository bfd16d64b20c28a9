-- ===== src/Base/Errors.antt =====
-- errors.go and internal/serverprotocol/errors.go: the error envelope, as a result type.
-- The operation, the message and the cause of an error are diagnostic text that no code reads
-- back, so they are left out; a wrapped error (`%w`) is the error that `errors.As` finds in it.
use Prim.Native.Nat.{ℕ}
use mathlib.Core.Path.{◌≡◌, refl}
use mathlib.Core.Logic.{◌⊎◌, inl, inr}
use mathlib.Core.Bool.{Bool, true, false}
use mathlib.Core.List.{[]}
use mathlib.Core.Option.{Option, none, some}
use talon_sdk_go.Base.Octets.{Bytes}

pub data ErrorCode : Type 0 where
  invalid_argument database_closed native_verification native_load : ErrorCode
  protocol_violation native_unclassified capability_unavailable : ErrorCode
  result_indeterminate native_conflict native_not_found native_not_leader : ErrorCode
  native_no_quorum native_unavailable native_fenced native_timeout : ErrorCode
  native_persistence snapshot_not_available corrupt_stream : ErrorCode
  native_unsupported_version native_invalid_namespace native_invalid_request : ErrorCode
  native_request_too_large native_result_too_large native_cursor_mismatch : ErrorCode
  native_cursor_unavailable native_resource_exhausted native_corrupt_state : ErrorCode
  native_storage native_unsupported_action native_not_configured : ErrorCode
  native_decimal_out_of_range : ErrorCode

-- NativeLeaderHint; an address that is nil is `none`.
pub record LeaderHint : Type 0 where
  pub node_id : Bytes
  pub address : Option Bytes

-- TalonError.
pub record TalonError : Type 0 where
  pub code : ErrorCode
  pub native_code : Bytes
  pub term : Option ℕ
  pub leader_hint : Option LeaderHint

-- A Go error is a TalonError, or one that `errors.New` or `fmt.Errorf` made.
pub data Error : Type 0 where
  talon : TalonError → Error
  plain : Error

pub data Result {ℓ} (A : Type ℓ) : Type ℓ where
  ok : A → Result A
  err : Error → Result A

-- `if err != nil { return err }` between the steps of a function.
infixl 5 ◌>>=◌ ◌>>◌
abbrev pub ◌>>=◌ {ℓ κ} : {A : Type ℓ} {B : Type κ} → Result A → (A → Result B) → Result B
ok value >>= next = next value
err failure >>= next = err failure

-- `if !test { return failure }`
abbrev pub guard : Bool → Error → Result (Unit {0})
guard test failure = elim test [ true ↦ ok tt | false ↦ err failure ]

abbrev pub ◌>>◌ {κ} : {B : Type κ} → Result (Unit {0}) → Result B → Result B
ok tt >> next = next
err failure >> next = err failure

-- newError
abbrev pub new_error : ErrorCode → Error
new_error c = talon (record { code = c; native_code = []; term = none; leader_hint = none })

-- ErrorCodeOf; `none` is the empty code.
abbrev pub error_code_of : Error → Option ErrorCode
error_code_of (talon e) = some e.code
error_code_of plain = none

abbrev pub is_ok {ℓ} : {A : Type ℓ} → Result A → Bool
is_ok (ok a) = true
is_ok (err e) = false

-- Both steps of a chain that ended well, with the value between them.
pub bind_ok {ℓ κ} :
    {A : Type ℓ} {B : Type κ} (first : Result A) (next : A → Result B) {out : B}
    → (first >>= next) ≡ ok out
    → (value : A) × (first ≡ ok value) × (next value ≡ ok out)
bind_ok (err failure) next h = cc
bind_ok (ok value) next h = (value, refl, h)

pub guard_ok :
    (test : Bool) (failure : Error) {u : Unit {0}} → guard test failure ≡ ok u → test ≡ true
guard_ok true failure h = refl
guard_ok false failure h = cc

pub Result-cases {ℓ} :
    {A : Type ℓ} (r : Result A) → ((e : Error) × (r ≡ err e)) ⊎ ((a : A) × (r ≡ ok a))
Result-cases (err e) = inl (e, refl)
Result-cases (ok a) = inr (a, refl)

-- A chain that ended well passed its test.
pub guarded_ok {κ} :
    {B : Type κ} (test : Bool) (failure : Error) (next : Result B) {out : B}
    → (guard test failure >> next) ≡ ok out
    → (test ≡ true) × (next ≡ ok out)
guarded_ok true failure next h = (refl, h)
guarded_ok false failure next h = cc

pub then_ok {κ} :
    {B : Type κ} (first : Result (Unit {0})) (next : Result B) {out : B}
    → (first >> next) ≡ ok out
    → (first ≡ ok tt) × (next ≡ ok out)
then_ok (ok tt) next h = (refl, h)
then_ok (err e) next h = cc
