-- ===== src/Native/Codes.antt =====
-- errors.go and internal/serverprotocol/errors.go: the classes that `newNativeError` gives.
use talon_sdk_go.Base.{
  ◌≡◌, refl, ap, ◌∙◌, ◌↔◌, Bool, true, false, List, [], ◌∷◌, ◌++◌, take, drop, if◌then◌else◌, Bytes,
  ErrorCode, codes, bytes_equal, bytes_equal→eq, arith, Bool-cases, inl, inr, every, not, ◌&&◌,
  both_true,
}
use talon_sdk_go.Native.{
  server_native_error, embedded_native_error, embedded_codes, find_code, is_native_code,
  server_codes, is_lower, is_code_byte,
}

-- Codes that no case names give the class of a list without them.
skip_case :
    (text : Bytes) (class : ErrorCode) (cases : List (Bytes × ErrorCode)) (code : Bytes)
    → bytes_equal code text ≡ false
    → find_code ((text, class) ∷ cases) code ≡ find_code cases code
unfolding find_code
skip_case text class cases code h = ground arith

-- Nor does a later case that the code is not.
skip_later :
    (before : List (Bytes × ErrorCode)) (text : Bytes) (class : ErrorCode)
    (cases : List (Bytes × ErrorCode)) (code : Bytes)
    → bytes_equal code text ≡ false
    → find_code (before ++ (text, class) ∷ cases) code ≡ find_code (before ++ cases) code
unfolding find_code
skip_later [] text class cases code h = skip_case text class cases code h
skip_later ((other, kind) ∷ before) text class cases code h =
    unfold find_code in
    ap (λ later. if bytes_equal code other then kind else later)
      (skip_later before text class cases code h)

find_code-embedded :
    (code : Bytes)
    → bytes_equal code (codes "result_indeterminate") ≡ false
    → bytes_equal code (codes "deadline_exceeded") ≡ false
    → find_code embedded_codes code ≡ find_code server_codes code
find_code-embedded code h k =
    skip_later (take 1 embedded_codes) (codes "result_indeterminate") ErrorCode.result_indeterminate
      (drop 2 embedded_codes) code h
    ∙ skip_later (take 8 server_codes) (codes "deadline_exceeded") ErrorCode.native_timeout
        (drop 8 server_codes) code k

-- The switches of `newNativeError` in the embedded package and in the server package classify every
-- machine code alike but for "result_indeterminate" and "deadline_exceeded", of which only the embedded
-- package knows.
pub embedded_native_error-eq-server_native_error :
    (code : Bytes)
    → bytes_equal code (codes "result_indeterminate") ≡ false
    → bytes_equal code (codes "deadline_exceeded") ≡ false
    → embedded_native_error code ≡ server_native_error code
unfolding embedded_native_error server_native_error
embedded_native_error-eq-server_native_error code h k = rw (find_code-embedded code h k) refl

abbrev rest_of : List (Bytes × ErrorCode) → List (Bytes × ErrorCode)
rest_of [] = []
rest_of (_ ∷ cases) = cases

is_indeterminate : ErrorCode → Bool
is_indeterminate ErrorCode.result_indeterminate = true
is_indeterminate _ = false

all_certain : List (Bytes × ErrorCode) → Bool
all_certain [] = true
all_certain ((text, class) ∷ cases) = not (is_indeterminate class) && all_certain cases

other_cases :
    (cases : List (Bytes × ErrorCode)) (code : Bytes)
    → all_certain cases ≡ true
    → is_indeterminate (find_code cases code) ≡ false
unfolding all_certain is_indeterminate find_code
other_cases [] code h = refl
other_cases ((text, class) ∷ cases) code h =
    let (here, later) = both_true (not (is_indeterminate class)) _ h in
    let rest = other_cases cases code later in
    elim (Bool-cases (bytes_equal code text)) [
      | inl same ↦ rw same (ground (arith, here))
      | inr other ↦ rw other rest
    ]

abbrev other_codes : List (Bytes × ErrorCode)
other_codes = rest_of server_codes

not_uncertain :
    (code : Bytes)
    → bytes_equal code (codes "uncertain") ≡ false
    → is_indeterminate (server_native_error code).code ≡ false
unfolding server_native_error is_indeterminate
not_uncertain code h =
    let later : is_indeterminate (find_code server_codes code) ≡ false =
      ap is_indeterminate
        (skip_case (codes "uncertain") ErrorCode.result_indeterminate other_codes code h)
      ∙ other_cases other_codes code (unfold all_certain is_indeterminate in refl) in
    ground arith

indeterminate_class :
    (class : ErrorCode)
    → class ≡ ErrorCode.result_indeterminate
    → is_indeterminate class ≡ false
    → ⊥
unfolding is_indeterminate
indeterminate_class class e h = cc (ap is_indeterminate e)

uncertain_class : (server_native_error (codes "uncertain")).code ≡ ErrorCode.result_indeterminate
unfolding server_native_error find_code is_native_code is_lower is_code_byte bytes_equal every
uncertain_class = refl

-- `newNativeError` of the server package classifies a machine code as an indeterminate result just when
-- it is "uncertain".
pub server_native_error-uncertain :
    (code : Bytes)
    → ((server_native_error code).code ≡ ErrorCode.result_indeterminate)
      ↔ (code ≡ codes "uncertain")
server_native_error-uncertain code = (
  λ e. elim (Bool-cases (bytes_equal code (codes "uncertain"))) [
    | inl same ↦ bytes_equal→eq code (codes "uncertain") same
    | inr other ↦
        absurd (indeterminate_class (server_native_error code).code e (not_uncertain code other))
  ],
  λ e. ap (λ c. (server_native_error c).code) e ∙ uncertain_class,
)
