-- ===== src/Native.antt =====
-- errors.go, internal/serverprotocol/errors.go, native_manifest.go and talon.go: the machine codes
-- of native errors, and the gates that the attested capabilities of the loaded Core open.
pub mod Codes
pub mod Attested
pub mod Gates
mod Tests
use talon_sdk_go.Base.{
  ℕ, Bool, true, false, not, ◌&&◌, ◌||◌, Option, none, some, List, [], ◌∷◌, ◌++◌, Bytes, Result, ok,
  err, talon, Error, new_error, ErrorCode, TalonError, LeaderHint, ltb, leb, ◌==◌, if◌then◌else◌,
  length, codes, bytes_equal, every,
}

-- The pattern `^[a-z][a-z0-9_]{0,63}$`.
pub is_lower : ℕ → Bool
is_lower c = leb 97 c && leb c 122

pub is_code_byte : ℕ → Bool
is_code_byte c = is_lower c || (leb 48 c && leb c 57) || (c == 95)

pub is_native_code : Bytes → Bool
is_native_code [] = false
is_native_code (c ∷ cs) = is_lower c && every is_code_byte cs && leb (length cs) 63

-- The cases of a switch over strings, in their order.
pub find_code : List (Bytes × ErrorCode) → Bytes → ErrorCode
find_code [] code = ErrorCode.native_unclassified
find_code ((text, class) ∷ cases) code =
    let later = find_code cases code in if bytes_equal code text then class else later

-- The switches of newNativeError, of internal/serverprotocol and of the embedded package.
abbrev pub server_codes : List (Bytes × ErrorCode)
server_codes =
    (codes "uncertain", ErrorCode.result_indeterminate)
    ∷ (codes "conflict", ErrorCode.native_conflict)
    ∷ (codes "not_found", ErrorCode.native_not_found)
    ∷ (codes "not_leader", ErrorCode.native_not_leader)
    ∷ (codes "no_quorum", ErrorCode.native_no_quorum)
    ∷ (codes "unavailable", ErrorCode.native_unavailable)
    ∷ (codes "fenced", ErrorCode.native_fenced)
    ∷ (codes "timeout", ErrorCode.native_timeout)
    ∷ (codes "persistence_failed", ErrorCode.native_persistence)
    ∷ (codes "snapshot_not_available", ErrorCode.snapshot_not_available)
    ∷ (codes "corrupt_stream", ErrorCode.corrupt_stream)
    ∷ (codes "unsupported_version", ErrorCode.native_unsupported_version)
    ∷ (codes "invalid_namespace", ErrorCode.native_invalid_namespace)
    ∷ (codes "invalid_request", ErrorCode.native_invalid_request)
    ∷ (codes "request_too_large", ErrorCode.native_request_too_large)
    ∷ (codes "result_too_large", ErrorCode.native_result_too_large)
    ∷ (codes "cursor_mismatch", ErrorCode.native_cursor_mismatch)
    ∷ (codes "cursor_unavailable", ErrorCode.native_cursor_unavailable)
    ∷ (codes "resource_exhausted", ErrorCode.native_resource_exhausted)
    ∷ (codes "corrupt_state", ErrorCode.native_corrupt_state)
    ∷ (codes "storage_error", ErrorCode.native_storage)
    ∷ (codes "unsupported_action", ErrorCode.native_unsupported_action)
    ∷ (codes "not_configured", ErrorCode.native_not_configured)
    ∷ (codes "decimal_out_of_range", ErrorCode.native_decimal_out_of_range)
    ∷ []

abbrev pub embedded_codes : List (Bytes × ErrorCode)
embedded_codes =
    (codes "uncertain", ErrorCode.result_indeterminate)
    ∷ (codes "result_indeterminate", ErrorCode.result_indeterminate)
    ∷ (codes "conflict", ErrorCode.native_conflict)
    ∷ (codes "not_found", ErrorCode.native_not_found)
    ∷ (codes "not_leader", ErrorCode.native_not_leader)
    ∷ (codes "no_quorum", ErrorCode.native_no_quorum)
    ∷ (codes "unavailable", ErrorCode.native_unavailable)
    ∷ (codes "fenced", ErrorCode.native_fenced)
    ∷ (codes "timeout", ErrorCode.native_timeout)
    ∷ (codes "deadline_exceeded", ErrorCode.native_timeout)
    ∷ (codes "persistence_failed", ErrorCode.native_persistence)
    ∷ (codes "snapshot_not_available", ErrorCode.snapshot_not_available)
    ∷ (codes "corrupt_stream", ErrorCode.corrupt_stream)
    ∷ (codes "unsupported_version", ErrorCode.native_unsupported_version)
    ∷ (codes "invalid_namespace", ErrorCode.native_invalid_namespace)
    ∷ (codes "invalid_request", ErrorCode.native_invalid_request)
    ∷ (codes "request_too_large", ErrorCode.native_request_too_large)
    ∷ (codes "result_too_large", ErrorCode.native_result_too_large)
    ∷ (codes "cursor_mismatch", ErrorCode.native_cursor_mismatch)
    ∷ (codes "cursor_unavailable", ErrorCode.native_cursor_unavailable)
    ∷ (codes "resource_exhausted", ErrorCode.native_resource_exhausted)
    ∷ (codes "corrupt_state", ErrorCode.native_corrupt_state)
    ∷ (codes "storage_error", ErrorCode.native_storage)
    ∷ (codes "unsupported_action", ErrorCode.native_unsupported_action)
    ∷ (codes "not_configured", ErrorCode.native_not_configured)
    ∷ (codes "decimal_out_of_range", ErrorCode.native_decimal_out_of_range)
    ∷ []

abbrev pub invalid_code : TalonError
invalid_code = record {
  code = ErrorCode.protocol_violation;
  native_code = [];
  term = none;
  leader_hint = none;
}

abbrev pub classified : ErrorCode → Bytes → TalonError
classified class code = record { code = class; native_code = code; term = none; leader_hint = none }

-- newNativeError of internal/serverprotocol, and of the embedded package.
pub server_native_error : Bytes → TalonError
server_native_error code =
    if not (bytes_equal code []) && not (is_native_code code)
    then invalid_code
    else classified (find_code server_codes code) code

pub embedded_native_error : Bytes → TalonError
embedded_native_error code =
    if not (bytes_equal code []) && not (is_native_code code)
    then invalid_code
    else classified (find_code embedded_codes code) code

-- newNativeResponseError
pub native_response_error : Bytes → Option ℕ → Option LeaderHint → TalonError
native_response_error code term hint =
    let base = server_native_error code in
    record { code = base.code; native_code = base.native_code; term = term; leader_hint = hint }

-- NativeCapability, without the reason and the limits, which open no gate.
pub record Capability : Type 0 where
  pub name : Bytes
  pub version : ℕ
  pub status : Bytes

-- The part of NativeInfo that opens gates; the map of gates is its list of pairs.
pub record NativeInfo : Type 0 where
  pub features : List Bytes
  pub capabilities : List Capability
  pub gates : List (Bytes × Bytes)

abbrev pub available : Bytes
available = codes "available"

-- containsString
unfoldable pub contains_string : List Bytes → Bytes → Bool
contains_string [] expected = false
contains_string (value ∷ values) expected =
    bytes_equal value expected || contains_string values expected

-- The loop of RequireCapability over the capabilities.
unfoldable pub named_capability : List Capability → Bytes → Option Capability
named_capability [] wanted = none
named_capability (c ∷ cs) wanted =
    let later = named_capability cs wanted in if bytes_equal c.name wanted then some c else later

-- findNativeCapability
pub find_capability : List Capability → Bytes → ℕ → Option Capability
find_capability [] wanted version = none
find_capability (c ∷ cs) wanted version =
    let later = find_capability cs wanted version in
    if bytes_equal c.name wanted && (c.version == version) then some c else later

unfoldable pub find_gate : List (Bytes × Bytes) → Bytes → Option Bytes
find_gate [] wanted = none
find_gate ((name, status) ∷ gates) wanted =
    let later = find_gate gates wanted in if bytes_equal name wanted then some status else later

abbrev pub unavailable : Result (Unit {0})
unavailable = err (new_error ErrorCode.capability_unavailable)

-- requireConditionalSnapshotReadVersion
pub require_snapshot_read : NativeInfo → ℕ → Result (Unit {0})
require_snapshot_read info version =
    if not (version == 1) && not (version == 2)
    then unavailable
    else elim (find_capability info.capabilities (codes "storage_conditional_snapshot_read")
        version) [
          | none ↦ unavailable
          | some c ↦
              if bytes_equal c.status available
              then (if contains_string info.features (
                    if version == 1
                    then codes "storage_conditional_snapshot_read_v1"
                    else codes "storage_conditional_snapshot_read_v2")
                  then ok tt
                  else unavailable)
              else unavailable
        ]

-- The last tests of RequireCapability, on the capability that is attested as available.
unfoldable pub is_implemented : NativeInfo → Bytes → ℕ → Bool
is_implemented info name version =
    (bytes_equal name (codes "native_conditional_transaction_v2")
      && contains_string info.features name
      && contains_string info.features (codes "conditional_transaction_command_digest_v1"))
    || (bytes_equal name (codes "native_sql_context")
        && (version == 1)
        && contains_string info.features (codes "native_sql_context_v1"))
    || (bytes_equal name (codes "native_sql_session")
        && (version == 1)
        && contains_string info.features (codes "native_sql_session_v1"))
    || (bytes_equal name (codes "native_shared_core")
        && (version == 1)
        && contains_string info.features (codes "native_shared_core_v1"))
    || (bytes_equal name (codes "native_sql_result")
        && (version == 2)
        && contains_string info.features (codes "native_sql_result_v2"))
    || (bytes_equal name (codes "native_kv_read")
        && (version == 1)
        && contains_string info.features (codes "native_kv_read_v1"))
    || (bytes_equal name (codes "storage_conditional_point_read")
        && (version == 1)
        && contains_string info.features (codes "storage_conditional_point_read_v1"))
    || (bytes_equal name (codes "revision_stream")
        && (version == 2)
        && contains_string info.features (codes "revision_stream_v1")
        && contains_string info.features (codes "revision_stream_v2_mmr_proof"))

-- The entry of the map of gates, and then the rest of RequireCapability.
unfoldable pub is_gated : NativeInfo → Bytes → Bool
is_gated info name = elim (find_gate info.gates name) [
  | none ↦ false
  | some status ↦ not (bytes_equal status available)
]

unfoldable pub require_named : NativeInfo → Bytes → Result (Unit {0})
require_named info name = elim (named_capability info.capabilities name) [
  | none ↦ unavailable
  | some c ↦
      if not (bytes_equal c.status available)
      then unavailable
      else if is_implemented info name c.version
      then ok tt
      else unavailable
]

unfoldable pub require_capability : NativeInfo → Bytes → Result (Unit {0})
require_capability info name =
    if is_gated info name
    then unavailable
    else if bytes_equal name (codes "storage_conditional_batch_v1")
    then unavailable
    else if bytes_equal name (codes "storage_conditional_snapshot_read_v2")
    then require_snapshot_read info 2
    else if bytes_equal name (codes "storage_conditional_snapshot_read")
    then require_snapshot_read info 1
    else require_named info name
