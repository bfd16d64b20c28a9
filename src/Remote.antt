-- ===== src/Remote.antt =====
-- internal/serverprotocol/client.go: one HTTP exchange with a Talon Server (ServerClient.do), and the
-- envelope of its answer. A call returns the requests that went out beside its result.
pub mod Failures
pub mod Answers
pub mod Calls
pub mod Sent
pub mod Success
pub mod Mutations
mod Tests
use talon_sdk_go.Base.{
  ℕ, zero, suc, ◌+◌, ◌*◌, ◌^◌, Bool, true, false, not, ◌&&◌, ◌||◌, Option, none, some, List, [],
  ◌∷◌, take, Bytes, Error, ErrorCode, LeaderHint, talon, new_error, error_code_of, Result, ok, err,
  plain, guard, ◌>>=◌, ◌>>◌, ltb, leb, ◌==◌, if◌then◌else◌, length, codes, bytes_equal,
}
use talon_sdk_go.Native.{native_response_error}

abbrev pub max_server_request_bytes : ℕ
max_server_request_bytes = 33554432

abbrev pub max_server_response_bytes : ℕ
max_server_response_bytes = 16777216

-- ServerClient, where its HTTP client is there; a nil one is `none` below.
pub record Client : Type 0 where
  pub health_url : Bytes
  pub kv_url : Bytes
  pub storage_url : Bytes
  pub sql_url : Bytes
  pub token : Bytes

-- A context is nil, has ended, or lives.
pub data Context : Type 0 where
  nil_context ended_context live_context : Context

-- The request that goes out.
pub record Outgoing : Type 0 where
  pub method : Bytes
  pub endpoint : Bytes
  pub body : Bytes
  pub token : Bytes

-- What http.Client.Do answers: an error, or a response, with its body where it can be read.
pub record Response : Type 0 where
  pub status : ℕ
  pub content_type : Bytes
  pub content_length : Option ℕ
  pub body : Option Bytes

-- serverResponseEnvelope, with absent fields empty.
pub record Envelope : Type 0 where
  pub is_ok : Option Bool
  pub payload : Bytes
  pub failure : Bytes
  pub code : Bytes
  pub term : Bytes
  pub leader_hint : Bytes

-- The libraries that the client calls: the JSON decoder for each of its types (`none` is an error; the
-- term is also `none` where it is not present), the media type, TrimSpace, and http.NewRequest.
pub record Codec : Type 0 where
  pub envelope_of : Bytes → Option Envelope
  pub text_of : Bytes → Option Bytes
  pub term_of : Bytes → Option ℕ
  pub hint_of : Bytes → Option LeaderHint
  pub is_json_type : Bytes → Bool
  pub is_blank : Bytes → Bool
  pub is_request_url : Bytes → Bool

-- What one call of `do` is asked for; the body is absent, not encodable, or there.
pub data Body : Type 0 where
  no_body unencodable : Body
  encoded : Bytes → Body

pub record Call : Type 0 where
  pub method : Bytes
  pub endpoint : Bytes
  pub body : Body
  pub response_limit : ℕ
  pub possibly_applied : Bool
  pub require_data : Bool

abbrev pub violation : Error
violation = new_error ErrorCode.protocol_violation

abbrev pub invalid : Error
invalid = new_error ErrorCode.invalid_argument

abbrev pub unavailable : Error
unavailable = new_error ErrorCode.native_unavailable

abbrev pub indeterminate : Error
indeterminate = new_error ErrorCode.result_indeterminate

-- remoteTransportError, remoteResponseError
pub transport_error : Bool → Error
transport_error possibly_applied = if possibly_applied then indeterminate else unavailable

pub response_error : Bool → Error
response_error possibly_applied = if possibly_applied then indeterminate else violation

-- ServerClient.configured
pub configured : Option Client → Bool
configured none = false
configured (some c) =
    not (bytes_equal c.health_url [])
    && not (bytes_equal c.kv_url [])
    && not (bytes_equal c.storage_url [])
    && not (bytes_equal c.sql_url [])

abbrev pub null_text : Bytes
null_text = codes "null"

abbrev pub is_absent : Bytes → Bool
is_absent raw = length raw == 0

-- decodeNativeLeaderHint
pub address_blank : Codec → Option Bytes → Bool
address_blank codec none = true
address_blank codec (some address) = codec.is_blank address

pub checked_hint : Codec → Option LeaderHint → Result (Option LeaderHint)
checked_hint codec none = err plain
checked_hint codec (some hint) =
    if codec.is_blank hint.node_id || address_blank codec hint.address
    then err plain
    else ok (some hint)

pub leader_hint_of : Codec → Bytes → Result (Option LeaderHint)
leader_hint_of codec raw =
    if is_absent raw || bytes_equal raw null_text
    then ok none
    else checked_hint codec (codec.hint_of raw)

-- The message, the machine code and the term of a failed response.
pub is_message : Option Bytes → Bool
is_message none = false
is_message (some text) = not (is_absent text)

pub code_text : Option Bytes → Result Bytes
code_text none = err violation
code_text (some text) = if is_absent text then err violation else ok text

pub machine_code : Codec → Bytes → Result Bytes
machine_code codec raw = if is_absent raw then ok [] else code_text (codec.text_of raw)

pub some_term : Option ℕ → Result (Option ℕ)
some_term none = err violation
some_term (some term) = ok (some term)

pub term_value : Codec → Bytes → Result (Option ℕ)
term_value codec raw = if is_absent raw then ok none else some_term (codec.term_of raw)

abbrev pub is_some {ℓ} : {A : Type ℓ} → Option A → Bool
is_some none = false
is_some (some _) = true

-- Every error of a step is a violation of the protocol.
abbrev pub violating {ℓ} : {A : Type ℓ} → Result A → Result A
violating (ok a) = ok a
violating (err e) = err violation

-- The branches of decodeServerResponse on an envelope: success, and failure.
pub succeeded : Bool → Envelope → Result Bytes
succeeded require_data e = do
  guard (is_absent e.failure && is_absent e.code && is_absent e.term && is_absent e.leader_hint)
      violation
  guard (not (require_data && (is_absent e.payload || bytes_equal e.payload null_text))) violation
  ok e.payload

pub failed : Codec → Envelope → Result Bytes
failed codec e = do
  guard (is_absent e.payload) violation
  guard (not (is_absent e.failure) && is_message (codec.text_of e.failure)) violation
  code ← machine_code codec e.code
  term ← term_value codec e.term
  hint ← violating (leader_hint_of codec e.leader_hint)
  guard (not ((is_some term || is_some hint) && is_absent code)) violation
  err (talon (native_response_error code term hint))

pub judged : Codec → Bool → Envelope → Option Bool → Result Bytes
judged codec require_data e none = err violation
judged codec require_data e (some true) = succeeded require_data e
judged codec require_data e (some false) = failed codec e

pub opened_envelope : Codec → Bool → Option Envelope → Result Bytes
opened_envelope codec require_data none = err violation
opened_envelope codec require_data (some e) = judged codec require_data e e.is_ok

-- decodeServerResponse
pub decode_response : Codec → Bool → Bytes → Result Bytes
decode_response codec require_data body =
    opened_envelope codec require_data (codec.envelope_of body)

-- A violation of the protocol in an answer leaves a possible write indeterminate.
pub is_violation_code : ErrorCode → Bool
is_violation_code ErrorCode.protocol_violation = true
is_violation_code _ = false

pub is_violation : Error → Bool
is_violation (talon e) = is_violation_code e.code
is_violation plain = false

pub settled : Bool → Result Bytes → Result Bytes
settled possibly_applied (ok payload) = ok payload
settled possibly_applied (err e) =
    if is_violation e then err (response_error possibly_applied) else err e
