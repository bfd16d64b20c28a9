-- ===== src/Remote/Calls.antt =====
-- internal/serverprotocol/client.go: ServerClient.do, and the methods that call it.
use talon_sdk_go.Base.{
  ℕ, suc, Bool, true, false, not, ◌&&◌, Option, none, some, List, [], ◌∷◌, take, Bytes, Error,
  Result, ok, err, guard, ◌>>=◌, ◌>>◌, leb, ◌==◌, if◌then◌else◌, length, codes, every,
}
use talon_sdk_go.Base.Utf8.{valid_utf8}
use talon_sdk_go.Conditional.Results.{Optional, absent, null, value}
use talon_sdk_go.Remote.{
  Client, Context, nil_context, ended_context, live_context, Outgoing, Response, Codec, Body,
  no_body, unencodable, encoded, Call, max_server_request_bytes, max_server_response_bytes,
  violation, invalid, unavailable, indeterminate, transport_error, response_error, configured,
  decode_response, settled, violating,
}

-- What a call leaves: the requests that went out, and its result.
pub record CallOutcome {ℓ} (A : Type ℓ) : Type ℓ where
  pub sent : List Outgoing
  pub result : Result A

-- An error with nothing sent.
abbrev pub unsent {ℓ} : {A : Type ℓ} → Error → CallOutcome A
unsent failure = record { sent = []; result = err failure }

unfoldable pub checked_context : Context → Result (Unit {0})
checked_context nil_context = err invalid
checked_context ended_context = err unavailable
checked_context live_context = ok tt

unfoldable pub checked_body : Body → Result Bytes
checked_body no_body = ok []
checked_body unencodable = err invalid
checked_body (encoded body) =
    if leb (length body) max_server_request_bytes then ok body else err invalid

-- The checks of `do` in front of the exchange, with the request that they make.
unfoldable pub prepare : Codec → Option Client → Context → Call → Result Outgoing
prepare codec none context call = err unavailable
prepare codec (some client) context call = do
  guard (configured (some client)) unavailable
  checked_context context
  body ← checked_body call.body
  guard (codec.is_request_url call.endpoint) invalid
  ok (record { method = call.method; endpoint = call.endpoint; body = body; token = client.token })

unfoldable pub within_limit : Option ℕ → ℕ → Bool
within_limit none limit = true
within_limit (some announced) limit = leb announced limit

-- The body that is read, one byte above the limit at most.
unfoldable pub read_body : Call → Option Bytes → Result Bytes
read_body call none = err (response_error call.possibly_applied)
read_body call (some body) = do
  let data_read = take (suc call.response_limit) body
  guard (leb (length data_read) call.response_limit) (response_error call.possibly_applied)
  ok data_read

-- What `do` makes of the answer.
unfoldable pub receive : Codec → Call → Option Response → Result Bytes
receive codec call none = err (transport_error call.possibly_applied)
receive codec call (some response) = do
  guard (response.status == 200) (response_error call.possibly_applied)
  guard (codec.is_json_type response.content_type) (response_error call.possibly_applied)
  guard (within_limit response.content_length call.response_limit)
      (response_error call.possibly_applied)
  body ← read_body call response.body
  settled call.possibly_applied (decode_response codec call.require_data body)

unfoldable pub exchange :
    Codec → (Outgoing → Option Response) → Call → Result Outgoing → CallOutcome Bytes
exchange codec server call (err failure) = unsent failure
exchange codec server call (ok request) = record {
  sent = request ∷ [];
  result = receive codec call (server request);
}

-- ServerClient.do
unfoldable pub do_call :
    Codec → (Outgoing → Option Response) → Option Client → Context → Call → CallOutcome Bytes
do_call codec server client context call =
    exchange codec server call (prepare codec client context call)

-- A step behind a call: the requests stay sent.
abbrev pub then_read {ℓ κ} :
    {A : Type ℓ} {B : Type κ} → CallOutcome A → (A → Result B) → CallOutcome B
then_read outcome next = record { sent = outcome.sent; result = outcome.result >>= next }

-- The parameters of a command; those of a transaction are its wire form.
pub data Params : Type 0 where
  set_params : Bytes → Bytes → Option ℕ → Params
  key_params : Bytes → Params
  batch_params : Bytes → Params

-- marshalWithoutHTMLEscape of a serverCommand, and the fields of the answers.
pub record Encoding : Type 0 where
  pub encode : Bytes → Bytes → Params → Body
  pub flag_of : Bytes → Bytes → Option Bool
  pub field_of : Bytes → Optional Bytes
  pub text_field : Bytes → Option Bytes

abbrev pub max_server_kv_key_bytes : ℕ
max_server_kv_key_bytes = 4096

abbrev pub max_server_kv_value_bytes : ℕ
max_server_kv_value_bytes = 8388608

-- validateServerKV
unfoldable pub is_text : Bytes → Bool
is_text text = valid_utf8 text && every (λ c. not (c == 0)) text

unfoldable pub valid_value : Option Bytes → Bool
valid_value none = true
valid_value (some text) = leb (length text) max_server_kv_value_bytes && is_text text

unfoldable pub validate_kv : Bytes → Option Bytes → Result (Unit {0})
validate_kv key text = do
  guard (not (length key == 0) && leb (length key) max_server_kv_key_bytes && is_text key) invalid
  guard (valid_value text) invalid

module _ (codec : Codec) (encoding : Encoding) (server : Outgoing → Option Response) where
  -- ServerClient.kv and ServerClient.storage
  unfoldable pub kv_call : Client → Bytes → Params → Bool → Bool → Call
  kv_call client action params possibly_applied require_data = record {
    method = codes "POST";
    endpoint = client.kv_url;
    body = encoding.encode (codes "kv") action params;
    response_limit = max_server_response_bytes;
    possibly_applied = possibly_applied;
    require_data = require_data;
  }

  unfoldable pub kv : Option Client → Context → Bytes → Params → Bool → Bool → CallOutcome Bytes
  kv none context action params possibly_applied require_data = unsent unavailable
  kv (some client) context action params possibly_applied require_data =
      do_call codec server (some client) context
        (kv_call client action params possibly_applied require_data)

  unfoldable pub storage_call : Client → Bytes → Params → Bool → Call
  storage_call client action params possibly_applied = record {
    method = codes "POST";
    endpoint = client.storage_url;
    body = encoding.encode (codes "storage") action params;
    response_limit = max_server_response_bytes;
    possibly_applied = possibly_applied;
    require_data = true;
  }

  unfoldable pub storage : Option Client → Context → Bytes → Params → Bool → CallOutcome Bytes
  storage none context action params possibly_applied = unsent unavailable
  storage (some client) context action params possibly_applied =
      do_call codec server (some client) context
        (storage_call client action params possibly_applied)

  -- Behind validateServerKV.
  abbrev pub checked {ℓ} : {A : Type ℓ} → Result (Unit {0}) → CallOutcome A → CallOutcome A
  checked (ok _) outcome = outcome
  checked (err failure) outcome = unsent failure

  -- The Boolean of an answer, where its absence is an error.
  unfoldable pub read_flag : Bytes → Error → Bytes → Result Bool
  read_flag name failure payload = elim (encoding.flag_of name payload) [
    | none ↦ err failure
    | some flag ↦ ok flag
  ]

  -- KvSet, KvSetNX, KvDel and KvExists
  unfoldable pub kv_set : Option Client → Context → Bytes → Bytes → Option ℕ → CallOutcome Bytes
  kv_set client context key text ttl =
      checked (validate_kv key (some text))
        (kv client context (codes "set") (set_params key text ttl) true false)

  unfoldable pub kv_set_nx : Option Client → Context → Bytes → Bytes → Option ℕ → CallOutcome Bool
  kv_set_nx client context key text ttl = checked (validate_kv key (some text)) (
      then_read (kv client context (codes "setnx") (set_params key text ttl) true true)
        (read_flag (codes "set") indeterminate))

  unfoldable pub kv_del : Option Client → Context → Bytes → CallOutcome Bool
  kv_del client context key = checked (validate_kv key none) (
      then_read (kv client context (codes "del") (key_params key) true true)
        (read_flag (codes "deleted") indeterminate))

  unfoldable pub remote_exists : Option Client → Context → Bytes → CallOutcome Bool
  remote_exists client context key = checked (validate_kv key none) (
      then_read (kv client context (codes "exists") (key_params key) false true)
        (read_flag (codes "exists") violation))

  -- KvGet; an absent value is `none`.
  unfoldable pub got_text : Bytes → Option Bytes → Result (Option Bytes)
  got_text key none = err violation
  got_text key (some text) = do violating (validate_kv key (some text)); ok (some text)

  unfoldable pub read_got : Bytes → Optional Bytes → Result (Option Bytes)
  read_got key absent = err violation
  read_got key null = ok none
  read_got key (value raw) = got_text key (encoding.text_field raw)

  unfoldable pub remote_get : Option Client → Context → Bytes → CallOutcome (Option Bytes)
  remote_get client context key = checked (validate_kv key none) (
      then_read (kv client context (codes "get") (key_params key) false true)
        (λ payload. read_got key (encoding.field_of payload)))

  -- ExecuteConditionalTransaction behind buildClosedConditionalRequest, with the wire form of the
  -- request and the decoder of its result.
  unfoldable pub read_transaction {ℓ} : {A : Type ℓ} → (Bytes → Result A) → Bytes → Result A
  read_transaction decode payload = elim (decode payload) [
    | ok a ↦ ok a
    | err _ ↦ err indeterminate
  ]

  unfoldable pub execute_transaction {ℓ} :
      {A : Type ℓ} → Option Client → Context → Result Bytes → (Bytes → Result A) → CallOutcome A
  execute_transaction client context (err failure) decode = unsent failure
  execute_transaction client context (ok wire) decode =
      then_read (storage client context (codes "conditional_batch") (batch_params wire) true)
        (read_transaction decode)
