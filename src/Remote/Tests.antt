-- ===== src/Remote/Tests.antt =====
-- internal/serverprotocol/client.go: witnesses, with concrete functions in the place of the libraries.
use talon_sdk_go.Base.{
  ◌≡◌, ◌⊎◌, ◌↔◌, refl, true, false, [], ◌∷◌, every, bytes_equal, Option, none, some, Error, ok, err,
  codes,
}
use talon_sdk_go.Base.Utf8.{valid_utf8}
use talon_sdk_go.Conditional.Results.{absent}
use talon_sdk_go.Remote.{
  max_server_response_bytes, Client, live_context, Outgoing, Response, Envelope, Codec, Call,
  no_body, encoded, indeterminate, invalid, unavailable, transport_error, configured,
  decode_response, opened_envelope, judged, succeeded, settled,
}
use talon_sdk_go.Remote.Calls.{
  Encoding, prepare, checked_context, checked_body, within_limit, read_body, receive, exchange,
  do_call, kv, kv_call, kv_del, validate_kv, valid_value, is_text,
}
use talon_sdk_go.Remote.Answers.{IsReported}
use talon_sdk_go.Remote.Sent.{IsRequest, do_call-IsRequest}
use talon_sdk_go.Remote.Success.{IsAnswer, receive-iff-IsAnswer}
use talon_sdk_go.Remote.Mutations.{delete_write, write_outcome, write_outcome-IsReported}

abbrev client : Client
client = record {
  health_url = codes "h";
  kv_url = codes "k";
  storage_url = codes "s";
  sql_url = codes "q";
  token = codes "t";
}

abbrev success : Envelope
success = record {
  is_ok = some true;
  payload = codes "1";
  failure = [];
  code = [];
  term = [];
  leader_hint = [];
}

abbrev codec : Codec
codec = record {
  envelope_of = λ body. some success;
  text_of = λ raw. some raw;
  term_of = λ raw. none;
  hint_of = λ raw. none;
  is_json_type = λ media. true;
  is_blank = λ text. false;
  is_request_url = λ url. true;
}

abbrev encoding : Encoding
encoding = record {
  encode = λ command action params. encoded action;
  flag_of = λ name payload. none;
  field_of = λ payload. absent;
  text_field = λ raw. some raw;
}

abbrev answer : Response
answer = record { status = 200; content_type = []; content_length = none; body = some (codes "{}") }

-- A server that answers, and one that breaks the connection.
abbrev answering : Outgoing → Option Response
answering request = some answer

abbrev silent : Outgoing → Option Response
silent request = none

abbrev call : Call
call = record {
  method = codes "GET";
  endpoint = codes "h";
  body = no_body;
  response_limit = 10;
  possibly_applied = false;
  require_data = true;
}

abbrev deletion : Outgoing
deletion = record {
  method = codes "POST";
  endpoint = codes "k";
  body = codes "del";
  token = codes "t";
}

deletion-sent :
    (write_outcome codec encoding silent (some client) live_context (delete_write (codes "a"))).sent
    ≡ deletion ∷ []
unfolding write_outcome kv_del kv kv_call validate_kv valid_value is_text valid_utf8 every do_call
    exchange prepare checked_context checked_body configured bytes_equal
deletion-sent = refl

deletion-lost :
    (write_outcome codec encoding silent
      (some client)
      live_context
      (delete_write (codes "a"))).result
    ≡ err indeterminate
unfolding write_outcome kv_del kv kv_call validate_kv valid_value is_text valid_utf8 every do_call
    exchange prepare checked_context checked_body configured bytes_equal receive transport_error
deletion-lost = refl

write_outcome-IsReported_example :
    (indeterminate ≡ indeterminate) ⊎ IsReported codec max_server_response_bytes none indeterminate
write_outcome-IsReported_example =
    write_outcome-IsReported codec encoding silent (some client) live_context
      (delete_write (codes "a")) deletion indeterminate deletion-sent deletion-lost

do_call-IsRequest_example :
    ((e : Error) × ((do_call codec answering (some client) live_context call).sent ≡ [])
      × ((do_call codec answering (some client) live_context call).result ≡ err e)
      × ((invalid ≡ e) ⊎ (unavailable ≡ e)))
    ⊎ ((request : Outgoing) × ((do_call codec answering (some client) live_context call).sent
          ≡ request ∷ [])
        × ((do_call codec answering (some client) live_context call).result
            ≡ receive codec call (answering request))
        × IsRequest codec (some client) live_context call request)
do_call-IsRequest_example = do_call-IsRequest codec answering (some client) live_context call

receive-iff-IsAnswer_example :
    (receive codec call (some answer) ≡ ok (codes "1"))
    ↔ IsAnswer codec call (some answer) (codes "1")
receive-iff-IsAnswer_example = receive-iff-IsAnswer codec call (some answer) (codes "1")

-- The answer is taken.
receive_success : receive codec call (some answer) ≡ ok (codes "1")
unfolding receive within_limit read_body settled decode_response opened_envelope judged succeeded
    bytes_equal
receive_success = refl
