-- ===== src/Remote/Answers.antt =====
-- internal/serverprotocol/client.go: what an answer and an error of one exchange say.
use talon_sdk_go.Base.{
  ℕ, zero, ◌≤◌, guarded_ok, leb→le, arith, suc, ◌≡◌, ◌⊎◌, inl, inr, refl, sym, ap, ◌∙◌, subst, Bool,
  true, false, Option, none, some, [], ◌∷◌, take, Bytes, Error, Result, ok, err, guard, ◌>>=◌, ◌>>◌,
  leb, ◌==◌, ==_iff, length, Bool-cases,
}
use talon_sdk_go.Remote.{
  Client, Context, Outgoing, Response, Envelope, Codec, Call, indeterminate, transport_error,
  response_error, opened_envelope, decode_response, is_violation, settled,
}
use talon_sdk_go.Remote.Calls.{prepare, within_limit, read_body, receive, exchange, do_call}
use talon_sdk_go.Remote.Failures.{guarded_err, bind_err, IsFailure, err_inj, opened_envelope_err}

-- The server reported the error: the answer has status 200, a JSON media type and a body within the
-- limit, and that body is an envelope of failure with just this error, which is no violation.
unfoldable pub IsReported : Codec → ℕ → Option Response → Error → Type 0
IsReported codec limit answer e =
    (response : Response) × (answer ≡ some response)
    × (response.status ≡ 200)
    × (codec.is_json_type response.content_type ≡ true)
    × (within_limit response.content_length limit ≡ true)
    × (body : Bytes) × (response.body ≡ some body)
    × (length body ≤ limit)
    × (envelope : Envelope) × (codec.envelope_of body ≡ some envelope)
    × IsFailure codec envelope e
    × (is_violation e ≡ false)

pub ok_inj : {A : Type 0} {a b : A} → ok a ≡ ok b → a ≡ b
ok_inj h = cc

take_short : (n : ℕ) (bs : Bytes) → length (take (suc n) bs) ≤ n → take (suc n) bs ≡ bs
take_short n [] h = refl
take_short zero (b ∷ bs) h = let absurd : ⊥ = omega (arith, h) in elim absurd [ ]
take_short (suc n) (b ∷ bs) h = ap (λ l. b ∷ l) (take_short n bs (omega (arith, h)))

pub read_body-whole :
    (call : Call) (body : Option Bytes) (part : Bytes)
    → read_body call body ≡ ok part
    → (body ≡ some part) × (length part ≤ call.response_limit)
unfolding read_body
read_body-whole call none part h = cc
read_body-whole call (some body) part h =
    let data_read = take (suc call.response_limit) body in
    let (fits_limit, made) =
      guarded_ok (leb (length data_read) call.response_limit) (response_error call.possibly_applied)
        (ok data_read) h in
    let small = leb→le (length data_read) call.response_limit fits_limit in
    let whole = take_short call.response_limit body small in
    (
      ap some (sym whole ∙ ok_inj made),
      subst (λ l. length l ≤ call.response_limit) (ok_inj made) small,
    )

settled_cases :
    (made : Result Bytes) (e : Error)
    → settled true made ≡ err e
    → (indeterminate ≡ e) ⊎ ((made ≡ err e) × (is_violation e ≡ false))
unfolding settled response_error
settled_cases (ok payload) e h = cc
settled_cases (err d) e h = elim (Bool-cases (is_violation d)) [
  | inl bad ↦ inl (err_inj (rw bad at h))
  | inr clean ↦
      let same : err d ≡ err e = rw clean at h in
      inr (same, subst (λ z. is_violation z ≡ false) (err_inj same) clean)
]

-- An error of a decoded answer, where a write was possible.
settled_err :
    (codec : Codec) (require_data : Bool) (body : Bytes) (e : Error)
    → settled true (decode_response codec require_data body) ≡ err e
    → (indeterminate ≡ e)
      ⊎ ((envelope : Envelope) × (codec.envelope_of body ≡ some envelope)
          × IsFailure codec envelope e
          × (is_violation e ≡ false))
unfolding decode_response
settled_err codec require_data body e h =
    let made = opened_envelope codec require_data (codec.envelope_of body) in
    elim (settled_cases made e h) [
      | inl same ↦ inl same
      | inr (failure, clean) ↦
          let (envelope, read, reported) =
            opened_envelope_err codec require_data (codec.envelope_of body) e failure clean in
          inr (envelope, read, reported, clean)
    ]

unsure :
    (call : Call) (e : Error)
    → call.possibly_applied ≡ true
    → response_error call.possibly_applied ≡ e
    → indeterminate ≡ e
unfolding response_error
unsure call e possible same = sym (ap response_error possible) ∙ same

read_body_err :
    (call : Call) (body : Option Bytes) (e : Error)
    → read_body call body ≡ err e
    → response_error call.possibly_applied ≡ e
unfolding read_body
read_body_err call none e h = err_inj h
read_body_err call (some body) e h =
    let part = take (suc call.response_limit) body in
    elim (guarded_err (leb (length part) call.response_limit) (response_error call.possibly_applied)
      (ok part) h) [ inl same ↦ same | inr (_, done) ↦ cc ]

body_err :
    (codec : Codec) (call : Call) (body : Option Bytes) (e : Error)
    → call.possibly_applied ≡ true
    → (read_body call body >>= λ part.
        settled call.possibly_applied (decode_response codec call.require_data part))
      ≡ err e
    → (indeterminate ≡ e)
      ⊎ ((part : Bytes) × (body ≡ some part)
          × (length part ≤ call.response_limit)
          × (envelope : Envelope) × (codec.envelope_of part ≡ some envelope)
          × IsFailure codec envelope e
          × (is_violation e ≡ false))
body_err codec call body e possible h =
    elim (bind_err (read_body call body)
      (λ part. settled call.possibly_applied (decode_response codec call.require_data part)) h) [
        | inl unread ↦ inl (unsure call e possible (read_body_err call body e unread))
        | inr (part, taken, wrong) ↦
            let (whole, small) = read_body-whole call body part taken in
            let at =
              subst (λ flag. settled flag (decode_response codec call.require_data part) ≡ err e)
                possible wrong in
            elim (settled_err codec call.require_data part e at) [
              | inl same ↦ inl same
              | inr (envelope, read, reported, clean) ↦
                  inr (part, whole, small, envelope, read, reported, clean)
            ]
      ]

receive_err :
    (codec : Codec) (call : Call) (answer : Option Response) (e : Error)
    → call.possibly_applied ≡ true
    → receive codec call answer ≡ err e
    → (indeterminate ≡ e) ⊎ IsReported codec call.response_limit answer e
unfolding receive IsReported transport_error
receive_err codec call none e possible h = inl (sym (ap transport_error possible) ∙ err_inj h)
receive_err codec call (some response) e possible h =
    let lost = response_error call.possibly_applied in
    let rest = read_body call response.body >>= λ body.
    settled call.possibly_applied (decode_response codec call.require_data body) in
    let fits_limit = within_limit response.content_length call.response_limit in
    elim (guarded_err (response.status == 200) lost
      (guard (codec.is_json_type response.content_type) lost >> (guard fits_limit lost >> rest))
      h) [
        | inl same ↦ inl (unsure call e possible same)
        | inr (good, h1) ↦
            elim (guarded_err (codec.is_json_type response.content_type) lost
              (guard fits_limit lost >> rest) h1) [
                | inl same ↦ inl (unsure call e possible same)
                | inr (json, h2) ↦ elim (guarded_err fits_limit lost rest h2) [
                  | inl same ↦ inl (unsure call e possible same)
                  | inr (announced, h3) ↦ elim (body_err codec call response.body e possible h3) [
                    | inl same ↦ inl same
                    | inr (body, whole, small, envelope, read, reported, clean) ↦ inr (
                      response,
                      refl,
                      (==_iff response.status 200).0 good,
                      json,
                      announced,
                      body,
                      whole,
                      small,
                      envelope,
                      read,
                      reported,
                      clean,
                    )
                  ]
                ]
              ]
      ]

-- Where a request went out that may have been applied, its error says that the result is
-- indeterminate, or is the error that the server reported.
pub do_call_err :
    (codec : Codec) (server : Outgoing → Option Response) (client : Option Client)
    (context : Context) (call : Call) (request : Outgoing) (e : Error)
    → call.possibly_applied ≡ true
    → (do_call codec server client context call).sent ≡ request ∷ []
    → (do_call codec server client context call).result ≡ err e
    → (indeterminate ≡ e) ⊎ IsReported codec call.response_limit (server request) e
unfolding do_call exchange
do_call_err codec server client context call request e possible out h =
    exchange_err (prepare codec client context call) out h
  where
    exchange_err :
        (prepared : Result Outgoing)
        → (exchange codec server call prepared).sent ≡ request ∷ []
        → (exchange codec server call prepared).result ≡ err e
        → (indeterminate ≡ e) ⊎ IsReported codec call.response_limit (server request) e
    exchange_err (err failure) out h = cc
    exchange_err (ok made) out h =
        let same : made ≡ request = cc in
        subst (λ r. (indeterminate ≡ e) ⊎ IsReported codec call.response_limit (server r) e) same
          (receive_err codec call (server made) e possible h)
