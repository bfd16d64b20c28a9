-- ===== src/Remote/Success.antt =====
-- internal/serverprotocol/client.go: the answers that one exchange accepts.
use talon_sdk_go.Base.{
  ℕ, zero, suc, ◌≤◌, ◌≡◌, ◌↔◌, refl, sym, ap, ◌∙◌, subst, Bool, true, false, not, ◌&&◌, ◌||◌,
  Option, none, some, [], ◌∷◌, take, Bytes, talon, Result, ok, err, bind_ok, guarded_ok, leb, ◌==◌,
  ==_iff, length, bytes_equal, Bool-cases, inl, inr, arith,
}
use talon_sdk_go.Remote.{
  Response, Envelope, Codec, Call, violation, is_absent, null_text, response_error, succeeded,
  failed, judged, opened_envelope, decode_response, settled, is_violation, is_some, is_message,
  machine_code, term_value, leader_hint_of, violating,
}
use talon_sdk_go.Native.{native_response_error}
use talon_sdk_go.Remote.Calls.{within_limit, read_body, receive}
use talon_sdk_go.Remote.Answers.{ok_inj, read_body-whole}

-- An answer that the call may take its payload from.
unfoldable pub IsAnswer : Codec → Call → Option Response → Bytes → Type 0
IsAnswer codec call answer payload =
    (response : Response) × (answer ≡ some response)
    × (response.status ≡ 200)
    × (codec.is_json_type response.content_type ≡ true)
    × (within_limit response.content_length call.response_limit ≡ true)
    × (body : Bytes) × (response.body ≡ some body)
    × (length body ≤ call.response_limit)
    × (envelope : Envelope) × (codec.envelope_of body ≡ some envelope)
    × (envelope.is_ok ≡ some true)
    × ((is_absent envelope.failure
          && is_absent envelope.code
          && is_absent envelope.term
          && is_absent envelope.leader_hint)
        ≡ true)
    × (not (call.require_data && (is_absent payload || bytes_equal payload null_text)) ≡ true)
    × (envelope.payload ≡ payload)

settled_ok :
    (possibly_applied : Bool) (r : Result Bytes) (payload : Bytes)
    → settled possibly_applied r ≡ ok payload
    → r ≡ ok payload
unfolding settled
settled_ok possibly_applied (ok p) payload h = h
settled_ok possibly_applied (err e) payload h = elim (Bool-cases (is_violation e)) [
  | inl bad ↦ let wrong : err (response_error possibly_applied) ≡ ok payload = rw bad at h in cc
  | inr clean ↦ let wrong : err e ≡ ok payload = rw clean at h in cc
]

failed_never :
    (codec : Codec) (envelope : Envelope) (payload : Bytes) → failed codec envelope ≡ ok payload → ⊥
unfolding failed
failed_never codec envelope payload h =
    let (_, h1) = guarded_ok (is_absent envelope.payload) violation _ h in
    let (_, h2) =
      guarded_ok (not (is_absent envelope.failure) && is_message (codec.text_of envelope.failure))
        violation _ h1 in
    let (code, _, h3) = bind_ok (machine_code codec envelope.code) _ h2 in
    let (term, _, h4) = bind_ok (term_value codec envelope.term) _ h3 in
    let (hint, _, h5) = bind_ok (violating (leader_hint_of codec envelope.leader_hint)) _ h4 in
    let (_, h6) =
      guarded_ok (not ((is_some term || is_some hint) && is_absent code)) violation
        (err (talon (native_response_error code term hint))) h5 in
    cc h6

judged_ok :
    (codec : Codec) (require_data : Bool) (envelope : Envelope) (flag : Option Bool)
    (payload : Bytes)
    → envelope.is_ok ≡ flag
    → judged codec require_data envelope flag ≡ ok payload
    → (envelope.is_ok ≡ some true) × (succeeded require_data envelope ≡ ok payload)
unfolding judged
judged_ok codec require_data envelope none payload flag h = cc
judged_ok codec require_data envelope (some true) payload flag h = (flag, h)
judged_ok codec require_data envelope (some false) payload flag h =
    elim (failed_never codec envelope payload h) [ ]

opened_envelope_ok :
    (codec : Codec) (require_data : Bool) (envelope : Option Envelope) (payload : Bytes)
    → opened_envelope codec require_data envelope ≡ ok payload
    → (found : Envelope) × (envelope ≡ some found)
      × (found.is_ok ≡ some true)
      × (succeeded require_data found ≡ ok payload)
unfolding opened_envelope
opened_envelope_ok codec require_data none payload h = cc
opened_envelope_ok codec require_data (some envelope) payload h =
    let (flag, made) = judged_ok codec require_data envelope envelope.is_ok payload refl h in
    (envelope, refl, flag, made)

receive-IsAnswer :
    (codec : Codec) (call : Call) (answer : Option Response) (payload : Bytes)
    → receive codec call answer ≡ ok payload
    → IsAnswer codec call answer payload
unfolding receive IsAnswer decode_response succeeded
receive-IsAnswer codec call none payload h = cc
receive-IsAnswer codec call (some response) payload h =
    let lost = response_error call.possibly_applied in
    let (good, h1) = guarded_ok (response.status == 200) lost _ h in
    let (json, h2) = guarded_ok (codec.is_json_type response.content_type) lost _ h1 in
    let (announced, h3) =
      guarded_ok (within_limit response.content_length call.response_limit) lost _ h2 in
    let (body, whole, h4) = bind_ok (read_body call response.body) _ h3 in
    let (there, small) = read_body-whole call response.body body whole in
    let made =
      settled_ok call.possibly_applied (decode_response codec call.require_data body) payload h4 in
    let (envelope, read, flag, succeeds) =
      opened_envelope_ok codec call.require_data (codec.envelope_of body) payload made in
    let (bare, h5) =
      guarded_ok
        (is_absent envelope.failure
          && is_absent envelope.code
          && is_absent envelope.term
          && is_absent envelope.leader_hint)
        violation _ succeeds in
    let (full, h6) =
      guarded_ok
        (not (
          call.require_data
          && (is_absent envelope.payload || bytes_equal envelope.payload null_text)))
        violation (ok envelope.payload) h5 in
    let same = ok_inj h6 in
    (
      response,
      refl,
      (==_iff response.status 200).0 good,
      json,
      announced,
      body,
      there,
      small,
      envelope,
      read,
      flag,
      bare,
      subst (λ p. not (call.require_data && (is_absent p || bytes_equal p null_text)) ≡ true) same
          full,
      same,
    )

take_whole : (n : ℕ) (bs : Bytes) → length bs ≤ n → take (suc n) bs ≡ bs
take_whole n [] h = refl
take_whole zero (b ∷ bs) h = let absurd : ⊥ = omega (arith, h) in elim absurd [ ]
take_whole (suc n) (b ∷ bs) h = ap (λ l. b ∷ l) (take_whole n bs (omega (arith, h)))

read_small :
    (call : Call) (body : Bytes)
    → length body ≤ call.response_limit
    → read_body call (some body) ≡ ok body
unfolding read_body
read_small call body h =
    let whole = take_whole call.response_limit body h in
    let small : leb (length body) call.response_limit ≡ true = ground (arith, h) in
    rw whole (rw small refl)

decode_success :
    (codec : Codec) (require_data : Bool) (body payload : Bytes) (envelope : Envelope)
    → codec.envelope_of body ≡ some envelope
    → envelope.is_ok ≡ some true
    → (is_absent envelope.failure
        && is_absent envelope.code
        && is_absent envelope.term
        && is_absent envelope.leader_hint)
      ≡ true
    → not (require_data && (is_absent envelope.payload || bytes_equal envelope.payload null_text))
      ≡ true
    → envelope.payload ≡ payload
    → decode_response codec require_data body ≡ ok payload
unfolding decode_response opened_envelope judged succeeded
decode_success codec require_data body payload envelope read flag bare full same =
    rw read (rw flag (rw bare (rw full (ap ok same))))

IsAnswer-receive :
    (codec : Codec) (call : Call) (answer : Option Response) (payload : Bytes)
    → IsAnswer codec call answer payload
    → receive codec call answer ≡ ok payload
unfolding receive IsAnswer settled
IsAnswer-receive codec call answer payload a =
    let (
      response, there, good, json, announced, body, whole, small, envelope, read, flag, bare, full,
      same,
    ) =
      a in
    let status : (response.status == 200) ≡ true = (==_iff response.status 200).1 good in
    let has_data =
      subst (λ p. not (call.require_data && (is_absent p || bytes_equal p null_text)) ≡ true)
        (sym same) full in
    let decoded =
      decode_success codec call.require_data body payload envelope read flag bare has_data same in
    let taken = ap (read_body call) whole ∙ read_small call body small in
    rw there (rw status (rw json (rw announced (rw taken (rw decoded refl)))))

-- The call takes a payload from an answer exactly where the answer is a response with status 200, a
-- JSON media type, no announced length above the limit, and a body within the limit that is an
-- envelope of success with that payload, without error metadata, and, where data are required, with a
-- payload that is neither absent nor null.
pub receive-iff-IsAnswer :
    (codec : Codec) (call : Call) (answer : Option Response) (payload : Bytes)
    → (receive codec call answer ≡ ok payload) ↔ IsAnswer codec call answer payload
receive-iff-IsAnswer codec call answer payload =
    (receive-IsAnswer codec call answer payload, IsAnswer-receive codec call answer payload)
