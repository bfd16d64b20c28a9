-- ===== src/Remote/Sent.antt =====
-- internal/serverprotocol/client.go: what one exchange sends, and what its success says.
use talon_sdk_go.Base.{
  ◌≤◌, ◌≡◌, ◌⊎◌, inl, inr, refl, sym, ap, subst, true, Option, none, some, [], ◌∷◌, Bytes, Error,
  Result, ok, err, guard, ◌>>=◌, ◌>>◌, bind_ok, guarded_ok, then_ok, leb, leb→le, length,
  Bool-cases, Result-cases, arith,
}
use talon_sdk_go.Remote.{
  Client, Context, nil_context, ended_context, live_context, Outgoing, Response, Codec, Body,
  no_body, unencodable, encoded, Call, max_server_request_bytes, invalid, unavailable, configured,
}
use talon_sdk_go.Remote.Calls.{checked_context, checked_body, prepare, receive, exchange, do_call}
use talon_sdk_go.Remote.Failures.{guarded_err, bind_err, err_inj}

-- The request of a call, and what had to hold for it to go out.
unfoldable pub IsRequest : Codec → Option Client → Context → Call → Outgoing → Type 0
IsRequest codec client context call request =
    (c : Client) × (client ≡ some c)
    × (configured client ≡ true)
    × (context ≡ live_context)
    × (request.method ≡ call.method)
    × (request.endpoint ≡ call.endpoint)
    × (request.token ≡ c.token)
    × (length request.body ≤ max_server_request_bytes)

ok_inj : {A : Type 0} {a b : A} → ok a ≡ ok b → a ≡ b
ok_inj h = cc

live : (context : Context) → checked_context context ≡ ok tt → context ≡ live_context
unfolding checked_context
live nil_context h = cc
live ended_context h = cc
live live_context h = refl

body_bound :
    (body : Body) (made : Bytes)
    → checked_body body ≡ ok made
    → length made ≤ max_server_request_bytes
unfolding checked_body
body_bound no_body made h =
    subst (λ b. length b ≤ max_server_request_bytes) (ok_inj h) (omega arith)
body_bound unencodable made h = cc
body_bound (encoded body) made h = elim (Bool-cases (leb (length body) max_server_request_bytes)) [
  | inl small ↦
      let same : ok body ≡ ok made = rw small at h in
      subst (λ b. length b ≤ max_server_request_bytes) (ok_inj same)
        (leb→le (length body) max_server_request_bytes small)
  | inr large ↦ let wrong : err invalid ≡ ok made = rw large at h in cc
]

context_err :
    (context : Context) (e : Error)
    → checked_context context ≡ err e
    → (invalid ≡ e) ⊎ (unavailable ≡ e)
unfolding checked_context
context_err nil_context e h = inl (err_inj h)
context_err ended_context e h = inr (err_inj h)
context_err live_context e h = cc

body_err : (body : Body) (e : Error) → checked_body body ≡ err e → invalid ≡ e
unfolding checked_body
body_err no_body e h = cc
body_err unencodable e h = err_inj h
body_err (encoded body) e h = elim (Bool-cases (leb (length body) max_server_request_bytes)) [
  | inl small ↦ let wrong : ok body ≡ err e = rw small at h in cc
  | inr large ↦ err_inj (rw large at h)
]

prepare-IsRequest :
    (codec : Codec) (client : Option Client) (context : Context) (call : Call) (request : Outgoing)
    → prepare codec client context call ≡ ok request
    → IsRequest codec client context call request
unfolding prepare IsRequest
prepare-IsRequest codec none context call request h = cc
prepare-IsRequest codec (some c) context call request h =
    let (ready, h1) = guarded_ok (configured (some c)) unavailable _ h in
    let (lives, h2) = then_ok (checked_context context) _ h1 in
    let (body, made, h3) = bind_ok (checked_body call.body) _ h2 in
    let (_, h4) = guarded_ok (codec.is_request_url call.endpoint) invalid _ h3 in
    let same = ok_inj h4 in
    (
      c,
      refl,
      ready,
      live context lives,
      ap (λ (r : Outgoing). r.method) (sym same),
      ap (λ (r : Outgoing). r.endpoint) (sym same),
      ap (λ (r : Outgoing). r.token) (sym same),
      subst (λ (r : Outgoing). length r.body ≤ max_server_request_bytes) same
          (body_bound call.body body made),
    )

then_err :
    {B : Type 0} (first : Result (Unit {0})) (next : Result B) {e : Error}
    → (first >> next) ≡ err e
    → (first ≡ err e) ⊎ (next ≡ err e)
then_err (ok tt) next h = inr h
then_err (err f) next h = inl cc

prepare_err :
    (codec : Codec) (client : Option Client) (context : Context) (call : Call) (e : Error)
    → prepare codec client context call ≡ err e
    → (invalid ≡ e) ⊎ (unavailable ≡ e)
unfolding prepare
prepare_err codec none context call e h = inr (err_inj h)
prepare_err codec (some c) context call e h =
    let request : Bytes → Outgoing = λ body. record {
      method = call.method;
      endpoint = call.endpoint;
      body = body;
      token = c.token;
    } in
    let last : Bytes → Result Outgoing =
      λ body. guard (codec.is_request_url call.endpoint) invalid >> ok (request body) in
    elim (guarded_err (configured (some c)) unavailable
      (checked_context context >> (checked_body call.body >>= last)) h) [
        | inl same ↦ inr same
        | inr (_, h1) ↦
            elim (then_err (checked_context context) (checked_body call.body >>= last) h1) [
              | inl early ↦ context_err context e early
              | inr h2 ↦ elim (bind_err (checked_body call.body) last h2) [
                | inl early ↦ inl (body_err call.body e early)
                | inr (body, _, h3) ↦
                    elim (guarded_err (codec.is_request_url call.endpoint) invalid
                      (ok (request body)) h3) [ inl same ↦ inl same | inr (_, done) ↦ cc ]
              ]
            ]
      ]

-- A call sends nothing and fails as an invalid argument or as unavailable, or it sends one request,
-- with a configured client and a live context, to the endpoint of the call with the token of the
-- client, of at most 32 MiB, and returns what it makes of the answer.
pub do_call-IsRequest :
    (codec : Codec) (server : Outgoing → Option Response) (client : Option Client)
    (context : Context) (call : Call)
    → ((e : Error) × ((do_call codec server client context call).sent ≡ [])
        × ((do_call codec server client context call).result ≡ err e)
        × ((invalid ≡ e) ⊎ (unavailable ≡ e)))
      ⊎ ((request : Outgoing) × ((do_call codec server client context call).sent ≡ request ∷ [])
          × ((do_call codec server client context call).result
              ≡ receive codec call (server request))
          × IsRequest codec client context call request)
unfolding do_call exchange
do_call-IsRequest codec server client context call =
    elim (Result-cases (prepare codec client context call)) [
      | inl (e, bad) ↦
          inl (e, rw bad refl, rw bad refl, prepare_err codec client context call e bad)
      | inr (request, good) ↦ inr (
        request,
        rw good refl,
        rw good refl,
        prepare-IsRequest codec client context call request good,
      )
    ]
