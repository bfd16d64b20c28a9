-- ===== src/Remote/Failures.antt =====
-- internal/serverprotocol/client.go: the errors of an envelope (decodeServerResponse).
use talon_sdk_go.Base.{
  ℕ, LeaderHint, talon, arith, ◌≡◌, ◌⊎◌, inl, inr, refl, sym, subst, Bool, true, false, not, ◌&&◌,
  ◌||◌, Option, none, some, Bytes, Error, Result, ok, err, guard, ◌>>=◌, ◌>>◌, bytes_equal,
}
use talon_sdk_go.Native.{native_response_error}
use talon_sdk_go.Remote.{
  is_message, machine_code, code_text, term_value, some_term, leader_hint_of, violating, is_some,
  Envelope, Codec, violation, is_absent, null_text, succeeded, failed, judged, opened_envelope,
  is_violation, is_violation_code,
}

pub guarded_err {κ} :
    {B : Type κ} (test : Bool) (failure : Error) (next : Result B) {e : Error}
    → (guard test failure >> next) ≡ err e
    → (failure ≡ e) ⊎ ((test ≡ true) × (next ≡ err e))
guarded_err true failure next h = inr (refl, h)
guarded_err false failure next h = inl cc

pub bind_err {ℓ κ} :
    {A : Type ℓ} {B : Type κ} (first : Result A) (next : A → Result B) {e : Error}
    → (first >>= next) ≡ err e
    → (first ≡ err e) ⊎ ((a : A) × (first ≡ ok a) × (next a ≡ err e))
bind_err (ok a) next h = inr (a, refl, h)
bind_err (err f) next h = inl cc

-- The error that an envelope of failure holds: a message, no data, and the machine code, the term and the
-- hint of its fields, where a term or a hint stands beside a code only.
unfoldable pub IsFailure : Codec → Envelope → Error → Type 0
IsFailure codec envelope e =
    (envelope.is_ok ≡ some false)
    × (is_absent envelope.payload ≡ true)
    × (not (is_absent envelope.failure) && is_message (codec.text_of envelope.failure) ≡ true)
    × (code : Bytes) × (term : Option ℕ) × (hint : Option LeaderHint) × (machine_code codec
          envelope.code
        ≡ ok code)
    × (term_value codec envelope.term ≡ ok term)
    × (leader_hint_of codec envelope.leader_hint ≡ ok hint)
    × (not ((is_some term || is_some hint) && is_absent code) ≡ true)
    × (e ≡ talon (native_response_error code term hint))

pub err_inj : {A : Type 0} {d e : Error} → ◌≡◌ {A = Result A} (err d) (err e) → d ≡ e
err_inj h = cc

violation_of : (e : Error) → violation ≡ e → is_violation e ≡ true
unfolding is_violation is_violation_code
violation_of e same = subst (λ z. is_violation z ≡ true) same refl

succeeded_err :
    (require_data : Bool) (envelope : Envelope) (e : Error)
    → succeeded require_data envelope ≡ err e
    → is_violation e ≡ true
unfolding succeeded
succeeded_err require_data envelope e h =
    let bare =
      is_absent envelope.failure
      && is_absent envelope.code
      && is_absent envelope.term
      && is_absent envelope.leader_hint in
    let full =
      not
        (require_data && (is_absent envelope.payload || bytes_equal envelope.payload null_text)) in
    elim (guarded_err bare violation (guard full violation >> ok envelope.payload) h) [
      | inl same ↦ violation_of e same
      | inr (_, rest) ↦ elim (guarded_err full violation (ok envelope.payload) rest) [
        | inl same ↦ violation_of e same
        | inr (_, done) ↦ cc
      ]
    ]

machine_code_err :
    (codec : Codec) (raw : Bytes) (e : Error) → machine_code codec raw ≡ err e → violation ≡ e
unfolding machine_code code_text
machine_code_err codec raw e h = ground arith

term_value_err :
    (codec : Codec) (raw : Bytes) (e : Error) → term_value codec raw ≡ err e → violation ≡ e
unfolding term_value some_term
term_value_err codec raw e h = ground arith

violating_err : {A : Type 0} (r : Result A) (e : Error) → violating r ≡ err e → violation ≡ e
violating_err (ok a) e h = cc
violating_err (err d) e h = err_inj h

violating_back : {A : Type 0} (r : Result A) (a : A) → violating r ≡ ok a → r ≡ ok a
violating_back (ok b) a h = h
violating_back (err d) a h = cc

metadata :
    (codec : Codec) (envelope : Envelope) (e : Error)
    → ◌≡◌ {A = Result Bytes}
        (machine_code codec envelope.code >>= λ code. term_value codec envelope.term >>= λ term.
          violating (leader_hint_of codec envelope.leader_hint) >>= λ hint.
          guard (not ((is_some term || is_some hint) && is_absent code)) violation
          >> err (talon (native_response_error code term hint)))
        (err e)
    → is_violation e ≡ false
    → (code : Bytes) × (term : Option ℕ) × (hint : Option LeaderHint) × (machine_code codec
          envelope.code
        ≡ ok code)
      × (term_value codec envelope.term ≡ ok term)
      × (leader_hint_of codec envelope.leader_hint ≡ ok hint)
      × (not ((is_some term || is_some hint) && is_absent code) ≡ true)
      × (e ≡ talon (native_response_error code term hint))
metadata codec envelope e h clean = elim (bind_err (machine_code codec envelope.code) _ h) [
  | inl early ↦ cc (violation_of e (machine_code_err codec envelope.code e early), clean)
  | inr (code, coded, h1) ↦ elim (bind_err (term_value codec envelope.term) _ h1) [
    | inl early ↦ cc (violation_of e (term_value_err codec envelope.term e early), clean)
    | inr (term, termed, h2) ↦
        elim (bind_err (violating (leader_hint_of codec envelope.leader_hint)) _ h2) [
          | inl early ↦ cc (violation_of e (violating_err _ e early), clean)
          | inr (hint, hinted, h3) ↦
              elim (guarded_err (not ((is_some term || is_some hint) && is_absent code)) violation _
                h3) [
                  | inl same ↦ cc (violation_of e same, clean)
                  | inr (kept, made) ↦ (
                    code,
                    term,
                    hint,
                    coded,
                    termed,
                    violating_back _ hint hinted,
                    kept,
                    sym (err_inj made),
                  )
                ]
        ]
  ]
]

failed-IsFailure :
    (codec : Codec) (envelope : Envelope) (e : Error)
    → envelope.is_ok ≡ some false
    → failed codec envelope ≡ err e
    → is_violation e ≡ false
    → IsFailure codec envelope e
unfolding failed IsFailure
failed-IsFailure codec envelope e flag h clean =
    let never : violation ≡ e → IsFailure codec envelope e =
      λ same. unfold IsFailure in cc (violation_of e same, clean) in
    elim (guarded_err (is_absent envelope.payload) violation _ h) [
      | inl same ↦ never same
      | inr (bare, h1) ↦
          elim (guarded_err
            (not (is_absent envelope.failure) && is_message (codec.text_of envelope.failure))
            violation _ h1) [
              | inl same ↦ never same
              | inr (told, h2) ↦
                  let (code, term, hint, coded, termed, hinted, kept, same) =
                    metadata codec envelope e h2 clean in
                  (flag, bare, told, code, term, hint, coded, termed, hinted, kept, same)
            ]
    ]

judged_err :
    (codec : Codec) (require_data : Bool) (envelope : Envelope) (flag : Option Bool) (e : Error)
    → envelope.is_ok ≡ flag
    → judged codec require_data envelope flag ≡ err e
    → is_violation e ≡ false
    → IsFailure codec envelope e
unfolding judged
judged_err codec require_data envelope none e flag h clean = cc (violation_of e (err_inj h), clean)
judged_err codec require_data envelope (some true) e flag h clean =
    cc (succeeded_err require_data envelope e h, clean)
judged_err codec require_data envelope (some false) e flag h clean =
    failed-IsFailure codec envelope e flag h clean

pub opened_envelope_err :
    (codec : Codec) (require_data : Bool) (envelope : Option Envelope) (e : Error)
    → opened_envelope codec require_data envelope ≡ err e
    → is_violation e ≡ false
    → (found : Envelope) × (envelope ≡ some found) × IsFailure codec found e
unfolding opened_envelope
opened_envelope_err codec require_data none e h clean = cc (violation_of e (err_inj h), clean)
opened_envelope_err codec require_data (some envelope) e h clean =
    (envelope, refl, judged_err codec require_data envelope envelope.is_ok e refl h clean)
