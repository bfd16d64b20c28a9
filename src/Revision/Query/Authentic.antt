-- ===== src/Revision/Query/Authentic.antt =====
-- revision_stream.go: the entries of a page against the events of the stream.
use talon_sdk_go.Base.{
  ℕ, ◌^◌, ◌<◌, ◌≡◌, ◌⊎◌, inl, inr, refl, sym, ap, ◌∙◌, subst, List, [], ◌∷◌, ◌++◌, reverse,
  reverse-reverse, Option, none, some, Bytes, ok, plain, bind_ok, guarded_ok, append_inj, length,
  codes, bytes_equal, bytes_equal→eq, Bool-cases, arith,
}
use talon_sdk_go.Base.Int.{ℤ, pos, negsuc}
use talon_sdk_go.Base.Words.{put_le, get_le, get_le-put_le}
use talon_sdk_go.Revision.{
  Peak, InclusionProof, hex_text, unhex, put_be, decode_digest, content_digest, head_root,
  merkle_leaf, verify_inclusion,
}
use talon_sdk_go.Revision.Digests.{
  IsDigest, length-decode_digest, hex_text-decode_digest, length-put_be, decode_digest-unhex,
}
use talon_sdk_go.Revision.Range.{mountain_range}
use talon_sdk_go.Revision.Collisions.{
  Clash, Collides, Collides-append_left, Collides-append_right, stream_input, stream_hash_inj,
}
use talon_sdk_go.Revision.Inclusion.{inclusion_pairs, verify_inclusion-mountain_range}
use talon_sdk_go.Revision.Query.{
  to_uint64, Head, RevisionRange, Entry, QueryProof, QueryRequest, QueryPage,
}
use talon_sdk_go.Revision.Query.Checks.{head_peaks}
use talon_sdk_go.Revision.Query.Verify.{check_digests, verify_entry, check_entries}
use talon_sdk_go.Revision.Query.Pages.{Continuation, accept_page}
use talon_sdk_go.Revision.Query.Entries.{entry_step}
use talon_sdk_go.Revision.Query.Continuations.{some_inj}
use talon_sdk_go.Revision.Query.Acceptance.{accept_page-Accepted}

-- An event of a stream: the root in front of it, its time as a word, and its payload.
pub record Event : Type 0 where
  pub previous_root : Bytes
  pub occurred : ℕ
  pub payload : Bytes

unfoldable pub IsEvent : Entry → Event → Type 0
IsEvent e event =
    (e.payload ≡ event.payload)
    × (to_uint64 e.occurred_at ≡ event.occurred)
    × (e.previous_root_sha256 ≡ hex_text event.previous_root)

put_be_inj : (k a b : ℕ) → a < 256 ^ k → b < 256 ^ k → put_be k a ≡ put_be k b → a ≡ b
unfolding put_be
put_be_inj k a b h j e =
    let words : put_le k a ≡ put_le k b =
      sym (reverse-reverse (put_le k a)) ∙ (ap reverse e ∙ reverse-reverse (put_le k b)) in
    sym (get_le-put_le k a h) ∙ (ap get_le words ∙ get_le-put_le k b j)

to_uint64-bound : (t : ℤ) → to_uint64 t < 256 ^ 8
unfolding to_uint64
to_uint64-bound (pos n) = omega arith
to_uint64-bound (negsuc n) = omega arith

ok_inj : {a b : Bytes} → ok a ≡ ok b → a ≡ b
ok_inj h = cc

module _ (sha256 : Bytes → Bytes) (digests : (bs : Bytes) → IsDigest (sha256 bs))
    (stream_id : Bytes) (events : ℕ → Event)
    (roots : (r : ℕ) → length (events r).previous_root ≡ 32)
    (words : (r : ℕ) → (events r).occurred < 256 ^ 8) where
  abbrev contents : ℕ → Bytes
  contents r =
      content_digest sha256 stream_id (events r).previous_root r (events r).occurred
        (sha256 (events r).payload)

  -- The peaks over the events.
  abbrev pub event_peaks : ℕ → List Peak
  event_peaks n =
      mountain_range sha256 stream_id (λ r. merkle_leaf sha256 stream_id r (contents r)) n

  same_payload : (p q : Bytes) → sha256 p ≡ sha256 q → (p ≡ q) ⊎ Clash sha256 p q
  same_payload p q e = elim (Bool-cases (bytes_equal p q)) [
    | inl same ↦ inl (bytes_equal→eq p q same)
    | inr differ ↦ inr (differ, e)
  ]

  -- What a content digest of the stream is made of.
  abbrev content_input : Bytes → ℕ → ℕ → Bytes → Bytes
  content_input previous r time payload =
      stream_input (codes "TALON_REVISION_STREAM_CONTENT_V2") stream_id
        (previous ++ (put_be 8 r ++ (put_be 8 time ++ sha256 payload)))

  -- The inputs that the check of an entry hashes for its event and its inclusion proof, each beside the
  -- input of the event of its revision, or of the tree over the first n events, in its place.
  abbrev event_pairs : Bytes → Bytes → ℕ → ℕ → List (Bytes × Bytes)
  event_pairs previous payload time r =
      (
        content_input previous r time payload,
        content_input (events r).previous_root r (events r).occurred (events r).payload,
      )
      ∷ (payload, (events r).payload)
      ∷ []

  abbrev entry_pairs : ℕ → Entry → InclusionProof → List (Bytes × Bytes)
  entry_pairs n e inclusion =
      let previous = unhex e.previous_root_sha256 in
      let time = to_uint64 e.occurred_at in
      event_pairs previous e.payload time e.revision
      ++ inclusion_pairs sha256 stream_id contents n e.revision
          (content_digest sha256 stream_id previous e.revision time (sha256 e.payload)) inclusion

  unfoldable pub page_pairs : ℕ → List Entry → List InclusionProof → List (Bytes × Bytes)
  page_pairs n [] proofs = []
  page_pairs n (e ∷ es) [] = []
  page_pairs n (e ∷ es) (inclusion ∷ proofs) = entry_pairs n e inclusion ++ page_pairs n es proofs

  -- The proofs of the entries of a page.
  abbrev pub proofs_of : Option QueryProof → List InclusionProof
  proofs_of none = []
  proofs_of (some proof) = proof.entry_proofs

  content_digest_inj :
      (previous payload : Bytes) (time r : ℕ)
      → length previous ≡ 32
      → time < 256 ^ 8
      → content_digest sha256 stream_id previous r time (sha256 payload) ≡ contents r
      → ((previous ≡ (events r).previous_root)
          × (time ≡ (events r).occurred)
          × (payload ≡ (events r).payload))
        ⊎ Collides sha256 (event_pairs previous payload time r)
  unfolding content_digest
  content_digest_inj previous payload time r size word e =
      elim (stream_hash_inj sha256 stream_id (codes "TALON_REVISION_STREAM_CONTENT_V2") _ _ e) [
        | inl same ↦
            let (roots_same, tail) =
              append_inj previous (events r).previous_root _ _ (size ∙ sym (roots r)) same in
            let (_, timed) = append_inj (put_be 8 r) (put_be 8 r) _ _ refl tail in
            let (times, hashes) =
              append_inj (put_be 8 time) (put_be 8 (events r).occurred) _ _
                (length-put_be 8 time ∙ sym (length-put_be 8 (events r).occurred)) timed in
            let when = put_be_inj 8 time (events r).occurred word (words r) times in
            elim (same_payload payload (events r).payload hashes) [
              | inl what ↦ inl (roots_same, when, what)
              | inr clash ↦ inr (inr (inl clash))
            ]
        | inr clash ↦ inr (inl clash)
      ]

  digests_content :
      (r : ℕ) (t : ℤ)
      (previous payload content_sha256 proof_root_sha256 root_sha256 content : Bytes)
      → check_digests sha256 stream_id r t previous payload content_sha256 proof_root_sha256
          root_sha256
        ≡ ok content
      → content_digest sha256 stream_id previous r (to_uint64 t) payload ≡ content
  unfolding check_digests
  digests_content r t previous payload content_sha256 proof_root_sha256 root_sha256 content h =
      let made = content_digest sha256 stream_id previous r (to_uint64 t) payload in
      let (expected, _, h1) = bind_ok (decode_digest content_sha256) _ h in
      let (_, h2) = guarded_ok (bytes_equal made expected) plain _ h1 in
      let (proof_root, _, h3) = bind_ok (decode_digest proof_root_sha256) _ h2 in
      let (root, _, h4) = bind_ok (decode_digest root_sha256) _ h3 in
      let (_, h5) =
        guarded_ok (bytes_equal (head_root sha256 stream_id r (to_uint64 t) made proof_root) root)
          plain _ h4 in
      ok_inj h5

  -- What the check of an entry leaves to the inclusion proof.
  entry_content :
      (pinned : Head) (e : Entry) (inclusion : InclusionProof)
      → verify_entry sha256 stream_id pinned e inclusion ≡ ok tt
      → (decode_digest e.previous_root_sha256 ≡ ok (unhex e.previous_root_sha256))
        × (verify_inclusion sha256 stream_id
              (head_peaks pinned)
              e.revision
              (content_digest sha256 stream_id
                (unhex e.previous_root_sha256)
                e.revision
                (to_uint64 e.occurred_at)
                (sha256 e.payload))
              inclusion
            ≡ ok tt)
  unfolding verify_entry check_digests
  entry_content pinned e inclusion h =
      let (expected, _, h1) = bind_ok (decode_digest e.payload_sha256) _ h in
      let (_, h2) = guarded_ok (bytes_equal (sha256 e.payload) expected) plain _ h1 in
      let (previous, read, h3) = bind_ok (decode_digest e.previous_root_sha256) _ h2 in
      let (content, made, h4) =
        bind_ok
          (check_digests sha256 stream_id e.revision e.occurred_at previous (sha256 e.payload)
            e.content_sha256 e.proof_root_sha256 e.root_sha256)
          _ h3 in
      let same =
        digests_content e.revision e.occurred_at previous (sha256 e.payload) e.content_sha256
          e.proof_root_sha256 e.root_sha256 content made in
      let text = decode_digest-unhex e.previous_root_sha256 previous read in
      (
        read ∙ ap ok text,
        subst
            (λ p.
              verify_inclusion sha256 stream_id (head_peaks pinned) e.revision
                (content_digest sha256 stream_id p e.revision (to_uint64 e.occurred_at)
                  (sha256 e.payload))
                inclusion
              ≡ ok tt)
            text
            (subst
              (λ c.
                verify_inclusion sha256 stream_id (head_peaks pinned) e.revision c inclusion
                ≡ ok tt)
              (sym same) h4),
      )

  verify_entry-IsEvent :
      (pinned : Head) (n : ℕ) (e : Entry) (inclusion : InclusionProof)
      → head_peaks pinned ≡ some (event_peaks n)
      → verify_entry sha256 stream_id pinned e inclusion ≡ ok tt
      → IsEvent e (events e.revision) ⊎ Collides sha256 (entry_pairs n e inclusion)
  unfolding IsEvent
  verify_entry-IsEvent pinned n e inclusion peaks h =
      let (read, included) = entry_content pinned e inclusion h in
      let previous = unhex e.previous_root_sha256 in
      let time = to_uint64 e.occurred_at in
      let content = content_digest sha256 stream_id previous e.revision time (sha256 e.payload) in
      let under =
        subst (λ p. verify_inclusion sha256 stream_id p e.revision content inclusion ≡ ok tt) peaks
          included in
      let made = event_pairs previous e.payload time e.revision in
      let path = inclusion_pairs sha256 stream_id contents n e.revision content inclusion in
      elim (verify_inclusion-mountain_range sha256 digests stream_id contents n e.revision content
        inclusion under) [
          | inl same ↦
              elim (content_digest_inj previous e.payload time e.revision
                (length-decode_digest e.previous_root_sha256 previous read)
                (to_uint64-bound e.occurred_at) same) [
                  | inl parts ↦ inl (
                    parts.2,
                    parts.1,
                    sym (hex_text-decode_digest e.previous_root_sha256 previous read)
                        ∙ ap hex_text parts.0,
                  )
                  | inr found ↦ inr (Collides-append_left sha256 made path found)
                ]
          | inr found ↦ inr (Collides-append_right sha256 made path found)
        ]

  -- Every entry is the event of its revision.
  unfoldable pub AllEvents : List Entry → Type 0
  AllEvents [] = Unit
  AllEvents (e ∷ es) = IsEvent e (events e.revision) × AllEvents es

  check_entries-AllEvents :
      (request : QueryRequest) (pinned : Head) (n : ℕ) (window : RevisionRange)
      (previous : Option Entry) (es : List Entry) (proofs : List InclusionProof)
      → request.stream_id ≡ stream_id
      → head_peaks pinned ≡ some (event_peaks n)
      → check_entries sha256 request pinned window previous es proofs ≡ ok tt
      → AllEvents es ⊎ Collides sha256 (page_pairs n es proofs)
  unfolding AllEvents page_pairs
  check_entries-AllEvents request pinned n window previous [] proofs same peaks h = inl tt
  check_entries-AllEvents request pinned n window previous (e ∷ es) proofs same peaks h =
      let (inclusion, rest, _, _, verified, others, split) =
        entry_step sha256 request pinned window previous e es proofs h in
      let here = subst (λ s. verify_entry sha256 s pinned e inclusion ≡ ok tt) same verified in
      let first = entry_pairs n e inclusion in
      let later = page_pairs n es rest in
      let both : Collides sha256 (first ++ later) → Collides sha256 (page_pairs n (e ∷ es) proofs) =
        subst (λ ps. Collides sha256 (page_pairs n (e ∷ es) ps)) (sym split) in
      elim (verify_entry-IsEvent pinned n e inclusion peaks here) [
        | inl event ↦
            elim (check_entries-AllEvents request pinned n window (some e) es rest same peaks
              others) [
                | inl all_events ↦ inl (event, all_events)
                | inr found ↦ inr (both (Collides-append_right sha256 first later found))
              ]
        | inr found ↦ inr (both (Collides-append_left sha256 first later found))
      ]

  -- Where SHA-256 returns 32 bytes, the roots of the events have 32 bytes and their times 64 bits, and
  -- the peaks of the pinned head are those over the first n events of the stream: every entry of an
  -- accepted page has the payload, the time and the previous root of the event of its revision, or
  -- SHA-256 collides on an input that the check hashed for an entry, its payload, its content, a leaf or
  -- a node of its path, and the different input of the events or their tree in its place.
  pub accept_page-AllEvents :
      (request : QueryRequest) (result : QueryPage) (pinned : Head) (n : ℕ)
      (next : Option Continuation)
      → request.stream_id ≡ stream_id
      → result.pinned_head ≡ some pinned
      → head_peaks pinned ≡ some (event_peaks n)
      → accept_page sha256 request result ≡ ok next
      → AllEvents result.entries
        ⊎ Collides sha256 (page_pairs n result.entries (proofs_of result.proof))
  accept_page-AllEvents request result pinned n next same e peaks h =
      let (head, at, accepted) = accept_page-Accepted sha256 request result next h in
      let under = subst (λ p. head_peaks p ≡ some (event_peaks n)) (some_inj (sym e ∙ at)) peaks in
      let verified = accepted.verified in
      elim (check_entries-AllEvents request head n result.query_window none result.entries
        verified.proof.entry_proofs same under verified.checked) [
          | inl all_events ↦ inl all_events
          | inr found ↦ inr (
              subst (λ p. Collides sha256 (page_pairs n result.entries (proofs_of p)))
                (sym verified.given) found)
        ]
