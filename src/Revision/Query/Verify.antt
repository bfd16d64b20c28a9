-- ===== src/Revision/Query/Verify.antt =====
-- revision_stream.go: verifyRevisionStreamQueryPage.
use talon_sdk_go.Base.{
  ℕ, ◌&&◌, Option, none, some, List, [], ◌∷◌, Bytes, Result, ok, err, plain, guard, ◌>>=◌, ◌>>◌,
  leb, ◌==◌, length, codes, bytes_equal,
}
use talon_sdk_go.Base.Int.{ℤ}
use talon_sdk_go.Revision.{
  InclusionProof, decode_digest, content_digest, head_root, verify_inclusion,
}
use talon_sdk_go.Revision.Query.{
  to_uint64, ProofHead, Head, RevisionRange, Entry, ProofPoint, QueryProof, QueryRequest, QueryPage,
}
use talon_sdk_go.Revision.Query.Checks.{
  in_time, check_window, check_cursor, page_ends, linked, in_window, head_peaks, page_tail,
  check_more,
}

module _ (sha256 : Bytes → Bytes) where
  -- The content of a point or an entry, and the head that it was.
  unfoldable pub check_digests :
      Bytes → ℕ → ℤ → Bytes → Bytes → Bytes → Bytes → Bytes → Result Bytes
  check_digests stream_id revision occurred_at previous payload content_sha256 proof_root_sha256
        root_sha256 =
      do
        let content =
            content_digest sha256 stream_id previous revision (to_uint64 occurred_at) payload
        expected ← decode_digest content_sha256
        guard (bytes_equal content expected) plain
        proof_root ← decode_digest proof_root_sha256
        root ← decode_digest root_sha256
        guard
            (bytes_equal
              (head_root sha256 stream_id revision (to_uint64 occurred_at) content proof_root) root)
            plain
        ok content

  -- verifyRevisionStreamProofPoint
  unfoldable pub verify_point : Bytes → Head → ProofPoint → Result (Unit {0})
  verify_point stream_id pinned p = do
    previous ← decode_digest p.previous_root_sha256
    payload ← decode_digest p.payload_sha256
    content ←
        check_digests stream_id p.revision p.occurred_at previous payload p.content_sha256
          p.proof_root_sha256 p.root_sha256
    verify_inclusion sha256 stream_id (head_peaks pinned) p.revision content p.inclusion

  unfoldable pub verify_points : Bytes → Head → List (Option ProofPoint) → Result (Unit {0})
  verify_points stream_id pinned [] = ok tt
  verify_points stream_id pinned (none ∷ points) = verify_points stream_id pinned points
  verify_points stream_id pinned (some p ∷ points) = do
    verify_point stream_id pinned p
    verify_points stream_id pinned points

  -- verifyRevisionStreamEntryInclusion
  unfoldable pub verify_entry : Bytes → Head → Entry → InclusionProof → Result (Unit {0})
  verify_entry stream_id pinned e inclusion = do
    expected ← decode_digest e.payload_sha256
    guard (bytes_equal (sha256 e.payload) expected) plain
    previous ← decode_digest e.previous_root_sha256
    content ←
        check_digests stream_id e.revision e.occurred_at previous (sha256 e.payload)
          e.content_sha256 e.proof_root_sha256 e.root_sha256
    verify_inclusion sha256 stream_id (head_peaks pinned) e.revision content inclusion

  -- The loop over the entries; there are as many proofs.
  unfoldable pub check_entries :
      QueryRequest
      → Head
      → RevisionRange
      → Option Entry
      → List Entry
      → List InclusionProof
      → Result (Unit {0})
  check_entries request pinned window previous [] proofs = ok tt
  check_entries request pinned window previous (e ∷ es) [] = err plain
  check_entries request pinned window previous (e ∷ es) (inclusion ∷ proofs) = do
    guard (linked previous e) plain
    guard (in_time request e.occurred_at && in_window window.first window.last e.revision) plain
    verify_entry request.stream_id pinned e inclusion
    check_entries request pinned window (some e) es proofs

  -- verifyRevisionStreamQueryPage behind the checks for nil.
  unfoldable pub verify_with :
      QueryRequest → QueryPage → Head → ProofHead → QueryProof → Result (Unit {0})
  verify_with request result pinned pinned_proof proof = do
    guard
        ((proof.version == 1)
          && bytes_equal proof.scheme (codes "talon_mmr_sha256_v1")
          && bytes_equal proof.root_sha256 pinned_proof.root_sha256
          && (length proof.entry_proofs == length result.entries))
        plain
    verify_points request.stream_id pinned (
        proof.window_predecessor ∷ proof.window_first ∷ proof.window_last ∷ proof.window_successor
        ∷ proof.page_successor ∷ [])
    check_window request pinned.revision proof result.query_window.first result.query_window.last
    expected ←
        check_cursor pinned.revision request.after_revision result.query_window.first
          result.query_window.last
    guard (page_ends request result.query_window.last expected result.page result.entries) plain
    guard (leb (length result.entries) request.limit) plain
    check_entries request pinned result.query_window none result.entries proof.entry_proofs
    guard (page_tail pinned proof.page_successor result.entries) plain
    guard (check_more result result.query_window.last) plain

  unfoldable pub verify_proofs :
      QueryRequest → QueryPage → Head → QueryProof → Option ProofHead → Result (Unit {0})
  verify_proofs request result pinned proof none = err plain
  verify_proofs request result pinned proof (some pinned_proof) =
      verify_with request result pinned pinned_proof proof

  unfoldable pub verify_heads :
      QueryRequest → QueryPage → Option Head → Option Head → Option QueryProof → Result (Unit {0})
  verify_heads request result none live proof = err plain
  verify_heads request result (some pinned) none proof = err plain
  verify_heads request result (some pinned) (some live) none = err plain
  verify_heads request result (some pinned) (some live) (some proof) =
      verify_proofs request result pinned proof pinned.proof

  -- verifyRevisionStreamQueryPage
  unfoldable pub verify_query_page : QueryRequest → QueryPage → Result (Unit {0})
  verify_query_page request result =
      verify_heads request result result.pinned_head result.observed_live_head result.proof
