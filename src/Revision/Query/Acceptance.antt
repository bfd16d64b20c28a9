-- ===== src/Revision/Query/Acceptance.antt =====
-- revision_stream.go: accepted pages and their continuations.
use talon_sdk_go.Base.{
  ℕ, ◌^◌, ◌≤◌, ◌<◌, ◌≡◌, refl, subst, Bool, true, not, ◌&&◌, Option, none, some, List, [], ◌∷◌,
  Bytes, Result, ok, err, plain, bind_ok, guarded_ok, guard_ok, both_true, then_ok, leb, ◌==◌,
  length, codes, bytes_equal, arith,
}
use talon_sdk_go.Revision.Query.{ProofHead, Head, Entry, QueryProof, QueryRequest, QueryPage}
use talon_sdk_go.Revision.Query.Checks.{
  check_window, check_cursor, page_ends, page_tail, check_more,
}
use talon_sdk_go.Revision.Query.Verify.{
  verify_points, check_entries, verify_with, verify_proofs, verify_heads, verify_query_page,
}
use talon_sdk_go.Revision.Query.Pages.{
  Continuation, violation, violating, validate_head, keeps_head, live_follows, keeps_minimum,
  valid_range, keeps_window, check_ends, page_in_window, valid_entry, valid_entries, begins_window,
  cursor_fits, keeps_root, continuation_of, accept_with, accept_heads, accept_page,
}
use talon_sdk_go.Revision.Query.Entries.{Chain, AllBelow, check_entries-Chain}

module _ (sha256 : Bytes → Bytes) where
  -- What verifyRevisionStreamQueryPage has checked.
  pub record Verified (request : QueryRequest) (result : QueryPage) (pinned : Head) : Type 0 where
    pub proof : QueryProof
    pub given : result.proof ≡ some proof
    pub expected : Option ℕ
    pub windowed :
        check_window request pinned.revision proof result.query_window.first
          result.query_window.last
        ≡ ok tt
    pub cursor :
        check_cursor pinned.revision request.after_revision result.query_window.first
          result.query_window.last
        ≡ ok expected
    pub ends : page_ends request result.query_window.last expected result.page result.entries ≡ true
    pub few : leb (length result.entries) request.limit ≡ true
    pub checked :
        check_entries sha256 request pinned result.query_window none result.entries
          proof.entry_proofs
        ≡ ok tt
    pub tail : page_tail pinned proof.page_successor result.entries ≡ true
    pub more : check_more result result.query_window.last ≡ true

  verify_with-Verified :
      (request : QueryRequest) (result : QueryPage) (pinned : Head) (pinned_proof : ProofHead)
      (proof : QueryProof)
      → result.proof ≡ some proof
      → verify_with sha256 request result pinned pinned_proof proof ≡ ok tt
      → Verified request result pinned
  unfolding verify_with
  verify_with-Verified request result pinned pinned_proof proof given h =
      let (_, h1) =
        guarded_ok
          ((proof.version == 1)
            && bytes_equal proof.scheme (codes "talon_mmr_sha256_v1")
            && bytes_equal proof.root_sha256 pinned_proof.root_sha256
            && (length proof.entry_proofs == length result.entries))
          plain _ h in
      let (_, h2) =
        then_ok
          (verify_points sha256 request.stream_id pinned (
            proof.window_predecessor ∷ proof.window_first ∷ proof.window_last
            ∷ proof.window_successor ∷ proof.page_successor ∷ []))
          _ h1 in
      let (windowed, h3) =
        then_ok
          (check_window request pinned.revision proof result.query_window.first
            result.query_window.last)
          _ h2 in
      let (expected, cursor, h4) =
        bind_ok
          (check_cursor pinned.revision request.after_revision result.query_window.first
            result.query_window.last)
          _ h3 in
      let (ends, h5) =
        guarded_ok (page_ends request result.query_window.last expected result.page result.entries)
          plain _ h4 in
      let (few, h6) = guarded_ok (leb (length result.entries) request.limit) plain _ h5 in
      let (checked, h7) =
        then_ok
          (check_entries sha256 request pinned result.query_window none result.entries
            proof.entry_proofs)
          _ h6 in
      let (tail, h8) =
        guarded_ok (page_tail pinned proof.page_successor result.entries) plain _ h7 in
      record {
        proof = proof;
        given = given;
        expected = expected;
        windowed = windowed;
        cursor = cursor;
        ends = ends;
        few = few;
        checked = checked;
        tail = tail;
        more = guard_ok (check_more result result.query_window.last) plain h8;
      }

  verify_heads-Verified :
      (request : QueryRequest) (result : QueryPage) (pinned : Head) (live : Option Head)
      (proof : Option QueryProof)
      → result.proof ≡ proof
      → verify_heads sha256 request result (some pinned) live proof ≡ ok tt
      → Verified request result pinned
  unfolding verify_heads verify_proofs
  verify_heads-Verified request result pinned none proof given h = cc
  verify_heads-Verified request result pinned (some live) none given h = cc
  verify_heads-Verified request result pinned (some live) (some proof) given h =
      proofs pinned.proof h
    where
      proofs :
          (pinned_proof : Option ProofHead)
          → verify_proofs sha256 request result pinned proof pinned_proof ≡ ok tt
          → Verified request result pinned
      proofs none h = cc
      proofs (some pinned_proof) h =
          verify_with-Verified request result pinned pinned_proof proof given h

  verify_query_page-Verified :
      (request : QueryRequest) (result : QueryPage) (pinned : Head)
      → result.pinned_head ≡ some pinned
      → verify_query_page sha256 request result ≡ ok tt
      → Verified request result pinned
  unfolding verify_query_page
  verify_query_page-Verified request result pinned e h =
      verify_heads-Verified request result pinned result.observed_live_head result.proof refl (
        subst
          (λ head.
            verify_heads sha256 request result head result.observed_live_head result.proof ≡ ok tt)
          e h)

  -- What decodeRevisionStreamQueryPage has checked, and the continuation that it made.
  pub record Accepted (request : QueryRequest) (result : QueryPage) (pinned : Head)
      (next : Option Continuation) : Type 0 where
    pub live : Head
    pub kept_head : keeps_head request.pinned_head pinned ≡ true
    pub kept_window : keeps_window request.expected_window result.query_window ≡ true
    pub bounds : check_ends result.query_window result.page pinned.revision result.entries ≡ true
    pub begun :
        begins_window request.after_revision result.query_window.first result.page.first ≡ true
    pub cursor :
        cursor_fits result.has_more result.next_after_revision result.page.last
          result.query_window.last
        ≡ true
    pub verified : Verified request result pinned
    pub kept_root : keeps_root request.previous_root result.entries ≡ true
    pub made :
        continuation_of request pinned live result.query_window result.has_more
          result.next_after_revision result.entries
        ≡ next

  violating_ok : {A : Type 0} (r : Result A) {a : A} → violating r ≡ ok a → r ≡ ok a
  violating_ok (ok b) h = h
  violating_ok (err e) h = cc

  accept_with-Accepted :
      (request : QueryRequest) (result : QueryPage) (pinned live : Head)
      (next : Option Continuation)
      → result.pinned_head ≡ some pinned
      → accept_with sha256 request result pinned live ≡ ok next
      → Accepted request result pinned next
  unfolding accept_with
  accept_with-Accepted request result pinned live next same h =
      let (_, h1) = then_ok (violating (validate_head sha256 request.stream_id pinned)) _ h in
      let (_, h2) = then_ok (violating (validate_head sha256 request.stream_id live)) _ h1 in
      let (kept_head, h3) = guarded_ok (keeps_head request.pinned_head pinned) violation _ h2 in
      let (_, h4) = guarded_ok (live_follows request pinned live) violation _ h3 in
      let (_, h5) = guarded_ok (keeps_minimum request.minimum_live_head live) violation _ h4 in
      let (_, h6) =
        guarded_ok (valid_range result.query_window && valid_range result.page) violation _ h5 in
      let (kept_window, h7) =
        guarded_ok (keeps_window request.expected_window result.query_window) violation _ h6 in
      let (bounds, h8) =
        guarded_ok (check_ends result.query_window result.page pinned.revision result.entries)
          violation _ h7 in
      let (begun, h9) =
        guarded_ok
          (begins_window request.after_revision result.query_window.first result.page.first)
          violation _ h8 in
      let (cursor, h10) =
        guarded_ok
          (cursor_fits result.has_more result.next_after_revision result.page.last
            result.query_window.last)
          violation _ h9 in
      let (verified, h11) = then_ok (violating (verify_query_page sha256 request result)) _ h10 in
      let (kept_root, h12) =
        guarded_ok (keeps_root request.previous_root result.entries) violation _ h11 in
      record {
        live = live;
        kept_head = kept_head;
        kept_window = kept_window;
        bounds = bounds;
        begun = begun;
        cursor = cursor;
        verified =
            verify_query_page-Verified request result pinned same
              (violating_ok (verify_query_page sha256 request result) verified);
        kept_root = kept_root;
        made = cc;
      }

  accept_heads-Accepted :
      (request : QueryRequest) (result : QueryPage) (head live : Option Head)
      (next : Option Continuation)
      → result.pinned_head ≡ head
      → accept_heads sha256 request result head live ≡ ok next
      → (pinned : Head) × (result.pinned_head ≡ some pinned) × Accepted request result pinned next
  unfolding accept_heads
  accept_heads-Accepted request result none live next same h = cc
  accept_heads-Accepted request result (some pinned) none next same h = cc
  accept_heads-Accepted request result (some pinned) (some live) next same h =
      (pinned, same, accept_with-Accepted request result pinned live next same h)

  pub accept_page-Accepted :
      (request : QueryRequest) (result : QueryPage) (next : Option Continuation)
      → accept_page sha256 request result ≡ ok next
      → (pinned : Head) × (result.pinned_head ≡ some pinned) × Accepted request result pinned next
  unfolding accept_page
  accept_page-Accepted request result next h =
      accept_heads-Accepted request result result.pinned_head result.observed_live_head next refl h

  entry_low :
      (r bound : ℕ) (a b c d e : Bool)
      → (not (r == 0) && leb r bound && a && b && c && d && e) ≡ true
      → r ≤ bound
  entry_low r bound a b c d e h = ground arith

  pub valid_entries-AllBelow :
      (bound : ℕ) (es : List Entry) → valid_entries bound es ≡ true → AllBelow bound es
  unfolding valid_entries valid_entry AllBelow
  valid_entries-AllBelow bound [] h = tt
  valid_entries-AllBelow bound (e ∷ es) h =
      let (one, rest) = both_true (valid_entry bound e) (valid_entries bound es) h in
      (entry_low e.revision bound _ _ _ _ _ one, valid_entries-AllBelow bound es rest)

  -- The entries of an accepted page are a chain.
  pub Accepted-Chain :
      (request : QueryRequest) (result : QueryPage) (pinned : Head) (next : Option Continuation)
      → pinned.revision < 2 ^ 64
      → Accepted request result pinned next
      → Chain none result.entries
  unfolding check_ends
  Accepted-Chain request result pinned next b a =
      let (most, _) =
        both_true
          (page_in_window pinned.revision result.query_window.first result.query_window.last
              result.page.first result.page.last
            && valid_entries pinned.revision result.entries)
          _ a.bounds in
      let (_, valid) =
        both_true
          (page_in_window pinned.revision result.query_window.first result.query_window.last
            result.page.first result.page.last)
          _ most in
      check_entries-Chain sha256 request pinned result.query_window none result.entries
        a.verified.proof.entry_proofs pinned.revision b (omega arith)
        (valid_entries-AllBelow pinned.revision result.entries valid) a.verified.checked
