-- ===== src/Revision/Query/Sequence.antt =====
-- revision_stream.go: the pages of a query, one behind the other.
use talon_sdk_go.Base.{
  ℕ, suc, ◌^◌, ◌≤◌, ◌<◌, ◌≡◌, refl, sym, ap, ◌∙◌, subst, Bool, true, not, ◌&&◌, Option, none, some,
  List, [], ◌∷◌, ◌++◌, Bytes, ok, both_true, leb, ◌==◌, ==_iff, leb→le, length, bytes_equal,
  bytes_equal→eq, arith,
}
use talon_sdk_go.Conditional.Results.{is_sha}
use talon_sdk_go.Revision.{hex_text, unhex, decode_digest}
use talon_sdk_go.Revision.Digests.{hex_text-decode_digest}
use talon_sdk_go.Revision.Query.{Head, RevisionRange, Entry, QueryRequest, QueryPage}
use talon_sdk_go.Revision.Query.Checks.{points_to, last_entry}
use talon_sdk_go.Revision.Query.Heads.{same_time, heads_equal, ranges_equal}
use talon_sdk_go.Revision.Query.Pages.{
  Continuation, root_or_zero, keeps_head, keeps_window, valid_entry, valid_entries, page_of_entries,
  page_in_window, check_ends, cursor_fits, keeps_root, accept_page, next_request,
}
use talon_sdk_go.Revision.Query.Entries.{
  Chain, Chain-append, Follows, AllInWindow, check_entries-AllInWindow,
}
use talon_sdk_go.Revision.Query.Acceptance.{Accepted, accept_page-Accepted, Accepted-Chain}
use talon_sdk_go.Revision.Query.Continuations.{
  Begins, cursor_ends-Begins, continuation_step, next_request-eq, cursor_fits-last, points_to-eq,
  some_inj,
}

-- What an accepted page is: a chain of entries in both windows, at most as many as asked for, that
-- begins where the request says.
unfoldable pub IsPage : QueryRequest → QueryPage → Type 0
IsPage request result =
    Chain none result.entries
    × AllInWindow request result.query_window result.entries
    × (length result.entries ≤ request.limit)
    × Begins request.after_revision result.query_window.first result.entries

module _ (sha256 : Bytes → Bytes) where
  Accepted-IsPage :
      (request : QueryRequest) (result : QueryPage) (pinned : Head) (next : Option Continuation)
      → pinned.revision < 2 ^ 64
      → Accepted sha256 request result pinned next
      → IsPage request result
  unfolding IsPage
  Accepted-IsPage request result pinned next b a = (
    Accepted-Chain sha256 request result pinned next b a,
    check_entries-AllInWindow sha256 request pinned result.query_window none result.entries
        a.verified.proof.entry_proofs a.verified.checked,
    leb→le (length result.entries) request.limit a.verified.few,
    cursor_ends-Begins request pinned.revision request.after_revision result.query_window.first
        result.query_window.last a.verified.expected result.page result.entries b a.verified.cursor
        a.verified.ends,
  )

  pinned_same : {a : Option Head} {p q : Head} → a ≡ some p → a ≡ some q → p ≡ q
  pinned_same h k = some_inj (sym h ∙ k)

  -- Where the revision of the pinned head fits 64 bits, the entries of an accepted page are a chain
  -- (each revision is one more than the one in front of it, and each previous root is that one's
  -- root), are in the time window and in the window of revisions, are at most as many as asked for,
  -- and begin behind the cursor, or with the window where there is no cursor.
  pub accept_page-IsPage :
      (request : QueryRequest) (result : QueryPage) (pinned : Head) (next : Option Continuation)
      → result.pinned_head ≡ some pinned
      → pinned.revision < 2 ^ 64
      → accept_page sha256 request result ≡ ok next
      → IsPage request result
  accept_page-IsPage request result pinned next e b h =
      let (head, same, accepted) = accept_page-Accepted sha256 request result next h in
      Accepted-IsPage request result head next
        (subst (λ (p : Head). p.revision < 2 ^ 64) (pinned_same e same) b) accepted

  root_of : (a b c root d e f : Bool) → (a && b && c && root && d && e && f) ≡ true → root ≡ true
  root_of a b c root d e f h = ground arith

  last_sha :
      (bound : ℕ) (e : Entry) (es : List Entry)
      → valid_entries bound (e ∷ es) ≡ true
      → is_sha (last_entry e es).root_sha256 ≡ true
  unfolding valid_entries valid_entry
  last_sha bound e [] h =
      (let (one, _) = both_true (valid_entry bound e) true h in
        root_of (not (e.revision == 0)) (leb e.revision bound) (is_sha e.payload_sha256)
          (is_sha e.root_sha256) (is_sha e.previous_root_sha256) (is_sha e.content_sha256)
          (is_sha e.proof_root_sha256) one)
  last_sha bound e (next ∷ es) h =
      let (_, rest) = both_true (valid_entry bound e) (valid_entries bound (next ∷ es)) h in
      last_sha bound next es rest

  read_root :
      (text : Bytes) → is_sha text ≡ true → hex_text (root_or_zero (decode_digest text)) ≡ text
  unfolding root_or_zero decode_digest
  read_root text h =
      let read : decode_digest text ≡ ok (unhex text) = rw h refl in
      rw h (hex_text-decode_digest text (unhex text) read)

  join_pages :
      (prior : Bytes) (after : ℕ) (first : Option ℕ) (e : Entry) (es fs : List Entry)
      → Chain none (e ∷ es)
      → Chain none fs
      → Begins (some after) first fs
      → (last_entry e es).revision ≡ after
      → hex_text prior ≡ (last_entry e es).root_sha256
      → keeps_root (some prior) fs ≡ true
      → Chain none (e ∷ es ++ fs)
  unfolding Chain Begins keeps_root Follows
  join_pages prior after first e es [] left right begins last root keeps =
      Chain-append none e es [] left tt
  join_pages prior after first e es (f ∷ fs) left right begins last root keeps =
      Chain-append none e es (f ∷ fs) left (
        (
          begins ∙ ap suc (sym last),
          bytes_equal→eq f.previous_root_sha256 (hex_text prior) keeps ∙ root,
        ),
        right.1,
      )

  ends_last :
      (window page : RevisionRange) (pinned : ℕ) (more : Bool) (next : Option ℕ) (es : List Entry)
      (f : Entry) (rest : List Entry) (n : ℕ)
      → es ≡ f ∷ rest
      → check_ends window page pinned es ≡ true
      → cursor_fits more next page.last window.last ≡ true
      → more ≡ true
      → next ≡ some n
      → ((last_entry f rest).revision ≡ n) × (is_sha (last_entry f rest).root_sha256 ≡ true)
  unfolding check_ends page_of_entries
  ends_last window page pinned more next es f rest n same bounds fits on cursor =
      let ends =
        subst
          (λ l.
            (page_in_window pinned window.first window.last page.first page.last
              && valid_entries pinned l
              && page_of_entries page l)
            ≡ true)
          same bounds in
      let (inside, whole) =
        both_true
          (page_in_window pinned window.first window.last page.first page.last
            && valid_entries pinned (f ∷ rest))
          (page_of_entries page (f ∷ rest)) ends in
      let (_, valid) =
        both_true (page_in_window pinned window.first window.last page.first page.last)
          (valid_entries pinned (f ∷ rest)) inside in
      let (_, last) =
        both_true (points_to page.first f.revision)
          (points_to page.last (last_entry f rest).revision) whole in
      let reached = cursor_fits-last more next page.last window.last n fits on cursor in
      (
        some_inj (sym (points_to-eq page.last (last_entry f rest).revision last) ∙ reached),
        last_sha pinned f rest valid,
      )

  head_bound :
      (head pinned : Head)
      → heads_equal head pinned ≡ true
      → pinned.revision < 2 ^ 64
      → head.revision < 2 ^ 64
  unfolding heads_equal
  head_bound head pinned h b =
      let (same, _) =
        both_true
          (head.revision == pinned.revision
            && same_time head.last_occurred_at pinned.last_occurred_at
            && bytes_equal head.root_sha256 pinned.root_sha256)
          _ h in
      let (same1, _) =
        both_true
          (head.revision == pinned.revision
            && same_time head.last_occurred_at pinned.last_occurred_at)
          _ same in
      let (revision, _) = both_true (head.revision == pinned.revision) _ same1 in
      subst (λ r. r < 2 ^ 64) (sym ((==_iff head.revision pinned.revision).0 revision)) b

  -- Where a page with a pinned head of 64 bits is accepted with a continuation, and a page is accepted
  -- for the request that the continuation makes: the entries of both pages are one chain, and the
  -- second page has the window of the first, and a pinned head equal to the first one's.
  pub accept_page-next_request :
      (request next : QueryRequest) (result behind : QueryPage) (pinned : Head) (c : Continuation)
      (limit : ℕ) (last : Option Continuation)
      → result.pinned_head ≡ some pinned
      → pinned.revision < 2 ^ 64
      → accept_page sha256 request result ≡ ok (some c)
      → next_request sha256 c limit ≡ ok next
      → accept_page sha256 next behind ≡ ok last
      → Chain none (result.entries ++ behind.entries)
        × (ranges_equal behind.query_window result.query_window ≡ true)
        × (head : Head) × (behind.pinned_head ≡ some head)
        × (heads_equal head pinned ≡ true)
  unfolding IsPage
  accept_page-next_request request next result behind pinned c limit last e b h k l =
      let (head, same, first) = accept_page-Accepted sha256 request result (some c) h in
      let (head2, same2, second) = accept_page-Accepted sha256 next behind last l in
      let at = pinned_same same e in
      let asked =
        subst (λ r. Accepted sha256 r behind head2 last) (next_request-eq sha256 c limit next k)
          second in
      let (f, rest, entries, more, cursor, kept, window, root) =
        continuation_step request head first.live result.query_window result.has_more
          result.next_after_revision result.entries c first.made in
      let kept_head =
        subst (λ p. heads_equal head2 p ≡ true) (kept ∙ at)
          (unfold keeps_head in asked.kept_head) in
      let kept_window =
        subst (λ w. ranges_equal behind.query_window w ≡ true) window
          (unfold keeps_window in asked.kept_window) in
      let bounded = head_bound head2 pinned kept_head b in
      let page2 = Accepted-IsPage _ behind head2 last bounded asked in
      let page1 =
        Accepted-Chain sha256 request result head (some c)
          (subst (λ (p : Head). p.revision < 2 ^ 64) (sym at) b) first in
      let (reached, sha) =
        ends_last result.query_window result.page head.revision result.has_more
          result.next_after_revision result.entries f rest c.after_revision entries first.bounds
          first.cursor more cursor in
      let prior = ap hex_text root ∙ read_root (last_entry f rest).root_sha256 sha in
      let kept_root = asked.kept_root in
      let chain =
        join_pages c.previous_root c.after_revision behind.query_window.first f rest behind.entries
          (subst (Chain none) entries page1) page2.0 page2.3 reached prior kept_root in
      (
        subst (λ es. Chain none (es ++ behind.entries)) (sym entries) chain,
        kept_window,
        head2,
        same2,
        kept_head,
      )
