-- ===== src/Revision/Query/Pages.antt =====
-- revision_stream.go: query requests, the acceptance of a page (decodeRevisionStreamQueryPage behind
-- the reading of its JSON, so the heads, the ranges and the proof are values), and continuations.
use talon_sdk_go.Base.{
  ℕ, Bool, true, false, not, ◌&&◌, ◌||◌, Option, none, some, List, [], ◌∷◌, Bytes, Error, ErrorCode,
  new_error, Result, ok, err, plain, guard, ◌>>=◌, ◌>>◌, ltb, leb, ◌==◌, length, replicate,
  bytes_equal,
}
use talon_sdk_go.Base.Int.{ℤ, ltb_ℤ}
use talon_sdk_go.Conditional.Results.{is_sha}
use talon_sdk_go.Revision.{hex_text, decode_digest, head_root, validate_peaks}
use talon_sdk_go.Revision.Query.{
  to_uint64, ProofHead, Head, RevisionRange, Entry, QueryRequest, QueryPage,
}
use talon_sdk_go.Revision.Query.Checks.{is_some, points_to, last_entry}
use talon_sdk_go.Revision.Query.Verify.{verify_query_page}
use talon_sdk_go.Revision.Query.Heads.{heads_equal, ranges_equal}

abbrev pub invalid : Error
invalid = new_error ErrorCode.invalid_argument

abbrev pub violation : Error
violation = new_error ErrorCode.protocol_violation

abbrev pub max_stream_id_bytes : ℕ
max_stream_id_bytes = 1024

abbrev pub max_query_limit : ℕ
max_query_limit = 1000

-- Every error of a step is a violation of the protocol.
abbrev pub violating {ℓ} : {A : Type ℓ} → Result A → Result A
violating (ok a) = ok a
violating (err e) = err violation

-- RevisionStreamContinuation
pub record Continuation : Type 0 where
  pub stream_id : Bytes
  pub from_occurred_at : ℤ
  pub until_occurred_at : ℤ
  pub pinned_head : Head
  pub after_revision : ℕ
  pub window : RevisionRange
  pub previous_root : Bytes
  pub minimum_live_head : Head

-- decodeRevisionStreamRange: both ends or none, in order.
unfoldable pub valid_range : RevisionRange → Bool
valid_range range = ends range.first range.last
  where
    ends : Option ℕ → Option ℕ → Bool
    ends none none = true
    ends none (some _) = false
    ends (some _) none = false
    ends (some first) (some last) = not (first == 0) && leb first last

-- The head does not precede or contradict the earlier one.
unfoldable pub follows : Head → Head → Bool
follows live earlier =
    leb earlier.revision live.revision
    && not (ltb_ℤ live.last_occurred_at earlier.last_occurred_at)
    && (not (live.revision == earlier.revision) || heads_equal live earlier)

unfoldable pub live_follows : QueryRequest → Head → Head → Bool
live_follows request pinned live =
    follows live pinned && (is_some request.pinned_head || heads_equal live pinned)

unfoldable pub keeps_head : Option Head → Head → Bool
keeps_head none head = true
keeps_head (some pinned) head = heads_equal head pinned

unfoldable pub keeps_minimum : Option Head → Head → Bool
keeps_minimum none live = true
keeps_minimum (some minimum) live = follows live minimum

unfoldable pub keeps_window : Option RevisionRange → RevisionRange → Bool
keeps_window none window = true
keeps_window (some expected) window = ranges_equal window expected

-- The page in its window, and the window below the pinned head.
unfoldable pub page_in_window : ℕ → Option ℕ → Option ℕ → Option ℕ → Option ℕ → Bool
page_in_window pinned none none none none = true
page_in_window pinned (some first) (some last) none none = leb last pinned
page_in_window pinned (some first) (some last) (some f) (some l) =
    leb last pinned && leb first f && leb l last
page_in_window pinned _ _ _ _ = false

unfoldable pub valid_entry : ℕ → Entry → Bool
valid_entry pinned e =
    not (e.revision == 0)
    && leb e.revision pinned
    && is_sha e.payload_sha256
    && is_sha e.root_sha256
    && is_sha e.previous_root_sha256
    && is_sha e.content_sha256
    && is_sha e.proof_root_sha256

unfoldable pub valid_entries : ℕ → List Entry → Bool
valid_entries pinned [] = true
valid_entries pinned (e ∷ es) = valid_entry pinned e && valid_entries pinned es

unfoldable pub page_of_entries : RevisionRange → List Entry → Bool
page_of_entries page [] = not (is_some page.first)
page_of_entries page (e ∷ es) =
    points_to page.first e.revision && points_to page.last (last_entry e es).revision

-- The first page begins_window with the window.
unfoldable pub begins_window : Option ℕ → Option ℕ → Option ℕ → Bool
begins_window none first (some f) = points_to first f
begins_window none first none = true
begins_window (some after) first f = true

unfoldable pub cursor_fits : Bool → Option ℕ → Option ℕ → Option ℕ → Bool
cursor_fits true (some next) (some l) (some last) = (next == l) && ltb l last
cursor_fits true _ _ _ = false
cursor_fits false none none last = true
cursor_fits false none (some l) last = points_to last l
cursor_fits false (some next) l last = false

unfoldable pub keeps_root : Option Bytes → List Entry → Bool
keeps_root none es = true
keeps_root (some root) [] = true
keeps_root (some root) (e ∷ es) = bytes_equal e.previous_root_sha256 (hex_text root)

-- The root that is read, where an error is passed over.
unfoldable pub root_or_zero : Result Bytes → Bytes
root_or_zero (ok root) = root
root_or_zero (err _) = replicate 32 0

unfoldable pub continuation_of :
    QueryRequest → Head → Head → RevisionRange → Bool → Option ℕ → List Entry → Option Continuation
continuation_of request pinned live window true (some cursor) (e ∷ es) = some (record {
  stream_id = request.stream_id;
  from_occurred_at = request.from_occurred_at;
  until_occurred_at = request.until_occurred_at;
  pinned_head = pinned;
  after_revision = cursor;
  window = window;
  previous_root = root_or_zero (decode_digest (last_entry e es).root_sha256);
  minimum_live_head = live;
})
continuation_of request pinned live window _ _ _ = none

unfoldable pub check_ends : RevisionRange → RevisionRange → ℕ → List Entry → Bool
check_ends window page pinned entries =
    page_in_window pinned window.first window.last page.first page.last
    && valid_entries pinned entries
    && page_of_entries page entries

unfoldable pub valid_cursor : Option Head → Option ℕ → Bool
valid_cursor pinned none = true
valid_cursor none (some after) = false
valid_cursor (some head) (some after) = not (after == 0) && ltb after head.revision

unfoldable pub issued : QueryRequest → Bool
issued request =
    not (is_some request.after_revision)
    || (is_some request.expected_window
        && is_some request.previous_root
        && is_some request.minimum_live_head)

module _ (sha256 : Bytes → Bytes) where
  unfoldable pub validate_proof_head : Bytes → Head → Bytes → Option ProofHead → Result (Unit {0})
  validate_proof_head stream_id head root none = err plain
  validate_proof_head stream_id head root (some proof) = do
    guard ((proof.version == 1) && (proof.leaf_count == head.revision)) plain
    validate_peaks sha256 stream_id proof.leaf_count proof.peaks proof.root_sha256
    content ← decode_digest proof.last_content_sha256
    proof_root ← decode_digest proof.root_sha256
    guard
        (bytes_equal
          (head_root sha256 stream_id head.revision (to_uint64 head.last_occurred_at) content
            proof_root)
          root)
        plain

  -- validateRevisionStreamHead
  unfoldable pub validate_head : Bytes → Head → Result (Unit {0})
  validate_head stream_id head = do
    guard (not (head.revision == 0)) plain
    root ← decode_digest head.root_sha256
    validate_proof_head stream_id head root head.proof

  -- decodeRevisionStreamQueryPage behind its heads
  unfoldable pub accept_with : QueryRequest → QueryPage → Head → Head → Result (Option Continuation)
  accept_with request result pinned live = do
    violating (validate_head request.stream_id pinned)
    violating (validate_head request.stream_id live)
    guard (keeps_head request.pinned_head pinned) violation
    guard (live_follows request pinned live) violation
    guard (keeps_minimum request.minimum_live_head live) violation
    guard (valid_range result.query_window && valid_range result.page) violation
    guard (keeps_window request.expected_window result.query_window) violation
    guard (check_ends result.query_window result.page pinned.revision result.entries) violation
    guard (begins_window request.after_revision result.query_window.first result.page.first)
        violation
    guard
        (cursor_fits result.has_more result.next_after_revision result.page.last
          result.query_window.last)
        violation
    violating (verify_query_page sha256 request result)
    guard (keeps_root request.previous_root result.entries) violation
    ok (
        continuation_of request pinned live result.query_window result.has_more
          result.next_after_revision result.entries)

  unfoldable pub accept_heads :
      QueryRequest → QueryPage → Option Head → Option Head → Result (Option Continuation)
  accept_heads request result none live = err violation
  accept_heads request result (some pinned) none = err violation
  accept_heads request result (some pinned) (some live) = accept_with request result pinned live

  -- decodeRevisionStreamQueryPage
  unfoldable pub accept_page : QueryRequest → QueryPage → Result (Option Continuation)
  accept_page request result =
      accept_heads request result result.pinned_head result.observed_live_head

  -- newRevisionStreamQueryRequest
  unfoldable pub check_pinned : Bytes → Option Head → Result (Unit {0})
  check_pinned stream_id none = ok tt
  check_pinned stream_id (some head) = elim (validate_head stream_id head) [
    | ok _ ↦ ok tt
    | err _ ↦ err invalid
  ]

  unfoldable pub new_query_request : QueryRequest → Result QueryRequest
  new_query_request request = do
    guard
        (not (length request.stream_id == 0) && leb (length request.stream_id) max_stream_id_bytes)
        invalid
    guard (ltb_ℤ request.from_occurred_at request.until_occurred_at) invalid
    guard (not (request.limit == 0) && leb request.limit max_query_limit) invalid
    check_pinned request.stream_id request.pinned_head
    guard (valid_cursor request.pinned_head request.after_revision) invalid
    guard (issued request) invalid
    ok request

  -- RevisionStreamContinuation.NextRequest
  unfoldable pub next_request : Continuation → ℕ → Result QueryRequest
  next_request c limit = new_query_request (record {
    stream_id = c.stream_id;
    from_occurred_at = c.from_occurred_at;
    until_occurred_at = c.until_occurred_at;
    pinned_head = some c.pinned_head;
    after_revision = some c.after_revision;
    limit = limit;
    expected_window = some c.window;
    previous_root = some c.previous_root;
    minimum_live_head = some c.minimum_live_head;
  })
