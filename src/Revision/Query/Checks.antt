-- ===== src/Revision/Query/Checks.antt =====
-- revision_stream.go: the window and the page of verifyRevisionStreamQueryPage.
use talon_sdk_go.Base.{
  ℕ, ◌+◌, ◌-◌, ◌%◌, ◌^◌, Bool, true, false, not, ◌&&◌, Option, none, some, List, [], ◌∷◌, Result,
  ok, err, plain, guard, ◌>>◌, ltb, leb, ◌==◌, if◌then◌else◌, bytes_equal,
}
use talon_sdk_go.Base.Int.{ℤ, ltb_ℤ}
use talon_sdk_go.Revision.{Peak}
use talon_sdk_go.Revision.Query.{
  Head, RevisionRange, Entry, ProofPoint, QueryProof, QueryRequest, QueryPage,
}

abbrev pub is_some : {A : Type 0} → Option A → Bool
is_some none = false
is_some (some _) = true

-- *pointer == revision, where the pointer is not nil.
abbrev pub points_to : Option ℕ → ℕ → Bool
points_to none revision = false
points_to (some r) revision = r == revision

-- The time is in the window of the request.
unfoldable pub in_time : QueryRequest → ℤ → Bool
in_time request time =
    not (ltb_ℤ time request.from_occurred_at) && ltb_ℤ time request.until_occurred_at

-- The proof at the lower end of a window that begins with the revision, and at the upper end.
unfoldable pub lower_end : QueryRequest → ℕ → Option ProofPoint → Bool
lower_end request first none = first == 1
lower_end request first (some p) =
    not (first == 1)
    && (p.revision == (first + 2 ^ 64 - 1) % 2 ^ 64)
    && ltb_ℤ p.occurred_at request.from_occurred_at

unfoldable pub upper_end : QueryRequest → ℕ → ℕ → Option ProofPoint → Bool
upper_end request pinned last none = last == pinned
upper_end request pinned last (some p) =
    not (last == pinned)
    && (p.revision == (last + 1) % 2 ^ 64)
    && not (ltb_ℤ p.occurred_at request.until_occurred_at)

unfoldable pub end_point : QueryRequest → ℕ → Option ProofPoint → Bool
end_point request revision none = false
end_point request revision (some p) = (p.revision == revision) && in_time request p.occurred_at

-- The place in the stream at which an empty window stands.
unfoldable pub empty_between : ℕ → Option ProofPoint → Option ProofPoint → Bool
empty_between pinned none none = false
empty_between pinned none (some s) = s.revision == 1
empty_between pinned (some p) none = p.revision == pinned
empty_between pinned (some p) (some s) =
    not (p.revision == 2 ^ 64 - 1) && ((p.revision + 1) % 2 ^ 64 == s.revision)

unfoldable pub ends_before : QueryRequest → Option ProofPoint → Bool
ends_before request none = true
ends_before request (some p) = ltb_ℤ p.occurred_at request.from_occurred_at

unfoldable pub starts_behind : QueryRequest → Option ProofPoint → Bool
starts_behind request none = true
starts_behind request (some p) = not (ltb_ℤ p.occurred_at request.until_occurred_at)

-- The window against its proof points.
unfoldable pub check_window :
    QueryRequest → ℕ → QueryProof → Option ℕ → Option ℕ → Result (Unit {0})
check_window request pinned proof (some first) (some last) = do
  guard (end_point request first proof.window_first && end_point request last proof.window_last)
      plain
  guard (lower_end request first proof.window_predecessor) plain
  guard (upper_end request pinned last proof.window_successor) plain
check_window request pinned proof none none = do
  guard (not (is_some proof.window_first) && not (is_some proof.window_last)) plain
  guard (ends_before request proof.window_predecessor) plain
  guard (starts_behind request proof.window_successor) plain
  guard (empty_between pinned proof.window_predecessor proof.window_successor) plain
check_window request pinned proof (some first) none = err plain
check_window request pinned proof none (some last) = err plain

-- The revision that the page begins with.
unfoldable pub check_cursor : ℕ → Option ℕ → Option ℕ → Option ℕ → Result (Option ℕ)
check_cursor pinned none first last = ok first
check_cursor pinned (some after) (some first) (some last) = do
  guard (leb first after && leb after last && ltb after pinned) plain
  ok (some ((after + 1) % 2 ^ 64))
check_cursor pinned (some after) none last = err plain
check_cursor pinned (some after) (some first) none = err plain

abbrev pub last_entry : Entry → List Entry → Entry
last_entry e [] = e
last_entry e (next ∷ es) = last_entry next es

-- The window ends with the revision behind which the page would begin.
unfoldable pub exhausted : Option ℕ → Option ℕ → Bool
exhausted none after = true
exhausted (some last) after = points_to after last

-- The bounds of the page against its entries.
unfoldable pub page_ends : QueryRequest → Option ℕ → Option ℕ → RevisionRange → List Entry → Bool
page_ends request last expected page [] =
    not (is_some page.first) && not (is_some page.last) && exhausted last request.after_revision
page_ends request last expected page (e ∷ es) =
    points_to page.first e.revision
    && points_to page.last (last_entry e es).revision
    && points_to expected e.revision

-- The entry is behind the one in front of it, in revision and in roots.
unfoldable pub linked : Option Entry → Entry → Bool
linked none e = true
linked (some previous) e =
    not (previous.revision == 2 ^ 64 - 1)
    && ((previous.revision + 1) % 2 ^ 64 == e.revision)
    && bytes_equal e.previous_root_sha256 previous.root_sha256

unfoldable pub in_window : Option ℕ → Option ℕ → ℕ → Bool
in_window none last revision = false
in_window (some first) none revision = false
in_window (some first) (some last) revision = leb first revision && leb revision last

unfoldable pub head_peaks : Head → Option (List Peak)
head_peaks head = elim head.proof [ none ↦ none | some proof ↦ some proof.peaks ]

-- The last entry against the pinned head, or against the point behind it.
unfoldable pub check_tail : Head → Option ProofPoint → Entry → Bool
check_tail pinned none tail =
    (tail.revision == pinned.revision) && bytes_equal tail.root_sha256 pinned.root_sha256
check_tail pinned (some p) tail =
    not (tail.revision == pinned.revision)
    && (p.revision == (tail.revision + 1) % 2 ^ 64)
    && bytes_equal p.previous_root_sha256 tail.root_sha256

unfoldable pub page_tail : Head → Option ProofPoint → List Entry → Bool
page_tail pinned successor [] = true
page_tail pinned successor (e ∷ es) = check_tail pinned successor (last_entry e es)

-- More entries follow, and the cursor says behind which.
unfoldable pub expected_more : Option ℕ → Option ℕ → Bool
expected_more none last = false
expected_more (some actual) none = false
expected_more (some actual) (some last) = ltb actual last

unfoldable pub same_cursor : Option ℕ → Option ℕ → Bool
same_cursor next none = false
same_cursor next (some actual) = points_to next actual

unfoldable pub check_more : QueryPage → Option ℕ → Bool
check_more result last =
    let more = expected_more result.page.last last in
    if more
    then result.has_more && same_cursor result.next_after_revision result.page.last
    else not result.has_more && not (is_some result.next_after_revision)
