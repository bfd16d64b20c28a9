-- ===== src/Revision/Query/Entries.antt =====
-- revision_stream.go: the entries of a page that verifyRevisionStreamQueryPage accepts.
use talon_sdk_go.Base.{
  ℕ, suc, ◌+◌, ◌-◌, ◌%◌, ◌^◌, ◌≤◌, ◌<◌, ◌≡◌, refl, Bool, true, not, ◌&&◌, Option, none, some, List,
  [], ◌∷◌, ◌++◌, Bytes, ok, plain, ◌>>◌, guarded_ok, both_true, then_ok, ◌==◌, bytes_equal,
  bytes_equal→eq, arith,
}
use talon_sdk_go.Base.Int.{ltb_ℤ, ◌≤ℤ◌}
use talon_sdk_go.Revision.{InclusionProof}
use talon_sdk_go.Revision.Query.{Head, RevisionRange, Entry, QueryRequest}
use talon_sdk_go.Revision.Query.Checks.{in_time, last_entry, linked, in_window}
use talon_sdk_go.Revision.Query.Verify.{verify_entry, check_entries}

-- The entry stands directly behind the one in front of it, and its root was computed over that one's.
unfoldable pub Follows : Option Entry → Entry → Type 0
Follows none e = Unit
Follows (some previous) e =
    (e.revision ≡ suc previous.revision) × (e.previous_root_sha256 ≡ previous.root_sha256)

unfoldable pub Chain : Option Entry → List Entry → Type 0
Chain previous [] = Unit
Chain previous (e ∷ es) = Follows previous e × Chain (some e) es

-- The entry is in the time window and in the window of revisions.
unfoldable pub InWindow : QueryRequest → RevisionRange → Entry → Type 0
InWindow request window e =
    (request.from_occurred_at ≤ℤ e.occurred_at)
    × (ltb_ℤ e.occurred_at request.until_occurred_at ≡ true)
    × (in_window window.first window.last e.revision ≡ true)

unfoldable pub AllInWindow : QueryRequest → RevisionRange → List Entry → Type 0
AllInWindow request window [] = Unit
AllInWindow request window (e ∷ es) = InWindow request window e × AllInWindow request window es

pub Chain-append :
    (previous : Option Entry) (e : Entry) (es fs : List Entry)
    → Chain previous (e ∷ es)
    → Chain (some (last_entry e es)) fs
    → Chain previous (e ∷ es ++ fs)
unfolding Chain
Chain-append previous e [] fs h k = (h.0, k)
Chain-append previous e (next ∷ es) fs h k = (h.0, Chain-append (some e) next es fs h.1 k)

successor :
    (a b : ℕ) (same : Bool)
    → a < 2 ^ 64
    → (not (a == 2 ^ 64 - 1) && ((a + 1) % 2 ^ 64 == b) && same) ≡ true
    → (b ≡ suc a) × (same ≡ true)
successor a b same h e = ground arith

linked-Follows :
    (previous : Option Entry) (e : Entry) (bound : ℕ)
    → bound < 2 ^ 64
    → (elim previous [ none ↦ 0 | some p ↦ p.revision ]) ≤ bound
    → linked previous e ≡ true
    → Follows previous e
unfolding linked Follows
linked-Follows none e bound b h l = tt
linked-Follows (some p) e bound b h l =
    let (up, same) =
      successor p.revision e.revision (bytes_equal e.previous_root_sha256 p.root_sha256)
        (omega (arith, b, h)) l in
    (up, bytes_equal→eq e.previous_root_sha256 p.root_sha256 same)

in_time-InWindow :
    (request : QueryRequest) (window : RevisionRange) (e : Entry)
    → (in_time request e.occurred_at && in_window window.first window.last e.revision) ≡ true
    → InWindow request window e
unfolding in_time InWindow
in_time-InWindow request window e h =
    let (time, inside) =
      both_true (in_time request e.occurred_at) (in_window window.first window.last e.revision) h in
    let (low, high) =
      both_true (not (ltb_ℤ e.occurred_at request.from_occurred_at))
        (ltb_ℤ e.occurred_at request.until_occurred_at) time in
    (ground (arith, low), high, inside)

-- The facts of one step of the loop.
pub entry_step :
    (sha256 : Bytes → Bytes) (request : QueryRequest) (pinned : Head) (window : RevisionRange)
    (previous : Option Entry) (e : Entry) (es : List Entry) (proofs : List InclusionProof)
    → check_entries sha256 request pinned window previous (e ∷ es) proofs ≡ ok tt
    → (inclusion : InclusionProof) × (rest : List InclusionProof) × (linked previous e ≡ true)
      × ((in_time request e.occurred_at && in_window window.first window.last e.revision) ≡ true)
      × (verify_entry sha256 request.stream_id pinned e inclusion ≡ ok tt)
      × (check_entries sha256 request pinned window (some e) es rest ≡ ok tt)
      × (proofs ≡ inclusion ∷ rest)
unfolding check_entries
entry_step sha256 request pinned window previous e es [] h = cc
entry_step sha256 request pinned window previous e es (inclusion ∷ rest) h =
    let (link, passed) = guarded_ok (linked previous e) plain _ h in
    let (inside, checked) =
      guarded_ok (in_time request e.occurred_at && in_window window.first window.last e.revision)
        plain
        (verify_entry sha256 request.stream_id pinned e inclusion
          >> check_entries sha256 request pinned window (some e) es rest)
        passed in
    let (verified, others) =
      then_ok (verify_entry sha256 request.stream_id pinned e inclusion) _ checked in
    (inclusion, rest, link, inside, verified, others, refl)

pub check_entries-AllInWindow :
    (sha256 : Bytes → Bytes) (request : QueryRequest) (pinned : Head) (window : RevisionRange)
    (previous : Option Entry) (es : List Entry) (proofs : List InclusionProof)
    → check_entries sha256 request pinned window previous es proofs ≡ ok tt
    → AllInWindow request window es
unfolding AllInWindow
check_entries-AllInWindow sha256 request pinned window previous [] proofs h = tt
check_entries-AllInWindow sha256 request pinned window previous (e ∷ es) proofs h =
    let (inclusion, rest, link, inside, verified, others, _) =
      entry_step sha256 request pinned window previous e es proofs h in
    (
      in_time-InWindow request window e inside,
      check_entries-AllInWindow sha256 request pinned window (some e) es rest others,
    )

-- No entry is above the bound.
unfoldable pub AllBelow : ℕ → List Entry → Type 0
AllBelow bound [] = Unit
AllBelow bound (e ∷ es) = (e.revision ≤ bound) × AllBelow bound es

pub check_entries-Chain :
    (sha256 : Bytes → Bytes) (request : QueryRequest) (pinned : Head) (window : RevisionRange)
    (previous : Option Entry) (es : List Entry) (proofs : List InclusionProof) (bound : ℕ)
    → bound < 2 ^ 64
    → (elim previous [ none ↦ 0 | some p ↦ p.revision ]) ≤ bound
    → AllBelow bound es
    → check_entries sha256 request pinned window previous es proofs ≡ ok tt
    → Chain previous es
unfolding Chain AllBelow
check_entries-Chain sha256 request pinned window previous [] proofs bound b low below h = tt
check_entries-Chain sha256 request pinned window previous (e ∷ es) proofs bound b low below h =
    let (inclusion, rest, link, inside, verified, others, _) =
      entry_step sha256 request pinned window previous e es proofs h in
    (
      linked-Follows previous e bound b low link,
      check_entries-Chain sha256 request pinned window (some e) es rest bound b below.0 below.1
          others,
    )
