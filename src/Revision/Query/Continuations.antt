-- ===== src/Revision/Query/Continuations.antt =====
-- revision_stream.go: a page and the page of its continuation.
use talon_sdk_go.Base.{
  ℕ, suc, ◌+◌, ◌%◌, ◌^◌, ◌<◌, ◌≡◌, refl, sym, ap, ◌∙◌, Bool, true, false, not, ◌&&◌, Option, none,
  some, List, [], ◌∷◌, Bytes, ok, plain, guarded_ok, both_true, then_ok, ltb, leb, ◌==◌, ==_iff,
  length, arith,
}
use talon_sdk_go.Base.Int.{ltb_ℤ}
use talon_sdk_go.Revision.{decode_digest}
use talon_sdk_go.Revision.Query.{Head, RevisionRange, Entry, QueryRequest}
use talon_sdk_go.Revision.Query.Checks.{points_to, check_cursor, last_entry, page_ends}
use talon_sdk_go.Revision.Query.Pages.{
  Continuation, invalid, max_stream_id_bytes, max_query_limit, root_or_zero, cursor_fits,
  continuation_of, check_pinned, valid_cursor, issued, new_query_request, next_request,
}

-- The page begins behind the cursor, or with the window.
unfoldable pub Begins : Option ℕ → Option ℕ → List Entry → Type 0
Begins after first [] = Unit
Begins none first (e ∷ es) = first ≡ some e.revision
Begins (some after) first (e ∷ es) = e.revision ≡ suc after

ok_inj : {A : Type 0} {a b : A} → ok a ≡ ok b → a ≡ b
ok_inj h = cc

pub some_inj : {A : Type 0} {a b : A} → some a ≡ some b → a ≡ b
some_inj h = cc

pub points_to-eq : (p : Option ℕ) (r : ℕ) → points_to p r ≡ true → p ≡ some r
points_to-eq none r h = cc
points_to-eq (some a) r h = ap some ((==_iff a r).0 h)

pub cursor_ends-Begins :
    (request : QueryRequest) (pinned : ℕ) (after first last expected : Option ℕ)
    (page : RevisionRange) (es : List Entry)
    → pinned < 2 ^ 64
    → check_cursor pinned after first last ≡ ok expected
    → page_ends request last expected page es ≡ true
    → Begins after first es
unfolding check_cursor page_ends Begins
cursor_ends-Begins request pinned after first last expected page [] b h k = tt
cursor_ends-Begins request pinned none first last expected page (e ∷ es) b h k =
    let (_, ends) =
      both_true (points_to page.first e.revision && points_to page.last (last_entry e es).revision)
        (points_to expected e.revision) k in
    let same : first ≡ expected = cc in same ∙ points_to-eq expected e.revision ends
cursor_ends-Begins request pinned (some a) none last expected page (e ∷ es) b h k = cc
cursor_ends-Begins request pinned (some a) (some f) none expected page (e ∷ es) b h k = cc
cursor_ends-Begins request pinned (some a) (some f) (some l) expected page (e ∷ es) b h k =
    let (_, ends) =
      both_true (points_to page.first e.revision && points_to page.last (last_entry e es).revision)
        (points_to expected e.revision) k in
    let (inside, made) = guarded_ok (leb f a && leb a l && ltb a pinned) plain _ h in
    let next : some ((a + 1) % 2 ^ 64) ≡ expected = cc in
    let same : some ((a + 1) % 2 ^ 64) ≡ some e.revision =
      next ∙ points_to-eq expected e.revision ends in
    let revision = some_inj same in ground (arith, revision, inside, b)

-- What a continuation keeps of its page.
pub continuation_step :
    (request : QueryRequest) (pinned live : Head) (window : RevisionRange) (more : Bool)
    (next : Option ℕ) (es : List Entry) (c : Continuation)
    → continuation_of request pinned live window more next es ≡ some c
    → (e : Entry) × (rest : List Entry) × (es ≡ e ∷ rest)
      × (more ≡ true)
      × (next ≡ some c.after_revision)
      × (c.pinned_head ≡ pinned)
      × (c.window ≡ window)
      × (c.previous_root ≡ root_or_zero (decode_digest (last_entry e rest).root_sha256))
unfolding continuation_of
continuation_step request pinned live window true (some n) (e ∷ rest) c h =
    let same = some_inj h in
    (
      e,
      rest,
      refl,
      refl,
      ap (λ (k : Continuation). some k.after_revision) same,
      ap (λ (k : Continuation). k.pinned_head) (sym same),
      ap (λ (k : Continuation). k.window) (sym same),
      ap (λ (k : Continuation). k.previous_root) (sym same),
    )
continuation_step request pinned live window true (some n) [] c h = cc
continuation_step request pinned live window true none es c h = cc
continuation_step request pinned live window false next es c h = cc

pub next_request-eq :
    (sha256 : Bytes → Bytes) (c : Continuation) (limit : ℕ) (request : QueryRequest)
    → next_request sha256 c limit ≡ ok request
    → request ≡ record {
      stream_id = c.stream_id;
      from_occurred_at = c.from_occurred_at;
      until_occurred_at = c.until_occurred_at;
      pinned_head = some c.pinned_head;
      after_revision = some c.after_revision;
      limit = limit;
      expected_window = some c.window;
      previous_root = some c.previous_root;
      minimum_live_head = some c.minimum_live_head;
    }
unfolding next_request new_query_request issued
next_request-eq sha256 c limit request h =
    let (_, h1) =
      guarded_ok (not (length c.stream_id == 0) && leb (length c.stream_id) max_stream_id_bytes)
        invalid _ h in
    let (_, h2) = guarded_ok (ltb_ℤ c.from_occurred_at c.until_occurred_at) invalid _ h1 in
    let (_, h3) = guarded_ok (not (limit == 0) && leb limit max_query_limit) invalid _ h2 in
    let (_, h4) = then_ok (check_pinned sha256 c.stream_id (some c.pinned_head)) _ h3 in
    let (_, h5) =
      guarded_ok (valid_cursor (some c.pinned_head) (some c.after_revision)) invalid _ h4 in
    let (_, h6) = guarded_ok true invalid _ h5 in sym (ok_inj h6)

-- The cursor of a page is its last revision.
pub cursor_fits-last :
    (more : Bool) (next page_last last : Option ℕ) (n : ℕ)
    → cursor_fits more next page_last last ≡ true
    → more ≡ true
    → next ≡ some n
    → page_last ≡ some n
unfolding cursor_fits
cursor_fits-last true (some m) (some l) (some last) n h more e =
    let (same, _) = both_true (m == l) (ltb l last) h in sym (ap some ((==_iff m l).0 same)) ∙ e
cursor_fits-last true (some m) (some l) none n h more e = cc
cursor_fits-last true (some m) none last n h more e = cc
cursor_fits-last true none l last n h more e = cc
cursor_fits-last false next l last n h more e = cc
