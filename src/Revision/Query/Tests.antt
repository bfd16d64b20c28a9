-- ===== src/Revision/Query/Tests.antt =====
-- revision_stream.go: witnesses for the pages, with a constant in the place of SHA-256.
use talon_sdk_go.Base.{
  ℕ, ◌+◌, ◌%◌, ◌^◌, ◌<◌, ◌≤◌, ◌≡◌, ◌⊎◌, refl, true, false, [], ◌∷◌, every, bytes_equal, Option,
  none, some, Bytes, ok, length, codes, arith,
}
use talon_sdk_go.Base.Int.{ℤ, pos, ◌≤ℤ◌}
use talon_sdk_go.Base.Words.{put_le}
use talon_sdk_go.Conditional.Results.{is_sha}
use talon_sdk_go.Revision.{
  InclusionProof, hex_text, hex_digit, hex_value, unhex, decode_digest, layout_from, peak_layout,
  has_bit, fits_layout, peaks_bytes, stream_hash, content_digest, merkle_leaf, merkle_node,
  merkle_root, head_root, validate_peaks, put_be, climb, verify_under, verify_chosen,
  verify_inclusion,
}
use talon_sdk_go.Revision.Range.{tree}
use talon_sdk_go.Revision.Collisions.{Collides}
use talon_sdk_go.Revision.Tests.{zeros, constant, constant-IsDigest}
use talon_sdk_go.Revision.Query.{
  to_uint64, Head, RevisionRange, Entry, ProofPoint, QueryProof, QueryRequest, QueryPage,
}
use talon_sdk_go.Revision.Query.Checks.{
  in_time, lower_end, upper_end, end_point, empty_between, ends_before, starts_behind, check_window,
  check_cursor, exhausted, page_ends, linked, in_window, head_peaks, check_tail, page_tail,
  expected_more, same_cursor, check_more,
}
use talon_sdk_go.Revision.Query.Verify.{
  check_digests, verify_point, verify_points, verify_entry, check_entries, verify_with,
  verify_proofs, verify_heads, verify_query_page,
}
use talon_sdk_go.Revision.Query.Heads.{
  peaks_equal, proof_heads_equal, heads_equal, pointers_equal, ranges_equal,
}
use talon_sdk_go.Revision.Query.Pages.{
  Continuation, valid_range, follows, live_follows, keeps_head, keeps_minimum, keeps_window,
  page_in_window, valid_entry, valid_entries, page_of_entries, begins_window, cursor_fits,
  keeps_root, root_or_zero, continuation_of, check_ends, validate_proof_head, validate_head,
  accept_with, accept_heads, accept_page, check_pinned, valid_cursor, issued, new_query_request,
  next_request,
}
use talon_sdk_go.Revision.Query.Entries.{Chain}
use talon_sdk_go.Revision.Query.Sequence.{IsPage, accept_page-IsPage, accept_page-next_request}
use talon_sdk_go.Revision.Query.Authentic.{
  Event, event_peaks, AllEvents, page_pairs, accept_page-AllEvents,
}
use talon_sdk_go.Revision.Query.Window.{IsPoint, check_window-in_window}

abbrev zero_text : Bytes
zero_text = hex_text zeros

abbrev head : Head
head = record {
  revision = 2;
  last_occurred_at = pos 6;
  root_sha256 = zero_text;
  proof = some (record {
    version = 1;
    leaf_count = 2;
    root_sha256 = zero_text;
    last_content_sha256 = zero_text;
    peaks = record { height = 1; start_revision = 1; root_sha256 = zero_text } ∷ [];
  });
}

abbrev inclusion : ℕ → Bytes → InclusionProof
inclusion r side = record {
  version = 1;
  revision = r;
  leaf_sha256 = zero_text;
  peak_index = 0;
  siblings = record { height = 0; side = side; root_sha256 = zero_text } ∷ [];
}

abbrev first_inclusion : InclusionProof
first_inclusion = inclusion 1 (codes "right")

abbrev second_inclusion : InclusionProof
second_inclusion = inclusion 2 (codes "left")

abbrev entry : ℕ → Entry
entry r = record {
  revision = r;
  occurred_at = pos (4 + r);
  payload = codes "a";
  payload_sha256 = zero_text;
  root_sha256 = zero_text;
  previous_root_sha256 = zero_text;
  content_sha256 = zero_text;
  proof_root_sha256 = zero_text;
}

abbrev point : ℕ → InclusionProof → ProofPoint
point r inclusion = record {
  revision = r;
  occurred_at = pos (4 + r);
  payload_sha256 = zero_text;
  previous_root_sha256 = zero_text;
  content_sha256 = zero_text;
  proof_root_sha256 = zero_text;
  root_sha256 = zero_text;
  inclusion = inclusion;
}

abbrev page_proof : Option ProofPoint → InclusionProof → QueryProof
page_proof successor inclusion = record {
  version = 1;
  scheme = codes "talon_mmr_sha256_v1";
  root_sha256 = zero_text;
  window_predecessor = none;
  window_first = some (point 1 first_inclusion);
  window_last = some (point 2 second_inclusion);
  window_successor = none;
  page_successor = successor;
  entry_proofs = inclusion ∷ [];
}

abbrev range : ℕ → ℕ → RevisionRange
range first last = record { first = some first; last = some last }

abbrev first_page : QueryPage
first_page = record {
  pinned_head = some head;
  observed_live_head = some head;
  query_window = range 1 2;
  page = range 1 1;
  next_after_revision = some 1;
  has_more = true;
  entries = entry 1 ∷ [];
  proof = some (page_proof (some (point 2 second_inclusion)) first_inclusion);
}

abbrev second_page : QueryPage
second_page = record {
  pinned_head = some head;
  observed_live_head = some head;
  query_window = range 1 2;
  page = range 2 2;
  next_after_revision = none;
  has_more = false;
  entries = entry 2 ∷ [];
  proof = some (page_proof none second_inclusion);
}

abbrev first_request : QueryRequest
first_request = record {
  stream_id = codes "s";
  from_occurred_at = pos 0;
  until_occurred_at = pos 10;
  pinned_head = none;
  after_revision = none;
  limit = 1;
  expected_window = none;
  previous_root = none;
  minimum_live_head = none;
}

abbrev continuation : Continuation
continuation = record {
  stream_id = codes "s";
  from_occurred_at = pos 0;
  until_occurred_at = pos 10;
  pinned_head = head;
  after_revision = 1;
  window = range 1 2;
  previous_root = zeros;
  minimum_live_head = head;
}

abbrev second_request : QueryRequest
second_request = record {
  stream_id = codes "s";
  from_occurred_at = pos 0;
  until_occurred_at = pos 10;
  pinned_head = some head;
  after_revision = some 1;
  limit = 1;
  expected_window = some (range 1 2);
  previous_root = some zeros;
  minimum_live_head = some head;
}

first_accepted : accept_page constant first_request first_page ≡ ok (some continuation)
unfolding every bytes_equal put_le is_sha hex_text hex_digit hex_value unhex decode_digest
    layout_from peak_layout has_bit fits_layout peaks_bytes stream_hash content_digest merkle_leaf
    merkle_node merkle_root head_root validate_peaks put_be climb verify_under verify_chosen
    verify_inclusion to_uint64 in_time lower_end upper_end end_point empty_between ends_before
    starts_behind check_window check_cursor exhausted page_ends linked in_window head_peaks
    check_tail page_tail expected_more same_cursor check_more check_digests verify_point
    verify_points verify_entry check_entries verify_with verify_proofs verify_heads
    verify_query_page peaks_equal proof_heads_equal heads_equal pointers_equal ranges_equal
    valid_range follows live_follows keeps_head keeps_minimum keeps_window page_in_window
    valid_entry valid_entries page_of_entries begins_window cursor_fits keeps_root root_or_zero
    continuation_of check_ends validate_proof_head validate_head accept_with accept_heads
    accept_page check_pinned valid_cursor issued new_query_request next_request
first_accepted = refl

second_asked : next_request constant continuation 1 ≡ ok second_request
unfolding every bytes_equal put_le is_sha hex_text hex_digit hex_value unhex decode_digest
    layout_from peak_layout has_bit fits_layout peaks_bytes stream_hash content_digest merkle_leaf
    merkle_node merkle_root head_root validate_peaks put_be climb verify_under verify_chosen
    verify_inclusion to_uint64 in_time lower_end upper_end end_point empty_between ends_before
    starts_behind check_window check_cursor exhausted page_ends linked in_window head_peaks
    check_tail page_tail expected_more same_cursor check_more check_digests verify_point
    verify_points verify_entry check_entries verify_with verify_proofs verify_heads
    verify_query_page peaks_equal proof_heads_equal heads_equal pointers_equal ranges_equal
    valid_range follows live_follows keeps_head keeps_minimum keeps_window page_in_window
    valid_entry valid_entries page_of_entries begins_window cursor_fits keeps_root root_or_zero
    continuation_of check_ends validate_proof_head validate_head accept_with accept_heads
    accept_page check_pinned valid_cursor issued new_query_request next_request
second_asked = refl

second_accepted : accept_page constant second_request second_page ≡ ok none
unfolding every bytes_equal put_le is_sha hex_text hex_digit hex_value unhex decode_digest
    layout_from peak_layout has_bit fits_layout peaks_bytes stream_hash content_digest merkle_leaf
    merkle_node merkle_root head_root validate_peaks put_be climb verify_under verify_chosen
    verify_inclusion to_uint64 in_time lower_end upper_end end_point empty_between ends_before
    starts_behind check_window check_cursor exhausted page_ends linked in_window head_peaks
    check_tail page_tail expected_more same_cursor check_more check_digests verify_point
    verify_points verify_entry check_entries verify_with verify_proofs verify_heads
    verify_query_page peaks_equal proof_heads_equal heads_equal pointers_equal ranges_equal
    valid_range follows live_follows keeps_head keeps_minimum keeps_window page_in_window
    valid_entry valid_entries page_of_entries begins_window cursor_fits keeps_root root_or_zero
    continuation_of check_ends validate_proof_head validate_head accept_with accept_heads
    accept_page check_pinned valid_cursor issued new_query_request next_request
second_accepted = refl

accept_page-IsPage_example : IsPage first_request first_page
accept_page-IsPage_example =
    accept_page-IsPage constant first_request first_page head (some continuation) refl (omega arith)
      first_accepted

accept_page-next_request_example :
    Chain none (entry 1 ∷ entry 2 ∷ [])
    × (ranges_equal (range 1 2) (range 1 2) ≡ true)
    × (pinned : Head) × (◌≡◌ {A = Option Head} (some head) (some pinned))
    × (heads_equal pinned head ≡ true)
accept_page-next_request_example =
    accept_page-next_request constant first_request second_request first_page second_page head
      continuation 1 none refl (omega arith) first_accepted second_asked second_accepted

abbrev event : ℕ → Event
event r = record { previous_root = zeros; occurred = (4 + r) % 2 ^ 64; payload = codes "a" }

event-size : (r : ℕ) → length (event r).previous_root ≡ 32
event-size r = refl

event-bound : (r : ℕ) → (event r).occurred < 256 ^ 8
event-bound r = omega arith

peaks_of_events :
    head_peaks head
    ≡ some (event_peaks constant constant-IsDigest (codes "s") event event-size event-bound 2)
unfolding head_peaks peak_layout layout_from has_bit hex_text hex_digit tree merkle_node merkle_leaf
    stream_hash
peaks_of_events = refl

accept_page-AllEvents_example :
    AllEvents constant constant-IsDigest (codes "s") event event-size event-bound (entry 1 ∷ [])
    ⊎ Collides constant (
        page_pairs constant constant-IsDigest
          (codes "s")
          event
          event-size
          event-bound
          2
          (entry 1 ∷ [])
          (first_inclusion ∷ []))
accept_page-AllEvents_example =
    accept_page-AllEvents constant constant-IsDigest (codes "s") event event-size event-bound
      first_request first_page head 2 (some continuation) refl refl peaks_of_events first_accepted

ascending : (a b : ℕ) → a ≤ b → pos (4 + a) ≤ℤ pos (4 + b)
ascending a b h = omega (arith, h)

window_accepted :
    check_window first_request 2 (page_proof none first_inclusion) (some 1) (some 2) ≡ ok tt
unfolding check_window end_point in_time lower_end upper_end
window_accepted = refl

abbrev time_of : ℕ → ℤ
time_of r = pos (4 + r)

first_IsPoint : IsPoint time_of ascending 2 (omega arith) (some (point 1 first_inclusion))
unfolding IsPoint
first_IsPoint = (refl, omega arith, omega arith)

last_IsPoint : IsPoint time_of ascending 2 (omega arith) (some (point 2 second_inclusion))
unfolding IsPoint
last_IsPoint = (refl, omega arith, omega arith)

none-IsPoint : IsPoint time_of ascending 2 (omega arith) none
unfolding IsPoint
none-IsPoint = tt

check_window-in_window_example : in_time first_request (pos 6) ≡ in_window (some 1) (some 2) 2
check_window-in_window_example =
    check_window-in_window time_of ascending 2 (omega arith) first_request
      (page_proof none first_inclusion) (some 1) (some 2) 2 none-IsPoint first_IsPoint last_IsPoint
      none-IsPoint window_accepted (omega arith) (omega arith)
