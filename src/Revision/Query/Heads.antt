-- ===== src/Revision/Query/Heads.antt =====
-- revision_stream.go: the comparison of heads and of ranges.
use talon_sdk_go.Base.{
  ℕ, ◌+◌, Bool, true, false, ◌&&◌, Option, none, some, List, [], ◌∷◌, ◌==◌, bytes_equal,
}
use talon_sdk_go.Base.Int.{ℤ, pos_part, neg_part}
use talon_sdk_go.Revision.{Peak}
use talon_sdk_go.Revision.Query.{ProofHead, Head, RevisionRange}

abbrev pub same_time : ℤ → ℤ → Bool
same_time a b = pos_part a + neg_part b == pos_part b + neg_part a

-- revisionStreamHeadsEqual
unfoldable pub peaks_equal : List Peak → List Peak → Bool
peaks_equal [] [] = true
peaks_equal [] (_ ∷ _) = false
peaks_equal (_ ∷ _) [] = false
peaks_equal (p ∷ ps) (q ∷ qs) =
    (p.height == q.height)
    && (p.start_revision == q.start_revision)
    && bytes_equal p.root_sha256 q.root_sha256
    && peaks_equal ps qs

unfoldable pub proof_heads_equal : Option ProofHead → Option ProofHead → Bool
proof_heads_equal none none = true
proof_heads_equal none (some _) = false
proof_heads_equal (some _) none = false
proof_heads_equal (some p) (some q) =
    (p.version == q.version)
    && (p.leaf_count == q.leaf_count)
    && bytes_equal p.root_sha256 q.root_sha256
    && bytes_equal p.last_content_sha256 q.last_content_sha256
    && peaks_equal p.peaks q.peaks

unfoldable pub heads_equal : Head → Head → Bool
heads_equal left right =
    (left.revision == right.revision)
    && same_time left.last_occurred_at right.last_occurred_at
    && bytes_equal left.root_sha256 right.root_sha256
    && proof_heads_equal left.proof right.proof

-- uint64PointersEqual, revisionStreamRangesEqual
unfoldable pub pointers_equal : Option ℕ → Option ℕ → Bool
pointers_equal none none = true
pointers_equal none (some _) = false
pointers_equal (some _) none = false
pointers_equal (some a) (some b) = a == b

unfoldable pub ranges_equal : RevisionRange → RevisionRange → Bool
ranges_equal left right =
    pointers_equal left.first right.first && pointers_equal left.last right.last
