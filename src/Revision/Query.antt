-- ===== src/Revision/Query.antt =====
-- revision_stream.go: the data of the pages of a revision stream.
-- A pointer that may be nil is an Option, a revision a number, a time an integer.
pub mod Checks
pub mod Verify
pub mod Entries
pub mod Window
pub mod Heads
pub mod Pages
pub mod Acceptance
pub mod Continuations
pub mod Sequence
pub mod Authentic
mod Tests
use talon_sdk_go.Base.{
  ℕ, zero, suc, ◌+◌, ◌-◌, ◌*◌, ◌%◌, ◌^◌, Bool, true, false, not, ◌&&◌, ◌||◌, Option, none, some,
  List, [], ◌∷◌, Bytes, Result, ok, err, plain, guard, ◌>>=◌, ◌>>◌, ltb, leb, ◌==◌, if◌then◌else◌,
  length, codes, bytes_equal,
}
use talon_sdk_go.Base.Int.{ℤ, pos, negsuc, ltb_ℤ}
use talon_sdk_go.Revision.{
  Peak, InclusionProof, decode_digest, content_digest, head_root, merkle_root, validate_peaks,
  verify_inclusion,
}

-- uint64(int64)
unfoldable pub to_uint64 : ℤ → ℕ
to_uint64 (pos n) = n % 2 ^ 64
to_uint64 (negsuc n) = 2 ^ 64 - suc n

-- RevisionStreamProofHead, RevisionStreamHead, RevisionStreamRevisionRange
pub record ProofHead : Type 0 where
  pub version : ℕ
  pub leaf_count : ℕ
  pub root_sha256 : Bytes
  pub last_content_sha256 : Bytes
  pub peaks : List Peak

pub record Head : Type 0 where
  pub revision : ℕ
  pub last_occurred_at : ℤ
  pub root_sha256 : Bytes
  pub proof : Option ProofHead

pub record RevisionRange : Type 0 where
  pub first : Option ℕ
  pub last : Option ℕ

-- RevisionStreamEntry, RevisionStreamProofPoint, RevisionStreamQueryProof
pub record Entry : Type 0 where
  pub revision : ℕ
  pub occurred_at : ℤ
  pub payload : Bytes
  pub payload_sha256 : Bytes
  pub root_sha256 : Bytes
  pub previous_root_sha256 : Bytes
  pub content_sha256 : Bytes
  pub proof_root_sha256 : Bytes

pub record ProofPoint : Type 0 where
  pub revision : ℕ
  pub occurred_at : ℤ
  pub payload_sha256 : Bytes
  pub previous_root_sha256 : Bytes
  pub content_sha256 : Bytes
  pub proof_root_sha256 : Bytes
  pub root_sha256 : Bytes
  pub inclusion : InclusionProof

pub record QueryProof : Type 0 where
  pub version : ℕ
  pub scheme : Bytes
  pub root_sha256 : Bytes
  pub window_predecessor : Option ProofPoint
  pub window_first : Option ProofPoint
  pub window_last : Option ProofPoint
  pub window_successor : Option ProofPoint
  pub page_successor : Option ProofPoint
  pub entry_proofs : List InclusionProof

-- RevisionStreamQueryRequest, RevisionStreamQueryPage (its Continuation is set after this check)
pub record QueryRequest : Type 0 where
  pub stream_id : Bytes
  pub from_occurred_at : ℤ
  pub until_occurred_at : ℤ
  pub pinned_head : Option Head
  pub after_revision : Option ℕ
  pub limit : ℕ
  pub expected_window : Option RevisionRange
  pub previous_root : Option Bytes
  pub minimum_live_head : Option Head

pub record QueryPage : Type 0 where
  pub pinned_head : Option Head
  pub observed_live_head : Option Head
  pub query_window : RevisionRange
  pub page : RevisionRange
  pub next_after_revision : Option ℕ
  pub has_more : Bool
  pub entries : List Entry
  pub proof : Option QueryProof
