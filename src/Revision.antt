-- ===== src/Revision.antt =====
-- revision_stream.go: the Merkle mountain range of a revision stream, its peaks and its inclusion proofs.
-- SHA-256 is a parameter, and a `[32]byte` is a list of bytes.
pub mod Digests
pub mod Layout
pub mod Range
mod Merge
pub mod Append
mod Collisions
mod Climb
pub mod Inclusion
pub mod Honest
pub mod Query
mod Tests
use talon_sdk_go.Base.{
  ℕ, zero, suc, ◌+◌, ◌-◌, ◌*◌, ◌/◌, ◌%◌, ◌^◌, Bool, true, false, not, ◌&&◌, ◌||◌, Option, none,
  some, List, [], ◌∷◌, ◌++◌, reverse, map, Bytes, Result, ok, err, plain, guard, ◌>>=◌, ◌>>◌, ltb,
  leb, ◌==◌, if◌then◌else◌, length, codes, bytes_equal, get_elem?,
}
use talon_sdk_go.Base.Words.{put_le}
use talon_sdk_go.Conditional.Results.{is_sha}

abbrev pub max_peaks : ℕ
max_peaks = 64

abbrev pub max_depth : ℕ
max_depth = 63

-- RevisionStreamMerklePeak; the digest is its hexadecimal text.
pub record Peak : Type 0 where
  pub height : ℕ
  pub start_revision : ℕ
  pub root_sha256 : Bytes

-- revisionStreamMerkleNode
pub record Node : Type 0 where
  pub height : ℕ
  pub start_revision : ℕ
  pub root : Bytes

-- hex.EncodeToString
pub hex_digit : ℕ → ℕ
hex_digit d = if ltb d 10 then 48 + d else 87 + d

pub hex_text : Bytes → Bytes
hex_text [] = []
hex_text (b ∷ bs) = hex_digit (b / 16) ∷ hex_digit (b % 16) ∷ hex_text bs

-- hex.DecodeString, of lowercase digits.
pub hex_value : ℕ → ℕ
hex_value c = if ltb c 58 then c - 48 else c - 87

pub unhex : Bytes → Bytes
unhex [] = []
unhex (_ ∷ []) = []
unhex (c ∷ d ∷ cs) = (hex_value c * 16 + hex_value d) ∷ unhex cs

-- decodeRevisionStreamDigest
pub decode_digest : Bytes → Result Bytes
decode_digest text = if is_sha text then ok (unhex text) else err plain

-- binary.BigEndian
pub put_be : ℕ → ℕ → Bytes
put_be k v = reverse (put_le k v)

-- expectedRevisionStreamPeakLayout: the heights below `h`, the highest first, with the starts.
pub has_bit : ℕ → ℕ → Bool
has_bit h count = (count / 2 ^ h) % 2 == 1

pub layout_from : ℕ → ℕ → ℕ → List (ℕ × ℕ)
layout_from zero count start = []
layout_from (suc h) count start =
    let next = if has_bit h count then (start + 2 ^ h) % 2 ^ 64 else start in
    let rest = layout_from h count next in if has_bit h count then (h, start) ∷ rest else rest

pub peak_layout : ℕ → List (ℕ × ℕ)
peak_layout leaf_count = layout_from 64 leaf_count 1

-- The loop of validateRevisionStreamPeaks over the peaks; the lists have one length.
pub fits_layout : List Peak → List (ℕ × ℕ) → Bool
fits_layout [] [] = true
fits_layout (p ∷ ps) ((height, start) ∷ layout) =
    (p.height == height)
    && (p.start_revision == start)
    && is_sha p.root_sha256
    && fits_layout ps layout
fits_layout [] (_ ∷ _) = false
fits_layout (_ ∷ _) [] = false

-- The fields of the peaks that calculateRevisionStreamMerkleRoot hashes.
pub peaks_bytes : List Peak → Result Bytes
peaks_bytes [] = ok []
peaks_bytes (p ∷ ps) = do
  root ← decode_digest p.root_sha256
  rest ← peaks_bytes ps
  ok (p.height ∷ (put_be 8 p.start_revision ++ (root ++ rest)))

module _ (sha256 : Bytes → Bytes) where
  -- revisionStreamHash, of the values joined.
  pub stream_hash : Bytes → Bytes → Bytes → Bytes
  stream_hash domain stream_id values =
      sha256 (domain ++ (put_be 4 (length stream_id) ++ (stream_id ++ values)))

  -- calculateRevisionStreamContent, -MerkleLeaf, -MerkleNode, -MerkleRoot and -HeadRoot
  pub content_digest : Bytes → Bytes → ℕ → ℕ → Bytes → Bytes
  content_digest stream_id previous_root revision occurred_at payload_sha =
      stream_hash (codes "TALON_REVISION_STREAM_CONTENT_V2") stream_id
        (previous_root ++ (put_be 8 revision ++ (put_be 8 occurred_at ++ payload_sha)))

  pub merkle_leaf : Bytes → ℕ → Bytes → Bytes
  merkle_leaf stream_id revision content =
      stream_hash (codes "TALON_REVISION_STREAM_MMR_LEAF_V1") stream_id
        (put_be 8 revision ++ content)

  pub merkle_node : Bytes → ℕ → ℕ → Bytes → Bytes → Bytes
  merkle_node stream_id height start left right =
      stream_hash (codes "TALON_REVISION_STREAM_MMR_NODE_V1") stream_id
        (height ∷ (put_be 8 start ++ (left ++ right)))

  pub merkle_root : Bytes → ℕ → List Peak → Result Bytes
  merkle_root stream_id leaf_count peaks = do
    guard (leb (length peaks) max_peaks) plain
    fields ← peaks_bytes peaks
    ok (
        stream_hash (codes "TALON_REVISION_STREAM_MMR_ROOT_V1") stream_id
          (put_be 8 leaf_count ++ (length peaks ∷ fields)))

  pub head_root : Bytes → ℕ → ℕ → Bytes → Bytes → Bytes
  head_root stream_id revision occurred_at content proof_root =
      stream_hash (codes "TALON_REVISION_STREAM_HEAD_V2") stream_id
        (put_be 8 revision ++ (put_be 8 occurred_at ++ (content ++ proof_root)))

  -- validateRevisionStreamPeaks
  pub validate_peaks : Bytes → ℕ → List Peak → Bytes → Result (Unit {0})
  validate_peaks stream_id leaf_count peaks expected_root = do
    guard ((length peaks == length (peak_layout leaf_count)) && leb (length peaks) max_peaks) plain
    guard (fits_layout peaks (peak_layout leaf_count)) plain
    calculated ← merkle_root stream_id leaf_count peaks
    expected ← decode_digest expected_root
    guard (bytes_equal calculated expected) plain

  -- The loop of appendRevisionStreamMerkleLeaf: the peaks with the last one first, the node that
  -- grows, and the nodes created.
  pub join : Bytes → Node → Peak → Result Node
  join stream_id node left = do
    guard
        (((left.start_revision + 2 ^ node.height) % 2 ^ 64 == node.start_revision)
          && not (node.height == 63))
        plain
    left_root ← decode_digest left.root_sha256
    ok (record {
      height = node.height + 1;
      start_revision = left.start_revision;
      root = merkle_node stream_id (node.height + 1) left.start_revision left_root node.root;
    })

  pub merge_peaks : Bytes → List Peak → Node → List Node → Result (List Peak × Node × List Node)
  merge_peaks stream_id [] node created = ok ([], node, created)
  merge_peaks stream_id (left ∷ rest) node created =
      if left.height == node.height
      then (join stream_id node left >>= λ larger.
          merge_peaks stream_id rest larger (created ++ larger ∷ []))
      else ok (left ∷ rest, node, created)

  -- The checks in front of the loop.
  pub check_previous : Bytes → List Peak → ℕ → Result (Unit {0})
  check_previous stream_id previous zero = err plain
  check_previous stream_id previous (suc zero) = guard (length previous == 0) plain
  check_previous stream_id previous (suc (suc n)) = do
    root ← merkle_root stream_id (suc n) previous
    validate_peaks stream_id (suc n) previous (hex_text root)

  -- appendRevisionStreamMerkleLeaf
  pub append_leaf : Bytes → List Peak → ℕ → Bytes → Result (List Peak × List Node)
  append_leaf stream_id previous revision leaf = do
    check_previous stream_id previous revision
    let node : Node = record { height = 0; start_revision = revision; root = leaf }
    (kept, top, created) ← merge_peaks stream_id (reverse previous) node (node ∷ [])
    let last : Peak = record {
      height = top.height;
      start_revision = top.start_revision;
      root_sha256 = hex_text top.root;
    }
    let peaks = reverse (last ∷ kept)
    root ← merkle_root stream_id revision peaks
    validate_peaks stream_id revision peaks (hex_text root)
    ok (peaks, created)

-- RevisionStreamProofStep
pub record Step : Type 0 where
  pub height : ℕ
  pub side : Bytes
  pub root_sha256 : Bytes

-- RevisionStreamInclusionProof
pub record InclusionProof : Type 0 where
  pub version : ℕ
  pub revision : ℕ
  pub leaf_sha256 : Bytes
  pub peak_index : ℕ
  pub siblings : List Step

module _ (sha256 : Bytes → Bytes) where
  -- The loop of verifyRevisionStreamInclusion over the siblings, from the height on.
  pub climb : Bytes → ℕ → ℕ → ℕ → List Step → Bytes → Result Bytes
  climb stream_id start local height [] current = ok current
  climb stream_id start local height (step ∷ steps) current = do
    let is_right = (local / 2 ^ height) % 2 == 1
    let block_start = start + local / 2 ^ height * 2 ^ height
    guard
        ((step.height == height)
          && bytes_equal step.side (if is_right then codes "left" else codes "right"))
        plain
    sibling ← decode_digest step.root_sha256
    climb stream_id start local (suc height) steps (
        if is_right
        then merkle_node sha256 stream_id (height + 1) (block_start - 2 ^ height) sibling current
        else merkle_node sha256 stream_id (height + 1) block_start current sibling)

  -- verifyRevisionStreamInclusion behind the choice of the peak.
  pub verify_under : Bytes → Peak → ℕ → Bytes → InclusionProof → Result (Unit {0})
  verify_under stream_id peak revision content inclusion = do
    guard
        (leb peak.height max_depth
          && leb peak.start_revision revision
          && ltb (revision - peak.start_revision) (2 ^ peak.height)
          && (length inclusion.siblings == peak.height))
        plain
    let leaf = merkle_leaf sha256 stream_id revision content
    expected_leaf ← decode_digest inclusion.leaf_sha256
    guard (bytes_equal leaf expected_leaf) plain
    top ←
        climb stream_id peak.start_revision (revision - peak.start_revision) 0 inclusion.siblings
          leaf
    root ← decode_digest peak.root_sha256
    guard (bytes_equal top root) plain

  pub verify_chosen : Bytes → Option Peak → ℕ → Bytes → InclusionProof → Result (Unit {0})
  verify_chosen stream_id none revision content inclusion = err plain
  verify_chosen stream_id (some peak) revision content inclusion =
      verify_under stream_id peak revision content inclusion

  -- verifyRevisionStreamInclusion
  pub verify_inclusion : Bytes → Option (List Peak) → ℕ → Bytes → InclusionProof → Result (Unit {0})
  verify_inclusion stream_id none revision content inclusion = err plain
  verify_inclusion stream_id (some peaks) revision content inclusion = do
    guard ((inclusion.version == 1) && (inclusion.revision == revision)) plain
    verify_chosen stream_id (get_elem? peaks inclusion.peak_index) revision content inclusion
