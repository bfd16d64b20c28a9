-- ===== src/Revision/Range.antt =====
-- revision_stream.go: the canonical peaks over leaves, as an independent description of them.
use talon_sdk_go.Base.{
  ℕ, zero, suc, ◌+◌, ◌%◌, ◌^◌, ◌≤◌, ◌≡◌, refl, ap, true, List, [], ◌∷◌, ◌++◌, map, Bytes, ok, leb,
  codes, length, bytes_equal_refl, ==-refl, ==_iff, arith, Bool-cases, inl, inr,
}
use talon_sdk_go.Revision.{
  has_bit, put_be, Peak, Node, hex_text, decode_digest, layout_from, peak_layout, fits_layout,
  peaks_bytes, stream_hash, merkle_node, merkle_root, validate_peaks, max_peaks,
}
use talon_sdk_go.Revision.Digests.{IsDigest, decode_digest-hex_text, hex_text-is_sha}

-- The perfect Merkle tree over the 2 ^ h leaves from `start` on.
unfoldable pub tree : (Bytes → Bytes) → Bytes → (ℕ → Bytes) → ℕ → ℕ → Bytes
tree sha256 stream_id leaf zero start = leaf start
tree sha256 stream_id leaf (suc h) start =
    merkle_node sha256 stream_id (suc h) start (tree sha256 stream_id leaf h start)
      (tree sha256 stream_id leaf h (start + 2 ^ h))

-- The node of a block, and the peak of one.
abbrev pub node_of : (Bytes → Bytes) → Bytes → (ℕ → Bytes) → ℕ × ℕ → Node
node_of sha256 stream_id leaf (h, start) = record {
  height = h;
  start_revision = start;
  root = tree sha256 stream_id leaf h start;
}

abbrev pub peak_of : (Bytes → Bytes) → Bytes → (ℕ → Bytes) → ℕ × ℕ → Peak
peak_of sha256 stream_id leaf (h, start) = record {
  height = h;
  start_revision = start;
  root_sha256 = hex_text (tree sha256 stream_id leaf h start);
}

-- The canonical peaks over the leaves 1 to `n`.
abbrev pub mountain_range : (Bytes → Bytes) → Bytes → (ℕ → Bytes) → ℕ → List Peak
mountain_range sha256 stream_id leaf n = map (peak_of sha256 stream_id leaf) (peak_layout n)

-- Every node is the tree over a block of leaves that ends in front of `end`.
unfoldable pub AllBlocks : (Bytes → Bytes) → Bytes → (ℕ → Bytes) → ℕ → List Node → Type 0
AllBlocks sha256 stream_id leaf end [] = Unit
AllBlocks sha256 stream_id leaf end (node ∷ nodes) =
    (node.root ≡ tree sha256 stream_id leaf node.height node.start_revision)
    × (node.start_revision + 2 ^ node.height ≡ end)
    × AllBlocks sha256 stream_id leaf end nodes

module _ (sha256 : Bytes → Bytes) (digests : (bs : Bytes) → IsDigest (sha256 bs))
    (stream_id : Bytes) (leaf : ℕ → Bytes)
    (leaves : (revision : ℕ) → IsDigest (leaf revision)) where
  pub tree-IsDigest : (h start : ℕ) → IsDigest (tree sha256 stream_id leaf h start)
  unfolding tree
  tree-IsDigest zero start = leaves start
  tree-IsDigest (suc h) start = unfold merkle_node stream_hash in digests _

  pub decode_digest-tree :
      (h start : ℕ)
      → decode_digest (hex_text (tree sha256 stream_id leaf h start))
        ≡ ok (tree sha256 stream_id leaf h start)
  decode_digest-tree h start = decode_digest-hex_text _ (tree-IsDigest h start)

  peaks_bytes-range :
      (layout : List (ℕ × ℕ))
      → (fields : Bytes) × (peaks_bytes (map (peak_of sha256 stream_id leaf) layout) ≡ ok fields)
  unfolding peaks_bytes
  peaks_bytes-range [] = ([], refl)
  peaks_bytes-range ((h, start) ∷ layout) =
      let rest = peaks_bytes-range layout in
      (
        h ∷ (put_be 8 start ++ (tree sha256 stream_id leaf h start ++ rest.0)),
        rw (decode_digest-tree h start) (rw rest.1 refl),
      )

  fits_layout-range :
      (layout : List (ℕ × ℕ))
      → fits_layout (map (peak_of sha256 stream_id leaf) layout) layout ≡ true
  unfolding fits_layout
  fits_layout-range [] = refl
  fits_layout-range ((h, start) ∷ layout) = rw (==-refl h) (
      rw (==-refl start)
        (rw (hex_text-is_sha _ (tree-IsDigest h start)) (fits_layout-range layout)))

  length-range :
      (layout : List (ℕ × ℕ)) → length (map (peak_of sha256 stream_id leaf) layout) ≡ length layout
  length-range [] = refl
  length-range (_ ∷ layout) = ap suc (length-range layout)

  layout_from-length : (h n s : ℕ) → length (layout_from h n s) ≤ h
  unfolding layout_from
  layout_from-length zero n s = omega arith
  layout_from-length (suc h) n s = elim (Bool-cases (has_bit h n)) [
    | inl set ↦ rw set (omega (arith, layout_from-length h n ((s + 2 ^ h) % 2 ^ 64)))
    | inr clear ↦ rw clear (omega (arith, layout_from-length h n s))
  ]

  range-short : (n : ℕ) → leb (length (mountain_range sha256 stream_id leaf n)) max_peaks ≡ true
  unfolding peak_layout
  range-short n =
      let short = layout_from-length 64 n 1 in
      let same = length-range (peak_layout n) in ground (arith, short, same)

  validate_peaks-ok :
      (n : ℕ) (peaks : List Peak) (root : Bytes)
      → length peaks ≡ length (peak_layout n)
      → leb (length peaks) max_peaks ≡ true
      → fits_layout peaks (peak_layout n) ≡ true
      → merkle_root sha256 stream_id n peaks ≡ ok root
      → IsDigest root
      → validate_peaks sha256 stream_id n peaks (hex_text root) ≡ ok tt
  unfolding validate_peaks
  validate_peaks-ok n peaks root same short fits calculated digest =
      let counted = (==_iff (length peaks) (length (peak_layout n))).1 same in
      rw counted (
        rw short (
          rw fits (
            rw calculated
              (rw (decode_digest-hex_text root digest) (rw (bytes_equal_refl root) refl)))))

  merkle_root-range :
      (n : ℕ)
      → (root : Bytes) × (merkle_root sha256 stream_id n (mountain_range sha256 stream_id leaf n)
          ≡ ok root)
        × IsDigest root
  unfolding merkle_root stream_hash
  merkle_root-range n =
      let peaks = mountain_range sha256 stream_id leaf n in
      let fields = peaks_bytes-range (peak_layout n) in
      (
        stream_hash sha256 (codes "TALON_REVISION_STREAM_MMR_ROOT_V1") stream_id
            (put_be 8 n ++ (length peaks ∷ fields.0)),
        rw (range-short n) (rw fields.1 refl),
        digests _,
      )

  -- The canonical peaks have a root, and the validation accepts them under it.
  pub validate_peaks-mountain_range :
      (n : ℕ)
      → (root : Bytes) × (merkle_root sha256 stream_id n (mountain_range sha256 stream_id leaf n)
          ≡ ok root)
        × IsDigest root
        × (validate_peaks sha256 stream_id n
              (mountain_range sha256 stream_id leaf n)
              (hex_text root)
            ≡ ok tt)
  validate_peaks-mountain_range n =
      let calculated = merkle_root-range n in
      (
        calculated.0,
        calculated.1,
        calculated.2,
        validate_peaks-ok n (mountain_range sha256 stream_id leaf n) calculated.0
            (length-range (peak_layout n)) (range-short n) (fits_layout-range (peak_layout n))
            calculated.1 calculated.2,
      )
