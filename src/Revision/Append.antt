-- ===== src/Revision/Append.antt =====
-- revision_stream.go: the leaf appended to the peaks (appendRevisionStreamMerkleLeaf).
use talon_sdk_go.Base.{
  ℕ, zero, suc, ◌+◌, ◌*◌, ◌^◌, ◌<◌, ◌≡◌, refl, sym, ap, subst, ◌∙◌, List, [], ◌∷◌, ◌++◌, map,
  reverse, map-append, reverse-cons, reverse-reverse, Bytes, ok, arith,
}
use talon_sdk_go.Revision.{Peak, Node, merge_peaks, check_previous, append_leaf}
use talon_sdk_go.Revision.Digests.{IsDigest}
use talon_sdk_go.Revision.Layout.{low_layout, peak_layout-low_layout, peak_layout-zero}
use talon_sdk_go.Revision.Range.{
  tree, node_of, peak_of, mountain_range, AllBlocks, validate_peaks-mountain_range,
}
use talon_sdk_go.Revision.Merge.{merge_low}

module _ (sha256 : Bytes → Bytes) (digests : (bs : Bytes) → IsDigest (sha256 bs))
    (stream_id : Bytes) (leaf : ℕ → Bytes)
    (leaves : (revision : ℕ) → IsDigest (leaf revision)) where
  map-reverse :
      (layout : List (ℕ × ℕ))
      → map (peak_of sha256 stream_id leaf) (reverse layout)
        ≡ reverse (map (peak_of sha256 stream_id leaf) layout)
  map-reverse [] = refl
  map-reverse (at ∷ layout) =
      let here = peak_of sha256 stream_id leaf at in
      ap (map (peak_of sha256 stream_id leaf)) (reverse-cons at layout)
      ∙ (map-append (peak_of sha256 stream_id leaf) (reverse layout) (at ∷ [])
          ∙ (ap (λ l. l ++ here ∷ []) (map-reverse layout)
              ∙ sym (reverse-cons here (map (peak_of sha256 stream_id leaf) layout))))

  range-low :
      (n : ℕ)
      → n < 2 ^ 64
      → mountain_range sha256 stream_id leaf n
        ≡ reverse (map (peak_of sha256 stream_id leaf) (low_layout 64 0 n))
  range-low n b =
      ap (map (peak_of sha256 stream_id leaf)) (peak_layout-low_layout n b)
      ∙ map-reverse (low_layout 64 0 n)

  check_previous-range :
      (n : ℕ)
      → check_previous sha256 stream_id (mountain_range sha256 stream_id leaf n) (suc n) ≡ ok tt
  unfolding check_previous
  check_previous-range zero = rw (ap (map (peak_of sha256 stream_id leaf)) peak_layout-zero) refl
  check_previous-range (suc n) =
      let accepted = validate_peaks-mountain_range sha256 digests stream_id leaf leaves (suc n) in
      rw accepted.1 accepted.3

  merged_range :
      (n : ℕ)
      → suc n < 2 ^ 64
      → (kept : List Peak) × (at : ℕ × ℕ) × (nodes : List Node) × (merge_peaks sha256 stream_id
            (reverse (mountain_range sha256 stream_id leaf n))
            (node_of sha256 stream_id leaf (0, suc n))
            (node_of sha256 stream_id leaf (0, suc n) ∷ [])
          ≡ ok (kept, node_of sha256 stream_id leaf at, nodes))
        × (reverse (peak_of sha256 stream_id leaf at ∷ kept)
            ≡ mountain_range sha256 stream_id leaf (suc n))
        × AllBlocks sha256 stream_id leaf (suc (suc n)) nodes
  unfolding AllBlocks tree
  merged_range n b =
      let first : n * 2 ^ 0 + 1 ≡ suc n = omega arith in
      let next : n + 1 ≡ suc n = omega arith in
      let created = node_of sha256 stream_id leaf (0, suc n) ∷ [] in
      let low =
        merge_low sha256 digests stream_id leaf leaves 64 0 n created refl (omega (arith, b))
          (omega (arith, b)) (refl, omega arith, tt) in
      let stored = range-low n (omega (arith, b)) in
      (
        low.0,
        low.1,
        low.2,
        ap
              (λ peaks.
                merge_peaks sha256 stream_id peaks (node_of sha256 stream_id leaf (0, suc n))
                  created)
              (ap reverse stored
                ∙ reverse-reverse (map (peak_of sha256 stream_id leaf) (low_layout 64 0 n)))
            ∙ (ap
                  (λ start.
                    merge_peaks sha256 stream_id
                      (map (peak_of sha256 stream_id leaf) (low_layout 64 0 n))
                      (node_of sha256 stream_id leaf (0, start)) created)
                  (sym first)
                ∙ low.3),
        ap reverse (low.4 ∙ ap (λ m. map (peak_of sha256 stream_id leaf) (low_layout 64 0 m)) next)
            ∙ sym (range-low (suc n) b),
        subst (λ end. AllBlocks sha256 stream_id leaf end low.2) (omega arith) low.5,
      )

  -- Where SHA-256 returns 32 bytes, the leaves are digests and the next revision fits 64 bits: the
  -- append accepts the canonical peaks over n leaves with the next leaf, and returns the canonical
  -- peaks over n + 1 leaves. Every node that it creates is the perfect tree over a block of leaves
  -- that ends with the new one.
  pub append_leaf-mountain_range :
      (n : ℕ)
      → suc n < 2 ^ 64
      → (nodes : List Node) × (append_leaf sha256 stream_id
            (mountain_range sha256 stream_id leaf n)
            (suc n)
            (leaf (suc n))
          ≡ ok (mountain_range sha256 stream_id leaf (suc n), nodes))
        × AllBlocks sha256 stream_id leaf (suc (suc n)) nodes
  unfolding append_leaf tree
  append_leaf-mountain_range n b =
      let merged = merged_range n b in
      let accepted = validate_peaks-mountain_range sha256 digests stream_id leaf leaves (suc n) in
      (
        merged.2,
        rw (check_previous-range n)
            (rw merged.3 (rw merged.4 (rw accepted.1 (rw accepted.3 refl)))),
        merged.5,
      )
