-- ===== src/Revision/Merge.antt =====
-- revision_stream.go: the loop of appendRevisionStreamMerkleLeaf over the peaks.
use talon_sdk_go.Base.{
  ℕ, zero, suc, ◌+◌, ◌*◌, ◌/◌, ◌%◌, ◌^◌, ◌≤◌, ◌<◌, ◌≡◌, refl, sym, ap, subst, ◌∙◌, true, false,
  List, [], ◌∷◌, ◌++◌, map, Bytes, ok, ◌==◌, ==_iff, ==-refl, arith, Bool-cases, inl, inr,
}
use talon_sdk_go.Revision.{Peak, Node, merkle_node, join, merge_peaks}
use talon_sdk_go.Revision.Digests.{IsDigest}
use talon_sdk_go.Revision.Layout.{
  low_layout, peak_at-odd, peak_at-even, odd_blocks, even_blocks, two_pow, two_pow-pos,
}
use talon_sdk_go.Revision.Range.{tree, node_of, peak_of, AllBlocks, decode_digest-tree}

module _ (sha256 : Bytes → Bytes) (digests : (bs : Bytes) → IsDigest (sha256 bs))
    (stream_id : Bytes) (leaf : ℕ → Bytes)
    (leaves : (revision : ℕ) → IsDigest (leaf revision)) where
  merge_peaks-taller :
      (k j i b start : ℕ) (created : List Node)
      → i < j
      → merge_peaks sha256 stream_id
          (map (peak_of sha256 stream_id leaf) (low_layout k j b))
          (node_of sha256 stream_id leaf (i, start))
          created
        ≡ ok (
          map (peak_of sha256 stream_id leaf) (low_layout k j b),
          node_of sha256 stream_id leaf (i, start),
          created,
        )
  unfolding merge_peaks
  merge_peaks-taller zero j i b start created h = refl
  merge_peaks-taller (suc k) j i b start created h = elim (Bool-cases (b % 2 == 1)) [
    | inl odd ↦
        let differ : (j == i) ≡ false = ground arith in rw (peak_at-odd j b odd) (rw differ refl)
    | inr even ↦
        rw (peak_at-even j b even)
          (merge_peaks-taller k (suc j) i (b / 2) start created (omega (arith, h)))
  ]

  node_at :
      (h start end : ℕ)
      → start ≡ end
      → node_of sha256 stream_id leaf (h, start) ≡ node_of sha256 stream_id leaf (h, end)
  node_at h start end e = ap (λ s. node_of sha256 stream_id leaf (h, s)) e

  grown :
      (i start : ℕ) {h end : ℕ}
      → h ≡ suc i
      → end ≡ start + 2 ^ i
      → ok (record {
        height = h;
        start_revision = start;
        root =
            merkle_node sha256 stream_id h start
              (tree sha256 stream_id leaf i start)
              (tree sha256 stream_id leaf i end);
      })
        ≡ ok (node_of sha256 stream_id leaf (suc i, start))
  unfolding tree
  grown i start {h} {end} up e = rw up (rw e refl)

  join-tree :
      (i start end : ℕ)
      → start + 2 ^ i ≡ end
      → end < 2 ^ 64
      → i < 63
      → join sha256 stream_id
          (node_of sha256 stream_id leaf (i, end))
          (peak_of sha256 stream_id leaf (i, start))
        ≡ ok (node_of sha256 stream_id leaf (suc i, start))
  unfolding join tree
  join-tree i start end e b h =
      let adjacent : ((start + 2 ^ i) % 2 ^ 64 == end) ≡ true =
        (==_iff ((start + 2 ^ i) % 2 ^ 64) end).1 (omega (arith, e, b)) in
      let low : (i == 63) ≡ false = ground arith in
      rw adjacent (
        rw low (
          rw (decode_digest-tree sha256 digests stream_id leaf leaves i start)
            (grown i start (omega arith) (sym e))))

  AllBlocks-snoc :
      (end : ℕ) (nodes : List Node) (node : Node)
      → AllBlocks sha256 stream_id leaf end nodes
      → AllBlocks sha256 stream_id leaf end (node ∷ [])
      → AllBlocks sha256 stream_id leaf end (nodes ++ node ∷ [])
  unfolding AllBlocks
  AllBlocks-snoc end [] node hs h = h
  AllBlocks-snoc end (n ∷ nodes) node hs h = (hs.0, hs.1, AllBlocks-snoc end nodes node hs.2 h)

  -- The loop of the append over the peaks from height `i` on, where `a` blocks of that height are
  -- full and one more is: it ends in the peaks of `a + 1` blocks.
  abbrev pub Merged : ℕ → ℕ → ℕ → List Node → Type 0
  Merged k i a created =
      (kept : List Peak) × (at : ℕ × ℕ) × (nodes : List Node) × (merge_peaks sha256 stream_id
          (map (peak_of sha256 stream_id leaf) (low_layout k i a))
          (node_of sha256 stream_id leaf (i, a * 2 ^ i + 1)) created
        ≡ ok (kept, node_of sha256 stream_id leaf at, nodes))
      × (peak_of sha256 stream_id leaf at ∷ kept
          ≡ map (peak_of sha256 stream_id leaf) (low_layout k i (a + 1)))
      × AllBlocks sha256 stream_id leaf ((a + 1) * 2 ^ i + 1) nodes

  last_peak :
      (k i a start : ℕ)
      → (a % 2 == 1) ≡ true
      → a / 2 * (2 * 2 ^ i) + 1 ≡ start
      → low_layout (suc k) i a ≡ (i, start) ∷ low_layout k (suc i) (a / 2)
  last_peak k i a start odd e =
      ap (λ l. l ++ low_layout k (suc i) (a / 2)) (peak_at-odd i a odd ∙ ap (λ s. (i, s) ∷ []) e)

  merge_even :
      (k i a : ℕ) (created : List Node)
      → (a % 2 == 1) ≡ false
      → AllBlocks sha256 stream_id leaf ((a + 1) * 2 ^ i + 1) created
      → Merged (suc k) i a created
  merge_even k i a created even blocks =
      let odd : ((a + 1) % 2 == 1) ≡ true = ground arith in
      let half : (a + 1) / 2 ≡ a / 2 = ground arith in
      let start : (a + 1) / 2 * (2 * 2 ^ i) + 1 ≡ a * 2 ^ i + 1 =
        ap (λ b. b * (2 * 2 ^ i) + 1) half ∙ ap (λ b. b + 1) (even_blocks a (2 ^ i) even) in
      (
        map (peak_of sha256 stream_id leaf) (low_layout k (suc i) (a / 2)),
        (i, a * 2 ^ i + 1),
        created,
        rw (peak_at-even i a even)
            (merge_peaks-taller k (suc i) i (a / 2) (a * 2 ^ i + 1) created (omega arith)),
        sym (
            ap (λ l. map (peak_of sha256 stream_id leaf) l)
              (last_peak k i (a + 1) (a * 2 ^ i + 1) odd start
                ∙ ap (λ b. (i, a * 2 ^ i + 1) ∷ low_layout k (suc i) b) half)),
        blocks,
      )

  taller_left : (k a : ℕ) → (a % 2 == 1) ≡ true → a + 1 < 2 ^ suc k → 1 ≤ k
  taller_left zero a odd h = ground arith
  taller_left (suc k) a odd h = omega arith

  half_bound : (k a : ℕ) → (a % 2 == 1) ≡ true → a + 1 < 2 ^ suc k → a / 2 + 1 < 2 ^ k
  half_bound k a odd h = let double = two_pow k in ground arith

  half_blocks : (i a : ℕ) → (a % 2 == 1) ≡ true → (a / 2 + 1) * 2 ^ suc i ≡ (a + 1) * 2 ^ i
  half_blocks i a odd =
      let half : (a / 2 + 1) * 2 ≡ a + 1 = ground arith in
      ap (λ p. (a / 2 + 1) * p) (two_pow i) ∙ (omega arith ∙ ap (λ b. b * 2 ^ i) half)

  join_odd :
      (i start a k : ℕ) (created : List Node)
      → (a % 2 == 1) ≡ true
      → i + suc k ≡ 64
      → a + 1 < 2 ^ suc k
      → (a + 1) * 2 ^ i < 2 ^ 64
      → start ≡ a / 2 * 2 ^ suc i + 1
      → AllBlocks sha256 stream_id leaf ((a + 1) * 2 ^ i + 1) created
      → (low_layout (suc k) i a ≡ (i, start) ∷ low_layout k (suc i) (a / 2))
        × (join sha256 stream_id
              (node_of sha256 stream_id leaf (i, a * 2 ^ i + 1))
              (peak_of sha256 stream_id leaf (i, start))
            ≡ ok (node_of sha256 stream_id leaf (suc i, start)))
        × AllBlocks sha256 stream_id leaf
            ((a + 1) * 2 ^ i + 1)
            (created ++ node_of sha256 stream_id leaf (suc i, start) ∷ [])
  unfolding AllBlocks
  join_odd i start a k created odd size h bound e blocks =
      let from : a / 2 * (2 * 2 ^ i) + 1 ≡ start = sym (e ∙ ap (λ p. a / 2 * p + 1) (two_pow i)) in
      let adjacent = ap (λ s. s + 2 ^ i) (sym from) ∙ odd_blocks a (2 ^ i) odd in
      let low : i < 63 = omega (arith, size, taller_left k a odd h) in
      let positive = two_pow-pos i in
      (
        last_peak k i a start odd from,
        join-tree i start (a * 2 ^ i + 1) adjacent (omega (arith, bound, positive)) low,
        AllBlocks-snoc ((a + 1) * 2 ^ i + 1) created _ blocks
            (refl, omega (arith, adjacent, two_pow i), tt),
      )

  join_step :
      (i start end : ℕ) (layout : List (ℕ × ℕ)) (created : List Node) {whole : List (ℕ × ℕ)}
      → whole ≡ (i, start) ∷ layout
      → join sha256 stream_id
          (node_of sha256 stream_id leaf (i, end))
          (peak_of sha256 stream_id leaf (i, start))
        ≡ ok (node_of sha256 stream_id leaf (suc i, start))
      → merge_peaks sha256 stream_id
          (map (peak_of sha256 stream_id leaf) whole)
          (node_of sha256 stream_id leaf (i, end))
          created
        ≡ merge_peaks sha256 stream_id
            (map (peak_of sha256 stream_id leaf) layout)
            (node_of sha256 stream_id leaf (suc i, start))
            (created ++ node_of sha256 stream_id leaf (suc i, start) ∷ [])
  unfolding merge_peaks
  join_step i start end layout created e joined = rw e (rw (==-refl i) (rw joined refl))

  even_layout :
      (k i a : ℕ)
      → (a % 2 == 1) ≡ true
      → low_layout k (suc i) (a / 2 + 1) ≡ low_layout (suc k) i (a + 1)
  even_layout k i a odd =
      let even : ((a + 1) % 2 == 1) ≡ false = ground arith in
      let half : a / 2 + 1 ≡ (a + 1) / 2 = ground arith in
      rw (peak_at-even i (a + 1) even) (ap (λ b. low_layout k (suc i) b) half)

  pub merge_low :
      (k i a : ℕ) (created : List Node)
      → i + k ≡ 64
      → a + 1 < 2 ^ k
      → (a + 1) * 2 ^ i < 2 ^ 64
      → AllBlocks sha256 stream_id leaf ((a + 1) * 2 ^ i + 1) created
      → Merged k i a created
  merge_low zero i a created size h bound blocks =
      let absurd : ⊥ = omega (arith, h) in elim absurd [ ]
  merge_low (suc k) i a created size h bound blocks = elim (Bool-cases (a % 2 == 1)) [
    | inl odd ↦
        let from = join_odd i (a / 2 * 2 ^ suc i + 1) a k created odd size h bound refl blocks in
        let grown_nodes =
          created ++ node_of sha256 stream_id leaf (suc i, a / 2 * 2 ^ suc i + 1) ∷ [] in
        let total = half_blocks i a odd in
        let rest =
          merge_low k (suc i) (a / 2) grown_nodes (omega (arith, size)) (half_bound k a odd h)
            (subst (λ z. z < 2 ^ 64) (sym total) bound)
            (subst (λ z. AllBlocks sha256 stream_id leaf (z + 1) grown_nodes) (sym total) from.2) in
        (
          rest.0,
          rest.1,
          rest.2,
          join_step i (a / 2 * 2 ^ suc i + 1) (a * 2 ^ i + 1) (low_layout k (suc i) (a / 2)) created
                from.0 from.1
              ∙ rest.3,
          rest.4 ∙ ap (λ l. map (peak_of sha256 stream_id leaf) l) (even_layout k i a odd),
          subst (λ z. AllBlocks sha256 stream_id leaf (z + 1) rest.2) total rest.5,
        )
    | inr even ↦ merge_even k i a created even blocks
  ]
