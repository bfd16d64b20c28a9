-- ===== src/Revision/Honest.antt =====
-- revision_stream.go: the inclusion proofs that the tree itself gives.
use talon_sdk_go.Base.{
  ℕ, zero, suc, ◌+◌, ◌-◌, ◌/◌, ◌%◌, ◌^◌, ◌≤◌, ◌<◌, ◌≡◌, refl, sym, ap, ◌∙◌, subst, true, false,
  ◌&&◌, List, [], ◌∷◌, map, some, Bytes, ok, ltb, leb, ◌==◌, ==-refl, if◌then◌else◌, codes, length,
  get_elem?, bytes_equal_refl, arith, Bool-cases, inl, inr,
}
use talon_sdk_go.Revision.{
  Peak, Step, InclusionProof, hex_text, has_bit, layout_from, peak_layout, stream_hash, merkle_leaf,
  merkle_node, climb, verify_under, verify_chosen, verify_inclusion,
}
use talon_sdk_go.Revision.Digests.{IsDigest, decode_digest-hex_text}
use talon_sdk_go.Revision.Layout.{pair}
use talon_sdk_go.Revision.Range.{tree, peak_of, mountain_range, decode_digest-tree}
use talon_sdk_go.Revision.Inclusion.{single_block, first_block}
use talon_sdk_go.Revision.Climb.{block, block_odd, block_even}

-- The siblings on the way from the block at the height up, `k` of them.
unfoldable pub honest_steps : (Bytes → Bytes) → Bytes → (ℕ → Bytes) → ℕ → ℕ → ℕ → ℕ → List Step
honest_steps sha256 stream_id leaf start local h zero = []
honest_steps sha256 stream_id leaf start local h (suc k) =
    let is_right = (local / 2 ^ h) % 2 == 1 in
    let here = block start local h in
    record {
      height = h;
      side = if is_right then codes "left" else codes "right";
      root_sha256 =
          hex_text (tree sha256 stream_id leaf h (if is_right then here - 2 ^ h else here + 2 ^ h));
    }
    ∷ honest_steps sha256 stream_id leaf start local (suc h) k

module _ (sha256 : Bytes → Bytes) (digests : (bs : Bytes) → IsDigest (sha256 bs))
    (stream_id : Bytes) (leaf : ℕ → Bytes)
    (leaves : (revision : ℕ) → IsDigest (leaf revision)) where
  parent_right :
      (start local h : ℕ)
      → (local / 2 ^ h % 2 == 1) ≡ true
      → merkle_node sha256 stream_id
          (h + 1)
          (block start local h - 2 ^ h)
          (tree sha256 stream_id leaf h (block start local h - 2 ^ h))
          (tree sha256 stream_id leaf h (block start local h))
        ≡ tree sha256 stream_id leaf (suc h) (block start local (suc h))
  unfolding tree
  parent_right start local h odd =
      let above = block_odd sha256 digests stream_id leaf leaves start local h odd in
      let back : block start local h - 2 ^ h ≡ block start local (suc h) = omega (arith, above) in
      let up : h + 1 ≡ suc h = omega arith in
      ap
        (λ (p : ℕ × ℕ).
          merkle_node sha256 stream_id p.0 p.1 (tree sha256 stream_id leaf h p.1)
            (tree sha256 stream_id leaf h (block start local h)))
        (pair up back)
      ∙ ap
          (λ r.
            merkle_node sha256 stream_id (suc h) (block start local (suc h))
              (tree sha256 stream_id leaf h (block start local (suc h)))
              (tree sha256 stream_id leaf h r))
          (sym above)

  parent_left :
      (start local h : ℕ)
      → (local / 2 ^ h % 2 == 1) ≡ false
      → merkle_node sha256 stream_id
          (h + 1)
          (block start local h)
          (tree sha256 stream_id leaf h (block start local h))
          (tree sha256 stream_id leaf h (block start local h + 2 ^ h))
        ≡ tree sha256 stream_id leaf (suc h) (block start local (suc h))
  unfolding tree
  parent_left start local h even =
      let up : h + 1 ≡ suc h = omega arith in
      ap
        (λ (p : ℕ × ℕ).
          merkle_node sha256 stream_id p.0 p.1 (tree sha256 stream_id leaf h p.1)
            (tree sha256 stream_id leaf h (p.1 + 2 ^ h)))
        (pair up (sym (block_even sha256 digests stream_id leaf leaves start local h even)))

  climb-honest_steps :
      (start local h k : ℕ)
      → climb sha256 stream_id start local h
          (honest_steps sha256 stream_id leaf start local h k)
          (tree sha256 stream_id leaf h (block start local h))
        ≡ ok (tree sha256 stream_id leaf (h + k) (block start local (h + k)))
  unfolding climb honest_steps
  climb-honest_steps start local h zero =
      ap (λ z. ok (tree sha256 stream_id leaf z (block start local z))) (omega arith)
  climb-honest_steps start local h (suc k) =
      let next : suc h + k ≡ h + suc k = omega arith in
      let further = climb-honest_steps start local (suc h) k in
      elim (Bool-cases (local / 2 ^ h % 2 == 1)) [
        | inl odd ↦ rw odd (
            rw (==-refl h) (
              rw (bytes_equal_refl (codes "left")) (
                rw
                  (decode_digest-tree sha256 digests stream_id leaf leaves h
                    (block start local h - 2 ^ h))
                  (ap
                      (climb sha256 stream_id start local (suc h)
                        (honest_steps sha256 stream_id leaf start local (suc h) k))
                      (parent_right start local h odd)
                    ∙ (further
                        ∙ ap (λ z. ok (tree sha256 stream_id leaf z (block start local z)))
                            next)))))
        | inr even ↦ rw even (
            rw (==-refl h) (
              rw (bytes_equal_refl (codes "right")) (
                rw
                  (decode_digest-tree sha256 digests stream_id leaf leaves h
                    (block start local h + 2 ^ h))
                  (ap
                      (climb sha256 stream_id start local (suc h)
                        (honest_steps sha256 stream_id leaf start local (suc h) k))
                      (parent_left start local h even)
                    ∙ (further
                        ∙ ap (λ z. ok (tree sha256 stream_id leaf z (block start local z)))
                            next)))))
      ]

  honest_steps-length :
      (start local h k : ℕ) → length (honest_steps sha256 stream_id leaf start local h k) ≡ k
  unfolding honest_steps
  honest_steps-length start local h zero = refl
  honest_steps-length start local h (suc k) = ap suc (honest_steps-length start local (suc h) k)

some_inj : {A : Type 0} {a b : A} → some a ≡ some b → a ≡ b
some_inj h = cc

first_or_later :
    (h s : ℕ) (rest : List (ℕ × ℕ)) (j : ℕ) (at : ℕ × ℕ)
    → ((i : ℕ) → get_elem? rest i ≡ some at → at.0 < h)
    → get_elem? ((h, s) ∷ rest) j ≡ some at
    → at.0 < suc h
first_or_later h s rest zero at below e =
    let same : (h, s) ≡ at = some_inj e in subst (λ (p : ℕ × ℕ). p.0 < suc h) same (omega arith)
first_or_later h s rest (suc j) at below e = omega (arith, below j e)

layout_from-below :
    (h n s i : ℕ) (at : ℕ × ℕ) → get_elem? (layout_from h n s) i ≡ some at → at.0 < h
unfolding layout_from
layout_from-below zero n s i at e = cc
layout_from-below (suc h) n s i at e = elim (Bool-cases (has_bit h n)) [
  | inl set ↦
      let next = (s + 2 ^ h) % 2 ^ 64 in
      first_or_later h s (layout_from h n next) i at (λ j. layout_from-below h n next j at)
        (rw set at e)
  | inr clear ↦
      let later : get_elem? (layout_from h n s) i ≡ some at = rw clear at e in
      omega (arith, layout_from-below h n s i at later)
]

-- The inclusion proof of the revision, in the peak at the index.
abbrev pub honest_proof : (Bytes → Bytes) → Bytes → (ℕ → Bytes) → ℕ → ℕ × ℕ → ℕ → InclusionProof
honest_proof sha256 stream_id leaf i (h, start) revision = record {
  version = 1;
  revision = revision;
  leaf_sha256 = hex_text (leaf revision);
  peak_index = i;
  siblings = honest_steps sha256 stream_id leaf start (revision - start) 0 h;
}

at_index :
    (f : ℕ × ℕ → Peak) (layout : List (ℕ × ℕ)) (i : ℕ) (at : ℕ × ℕ)
    → get_elem? layout i ≡ some at
    → get_elem? (map f layout) i ≡ some (f at)
at_index f [] i at e = cc
at_index f (first ∷ layout) zero at e = ap (λ o. o) (ap some (ap f (some_inj e)))
at_index f (first ∷ layout) (suc i) at e = at_index f layout i at e

module _ (sha256 : Bytes → Bytes) (digests : (bs : Bytes) → IsDigest (sha256 bs))
    (stream_id : Bytes) (contents : ℕ → Bytes) where
  abbrev leaf : ℕ → Bytes
  leaf r = merkle_leaf sha256 stream_id r (contents r)

  leaf-IsDigest : (r : ℕ) → IsDigest (leaf r)
  unfolding merkle_leaf stream_hash
  leaf-IsDigest r = digests _

  honest_climb :
      (h start revision : ℕ)
      → start ≤ revision
      → revision - start < 2 ^ h
      → climb sha256 stream_id start
          (revision - start)
          0
          (honest_steps sha256 stream_id leaf start (revision - start) 0 h)
          (leaf revision)
        ≡ ok (tree sha256 stream_id leaf h start)
  honest_climb h start revision above inside =
      let local = revision - start in
      let from = first_block sha256 digests stream_id leaf leaf-IsDigest start revision above in
      let whole = single_block sha256 digests stream_id leaf leaf-IsDigest start local h inside in
      ap (climb sha256 stream_id start local 0 (honest_steps sha256 stream_id leaf start local 0 h))
        (sym from)
      ∙ (climb-honest_steps sha256 digests stream_id leaf leaf-IsDigest start local 0 h
          ∙ (ap (λ z. ok (tree sha256 stream_id leaf z (block start local z))) (omega arith)
              ∙ ap (λ z. ok (tree sha256 stream_id leaf h z)) (sym whole)))

  honest_under :
      (i h start revision : ℕ)
      → h ≤ 63
      → start ≤ revision
      → revision - start < 2 ^ h
      → verify_under sha256 stream_id
          (peak_of sha256 stream_id leaf (h, start))
          revision
          (contents revision)
          (honest_proof sha256 stream_id leaf i (h, start) revision)
        ≡ ok tt
  unfolding verify_under
  honest_under i h start revision low above inside =
      let size =
        honest_steps-length sha256 digests stream_id leaf leaf-IsDigest start (revision - start) 0
          h in
      let tests : (leb h 63 && leb start revision && ltb (revision - start) (2 ^ h) && (h == h))
          ≡ true =
        ground (arith, low, above, inside) in
      rw size (
        rw tests (
          rw (decode_digest-hex_text (leaf revision) (leaf-IsDigest revision)) (
            rw (bytes_equal_refl (leaf revision)) (
              rw (honest_climb h start revision above inside) (
                rw (decode_digest-tree sha256 digests stream_id leaf leaf-IsDigest h start)
                  (rw (bytes_equal_refl (tree sha256 stream_id leaf h start)) refl))))))

  -- Where SHA-256 returns 32 bytes and the revision is one of the leaves of the peak at the index: the
  -- proof that holds the siblings of the tree is accepted for the content of the revision, under the
  -- canonical peaks over the contents.
  pub verify_inclusion-honest_proof :
      (n i h start revision : ℕ)
      → get_elem? (peak_layout n) i ≡ some (h, start)
      → start ≤ revision
      → revision - start < 2 ^ h
      → verify_inclusion sha256 stream_id
          (some (mountain_range sha256 stream_id leaf n))
          revision
          (contents revision)
          (honest_proof sha256 stream_id leaf i (h, start) revision)
        ≡ ok tt
  unfolding verify_inclusion verify_chosen peak_layout
  verify_inclusion-honest_proof n i h start revision found above inside =
      let low = layout_from-below 64 n 1 i (h, start) found in
      let picked = at_index (peak_of sha256 stream_id leaf) (peak_layout n) i (h, start) found in
      rw (==-refl revision)
        (rw picked (honest_under i h start revision (omega (arith, low)) above inside))
