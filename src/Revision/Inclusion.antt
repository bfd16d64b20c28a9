-- ===== src/Revision/Inclusion.antt =====
-- revision_stream.go: the inclusion proofs (verifyRevisionStreamInclusion).
use talon_sdk_go.Base.{
  ℕ, zero, suc, ◌-◌, ◌*◌, ◌/◌, ◌^◌, ◌≤◌, ◌<◌, ◌≡◌, ◌⊎◌, inl, inr, refl, sym, ap, subst, ◌∙◌, true,
  ◌&&◌, List, [], ◌∷◌, map, Option, none, some, Bytes, ok, plain, bind_ok, guarded_ok, guard_ok,
  ltb, leb, ◌==◌, length, get_elem?, bytes_equal, bytes_equal→eq, arith,
}
use talon_sdk_go.Revision.{
  Step, Peak, InclusionProof, decode_digest, peak_layout, stream_hash, merkle_leaf, climb,
  verify_under, verify_chosen, verify_inclusion,
}
use talon_sdk_go.Revision.Digests.{IsDigest}
use talon_sdk_go.Revision.Layout.{div-mul-le}
use talon_sdk_go.Revision.Range.{tree, peak_of, mountain_range, decode_digest-tree}
use talon_sdk_go.Revision.Collisions.{Collides, leaf_input, merkle_leaf_inj}
use talon_sdk_go.Revision.Climb.{block, climb_pairs, climb-tree}

-- The inputs that the check of an inclusion proof hashes, each beside the input of the leaf or of the
-- tree's node in its place, under the canonical peaks over n contents.
abbrev pub path_pairs :
    (Bytes → Bytes)
    → Bytes
    → (ℕ → Bytes)
    → ℕ
    → Bytes
    → List Step
    → Option (ℕ × ℕ)
    → List (Bytes × Bytes)
path_pairs sha256 stream_id leaf revision content siblings none = []
path_pairs sha256 stream_id leaf revision content siblings (some (h, start)) =
    climb_pairs sha256 stream_id leaf start (revision - start) 0 siblings
      (merkle_leaf sha256 stream_id revision content)

abbrev pub inclusion_pairs :
    (Bytes → Bytes) → Bytes → (ℕ → Bytes) → ℕ → ℕ → Bytes → InclusionProof → List (Bytes × Bytes)
inclusion_pairs sha256 stream_id contents n revision content inclusion =
    (leaf_input stream_id revision content, leaf_input stream_id revision (contents revision))
    ∷ path_pairs sha256 stream_id (λ r. merkle_leaf sha256 stream_id r (contents r)) revision
        content inclusion.siblings (get_elem? (peak_layout n) inclusion.peak_index)

module _ (sha256 : Bytes → Bytes) (digests : (bs : Bytes) → IsDigest (sha256 bs))
    (stream_id : Bytes) (leaf : ℕ → Bytes)
    (leaves : (revision : ℕ) → IsDigest (leaf revision)) where
  get_elem?-map :
      (layout : List (ℕ × ℕ)) (i : ℕ) (peak : Peak)
      → get_elem? (map (peak_of sha256 stream_id leaf) layout) i ≡ some peak
      → (at : ℕ × ℕ) × (peak ≡ peak_of sha256 stream_id leaf at) × (get_elem? layout i ≡ some at)
  get_elem?-map [] i peak e = cc
  get_elem?-map (at ∷ layout) zero peak e = (at, cc, refl)
  get_elem?-map (at ∷ layout) (suc i) peak e = get_elem?-map layout i peak e

  under_bounds :
      (h start revision n : ℕ)
      → (leb h 63 && leb start revision && ltb (revision - start) (2 ^ h) && (n == h)) ≡ true
      → (start ≤ revision) × (revision - start < 2 ^ h) × (n ≡ h)
  under_bounds h start revision n e = ground arith

  ok_inj : {a b : Bytes} → ok a ≡ ok b → a ≡ b
  ok_inj e = cc

  verify_under_steps :
      (h start revision : ℕ) (content : Bytes) (inclusion : InclusionProof)
      → verify_under sha256 stream_id
          (peak_of sha256 stream_id leaf (h, start))
          revision
          content
          inclusion
        ≡ ok tt
      → (start ≤ revision)
        × (revision - start < 2 ^ h)
        × (length inclusion.siblings ≡ h)
        × (top : Bytes) × (climb sha256 stream_id start
              (revision - start)
              0
              inclusion.siblings
              (merkle_leaf sha256 stream_id revision content)
            ≡ ok top)
        × (top ≡ tree sha256 stream_id leaf h start)
  unfolding verify_under
  verify_under_steps h start revision content inclusion e =
      let (bounds, passed) = guarded_ok _ plain _ e in
      let (expected, _, leaf_passed) = bind_ok (decode_digest inclusion.leaf_sha256) _ passed in
      let (_, climbing) =
        guarded_ok (bytes_equal (merkle_leaf sha256 stream_id revision content) expected) plain _
          leaf_passed in
      let (top, climbed, rooted) = bind_ok _ _ climbing in
      let (root, read, equal) = bind_ok _ _ rooted in
      let inside = under_bounds h start revision (length inclusion.siblings) bounds in
      let known : root ≡ tree sha256 stream_id leaf h start =
        ok_inj (sym read ∙ decode_digest-tree sha256 digests stream_id leaf leaves h start) in
      (
        inside.0,
        inside.1,
        inside.2,
        top,
        climbed,
        bytes_equal→eq top root (guard_ok (bytes_equal top root) plain equal) ∙ known,
      )

  merkle_leaf-size :
      (revision : ℕ) (content : Bytes) → length (merkle_leaf sha256 stream_id revision content) ≡ 32
  unfolding merkle_leaf stream_hash
  merkle_leaf-size revision content = (digests _).0

  less_than_one : (q p l : ℕ) → q * p ≤ l → l < p → q ≡ 0
  less_than_one zero p l h k = refl
  less_than_one (suc q) p l h k = omega (arith, h, k)

  pub single_block : (start local h : ℕ) → local < 2 ^ h → start ≡ block start local h
  single_block start local h inside =
      let none_full =
        less_than_one (local / 2 ^ h) (2 ^ h) local (div-mul-le local (2 ^ h)) inside in
      rw none_full (omega arith)

  pub first_block :
      (start revision : ℕ)
      → start ≤ revision
      → tree sha256 stream_id leaf 0 (block start (revision - start) 0) ≡ leaf revision
  unfolding tree
  first_block start revision above =
      let here : block start (revision - start) 0 ≡ revision = omega (arith, above) in ap leaf here

  verify_under_sound :
      (h start revision : ℕ) (content : Bytes) (inclusion : InclusionProof)
      → verify_under sha256 stream_id
          (peak_of sha256 stream_id leaf (h, start))
          revision
          content
          inclusion
        ≡ ok tt
      → (merkle_leaf sha256 stream_id revision content ≡ leaf revision)
        ⊎ Collides sha256
            (path_pairs sha256 stream_id leaf revision content inclusion.siblings (some (h, start)))
  verify_under_sound h start revision content inclusion e =
      let (above, inside, depth, top, climbed, reached) =
        verify_under_steps h start revision content inclusion e in
      let local = revision - start in
      let whole : tree sha256 stream_id leaf h start
          ≡ tree sha256 stream_id leaf h (block start local h) =
        ap (tree sha256 stream_id leaf h) (single_block start local h inside) in
      let found =
        climb-tree sha256 digests stream_id leaf leaves start local 0 inclusion.siblings
          (merkle_leaf sha256 stream_id revision content) top h (omega (arith, depth)) climbed
          (reached ∙ whole) (merkle_leaf-size revision content) in
      elim found [
        | inl node ↦ inl (node ∙ first_block start revision above)
        | inr collision ↦ inr collision
      ]

chosen_some :
    (sha256 : Bytes → Bytes) (stream_id : Bytes) (chosen : Option Peak) (revision : ℕ)
    (content : Bytes) (inclusion : InclusionProof)
    → verify_chosen sha256 stream_id chosen revision content inclusion ≡ ok tt
    → (peak : Peak) × (chosen ≡ some peak)
      × (verify_under sha256 stream_id peak revision content inclusion ≡ ok tt)
unfolding verify_chosen
chosen_some sha256 stream_id none revision content inclusion e = cc
chosen_some sha256 stream_id (some peak) revision content inclusion e = (peak, refl, e)

module _ (sha256 : Bytes → Bytes) (digests : (bs : Bytes) → IsDigest (sha256 bs))
    (stream_id : Bytes) (contents : ℕ → Bytes) where
  -- Where SHA-256 returns 32 bytes: an inclusion proof that is accepted for a revision and a content,
  -- under the canonical peaks over n contents, has the content of that revision, or SHA-256 collides on
  -- an input that the check hashed, a leaf or a node of the path, and the different input of the tree's
  -- leaf or node in its place.
  pub verify_inclusion-mountain_range :
      (n revision : ℕ) (content : Bytes) (inclusion : InclusionProof)
      → verify_inclusion sha256 stream_id
          (some
            (mountain_range sha256 stream_id (λ r. merkle_leaf sha256 stream_id r (contents r)) n))
          revision
          content
          inclusion
        ≡ ok tt
      → (content ≡ contents revision)
        ⊎ Collides sha256 (inclusion_pairs sha256 stream_id contents n revision content inclusion)
  unfolding verify_inclusion
  verify_inclusion-mountain_range n revision content inclusion e =
      let leaf : ℕ → Bytes = λ r. merkle_leaf sha256 stream_id r (contents r) in
      let leaves : (r : ℕ) → IsDigest (leaf r) = λ r. unfold merkle_leaf stream_hash in digests _ in
      let peaks = mountain_range sha256 stream_id leaf n in
      let (_, passed) =
        guarded_ok ((inclusion.version == 1) && (inclusion.revision == revision)) plain
          (verify_chosen sha256 stream_id (get_elem? peaks inclusion.peak_index) revision content
            inclusion)
          e in
      let (peak, picked, accepted) =
        chosen_some sha256 stream_id (get_elem? peaks inclusion.peak_index) revision content
          inclusion passed in
      let ((h, start), same, found_at) =
        get_elem?-map sha256 digests stream_id leaf leaves (peak_layout n) inclusion.peak_index peak
          picked in
      let under =
        subst (λ p. verify_under sha256 stream_id p revision content inclusion ≡ ok tt) same
          accepted in
      elim (verify_under_sound sha256 digests stream_id leaf leaves h start revision content
        inclusion under) [
          | inl leaf_same ↦
              elim (merkle_leaf_inj sha256 stream_id revision content (contents revision)
                leaf_same) [ inl equal ↦ inl equal | inr clash ↦ inr (inl clash) ]
          | inr collision ↦ inr (
              inr (
                subst
                  (λ at.
                    Collides sha256
                      (path_pairs sha256 stream_id leaf revision content inclusion.siblings at))
                  (sym found_at) collision))
        ]
