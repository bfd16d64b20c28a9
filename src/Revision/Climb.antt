-- ===== src/Revision/Climb.antt =====
-- revision_stream.go: the path of an inclusion proof up its tree.
use talon_sdk_go.Base.{
  ℕ, suc, ◌+◌, ◌-◌, ◌*◌, ◌/◌, ◌%◌, ◌^◌, ◌≡◌, ◌⊎◌, inl, inr, sym, ap, subst, ◌∙◌, Bool, true, false,
  List, [], ◌∷◌, Bytes, ok, plain, bind_ok, guarded_ok, ◌==◌, if◌then◌else◌, length, arith,
  Bool-cases,
}
use talon_sdk_go.Revision.{Step, unhex, decode_digest, stream_hash, merkle_node, climb}
use talon_sdk_go.Revision.Digests.{IsDigest, length-decode_digest, decode_digest-unhex}
use talon_sdk_go.Revision.Layout.{next_blocks, pair, odd_blocks, even_blocks}
use talon_sdk_go.Revision.Range.{tree, tree-IsDigest}
use talon_sdk_go.Revision.Collisions.{Clash, Collides, node_input, merkle_node_inj}

-- The block of 2 ^ h leaves that holds the local position.
abbrev pub block : ℕ → ℕ → ℕ → ℕ
block start local h = start + local / 2 ^ h * 2 ^ h

-- The sides of a node that a sibling and the current digest make.
abbrev pub left_side : Bool → Bytes → Bytes → Bytes
left_side true sibling current = sibling
left_side false sibling current = current

-- The inputs that a climb hashes, each beside the input of the tree's node in its place.
abbrev pub climb_pairs :
    (Bytes → Bytes) → Bytes → (ℕ → Bytes) → ℕ → ℕ → ℕ → List Step → Bytes → List (Bytes × Bytes)
climb_pairs sha256 stream_id leaf start local h [] current = []
climb_pairs sha256 stream_id leaf start local h (step ∷ steps) current =
    let sibling = unhex step.root_sha256 in
    let is_right = local / 2 ^ h % 2 == 1 in
    let above = block start local (suc h) in
    (
      node_input stream_id (suc h) above (left_side is_right sibling current)
          (left_side is_right current sibling),
      node_input stream_id (suc h) above (tree sha256 stream_id leaf h above)
          (tree sha256 stream_id leaf h (above + 2 ^ h)),
    )
    ∷ climb_pairs sha256 stream_id leaf start local (suc h) steps (
        if is_right
        then merkle_node sha256 stream_id (h + 1) (block start local h - 2 ^ h) sibling current
        else merkle_node sha256 stream_id (h + 1) (block start local h) current sibling)

module _ (sha256 : Bytes → Bytes) (digests : (bs : Bytes) → IsDigest (sha256 bs))
    (stream_id : Bytes) (leaf : ℕ → Bytes)
    (leaves : (revision : ℕ) → IsDigest (leaf revision)) where
  tree-size : (h start : ℕ) → length (tree sha256 stream_id leaf h start) ≡ 32
  tree-size h start = (tree-IsDigest sha256 digests stream_id leaf leaves h start).0

  pub block_odd :
      (start local h : ℕ)
      → (local / 2 ^ h % 2 == 1) ≡ true
      → block start local (suc h) + 2 ^ h ≡ block start local h
  block_odd start local h odd =
      omega (arith, next_blocks h local, odd_blocks (local / 2 ^ h) (2 ^ h) odd)

  pub block_even :
      (start local h : ℕ)
      → (local / 2 ^ h % 2 == 1) ≡ false
      → block start local (suc h) ≡ block start local h
  block_even start local h even =
      ap (λ b. start + b) (next_blocks h local ∙ even_blocks (local / 2 ^ h) (2 ^ h) even)

  -- One sibling: the node that the step makes is the tree's only if the current one is.
  pair_right :
      (start local h : ℕ) (sibling current : Bytes)
      → (local / 2 ^ h % 2 == 1) ≡ true
      → length sibling ≡ 32
      → merkle_node sha256 stream_id (h + 1) (block start local h - 2 ^ h) sibling current
        ≡ tree sha256 stream_id leaf (suc h) (block start local (suc h))
      → (current ≡ tree sha256 stream_id leaf h (block start local h))
        ⊎ Clash sha256 (node_input stream_id (suc h) (block start local (suc h)) sibling current) (
            node_input stream_id
              (suc h)
              (block start local (suc h))
              (tree sha256 stream_id leaf h (block start local (suc h)))
              (tree sha256 stream_id leaf h (block start local (suc h) + 2 ^ h)))
  unfolding tree
  pair_right start local h sibling current odd size e =
      let below = block_odd start local h odd in
      let back : block start local h - 2 ^ h ≡ block start local (suc h) = omega (arith, below) in
      let up : h + 1 ≡ suc h = omega arith in
      let node : merkle_node sha256 stream_id (suc h) (block start local (suc h)) sibling current
          ≡ tree sha256 stream_id leaf (suc h) (block start local (suc h)) =
        ap (λ (p : ℕ × ℕ). merkle_node sha256 stream_id p.0 p.1 sibling current)
          (sym (pair up back))
        ∙ e in
      elim (merkle_node_inj sha256 stream_id (suc h) (block start local (suc h)) sibling current _ _
        (size ∙ sym (tree-size h _)) node) [
          | inl same ↦ inl (same.1 ∙ ap (tree sha256 stream_id leaf h) below)
          | inr found ↦ inr found
        ]

  pair_left :
      (start local h : ℕ) (sibling current : Bytes)
      → (local / 2 ^ h % 2 == 1) ≡ false
      → length current ≡ 32
      → merkle_node sha256 stream_id (h + 1) (block start local h) current sibling
        ≡ tree sha256 stream_id leaf (suc h) (block start local (suc h))
      → (current ≡ tree sha256 stream_id leaf h (block start local h))
        ⊎ Clash sha256 (node_input stream_id (suc h) (block start local (suc h)) current sibling) (
            node_input stream_id
              (suc h)
              (block start local (suc h))
              (tree sha256 stream_id leaf h (block start local (suc h)))
              (tree sha256 stream_id leaf h (block start local (suc h) + 2 ^ h)))
  unfolding tree
  pair_left start local h sibling current even size e =
      let here = block_even start local h even in
      let up : h + 1 ≡ suc h = omega arith in
      let node : merkle_node sha256 stream_id (suc h) (block start local (suc h)) current sibling
          ≡ tree sha256 stream_id leaf (suc h) (block start local (suc h)) =
        ap (λ (p : ℕ × ℕ). merkle_node sha256 stream_id p.0 p.1 current sibling)
          (sym (pair up (sym here)))
        ∙ e in
      elim (merkle_node_inj sha256 stream_id (suc h) (block start local (suc h)) current sibling _ _
        (size ∙ sym (tree-size h _)) node) [
          | inl same ↦ inl (same.0 ∙ ap (tree sha256 stream_id leaf h) here)
          | inr found ↦ inr found
        ]

  merkle_node-size :
      (h start : ℕ) (l r : Bytes) → length (merkle_node sha256 stream_id h start l r) ≡ 32
  unfolding merkle_node stream_hash
  merkle_node-size h start l r = (digests _).0

  climb_step :
      (start local h : ℕ) (step : Step) (steps : List Step) (current top : Bytes)
      → climb sha256 stream_id start local h (step ∷ steps) current ≡ ok top
      → (length (unhex step.root_sha256) ≡ 32)
        × (climb sha256 stream_id start local (suc h) steps (
              if local / 2 ^ h % 2 == 1
              then merkle_node sha256 stream_id
                  (h + 1)
                  (block start local h - 2 ^ h)
                  (unhex step.root_sha256)
                  current
              else merkle_node sha256 stream_id
                  (h + 1)
                  (block start local h)
                  current
                  (unhex step.root_sha256))
            ≡ ok top)
  unfolding climb
  climb_step start local h step steps current top e =
      let (_, passed) = guarded_ok _ plain _ e in
      let (sibling, decoded, rest) = bind_ok (decode_digest step.root_sha256) _ passed in
      let same : sibling ≡ unhex step.root_sha256 =
        decode_digest-unhex step.root_sha256 sibling decoded in
      (
        ap length (sym same) ∙ length-decode_digest step.root_sha256 sibling decoded,
        subst
            (λ s.
              climb sha256 stream_id start local (suc h) steps (
                if local / 2 ^ h % 2 == 1
                then merkle_node sha256 stream_id (h + 1) (block start local h - 2 ^ h) s current
                else merkle_node sha256 stream_id (h + 1) (block start local h) current s)
              ≡ ok top)
            same rest,
      )

  climb-nil :
      (start local h : ℕ) (current top : Bytes)
      → climb sha256 stream_id start local h [] current ≡ ok top
      → current ≡ top
  unfolding climb
  climb-nil start local h current top e = cc

  -- A climb that reaches the top of the tree started at the tree's node, or inputs of it collide.
  pub climb-tree :
      (start local h : ℕ) (steps : List Step) (current top : Bytes) (end : ℕ)
      → h + length steps ≡ end
      → climb sha256 stream_id start local h steps current ≡ ok top
      → top ≡ tree sha256 stream_id leaf end (block start local end)
      → length current ≡ 32
      → (current ≡ tree sha256 stream_id leaf h (block start local h))
        ⊎ Collides sha256 (climb_pairs sha256 stream_id leaf start local h steps current)
  climb-tree start local h [] current top end size e same n =
      let made : current ≡ top = climb-nil start local h current top e in
      let high : end ≡ h = omega (arith, size) in
      inl (made ∙ (same ∙ ap (λ z. tree sha256 stream_id leaf z (block start local z)) high))
  climb-tree start local h (step ∷ steps) current top end size e same n =
      let (width, rest) = climb_step start local h step steps current top e in
      let more : suc h + length steps ≡ end = omega (arith, size) in
      let sibling = unhex step.root_sha256 in
      elim (Bool-cases (local / 2 ^ h % 2 == 1)) [
        | inl odd ↦
            let above =
              climb-tree start local (suc h) steps _ top end more (rw odd at rest) same
                (merkle_node-size (h + 1) (block start local h - 2 ^ h) sibling current) in
            rw odd (elim above [
              | inl node ↦ elim (pair_right start local h sibling current odd width node) [
                | inl same_node ↦ inl same_node
                | inr clash ↦ inr (inl clash)
              ]
              | inr found ↦ inr (inr found)
            ])
        | inr even ↦
            let above =
              climb-tree start local (suc h) steps _ top end more (rw even at rest) same
                (merkle_node-size (h + 1) (block start local h) current sibling) in
            rw even (elim above [
              | inl node ↦ elim (pair_left start local h sibling current even n node) [
                | inl same_node ↦ inl same_node
                | inr clash ↦ inr (inl clash)
              ]
              | inr found ↦ inr (inr found)
            ])
      ]
