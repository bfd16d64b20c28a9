-- ===== src/Revision/Collisions.antt =====
-- revision_stream.go: what a digest of a stream stands for.
use talon_sdk_go.Base.{
  ℕ, ◌≡◌, ◌⊎◌, inl, inr, refl, false, List, [], ◌∷◌, ◌++◌, Bytes, codes, length, append_inj,
  bytes_equal, bytes_equal→eq, Bool-cases,
}
use talon_sdk_go.Revision.{put_be, stream_hash, merkle_leaf, merkle_node}

-- Two different inputs with one digest, and a list of pairs of which one is that.
abbrev pub Clash : (Bytes → Bytes) → Bytes → Bytes → Type 0
Clash sha256 x y = (bytes_equal x y ≡ false) × (sha256 x ≡ sha256 y)

abbrev pub Collides : (Bytes → Bytes) → List (Bytes × Bytes) → Type 0
Collides sha256 [] = ⊥
Collides sha256 ((x, y) ∷ pairs) = Clash sha256 x y ⊎ Collides sha256 pairs

-- What the digests of a stream are made of.
abbrev pub stream_input : Bytes → Bytes → Bytes → Bytes
stream_input domain stream_id values =
    domain ++ (put_be 4 (length stream_id) ++ (stream_id ++ values))

abbrev pub leaf_input : Bytes → ℕ → Bytes → Bytes
leaf_input stream_id revision content =
    stream_input (codes "TALON_REVISION_STREAM_MMR_LEAF_V1") stream_id
      (put_be 8 revision ++ content)

abbrev pub node_input : Bytes → ℕ → ℕ → Bytes → Bytes → Bytes
node_input stream_id h start left right =
    stream_input (codes "TALON_REVISION_STREAM_MMR_NODE_V1") stream_id
      (h ∷ (put_be 8 start ++ (left ++ right)))

pub Collides-append_left :
    (sha256 : Bytes → Bytes) (ps qs : List (Bytes × Bytes))
    → Collides sha256 ps
    → Collides sha256 (ps ++ qs)
Collides-append_left sha256 [] qs h = elim h [ ]
Collides-append_left sha256 ((x, y) ∷ ps) qs (inl here) = inl here
Collides-append_left sha256 ((x, y) ∷ ps) qs (inr later) =
    inr (Collides-append_left sha256 ps qs later)

pub Collides-append_right :
    (sha256 : Bytes → Bytes) (ps qs : List (Bytes × Bytes))
    → Collides sha256 qs
    → Collides sha256 (ps ++ qs)
Collides-append_right sha256 [] qs h = h
Collides-append_right sha256 ((x, y) ∷ ps) qs h = inr (Collides-append_right sha256 ps qs h)

module _ (sha256 : Bytes → Bytes) (stream_id : Bytes) where
  -- A digest of a stream stands for its values, or the two inputs clash.
  pub stream_hash_inj :
      (domain x y : Bytes)
      → stream_hash sha256 domain stream_id x ≡ stream_hash sha256 domain stream_id y
      → (x ≡ y) ⊎ Clash sha256 (stream_input domain stream_id x) (stream_input domain stream_id y)
  unfolding stream_hash
  stream_hash_inj domain x y e =
      let whole : Bytes → Bytes = stream_input domain stream_id in
      elim (Bool-cases (bytes_equal (whole x) (whole y))) [
        | inl same ↦
            let joined =
              append_inj domain domain _ _ refl (bytes_equal→eq (whole x) (whole y) same) in
            let sized =
              append_inj (put_be 4 (length stream_id)) (put_be 4 (length stream_id)) _ _ refl
                joined.1 in
            inl (append_inj stream_id stream_id x y refl sized.1).1
        | inr differ ↦ inr (differ, e)
      ]

  pub merkle_leaf_inj :
      (revision : ℕ) (c d : Bytes)
      → merkle_leaf sha256 stream_id revision c ≡ merkle_leaf sha256 stream_id revision d
      → (c ≡ d) ⊎ Clash sha256 (leaf_input stream_id revision c) (leaf_input stream_id revision d)
  unfolding merkle_leaf
  merkle_leaf_inj revision c d e =
      elim (stream_hash_inj (codes "TALON_REVISION_STREAM_MMR_LEAF_V1") _ _ e) [
        | inl same ↦ inl (append_inj (put_be 8 revision) (put_be 8 revision) c d refl same).1
        | inr found ↦ inr found
      ]

  pub merkle_node_inj :
      (h start : ℕ) (l r l' r' : Bytes)
      → length l ≡ length l'
      → merkle_node sha256 stream_id h start l r ≡ merkle_node sha256 stream_id h start l' r'
      → ((l ≡ l') × (r ≡ r'))
        ⊎ Clash sha256 (node_input stream_id h start l r) (node_input stream_id h start l' r')
  unfolding merkle_node
  merkle_node_inj h start l r l' r' n e =
      elim (stream_hash_inj (codes "TALON_REVISION_STREAM_MMR_NODE_V1") _ _ e) [
        | inl same ↦
            let tail = append_inj (h ∷ []) (h ∷ []) _ _ refl same in
            let rest = append_inj (put_be 8 start) (put_be 8 start) _ _ refl tail.1 in
            inl (append_inj l l' r r' n rest.1)
        | inr found ↦ inr found
      ]
