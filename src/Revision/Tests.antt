-- ===== src/Revision/Tests.antt =====
-- revision_stream.go: witnesses, with a constant in the place of SHA-256.
use talon_sdk_go.Base.{
  ℕ, zero, suc, ◌%◌, ◌≡◌, ◌⊎◌, refl, List, [], ◌∷◌, every, bytes_equal, some, Bytes, AllBytes, ok,
  replicate, codes, arith,
}
use talon_sdk_go.Base.Words.{put_le}
use talon_sdk_go.Conditional.Results.{is_sha}
use talon_sdk_go.Revision.{
  verify_chosen, verify_under, climb, decode_digest, unhex, hex_value, hex_digit, layout_from,
  has_bit, merkle_node, stream_hash, put_be, Node, InclusionProof, hex_text, append_leaf,
  merkle_leaf, peak_layout, verify_inclusion,
}
use talon_sdk_go.Revision.Digests.{IsDigest}
use talon_sdk_go.Revision.Range.{tree, AllBlocks, mountain_range}
use talon_sdk_go.Revision.Append.{append_leaf-mountain_range}
use talon_sdk_go.Revision.Collisions.{Collides}
use talon_sdk_go.Base.{get_elem?}
use talon_sdk_go.Revision.Honest.{honest_proof, verify_inclusion-honest_proof}
use talon_sdk_go.Revision.Inclusion.{inclusion_pairs, verify_inclusion-mountain_range}

abbrev pub zeros : Bytes
zeros = replicate 32 0

abbrev pub constant : Bytes → Bytes
constant bs = zeros

zero_bytes : (n : ℕ) → AllBytes (replicate n 0)
zero_bytes zero = tt
zero_bytes (suc n) = (omega arith, zero_bytes n)

pub constant-IsDigest : (bs : Bytes) → IsDigest (constant bs)
constant-IsDigest bs = (refl, zero_bytes 32)

abbrev leaf : ℕ → Bytes
leaf r = (r % 256) ∷ replicate 31 0

leaf-IsDigest : (r : ℕ) → IsDigest (leaf r)
leaf-IsDigest r = (refl, (omega arith, zero_bytes 31))

append_leaf-mountain_range_example :
    (nodes : List Node) × (append_leaf constant
        (codes "s")
        (mountain_range constant (codes "s") leaf 3)
        4
        (leaf 4)
      ≡ ok (mountain_range constant (codes "s") leaf 4, nodes))
    × AllBlocks constant (codes "s") leaf 5 nodes
append_leaf-mountain_range_example =
    append_leaf-mountain_range constant constant-IsDigest (codes "s") leaf leaf-IsDigest 3
      (omega arith)

abbrev proof : InclusionProof
proof = record {
  version = 1;
  revision = 2;
  leaf_sha256 = hex_text zeros;
  peak_index = 0;
  siblings = record { height = 0; side = codes "left"; root_sha256 = hex_text zeros } ∷ [];
}

accepted :
    verify_inclusion constant
      (codes "s")
      (some
        (mountain_range constant (codes "s") (λ r. merkle_leaf constant (codes "s") r (leaf r)) 2))
      2
      (leaf 2)
      proof
    ≡ ok tt
unfolding verify_inclusion verify_chosen verify_under climb decode_digest is_sha every unhex
    hex_value hex_text hex_digit peak_layout layout_from has_bit tree merkle_leaf merkle_node
    stream_hash put_be put_le bytes_equal
accepted = refl

verify_inclusion-mountain_range_example :
    (leaf 2 ≡ leaf 2)
    ⊎ Collides constant (inclusion_pairs constant (codes "s") leaf 2 2 (leaf 2) proof)
verify_inclusion-mountain_range_example =
    verify_inclusion-mountain_range constant constant-IsDigest (codes "s") leaf 2 2 (leaf 2) proof
      accepted

first_peak : get_elem? (peak_layout 3) 0 ≡ some (1, 1)
unfolding peak_layout layout_from has_bit
first_peak = refl

verify_inclusion-honest_proof_example :
    verify_inclusion constant
      (codes "s")
      (some
        (mountain_range constant (codes "s") (λ r. merkle_leaf constant (codes "s") r (leaf r)) 3))
      2
      (leaf 2)
      (honest_proof constant
        (codes "s")
        (λ r. merkle_leaf constant (codes "s") r (leaf r))
        0
        (1, 1)
        2)
    ≡ ok tt
verify_inclusion-honest_proof_example =
    verify_inclusion-honest_proof constant constant-IsDigest (codes "s") leaf 3 0 1 1 2 first_peak
      (omega arith) (omega arith)
