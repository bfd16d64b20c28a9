-- ===== src/Native/Gates.antt =====
-- talon.go: `RequireCapability`.
use talon_sdk_go.Base.{
  ℕ, ◌≡◌, refl, sym, subst, ◌∙◌, inl, inr, true, false, ◌&&◌, some, [], ◌∷◌, Bytes, ok, ◌==◌,
  if◌then◌else◌, codes, bytes_equal, bytes_equal→eq, arith, Option-cases, All,
}
use talon_sdk_go.Native.{
  NativeInfo, Capability, available, contains_string, named_capability, find_capability, is_gated,
  is_implemented, require_named, require_snapshot_read, require_capability,
}
use talon_sdk_go.Native.Attested.{
  IsMember, Gate, named_gate, snapshot_gate, transaction_gate, stream_gate, known_gates, IsVersion,
  named_capability-IsMember, find_capability-IsMember, contains_string-IsMember, eight_cases,
}

-- An open gate: the loaded Core attests its capability, at its version, as available, and its features.
abbrev pub IsOpen : NativeInfo → Bytes → Type 0
IsOpen info name =
    (gate : Gate) × IsMember gate known_gates
    × (gate.name ≡ name)
    × (c : Capability) × IsMember c info.capabilities
    × (c.name ≡ gate.capability)
    × (c.status ≡ available)
    × IsVersion gate.version c.version
    × All (λ feature. IsMember feature info.features) gate.features

module _ (info : NativeInfo) where
  -- A gate that the tests on a capability of its own name pass.
  abbrev IsImplemented : Bytes → ℕ → Type 0
  IsImplemented name version =
      (gate : Gate) × IsMember gate known_gates
      × (gate.name ≡ name)
      × (gate.capability ≡ name)
      × IsVersion gate.version version
      × All (λ feature. IsMember feature info.features) gate.features

  named_row :
      (name wanted feature : Bytes) (version fixed : ℕ)
      → IsMember (named_gate wanted fixed (feature ∷ [])) known_gates
      → (bytes_equal name wanted && (version == fixed) && contains_string info.features feature)
        ≡ true
      → IsImplemented name version
  named_row name wanted feature version fixed known h =
      let same : wanted ≡ name = sym (bytes_equal→eq name wanted (ground (arith, h))) in
      (
        named_gate wanted fixed (feature ∷ []),
        known,
        same,
        same,
        ground (arith, h),
        (contains_string-IsMember info.features feature (ground (arith, h)), tt),
      )

  transaction_row :
      (name : Bytes) (version : ℕ)
      → (bytes_equal name (codes "native_conditional_transaction_v2")
          && contains_string info.features name
          && contains_string info.features (codes "conditional_transaction_command_digest_v1"))
        ≡ true
      → IsImplemented name version
  transaction_row name version h =
      let same =
        bytes_equal→eq name (codes "native_conditional_transaction_v2") (ground (arith, h)) in
      (
        transaction_gate,
        inl refl,
        sym same,
        sym same,
        tt,
        (
          subst (λ n. IsMember n info.features) same
              (contains_string-IsMember info.features name (ground (arith, h))),
          (
            contains_string-IsMember info.features
                (codes "conditional_transaction_command_digest_v1") (ground (arith, h)),
            tt,
          ),
        ),
      )

  stream_row :
      (name : Bytes) (version : ℕ)
      → (bytes_equal name (codes "revision_stream")
          && (version == 2)
          && contains_string info.features (codes "revision_stream_v1")
          && contains_string info.features (codes "revision_stream_v2_mmr_proof"))
        ≡ true
      → IsImplemented name version
  stream_row name version h =
      let same = sym (bytes_equal→eq name (codes "revision_stream") (ground (arith, h))) in
      (
        stream_gate,
        inr (inr (inr (inr (inr (inr (inr (inl refl))))))),
        same,
        same,
        ground (arith, h),
        (
          contains_string-IsMember info.features (codes "revision_stream_v1") (ground (arith, h)),
          (
            contains_string-IsMember info.features (codes "revision_stream_v2_mmr_proof")
                (ground (arith, h)),
            tt,
          ),
        ),
      )

  is_implemented-IsImplemented :
      (name : Bytes) (version : ℕ)
      → is_implemented info name version ≡ true
      → IsImplemented name version
  unfolding is_implemented
  is_implemented-IsImplemented name version h = elim (eight_cases _ _ _ _ _ _ _ _ h) [
    | inl a ↦ transaction_row name version a
    | inr (inl b) ↦ named_row name _ _ version 1 (inr (inl refl)) b
    | inr (inr (inl c)) ↦ named_row name _ _ version 1 (inr (inr (inl refl))) c
    | inr (inr (inr (inl d))) ↦ named_row name _ _ version 1 (inr (inr (inr (inl refl)))) d
    | inr (inr (inr (inr (inl e)))) ↦
        named_row name _ _ version 2 (inr (inr (inr (inr (inl refl))))) e
    | inr (inr (inr (inr (inr (inl f))))) ↦
        named_row name _ _ version 1 (inr (inr (inr (inr (inr (inl refl)))))) f
    | inr (inr (inr (inr (inr (inr (inl g)))))) ↦
        named_row name _ _ version 1 (inr (inr (inr (inr (inr (inr (inl refl))))))) g
    | inr (inr (inr (inr (inr (inr (inr i)))))) ↦ stream_row name version i
  ]

  require_named_tests :
      (name : Bytes) (c : Capability)
      → named_capability info.capabilities name ≡ some c
      → require_named info name ≡ ok tt
      → (bytes_equal c.status available ≡ true) × (is_implemented info name c.version ≡ true)
  unfolding require_named
  require_named_tests name c found h = ground (arith, found)

  require_named-IsOpen : (name : Bytes) → require_named info name ≡ ok tt → IsOpen info name
  require_named-IsOpen name h = elim (Option-cases (named_capability info.capabilities name)) [
    | inl missing ↦ unfold require_named in ground (arith, missing)
    | inr (c, found) ↦
        let (status, implemented) = require_named_tests name c found h in
        let (member, named) = named_capability-IsMember info.capabilities name c found in
        let (gate, known, same, own, version, features) =
          is_implemented-IsImplemented name c.version implemented in
        (
          gate,
          known,
          same,
          c,
          member,
          named ∙ sym own,
          bytes_equal→eq c.status available status,
          version,
          features,
        )
  ]

  require_snapshot_read_tests :
      (version : ℕ) (c : Capability)
      → find_capability info.capabilities (codes "storage_conditional_snapshot_read") version
        ≡ some c
      → require_snapshot_read info version ≡ ok tt
      → (bytes_equal c.status available ≡ true)
        × (contains_string info.features (
              if version == 1
              then codes "storage_conditional_snapshot_read_v1"
              else codes "storage_conditional_snapshot_read_v2")
            ≡ true)
  unfolding require_snapshot_read
  require_snapshot_read_tests version c found h = ground (arith, found)

  require_snapshot_read-IsOpen :
      (name feature : Bytes) (version : ℕ)
      → IsMember (snapshot_gate name version feature) known_gates
      → (if version == 1
          then codes "storage_conditional_snapshot_read_v1"
          else codes "storage_conditional_snapshot_read_v2")
        ≡ feature
      → require_snapshot_read info version ≡ ok tt
      → IsOpen info name
  require_snapshot_read-IsOpen name feature version known asked h =
      elim (Option-cases
        (find_capability info.capabilities (codes "storage_conditional_snapshot_read") version)) [
          | inl missing ↦ unfold require_snapshot_read in ground (arith, missing)
          | inr (c, found) ↦
              let (status, given) = require_snapshot_read_tests version c found h in
              let (member, named, fixed) =
                find_capability-IsMember info.capabilities _ version c found in
              (
                snapshot_gate name version feature,
                known,
                refl,
                c,
                member,
                named,
                bytes_equal→eq c.status available status,
                fixed,
                (
                  subst (λ f. IsMember f info.features) asked
                      (contains_string-IsMember info.features _ given),
                  tt,
                ),
              )
        ]

  newer_snapshot-IsOpen :
      (name : Bytes)
      → bytes_equal name (codes "storage_conditional_snapshot_read_v2") ≡ true
      → require_snapshot_read info 2 ≡ ok tt
      → IsOpen info name
  newer_snapshot-IsOpen name e h = subst (IsOpen info) (sym (bytes_equal→eq name _ e)) (
      require_snapshot_read-IsOpen _ _ 2
        (inr (inr (inr (inr (inr (inr (inr (inr (inr (inl refl)))))))))) refl h)

  older_snapshot-IsOpen :
      (name : Bytes)
      → bytes_equal name (codes "storage_conditional_snapshot_read") ≡ true
      → require_snapshot_read info 1 ≡ ok tt
      → IsOpen info name
  older_snapshot-IsOpen name e h = subst (IsOpen info) (sym (bytes_equal→eq name _ e)) (
      require_snapshot_read-IsOpen _ _ 1 (inr (inr (inr (inr (inr (inr (inr (inr (inl refl)))))))))
        refl h)

-- A capability that `RequireCapability` lets pass is not behind a closed gate, and is one that the SDK
-- knows: the loaded Core attests the capability of that name as available, at the version and with the
-- features that the SDK asks for (for a snapshot read, the version of the name that is asked for).
pub require_capability-IsOpen :
    (info : NativeInfo) (name : Bytes)
    → require_capability info name ≡ ok tt
    → (is_gated info name ≡ false) × IsOpen info name
unfolding require_capability
require_capability-IsOpen info name h = ground (
  arith,
  require_named-IsOpen info name,
  newer_snapshot-IsOpen info name,
  older_snapshot-IsOpen info name,
)
