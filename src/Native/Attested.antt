-- ===== src/Native/Attested.antt =====
-- talon.go: what the loaded Core attests, and what the gates of RequireCapability ask for.
use talon_sdk_go.Base.{
  ℕ, ◌≡◌, ◌⊎◌, Bool, true, ◌||◌, Option, none, some, List, [], ◌∷◌, Bytes, codes, bytes_equal→eq,
  arith, ==_iff,
}
use talon_sdk_go.Native.{Capability, contains_string, named_capability, find_capability}

abbrev pub IsMember : {A : Type 0} → A → List A → Type 0
IsMember a [] = ⊥
IsMember a (b ∷ bs) = (a ≡ b) ⊎ IsMember a bs

-- What a gate asks for: the attested capability, with its version where one is fixed, and the features.
pub record Gate : Type 0 where
  pub name : Bytes
  pub capability : Bytes
  pub version : Option ℕ
  pub features : List Bytes

-- A gate for the capability of its own name, at one version.
abbrev pub named_gate : Bytes → ℕ → List Bytes → Gate
named_gate name version features = record {
  name = name;
  capability = name;
  version = some version;
  features = features;
}

abbrev pub snapshot_gate : Bytes → ℕ → Bytes → Gate
snapshot_gate name version feature = record {
  name = name;
  capability = codes "storage_conditional_snapshot_read";
  version = some version;
  features = feature ∷ [];
}

abbrev pub transaction_gate : Gate
transaction_gate = record {
  name = codes "native_conditional_transaction_v2";
  capability = codes "native_conditional_transaction_v2";
  version = none;
  features =
      codes "native_conditional_transaction_v2"
      ∷ codes "conditional_transaction_command_digest_v1"
      ∷ [];
}

abbrev pub stream_gate : Gate
stream_gate =
    named_gate (codes "revision_stream") 2
      (codes "revision_stream_v1" ∷ codes "revision_stream_v2_mmr_proof" ∷ [])

-- The gates that can be opened.
abbrev pub known_gates : List Gate
known_gates =
    transaction_gate
    ∷ named_gate (codes "native_sql_context") 1 (codes "native_sql_context_v1" ∷ [])
    ∷ named_gate (codes "native_sql_session") 1 (codes "native_sql_session_v1" ∷ [])
    ∷ named_gate (codes "native_shared_core") 1 (codes "native_shared_core_v1" ∷ [])
    ∷ named_gate (codes "native_sql_result") 2 (codes "native_sql_result_v2" ∷ [])
    ∷ named_gate (codes "native_kv_read") 1 (codes "native_kv_read_v1" ∷ [])
    ∷ named_gate (codes "storage_conditional_point_read") 1
        (codes "storage_conditional_point_read_v1" ∷ [])
    ∷ stream_gate
    ∷ snapshot_gate (codes "storage_conditional_snapshot_read") 1
        (codes "storage_conditional_snapshot_read_v1")
    ∷ snapshot_gate (codes "storage_conditional_snapshot_read_v2") 2
        (codes "storage_conditional_snapshot_read_v2")
    ∷ []

abbrev pub IsVersion : Option ℕ → ℕ → Type 0
IsVersion none version = Unit
IsVersion (some wanted) version = version ≡ wanted

pub named_capability-IsMember :
    (cs : List Capability) (wanted : Bytes) (c : Capability)
    → named_capability cs wanted ≡ some c
    → IsMember c cs × (c.name ≡ wanted)
unfolding named_capability
named_capability-IsMember [] wanted c e = cc
named_capability-IsMember (d ∷ ds) wanted c e =
    ground (arith, named_capability-IsMember ds wanted c, bytes_equal→eq d.name wanted)

pub find_capability-IsMember :
    (cs : List Capability) (wanted : Bytes) (version : ℕ) (c : Capability)
    → find_capability cs wanted version ≡ some c
    → IsMember c cs × (c.name ≡ wanted) × (c.version ≡ version)
unfolding find_capability
find_capability-IsMember [] wanted version c e = cc
find_capability-IsMember (d ∷ ds) wanted version c e = ground (
  arith,
  find_capability-IsMember ds wanted version c,
  bytes_equal→eq d.name wanted,
  ==_iff d.version version,
)

pub contains_string-IsMember :
    (values : List Bytes) (wanted : Bytes)
    → contains_string values wanted ≡ true
    → IsMember wanted values
unfolding contains_string
contains_string-IsMember [] wanted h = cc
contains_string-IsMember (v ∷ vs) wanted h =
    ground (arith, contains_string-IsMember vs wanted, bytes_equal→eq v wanted)

pub eight_cases :
    (a b c d e f g h : Bool)
    → (a || b || c || d || e || f || g || h) ≡ true
    → (a ≡ true)
      ⊎ (b ≡ true)
      ⊎ (c ≡ true)
      ⊎ (d ≡ true)
      ⊎ (e ≡ true)
      ⊎ (f ≡ true)
      ⊎ (g ≡ true)
      ⊎ (h ≡ true)
eight_cases a b c d e f g h held = ground arith
