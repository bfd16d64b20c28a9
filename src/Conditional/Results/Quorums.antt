-- ===== src/Conditional/Results/Quorums.antt =====
-- conditional.go: a quorum receipt beside the request (decodeOptionalQuorumReceipt).
use talon_sdk_go.Base.{
  ℕ, ◌≤◌, ◌≡◌, refl, subst, Bool, true, ◌&&◌, Option, none, some, Bytes, ok, err, guarded_ok,
  bind_ok, ◌==◌, bytes_equal, bytes_equal→eq, codes, length, Bool-cases, inl, inr, arith,
}
use talon_sdk_go.Conditional.{Request}
use talon_sdk_go.Conditional.Results.{
  violation, Optional, absent, null, value, Stage, Durability, no_durability, local_fsync,
  quorum_fsync, is_sha, WireQuorum, QuorumReceipt, agree, decode_quorum, optional_quorum,
  nullable_sha, stage_of, durability_of, positive, present,
}
use talon_sdk_go.Conditional.Results.Consistency.{ok_same}

abbrev pub stage_name : Stage → Bytes
stage_name Stage.accepted = codes "accepted"
stage_name Stage.committed = codes "committed"
stage_name Stage.applied = codes "applied"

abbrev pub durability_name : Durability → Bytes
durability_name no_durability = codes "none"
durability_name local_fsync = codes "local_fsync"
durability_name quorum_fsync = codes "quorum_fsync"

-- What is durable at a stage: one disk when accepted, a quorum of them later.
abbrev pub durability_at : Stage → Durability
durability_at Stage.accepted = local_fsync
durability_at Stage.committed = quorum_fsync
durability_at Stage.applied = quorum_fsync

-- The digest of the result: null, or 64 digits.
abbrev pub IsResultSha : Optional Bytes → Option Bytes → Type 0
IsResultSha field none = field ≡ null
IsResultSha field (some sha) = (field ≡ value sha) × (length sha ≡ 64)

-- A quorum receipt that answers the request, as its fields say.
unfoldable pub IsQuorum : Request → WireQuorum → QuorumReceipt → Type 0
IsQuorum request wire q =
    (wire.version ≡ 1)
    × (wire.request_id ≡ request.request_id)
    × (wire.command_sha256 ≡ request.command_sha256)
    × (wire.index ≡ some q.index)
    × (1 ≤ q.index)
    × (wire.term ≡ some q.term)
    × (wire.stage ≡ stage_name q.stage)
    × (wire.durability ≡ durability_name q.durability)
    × (q.durability ≡ durability_at q.stage)
    × IsResultSha wire.result_sha256 q.result_sha256

unfoldable pub IsOptionalQuorum : Request → Optional WireQuorum → Option QuorumReceipt → Type 0
IsOptionalQuorum request field none = field ≡ absent
IsOptionalQuorum request field (some q) =
    (wire : WireQuorum) × (field ≡ value wire) × IsQuorum request wire q

positive-some : (field : Option ℕ) (n : ℕ) → positive field ≡ ok n → (field ≡ some n) × (1 ≤ n)
unfolding positive
positive-some field n h = ground arith

pub present-some : (field : Option ℕ) (n : ℕ) → present field ≡ ok n → field ≡ some n
unfolding present
present-some field n h = ground arith

stage_of-name : (name : Bytes) (stage : Stage) → stage_of name ≡ ok stage → name ≡ stage_name stage
unfolding stage_of
stage_of-name name stage h = ground (
  arith,
  h,
  bytes_equal→eq name (codes "accepted"),
  bytes_equal→eq name (codes "committed"),
  bytes_equal→eq name (codes "applied"),
)

durability_of-name :
    (name : Bytes) (d : Durability) → durability_of name ≡ ok d → name ≡ durability_name d
unfolding durability_of
durability_of-name name d h = ground (
  arith,
  h,
  bytes_equal→eq name (codes "none"),
  bytes_equal→eq name (codes "local_fsync"),
  bytes_equal→eq name (codes "quorum_fsync"),
)

agree-durability : (s : Stage) (d : Durability) → agree s d ≡ true → d ≡ durability_at s
unfolding agree
agree-durability s d h = ground arith

sha_size : (text : Bytes) → is_sha text ≡ true → length text ≡ 64
unfolding is_sha
sha_size text h = ground arith

nullable_sha-IsResultSha :
    (field : Optional Bytes) (sha : Option Bytes)
    → nullable_sha field ≡ ok sha
    → IsResultSha field sha
unfolding nullable_sha
nullable_sha-IsResultSha absent sha h = cc
nullable_sha-IsResultSha null sha h = subst (IsResultSha null) (ok_same h) refl
nullable_sha-IsResultSha (value text) sha h = elim (Bool-cases (is_sha text)) [
  | inl good ↦ subst (IsResultSha (value text)) (ok_same (rw good at h)) (refl, sha_size text good)
  | inr bad ↦ let wrong : err violation ≡ ok sha = rw bad at h in cc
]

quorum_tests :
    (version : ℕ) (id id' command command' : Bytes) (shaped : Bool)
    → ((version == 1) && bytes_equal id id' && bytes_equal command command' && shaped) ≡ true
    → (version ≡ 1) × (id ≡ id') × (command ≡ command')
quorum_tests version id id' command command' shaped h = (
  ground (arith, h),
  bytes_equal→eq id id' (ground (arith, h)),
  bytes_equal→eq command command' (ground (arith, h)),
)

decode_quorum-IsQuorum :
    (request : Request) (receipt : Option (ℕ × Bytes)) (wire : WireQuorum) (q : QuorumReceipt)
    → decode_quorum request receipt wire ≡ ok q
    → IsQuorum request wire q
unfolding decode_quorum IsQuorum
decode_quorum-IsQuorum request receipt wire q h =
    let (shaped, h1) = guarded_ok _ violation _ h in
    let (index, at, h2) = bind_ok (positive wire.index) _ h1 in
    let (term, termed, h3) = bind_ok (present wire.term) _ h2 in
    let (stage, staged, h4) = bind_ok (stage_of wire.stage) _ h3 in
    let (durability, kept, h5) = bind_ok (durability_of wire.durability) _ h4 in
    let (agreed, h6) = guarded_ok _ violation _ h5 in
    let (sha, hashed, h7) = bind_ok (nullable_sha wire.result_sha256) _ h6 in
    let (same, h8) = guarded_ok _ violation _ h7 in
    let (version, id, command) =
      quorum_tests wire.version wire.request_id request.request_id wire.command_sha256
        request.command_sha256 (is_sha wire.command_sha256) shaped in
    let (there, above) = positive-some wire.index index at in
    subst (λ r. unfold IsQuorum in IsQuorum request wire r) (ok_same h8)
      (
        version,
        id,
        command,
        there,
        above,
        present-some wire.term term termed,
        stage_of-name wire.stage stage staged,
        durability_of-name wire.durability durability kept,
        agree-durability stage durability agreed,
        nullable_sha-IsResultSha wire.result_sha256 sha hashed,
      )

pub optional_quorum-IsOptionalQuorum :
    (request : Request) (receipt : Option (ℕ × Bytes)) (field : Optional WireQuorum)
    (q : Option QuorumReceipt)
    → optional_quorum request receipt field ≡ ok q
    → IsOptionalQuorum request field q
unfolding optional_quorum IsOptionalQuorum
optional_quorum-IsOptionalQuorum request receipt absent q h =
    subst (IsOptionalQuorum request absent) (ok_same h) refl
optional_quorum-IsOptionalQuorum request receipt null q h = cc
optional_quorum-IsOptionalQuorum request receipt (value wire) q h =
    let (inner, made, e) = bind_ok (decode_quorum request receipt wire) _ h in
    subst (IsOptionalQuorum request (value wire)) (ok_same e)
      (wire, refl, decode_quorum-IsQuorum request receipt wire inner made)
