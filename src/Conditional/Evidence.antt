-- ===== src/Conditional/Evidence.antt =====
-- conditional.go: `validateReceiptAgainstRequest`, and the effects of mutations on values.
use talon_sdk_go.Base.{
  ℕ, suc, ◌^◌, ◌≡◌, ◌↔◌, refl, sym, ap, subst, ◌∙◌, Bool, true, false, Option, none, some, List, [],
  ◌∷◌, Bytes, ok, plain, guarded_ok, guard_ok, ◌==◌, if◌then◌else◌, length, bytes_equal, All,
  bytes_equal→eq, Option-cases, inl, inr, arith,
}
use talon_sdk_go.Base.Int.{ℤ, pos, negsuc, ◌+ℤ◌}
use talon_sdk_go.Base.Words.{from_unsigned, IsSigned}
use talon_sdk_go.Conditional.{
  Condition, Mutation, put, delete, increment, unmade, mutation_key, keyspace_of,
}
use talon_sdk_go.Conditional.Order.{value_matches, nullable_equal, Holds, value_matches-iff-Holds}
use talon_sdk_go.Conditional.Arithmetic.{add_int64, add_int64-exact}
use talon_sdk_go.Conditional.Build.{IsDelta}
use talon_sdk_go.Conditional.Receipts.{
  Receipt, Observation, Outcome, Conflict, get_be, equal_ℤ, bytes_match_i64,
  check_condition_observation, check_rejected, check_applied, check_mutation_observation, check_all,
  validate_receipt,
}

-- The number that a key's value holds as a counter: an absent one is zero.
abbrev pub counter : Option Bytes → Option ℤ
counter none = some (pos 0)
counter (some value) =
    if length value == 8 then some (from_unsigned (2 ^ 63) (get_be 0 value)) else none

-- What a mutation does to the value of its key.
abbrev pub Changes : Mutation → Option Bytes → Option Bytes → Type 0
Changes (put key value) before after = after ≡ some value
Changes (delete key) before after = after ≡ none
Changes (increment key delta) before after =
    (n : ℤ) × (counter before ≡ some n)
    × (counter after ≡ some (n +ℤ delta))
    × IsSigned (2 ^ 63) (n +ℤ delta)
Changes (unmade key) before after = Unit

-- The numbers of an observation are int64.
abbrev pub IsInt64 : Option ℤ → Type 0
IsInt64 none = Unit
IsInt64 (some n) = IsSigned (2 ^ 63) n

equal_ℤ→eq : (a b : ℤ) → equal_ℤ a b ≡ true → a ≡ b
unfolding equal_ℤ
equal_ℤ→eq (pos a) (pos b) h = ground arith
equal_ℤ→eq (pos a) (negsuc b) h = cc
equal_ℤ→eq (negsuc a) (pos b) h = cc
equal_ℤ→eq (negsuc a) (negsuc b) h = ground arith

bytes_match_i64-counter :
    (v : Option Bytes) (n : ℤ) → bytes_match_i64 v n ≡ true → counter v ≡ some n
unfolding bytes_match_i64
bytes_match_i64-counter none n h = ap some (sym (equal_ℤ→eq n (pos 0) h))
bytes_match_i64-counter (some value) n h =
    ground (arith, equal_ℤ→eq (from_unsigned (2 ^ 63) (get_be 0 value)) n)

increment_values :
    (o : Observation) (key : Bytes) (delta n m : ℤ)
    → o.before_i64 ≡ some n
    → o.after_i64 ≡ some m
    → check_applied o (increment key delta) ≡ true
    → (bytes_match_i64 o.before n ≡ true)
      × (bytes_match_i64 o.after m ≡ true)
      × ((add_int64 n delta).1 ≡ false)
      × (equal_ℤ (add_int64 n delta).0 m ≡ true)
unfolding check_applied
increment_values o key delta n m found found' h = ground (arith, h, found, found')

increment_tests :
    (o : Observation) (key : Bytes) (delta : ℤ)
    → check_applied o (increment key delta) ≡ true
    → (n : ℤ) × (m : ℤ) × (o.before_i64 ≡ some n)
      × (bytes_match_i64 o.before n ≡ true)
      × (bytes_match_i64 o.after m ≡ true)
      × ((add_int64 n delta).1 ≡ false)
      × (equal_ℤ (add_int64 n delta).0 m ≡ true)
unfolding check_applied
increment_tests o key delta h = elim (Option-cases o.before_i64) [
  | inl absent ↦ absurd (ground (arith, h, absent))
  | inr (n, found) ↦ elim (Option-cases o.after_i64) [
    | inl absent ↦ absurd (ground (arith, h, found, absent))
    | inr (m, found') ↦
        let (before, after, fits, sum) = increment_values o key delta n m found found' h in
        (n, m, found, before, after, fits, sum)
  ]
]

put_value :
    (o : Observation) (key value : Bytes)
    → check_applied o (put key value) ≡ true
    → o.after ≡ some value
unfolding check_applied
put_value o key value h = elim (Option-cases o.after) [
  | inl absent ↦ absurd (ground (arith, h, absent))
  | inr (after, found) ↦ found ∙ ap some (bytes_equal→eq after value (ground (arith, h, found)))
]

delete_value :
    (o : Observation) (key : Bytes) → check_applied o (delete key) ≡ true → o.after ≡ none
unfolding check_applied
delete_value o key h = elim (Option-cases o.after) [
  | inl absent ↦ absent
  | inr (after, found) ↦ absurd (ground (arith, h, found))
]

check_applied-Changes :
    (o : Observation) (m : Mutation)
    → IsInt64 o.before_i64
    → IsDelta m
    → check_applied o m ≡ true
    → Changes m o.before o.after
check_applied-Changes o (put key value) i d h = put_value o key value h
check_applied-Changes o (delete key) i d h = delete_value o key h
check_applied-Changes o (increment key delta) i d h =
    let (n, m, found, before, after, fits, sum) = increment_tests o key delta h in
    let signed : IsSigned (2 ^ 63) n = subst IsInt64 found i in
    let (flag, value) = add_int64-exact n delta signed d in
    let total = flag.0 fits in
    (
      n,
      bytes_match_i64-counter o.before n before,
      bytes_match_i64-counter o.after m after
          ∙ ap some (sym (equal_ℤ→eq (add_int64 n delta).0 m sum) ∙ value total),
      total,
    )
check_applied-Changes o (unmade key) i d h = tt

nullable_equal→eq : (a b : Option Bytes) → nullable_equal a b ≡ true → a ≡ b
unfolding nullable_equal
nullable_equal→eq none none h = refl
nullable_equal→eq none (some b) h = cc
nullable_equal→eq (some a) none h = cc
nullable_equal→eq (some a) (some b) h = ap some (bytes_equal→eq a b h)

-- What the receipt says of the condition and of the mutation at an index.
abbrev pub IsConditionEvidence : Bytes → ℕ → Observation → Condition → Type 0
IsConditionEvidence keyspace index o c =
    (o.index ≡ index)
    × (o.keyspace ≡ keyspace)
    × (o.key ≡ c.key)
    × ((b : Bool) × (o.matched ≡ some b) × ((b ≡ true) ↔ Holds c.operator o.before c.expected))

abbrev pub IsMutationEvidence : Bytes → Outcome → ℕ → Observation → Mutation → Type 0
IsMutationEvidence keyspace outcome index o m =
    (o.index ≡ index) × (o.keyspace ≡ keyspace) × (o.key ≡ mutation_key m) × elim outcome [
      | Outcome.applied ↦ Changes m o.before o.after
      | Outcome.conflict ↦ o.before ≡ o.after
    ]

-- The relation holds between the members of two lists, one by one.
abbrev pub All2 {ℓ κ} :
    {A : Type ℓ} {B : Type κ} → (ℕ → A → B → Type 0) → ℕ → List A → List B → Type 0
All2 R index [] [] = Unit
All2 R index (x ∷ xs) (y ∷ ys) = R index x y × All2 R (suc index) xs ys
All2 R index [] (_ ∷ _) = ⊥
All2 R index (_ ∷ _) [] = ⊥

condition_tests :
    (keyspace : Bytes) (index : ℕ) (o : Observation) (c : Condition)
    → check_condition_observation keyspace index o c ≡ true
    → (o.index ≡ index)
      × (bytes_equal o.keyspace keyspace ≡ true)
      × (bytes_equal o.key c.key ≡ true)
      × ((b : Bool) × (o.matched ≡ some b) × (value_matches o.before c.expected c.operator ≡ b))
unfolding check_condition_observation
condition_tests keyspace index o c h = elim (Option-cases o.matched) [
  | inl absent ↦ absurd (ground (arith, h, absent))
  | inr (true, found) ↦ (
    ground (arith, h, found),
    ground (arith, h, found),
    ground (arith, h, found),
    (true, found, ground (arith, h, found)),
  )
  | inr (false, found) ↦ (
    ground (arith, h, found),
    ground (arith, h, found),
    ground (arith, h, found),
    (false, found, ground (arith, h, found)),
  )
]

mutation_tests :
    (keyspace : Bytes) (outcome : Outcome) (reason : Option Conflict) (index : ℕ) (o : Observation)
    (m : Mutation)
    → check_mutation_observation keyspace outcome reason index o m ≡ true
    → (o.index ≡ index)
      × (bytes_equal o.keyspace keyspace ≡ true)
      × (bytes_equal o.key (mutation_key m) ≡ true)
      × (elim outcome [
        | Outcome.conflict ↦ check_rejected reason index o m
        | Outcome.applied ↦ check_applied o m
      ]
          ≡ true)
unfolding check_mutation_observation
mutation_tests keyspace outcome reason index o m h = ground (arith, h)

rejected_unchanged :
    (reason : Option Conflict) (index : ℕ) (o : Observation) (m : Mutation)
    → check_rejected reason index o m ≡ true
    → nullable_equal o.before o.after ≡ true
unfolding check_rejected
rejected_unchanged reason index o m h = ground (arith, h)

unit_list : {A : Type 0} (xs : List A) → All (λ _. Unit {0}) xs
unit_list [] = tt
unit_list (x ∷ xs) = (tt, unit_list xs)

check_all_step :
    {A B : Type 0} (test : ℕ → A → B → Bool) (index : ℕ) (x : A) (y : B) (xs : List A) (ys : List B)
    → check_all test index (x ∷ xs) (y ∷ ys) ≡ true
    → (test index x y ≡ true) × (check_all test (suc index) xs ys ≡ true)
unfolding check_all
check_all_step test index x y xs ys h = ground (arith, h)

validate_receipt_tests :
    (receipt : Receipt) (namespace : Bytes) (cs : List Condition) (ms : List Mutation)
    → validate_receipt receipt namespace cs ms ≡ ok tt
    → (check_all (check_condition_observation (keyspace_of namespace)) 0 receipt.conditions cs
        ≡ true)
      × (check_all
            (check_mutation_observation (keyspace_of namespace) receipt.outcome receipt.conflict)
            0
            receipt.mutations
            ms
          ≡ true)
unfolding validate_receipt
validate_receipt_tests receipt namespace cs ms h =
    let (_, h1) = guarded_ok _ plain _ h in
    let (conditions, h2) = guarded_ok _ plain _ h1 in (conditions, guard_ok _ plain h2)

module _ (keyspace : Bytes) (index : ℕ) (o : Observation) where
  check_condition_observation-IsConditionEvidence :
      (c : Condition)
      → check_condition_observation keyspace index o c ≡ true
      → IsConditionEvidence keyspace index o c
  check_condition_observation-IsConditionEvidence c h =
      let (at, space, key, (b, found, decided)) = condition_tests keyspace index o c h in
      let (sound, complete) = value_matches-iff-Holds o.before c.expected c.operator in
      (
        at,
        bytes_equal→eq o.keyspace keyspace space,
        bytes_equal→eq o.key c.key key,
        (b, found, (λ t. sound (decided ∙ t), λ holds. sym decided ∙ complete holds)),
      )

  check_mutation_observation-IsMutationEvidence :
      (outcome : Outcome) (reason : Option Conflict) (m : Mutation)
      → IsInt64 o.before_i64
      → IsDelta m
      → check_mutation_observation keyspace outcome reason index o m ≡ true
      → IsMutationEvidence keyspace outcome index o m
  check_mutation_observation-IsMutationEvidence Outcome.applied reason m i d h =
      let (at, space, key, rest) = mutation_tests keyspace Outcome.applied reason index o m h in
      (
        at,
        bytes_equal→eq o.keyspace keyspace space,
        bytes_equal→eq o.key (mutation_key m) key,
        check_applied-Changes o m i d rest,
      )
  check_mutation_observation-IsMutationEvidence Outcome.conflict reason m i d h =
      let (at, space, key, rest) = mutation_tests keyspace Outcome.conflict reason index o m h in
      (
        at,
        bytes_equal→eq o.keyspace keyspace space,
        bytes_equal→eq o.key (mutation_key m) key,
        nullable_equal→eq o.before o.after (rejected_unchanged reason index o m rest),
      )

check_all-All2 :
    {A B : Type 0} (test : ℕ → A → B → Bool) (P : A → Type 0) (Q : B → Type 0)
    (R : ℕ → A → B → Type 0)
    → ((i : ℕ) (x : A) (y : B) → P x → Q y → test i x y ≡ true → R i x y)
    → (index : ℕ) (xs : List A) (ys : List B) → All P xs
    → All Q ys
    → check_all test index xs ys ≡ true
    → All2 R index xs ys
check_all-All2 test P Q R sound index [] [] p q h = tt
check_all-All2 test P Q R sound index [] (y ∷ ys) p q h = unfold check_all in cc
check_all-All2 test P Q R sound index (x ∷ xs) [] p q h = unfold check_all in cc
check_all-All2 test P Q R sound index (x ∷ xs) (y ∷ ys) p q h =
    let (one, more) = check_all_step test index x y xs ys h in
    (sound index x y p.0 q.0 one, check_all-All2 test P Q R sound (suc index) xs ys p.1 q.1 more)

-- A receipt that passes the check bears out the request, for int64 numbers: each condition's flag is the
-- truth of its comparison with the value before, and each mutation either has just its effect, where a
-- counter's sum is exact and in range, or changed nothing when the transaction was rejected.
pub validate_receipt-evidence :
    (receipt : Receipt) (namespace : Bytes) (cs : List Condition) (ms : List Mutation)
    → All (λ o. IsInt64 o.before_i64) receipt.mutations
    → All IsDelta ms
    → validate_receipt receipt namespace cs ms ≡ ok tt
    → All2 (IsConditionEvidence (keyspace_of namespace)) 0 receipt.conditions cs
      × All2 (IsMutationEvidence (keyspace_of namespace) receipt.outcome) 0 receipt.mutations ms
validate_receipt-evidence receipt namespace cs ms ints deltas h =
    let (conditions, mutations) = validate_receipt_tests receipt namespace cs ms h in
    let keyspace = keyspace_of namespace in
    (
      check_all-All2 (check_condition_observation keyspace) (λ _. Unit) (λ _. Unit)
          (IsConditionEvidence keyspace)
          (λ i o c _ _ t. check_condition_observation-IsConditionEvidence keyspace i o c t) 0
          receipt.conditions cs (unit_list receipt.conditions) (unit_list cs) conditions,
      check_all-All2 (check_mutation_observation keyspace receipt.outcome receipt.conflict)
          (λ o. IsInt64 o.before_i64) IsDelta (IsMutationEvidence keyspace receipt.outcome)
          (λ i o m p q t.
            check_mutation_observation-IsMutationEvidence keyspace i o receipt.outcome
              receipt.conflict m p q t)
          0 receipt.mutations ms ints deltas mutations,
    )
