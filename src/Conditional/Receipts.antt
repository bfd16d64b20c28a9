-- ===== src/Conditional/Receipts.antt =====
-- conditional.go: `validateReceiptAgainstRequest`, the check of a receipt against the request that it
-- answers. Every error there is a plain one, made by `fmt.Errorf`.
use talon_sdk_go.Base.{
  ℕ, suc, ◌+◌, ◌*◌, ◌^◌, Bool, true, false, not, ◌&&◌, ◌||◌, Option, none, some, List, [], ◌∷◌,
  Bytes, Result, plain, guard, ◌>>◌, ◌==◌, if◌then◌else◌, length, bytes_equal,
}
use talon_sdk_go.Base.Int.{ℤ, pos, negsuc, ltb_ℤ}
use talon_sdk_go.Base.Words.{from_unsigned}
use talon_sdk_go.Conditional.{
  Condition, Mutation, put, delete, increment, unmade, mutation_key, keyspace_of,
}
use talon_sdk_go.Conditional.Order.{value_matches, nullable_equal}
use talon_sdk_go.Conditional.Arithmetic.{add_int64}

-- ConditionalConflictKind, with the four names that decodeConditionalConflict admits.
pub data ConflictKind : Type 0 where
  condition_failed counter_invalid counter_overflow counter_underflow : ConflictKind

pub record Conflict : Type 0 where
  pub kind : ConflictKind
  pub index : ℕ

pub record Observation : Type 0 where
  pub index : ℕ
  pub keyspace : Bytes
  pub key : Bytes
  pub before : Option Bytes
  pub after : Option Bytes
  pub matched : Option Bool
  pub before_i64 : Option ℤ
  pub after_i64 : Option ℤ

-- ConditionalTransactionOutcome, the two that decodeConditionalReceiptWithLimit admits.
pub data Outcome : Type 0 where
  applied conflict : Outcome

pub record Receipt : Type 0 where
  pub version : ℕ
  pub request_id : Bytes
  pub command_sha256 : Bytes
  pub revision : ℕ
  pub outcome : Outcome
  pub conflict : Option Conflict
  pub conditions : List Observation
  pub mutations : List Observation
  pub receipt_sha256 : Bytes

-- binary.BigEndian.Uint64, on eight bytes.
unfoldable pub get_be : ℕ → Bytes → ℕ
get_be acc [] = acc
get_be acc (b ∷ bs) = get_be (acc * 256 + b) bs

unfoldable pub equal_ℤ : ℤ → ℤ → Bool
equal_ℤ (pos a) (pos b) = a == b
equal_ℤ (pos _) (negsuc _) = false
equal_ℤ (negsuc _) (pos _) = false
equal_ℤ (negsuc a) (negsuc b) = a == b

-- bytesMatchI64
unfoldable pub bytes_match_i64 : Option Bytes → ℤ → Bool
unfolding equal_ℤ get_be
bytes_match_i64 none expected = equal_ℤ expected (pos 0)
bytes_match_i64 (some value) expected =
    (length value == 8) && equal_ℤ (from_unsigned (2 ^ 63) (get_be 0 value)) expected

unfoldable pub is_none {ℓ} : {A : Type ℓ} → Option A → Bool
is_none none = true
is_none (some _) = false

unfoldable pub is_increment : Mutation → Bool
is_increment (increment _ _) = true
is_increment _ = false

-- The round of the first loop, on the condition at `index`.
unfoldable pub check_condition_observation : Bytes → ℕ → Observation → Condition → Bool
unfolding is_none value_matches
check_condition_observation keyspace index o c =
    (o.index == index)
    && bytes_equal o.keyspace keyspace
    && bytes_equal o.key c.key
    && is_none o.before_i64
    && is_none o.after_i64
    && elim o.matched [
      | none ↦ false
      | some true ↦ value_matches o.before c.expected c.operator
      | some false ↦ not (value_matches o.before c.expected c.operator)
    ]

-- The part of the second loop on a counter conflict at the mutation.
unfoldable pub check_range : ConflictKind → Observation → ℤ → Bool
unfolding equal_ℤ add_int64
check_range kind o delta = elim o.before_i64 [
  | none ↦ false
  | some before ↦ elim o.after_i64 [
    | none ↦ false
    | some after ↦ equal_ℤ before after && (add_int64 before delta).1 && elim kind [
      | counter_overflow ↦ ltb_ℤ (pos 0) delta && not (ltb_ℤ delta (pos 0))
      | counter_underflow ↦ not (ltb_ℤ (pos 0) delta) && ltb_ℤ delta (pos 0)
      | _ ↦ false
    ]
  ]
]

unfoldable pub check_counter : ConflictKind → Observation → Mutation → Bool
unfolding is_none check_range
check_counter counter_invalid o (increment key delta) =
    elim o.before [ none ↦ false | some value ↦ not (length value == 8) ]
    && is_none o.before_i64
    && is_none o.after_i64
check_counter condition_failed o _ = true
check_counter counter_overflow o (increment key delta) = check_range counter_overflow o delta
check_counter counter_underflow o (increment key delta) = check_range counter_underflow o delta
check_counter _ o _ = false

-- The rejected transaction: nothing changed, and the conflict at this mutation is borne out.
unfoldable pub check_rejected : Option Conflict → ℕ → Observation → Mutation → Bool
unfolding nullable_equal check_counter
check_rejected reason index o m = nullable_equal o.before o.after && elim reason [
  | none ↦ true
  | some r ↦ if r.index == index then check_counter r.kind o m else true
]

-- The applied transaction: the value behind each mutation.
unfoldable pub check_applied : Observation → Mutation → Bool
unfolding bytes_match_i64 add_int64 equal_ℤ
check_applied o (put key value) = elim o.after [
  | none ↦ false
  | some after ↦ bytes_equal after value
]
check_applied o (delete key) = elim o.after [ none ↦ true | some _ ↦ false ]
check_applied o (increment key delta) = elim o.before_i64 [
  | none ↦ false
  | some before ↦ elim o.after_i64 [
    | none ↦ false
    | some after ↦
        bytes_match_i64 o.before before
        && bytes_match_i64 o.after after
        && not (add_int64 before delta).1
        && equal_ℤ (add_int64 before delta).0 after
  ]
]
check_applied o (unmade key) = true

unfoldable pub check_mutation_observation :
    Bytes → Outcome → Option Conflict → ℕ → Observation → Mutation → Bool
unfolding is_none is_increment check_rejected check_applied
check_mutation_observation keyspace outcome reason index o m =
    (o.index == index)
    && bytes_equal o.keyspace keyspace
    && bytes_equal o.key (mutation_key m)
    && is_none o.matched
    && (is_increment m || (is_none o.before_i64 && is_none o.after_i64))
    && elim outcome [ conflict ↦ check_rejected reason index o m | applied ↦ check_applied o m ]

unfoldable pub check_all {ℓ κ} :
    {A : Type ℓ} {B : Type κ} → (ℕ → A → B → Bool) → ℕ → List A → List B → Bool
check_all test index [] [] = true
check_all test index (x ∷ xs) (y ∷ ys) = test index x y && check_all test (suc index) xs ys
check_all test index [] (_ ∷ _) = false
check_all test index (_ ∷ _) [] = false

-- validateReceiptAgainstRequest; lists of different lengths fail the test of the counts.
unfoldable pub validate_receipt :
    Receipt → Bytes → List Condition → List Mutation → Result (Unit {0})
unfolding check_all check_condition_observation check_mutation_observation
validate_receipt receipt namespace conditions mutations =
    let keyspace = keyspace_of namespace in
    guard
      ((length receipt.conditions == length conditions)
        && (length receipt.mutations == length mutations))
      plain
    >> (guard (check_all (check_condition_observation keyspace) 0 receipt.conditions conditions)
          plain
        >> guard
            (check_all (check_mutation_observation keyspace receipt.outcome receipt.conflict) 0
              receipt.mutations mutations)
            plain)
