-- ===== src/Conditional.antt =====
-- internal/serverprotocol/conditional.go: conditional transactions. A nil byte slice, an absent
-- value, is `none`. SHA-256 with its hexadecimal text is a parameter.
pub mod Arithmetic
pub mod Order
pub mod Sizes
pub mod Commands
pub mod Build
pub mod Receipts
pub mod Evidence
pub mod Results
mod Tests
use talon_sdk_go.Base.{
  ℕ, zero, suc, ◌+◌, ◌-◌, ◌*◌, ◌/◌, ◌%◌, ◌^◌, Bool, true, false, not, ◌&&◌, ◌||◌, Option, none,
  some, List, [], ◌∷◌, ◌++◌, Bytes, Result, ok, err, plain, new_error, guard, Error, ErrorCode,
  ◌>>=◌, ◌>>◌, ltb, leb, ◌==◌, if◌then◌else◌, length, codes, bytes_equal, every,
}
use talon_sdk_go.Base.Int.{ℤ, pos, negsuc, ltb_ℤ}
use talon_sdk_go.Base.Words.{put_le, to_unsigned, from_unsigned}
use talon_sdk_go.Decimal.Digits.{number_text, is_negative, magnitude}

abbrev pub max_items : ℕ
max_items = 1_000_000

abbrev pub max_key_bytes : ℕ
max_key_bytes = 65_536

abbrev pub max_value_bytes : ℕ
max_value_bytes = 2 ^ 20

abbrev pub max_request_bytes : ℕ
max_request_bytes = 32 * 2 ^ 20

abbrev pub transaction_version : ℕ
transaction_version = 2

-- ConditionalCompareOperator, a string in Go; `unknown` is any other string.
pub data CompareOperator : Type 0 where
  eq ne lt le gt ge : CompareOperator
  unknown : Bytes → CompareOperator

pub record Condition : Type 0 where
  pub key : Bytes
  pub expected : Option Bytes
  pub operator : CompareOperator

-- ConditionalTransactionMutation; `unmade` was not made by a constructor.
pub data Mutation : Type 0 where
  put : Bytes → Bytes → Mutation
  delete : Bytes → Mutation
  increment : Bytes → ℤ → Mutation
  unmade : Bytes → Mutation

pub mutation_key : Mutation → Bytes
mutation_key (put key _) = key
mutation_key (delete key) = key
mutation_key (increment key _) = key
mutation_key (unmade key) = key

-- The two patterns on names.
pub is_namespace_byte : ℕ → Bool
is_namespace_byte c =
    (leb 65 c && leb c 90)
    || (leb 97 c && leb c 122)
    || (leb 48 c && leb c 57)
    || (c == 46)
    || (c == 95)
    || (c == 45)

pub is_namespace : Bytes → Bool
is_namespace name = leb 1 (length name) && leb (length name) 64 && every is_namespace_byte name

pub is_request_id : Bytes → Bool
is_request_id name =
    leb 1 (length name)
    && leb (length name) 128
    && every (λ c. is_namespace_byte c || (c == 58)) name

-- validCompareOperator
pub valid_operator : CompareOperator → Bool
valid_operator (unknown _) = false
valid_operator _ = true

-- The digits that wireByteArrayJSONSize counts for one byte.
pub digits_size : ℕ → ℕ
digits_size item = if ltb item 10 then 1 else if ltb item 100 then 2 else 3

-- Its loop; `later` is `index != 0`.
pub items_size : Bool → Bytes → ℕ
items_size later [] = 0
items_size later (item ∷ items) =
    (if later then 1 else 0) + digits_size item + items_size true items

-- wireByteArrayJSONSize
pub byte_array_json_size : Bytes → ℕ
byte_array_json_size value = 2 + items_size false value

-- wireBytes.MarshalJSON of a value that is not null: 91, 44 and 93 are '[', ',' and ']'.
pub items_json : Bool → Bytes → Bytes
items_json later [] = []
items_json later (item ∷ items) =
    (if later then 44 ∷ [] else []) ++ (number_text item ++ items_json true items)

pub marshal_bytes : Option Bytes → Bytes
marshal_bytes none = codes "null"
marshal_bytes (some value) = 91 ∷ (items_json false value ++ 93 ∷ [])

pub contains_key : List Bytes → Bytes → Bool
contains_key [] key = false
contains_key (k ∷ ks) key = bytes_equal k key || contains_key ks key

abbrev pub invalid : Error
invalid = new_error ErrorCode.invalid_argument

-- One round of the loop of buildConditionalRequest over the conditions, with the estimated size
-- and the keys seen: the new size.
pub check_condition : ℕ → List Bytes → Condition → Result ℕ
check_condition size seen c = do
  guard (not (length c.key == 0) && leb (length c.key) max_key_bytes && valid_operator c.operator)
      invalid
  guard (elim c.expected [ none ↦ true | some value ↦ leb (length value) max_value_bytes ]) invalid
  let larger =
      size
      + byte_array_json_size c.key
      + elim c.expected [ none ↦ 0 | some value ↦ byte_array_json_size value ]
  guard (leb larger max_request_bytes) invalid
  guard (not (contains_key seen c.key)) invalid
  ok larger

pub check_conditions : ℕ → List Bytes → List Condition → Result ℕ
check_conditions size seen [] = ok size
check_conditions size seen (c ∷ cs) = do
  larger ← check_condition size seen c
  check_conditions larger (c.key ∷ seen) cs

-- The switch over the kind of a mutation, and the size of a put's value.
pub valid_mutation : Mutation → Bool
valid_mutation (put _ value) = leb (length value) max_value_bytes
valid_mutation (delete _) = true
valid_mutation (increment _ _) = true
valid_mutation (unmade _) = false

pub value_size : Mutation → ℕ
value_size (put _ value) = byte_array_json_size value
value_size _ = 0

pub check_mutation : ℕ → List Bytes → Mutation → Result ℕ
check_mutation size seen m = do
  guard (not (length (mutation_key m) == 0) && leb (length (mutation_key m)) max_key_bytes) invalid
  guard (not (contains_key seen (mutation_key m))) invalid
  guard (valid_mutation m) invalid
  guard (leb (size + byte_array_json_size (mutation_key m) + value_size m) max_request_bytes)
      invalid
  ok (size + byte_array_json_size (mutation_key m) + value_size m)

pub check_mutations : ℕ → List Bytes → List Mutation → Result ℕ
check_mutations size seen [] = ok size
check_mutations size seen (m ∷ ms) = do
  larger ← check_mutation size seen m
  check_mutations larger (mutation_key m ∷ seen) ms

-- conditionalCommandSHAForKeyspace: the bytes that it hashes.
pub field_bytes : Bytes → Bytes
field_bytes value = put_le 4 (length value) ++ value

pub operator_byte : CompareOperator → ℕ
operator_byte eq = 0
operator_byte ne = 1
operator_byte lt = 2
operator_byte le = 3
operator_byte gt = 4
operator_byte ge = 5
operator_byte (unknown _) = 0

pub expected_bytes : Option Bytes → Bytes
expected_bytes none = 0 ∷ []
expected_bytes (some value) = 1 ∷ field_bytes value

pub condition_bytes : Bytes → Condition → Bytes
condition_bytes keyspace c =
    field_bytes keyspace
    ++ (field_bytes c.key ++ (expected_bytes c.expected ++ operator_byte c.operator ∷ []))

pub conditions_bytes : Bytes → List Condition → Bytes
conditions_bytes keyspace [] = []
conditions_bytes keyspace (c ∷ cs) = condition_bytes keyspace c ++ conditions_bytes keyspace cs

pub mutation_bytes : Bytes → Mutation → Result Bytes
mutation_bytes keyspace (put key value) =
    ok (0 ∷ (field_bytes keyspace ++ (field_bytes key ++ field_bytes value)))
mutation_bytes keyspace (delete key) = ok (1 ∷ (field_bytes keyspace ++ field_bytes key))
mutation_bytes keyspace (increment key delta) =
    ok (2 ∷ (field_bytes keyspace ++ (field_bytes key ++ put_le 8 (to_unsigned (2 ^ 63) delta))))
mutation_bytes keyspace (unmade key) = err invalid

pub mutations_bytes : Bytes → List Mutation → Result Bytes
mutations_bytes keyspace [] = ok []
mutations_bytes keyspace (m ∷ ms) = do
  first ← mutation_bytes keyspace m
  rest ← mutations_bytes keyspace ms
  ok (first ++ rest)

pub command_bytes : Bytes → List Condition → List Mutation → Result Bytes
command_bytes keyspace conditions mutations = do
  body ← mutations_bytes keyspace mutations
  ok (
      codes "TLNCTX2"
      ++ (put_le 2 transaction_version
          ++ (put_le 4 (length conditions)
              ++ (conditions_bytes keyspace conditions ++ (put_le 4 (length mutations) ++ body)))))

abbrev pub keyspace_of : Bytes → Bytes
keyspace_of namespace = codes "__user_conditional__." ++ namespace

-- ConditionalTransactionRequest
pub record Request : Type 0 where
  pub namespace : Bytes
  pub request_id : Bytes
  pub conditions : List Condition
  pub mutations : List Mutation
  pub command_sha256 : Bytes

module _ (sha256 : Bytes → Bytes) where
  -- conditionalCommandSHA
  pub command_sha : Bytes → List Condition → List Mutation → Result Bytes
  command_sha namespace conditions mutations = do
    bytes ← command_bytes (keyspace_of namespace) conditions mutations
    ok (sha256 bytes)

  -- buildConditionalRequest: the command hash. The wire request beside it holds the same keys,
  -- values and operators under JSON names.
  pub build_request : Bytes → Bytes → List Condition → List Mutation → Result Bytes
  build_request namespace request_id conditions mutations = do
    guard (is_namespace namespace) invalid
    guard (is_request_id request_id) invalid
    guard
        (leb (length conditions) max_items
          && not (length mutations == 0)
          && leb (length mutations) max_items)
        invalid
    let size =
        1024 + (length namespace + length request_id) + (length conditions + length mutations) * 512
    guard (leb size max_request_bytes) invalid
    size' ← check_conditions size [] conditions
    _ ← check_mutations size' [] mutations
    command_sha namespace conditions mutations

  -- NewConditionalTransactionRequest; its copies are the lists themselves.
  pub new_request : Bytes → Bytes → List Condition → List Mutation → Result Request
  new_request namespace request_id conditions mutations = do
    sha ← build_request namespace request_id conditions mutations
    ok (record {
      namespace = namespace;
      request_id = request_id;
      conditions = conditions;
      mutations = mutations;
      command_sha256 = sha;
    })

  -- buildClosedConditionalRequest: the request, checked again before each use.
  pub build_closed : Request → Result Request
  build_closed request =
      elim (build_request request.namespace request.request_id request.conditions
        request.mutations) [
          | err _ ↦ err invalid
          | ok sha ↦
              if bytes_equal request.command_sha256 []
                || not (bytes_equal request.command_sha256 sha)
              then err invalid
              else ok request
        ]
