-- ===== src/KvRead.antt =====
-- talon_kv_read.go: the byte-exact key-value reads of an open database. A parser takes the bytes
-- from the offset on, `data[offset:]`, and returns those behind what it read.
-- What the native library answers is a parameter: an output, or a failure with its machine code.
pub mod Requests
pub mod Replies
pub mod Reads
mod Tests
use talon_sdk_go.Base.{
  ℕ, zero, suc, ◌+◌, ◌-◌, ◌*◌, ◌%◌, ◌^◌, Bool, true, false, not, ◌&&◌, ◌||◌, Option, none, some,
  List, [], ◌∷◌, ◌++◌, Bytes, Result, ok, err, plain, talon, Error, new_error, guard, ErrorCode,
  ◌>>=◌, ◌>>◌, ltb, leb, ◌==◌, if◌then◌else◌, length, take, drop, codes,
}
use talon_sdk_go.Base.Int.{ℤ, pos, negsuc, ltb_ℤ}
use talon_sdk_go.Base.Words.{put_le, get_le, from_unsigned, to_unsigned}
use talon_sdk_go.Native.{NativeInfo, require_capability, embedded_native_error}

abbrev pub max_request : ℕ
max_request = 2 ^ 20

abbrev pub max_reply : ℕ
max_reply = 64 * 2 ^ 20

abbrev pub max_keys : ℕ
max_keys = 4096

abbrev pub max_key : ℕ
max_key = 64 * 2 ^ 10

abbrev pub max_value : ℕ
max_value = 16 * 2 ^ 20

-- KVBytes: a value, or a missing key.
pub record KvBytes : Type 0 where
  pub value : Bytes
  pub present : Bool

abbrev pub missing_value : KvBytes
missing_value = record { value = []; present = false }

abbrev pub invalid : Error
invalid = new_error ErrorCode.invalid_argument

abbrev pub violation : Error
violation = new_error ErrorCode.protocol_violation

-- The first loop of encodeNativeKVKeys. The bound less the key stays positive in Go, by the test
-- in front of it; here that test is written as a sum.
pub request_size : ℕ → List Bytes → Result ℕ
request_size size [] = ok size
request_size size (key ∷ keys) =
    let rest = request_size (size + (4 + length key)) keys in
    if ltb max_key (length key) || ltb max_request (size + (4 + length key))
    then err invalid
    else rest

-- Its second loop: each key behind its length.
pub key_bytes : List Bytes → Bytes
key_bytes [] = []
key_bytes (key ∷ keys) = put_le 4 (length key) ++ (key ++ key_bytes keys)

-- encodeNativeKVKeys
pub encode_keys : List Bytes → Bool → Result Bytes
encode_keys keys multiple = do
  guard (multiple || (length keys == 1)) invalid
  guard (leb (length keys) max_keys) invalid
  size ← request_size (if multiple then 4 else 0) keys
  ok (if multiple then put_le 4 (length keys) ++ key_bytes keys else key_bytes keys)

-- parseNativeKVValue behind the tag and the length.
pub take_value : ℕ → Bytes → Result (KvBytes × Bytes)
take_value size reply =
    if ltb (length reply) size
    then err plain
    else ok (record { value = take size reply; present = true }, drop size reply)

pub parse_value : Bytes → Result (KvBytes × Bytes)
parse_value [] = err plain
parse_value (tag ∷ reply) =
    if tag == 0
    then ok (missing_value, reply)
    else if not (tag == 1) || ltb (length reply) 4
    then err plain
    else take_value (get_le (take 4 reply)) (drop 4 reply)

-- parseNativeKVGet
pub finish_get : KvBytes × Bytes → Result KvBytes
finish_get (value, []) = ok value
finish_get (value, _ ∷ _) = err violation

pub parse_get : Bytes → Result KvBytes
parse_get reply = elim (parse_value reply) [ ok parsed ↦ finish_get parsed | err _ ↦ err violation ]

-- The loop of parseNativeKVMGet over the wanted values, and the test for trailing bytes.
pub parse_values : ℕ → Bytes → Result (List KvBytes)
parse_values zero [] = ok []
parse_values zero (_ ∷ _) = err violation
parse_values (suc want) reply = elim (parse_value reply) [
  | ok (value, rest) ↦ parse_values want rest >>= (λ values. ok (value ∷ values))
  | err _ ↦ err violation
]

-- parseNativeKVMGet
pub parse_mget : Bytes → ℕ → Result (List KvBytes)
parse_mget reply want =
    if ltb (length reply) 4 || not (get_le (take 4 reply) == want % 2 ^ 32)
    then err violation
    else parse_values want (drop 4 reply)

-- What the call of the native library returned: no output, an output, or a failure.
pub data NativeReply : Type 0 where
  null_output : NativeReply
  output : Bytes → NativeReply
  failure : Bytes → NativeReply

pub record Db : Type 0 where
  pub is_open : Bool
  pub native_info : NativeInfo

-- The operation numbers of talon_kv_read_v1.
abbrev pub op_get : ℕ
op_get = 1

abbrev pub op_mget : ℕ
op_mget = 2

abbrev pub op_exists : ℕ
op_exists = 3

abbrev pub op_type : ℕ
op_type = 4

abbrev pub op_ttl : ℕ
op_ttl = 5

pub checked_reply : NativeReply → Result Bytes
checked_reply null_output = err violation
checked_reply (output bytes) = if ltb max_reply (length bytes) then err violation else ok bytes
checked_reply (failure code) = err (talon (embedded_native_error code))

-- The replies of EXISTS, TYPE and TTL.
pub parse_exists : Bytes → ℕ → Result ℕ
parse_exists reply keys = do
  guard (length reply == 8) violation
  guard (ltb (get_le reply) (2 ^ 63) && leb (get_le reply) keys) violation
  ok (get_le reply)

pub parse_type : Bytes → Result Bytes
parse_type (zero ∷ []) = ok (codes "none")
parse_type (suc zero ∷ []) = ok (codes "string")
parse_type _ = err violation

pub parse_ttl : Bytes → Result ℤ
parse_ttl reply = do
  guard (length reply == 8) violation
  guard (not (ltb_ℤ (from_unsigned (2 ^ 63) (get_le reply)) (negsuc 1))) violation
  ok (from_unsigned (2 ^ 63) (get_le reply))

module _ (core : ℕ → Bytes → NativeReply) where
  -- nativeKVRead
  pub native_read : Db → ℕ → Bytes → Result Bytes
  native_read db operation request =
      require_capability db.native_info (codes "native_kv_read")
      >> (guard db.is_open (new_error ErrorCode.database_closed)
          >> (guard (not (length request == 0) && leb (length request) max_request) invalid
              >> checked_reply (core operation request)))

  -- KVGetBytes, KVMGetBytes, KVExistsBytes, KVTypeBytes and KVTTLBytes
  pub kv_get : Db → Bytes → Result KvBytes
  kv_get db key = do
    request ← encode_keys (key ∷ []) false
    reply ← native_read db op_get request
    parse_get reply

  pub kv_mget : Db → List Bytes → Result (List KvBytes)
  kv_mget db keys = do
    request ← encode_keys keys true
    reply ← native_read db op_mget request
    parse_mget reply (length keys)

  pub kv_exists : Db → List Bytes → Result ℕ
  kv_exists db keys = do
    request ← encode_keys keys true
    reply ← native_read db op_exists request
    parse_exists reply (length keys)

  pub kv_type : Db → Bytes → Result Bytes
  kv_type db key = do
    request ← encode_keys (key ∷ []) false
    reply ← native_read db op_type request
    parse_type reply

  pub kv_ttl : Db → Bytes → Result ℤ
  kv_ttl db key = do
    request ← encode_keys (key ∷ []) false
    reply ← native_read db op_ttl request
    parse_ttl reply
