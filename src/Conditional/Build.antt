-- ===== src/Conditional/Build.antt =====
-- conditional.go: `buildConditionalRequest` and the command hash.
use talon_sdk_go.Base.{
  ℕ, ◌+◌, ◌*◌, ◌^◌, ◌≤◌, ◌≡◌, ◌≢◌, ◌⊎◌, inl, inr, ◌↔◌, refl, sym, ap, subst, ◌∙◌, true, false, not,
  ◌&&◌, Option, none, some, List, [], ◌∷◌, ◌++◌, Bytes, ok, bind_ok, guarded_ok, leb→le, All, leb,
  ◌==◌, length, length-append, bytes_equal, bytes_equal→eq, bytes_equal_refl, Bool-cases,
  Option-cases, map, arith, codes,
}
use talon_sdk_go.Base.Words.{IsSigned, put_le}
use talon_sdk_go.Conditional.{
  Condition, Mutation, mutation_key, put, delete, increment, unmade, valid_operator,
  byte_array_json_size, contains_key, check_condition, check_conditions, check_mutation,
  check_mutations, valid_mutation, value_size, max_key_bytes, max_value_bytes, max_request_bytes,
  max_items, build_request, command_sha, command_bytes, keyspace_of, is_namespace, is_request_id,
  invalid, mutation_bytes, mutations_bytes, conditions_bytes, transaction_version,
}
use talon_sdk_go.Conditional.Commands.{
  IsCondition, IsMutation, IsShort, IsShortOption, ok_inj, command_bytes_inj,
}

abbrev pub expected_size : Option Bytes → ℕ
expected_size none = 0
expected_size (some value) = byte_array_json_size value

abbrev pub conditions_size : List Condition → ℕ
conditions_size [] = 0
conditions_size (c ∷ cs) =
    byte_array_json_size c.key + expected_size c.expected + conditions_size cs

abbrev pub mutations_size : List Mutation → ℕ
mutations_size [] = 0
mutations_size (m ∷ ms) = byte_array_json_size (mutation_key m) + value_size m + mutations_size ms

abbrev pub FitsOption : Option Bytes → Type 0
FitsOption none = Unit
FitsOption (some value) = length value ≤ max_value_bytes

-- What each condition and each mutation of a request satisfies.
abbrev pub IsChecked : Condition → Type 0
IsChecked c =
    (1 ≤ length c.key)
    × (length c.key ≤ max_key_bytes)
    × (valid_operator c.operator ≡ true)
    × FitsOption c.expected

abbrev pub IsMade : Mutation → Type 0
IsMade m =
    (1 ≤ length (mutation_key m))
    × (length (mutation_key m) ≤ max_key_bytes)
    × (valid_mutation m ≡ true)

-- No key is one of those seen or stands twice.
abbrev pub Fresh : List Bytes → List Bytes → Type 0
Fresh seen [] = Unit
Fresh seen (key ∷ keys) = (contains_key seen key ≡ false) × Fresh (key ∷ seen) keys

check_condition_ok :
    (size total : ℕ) (seen : List Bytes) (c : Condition)
    → check_condition size seen c ≡ ok total
    → IsChecked c
      × (contains_key seen c.key ≡ false)
      × (total ≡ size + (byte_array_json_size c.key + expected_size c.expected))
      × (total ≤ max_request_bytes)
unfolding check_condition
check_condition_ok size total seen c h = elim (Option-cases c.expected) [
  | inl absent ↦ rw absent (ground (arith, absent, h))
  | inr (value, found) ↦ rw found (ground (arith, found, h))
]

check_condition_fits :
    (size : ℕ) (seen : List Bytes) (c : Condition)
    → IsChecked c
    → contains_key seen c.key ≡ false
    → size + (byte_array_json_size c.key + expected_size c.expected) ≤ max_request_bytes
    → check_condition size seen c
      ≡ ok (size + (byte_array_json_size c.key + expected_size c.expected))
unfolding check_condition
check_condition_fits size seen c h fresh b = elim (Option-cases c.expected) [
  | inl absent ↦ ground (arith, absent, h.0, h.1, h.2, fresh, b)
  | inr (value, found) ↦
      let short : length value ≤ max_value_bytes = subst FitsOption found h.3 in
      ground (arith, found, short, h.0, h.1, h.2, fresh, b)
]

check_conditions_ok :
    (cs : List Condition) (size total : ℕ) (seen : List Bytes)
    → check_conditions size seen cs ≡ ok total
    → size ≤ max_request_bytes
    → All IsChecked cs
      × Fresh seen (map (λ c. c.key) cs)
      × (total ≡ size + conditions_size cs)
      × (total ≤ max_request_bytes)
unfolding check_conditions
check_conditions_ok [] size total seen h b = (tt, tt, ground arith, ground arith)
check_conditions_ok (c ∷ cs) size total seen h b =
    let (larger, one, more) = bind_ok (check_condition size seen c) _ h in
    let (checked, fresh, sum, within) = check_condition_ok size larger seen c one in
    let (all, distinct, sum', within') =
      check_conditions_ok cs larger total (c.key ∷ seen) more within in
    ((checked, all), (fresh, distinct), omega (arith, sum, sum'), within')

check_conditions_fits :
    (cs : List Condition) (size : ℕ) (seen : List Bytes)
    → All IsChecked cs
    → Fresh seen (map (λ c. c.key) cs)
    → size + conditions_size cs ≤ max_request_bytes
    → check_conditions size seen cs ≡ ok (size + conditions_size cs)
unfolding check_conditions
check_conditions_fits [] size seen h fresh b = ap ok (omega arith)
check_conditions_fits (c ∷ cs) size seen h fresh b =
    rw (check_condition_fits size seen c h.0 fresh.0 (omega (arith, b))) (
      check_conditions_fits cs (size + (byte_array_json_size c.key + expected_size c.expected))
        (c.key ∷ seen) h.1 fresh.1 (omega (arith, b))
      ∙ ap ok (omega arith))

check_mutation_ok :
    (size total : ℕ) (seen : List Bytes) (m : Mutation)
    → check_mutation size seen m ≡ ok total
    → IsMade m
      × (contains_key seen (mutation_key m) ≡ false)
      × (total ≡ size + (byte_array_json_size (mutation_key m) + value_size m))
      × (total ≤ max_request_bytes)
unfolding check_mutation
check_mutation_ok size total seen m h = ground (arith, h)

check_mutation_fits :
    (size : ℕ) (seen : List Bytes) (m : Mutation)
    → IsMade m
    → contains_key seen (mutation_key m) ≡ false
    → size + (byte_array_json_size (mutation_key m) + value_size m) ≤ max_request_bytes
    → check_mutation size seen m
      ≡ ok (size + (byte_array_json_size (mutation_key m) + value_size m))
unfolding check_mutation
check_mutation_fits size seen m h fresh b = ground (arith, h.0, h.1, h.2, fresh, b)

check_mutations_ok :
    (ms : List Mutation) (size total : ℕ) (seen : List Bytes)
    → check_mutations size seen ms ≡ ok total
    → size ≤ max_request_bytes
    → All IsMade ms
      × Fresh seen (map mutation_key ms)
      × (total ≡ size + mutations_size ms)
      × (total ≤ max_request_bytes)
unfolding check_mutations
check_mutations_ok [] size total seen h b = (tt, tt, ground arith, ground arith)
check_mutations_ok (m ∷ ms) size total seen h b =
    let (larger, one, more) = bind_ok (check_mutation size seen m) _ h in
    let (made, fresh, sum, within) = check_mutation_ok size larger seen m one in
    let (all, distinct, sum', within') =
      check_mutations_ok ms larger total (mutation_key m ∷ seen) more within in
    ((made, all), (fresh, distinct), omega (arith, sum, sum'), within')

check_mutations_fits :
    (ms : List Mutation) (size : ℕ) (seen : List Bytes)
    → All IsMade ms
    → Fresh seen (map mutation_key ms)
    → size + mutations_size ms ≤ max_request_bytes
    → check_mutations size seen ms ≡ ok (size + mutations_size ms)
unfolding check_mutations
check_mutations_fits [] size seen h fresh b = ap ok (omega arith)
check_mutations_fits (m ∷ ms) size seen h fresh b =
    rw (check_mutation_fits size seen m h.0 fresh.0 (omega (arith, b))) (
      check_mutations_fits ms (size + (byte_array_json_size (mutation_key m) + value_size m))
        (mutation_key m ∷ seen) h.1 fresh.1 (omega (arith, b))
      ∙ ap ok (omega arith))

-- The closed form of the conditions on a request: names, counts, fields, keys that differ, and the
-- estimate of its JSON size.
abbrev pub IsValidRequest : Bytes → Bytes → List Condition → List Mutation → Type 0
IsValidRequest name id cs ms =
    ((is_namespace name ≡ true) × (is_request_id id ≡ true))
    × ((length cs ≤ max_items) × (1 ≤ length ms) × (length ms ≤ max_items))
    × (All IsChecked cs × Fresh [] (map (λ c. c.key) cs))
    × (All IsMade ms × Fresh [] (map mutation_key ms))
    × (1024
          + (length name + length id)
          + (length cs + length ms) * 512
          + conditions_size cs
          + mutations_size ms
        ≤ max_request_bytes)

made_bytes : (k : Bytes) (m : Mutation) → IsMade m → (x : Bytes) × (mutation_bytes k m ≡ ok x)
unfolding mutation_bytes
made_bytes k (put key value) h = (_, refl)
made_bytes k (delete key) h = (_, refl)
made_bytes k (increment key delta) h = (_, refl)
made_bytes k (unmade key) h = absurd (unfold valid_mutation in cc (h.2))

made_bodies :
    (k : Bytes) (ms : List Mutation) → All IsMade ms → (x : Bytes) × (mutations_bytes k ms ≡ ok x)
unfolding mutations_bytes
made_bodies k [] h = ([], refl)
made_bodies k (m ∷ ms) h =
    let (first, e) = made_bytes k m h.0 in
    let (rest, e') = made_bodies k ms h.1 in (first ++ rest, rw e (rw e' refl))

counts_of :
    (n k : ℕ)
    → (leb n max_items && not (k == 0) && leb k max_items) ≡ true
    → (n ≤ max_items) × (1 ≤ k) × (k ≤ max_items)
counts_of n k h = ground arith

-- The bytes of a command around those of its mutations.
abbrev command_around : Bytes → List Condition → List Mutation → Bytes → Bytes
command_around k cs ms body =
    codes "TLNCTX2"
    ++ (put_le 2 transaction_version
        ++ (put_le 4 (length cs) ++ (conditions_bytes k cs ++ (put_le 4 (length ms) ++ body))))

keyspace_of-lt : (name : Bytes) → is_namespace name ≡ true → IsShort (keyspace_of name)
unfolding is_namespace
keyspace_of-lt name h =
    let few : length name ≤ 64 = ground arith in
    omega (arith, few, length-append (codes "__user_conditional__.") name)

short_expected : (o : Option Bytes) → FitsOption o → IsShortOption o
short_expected none h = tt
short_expected (some value) h = omega (arith, h)

-- The delta of an increment is an int64, as Go's type says.
abbrev pub IsDelta : Mutation → Type 0
IsDelta (increment key delta) = IsSigned (2 ^ 63) delta
IsDelta _ = Unit

made_mutation : (m : Mutation) → IsMade m → IsDelta m → IsMutation m
unfolding mutation_key valid_mutation
made_mutation (put key value) h d = (omega (arith, h.1), ground (arith, h.2))
made_mutation (delete key) h d = omega (arith, h.1)
made_mutation (increment key delta) h d = (omega (arith, h.1), d)
made_mutation (unmade key) h d = cc (h.2)

module _ (sha256 : Bytes → Bytes) where
  command_sha_made :
      (name : Bytes) (cs : List Condition) (ms : List Mutation) (body : Bytes)
      → mutations_bytes (keyspace_of name) ms ≡ ok body
      → command_sha sha256 name cs ms ≡ ok (sha256 (command_around (keyspace_of name) cs ms body))
  unfolding command_sha command_bytes
  command_sha_made name cs ms body e = rw e refl

  build_request_ok :
      (name id : Bytes) (cs : List Condition) (ms : List Mutation) (sha : Bytes)
      → build_request sha256 name id cs ms ≡ ok sha
      → IsValidRequest name id cs ms × (command_sha sha256 name cs ms ≡ ok sha)
  unfolding build_request
  build_request_ok name id cs ms sha h =
      let (named, h1) = guarded_ok _ invalid _ h in
      let (identified, h2) = guarded_ok _ invalid _ h1 in
      let (counted, h3) = guarded_ok _ invalid _ h2 in
      let (small, h4) = guarded_ok _ invalid _ h3 in
      let base = 1024 + (length name + length id) + (length cs + length ms) * 512 in
      let (size, conditions, h5) = bind_ok (check_conditions base [] cs) _ h4 in
      let (total, mutations, h6) = bind_ok (check_mutations size [] ms) _ h5 in
      let (checked, distinct, sum, within) =
        check_conditions_ok cs base size [] conditions (leb→le base max_request_bytes small) in
      let (made, distinct', sum', within') = check_mutations_ok ms size total [] mutations within in
      let counts : (length cs ≤ max_items) × (1 ≤ length ms) × (length ms ≤ max_items) =
        counts_of (length cs) (length ms) counted in
      (
        (
          (named, identified),
          counts,
          (checked, distinct),
          (made, distinct'),
          omega (arith, sum, sum', within'),
        ),
        h6,
      )

  build_request_fits :
      (name id : Bytes) (cs : List Condition) (ms : List Mutation)
      → IsValidRequest name id cs ms
      → build_request sha256 name id cs ms ≡ command_sha sha256 name cs ms
  unfolding build_request
  build_request_fits name id cs ms
        ((named, identified), counts, (checked, distinct), (made, distinct'), b) =
      let base = 1024 + (length name + length id) + (length cs + length ms) * 512 in
      let size = base + conditions_size cs in
      rw named (
        rw identified (
          rw (check_conditions_fits cs base [] checked distinct (omega (arith, b))) (
            rw (check_mutations_fits ms size [] made distinct' (omega (arith, b)))
              (ground (arith, counts, b)))))

  -- A request is made just when its names, counts, fields and keys are valid, no key stands twice among
  -- the conditions or among the mutations, and the estimated size of its JSON text is within 32 MiB.
  pub build_request-iff-IsValidRequest :
      (name id : Bytes) (cs : List Condition) (ms : List Mutation)
      → ((sha : Bytes) × (build_request sha256 name id cs ms ≡ ok sha))
        ↔ IsValidRequest name id cs ms
  build_request-iff-IsValidRequest name id cs ms = (
    λ (sha, h). (build_request_ok name id cs ms sha h).0,
    λ h.
        let (body, e) = made_bodies (keyspace_of name) ms h.3.0 in
        (_, build_request_fits name id cs ms h ∙ command_sha_made name cs ms body e),
  )

  checked→IsCondition : (cs : List Condition) → All IsChecked cs → All IsCondition cs
  checked→IsCondition [] h = tt
  checked→IsCondition (c ∷ cs) (h, hs) =
      ((omega (arith, h.1), short_expected c.expected h.3, h.2), checked→IsCondition cs hs)

  made→IsMutation : (ms : List Mutation) → All IsMade ms → All IsDelta ms → All IsMutation ms
  made→IsMutation [] h d = tt
  made→IsMutation (m ∷ ms) (h, hs) (d, ds) = (made_mutation m h d, made→IsMutation ms hs ds)

  same_command :
      (name name' id id' : Bytes) (cs ds : List Condition) (ms ns : List Mutation) (bytes : Bytes)
      → IsValidRequest name id cs ms
      → IsValidRequest name' id' ds ns
      → All IsDelta ms
      → All IsDelta ns
      → command_bytes (keyspace_of name) cs ms ≡ ok bytes
      → command_bytes (keyspace_of name') ds ns ≡ ok bytes
      → (name ≡ name') × (cs ≡ ds) × (ms ≡ ns)
  same_command name name' id id' cs ds ms ns bytes v v' d d' =
      command_bytes_inj name name' cs ds ms ns bytes (keyspace_of-lt name v.0.0)
        (keyspace_of-lt name' v'.0.0) (checked→IsCondition cs v.2.0, made→IsMutation ms v.3.0 d)
        (checked→IsCondition ds v'.2.0, made→IsMutation ns v'.3.0 d')
        (omega (arith, v.1.0), omega (arith, v.1.2), v.1.1)
        (omega (arith, v'.1.0), omega (arith, v'.1.2))

  command_sha_step :
      (name : Bytes) (cs : List Condition) (ms : List Mutation) (sha : Bytes)
      → command_sha sha256 name cs ms ≡ ok sha
      → (bytes : Bytes) × (command_bytes (keyspace_of name) cs ms ≡ ok bytes) × (sha256 bytes ≡ sha)
  unfolding command_sha
  command_sha_step name cs ms sha h =
      let (bytes, made, e) = bind_ok (command_bytes (keyspace_of name) cs ms) _ h in
      (bytes, made, ok_inj e)

  -- Two requests with int64 deltas that have the same command hash are for the same namespace, conditions
  -- and mutations, or two different byte strings with one SHA-256 are known. Their ids may differ.
  pub new_request-same-command :
      (name name' id id' : Bytes) (cs ds : List Condition) (ms ns : List Mutation) (sha : Bytes)
      → All IsDelta ms
      → All IsDelta ns
      → build_request sha256 name id cs ms ≡ ok sha
      → build_request sha256 name' id' ds ns ≡ ok sha
      → ((name ≡ name') × (cs ≡ ds) × (ms ≡ ns))
        ⊎ ((a : Bytes) × (b : Bytes) × (a ≢ b) × (sha256 a ≡ sha256 b))
  new_request-same-command name name' id id' cs ds ms ns sha d d' h h' =
      let (valid, hashed) = build_request_ok name id cs ms sha h in
      let (valid', hashed') = build_request_ok name' id' ds ns sha h' in
      let (bytes, made, e) = command_sha_step name cs ms sha hashed in
      let (bytes', made', e') = command_sha_step name' ds ns sha hashed' in
      elim (Bool-cases (bytes_equal bytes bytes')) [
        | inl alike ↦ inl (
            same_command name name' id id' cs ds ms ns bytes valid valid' d d' made
              (made' ∙ ap ok (sym (bytes_equal→eq bytes bytes' alike))))
        | inr differ ↦ inr (
          bytes,
          bytes',
          λ same. cc (differ, ap (bytes_equal bytes) (sym same) ∙ bytes_equal_refl bytes),
          e ∙ sym e',
        )
      ]
