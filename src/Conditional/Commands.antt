-- ===== src/Conditional/Commands.antt =====
-- conditional.go: the bytes that `conditionalCommandSHA` hashes, field by field.
use talon_sdk_go.Base.{
  append_inj, ℕ, zero, suc, ◌^◌, ◌≤◌, ◌<◌, ◌≡◌, refl, sym, ap, subst, ◌∙◌, true, Option, none, some,
  List, [], ◌∷◌, ◌++◌, append_assoc, Bytes, ok, bind_ok, All, length, take, drop, arith, codes,
}
use talon_sdk_go.Base.Int.{ℤ}
use talon_sdk_go.Base.Words.{
  put_le, get_le, to_unsigned, from_unsigned, IsSigned, length-put_le, get_le-put_le,
  from_unsigned-to_unsigned, to_unsigned-lt,
}
use talon_sdk_go.Conditional.{
  Condition, Mutation, put, delete, increment, unmade, CompareOperator, eq, ne, lt, le, gt, ge,
  unknown, valid_operator, field_bytes, operator_byte, expected_bytes, condition_bytes,
  conditions_bytes, mutation_bytes, mutations_bytes, command_bytes, keyspace_of,
  transaction_version,
}

put_le_inj :
    (k a b : ℕ) (r s : Bytes)
    → a < 256 ^ k
    → b < 256 ^ k
    → put_le k a ++ r ≡ put_le k b ++ s
    → (a ≡ b) × (r ≡ s)
put_le_inj k a b r s h h' e =
    let (words, rest) =
      append_inj (put_le k a) (put_le k b) r s (length-put_le k a ∙ sym (length-put_le k b)) e in
    (sym (get_le-put_le k a h) ∙ (ap get_le words ∙ get_le-put_le k b h'), rest)

-- A field shorter than 4 GiB says where it ends.
field_inj :
    (x y r s : Bytes)
    → length x < 2 ^ 32
    → length y < 2 ^ 32
    → field_bytes x ++ r ≡ field_bytes y ++ s
    → (x ≡ y) × (r ≡ s)
unfolding field_bytes
field_inj x y r s h h' e =
    let joined =
      sym (append_assoc (put_le 4 (length x)) x r) ∙ (e ∙ append_assoc (put_le 4 (length y)) y s) in
    let (size, rest) = put_le_inj 4 (length x) (length y) (x ++ r) (y ++ s) h h' joined in
    append_inj x y r s size rest

operator_of : ℕ → CompareOperator
operator_of zero = eq
operator_of (suc zero) = ne
operator_of (suc (suc zero)) = lt
operator_of (suc (suc (suc zero))) = le
operator_of (suc (suc (suc (suc zero)))) = gt
operator_of (suc (suc (suc (suc (suc _))))) = ge

operator_of-operator_byte :
    (o : CompareOperator) → valid_operator o ≡ true → operator_of (operator_byte o) ≡ o
unfolding operator_of operator_byte valid_operator
operator_of-operator_byte eq h = refl
operator_of-operator_byte ne h = refl
operator_of-operator_byte lt h = refl
operator_of-operator_byte le h = refl
operator_of-operator_byte gt h = refl
operator_of-operator_byte ge h = refl
operator_of-operator_byte (unknown _) h = cc

abbrev pub IsShort : Bytes → Type 0
IsShort value = length value < 2 ^ 32

abbrev pub IsShortOption : Option Bytes → Type 0
IsShortOption none = Unit
IsShortOption (some value) = IsShort value

zero_one : ◌≡◌ {A = Bytes} (0 ∷ []) (1 ∷ []) → ⊥
zero_one e = cc

expected_inj :
    (a b : Option Bytes) (r s : Bytes)
    → IsShortOption a
    → IsShortOption b
    → expected_bytes a ++ r ≡ expected_bytes b ++ s
    → (a ≡ b) × (r ≡ s)
unfolding expected_bytes
expected_inj none none r s h h' e = (refl, ap (drop 1) e)
expected_inj none (some b) r s h h' e = absurd (zero_one (ap (take 1) e))
expected_inj (some a) none r s h h' e = absurd (zero_one (sym (ap (take 1) e)))
expected_inj (some a) (some b) r s h h' e =
    let (value, rest) = field_inj a b r s h h' (ap (drop 1) e) in (ap some value, rest)

-- The conditions and the mutations that pass the checks of `buildConditionalRequest`, as far as the
-- encoding goes: fields of less than 4 GiB, a known comparison, an int64 delta.
abbrev pub IsCondition : Condition → Type 0
IsCondition c = IsShort c.key × IsShortOption c.expected × (valid_operator c.operator ≡ true)

abbrev pub IsMutation : Mutation → Type 0
IsMutation (put key value) = IsShort key × IsShort value
IsMutation (delete key) = IsShort key
IsMutation (increment key delta) = IsShort key × IsSigned (2 ^ 63) delta
IsMutation (unmade key) = ⊥

condition_split :
    (k : Bytes) (c : Condition) (r : Bytes)
    → condition_bytes k c ++ r
      ≡ field_bytes k
        ++ (field_bytes c.key ++ (expected_bytes c.expected ++ (operator_byte c.operator ∷ r)))
unfolding condition_bytes
condition_split k c r =
    append_assoc (field_bytes k) _ r
    ∙ ap (λ t. field_bytes k ++ t)
        (append_assoc (field_bytes c.key) _ r
          ∙ ap (λ t. field_bytes c.key ++ t)
              (append_assoc (expected_bytes c.expected) (operator_byte c.operator ∷ []) r))

operators_agree : (a b : ℕ) (r s : Bytes) → a ∷ r ≡ b ∷ s → (a ≡ b) × (r ≡ s)
operators_agree a b r s e = ground arith

condition_inj :
    (k l : Bytes) (c d : Condition) (r s : Bytes)
    → IsShort k
    → IsShort l
    → IsCondition c
    → IsCondition d
    → condition_bytes k c ++ r ≡ condition_bytes l d ++ s
    → (c ≡ d) × (r ≡ s)
condition_inj k l c d r s short short' h h' e =
    let (_, e1) =
      field_inj k l _ _ short short' (sym (condition_split k c r) ∙ (e ∙ condition_split l d s)) in
    let (keys, e2) = field_inj c.key d.key _ _ h.0 h'.0 e1 in
    let (expecteds, e3) = expected_inj c.expected d.expected _ _ h.1 h'.1 e2 in
    let bytes = operators_agree (operator_byte c.operator) (operator_byte d.operator) r s e3 in
    let operators : c.operator ≡ d.operator =
      sym (operator_of-operator_byte c.operator h.2)
      ∙ (ap operator_of bytes.0 ∙ operator_of-operator_byte d.operator h'.2) in
    (cc (keys, expecteds, operators), bytes.1)

pub ok_inj : {x y : Bytes} → ok x ≡ ok y → x ≡ y
ok_inj e = cc

-- The bytes of a mutation that a constructor made, in parts.
mutation_parts : Bytes → Mutation → Bytes → Bytes
mutation_parts k (put key value) r =
    0 ∷ (field_bytes k ++ (field_bytes key ++ (field_bytes value ++ r)))
mutation_parts k (delete key) r = 1 ∷ (field_bytes k ++ (field_bytes key ++ r))
mutation_parts k (increment key delta) r =
    2 ∷ (field_bytes k ++ (field_bytes key ++ (put_le 8 (to_unsigned (2 ^ 63) delta) ++ r)))
mutation_parts k (unmade key) r = []

mutation_split :
    (k : Bytes) (m : Mutation) (x r : Bytes)
    → mutation_bytes k m ≡ ok x
    → x ++ r ≡ mutation_parts k m r
unfolding mutation_bytes mutation_parts
mutation_split k (put key value) x r e =
    subst (λ w. w ++ r ≡ mutation_parts k (put key value) r) (ok_inj e)
      (ap (λ w. 0 ∷ w)
        (append_assoc (field_bytes k) _ r
          ∙ ap (λ t. field_bytes k ++ t) (append_assoc (field_bytes key) (field_bytes value) r)))
mutation_split k (delete key) x r e =
    subst (λ w. w ++ r ≡ mutation_parts k (delete key) r) (ok_inj e)
      (ap (λ w. 1 ∷ w) (append_assoc (field_bytes k) (field_bytes key) r))
mutation_split k (increment key delta) x r e =
    subst (λ w. w ++ r ≡ mutation_parts k (increment key delta) r) (ok_inj e)
      (ap (λ w. 2 ∷ w)
        (append_assoc (field_bytes k) _ r
          ∙ ap (λ t. field_bytes k ++ t) (append_assoc (field_bytes key) _ r)))
mutation_split k (unmade key) x r e = cc

delta_inj :
    (a b : ℤ) (r s : Bytes)
    → IsSigned (2 ^ 63) a
    → IsSigned (2 ^ 63) b
    → put_le 8 (to_unsigned (2 ^ 63) a) ++ r ≡ put_le 8 (to_unsigned (2 ^ 63) b) ++ s
    → (a ≡ b) × (r ≡ s)
delta_inj a b r s h h' e =
    let (words, rest) =
      put_le_inj 8 (to_unsigned (2 ^ 63) a) (to_unsigned (2 ^ 63) b) r s
        (to_unsigned-lt (2 ^ 63) a h) (to_unsigned-lt (2 ^ 63) b h') e in
    (
      sym (from_unsigned-to_unsigned (2 ^ 63) a h)
          ∙ (ap (from_unsigned (2 ^ 63)) words ∙ from_unsigned-to_unsigned (2 ^ 63) b h'),
      rest,
    )

parts_inj :
    (k l : Bytes) (m n : Mutation) (r s : Bytes)
    → IsShort k
    → IsShort l
    → IsMutation m
    → IsMutation n
    → mutation_parts k m r ≡ mutation_parts l n s
    → (k ≡ l) × (m ≡ n) × (r ≡ s)
unfolding mutation_parts
parts_inj k l (put key value) (put key' value') r s short short' h h' e =
    let (spaces, e1) = field_inj k l _ _ short short' (ap (drop 1) e) in
    let (keys, e2) = field_inj key key' _ _ h.0 h'.0 e1 in
    let (values, e3) = field_inj value value' r s h.1 h'.1 e2 in (spaces, cc (keys, values), e3)
parts_inj k l (delete key) (delete key') r s short short' h h' e =
    let (spaces, e1) = field_inj k l _ _ short short' (ap (drop 1) e) in
    let (keys, e2) = field_inj key key' r s h h' e1 in (spaces, ap delete keys, e2)
parts_inj k l (increment key delta) (increment key' delta') r s short short' h h' e =
    let (spaces, e1) = field_inj k l _ _ short short' (ap (drop 1) e) in
    let (keys, e2) = field_inj key key' _ _ h.0 h'.0 e1 in
    let (deltas, e3) = delta_inj delta delta' r s h.1 h'.1 e2 in (spaces, cc (keys, deltas), e3)
parts_inj k l (put key value) (delete key') r s short short' h h' e = absurd (ground (arith, e))
parts_inj k l (put key value) (increment key' delta') r s short short' h h' e =
    absurd (ground (arith, e))
parts_inj k l (delete key) (put key' value') r s short short' h h' e = absurd (ground (arith, e))
parts_inj k l (delete key) (increment key' delta') r s short short' h h' e =
    absurd (ground (arith, e))
parts_inj k l (increment key delta) (put key' value') r s short short' h h' e =
    absurd (ground (arith, e))
parts_inj k l (increment key delta) (delete key') r s short short' h h' e =
    absurd (ground (arith, e))
parts_inj k l (unmade key) n r s short short' h h' e = absurd h
parts_inj k l (put _ _) (unmade key') r s short short' h h' e = absurd h'
parts_inj k l (delete _) (unmade key') r s short short' h h' e = absurd h'
parts_inj k l (increment _ _) (unmade key') r s short short' h h' e = absurd h'

conditions_inj :
    (k l : Bytes) (cs ds : List Condition) (r s : Bytes)
    → IsShort k
    → IsShort l
    → All IsCondition cs
    → All IsCondition ds
    → length cs ≡ length ds
    → conditions_bytes k cs ++ r ≡ conditions_bytes l ds ++ s
    → (cs ≡ ds) × (r ≡ s)
unfolding conditions_bytes
conditions_inj k l [] [] r s short short' h h' n e = (refl, e)
conditions_inj k l [] (d ∷ ds) r s short short' h h' n e = absurd (omega (arith, n))
conditions_inj k l (c ∷ cs) [] r s short short' h h' n e = absurd (omega (arith, n))
conditions_inj k l (c ∷ cs) (d ∷ ds) r s short short' h h' n e =
    let joined =
      sym (append_assoc (condition_bytes k c) (conditions_bytes k cs) r)
      ∙ (e ∙ append_assoc (condition_bytes l d) (conditions_bytes l ds) s) in
    let (one, more) = condition_inj k l c d _ _ short short' h.0 h'.0 joined in
    let (others, rest) =
      conditions_inj k l cs ds r s short short' h.1 h'.1 (omega (arith, n)) more in
    (cc (one, others), rest)

mutations_step :
    (k : Bytes) (m : Mutation) (ms : List Mutation) (x : Bytes)
    → mutations_bytes k (m ∷ ms) ≡ ok x
    → (first : Bytes) × (rest : Bytes) × (mutation_bytes k m ≡ ok first)
      × (mutations_bytes k ms ≡ ok rest)
      × (x ≡ first ++ rest)
unfolding mutations_bytes
mutations_step k m ms x e =
    let (first, made, e1) = bind_ok (mutation_bytes k m) _ e in
    let (rest, others, e2) = bind_ok (mutations_bytes k ms) _ e1 in
    (first, rest, made, others, sym (ok_inj e2))

mutations_inj :
    (k l : Bytes) (ms ns : List Mutation) (x y : Bytes)
    → IsShort k
    → IsShort l
    → All IsMutation ms
    → All IsMutation ns
    → length ms ≡ length ns
    → mutations_bytes k ms ≡ ok x
    → mutations_bytes l ns ≡ ok y
    → x ≡ y
    → (ms ≡ ns) × (1 ≤ length ms → k ≡ l)
mutations_inj k l [] [] x y short short' h h' n e e' same = (refl, λ b. absurd (omega arith))
mutations_inj k l [] (m ∷ ms) x y short short' h h' n e e' same = absurd (omega (arith, n))
mutations_inj k l (m ∷ ms) [] x y short short' h h' n e e' same = absurd (omega (arith, n))
mutations_inj k l (m ∷ ms) (n ∷ ns) x y short short' h h' count e e' same =
    let (first, rest, made, others, whole) = mutations_step k m ms x e in
    let (first', rest', made', others', whole') = mutations_step l n ns y e' in
    let joined =
      sym (mutation_split k m first rest made)
      ∙ (sym whole ∙ (same ∙ (whole' ∙ mutation_split l n first' rest' made'))) in
    let (spaces, one, more) = parts_inj k l m n rest rest' short short' h.0 h'.0 joined in
    let (tail, _) =
      mutations_inj k l ms ns rest rest' short short' h.1 h'.1 (omega (arith, count)) others others'
        more in
    (cc (one, tail), λ _. spaces)

command_step :
    (k : Bytes) (cs : List Condition) (ms : List Mutation) (bytes : Bytes)
    → command_bytes k cs ms ≡ ok bytes
    → (body : Bytes) × (mutations_bytes k ms ≡ ok body)
      × (bytes
          ≡ codes "TLNCTX2"
            ++ (put_le 2 transaction_version
                ++ (put_le 4 (length cs)
                    ++ (conditions_bytes k cs ++ (put_le 4 (length ms) ++ body)))))
unfolding command_bytes
command_step k cs ms bytes e =
    let (body, made, e1) = bind_ok (mutations_bytes k ms) _ e in (body, made, sym (ok_inj e1))

-- Two commands with the same bytes to hash are the same: namespace, conditions and mutations in
-- their order. It holds of checked conditions and mutations, of one mutation at least, with fewer than
-- 2^32 of each and a namespace of that length at most.
pub command_bytes_inj :
    (name name' : Bytes) (cs ds : List Condition) (ms ns : List Mutation) (bytes : Bytes)
    → IsShort (keyspace_of name)
    → IsShort (keyspace_of name')
    → All IsCondition cs × All IsMutation ms
    → All IsCondition ds × All IsMutation ns
    → (length cs < 2 ^ 32) × (length ms < 2 ^ 32) × (1 ≤ length ms)
    → (length ds < 2 ^ 32) × (length ns < 2 ^ 32)
    → command_bytes (keyspace_of name) cs ms ≡ ok bytes
    → command_bytes (keyspace_of name') ds ns ≡ ok bytes
    → (name ≡ name') × (cs ≡ ds) × (ms ≡ ns)
command_bytes_inj name name' cs ds ms ns bytes short short' valid valid' few few' e e' =
    let k = keyspace_of name in
    let l = keyspace_of name' in
    let (body, made, whole) = command_step k cs ms bytes e in
    let (body', made', whole') = command_step l ds ns bytes e' in
    let same = append_inj (codes "TLNCTX2") (codes "TLNCTX2") _ _ refl (sym whole ∙ whole') in
    let behind =
      append_inj (put_le 2 transaction_version) (put_le 2 transaction_version) _ _ refl same.1 in
    let (count, e1) = put_le_inj 4 (length cs) (length ds) _ _ few.0 few'.0 behind.1 in
    let (conditions, e2) = conditions_inj k l cs ds _ _ short short' valid.0 valid'.0 count e1 in
    let (count', e3) = put_le_inj 4 (length ms) (length ns) body body' few.1 few'.1 e2 in
    let (mutations, spaces) =
      mutations_inj k l ms ns body body' short short' valid.1 valid'.1 count' made made' e3 in
    (
      (append_inj (codes "__user_conditional__.") (codes "__user_conditional__.") name name' refl
          (spaces few.2)).1,
      conditions,
      mutations,
    )
