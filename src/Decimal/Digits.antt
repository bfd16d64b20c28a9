-- ===== src/Decimal/Digits.antt =====
-- What `math/big` gives: decimal digits of a number and back.
use native.Mathlib.Nat.{pow-suc}
use talon_sdk_go.Base.{
  ℕ, zero, suc, ◌+◌, ◌-◌, ◌*◌, ◌/◌, ◌%◌, ◌^◌, ◌≤◌, ◌<◌, ◌≡◌, refl, sym, ap, subst, ◌∙◌,
  if◌then◌else◌, Bool, true, false, ◌&&◌, [], ◌∷◌, ◌++◌, Bytes, All, All-append, ltb, leb, length,
  length-append, arith, Bool-cases, ltb→lt, lt→ltb, inl, inr,
}
use talon_sdk_go.Base.Int.{ℤ, pos, negsuc}

unfoldable pub is_digit : ℕ → Bool
is_digit c = leb b'0' c && leb c b'9'

abbrev pub IsDigit : ℕ → Type 0
IsDigit c = (b'0' ≤ c) × (c ≤ b'9')

-- The value of a run of digits behind the value `acc`.
unfoldable pub value_from : ℕ → Bytes → ℕ
value_from acc [] = acc
value_from acc (c ∷ cs) = value_from (acc * 10 + (c - b'0')) cs

-- The digits of `n`, the last one made first. The fuel bounds the number of digits.
digits_within : ℕ → ℕ → Bytes
digits_within zero n = []
digits_within (suc fuel) n = elim (ltb n 10) [
  | true ↦ (b'0' + n) ∷ []
  | false ↦ digits_within fuel (n / 10) ++ (b'0' + n % 10) ∷ []
]

-- big.Int.String of a number that is not negative; `n + 1` digits are more than enough.
unfoldable pub number_text : ℕ → Bytes
unfolding digits_within
number_text n = digits_within (suc n) n

-- big.Int.Abs, big.Int.Sign and big.Int.Neg
unfoldable pub magnitude : ℤ → ℕ
magnitude (pos n) = n
magnitude (negsuc n) = suc n

unfoldable pub is_negative : ℤ → Bool
is_negative (pos n) = false
is_negative (negsuc n) = true

unfoldable pub negate : ℤ → ℤ
negate (pos zero) = pos zero
negate (pos (suc n)) = negsuc n
negate (negsuc n) = pos (suc n)

pub value-append :
    (acc : ℕ) (xs ys : Bytes) → value_from acc (xs ++ ys) ≡ value_from (value_from acc xs) ys
unfolding value_from
value-append acc [] ys = refl
value-append acc (x ∷ xs) ys = value-append (acc * 10 + (x - b'0')) xs ys

value-digits_within : (fuel n : ℕ) → n < fuel → value_from 0 (digits_within fuel n) ≡ n
unfolding digits_within value_from
value-digits_within zero n h = absurd (omega arith)
value-digits_within (suc fuel) n h = ground (
  arith,
  value-digits_within fuel (n / 10),
  value-append 0 (digits_within fuel (n / 10)) ((b'0' + n % 10) ∷ []),
)

-- The digits of a number spell it.
pub value-number_text : (n : ℕ) → value_from 0 (number_text n) ≡ n
unfolding number_text
value-number_text n = value-digits_within (suc n) n (omega arith)

digits_small : (fuel n : ℕ) → ltb n 10 ≡ true → digits_within (suc fuel) n ≡ (b'0' + n) ∷ []
unfolding digits_within
digits_small fuel n h = ground arith

digits_large :
    (fuel n : ℕ)
    → ltb n 10 ≡ false
    → digits_within (suc fuel) n ≡ digits_within fuel (n / 10) ++ (b'0' + n % 10) ∷ []
unfolding digits_within
digits_large fuel n h = ground arith

digits_within-IsDigit : (fuel n : ℕ) → All IsDigit (digits_within fuel n)
digits_within-IsDigit zero n = unfold digits_within in tt
digits_within-IsDigit (suc fuel) n = elim (Bool-cases (ltb n 10)) [
  | inl small ↦
      subst (All IsDigit) (sym (digits_small fuel n small))
        ((omega (arith, ltb→lt n 10 small), omega (arith, ltb→lt n 10 small)), tt)
  | inr large ↦ subst (All IsDigit) (sym (digits_large fuel n large)) (
      All-append IsDigit _ _ (digits_within-IsDigit fuel (n / 10)) ((omega arith, omega arith), tt))
]

pub number_text-IsDigit : (n : ℕ) → All IsDigit (number_text n)
unfolding number_text
number_text-IsDigit n = digits_within-IsDigit (suc n) n

-- A number has a digit.
pub length-number_text : (n : ℕ) → 1 ≤ length (number_text n)
unfolding number_text
length-number_text n = elim (Bool-cases (ltb n 10)) [
  | inl small ↦ omega (arith, ap length (digits_small n n small))
  | inr large ↦ omega (
    arith,
    ap length (digits_large n n large),
    length-append (digits_within n (n / 10)) ((b'0' + n % 10) ∷ []),
  )
]

length-digits_within : (fuel n k : ℕ) → n < 10 ^ suc k → length (digits_within fuel n) ≤ suc k
length-digits_within zero n k h = unfold digits_within in omega arith
length-digits_within (suc fuel) n zero h =
    omega (arith, ap length (digits_small fuel n (lt→ltb n 10 (rw pow-suc at h))))
length-digits_within (suc fuel) n (suc k) h = elim (Bool-cases (ltb n 10)) [
  | inl small ↦ omega (arith, ap length (digits_small fuel n small))
  | inr large ↦ omega (
    arith,
    ap length (digits_large fuel n large),
    length-append (digits_within fuel (n / 10)) ((b'0' + n % 10) ∷ []),
    length-digits_within fuel (n / 10) k (omega (arith, pow-suc 10 (suc k))),
  )
]

length-digits_large :
    (fuel n : ℕ)
    → ltb n 10 ≡ false
    → length (digits_within (suc fuel) n) ≡ length (digits_within fuel (n / 10)) + 1
length-digits_large fuel n h =
    ap length (digits_large fuel n h)
    ∙ length-append (digits_within fuel (n / 10)) ((b'0' + n % 10) ∷ [])

length-digits_small : (fuel n : ℕ) → ltb n 10 ≡ true → length (digits_within (suc fuel) n) ≡ 1
length-digits_small fuel n h = ap length (digits_small fuel n h)

length-digits_below :
    (fuel n : ℕ)
    → 3 ≤ fuel
    → n < 1000
    → length (digits_within fuel n) ≡ (if ltb n 10 then 1 else if ltb n 100 then 2 else 3)
length-digits_below zero n f h = absurd (omega arith)
length-digits_below (suc zero) n f h = absurd (omega arith)
length-digits_below (suc (suc zero)) n f h = absurd (omega arith)
length-digits_below (suc (suc (suc fuel))) n f h =
    let one = length-digits_small (suc (suc fuel)) n in
    let more = length-digits_large (suc (suc fuel)) n in
    let two = length-digits_small (suc fuel) (n / 10) in
    let more' = length-digits_large (suc fuel) (n / 10) in
    let three = length-digits_small fuel (n / 10 / 10) in ground arith

-- A number below 1000 has one digit, two from 10 on, and three from 100 on.
pub length-number_text_below :
    (n : ℕ)
    → n < 1000
    → length (number_text n) ≡ (if ltb n 10 then 1 else if ltb n 100 then 2 else 3)
unfolding number_text
length-number_text_below n h = elim (Bool-cases (ltb n 10)) [
  | inl small ↦ rw small (length-digits_small n n small)
  | inr large ↦
      let at_least : 10 ≤ n = ground arith in length-digits_below (suc n) n (omega arith) h
]

-- A number below a power of ten has at most that many digits.
pub length-number_text-le : (n k : ℕ) → 1 ≤ k → n < 10 ^ k → length (number_text n) ≤ k
unfolding number_text
length-number_text-le n zero h b = absurd (omega arith)
length-number_text-le n (suc k) h b = length-digits_within (suc n) n k b

pub negate-magnitude : (c : ℤ) → is_negative c ≡ true → negate (pos (magnitude c)) ≡ c
unfolding negate magnitude is_negative
negate-magnitude (pos n) h = cc
negate-magnitude (negsuc n) h = refl

pub pos-magnitude : (c : ℤ) → is_negative c ≡ false → pos (magnitude c) ≡ c
unfolding magnitude is_negative
pos-magnitude (pos n) h = refl
pos-magnitude (negsuc n) h = cc
