-- ===== src/Conditional/Order.antt =====
-- conditional.go: the comparison of byte values that may be absent, and the tests on them.
use talon_sdk_go.Base.{
  ℕ, ◌<◌, ◌≡◌, ◌≢◌, ◌⊎◌, ◌↔◌, inl, inr, refl, sym, ap, subst, ◌∙◌, Bool, true, false, Option, none,
  some, [], ◌∷◌, Bytes, ltb, if◌then◌else◌, bytes_equal, arith,
}
use talon_sdk_go.Conditional.{CompareOperator, eq, ne, lt, le, gt, ge, unknown}

-- The sign of the `int` that bytes.Compare returns.
pub data Comparison : Type 0 where
  below same above : Comparison

unfoldable pub compare_bytes : Bytes → Bytes → Comparison
compare_bytes [] [] = same
compare_bytes [] (_ ∷ _) = below
compare_bytes (_ ∷ _) [] = above
compare_bytes (x ∷ xs) (y ∷ ys) =
    let rest = compare_bytes xs ys in if ltb x y then below else if ltb y x then above else rest

-- compareNullableBytes
unfoldable pub compare_nullable : Option Bytes → Option Bytes → Comparison
unfolding compare_bytes
compare_nullable none none = same
compare_nullable none (some _) = below
compare_nullable (some _) none = above
compare_nullable (some left) (some right) = compare_bytes left right

-- conditionalValueMatches
unfoldable pub value_matches : Option Bytes → Option Bytes → CompareOperator → Bool
value_matches actual expected eq = elim (compare_nullable actual expected) [
  | same ↦ true
  | _ ↦ false
]
value_matches actual expected ne = elim (compare_nullable actual expected) [
  | same ↦ false
  | _ ↦ true
]
value_matches actual expected lt = elim (compare_nullable actual expected) [
  | below ↦ true
  | _ ↦ false
]
value_matches actual expected le = elim (compare_nullable actual expected) [
  | above ↦ false
  | _ ↦ true
]
value_matches actual expected gt = elim (compare_nullable actual expected) [
  | above ↦ true
  | _ ↦ false
]
value_matches actual expected ge = elim (compare_nullable actual expected) [
  | below ↦ false
  | _ ↦ true
]
value_matches actual expected (unknown _) = false

-- nullableBytesEqual
unfoldable pub nullable_equal : Option Bytes → Option Bytes → Bool
nullable_equal none none = true
nullable_equal none (some _) = false
nullable_equal (some _) none = false
nullable_equal (some left) (some right) = bytes_equal left right

-- The order in the abstract: an absent value is least, and a value is less than another when it is
-- a proper prefix of it or smaller at the first byte where they differ.
pub data Less : Bytes → Bytes → Type 0 where
  prefix : (y : ℕ) (ys : Bytes) → Less [] (y ∷ ys)
  first : (x y : ℕ) (xs ys : Bytes) → x < y → Less (x ∷ xs) (y ∷ ys)
  later : (x : ℕ) (xs ys : Bytes) → Less xs ys → Less (x ∷ xs) (x ∷ ys)

abbrev pub LessNullable : Option Bytes → Option Bytes → Type 0
LessNullable _ none = ⊥
LessNullable none (some _) = Unit
LessNullable (some x) (some y) = Less x y

-- What the comparison found, as a fact about the order.
abbrev pub Compares : {A : Type 0} → (A → A → Type 0) → A → A → Comparison → Type 0
Compares lower a b below = lower a b
Compares lower a b same = a ≡ b
Compares lower a b above = lower b a

compare_first :
    (x y : ℕ) (xs ys : Bytes)
    → ((x < y) × (compare_bytes (x ∷ xs) (y ∷ ys) ≡ below))
      ⊎ (((y < x) × (compare_bytes (x ∷ xs) (y ∷ ys) ≡ above))
          ⊎ ((x ≡ y) × (compare_bytes (x ∷ xs) (y ∷ ys) ≡ compare_bytes xs ys)))
unfolding compare_bytes
compare_first x y xs ys = ground arith

behind_equal :
    (x : ℕ) (xs ys : Bytes) (c : Comparison)
    → Compares Less xs ys c
    → Compares Less (x ∷ xs) (x ∷ ys) c
behind_equal x xs ys below h = later x xs ys h
behind_equal x xs ys same h = ap (λ t. x ∷ t) h
behind_equal x xs ys above h = later x ys xs h

compare_bytes-Compares : (xs ys : Bytes) → Compares Less xs ys (compare_bytes xs ys)
compare_bytes-Compares [] [] = unfold compare_bytes in refl
compare_bytes-Compares [] (y ∷ ys) = unfold compare_bytes in prefix y ys
compare_bytes-Compares (x ∷ xs) [] = unfold compare_bytes in prefix x xs
compare_bytes-Compares (x ∷ xs) (y ∷ ys) = elim (compare_first x y xs ys) [
  | inl (less, e) ↦ subst (Compares Less (x ∷ xs) (y ∷ ys)) (sym e) (first x y xs ys less)
  | inr (inl (greater, e)) ↦
      subst (Compares Less (x ∷ xs) (y ∷ ys)) (sym e) (first y x ys xs greater)
  | inr (inr (equal, e)) ↦ subst (Compares Less (x ∷ xs) (y ∷ ys)) (sym e) (
      subst (λ z. Compares Less (x ∷ xs) (z ∷ ys) (compare_bytes xs ys)) equal
        (behind_equal x xs ys (compare_bytes xs ys) (compare_bytes-Compares xs ys)))
]

present_case :
    (a b : Bytes) (c : Comparison) → Compares Less a b c → Compares LessNullable (some a) (some b) c
present_case a b below h = h
present_case a b same h = ap some h
present_case a b above h = h

compare_nullable-Compares : (a b : Option Bytes) → Compares LessNullable a b (compare_nullable a b)
unfolding compare_nullable
compare_nullable-Compares none none = refl
compare_nullable-Compares none (some b) = tt
compare_nullable-Compares (some a) none = tt
compare_nullable-Compares (some a) (some b) =
    present_case a b (compare_bytes a b) (compare_bytes-Compares a b)

-- The six comparisons, by the order.
abbrev pub Holds : CompareOperator → Option Bytes → Option Bytes → Type 0
Holds eq a b = a ≡ b
Holds ne a b = a ≢ b
Holds lt a b = LessNullable a b
Holds le a b = (a ≡ b) ⊎ LessNullable a b
Holds gt a b = LessNullable b a
Holds ge a b = (a ≡ b) ⊎ LessNullable b a
Holds (unknown _) a b = ⊥

equal_heads : (x : ℕ) (xs ys : Bytes) → compare_bytes (x ∷ xs) (x ∷ ys) ≡ compare_bytes xs ys
unfolding compare_bytes
equal_heads x xs ys = ground arith

less→below : (xs ys : Bytes) → Less xs ys → compare_bytes xs ys ≡ below
less→below _ _ (prefix y ys) = unfold compare_bytes in refl
less→below _ _ (first x y xs ys h) = unfold compare_bytes in ground arith
less→below _ _ (later x xs ys h) = equal_heads x xs ys ∙ less→below xs ys h

less→above : (xs ys : Bytes) → Less xs ys → compare_bytes ys xs ≡ above
less→above _ _ (prefix y ys) = unfold compare_bytes in refl
less→above _ _ (first x y xs ys h) = unfold compare_bytes in ground arith
less→above _ _ (later x xs ys h) = equal_heads x ys xs ∙ less→above xs ys h

compare_bytes_refl : (xs : Bytes) → compare_bytes xs xs ≡ same
compare_bytes_refl [] = unfold compare_bytes in refl
compare_bytes_refl (x ∷ xs) = equal_heads x xs xs ∙ compare_bytes_refl xs

compare_nullable_refl : (a : Option Bytes) → compare_nullable a a ≡ same
unfolding compare_nullable
compare_nullable_refl none = refl
compare_nullable_refl (some a) = compare_bytes_refl a

-- Each fact of the order decides the comparison.
compare_nullable-decides :
    (a b : Option Bytes) (c : Comparison) → Compares LessNullable a b c → compare_nullable a b ≡ c
unfolding compare_nullable
compare_nullable-decides (some a) (some b) below h = less→below a b h
compare_nullable-decides none (some b) below h = refl
compare_nullable-decides a none below h = absurd h
compare_nullable-decides (some a) (some b) above h = less→above b a h
compare_nullable-decides (some a) none above h = refl
compare_nullable-decides none b above h = absurd h
compare_nullable-decides a b same h =
    subst (λ c. compare_nullable a c ≡ same) h (compare_nullable_refl a)

iff_below : (a b : Option Bytes) → (compare_nullable a b ≡ below) ↔ LessNullable a b
iff_below a b = (
  λ e. subst (Compares LessNullable a b) e (compare_nullable-Compares a b),
  λ h. compare_nullable-decides a b below h,
)

iff_same : (a b : Option Bytes) → (compare_nullable a b ≡ same) ↔ (a ≡ b)
iff_same a b = (
  λ e. subst (Compares LessNullable a b) e (compare_nullable-Compares a b),
  λ h. compare_nullable-decides a b same h,
)

iff_above : (a b : Option Bytes) → (compare_nullable a b ≡ above) ↔ LessNullable b a
iff_above a b = (
  λ e. subst (Compares LessNullable a b) e (compare_nullable-Compares a b),
  λ h. compare_nullable-decides a b above h,
)

Comparison-cases : (c : Comparison) → (c ≡ below) ⊎ ((c ≡ same) ⊎ (c ≡ above))
Comparison-cases below = inl refl
Comparison-cases same = inr (inl refl)
Comparison-cases above = inr (inr refl)

-- `conditionalValueMatches` decides its comparison in the order of byte strings in which an absent
-- value is least; a string that names no comparison holds of nothing.
pub value_matches-iff-Holds :
    (actual expected : Option Bytes) (operator : CompareOperator)
    → (value_matches actual expected operator ≡ true) ↔ Holds operator actual expected
unfolding value_matches
value_matches-iff-Holds a b eq =
    ground (arith, iff_same a b, Comparison-cases (compare_nullable a b))
value_matches-iff-Holds a b ne =
    ground (arith, iff_same a b, Comparison-cases (compare_nullable a b))
value_matches-iff-Holds a b lt =
    ground (arith, iff_below a b, Comparison-cases (compare_nullable a b))
value_matches-iff-Holds a b le =
    ground
      (arith, iff_same a b, iff_below a b, iff_above a b, Comparison-cases (compare_nullable a b))
value_matches-iff-Holds a b gt =
    ground (arith, iff_above a b, Comparison-cases (compare_nullable a b))
value_matches-iff-Holds a b ge =
    ground
      (arith, iff_same a b, iff_below a b, iff_above a b, Comparison-cases (compare_nullable a b))
value_matches-iff-Holds a b (unknown _) = ground arith
