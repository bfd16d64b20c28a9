-- ===== src/Revision/Layout.antt =====
-- revision_stream.go: the canonical peaks of a number of leaves, from the lowest height up.
use native.Mathlib.Nat.{pow-suc, div-div-eq-div-mul, div-mul-le_self}
use talon_sdk_go.Base.{
  ℕ, zero, suc, ◌+◌, ◌*◌, ◌/◌, ◌%◌, ◌^◌, ◌≤◌, ◌<◌, ◌≡◌, refl, sym, ap, ◌∙◌, Bool, true, false, List,
  [], ◌∷◌, ◌++◌, reverse, reverse-append, append_assoc, append-nil, ◌==◌, if◌then◌else◌, arith,
  Bool-cases, inl, inr,
}
use talon_sdk_go.Revision.{has_bit, layout_from, peak_layout}

-- The peak at the height, where `a` blocks of that height are full: there is one if `a` is odd.
abbrev pub peak_at : ℕ → ℕ → List (ℕ × ℕ)
peak_at i a = if a % 2 == 1 then (i, a / 2 * 2 ^ (i + 1) + 1) ∷ [] else []

-- The peaks of `k` heights from `i` on.
abbrev pub low_layout : ℕ → ℕ → ℕ → List (ℕ × ℕ)
low_layout zero i a = []
low_layout (suc k) i a = peak_at i a ++ low_layout k (suc i) (a / 2)

pub pair : {a b c d : ℕ} → a ≡ b → c ≡ d → ◌≡◌ {A = ℕ × ℕ} (a, c) (b, d)
pair p q = cc (p, q)

pub two_pow : (k : ℕ) → 2 ^ suc k ≡ 2 * 2 ^ k
two_pow k = omega (arith, pow-suc 2 k)

next_pow : (k : ℕ) → 2 ^ (k + 1) ≡ 2 * 2 ^ k
next_pow k = ap (λ z. 2 ^ z) (omega arith) ∙ two_pow k

low_layout_last :
    (k i a : ℕ) → low_layout (suc k) i a ≡ low_layout k i a ++ peak_at (i + k) (a / 2 ^ k)
low_layout_last zero i a =
    append-nil (peak_at i a) ∙ ap (λ p. peak_at p.0 p.1) (pair (omega arith) (omega arith))
low_layout_last (suc k) i a =
    ap (λ l. peak_at i a ++ l) (low_layout_last k (suc i) (a / 2))
    ∙ (sym (append_assoc (peak_at i a) (low_layout k (suc i) (a / 2)) _)
        ∙ ap (λ p. low_layout (suc k) i a ++ peak_at p.0 p.1)
            (pair (omega arith)
              (div-div-eq-div-mul a 2 (2 ^ k) ∙ ap (λ d. a / d) (sym (two_pow k)))))

halves : (n h : ℕ) → n / 2 ^ suc h ≡ n / 2 ^ h / 2
halves n h = ap (λ d. n / d) (two_pow h ∙ omega arith) ∙ sym (div-div-eq-div-mul n (2 ^ h) 2)

pub next_blocks : (h n : ℕ) → n / 2 ^ suc h * 2 ^ suc h ≡ n / 2 ^ h / 2 * (2 * 2 ^ h)
next_blocks h n = cc (halves n h, two_pow h)

twice_and_one : (q p : ℕ) → q * (2 * p) + 1 + p ≡ (2 * q + 1) * p + 1
twice_and_one q p = omega arith

-- The start of a peak, and where it ends.
pub odd_blocks : (a p : ℕ) → (a % 2 == 1) ≡ true → a / 2 * (2 * p) + 1 + p ≡ a * p + 1
odd_blocks a p h =
    let odd : 2 * (a / 2) + 1 ≡ a = ground arith in
    twice_and_one (a / 2) p ∙ ap (λ b. b * p + 1) odd

pub even_blocks : (a p : ℕ) → (a % 2 == 1) ≡ false → a / 2 * (2 * p) ≡ a * p
even_blocks a p h = let even : 2 * (a / 2) ≡ a = ground arith in omega arith ∙ ap (λ b. b * p) even

pub div-mul-le : (n d : ℕ) → n / d * d ≤ n
div-mul-le n d = div-mul-le_self n d

has_bit_of : (h n : ℕ) → (b : Bool) → has_bit h n ≡ b → ((n / 2 ^ h) % 2 == 1) ≡ b
has_bit_of h n b e = unfold has_bit in e

two_pow_mod : (p q : ℕ) → (p % 2 ^ 64 + q) % 2 ^ 64 ≡ (p + q) % 2 ^ 64
two_pow_mod p q = omega arith

pub two_pow-pos : (h : ℕ) → 1 ≤ 2 ^ h
two_pow-pos zero = omega arith
two_pow-pos (suc h) = omega (arith, two_pow h, two_pow-pos h)

pub peak_at-odd : (i a : ℕ) → (a % 2 == 1) ≡ true → peak_at i a ≡ (i, a / 2 * (2 * 2 ^ i) + 1) ∷ []
peak_at-odd i a h = rw h (ap (λ s. (i, s) ∷ []) (ap (λ p. a / 2 * p + 1) (next_pow i)))

pub peak_at-even : (i a : ℕ) → (a % 2 == 1) ≡ false → peak_at i a ≡ []
peak_at-even i a h = rw h refl

top_set :
    (h n s : ℕ)
    → (n / 2 ^ h % 2 == 1) ≡ true
    → s ≡ n / 2 ^ h / 2 * (2 * 2 ^ h) + 1
    → (h, s) ∷ reverse (low_layout h 0 n) ≡ reverse (low_layout (suc h) 0 n)
top_set h n s odd e = sym (
    ap reverse (
      low_layout_last h 0 n
      ∙ ap (λ l. low_layout h 0 n ++ l)
          (ap (λ i. peak_at i (n / 2 ^ h)) (omega arith)
            ∙ (peak_at-odd h (n / 2 ^ h) odd ∙ ap (λ z. (h, z) ∷ []) (sym e))))
    ∙ reverse-append (low_layout h 0 n) ((h, s) ∷ []))

top_clear :
    (h n : ℕ)
    → (n / 2 ^ h % 2 == 1) ≡ false
    → reverse (low_layout h 0 n) ≡ reverse (low_layout (suc h) 0 n)
top_clear h n even = ap reverse (
    sym (
      low_layout_last h 0 n
      ∙ (ap (λ l. low_layout h 0 n ++ l)
            (ap (λ i. peak_at i (n / 2 ^ h)) (omega arith) ∙ peak_at-even h (n / 2 ^ h) even)
          ∙ append-nil (low_layout h 0 n))))

set_start :
    (s q p n : ℕ)
    → n < 2 ^ 64
    → s ≡ (q + 1) % 2 ^ 64
    → q + 1 + p ≤ n + 1
    → 1 ≤ p
    → (s ≡ q + 1) × ((s + p) % 2 ^ 64 ≡ (q + 1 + p) % 2 ^ 64)
set_start s q p n b e end positive =
    let start : s ≡ q + 1 = omega arith in (start, ap (λ z. (z + p) % 2 ^ 64) start)

-- The layout has the bits of the number, the highest first.
layout_from-low_layout :
    (h n s : ℕ)
    → n < 2 ^ 64
    → s ≡ (n / 2 ^ h * 2 ^ h + 1) % 2 ^ 64
    → layout_from h n s ≡ reverse (low_layout h 0 n)
unfolding layout_from
layout_from-low_layout zero n s b e = refl
layout_from-low_layout (suc h) n s b e =
    let blocks = next_blocks h n in
    let from = e ∙ ap (λ z. (z + 1) % 2 ^ 64) blocks in
    elim (Bool-cases (has_bit h n)) [
      | inl set ↦
          let odd = has_bit_of h n true set in
          let end = odd_blocks (n / 2 ^ h) (2 ^ h) odd in
          let at =
            set_start s (n / 2 ^ h / 2 * (2 * 2 ^ h)) (2 ^ h) n b from
              (omega (arith, end, div-mul-le n (2 ^ h))) (two_pow-pos h) in
          let next = at.1 ∙ ap (λ z. z % 2 ^ 64) end in
          let rest = layout_from-low_layout h n ((s + 2 ^ h) % 2 ^ 64) b next in
          rw set (ap (λ l. (h, s) ∷ l) rest ∙ top_set h n s odd at.0)
      | inr clear ↦
          let even = has_bit_of h n false clear in
          let start = from ∙ ap (λ z. (z + 1) % 2 ^ 64) (even_blocks (n / 2 ^ h) (2 ^ h) even) in
          let rest = layout_from-low_layout h n s b start in rw clear (rest ∙ top_clear h n even)
    ]

-- The canonical layout of a number of leaves has one peak for each bit of the number, the highest
-- first: the number read from its lowest bit up, in reverse.
pub peak_layout-low_layout : (n : ℕ) → n < 2 ^ 64 → peak_layout n ≡ reverse (low_layout 64 0 n)
unfolding peak_layout
peak_layout-low_layout n b = layout_from-low_layout 64 n 1 b (omega arith)

has_bit-zero : (h : ℕ) → has_bit h 0 ≡ false
unfolding has_bit
has_bit-zero h =
    let none_full : 0 / 2 ^ h ≡ 0 = omega (arith, div-mul-le 0 (2 ^ h), two_pow-pos h) in
    rw none_full refl

layout_from-zero : (h s : ℕ) → layout_from h 0 s ≡ []
unfolding layout_from
layout_from-zero zero s = refl
layout_from-zero (suc h) s = rw (has_bit-zero h) (layout_from-zero h s)

pub peak_layout-zero : peak_layout 0 ≡ []
unfolding peak_layout
peak_layout-zero = layout_from-zero 64 1
