-- ===== src/Base/Text.antt =====
-- The functions of Go's `strings` package that the SDK calls, on byte strings.
use mathlib.Core.List.{reverse, reverse-append}
use talon_sdk_go.Base.Tests.{leb, ◌==◌, if◌then◌else◌}
use talon_sdk_go.Base.Lists.{length, drop, All, All-append}
use talon_sdk_go.Base.Octets.{Bytes}
use Prim.Native.Nat.{ℕ, zero, suc, ◌≤◌, ◌<◌}
use mathlib.Core.Path.{◌≡◌, refl, sym, subst}
use mathlib.Core.Bool.{Bool, true, false, ◌&&◌, ◌||◌}
use mathlib.Core.List.{[], ◌∷◌, reverse-reverse}
use native.Mathlib.Omega.{arith}

-- '\t', '\n', '\v', '\f', '\r', ' '
ascii_space : ℕ → Bool
ascii_space c = (leb 9 c && leb c 13) || c == 32

-- unicode.IsSpace for the two-byte encodings: U+0085 and U+00A0.
space2 : ℕ → ℕ → Bool
space2 a b = a == 0xc2 && (b == 0x85 || b == 0xa0)

-- For the three-byte encodings: U+1680, U+2000 to U+200A, U+2028, U+2029, U+202F, U+205F, U+3000.
space3 : ℕ → ℕ → ℕ → Bool
space3 a b c =
    (a == 0xe1 && b == 0x9a && c == 0x80)
    || (a == 0xe2
        && ((b == 0x80 && ((leb 0x80 c && leb c 0x8a) || c == 0xa8 || c == 0xa9 || c == 0xaf))
            || (b == 0x81 && c == 0x9f)))
    || (a == 0xe3 && b == 0x80 && c == 0x80)

-- The number of bytes of the space that the text begins with; 0 if it begins with none.
leading_space : Bytes → ℕ
unfolding ascii_space space2 space3
leading_space [] = 0
leading_space (a ∷ []) = if ascii_space a then 1 else 0
leading_space (a ∷ b ∷ []) = if ascii_space a then 1 else if space2 a b then 2 else 0
leading_space (a ∷ b ∷ c ∷ _) =
    if ascii_space a then 1 else if space2 a b then 2 else if space3 a b c then 3 else 0

-- The same of the text's end, read from the reversed text. No byte of these encodings but the
-- first one can begin a rune, so the last bytes decide the last rune.
trailing_space : Bytes → ℕ
unfolding ascii_space space2 space3
trailing_space [] = 0
trailing_space (a ∷ []) = if ascii_space a then 1 else 0
trailing_space (a ∷ b ∷ []) = if ascii_space a then 1 else if space2 b a then 2 else 0
trailing_space (a ∷ b ∷ c ∷ _) =
    if ascii_space a then 1 else if space2 b a then 2 else if space3 c b a then 3 else 0

-- Each round drops a byte at least, so the text's length is fuel enough.
strip : (Bytes → ℕ) → ℕ → Bytes → Bytes
strip width zero s = s
strip width (suc fuel) s = elim (width s == 0) [
  | true ↦ s
  | false ↦ strip width fuel (drop (width s) s)
]

-- strings.TrimSpace
unfoldable pub trim_space : Bytes → Bytes
unfolding leading_space trailing_space strip
trim_space s =
    let front = strip leading_space (length s) s in
    reverse (strip trailing_space (length front) (reverse front))

-- Printable ASCII.
abbrev pub IsPlain : ℕ → Type 0
IsPlain c = (33 ≤ c) × (c < 127)

leading_space-plain : (s : Bytes) → All IsPlain s → leading_space s ≡ 0
unfolding leading_space
leading_space-plain [] h = refl
leading_space-plain (a ∷ []) h = ground arith
leading_space-plain (a ∷ b ∷ []) h = ground arith
leading_space-plain (a ∷ b ∷ c ∷ _) h = ground arith

trailing_space-plain : (s : Bytes) → All IsPlain s → trailing_space s ≡ 0
unfolding trailing_space
trailing_space-plain [] h = refl
trailing_space-plain (a ∷ []) h = ground arith
trailing_space-plain (a ∷ b ∷ []) h = ground arith
trailing_space-plain (a ∷ b ∷ c ∷ _) h = ground arith

strip_none : (width : Bytes → ℕ) (n : ℕ) (s : Bytes) → width s ≡ 0 → strip width n s ≡ s
unfolding strip
strip_none width zero s h = refl
strip_none width (suc n) s h = ground arith

All-reverse : (P : ℕ → Type 0) (s : Bytes) → All P s → All P (reverse s)
All-reverse P [] h = tt
All-reverse P (c ∷ s) h =
    subst (All P) (sym (reverse-append (c ∷ []) s))
      (All-append P (reverse s) (c ∷ []) (All-reverse P s h.1) (h.0, tt))

pub trim_space-plain : (s : Bytes) → All IsPlain s → trim_space s ≡ s
unfolding trim_space
trim_space-plain s h = rw (strip_none leading_space (length s) s (leading_space-plain s h)) (
    rw
      (strip_none trailing_space (length s) (reverse s)
        (trailing_space-plain _ (All-reverse _ s h)))
      (reverse-reverse s))
