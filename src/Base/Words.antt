-- ===== src/Base/Words.antt =====
-- Fixed-width words: little-endian bytes (encoding/binary) and two's complement.
use Prim.Native.Nat.{ℕ, zero, suc, ◌+◌, ◌-◌, ◌*◌, ◌/◌, ◌%◌, ◌^◌, ◌<◌}
use mathlib.Core.Path.{◌≡◌, refl, ap}
use mathlib.Core.List.{[], ◌∷◌}
use native.Mathlib.Omega.{arith}
use native.Mathlib.Nat.{pow-suc}
use talon_sdk_go.Base.Tests.{ltb, if◌then◌else◌}
use talon_sdk_go.Base.Lists.{length, All}
use talon_sdk_go.Base.Octets.{Bytes, IsByte}
use talon_sdk_go.Base.Int.{ℤ, pos, negsuc}

-- The `k` low bytes of `v`, the lowest first.
unfoldable pub put_le : ℕ → ℕ → Bytes
put_le zero v = []
put_le (suc k) v = (v % 256) ∷ put_le k (v / 256)

unfoldable pub get_le : Bytes → ℕ
get_le [] = 0
get_le (b ∷ bs) = b + 256 * get_le bs

pub length-put_le : (k v : ℕ) → length (put_le k v) ≡ k
unfolding put_le
length-put_le zero v = refl
length-put_le (suc k) v = ap suc (length-put_le k (v / 256))

pub put_le-IsByte : (k v : ℕ) → All IsByte (put_le k v)
unfolding put_le
put_le-IsByte zero v = tt
put_le-IsByte (suc k) v = (omega arith, put_le-IsByte k (v / 256))

pub get_le-put_le : (k v : ℕ) → v < 256 ^ k → get_le (put_le k v) ≡ v
unfolding get_le put_le
get_le-put_le zero v h = omega arith
get_le-put_le (suc k) v h = omega (arith, get_le-put_le k (v / 256) (omega (arith, pow-suc 256 k)))

pub get_le-lt : (bs : Bytes) → All IsByte bs → get_le bs < 256 ^ length bs
unfolding get_le
get_le-lt [] h = omega arith
get_le-lt (b ∷ bs) h = omega (arith, h.0, get_le-lt bs h.1, pow-suc 256 (length bs))

pub put_le-get_le : (bs : Bytes) → All IsByte bs → put_le (length bs) (get_le bs) ≡ bs
unfolding get_le put_le
put_le-get_le [] h = refl
put_le-get_le (b ∷ bs) h =
    let low : (b + 256 * get_le bs) % 256 ≡ b = omega (arith, h.0) in
    let high : (b + 256 * get_le bs) / 256 ≡ get_le bs = omega (arith, h.0) in
    cc (low, high, put_le-get_le bs h.1)

-- An integer of the width whose least negative number is `- half`.
abbrev pub IsSigned : ℕ → ℤ → Type 0
IsSigned half (pos n) = n < half
IsSigned half (negsuc n) = n < half

-- uint64(v), uint32(v) and int64(w), int32(w).
unfoldable pub to_unsigned : ℕ → ℤ → ℕ
to_unsigned half (pos n) = n
to_unsigned half (negsuc n) = 2 * half - 1 - n

unfoldable pub from_unsigned : ℕ → ℕ → ℤ
from_unsigned half w = if ltb w half then pos w else negsuc (2 * half - 1 - w)

pub from_unsigned-to_unsigned :
    (half : ℕ) (z : ℤ) → IsSigned half z → from_unsigned half (to_unsigned half z) ≡ z
unfolding from_unsigned to_unsigned
from_unsigned-to_unsigned half (pos n) h = ground arith
from_unsigned-to_unsigned half (negsuc n) h = ground arith

pub to_unsigned-lt : (half : ℕ) (z : ℤ) → IsSigned half z → to_unsigned half z < 2 * half
unfolding to_unsigned
to_unsigned-lt half (pos n) h = omega arith
to_unsigned-lt half (negsuc n) h = omega arith

pub to_unsigned-from_unsigned :
    (half w : ℕ) → w < 2 * half → to_unsigned half (from_unsigned half w) ≡ w
unfolding from_unsigned to_unsigned
to_unsigned-from_unsigned half w h = ground arith

pub from_unsigned-IsSigned : (half w : ℕ) → w < 2 * half → IsSigned half (from_unsigned half w)
unfolding from_unsigned
from_unsigned-IsSigned half w h = ground arith
