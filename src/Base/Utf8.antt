-- ===== src/Base/Utf8.antt =====
-- unicode/utf8: `Valid` and `ValidString`.
use Prim.Native.Nat.{ℕ, zero, suc}
use mathlib.Core.Bool.{Bool, true, false, ◌&&◌, ◌||◌}
use mathlib.Core.List.{[], ◌∷◌}
use talon_sdk_go.Base.Tests.{leb, ◌==◌, if◌then◌else◌}
use talon_sdk_go.Base.Lists.{length, drop}
use talon_sdk_go.Base.Octets.{Bytes}

within : ℕ → ℕ → ℕ → Bool
within lo hi b = leb lo b && leb b hi

continuation : ℕ → Bool
unfolding within
continuation = within 0x80 0xbf

-- The range of the second byte behind the first one of a three-byte and of a four-byte rune.
second3 : ℕ → ℕ → Bool
unfolding within continuation
second3 a b =
    (a == 0xe0 && within 0xa0 0xbf b)
    || (a == 0xed && within 0x80 0x9f b)
    || ((within 0xe1 0xec a || within 0xee 0xef a) && continuation b)

second4 : ℕ → ℕ → Bool
unfolding within continuation
second4 a b =
    (a == 0xf0 && within 0x90 0xbf b)
    || (a == 0xf4 && within 0x80 0x8f b)
    || (within 0xf1 0xf3 a && continuation b)

-- The number of bytes of the rune that the text begins with; 0 if they are no rune.
rune_width : Bytes → ℕ
unfolding second3 second4
rune_width [] = 0
rune_width (a ∷ []) = if leb a 0x7f then 1 else 0
rune_width (a ∷ b ∷ []) =
    if leb a 0x7f then 1 else if within 0xc2 0xdf a && continuation b then 2 else 0
rune_width (a ∷ b ∷ c ∷ []) =
    if leb a 0x7f
    then 1
    else if within 0xc2 0xdf a && continuation b
    then 2
    else if second3 a b && continuation c
    then 3
    else 0
rune_width (a ∷ b ∷ c ∷ d ∷ _) =
    if leb a 0x7f
    then 1
    else if within 0xc2 0xdf a && continuation b
    then 2
    else if second3 a b && continuation c
    then 3
    else if second4 a b && continuation c && continuation d
    then 4
    else 0

-- A rune has a byte at least, so the text's length is fuel enough.
runes : ℕ → Bytes → Bool
runes fuel [] = true
runes zero (c ∷ s) = false
runes (suc fuel) (c ∷ s) = elim (rune_width (c ∷ s) == 0) [
  | true ↦ false
  | false ↦ runes fuel (drop (rune_width (c ∷ s)) (c ∷ s))
]

unfoldable pub valid_utf8 : Bytes → Bool
unfolding rune_width runes
valid_utf8 s = runes (length s) s
