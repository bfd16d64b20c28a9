-- ===== src/Revision/Digests.antt =====
-- revision_stream.go: digests as hexadecimal text, and big-endian words.
use talon_sdk_go.Base.{
  ℕ, zero, suc, ◌+◌, ◌*◌, ◌/◌, ◌%◌, ◌<◌, ◌≡◌, refl, sym, ap, ◌∙◌, Bool, true, false, ◌&&◌, ◌||◌, [],
  ◌∷◌, Bytes, AllBytes, ok, err, plain, leb, if◌then◌else◌, length, length-append, every, reverse,
  reverse-cons, arith, both_true, ◌==◌,
}
use talon_sdk_go.Base.Words.{put_le, length-put_le}
use talon_sdk_go.Conditional.Results.{is_sha}
use talon_sdk_go.Revision.{hex_digit, hex_text, hex_value, unhex, decode_digest, put_be}

-- What SHA-256 returns: 32 bytes.
abbrev pub IsDigest : Bytes → Type 0
IsDigest digest = (length digest ≡ 32) × AllBytes digest

hex_value-hex_digit : (d : ℕ) → d < 16 → hex_value (hex_digit d) ≡ d
unfolding hex_value hex_digit
hex_value-hex_digit d h = ground arith

pub unhex-hex_text : (bs : Bytes) → AllBytes bs → unhex (hex_text bs) ≡ bs
unfolding unhex hex_text
unhex-hex_text [] h = refl
unhex-hex_text (b ∷ bs) h =
    let high = hex_value-hex_digit (b / 16) (omega (arith, h.0)) in
    let low = hex_value-hex_digit (b % 16) (omega arith) in
    let byte : hex_value (hex_digit (b / 16)) * 16 + hex_value (hex_digit (b % 16)) ≡ b =
      omega (arith, high, low) in
    cc (byte, unhex-hex_text bs h.1)

length-hex_text : (bs : Bytes) → length (hex_text bs) ≡ 2 * length bs
unfolding hex_text
length-hex_text [] = refl
length-hex_text (b ∷ bs) = omega (arith, length-hex_text bs)

abbrev is_hex : ℕ → Bool
is_hex c = (leb 48 c && leb c 57) || (leb 97 c && leb c 102)

hex_digit-is_hex : (d : ℕ) → d < 16 → is_hex (hex_digit d) ≡ true
unfolding hex_digit
hex_digit-is_hex d h = ground arith

hex_text-every : (bs : Bytes) → AllBytes bs → every is_hex (hex_text bs) ≡ true
unfolding hex_text every
hex_text-every [] h = refl
hex_text-every (b ∷ bs) h =
    rw (hex_digit-is_hex (b / 16) (omega (arith, h.0)))
      (rw (hex_digit-is_hex (b % 16) (omega arith)) (hex_text-every bs h.1))

pub hex_text-is_sha : (d : Bytes) → IsDigest d → is_sha (hex_text d) ≡ true
unfolding is_sha
hex_text-is_sha d h =
    let size : length (hex_text d) ≡ 64 = omega (arith, length-hex_text d, h.0) in
    let digits = hex_text-every d h.1 in rw size (rw digits refl)

-- A digest is read back from its text.
pub decode_digest-hex_text : (d : Bytes) → IsDigest d → decode_digest (hex_text d) ≡ ok d
unfolding decode_digest
decode_digest-hex_text d h = rw (hex_text-is_sha d h) (ap ok (unhex-hex_text d h.1))

length-reverse : (bs : Bytes) → length (reverse bs) ≡ length bs
length-reverse [] = refl
length-reverse (b ∷ bs) =
    ap length (reverse-cons b bs)
    ∙ omega (arith, length-append (reverse bs) (b ∷ []), length-reverse bs)

pub length-put_be : (k v : ℕ) → length (put_be k v) ≡ k
unfolding put_be
length-put_be k v = length-reverse (put_le k v) ∙ length-put_le k v

pub length-unhex : (cs : Bytes) (n : ℕ) → length cs ≡ 2 * n → length (unhex cs) ≡ n
unfolding unhex
length-unhex [] n h = omega (arith, h)
length-unhex (_ ∷ []) n h = omega (arith, h)
length-unhex (_ ∷ _ ∷ cs) zero h = omega (arith, h)
length-unhex (_ ∷ _ ∷ cs) (suc n) h = ap suc (length-unhex cs n (omega (arith, h)))

accepted_bytes :
    (test : Bool) (made out : Bytes)
    → (if test then ok made else err plain) ≡ ok out
    → (test ≡ true) × (made ≡ out)
accepted_bytes true made out h = (refl, cc)
accepted_bytes false made out h = cc

-- A digest that is read has 32 bytes.
pub length-decode_digest :
    (text digest : Bytes) → decode_digest text ≡ ok digest → length digest ≡ 32
unfolding decode_digest is_sha
length-decode_digest text digest h =
    let (sha, made) = accepted_bytes (is_sha text) (unhex text) digest h in
    let size : length text ≡ 2 * 32 = ground (arith, sha) in
    ap length (sym made) ∙ length-unhex text 32 size

digits_back :
    (c d : ℕ)
    → is_hex c ≡ true
    → is_hex d ≡ true
    → (hex_digit ((hex_value c * 16 + hex_value d) / 16) ≡ c)
      × (hex_digit ((hex_value c * 16 + hex_value d) % 16) ≡ d)
unfolding hex_digit hex_value
digits_back c d h k = ground arith

digits_of :
    (c d : ℕ) (rest : Bool)
    → (is_hex c && (is_hex d && rest)) ≡ true
    → (is_hex c ≡ true) × (is_hex d ≡ true) × (rest ≡ true)
digits_of c d rest h = ground arith

hex_text-unhex-every :
    (cs : Bytes) → length cs % 2 ≡ 0 → every is_hex cs ≡ true → hex_text (unhex cs) ≡ cs
unfolding hex_text unhex every
hex_text-unhex-every [] size h = refl
hex_text-unhex-every (_ ∷ []) size h = let absurd : ⊥ = omega (arith, size) in elim absurd [ ]
hex_text-unhex-every (c ∷ d ∷ cs) size h =
    let (high, low, digits) = digits_of c d (every is_hex cs) h in
    let back = digits_back c d high low in
    cc (back.0, back.1, hex_text-unhex-every cs (omega (arith, size)) digits)

-- A text of 64 digits is the text of the digest that is read from it.
pub hex_text-decode_digest :
    (text digest : Bytes) → decode_digest text ≡ ok digest → hex_text digest ≡ text
unfolding decode_digest is_sha
hex_text-decode_digest text digest h =
    let (sha, made) = accepted_bytes (is_sha text) (unhex text) digest h in
    let (size, digits) = both_true (length text == 64) (every is_hex text) sha in
    ap hex_text (sym made) ∙ hex_text-unhex-every text (ground (arith, size)) digits

pub decode_digest-unhex :
    (text digest : Bytes) → decode_digest text ≡ ok digest → digest ≡ unhex text
unfolding decode_digest
decode_digest-unhex text digest h = ground arith
