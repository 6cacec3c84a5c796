-- ===== src/Session/Strings/Base64.antt =====
-- Go's base64.URLEncoding and base64.RawURLEncoding, on bytes.
pub mod Codec
use telegram_mcub_go.Base.{
  ℕ, ◌+◌, ◌-◌, ◌*◌, ◌/◌, ◌%◌, ◌==◌, ◌<◌, ◌≡◌, refl, ap, ◌∙◌, List, [], ◌∷◌, ◌++◌, All, arith, keep,
  Bool, true, false, not, ◌&&◌, ◌||◌, Option, none, some, if◌then◌else◌, ltb, leb,
}

abbrev pub Bytes : Type 0
Bytes = List ℕ

unfoldable pub digit : ℕ → ℕ
digit n =
    if ltb n 26
    then 0x41 + n
    else if ltb n 52
    then 0x61 + (n - 26)
    else if ltb n 62
    then 0x30 + (n - 52)
    else if n == 62
    then 0x2d
    else 0x5f

unfoldable pub value : ℕ → Option ℕ
value c =
    if leb 0x41 c && leb c 0x5a
    then some (c - 0x41)
    else if leb 0x61 c && leb c 0x7a
    then some (c - 0x61 + 26)
    else if leb 0x30 c && leb c 0x39
    then some (c - 0x30 + 52)
    else if c == 0x2d
    then some 62
    else if c == 0x5f
    then some 63
    else none

abbrev pub padding : ℕ
padding = 0x3d

unfoldable pub url_encode : Bytes → Bytes
url_encode [] = []
url_encode (a ∷ []) = digit (a / 4) ∷ digit (a % 4 * 16) ∷ padding ∷ padding ∷ []
url_encode (a ∷ b ∷ []) =
    digit (a / 4) ∷ digit (a % 4 * 16 + b / 16) ∷ digit (b % 16 * 4) ∷ padding ∷ []
url_encode (a ∷ b ∷ c ∷ rest) =
    digit (a / 4)
    ∷ digit (a % 4 * 16 + b / 16)
    ∷ digit (b % 16 * 4 + c / 64)
    ∷ digit (c % 64)
    ∷ url_encode rest

-- One, two or three bytes of two, three or four digits; the bits left over are not looked at.
abbrev pub one_byte : Option ℕ → Option ℕ → Option Bytes
one_byte (some p) (some q) = some ((p * 4 + q / 16) ∷ [])
one_byte (some p) none = none
one_byte none q = none

abbrev pub two_bytes : Option ℕ → Option ℕ → Option ℕ → Option Bytes
two_bytes (some p) (some q) (some r) = some ((p * 4 + q / 16) ∷ (q % 16 * 16 + r / 4) ∷ [])
two_bytes (some p) (some q) none = none
two_bytes (some p) none r = none
two_bytes none q r = none

abbrev pub three_bytes : Option ℕ → Option ℕ → Option ℕ → Option ℕ → Option Bytes → Option Bytes
three_bytes (some p) (some q) (some r) (some s) (some rest) =
    some ((p * 4 + q / 16) ∷ (q % 16 * 16 + r / 4) ∷ (r % 4 * 64 + s) ∷ rest)
three_bytes (some p) (some q) (some r) (some s) none = none
three_bytes (some p) (some q) (some r) none rest = none
three_bytes (some p) (some q) none s rest = none
three_bytes (some p) none r s rest = none
three_bytes none q r s rest = none

-- The last four characters, which may end in padding.
unfoldable pub last_padded : ℕ → ℕ → ℕ → ℕ → Option Bytes
last_padded w x y z =
    if y == padding && z == padding
    then one_byte (value w) (value x)
    else if z == padding
    then two_bytes (value w) (value x) (value y)
    else three_bytes (value w) (value x) (value y) (value z) (some [])

unfoldable pub decode_padded : Bytes → Option Bytes
unfolding last_padded
decode_padded [] = some []
decode_padded (w ∷ x ∷ y ∷ z ∷ []) = last_padded w x y z
decode_padded (w ∷ x ∷ y ∷ z ∷ v ∷ rest) =
    three_bytes (value w) (value x) (value y) (value z) (decode_padded (v ∷ rest))
decode_padded _ = none

unfoldable pub decode_raw : Bytes → Option Bytes
decode_raw [] = some []
decode_raw (w ∷ []) = none
decode_raw (w ∷ x ∷ []) = one_byte (value w) (value x)
decode_raw (w ∷ x ∷ y ∷ []) = two_bytes (value w) (value x) (value y)
decode_raw (w ∷ x ∷ y ∷ z ∷ rest) =
    three_bytes (value w) (value x) (value y) (value z) (decode_raw rest)

-- The decoders skip carriage returns and line feeds.
abbrev pub without_newlines : Bytes → Bytes
without_newlines s = keep (λ c. not (c == 0xd || c == 0xa)) s

unfoldable pub url_decode : Bytes → Option Bytes
url_decode s = decode_padded (without_newlines s)

unfoldable pub raw_url_decode : Bytes → Option Bytes
raw_url_decode s = decode_raw (without_newlines s)
