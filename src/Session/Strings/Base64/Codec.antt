-- ===== src/Session/Strings/Base64/Codec.antt =====
-- Decoding an encoding of bytes gives the bytes back.
use telegram_mcub_go.Base.{
  ℕ, ◌+◌, ◌*◌, ◌/◌, ◌%◌, ◌==◌, ◌<◌, ◌≡◌, refl, ap, ◌∙◌, [], ◌∷◌, All, arith, true, false, not, ◌||◌,
  some,
}
use telegram_mcub_go.Session.Strings.Base64.{
  Bytes, digit, value, padding, url_encode, one_byte, two_bytes, three_bytes, last_padded,
  decode_padded, without_newlines, url_decode,
}

abbrev pub IsByte : ℕ → Type 0
IsByte b = b < 256

value-digit : (n : ℕ) → n < 64 → value (digit n) ≡ some n
unfolding value digit
value-digit n h = ground arith

digit-padding : (n : ℕ) → n < 64 → (digit n == padding) ≡ false
unfolding digit
digit-padding n h = ground arith

digit-kept : (n : ℕ) → n < 64 → not (digit n == 0xd || digit n == 0xa) ≡ true
unfolding digit
digit-kept n h = ground arith

-- The digits of up to three bytes are digits.
first_digit : (a : ℕ) → IsByte a → a / 4 < 64
first_digit a h = omega arith

second_digit : (a b : ℕ) → IsByte b → a % 4 * 16 + b / 16 < 64
second_digit a b h = omega arith

third_digit : (b c : ℕ) → IsByte c → b % 16 * 4 + c / 64 < 64
third_digit b c h = omega arith

fourth_digit : (c : ℕ) → c % 64 < 64
fourth_digit c = omega arith

-- The bytes come back from the digits.
first_byte : (a b : ℕ) → IsByte b → a / 4 * 4 + (a % 4 * 16 + b / 16) / 16 ≡ a
first_byte a b h = omega arith

second_byte :
    (a b c : ℕ)
    → IsByte b
    → IsByte c
    → (a % 4 * 16 + b / 16) % 16 * 16 + (b % 16 * 4 + c / 64) / 4 ≡ b
second_byte a b c h k = omega arith

third_byte : (b c : ℕ) → IsByte c → (b % 16 * 4 + c / 64) % 4 * 64 + c % 64 ≡ c
third_byte b c h = omega arith

one_byte-digits :
    (a : ℕ)
    → IsByte a
    → one_byte (value (digit (a / 4))) (value (digit (a % 4 * 16))) ≡ some (a ∷ [])
one_byte-digits a h =
    let e : a / 4 * 4 + a % 4 * 16 / 16 ≡ a = omega arith in
    rw (value-digit (a / 4) (first_digit a h), value-digit (a % 4 * 16) (omega arith), e) refl

two_bytes-digits :
    (a b : ℕ)
    → IsByte a
    → IsByte b
    → two_bytes
        (value (digit (a / 4)))
        (value (digit (a % 4 * 16 + b / 16)))
        (value (digit (b % 16 * 4)))
      ≡ some (a ∷ b ∷ [])
two_bytes-digits a b h k =
    let e : (a % 4 * 16 + b / 16) % 16 * 16 + b % 16 * 4 / 4 ≡ b = omega arith in
    rw
      (
        value-digit (a / 4) (first_digit a h),
        value-digit (a % 4 * 16 + b / 16) (second_digit a b k),
        value-digit (b % 16 * 4) (omega arith),
        first_byte a b k,
        e,
      )
      refl

three_bytes-digits :
    (a b c : ℕ) (rest : Bytes)
    → IsByte a
    → IsByte b
    → IsByte c
    → three_bytes
        (value (digit (a / 4)))
        (value (digit (a % 4 * 16 + b / 16)))
        (value (digit (b % 16 * 4 + c / 64)))
        (value (digit (c % 64)))
        (some rest)
      ≡ some (a ∷ b ∷ c ∷ rest)
three_bytes-digits a b c rest h k l =
    rw
      (
        value-digit (a / 4) (first_digit a h),
        value-digit (a % 4 * 16 + b / 16) (second_digit a b k),
        value-digit (b % 16 * 4 + c / 64) (third_digit b c l),
        value-digit (c % 64) (fourth_digit c),
        first_byte a b k,
        second_byte a b c k l,
        third_byte b c l,
      )
      refl

url_encode-cons : (a : ℕ) (s : Bytes) → (v : ℕ) × (vs : Bytes) × (url_encode (a ∷ s) ≡ v ∷ vs)
unfolding url_encode
url_encode-cons a [] = (_, _, refl)
url_encode-cons a (b ∷ []) = (_, _, refl)
url_encode-cons a (b ∷ c ∷ s) = (_, _, refl)

decode_padded-more :
    (w x y z v : ℕ) (s vs : Bytes)
    → s ≡ v ∷ vs
    → decode_padded (w ∷ x ∷ y ∷ z ∷ s)
      ≡ three_bytes (value w) (value x) (value y) (value z) (decode_padded s)
unfolding decode_padded
decode_padded-more w x y z v s vs e = rw e refl

decode_padded-url_encode : (s : Bytes) → All IsByte s → decode_padded (url_encode s) ≡ some s
unfolding decode_padded url_encode last_padded
decode_padded-url_encode [] h = refl
decode_padded-url_encode (a ∷ []) h = one_byte-digits a h.0
decode_padded-url_encode (a ∷ b ∷ []) h =
    rw (digit-padding (b % 16 * 4) (omega arith)) (two_bytes-digits a b h.0 h.1.0)
decode_padded-url_encode (a ∷ b ∷ c ∷ []) h =
    rw
      (
        digit-padding (b % 16 * 4 + c / 64) (third_digit b c h.1.1.0),
        digit-padding (c % 64) (fourth_digit c),
      )
      (three_bytes-digits a b c [] h.0 h.1.0 h.1.1.0)
decode_padded-url_encode (a ∷ b ∷ c ∷ d ∷ s) h =
    let (v, vs, e) = url_encode-cons d s in
    decode_padded-more _ _ _ _ v (url_encode (d ∷ s)) vs e
    ∙ (ap (three_bytes _ _ _ _) (decode_padded-url_encode (d ∷ s) h.1.1.1)
        ∙ three_bytes-digits a b c (d ∷ s) h.0 h.1.0 h.1.1.0)

without_newlines-url_encode :
    (s : Bytes) → All IsByte s → without_newlines (url_encode s) ≡ url_encode s
unfolding url_encode
without_newlines-url_encode [] h = refl
without_newlines-url_encode (a ∷ []) h =
    rw (digit-kept (a / 4) (first_digit a h.0), digit-kept (a % 4 * 16) (omega arith)) refl
without_newlines-url_encode (a ∷ b ∷ []) h =
    rw
      (
        digit-kept (a / 4) (first_digit a h.0),
        digit-kept (a % 4 * 16 + b / 16) (second_digit a b h.1.0),
        digit-kept (b % 16 * 4) (omega arith),
      )
      refl
without_newlines-url_encode (a ∷ b ∷ c ∷ s) h =
    rw
      (
        digit-kept (a / 4) (first_digit a h.0),
        digit-kept (a % 4 * 16 + b / 16) (second_digit a b h.1.0),
        digit-kept (b % 16 * 4 + c / 64) (third_digit b c h.1.1.0),
        digit-kept (c % 64) (fourth_digit c),
        without_newlines-url_encode s h.1.1.1,
      )
      refl

pub url_decode-url_encode : (s : Bytes) → All IsByte s → url_decode (url_encode s) ≡ some s
unfolding url_decode
url_decode-url_encode s h =
    ap decode_padded (without_newlines-url_encode s h) ∙ decode_padded-url_encode s h
