-- ===== src/Client/FloodWait/Laws.antt =====
-- What both readings make of "FLOOD_WAIT_" and a number.
use telegram_mcub_go.Base.{
  ℕ, ◌+◌, ◌-◌, ◌*◌, ◌<◌, ◌≤◌, ◌==◌, ◌≡◌, refl, ◌∙◌, [], ◌∷◌, ◌++◌, true, false, some, lt→ltb, ℤ,
  pos, ◌<ℤ◌, arith, All,
}
use telegram_mcub_go.Helpers.Utf16.{Text}
use telegram_mcub_go.Helpers.Strip.{is_space}
use telegram_mcub_go.Client.FloodWait.{
  prefix, strip_prefix, is_digit, digits_value, in_range, scan_digits, scan_sign, scan_int,
  parse_flood_wait, strip_prefix_upper, after_prefix, parse_flood_wait_seconds, flood_wait_duration,
  to_int64, duration, negated,
}

-- The value of a list of digits.
abbrev pub decimal : ℕ → Text → ℕ
decimal n [] = n
decimal n (c ∷ ds) = decimal (n * 10 + (c - b'0')) ds

-- The text ends, or goes on with no digit.
abbrev pub EndsNumber : Text → Type 0
EndsNumber [] = Unit {0}
EndsNumber (c ∷ s) = is_digit c ≡ false

digits_value-decimal :
    (n : ℕ) (ds rest : Text)
    → All (λ c. is_digit c ≡ true) ds
    → EndsNumber rest
    → digits_value n (ds ++ rest) ≡ decimal n ds
unfolding digits_value
digits_value-decimal n [] [] h e = refl
digits_value-decimal n [] (c ∷ rest) h e = rw (e, digits_value)
digits_value-decimal n (c ∷ ds) rest h e =
    rw (h.0, digits_value) (digits_value-decimal (n * 10 + (c - b'0')) ds rest h.1 e)

digit_facts :
    (c : ℕ)
    → is_digit c ≡ true
    → ((c == 0xa) ≡ false) × (is_space c ≡ false) × ((c == b'-') ≡ false) × ((c == b'+') ≡ false)
unfolding is_digit is_space
digit_facts c h = (ground arith, ground arith, ground arith, ground arith)

scan_int-digit :
    (c : ℕ) (s : Text) (n : ℕ)
    → is_digit c ≡ true
    → digits_value 0 (c ∷ s) ≡ n
    → n < 0x8000000000000000
    → scan_int (c ∷ s) ≡ some (pos n)
unfolding scan_int scan_sign scan_digits in_range
scan_int-digit c s n h e small =
    let (line, space, minus, plus) = digit_facts c h in
    rw (line, space, minus, plus, h, e, lt→ltb n 0x8000000000000000 small) refl

pub to_int64-small : (n : ℕ) → n < 0x8000000000000000 → to_int64 n ≡ pos n
unfolding to_int64
to_int64-small n h = ground arith

seconds-decimal :
    (c : ℕ) (ds rest : Text)
    → All (λ d. is_digit d ≡ true) (c ∷ ds)
    → EndsNumber rest
    → (parse_flood_wait_seconds (prefix ++ c ∷ ds ++ rest)).0 ≡ to_int64 (decimal 0 (c ∷ ds))
unfolding parse_flood_wait_seconds after_prefix strip_prefix_upper
seconds-decimal c ds rest h e =
    rw (digits_value-decimal 0 (c ∷ ds) rest h e, parse_flood_wait_seconds) refl

-- On "FLOOD_WAIT_" followed by the digits of a number from 1 to 9223372036 and then the end or no
-- digit, parseFloodWait finds that number of seconds and floodWaitDuration that number times a
-- second of nanoseconds.
pub parse-decimal :
    (c : ℕ) (ds rest : Text)
    → All (λ d. is_digit d ≡ true) (c ∷ ds)
    → EndsNumber rest
    → 0 < decimal 0 (c ∷ ds)
    → decimal 0 (c ∷ ds) ≤ 9_223_372_036
    → (parse_flood_wait (prefix ++ c ∷ ds ++ rest) ≡ some (pos (decimal 0 (c ∷ ds))))
      × (flood_wait_duration (prefix ++ c ∷ ds ++ rest) ≡ pos (decimal 0 (c ∷ ds) * 1_000_000_000))
unfolding parse_flood_wait strip_prefix flood_wait_duration duration
parse-decimal c ds rest h e lo hi =
    let n = decimal 0 (c ∷ ds) in
    let value = digits_value-decimal 0 (c ∷ ds) rest h e in
    let seconds = seconds-decimal c ds rest h e ∙ to_int64-small n (omega arith) in
    (
      rw (scan_int-digit c (ds ++ rest) n h.0 value (omega arith), parse_flood_wait) (ground arith),
      rw (seconds, flood_wait_duration, duration)
          (to_int64-small (n * 1_000_000_000) (omega arith)),
    )

-- On a number from 9223372037 to 18446744073 the product wraps to a negative duration, which
-- RetryMiddleware takes for no flood wait.
pub parse-decimal_wraps :
    (c : ℕ) (ds rest : Text)
    → All (λ d. is_digit d ≡ true) (c ∷ ds)
    → EndsNumber rest
    → 9_223_372_036 < decimal 0 (c ∷ ds)
    → decimal 0 (c ∷ ds) ≤ 18_446_744_073
    → flood_wait_duration (prefix ++ c ∷ ds ++ rest) <ℤ pos 0
unfolding flood_wait_duration duration to_int64 negated
parse-decimal_wraps c ds rest h e lo hi =
    let n = decimal 0 (c ∷ ds) in
    let seconds = seconds-decimal c ds rest h e ∙ to_int64-small n (omega arith) in
    rw (seconds, flood_wait_duration, duration) (ground arith)

pub parse_flood_wait-pos :
    (err : Text) (secs : ℤ) → parse_flood_wait err ≡ some secs → pos 0 <ℤ secs
unfolding parse_flood_wait
parse_flood_wait-pos err secs h = ground arith
