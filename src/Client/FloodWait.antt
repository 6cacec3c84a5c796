-- ===== src/Client/FloodWait.antt =====
-- client/protection.go, parseFloodWait, and client/middleware.go, parseFloodWaitSeconds: the two
-- readings of an error's text. A text is the list of its bytes. `int` and time.Duration are int64.
pub mod Laws
mod Tests
use telegram_mcub_go.Base.{
  ℕ, zero, suc, ◌+◌, ◌-◌, ◌*◌, ◌%◌, ◌==◌, List, [], ◌∷◌, Bool, true, false, ◌&&◌, ◌||◌, Option,
  none, some, leb, ltb, if◌then◌else◌, ℤ, pos, negsuc, ltb_ℤ,
}
use telegram_mcub_go.Helpers.Utf16.{Text}
use telegram_mcub_go.Helpers.Strip.{is_space}

-- "FLOOD_WAIT_"
abbrev pub prefix : Text
prefix = b'F' ∷ b'L' ∷ b'O' ∷ b'O' ∷ b'D' ∷ b'_' ∷ b'W' ∷ b'A' ∷ b'I' ∷ b'T' ∷ b'_' ∷ []

-- What follows the prefix, if the text begins with it.
pub strip_prefix : Text → Text → Option Text
strip_prefix [] s = some s
strip_prefix (c ∷ p) [] = none
strip_prefix (c ∷ p) (d ∷ s) = if c == d then strip_prefix p s else none

unfoldable pub is_digit : ℕ → Bool
is_digit c = leb b'0' c && leb c b'9'

-- The number of the leading digits, read onto `n`.
pub digits_value : ℕ → Text → ℕ
digits_value n [] = n
digits_value n (c ∷ s) = elim (is_digit c) [
  | true ↦ digits_value (n * 10 + (c - b'0')) s
  | false ↦ n
]

-- fmt.Sscanf's scanning of %d: spaces, where a line break is an error, a sign, at least one digit,
-- and a value that an int64 holds.
negated : ℕ → ℤ
negated zero = pos zero
negated (suc n) = negsuc n

in_range : Bool → ℕ → Option ℤ
in_range true n = if leb n 0x8000000000000000 then some (negated n) else none
in_range false n = if ltb n 0x8000000000000000 then some (pos n) else none

scan_digits : Bool → Text → Option ℤ
scan_digits negative [] = none
scan_digits negative (c ∷ s) =
    if is_digit c then in_range negative (digits_value 0 (c ∷ s)) else none

scan_sign : Text → Option ℤ
scan_sign [] = none
scan_sign (c ∷ s) =
    if c == b'-'
    then scan_digits true s
    else if c == b'+'
    then scan_digits false s
    else scan_digits false (c ∷ s)

scan_int : Text → Option ℤ
scan_int [] = none
scan_int (c ∷ s) =
    let rest = scan_int s in
    if c == 0xa then none else if is_space c then rest else scan_sign (c ∷ s)

-- `fmt.Sscanf(err.Error(), "FLOOD_WAIT_%d", &secs)`, and `secs > 0`.
pub parse_flood_wait : Text → Option ℤ
parse_flood_wait message = elim (strip_prefix prefix message) [
  | none ↦ none
  | some rest ↦ elim (scan_int rest) [
    | none ↦ none
    | some secs ↦ if ltb_ℤ (pos 0) secs then some secs else none
  ]
]

-- strings.ToUpper on ASCII.
abbrev to_upper : ℕ → ℕ
to_upper c = if leb b'a' c && leb c b'z' then c - 32 else c

strip_prefix_upper : Text → Text → Option Text
strip_prefix_upper [] s = some s
strip_prefix_upper (c ∷ p) [] = none
strip_prefix_upper (c ∷ p) (d ∷ s) = if c == to_upper d then strip_prefix_upper p s else none

-- What follows the first occurrence of the prefix in the upper-cased text, in the text itself.
after_prefix : Text → Option Text
after_prefix [] = none
after_prefix (c ∷ s) = elim (strip_prefix_upper prefix (c ∷ s)) [
  | none ↦ after_prefix s
  | some rest ↦ some rest
]

-- The int64 of a number: its last 64 bits, the upper half negative.
unfoldable pub to_int64 : ℕ → ℤ
unfolding negated
to_int64 n =
    let r = n % 0x10000000000000000 in
    if ltb r 0x8000000000000000 then pos r else negated (0x10000000000000000 - r)

-- `n*10 + int(ch-'0')` wraps in each round, which leaves the last 64 bits of the number.
pub parse_flood_wait_seconds : Text → ℤ × Bool
parse_flood_wait_seconds msg = elim (after_prefix msg) [
  | none ↦ (pos 0, false)
  | some rest ↦ let n = to_int64 (digits_value 0 rest) in (n, ltb_ℤ (pos 0) n)
]

-- `time.Duration(seconds) * time.Second`, for the seconds that are positive, and 0 for others.
pub duration : ℤ → ℤ
duration (pos n) = to_int64 (n * 1_000_000_000)
duration (negsuc n) = pos 0

-- The wait in nanoseconds; 0 when the error is no flood wait.
pub flood_wait_duration : Text → ℤ
flood_wait_duration msg = duration (parse_flood_wait_seconds msg).0
