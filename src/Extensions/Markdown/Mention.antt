-- ===== src/Extensions/Markdown/Mention.antt =====
-- client/extensions/html.go, parseTGMention, over Go's strconv.ParseInt.
use mathlib.Core.Option
use telegram_mcub_go.Base.{
  ℕ, ◌+◌, ◌-◌, ◌*◌, ◌==◌, [], ◌∷◌, Bool, ◌&&◌, Option, none, some, if◌then◌else◌, leb, ℤ, pos,
  negsuc, ◌-ℤ◌,
}
use telegram_mcub_go.Helpers.Utf16.{Text}

abbrev is_digit : ℕ → Bool
is_digit r = leb 0x30 r && leb r 0x39

-- The digits, after the value of those before them.
digits : ℕ → Text → Option ℕ
digits n [] = some n
digits n (r ∷ s) = let rest = digits (10 * n + (r - 0x30)) s in if is_digit r then rest else none

-- At least one digit, and at most `limit`.
magnitude : ℕ → Text → Option ℕ
unfolding digits
magnitude limit [] = none
magnitude limit (r ∷ s) = elim (digits 0 (r ∷ s)) [
  | none ↦ none
  | some n ↦ if leb n limit then some n else none
]

-- `strconv.ParseInt(s, 10, 64)`
unfoldable pub parse_int : Text → Option ℤ
unfolding magnitude
parse_int [] = none
parse_int (r ∷ s) =
    let unsigned = Option.map pos (magnitude 0x7fffffffffffffff (r ∷ s)) in
    let positive = Option.map pos (magnitude 0x7fffffffffffffff s) in
    let negative = Option.map (λ n. pos 0 -ℤ pos n) (magnitude 0x8000000000000000 s) in
    if r == 0x2b then positive else if r == 0x2d then negative else unsigned

-- What follows a prefix.
unfoldable pub cut_prefix : Text → Text → Option Text
cut_prefix [] s = some s
cut_prefix (p ∷ prefix) [] = none
cut_prefix (p ∷ prefix) (r ∷ s) = let rest = cut_prefix prefix s in if r == p then rest else none

-- "tg://user?id="
abbrev pub mention_prefix : Text
mention_prefix =
    0x74 ∷ 0x67 ∷ 0x3a ∷ 0x2f ∷ 0x2f ∷ 0x75 ∷ 0x73 ∷ 0x65 ∷ 0x72 ∷ 0x3f ∷ 0x69 ∷ 0x64 ∷ 0x3d ∷ []

abbrev or_minus_one : Option ℤ → ℤ
or_minus_one none = negsuc 0
or_minus_one (some id) = id

unfoldable pub parse_tg_mention : Text → ℤ
unfolding parse_int cut_prefix
parse_tg_mention url = elim (cut_prefix mention_prefix url) [
  | none ↦ negsuc 0
  | some id ↦ or_minus_one (parse_int id)
]
