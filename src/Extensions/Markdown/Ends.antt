-- ===== src/Extensions/Markdown/Ends.antt =====
-- The loop of ParseMarkdown ends.
use mathlib.Core.Option
use telegram_mcub_go.Base.{
  ℕ, zero, suc, ◌+◌, ◌-◌, ◌<◌, ◌≡◌, refl, ap, ◌∙◌, inl, inr, [], ◌∷◌, arith, length, All, some,
  Bool-cases, ltb→lt, ltb,
}
use telegram_mcub_go.Helpers.Utf16.{Text, to_utf16, from_utf16}
use telegram_mcub_go.Helpers.Utf16.Decoding.{IsUnit, to_utf16-units}
use telegram_mcub_go.Helpers.Strip.{trim_left, trim_right, trim_space, strip_text}
use telegram_mcub_go.Extensions.Markdown.Rounds.{step-Shrinks}
use telegram_mcub_go.Extensions.Markdown.{State, step, parse_loop, parse_markdown}

-- With more fuel than units are left, the loop ends, in a state that does not depend on the fuel.
parse_loop-ends :
    (fuel : ℕ) (s : State)
    → length s.u16 - s.i < fuel
    → All IsUnit s.u16
    → (t : State) × ((more : ℕ) → parse_loop (fuel + more) s ≡ some t)
unfolding parse_loop
parse_loop-ends zero s h us = absurd (omega arith)
parse_loop-ends (suc fuel) s h us = elim (Bool-cases (ltb s.i (length s.u16))) [
  | inl inside ↦
      let (m, vs) = step-Shrinks s (ltb→lt s.i (length s.u16) inside) us in
      let (t, ends) = parse_loop-ends fuel (step s) (omega arith) vs in
      (
        t,
        λ more.
            let e : suc fuel + more ≡ suc (fuel + more) = omega arith in rw (e, inside) (ends more),
      )
  | inr outside ↦
      (s, λ more. let e : suc fuel + more ≡ suc (fuel + more) = omega arith in rw (e, outside) refl)
]

-- ParseMarkdown ends on every string: its loop needs at most one round more than the string has
-- UTF-16 units, and more fuel than that changes nothing.
pub parse_markdown-ends :
    (s : Text)
    → (t : State) × ((more : ℕ)
        → parse_loop
            (suc (length (to_utf16 s)) + more)
            (record { u16 = to_utf16 s; result = []; i = 0 })
          ≡ some t)
      × (parse_markdown s ≡ some (strip_text (from_utf16 t.u16) t.result))
unfolding parse_markdown to_utf16 from_utf16 parse_loop strip_text trim_space trim_left trim_right
parse_markdown-ends [] = (
  record { u16 = []; result = []; i = 0 },
  (λ more. let e : 1 + more ≡ suc more = omega arith in rw e refl),
  refl,
)
parse_markdown-ends (r ∷ s) =
    let n = suc (length (to_utf16 (r ∷ s))) in
    let start : State = record { u16 = to_utf16 (r ∷ s); result = []; i = 0 } in
    let (t, ends) = parse_loop-ends n start (omega arith) (to_utf16-units (r ∷ s)) in
    let e : n ≡ n + 0 = omega arith in
    (
      t,
      ends,
      ap (Option.map (λ v. strip_text (from_utf16 v.u16) v.result))
          (ap (λ k. parse_loop k start) e ∙ ends 0),
    )
