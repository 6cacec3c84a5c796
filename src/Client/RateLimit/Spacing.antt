-- ===== src/Client/RateLimit/Spacing.antt =====
-- Requests go out one interval apart, and no later than that asks for.
use Prim.Native.Nat.{max}
use telegram_mcub_go.Base.{
  ℕ, ◌+◌, ◌≤◌, ◌≡◌, refl, ◌∙◌, ap₂, ap, ◌&&◌, List, [], ◌∷◌, Option, none, some, arith, ltb,
  if◌then◌else◌, Bool-cases, inl, inr,
}
use telegram_mcub_go.Client.RateLimit.{Limiter, new_limiter, wait, reserve, Arrival, turns}

-- The earliest schedule that gives each request a turn, in order and an interval apart; a request
-- whose turn is still to come when its context ends does not go out.
abbrev pub earliest_from : ℕ → ℕ → List Arrival → List (Option ℕ)
earliest_from interval ready [] = []
earliest_from interval ready (r ∷ rs) =
    let turn = max r.now ready in
    (if ltb r.now turn && r.ended then none else some turn)
    ∷ earliest_from interval (turn + interval) rs

-- The times of the requests that go out.
abbrev pub sent : List (Option ℕ) → List ℕ
sent [] = []
sent (none ∷ ts) = sent ts
sent (some t ∷ ts) = t ∷ sent ts

-- Each time is at least an interval after the one before it.
abbrev pub Spaced : ℕ → List ℕ → Type 0
Spaced interval [] = Unit {0}
Spaced interval (t ∷ []) = Unit {0}
Spaced interval (t ∷ u ∷ ts) = (t + interval ≤ u) × Spaced interval (u ∷ ts)

turns-earliest_from :
    (interval last : ℕ) (rs : List Arrival)
    → turns (record { interval = interval; last = some last }) rs
      ≡ earliest_from interval (last + interval) rs
unfolding turns reserve wait
turns-earliest_from interval last [] = refl
turns-earliest_from interval last (r ∷ rs) =
    let l : Limiter = record { interval = interval; last = some last } in
    let turn = r.now + wait l r.now in
    let e : turn ≡ max r.now (last + interval) = ground arith in
    ap₂ ◌∷◌ (ground arith)
      (turns-earliest_from interval turn rs ∙ ap (λ t. earliest_from interval (t + interval) rs) e)

-- For requests that come at any times, in the order in which they take the lock: the first goes out
-- at once; each other gets its turn as soon as it has come and an interval has passed since the turn
-- before it, whether or not that request went out, and goes out then, unless it has to wait and its
-- context ends first.
pub turns-earliest :
    (interval : ℕ) (first : Arrival) (rs : List Arrival)
    → turns (new_limiter interval) (first ∷ rs)
      ≡ some first.now ∷ earliest_from interval (first.now + interval) rs
unfolding turns reserve wait new_limiter
turns-earliest interval first rs =
    let e : first.now + 0 ≡ first.now = omega arith in
    ap₂ ◌∷◌ (ground arith) (
      turns-earliest_from interval (first.now + 0) rs
      ∙ ap (λ t. earliest_from interval (t + interval) rs) e)

-- Spaced, and not before a time.
SpacedFrom : ℕ → ℕ → List ℕ → Type 0
SpacedFrom interval ready [] = Unit {0}
SpacedFrom interval ready (t ∷ ts) = (ready ≤ t) × SpacedFrom interval (t + interval) ts

SpacedFrom-mono :
    (interval early ready : ℕ) (ts : List ℕ)
    → early ≤ ready
    → SpacedFrom interval ready ts
    → SpacedFrom interval early ts
unfolding SpacedFrom
SpacedFrom-mono interval early ready [] h s = tt
SpacedFrom-mono interval early ready (t ∷ ts) h s = (omega (arith, s.0), s.1)

earliest_from-SpacedFrom :
    (interval ready : ℕ) (rs : List Arrival)
    → SpacedFrom interval ready (sent (earliest_from interval ready rs))
unfolding SpacedFrom
earliest_from-SpacedFrom interval ready [] = tt
earliest_from-SpacedFrom interval ready (r ∷ rs) =
    let turn = max r.now ready in
    let later = earliest_from-SpacedFrom interval (turn + interval) rs in
    elim (Bool-cases (ltb r.now turn && r.ended)) [
      | inl gone ↦ rw gone (
          SpacedFrom-mono interval ready (turn + interval)
            (sent (earliest_from interval (turn + interval) rs)) (omega arith) later)
      | inr goes ↦ rw goes (omega arith, later)
    ]

SpacedFrom-Spaced :
    (interval t : ℕ) (ts : List ℕ)
    → SpacedFrom interval (t + interval) ts
    → Spaced interval (t ∷ ts)
unfolding SpacedFrom
SpacedFrom-Spaced interval t [] h = tt
SpacedFrom-Spaced interval t (u ∷ ts) h = (h.0, SpacedFrom-Spaced interval u ts h.1)

-- The requests that pass the limiter go out at least one interval apart, whenever the requests come
-- and whichever contexts end.
pub turns-Spaced :
    (interval : ℕ) (rs : List Arrival) → Spaced interval (sent (turns (new_limiter interval) rs))
turns-Spaced interval [] = unfold turns in tt
turns-Spaced interval (r ∷ rs) = rw (turns-earliest interval r rs) (
    SpacedFrom-Spaced interval r.now (sent (earliest_from interval (r.now + interval) rs))
      (earliest_from-SpacedFrom interval (r.now + interval) rs))
