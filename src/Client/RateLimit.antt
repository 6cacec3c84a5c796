-- ===== src/Client/RateLimit.antt =====
-- client/middleware.go, RateLimitMiddleware: when each request may go out. Times are nanoseconds on
-- the clock of the process; `interval` is one second over the configured rate.
pub mod Spacing
mod Tests
use telegram_mcub_go.Base.{
  ℕ, ◌+◌, ◌-◌, Bool, ◌&&◌, List, [], ◌∷◌, Option, none, some, ltb, if◌then◌else◌,
}

-- What the closure keeps: the time of the last request's turn, `none` for the zero time.
pub record Limiter : Type 0 where
  pub interval : ℕ
  pub last : Option ℕ

pub new_limiter : ℕ → Limiter
new_limiter interval = record { interval = interval; last = none }

-- How long a request that comes at `now` waits.
pub wait : Limiter → ℕ → ℕ
wait l now = elim l.last [
  | none ↦ 0
  | some last ↦ let next = last + l.interval in if ltb now next then next - now else 0
]

-- The turn that the request takes, under the lock.
pub reserve : Limiter → ℕ → Limiter
reserve l now = record l { last = some (now + wait l now) }

-- A request: when it takes the lock, and whether its context ends first if it has to wait, which is
-- what `select` sees.
pub record Arrival : Type 0 where
  pub now : ℕ
  pub ended : Bool

-- The times at which the requests go out; `none` is a request that returns its context's error.
pub turns : Limiter → List Arrival → List (Option ℕ)
turns l [] = []
turns l (r ∷ rs) =
    let turn = if ltb 0 (wait l r.now) && r.ended then none else some (r.now + wait l r.now) in
    turn ∷ turns (reserve l r.now) rs
