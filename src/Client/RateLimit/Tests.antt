-- ===== src/Client/RateLimit/Tests.antt =====
-- Four requests, of which three come together and one is given up while it waits.
use telegram_mcub_go.Base.{ℕ, ◌+◌, ◌≡◌, Bool, true, false, List, [], ◌∷◌, some}
use telegram_mcub_go.Client.RateLimit.{Arrival, new_limiter, turns}
use telegram_mcub_go.Client.RateLimit.Spacing.{
  turns-earliest, turns-Spaced, earliest_from, Spaced, sent,
}

abbrev at_time : ℕ → Bool → Arrival
at_time now ended = record { now = now; ended = ended }

abbrev others : List Arrival
others = at_time 100 true ∷ at_time 101 false ∷ at_time 150 true ∷ []

turns-earliest_example :
    turns (new_limiter 10) (at_time 100 false ∷ others)
    ≡ some 100 ∷ earliest_from 10 (100 + 10) others
turns-earliest_example = turns-earliest 10 (at_time 100 false) others

turns-Spaced_example : Spaced 10 (sent (turns (new_limiter 10) (at_time 100 false ∷ others)))
turns-Spaced_example = turns-Spaced 10 (at_time 100 false ∷ others)
