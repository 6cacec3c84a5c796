-- ===== src/Client/RequestIter/Tests.antt =====
-- Two pages of two items, with a limit of three.
use telegram_mcub_go.Base.{ℕ, ◌≡◌, arith, [], ◌∷◌, none, some, pos}
use telegram_mcub_go.Client.RequestIter.{new_request_iter, collect}
use telegram_mcub_go.Client.RequestIter.Collect.{load_page, stream, limited, collect-limited}

collect-limited_example :
    collect {A = ℕ} {Err = ℕ} none
      (some load_page)
      9
      (new_request_iter (pos 3))
      []
      ((1 ∷ 2 ∷ []) ∷ (3 ∷ 4 ∷ []) ∷ [])
    ≡ some (limited (pos 3) (stream ((1 ∷ 2 ∷ []) ∷ (3 ∷ 4 ∷ []) ∷ [])), none)
collect-limited_example =
    collect-limited ℕ ℕ (pos 3) 9 ((1 ∷ 2 ∷ []) ∷ (3 ∷ 4 ∷ []) ∷ []) (omega arith)
