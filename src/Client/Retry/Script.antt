-- ===== src/Client/Retry/Script.antt =====
-- What both middlewares return for a given row of answers of the server.
use telegram_mcub_go.Base.{
  ℕ, suc, ◌+◌, ◌≡◌, refl, sym, ap, ◌∙◌, List, [], ◌∷◌, ◌++◌, map, Option, none, some, arith, length,
  All, ℤ, append_assoc, append-nil,
}
use telegram_mcub_go.Helpers.Utf16.{Text}
use telegram_mcub_go.Types.Protection.{ProtectionPolicy}
use telegram_mcub_go.Client.Retry.{attempt_loop, within_policy, attempts, protection_middleware}

-- The answers to come, and the waits so far.
pub record Server : Type 0 where
  pub answers : List (Option Text)
  pub waits : List ℤ

answer : List (Option Text) → Option Text
answer [] = none
answer (a ∷ as') = a

rest : List (Option Text) → List (Option Text)
rest [] = []
rest (a ∷ as') = as'

pub scripted_next : Server → Option Text × Server
unfolding answer rest
scripted_next s = (answer s.answers, record s { answers = rest s.answers })

pub scripted_pause : ℤ → Server → Option Text × Server
scripted_pause secs s = (none, record s { waits = s.waits ++ secs ∷ [] })

-- The errors of the list are all waited out, for the given times.
abbrev pub Tolerates : (Text → Option ℤ) → List (Text × ℤ) → Type 0
Tolerates tolerate = All (λ f. tolerate f.0 ≡ some f.1)

-- nil, or an error that is not waited out.
abbrev pub Final : (Text → Option ℤ) → Option Text → Type 0
Final tolerate none = Unit {0}
Final tolerate (some err) = tolerate err ≡ none

abbrev pub failures : List (Text × ℤ) → List (Option Text)
failures fs = map (λ f. some f.0) fs

abbrev pub pauses : List (Text × ℤ) → List ℤ
pauses fs = map (λ f. f.1) fs

abbrev beyond : List (Text × ℤ) → ℕ → ℕ
beyond [] n = n
beyond (f ∷ fs) n = suc (beyond fs n)

-- The error of the last failure, or the one before them all.
last_failure : List (Text × ℤ) → Option Text → Option Text
last_failure [] last = last
last_failure (f ∷ fs) last = last_failure fs (some f.0)

last_failure-append :
    (fs : List (Text × ℤ)) (f : Text × ℤ) (last : Option Text)
    → last_failure (fs ++ f ∷ []) last ≡ some f.0
unfolding last_failure
last_failure-append [] f last = refl
last_failure-append (g ∷ fs) f last = last_failure-append fs f (some g.0)

beyond_lem : (fs : List (Text × ℤ)) (n : ℕ) → beyond fs n ≡ length fs + n
beyond_lem [] n = omega arith
beyond_lem (f ∷ fs) n = omega (arith, beyond_lem fs n)

module _ (tolerate : Text → Option ℤ) (later : List (Option Text)) where
  attempt_loop-exhausted :
      (fs : List (Text × ℤ)) (waits : List ℤ) (last : Option Text)
      → Tolerates tolerate fs
      → attempt_loop scripted_next scripted_pause tolerate
          (beyond fs 0)
          last
          (record { answers = failures fs ++ later; waits = waits })
        ≡ (last_failure fs last, record { answers = later; waits = waits ++ pauses fs })
  unfolding attempt_loop scripted_next scripted_pause last_failure
  attempt_loop-exhausted [] waits last h =
      ap (λ ws. (last, record { answers = later; waits = ws })) (sym (append-nil waits))
  attempt_loop-exhausted ((err, secs) ∷ fs) waits last h =
      rw (h.0, attempt_loop)
        (attempt_loop-exhausted fs (waits ++ secs ∷ []) (some err) h.1
          ∙ ap (λ ws. (last_failure fs (some err), record { answers = later; waits = ws }))
              (append_assoc waits (secs ∷ []) (pauses fs)))

exhausted :
    (tolerate : Text → Option ℤ) (later : List (Option Text)) (fs : List (Text × ℤ)) (f : Text × ℤ)
    → Tolerates tolerate (fs ++ f ∷ [])
    → attempt_loop scripted_next scripted_pause tolerate
        (beyond (fs ++ f ∷ []) 0)
        none
        (record { answers = failures (fs ++ f ∷ []) ++ later; waits = [] })
      ≡ (some f.0, record { answers = later; waits = pauses (fs ++ f ∷ []) })
exhausted tolerate later fs f h =
    attempt_loop-exhausted tolerate later (fs ++ f ∷ []) [] none h
    ∙ ap (λ r. (r, record { answers = later; waits = pauses (fs ++ f ∷ []) }))
        (last_failure-append fs f none)

-- When every attempt meets a flood wait that the policy allows, the middleware returns the last of
-- these errors, after waiting for each of them, the last one too, which no attempt follows.
pub protection_middleware-exhausted :
    (policy : ProtectionPolicy) (fs : List (Text × ℤ)) (f : Text × ℤ) (later : List (Option Text))
    → Tolerates (within_policy policy) (fs ++ f ∷ [])
    → length (fs ++ f ∷ []) ≡ attempts policy
    → protection_middleware scripted_next scripted_pause policy
        (record { answers = failures (fs ++ f ∷ []) ++ later; waits = [] })
      ≡ (some f.0, record { answers = later; waits = pauses (fs ++ f ∷ []) })
unfolding protection_middleware
protection_middleware-exhausted policy fs f later h all_met =
    let gs = fs ++ f ∷ [] in
    let e : attempts policy ≡ beyond gs 0 = omega (arith, beyond_lem gs 0) in
    rw e (exhausted (within_policy policy) later fs f h)
