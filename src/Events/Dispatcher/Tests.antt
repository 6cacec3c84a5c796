-- ===== src/Events/Dispatcher/Tests.antt =====
-- Concrete dispatchers: a world is the list of what ran; an event and an error are numbers.
use telegram_mcub_go.Base.{
  ℕ, ◌==◌, List, [], ◌∷◌, ◌++◌, none, some, map, keep, ◌≡◌, refl, if◌then◌else◌,
}
use telegram_mcub_go.Events.Dispatcher.{
  Handler, MiddlewareFunc, Dispatcher, accepts, build_chain, chain_loop, dispatch, dispatch_loop,
  add_middleware,
}
use telegram_mcub_go.Events.Dispatcher.Laws.{dispatch-run_all, build_chain-nested, run_all, nested}

abbrev logs : ℕ → Handler (List ℕ) ℕ ℕ
logs n e w = (if e == n then some n else none, w ++ n ∷ [])

abbrev wraps : MiddlewareFunc (List ℕ) ℕ ℕ
wraps e next w = next e (w ++ 100 ∷ [])

abbrev two_handlers : Dispatcher (List ℕ) ℕ ℕ
two_handlers = record {
  middlewares = wraps ∷ [];
  handlers =
      record { filter = some (λ e. e == 7); handler = logs 1 }
      ∷ record { filter = none; handler = logs 7 }
      ∷ record { filter = none; handler = logs 2 }
      ∷ [];
}

dispatch-run_all_example :
    dispatch two_handlers 7 []
    ≡ run_all
        (map
          (λ sub. build_chain two_handlers sub.handler 7)
          (keep (λ sub. accepts sub.filter 7) two_handlers.handlers))
        []
dispatch-run_all_example = dispatch-run_all two_handlers 7 []

-- The second handler fails, so the third one does not run.
dispatch_stops : dispatch two_handlers 7 [] ≡ (some 7, 100 ∷ 1 ∷ 100 ∷ 7 ∷ [])
unfolding dispatch dispatch_loop build_chain chain_loop
dispatch_stops = refl

build_chain-nested_example :
    (build_chain two_handlers (logs 1) ≡ nested two_handlers.middlewares (logs 1))
    × (build_chain (add_middleware two_handlers wraps) (logs 1)
        ≡ build_chain two_handlers (λ e. wraps e (logs 1)))
build_chain-nested_example = build_chain-nested two_handlers wraps (logs 1)
