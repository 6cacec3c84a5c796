-- ===== src/Events/Dispatcher/Laws.antt =====
-- The order in which middlewares wrap a handler and in which handlers run.
use mathlib.Core.List.{map-append}
use telegram_mcub_go.Base.{
  ℕ, zero, suc, ◌≡◌, refl, inl, inr, sym, ap, ◌∙◌, List, [], ◌∷◌, ◌++◌, map, Bool, true, false,
  Option, none, some, length, get_elem?, keep, take, take-length, keep-append, if◌then◌else◌,
  Bool-cases,
}
use telegram_mcub_go.Events.Dispatcher.{
  Effect, Handler, MiddlewareFunc, Subscription, Dispatcher, and_then, add_middleware,
  remove_middleware, add_handler, wrap, chain_loop, build_chain, accepts, dispatch_loop, dispatch,
}

module _ {W Err : Type 0} where
  -- The effects in turn, up to the first error.
  abbrev pub run_all : List (Effect W Err) → Effect W Err
  run_all [] w = (none, w)
  run_all (run ∷ runs) w = and_then (run w) (run_all runs)

  pub and_then-cong :
      (r : Option Err × W) (f g : Effect W Err)
      → ((w : W) → f w ≡ g w)
      → and_then r f ≡ and_then r g
  and_then-cong (none, w) f g h = h w
  and_then-cong (some err, w) f g h = refl

  and_then_assoc :
      (r : Option Err × W) (f g : Effect W Err)
      → and_then r (λ w. and_then (f w) g) ≡ and_then (and_then r f) g
  and_then_assoc (none, w) f g = refl
  and_then_assoc (some err, w) f g = refl

  run_all-append :
      (rs ss : List (Effect W Err)) (w : W)
      → run_all (rs ++ ss) w ≡ and_then (run_all rs w) (run_all ss)
  run_all-append [] ss w = refl
  run_all-append (r ∷ rs) ss w =
      and_then-cong (r w) _ _ (run_all-append rs ss)
      ∙ and_then_assoc (r w) (run_all rs) (run_all ss)

module _ {W Err A : Type 0} where
  run_one :
      (b : Bool) (run : A → Effect W Err) (a : A) (w : W)
      → run_all (map run (if b then a ∷ [] else [])) w ≡ (if b then run a w else (none, w))
  run_one true run a w = elim_nil (run a w)
    where
      elim_nil : (r : Option Err × W) → and_then r (run_all []) ≡ r
      elim_nil (none, w) = refl
      elim_nil (some err, w) = refl
  run_one false run a w = refl

module _ {W Event Err : Type 0} where
  -- Each middleware around the ones after it, and the handler inside.
  abbrev pub nested : List (MiddlewareFunc W Event Err) → Handler W Event Err → Handler W Event Err
  nested [] final = final
  nested (mw ∷ mws) final = λ e. mw e (nested mws final)

  nested-append :
      (ms ns : List (MiddlewareFunc W Event Err)) (final : Handler W Event Err)
      → nested (ms ++ ns) final ≡ nested ms (nested ns final)
  nested-append [] ns final = refl
  nested-append (m ∷ ms) ns final = ap (λ h e. m e h) (nested-append ms ns final)

  nested-take :
      (mws : List (MiddlewareFunc W Event Err)) (i : ℕ) (h : Handler W Event Err)
      → nested (take (suc i) mws) h ≡ nested (take i mws) (wrap (get_elem? mws i) h)
  unfolding wrap
  nested-take [] zero h = refl
  nested-take [] (suc i) h = refl
  nested-take (mw ∷ mws) zero h = refl
  nested-take (mw ∷ mws) (suc i) h = ap (λ next e. mw e next) (nested-take mws i h)

  chain_loop-nested :
      (mws : List (MiddlewareFunc W Event Err)) (i : ℕ) (h : Handler W Event Err)
      → chain_loop mws i h ≡ nested (take i mws) h
  unfolding chain_loop
  chain_loop-nested mws zero h = refl
  chain_loop-nested mws (suc i) h =
      chain_loop-nested mws i (wrap (get_elem? mws i) h) ∙ sym (nested-take mws i h)

  build_chain-eq :
      (d : Dispatcher W Event Err) (final : Handler W Event Err)
      → build_chain d final ≡ nested d.middlewares final
  unfolding build_chain
  build_chain-eq d final =
      chain_loop-nested d.middlewares (length d.middlewares) final
      ∙ ap (λ ms. nested ms final) (take-length d.middlewares)

  -- The chain that `buildChain` makes runs the middlewares in the order in which they were added,
  -- the first one outermost, and a middleware that is added last wraps the handler itself.
  pub build_chain-nested :
      (d : Dispatcher W Event Err) (mw : MiddlewareFunc W Event Err) (final : Handler W Event Err)
      → (build_chain d final ≡ nested d.middlewares final)
        × (build_chain (add_middleware d mw) final ≡ build_chain d (λ e. mw e final))
  unfolding add_middleware
  build_chain-nested d mw final = (
    build_chain-eq d final,
    build_chain-eq (add_middleware d mw) final
        ∙ (nested-append d.middlewares (mw ∷ []) final ∙ sym (build_chain-eq d (λ e. mw e final))),
  )

  -- `RemoveMiddleware` leaves no middleware at all, whichever one it is asked to remove, and keeps
  -- the handlers.
  pub remove_middleware-all :
      (d : Dispatcher W Event Err) (mw : MiddlewareFunc W Event Err)
      → ((remove_middleware d mw).middlewares ≡ [])
        × ((remove_middleware d mw).handlers ≡ d.handlers)
  unfolding remove_middleware
  remove_middleware-all d mw = (none_left d.middlewares, refl)
    where
      none_left : (ms : List (MiddlewareFunc W Event Err)) → keep (λ m. false) ms ≡ []
      none_left [] = refl
      none_left (m ∷ ms) = none_left ms

  dispatch_loop-run_all :
      (d : Dispatcher W Event Err) (subs : List (Subscription W Event Err)) (e : Event) (w : W)
      → dispatch_loop d subs e w
        ≡ run_all
            (map (λ sub. build_chain d sub.handler e) (keep (λ sub. accepts sub.filter e) subs))
            w
  unfolding dispatch_loop
  dispatch_loop-run_all d [] e w = refl
  dispatch_loop-run_all d (sub ∷ subs) e w = elim (Bool-cases (accepts sub.filter e)) [
    | inl yes_it ↦
        rw yes_it
          (and_then-cong (build_chain d sub.handler e w) _ _ (dispatch_loop-run_all d subs e))
    | inr no_it ↦ rw no_it (dispatch_loop-run_all d subs e w)
  ]

  -- `Dispatch` runs the handlers whose filter accepts the event, and no other, in the order in
  -- which they were added, each inside the chain of all middlewares, and stops at the first error,
  -- which it returns.
  pub dispatch-run_all :
      (d : Dispatcher W Event Err) (e : Event) (w : W)
      → dispatch d e w
        ≡ run_all
            (map
              (λ sub. build_chain d sub.handler e)
              (keep (λ sub. accepts sub.filter e) d.handlers))
            w
  unfolding dispatch
  dispatch-run_all d e w = dispatch_loop-run_all d d.handlers e w

  -- Dispatching after `AddHandler` is dispatching before it and then, if that met no error, running
  -- the new handler in its chain when its filter accepts the event.
  pub dispatch-add_handler :
      (d : Dispatcher W Event Err) (filter : Option (Event → Bool)) (h : Handler W Event Err)
      (e : Event) (w : W)
      → dispatch (add_handler d filter h) e w
        ≡ and_then
            (dispatch d e w)
            (λ w'. if accepts filter e then build_chain d h e w' else (none, w'))
  unfolding add_handler build_chain
  dispatch-add_handler d filter h e w =
      let d' = add_handler d filter h in
      let sub : Subscription W Event Err = record { filter = filter; handler = h } in
      let run : Subscription W Event Err → Effect W Err = λ s. build_chain d s.handler e in
      let ok : Subscription W Event Err → Bool = λ s. accepts s.filter e in
      dispatch-run_all d' e w
      ∙ (ap (λ rs. run_all (map run rs) w) (keep-append ok d.handlers (sub ∷ []))
          ∙ (ap (λ rs. run_all rs w) (map-append run (keep ok d.handlers) (keep ok (sub ∷ [])))
              ∙ (run_all-append (map run (keep ok d.handlers)) (map run (keep ok (sub ∷ []))) w
                  ∙ (ap (λ r. and_then r (run_all (map run (keep ok (sub ∷ [])))))
                        (sym (dispatch-run_all d e w))
                      ∙ and_then-cong (dispatch d e w) _ _ (run_one (accepts filter e) run sub)))))
