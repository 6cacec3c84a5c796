-- ===== src/Events/Dispatcher.antt =====
-- events/events.go, Dispatcher. A handler returns its error, if any, and the world that it leaves.
pub mod Laws
mod Tests
use telegram_mcub_go.Base.{
  ℕ, zero, suc, ◌==◌, List, [], ◌∷◌, ◌++◌, Bool, true, false, not, Option, none, some, length,
  get_elem?, keep, if◌then◌else◌,
}

-- What a handler returns: nil or an error, and the world after it.
abbrev pub Effect : Type 0 → Type 0 → Type 0
Effect W Err = W → Option Err × W

abbrev pub Handler : Type 0 → Type 0 → Type 0 → Type 0
Handler W Event Err = Event → Effect W Err

abbrev pub MiddlewareFunc : Type 0 → Type 0 → Type 0 → Type 0
MiddlewareFunc W Event Err = Event → Handler W Event Err → Effect W Err

pub record Subscription (W Event Err : Type 0) : Type 0 where
  pub filter : Option (Event → Bool)
  pub handler : Handler W Event Err

pub record Dispatcher (W Event Err : Type 0) : Type 0 where
  pub middlewares : List (MiddlewareFunc W Event Err)
  pub handlers : List (Subscription W Event Err)

module _ {W Err : Type 0} where
  -- `if err := run(w); err != nil { return err }`, and the rest otherwise.
  abbrev pub and_then : Option Err × W → Effect W Err → Option Err × W
  and_then (none, w) rest = rest w
  and_then (some err, w) rest = (some err, w)

abbrev pub accepts {ℓ} : {Event : Type ℓ} → Option (Event → Bool) → Event → Bool
accepts none e = true
accepts (some filter) e = filter e

module _ {W Event Err : Type 0} where
  pub new_dispatcher : Dispatcher W Event Err
  new_dispatcher = record { middlewares = []; handlers = [] }

  pub add_middleware : Dispatcher W Event Err → MiddlewareFunc W Event Err → Dispatcher W Event Err
  add_middleware d mw = record d { middlewares = d.middlewares ++ mw ∷ [] }

  pub middleware_func_ptr : MiddlewareFunc W Event Err → ℕ
  middleware_func_ptr mw = 0

  pub remove_middleware :
      Dispatcher W Event Err → MiddlewareFunc W Event Err → Dispatcher W Event Err
  unfolding middleware_func_ptr
  remove_middleware d mw =
      let target = middleware_func_ptr mw in
      record d { middlewares = keep (λ m. not (middleware_func_ptr m == target)) d.middlewares }

  pub add_handler :
      Dispatcher W Event Err → Option (Event → Bool) → Handler W Event Err → Dispatcher W Event Err
  add_handler d filter handler = record d {
    handlers = d.handlers ++ record { filter = filter; handler = handler } ∷ [];
  }

  wrap : Option (MiddlewareFunc W Event Err) → Handler W Event Err → Handler W Event Err
  wrap none next = next
  wrap (some mw) next = λ e. mw e next

  -- The loop from the last index down, with the number of indices left.
  chain_loop : List (MiddlewareFunc W Event Err) → ℕ → Handler W Event Err → Handler W Event Err
  unfolding wrap
  chain_loop mws zero h = h
  chain_loop mws (suc i) h = chain_loop mws i (wrap (get_elem? mws i) h)

  pub build_chain : Dispatcher W Event Err → Handler W Event Err → Handler W Event Err
  build_chain d final = chain_loop d.middlewares (length d.middlewares) final

  dispatch_loop : Dispatcher W Event Err → List (Subscription W Event Err) → Event → Effect W Err
  dispatch_loop d [] e w = (none, w)
  dispatch_loop d (sub ∷ subs) e w =
      let rest = dispatch_loop d subs e in
      if accepts sub.filter e then and_then (build_chain d sub.handler e w) rest else rest w

  pub dispatch : Dispatcher W Event Err → Event → Effect W Err
  dispatch d e w = dispatch_loop d d.handlers e w
