-- ===== src/Client/RequestIter.antt =====
-- client/requestiter.go. `W` is what the page loaders act on; a loader sets the buffer, and returns
-- an error or nil.
pub mod Collect
mod Tests
use telegram_mcub_go.Base.{
  ℕ, zero, suc, List, [], ◌∷◌, ◌++◌, Bool, true, false, Option, none, some, get_elem?,
  if◌then◌else◌, ℤ, pos, negsuc, leb_ℤ,
}

pub record Loaded (A W Err : Type 0) : Type 0 where
  pub err : Option Err
  pub buffer : List A
  pub world : W

pub record RequestIter (A : Type 0) : Type 0 where
  pub limit : ℤ
  pub left : ℤ
  pub buffer : List A
  pub buf_pos : ℕ
  pub done : Bool
  pub initialized : Bool

abbrev pub new_request_iter : {A : Type 0} → ℤ → RequestIter A
new_request_iter limit = record {
  limit = limit;
  left = if leb_ℤ limit (pos 0) then negsuc 0 else limit;
  buffer = [];
  buf_pos = 0;
  done = false;
  initialized = false;
}

-- What `Next` returns: an item, `false`, or an error.
pub data Step (A Err : Type 0) : Type 0 where
  item : A → Step A Err
  exhausted : Step A Err
  failed : Err → Step A Err

module _ {A : Type 0} where
  -- `if it.left > 0 { it.left--; if it.left == 0 { it.done = true } }`
  count_down : RequestIter A → ℤ → RequestIter A
  count_down it (negsuc n) = it
  count_down it (pos zero) = it
  count_down it (pos (suc zero)) = record it { left = pos 0; done = true }
  count_down it (pos (suc (suc n))) = record it { left = pos (suc n) }

module _ {A Err : Type 0} where
  -- Serving the item at the buffer's position.
  serve : RequestIter A → A → Step A Err × RequestIter A
  serve it a = (item a, count_down (record it { buf_pos = suc it.buf_pos }) it.left)

  finish : RequestIter A → Step A Err × RequestIter A
  finish it = (exhausted, record it { done = true })

module _ {A W Err : Type 0} where
  -- The body of the loop of `Collect` on what `Next` returned; `more` is the next round.
  pub gather :
      (RequestIter A → List A → W → Option (List A × Option Err))
      → List A
      → (Step A Err × RequestIter A) × W
      → Option (List A × Option Err)
  gather more out ((failed err, it), w) = some (out, some err)
  gather more out ((exhausted, it), w) = some (out, none)
  gather more out ((item a, it), w) = more it (out ++ a ∷ []) w

module _ {A W Err : Type 0} (init_fn load_next_fn : Option (W → Loaded A W Err)) where
  -- The round after a page was fetched: with an empty page the iterator is done, and otherwise the
  -- loop serves its first item.
  first_of_page : RequestIter A → List A → Step A Err × RequestIter A
  first_of_page it [] = finish it
  first_of_page it (a ∷ page) = serve it a

  fetch : (W → Loaded A W Err) → RequestIter A → W → (Step A Err × RequestIter A) × W
  fetch load it w = elim (load w).err [
    | some err ↦ ((failed err, record it { buffer = (load w).buffer; buf_pos = 0 }), (load w).world)
    | none ↦ (
      first_of_page (record it { buffer = (load w).buffer; buf_pos = 0 }) (load w).buffer,
      (load w).world,
    )
  ]

  -- The buffer is used up: `left` is the hard limit.
  refill : RequestIter A → ℤ → W → (Step A Err × RequestIter A) × W
  refill it (pos zero) w = (finish it, w)
  refill it left w = elim load_next_fn [ none ↦ (finish it, w) | some load ↦ fetch load it w ]

  pub serve_or_refill : RequestIter A → W → (Step A Err × RequestIter A) × W
  serve_or_refill it w = elim (get_elem? it.buffer it.buf_pos) [
    | some a ↦ (serve it a, w)
    | none ↦ refill it it.left w
  ]

  initialize : RequestIter A → W → (Step A Err × RequestIter A) × W
  initialize it w = elim init_fn [
    | none ↦ serve_or_refill (record it { initialized = true }) w
    | some init ↦ elim (init w).err [
      | some err ↦
          ((failed err, record it { initialized = true; buffer = (init w).buffer }), (init w).world)
      | none ↦
          serve_or_refill (record it { initialized = true; buffer = (init w).buffer })
            (init w).world
    ]
  ]

  pub next : RequestIter A → W → (Step A Err × RequestIter A) × W
  next it w =
      if it.done
      then ((exhausted, it), w)
      else if it.initialized
      then serve_or_refill it w
      else initialize it w

  -- The loop of `Collect`, on fuel: `none` is that the fuel ran out.
  pub collect : ℕ → RequestIter A → List A → W → Option (List A × Option Err)
  collect zero it out w = none
  collect (suc fuel) it out w = gather (collect fuel) out (next it w)
