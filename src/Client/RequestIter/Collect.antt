-- ===== src/Client/RequestIter/Collect.antt =====
-- `Collect` against the list of all items that the pages hold.
use telegram_mcub_go.Base.{
  ℕ, zero, suc, ◌<◌, ◌≡◌, ◌≢◌, refl, sym, ap, ◌∙◌, List, [], ◌∷◌, ◌++◌, true, false, Option, none,
  some, arith, length, take, drop, get_elem?, ℤ, pos, negsuc, leb_ℤ, Option-cases, inl, inr,
  append_assoc, append-nil, if◌then◌else◌,
}
use telegram_mcub_go.Client.RequestIter.{
  Loaded, RequestIter, new_request_iter, Step, count_down, serve, finish, first_of_page, fetch,
  refill, serve_or_refill, initialize, next, collect, gather,
}

-- A loader that hands out the given pages, and empty ones after them.
abbrev pub load_page : {A Err : Type 0} → List (List A) → Loaded A (List (List A)) Err
load_page [] = record { err = none; buffer = []; world = [] }
load_page (page ∷ pages) = record { err = none; buffer = page; world = pages }

module _ {A : Type 0} where
  -- The items of the pages before the first empty one.
  abbrev pub stream : List (List A) → List A
  stream [] = []
  stream ([] ∷ pages) = []
  stream ((a ∷ page) ∷ pages) = a ∷ page ++ stream pages

  -- What a limit leaves of the items; a limit that is not positive leaves all.
  abbrev pub limited : ℤ → List A → List A
  limited (negsuc n) items = items
  limited (pos zero) items = items
  limited (pos (suc n)) items = take (suc n) items

  drop-some :
      (xs : List A) (i : ℕ) {a : A} → get_elem? xs i ≡ some a → drop i xs ≡ a ∷ drop (suc i) xs
  drop-some [] i e = cc
  drop-some (x ∷ xs) zero e = ap (λ y. y ∷ xs) (cc)
  drop-some (x ∷ xs) (suc i) e = drop-some xs i e

  drop-none : (xs : List A) (i : ℕ) → get_elem? xs i ≡ none → drop i xs ≡ []
  drop-none [] zero e = refl
  drop-none [] (suc i) e = refl
  drop-none (x ∷ xs) zero e = cc
  drop-none (x ∷ xs) (suc i) e = drop-none xs i e

hard_limit : (n : ℕ) → (if leb_ℤ (pos (suc n)) (pos 0) then negsuc 0 else pos (suc n)) ≡ pos (suc n)
hard_limit n = ground arith

no_limit : (n : ℕ) → (if leb_ℤ (negsuc n) (pos 0) then negsuc 0 else negsuc n) ≡ negsuc 0
no_limit n = ground arith

limited-left :
    {A : Type 0} (limit : ℤ) (xs : List A)
    → limited (if leb_ℤ limit (pos 0) then negsuc 0 else limit) xs ≡ limited limit xs
limited-left (negsuc n) xs = ap (λ left. limited left xs) (no_limit n)
limited-left (pos zero) xs = refl
limited-left (pos (suc n)) xs = ap (λ left. limited left xs) (hard_limit n)

left-positive : (limit : ℤ) → (if leb_ℤ limit (pos 0) then negsuc 0 else limit) ≢ pos 0
left-positive (negsuc n) e = ground arith
left-positive (pos zero) e = ground arith
left-positive (pos (suc n)) e = ground arith

module _ (A Err : Type 0) (limit : ℤ) where
  -- The iterator in the middle of its work.
  abbrev running : ℤ → List A → ℕ → RequestIter A
  running left buffer p = record {
    limit = limit;
    left = left;
    buffer = buffer;
    buf_pos = p;
    done = false;
    initialized = true;
  }

  abbrev pub run : ℕ → RequestIter A → List A → List (List A) → Option (List A × Option Err)
  run = collect none (some load_page)

  -- What `collect` does from `running` on.
  abbrev Collects : ℕ → Type 0
  Collects fuel =
      (left : ℤ) (buffer : List A) (p : ℕ) (pages : List (List A)) (out : List A)
      → left ≢ pos 0
      → length (limited left (drop p buffer ++ stream pages)) < fuel
      → run fuel (running left buffer p) out pages
        ≡ some (out ++ limited left (drop p buffer ++ stream pages), none)

  collect-served :
      (fuel : ℕ)
      → Collects fuel
      → (left : ℤ) (buffer : List A) (p : ℕ) (a : A) (pages : List (List A)) (out : List A)
      → left ≢ pos 0
      → length (limited left (a ∷ drop (suc p) buffer ++ stream pages)) < suc fuel
      → run fuel (serve {Err = Err} (running left buffer p) a).1 (out ++ a ∷ []) pages
        ≡ some (out ++ limited left (a ∷ drop (suc p) buffer ++ stream pages), none)
  unfolding serve count_down collect next gather
  collect-served fuel ih (negsuc n) buffer p a pages out ne few =
      ih (negsuc n) buffer (suc p) pages (out ++ a ∷ []) (λ e. cc) (omega arith)
      ∙ ap (λ xs. some (xs, none)) (append_assoc out (a ∷ []) _)
  collect-served fuel ih (pos zero) buffer p a pages out ne few = absurd (ne refl)
  collect-served zero ih (pos (suc zero)) buffer p a pages out ne few = absurd (omega arith)
  collect-served (suc fuel) ih (pos (suc zero)) buffer p a pages out ne few = refl
  collect-served fuel ih (pos (suc (suc n))) buffer p a pages out ne few =
      ih (pos (suc n)) buffer (suc p) pages (out ++ a ∷ []) (λ e. cc) (omega arith)
      ∙ ap (λ xs. some (xs, none)) (append_assoc out (a ∷ []) _)

  -- The page that the next round works on.
  turned : (left : ℤ) (pages : List (List A)) → (Step A Err × RequestIter A) × List (List A)
  turned left [] = (finish (running left [] 0), [])
  turned left ([] ∷ pages) = (finish (running left [] 0), pages)
  turned left ((a ∷ page) ∷ pages) = (serve (running left (a ∷ page) 0) a, pages)

  limited-nil : (left : ℤ) → limited {A = A} left [] ≡ []
  limited-nil (negsuc n) = refl
  limited-nil (pos zero) = refl
  limited-nil (pos (suc n)) = refl

  collect-turned :
      (fuel : ℕ)
      → Collects fuel
      → (left : ℤ) (pages : List (List A)) (out : List A) → left ≢ pos 0
      → length (limited left (stream pages)) < suc fuel
      → gather (run fuel) out (turned left pages) ≡ some (out ++ limited left (stream pages), none)
  unfolding turned gather finish serve
  collect-turned fuel ih left [] out ne few =
      rw (limited-nil left) (ap (λ xs. some (xs, none)) (sym (append-nil out)))
  collect-turned fuel ih left ([] ∷ pages) out ne few =
      rw (limited-nil left) (ap (λ xs. some (xs, none)) (sym (append-nil out)))
  collect-turned fuel ih left ((a ∷ page) ∷ pages) out ne few =
      collect-served fuel ih left (a ∷ page) 0 a pages out ne few

  refill-turned :
      (left : ℤ) (buffer : List A) (p : ℕ) (pages : List (List A))
      → left ≢ pos 0
      → refill none (some load_page) (running left buffer p) left pages ≡ turned left pages
  unfolding refill fetch first_of_page turned
  refill-turned (negsuc n) buffer p [] ne = refl
  refill-turned (negsuc n) buffer p ([] ∷ pages) ne = refl
  refill-turned (negsuc n) buffer p ((a ∷ page) ∷ pages) ne = refl
  refill-turned (pos zero) buffer p pages ne = absurd (ne refl)
  refill-turned (pos (suc n)) buffer p [] ne = refl
  refill-turned (pos (suc n)) buffer p ([] ∷ pages) ne = refl
  refill-turned (pos (suc n)) buffer p ((a ∷ page) ∷ pages) ne = refl

  next-serve :
      (left : ℤ) (buffer : List A) (p : ℕ) (a : A) (pages : List (List A))
      → get_elem? buffer p ≡ some a
      → next none (some load_page) (running left buffer p) pages
        ≡ (serve {Err = Err} (running left buffer p) a, pages)
  unfolding next serve_or_refill
  next-serve left buffer p a pages e = rw e

  next-refill :
      (left : ℤ) (buffer : List A) (p : ℕ) (pages : List (List A))
      → left ≢ pos 0
      → get_elem? buffer p ≡ none
      → next none (some load_page) (running left buffer p) pages ≡ turned left pages
  unfolding next serve_or_refill
  next-refill left buffer p pages ne e = rw e (refill-turned left buffer p pages ne)

  collect-running : (fuel : ℕ) → Collects fuel
  unfolding collect gather serve
  collect-running zero left buffer p pages out ne few = absurd (omega arith)
  collect-running (suc fuel) left buffer p pages out ne few =
      elim (Option-cases (get_elem? buffer p)) [
        | inl e ↦ rw (drop-none buffer p e) (
            ap (gather (run fuel) out) (next-refill left buffer p pages ne e)
            ∙ collect-turned fuel (collect-running fuel) left pages out ne
                (rw (drop-none buffer p e) at few))
        | inr (a, e) ↦ rw (drop-some buffer p e) (
            ap (gather (run fuel) out) (next-serve left buffer p a pages e)
            ∙ collect-served fuel (collect-running fuel) left buffer p a pages out ne
                (rw (drop-some buffer p e) at few))
      ]

  next-new :
      (pages : List (List A))
      → next none (some load_page) (new_request_iter limit) pages
        ≡ turned (if leb_ℤ limit (pos 0) then negsuc 0 else limit) pages
  unfolding next initialize serve_or_refill
  next-new pages = refill-turned _ [] 0 pages (left-positive limit)

  -- `Collect` on a new iterator with no init function, whose loader hands out the given pages and then
  -- empty ones, returns no error and exactly the items of the pages before the first
  -- empty page, cut to the first `limit` of them when `limit` is positive, provided that the fuel is
  -- more than the number of these items.
  pub collect-limited :
      (fuel : ℕ) (pages : List (List A))
      → length (limited limit (stream pages)) < fuel
      → run fuel (new_request_iter limit) [] pages ≡ some (limited limit (stream pages), none)
  unfolding collect
  collect-limited zero pages few = absurd (omega arith)
  collect-limited (suc fuel) pages few =
      ap (gather (run fuel) []) (next-new pages)
      ∙ collect-turned fuel (collect-running fuel) _ pages [] (left-positive limit)
          (rw (limited-left limit (stream pages)) few)
      ∙ ap (λ xs. some (xs, none)) (limited-left limit (stream pages))
