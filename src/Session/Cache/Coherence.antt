-- ===== src/Session/Cache/Coherence.antt =====
-- The cache of CachedSessionStorage against the storage that it wraps.
use telegram_mcub_go.Base.{
  Bool, true, false, if◌then◌else◌, List, [], ◌∷◌, Option, none, some, ◌≡◌, ◌≢◌, refl, sym, ap, ◌∙◌,
  ◌⊎◌, inl, inr,
}
use telegram_mcub_go.Session.Cache.{
  Bytes, Storage, memory_load, memory_store, memory_storage, Cached, new_cached, after_load,
  remember, load_from, cached_load, after_store, cached_store, invalidate,
}

cons-nonempty : {A : Type 0} {a : A} {tail : List A} → (a ∷ tail) ≢ []
cons-nonempty e = cc

-- The calls that a client makes.
pub data Op : Type 0 where
  load : Op
  store : Bytes → Op
  invalidate_cache : Op

-- What a call returns.
pub data Reply (Err : Type 0) : Type 0 where
  loaded : Option Err → Bytes → Reply Err
  stored : Option Err → Reply Err
  done : Reply Err

module _ {S Err : Type 0} (storage : Storage S Err) where
  -- A storage as documented: a load does not change what it holds and returns it, and a store that
  -- succeeds replaces it; a store that fails may leave anything. `contents` reads the state.
  pub record IsStorage (contents : S → Bytes) : Type 0 where
    pub load_returns :
        (s : S) (bytes : Bytes) (s' : S) → storage.load s ≡ ((none, bytes), s') → bytes ≡ contents s
    pub load_keeps : (s : S) → contents (storage.load s).1 ≡ contents s
    pub store_writes :
        (s : S) (bytes : Bytes) (s' : S) → storage.store bytes s ≡ (none, s') → contents s' ≡ bytes

  -- The cache is empty or holds what the storage holds.
  abbrev pub IsCoherent : (S → Bytes) → Cached S → Type 0
  IsCoherent contents c = (c.cached ≡ []) ⊎ (c.cached ≡ contents c.inner)

  pub run_op : Op → Cached S → Reply Err × Cached S
  run_op load c = let r = cached_load storage c in (loaded r.0.0 r.0.1, r.1)
  run_op (store bytes) c = let r = cached_store storage bytes c in (stored r.0, r.1)
  run_op invalidate_cache c = (done, invalidate storage c)

  -- A correct answer of a storage that holds the given bytes.
  abbrev pub IsAnswer : Bytes → Reply Err → Type 0
  IsAnswer held (loaded none bytes) = bytes ≡ held
  IsAnswer held (loaded (some err) bytes) = bytes ≡ []
  IsAnswer held (stored err) = Unit
  IsAnswer held done = Unit

  -- After a store that succeeds and after Invalidate the cache is known to agree with the storage;
  -- after a store that fails it is not; a load changes nothing of that.
  abbrev pub agrees_after : Bool → Reply Err → Bool
  agrees_after agrees (loaded err bytes) = agrees
  agrees_after agrees (stored none) = true
  agrees_after agrees (stored (some err)) = false
  agrees_after agrees done = true

  -- In a row of calls, each made while the cache agrees is answered correctly.
  abbrev pub AllAnswered : (S → Bytes) → Bool → Cached S → List Op → Type 0
  AllAnswered contents agrees c [] = Unit {0}
  AllAnswered contents agrees c (op ∷ ops) =
      (if agrees then IsAnswer (contents c.inner) (run_op op c).0 else Unit {0})
      × AllAnswered contents (agrees_after agrees (run_op op c).0) (run_op op c).1 ops

  after_load-lem :
      {contents : S → Bytes}
      → IsStorage contents
      → (s : S) → (r : (Option Err × Bytes) × S) → storage.load s ≡ r
      → IsAnswer (contents s) (loaded (after_load storage [] r).0.0 (after_load storage [] r).0.1)
        × IsCoherent contents (after_load storage [] r).1
  unfolding after_load remember
  after_load-lem {contents = contents} laws s ((some err, bytes), s') e = (refl, inl refl)
  after_load-lem {contents = contents} laws s ((none, []), s') e =
      (laws.load_returns s [] s' e, inl refl)
  after_load-lem {contents = contents} laws s ((none, b ∷ bytes), s') e =
      let kept = sym (ap contents (ap (λ r. r.1) e)) ∙ laws.load_keeps s in
      let returned = laws.load_returns s (b ∷ bytes) s' e in (returned, inr (returned ∙ sym kept))

  load_from-lem :
      {contents : S → Bytes}
      → IsStorage contents
      → (cached : Bytes) (s : S) → (cached ≡ []) ⊎ (cached ≡ contents s)
      → IsAnswer
          (contents s)
          (loaded (load_from storage cached s).0.0 (load_from storage cached s).0.1)
        × IsCoherent contents (load_from storage cached s).1
  unfolding load_from
  load_from-lem laws [] s h = after_load-lem laws s (storage.load s) refl
  load_from-lem laws (b ∷ cached) s (inl e) = absurd (cons-nonempty e)
  load_from-lem laws (b ∷ cached) s (inr e) = (e, inr e)

  -- A store that succeeds makes any cache agree.
  after_store-lem :
      {contents : S → Bytes}
      → IsStorage contents
      → (bytes cached : Bytes) (s : S) (r : Option Err × S) → storage.store bytes s ≡ r
      → agrees_after false (stored (after_store storage cached bytes r).0) ≡ true
      → IsCoherent contents (after_store storage cached bytes r).1
  unfolding after_store
  after_store-lem laws bytes cached s (some err, s') e ok = cc
  after_store-lem laws bytes cached s (none, s') e ok = inr (sym (laws.store_writes s bytes s' e))

  run_op-lem :
      {contents : S → Bytes}
      → IsStorage contents
      → (op : Op) (c : Cached S) → IsCoherent contents c
      → IsAnswer (contents c.inner) (run_op op c).0
  unfolding run_op cached_load
  run_op-lem laws load c h = (load_from-lem laws c.cached c.inner h).0
  run_op-lem laws (store bytes) c h = tt
  run_op-lem laws invalidate_cache c h = tt

  run_op-IsCoherent :
      {contents : S → Bytes}
      → IsStorage contents
      → (op : Op) (agrees : Bool) (c : Cached S) → (agrees ≡ true → IsCoherent contents c)
      → agrees_after agrees (run_op op c).0 ≡ true
      → IsCoherent contents (run_op op c).1
  unfolding run_op cached_load cached_store invalidate
  run_op-IsCoherent laws load agrees c h ok = (load_from-lem laws c.cached c.inner (h ok)).1
  run_op-IsCoherent laws (store bytes) agrees c h ok =
      after_store-lem laws bytes c.cached c.inner _ refl
        (store_agrees (after_store storage c.cached bytes (storage.store bytes c.inner)).0 ok)
    where
      store_agrees :
          (err : Option Err)
          → agrees_after agrees (stored err) ≡ true
          → agrees_after false (stored err) ≡ true
      store_agrees none ok = refl
      store_agrees (some err) ok = ok
  run_op-IsCoherent laws invalidate_cache agrees c h ok = inl refl

  run_ops-AllAnswered :
      {contents : S → Bytes}
      → IsStorage contents
      → (agrees : Bool) (c : Cached S) (ops : List Op) → (agrees ≡ true → IsCoherent contents c)
      → AllAnswered contents agrees c ops
  run_ops-AllAnswered laws agrees c [] h = tt
  run_ops-AllAnswered {contents = contents} laws agrees c (op ∷ ops) h = (
    first agrees h,
    run_ops-AllAnswered laws (agrees_after agrees (run_op op c).0) (run_op op c).1 ops
        (run_op-IsCoherent laws op agrees c h),
  )
    where
      first :
          (agrees : Bool)
          → (agrees ≡ true → IsCoherent contents c)
          → if agrees then IsAnswer (contents c.inner) (run_op op c).0 else Unit {0}
      first true h = run_op-lem laws op c (h refl)
      first false h = tt

  -- Over a storage whose loads return what it holds and change nothing, and whose stores replace it
  -- when they succeed and may leave anything when they fail: in any row of calls on a new cache, each
  -- load that returns no error returns what the storage holds then, and a load with an error no
  -- bytes, except for the loads after a store that failed, up to the next store that succeeds or the
  -- next Invalidate.
  pub new_cached-AllAnswered :
      {contents : S → Bytes}
      → IsStorage contents
      → (s : S) (ops : List Op) → AllAnswered contents true (new_cached storage s) ops
  unfolding new_cached
  new_cached-AllAnswered laws s ops =
      run_ops-AllAnswered laws true (new_cached storage s) ops (λ _. inl refl)

memory_load-eq : {Err : Type 0} (held : Bytes) → memory_load {Err = Err} held ≡ ((none, held), held)
unfolding memory_load
memory_load-eq [] = refl
memory_load-eq (b ∷ held) = refl

-- MemorySessionStorage is such a storage.
pub memory_storage-IsStorage :
    {Err : Type 0} → IsStorage (memory_storage {Err = Err}) (λ held. held)
unfolding memory_storage memory_store
memory_storage-IsStorage = record {
  load_returns = λ held bytes s' e. ap (λ r. r.0.1) (sym e ∙ memory_load-eq held);
  load_keeps = λ held. ap (λ r. r.1) (memory_load-eq held);
  store_writes = λ held bytes s' e. sym (ap (λ r. r.1) e);
}
