-- ===== src/Session/Cache/Tests.antt =====
-- The cache over a storage with room for two bytes, in which a longer session leaves nothing.
use telegram_mcub_go.Base.{
  ℕ, [], ◌∷◌, List, true, none, some, ltb, if◌then◌else◌, length, refl, sym, ap, arith,
}
use telegram_mcub_go.Session.Cache.{Bytes, Storage, new_cached}
use telegram_mcub_go.Session.Cache.Coherence.{
  Op, load, store, invalidate_cache, IsStorage, AllAnswered, new_cached-AllAnswered,
}

abbrev small : Storage Bytes ℕ
small = record {
  load = λ held. ((none, held), held);
  store = λ bytes held. if ltb 2 (length bytes) then (some 28, []) else (none, bytes);
}

small-IsStorage : IsStorage small (λ held. held)
small-IsStorage = record {
  load_returns = λ s bytes s' e. sym (ap (λ r. r.0.1) e);
  load_keeps = λ s. refl;
  store_writes = λ s bytes s' e. ground arith;
}

abbrev calls : List Op
calls =
    load ∷ store (1 ∷ 2 ∷ []) ∷ load ∷ store (3 ∷ 4 ∷ 5 ∷ []) ∷ load ∷ invalidate_cache ∷ load ∷ []

new_cached-AllAnswered_example :
    AllAnswered small (λ held. held) true (new_cached small (7 ∷ [])) calls
new_cached-AllAnswered_example = new_cached-AllAnswered small small-IsStorage (7 ∷ []) calls
