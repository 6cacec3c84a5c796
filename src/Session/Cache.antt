-- ===== src/Session/Cache.antt =====
-- session/session.go, MemorySessionStorage and CachedSessionStorage. A session is its bytes; the
-- slices are copied at every boundary, so a value stands for them. Calls come one after the other.
-- `nil` and an empty slice are both the empty list, as `len` sees them.
pub mod Coherence
mod Tests
use telegram_mcub_go.Base.{ℕ, List, [], ◌∷◌, Option, none, some}

abbrev pub Bytes : Type 0
Bytes = List ℕ

-- gotd's `session.Storage` in a state `S`: a load gives the bytes or an error, a store an error or
-- nil.
pub record Storage (S Err : Type 0) : Type 0 where
  pub load : S → (Option Err × Bytes) × S
  pub store : Bytes → S → Option Err × S

-- MemorySessionStorage; its state is `data`.
pub memory_load : {Err : Type 0} → Bytes → (Option Err × Bytes) × Bytes
memory_load [] = ((none, []), [])
memory_load (b ∷ bytes) = ((none, b ∷ bytes), b ∷ bytes)

pub memory_store : {Err : Type 0} → Bytes → Bytes → Option Err × Bytes
memory_store bytes held = (none, bytes)

pub memory_storage : {Err : Type 0} → Storage Bytes Err
memory_storage = record { load = memory_load; store = memory_store }

-- CachedSessionStorage, with the state of the storage inside.
pub record Cached (S : Type 0) : Type 0 where
  pub inner : S
  pub cached : Bytes

module _ {S Err : Type 0} (storage : Storage S Err) where
  pub new_cached : S → Cached S
  new_cached s = record { inner = s; cached = [] }

  -- `if len(bytes) > 0 { c.cached = bytes }`
  remember : Bytes → Bytes → Bytes
  remember cached [] = cached
  remember cached (b ∷ bytes) = b ∷ bytes

  after_load : Bytes → (Option Err × Bytes) × S → (Option Err × Bytes) × Cached S
  after_load cached ((some err, bytes), s) = ((some err, []), record { inner = s; cached = cached })
  after_load cached ((none, bytes), s) =
      ((none, bytes), record { inner = s; cached = remember cached bytes })

  load_from : Bytes → S → (Option Err × Bytes) × Cached S
  load_from [] s = after_load [] (storage.load s)
  load_from (b ∷ cached) s = ((none, b ∷ cached), record { inner = s; cached = b ∷ cached })

  pub cached_load : Cached S → (Option Err × Bytes) × Cached S
  cached_load c = load_from c.cached c.inner

  after_store : Bytes → Bytes → Option Err × S → Option Err × Cached S
  after_store cached bytes (some err, s) = (some err, record { inner = s; cached = cached })
  after_store cached bytes (none, s) = (none, record { inner = s; cached = bytes })

  pub cached_store : Bytes → Cached S → Option Err × Cached S
  cached_store bytes c = after_store c.cached bytes (storage.store bytes c.inner)

  pub invalidate : Cached S → Cached S
  invalidate c = record c { cached = [] }
