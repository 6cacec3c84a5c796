-- ===== src/Client/Download.antt =====
-- client/downloads.go, DownloadFile: fetching a file in chunks, with the progress saved for a later
-- run. `W` is what the calls act on; a file on disk is its bytes; the state store holds the state
-- under the download's one key. The errors of the operating system are parameters, and what a failed
-- call leaves on the disk is written out. The progress function is not modelled.
pub mod Slices
pub mod Kept
pub mod Progress
mod Tests
use telegram_mcub_go.Base.{
  ℕ, zero, suc, ◌+◌, List, [], ◌∷◌, ◌++◌, Bool, true, false, Option, none, some, length, take, ltb,
  ◌⊎◌, inl, inr, if◌then◌else◌, ℤ, pos, negsuc,
}

abbrev pub Bytes : Type 0
Bytes = List ℕ

-- `session.ResumeState`, the fields that the code reads back.
pub record ResumeState : Type 0 where
  pub bytes_done : ℕ
  pub completed : Bool

-- What the store's file holds: `torn` is a file that a failed write left empty or cut off, which is
-- no JSON.
pub data Saved : Type 0 where
  missing : Saved
  saved : ResumeState → Saved
  torn : Saved

-- `store` is none without a state store.
pub record Disk : Type 0 where
  pub dest : Bytes
  pub store : Option Saved

-- What UploadGetFile returns: an error, the file's bytes, or another result type.
pub data Reply (Err : Type 0) : Type 0 where
  fails : Err → Reply Err
  file : Bytes → Reply Err
  unexpected : Reply Err

pub data Failure (Err : Type 0) : Type 0 where
  read_state : Err → Failure Err
  unmarshal_state : Failure Err
  open_dest_file : Err → Failure Err
  download_chunk : ℕ → Err → Failure Err
  unexpected_result : Failure Err
  write_chunk : Err → Failure Err

-- What a failed os.WriteFile of the state leaves: the file as it was, a part of the new text, or all
-- of it.
pub data Wreck : Type 0 where
  untouched : Wreck
  cut_off : Wreck
  whole : Wreck

-- The calls of gotd and of the operating system. Each says how it fails, if it does: `write_file`
-- with the number of bytes that it has written before the error. An open that fails leaves the file.
pub record Calls (W Err : Type 0) : Type 0 where
  pub upload_get_file : ℕ → ℕ → W → Reply Err × W
  pub read_state_file : W → Option Err × W
  pub open_file : W → Option Err × W
  pub write_file : Bytes → W → Option (ℕ × Err) × W
  pub write_state_file : W → Option Wreck × W

-- `if params.PartSize <= 0 { 512 * 1024 }`
pub part_size : ℤ → ℕ
part_size (negsuc n) = 524288
part_size (pos zero) = 524288
part_size (pos (suc n)) = suc n

-- `f.Write`, at the end of the file.
abbrev pub write : Bytes → Disk → Disk
write bytes disk = record disk { dest = disk.dest ++ bytes }

after_save : Saved → ResumeState → Option Wreck → Saved
after_save previous state none = saved state
after_save previous state (some untouched) = previous
after_save previous state (some cut_off) = torn
after_save previous state (some whole) = saved state

-- O_APPEND or O_TRUNC.
abbrev pub open_dest : ℕ → Disk → Disk
open_dest zero disk = record disk { dest = [] }
open_dest (suc n) disk = disk

-- `state != nil && !state.Completed`
abbrev pub offset_of : Option ResumeState → ℕ
offset_of none = 0
offset_of (some state) = if state.completed then 0 else state.bytes_done

-- How a run ends: its error or nil, and what it leaves. `none` is that the fuel ran out.
abbrev pub Outcome : Type 0 → Type 0 → Type 0
Outcome W Err = Option (Option (Failure Err) × (Disk × W))

module _ {W Err : Type 0} (calls : Calls W Err) where
  -- `if params.StateStore != nil { _ = Save(...) }`
  pub save : ResumeState → Disk → W → Disk × W
  save state disk w = elim disk.store [
    | none ↦ (disk, w)
    | some previous ↦ (
      record disk { store = some (after_save previous state (calls.write_state_file w).0) },
      (calls.write_state_file w).1,
    )
  ]

  abbrev pub mark_complete : ℕ → Disk → W → Disk × W
  mark_complete bytes_done = save (record { bytes_done = bytes_done; completed = true })

  abbrev pub mark_progress : ℕ → Disk → W → Disk × W
  mark_progress bytes_done = save (record { bytes_done = bytes_done; completed = false })

  module _ (limit : ℕ) where
    -- The rest of a round after `f.Write` of a chunk; `more` is the next round.
    pub on_write :
        (ℕ → Disk → W → Outcome W Err) → ℕ → Bytes → Disk → Option (ℕ × Err) × W → Outcome W Err
    on_write more offset bytes disk (some (n, err), w) =
        some (some (write_chunk err), (write (take n bytes) disk, w))
    on_write more offset bytes disk (none, w) =
        let next = offset + length bytes in
        let written = write bytes disk in
        let marked = mark_progress next written w in
        let later = more next marked.0 marked.1 in
        if ltb (length bytes) limit then some (none, mark_complete next written w) else later

    -- One round of the loop on a reply.
    pub on_reply : (ℕ → Disk → W → Outcome W Err) → ℕ → Disk → Reply Err × W → Outcome W Err
    on_reply more offset disk (fails err, w) =
        some (some (download_chunk offset err), mark_progress offset disk w)
    on_reply more offset disk (unexpected, w) = some (some unexpected_result, (disk, w))
    on_reply more offset disk (file [], w) = some (none, mark_complete offset disk w)
    on_reply more offset disk (file (b ∷ bytes), w) =
        on_write more offset (b ∷ bytes) disk (calls.write_file (b ∷ bytes) w)

    -- The loop, on fuel.
    pub fetch_loop : ℕ → ℕ → Disk → W → Outcome W Err
    fetch_loop zero offset disk w = none
    fetch_loop (suc fuel) offset disk w =
        on_reply (fetch_loop fuel) offset disk (calls.upload_get_file offset limit w)

    -- `os.OpenFile`, and the loop from `startOffset`.
    pub fetch_from : ℕ → ℕ → Disk → W → Outcome W Err
    fetch_from fuel offset disk w = elim (calls.open_file w).0 [
      | some err ↦ some (some (open_dest_file err), (disk, (calls.open_file w).1))
      | none ↦ fetch_loop fuel offset (open_dest offset disk) (calls.open_file w).1
    ]

  -- `json.Unmarshal` of what the file holds, or nil where there is none.
  pub unmarshal : Saved → Failure Err ⊎ Option ResumeState
  unmarshal missing = inr none
  unmarshal (saved state) = inr (some state)
  unmarshal torn = inl unmarshal_state

  -- `StateStore.Load`
  pub load : Saved → W → (Failure Err ⊎ Option ResumeState) × W
  load state w = elim (calls.read_state_file w).0 [
    | some err ↦ (inl (read_state err), (calls.read_state_file w).1)
    | none ↦ (unmarshal state, (calls.read_state_file w).1)
  ]

  -- What follows `params.Resume && params.StateStore != nil`.
  pub resume_from : ℕ → ℕ → Disk → (Failure Err ⊎ Option ResumeState) × W → Outcome W Err
  resume_from size fuel disk (inl err, w) = some (some err, (disk, w))
  resume_from size fuel disk (inr state, w) = fetch_from size fuel (offset_of state) disk w

  pub download_file : ℤ → Bool → ℕ → Disk → W → Outcome W Err
  download_file size false fuel disk w = fetch_from (part_size size) fuel 0 disk w
  download_file size true fuel disk w = elim disk.store [
    | none ↦ fetch_from (part_size size) fuel 0 disk w
    | some state ↦ resume_from (part_size size) fuel disk (load state w)
  ]
