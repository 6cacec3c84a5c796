-- ===== src/Client/Upload.antt =====
-- client/uploads.go, uploadFile. What the code reads from is a list of bytes and what reading on from
-- its end returns, and whether it can seek; the calls of gotd are a parameter, over any world.
pub mod Parts
mod Tests
use telegram_mcub_go.Base.{
  ℕ, zero, suc, ◌+◌, ◌*◌, List, [], ◌∷◌, ◌++◌, length, take, drop, Bool, true, false, not, ◌&&◌,
  Option, none, some, if◌then◌else◌, ltb, leb, ℤ, pos, negsuc, leb_ℤ, pos_part,
}
use telegram_mcub_go.Helpers.Utf16.{Text}

-- The reader. `end` is the error behind the last byte, `none` is io.EOF; `size` is the file's, and 0 for
-- a Reader of the caller.
pub record Source (Err : Type 0) : Type 0 where
  pub content : List ℕ
  pub end : Option Err
  pub seekable : Bool
  pub size : ℕ

-- The fields of `ResumeState` that an upload sets and reads.
pub record UploadState : Type 0 where
  pub bytes_done : ℕ
  pub parts_done : ℕ
  pub file_id : ℕ
  pub completed : Bool

-- `UploadSaveBigFilePartRequest`, whose total is always -1, and `UploadSaveFilePartRequest`.
pub data PartRequest : Type 0 where
  save_big_file_part : (file_id file_part : ℕ) → List ℕ → PartRequest
  save_file_part : (file_id file_part : ℕ) → List ℕ → PartRequest

-- `tg.InputFileBig` and `tg.InputFile`, by identifier and number of parts.
pub data InputFile : Type 0 where
  input_file_big : (file_id parts : ℕ) → InputFile
  input_file : (file_id parts : ℕ) → InputFile

pub data Upload (Err : Type 0) : Type 0 where
  uploaded : InputFile → Upload Err
  read_part : ℕ → Err → Upload Err
  upload_part : ℕ → Err → Upload Err

unfoldable pub part_size : ℤ → ℕ
part_size n = if leb_ℤ n (pos 0) then 524288 else pos_part n

unfoldable pub is_big : ℕ → Bool
is_big file_size = ltb 10485760 file_size

abbrev pub part_request : Bool → ℕ → ℕ → List ℕ → PartRequest
part_request true file_id file_part bytes = save_big_file_part file_id file_part bytes
part_request false file_id file_part bytes = save_file_part file_id file_part bytes

abbrev pub finished_file : Bool → ℕ → ℕ → InputFile
finished_file true file_id parts = input_file_big file_id parts
finished_file false file_id parts = input_file file_id parts

-- What the loop changes: the rest of the content, the part's number, the bytes counted, and the saved
-- state, if there is a store.
pub record Progress : Type 0 where
  pub rest : List ℕ
  pub part_index : ℕ
  pub total_uploaded : ℕ
  pub saved : Option (Option UploadState)

-- The store; `none` is that there is none.
abbrev pub save : UploadState → Option (Option UploadState) → Option (Option UploadState)
save state none = none
save state (some old) = some (some state)

-- After a part of `chunk`.
abbrev pub advance : ℕ → List ℕ → List ℕ → Progress → Progress
advance file_id chunk rest p =
    let total = p.total_uploaded + length chunk in
    record {
      rest = rest;
      part_index = suc p.part_index;
      total_uploaded = total;
      saved =
          save
            (record {
              bytes_done = total;
              parts_done = suc p.part_index;
              file_id = file_id;
              completed = false;
            })
            p.saved;
    }

-- A state to resume from, if there is one that is not completed.
abbrev pub resumable : Bool → Option (Option UploadState) → Option UploadState
resumable true (some (some state)) = if state.completed then none else some state
resumable true (some none) = none
resumable true none = none
resumable false saved = none

abbrev pub start :
    {Err : Type 0} → ℕ → Source Err → Option (Option UploadState) → Option UploadState → Progress
start size src saved none = record {
  rest = src.content;
  part_index = 0;
  total_uploaded = 0;
  saved = saved;
}
start size src saved (some state) = record {
  rest = if src.seekable then drop (state.parts_done * size) src.content else src.content;
  part_index = state.parts_done;
  total_uploaded = state.parts_done * size;
  saved = saved;
}

abbrev pub file_id_of : ℕ → Option UploadState → ℕ
file_id_of fresh none = fresh
file_id_of fresh (some state) = state.file_id

module _ {W Err : Type 0} (api : PartRequest → W → Option Err × W) (big : Bool) (file_id size : ℕ)
    (end : Option Err) where
  -- The calls and what follows them; `more` is the rest of the loop.
  abbrev pub send :
      List ℕ
      → Progress
      → (Progress → W → Option (Upload Err × Progress × W))
      → Progress
      → Option Err × W
      → Option (Upload Err × Progress × W)
  send chunk p more after (some e, w) = some (upload_part p.part_index e, p, w)
  send chunk p more after (none, w) = more after w

  abbrev pub stop : Progress → W → Option (Upload Err × Progress × W)
  stop p w = some (uploaded (finished_file big file_id p.part_index), p, w)

  -- A part that the content does not fill; nothing is left behind it.
  abbrev pub last_part : List ℕ → Option Err → Progress → W → Option (Upload Err × Progress × W)
  last_part rest (some e) p w = some (read_part p.part_index e, p, w)
  last_part [] none p w = stop p w
  last_part (b ∷ rest) none p w =
      send (b ∷ rest) p stop (advance file_id (b ∷ rest) [] p)
        (api (part_request big file_id p.part_index (b ∷ rest)) w)

  -- `none` is a loop that has not ended within the fuel.
  unfoldable pub upload_loop : ℕ → Progress → W → Option (Upload Err × Progress × W)
  upload_loop zero p w = none
  upload_loop (suc fuel) p w =
      let chunk = take size p.rest in
      let full =
        send chunk p (upload_loop fuel) (advance file_id chunk (drop size p.rest) p)
          (api (part_request big file_id p.part_index chunk) w) in
      if leb size (length p.rest) then full else last_part p.rest end p w

-- The state that is saved when the file is complete has no file identifier.
abbrev pub complete : {Err : Type 0} → Upload Err → Progress → Progress
complete (uploaded file) p = record p {
  saved =
      save
        (record {
          bytes_done = p.total_uploaded;
          parts_done = p.part_index;
          file_id = 0;
          completed = true;
        })
        p.saved;
}
complete result p = p

abbrev pub completed_upload :
    {W Err : Type 0} → Option (Upload Err × Progress × W) → Option (Upload Err × Progress × W)
completed_upload none = none
completed_upload (some (result, p, w)) = some (result, complete result p, w)

module _ {W Err : Type 0} (api : PartRequest → W → Option Err × W) where
  unfoldable pub upload_file :
      ℕ
      → ℤ
      → (resume : Bool) → (fresh : ℕ) → Source Err
      → Option (Option UploadState)
      → W
      → Option (Upload Err × Progress × W)
  upload_file fuel requested resume fresh src saved w =
      let size = part_size requested in
      let state = resumable resume saved in
      completed_upload (
        upload_loop api (is_big src.size) (file_id_of fresh state) size src.end fuel
          (start size src saved state) w)
