-- ===== src/Client/Upload/Tests.antt =====
-- Five bytes in parts of two, resumed after the first part.
use telegram_mcub_go.Base.{
  ℕ, ◌+◌, ◌*◌, ◌≡◌, ◌≤◌, ◌<◌, ◌⊎◌, List, [], ◌∷◌, arith, true, false, some, pos,
}
use telegram_mcub_go.Client.Upload.{
  is_big, part_size, uploaded, input_file, UploadState, Progress, upload_file,
}
use telegram_mcub_go.Client.Upload.Parts.{accepts, file, parts, upload_file-parts}

abbrev five_bytes : List ℕ
five_bytes = 1 ∷ 2 ∷ 3 ∷ 4 ∷ 5 ∷ []

abbrev one_part_done : UploadState
one_part_done = record { bytes_done = 2; parts_done = 1; file_id = 77; completed = false }

upload_file-parts_example :
    (k : ℕ) × (p : Progress) × (upload_file {Err = ℕ} accepts 6
        (pos 2)
        true
        5
        (file five_bytes 5)
        (some (some one_part_done))
        []
      ≡ some (uploaded (input_file 77 (1 + k)), p, parts false 77 2 five_bytes 1 k))
    × (3 ≤ k * 2)
    × ((k ≡ 0) ⊎ (k * 2 < 3 + 2))
unfolding is_big part_size
upload_file-parts_example =
    upload_file-parts 6 (pos 2) true 5 5 five_bytes (some (some one_part_done)) [] (omega arith)
