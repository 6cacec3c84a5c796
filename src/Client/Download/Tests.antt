-- ===== src/Client/Download/Tests.antt =====
-- A file of five bytes, of which an earlier run left three, a server that fails a number of times, a
-- disk with room for four bytes, and a store whose writes leave half a file.
use telegram_mcub_go.Base.{ℕ, zero, suc, [], ◌∷◌, false, some, none, take, drop}
use telegram_mcub_go.Client.Download.{Bytes, Reply, fails, file, Disk, saved, cut_off, Calls}

abbrev content : Bytes
content = 10 ∷ 20 ∷ 30 ∷ 40 ∷ 50 ∷ []

-- The world counts the calls that fail from now on.
abbrev serve : ℕ → ℕ → ℕ → Reply ℕ × ℕ
serve offset limit zero = (file (take limit (drop offset content)), zero)
serve offset limit (suc n) = (fails 420, n)

abbrev full_disk : Calls ℕ ℕ
full_disk = record {
  upload_get_file = serve;
  read_state_file = λ w. (none, w);
  open_file = λ w. (none, w);
  write_file = λ bytes w. (some (1, 28), w);
  write_state_file = λ w. (some cut_off, w);
}

abbrev resumed : Disk
resumed = record {
  dest = 10 ∷ 20 ∷ 30 ∷ [];
  store = some (saved (record { bytes_done = 3; completed = false }));
}
