-- ===== src/Utils/Chunks.antt =====
-- utils/utils.go, Chunks, ConcatBytes and GetAppropriatedPartSize.
pub mod Laws
mod Tests
use telegram_mcub_go.Base.{
  ℕ, zero, suc, ◌+◌, List, [], ◌∷◌, ◌++◌, Bool, true, false, Option, none, some, length, take, drop,
  ltb, leb, if◌then◌else◌, ℤ, pos, negsuc, leb_ℤ,
}

module _ {A : Type 0} where
  -- `end := size; if end > len(items) { end = len(items) }`
  abbrev pub end_of : ℕ → List A → ℕ
  end_of size items = if ltb (length items) size then length items else size

  -- The loop, on fuel: `none` is that the fuel ran out.
  pub chunk_loop : ℕ → ℕ → List A → List (List A) → Option (List (List A))
  chunk_loop zero size items chunks = none
  chunk_loop (suc fuel) size [] chunks = some chunks
  chunk_loop (suc fuel) size (a ∷ items) chunks =
      chunk_loop fuel size (drop (end_of size (a ∷ items)) (a ∷ items))
        (chunks ++ take (end_of size (a ∷ items)) (a ∷ items) ∷ [])

  -- A `size` that is not positive gives nil; the fuel is one round per item and one more.
  pub chunks : List A → ℤ → Option (List (List A))
  chunks items (negsuc n) = some []
  chunks items (pos zero) = some []
  chunks items (pos (suc n)) = chunk_loop (suc (length items)) (suc n) items []

  -- `ConcatBytes`: the slices appended in order.
  concat_loop : List (List A) → List A → List A
  concat_loop [] out = out
  concat_loop (s ∷ slices) out = concat_loop slices (out ++ s)

  pub concat_bytes : List (List A) → List A
  concat_bytes slices = concat_loop slices []

pub get_appropriated_part_size : ℤ → ℕ
get_appropriated_part_size file_size =
    if leb_ℤ file_size (pos 104857600)
    then 128
    else if leb_ℤ file_size (pos 786432000)
    then 256
    else 512
