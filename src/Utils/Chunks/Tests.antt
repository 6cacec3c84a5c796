-- ===== src/Utils/Chunks/Tests.antt =====
-- Five items in chunks of two.
use telegram_mcub_go.Base.{ℕ, ◌≡◌, List, [], ◌∷◌, some, pos}
use telegram_mcub_go.Utils.Chunks.{chunks, concat_bytes}
use telegram_mcub_go.Utils.Chunks.Laws.{chunks-Split, Split}

chunks-Split_example :
    (cs : List (List ℕ)) × (chunks (1 ∷ 2 ∷ 3 ∷ 4 ∷ 5 ∷ []) (pos 2) ≡ some cs)
    × (concat_bytes cs ≡ 1 ∷ 2 ∷ 3 ∷ 4 ∷ 5 ∷ [])
    × Split 2 cs
chunks-Split_example = chunks-Split (1 ∷ 2 ∷ 3 ∷ 4 ∷ 5 ∷ []) 1
