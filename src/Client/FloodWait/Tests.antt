-- ===== src/Client/FloodWait/Tests.antt =====
-- "FLOOD_WAIT_42 (caused by …": the digits 42 and then a space.
use telegram_mcub_go.Base.{◌*◌, ◌≡◌, refl, arith, [], ◌∷◌, ◌++◌, some, pos}
use telegram_mcub_go.Client.FloodWait.{prefix, is_digit, parse_flood_wait, flood_wait_duration}
use telegram_mcub_go.Client.FloodWait.Laws.{decimal, parse-decimal}

parse-decimal_example :
    (parse_flood_wait (prefix ++ b'4' ∷ (b'2' ∷ []) ++ b' ' ∷ [])
      ≡ some (pos (decimal 0 (b'4' ∷ b'2' ∷ []))))
    × (flood_wait_duration (prefix ++ b'4' ∷ (b'2' ∷ []) ++ b' ' ∷ [])
        ≡ pos (decimal 0 (b'4' ∷ b'2' ∷ []) * 1_000_000_000))
unfolding is_digit
parse-decimal_example =
    parse-decimal b'4' (b'2' ∷ []) (b' ' ∷ []) (refl, (refl, tt)) refl (omega arith) (omega arith)
