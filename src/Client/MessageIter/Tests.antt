-- ===== src/Client/MessageIter/Tests.antt =====
-- Three messages, fetched in batches of two.
use telegram_mcub_go.Base.{
  ℕ, ◌≡◌, refl, List, [], ◌∷◌, map, arith, take, false, Option, none, some, ℤ, pos, pos_part,
}
use telegram_mcub_go.Events.Update.{RawMessage, message}
use telegram_mcub_go.Client.MessageIter.{
  Request, get_history, search_messages, Reply, replied, messages, iter_messages, collect,
}
use telegram_mcub_go.Client.MessageIter.Histories.{older, whole, collect-history}

abbrev numbered : ℤ → RawMessage
numbered id = record {
  id = id;
  out = false;
  peer_id = none;
  from_id = none;
  fwd_from = false;
  via_bot_id = none;
  reply_to = none;
  date = pos 0;
  edit_date = pos 0;
  message = [];
  media = none;
  entities = [];
}

abbrev three_messages : List RawMessage
three_messages = numbered (pos 9) ∷ numbered (pos 5) ∷ numbered (pos 2) ∷ []

-- A server that keeps them.
abbrev server : Request → ℕ → Reply ℕ × ℕ
server (get_history r add_offset) n = (
  replied (messages (map message (take (pos_part r.limit) (older r.offset_id three_messages)))),
  n,
)
server (search_messages r query from) n = (replied (messages []), n)

abbrev no_failure : ℤ → Option ℕ
no_failure id = none

collect-history_example :
    collect no_failure server 4 (pos 0) (iter_messages (whole (pos 7) 2)) [] 0
    ≡ some (three_messages, none)
collect-history_example =
    collect-history no_failure server three_messages (pos 7) 1 4 0 refl (λ limit o w. refl)
      (ground arith) (omega arith)
