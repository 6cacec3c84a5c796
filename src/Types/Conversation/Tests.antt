-- ===== src/Types/Conversation/Tests.antt =====
-- A conversation with two queued messages.
use telegram_mcub_go.Base.{
  ℕ, ◌≡◌, refl, arith, [], ◌∷◌, ◌++◌, Bool, false, some, pos, eqb_ℤ, replicate,
}
use telegram_mcub_go.Types.Conversation.{Message, Conversation, delivers, call, no_reply}
use telegram_mcub_go.Types.Conversation.Invariant.{Inv, call-Inv}
use telegram_mcub_go.Types.Conversation.Wait.{receives, timer_fires, got, wait_message}
use telegram_mcub_go.Types.Conversation.Wait.Fifo.{wait_message-first}

abbrev message : ℕ → Message
message n = record { id = pos n; reply_to = no_reply }

abbrev two_queued : Conversation
two_queued = record {
  chat_id = pos 7;
  timeout = pos 60;
  incoming = message 1 ∷ message 2 ∷ [];
  edits = [];
  reads = [];
  done = false;
  cancelled = false;
  sent_msg_ids = [];
}

abbrev is_second : Message → Bool
is_second m = eqb_ℤ m.id (pos 2)

wait_message-first_example :
    wait_message is_second (replicate 2 receives ++ timer_fires ∷ []) two_queued
    ≡ (got (message 2), record two_queued { incoming = [] })
unfolding eqb_ℤ
wait_message-first_example =
    wait_message-first is_second (message 1 ∷ []) (message 2) [] (timer_fires ∷ []) two_queued refl
      refl (refl, tt) refl

call-Inv_example :
    (c : Conversation) × (call two_queued (delivers (message 3)) ≡ some c)
    × Inv c
    × (c.chat_id ≡ two_queued.chat_id)
call-Inv_example = call-Inv two_queued (delivers (message 3)) (record {
  incoming_bounded = omega arith;
  edits_bounded = omega arith;
  reads_bounded = omega arith;
  done_cancelled = refl;
})
