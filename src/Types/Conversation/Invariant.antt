-- ===== src/Types/Conversation/Invariant.antt =====
-- The queues of a conversation stay within their capacity, and no call closes `done` twice.
use telegram_mcub_go.Base.{◌≤◌, ◌≡◌, refl, [], ◌∷◌, true, some, length, length-append, ℤ, arith}
use telegram_mcub_go.Types.Conversation.{
  Message, Conversation, Call, enters, exits, cancels, delivers, edits, reads, sets_timeout,
  capacity, new_conversation, enter, exit, deliver, deliver_edit, deliver_read, set_timeout, cancel,
  call,
}

pub record Inv (c : Conversation) : Type 0 where
  pub incoming_bounded : length c.incoming ≤ capacity
  pub edits_bounded : length c.edits ≤ capacity
  pub reads_bounded : length c.reads ≤ capacity
  pub done_cancelled : c.done ≡ c.cancelled

-- A new conversation satisfies the invariant.
pub new_conversation-Inv : (chat_id timeout : ℤ) → Inv (new_conversation chat_id timeout)
unfolding new_conversation
new_conversation-Inv chat_id timeout = ground arith

closed : Conversation → Conversation
closed c = record c { cancelled = true; done = true }

-- Every call on a conversation that satisfies the invariant (each queue holds at most 64 values, and
-- `done` is closed exactly if the conversation is cancelled) returns, without the panic of closing
-- `done` a second time, and leaves the invariant and the chat ID as they were.
pub call-Inv :
    (c : Conversation) (k : Call)
    → Inv c
    → (c' : Conversation) × (call c k ≡ some c') × Inv c' × (c'.chat_id ≡ c.chat_id)
unfolding call enter exit cancel deliver deliver_edit deliver_read set_timeout closed
call-Inv c enters v = (enter c, refl, ground arith, ground arith)
call-Inv c exits v = (closed c, ground arith, ground arith, ground arith)
call-Inv c cancels v = (closed c, ground arith, ground arith, ground arith)
call-Inv c (delivers m) v =
    (deliver c m, refl, ground (arith, length-append c.incoming (m ∷ [])), ground arith)
call-Inv c (edits m) v =
    (deliver_edit c m, refl, ground (arith, length-append c.edits (m ∷ [])), ground arith)
call-Inv c (reads n) v =
    (deliver_read c n, refl, ground (arith, length-append c.reads (n ∷ [])), ground arith)
call-Inv c (sets_timeout d) v = (set_timeout c d, refl, ground arith, refl)

-- Delivering never changes the chat of a conversation.
pub deliver-chat_id : (c : Conversation) (m : Message) → (deliver c m).chat_id ≡ c.chat_id
unfolding deliver
deliver-chat_id c m = ground arith
