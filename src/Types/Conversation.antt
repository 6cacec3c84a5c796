-- ===== src/Types/Conversation.antt =====
-- types/conversation.go. A channel of capacity 64 is the list of the values that it holds, oldest
-- first; `done` says whether that channel is closed. A call of one goroutine is one step.
pub mod Wait
pub mod Invariant
mod Tests
use telegram_mcub_go.Base.{
  ℕ, zero, suc, List, [], ◌∷◌, ◌++◌, Bool, true, false, not, Option, none, some, length, ltb,
  if◌then◌else◌, ℤ, pos, eqb_ℤ, leb_ℤ,
}

-- tg.Message, as far as a conversation reads it: its ID and what it replies to.
pub data ReplyTo : Type 0 where
  no_reply : ReplyTo
  reply_header : ℤ → ReplyTo
  reply_other : ReplyTo

pub record Message : Type 0 where
  pub id : ℤ
  pub reply_to : ReplyTo

pub data Error : Type 0 where
  conversation_cancelled context_done timed_out : Error
  no_send_text no_mark_read : Error
  client_error : ℕ → Error

pub record Conversation : Type 0 where
  pub chat_id : ℤ
  pub timeout : ℤ
  pub incoming : List Message
  pub edits : List Message
  pub reads : List ℤ
  pub done : Bool
  pub cancelled : Bool
  pub sent_msg_ids : List ℤ

abbrev pub capacity : ℕ
capacity = 64

pub new_conversation : ℤ → ℤ → Conversation
new_conversation chat_id timeout = record {
  chat_id = chat_id;
  timeout = timeout;
  incoming = [];
  edits = [];
  reads = [];
  done = false;
  cancelled = false;
  sent_msg_ids = [];
}

pub enter : Conversation → Conversation
enter c =
    if c.cancelled
    then record c {
      incoming = [];
      edits = [];
      reads = [];
      done = false;
      cancelled = false;
      sent_msg_ids = [];
    }
    else record c { sent_msg_ids = [] }

-- `select { case ch <- v: default: }`
abbrev try_send {ℓ} : {A : Type ℓ} → List A → A → List A
try_send ch v = if ltb (length ch) capacity then ch ++ v ∷ [] else ch

pub deliver : Conversation → Message → Conversation
deliver c msg = if c.cancelled then c else record c { incoming = try_send c.incoming msg }

pub deliver_edit : Conversation → Message → Conversation
deliver_edit c msg = if c.cancelled then c else record c { edits = try_send c.edits msg }

pub deliver_read : Conversation → ℤ → Conversation
deliver_read c max_id = if c.cancelled then c else record c { reads = try_send c.reads max_id }

pub set_timeout : Conversation → ℤ → Conversation
set_timeout c d = record c { timeout = d }

-- `none` is the panic of closing a channel that is closed.
pub cancel : Conversation → Option Conversation
cancel c =
    if c.cancelled
    then some c
    else if c.done
    then none
    else some (record c { cancelled = true; done = true })

pub exit : Conversation → Option Conversation
exit c = cancel c

-- What the client's SendText returns: an error, or the sent message, which may be nil.
pub data Sent : Type 0 where
  failed : Error → Sent
  sent : Option Message → Sent

track : Conversation → Sent → Sent × Conversation
track c (failed err) = (failed err, c)
track c (sent none) = (sent none, c)
track c (sent (some msg)) =
    (sent (some msg), record c { sent_msg_ids = c.sent_msg_ids ++ msg.id ∷ [] })

-- `send_text` is the method of the client, if it has one.
pub send_message : Option (ℤ → List ℕ → Sent) → Conversation → List ℕ → Sent × Conversation
unfolding track
send_message send_text c text =
    if c.cancelled then (failed conversation_cancelled, c) else elim send_text [
      | none ↦ (failed no_send_text, c)
      | some send ↦ track c (send c.chat_id text)
    ]

pub mark_read : Option (ℤ → Option Error) → Conversation → Option Error
mark_read reader c =
    if c.cancelled
    then some conversation_cancelled
    else elim reader [ none ↦ some no_mark_read | some read ↦ read c.chat_id ]

-- A call that another goroutine makes on the conversation.
pub data Call : Type 0 where
  enters exits cancels : Call
  delivers : Message → Call
  edits : Message → Call
  reads : ℤ → Call
  sets_timeout : ℤ → Call

pub call : Conversation → Call → Option Conversation
call c enters = some (enter c)
call c exits = exit c
call c cancels = cancel c
call c (delivers msg) = some (deliver c msg)
call c (edits msg) = some (deliver_edit c msg)
call c (reads max_id) = some (deliver_read c max_id)
call c (sets_timeout d) = some (set_timeout c d)
