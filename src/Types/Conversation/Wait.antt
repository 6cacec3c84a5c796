-- ===== src/Types/Conversation/Wait.antt =====
-- types/conversation.go, waitMessage, GetEdit and WaitRead: a wait is a loop over what its `select`
-- finds ready, and over the calls that other goroutines make in between.
pub mod Fifo
use telegram_mcub_go.Base.{
  ℕ, zero, suc, ◌+◌, List, [], ◌∷◌, ◌++◌, Bool, true, false, Option, none, some, if◌then◌else◌, ℤ,
  eqb_ℤ, leb_ℤ, ◌≡◌, refl, arith, length, replicate, All,
}
use telegram_mcub_go.Types.Conversation.{
  Message, ReplyTo, no_reply, reply_header, reply_other, Error, conversation_cancelled,
  context_done, timed_out, Conversation, Call, call,
}

-- What the loop sees next. A case of the `select` that is not ready is not taken.
pub data Wake : Type 0 where
  context_ends done_closed timer_fires receives : Wake
  meanwhile : Call → Wake

-- `waiting`: the given wakes do not end the wait. `panics`: a call of another goroutine did.
pub data Outcome (A : Type 0) : Type 0 where
  got : A → Outcome A
  stopped : Error → Outcome A
  waiting panics : Outcome A

-- The wait on one channel, which `queue` reads and `with_queue` writes, for a value that `pred`
-- accepts.
module _ {A : Type 0} (queue : Conversation → List A)
    (with_queue : Conversation → List A → Conversation) (pred : A → Bool) where
  pub wait_loop : List Wake → Conversation → Outcome A × Conversation
  wait_loop [] c = (waiting, c)
  wait_loop (context_ends ∷ ws) c = (stopped context_done, c)
  wait_loop (done_closed ∷ ws) c =
      let rest = wait_loop ws c in if c.done then (stopped conversation_cancelled, c) else rest
  wait_loop (timer_fires ∷ ws) c = (stopped timed_out, c)
  wait_loop (receives ∷ ws) c = elim (queue c) [
    | [] ↦ wait_loop ws c
    | v ∷ rest ↦
        let later = wait_loop ws (with_queue c rest) in
        if pred v then (got v, with_queue c rest) else later
  ]
  wait_loop (meanwhile k ∷ ws) c = elim (call c k) [
    | none ↦ (panics, c)
    | some c' ↦ wait_loop ws c'
  ]

  pub wait : List Wake → Conversation → Outcome A × Conversation
  wait ws c = if c.cancelled then (stopped conversation_cancelled, c) else wait_loop ws c

abbrev set_incoming : Conversation → List Message → Conversation
set_incoming c q = record c { incoming = q }

abbrev set_edits : Conversation → List Message → Conversation
set_edits c q = record c { edits = q }

abbrev set_reads : Conversation → List ℤ → Conversation
set_reads c q = record c { reads = q }

pub wait_message : (Message → Bool) → List Wake → Conversation → Outcome Message × Conversation
unfolding wait
wait_message pred = wait (λ c. c.incoming) set_incoming pred

pub get_response : List Wake → Conversation → Outcome Message × Conversation
get_response = wait_message (λ m. true)

abbrev replies_to : ℤ → ReplyTo → Bool
replies_to msg_id no_reply = false
replies_to msg_id (reply_header reply_to_msg_id) = eqb_ℤ reply_to_msg_id msg_id
replies_to msg_id reply_other = false

pub get_reply : ℤ → List Wake → Conversation → Outcome Message × Conversation
get_reply msg_id = wait_message (λ m. replies_to msg_id m.reply_to)

pub wait_event : (Message → Bool) → List Wake → Conversation → Outcome Message × Conversation
wait_event predicate = wait_message predicate

pub get_edit : List Wake → Conversation → Outcome Message × Conversation
unfolding wait
get_edit = wait (λ c. c.edits) set_edits (λ m. true)

pub wait_read : ℤ → List Wake → Conversation → Outcome ℤ × Conversation
unfolding wait
wait_read msg_id = wait (λ c. c.reads) set_reads (λ max_id. leb_ℤ msg_id max_id)
