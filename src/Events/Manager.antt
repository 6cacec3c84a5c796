-- ===== src/Events/Manager.antt =====
-- events/events.go, ConversationManager. The conversations are shared objects: the manager keeps
-- their addresses, and `heap` holds what stands at each address. A method is one step.
pub mod Routing
pub mod Filed
mod Tests
use telegram_mcub_go.Base.{
  ℕ, ◌==◌, List, [], ◌∷◌, ◌++◌, Bool, not, if◌then◌else◌, keep, length, ℤ, eqb_ℤ,
}
use telegram_mcub_go.Types.Conversation.{Message, Conversation}
use telegram_mcub_go.Types.Conversation

-- `map[int64][]*types.Conversation`; a key that is missing reads as the nil slice.
abbrev pub Convs : Type 0
Convs = List (ℤ × List ℕ)

pub record ConversationManager : Type 0 where
  pub convs : Convs
  pub heap : ℕ → Conversation

pub read : Convs → ℤ → List ℕ
read [] k = []
read ((j, list) ∷ convs) k = if eqb_ℤ j k then list else read convs k

write : Convs → ℤ → List ℕ → Convs
write [] k v = (k, v) ∷ []
write ((j, list) ∷ convs) k v = if eqb_ℤ j k then (k, v) ∷ convs else (j, list) ∷ write convs k v

delete : Convs → ℤ → Convs
delete [] k = []
delete ((j, list) ∷ convs) k = if eqb_ℤ j k then delete convs k else (j, list) ∷ delete convs k

pub new_conversation_manager : (ℕ → Conversation) → ConversationManager
new_conversation_manager heap = record { convs = []; heap = heap }

pub register : ConversationManager → ℕ → ConversationManager
register cm conv =
    let chat_id = (cm.heap conv).chat_id in
    record cm { convs = write cm.convs chat_id (read cm.convs chat_id ++ conv ∷ []) }

pub unregister : ConversationManager → ℕ → ConversationManager
unregister cm conv =
    let chat_id = (cm.heap conv).chat_id in
    let result = keep (λ c. not (c == conv)) (read cm.convs chat_id) in
    record cm {
      convs = if length result == 0 then delete cm.convs chat_id else write cm.convs chat_id result;
    }

abbrev pub update : (ℕ → Conversation) → ℕ → Conversation → ℕ → Conversation
update heap p c q = if q == p then c else heap q

-- `for _, c := range list { c.f() }`
pub each : (Conversation → Conversation) → List ℕ → (ℕ → Conversation) → ℕ → Conversation
each f [] heap = heap
each f (p ∷ list) heap = each f list (update heap p (f (heap p)))

pub deliver : ConversationManager → ℤ → Message → ConversationManager
unfolding each
deliver cm chat_id msg = record cm {
  heap = each (λ c. Conversation.deliver c msg) (read cm.convs chat_id) cm.heap;
}

pub deliver_edit : ConversationManager → ℤ → Message → ConversationManager
unfolding each
deliver_edit cm chat_id msg = record cm {
  heap = each (λ c. Conversation.deliver_edit c msg) (read cm.convs chat_id) cm.heap;
}

pub deliver_read : ConversationManager → ℤ → ℤ → ConversationManager
unfolding each
deliver_read cm chat_id max_id = record cm {
  heap = each (λ c. Conversation.deliver_read c max_id) (read cm.convs chat_id) cm.heap;
}
