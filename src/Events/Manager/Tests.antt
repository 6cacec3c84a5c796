-- ===== src/Events/Manager/Tests.antt =====
-- Concrete managers: the conversation at address n is one of chat n.
use telegram_mcub_go.Base.{ℕ, [], ◌∷◌, ◌≡◌, refl, pos, false}
use telegram_mcub_go.Types.Conversation.{Message, Conversation, no_reply, new_conversation}
use telegram_mcub_go.Types.Conversation
use telegram_mcub_go.Events.Manager.{
  ConversationManager, read, register, unregister, deliver, deliver_edit, deliver_read,
  new_conversation_manager,
}
use telegram_mcub_go.Events.Manager.Routing.{deliver-iterate, count, iterate}
use telegram_mcub_go.Events.Manager.Filed.{step-Filed, unregister_silences, Filed}

abbrev hello : Message
hello = record { id = pos 1; reply_to = no_reply }

abbrev chats : ℕ → Conversation
chats n = record {
  chat_id = pos n;
  timeout = pos 60;
  incoming = [];
  edits = [];
  reads = [];
  done = false;
  cancelled = false;
  sent_msg_ids = [];
}

abbrev two_chats : ConversationManager
two_chats = record { convs = (pos 3, 3 ∷ 3 ∷ []) ∷ (pos 4, 4 ∷ []) ∷ []; heap = chats }

two_chats-Filed : Filed two_chats.heap two_chats.convs
two_chats-Filed = (((λ e. cc), (refl, (refl, tt))), (((λ e. cc), (refl, tt)), tt))

unregister_silences_example :
    (deliver (unregister two_chats 3) (pos 3) hello).heap 3 ≡ two_chats.heap 3
unregister_silences_example = unregister_silences two_chats 3 (pos 3) hello two_chats-Filed

step-Filed_example :
    Filed two_chats.heap (new_conversation_manager two_chats.heap).convs
    × Filed (register two_chats 5).heap (register two_chats 5).convs
    × Filed (unregister two_chats 5).heap (unregister two_chats 5).convs
    × Filed (deliver two_chats (pos 3) hello).heap (deliver two_chats (pos 3) hello).convs
step-Filed_example = step-Filed two_chats 5 (pos 3) hello two_chats-Filed

deliver-iterate_example :
    ((deliver two_chats (pos 3) hello).heap 3
      ≡ iterate
          (count 3 (read two_chats.convs (pos 3)))
          (λ c. Conversation.deliver c hello)
          (chats 3))
    × ((deliver_edit two_chats (pos 3) hello).heap 3
        ≡ iterate
            (count 3 (read two_chats.convs (pos 3)))
            (λ c. Conversation.deliver_edit c hello)
            (chats 3))
    × ((deliver_read two_chats (pos 3) (pos 9)).heap 3
        ≡ iterate
            (count 3 (read two_chats.convs (pos 3)))
            (λ c. Conversation.deliver_read c (pos 9))
            (chats 3))
    × ((deliver two_chats (pos 3) hello).convs ≡ two_chats.convs)
deliver-iterate_example = deliver-iterate two_chats (pos 3) hello (pos 9) 3
