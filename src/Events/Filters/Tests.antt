-- ===== src/Events/Filters/Tests.antt =====
-- The message "/ban now" in a private chat.
use telegram_mcub_go.Base.{[], ◌∷◌, ◌++◌, true, false, none, some, pos, ◌≡◌, ◌↔◌, ◌⊎◌}
use telegram_mcub_go.Helpers.Utf16.{Text}
use telegram_mcub_go.Events.Update.{photo}
use telegram_mcub_go.Events.Event.{NewMessage, new_message, text}
use telegram_mcub_go.Events.Filters.{command_filter}
use telegram_mcub_go.Events.Filters.Laws.{command_filter_iff}

abbrev ban_now : NewMessage
ban_now = record {
  raw = some (record {
    id = pos 9;
    out = true;
    peer_id = none;
    from_id = none;
    fwd_from = false;
    via_bot_id = none;
    reply_to = none;
    date = pos 0;
    edit_date = pos 0;
    message = b'/' ∷ b'b' ∷ b'a' ∷ b'n' ∷ b' ' ∷ b'n' ∷ b'o' ∷ b'w' ∷ [];
    media = some photo;
    entities = [];
  });
  entities = [];
  peer_id = pos 5;
  sender_id = pos 5;
  date = pos 0;
  is_private = true;
  is_group = false;
  is_channel = false;
  is_forum_topic = false;
  forum_topic_id = pos 0;
  reply_to_msg_id = pos 0;
  is_outgoing = true;
  is_reply = false;
  is_forwarded = false;
  is_bot = false;
}

abbrev slash : Text
slash = b'/' ∷ []

abbrev ban : Text
ban = b'b' ∷ b'a' ∷ b'n' ∷ []

command_filter_iff_example : (command_filter slash ban (new_message ban_now) ≡ true) ↔ (
    (text ban_now ≡ slash ++ ban)
    ⊎ ((arguments : Text) × (text ban_now ≡ (slash ++ ban) ++ 0x20 ∷ arguments)))
command_filter_iff_example = command_filter_iff slash ban ban_now
