-- ===== src/Events/Updates/Places.antt =====
-- The chat of a new message, and the input peer that the client makes of its number.
use telegram_mcub_go.Base.{Bool, true, false, Option, none, some, ℤ, ◌≡◌, refl, ap, ◌∙◌}
use telegram_mcub_go.Utils.Peers.{resolve_peer, peer_user, peer_chat, peer_channel}
use telegram_mcub_go.Utils.Peers.Marks.{
  IsInRange, peer_of, resolve_peer-user, resolve_peer-chat, resolve_peer-channel,
}
use telegram_mcub_go.Events.Update.{
  Peer, user_peer, chat_peer, channel_peer, ReplyTo, message_reply, story_reply, RawMessage,
  message, update_new_message, update_new_channel_message,
}
use telegram_mcub_go.Events.Event.{NewMessage}
use telegram_mcub_go.Events.Converters.{
  peer_number, is_user_peer, is_chat_peer, is_channel_peer, with_reply, new_message_of,
  new_message_from_update,
}

-- The peer as package utils names it.
abbrev pub entity_of : Peer → telegram_mcub_go.Utils.Peers.Entity
entity_of (user_peer id) = peer_user id
entity_of (chat_peer id) = peer_chat id
entity_of (channel_peer id) = peer_channel id

-- Whether the chat is a private one, a basic group, a channel.
abbrev pub kind_of : Peer → Bool × Bool × Bool
kind_of (user_peer id) = (true, false, false)
kind_of (chat_peer id) = (false, true, false)
kind_of (channel_peer id) = (false, false, true)

-- What a message says of its chat.
abbrev pub place : NewMessage → ℤ × (Bool × Bool × Bool)
place nm = (nm.peer_id, (nm.is_private, nm.is_group, nm.is_channel))

with_reply-place : (r : Option ReplyTo) (nm : NewMessage) → place (with_reply r nm) ≡ place nm
unfolding with_reply
with_reply-place (some (message_reply header)) nm = refl
with_reply-place (some story_reply) nm = refl
with_reply-place none nm = refl

kinds :
    (p : Peer)
    → (is_user_peer (some p), is_chat_peer (some p), is_channel_peer (some p)) ≡ kind_of p
unfolding is_user_peer is_chat_peer is_channel_peer
kinds (user_peer id) = refl
kinds (chat_peer id) = refl
kinds (channel_peer id) = refl

new_message_of-place :
    (m : RawMessage) (p : Peer)
    → m.peer_id ≡ some p
    → place (new_message_of m) ≡ (peer_number (some p), kind_of p)
unfolding new_message_of
new_message_of-place m p e =
    with_reply-place m.reply_to _
    ∙ (ap (λ q. (peer_number q, (is_user_peer q, is_chat_peer q, is_channel_peer q))) e
        ∙ ap (λ k. (peer_number (some p), k)) (kinds p))

resolve_peer-peer_number :
    (hash : ℤ → ℤ) (p : Peer)
    → IsInRange (entity_of p)
    → peer_of (resolve_peer hash (peer_number (some p))) ≡ entity_of p
unfolding peer_number
resolve_peer-peer_number hash (user_peer id) h = resolve_peer-user hash id h
resolve_peer-peer_number hash (chat_peer id) h = resolve_peer-chat hash id h.0 h.1
resolve_peer-peer_number hash (channel_peer id) h = resolve_peer-channel hash id h

-- From an update with a new message whose chat has an identifier in its range, NewMessageFromUpdate
-- makes an event that names exactly one kind of chat, the right one, and whose peer ID the client's
-- resolvePeer turns into the input peer of that very chat.
pub new_message_from_update-resolve_peer :
    (hash : ℤ → ℤ) (m : RawMessage) (p : Peer)
    → m.peer_id ≡ some p
    → IsInRange (entity_of p)
    → (nm : NewMessage) × (new_message_from_update (update_new_message (message m)) ≡ some nm)
      × (new_message_from_update (update_new_channel_message (message m)) ≡ some nm)
      × ((nm.is_private, nm.is_group, nm.is_channel) ≡ kind_of p)
      × (peer_of (resolve_peer hash nm.peer_id) ≡ entity_of p)
unfolding new_message_from_update
new_message_from_update-resolve_peer hash m p e h =
    let f = new_message_of-place m p e in
    (
      new_message_of m,
      refl,
      refl,
      ap (λ q. q.1) f,
      ap (λ q. peer_of (resolve_peer hash q.0)) f ∙ resolve_peer-peer_number hash p h,
    )
