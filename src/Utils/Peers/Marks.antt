-- ===== src/Utils/Peers/Marks.antt =====
-- Numeric peer identifiers there and back.
use telegram_mcub_go.Base.{
  Bool, true, some, ltb_ℤ, eqb_ℤ, ℤ, pos, ◌-ℤ◌, ◌+ℤ◌, ◌≤ℤ◌, ◌<ℤ◌, ◌≡◌, refl, ap, arith,
}
use telegram_mcub_go.Utils.Peers.{
  Entity, input_peer_empty, input_peer_self, input_channel_empty, input_channel, input_user_empty,
  input_user_self, input_user, other, peer_user, peer_chat, peer_channel, input_peer_user,
  input_peer_chat, input_peer_channel, user, chat, channel, chat_forbidden, channel_forbidden,
  marked, unmarked, get_peer_id, get_peer, resolve_entity_like, entity, resolve_peer,
  channel_id_from_peer_id, resolve_entity,
}

-- The identifiers that the marks tell apart: a user's is positive, a basic group's is positive and
-- below 10^9, a channel's is not negative.
abbrev pub IsInRange : Entity → Type 0
IsInRange (user id access_hash is_self) = pos 0 <ℤ id
IsInRange (peer_user id) = pos 0 <ℤ id
IsInRange (input_peer_user id access_hash) = pos 0 <ℤ id
IsInRange (chat id) = (pos 0 <ℤ id) × (id <ℤ pos 1_000_000_000)
IsInRange (chat_forbidden id) = (pos 0 <ℤ id) × (id <ℤ pos 1_000_000_000)
IsInRange (peer_chat id) = (pos 0 <ℤ id) × (id <ℤ pos 1_000_000_000)
IsInRange (input_peer_chat id) = (pos 0 <ℤ id) × (id <ℤ pos 1_000_000_000)
IsInRange (channel id access_hash megagroup) = pos 0 ≤ℤ id
IsInRange (channel_forbidden id access_hash) = pos 0 ≤ℤ id
IsInRange (peer_channel id) = pos 0 ≤ℤ id
IsInRange (input_peer_channel id access_hash) = pos 0 ≤ℤ id
IsInRange _ = ⊥

-- The peer that an entity stands for.
abbrev pub peer_of : Entity → Entity
peer_of (user id access_hash is_self) = peer_user id
peer_of (input_peer_user id access_hash) = peer_user id
peer_of (chat id) = peer_chat id
peer_of (chat_forbidden id) = peer_chat id
peer_of (input_peer_chat id) = peer_chat id
peer_of (channel id access_hash megagroup) = peer_channel id
peer_of (channel_forbidden id access_hash) = peer_channel id
peer_of (input_peer_channel id access_hash) = peer_channel id
peer_of e = e

unmarked-marked : (id : ℤ) → unmarked (marked id) ≡ id
unfolding marked unmarked ◌-ℤ◌ ◌+ℤ◌
unmarked-marked id = ground arith

channel_id_from_peer_id-marked : (id : ℤ) → channel_id_from_peer_id (marked id) ≡ id
unfolding marked channel_id_from_peer_id ◌-ℤ◌ ◌+ℤ◌
channel_id_from_peer_id-marked id = ground arith

marked-negative : (id : ℤ) → pos 0 ≤ℤ id → ltb_ℤ (marked id) (pos 0) ≡ true
unfolding marked ◌-ℤ◌ ◌+ℤ◌
marked-negative id h = ground arith

get_peer-marked : (id : ℤ) → pos 0 ≤ℤ id → get_peer (marked id) ≡ peer_channel id
unfolding get_peer
get_peer-marked id h = rw (marked-negative id h) (ap peer_channel (unmarked-marked id))

get_peer-user : (id : ℤ) → pos 0 ≤ℤ id → get_peer id ≡ peer_user id
unfolding get_peer
get_peer-user id h = ground arith

-- With the marks, `GetPeer` finds the user, if its identifier is not negative, and the channel, if
-- its identifier is not negative, from which `GetPeerID` made the number.
pub get_peer-get_peer_id :
    (id access_hash : ℤ) (flag : Bool)
    → pos 0 ≤ℤ id
    → (get_peer (get_peer_id (user id access_hash flag) true) ≡ peer_user id)
      × (get_peer (get_peer_id (peer_user id) true) ≡ peer_user id)
      × (get_peer (get_peer_id (channel id access_hash flag) true) ≡ peer_channel id)
      × (get_peer (get_peer_id (channel_forbidden id access_hash) true) ≡ peer_channel id)
      × (get_peer (get_peer_id (peer_channel id) true) ≡ peer_channel id)
unfolding get_peer get_peer_id
get_peer-get_peer_id id access_hash flag h = (
  get_peer-user id h,
  get_peer-user id h,
  get_peer-marked id h,
  get_peer-marked id h,
  get_peer-marked id h,
)

-- `GetPeerID` gives a basic group the number of the user with the group's identifier: `GetPeer`
-- makes that user of it.
pub get_peer_id-group :
    (id : ℤ)
    → pos 0 ≤ℤ id
    → (get_peer_id (peer_chat id) true ≡ get_peer_id (peer_user id) true)
      × (get_peer (get_peer_id (peer_chat id) true) ≡ peer_user id)
unfolding get_peer_id
get_peer_id-group id h = (refl, get_peer-user id h)

pub resolve_peer-user :
    (hash : ℤ → ℤ) (id : ℤ) → pos 0 <ℤ id → peer_of (resolve_peer hash id) ≡ peer_user id
unfolding resolve_peer eqb_ℤ
resolve_peer-user hash id h = ground arith

pub resolve_peer-chat :
    (hash : ℤ → ℤ) (id : ℤ)
    → pos 0 <ℤ id
    → id <ℤ pos 1_000_000_000
    → peer_of (resolve_peer hash (pos 0 -ℤ id)) ≡ peer_chat id
unfolding resolve_peer eqb_ℤ ◌-ℤ◌
resolve_peer-chat hash id h k = ground arith

pub resolve_peer-channel :
    (hash : ℤ → ℤ) (id : ℤ)
    → pos 0 ≤ℤ id
    → peer_of (resolve_peer hash (marked id)) ≡ peer_channel id
unfolding resolve_peer eqb_ℤ ◌-ℤ◌ marked channel_id_from_peer_id
resolve_peer-channel hash id h = ground arith

-- For an entity whose identifier is in its range, `resolvePeer` of the number that
-- `ResolveEntityLike` gives is the input peer of that very user, group or channel, whatever access
-- hashes the client has.
pub resolve_peer-resolve_entity_like :
    (hash : ℤ → ℤ) (e : Entity)
    → IsInRange e
    → (id : ℤ) × (resolve_entity_like (entity e) ≡ some id)
      × (peer_of (resolve_peer hash id) ≡ peer_of e)
unfolding resolve_entity_like resolve_entity
resolve_peer-resolve_entity_like hash (user id _ _) h = (_, refl, resolve_peer-user hash id h)
resolve_peer-resolve_entity_like hash (peer_user id) h = (_, refl, resolve_peer-user hash id h)
resolve_peer-resolve_entity_like hash (input_peer_user id _) h =
    (_, refl, resolve_peer-user hash id h)
resolve_peer-resolve_entity_like hash (chat id) (h, k) = (_, refl, resolve_peer-chat hash id h k)
resolve_peer-resolve_entity_like hash (chat_forbidden id) (h, k) =
    (_, refl, resolve_peer-chat hash id h k)
resolve_peer-resolve_entity_like hash (peer_chat id) (h, k) =
    (_, refl, resolve_peer-chat hash id h k)
resolve_peer-resolve_entity_like hash (input_peer_chat id) (h, k) =
    (_, refl, resolve_peer-chat hash id h k)
resolve_peer-resolve_entity_like hash (channel id _ _) h = (_, refl, resolve_peer-channel hash id h)
resolve_peer-resolve_entity_like hash (channel_forbidden id _) h =
    (_, refl, resolve_peer-channel hash id h)
resolve_peer-resolve_entity_like hash (peer_channel id) h =
    (_, refl, resolve_peer-channel hash id h)
resolve_peer-resolve_entity_like hash (input_peer_channel id _) h =
    (_, refl, resolve_peer-channel hash id h)
resolve_peer-resolve_entity_like hash input_peer_empty h = elim h [ ]
resolve_peer-resolve_entity_like hash input_peer_self h = elim h [ ]
resolve_peer-resolve_entity_like hash input_channel_empty h = elim h [ ]
resolve_peer-resolve_entity_like hash (input_channel _ _) h = elim h [ ]
resolve_peer-resolve_entity_like hash input_user_empty h = elim h [ ]
resolve_peer-resolve_entity_like hash input_user_self h = elim h [ ]
resolve_peer-resolve_entity_like hash (input_user _ _) h = elim h [ ]
resolve_peer-resolve_entity_like hash other h = elim h [ ]

large_group :
    (hash : ℤ → ℤ) (id : ℤ)
    → pos 1_000_000_000 ≤ℤ id
    → peer_of (resolve_peer hash (pos 0 -ℤ id)) ≡ peer_channel (id -ℤ pos 1_000_000_000_000)
unfolding resolve_peer eqb_ℤ ◌-ℤ◌ channel_id_from_peer_id
large_group hash id h = ground arith

-- A basic group whose identifier is 10^9 or more is resolved as the channel whose identifier is
-- 10^12 less.
pub resolve_peer-large_group :
    (hash : ℤ → ℤ) (id : ℤ)
    → pos 1_000_000_000 ≤ℤ id
    → (id' : ℤ) × (resolve_entity_like (entity (peer_chat id)) ≡ some id')
      × (peer_of (resolve_peer hash id') ≡ peer_channel (id -ℤ pos 1_000_000_000_000))
unfolding resolve_entity_like resolve_entity
resolve_peer-large_group hash id h = (_, refl, large_group hash id h)
