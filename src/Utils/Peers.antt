-- ===== src/Utils/Peers.antt =====
-- utils/utils.go, from GetPeerID to GetInputUser; types/hints.go, ResolveEntityLike; client/messages.go,
-- resolvePeer, resolveInputUser and channelIDFromPeerID. Identifiers are `int64`, whose wrap-around at
-- 2^63 is not modelled.
pub mod Marks
pub mod Inputs
mod Tests
use telegram_mcub_go.Base.{
  ℕ, Bool, true, false, ◌&&◌, Option, none, some, ltb_ℤ, eqb_ℤ, if◌then◌else◌, ℤ, pos, negsuc, ◌-ℤ◌,
  ◌+ℤ◌,
}

-- The dynamic type of an `interface{}` that names a peer, with the fields the source reads;
-- `other` stands for every type that the source has no case for.
pub data Entity : Type 0 where
  user : (id access_hash : ℤ) (is_self : Bool) → Entity
  chat : ℤ → Entity
  chat_forbidden : ℤ → Entity
  channel : (id access_hash : ℤ) (megagroup : Bool) → Entity
  channel_forbidden : (id access_hash : ℤ) → Entity
  peer_user : ℤ → Entity
  peer_chat : ℤ → Entity
  peer_channel : ℤ → Entity
  input_peer_empty : Entity
  input_peer_self : Entity
  input_peer_user : (user_id access_hash : ℤ) → Entity
  input_peer_chat : ℤ → Entity
  input_peer_channel : (channel_id access_hash : ℤ) → Entity
  input_channel_empty : Entity
  input_channel : (channel_id access_hash : ℤ) → Entity
  input_user_empty : Entity
  input_user_self : Entity
  input_user : (user_id access_hash : ℤ) → Entity
  other : Entity

-- -1_000_000_000_000 - id
unfoldable pub marked : ℤ → ℤ
marked id = (pos 0 -ℤ pos 1_000_000_000_000) -ℤ id

pub get_peer_id : Entity → Bool → ℤ
get_peer_id (peer_user user_id) add_mark = user_id
get_peer_id (peer_chat chat_id) add_mark = chat_id
get_peer_id (peer_channel channel_id) add_mark = if add_mark then marked channel_id else channel_id
get_peer_id (user id access_hash is_self) add_mark = id
get_peer_id (chat id) add_mark = id
get_peer_id (chat_forbidden id) add_mark = id
get_peer_id (channel id access_hash megagroup) add_mark = if add_mark then marked id else id
get_peer_id (channel_forbidden id access_hash) add_mark = if add_mark then marked id else id
get_peer_id _ add_mark = pos 0

-- -(peerID + 1_000_000_000_000)
unfoldable pub unmarked : ℤ → ℤ
unmarked peer_id = pos 0 -ℤ (peer_id +ℤ pos 1_000_000_000_000)

pub get_peer : ℤ → Entity
get_peer peer_id =
    if ltb_ℤ peer_id (pos 0) then peer_channel (unmarked peer_id) else peer_user peer_id

-- `none` is the `InputError`.
pub get_input_peer : Entity → Bool → Option Entity
get_input_peer input_peer_self allow_self = some input_peer_self
get_input_peer (input_peer_user user_id access_hash) allow_self =
    some (input_peer_user user_id access_hash)
get_input_peer (input_peer_chat chat_id) allow_self = some (input_peer_chat chat_id)
get_input_peer (input_peer_channel channel_id access_hash) allow_self =
    some (input_peer_channel channel_id access_hash)
get_input_peer input_peer_empty allow_self = some input_peer_empty
get_input_peer (user id access_hash is_self) allow_self =
    if is_self && allow_self then some input_peer_self else some (input_peer_user id access_hash)
get_input_peer (chat id) allow_self = some (input_peer_chat id)
get_input_peer (chat_forbidden id) allow_self = some (input_peer_chat id)
get_input_peer (channel id access_hash megagroup) allow_self =
    some (input_peer_channel id access_hash)
get_input_peer (channel_forbidden id access_hash) allow_self =
    some (input_peer_channel id access_hash)
get_input_peer _ allow_self = none

pub get_input_channel : Entity → Option Entity
get_input_channel (input_channel channel_id access_hash) =
    some (input_channel channel_id access_hash)
get_input_channel input_channel_empty = some input_channel_empty
get_input_channel (channel id access_hash megagroup) = some (input_channel id access_hash)
get_input_channel (channel_forbidden id access_hash) = some (input_channel id access_hash)
get_input_channel (input_peer_channel channel_id access_hash) =
    some (input_channel channel_id access_hash)
get_input_channel _ = none

pub get_input_user : Entity → Option Entity
get_input_user (input_user user_id access_hash) = some (input_user user_id access_hash)
get_input_user input_user_self = some input_user_self
get_input_user input_user_empty = some input_user_empty
get_input_user (user id access_hash is_self) =
    if is_self then some input_user_self else some (input_user id access_hash)
get_input_user (input_peer_user user_id access_hash) = some (input_user user_id access_hash)
get_input_user _ = none

pub is_channel : Entity → Bool
is_channel (channel id access_hash megagroup) = true
is_channel (channel_forbidden id access_hash) = true
is_channel (input_peer_channel channel_id access_hash) = true
is_channel (input_channel channel_id access_hash) = true
is_channel (peer_channel channel_id) = true
is_channel _ = false

pub is_megagroup : Entity → Bool
is_megagroup (channel id access_hash megagroup) = megagroup
is_megagroup _ = false

-- `EntityLike`: a number, a user name, or an entity.
pub data EntityLike : Type 0 where
  number : ℤ → EntityLike
  username : EntityLike
  entity : Entity → EntityLike

-- ResolveEntityLike on an entity; `none` is the error.
resolve_entity : Entity → Option ℤ
resolve_entity (user id access_hash is_self) = some id
resolve_entity (chat id) = some (pos 0 -ℤ id)
resolve_entity (chat_forbidden id) = some (pos 0 -ℤ id)
resolve_entity (channel id access_hash megagroup) = some (marked id)
resolve_entity (channel_forbidden id access_hash) = some (marked id)
resolve_entity (peer_user user_id) = some user_id
resolve_entity (peer_chat chat_id) = some (pos 0 -ℤ chat_id)
resolve_entity (peer_channel channel_id) = some (marked channel_id)
resolve_entity (input_peer_user user_id access_hash) = some user_id
resolve_entity input_peer_self = some (pos 0)
resolve_entity (input_peer_chat chat_id) = some (pos 0 -ℤ chat_id)
resolve_entity (input_peer_channel channel_id access_hash) = some (marked channel_id)
resolve_entity input_peer_empty = some (pos 0)
resolve_entity _ = none

pub resolve_entity_like : EntityLike → Option ℤ
resolve_entity_like (number id) = some id
resolve_entity_like username = some (pos 0)
resolve_entity_like (entity e) = resolve_entity e

-- -peerID - 1000000000000
unfoldable pub channel_id_from_peer_id : ℤ → ℤ
channel_id_from_peer_id peer_id = (pos 0 -ℤ peer_id) -ℤ pos 1_000_000_000_000

-- The client's cache of access hashes, `accessHashForPeer`, is an argument.
pub resolve_peer : (ℤ → ℤ) → ℤ → Entity
resolve_peer access_hash_for_peer peer_id =
    if eqb_ℤ peer_id (pos 0)
    then input_peer_self
    else if ltb_ℤ (pos 0) peer_id
    then input_peer_user peer_id (access_hash_for_peer peer_id)
    else if ltb_ℤ peer_id (pos 0 -ℤ pos 999_999_999)
    then input_peer_channel (channel_id_from_peer_id peer_id) (access_hash_for_peer peer_id)
    else input_peer_chat (pos 0 -ℤ peer_id)

pub resolve_input_user : ℤ → Entity
resolve_input_user user_id =
    if eqb_ℤ user_id (pos 0) then input_user_self else input_user user_id (pos 0)
