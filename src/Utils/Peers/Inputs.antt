-- ===== src/Utils/Peers/Inputs.antt =====
-- What GetInputPeer, GetInputChannel and GetInputUser of utils/utils.go make of an entity.
use telegram_mcub_go.Base.{Bool, true, false, none, some, ◌≡◌, ◌⊎◌, arith}
use telegram_mcub_go.Utils.Peers.{
  Entity, get_input_peer, get_input_channel, get_input_user, is_channel, input_channel_empty,
}
use telegram_mcub_go.Utils.Peers.Marks.{peer_of}

-- An input peer that `GetInputPeer` makes, when it is not to make a reference to oneself, stands for
-- the same peer as the entity, and `GetInputPeer` leaves it as it is.
pub get_input_peer-peer_of :
    (e p : Entity) (allow_self : Bool)
    → get_input_peer e false ≡ some p
    → (peer_of p ≡ peer_of e) × (get_input_peer p allow_self ≡ some p)
unfolding get_input_peer
get_input_peer-peer_of e p allow_self h = ground arith

-- Where `GetInputChannel` succeeds, the entity is one that `IsChannel` accepts or is the empty input
-- channel, `GetInputUser` fails on it, and `GetInputChannel` leaves the result as it is.
pub get_input_channel-get_input_user :
    (e c : Entity)
    → get_input_channel e ≡ some c
    → ((is_channel e ≡ true) ⊎ (e ≡ input_channel_empty))
      × (get_input_user e ≡ none)
      × (get_input_channel c ≡ some c)
unfolding get_input_channel get_input_user is_channel
get_input_channel-get_input_user e c h = ground arith
