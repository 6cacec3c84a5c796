-- ===== src/Utils/Peers/Tests.antt =====
-- A user, a group and a channel with identifiers as Telegram gives them.
use telegram_mcub_go.Base.{◌≡◌, arith, some, ℤ, pos, ◌-ℤ◌}
use telegram_mcub_go.Utils.Peers.{
  chat, peer_chat, peer_channel, resolve_entity_like, resolve_peer, entity,
}
use telegram_mcub_go.Utils.Peers.Marks.{
  peer_of, resolve_peer-resolve_entity_like, resolve_peer-large_group,
}

abbrev no_hashes : ℤ → ℤ
no_hashes id = pos 0

resolve_peer-resolve_entity_like_example :
    (id : ℤ) × (resolve_entity_like (entity (chat (pos 42))) ≡ some id)
    × (peer_of (resolve_peer no_hashes id) ≡ peer_chat (pos 42))
resolve_peer-resolve_entity_like_example =
    resolve_peer-resolve_entity_like no_hashes (chat (pos 42)) (omega arith, omega arith)

resolve_peer-large_group_example :
    (id : ℤ) × (resolve_entity_like (entity (peer_chat (pos 4_000_000_000))) ≡ some id)
    × (peer_of (resolve_peer no_hashes id)
        ≡ peer_channel (pos 4_000_000_000 -ℤ pos 1_000_000_000_000))
resolve_peer-large_group_example =
    resolve_peer-large_group no_hashes (pos 4_000_000_000) (omega arith)
