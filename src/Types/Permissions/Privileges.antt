-- ===== src/Types/Permissions/Privileges.antt =====
-- How the answers of types/participant_permissions.go depend on one another.
use telegram_mcub_go.Base.{Bool, true, false, ◌||◌, none, arith, ◌≡◌, ◌⊎◌}
use telegram_mcub_go.Types.Permissions.{
  ParticipantPermissions, is_admin, is_banned, is_restricted, can_send_messages, can_send_media,
  can_send_stickers, can_send_polls, can_add_users, can_pin_messages, can_change_info,
  can_delete_messages, can_ban_users, can_invite_users, can_manage_call, restrictions,
}

-- Some answer that only an admin gets is yes.
abbrev pub privileged : ParticipantPermissions → Bool
privileged pp =
    can_add_users pp
    || can_pin_messages pp
    || can_change_info pp
    || can_delete_messages pp
    || can_ban_users pp
    || can_invite_users pp
    || can_manage_call pp

-- A participant with some privilege is an admin, is not restricted, and may send messages, media,
-- stickers and polls.
pub privileged-is_admin :
    (pp : ParticipantPermissions)
    → privileged pp ≡ true
    → (is_admin pp ≡ true)
      × (is_restricted pp ≡ false)
      × (restrictions pp ≡ none)
      × (can_send_messages pp ≡ true)
      × (can_send_media pp ≡ true)
      × (can_send_stickers pp ≡ true)
      × (can_send_polls pp ≡ true)
privileged-is_admin pp h = ground arith

-- A participant that is not restricted may send messages, media, stickers and polls, unless it is
-- a banned participant of a basic group.
pub is_restricted-can_send :
    (pp : ParticipantPermissions)
    → is_restricted pp ≡ false
    → (is_banned pp ≡ false) ⊎ (pp.is_chat ≡ false)
    → (can_send_messages pp ≡ true)
      × (can_send_media pp ≡ true)
      × (can_send_stickers pp ≡ true)
      × (can_send_polls pp ≡ true)
is_restricted-can_send pp h k = ground arith
