-- ===== src/Types/Permissions/Tests.antt =====
-- An admin of a channel who may pin messages, and a member of a channel.
use telegram_mcub_go.Base.{true, false, none, ◌≡◌, refl}
use telegram_mcub_go.Types.Permissions.{
  ParticipantPermissions, channel_admin, is_admin, is_restricted, restrictions, can_send_messages,
  can_send_media, can_send_stickers, can_send_polls,
}
use telegram_mcub_go.Types.Permissions.Privileges.{privileged-is_admin}

abbrev pinning_admin : ParticipantPermissions
pinning_admin = record {
  raw = channel_admin (record {
    change_info = false;
    delete_messages = false;
    ban_users = false;
    invite_users = false;
    pin_messages = true;
    manage_call = false;
  });
  is_chat = false;
}

privileged-is_admin_example :
    (is_admin pinning_admin ≡ true)
    × (is_restricted pinning_admin ≡ false)
    × (restrictions pinning_admin ≡ none)
    × (can_send_messages pinning_admin ≡ true)
    × (can_send_media pinning_admin ≡ true)
    × (can_send_stickers pinning_admin ≡ true)
    × (can_send_polls pinning_admin ≡ true)
privileged-is_admin_example = privileged-is_admin pinning_admin refl
