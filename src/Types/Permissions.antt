-- ===== src/Types/Permissions.antt =====
-- types/participant_permissions.go. The participant classes are those of gotd/td, of which the source
-- reads the constructor and the rights.
pub mod Privileges
mod Tests
use telegram_mcub_go.Base.{ℕ, Bool, true, false, not, ◌||◌, Option, none, some, if◌then◌else◌}

-- `tg.ChatBannedRights`: a flag that is set forbids.
pub record BannedRights : Type 0 where
  pub send_messages : Bool
  pub send_media : Bool
  pub send_stickers : Bool
  pub send_gifs : Bool
  pub send_games : Bool
  pub send_inline : Bool
  pub embed_links : Bool
  pub send_polls : Bool
  pub change_info : Bool
  pub invite_users : Bool
  pub pin_messages : Bool

-- `tg.ChatAdminRights`, the flags that the source reads: a flag that is set allows.
pub record AdminRights : Type 0 where
  pub change_info : Bool
  pub delete_messages : Bool
  pub ban_users : Bool
  pub invite_users : Bool
  pub pin_messages : Bool
  pub manage_call : Bool

-- The dynamic type of `Raw`; `other` stands for every type that the source has no case for.
pub data Participant : Type 0 where
  channel_creator : AdminRights → Participant
  channel_admin : AdminRights → Participant
  channel_banned : BannedRights → Participant
  chat_creator : Participant
  chat_admin : Participant
  other : Participant

pub record ParticipantPermissions : Type 0 where
  pub raw : Participant
  pub is_chat : Bool

abbrev is_creator_participant : Participant → Bool
is_creator_participant (channel_creator r) = true
is_creator_participant chat_creator = true
is_creator_participant (channel_admin r) = false
is_creator_participant (channel_banned r) = false
is_creator_participant chat_admin = false
is_creator_participant other = false

abbrev pub is_creator : ParticipantPermissions → Bool
is_creator pp = is_creator_participant pp.raw

abbrev is_admin_participant : Participant → Bool
is_admin_participant (channel_admin r) = true
is_admin_participant chat_admin = true
is_admin_participant (channel_creator r) = false
is_admin_participant (channel_banned r) = false
is_admin_participant chat_creator = false
is_admin_participant other = false

abbrev pub is_admin : ParticipantPermissions → Bool
is_admin pp = if is_creator pp then true else is_admin_participant pp.raw

abbrev banned_rights_of : Participant → Option BannedRights
banned_rights_of (channel_banned r) = some r
banned_rights_of (channel_creator r) = none
banned_rights_of (channel_admin r) = none
banned_rights_of chat_creator = none
banned_rights_of chat_admin = none
banned_rights_of other = none

abbrev pub banned_rights : ParticipantPermissions → Option BannedRights
banned_rights pp = banned_rights_of pp.raw

abbrev pub is_banned : ParticipantPermissions → Bool
is_banned pp = elim (banned_rights pp) [ some r ↦ true | none ↦ false ]

abbrev pub is_restricted : ParticipantPermissions → Bool
is_restricted pp = elim (banned_rights pp) [
  | some r ↦
      r.send_messages || r.send_media || r.send_stickers || r.send_gifs || r.send_games
      || r.send_inline || r.embed_links || r.send_polls || r.change_info || r.invite_users
      || r.pin_messages
  | none ↦ false
]

abbrev admin_rights_of : Participant → Option AdminRights
admin_rights_of (channel_admin r) = some r
admin_rights_of (channel_creator r) = some r
admin_rights_of (channel_banned r) = none
admin_rights_of chat_creator = none
admin_rights_of chat_admin = none
admin_rights_of other = none

abbrev pub admin_rights : ParticipantPermissions → Option AdminRights
admin_rights pp = admin_rights_of pp.raw

-- The body that the four `CanSend…` methods share; `forbids` reads the method's flag.
abbrev can_send : (BannedRights → Bool) → ParticipantPermissions → Bool
can_send forbids pp =
    if is_admin pp || pp.is_chat
    then not (is_banned pp)
    else elim (banned_rights pp) [ some r ↦ not (forbids r) | none ↦ true ]

abbrev pub can_send_messages : ParticipantPermissions → Bool
can_send_messages = can_send (λ r. r.send_messages)

abbrev pub can_send_media : ParticipantPermissions → Bool
can_send_media = can_send (λ r. r.send_media)

abbrev pub can_send_stickers : ParticipantPermissions → Bool
can_send_stickers = can_send (λ r. r.send_stickers)

abbrev pub can_send_polls : ParticipantPermissions → Bool
can_send_polls = can_send (λ r. r.send_polls)

-- The body that the methods for an admin's rights share; `in_chat` is the answer in a basic group.
abbrev can_manage :
    (ParticipantPermissions → Bool) → (AdminRights → Bool) → ParticipantPermissions → Bool
can_manage in_chat allows pp =
    if not (is_admin pp)
    then false
    else if pp.is_chat
    then in_chat pp
    else elim (admin_rights pp) [ some r ↦ allows r | none ↦ false ]

abbrev pub can_add_users : ParticipantPermissions → Bool
can_add_users = can_manage (λ pp. true) (λ r. r.invite_users)

abbrev pub can_pin_messages : ParticipantPermissions → Bool
can_pin_messages = can_manage (λ pp. true) (λ r. r.pin_messages)

abbrev pub can_change_info : ParticipantPermissions → Bool
can_change_info = can_manage (λ pp. true) (λ r. r.change_info)

abbrev pub can_delete_messages : ParticipantPermissions → Bool
can_delete_messages = can_manage (λ pp. true) (λ r. r.delete_messages)

abbrev pub can_ban_users : ParticipantPermissions → Bool
can_ban_users = can_manage is_creator (λ r. r.ban_users)

abbrev pub can_invite_users : ParticipantPermissions → Bool
can_invite_users = can_manage (λ pp. true) (λ r. r.invite_users)

abbrev pub can_manage_call : ParticipantPermissions → Bool
can_manage_call = can_manage (λ pp. true) (λ r. r.manage_call)

abbrev pub restrictions : ParticipantPermissions → Option BannedRights
restrictions = banned_rights
