-- ===== src/ExtRemote/Notify.antt =====
-- lingo-extremote/notify.go: the notifications that the car asked for.
use ipod.Base.{ℕ, ◌+◌, ◌/◌, ◌%◌, ◌^◌, Bool, not, ◌==◌, if◌then◌else◌}
use ipod.ExtRemote.Payloads.{
  ExtPayload, play_status_change_notification_track_index, play_status_change_notification_extended,
  play_status_change_notification_position,
}
use ipod.Command.{Out, send}
use ipod.ExtRemote.Codec.{ext_payloads}

-- `ExtRemoteHandler`; both fields are uint32.
pub record ExtHandler : Type 0 where
  pub track_index : ℕ
  pub notify_mask : ℕ

abbrev pub new_ext_handler : ExtHandler
new_ext_handler = record { track_index = 0; notify_mask = 0 }

-- `OnTrackChanged`
unfoldable pub ext_track_changed : ExtHandler → ExtHandler
ext_track_changed h = record h { track_index = (h.track_index + 1) % 4294967296 }

unfoldable pub set_notify_mask : ExtHandler → ℕ → ExtHandler
set_notify_mask h mask = record h { notify_mask = mask }

-- `isEnabled` of the mask with the one bit of this number.
unfoldable pub ext_enabled : ExtHandler → ℕ → Bool
ext_enabled h bit = h.notify_mask / 2 ^ bit % 2 == 1

abbrev pub bit_extended_play_state : ℕ
bit_extended_play_state = 1

abbrev pub bit_notify_track_index : ℕ
bit_notify_track_index = 2

abbrev pub bit_track_offset_ms : ℕ
bit_track_offset_ms = 3

-- The bits 0, 2, 3 and 5.
abbrev pub notify_mask_one_byte_enable : ℕ
notify_mask_one_byte_enable = 2 ^ 0 + 2 ^ 2 + 2 ^ 3 + 2 ^ 5

unfoldable pub ext_send_play_status : ExtHandler → Bool → Out ExtPayload → Out ExtPayload
unfolding ext_enabled send
ext_send_play_status h playing out =
    if not (ext_enabled h bit_extended_play_state)
    then out
    else let state = if playing then 0x0A else 0x0B in
      send ext_payloads (play_status_change_notification_extended 0x06 state) out

unfoldable pub ext_send_track_index : ExtHandler → Out ExtPayload → Out ExtPayload
unfolding ext_enabled send
ext_send_track_index h out =
    if not (ext_enabled h bit_notify_track_index)
    then out
    else send ext_payloads (play_status_change_notification_track_index 0x01 h.track_index) out

unfoldable pub ext_send_track_position_ms : ExtHandler → ℕ → Out ExtPayload → Out ExtPayload
unfolding ext_enabled send
ext_send_track_position_ms h pos_ms out =
    if not (ext_enabled h bit_track_offset_ms)
    then out
    else send ext_payloads (play_status_change_notification_position 0x04 pos_ms) out
