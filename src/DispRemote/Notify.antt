-- ===== src/DispRemote/Notify.antt =====
-- lingo-dispremote/notify.go: the events that the accessory asked for.
use ipod.Base.{ℕ, ◌+◌, ◌/◌, ◌%◌, ◌^◌, Bool, not, [], ◌∷◌, ◌==◌, if◌then◌else◌}
use ipod.DispRemote.Payloads.{DispPayload, remote_event_notification}
use ipod.Wire.{be16, be32}
use ipod.Command.{Out, send}
use ipod.DispRemote.Codec.{disp_payloads}

-- `DispRemoteHandler`; both fields are uint32.
pub record DispHandler : Type 0 where
  pub track_index : ℕ
  pub event_mask : ℕ

abbrev pub new_disp_handler : DispHandler
new_disp_handler = record { track_index = 0; event_mask = 0 }

-- `OnTrackChanged`
unfoldable pub on_track_changed : DispHandler → DispHandler
on_track_changed h = record h { track_index = (h.track_index + 1) % 4294967296 }

unfoldable pub set_event_mask : DispHandler → ℕ → DispHandler
set_event_mask h mask = record h { event_mask = mask }

-- `isEnabled` of the mask with the one bit of this number.
unfoldable pub is_enabled : DispHandler → ℕ → Bool
is_enabled h bit = h.event_mask / 2 ^ bit % 2 == 1

abbrev pub bit_track_index : ℕ
bit_track_index = 1

abbrev pub bit_play_status : ℕ
bit_play_status = 3

abbrev pub bit_track_position_sec : ℕ
bit_track_position_sec = 15

abbrev pub event_num_track_index : ℕ
event_num_track_index = 0x01

abbrev pub event_num_play_status : ℕ
event_num_play_status = 0x03

abbrev pub event_num_track_position_sec : ℕ
event_num_track_position_sec = 0x0F

abbrev pub play_status_playing : ℕ
play_status_playing = 1

abbrev pub play_status_paused : ℕ
play_status_paused = 2

unfoldable pub send_play_status : DispHandler → Bool → Out DispPayload → Out DispPayload
unfolding is_enabled send
send_play_status h playing out =
    if not (is_enabled h bit_play_status)
    then out
    else let status = if playing then play_status_playing else play_status_paused in
      send disp_payloads (remote_event_notification event_num_play_status (status ∷ [])) out

unfoldable pub send_track_index : DispHandler → Out DispPayload → Out DispPayload
unfolding is_enabled send
send_track_index h out =
    if not (is_enabled h bit_track_index)
    then out
    else send disp_payloads (remote_event_notification event_num_track_index (be32 h.track_index))
        out

-- `SendTrackPositionSec`, whose seconds are cut to a uint16.
unfoldable pub send_track_position_sec : DispHandler → ℕ → Out DispPayload → Out DispPayload
unfolding is_enabled send
send_track_position_sec h pos_ms out =
    if not (is_enabled h bit_track_position_sec)
    then out
    else send disp_payloads
        (remote_event_notification event_num_track_position_sec (be16 (pos_ms / 1000 % 65536))) out
