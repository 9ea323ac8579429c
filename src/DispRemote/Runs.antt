-- ===== src/DispRemote/Runs.antt =====
-- lingo-dispremote: runs and theorems at concrete requests.
use ipod.Base.{◌≡◌, true, none, some, [], ◌∷◌}
use ipod.DispRemote.Payloads.{DispPayload, set_remote_event_notification}
use ipod.Command.{Command, known, no_commands}
use ipod.DispRemote.Notify.{new_disp_handler}
use ipod.DispRemote.Handler.{Device, Now}
use ipod.DispRemote.Answers.{handle_all, last_mask, handle_all-last_mask}

abbrev noon : Now
noon = record { year = 2026; month = 11; day = 26; hour = 12; minute = 0 }

abbrev phone : Device
phone = record {
  track_position_ms = 61500;
  track_length_ms = 0;
  is_playing = true;
  track_title = 65 ∷ [];
  track_artist = 66 ∷ [];
  track_album = 67 ∷ [];
}

abbrev subscribe : Command DispPayload
subscribe = record {
  id = 0x030008;
  transaction = some 3;
  payload = some (known (set_remote_event_notification 0x8002));
}

handle_all-last_mask_example :
    (handle_all new_disp_handler (subscribe ∷ []) no_commands none noon).0.event_mask
    ≡ last_mask 0 (subscribe ∷ [])
handle_all-last_mask_example =
    handle_all-last_mask (subscribe ∷ []) new_disp_handler no_commands none noon
