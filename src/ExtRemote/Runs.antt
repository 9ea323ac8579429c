-- ===== src/ExtRemote/Runs.antt =====
-- lingo-extremote: theorems at concrete requests.
use ipod.Base.{◌≡◌, refl, true, some, [], ◌∷◌, ok}
use ipod.ExtRemote.Payloads.{
  ExtPayload, ack, set_play_status_change_notification_short, play_control,
}
use ipod.Lingo.Ids.{cmd_id}
use ipod.Command.{Command, known, no_commands}
use ipod.ExtRemote.Notify.{new_ext_handler}
use ipod.ExtRemote.Device.{ExtDevice, pause, play_method}
use ipod.ExtRemote.Handler.{Done, ext_handle}
use ipod.ExtRemote.Answers.{Modest, ext_handle_total, one_byte_form_quiet}

abbrev phone : ExtDevice
phone = record {
  track_length = 0;
  track_pos = 1500;
  playing = true;
  is_playing = true;
  track_title = 65 ∷ [];
  track_artist = 66 ∷ [];
  track_album = 67 ∷ [];
}

toggled : play_method true 0x01 ≡ some pause
unfolding play_method
toggled = refl

abbrev toggle : Command ExtPayload
toggle = record { id = 0x040029; transaction = some 5; payload = some (known (play_control 1)) }

ext_handle_total_example :
    (done : Done) × (ext_handle new_ext_handler toggle no_commands (some phone) ≡ ok done)
    × Modest no_commands done
ext_handle_total_example = ext_handle_total new_ext_handler toggle no_commands (some phone)

one_byte_form_quiet_example :
    ext_handle new_ext_handler
      (record {
        id = 0x040026;
        transaction = some 6;
        payload = some (known (set_play_status_change_notification_short true));
      })
      no_commands
      (some phone)
    ≡ ok (record {
      handler = record { track_index = 0; notify_mask = 45 };
      out = record {
        commands =
            record {
              id = 0x040001;
              transaction = some 6;
              payload = some (known (ack 0 (cmd_id 0x040026)));
            }
            ∷ [];
        trx_counter = 0;
      };
      calls = [];
    })
one_byte_form_quiet_example =
    one_byte_form_quiet new_ext_handler 0x040026 (some 6) true no_commands (some phone)
