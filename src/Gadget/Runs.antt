-- ===== src/Gadget/Runs.antt =====
-- cmd/ipod: requests and events at concrete inputs.
use ipod.Base.{ℕ, ◌≡◌, refl, true, false, none, some, List, [], ◌∷◌, arith, ok, ap}
use ipod.Lingo.Ids.{new_lingo_cmd_id, lingo_id}
use ipod.Command.{
  Command, CommandSerde, Out, known, handle_cmd_id, marshal_cmd, unmarshal_cmd, no_commands,
}
use ipod.Command.RoundTrip.{TrxFits, on_wire}
use ipod.DispRemote.Handler.{Now}
use ipod.DispRemote.Notify.{new_disp_handler}
use ipod.ExtRemote.Notify.{new_ext_handler}
use ipod.General.Payloads.{GeneralPayload, general_code, set_ui_mode, request_ipod_name}
use ipod.General.Structs.{general_layout}
use ipod.General.Values.{general_fields}
use ipod.General.Registration.{general_id}
use ipod.General.RoundTrip.{sized}
use ipod.General.Tokens.{FidTokenValue, acc_caps_token}
use ipod.General.Handler.{
  General, ack_success, challenge_of, handle_general, handle_payload, handle_known, handle_msg,
}
use ipod.General.Speaking.{saying, answering, handle_each, respond_lem}
use ipod.General.Authentication.{Section, bring, dialogue, certificate_collected}
use ipod.General.Answering.{Answered, handle_general-Answered}
use ipod.Gadget.Payloads.{AnyPayload, general, any_payloads, general_part}
use ipod.Gadget.Registration.{general_registered}
use ipod.Gadget.Lifting.{Crossing, general_one, any_cmd_round_trip}
use ipod.Gadget.Device.{Surroundings, DevGeneral, dev_general}
use ipod.Gadget.Packets.{World, Gadget, Process, handle_packet, handle_packets}
use ipod.Gadget.Events.{Event, tick, notified, start_loop, run}
use ipod.Gadget.Quiet.{Unsubscribed, after_events, run-Unsubscribed}
use ipod.Gadget.Keeping.{kept, keep_all, handle_packets-kept}

abbrev env : Surroundings
env = record { bt_alias = []; random = 7 ∷ 8 ∷ []; device_cert = none }

abbrev device : DevGeneral
device = record { ui_mode = 0; tokens = []; has_writer = false; auth_challenge = [] }

abbrev lingo_state : General DevGeneral
lingo_state = record { dev = device; cert_buf = 9 ∷ [] }

abbrev noon : Now
noon = record { year = 2026; month = 1; day = 2; hour = 12; minute = 0 }

abbrev no_phone : World
no_phone = record { surroundings = env; now = noon; source = none }

abbrev gadget : Gadget
gadget = record {
  general = lingo_state;
  disp = new_disp_handler;
  ext = new_ext_handler;
  calls = [];
}

abbrev first_half : Section
first_half = record { id = 0x15; transaction = some 4; minor = 0; cert = 1 ∷ 2 ∷ [] }

abbrev last_half : Section
last_half = record { id = 0x15; transaction = some 5; minor = 0; cert = 3 ∷ [] }

certificate_collected_example :
    handle_each any_payloads general_part
      (dev_general env)
      lingo_state
      (bring any_payloads general_part (dev_general env) 2 1 0 (first_half ∷ last_half ∷ []))
      no_commands
    ≡ (
      record {
        dev =
            (challenge_of any_payloads general_part
              (dev_general env)
              device
              (dev_general env).generate_auth_challenge).0;
        cert_buf = 1 ∷ 2 ∷ 3 ∷ [];
      },
      dialogue any_payloads general_part
          (dev_general env)
          general_registered
          (first_half ∷ [])
          last_half
          device
          no_commands,
    )
certificate_collected_example =
    certificate_collected any_payloads general_part (dev_general env) general_registered
      (first_half ∷ []) last_half lingo_state 2 no_commands (omega arith)

abbrev caps : FidTokenValue
caps = record { fid_type = 0; fid_subtype = 1; token = some (acc_caps_token 0x210) }

handle_general-Answered_example :
    Answered any_payloads general_part
      (dev_general env)
      (some 6)
      []
      (handle_general any_payloads general_part
        (dev_general env)
        lingo_state
        (saying any_payloads general_part 0x07 (some 6) request_ipod_name)
        no_commands).1.commands
handle_general-Answered_example =
    handle_general-Answered any_payloads general_part (dev_general env) general_registered
      lingo_state 0x07 (some 6) request_ipod_name no_commands tt

-- The other side sets the extended mode, in a frame of its own.
abbrev mode : GeneralPayload
mode = set_ui_mode 1

abbrev fresh : CommandSerde
fresh = record { trx_enabled = false }

abbrev process : Process
process = record { serde = fresh; gadget = gadget; trx_counter = 0 }

abbrev mode_packet : List ℕ
mode_packet = 0 ∷ 0x37 ∷ 1 ∷ []

mode-Crossing : Crossing (general mode) (general_id mode)
unfolding general_layout general_fields
mode-Crossing = general_one mode (sized mode (omega arith, tt) tt) tt

mode_fits : TrxFits (handle_cmd_id fresh (general_id mode)).trx_enabled none
unfolding handle_cmd_id general_code new_lingo_cmd_id
mode_fits = tt

any_cmd_round_trip_example :
    (pkt : List ℕ) × (marshal_cmd any_payloads fresh
        (record { id = general_id mode; transaction = none; payload = some (known (general mode)) })
      ≡ (handle_cmd_id fresh (general_id mode), ok pkt))
    × (unmarshal_cmd any_payloads fresh pkt ≡ (
      handle_cmd_id fresh (general_id mode),
      ok (
        record {
          id = general_id mode;
          transaction = on_wire (handle_cmd_id fresh (general_id mode)).trx_enabled none;
          payload = some (known (general mode));
        },
        none,
      ),
    ))
any_cmd_round_trip_example =
    any_cmd_round_trip fresh none (general mode) (general_id mode) mode-Crossing mode_fits

abbrev mode_set : Command AnyPayload
mode_set = record { id = 0x37; transaction = none; payload = some (known (general mode)) }

abbrev mode_acked : Command AnyPayload
mode_acked = answering any_payloads general_part none (ack_success 0x37)

abbrev extended : Gadget
extended = record gadget {
  general = record { dev = record device { ui_mode = 1 }; cert_buf = 9 ∷ [] };
}

mode_set_run :
    handle_packets (λ n. no_phone) 0 gadget no_commands (mode_set ∷ [])
    ≡ ok (extended, record { commands = mode_acked ∷ []; trx_counter = 0 })
unfolding handle_packets handle_packet handle_general handle_payload handle_known handle_msg
    dev_general lingo_id
mode_set_run =
    ap (λ (o : Out AnyPayload). ok (extended, o))
      (respond_lem any_payloads general_part general_registered mode_set (ack_success 0x37)
        no_commands)

handle_packets-kept_example : kept extended.general.dev ≡ keep_all (kept device) (mode_set ∷ [])
handle_packets-kept_example =
    handle_packets-kept (λ n. no_phone) 0 gadget extended no_commands
      (record { commands = mode_acked ∷ []; trx_counter = 0 }) (mode_set ∷ []) mode_set_run

abbrev unasked_events : List Event
unasked_events = tick (some (1500, true)) ∷ notified true (some true) ∷ tick none ∷ []

started-Unsubscribed : Unsubscribed (start_loop gadget 0).process
unfolding start_loop
started-Unsubscribed = record { ext_lem = refl; disp_lem = refl }

started_going : (start_loop gadget 0).running ≡ true
unfolding start_loop
started_going = refl

run-Unsubscribed_example :
    run (start_loop gadget 0) unasked_events
    ≡ some (
        ok (
          record (start_loop gadget 0) {
            process = after_events (start_loop gadget 0).process unasked_events;
          },
          [],
        ))
run-Unsubscribed_example =
    run-Unsubscribed unasked_events (start_loop gadget 0) started_going started-Unsubscribed
      (tt, (tt, (tt, tt)))
