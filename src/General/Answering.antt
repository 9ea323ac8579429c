-- ===== src/General/Answering.antt =====
-- lingo-general/handler.go: the answers to requests, in every state of the device.
use ipod.Base.{
  ℕ, zero, suc, ◌≡◌, sym, ap, ◌∙◌, subst, Bool, true, false, Option, List, [], ◌∷◌, ◌++◌,
  append_assoc, ◌<◌, leb, ltb, ◌==◌, if◌then◌else◌, arith,
}
use ipod.Command.{Payloads, Command, Out, trx_reset, respond, send}
use ipod.General.Payloads.{
  GeneralPayload, identify, request_identify, request_remote_ui_mode, enter_remote_ui_mode,
  exit_remote_ui_mode, request_ipod_name, request_ipod_software_version, request_ipod_serial_num,
  request_ipod_model_num, request_lingo_protocol_version, request_transport_max_payload_size,
  identify_device_lingoes, get_dev_authentication_info, ret_dev_authentication_info,
  get_dev_authentication_signature_v2, get_ipod_authentication_info,
  get_ipod_authentication_signature, get_ipod_options, get_ipod_preferences, set_ipod_preferences,
  get_ui_mode, set_ui_mode, start_idps, set_fid_token_values, end_idps, set_event_notification,
  get_ipod_options_for_lingo, get_event_notification, get_supported_event_notification,
  cancel_command, set_available_current, request_application_launch, get_now_playing_focus_app,
}
use ipod.General.Device.{Part, DeviceGeneral}
use ipod.General.Handler.{
  General, reply, send_own, receive_cert, enter_mode, end_idps_reply, handle_msg, handle_general,
}
use ipod.General.Speaking.{
  IsRegistered, saying, answering, asking, respond_lem, send_lem, handle_general_lem,
}

-- The requests. EndIDPS knows the states 0 to 2, and the answer to a signature is left to
-- the device.
abbrev pub Asks : GeneralPayload → Type 0
Asks request_remote_ui_mode = Unit {0}
Asks enter_remote_ui_mode = Unit {0}
Asks exit_remote_ui_mode = Unit {0}
Asks request_ipod_name = Unit {0}
Asks request_ipod_software_version = Unit {0}
Asks request_ipod_serial_num = Unit {0}
Asks request_ipod_model_num = Unit {0}
Asks (request_lingo_protocol_version _) = Unit {0}
Asks request_transport_max_payload_size = Unit {0}
Asks (identify _ _) = Unit {0}
Asks (identify_device_lingoes _ _ _) = Unit {0}
Asks (ret_dev_authentication_info _ _ _ _ _) = Unit {0}
Asks get_dev_authentication_info = Unit {0}
Asks (get_dev_authentication_signature_v2 _ _) = Unit {0}
Asks get_ipod_authentication_info = Unit {0}
Asks (get_ipod_authentication_signature _ _) = Unit {0}
Asks get_ipod_options = Unit {0}
Asks (get_ipod_preferences _) = Unit {0}
Asks (set_ipod_preferences _ _ _) = Unit {0}
Asks get_ui_mode = Unit {0}
Asks (set_ui_mode _) = Unit {0}
Asks start_idps = Unit {0}
Asks (set_fid_token_values _) = Unit {0}
Asks (end_idps status) = status < 3
Asks (set_event_notification _) = Unit {0}
Asks (get_ipod_options_for_lingo _) = Unit {0}
Asks get_event_notification = Unit {0}
Asks get_supported_event_notification = Unit {0}
Asks (cancel_command _ _ _) = Unit {0}
Asks (set_available_current _) = Unit {0}
Asks (request_application_launch _ _ _ _) = Unit {0}
Asks get_now_playing_focus_app = Unit {0}
Asks _ = ⊥

module _ {P T D : Type 0} (payloads : Payloads P T) (part : Part GeneralPayload P)
    (ops : DeviceGeneral P D) where
  -- Behind what was there, an answer with this transaction, and perhaps more.
  pub record Answered (t : Option ℕ) (before after : List (Command P)) : Type 0 where
    pub payload : GeneralPayload
    pub more : List (Command P)
    pub written : after ≡ before ++ (answering payloads part t payload ∷ more)

  module _ (registered : IsRegistered payloads part) (req : Command P) where
    replied :
        (p : GeneralPayload) (out : Out P)
        → Answered req.transaction out.commands (reply payloads part ops req p out).commands
    unfolding respond
    replied p out = record {
      payload = p;
      more = [];
      written = ap (λ (o : Out P). o.commands) (respond_lem payloads part registered req p out);
    }

    -- What is written behind an answer leaves it one.
    then_reply :
        (before : List (Command P)) (p : GeneralPayload) (out : Out P)
        → Answered req.transaction before out.commands
        → Answered req.transaction before (reply payloads part ops req p out).commands
    unfolding respond
    then_reply before p out a = record {
      payload = a.payload;
      more = a.more ++ (answering payloads part req.transaction p ∷ []);
      written =
          ap (λ (o : Out P). o.commands) (respond_lem payloads part registered req p out)
          ∙ rw a.written (append_assoc before _ _);
    }

    then_send :
        (before : List (Command P)) (p : GeneralPayload) (out : Out P)
        → Answered req.transaction before out.commands
        → Answered req.transaction before (send_own payloads part ops p out).commands
    unfolding send
    then_send before p out a = record {
      payload = a.payload;
      more = a.more ++ (asking payloads part out.trx_counter p ∷ []);
      written =
          ap (λ (o : Out P). o.commands) (send_lem payloads part registered p out)
          ∙ rw a.written (append_assoc before _ _);
    }

    Answered-if :
        (b : Bool) (before : List (Command P)) (x y : General D × Out P)
        → Answered req.transaction before x.1.commands
        → Answered req.transaction before y.1.commands
        → Answered req.transaction before (if b then x else y).1.commands
    Answered-if true before x y h k = h
    Answered-if false before x y h k = k

    mode_entered :
        (g : General D) (mode : ℕ) (out : Out P)
        → Answered req.transaction out.commands
            (enter_mode payloads part ops g req mode out).1.commands
    unfolding enter_mode
    mode_entered g mode out = then_reply out.commands _ _ (replied _ out)

    cert_received :
        (g : General D) (current max : ℕ) (cert : List ℕ) (out : Out P)
        → Answered req.transaction out.commands
            (receive_cert payloads part ops g req current max cert out).1.commands
    unfolding receive_cert
    cert_received g current max cert out =
        Answered-if (ltb current max) out.commands _ _ (replied _ out)
          (then_send out.commands _ _ (replied _ out))

    ended :
        (status : ℕ) (out : Out P)
        → status < 3
        → Answered req.transaction out.commands
            (end_idps_reply payloads part ops req status out).commands
    unfolding end_idps_reply
    ended zero out h = then_send out.commands _ _ (replied _ out)
    ended (suc zero) out h = replied _ out
    ended (suc (suc zero)) out h = replied _ out
    ended (suc (suc (suc n))) out h = absurd (omega arith)

    msg-Answered :
        (g : General D) (p : GeneralPayload) (out : Out P)
        → Asks p
        → Answered req.transaction out.commands
            (handle_msg payloads part ops g req p out).1.commands
    unfolding handle_msg trx_reset
    msg-Answered g enter_remote_ui_mode out h =
        Answered-if (ops.ui_mode g.dev == 1) out.commands _ _ (replied _ out) (mode_entered g 1 out)
    msg-Answered g exit_remote_ui_mode out h =
        Answered-if (ops.ui_mode g.dev == 1) out.commands _ _ (mode_entered g 0 out) (replied _ out)
    msg-Answered g (identify_device_lingoes _ options _) out h =
        Answered-if (options == 1) out.commands _ _ (replied _ out) (replied _ out)
    msg-Answered g (ret_dev_authentication_info major minor current max cert) out h =
        Answered-if (leb 2 major) out.commands _ _ (cert_received g current max cert out)
          (replied _ out)
    msg-Answered g start_idps out h = replied _ (trx_reset out)
    msg-Answered g (end_idps status) out h = ended status out h
    msg-Answered g request_remote_ui_mode out h = replied _ out
    msg-Answered g request_ipod_name out h = replied _ out
    msg-Answered g request_ipod_software_version out h = replied _ out
    msg-Answered g request_ipod_serial_num out h = replied _ out
    msg-Answered g request_ipod_model_num out h = replied _ out
    msg-Answered g (request_lingo_protocol_version _) out h = replied _ out
    msg-Answered g request_transport_max_payload_size out h = replied _ out
    msg-Answered g (identify _ _) out h = replied _ out
    msg-Answered g get_dev_authentication_info out h = replied _ out
    msg-Answered g (get_dev_authentication_signature_v2 _ _) out h = replied _ out
    msg-Answered g get_ipod_authentication_info out h = replied _ out
    msg-Answered g (get_ipod_authentication_signature _ _) out h = replied _ out
    msg-Answered g get_ipod_options out h = replied _ out
    msg-Answered g (get_ipod_preferences _) out h = replied _ out
    msg-Answered g (set_ipod_preferences _ _ _) out h = replied _ out
    msg-Answered g get_ui_mode out h = replied _ out
    msg-Answered g (set_ui_mode _) out h = replied _ out
    msg-Answered g (set_fid_token_values _) out h = replied _ out
    msg-Answered g (set_event_notification _) out h = replied _ out
    msg-Answered g (get_ipod_options_for_lingo _) out h = replied _ out
    msg-Answered g get_event_notification out h = replied _ out
    msg-Answered g get_supported_event_notification out h = replied _ out
    msg-Answered g (cancel_command _ _ _) out h = replied _ out
    msg-Answered g (set_available_current _) out h = replied _ out
    msg-Answered g (request_application_launch _ _ _ _) out h = replied _ out
    msg-Answered g get_now_playing_focus_app out h = replied _ out
    msg-Answered g request_identify out h = elim h [ ]
    msg-Answered g _ out h = elim h [ ]

  -- Every request of the general lingo is answered at once, whatever the state of the device: right behind
  -- what was written before stands a payload of the lingo, with the transaction of the request. EndIDPS
  -- is a request in the states 0 to 2; the signature of the other side, whose answer goes through the
  -- device, and the types that the handler skips are none.
  pub handle_general-Answered :
      (registered : IsRegistered payloads part) (g : General D) (id : ℕ) (t : Option ℕ)
      (p : GeneralPayload) (out : Out P)
      → Asks p
      → Answered t out.commands
          (handle_general payloads part ops g (saying payloads part id t p) out).1.commands
  handle_general-Answered registered g id t p out h =
      subst (λ (done : General D × Out P). Answered t out.commands done.1.commands)
        (sym (handle_general_lem payloads part ops g id t p out))
        (msg-Answered registered (saying payloads part id t p) g p out h)
