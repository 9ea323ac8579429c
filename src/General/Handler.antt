-- ===== src/General/Handler.antt =====
-- lingo-general/handler.go: what the general lingo answers, and the identification and authentication
-- of the other side.
use ipod.Base.{
  ℕ, ◌%◌, Option, none, some, List, [], ◌∷◌, ◌++◌, ltb, leb, ◌==◌, if◌then◌else◌, replicate,
}
use ipod.Text.{bool_to_byte, byte_to_bool, string_to_bytes}
use ipod.Lingo.Ids.{cmd_id}
use ipod.Command.{Payloads, Payload, known, unknown, Command, Out, trx_reset, respond, send}
use ipod.General.Tokens.{FidTokenValue}
use ipod.General.Acks.{ack_fid_token_values}
use ipod.General.Payloads.{
  GeneralPayload, identify, ack, ack_pending, request_remote_ui_mode, return_remote_ui_mode,
  enter_remote_ui_mode, exit_remote_ui_mode, request_ipod_name, return_ipod_name,
  request_ipod_software_version, return_ipod_software_version, request_ipod_serial_num,
  return_ipod_serial_num, request_ipod_model_num, return_ipod_model_num,
  request_lingo_protocol_version, return_lingo_protocol_version, request_transport_max_payload_size,
  return_transport_max_payload_size, identify_device_lingoes, get_dev_authentication_info,
  ret_dev_authentication_info, ack_dev_authentication_info, get_dev_authentication_signature_v2,
  ret_dev_authentication_signature, ack_dev_authentication_status, get_ipod_authentication_info,
  ret_ipod_authentication_info, get_ipod_authentication_signature,
  ret_ipod_authentication_signature, get_ipod_options, ret_ipod_options, get_ipod_preferences,
  ret_ipod_preferences, set_ipod_preferences, get_ui_mode, ret_ui_mode, set_ui_mode, start_idps,
  set_fid_token_values, ret_fid_token_value_acks, end_idps, idps_status, set_event_notification,
  get_ipod_options_for_lingo, ret_ipod_options_for_lingo, get_event_notification,
  ret_event_notification, get_supported_event_notification, cancel_command,
  ret_supported_event_notification, set_available_current, request_application_launch,
  get_now_playing_focus_app, ret_now_playing_focus_app,
}
use ipod.General.Device.{Part, DeviceGeneral}

-- `ack`, `ackSuccess` and `ackPending` of a request, whose id is cut to a byte.
abbrev pub ack_of : ℕ → ℕ → GeneralPayload
unfolding cmd_id
ack_of id status = ack status (cmd_id id % 256)

abbrev pub ack_success : ℕ → GeneralPayload
ack_success id = ack_of id 0x00

abbrev pub pending : ℕ → ℕ → GeneralPayload
unfolding cmd_id
pending id max_wait = ack_pending 0x06 (cmd_id id % 256) max_wait

abbrev pub ui_mode_standard : ℕ
ui_mode_standard = 0x00

abbrev pub ui_mode_extended : ℕ
ui_mode_extended = 0x01

-- The model's name, "MC676".
abbrev pub model_name : List ℕ
model_name = b'M' ∷ b'C' ∷ b'6' ∷ b'7' ∷ b'6' ∷ []

-- The device's state and `devCertBuf`.
pub record General (D : Type 0) : Type 0 where
  pub dev : D
  pub cert_buf : List ℕ

module _ {P T D : Type 0} (payloads : Payloads P T) (part : Part GeneralPayload P)
    (ops : DeviceGeneral P D) where
  abbrev pub reply : Command P → GeneralPayload → Out P → Out P
  unfolding respond
  reply req p out = respond payloads req (part.put p) out

  abbrev pub send_own : GeneralPayload → Out P → Out P
  unfolding send
  send_own p out = send payloads (part.put p) out

  abbrev pub set_dev : General D → D → General D
  set_dev g d = record g { dev = d }

  abbrev pub set_tokens : D → List FidTokenValue → D
  set_tokens d [] = d
  set_tokens d (v ∷ vs) = set_tokens (ops.set_token d v) vs

  -- The device's challenge, or zeros of a device that makes none.
  abbrev pub challenge_of : D → Option (D → D × List ℕ) → D × List ℕ
  challenge_of d none = (d, replicate 20 0)
  challenge_of d (some generate) = generate d

  -- A section of the other side's certificate: the buffer is emptied by the first one, and behind the
  -- last one the other side is sent a challenge.
  unfoldable pub receive_cert : General D → Command P → ℕ → ℕ → List ℕ → Out P → General D × Out P
  unfolding respond send
  receive_cert g req current max cert out =
      let buffer = (if current == 0 then [] else g.cert_buf) ++ cert in
      if ltb current max
      then (record g { cert_buf = buffer }, reply req (ack_success req.id) out)
      else let made = challenge_of g.dev ops.generate_auth_challenge in
        (
          record { dev = made.0; cert_buf = buffer },
          send_own (get_dev_authentication_signature_v2 made.1 0x01)
              (reply req (ack_dev_authentication_info 0x00) out),
        )

  unfoldable pub enter_mode : General D → Command P → ℕ → Out P → General D × Out P
  unfolding respond
  enter_mode g req mode out = (
    set_dev g (ops.set_ui_mode g.dev mode),
    reply req (ack_success req.id) (reply req (pending req.id 300) out),
  )

  -- The answers to `EndIDPS`, whose status the device is told of.
  unfoldable pub end_idps_reply : Command P → ℕ → Out P → Out P
  unfolding respond send
  end_idps_reply req status out =
      if status == 0x00
      then send_own get_dev_authentication_info (reply req (idps_status 0x00) out)
      else if status == 0x01
      then reply req (idps_status 0x04) out
      else if status == 0x02
      then reply req (idps_status 0x06) out
      else out

  -- The type switch of `HandleGeneral`.
  unfoldable pub handle_msg : General D → Command P → GeneralPayload → Out P → General D × Out P
  unfolding respond send receive_cert enter_mode end_idps_reply trx_reset ack_fid_token_values
      bool_to_byte byte_to_bool string_to_bytes
  handle_msg g req request_remote_ui_mode out = (
    g,
    reply req (return_remote_ui_mode (bool_to_byte (ops.ui_mode g.dev == ui_mode_extended))) out,
  )
  handle_msg g req enter_remote_ui_mode out =
      if ops.ui_mode g.dev == ui_mode_extended
      then (g, reply req (ack_success req.id) out)
      else enter_mode g req ui_mode_extended out
  handle_msg g req exit_remote_ui_mode out =
      if ops.ui_mode g.dev == ui_mode_extended
      then enter_mode g req ui_mode_standard out
      else (g, reply req (ack_success req.id) out)
  handle_msg g req request_ipod_name out =
      (g, reply req (return_ipod_name (string_to_bytes (ops.name g.dev))) out)
  handle_msg g req request_ipod_software_version out =
      let version = ops.software_version g.dev in
      (g, reply req (return_ipod_software_version version.0 version.1 version.2) out)
  handle_msg g req request_ipod_serial_num out =
      (g, reply req (return_ipod_serial_num (string_to_bytes (ops.serial_num g.dev))) out)
  handle_msg g req request_ipod_model_num out =
      (g, reply req (return_ipod_model_num 0x00111349 (string_to_bytes model_name)) out)
  handle_msg g req (request_lingo_protocol_version lingo) out =
      let version = ops.lingo_protocol_version g.dev lingo in
      (g, reply req (return_lingo_protocol_version lingo version.0 version.1) out)
  handle_msg g req request_transport_max_payload_size out =
      (g, reply req (return_transport_max_payload_size (ops.max_payload g.dev)) out)
  handle_msg g req (identify _ _) out = (g, reply req (ack_success req.id) out)
  handle_msg g req (identify_device_lingoes _ options _) out =
      if options == 0x01
      then (g, reply req (ack_of req.id 0x02) out)
      else (g, reply req (ack_success req.id) out)
  handle_msg g req (ret_dev_authentication_info major minor current max cert) out =
      if leb 2 major
      then receive_cert g req current max cert out
      else (g, reply req (ack_dev_authentication_info 0x00) out)
  handle_msg g req get_dev_authentication_info out =
      let info = ops.device_authentication_info g.dev in
      (g, reply req (ret_dev_authentication_info info.0 info.1 0 0 info.2) out)
  handle_msg g req (ret_dev_authentication_signature _) out =
      let done =
        ops.on_authentication_complete g.dev (reply req (ack_dev_authentication_status 0x00) out) in
      (set_dev g done.0, done.1)
  handle_msg g req (get_dev_authentication_signature_v2 _ _) out =
      (g, reply req (ret_dev_authentication_signature []) out)
  handle_msg g req get_ipod_authentication_info out =
      (g, reply req (ret_ipod_authentication_info 1 1 0 0 []) out)
  handle_msg g req (get_ipod_authentication_signature challenge _) out =
      (g, reply req (ret_ipod_authentication_signature challenge) out)
  handle_msg g req get_ipod_options out = (g, reply req (ret_ipod_options 0x00) out)
  handle_msg g req (get_ipod_preferences class) out =
      (g, reply req (ret_ipod_preferences class (ops.pref_setting_id g.dev class)) out)
  handle_msg g req (set_ipod_preferences class setting restore) out = (
    set_dev g (ops.set_pref_setting_id g.dev class setting (byte_to_bool restore)),
    reply req (ack_success req.id) out,
  )
  handle_msg g req get_ui_mode out = (g, reply req (ret_ui_mode (ops.ui_mode g.dev)) out)
  handle_msg g req (set_ui_mode mode) out =
      (set_dev g (ops.set_ui_mode g.dev mode), reply req (ack_success req.id) out)
  handle_msg g req start_idps out =
      (set_dev g (ops.start_idps g.dev), reply req (ack_success req.id) (trx_reset out))
  handle_msg g req (set_fid_token_values values) out = (
    set_dev g (set_tokens g.dev values),
    reply req (ret_fid_token_value_acks (ack_fid_token_values values)) out,
  )
  handle_msg g req (end_idps status) out =
      (set_dev g (ops.end_idps g.dev status), end_idps_reply req status out)
  handle_msg g req (set_event_notification mask) out =
      (set_dev g (ops.set_event_notification_mask g.dev mask), reply req (ack_success req.id) out)
  handle_msg g req (get_ipod_options_for_lingo lingo) out =
      (g, reply req (ret_ipod_options_for_lingo lingo (ops.lingo_options g.dev lingo)) out)
  handle_msg g req get_event_notification out =
      (g, reply req (ret_event_notification (ops.event_notification_mask g.dev)) out)
  handle_msg g req get_supported_event_notification out = (
    g,
    reply req (ret_supported_event_notification (ops.supported_event_notification_mask g.dev)) out,
  )
  handle_msg g req (cancel_command lingo cmd trx) out =
      (set_dev g (ops.cancel_command g.dev lingo cmd trx), reply req (ack_success req.id) out)
  handle_msg g req (set_available_current _) out = (g, reply req (ack_success req.id) out)
  handle_msg g req (request_application_launch _ _ _ _) out =
      (g, reply req (ack_of req.id 0x02) out)
  handle_msg g req get_now_playing_focus_app out =
      (g, reply req (ret_now_playing_focus_app (string_to_bytes [])) out)
  handle_msg g req _ out = (g, out)

  -- What the program holds of the payload: one of the general lingo, or another one, which is skipped.
  unfoldable pub handle_known :
      General D → Command P → Option GeneralPayload → Out P → General D × Out P
  unfolding handle_msg
  handle_known g req none out = (g, out)
  handle_known g req (some msg) out = handle_msg g req msg out

  unfoldable pub handle_payload :
      General D → Command P → Option (Payload P) → Out P → General D × Out P
  unfolding respond handle_known
  handle_payload g req none out = (g, out)
  handle_payload g req (some (unknown bytes)) out = (g, reply req (ack_of req.id 0x05) out)
  handle_payload g req (some (known p)) out = handle_known g req (part.get p) out

  -- `HandleGeneral`, whose error is always nil.
  unfoldable pub handle_general : General D → Command P → Out P → General D × Out P
  unfolding handle_payload
  handle_general g req out = handle_payload g req req.payload out
