-- ===== src/Gadget/Device.antt =====
-- cmd/ipod/general.go: the program's device of the general lingo. Its log lines are left out, and so is
-- the search for the name of the connected phone, whose result is an argument.
use ipod.Base.{ℕ, Bool, Option, none, some, List, [], ◌∷◌, ◌++◌, ◌==◌, if◌then◌else◌}
use ipod.Lingo.Ids.{
  lingo_general_id, lingo_display_remote_id, lingo_ext_remote_id, lingo_digital_audio_id,
}
use ipod.Command.{Out, send}
use ipod.Audio.Payloads.{get_acc_sample_rate_caps}
use ipod.General.Tokens.{FidTokenValue}
use ipod.General.Device.{DeviceGeneral}
use ipod.Gadget.Payloads.{AnyPayload, audio, any_payloads}

-- What the device asks of code outside the program while one request is handled: the cached alias of the
-- phone, the twenty bytes that crypto/rand gives, and the certificate that encoding/base64 decodes;
-- `none` is an error of the latter.
pub record Surroundings : Type 0 where
  pub bt_alias : List ℕ
  pub random : List ℕ
  pub device_cert : Option (List ℕ)

-- `DevGeneral`; `cmdWriter` may be nil, and else is the writer of the frame that is handled.
pub record DevGeneral : Type 0 where
  pub ui_mode : ℕ
  pub tokens : List FidTokenValue
  pub has_writer : Bool
  pub auth_challenge : List ℕ

-- "ipod-gadget", the name without a phone
abbrev pub gadget_name : List ℕ
gadget_name = b'i' ∷ b'p' ∷ b'o' ∷ b'd' ∷ b'-' ∷ b'g' ∷ b'a' ∷ b'd' ∷ b'g' ∷ b'e' ∷ b't' ∷ []

unfoldable pub device_name : List ℕ → List ℕ
device_name [] = gadget_name
device_name (b ∷ bs) = b ∷ bs

-- "abcd1234"
abbrev pub serial : List ℕ
serial = b'a' ∷ b'b' ∷ b'c' ∷ b'd' ∷ b'1' ∷ b'2' ∷ b'3' ∷ b'4' ∷ []

unfoldable pub protocol_version : ℕ → ℕ × ℕ
protocol_version lingo =
    if lingo == lingo_general_id
    then (1, 9)
    else if lingo == lingo_display_remote_id
    then (1, 5)
    else if lingo == lingo_ext_remote_id
    then (1, 12)
    else if lingo == lingo_digital_audio_id
    then (1, 2)
    else (1, 1)

unfoldable pub options_for : ℕ → ℕ
options_for lingo = if lingo == lingo_general_id then 0x000000063DEF73FF else 0

-- `OnAuthenticationComplete`: the audio starts, as `audio.Start` does it.
unfoldable pub on_authentication_complete :
    DevGeneral → Out AnyPayload → DevGeneral × Out AnyPayload
unfolding send
on_authentication_complete d out =
    (d, if d.has_writer then send any_payloads (audio get_acc_sample_rate_caps) out else out)

abbrev pub cert_info : Option (List ℕ) → ℕ × ℕ × List ℕ
cert_info none = (2, 0, [])
cert_info (some cert) = (2, 0, cert)

-- `GenerateAuthChallenge`
unfoldable pub generate_auth_challenge : List ℕ → DevGeneral → DevGeneral × List ℕ
generate_auth_challenge random d = (record d { auth_challenge = random }, random)

-- The methods of `DevGeneral`. Preferences, event masks and cancelled commands are not kept, and
-- `EndIDPS` only logs the tokens.
unfoldable pub dev_general : Surroundings → DeviceGeneral AnyPayload DevGeneral
unfolding device_name protocol_version options_for on_authentication_complete
    generate_auth_challenge
dev_general env = record {
  ui_mode = λ d. d.ui_mode;
  set_ui_mode = λ d mode. record d { ui_mode = mode };
  name = λ d. device_name env.bt_alias;
  software_version = λ d. (7, 1, 2);
  serial_num = λ d. serial;
  lingo_protocol_version = λ d lingo. protocol_version lingo;
  lingo_options = λ d lingo. options_for lingo;
  pref_setting_id = λ d class. 0;
  set_pref_setting_id = λ d class setting restore. d;
  start_idps = λ d. record d { tokens = [] };
  end_idps = λ d status. d;
  set_token = λ d token. record d { tokens = d.tokens ++ (token ∷ []) };
  on_authentication_complete = on_authentication_complete;
  device_authentication_info = λ d. cert_info env.device_cert;
  set_event_notification_mask = λ d mask. d;
  event_notification_mask = λ d. 0;
  supported_event_notification_mask = λ d. 0;
  cancel_command = λ d lingo cmd trx. d;
  max_payload = λ d. 65535;
  generate_auth_challenge = some (generate_auth_challenge env.random);
}
