-- ===== src/General/Device.antt =====
-- lingo-general/handler.go: what the general lingo asks of its device, and how its payloads stand among
-- those of a program with other lingoes.
use ipod.Base.{ℕ, Bool, Option, some, List, ◌≡◌}
use ipod.Command.{Out}
use ipod.General.Tokens.{FidTokenValue}

-- Payloads Q among the payloads P of a program.
pub record Part (Q P : Type 0) : Type 0 where
  pub put : Q → P
  pub get : P → Option Q
  pub get-put : (q : Q) → get (put q) ≡ some q

-- `DeviceGeneral` over the device's state D. The error of `SetToken` is dropped by its one caller, and
-- the device writes commands of its own when the authentication is complete.
pub record DeviceGeneral (P D : Type 0) : Type 0 where
  pub ui_mode : D → ℕ
  pub set_ui_mode : D → ℕ → D
  pub name : D → List ℕ
  pub software_version : D → ℕ × ℕ × ℕ
  pub serial_num : D → List ℕ
  pub lingo_protocol_version : D → ℕ → ℕ × ℕ
  pub lingo_options : D → ℕ → ℕ
  pub pref_setting_id : D → ℕ → ℕ
  pub set_pref_setting_id : D → ℕ → ℕ → Bool → D
  pub start_idps : D → D
  pub end_idps : D → ℕ → D
  pub set_token : D → FidTokenValue → D
  pub on_authentication_complete : D → Out P → D × Out P
  pub device_authentication_info : D → ℕ × ℕ × List ℕ
  pub set_event_notification_mask : D → ℕ → D
  pub event_notification_mask : D → ℕ
  pub supported_event_notification_mask : D → ℕ
  pub cancel_command : D → ℕ → ℕ → ℕ → D
  pub max_payload : D → ℕ
  -- GenerateAuthChallenge, which a device need not have
  pub generate_auth_challenge : Option (D → D × List ℕ)
