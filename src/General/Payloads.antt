-- ===== src/General/Payloads.antt =====
-- lingo-general/general.go: the payloads of the general lingo, by their tags.
use ipod.Base.{ℕ, List}
use ipod.General.Tokens.{FidTokenValue, FidTokenValueAck}

pub data GeneralPayload : Type 0 where
  request_identify : GeneralPayload
  identify : (device_type : ℕ) (lingoes : List ℕ) → GeneralPayload
  ack : (status cmd_id : ℕ) → GeneralPayload
  ack_pending : (status cmd_id max_wait : ℕ) → GeneralPayload
  ack_data_dropped : (status cmd_id session_id num_bytes_dropped : ℕ) → GeneralPayload
  request_remote_ui_mode : GeneralPayload
  return_remote_ui_mode : (mode : ℕ) → GeneralPayload
  enter_remote_ui_mode : GeneralPayload
  exit_remote_ui_mode : GeneralPayload
  request_ipod_name : GeneralPayload
  return_ipod_name : (name : List ℕ) → GeneralPayload
  request_ipod_software_version : GeneralPayload
  return_ipod_software_version : (major minor rev : ℕ) → GeneralPayload
  request_ipod_serial_num : GeneralPayload
  return_ipod_serial_num : (serial : List ℕ) → GeneralPayload
  request_ipod_model_num : GeneralPayload
  return_ipod_model_num : (model_id : ℕ) (model : List ℕ) → GeneralPayload
  request_lingo_protocol_version : (lingo : ℕ) → GeneralPayload
  return_lingo_protocol_version : (lingo major minor : ℕ) → GeneralPayload
  request_transport_max_payload_size : GeneralPayload
  return_transport_max_payload_size : (max_payload : ℕ) → GeneralPayload
  identify_device_lingoes : (lingoes options device_id : ℕ) → GeneralPayload
  get_dev_authentication_info : GeneralPayload
  ret_dev_authentication_info :
      (major minor cert_current_section cert_max_section : ℕ) (cert_data : List ℕ) → GeneralPayload
  ack_dev_authentication_info : (status : ℕ) → GeneralPayload
  get_dev_authentication_signature_v1 : (challenge : List ℕ) (counter : ℕ) → GeneralPayload
  get_dev_authentication_signature_v2 : (challenge : List ℕ) (counter : ℕ) → GeneralPayload
  ret_dev_authentication_signature : (signature : List ℕ) → GeneralPayload
  ack_dev_authentication_status : (status : ℕ) → GeneralPayload
  get_ipod_authentication_info : GeneralPayload
  ret_ipod_authentication_info :
      (major minor cert_current_section cert_max_section : ℕ) (cert_data : List ℕ) → GeneralPayload
  ack_ipod_authentication_info : (status : ℕ) → GeneralPayload
  get_ipod_authentication_signature : (challenge : List ℕ) (counter : ℕ) → GeneralPayload
  ret_ipod_authentication_signature : (signature : List ℕ) → GeneralPayload
  ack_ipod_authentication_status : (status : ℕ) → GeneralPayload
  notify_ipod_state_change : (state_change : ℕ) → GeneralPayload
  get_ipod_options : GeneralPayload
  ret_ipod_options : (options : ℕ) → GeneralPayload
  get_accessory_info : (info_type : ℕ) → GeneralPayload
  ret_accessory_info : (info_type : ℕ) (data_bytes : List ℕ) → GeneralPayload
  get_ipod_preferences : (pref_class_id : ℕ) → GeneralPayload
  ret_ipod_preferences : (pref_class_id pref_class_setting_id : ℕ) → GeneralPayload
  set_ipod_preferences : (pref_class_id pref_class_setting_id restore_on_exit : ℕ) → GeneralPayload
  get_ui_mode : GeneralPayload
  ret_ui_mode : (ui_mode : ℕ) → GeneralPayload
  set_ui_mode : (ui_mode : ℕ) → GeneralPayload
  start_idps : GeneralPayload
  set_fid_token_values : (fid_token_values : List FidTokenValue) → GeneralPayload
  ret_fid_token_value_acks : (fid_token_value_acks : List FidTokenValueAck) → GeneralPayload
  end_idps : (acc_end_idps_status : ℕ) → GeneralPayload
  idps_status : (status : ℕ) → GeneralPayload
  open_data_session_for_protocol : (session_id protocol_index : ℕ) → GeneralPayload
  close_data_session : (session_id : ℕ) → GeneralPayload
  dev_ack : (ack_status cmd_id : ℕ) → GeneralPayload
  dev_data_transfer : (session_id : ℕ) (data_bytes : List ℕ) → GeneralPayload
  ipod_data_transfer : (session_id : ℕ) (data_bytes : List ℕ) → GeneralPayload
  set_acc_status_notification : (status_mask : ℕ) → GeneralPayload
  ret_acc_status_notification : (status_mask : ℕ) → GeneralPayload
  accessory_status_notification : (status_type : ℕ) (status_params : List ℕ) → GeneralPayload
  set_event_notification : (event_mask : ℕ) → GeneralPayload
  ipod_notification : (notification_type : ℕ) (data_bytes : List ℕ) → GeneralPayload
  get_ipod_options_for_lingo : (lingo_id : ℕ) → GeneralPayload
  ret_ipod_options_for_lingo : (lingo_id options : ℕ) → GeneralPayload
  get_event_notification : GeneralPayload
  ret_event_notification : (event_mask : ℕ) → GeneralPayload
  get_supported_event_notification : GeneralPayload
  cancel_command : (lingo_id cmd_id transaction_id : ℕ) → GeneralPayload
  ret_supported_event_notification : (event_mask : ℕ) → GeneralPayload
  set_available_current : (current_limit : ℕ) → GeneralPayload
  request_application_launch :
      (reserved0 reserved1 reserved2 : ℕ) (app_id : List ℕ) → GeneralPayload
  get_now_playing_focus_app : GeneralPayload
  ret_now_playing_focus_app : (app_id : List ℕ) → GeneralPayload

-- The tag of the type in `Lingos`.
unfoldable pub general_code : GeneralPayload → ℕ
general_code request_identify = 0x00
general_code (identify _ _) = 0x01
general_code (ack _ _) = 0x02
general_code (ack_pending _ _ _) = 0x02
general_code (ack_data_dropped _ _ _ _) = 0x02
general_code request_remote_ui_mode = 0x03
general_code (return_remote_ui_mode _) = 0x04
general_code enter_remote_ui_mode = 0x05
general_code exit_remote_ui_mode = 0x06
general_code request_ipod_name = 0x07
general_code (return_ipod_name _) = 0x08
general_code request_ipod_software_version = 0x09
general_code (return_ipod_software_version _ _ _) = 0x0A
general_code request_ipod_serial_num = 0x0B
general_code (return_ipod_serial_num _) = 0x0C
general_code request_ipod_model_num = 0x0D
general_code (return_ipod_model_num _ _) = 0x0E
general_code (request_lingo_protocol_version _) = 0x0F
general_code (return_lingo_protocol_version _ _ _) = 0x10
general_code request_transport_max_payload_size = 0x11
general_code (return_transport_max_payload_size _) = 0x12
general_code (identify_device_lingoes _ _ _) = 0x13
general_code get_dev_authentication_info = 0x14
general_code (ret_dev_authentication_info _ _ _ _ _) = 0x15
general_code (ack_dev_authentication_info _) = 0x16
general_code (get_dev_authentication_signature_v1 _ _) = 0x17
general_code (get_dev_authentication_signature_v2 _ _) = 0x17
general_code (ret_dev_authentication_signature _) = 0x18
general_code (ack_dev_authentication_status _) = 0x19
general_code get_ipod_authentication_info = 0x1A
general_code (ret_ipod_authentication_info _ _ _ _ _) = 0x1B
general_code (ack_ipod_authentication_info _) = 0x1C
general_code (get_ipod_authentication_signature _ _) = 0x1D
general_code (ret_ipod_authentication_signature _) = 0x1E
general_code (ack_ipod_authentication_status _) = 0x1F
general_code (notify_ipod_state_change _) = 0x23
general_code get_ipod_options = 0x24
general_code (ret_ipod_options _) = 0x25
general_code (get_accessory_info _) = 0x27
general_code (ret_accessory_info _ _) = 0x28
general_code (get_ipod_preferences _) = 0x29
general_code (ret_ipod_preferences _ _) = 0x2A
general_code (set_ipod_preferences _ _ _) = 0x2B
general_code get_ui_mode = 0x35
general_code (ret_ui_mode _) = 0x36
general_code (set_ui_mode _) = 0x37
general_code start_idps = 0x38
general_code (set_fid_token_values _) = 0x39
general_code (ret_fid_token_value_acks _) = 0x3A
general_code (end_idps _) = 0x3B
general_code (idps_status _) = 0x3C
general_code (open_data_session_for_protocol _ _) = 0x3F
general_code (close_data_session _) = 0x40
general_code (dev_ack _ _) = 0x41
general_code (dev_data_transfer _ _) = 0x42
general_code (ipod_data_transfer _ _) = 0x43
general_code (set_acc_status_notification _) = 0x46
general_code (ret_acc_status_notification _) = 0x47
general_code (accessory_status_notification _ _) = 0x48
general_code (set_event_notification _) = 0x49
general_code (ipod_notification _ _) = 0x4A
general_code (get_ipod_options_for_lingo _) = 0x4B
general_code (ret_ipod_options_for_lingo _ _) = 0x4C
general_code get_event_notification = 0x4D
general_code (ret_event_notification _) = 0x4E
general_code get_supported_event_notification = 0x4F
general_code (cancel_command _ _ _) = 0x50
general_code (ret_supported_event_notification _) = 0x51
general_code (set_available_current _) = 0x54
general_code (request_application_launch _ _ _ _) = 0x64
general_code get_now_playing_focus_app = 0x65
general_code (ret_now_playing_focus_app _) = 0x66
