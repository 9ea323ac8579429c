-- ===== src/General/Types.antt =====
-- lingo-general/general.go: the payload types, their zero values and their tags.
use ipod.Base.{ℕ, List, [], ◌∷◌, Result, ok, replicate}
use ipod.General.Payloads.{
  GeneralPayload, request_identify, identify, ack, ack_pending, ack_data_dropped,
  request_remote_ui_mode, return_remote_ui_mode, enter_remote_ui_mode, exit_remote_ui_mode,
  request_ipod_name, return_ipod_name, request_ipod_software_version, return_ipod_software_version,
  request_ipod_serial_num, return_ipod_serial_num, request_ipod_model_num, return_ipod_model_num,
  request_lingo_protocol_version, return_lingo_protocol_version, request_transport_max_payload_size,
  return_transport_max_payload_size, identify_device_lingoes, get_dev_authentication_info,
  ret_dev_authentication_info, ack_dev_authentication_info, get_dev_authentication_signature_v1,
  get_dev_authentication_signature_v2, ret_dev_authentication_signature,
  ack_dev_authentication_status, get_ipod_authentication_info, ret_ipod_authentication_info,
  ack_ipod_authentication_info, get_ipod_authentication_signature,
  ret_ipod_authentication_signature, ack_ipod_authentication_status, notify_ipod_state_change,
  get_ipod_options, ret_ipod_options, get_accessory_info, ret_accessory_info, get_ipod_preferences,
  ret_ipod_preferences, set_ipod_preferences, get_ui_mode, ret_ui_mode, set_ui_mode, start_idps,
  set_fid_token_values, ret_fid_token_value_acks, end_idps, idps_status,
  open_data_session_for_protocol, close_data_session, dev_ack, dev_data_transfer,
  ipod_data_transfer, set_acc_status_notification, ret_acc_status_notification,
  accessory_status_notification, set_event_notification, ipod_notification,
  get_ipod_options_for_lingo, ret_ipod_options_for_lingo, get_event_notification,
  ret_event_notification, get_supported_event_notification, cancel_command,
  ret_supported_event_notification, set_available_current, request_application_launch,
  get_now_playing_focus_app, ret_now_playing_focus_app,
}

-- The type of a payload, as a number of its own.
unfoldable pub type_number : GeneralPayload → ℕ
type_number request_identify = 0
type_number (identify _ _) = 1
type_number (ack _ _) = 2
type_number (ack_pending _ _ _) = 3
type_number (ack_data_dropped _ _ _ _) = 4
type_number request_remote_ui_mode = 5
type_number (return_remote_ui_mode _) = 6
type_number enter_remote_ui_mode = 7
type_number exit_remote_ui_mode = 8
type_number request_ipod_name = 9
type_number (return_ipod_name _) = 10
type_number request_ipod_software_version = 11
type_number (return_ipod_software_version _ _ _) = 12
type_number request_ipod_serial_num = 13
type_number (return_ipod_serial_num _) = 14
type_number request_ipod_model_num = 15
type_number (return_ipod_model_num _ _) = 16
type_number (request_lingo_protocol_version _) = 17
type_number (return_lingo_protocol_version _ _ _) = 18
type_number request_transport_max_payload_size = 19
type_number (return_transport_max_payload_size _) = 20
type_number (identify_device_lingoes _ _ _) = 21
type_number get_dev_authentication_info = 22
type_number (ret_dev_authentication_info _ _ _ _ _) = 23
type_number (ack_dev_authentication_info _) = 24
type_number (get_dev_authentication_signature_v1 _ _) = 25
type_number (get_dev_authentication_signature_v2 _ _) = 26
type_number (ret_dev_authentication_signature _) = 27
type_number (ack_dev_authentication_status _) = 28
type_number get_ipod_authentication_info = 29
type_number (ret_ipod_authentication_info _ _ _ _ _) = 30
type_number (ack_ipod_authentication_info _) = 31
type_number (get_ipod_authentication_signature _ _) = 32
type_number (ret_ipod_authentication_signature _) = 33
type_number (ack_ipod_authentication_status _) = 34
type_number (notify_ipod_state_change _) = 35
type_number get_ipod_options = 36
type_number (ret_ipod_options _) = 37
type_number (get_accessory_info _) = 38
type_number (ret_accessory_info _ _) = 39
type_number (get_ipod_preferences _) = 40
type_number (ret_ipod_preferences _ _) = 41
type_number (set_ipod_preferences _ _ _) = 42
type_number get_ui_mode = 43
type_number (ret_ui_mode _) = 44
type_number (set_ui_mode _) = 45
type_number start_idps = 46
type_number (set_fid_token_values _) = 47
type_number (ret_fid_token_value_acks _) = 48
type_number (end_idps _) = 49
type_number (idps_status _) = 50
type_number (open_data_session_for_protocol _ _) = 51
type_number (close_data_session _) = 52
type_number (dev_ack _ _) = 53
type_number (dev_data_transfer _ _) = 54
type_number (ipod_data_transfer _ _) = 55
type_number (set_acc_status_notification _) = 56
type_number (ret_acc_status_notification _) = 57
type_number (accessory_status_notification _ _) = 58
type_number (set_event_notification _) = 59
type_number (ipod_notification _ _) = 60
type_number (get_ipod_options_for_lingo _) = 61
type_number (ret_ipod_options_for_lingo _ _) = 62
type_number get_event_notification = 63
type_number (ret_event_notification _) = 64
type_number get_supported_event_notification = 65
type_number (cancel_command _ _ _) = 66
type_number (ret_supported_event_notification _) = 67
type_number (set_available_current _) = 68
type_number (request_application_launch _ _ _ _) = 69
type_number get_now_playing_focus_app = 70
type_number (ret_now_playing_focus_app _) = 71

-- A new value of the same type, whose fields are zero.
unfoldable pub general_new : GeneralPayload → GeneralPayload
general_new (identify _ _) = identify 0 []
general_new (ack _ _) = ack 0 0
general_new (ack_pending _ _ _) = ack_pending 0 0 0
general_new (ack_data_dropped _ _ _ _) = ack_data_dropped 0 0 0 0
general_new (return_remote_ui_mode _) = return_remote_ui_mode 0
general_new (return_ipod_name _) = return_ipod_name []
general_new (return_ipod_software_version _ _ _) = return_ipod_software_version 0 0 0
general_new (return_ipod_serial_num _) = return_ipod_serial_num []
general_new (return_ipod_model_num _ _) = return_ipod_model_num 0 []
general_new (request_lingo_protocol_version _) = request_lingo_protocol_version 0
general_new (return_lingo_protocol_version _ _ _) = return_lingo_protocol_version 0 0 0
general_new (return_transport_max_payload_size _) = return_transport_max_payload_size 0
general_new (identify_device_lingoes _ _ _) = identify_device_lingoes 0 0 0
general_new (ret_dev_authentication_info _ _ _ _ _) = ret_dev_authentication_info 0 0 0 0 []
general_new (ack_dev_authentication_info _) = ack_dev_authentication_info 0
general_new (get_dev_authentication_signature_v1 _ _) =
    get_dev_authentication_signature_v1 (replicate 16 0) 0
general_new (get_dev_authentication_signature_v2 _ _) =
    get_dev_authentication_signature_v2 (replicate 20 0) 0
general_new (ret_dev_authentication_signature _) = ret_dev_authentication_signature []
general_new (ack_dev_authentication_status _) = ack_dev_authentication_status 0
general_new (ret_ipod_authentication_info _ _ _ _ _) = ret_ipod_authentication_info 0 0 0 0 []
general_new (ack_ipod_authentication_info _) = ack_ipod_authentication_info 0
general_new (get_ipod_authentication_signature _ _) =
    get_ipod_authentication_signature (replicate 20 0) 0
general_new (ret_ipod_authentication_signature _) =
    ret_ipod_authentication_signature (replicate 20 0)
general_new (ack_ipod_authentication_status _) = ack_ipod_authentication_status 0
general_new (notify_ipod_state_change _) = notify_ipod_state_change 0
general_new (ret_ipod_options _) = ret_ipod_options 0
general_new (get_accessory_info _) = get_accessory_info 0
general_new (ret_accessory_info _ _) = ret_accessory_info 0 []
general_new (get_ipod_preferences _) = get_ipod_preferences 0
general_new (ret_ipod_preferences _ _) = ret_ipod_preferences 0 0
general_new (set_ipod_preferences _ _ _) = set_ipod_preferences 0 0 0
general_new (ret_ui_mode _) = ret_ui_mode 0
general_new (set_ui_mode _) = set_ui_mode 0
general_new (set_fid_token_values _) = set_fid_token_values []
general_new (ret_fid_token_value_acks _) = ret_fid_token_value_acks []
general_new (end_idps _) = end_idps 0
general_new (idps_status _) = idps_status 0
general_new (open_data_session_for_protocol _ _) = open_data_session_for_protocol 0 0
general_new (close_data_session _) = close_data_session 0
general_new (dev_ack _ _) = dev_ack 0 0
general_new (dev_data_transfer _ _) = dev_data_transfer 0 []
general_new (ipod_data_transfer _ _) = ipod_data_transfer 0 []
general_new (set_acc_status_notification _) = set_acc_status_notification 0
general_new (ret_acc_status_notification _) = ret_acc_status_notification 0
general_new (accessory_status_notification _ _) = accessory_status_notification 0 []
general_new (set_event_notification _) = set_event_notification 0
general_new (ipod_notification _ _) = ipod_notification 0 []
general_new (get_ipod_options_for_lingo _) = get_ipod_options_for_lingo 0
general_new (ret_ipod_options_for_lingo _ _) = ret_ipod_options_for_lingo 0 0
general_new (ret_event_notification _) = ret_event_notification 0
general_new (cancel_command _ _ _) = cancel_command 0 0 0
general_new (ret_supported_event_notification _) = ret_supported_event_notification 0
general_new (set_available_current _) = set_available_current 0
general_new (request_application_launch _ _ _ _) = request_application_launch 0 0 0 []
general_new (ret_now_playing_focus_app _) = ret_now_playing_focus_app []
general_new p = p

-- The types in `Lingos`, each with its tag.
abbrev pub general_lingos : List (Result ℕ × GeneralPayload)
general_lingos =
    (ok 0x00, request_identify)
    ∷ (ok 0x01, identify 0 [])
    ∷ (ok 0x02, ack 0 0)
    ∷ (ok 0x02, ack_pending 0 0 0)
    ∷ (ok 0x02, ack_data_dropped 0 0 0 0)
    ∷ (ok 0x03, request_remote_ui_mode)
    ∷ (ok 0x04, return_remote_ui_mode 0)
    ∷ (ok 0x05, enter_remote_ui_mode)
    ∷ (ok 0x06, exit_remote_ui_mode)
    ∷ (ok 0x07, request_ipod_name)
    ∷ (ok 0x08, return_ipod_name [])
    ∷ (ok 0x09, request_ipod_software_version)
    ∷ (ok 0x0A, return_ipod_software_version 0 0 0)
    ∷ (ok 0x0B, request_ipod_serial_num)
    ∷ (ok 0x0C, return_ipod_serial_num [])
    ∷ (ok 0x0D, request_ipod_model_num)
    ∷ (ok 0x0E, return_ipod_model_num 0 [])
    ∷ (ok 0x0F, request_lingo_protocol_version 0)
    ∷ (ok 0x10, return_lingo_protocol_version 0 0 0)
    ∷ (ok 0x11, request_transport_max_payload_size)
    ∷ (ok 0x12, return_transport_max_payload_size 0)
    ∷ (ok 0x13, identify_device_lingoes 0 0 0)
    ∷ (ok 0x14, get_dev_authentication_info)
    ∷ (ok 0x15, ret_dev_authentication_info 0 0 0 0 [])
    ∷ (ok 0x16, ack_dev_authentication_info 0)
    ∷ (ok 0x17, get_dev_authentication_signature_v1 (replicate 16 0) 0)
    ∷ (ok 0x17, get_dev_authentication_signature_v2 (replicate 20 0) 0)
    ∷ (ok 0x18, ret_dev_authentication_signature [])
    ∷ (ok 0x19, ack_dev_authentication_status 0)
    ∷ (ok 0x1A, get_ipod_authentication_info)
    ∷ (ok 0x1B, ret_ipod_authentication_info 0 0 0 0 [])
    ∷ (ok 0x1C, ack_ipod_authentication_info 0)
    ∷ (ok 0x1D, get_ipod_authentication_signature (replicate 20 0) 0)
    ∷ (ok 0x1E, ret_ipod_authentication_signature (replicate 20 0))
    ∷ (ok 0x1F, ack_ipod_authentication_status 0)
    ∷ (ok 0x23, notify_ipod_state_change 0)
    ∷ (ok 0x24, get_ipod_options)
    ∷ (ok 0x25, ret_ipod_options 0)
    ∷ (ok 0x27, get_accessory_info 0)
    ∷ (ok 0x28, ret_accessory_info 0 [])
    ∷ (ok 0x29, get_ipod_preferences 0)
    ∷ (ok 0x2A, ret_ipod_preferences 0 0)
    ∷ (ok 0x2B, set_ipod_preferences 0 0 0)
    ∷ (ok 0x35, get_ui_mode)
    ∷ (ok 0x36, ret_ui_mode 0)
    ∷ (ok 0x37, set_ui_mode 0)
    ∷ (ok 0x38, start_idps)
    ∷ (ok 0x39, set_fid_token_values [])
    ∷ (ok 0x3A, ret_fid_token_value_acks [])
    ∷ (ok 0x3B, end_idps 0)
    ∷ (ok 0x3C, idps_status 0)
    ∷ (ok 0x3F, open_data_session_for_protocol 0 0)
    ∷ (ok 0x40, close_data_session 0)
    ∷ (ok 0x41, dev_ack 0 0)
    ∷ (ok 0x42, dev_data_transfer 0 [])
    ∷ (ok 0x43, ipod_data_transfer 0 [])
    ∷ (ok 0x46, set_acc_status_notification 0)
    ∷ (ok 0x47, ret_acc_status_notification 0)
    ∷ (ok 0x48, accessory_status_notification 0 [])
    ∷ (ok 0x49, set_event_notification 0)
    ∷ (ok 0x4A, ipod_notification 0 [])
    ∷ (ok 0x4B, get_ipod_options_for_lingo 0)
    ∷ (ok 0x4C, ret_ipod_options_for_lingo 0 0)
    ∷ (ok 0x4D, get_event_notification)
    ∷ (ok 0x4E, ret_event_notification 0)
    ∷ (ok 0x4F, get_supported_event_notification)
    ∷ (ok 0x50, cancel_command 0 0 0)
    ∷ (ok 0x51, ret_supported_event_notification 0)
    ∷ (ok 0x54, set_available_current 0)
    ∷ (ok 0x64, request_application_launch 0 0 0 [])
    ∷ (ok 0x65, get_now_playing_focus_app)
    ∷ (ok 0x66, ret_now_playing_focus_app [])
    ∷ []
