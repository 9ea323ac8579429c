-- ===== src/General/Structs.antt =====
-- lingo-general/general.go: the payload structs as encoding/binary sees them.
use ipod.Base.{List, [], ◌∷◌, ◌++◌}
use ipod.Wire.{Width, byte, short, word, long, slice, array}
use ipod.General.Payloads.{
  GeneralPayload, identify, ack, ack_pending, ack_data_dropped, return_remote_ui_mode,
  return_ipod_name, return_ipod_software_version, return_ipod_serial_num, return_ipod_model_num,
  request_lingo_protocol_version, return_lingo_protocol_version, return_transport_max_payload_size,
  identify_device_lingoes, ret_dev_authentication_info, ack_dev_authentication_info,
  get_dev_authentication_signature_v1, get_dev_authentication_signature_v2,
  ret_dev_authentication_signature, ack_dev_authentication_status, ret_ipod_authentication_info,
  ack_ipod_authentication_info, get_ipod_authentication_signature,
  ret_ipod_authentication_signature, ack_ipod_authentication_status, notify_ipod_state_change,
  ret_ipod_options, get_accessory_info, ret_accessory_info, get_ipod_preferences,
  ret_ipod_preferences, set_ipod_preferences, ret_ui_mode, set_ui_mode, set_fid_token_values,
  ret_fid_token_value_acks, end_idps, idps_status, open_data_session_for_protocol,
  close_data_session, dev_ack, dev_data_transfer, ipod_data_transfer, set_acc_status_notification,
  ret_acc_status_notification, accessory_status_notification, set_event_notification,
  ipod_notification, get_ipod_options_for_lingo, ret_ipod_options_for_lingo, ret_event_notification,
  cancel_command, ret_supported_event_notification, set_available_current,
  request_application_launch, ret_now_playing_focus_app,
}

-- The fields of the struct.
unfoldable pub general_layout : GeneralPayload → List Width
general_layout (identify _ _) = byte ∷ slice ∷ []
general_layout (ack _ _) = byte ∷ byte ∷ []
general_layout (ack_pending _ _ _) = byte ∷ byte ∷ word ∷ []
general_layout (ack_data_dropped _ _ _ _) = byte ∷ byte ∷ short ∷ word ∷ []
general_layout (return_remote_ui_mode _) = byte ∷ []
general_layout (return_ipod_name _) = slice ∷ []
general_layout (return_ipod_software_version _ _ _) = byte ∷ byte ∷ byte ∷ []
general_layout (return_ipod_serial_num _) = slice ∷ []
general_layout (return_ipod_model_num _ _) = word ∷ slice ∷ []
general_layout (request_lingo_protocol_version _) = byte ∷ []
general_layout (return_lingo_protocol_version _ _ _) = byte ∷ byte ∷ byte ∷ []
general_layout (return_transport_max_payload_size _) = short ∷ []
general_layout (identify_device_lingoes _ _ _) = word ∷ word ∷ word ∷ []
general_layout (ret_dev_authentication_info _ _ _ _ _) = byte ∷ byte ∷ byte ∷ byte ∷ slice ∷ []
general_layout (ack_dev_authentication_info _) = byte ∷ []
general_layout (get_dev_authentication_signature_v1 _ _) = array 16 ++ (byte ∷ [])
general_layout (get_dev_authentication_signature_v2 _ _) = array 20 ++ (byte ∷ [])
general_layout (ret_dev_authentication_signature _) = slice ∷ []
general_layout (ack_dev_authentication_status _) = byte ∷ []
general_layout (ret_ipod_authentication_info _ _ _ _ _) = byte ∷ byte ∷ byte ∷ byte ∷ slice ∷ []
general_layout (ack_ipod_authentication_info _) = byte ∷ []
general_layout (get_ipod_authentication_signature _ _) = array 20 ++ (byte ∷ [])
general_layout (ret_ipod_authentication_signature _) = array 20
general_layout (ack_ipod_authentication_status _) = byte ∷ []
general_layout (notify_ipod_state_change _) = byte ∷ []
general_layout (ret_ipod_options _) = long ∷ []
general_layout (get_accessory_info _) = byte ∷ []
general_layout (ret_accessory_info _ _) = byte ∷ slice ∷ []
general_layout (get_ipod_preferences _) = byte ∷ []
general_layout (ret_ipod_preferences _ _) = byte ∷ byte ∷ []
general_layout (set_ipod_preferences _ _ _) = byte ∷ byte ∷ byte ∷ []
general_layout (ret_ui_mode _) = byte ∷ []
general_layout (set_ui_mode _) = byte ∷ []
general_layout (set_fid_token_values _) = slice ∷ []
general_layout (ret_fid_token_value_acks _) = slice ∷ []
general_layout (end_idps _) = byte ∷ []
general_layout (idps_status _) = byte ∷ []
general_layout (open_data_session_for_protocol _ _) = short ∷ byte ∷ []
general_layout (close_data_session _) = short ∷ []
general_layout (dev_ack _ _) = byte ∷ byte ∷ []
general_layout (dev_data_transfer _ _) = short ∷ slice ∷ []
general_layout (ipod_data_transfer _ _) = short ∷ slice ∷ []
general_layout (set_acc_status_notification _) = word ∷ []
general_layout (ret_acc_status_notification _) = word ∷ []
general_layout (accessory_status_notification _ _) = byte ∷ slice ∷ []
general_layout (set_event_notification _) = long ∷ []
general_layout (ipod_notification _ _) = byte ∷ slice ∷ []
general_layout (get_ipod_options_for_lingo _) = byte ∷ []
general_layout (ret_ipod_options_for_lingo _ _) = byte ∷ long ∷ []
general_layout (ret_event_notification _) = long ∷ []
general_layout (cancel_command _ _ _) = byte ∷ short ∷ short ∷ []
general_layout (ret_supported_event_notification _) = long ∷ []
general_layout (set_available_current _) = short ∷ []
general_layout (request_application_launch _ _ _ _) = byte ∷ byte ∷ byte ∷ slice ∷ []
general_layout (ret_now_playing_focus_app _) = slice ∷ []
general_layout p = []
