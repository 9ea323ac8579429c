-- ===== src/General/Values.antt =====
-- lingo-general/general.go: the values in the fields of the payload structs of fixed size.
use ipod.Base.{ℕ, List, [], ◌∷◌, ◌++◌, take, get_or}
use ipod.General.Payloads.{
  GeneralPayload, ack, ack_pending, ack_data_dropped, return_remote_ui_mode,
  return_ipod_software_version, request_lingo_protocol_version, return_lingo_protocol_version,
  return_transport_max_payload_size, identify_device_lingoes, ack_dev_authentication_info,
  get_dev_authentication_signature_v1, get_dev_authentication_signature_v2,
  ack_dev_authentication_status, ack_ipod_authentication_info, get_ipod_authentication_signature,
  ret_ipod_authentication_signature, ack_ipod_authentication_status, notify_ipod_state_change,
  ret_ipod_options, get_accessory_info, get_ipod_preferences, ret_ipod_preferences,
  set_ipod_preferences, ret_ui_mode, set_ui_mode, end_idps, idps_status,
  open_data_session_for_protocol, close_data_session, dev_ack, set_acc_status_notification,
  ret_acc_status_notification, set_event_notification, get_ipod_options_for_lingo,
  ret_ipod_options_for_lingo, ret_event_notification, cancel_command,
  ret_supported_event_notification, set_available_current,
}

-- Their values, if all have a fixed size.
unfoldable pub general_fields : GeneralPayload → List ℕ
general_fields (ack a b) = a ∷ b ∷ []
general_fields (ack_pending a b c) = a ∷ b ∷ c ∷ []
general_fields (ack_data_dropped a b c d) = a ∷ b ∷ c ∷ d ∷ []
general_fields (return_remote_ui_mode a) = a ∷ []
general_fields (return_ipod_software_version a b c) = a ∷ b ∷ c ∷ []
general_fields (request_lingo_protocol_version a) = a ∷ []
general_fields (return_lingo_protocol_version a b c) = a ∷ b ∷ c ∷ []
general_fields (return_transport_max_payload_size a) = a ∷ []
general_fields (identify_device_lingoes a b c) = a ∷ b ∷ c ∷ []
general_fields (ack_dev_authentication_info a) = a ∷ []
general_fields (get_dev_authentication_signature_v1 a b) = a ++ (b ∷ [])
general_fields (get_dev_authentication_signature_v2 a b) = a ++ (b ∷ [])
general_fields (ack_dev_authentication_status a) = a ∷ []
general_fields (ack_ipod_authentication_info a) = a ∷ []
general_fields (get_ipod_authentication_signature a b) = a ++ (b ∷ [])
general_fields (ret_ipod_authentication_signature a) = a
general_fields (ack_ipod_authentication_status a) = a ∷ []
general_fields (notify_ipod_state_change a) = a ∷ []
general_fields (ret_ipod_options a) = a ∷ []
general_fields (get_accessory_info a) = a ∷ []
general_fields (get_ipod_preferences a) = a ∷ []
general_fields (ret_ipod_preferences a b) = a ∷ b ∷ []
general_fields (set_ipod_preferences a b c) = a ∷ b ∷ c ∷ []
general_fields (ret_ui_mode a) = a ∷ []
general_fields (set_ui_mode a) = a ∷ []
general_fields (end_idps a) = a ∷ []
general_fields (idps_status a) = a ∷ []
general_fields (open_data_session_for_protocol a b) = a ∷ b ∷ []
general_fields (close_data_session a) = a ∷ []
general_fields (dev_ack a b) = a ∷ b ∷ []
general_fields (set_acc_status_notification a) = a ∷ []
general_fields (ret_acc_status_notification a) = a ∷ []
general_fields (set_event_notification a) = a ∷ []
general_fields (get_ipod_options_for_lingo a) = a ∷ []
general_fields (ret_ipod_options_for_lingo a b) = a ∷ b ∷ []
general_fields (ret_event_notification a) = a ∷ []
general_fields (cancel_command a b c) = a ∷ b ∷ c ∷ []
general_fields (ret_supported_event_notification a) = a ∷ []
general_fields (set_available_current a) = a ∷ []
general_fields p = []

-- The struct with other values in its fields.
unfoldable pub general_refill : GeneralPayload → List ℕ → GeneralPayload
general_refill (ack _ _) (a ∷ b ∷ []) = ack a b
general_refill (ack_pending _ _ _) (a ∷ b ∷ c ∷ []) = ack_pending a b c
general_refill (ack_data_dropped _ _ _ _) (a ∷ b ∷ c ∷ d ∷ []) = ack_data_dropped a b c d
general_refill (return_remote_ui_mode _) (a ∷ []) = return_remote_ui_mode a
general_refill (return_ipod_software_version _ _ _) (a ∷ b ∷ c ∷ []) =
    return_ipod_software_version a b c
general_refill (request_lingo_protocol_version _) (a ∷ []) = request_lingo_protocol_version a
general_refill (return_lingo_protocol_version _ _ _) (a ∷ b ∷ c ∷ []) =
    return_lingo_protocol_version a b c
general_refill (return_transport_max_payload_size _) (a ∷ []) = return_transport_max_payload_size a
general_refill (identify_device_lingoes _ _ _) (a ∷ b ∷ c ∷ []) = identify_device_lingoes a b c
general_refill (ack_dev_authentication_info _) (a ∷ []) = ack_dev_authentication_info a
general_refill (get_dev_authentication_signature_v1 _ _) vs =
    get_dev_authentication_signature_v1 (take 16 vs) (get_or vs 16 0)
general_refill (get_dev_authentication_signature_v2 _ _) vs =
    get_dev_authentication_signature_v2 (take 20 vs) (get_or vs 20 0)
general_refill (ack_dev_authentication_status _) (a ∷ []) = ack_dev_authentication_status a
general_refill (ack_ipod_authentication_info _) (a ∷ []) = ack_ipod_authentication_info a
general_refill (get_ipod_authentication_signature _ _) vs =
    get_ipod_authentication_signature (take 20 vs) (get_or vs 20 0)
general_refill (ret_ipod_authentication_signature _) vs =
    ret_ipod_authentication_signature (take 20 vs)
general_refill (ack_ipod_authentication_status _) (a ∷ []) = ack_ipod_authentication_status a
general_refill (notify_ipod_state_change _) (a ∷ []) = notify_ipod_state_change a
general_refill (ret_ipod_options _) (a ∷ []) = ret_ipod_options a
general_refill (get_accessory_info _) (a ∷ []) = get_accessory_info a
general_refill (get_ipod_preferences _) (a ∷ []) = get_ipod_preferences a
general_refill (ret_ipod_preferences _ _) (a ∷ b ∷ []) = ret_ipod_preferences a b
general_refill (set_ipod_preferences _ _ _) (a ∷ b ∷ c ∷ []) = set_ipod_preferences a b c
general_refill (ret_ui_mode _) (a ∷ []) = ret_ui_mode a
general_refill (set_ui_mode _) (a ∷ []) = set_ui_mode a
general_refill (end_idps _) (a ∷ []) = end_idps a
general_refill (idps_status _) (a ∷ []) = idps_status a
general_refill (open_data_session_for_protocol _ _) (a ∷ b ∷ []) =
    open_data_session_for_protocol a b
general_refill (close_data_session _) (a ∷ []) = close_data_session a
general_refill (dev_ack _ _) (a ∷ b ∷ []) = dev_ack a b
general_refill (set_acc_status_notification _) (a ∷ []) = set_acc_status_notification a
general_refill (ret_acc_status_notification _) (a ∷ []) = ret_acc_status_notification a
general_refill (set_event_notification _) (a ∷ []) = set_event_notification a
general_refill (get_ipod_options_for_lingo _) (a ∷ []) = get_ipod_options_for_lingo a
general_refill (ret_ipod_options_for_lingo _ _) (a ∷ b ∷ []) = ret_ipod_options_for_lingo a b
general_refill (ret_event_notification _) (a ∷ []) = ret_event_notification a
general_refill (cancel_command _ _ _) (a ∷ b ∷ c ∷ []) = cancel_command a b c
general_refill (ret_supported_event_notification _) (a ∷ []) = ret_supported_event_notification a
general_refill (set_available_current _) (a ∷ []) = set_available_current a
general_refill p _ = p
