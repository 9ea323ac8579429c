-- ===== src/DispRemote/Registration.antt =====
-- lingo-dispremote: the payload types and their command ids.
use ipod.Base.{◌<◌, ◌≡◌, refl, some, [], ◌∷◌, arith}
use ipod.DispRemote.Payloads.{
  DispPayload, code, ack, get_current_eq_profile_index, ret_current_eq_profile_index,
  set_current_eq_profile_index, get_num_eq_profiles, ret_num_eq_profiles,
  get_indexed_eq_profile_name, ret_indexed_eq_profile_name, set_remote_event_notification,
  remote_event_notification, get_remote_event_status, ret_remote_event_status, get_ipod_state_info,
  ret_ipod_state_info, set_ipod_state_info, get_play_status, ret_play_status,
  set_current_playing_track, get_indexed_playing_track_info, ret_indexed_playing_track_info,
  get_num_playing_tracks, ret_num_playing_tracks, get_artwork_formats, ret_artwork_formats,
  get_track_artwork_data, ret_track_artwork_data, get_power_battery_state, ret_power_battery_state,
  get_sound_check_state, ret_sound_check_state, set_sound_check_state, get_track_artwork_times,
  ret_track_artwork_times,
}
use ipod.Lingo.Ids.{new_lingo_cmd_id, lingo_display_remote_id}
use ipod.Lingo.Registry.{types_of, id_of, lookup_id, register_lingos, store_mapping, append_type}
use ipod.DispRemote.Structs.{new_value}
use ipod.DispRemote.Codec.{disp_payloads}

-- The registry has one type for each command id of the lingo.
pub registered_alone :
    (p : DispPayload)
    → types_of disp_payloads.registry.by_id (new_lingo_cmd_id lingo_display_remote_id (code p))
      ≡ some (new_value p ∷ [])
unfolding disp_payloads types_of code new_value new_lingo_cmd_id register_lingos store_mapping
    append_type
registered_alone (ack a b) = refl
registered_alone get_current_eq_profile_index = refl
registered_alone (ret_current_eq_profile_index a) = refl
registered_alone (set_current_eq_profile_index a b) = refl
registered_alone get_num_eq_profiles = refl
registered_alone (ret_num_eq_profiles a) = refl
registered_alone (get_indexed_eq_profile_name a) = refl
registered_alone (ret_indexed_eq_profile_name a) = refl
registered_alone (set_remote_event_notification a) = refl
registered_alone (remote_event_notification a b) = refl
registered_alone get_remote_event_status = refl
registered_alone (ret_remote_event_status a) = refl
registered_alone (get_ipod_state_info a) = refl
registered_alone (ret_ipod_state_info a b) = refl
registered_alone (set_ipod_state_info a b) = refl
registered_alone get_play_status = refl
registered_alone (ret_play_status a b c d) = refl
registered_alone (set_current_playing_track a) = refl
registered_alone (get_indexed_playing_track_info a b c) = refl
registered_alone (ret_indexed_playing_track_info a b) = refl
registered_alone get_num_playing_tracks = refl
registered_alone (ret_num_playing_tracks a) = refl
registered_alone get_artwork_formats = refl
registered_alone (ret_artwork_formats a) = refl
registered_alone (get_track_artwork_data a b c) = refl
registered_alone (ret_track_artwork_data a b c d e f g h i j) = refl
registered_alone get_power_battery_state = refl
registered_alone (ret_power_battery_state a b) = refl
registered_alone get_sound_check_state = refl
registered_alone (ret_sound_check_state a) = refl
registered_alone (set_sound_check_state a b) = refl
registered_alone (get_track_artwork_times a b c d) = refl
registered_alone (ret_track_artwork_times a) = refl

pub lookup_id_lem :
    (p : DispPayload)
    → lookup_id disp_payloads.same disp_payloads.registry (disp_payloads.type_of p)
      ≡ some (new_lingo_cmd_id lingo_display_remote_id (code p))
unfolding disp_payloads lookup_id id_of code new_value new_lingo_cmd_id register_lingos
    store_mapping
lookup_id_lem (ack a b) = refl
lookup_id_lem get_current_eq_profile_index = refl
lookup_id_lem (ret_current_eq_profile_index a) = refl
lookup_id_lem (set_current_eq_profile_index a b) = refl
lookup_id_lem get_num_eq_profiles = refl
lookup_id_lem (ret_num_eq_profiles a) = refl
lookup_id_lem (get_indexed_eq_profile_name a) = refl
lookup_id_lem (ret_indexed_eq_profile_name a) = refl
lookup_id_lem (set_remote_event_notification a) = refl
lookup_id_lem (remote_event_notification a b) = refl
lookup_id_lem get_remote_event_status = refl
lookup_id_lem (ret_remote_event_status a) = refl
lookup_id_lem (get_ipod_state_info a) = refl
lookup_id_lem (ret_ipod_state_info a b) = refl
lookup_id_lem (set_ipod_state_info a b) = refl
lookup_id_lem get_play_status = refl
lookup_id_lem (ret_play_status a b c d) = refl
lookup_id_lem (set_current_playing_track a) = refl
lookup_id_lem (get_indexed_playing_track_info a b c) = refl
lookup_id_lem (ret_indexed_playing_track_info a b) = refl
lookup_id_lem get_num_playing_tracks = refl
lookup_id_lem (ret_num_playing_tracks a) = refl
lookup_id_lem get_artwork_formats = refl
lookup_id_lem (ret_artwork_formats a) = refl
lookup_id_lem (get_track_artwork_data a b c) = refl
lookup_id_lem (ret_track_artwork_data a b c d e f g h i j) = refl
lookup_id_lem get_power_battery_state = refl
lookup_id_lem (ret_power_battery_state a b) = refl
lookup_id_lem get_sound_check_state = refl
lookup_id_lem (ret_sound_check_state a) = refl
lookup_id_lem (set_sound_check_state a b) = refl
lookup_id_lem (get_track_artwork_times a b c d) = refl
lookup_id_lem (ret_track_artwork_times a) = refl

pub code_lt : (p : DispPayload) → code p < 256
unfolding code
code_lt (ack a b) = omega arith
code_lt get_current_eq_profile_index = omega arith
code_lt (ret_current_eq_profile_index a) = omega arith
code_lt (set_current_eq_profile_index a b) = omega arith
code_lt get_num_eq_profiles = omega arith
code_lt (ret_num_eq_profiles a) = omega arith
code_lt (get_indexed_eq_profile_name a) = omega arith
code_lt (ret_indexed_eq_profile_name a) = omega arith
code_lt (set_remote_event_notification a) = omega arith
code_lt (remote_event_notification a b) = omega arith
code_lt get_remote_event_status = omega arith
code_lt (ret_remote_event_status a) = omega arith
code_lt (get_ipod_state_info a) = omega arith
code_lt (ret_ipod_state_info a b) = omega arith
code_lt (set_ipod_state_info a b) = omega arith
code_lt get_play_status = omega arith
code_lt (ret_play_status a b c d) = omega arith
code_lt (set_current_playing_track a) = omega arith
code_lt (get_indexed_playing_track_info a b c) = omega arith
code_lt (ret_indexed_playing_track_info a b) = omega arith
code_lt get_num_playing_tracks = omega arith
code_lt (ret_num_playing_tracks a) = omega arith
code_lt get_artwork_formats = omega arith
code_lt (ret_artwork_formats a) = omega arith
code_lt (get_track_artwork_data a b c) = omega arith
code_lt (ret_track_artwork_data a b c d e f g h i j) = omega arith
code_lt get_power_battery_state = omega arith
code_lt (ret_power_battery_state a b) = omega arith
code_lt get_sound_check_state = omega arith
code_lt (ret_sound_check_state a) = omega arith
code_lt (set_sound_check_state a b) = omega arith
code_lt (get_track_artwork_times a b c d) = omega arith
code_lt (ret_track_artwork_times a) = omega arith
