-- ===== src/DispRemote/Structs.antt =====
-- lingo-dispremote/dispremote.go: the payload structs as encoding/binary sees them.
use ipod.Base.{ℕ, Bool, false, not, none, List, [], ◌∷◌, Result, ok, ◌==◌, if◌then◌else◌}
use ipod.Wire.{Width, byte, short, word, slice}
use ipod.DispRemote.Payloads.{
  DispPayload, ack, get_current_eq_profile_index, ret_current_eq_profile_index,
  set_current_eq_profile_index, get_num_eq_profiles, ret_num_eq_profiles,
  get_indexed_eq_profile_name, ret_indexed_eq_profile_name, set_remote_event_notification,
  remote_event_notification, get_remote_event_status, ret_remote_event_status, get_ipod_state_info,
  ret_ipod_state_info, set_ipod_state_info, get_play_status, ret_play_status,
  set_current_playing_track, get_indexed_playing_track_info, ret_indexed_playing_track_info,
  get_num_playing_tracks, ret_num_playing_tracks, get_artwork_formats, ret_artwork_formats,
  get_track_artwork_data, ret_track_artwork_data, get_power_battery_state, ret_power_battery_state,
  get_sound_check_state, ret_sound_check_state, set_sound_check_state, get_track_artwork_times,
  ret_track_artwork_times,
}

-- A bool is written as 1 or 0, and every byte but 0 is read as true.
abbrev pub bool_value : Bool → ℕ
bool_value b = if b then 1 else 0

abbrev pub is_set : ℕ → Bool
is_set n = not (n == 0)

-- A new value of the same type, whose fields are zero.
unfoldable pub new_value : DispPayload → DispPayload
new_value (ack _ _) = ack 0 0
new_value (ret_current_eq_profile_index _) = ret_current_eq_profile_index 0
new_value (set_current_eq_profile_index _ _) = set_current_eq_profile_index 0 false
new_value (ret_num_eq_profiles _) = ret_num_eq_profiles 0
new_value (get_indexed_eq_profile_name _) = get_indexed_eq_profile_name 0
new_value (ret_indexed_eq_profile_name _) = ret_indexed_eq_profile_name []
new_value (set_remote_event_notification _) = set_remote_event_notification 0
new_value (remote_event_notification _ _) = remote_event_notification 0 []
new_value (ret_remote_event_status _) = ret_remote_event_status 0
new_value (get_ipod_state_info _) = get_ipod_state_info 0
new_value (set_ipod_state_info _ _) = set_ipod_state_info 0 0
new_value (ret_play_status _ _ _ _) = ret_play_status 0 0 0 0
new_value (set_current_playing_track _) = set_current_playing_track 0
new_value (get_indexed_playing_track_info _ _ _) = get_indexed_playing_track_info 0 0 0
new_value (ret_num_playing_tracks _) = ret_num_playing_tracks 0
new_value (get_track_artwork_data _ _ _) = get_track_artwork_data 0 0 0
new_value (ret_track_artwork_data _ _ _ _ _ _ _ _ _ _) = ret_track_artwork_data 0 0 0 0 0 0 0 0 0 []
new_value (ret_power_battery_state _ _) = ret_power_battery_state 0 0
new_value (ret_sound_check_state _) = ret_sound_check_state false
new_value (set_sound_check_state _ _) = set_sound_check_state false false
new_value (get_track_artwork_times _ _ _ _) = get_track_artwork_times 0 0 0 0
new_value (ret_ipod_state_info _ _) = ret_ipod_state_info 0 none
new_value (ret_indexed_playing_track_info _ _) = ret_indexed_playing_track_info 0 none
new_value (ret_artwork_formats _) = ret_artwork_formats []
new_value (ret_track_artwork_times _) = ret_track_artwork_times []
new_value p = p

-- The fields of the struct.
unfoldable pub layout : DispPayload → List Width
layout (ack _ _) = byte ∷ byte ∷ []
layout (ret_current_eq_profile_index _) = word ∷ []
layout (set_current_eq_profile_index _ _) = word ∷ byte ∷ []
layout (ret_num_eq_profiles _) = word ∷ []
layout (get_indexed_eq_profile_name _) = word ∷ []
layout (ret_indexed_eq_profile_name _) = slice ∷ []
layout (set_remote_event_notification _) = word ∷ []
layout (remote_event_notification _ _) = byte ∷ slice ∷ []
layout (ret_remote_event_status _) = word ∷ []
layout (get_ipod_state_info _) = byte ∷ []
layout (set_ipod_state_info _ _) = byte ∷ byte ∷ []
layout (ret_play_status _ _ _ _) = byte ∷ word ∷ word ∷ word ∷ []
layout (set_current_playing_track _) = word ∷ []
layout (get_indexed_playing_track_info _ _ _) = byte ∷ word ∷ short ∷ []
layout (ret_num_playing_tracks _) = word ∷ []
layout (get_track_artwork_data _ _ _) = word ∷ short ∷ word ∷ []
layout (ret_track_artwork_data _ _ _ _ _ _ _ _ _ _) =
    short ∷ byte ∷ short ∷ short ∷ short ∷ short ∷ short ∷ short ∷ word ∷ slice ∷ []
layout (ret_power_battery_state _ _) = byte ∷ byte ∷ []
layout (ret_sound_check_state _) = byte ∷ []
layout (set_sound_check_state _ _) = byte ∷ byte ∷ []
layout (get_track_artwork_times _ _ _ _) = word ∷ short ∷ short ∷ short ∷ []
layout (ret_ipod_state_info _ _) = byte ∷ slice ∷ []
layout (ret_indexed_playing_track_info _ _) = byte ∷ slice ∷ []
layout (ret_artwork_formats _) = slice ∷ []
layout (ret_track_artwork_times _) = slice ∷ []
layout p = []

-- Their values, if all have a fixed size.
unfoldable pub fields : DispPayload → List ℕ
fields (ack a b) = a ∷ b ∷ []
fields (ret_current_eq_profile_index a) = a ∷ []
fields (set_current_eq_profile_index a b) = a ∷ bool_value b ∷ []
fields (ret_num_eq_profiles a) = a ∷ []
fields (get_indexed_eq_profile_name a) = a ∷ []
fields (set_remote_event_notification a) = a ∷ []
fields (ret_remote_event_status a) = a ∷ []
fields (get_ipod_state_info a) = a ∷ []
fields (set_ipod_state_info a b) = a ∷ b ∷ []
fields (ret_play_status a b c d) = a ∷ b ∷ c ∷ d ∷ []
fields (set_current_playing_track a) = a ∷ []
fields (get_indexed_playing_track_info a b c) = a ∷ b ∷ c ∷ []
fields (ret_num_playing_tracks a) = a ∷ []
fields (get_track_artwork_data a b c) = a ∷ b ∷ c ∷ []
fields (ret_power_battery_state a b) = a ∷ b ∷ []
fields (ret_sound_check_state a) = bool_value a ∷ []
fields (set_sound_check_state a b) = bool_value a ∷ bool_value b ∷ []
fields (get_track_artwork_times a b c d) = a ∷ b ∷ c ∷ d ∷ []
fields p = []

-- The struct with other values in its fields.
unfoldable pub refill : DispPayload → List ℕ → DispPayload
refill (ack _ _) (a ∷ b ∷ []) = ack a b
refill (ret_current_eq_profile_index _) (a ∷ []) = ret_current_eq_profile_index a
refill (set_current_eq_profile_index _ _) (a ∷ b ∷ []) = set_current_eq_profile_index a (is_set b)
refill (ret_num_eq_profiles _) (a ∷ []) = ret_num_eq_profiles a
refill (get_indexed_eq_profile_name _) (a ∷ []) = get_indexed_eq_profile_name a
refill (set_remote_event_notification _) (a ∷ []) = set_remote_event_notification a
refill (ret_remote_event_status _) (a ∷ []) = ret_remote_event_status a
refill (get_ipod_state_info _) (a ∷ []) = get_ipod_state_info a
refill (set_ipod_state_info _ _) (a ∷ b ∷ []) = set_ipod_state_info a b
refill (ret_play_status _ _ _ _) (a ∷ b ∷ c ∷ d ∷ []) = ret_play_status a b c d
refill (set_current_playing_track _) (a ∷ []) = set_current_playing_track a
refill (get_indexed_playing_track_info _ _ _) (a ∷ b ∷ c ∷ []) =
    get_indexed_playing_track_info a b c
refill (ret_num_playing_tracks _) (a ∷ []) = ret_num_playing_tracks a
refill (get_track_artwork_data _ _ _) (a ∷ b ∷ c ∷ []) = get_track_artwork_data a b c
refill (ret_power_battery_state _ _) (a ∷ b ∷ []) = ret_power_battery_state a b
refill (ret_sound_check_state _) (a ∷ []) = ret_sound_check_state (is_set a)
refill (set_sound_check_state _ _) (a ∷ b ∷ []) = set_sound_check_state (is_set a) (is_set b)
refill (get_track_artwork_times _ _ _ _) (a ∷ b ∷ c ∷ d ∷ []) = get_track_artwork_times a b c d
refill p _ = p

-- The types in `Lingos`, each with its tag.
abbrev pub lingos : List (Result ℕ × DispPayload)
lingos =
    (ok 0x00, ack 0 0)
    ∷ (ok 0x01, get_current_eq_profile_index)
    ∷ (ok 0x02, ret_current_eq_profile_index 0)
    ∷ (ok 0x03, set_current_eq_profile_index 0 false)
    ∷ (ok 0x04, get_num_eq_profiles)
    ∷ (ok 0x05, ret_num_eq_profiles 0)
    ∷ (ok 0x06, get_indexed_eq_profile_name 0)
    ∷ (ok 0x07, ret_indexed_eq_profile_name [])
    ∷ (ok 0x08, set_remote_event_notification 0)
    ∷ (ok 0x09, remote_event_notification 0 [])
    ∷ (ok 0x0A, get_remote_event_status)
    ∷ (ok 0x0B, ret_remote_event_status 0)
    ∷ (ok 0x0C, get_ipod_state_info 0)
    ∷ (ok 0x0D, ret_ipod_state_info 0 none)
    ∷ (ok 0x0E, set_ipod_state_info 0 0)
    ∷ (ok 0x0F, get_play_status)
    ∷ (ok 0x10, ret_play_status 0 0 0 0)
    ∷ (ok 0x11, set_current_playing_track 0)
    ∷ (ok 0x12, get_indexed_playing_track_info 0 0 0)
    ∷ (ok 0x13, ret_indexed_playing_track_info 0 none)
    ∷ (ok 0x14, get_num_playing_tracks)
    ∷ (ok 0x15, ret_num_playing_tracks 0)
    ∷ (ok 0x16, get_artwork_formats)
    ∷ (ok 0x17, ret_artwork_formats [])
    ∷ (ok 0x18, get_track_artwork_data 0 0 0)
    ∷ (ok 0x19, ret_track_artwork_data 0 0 0 0 0 0 0 0 0 [])
    ∷ (ok 0x1A, get_power_battery_state)
    ∷ (ok 0x1B, ret_power_battery_state 0 0)
    ∷ (ok 0x1C, get_sound_check_state)
    ∷ (ok 0x1D, ret_sound_check_state false)
    ∷ (ok 0x1E, set_sound_check_state false false)
    ∷ (ok 0x1F, get_track_artwork_times 0 0 0 0)
    ∷ (ok 0x20, ret_track_artwork_times [])
    ∷ []
