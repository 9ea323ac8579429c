-- ===== src/DispRemote/Payloads.antt =====
-- lingo-dispremote/dispremote.go: the payloads of the display remote lingo, by their tags.
use ipod.Base.{ℕ, Bool, Option, List}
use ipod.DispRemote.Info.{InfoData}
use ipod.DispRemote.TrackInfo.{TrackInfo}

pub record ArtworkFormat : Type 0 where
  pub format_id : ℕ
  pub pixel_format : ℕ
  pub image_width : ℕ
  pub image_height : ℕ

-- `TrackIndex` of GetTrackArtworkData is an int32, here by its bits.
pub data DispPayload : Type 0 where
  ack : (status cmd_id : ℕ) → DispPayload
  get_current_eq_profile_index : DispPayload
  ret_current_eq_profile_index : (current_eq_index : ℕ) → DispPayload
  set_current_eq_profile_index : (current_eq_index : ℕ) (restore_on_exit : Bool) → DispPayload
  get_num_eq_profiles : DispPayload
  ret_num_eq_profiles : (num_eq_profiles : ℕ) → DispPayload
  get_indexed_eq_profile_name : (eq_profile_index : ℕ) → DispPayload
  ret_indexed_eq_profile_name : (eq_profile_name : List ℕ) → DispPayload
  set_remote_event_notification : (event_mask : ℕ) → DispPayload
  remote_event_notification : (event_num : ℕ) (event_data : List ℕ) → DispPayload
  get_remote_event_status : DispPayload
  ret_remote_event_status : (event_status : ℕ) → DispPayload
  get_ipod_state_info : (info_type : ℕ) → DispPayload
  ret_ipod_state_info : (info_type : ℕ) (info : Option InfoData) → DispPayload
  set_ipod_state_info : (info_type info_data : ℕ) → DispPayload
  get_play_status : DispPayload
  ret_play_status : (play_state track_index track_length track_pos : ℕ) → DispPayload
  set_current_playing_track : (track_index : ℕ) → DispPayload
  get_indexed_playing_track_info : (info_type track_index chapter_index : ℕ) → DispPayload
  ret_indexed_playing_track_info : (info_type : ℕ) (info : Option TrackInfo) → DispPayload
  get_num_playing_tracks : DispPayload
  ret_num_playing_tracks : (num_play_tracks : ℕ) → DispPayload
  get_artwork_formats : DispPayload
  ret_artwork_formats : (formats : List ArtworkFormat) → DispPayload
  get_track_artwork_data : (track_index format_id time_offset : ℕ) → DispPayload
  ret_track_artwork_data :
      (packet_index pixel_format image_width image_height top_left_x top_left_y bottom_right_x
        bottom_right_y row_size : ℕ)
      (data_ : List ℕ)
      → DispPayload
  get_power_battery_state : DispPayload
  ret_power_battery_state : (power_state battery_level : ℕ) → DispPayload
  get_sound_check_state : DispPayload
  ret_sound_check_state : (enabled : Bool) → DispPayload
  set_sound_check_state : (enabled restore_on_exit : Bool) → DispPayload
  get_track_artwork_times : (track_index format_id artwork_index artwork_count : ℕ) → DispPayload
  ret_track_artwork_times : (time_offset : List ℕ) → DispPayload

-- The tag of the type in `Lingos`.
unfoldable pub code : DispPayload → ℕ
code (ack _ _) = 0x00
code get_current_eq_profile_index = 0x01
code (ret_current_eq_profile_index _) = 0x02
code (set_current_eq_profile_index _ _) = 0x03
code get_num_eq_profiles = 0x04
code (ret_num_eq_profiles _) = 0x05
code (get_indexed_eq_profile_name _) = 0x06
code (ret_indexed_eq_profile_name _) = 0x07
code (set_remote_event_notification _) = 0x08
code (remote_event_notification _ _) = 0x09
code get_remote_event_status = 0x0A
code (ret_remote_event_status _) = 0x0B
code (get_ipod_state_info _) = 0x0C
code (ret_ipod_state_info _ _) = 0x0D
code (set_ipod_state_info _ _) = 0x0E
code get_play_status = 0x0F
code (ret_play_status _ _ _ _) = 0x10
code (set_current_playing_track _) = 0x11
code (get_indexed_playing_track_info _ _ _) = 0x12
code (ret_indexed_playing_track_info _ _) = 0x13
code get_num_playing_tracks = 0x14
code (ret_num_playing_tracks _) = 0x15
code get_artwork_formats = 0x16
code (ret_artwork_formats _) = 0x17
code (get_track_artwork_data _ _ _) = 0x18
code (ret_track_artwork_data _ _ _ _ _ _ _ _ _ _) = 0x19
code get_power_battery_state = 0x1A
code (ret_power_battery_state _ _) = 0x1B
code get_sound_check_state = 0x1C
code (ret_sound_check_state _) = 0x1D
code (set_sound_check_state _ _) = 0x1E
code (get_track_artwork_times _ _ _ _) = 0x1F
code (ret_track_artwork_times _) = 0x20
