-- ===== src/ExtRemote/Payloads.antt =====
-- lingo-extremote/extremote.go: the payloads of the extended remote lingo, by their tags.
use ipod.Base.{ℕ, Bool, Option, List}

pub record ExtArtworkFormat : Type 0 where
  pub format_id : ℕ
  pub pixel_format : ℕ
  pub image_width : ℕ
  pub image_height : ℕ

-- What `ReturnIndexedPlayingTrackInfo.Info` holds: two structs, no data at all, or raw bytes.
pub data TrackData : Type 0 where
  track_caps : (caps track_length chapter_count : ℕ) → TrackData
  track_long_text : (flags packet_index text : ℕ) → TrackData
  no_data : TrackData
  raw : (bytes : List ℕ) → TrackData

-- Signed integers are here by their bits, and a [16]byte is a list of 16 bytes.
pub data ExtPayload : Type 0 where
  ack : (status cmd_id : ℕ) → ExtPayload
  get_current_playing_track_chapter_info : ExtPayload
  return_current_playing_track_chapter_info : (current_chapter_index chapter_count : ℕ) → ExtPayload
  set_current_playing_track_chapter : (chapter_index : ℕ) → ExtPayload
  get_current_playing_track_chapter_play_status : (current_chapter_index : ℕ) → ExtPayload
  return_current_playing_track_chapter_play_status :
      (chapter_length chapter_position : ℕ) → ExtPayload
  get_current_playing_track_chapter_name : (chapter_index : ℕ) → ExtPayload
  return_current_playing_track_chapter_name : (chapter_name : List ℕ) → ExtPayload
  get_audiobook_speed : ExtPayload
  return_audiobook_speed : (speed : ℕ) → ExtPayload
  set_audiobook_speed : (speed : ℕ) → ExtPayload
  get_indexed_playing_track_info : (info_type track_index chapter_index : ℕ) → ExtPayload
  return_indexed_playing_track_info : (info_type : ℕ) (info : Option TrackData) → ExtPayload
  get_artwork_formats : ExtPayload
  ret_artwork_formats : (formats : List ExtArtworkFormat) → ExtPayload
  get_track_artwork_data : (track_index format_id offset : ℕ) → ExtPayload
  ret_track_artwork_data :
      (packet_index pixel_format image_width image_height top_left_x top_left_y bottom_right_x
        bottom_right_y row_size : ℕ)
      (data_ : List ℕ)
      → ExtPayload
  request_ipod_name : ExtPayload
  return_ipod_name : (name : List ℕ) → ExtPayload
  reset_db_selection : ExtPayload
  select_db_record : (category_type record_index : ℕ) → ExtPayload
  get_number_categorized_db_records : (category_type : ℕ) → ExtPayload
  return_number_categorized_db_records : (record_count : ℕ) → ExtPayload
  retrieve_categorized_database_records : (category_type offset count : ℕ) → ExtPayload
  return_categorized_database_record : (record_category_index : ℕ) (name : List ℕ) → ExtPayload
  get_play_status : ExtPayload
  return_play_status : (track_length track_position state : ℕ) → ExtPayload
  get_current_playing_track_index : ExtPayload
  return_current_playing_track_index : (track_index : ℕ) → ExtPayload
  get_indexed_playing_track_title : (track_index : ℕ) → ExtPayload
  return_indexed_playing_track_title : (title : List ℕ) → ExtPayload
  get_indexed_playing_track_artist_name : (track_index : ℕ) → ExtPayload
  return_indexed_playing_track_artist_name : (artist_name : List ℕ) → ExtPayload
  get_indexed_playing_track_album_name : (track_index : ℕ) → ExtPayload
  return_indexed_playing_track_album_name : (album_name : List ℕ) → ExtPayload
  set_play_status_change_notification : (event_mask : ℕ) → ExtPayload
  set_play_status_change_notification_short : (enabled : Bool) → ExtPayload
  play_status_change_notification : (event_id player_state : ℕ) → ExtPayload
  play_status_change_notification_track_index : (event_id track_index : ℕ) → ExtPayload
  play_status_change_notification_extended : (event_id state : ℕ) → ExtPayload
  play_status_change_notification_position : (event_id position_ms : ℕ) → ExtPayload
  play_current_selection : (selected_track_index : ℕ) → ExtPayload
  play_control : (cmd : ℕ) → ExtPayload
  get_track_artwork_times : (track_index format_id artwork_index artwork_count : ℕ) → ExtPayload
  ret_track_artwork_times : ExtPayload
  get_shuffle : ExtPayload
  return_shuffle : (mode : ℕ) → ExtPayload
  set_shuffle : (mode : ℕ) → ExtPayload
  get_repeat : ExtPayload
  return_repeat : (mode : ℕ) → ExtPayload
  set_repeat : (mode : ℕ) → ExtPayload
  set_display_image : ExtPayload
  get_mono_display_image_limits : ExtPayload
  return_mono_display_image_limits : (max_width max_height pixel_format : ℕ) → ExtPayload
  get_num_playing_tracks : ExtPayload
  return_num_playing_tracks : (num_tracks : ℕ) → ExtPayload
  set_current_playing_track : (track_index : ℕ) → ExtPayload
  select_sort_db_record : (category_type record_index sort_type : ℕ) → ExtPayload
  get_color_display_image_limits : ExtPayload
  return_color_display_image_limits : (max_width max_height pixel_format : ℕ) → ExtPayload
  reset_db_selection_hierarchy : (selection : ℕ) → ExtPayload
  get_db_itunes_info : ExtPayload
  ret_db_itunes_info : ExtPayload
  get_uid_track_info : ExtPayload
  ret_uid_track_info : ExtPayload
  get_db_track_info : ExtPayload
  ret_db_track_info : ExtPayload
  get_pb_track_info : ExtPayload
  ret_pb_track_info : ExtPayload

-- The tag of the type in `Lingos`.
unfoldable pub ext_code : ExtPayload → ℕ
ext_code (ack _ _) = 0x0001
ext_code get_current_playing_track_chapter_info = 0x0002
ext_code (return_current_playing_track_chapter_info _ _) = 0x0003
ext_code (set_current_playing_track_chapter _) = 0x0004
ext_code (get_current_playing_track_chapter_play_status _) = 0x0005
ext_code (return_current_playing_track_chapter_play_status _ _) = 0x0006
ext_code (get_current_playing_track_chapter_name _) = 0x0007
ext_code (return_current_playing_track_chapter_name _) = 0x0008
ext_code get_audiobook_speed = 0x0009
ext_code (return_audiobook_speed _) = 0x000A
ext_code (set_audiobook_speed _) = 0x000B
ext_code (get_indexed_playing_track_info _ _ _) = 0x000C
ext_code (return_indexed_playing_track_info _ _) = 0x000D
ext_code get_artwork_formats = 0x000E
ext_code (ret_artwork_formats _) = 0x000F
ext_code (get_track_artwork_data _ _ _) = 0x0010
ext_code (ret_track_artwork_data _ _ _ _ _ _ _ _ _ _) = 0x0011
ext_code request_ipod_name = 0x0014
ext_code (return_ipod_name _) = 0x0015
ext_code reset_db_selection = 0x0016
ext_code (select_db_record _ _) = 0x0017
ext_code (get_number_categorized_db_records _) = 0x0018
ext_code (return_number_categorized_db_records _) = 0x0019
ext_code (retrieve_categorized_database_records _ _ _) = 0x001A
ext_code (return_categorized_database_record _ _) = 0x001B
ext_code get_play_status = 0x001C
ext_code (return_play_status _ _ _) = 0x001D
ext_code get_current_playing_track_index = 0x001E
ext_code (return_current_playing_track_index _) = 0x001F
ext_code (get_indexed_playing_track_title _) = 0x0020
ext_code (return_indexed_playing_track_title _) = 0x0021
ext_code (get_indexed_playing_track_artist_name _) = 0x0022
ext_code (return_indexed_playing_track_artist_name _) = 0x0023
ext_code (get_indexed_playing_track_album_name _) = 0x0024
ext_code (return_indexed_playing_track_album_name _) = 0x0025
ext_code (set_play_status_change_notification _) = 0x0026
ext_code (set_play_status_change_notification_short _) = 0x0026
ext_code (play_status_change_notification _ _) = 0x0027
ext_code (play_status_change_notification_track_index _ _) = 0x0027
ext_code (play_status_change_notification_extended _ _) = 0x0027
ext_code (play_status_change_notification_position _ _) = 0x0027
ext_code (play_current_selection _) = 0x0028
ext_code (play_control _) = 0x0029
ext_code (get_track_artwork_times _ _ _ _) = 0x002A
ext_code ret_track_artwork_times = 0x002B
ext_code get_shuffle = 0x002C
ext_code (return_shuffle _) = 0x002D
ext_code (set_shuffle _) = 0x002E
ext_code get_repeat = 0x002F
ext_code (return_repeat _) = 0x0030
ext_code (set_repeat _) = 0x0031
ext_code set_display_image = 0x0032
ext_code get_mono_display_image_limits = 0x0033
ext_code (return_mono_display_image_limits _ _ _) = 0x0034
ext_code get_num_playing_tracks = 0x0035
ext_code (return_num_playing_tracks _) = 0x0036
ext_code (set_current_playing_track _) = 0x0037
ext_code (select_sort_db_record _ _ _) = 0x0038
ext_code get_color_display_image_limits = 0x0039
ext_code (return_color_display_image_limits _ _ _) = 0x003A
ext_code (reset_db_selection_hierarchy _) = 0x003B
ext_code get_db_itunes_info = 0x003C
ext_code ret_db_itunes_info = 0x003D
ext_code get_uid_track_info = 0x003E
ext_code ret_uid_track_info = 0x003F
ext_code get_db_track_info = 0x0040
ext_code ret_db_track_info = 0x0041
ext_code get_pb_track_info = 0x0042
ext_code ret_pb_track_info = 0x0043
