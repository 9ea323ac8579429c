-- ===== src/ExtRemote/Structs.antt =====
-- lingo-extremote/extremote.go: the payload structs as encoding/binary sees them.
use ipod.Base.{ℕ, Bool, false, not, none, List, [], ◌∷◌, ◌==◌, if◌then◌else◌, replicate}
use ipod.Wire.{Width, byte, short, word, slice}
use ipod.ExtRemote.Payloads.{
  ExtPayload, ack, return_current_playing_track_chapter_info, set_current_playing_track_chapter,
  get_current_playing_track_chapter_play_status, return_current_playing_track_chapter_play_status,
  get_current_playing_track_chapter_name, return_current_playing_track_chapter_name,
  return_audiobook_speed, set_audiobook_speed, get_indexed_playing_track_info,
  return_indexed_playing_track_info, ret_artwork_formats, get_track_artwork_data,
  ret_track_artwork_data, return_ipod_name, select_db_record, get_number_categorized_db_records,
  return_number_categorized_db_records, retrieve_categorized_database_records,
  return_categorized_database_record, return_play_status, return_current_playing_track_index,
  get_indexed_playing_track_title, return_indexed_playing_track_title,
  get_indexed_playing_track_artist_name, return_indexed_playing_track_artist_name,
  get_indexed_playing_track_album_name, return_indexed_playing_track_album_name,
  set_play_status_change_notification, set_play_status_change_notification_short,
  play_status_change_notification, play_status_change_notification_track_index,
  play_status_change_notification_extended, play_status_change_notification_position,
  play_current_selection, play_control, get_track_artwork_times, return_shuffle, set_shuffle,
  return_repeat, set_repeat, return_mono_display_image_limits, return_num_playing_tracks,
  set_current_playing_track, select_sort_db_record, return_color_display_image_limits,
  reset_db_selection_hierarchy,
}

abbrev pub bool_value : Bool → ℕ
bool_value b = if b then 1 else 0

abbrev pub is_set : ℕ → Bool
is_set n = not (n == 0)

abbrev pub zero_name : List ℕ
zero_name = replicate 16 0

-- A new value of the same type, whose fields are zero.
unfoldable pub ext_new : ExtPayload → ExtPayload
ext_new (ack _ _) = ack 0 0
ext_new (return_current_playing_track_chapter_info _ _) =
    return_current_playing_track_chapter_info 0 0
ext_new (set_current_playing_track_chapter _) = set_current_playing_track_chapter 0
ext_new (get_current_playing_track_chapter_play_status _) =
    get_current_playing_track_chapter_play_status 0
ext_new (return_current_playing_track_chapter_play_status _ _) =
    return_current_playing_track_chapter_play_status 0 0
ext_new (get_current_playing_track_chapter_name _) = get_current_playing_track_chapter_name 0
ext_new (return_current_playing_track_chapter_name _) = return_current_playing_track_chapter_name []
ext_new (return_audiobook_speed _) = return_audiobook_speed 0
ext_new (set_audiobook_speed _) = set_audiobook_speed 0
ext_new (get_indexed_playing_track_info _ _ _) = get_indexed_playing_track_info 0 0 0
ext_new (get_track_artwork_data _ _ _) = get_track_artwork_data 0 0 0
ext_new (ret_track_artwork_data _ _ _ _ _ _ _ _ _ _) = ret_track_artwork_data 0 0 0 0 0 0 0 0 0 []
ext_new (return_ipod_name _) = return_ipod_name []
ext_new (select_db_record _ _) = select_db_record 0 0
ext_new (get_number_categorized_db_records _) = get_number_categorized_db_records 0
ext_new (return_number_categorized_db_records _) = return_number_categorized_db_records 0
ext_new (retrieve_categorized_database_records _ _ _) = retrieve_categorized_database_records 0 0 0
ext_new (return_play_status _ _ _) = return_play_status 0 0 0
ext_new (return_current_playing_track_index _) = return_current_playing_track_index 0
ext_new (get_indexed_playing_track_title _) = get_indexed_playing_track_title 0
ext_new (return_indexed_playing_track_title _) = return_indexed_playing_track_title []
ext_new (get_indexed_playing_track_artist_name _) = get_indexed_playing_track_artist_name 0
ext_new (return_indexed_playing_track_artist_name _) = return_indexed_playing_track_artist_name []
ext_new (get_indexed_playing_track_album_name _) = get_indexed_playing_track_album_name 0
ext_new (return_indexed_playing_track_album_name _) = return_indexed_playing_track_album_name []
ext_new (set_play_status_change_notification _) = set_play_status_change_notification 0
ext_new (set_play_status_change_notification_short _) =
    set_play_status_change_notification_short false
ext_new (play_status_change_notification _ _) = play_status_change_notification 0 0
ext_new (play_status_change_notification_track_index _ _) =
    play_status_change_notification_track_index 0 0
ext_new (play_status_change_notification_extended _ _) =
    play_status_change_notification_extended 0 0
ext_new (play_status_change_notification_position _ _) =
    play_status_change_notification_position 0 0
ext_new (play_current_selection _) = play_current_selection 0
ext_new (play_control _) = play_control 0
ext_new (get_track_artwork_times _ _ _ _) = get_track_artwork_times 0 0 0 0
ext_new (return_shuffle _) = return_shuffle 0
ext_new (set_shuffle _) = set_shuffle 0
ext_new (return_repeat _) = return_repeat 0
ext_new (set_repeat _) = set_repeat 0
ext_new (return_mono_display_image_limits _ _ _) = return_mono_display_image_limits 0 0 0
ext_new (return_num_playing_tracks _) = return_num_playing_tracks 0
ext_new (set_current_playing_track _) = set_current_playing_track 0
ext_new (select_sort_db_record _ _ _) = select_sort_db_record 0 0 0
ext_new (return_color_display_image_limits _ _ _) = return_color_display_image_limits 0 0 0
ext_new (reset_db_selection_hierarchy _) = reset_db_selection_hierarchy 0
ext_new (return_indexed_playing_track_info _ _) = return_indexed_playing_track_info 0 none
ext_new (ret_artwork_formats _) = ret_artwork_formats []
ext_new (return_categorized_database_record _ _) = return_categorized_database_record 0 zero_name
ext_new p = p

-- The fields of the struct.
unfoldable pub ext_layout : ExtPayload → List Width
ext_layout (ack _ _) = byte ∷ short ∷ []
ext_layout (return_current_playing_track_chapter_info _ _) = word ∷ word ∷ []
ext_layout (set_current_playing_track_chapter _) = word ∷ []
ext_layout (get_current_playing_track_chapter_play_status _) = word ∷ []
ext_layout (return_current_playing_track_chapter_play_status _ _) = word ∷ word ∷ []
ext_layout (get_current_playing_track_chapter_name _) = word ∷ []
ext_layout (return_current_playing_track_chapter_name _) = slice ∷ []
ext_layout (return_audiobook_speed _) = byte ∷ []
ext_layout (set_audiobook_speed _) = byte ∷ []
ext_layout (get_indexed_playing_track_info _ _ _) = byte ∷ word ∷ short ∷ []
ext_layout (get_track_artwork_data _ _ _) = word ∷ short ∷ word ∷ []
ext_layout (ret_track_artwork_data _ _ _ _ _ _ _ _ _ _) =
    short ∷ byte ∷ short ∷ short ∷ short ∷ short ∷ short ∷ short ∷ word ∷ slice ∷ []
ext_layout (return_ipod_name _) = slice ∷ []
ext_layout (select_db_record _ _) = byte ∷ word ∷ []
ext_layout (get_number_categorized_db_records _) = byte ∷ []
ext_layout (return_number_categorized_db_records _) = word ∷ []
ext_layout (retrieve_categorized_database_records _ _ _) = byte ∷ word ∷ word ∷ []
ext_layout (return_play_status _ _ _) = word ∷ word ∷ byte ∷ []
ext_layout (return_current_playing_track_index _) = word ∷ []
ext_layout (get_indexed_playing_track_title _) = word ∷ []
ext_layout (return_indexed_playing_track_title _) = slice ∷ []
ext_layout (get_indexed_playing_track_artist_name _) = word ∷ []
ext_layout (return_indexed_playing_track_artist_name _) = slice ∷ []
ext_layout (get_indexed_playing_track_album_name _) = word ∷ []
ext_layout (return_indexed_playing_track_album_name _) = slice ∷ []
ext_layout (set_play_status_change_notification _) = word ∷ []
ext_layout (set_play_status_change_notification_short _) = byte ∷ []
ext_layout (play_status_change_notification _ _) = byte ∷ byte ∷ []
ext_layout (play_status_change_notification_track_index _ _) = byte ∷ word ∷ []
ext_layout (play_status_change_notification_extended _ _) = byte ∷ byte ∷ []
ext_layout (play_status_change_notification_position _ _) = byte ∷ word ∷ []
ext_layout (play_current_selection _) = word ∷ []
ext_layout (play_control _) = byte ∷ []
ext_layout (get_track_artwork_times _ _ _ _) = word ∷ short ∷ short ∷ short ∷ []
ext_layout (return_shuffle _) = byte ∷ []
ext_layout (set_shuffle _) = byte ∷ []
ext_layout (return_repeat _) = byte ∷ []
ext_layout (set_repeat _) = byte ∷ []
ext_layout (return_mono_display_image_limits _ _ _) = short ∷ short ∷ byte ∷ []
ext_layout (return_num_playing_tracks _) = word ∷ []
ext_layout (set_current_playing_track _) = word ∷ []
ext_layout (select_sort_db_record _ _ _) = byte ∷ word ∷ byte ∷ []
ext_layout (return_color_display_image_limits _ _ _) = short ∷ short ∷ byte ∷ []
ext_layout (reset_db_selection_hierarchy _) = byte ∷ []
ext_layout (return_indexed_playing_track_info _ _) = byte ∷ slice ∷ []
ext_layout (ret_artwork_formats _) = slice ∷ []
ext_layout (return_categorized_database_record _ _) = word ∷ replicate 16 byte
ext_layout p = []
