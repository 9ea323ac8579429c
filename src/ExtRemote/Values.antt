-- ===== src/ExtRemote/Values.antt =====
-- lingo-extremote/extremote.go: the values of the payload structs, and their tags.
use ipod.Base.{ℕ, false, none, List, [], ◌∷◌, Result, ok}
use ipod.ExtRemote.Payloads.{
  ExtPayload, ack, get_current_playing_track_chapter_info,
  return_current_playing_track_chapter_info, set_current_playing_track_chapter,
  get_current_playing_track_chapter_play_status, return_current_playing_track_chapter_play_status,
  get_current_playing_track_chapter_name, return_current_playing_track_chapter_name,
  get_audiobook_speed, return_audiobook_speed, set_audiobook_speed, get_indexed_playing_track_info,
  return_indexed_playing_track_info, get_artwork_formats, ret_artwork_formats,
  get_track_artwork_data, ret_track_artwork_data, request_ipod_name, return_ipod_name,
  reset_db_selection, select_db_record, get_number_categorized_db_records,
  return_number_categorized_db_records, retrieve_categorized_database_records,
  return_categorized_database_record, get_play_status, return_play_status,
  get_current_playing_track_index, return_current_playing_track_index,
  get_indexed_playing_track_title, return_indexed_playing_track_title,
  get_indexed_playing_track_artist_name, return_indexed_playing_track_artist_name,
  get_indexed_playing_track_album_name, return_indexed_playing_track_album_name,
  set_play_status_change_notification, set_play_status_change_notification_short,
  play_status_change_notification, play_status_change_notification_track_index,
  play_status_change_notification_extended, play_status_change_notification_position,
  play_current_selection, play_control, get_track_artwork_times, ret_track_artwork_times,
  get_shuffle, return_shuffle, set_shuffle, get_repeat, return_repeat, set_repeat,
  set_display_image, get_mono_display_image_limits, return_mono_display_image_limits,
  get_num_playing_tracks, return_num_playing_tracks, set_current_playing_track,
  select_sort_db_record, get_color_display_image_limits, return_color_display_image_limits,
  reset_db_selection_hierarchy, get_db_itunes_info, ret_db_itunes_info, get_uid_track_info,
  ret_uid_track_info, get_db_track_info, ret_db_track_info, get_pb_track_info, ret_pb_track_info,
}
use ipod.ExtRemote.Structs.{bool_value, is_set, zero_name}

-- The values of the fields, if all have a fixed size.
unfoldable pub ext_fields : ExtPayload → List ℕ
ext_fields (ack a b) = a ∷ b ∷ []
ext_fields (return_current_playing_track_chapter_info a b) = a ∷ b ∷ []
ext_fields (set_current_playing_track_chapter a) = a ∷ []
ext_fields (get_current_playing_track_chapter_play_status a) = a ∷ []
ext_fields (return_current_playing_track_chapter_play_status a b) = a ∷ b ∷ []
ext_fields (get_current_playing_track_chapter_name a) = a ∷ []
ext_fields (return_audiobook_speed a) = a ∷ []
ext_fields (set_audiobook_speed a) = a ∷ []
ext_fields (get_indexed_playing_track_info a b c) = a ∷ b ∷ c ∷ []
ext_fields (get_track_artwork_data a b c) = a ∷ b ∷ c ∷ []
ext_fields (select_db_record a b) = a ∷ b ∷ []
ext_fields (get_number_categorized_db_records a) = a ∷ []
ext_fields (return_number_categorized_db_records a) = a ∷ []
ext_fields (retrieve_categorized_database_records a b c) = a ∷ b ∷ c ∷ []
ext_fields (return_play_status a b c) = a ∷ b ∷ c ∷ []
ext_fields (return_current_playing_track_index a) = a ∷ []
ext_fields (get_indexed_playing_track_title a) = a ∷ []
ext_fields (get_indexed_playing_track_artist_name a) = a ∷ []
ext_fields (get_indexed_playing_track_album_name a) = a ∷ []
ext_fields (set_play_status_change_notification a) = a ∷ []
ext_fields (set_play_status_change_notification_short a) = bool_value a ∷ []
ext_fields (play_status_change_notification a b) = a ∷ b ∷ []
ext_fields (play_status_change_notification_track_index a b) = a ∷ b ∷ []
ext_fields (play_status_change_notification_extended a b) = a ∷ b ∷ []
ext_fields (play_status_change_notification_position a b) = a ∷ b ∷ []
ext_fields (play_current_selection a) = a ∷ []
ext_fields (play_control a) = a ∷ []
ext_fields (get_track_artwork_times a b c d) = a ∷ b ∷ c ∷ d ∷ []
ext_fields (return_shuffle a) = a ∷ []
ext_fields (set_shuffle a) = a ∷ []
ext_fields (return_repeat a) = a ∷ []
ext_fields (set_repeat a) = a ∷ []
ext_fields (return_mono_display_image_limits a b c) = a ∷ b ∷ c ∷ []
ext_fields (return_num_playing_tracks a) = a ∷ []
ext_fields (set_current_playing_track a) = a ∷ []
ext_fields (select_sort_db_record a b c) = a ∷ b ∷ c ∷ []
ext_fields (return_color_display_image_limits a b c) = a ∷ b ∷ c ∷ []
ext_fields (reset_db_selection_hierarchy a) = a ∷ []
ext_fields (return_categorized_database_record a b) = a ∷ b
ext_fields p = []

-- The struct with other values in its fields.
unfoldable pub ext_refill : ExtPayload → List ℕ → ExtPayload
ext_refill (ack _ _) (a ∷ b ∷ []) = ack a b
ext_refill (return_current_playing_track_chapter_info _ _) (a ∷ b ∷ []) =
    return_current_playing_track_chapter_info a b
ext_refill (set_current_playing_track_chapter _) (a ∷ []) = set_current_playing_track_chapter a
ext_refill (get_current_playing_track_chapter_play_status _) (a ∷ []) =
    get_current_playing_track_chapter_play_status a
ext_refill (return_current_playing_track_chapter_play_status _ _) (a ∷ b ∷ []) =
    return_current_playing_track_chapter_play_status a b
ext_refill (get_current_playing_track_chapter_name _) (a ∷ []) =
    get_current_playing_track_chapter_name a
ext_refill (return_audiobook_speed _) (a ∷ []) = return_audiobook_speed a
ext_refill (set_audiobook_speed _) (a ∷ []) = set_audiobook_speed a
ext_refill (get_indexed_playing_track_info _ _ _) (a ∷ b ∷ c ∷ []) =
    get_indexed_playing_track_info a b c
ext_refill (get_track_artwork_data _ _ _) (a ∷ b ∷ c ∷ []) = get_track_artwork_data a b c
ext_refill (select_db_record _ _) (a ∷ b ∷ []) = select_db_record a b
ext_refill (get_number_categorized_db_records _) (a ∷ []) = get_number_categorized_db_records a
ext_refill (return_number_categorized_db_records _) (a ∷ []) =
    return_number_categorized_db_records a
ext_refill (retrieve_categorized_database_records _ _ _) (a ∷ b ∷ c ∷ []) =
    retrieve_categorized_database_records a b c
ext_refill (return_play_status _ _ _) (a ∷ b ∷ c ∷ []) = return_play_status a b c
ext_refill (return_current_playing_track_index _) (a ∷ []) = return_current_playing_track_index a
ext_refill (get_indexed_playing_track_title _) (a ∷ []) = get_indexed_playing_track_title a
ext_refill (get_indexed_playing_track_artist_name _) (a ∷ []) =
    get_indexed_playing_track_artist_name a
ext_refill (get_indexed_playing_track_album_name _) (a ∷ []) =
    get_indexed_playing_track_album_name a
ext_refill (set_play_status_change_notification _) (a ∷ []) = set_play_status_change_notification a
ext_refill (set_play_status_change_notification_short _) (a ∷ []) =
    set_play_status_change_notification_short (is_set a)
ext_refill (play_status_change_notification _ _) (a ∷ b ∷ []) = play_status_change_notification a b
ext_refill (play_status_change_notification_track_index _ _) (a ∷ b ∷ []) =
    play_status_change_notification_track_index a b
ext_refill (play_status_change_notification_extended _ _) (a ∷ b ∷ []) =
    play_status_change_notification_extended a b
ext_refill (play_status_change_notification_position _ _) (a ∷ b ∷ []) =
    play_status_change_notification_position a b
ext_refill (play_current_selection _) (a ∷ []) = play_current_selection a
ext_refill (play_control _) (a ∷ []) = play_control a
ext_refill (get_track_artwork_times _ _ _ _) (a ∷ b ∷ c ∷ d ∷ []) = get_track_artwork_times a b c d
ext_refill (return_shuffle _) (a ∷ []) = return_shuffle a
ext_refill (set_shuffle _) (a ∷ []) = set_shuffle a
ext_refill (return_repeat _) (a ∷ []) = return_repeat a
ext_refill (set_repeat _) (a ∷ []) = set_repeat a
ext_refill (return_mono_display_image_limits _ _ _) (a ∷ b ∷ c ∷ []) =
    return_mono_display_image_limits a b c
ext_refill (return_num_playing_tracks _) (a ∷ []) = return_num_playing_tracks a
ext_refill (set_current_playing_track _) (a ∷ []) = set_current_playing_track a
ext_refill (select_sort_db_record _ _ _) (a ∷ b ∷ c ∷ []) = select_sort_db_record a b c
ext_refill (return_color_display_image_limits _ _ _) (a ∷ b ∷ c ∷ []) =
    return_color_display_image_limits a b c
ext_refill (reset_db_selection_hierarchy _) (a ∷ []) = reset_db_selection_hierarchy a
ext_refill (return_categorized_database_record _ _) (a ∷ b) = return_categorized_database_record a b
ext_refill p _ = p

-- The types in `Lingos`, each with its tag; two tags have several types.
abbrev pub ext_lingos : List (Result ℕ × ExtPayload)
ext_lingos =
    (ok 0x0001, ack 0 0)
    ∷ (ok 0x0002, get_current_playing_track_chapter_info)
    ∷ (ok 0x0003, return_current_playing_track_chapter_info 0 0)
    ∷ (ok 0x0004, set_current_playing_track_chapter 0)
    ∷ (ok 0x0005, get_current_playing_track_chapter_play_status 0)
    ∷ (ok 0x0006, return_current_playing_track_chapter_play_status 0 0)
    ∷ (ok 0x0007, get_current_playing_track_chapter_name 0)
    ∷ (ok 0x0008, return_current_playing_track_chapter_name [])
    ∷ (ok 0x0009, get_audiobook_speed)
    ∷ (ok 0x000A, return_audiobook_speed 0)
    ∷ (ok 0x000B, set_audiobook_speed 0)
    ∷ (ok 0x000C, get_indexed_playing_track_info 0 0 0)
    ∷ (ok 0x000D, return_indexed_playing_track_info 0 none)
    ∷ (ok 0x000E, get_artwork_formats)
    ∷ (ok 0x000F, ret_artwork_formats [])
    ∷ (ok 0x0010, get_track_artwork_data 0 0 0)
    ∷ (ok 0x0011, ret_track_artwork_data 0 0 0 0 0 0 0 0 0 [])
    ∷ (ok 0x0014, request_ipod_name)
    ∷ (ok 0x0015, return_ipod_name [])
    ∷ (ok 0x0016, reset_db_selection)
    ∷ (ok 0x0017, select_db_record 0 0)
    ∷ (ok 0x0018, get_number_categorized_db_records 0)
    ∷ (ok 0x0019, return_number_categorized_db_records 0)
    ∷ (ok 0x001A, retrieve_categorized_database_records 0 0 0)
    ∷ (ok 0x001B, return_categorized_database_record 0 zero_name)
    ∷ (ok 0x001C, get_play_status)
    ∷ (ok 0x001D, return_play_status 0 0 0)
    ∷ (ok 0x001E, get_current_playing_track_index)
    ∷ (ok 0x001F, return_current_playing_track_index 0)
    ∷ (ok 0x0020, get_indexed_playing_track_title 0)
    ∷ (ok 0x0021, return_indexed_playing_track_title [])
    ∷ (ok 0x0022, get_indexed_playing_track_artist_name 0)
    ∷ (ok 0x0023, return_indexed_playing_track_artist_name [])
    ∷ (ok 0x0024, get_indexed_playing_track_album_name 0)
    ∷ (ok 0x0025, return_indexed_playing_track_album_name [])
    ∷ (ok 0x0026, set_play_status_change_notification 0)
    ∷ (ok 0x0026, set_play_status_change_notification_short false)
    ∷ (ok 0x0027, play_status_change_notification 0 0)
    ∷ (ok 0x0027, play_status_change_notification_track_index 0 0)
    ∷ (ok 0x0027, play_status_change_notification_extended 0 0)
    ∷ (ok 0x0027, play_status_change_notification_position 0 0)
    ∷ (ok 0x0028, play_current_selection 0)
    ∷ (ok 0x0029, play_control 0)
    ∷ (ok 0x002A, get_track_artwork_times 0 0 0 0)
    ∷ (ok 0x002B, ret_track_artwork_times)
    ∷ (ok 0x002C, get_shuffle)
    ∷ (ok 0x002D, return_shuffle 0)
    ∷ (ok 0x002E, set_shuffle 0)
    ∷ (ok 0x002F, get_repeat)
    ∷ (ok 0x0030, return_repeat 0)
    ∷ (ok 0x0031, set_repeat 0)
    ∷ (ok 0x0032, set_display_image)
    ∷ (ok 0x0033, get_mono_display_image_limits)
    ∷ (ok 0x0034, return_mono_display_image_limits 0 0 0)
    ∷ (ok 0x0035, get_num_playing_tracks)
    ∷ (ok 0x0036, return_num_playing_tracks 0)
    ∷ (ok 0x0037, set_current_playing_track 0)
    ∷ (ok 0x0038, select_sort_db_record 0 0 0)
    ∷ (ok 0x0039, get_color_display_image_limits)
    ∷ (ok 0x003A, return_color_display_image_limits 0 0 0)
    ∷ (ok 0x003B, reset_db_selection_hierarchy 0)
    ∷ (ok 0x003C, get_db_itunes_info)
    ∷ (ok 0x003D, ret_db_itunes_info)
    ∷ (ok 0x003E, get_uid_track_info)
    ∷ (ok 0x003F, ret_uid_track_info)
    ∷ (ok 0x0040, get_db_track_info)
    ∷ (ok 0x0041, ret_db_track_info)
    ∷ (ok 0x0042, get_pb_track_info)
    ∷ (ok 0x0043, ret_pb_track_info)
    ∷ []
