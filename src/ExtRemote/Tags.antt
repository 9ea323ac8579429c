-- ===== src/ExtRemote/Tags.antt =====
-- lingo-extremote: the payload types and the tags that they are registered for.
use ipod.Base.{◌<◌, ◌≡◌, refl, some, arith}
use ipod.ExtRemote.Payloads.{
  ExtPayload, ext_code, ack, get_current_playing_track_chapter_info,
  return_current_playing_track_chapter_info, set_current_playing_track_chapter,
  get_current_playing_track_chapter_play_status, return_current_playing_track_chapter_play_status,
  get_current_playing_track_chapter_name, return_current_playing_track_chapter_name,
  get_audiobook_speed, return_audiobook_speed, set_audiobook_speed, get_indexed_playing_track_info,
  return_indexed_playing_track_info, get_artwork_formats, ret_artwork_formats,
  get_track_artwork_data, ret_track_artwork_data, request_ipod_name, return_ipod_name,
  reset_db_selection, select_db_record, get_number_categorized_db_records,
  return_number_categorized_db_records, retrieve_categorized_database_records,
  return_categorized_database_record, get_play_status, return_play_status,
  get_current_playing_track_index, return_current_playing_track_index,
  get_indexed_playing_track_title, return_indexed_playing_track_title,
  get_indexed_playing_track_artist_name, return_indexed_playing_track_artist_name,
  get_indexed_playing_track_album_name, return_indexed_playing_track_album_name,
  set_play_status_change_notification, set_play_status_change_notification_short,
  play_status_change_notification, play_status_change_notification_track_index,
  play_status_change_notification_extended, play_status_change_notification_position,
  play_current_selection, play_control, get_track_artwork_times, ret_track_artwork_times,
  get_shuffle, return_shuffle, set_shuffle, get_repeat, return_repeat, set_repeat,
  set_display_image, get_mono_display_image_limits, return_mono_display_image_limits,
  get_num_playing_tracks, return_num_playing_tracks, set_current_playing_track,
  select_sort_db_record, get_color_display_image_limits, return_color_display_image_limits,
  reset_db_selection_hierarchy, get_db_itunes_info, ret_db_itunes_info, get_uid_track_info,
  ret_uid_track_info, get_db_track_info, ret_db_track_info, get_pb_track_info, ret_pb_track_info,
}
use ipod.Lingo.Ids.{new_lingo_cmd_id, lingo_ext_remote_id}
use ipod.Lingo.Registry.{id_of, lookup_id, register_lingos, store_mapping}
use ipod.ExtRemote.Structs.{ext_new}
use ipod.ExtRemote.Codec.{ext_payloads}

-- A response or a notification of every type of the lingo gets the command id of its tag, also where
-- a tag has several types.
pub ext_lookup_id :
    (p : ExtPayload)
    → lookup_id ext_payloads.same ext_payloads.registry (ext_payloads.type_of p)
      ≡ some (new_lingo_cmd_id lingo_ext_remote_id (ext_code p))
unfolding ext_payloads lookup_id id_of ext_code ext_new new_lingo_cmd_id register_lingos
    store_mapping
ext_lookup_id (ack a b) = refl
ext_lookup_id get_current_playing_track_chapter_info = refl
ext_lookup_id (return_current_playing_track_chapter_info a b) = refl
ext_lookup_id (set_current_playing_track_chapter a) = refl
ext_lookup_id (get_current_playing_track_chapter_play_status a) = refl
ext_lookup_id (return_current_playing_track_chapter_play_status a b) = refl
ext_lookup_id (get_current_playing_track_chapter_name a) = refl
ext_lookup_id (return_current_playing_track_chapter_name a) = refl
ext_lookup_id get_audiobook_speed = refl
ext_lookup_id (return_audiobook_speed a) = refl
ext_lookup_id (set_audiobook_speed a) = refl
ext_lookup_id (get_indexed_playing_track_info a b c) = refl
ext_lookup_id (return_indexed_playing_track_info a b) = refl
ext_lookup_id get_artwork_formats = refl
ext_lookup_id (ret_artwork_formats a) = refl
ext_lookup_id (get_track_artwork_data a b c) = refl
ext_lookup_id (ret_track_artwork_data a b c d e f g h i j) = refl
ext_lookup_id request_ipod_name = refl
ext_lookup_id (return_ipod_name a) = refl
ext_lookup_id reset_db_selection = refl
ext_lookup_id (select_db_record a b) = refl
ext_lookup_id (get_number_categorized_db_records a) = refl
ext_lookup_id (return_number_categorized_db_records a) = refl
ext_lookup_id (retrieve_categorized_database_records a b c) = refl
ext_lookup_id (return_categorized_database_record a b) = refl
ext_lookup_id get_play_status = refl
ext_lookup_id (return_play_status a b c) = refl
ext_lookup_id get_current_playing_track_index = refl
ext_lookup_id (return_current_playing_track_index a) = refl
ext_lookup_id (get_indexed_playing_track_title a) = refl
ext_lookup_id (return_indexed_playing_track_title a) = refl
ext_lookup_id (get_indexed_playing_track_artist_name a) = refl
ext_lookup_id (return_indexed_playing_track_artist_name a) = refl
ext_lookup_id (get_indexed_playing_track_album_name a) = refl
ext_lookup_id (return_indexed_playing_track_album_name a) = refl
ext_lookup_id (set_play_status_change_notification a) = refl
ext_lookup_id (set_play_status_change_notification_short a) = refl
ext_lookup_id (play_status_change_notification a b) = refl
ext_lookup_id (play_status_change_notification_track_index a b) = refl
ext_lookup_id (play_status_change_notification_extended a b) = refl
ext_lookup_id (play_status_change_notification_position a b) = refl
ext_lookup_id (play_current_selection a) = refl
ext_lookup_id (play_control a) = refl
ext_lookup_id (get_track_artwork_times a b c d) = refl
ext_lookup_id ret_track_artwork_times = refl
ext_lookup_id get_shuffle = refl
ext_lookup_id (return_shuffle a) = refl
ext_lookup_id (set_shuffle a) = refl
ext_lookup_id get_repeat = refl
ext_lookup_id (return_repeat a) = refl
ext_lookup_id (set_repeat a) = refl
ext_lookup_id set_display_image = refl
ext_lookup_id get_mono_display_image_limits = refl
ext_lookup_id (return_mono_display_image_limits a b c) = refl
ext_lookup_id get_num_playing_tracks = refl
ext_lookup_id (return_num_playing_tracks a) = refl
ext_lookup_id (set_current_playing_track a) = refl
ext_lookup_id (select_sort_db_record a b c) = refl
ext_lookup_id get_color_display_image_limits = refl
ext_lookup_id (return_color_display_image_limits a b c) = refl
ext_lookup_id (reset_db_selection_hierarchy a) = refl
ext_lookup_id get_db_itunes_info = refl
ext_lookup_id ret_db_itunes_info = refl
ext_lookup_id get_uid_track_info = refl
ext_lookup_id ret_uid_track_info = refl
ext_lookup_id get_db_track_info = refl
ext_lookup_id ret_db_track_info = refl
ext_lookup_id get_pb_track_info = refl
ext_lookup_id ret_pb_track_info = refl

pub ext_code_lt : (p : ExtPayload) → ext_code p < 65536
unfolding ext_code
ext_code_lt (ack a b) = omega arith
ext_code_lt get_current_playing_track_chapter_info = omega arith
ext_code_lt (return_current_playing_track_chapter_info a b) = omega arith
ext_code_lt (set_current_playing_track_chapter a) = omega arith
ext_code_lt (get_current_playing_track_chapter_play_status a) = omega arith
ext_code_lt (return_current_playing_track_chapter_play_status a b) = omega arith
ext_code_lt (get_current_playing_track_chapter_name a) = omega arith
ext_code_lt (return_current_playing_track_chapter_name a) = omega arith
ext_code_lt get_audiobook_speed = omega arith
ext_code_lt (return_audiobook_speed a) = omega arith
ext_code_lt (set_audiobook_speed a) = omega arith
ext_code_lt (get_indexed_playing_track_info a b c) = omega arith
ext_code_lt (return_indexed_playing_track_info a b) = omega arith
ext_code_lt get_artwork_formats = omega arith
ext_code_lt (ret_artwork_formats a) = omega arith
ext_code_lt (get_track_artwork_data a b c) = omega arith
ext_code_lt (ret_track_artwork_data a b c d e f g h i j) = omega arith
ext_code_lt request_ipod_name = omega arith
ext_code_lt (return_ipod_name a) = omega arith
ext_code_lt reset_db_selection = omega arith
ext_code_lt (select_db_record a b) = omega arith
ext_code_lt (get_number_categorized_db_records a) = omega arith
ext_code_lt (return_number_categorized_db_records a) = omega arith
ext_code_lt (retrieve_categorized_database_records a b c) = omega arith
ext_code_lt (return_categorized_database_record a b) = omega arith
ext_code_lt get_play_status = omega arith
ext_code_lt (return_play_status a b c) = omega arith
ext_code_lt get_current_playing_track_index = omega arith
ext_code_lt (return_current_playing_track_index a) = omega arith
ext_code_lt (get_indexed_playing_track_title a) = omega arith
ext_code_lt (return_indexed_playing_track_title a) = omega arith
ext_code_lt (get_indexed_playing_track_artist_name a) = omega arith
ext_code_lt (return_indexed_playing_track_artist_name a) = omega arith
ext_code_lt (get_indexed_playing_track_album_name a) = omega arith
ext_code_lt (return_indexed_playing_track_album_name a) = omega arith
ext_code_lt (set_play_status_change_notification a) = omega arith
ext_code_lt (set_play_status_change_notification_short a) = omega arith
ext_code_lt (play_status_change_notification a b) = omega arith
ext_code_lt (play_status_change_notification_track_index a b) = omega arith
ext_code_lt (play_status_change_notification_extended a b) = omega arith
ext_code_lt (play_status_change_notification_position a b) = omega arith
ext_code_lt (play_current_selection a) = omega arith
ext_code_lt (play_control a) = omega arith
ext_code_lt (get_track_artwork_times a b c d) = omega arith
ext_code_lt ret_track_artwork_times = omega arith
ext_code_lt get_shuffle = omega arith
ext_code_lt (return_shuffle a) = omega arith
ext_code_lt (set_shuffle a) = omega arith
ext_code_lt get_repeat = omega arith
ext_code_lt (return_repeat a) = omega arith
ext_code_lt (set_repeat a) = omega arith
ext_code_lt set_display_image = omega arith
ext_code_lt get_mono_display_image_limits = omega arith
ext_code_lt (return_mono_display_image_limits a b c) = omega arith
ext_code_lt get_num_playing_tracks = omega arith
ext_code_lt (return_num_playing_tracks a) = omega arith
ext_code_lt (set_current_playing_track a) = omega arith
ext_code_lt (select_sort_db_record a b c) = omega arith
ext_code_lt get_color_display_image_limits = omega arith
ext_code_lt (return_color_display_image_limits a b c) = omega arith
ext_code_lt (reset_db_selection_hierarchy a) = omega arith
ext_code_lt get_db_itunes_info = omega arith
ext_code_lt ret_db_itunes_info = omega arith
ext_code_lt get_uid_track_info = omega arith
ext_code_lt ret_uid_track_info = omega arith
ext_code_lt get_db_track_info = omega arith
ext_code_lt ret_db_track_info = omega arith
ext_code_lt get_pb_track_info = omega arith
ext_code_lt ret_pb_track_info = omega arith
