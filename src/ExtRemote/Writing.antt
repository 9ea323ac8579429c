-- ===== src/ExtRemote/Writing.antt =====
-- lingo-extremote: payloads of a fixed size as encoding/binary writes them.
use ipod.Base.{◌≡◌, refl, none, []}
use ipod.ExtRemote.Payloads.{
  ExtPayload, ack, get_current_playing_track_chapter_info,
  return_current_playing_track_chapter_info, set_current_playing_track_chapter,
  get_current_playing_track_chapter_play_status, return_current_playing_track_chapter_play_status,
  get_current_playing_track_chapter_name, return_current_playing_track_chapter_name,
  get_audiobook_speed, return_audiobook_speed, set_audiobook_speed, get_indexed_playing_track_info,
  return_indexed_playing_track_info, get_artwork_formats, ret_artwork_formats,
  get_track_artwork_data, ret_track_artwork_data, request_ipod_name, return_ipod_name,
  reset_db_selection, select_db_record, get_number_categorized_db_records,
  return_number_categorized_db_records, retrieve_categorized_database_records,
  return_categorized_database_record, get_play_status, return_play_status,
  get_current_playing_track_index, return_current_playing_track_index,
  get_indexed_playing_track_title, return_indexed_playing_track_title,
  get_indexed_playing_track_artist_name, return_indexed_playing_track_artist_name,
  get_indexed_playing_track_album_name, return_indexed_playing_track_album_name,
  set_play_status_change_notification, set_play_status_change_notification_short,
  play_status_change_notification, play_status_change_notification_track_index,
  play_status_change_notification_extended, play_status_change_notification_position,
  play_current_selection, play_control, get_track_artwork_times, ret_track_artwork_times,
  get_shuffle, return_shuffle, set_shuffle, get_repeat, return_repeat, set_repeat,
  set_display_image, get_mono_display_image_limits, return_mono_display_image_limits,
  get_num_playing_tracks, return_num_playing_tracks, set_current_playing_track,
  select_sort_db_record, get_color_display_image_limits, return_color_display_image_limits,
  reset_db_selection_hierarchy, get_db_itunes_info, ret_db_itunes_info, get_uid_track_info,
  ret_uid_track_info, get_db_track_info, ret_db_track_info, get_pb_track_info, ret_pb_track_info,
}
use ipod.Wire.{binary_size, binary_write}
use ipod.Wire.Laws.{Fill, binary_read-binary_write}
use ipod.ExtRemote.Structs.{ext_new, ext_layout}
use ipod.ExtRemote.Values.{ext_fields}
use ipod.ExtRemote.Codec.{ext_marshal}

-- A payload whose struct has a fixed size, and whose fields can hold their values.
abbrev pub ExtFixed : ExtPayload → Type 0
ExtFixed p = Fill (ext_layout p) (ext_fields p)

pub no_fill : (p : ExtPayload) → binary_size (ext_layout p) ≡ none → ExtFixed p → ⊥
no_fill p e h = absurd (cc (e, (binary_read-binary_write (ext_layout p) (ext_fields p) [] h).2))

pub ext_marshal_lem :
    (p : ExtPayload) → ExtFixed p → ext_marshal p ≡ binary_write (ext_layout p) (ext_fields p)
unfolding ext_marshal ext_layout ext_fields binary_size
ext_marshal_lem (ack a b) fill = refl
ext_marshal_lem get_current_playing_track_chapter_info fill = refl
ext_marshal_lem (return_current_playing_track_chapter_info a b) fill = refl
ext_marshal_lem (set_current_playing_track_chapter a) fill = refl
ext_marshal_lem (get_current_playing_track_chapter_play_status a) fill = refl
ext_marshal_lem (return_current_playing_track_chapter_play_status a b) fill = refl
ext_marshal_lem (get_current_playing_track_chapter_name a) fill = refl
ext_marshal_lem (return_current_playing_track_chapter_name a) fill =
    absurd (no_fill (return_current_playing_track_chapter_name a) refl fill)
ext_marshal_lem get_audiobook_speed fill = refl
ext_marshal_lem (return_audiobook_speed a) fill = refl
ext_marshal_lem (set_audiobook_speed a) fill = refl
ext_marshal_lem (get_indexed_playing_track_info a b c) fill = refl
ext_marshal_lem (return_indexed_playing_track_info a b) fill =
    absurd (no_fill (return_indexed_playing_track_info a b) refl fill)
ext_marshal_lem get_artwork_formats fill = refl
ext_marshal_lem (ret_artwork_formats a) fill = absurd (no_fill (ret_artwork_formats a) refl fill)
ext_marshal_lem (get_track_artwork_data a b c) fill = refl
ext_marshal_lem (ret_track_artwork_data a b c d e f g h i j) fill =
    absurd (no_fill (ret_track_artwork_data a b c d e f g h i j) refl fill)
ext_marshal_lem request_ipod_name fill = refl
ext_marshal_lem (return_ipod_name a) fill = absurd (no_fill (return_ipod_name a) refl fill)
ext_marshal_lem reset_db_selection fill = refl
ext_marshal_lem (select_db_record a b) fill = refl
ext_marshal_lem (get_number_categorized_db_records a) fill = refl
ext_marshal_lem (return_number_categorized_db_records a) fill = refl
ext_marshal_lem (retrieve_categorized_database_records a b c) fill = refl
ext_marshal_lem (return_categorized_database_record a b) fill = refl
ext_marshal_lem get_play_status fill = refl
ext_marshal_lem (return_play_status a b c) fill = refl
ext_marshal_lem get_current_playing_track_index fill = refl
ext_marshal_lem (return_current_playing_track_index a) fill = refl
ext_marshal_lem (get_indexed_playing_track_title a) fill = refl
ext_marshal_lem (return_indexed_playing_track_title a) fill =
    absurd (no_fill (return_indexed_playing_track_title a) refl fill)
ext_marshal_lem (get_indexed_playing_track_artist_name a) fill = refl
ext_marshal_lem (return_indexed_playing_track_artist_name a) fill =
    absurd (no_fill (return_indexed_playing_track_artist_name a) refl fill)
ext_marshal_lem (get_indexed_playing_track_album_name a) fill = refl
ext_marshal_lem (return_indexed_playing_track_album_name a) fill =
    absurd (no_fill (return_indexed_playing_track_album_name a) refl fill)
ext_marshal_lem (set_play_status_change_notification a) fill = refl
ext_marshal_lem (set_play_status_change_notification_short a) fill = refl
ext_marshal_lem (play_status_change_notification a b) fill = refl
ext_marshal_lem (play_status_change_notification_track_index a b) fill = refl
ext_marshal_lem (play_status_change_notification_extended a b) fill = refl
ext_marshal_lem (play_status_change_notification_position a b) fill = refl
ext_marshal_lem (play_current_selection a) fill = refl
ext_marshal_lem (play_control a) fill = refl
ext_marshal_lem (get_track_artwork_times a b c d) fill = refl
ext_marshal_lem ret_track_artwork_times fill = refl
ext_marshal_lem get_shuffle fill = refl
ext_marshal_lem (return_shuffle a) fill = refl
ext_marshal_lem (set_shuffle a) fill = refl
ext_marshal_lem get_repeat fill = refl
ext_marshal_lem (return_repeat a) fill = refl
ext_marshal_lem (set_repeat a) fill = refl
ext_marshal_lem set_display_image fill = refl
ext_marshal_lem get_mono_display_image_limits fill = refl
ext_marshal_lem (return_mono_display_image_limits a b c) fill = refl
ext_marshal_lem get_num_playing_tracks fill = refl
ext_marshal_lem (return_num_playing_tracks a) fill = refl
ext_marshal_lem (set_current_playing_track a) fill = refl
ext_marshal_lem (select_sort_db_record a b c) fill = refl
ext_marshal_lem get_color_display_image_limits fill = refl
ext_marshal_lem (return_color_display_image_limits a b c) fill = refl
ext_marshal_lem (reset_db_selection_hierarchy a) fill = refl
ext_marshal_lem get_db_itunes_info fill = refl
ext_marshal_lem ret_db_itunes_info fill = refl
ext_marshal_lem get_uid_track_info fill = refl
ext_marshal_lem ret_uid_track_info fill = refl
ext_marshal_lem get_db_track_info fill = refl
ext_marshal_lem ret_db_track_info fill = refl
ext_marshal_lem get_pb_track_info fill = refl
ext_marshal_lem ret_pb_track_info fill = refl

pub ext_layout-ext_new : (p : ExtPayload) → ext_layout (ext_new p) ≡ ext_layout p
unfolding ext_layout ext_new
ext_layout-ext_new (ack a b) = refl
ext_layout-ext_new get_current_playing_track_chapter_info = refl
ext_layout-ext_new (return_current_playing_track_chapter_info a b) = refl
ext_layout-ext_new (set_current_playing_track_chapter a) = refl
ext_layout-ext_new (get_current_playing_track_chapter_play_status a) = refl
ext_layout-ext_new (return_current_playing_track_chapter_play_status a b) = refl
ext_layout-ext_new (get_current_playing_track_chapter_name a) = refl
ext_layout-ext_new (return_current_playing_track_chapter_name a) = refl
ext_layout-ext_new get_audiobook_speed = refl
ext_layout-ext_new (return_audiobook_speed a) = refl
ext_layout-ext_new (set_audiobook_speed a) = refl
ext_layout-ext_new (get_indexed_playing_track_info a b c) = refl
ext_layout-ext_new (return_indexed_playing_track_info a b) = refl
ext_layout-ext_new get_artwork_formats = refl
ext_layout-ext_new (ret_artwork_formats a) = refl
ext_layout-ext_new (get_track_artwork_data a b c) = refl
ext_layout-ext_new (ret_track_artwork_data a b c d e f g h i j) = refl
ext_layout-ext_new request_ipod_name = refl
ext_layout-ext_new (return_ipod_name a) = refl
ext_layout-ext_new reset_db_selection = refl
ext_layout-ext_new (select_db_record a b) = refl
ext_layout-ext_new (get_number_categorized_db_records a) = refl
ext_layout-ext_new (return_number_categorized_db_records a) = refl
ext_layout-ext_new (retrieve_categorized_database_records a b c) = refl
ext_layout-ext_new (return_categorized_database_record a b) = refl
ext_layout-ext_new get_play_status = refl
ext_layout-ext_new (return_play_status a b c) = refl
ext_layout-ext_new get_current_playing_track_index = refl
ext_layout-ext_new (return_current_playing_track_index a) = refl
ext_layout-ext_new (get_indexed_playing_track_title a) = refl
ext_layout-ext_new (return_indexed_playing_track_title a) = refl
ext_layout-ext_new (get_indexed_playing_track_artist_name a) = refl
ext_layout-ext_new (return_indexed_playing_track_artist_name a) = refl
ext_layout-ext_new (get_indexed_playing_track_album_name a) = refl
ext_layout-ext_new (return_indexed_playing_track_album_name a) = refl
ext_layout-ext_new (set_play_status_change_notification a) = refl
ext_layout-ext_new (set_play_status_change_notification_short a) = refl
ext_layout-ext_new (play_status_change_notification a b) = refl
ext_layout-ext_new (play_status_change_notification_track_index a b) = refl
ext_layout-ext_new (play_status_change_notification_extended a b) = refl
ext_layout-ext_new (play_status_change_notification_position a b) = refl
ext_layout-ext_new (play_current_selection a) = refl
ext_layout-ext_new (play_control a) = refl
ext_layout-ext_new (get_track_artwork_times a b c d) = refl
ext_layout-ext_new ret_track_artwork_times = refl
ext_layout-ext_new get_shuffle = refl
ext_layout-ext_new (return_shuffle a) = refl
ext_layout-ext_new (set_shuffle a) = refl
ext_layout-ext_new get_repeat = refl
ext_layout-ext_new (return_repeat a) = refl
ext_layout-ext_new (set_repeat a) = refl
ext_layout-ext_new set_display_image = refl
ext_layout-ext_new get_mono_display_image_limits = refl
ext_layout-ext_new (return_mono_display_image_limits a b c) = refl
ext_layout-ext_new get_num_playing_tracks = refl
ext_layout-ext_new (return_num_playing_tracks a) = refl
ext_layout-ext_new (set_current_playing_track a) = refl
ext_layout-ext_new (select_sort_db_record a b c) = refl
ext_layout-ext_new get_color_display_image_limits = refl
ext_layout-ext_new (return_color_display_image_limits a b c) = refl
ext_layout-ext_new (reset_db_selection_hierarchy a) = refl
ext_layout-ext_new get_db_itunes_info = refl
ext_layout-ext_new ret_db_itunes_info = refl
ext_layout-ext_new get_uid_track_info = refl
ext_layout-ext_new ret_uid_track_info = refl
ext_layout-ext_new get_db_track_info = refl
ext_layout-ext_new ret_db_track_info = refl
ext_layout-ext_new get_pb_track_info = refl
ext_layout-ext_new ret_pb_track_info = refl
