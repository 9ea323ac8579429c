-- ===== src/ExtRemote/Reading.antt =====
-- lingo-extremote: payloads of a fixed size as encoding/binary reads them.
use ipod.Base.{ℕ, ◌≡◌, refl, Bool, true, false, List, ok, ◌>>=◌}
use ipod.ExtRemote.Payloads.{
  ExtPayload, ack, get_current_playing_track_chapter_info,
  return_current_playing_track_chapter_info, set_current_playing_track_chapter,
  get_current_playing_track_chapter_play_status, return_current_playing_track_chapter_play_status,
  get_current_playing_track_chapter_name, return_current_playing_track_chapter_name,
  get_audiobook_speed, return_audiobook_speed, set_audiobook_speed, get_indexed_playing_track_info,
  return_indexed_playing_track_info, get_artwork_formats, ret_artwork_formats,
  get_track_artwork_data, ret_track_artwork_data, request_ipod_name, return_ipod_name,
  reset_db_selection, select_db_record, get_number_categorized_db_records,
  return_number_categorized_db_records, retrieve_categorized_database_records,
  return_categorized_database_record, get_play_status, return_play_status,
  get_current_playing_track_index, return_current_playing_track_index,
  get_indexed_playing_track_title, return_indexed_playing_track_title,
  get_indexed_playing_track_artist_name, return_indexed_playing_track_artist_name,
  get_indexed_playing_track_album_name, return_indexed_playing_track_album_name,
  set_play_status_change_notification, set_play_status_change_notification_short,
  play_status_change_notification, play_status_change_notification_track_index,
  play_status_change_notification_extended, play_status_change_notification_position,
  play_current_selection, play_control, get_track_artwork_times, ret_track_artwork_times,
  get_shuffle, return_shuffle, set_shuffle, get_repeat, return_repeat, set_repeat,
  set_display_image, get_mono_display_image_limits, return_mono_display_image_limits,
  get_num_playing_tracks, return_num_playing_tracks, set_current_playing_track,
  select_sort_db_record, get_color_display_image_limits, return_color_display_image_limits,
  reset_db_selection_hierarchy, get_db_itunes_info, ret_db_itunes_info, get_uid_track_info,
  ret_uid_track_info, get_db_track_info, ret_db_track_info, get_pb_track_info, ret_pb_track_info,
}
use ipod.Wire.{binary_size, binary_read}
use ipod.ExtRemote.Structs.{ext_new, ext_layout, bool_value, is_set}
use ipod.ExtRemote.Values.{ext_fields, ext_refill}
use ipod.ExtRemote.Codec.{ext_unmarshal}
use ipod.ExtRemote.Writing.{ExtFixed, no_fill}

is_set_lem : (b : Bool) → is_set (bool_value b) ≡ b
is_set_lem true = refl
is_set_lem false = refl

pub ext_unmarshal_lem :
    (p : ExtPayload) (bytes : List ℕ)
    → ExtFixed p
    → ext_unmarshal (ext_new p) bytes
      ≡ (binary_read (ext_layout p) bytes >>= λ got. ok (ext_refill (ext_new p) got.0))
unfolding ext_unmarshal ext_layout ext_fields ext_new binary_size
ext_unmarshal_lem (ack a b) bytes fill = refl
ext_unmarshal_lem get_current_playing_track_chapter_info bytes fill = refl
ext_unmarshal_lem (return_current_playing_track_chapter_info a b) bytes fill = refl
ext_unmarshal_lem (set_current_playing_track_chapter a) bytes fill = refl
ext_unmarshal_lem (get_current_playing_track_chapter_play_status a) bytes fill = refl
ext_unmarshal_lem (return_current_playing_track_chapter_play_status a b) bytes fill = refl
ext_unmarshal_lem (get_current_playing_track_chapter_name a) bytes fill = refl
ext_unmarshal_lem (return_current_playing_track_chapter_name a) bytes fill =
    absurd (no_fill (return_current_playing_track_chapter_name a) refl fill)
ext_unmarshal_lem get_audiobook_speed bytes fill = refl
ext_unmarshal_lem (return_audiobook_speed a) bytes fill = refl
ext_unmarshal_lem (set_audiobook_speed a) bytes fill = refl
ext_unmarshal_lem (get_indexed_playing_track_info a b c) bytes fill = refl
ext_unmarshal_lem (return_indexed_playing_track_info a b) bytes fill =
    absurd (no_fill (return_indexed_playing_track_info a b) refl fill)
ext_unmarshal_lem get_artwork_formats bytes fill = refl
ext_unmarshal_lem (ret_artwork_formats a) bytes fill =
    absurd (no_fill (ret_artwork_formats a) refl fill)
ext_unmarshal_lem (get_track_artwork_data a b c) bytes fill = refl
ext_unmarshal_lem (ret_track_artwork_data a b c d e f g h i j) bytes fill =
    absurd (no_fill (ret_track_artwork_data a b c d e f g h i j) refl fill)
ext_unmarshal_lem request_ipod_name bytes fill = refl
ext_unmarshal_lem (return_ipod_name a) bytes fill = absurd (no_fill (return_ipod_name a) refl fill)
ext_unmarshal_lem reset_db_selection bytes fill = refl
ext_unmarshal_lem (select_db_record a b) bytes fill = refl
ext_unmarshal_lem (get_number_categorized_db_records a) bytes fill = refl
ext_unmarshal_lem (return_number_categorized_db_records a) bytes fill = refl
ext_unmarshal_lem (retrieve_categorized_database_records a b c) bytes fill = refl
ext_unmarshal_lem (return_categorized_database_record a b) bytes fill = refl
ext_unmarshal_lem get_play_status bytes fill = refl
ext_unmarshal_lem (return_play_status a b c) bytes fill = refl
ext_unmarshal_lem get_current_playing_track_index bytes fill = refl
ext_unmarshal_lem (return_current_playing_track_index a) bytes fill = refl
ext_unmarshal_lem (get_indexed_playing_track_title a) bytes fill = refl
ext_unmarshal_lem (return_indexed_playing_track_title a) bytes fill =
    absurd (no_fill (return_indexed_playing_track_title a) refl fill)
ext_unmarshal_lem (get_indexed_playing_track_artist_name a) bytes fill = refl
ext_unmarshal_lem (return_indexed_playing_track_artist_name a) bytes fill =
    absurd (no_fill (return_indexed_playing_track_artist_name a) refl fill)
ext_unmarshal_lem (get_indexed_playing_track_album_name a) bytes fill = refl
ext_unmarshal_lem (return_indexed_playing_track_album_name a) bytes fill =
    absurd (no_fill (return_indexed_playing_track_album_name a) refl fill)
ext_unmarshal_lem (set_play_status_change_notification a) bytes fill = refl
ext_unmarshal_lem (set_play_status_change_notification_short a) bytes fill = refl
ext_unmarshal_lem (play_status_change_notification a b) bytes fill = refl
ext_unmarshal_lem (play_status_change_notification_track_index a b) bytes fill = refl
ext_unmarshal_lem (play_status_change_notification_extended a b) bytes fill = refl
ext_unmarshal_lem (play_status_change_notification_position a b) bytes fill = refl
ext_unmarshal_lem (play_current_selection a) bytes fill = refl
ext_unmarshal_lem (play_control a) bytes fill = refl
ext_unmarshal_lem (get_track_artwork_times a b c d) bytes fill = refl
ext_unmarshal_lem ret_track_artwork_times bytes fill = refl
ext_unmarshal_lem get_shuffle bytes fill = refl
ext_unmarshal_lem (return_shuffle a) bytes fill = refl
ext_unmarshal_lem (set_shuffle a) bytes fill = refl
ext_unmarshal_lem get_repeat bytes fill = refl
ext_unmarshal_lem (return_repeat a) bytes fill = refl
ext_unmarshal_lem (set_repeat a) bytes fill = refl
ext_unmarshal_lem set_display_image bytes fill = refl
ext_unmarshal_lem get_mono_display_image_limits bytes fill = refl
ext_unmarshal_lem (return_mono_display_image_limits a b c) bytes fill = refl
ext_unmarshal_lem get_num_playing_tracks bytes fill = refl
ext_unmarshal_lem (return_num_playing_tracks a) bytes fill = refl
ext_unmarshal_lem (set_current_playing_track a) bytes fill = refl
ext_unmarshal_lem (select_sort_db_record a b c) bytes fill = refl
ext_unmarshal_lem get_color_display_image_limits bytes fill = refl
ext_unmarshal_lem (return_color_display_image_limits a b c) bytes fill = refl
ext_unmarshal_lem (reset_db_selection_hierarchy a) bytes fill = refl
ext_unmarshal_lem get_db_itunes_info bytes fill = refl
ext_unmarshal_lem ret_db_itunes_info bytes fill = refl
ext_unmarshal_lem get_uid_track_info bytes fill = refl
ext_unmarshal_lem ret_uid_track_info bytes fill = refl
ext_unmarshal_lem get_db_track_info bytes fill = refl
ext_unmarshal_lem ret_db_track_info bytes fill = refl
ext_unmarshal_lem get_pb_track_info bytes fill = refl
ext_unmarshal_lem ret_pb_track_info bytes fill = refl

pub ext_refill-ext_fields :
    (p : ExtPayload) → ExtFixed p → ext_refill (ext_new p) (ext_fields p) ≡ p
unfolding ext_refill ext_layout ext_fields ext_new binary_size
ext_refill-ext_fields (ack a b) fill = refl
ext_refill-ext_fields get_current_playing_track_chapter_info fill = refl
ext_refill-ext_fields (return_current_playing_track_chapter_info a b) fill = refl
ext_refill-ext_fields (set_current_playing_track_chapter a) fill = refl
ext_refill-ext_fields (get_current_playing_track_chapter_play_status a) fill = refl
ext_refill-ext_fields (return_current_playing_track_chapter_play_status a b) fill = refl
ext_refill-ext_fields (get_current_playing_track_chapter_name a) fill = refl
ext_refill-ext_fields (return_current_playing_track_chapter_name a) fill =
    absurd (no_fill (return_current_playing_track_chapter_name a) refl fill)
ext_refill-ext_fields get_audiobook_speed fill = refl
ext_refill-ext_fields (return_audiobook_speed a) fill = refl
ext_refill-ext_fields (set_audiobook_speed a) fill = refl
ext_refill-ext_fields (get_indexed_playing_track_info a b c) fill = refl
ext_refill-ext_fields (return_indexed_playing_track_info a b) fill =
    absurd (no_fill (return_indexed_playing_track_info a b) refl fill)
ext_refill-ext_fields get_artwork_formats fill = refl
ext_refill-ext_fields (ret_artwork_formats a) fill =
    absurd (no_fill (ret_artwork_formats a) refl fill)
ext_refill-ext_fields (get_track_artwork_data a b c) fill = refl
ext_refill-ext_fields (ret_track_artwork_data a b c d e f g h i j) fill =
    absurd (no_fill (ret_track_artwork_data a b c d e f g h i j) refl fill)
ext_refill-ext_fields request_ipod_name fill = refl
ext_refill-ext_fields (return_ipod_name a) fill = absurd (no_fill (return_ipod_name a) refl fill)
ext_refill-ext_fields reset_db_selection fill = refl
ext_refill-ext_fields (select_db_record a b) fill = refl
ext_refill-ext_fields (get_number_categorized_db_records a) fill = refl
ext_refill-ext_fields (return_number_categorized_db_records a) fill = refl
ext_refill-ext_fields (retrieve_categorized_database_records a b c) fill = refl
ext_refill-ext_fields (return_categorized_database_record a b) fill = refl
ext_refill-ext_fields get_play_status fill = refl
ext_refill-ext_fields (return_play_status a b c) fill = refl
ext_refill-ext_fields get_current_playing_track_index fill = refl
ext_refill-ext_fields (return_current_playing_track_index a) fill = refl
ext_refill-ext_fields (get_indexed_playing_track_title a) fill = refl
ext_refill-ext_fields (return_indexed_playing_track_title a) fill =
    absurd (no_fill (return_indexed_playing_track_title a) refl fill)
ext_refill-ext_fields (get_indexed_playing_track_artist_name a) fill = refl
ext_refill-ext_fields (return_indexed_playing_track_artist_name a) fill =
    absurd (no_fill (return_indexed_playing_track_artist_name a) refl fill)
ext_refill-ext_fields (get_indexed_playing_track_album_name a) fill = refl
ext_refill-ext_fields (return_indexed_playing_track_album_name a) fill =
    absurd (no_fill (return_indexed_playing_track_album_name a) refl fill)
ext_refill-ext_fields (set_play_status_change_notification a) fill = refl
ext_refill-ext_fields (set_play_status_change_notification_short a) fill = rw (is_set_lem a) refl
ext_refill-ext_fields (play_status_change_notification a b) fill = refl
ext_refill-ext_fields (play_status_change_notification_track_index a b) fill = refl
ext_refill-ext_fields (play_status_change_notification_extended a b) fill = refl
ext_refill-ext_fields (play_status_change_notification_position a b) fill = refl
ext_refill-ext_fields (play_current_selection a) fill = refl
ext_refill-ext_fields (play_control a) fill = refl
ext_refill-ext_fields (get_track_artwork_times a b c d) fill = refl
ext_refill-ext_fields ret_track_artwork_times fill = refl
ext_refill-ext_fields get_shuffle fill = refl
ext_refill-ext_fields (return_shuffle a) fill = refl
ext_refill-ext_fields (set_shuffle a) fill = refl
ext_refill-ext_fields get_repeat fill = refl
ext_refill-ext_fields (return_repeat a) fill = refl
ext_refill-ext_fields (set_repeat a) fill = refl
ext_refill-ext_fields set_display_image fill = refl
ext_refill-ext_fields get_mono_display_image_limits fill = refl
ext_refill-ext_fields (return_mono_display_image_limits a b c) fill = refl
ext_refill-ext_fields get_num_playing_tracks fill = refl
ext_refill-ext_fields (return_num_playing_tracks a) fill = refl
ext_refill-ext_fields (set_current_playing_track a) fill = refl
ext_refill-ext_fields (select_sort_db_record a b c) fill = refl
ext_refill-ext_fields get_color_display_image_limits fill = refl
ext_refill-ext_fields (return_color_display_image_limits a b c) fill = refl
ext_refill-ext_fields (reset_db_selection_hierarchy a) fill = refl
ext_refill-ext_fields get_db_itunes_info fill = refl
ext_refill-ext_fields ret_db_itunes_info fill = refl
ext_refill-ext_fields get_uid_track_info fill = refl
ext_refill-ext_fields ret_uid_track_info fill = refl
ext_refill-ext_fields get_db_track_info fill = refl
ext_refill-ext_fields ret_db_track_info fill = refl
ext_refill-ext_fields get_pb_track_info fill = refl
ext_refill-ext_fields ret_pb_track_info fill = refl
