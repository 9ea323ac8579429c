-- ===== src/ExtRemote/Registration.antt =====
-- lingo-extremote: which type is found for a command id, and which id for a type.
use ipod.Base.{◌≡◌, refl, some, [], ◌∷◌}
use ipod.ExtRemote.Payloads.{
  ExtPayload, ext_code, ack, get_current_playing_track_chapter_info,
  return_current_playing_track_chapter_info, set_current_playing_track_chapter,
  get_current_playing_track_chapter_play_status, return_current_playing_track_chapter_play_status,
  get_current_playing_track_chapter_name, return_current_playing_track_chapter_name,
  get_audiobook_speed, return_audiobook_speed, set_audiobook_speed, get_indexed_playing_track_info,
  return_indexed_playing_track_info, get_artwork_formats, ret_artwork_formats,
  get_track_artwork_data, ret_track_artwork_data, request_ipod_name, return_ipod_name,
  reset_db_selection, select_db_record, get_number_categorized_db_records,
  return_number_categorized_db_records, retrieve_categorized_database_records,
  return_categorized_database_record, get_play_status, return_play_status,
  get_current_playing_track_index, return_current_playing_track_index,
  get_indexed_playing_track_title, return_indexed_playing_track_title,
  get_indexed_playing_track_artist_name, return_indexed_playing_track_artist_name,
  get_indexed_playing_track_album_name, return_indexed_playing_track_album_name,
  set_play_status_change_notification, set_play_status_change_notification_short,
  play_status_change_notification, play_status_change_notification_track_index,
  play_status_change_notification_extended, play_status_change_notification_position,
  play_current_selection, play_control, get_track_artwork_times, ret_track_artwork_times,
  get_shuffle, return_shuffle, set_shuffle, get_repeat, return_repeat, set_repeat,
  set_display_image, get_mono_display_image_limits, return_mono_display_image_limits,
  get_num_playing_tracks, return_num_playing_tracks, set_current_playing_track,
  select_sort_db_record, get_color_display_image_limits, return_color_display_image_limits,
  reset_db_selection_hierarchy, get_db_itunes_info, ret_db_itunes_info, get_uid_track_info,
  ret_uid_track_info, get_db_track_info, ret_db_track_info, get_pb_track_info, ret_pb_track_info,
}
use ipod.Lingo.Ids.{new_lingo_cmd_id, lingo_ext_remote_id}
use ipod.Lingo.Registry.{types_of, register_lingos, store_mapping, append_type}
use ipod.ExtRemote.Structs.{ext_new}
use ipod.ExtRemote.Codec.{ext_payloads}

-- A payload whose tag has no other type.
abbrev pub Single : ExtPayload → Type 0
Single (set_play_status_change_notification _) = ⊥
Single (set_play_status_change_notification_short _) = ⊥
Single (play_status_change_notification _ _) = ⊥
Single (play_status_change_notification_track_index _ _) = ⊥
Single (play_status_change_notification_extended _ _) = ⊥
Single (play_status_change_notification_position _ _) = ⊥
Single _ = Unit {0}

pub ext_registered_alone :
    (p : ExtPayload)
    → Single p
    → types_of ext_payloads.registry.by_id (new_lingo_cmd_id lingo_ext_remote_id (ext_code p))
      ≡ some (ext_new p ∷ [])
unfolding ext_payloads types_of ext_code ext_new new_lingo_cmd_id register_lingos store_mapping
    append_type
ext_registered_alone (ack a b) one = refl
ext_registered_alone get_current_playing_track_chapter_info one = refl
ext_registered_alone (return_current_playing_track_chapter_info a b) one = refl
ext_registered_alone (set_current_playing_track_chapter a) one = refl
ext_registered_alone (get_current_playing_track_chapter_play_status a) one = refl
ext_registered_alone (return_current_playing_track_chapter_play_status a b) one = refl
ext_registered_alone (get_current_playing_track_chapter_name a) one = refl
ext_registered_alone (return_current_playing_track_chapter_name a) one = refl
ext_registered_alone get_audiobook_speed one = refl
ext_registered_alone (return_audiobook_speed a) one = refl
ext_registered_alone (set_audiobook_speed a) one = refl
ext_registered_alone (get_indexed_playing_track_info a b c) one = refl
ext_registered_alone (return_indexed_playing_track_info a b) one = refl
ext_registered_alone get_artwork_formats one = refl
ext_registered_alone (ret_artwork_formats a) one = refl
ext_registered_alone (get_track_artwork_data a b c) one = refl
ext_registered_alone (ret_track_artwork_data a b c d e f g h i j) one = refl
ext_registered_alone request_ipod_name one = refl
ext_registered_alone (return_ipod_name a) one = refl
ext_registered_alone reset_db_selection one = refl
ext_registered_alone (select_db_record a b) one = refl
ext_registered_alone (get_number_categorized_db_records a) one = refl
ext_registered_alone (return_number_categorized_db_records a) one = refl
ext_registered_alone (retrieve_categorized_database_records a b c) one = refl
ext_registered_alone (return_categorized_database_record a b) one = refl
ext_registered_alone get_play_status one = refl
ext_registered_alone (return_play_status a b c) one = refl
ext_registered_alone get_current_playing_track_index one = refl
ext_registered_alone (return_current_playing_track_index a) one = refl
ext_registered_alone (get_indexed_playing_track_title a) one = refl
ext_registered_alone (return_indexed_playing_track_title a) one = refl
ext_registered_alone (get_indexed_playing_track_artist_name a) one = refl
ext_registered_alone (return_indexed_playing_track_artist_name a) one = refl
ext_registered_alone (get_indexed_playing_track_album_name a) one = refl
ext_registered_alone (return_indexed_playing_track_album_name a) one = refl
ext_registered_alone (set_play_status_change_notification a) one = elim one [ ]
ext_registered_alone (set_play_status_change_notification_short a) one = elim one [ ]
ext_registered_alone (play_status_change_notification a b) one = elim one [ ]
ext_registered_alone (play_status_change_notification_track_index a b) one = elim one [ ]
ext_registered_alone (play_status_change_notification_extended a b) one = elim one [ ]
ext_registered_alone (play_status_change_notification_position a b) one = elim one [ ]
ext_registered_alone (play_current_selection a) one = refl
ext_registered_alone (play_control a) one = refl
ext_registered_alone (get_track_artwork_times a b c d) one = refl
ext_registered_alone ret_track_artwork_times one = refl
ext_registered_alone get_shuffle one = refl
ext_registered_alone (return_shuffle a) one = refl
ext_registered_alone (set_shuffle a) one = refl
ext_registered_alone get_repeat one = refl
ext_registered_alone (return_repeat a) one = refl
ext_registered_alone (set_repeat a) one = refl
ext_registered_alone set_display_image one = refl
ext_registered_alone get_mono_display_image_limits one = refl
ext_registered_alone (return_mono_display_image_limits a b c) one = refl
ext_registered_alone get_num_playing_tracks one = refl
ext_registered_alone (return_num_playing_tracks a) one = refl
ext_registered_alone (set_current_playing_track a) one = refl
ext_registered_alone (select_sort_db_record a b c) one = refl
ext_registered_alone get_color_display_image_limits one = refl
ext_registered_alone (return_color_display_image_limits a b c) one = refl
ext_registered_alone (reset_db_selection_hierarchy a) one = refl
ext_registered_alone get_db_itunes_info one = refl
ext_registered_alone ret_db_itunes_info one = refl
ext_registered_alone get_uid_track_info one = refl
ext_registered_alone ret_uid_track_info one = refl
ext_registered_alone get_db_track_info one = refl
ext_registered_alone ret_db_track_info one = refl
ext_registered_alone get_pb_track_info one = refl
ext_registered_alone ret_pb_track_info one = refl
