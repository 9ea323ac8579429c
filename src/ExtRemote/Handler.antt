-- ===== src/ExtRemote/Handler.antt =====
-- lingo-extremote/handler.go: what the extended remote lingo answers, and what it asks of the phone.
use ipod.Base.{ℕ, Option, none, some, List, [], ◌∷◌, Result, ok, err, panic, ◌>>=◌, if◌then◌else◌}
use ipod.ExtRemote.Payloads.{
  ExtPayload, ack, get_current_playing_track_chapter_info,
  return_current_playing_track_chapter_info, set_current_playing_track_chapter,
  get_current_playing_track_chapter_play_status, return_current_playing_track_chapter_play_status,
  get_current_playing_track_chapter_name, return_current_playing_track_chapter_name,
  get_audiobook_speed, return_audiobook_speed, set_audiobook_speed, get_indexed_playing_track_info,
  return_indexed_playing_track_info, get_artwork_formats, ret_artwork_formats,
  get_track_artwork_data, reset_db_selection, select_db_record, get_number_categorized_db_records,
  return_number_categorized_db_records, retrieve_categorized_database_records,
  return_categorized_database_record, get_play_status, get_current_playing_track_index,
  return_current_playing_track_index, get_indexed_playing_track_title,
  return_indexed_playing_track_title, get_indexed_playing_track_artist_name,
  return_indexed_playing_track_artist_name, get_indexed_playing_track_album_name,
  return_indexed_playing_track_album_name, set_play_status_change_notification,
  set_play_status_change_notification_short, play_current_selection, play_control,
  get_track_artwork_times, ret_track_artwork_times, get_shuffle, return_shuffle, set_shuffle,
  get_repeat, return_repeat, set_repeat, set_display_image, get_mono_display_image_limits,
  return_mono_display_image_limits, get_num_playing_tracks, return_num_playing_tracks,
  set_current_playing_track, select_sort_db_record, get_color_display_image_limits,
  return_color_display_image_limits, reset_db_selection_hierarchy,
}
use ipod.Text.{string_to_bytes}
use ipod.Lingo.Ids.{cmd_id}
use ipod.Command.{Command, Payload, known, Out, respond}
use ipod.ExtRemote.Codec.{ext_payloads}
use ipod.ExtRemote.Notify.{
  ExtHandler, set_notify_mask, notify_mask_one_byte_enable, ext_send_play_status,
}
use ipod.ExtRemote.Device.{
  ExtDevice, Method, or_no_device, currently_playing, playing_info, record_count, bluetooth_name,
  play_status_reply, ext_text, media_calls,
}

abbrev pub ext_ack : ℕ → Command ExtPayload → ExtPayload
ext_ack status req = ack status (cmd_id req.id)

-- What a request is answered with: `none` is no answer.
unfoldable pub ext_answer :
    ExtHandler → Option ExtDevice → Command ExtPayload → ExtPayload → Result (Option ExtPayload)
unfolding playing_info record_count play_status_reply ext_text string_to_bytes cmd_id
ext_answer h dev req get_current_playing_track_chapter_info =
    ok (some (return_current_playing_track_chapter_info 0 1))
ext_answer h dev req (set_current_playing_track_chapter _) = ok (some (ext_ack 0x00 req))
ext_answer h dev req (get_current_playing_track_chapter_play_status _) =
    ok (some (return_current_playing_track_chapter_play_status 0 0))
ext_answer h dev req (get_current_playing_track_chapter_name _) = ok (
    some (
      return_current_playing_track_chapter_name
        (string_to_bytes (b'c' ∷ b'h' ∷ b'a' ∷ b'p' ∷ b't' ∷ b'e' ∷ b'r' ∷ []))))
ext_answer h dev req get_audiobook_speed = ok (some (return_audiobook_speed 0))
ext_answer h dev req (set_audiobook_speed _) = ok (some (ext_ack 0x00 req))
ext_answer h dev req (get_indexed_playing_track_info t _ _) =
    ok (some (return_indexed_playing_track_info t (some (playing_info dev t))))
ext_answer h dev req get_artwork_formats = ok (some (ret_artwork_formats []))
ext_answer h dev req (get_track_artwork_data _ _ _) = ok (some (ext_ack 0x02 req))
ext_answer h dev req reset_db_selection = ok (some (ext_ack 0x00 req))
ext_answer h dev req (select_db_record _ _) = ok (some (ext_ack 0x00 req))
ext_answer h dev req (get_number_categorized_db_records category) =
    ok (some (return_number_categorized_db_records (record_count category)))
ext_answer h dev req (retrieve_categorized_database_records _ _ _) =
    ok (some (return_categorized_database_record 0 bluetooth_name))
ext_answer h dev req get_play_status = ok (some (play_status_reply dev))
ext_answer h dev req get_current_playing_track_index =
    ok (some (return_current_playing_track_index h.track_index))
ext_answer h dev req (get_indexed_playing_track_title _) =
    ext_text (
      or_no_device dev (λ d. d.track_title)
        (b'B' ∷ b'l' ∷ b'u' ∷ b'e' ∷ b't' ∷ b'o' ∷ b'o' ∷ b't' ∷ b'h' ∷ []))
    >>= λ s. ok (some (return_indexed_playing_track_title s))
ext_answer h dev req (get_indexed_playing_track_artist_name _) =
    ext_text (or_no_device dev (λ d. d.track_artist) []) >>= λ s.
    ok (some (return_indexed_playing_track_artist_name s))
ext_answer h dev req (get_indexed_playing_track_album_name _) =
    ext_text (or_no_device dev (λ d. d.track_album) []) >>= λ s.
    ok (some (return_indexed_playing_track_album_name s))
ext_answer h dev req (set_play_status_change_notification _) = ok (some (ext_ack 0x00 req))
ext_answer h dev req (set_play_status_change_notification_short _) = ok (some (ext_ack 0x00 req))
ext_answer h dev req (play_current_selection _) = ok (some (ext_ack 0x00 req))
ext_answer h dev req (play_control _) = ok (some (ext_ack 0x00 req))
ext_answer h dev req (get_track_artwork_times _ _ _ _) = ok (some ret_track_artwork_times)
ext_answer h dev req get_shuffle = ok (some (return_shuffle 0x00))
ext_answer h dev req (set_shuffle _) = ok (some (ext_ack 0x00 req))
ext_answer h dev req get_repeat = ok (some (return_repeat 0x00))
ext_answer h dev req (set_repeat _) = ok (some (ext_ack 0x00 req))
ext_answer h dev req set_display_image = ok (some (ext_ack 0x00 req))
ext_answer h dev req get_mono_display_image_limits =
    ok (some (return_mono_display_image_limits 640 960 0x01))
ext_answer h dev req get_num_playing_tracks = ok (some (return_num_playing_tracks 1))
ext_answer h dev req (set_current_playing_track _) = ok (some (ext_ack 0x00 req))
ext_answer h dev req (select_sort_db_record _ _ _) = ok (some (ext_ack 0x00 req))
ext_answer h dev req get_color_display_image_limits =
    ok (some (return_color_display_image_limits 640 960 0x01))
ext_answer h dev req (reset_db_selection_hierarchy _) = ok (some (ext_ack 0x02 req))
ext_answer h dev req _ = ok none

-- The handler behind a request: the two forms of SetPlayStatusChangeNotification set its mask.
unfoldable pub ext_after : ExtHandler → ExtPayload → ExtHandler
unfolding set_notify_mask
ext_after h (set_play_status_change_notification mask) = set_notify_mask h mask
ext_after h (set_play_status_change_notification_short enabled) =
    set_notify_mask h (if enabled then notify_mask_one_byte_enable else 0)
ext_after h _ = h

-- What is told behind the answer: both forms are followed by the play state, under the new mask.
unfoldable pub ext_follow_up :
    ExtHandler → Option ExtDevice → ExtPayload → Out ExtPayload → Out ExtPayload
unfolding ext_send_play_status
ext_follow_up h dev (set_play_status_change_notification _) out =
    ext_send_play_status h (currently_playing dev) out
ext_follow_up h dev (set_play_status_change_notification_short _) out =
    ext_send_play_status h (currently_playing dev) out
ext_follow_up h dev _ out = out

unfoldable pub ext_respond_with :
    Command ExtPayload → Option ExtPayload → Out ExtPayload → Out ExtPayload
unfolding respond
ext_respond_with req none out = out
ext_respond_with req (some p) out = respond ext_payloads req p out

-- A handled request: the handler and the writer afterwards, and the calls of `MediaControl`.
pub record Done : Type 0 where
  pub handler : ExtHandler
  pub out : Out ExtPayload
  pub calls : List Method

unfoldable pub ext_finish :
    ExtHandler
    → Option ExtDevice
    → Command ExtPayload
    → Out ExtPayload
    → ExtPayload
    → Result (Option ExtPayload)
    → Result Done
unfolding ext_after ext_follow_up ext_respond_with media_calls
ext_finish h dev req out msg (ok reply) = ok (record {
  handler = ext_after h msg;
  out = ext_follow_up (ext_after h msg) dev msg (ext_respond_with req reply out);
  calls = media_calls dev msg;
})
ext_finish h dev req out msg (err e) = err e
ext_finish h dev req out msg panic = panic

-- The type switch on the payload; what is no pointer to a payload struct is skipped.
unfoldable pub ext_handle_payload :
    ExtHandler
    → Command ExtPayload
    → Out ExtPayload
    → Option ExtDevice
    → Option (Payload ExtPayload)
    → Result Done
unfolding ext_answer ext_finish
ext_handle_payload h req out dev (some (known msg)) =
    ext_finish h dev req out msg (ext_answer h dev req msg)
ext_handle_payload h req out dev _ = ok (record { handler = h; out = out; calls = [] })

-- `ExtRemoteHandler.Handle`, which returns no error.
unfoldable pub ext_handle :
    ExtHandler → Command ExtPayload → Out ExtPayload → Option ExtDevice → Result Done
unfolding ext_handle_payload
ext_handle h req out dev = ext_handle_payload h req out dev req.payload

-- `HandleExtRemote`, with a handler of its own for each request.
unfoldable pub handle_ext_remote :
    Command ExtPayload → Out ExtPayload → Option ExtDevice → Result Done
unfolding ext_handle
handle_ext_remote req out dev = ext_handle (record { track_index = 0; notify_mask = 0 }) req out dev
