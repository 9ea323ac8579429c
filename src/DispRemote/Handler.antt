-- ===== src/DispRemote/Handler.antt =====
-- lingo-dispremote/handler.go: what the display remote lingo answers.
use ipod.Base.{
  ℕ, ◌+◌, ◌/◌, ◌%◌, Bool, false, Option, none, some, List, [], ◌∷◌, Result, ok, err, panic, ◌>>=◌,
  unknown_info_type, ltb, ◌==◌, if◌then◌else◌,
}
use ipod.DispRemote.Payloads.{
  DispPayload, ack, get_current_eq_profile_index, ret_current_eq_profile_index,
  set_current_eq_profile_index, get_num_eq_profiles, ret_num_eq_profiles,
  get_indexed_eq_profile_name, ret_indexed_eq_profile_name, set_remote_event_notification,
  get_remote_event_status, ret_remote_event_status, get_ipod_state_info, ret_ipod_state_info,
  set_ipod_state_info, get_play_status, ret_play_status, set_current_playing_track,
  get_indexed_playing_track_info, ret_indexed_playing_track_info, get_num_playing_tracks,
  ret_num_playing_tracks, get_artwork_formats, ret_artwork_formats, get_power_battery_state,
  ret_power_battery_state, get_sound_check_state, ret_sound_check_state, set_sound_check_state,
  get_track_artwork_times, ret_track_artwork_times,
}
use ipod.DispRemote.Info.{
  InfoData, info_track_position_ms, info_track_index, info_chapter_index, info_play_status,
  info_volume, info_power, info_equalizer, info_shuffle, info_repeat, info_date_time,
  info_backlight, info_hold_switch, info_sound_check, info_audiobook_speed, info_track_position_sec,
  info_volume2,
}
use ipod.DispRemote.TrackInfo.{
  TrackInfo, track_info_caps, track_info_chapter_time_name, track_info_artist, track_info_album,
  track_info_genre, track_info_track, track_info_composer, track_info_lyrics,
  track_info_artwork_count,
}
use ipod.Text.{string_to_bytes, truncate_runes}
use ipod.Lingo.Ids.{cmd_id}
use ipod.Command.{Command, Payload, known, unknown, Out, respond}
use ipod.DispRemote.Codec.{disp_payloads}
use ipod.DispRemote.Notify.{DispHandler, set_event_mask, play_status_playing, play_status_paused}

-- What the methods of `DeviceDispRemote` answer while a request is handled.
pub record Device : Type 0 where
  pub track_position_ms : ℕ
  pub track_length_ms : ℕ
  pub is_playing : Bool
  pub track_title : List ℕ
  pub track_artist : List ℕ
  pub track_album : List ℕ

-- What time.Now gives.
pub record Now : Type 0 where
  pub year : ℕ
  pub month : ℕ
  pub day : ℕ
  pub hour : ℕ
  pub minute : ℕ

abbrev pub ack_success : Command DispPayload → DispPayload
unfolding cmd_id
ack_success req = ack 0x00 (cmd_id req.id % 256)

-- What the device answers, and another value where there is none: `dev` may be nil.
abbrev pub or_nil {ℓ} : {A : Type ℓ} → Option Device → (Device → A) → A → A
or_nil none answer other = other
or_nil (some dev) answer other = answer dev

-- Playing, but paused where a device says that it is not playing.
unfoldable pub play_status : Option Device → ℕ
play_status dev =
    or_nil dev (λ d. if d.is_playing then play_status_playing else play_status_paused)
      play_status_playing

-- The answers to GetiPodStateInfo; `none` is the error of an unknown type.
unfoldable pub state_info : DispHandler → Option Device → Now → ℕ → Option InfoData
unfolding play_status
state_info h dev now t =
    if t == 0
    then some (info_track_position_ms (or_nil dev (λ d. d.track_position_ms) 0))
    else if t == 1
    then some (info_track_index h.track_index)
    else if t == 2
    then some (info_chapter_index 0 0 0)
    else if t == 3
    then some (info_play_status (play_status dev))
    else if t == 4
    then some (info_volume 0x00 255)
    else if t == 5
    then some (info_power 0x05 255)
    else if t == 6
    then some (info_equalizer 0x00)
    else if t == 7
    then some (info_shuffle 0x00)
    else if t == 8
    then some (info_repeat 0x00)
    else if t == 9
    then some (
        info_date_time (now.year % 65536) (now.month % 256) (now.day % 256) (now.hour % 256)
          (now.minute % 256))
    else if t == 11
    then some (info_backlight 255)
    else if t == 12
    then some (info_hold_switch 0x00)
    else if t == 13
    then some (info_sound_check 0x00)
    else if t == 14
    then some (info_audiobook_speed 0x00)
    else if t == 15
    then some (info_track_position_sec (or_nil dev (λ d. d.track_position_ms / 1000 % 65536) 0))
    else if t == 16
    then some (info_volume2 0x00 255 255)
    else none

-- The track's length in `GetPlayStatus`: five minutes, behind the position if the device knows no length.
unfoldable pub play_length : Option Device → ℕ
play_length dev =
    or_nil dev
      (λ d.
        if ltb 0 d.track_length_ms
        then d.track_length_ms
        else (d.track_position_ms + 300000) % 4294967296)
      300000

-- The track's length in the capabilities of a track.
unfoldable pub caps_length : Option Device → ℕ
caps_length dev =
    or_nil dev (λ d. if ltb 0 d.track_length_ms then d.track_length_ms else 300000) 300000

abbrev pub bluetooth : List ℕ
bluetooth = b'B' ∷ b'l' ∷ b'u' ∷ b'e' ∷ b't' ∷ b'o' ∷ b'o' ∷ b't' ∷ b'h' ∷ []

abbrev pub default_name : List ℕ
default_name = b'D' ∷ b'e' ∷ b'f' ∷ b'a' ∷ b'u' ∷ b'l' ∷ b't' ∷ []

-- A text of the track, cut to 20 runes, as a C string.
abbrev pub short_text : List ℕ → Result (List ℕ)
unfolding truncate_runes string_to_bytes
short_text s = truncate_runes s 20 >>= λ cut. ok (string_to_bytes cut)

-- The answers to GetIndexedPlayingTrackInfo, whatever track is asked for.
unfoldable pub track_info : Option Device → ℕ → Result TrackInfo
unfolding caps_length truncate_runes string_to_bytes
track_info dev t =
    if t == 0
    then ok (track_info_caps 0x00 (caps_length dev) 1)
    else if t == 1
    then ok (track_info_chapter_time_name 0 (string_to_bytes []))
    else if t == 2
    then short_text (or_nil dev (λ d. d.track_artist) []) >>= (λ s. ok (track_info_artist s))
    else if t == 3
    then short_text (or_nil dev (λ d. d.track_album) []) >>= (λ s. ok (track_info_album s))
    else if t == 4
    then ok (track_info_genre (string_to_bytes []))
    else if t == 5
    then short_text (or_nil dev (λ d. d.track_title) bluetooth) >>= (λ s. ok (track_info_track s))
    else if t == 6
    then ok (track_info_composer (string_to_bytes []))
    else if t == 7
    then ok (track_info_lyrics 0x00 0 (string_to_bytes []))
    else if t == 8
    then ok (track_info_artwork_count 0x08)
    else err unknown_info_type

-- What a request is answered with: `none` is no answer.
abbrev pub some_answer : Result DispPayload → Result (Option DispPayload)
some_answer answered = answered >>= λ p. ok (some p)

unfoldable pub answer :
    DispHandler
    → Option Device
    → Now
    → Command DispPayload
    → DispPayload
    → Result (Option DispPayload)
unfolding state_info track_info play_length play_status string_to_bytes
answer h dev now req get_current_eq_profile_index = ok (some (ret_current_eq_profile_index 0))
answer h dev now req (set_current_eq_profile_index _ _) = ok (some (ack_success req))
answer h dev now req get_num_eq_profiles = ok (some (ret_num_eq_profiles 1))
answer h dev now req (get_indexed_eq_profile_name _) =
    ok (some (ret_indexed_eq_profile_name (string_to_bytes default_name)))
answer h dev now req (set_remote_event_notification _) = ok (some (ack_success req))
answer h dev now req get_remote_event_status = ok (some (ret_remote_event_status h.event_mask))
answer h dev now req (get_ipod_state_info t) = elim (state_info h dev now t) [
  | none ↦ err unknown_info_type
  | some d ↦ ok (some (ret_ipod_state_info t (some d)))
]
answer h dev now req (set_ipod_state_info _ _) = ok (some (ack_success req))
answer h dev now req get_play_status = ok (
    some (
      ret_play_status (play_status dev) 0 (play_length dev)
        (or_nil dev (λ d. d.track_position_ms) 0)))
answer h dev now req (set_current_playing_track _) = ok (some (ack_success req))
answer h dev now req (get_indexed_playing_track_info t _ _) =
    track_info dev t >>= λ d. ok (some (ret_indexed_playing_track_info t (some d)))
answer h dev now req get_num_playing_tracks = ok (some (ret_num_playing_tracks 1))
answer h dev now req get_artwork_formats = ok (some (ret_artwork_formats []))
answer h dev now req get_power_battery_state = ok (some (ret_power_battery_state 0x01 255))
answer h dev now req get_sound_check_state = ok (some (ret_sound_check_state false))
answer h dev now req (set_sound_check_state _ _) = ok (some (ack_success req))
answer h dev now req (get_track_artwork_times _ _ _ _) = ok (some (ret_track_artwork_times []))
answer h dev now req _ = ok none

-- The one request that changes the handler.
unfoldable pub after : DispHandler → DispPayload → DispHandler
unfolding set_event_mask
after h (set_remote_event_notification mask) = set_event_mask h mask
after h _ = h

unfoldable pub respond_with :
    Command DispPayload → Option DispPayload → Out DispPayload → Out DispPayload
unfolding respond
respond_with req none out = out
respond_with req (some p) out = respond disp_payloads req p out

-- The handler and the writer behind an answer.
abbrev pub Handled : Type 0
Handled = (DispHandler × Out DispPayload) × Result (Unit {0})

unfoldable pub finish :
    DispHandler
    → Command DispPayload
    → Out DispPayload
    → DispPayload
    → Result (Option DispPayload)
    → Handled
unfolding after respond_with
finish h req out msg (ok reply) = ((after h msg, respond_with req reply out), ok tt)
finish h req out msg (err e) = ((h, out), err e)
finish h req out msg panic = ((h, out), panic)

-- The type switch on the payload; what is no pointer to a payload struct is skipped.
unfoldable pub handle_payload :
    DispHandler
    → Command DispPayload
    → Out DispPayload
    → Option Device
    → Now
    → Option (Payload DispPayload)
    → Handled
unfolding answer finish
handle_payload h req out dev now none = ((h, out), ok tt)
handle_payload h req out dev now (some (unknown bytes)) = ((h, out), ok tt)
handle_payload h req out dev now (some (known msg)) =
    finish h req out msg (answer h dev now req msg)

-- `DispRemoteHandler.Handle`: the handler and the writer afterwards, and the error.
unfoldable pub handle :
    DispHandler → Command DispPayload → Out DispPayload → Option Device → Now → Handled
unfolding handle_payload
handle h req out dev now = handle_payload h req out dev now req.payload
