-- ===== src/ExtRemote/Device.antt =====
-- lingo-extremote/handler.go: the device, what it is asked for, and what its answers are made into.
use ipod.Base.{
  ℕ, ◌+◌, ◌%◌, Bool, false, ◌||◌, Option, none, some, List, [], ◌∷◌, Result, ok, ◌>>=◌, ltb, ◌==◌,
  if◌then◌else◌,
}
use ipod.ExtRemote.Payloads.{
  TrackData, track_caps, track_long_text, no_data, raw, ExtPayload, return_play_status,
  play_current_selection, play_control,
}
use ipod.Text.{string_to_bytes, truncate_runes}

-- What the methods of `DeviceExtRemote` answer while a request is handled; the first three are
-- `PlaybackStatus`.
pub record ExtDevice : Type 0 where
  pub track_length : ℕ
  pub track_pos : ℕ
  pub playing : Bool
  pub is_playing : Bool
  pub track_title : List ℕ
  pub track_artist : List ℕ
  pub track_album : List ℕ

-- The methods that `MediaControl` is called with.
pub data Method : Type 0 where
  play pause next previous fast_forward rewind : Method

abbrev pub or_no_device {ℓ} : {A : Type ℓ} → Option ExtDevice → (ExtDevice → A) → A → A
or_no_device none answer other = other
or_no_device (some dev) answer other = answer dev

-- `dev != nil && dev.IsPlaying()`
abbrev pub currently_playing : Option ExtDevice → Bool
currently_playing dev = or_no_device dev (λ d. d.is_playing) false

-- The answers to GetIndexedPlayingTrackInfo.
unfoldable pub playing_info : Option ExtDevice → ℕ → TrackData
playing_info dev t =
    if t == 0x00
    then track_caps 0
        (or_no_device dev (λ d. if ltb 0 d.track_length then d.track_length else 300000) 300000) 1
    else if t == 0x03 || t == 0x04
    then track_long_text 0 0 0x00
    else if t == 0x07
    then no_data
    else raw (0x00 ∷ [])

-- One playlist, track, artist and album, and nothing else.
unfoldable pub record_count : ℕ → ℕ
record_count category =
    if category == 0x01
    then 1
    else if category == 0x05 || category == 0x02 || category == 0x03
    then 1
    else 0

-- `copy` of "Bluetooth" into a [16]byte.
abbrev pub bluetooth_name : List ℕ
bluetooth_name =
    b'B' ∷ b'l' ∷ b'u' ∷ b'e' ∷ b't' ∷ b'o' ∷ b'o' ∷ b't' ∷ b'h' ∷ 0 ∷ 0 ∷ 0 ∷ 0 ∷ 0 ∷ 0 ∷ 0 ∷ []

abbrev pub known_length : ℕ → ℕ → ℕ
known_length len pos = if len == 0 then (pos + 300000) % 4294967296 else len

-- The answer to GetPlayStatus: without a device, paused at the start of five minutes.
unfoldable pub play_status_reply : Option ExtDevice → ExtPayload
play_status_reply none = return_play_status 300000 0 0x02
play_status_reply (some d) =
    return_play_status (known_length d.track_length d.track_pos) d.track_pos
      (if d.playing then 0x01 else 0x02)

-- A text of the track, cut to 20 runes, as a C string.
unfoldable pub ext_text : List ℕ → Result (List ℕ)
unfolding truncate_runes string_to_bytes
ext_text s = truncate_runes s 20 >>= λ cut. ok (string_to_bytes cut)

-- The command of `PlayControl` as a method of the phone; `none` is the empty string.
unfoldable pub play_method : Bool → ℕ → Option Method
play_method playing cmd =
    if cmd == 0x01
    then some (if playing then pause else play)
    else if cmd == 0x0a
    then some play
    else if cmd == 0x0b
    then some pause
    else if cmd == 0x02
    then some pause
    else if cmd == 0x03 || cmd == 0x08 || cmd == 0x0c
    then some next
    else if cmd == 0x04 || cmd == 0x09 || cmd == 0x0d
    then some previous
    else if cmd == 0x05
    then some fast_forward
    else if cmd == 0x06
    then some rewind
    else if cmd == 0x07
    then some play
    else none

-- The calls of `MediaControl` that a request makes.
unfoldable pub media_calls : Option ExtDevice → ExtPayload → List Method
unfolding play_method
media_calls (some d) (play_current_selection _) = play ∷ []
media_calls (some d) (play_control cmd) = elim (play_method d.is_playing cmd) [
  | none ↦ []
  | some method ↦ method ∷ []
]
media_calls dev msg = []
