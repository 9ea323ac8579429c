-- ===== src/Avrcp/State.antt =====
-- avrcp/avrcp.go: `Source`, what is known of the phone, and how it changes. What busctl answers is an
-- argument. Times are nanoseconds of a clock that starts above zero; the calls of time.Now in one
-- operation give one time. The lock and the log lines are left out.
use ipod.Base.{
  ℕ, ◌+◌, ◌-◌, ◌/◌, ◌%◌, Bool, true, false, ◌||◌, not, Option, none, some, List, [], ◌∷◌, ltb, ◌==◌,
  if◌then◌else◌,
}
use ipod.Avrcp.Texts.{same_text}
use ipod.ExtRemote.Device.{ExtDevice, Method, play, pause}
use ipod.DispRemote.Handler.{Device}

pub record PlayState : Type 0 where
  pub title : List ℕ
  pub artist : List ℕ
  pub album : List ℕ
  pub duration : ℕ
  pub position : ℕ
  pub playing : Bool

-- `notified` is whether `notifyCh` holds its one value; `pos_refreshed_at` is none for the zero time, and
-- an `optimistic_until` of 0 is the zero time. `positionTime` is never set.
pub record Source : Type 0 where
  pub state : PlayState
  pub pos_refreshed_at : Option ℕ
  pub device_name : List ℕ
  pub track_changed : Bool
  pub play_state_changed : Bool
  pub last_known_title : List ℕ
  pub last_known_playing : Bool
  pub optimistic_until : ℕ
  pub notified : Bool

-- `NewSource`
unfoldable pub new_source : Source
new_source = record {
  state = record {
    title = [];
    artist = [];
    album = [];
    duration = 300000;
    position = 0;
    playing = false;
  };
  pos_refreshed_at = none;
  device_name = [];
  track_changed = false;
  play_state_changed = false;
  last_known_title = [];
  last_known_playing = false;
  optimistic_until = 0;
  notified = false;
}

unfoldable pub signal_track_changed : Source → Source
signal_track_changed s = record s { track_changed = true; notified = true }

unfoldable pub signal_play_state_changed : Source → Source
signal_play_state_changed s = record s { play_state_changed = true; notified = true }

-- `TrackChanged` and `PlayStateChanged`, which clear their flags.
unfoldable pub ask_track_changed : Source → Source × Bool
ask_track_changed s = (record s { track_changed = false }, s.track_changed)

unfoldable pub ask_play_state_changed : Source → Source × Option Bool
ask_play_state_changed s = (
  record s { play_state_changed = false },
  if s.play_state_changed then some s.state.playing else none,
)

abbrev pub known_duration : ℕ → ℕ
known_duration duration = if duration == 0 then 300000 else duration

-- The position behind so many milliseconds: a later one than the end is the end.
abbrev pub moved_on : ℕ → ℕ → ℕ → ℕ
moved_on dur pos elapsed =
    if ltb elapsed dur
    then (let moved = (pos + elapsed) % 4294967296 in if ltb dur moved then dur else moved)
    else pos

abbrev pub moved_since : Option ℕ → ℕ → ℕ → ℕ → ℕ
moved_since none now dur pos = pos
moved_since (some refreshed) now dur pos =
    moved_on dur pos ((now - refreshed) / 1000000 % 4294967296)

-- `PlaybackStatus`
unfoldable pub playback_status : ℕ → Source → ℕ × ℕ × Bool
playback_status now s =
    let dur = known_duration s.state.duration in
    (
      dur,
      if s.state.playing
          then moved_since s.pos_refreshed_at now dur s.state.position
          else s.state.position,
      s.state.playing,
    )

-- "Bluetooth", where there is no title
abbrev pub title_or_bluetooth : List ℕ → List ℕ
title_or_bluetooth [] = b'B' ∷ b'l' ∷ b'u' ∷ b'e' ∷ b't' ∷ b'o' ∷ b'o' ∷ b't' ∷ b'h' ∷ []
title_or_bluetooth (b ∷ bs) = b ∷ bs

-- The source as the two remote lingoes see it.
unfoldable pub as_disp_device : ℕ → Source → Device
unfolding playback_status
as_disp_device now s = record {
  track_position_ms = (playback_status now s).1;
  track_length_ms = known_duration s.state.duration;
  is_playing = s.state.playing;
  track_title = title_or_bluetooth s.state.title;
  track_artist = s.state.artist;
  track_album = s.state.album;
}

unfoldable pub as_ext_device : ℕ → Source → ExtDevice
unfolding playback_status
as_ext_device now s =
    let status = playback_status now s in
    record {
      track_length = status.0;
      track_pos = status.1;
      playing = status.2;
      is_playing = s.state.playing;
      track_title = title_or_bluetooth s.state.title;
      track_artist = s.state.artist;
      track_album = s.state.album;
    }

-- A second and a half, in which the phone's own state may lag behind.
abbrev pub guard : ℕ
guard = 1500000000

-- `MediaControl`, but for the call of the phone.
unfoldable pub media_control : ℕ → Source → Method → Source
unfolding signal_play_state_changed
media_control now s play = signal_play_state_changed (record s {
  state = record s.state { playing = true };
  last_known_playing = true;
  optimistic_until = now + guard;
})
media_control now s pause = signal_play_state_changed (record s {
  state = record s.state { playing = false };
  last_known_playing = false;
  pos_refreshed_at = none;
  optimistic_until = now + guard;
})
media_control now s _ = s

-- The properties of a track that are there and could be parsed.
pub record Track : Type 0 where
  pub title : Option (List ℕ)
  pub artist : Option (List ℕ)
  pub album : Option (List ℕ)
  pub duration : Option ℕ

-- The property "Track": absent, present without content, or with it.
pub data TrackProperty : Type 0 where
  absent empty : TrackProperty
  given : Track → TrackProperty

-- What `getAllProperties` finds, and `Get("Track")` if it is asked for.
pub record Properties : Type 0 where
  pub position : Option ℕ
  pub status : Option (List ℕ)
  pub track : TrackProperty
  pub fetched : Option Track

abbrev pub text_or : Option (List ℕ) → List ℕ → List ℕ
text_or none old = old
text_or (some new) old = new

-- Empty titles and durations of 0 are left out.
abbrev pub title_of : Option (List ℕ) → Option (List ℕ)
title_of (some (b ∷ bs)) = some (b ∷ bs)
title_of _ = none

abbrev pub duration_or : Option ℕ → ℕ → ℕ
duration_or none old = old
duration_or (some new) old = if new == 0 then old else new

abbrev pub is_there {ℓ} : {A : Type ℓ} → Option A → Bool
is_there none = false
is_there (some a) = true

abbrev pub is_long : Option ℕ → Bool
is_long none = false
is_long (some n) = not (n == 0)

unfoldable pub with_track : PlayState → Track → PlayState
with_track st t = record st {
  title = text_or (title_of t.title) st.title;
  artist = text_or t.artist st.artist;
  album = text_or t.album st.album;
  duration = duration_or t.duration st.duration;
}

-- Whether the track had anything.
abbrev pub got : Track → Bool
got t = is_there (title_of t.title) || is_there t.artist || is_there t.album || is_long t.duration

-- A title that differs from the last one is kept and told of.
unfoldable pub note_title : Source → List ℕ → Source
unfolding signal_track_changed
note_title s title =
    if same_text title s.last_known_title
    then s
    else signal_track_changed (record s { last_known_title = title })
