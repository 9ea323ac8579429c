-- ===== src/Avrcp/Refresh.antt =====
-- avrcp/avrcp.go: `refresh` and `fetchTrack`, which bring the source up to date with the phone.
use ipod.Base.{
  ℕ, Bool, false, ◌&&◌, ◌||◌, not, Option, none, some, List, [], ◌∷◌, ltb, if◌then◌else◌,
}
use ipod.Avrcp.Texts.{same_text, same_bool}
use ipod.Avrcp.State.{
  PlayState, Source, signal_play_state_changed, Track, TrackProperty, absent, given, Properties,
  is_there, with_track, got, note_title,
}

-- `fetchTrack`
unfoldable pub fetch_track : Source → Option Track → Source
unfolding with_track note_title
fetch_track s none = s
fetch_track s (some t) =
    let next = with_track s.state t in
    if got t then note_title (record s { state = next }) next.title else s

-- "playing"
abbrev pub playing_text : List ℕ
playing_text = b'p' ∷ b'l' ∷ b'a' ∷ b'y' ∷ b'i' ∷ b'n' ∷ b'g' ∷ []

abbrev pub position_or : Option ℕ → ℕ → ℕ
position_or none old = old
position_or (some new) old = new

abbrev pub playing_or : Option (List ℕ) → Bool → Bool
unfolding same_text
playing_or none old = old
playing_or (some status) old = same_text status playing_text

-- Within the guard a play state that differs from the last known one is dropped.
abbrev pub guarded : ℕ → Source → Bool → Bool
guarded now s new =
    if not (same_bool new s.last_known_playing) && ltb now s.optimistic_until
    then s.last_known_playing
    else new

-- Takes this play state, and tells of it if it is not the last known one.
unfoldable pub take_playing : Source → Bool → Source
unfolding signal_play_state_changed
take_playing s new =
    let s' = record s { state = record s.state { playing = new }; last_known_playing = new } in
    if same_bool new s.last_known_playing then s' else signal_play_state_changed s'

-- The properties without a track, after `fetchTrack`.
unfoldable pub patch_position : ℕ → Source → Option ℕ → Source
patch_position now s none = s
patch_position now s (some pos) = record s {
  state = record s.state { position = pos };
  pos_refreshed_at = if s.state.playing then some now else s.pos_refreshed_at;
}

unfoldable pub patch_playing : ℕ → Source → Option (List ℕ) → Source
unfolding take_playing same_text
patch_playing now s none = s
patch_playing now s (some status) =
    let new = guarded now s (same_text status playing_text) in
    take_playing (record s { pos_refreshed_at = if new then s.pos_refreshed_at else none }) new

-- The properties with a track, from the state that was read before: it is written back whole, unless
-- nothing was there.
unfoldable pub write_back : ℕ → Source → PlayState → Properties → Source
unfolding take_playing
write_back now s next p =
    let new = guarded now s next.playing in
    take_playing
      (record s {
        state = next;
        pos_refreshed_at =
            if is_there p.position && new
            then some now
            else if new
            then s.pos_refreshed_at
            else none;
      })
      new

abbrev pub noted : Source → PlayState → TrackProperty → Source
unfolding note_title
noted s next (given t) = note_title s next.title
noted s next _ = s

abbrev pub with_property : PlayState → TrackProperty → PlayState
unfolding with_track
with_property st (given t) = with_track st t
with_property st _ = st

abbrev pub got_property : TrackProperty → Bool
got_property (given t) = got t
got_property _ = false

-- The state, with the position and the play state that were found.
abbrev pub read_state : Source → Properties → PlayState
unfolding same_text
read_state s p = record s.state {
  position = position_or p.position s.state.position;
  playing = playing_or p.status s.state.playing;
}

-- What `refresh` does with the properties.
unfoldable pub take_properties : ℕ → Source → Properties → Source
unfolding fetch_track patch_position patch_playing write_back note_title with_track
take_properties now s p = elim p.track [
  | absent ↦ patch_playing now (patch_position now (fetch_track s p.fetched) p.position) p.status
  | _ ↦
      let next = with_property (read_state s p) p.track in
      let s' = noted s next p.track in
      if is_there p.position || is_there p.status || got_property p.track
      then write_back now s' next p
      else s'
]

abbrev pub name_or : List ℕ → List ℕ → List ℕ
name_or [] old = old
name_or (b ∷ bs) old = b ∷ bs

abbrev pub take_optional : ℕ → Source → Option Properties → Source
take_optional now s none = s
take_optional now s (some p) = take_properties now s p

-- `refresh`: without a player nothing, else the device's name and the properties, if there are any.
unfoldable pub refresh : ℕ → Source → Option (List ℕ × Option Properties) → Source
unfolding take_properties
refresh now s none = s
refresh now s (some (name, properties)) =
    take_optional now (record s { device_name = name_or name s.device_name }) properties
