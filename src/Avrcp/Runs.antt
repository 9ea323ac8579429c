-- ===== src/Avrcp/Runs.antt =====
-- avrcp/avrcp.go: the source at concrete inputs.
use ipod.Base.{◌≤◌, ◌≡◌, refl, true, false, none, some, List, [], ◌∷◌, arith}
use ipod.ExtRemote.Device.{pause}
use ipod.Avrcp.State.{
  Source, new_source, playback_status, Track, absent, given, Properties, media_control,
  ask_play_state_changed,
}
use ipod.Avrcp.Refresh.{playing_text}
use ipod.Avrcp.Guard.{Poll, poll_all, media_control-quiet}
use ipod.Avrcp.Position.{playback_status_bounds}

abbrev song : Track
song = record { title = some (b'A' ∷ []); artist = none; album = none; duration = some 240000 }

-- The phone plays, at a second into the track.
abbrev still_playing : Properties
still_playing = record {
  position = some 1000;
  status = some playing_text;
  track = given song;
  fetched = none;
}

abbrev without_track : Properties
without_track = record {
  position = none;
  status = some playing_text;
  track = absent;
  fetched = some song;
}

abbrev polls : List Poll
polls = (5, some ([], some still_playing)) ∷ (6, some ([], some without_track)) ∷ []

media_control-quiet_example :
    let told = ask_play_state_changed (media_control 4 new_source pause) in
    let later = poll_all told.0 polls in
    (told.1 ≡ some false)
    × (later.state.playing ≡ false)
    × ((ask_play_state_changed later).1 ≡ none)
media_control-quiet_example =
    media_control-quiet 4 new_source pause false polls refl (omega arith, (omega arith, tt))

-- Played from 30 s on, at 32 s.
abbrev under_way : Source
under_way = record {
  state = record {
    title = [];
    artist = [];
    album = [];
    duration = 240000;
    position = 30000;
    playing = true;
  };
  pos_refreshed_at = some 1000000000;
  device_name = [];
  track_changed = false;
  play_state_changed = false;
  last_known_title = [];
  last_known_playing = true;
  optimistic_until = 0;
  notified = false;
}

two_seconds_on : playback_status 3000000000 under_way ≡ (240000, 32000, true)
unfolding playback_status
two_seconds_on = refl

playback_status_bounds_example :
    let status = playback_status 3000000000 under_way in
    (status.0 ≡ 240000)
    × (30000 ≤ status.1)
    × (status.1 ≤ status.0)
    × (status.2 ≡ false → status.1 ≡ 30000)
playback_status_bounds_example =
    playback_status_bounds 3000000000 under_way (omega arith) (omega arith)
