-- ===== src/Avrcp/Agreement.antt =====
-- avrcp/avrcp.go: what is known last of the phone, and what the state holds.
use ipod.Base.{ℕ, ◌≡◌, refl, sym, ap, Bool, true, Option, List, [], ◌∷◌, inl, inr, Bool-cases}
use ipod.ExtRemote.Device.{Method}
use ipod.Avrcp.Texts.{same_text, same_bool, same_text→≡}
use ipod.Avrcp.State.{
  Source, signal_track_changed, signal_play_state_changed, media_control, ask_track_changed,
  ask_play_state_changed, Track, Properties, note_title,
}
use ipod.Avrcp.Refresh.{fetch_track, take_playing, refresh}

-- The title and the play state are the last known ones.
pub record Agreed (s : Source) : Type 0 where
  pub title_lem : s.last_known_title ≡ s.state.title
  pub playing_lem : s.last_known_playing ≡ s.state.playing

-- A title that is noted is known, whether it is told of or not; nothing else changes.
pub note_title_lem :
    (s : Source) (title : List ℕ)
    → (told wake : Bool) × (note_title s title
        ≡ record s { last_known_title = title; track_changed = told; notified = wake })
unfolding note_title signal_track_changed
note_title_lem s title = elim (Bool-cases (same_text title s.last_known_title)) [
  | inr other ↦ (true, true, rw other refl)
  | inl same ↦ (
    s.track_changed,
    s.notified,
    rw same (
        ap (λ t. record s { last_known_title = t })
          (sym (same_text→≡ title s.last_known_title same))),
  )
]

pub take_playing_lem :
    (s : Source) (new : Bool)
    → (told wake : Bool) × (take_playing s new ≡ record s {
      state = record s.state { playing = new };
      last_known_playing = new;
      play_state_changed = told;
      notified = wake;
    })
unfolding take_playing signal_play_state_changed
take_playing_lem s new = elim (Bool-cases (same_bool new s.last_known_playing)) [
  | inr other ↦ (true, true, rw other refl)
  | inl same ↦ (s.play_state_changed, s.notified, rw same refl)
]

-- What happens to a source: a method of the phone is called, its properties are polled, its track is
-- fetched, and the program asks for changes.
pub data Step : Type 0 where
  control : (now : ℕ) → Method → Step
  poll : (now : ℕ) → Option (List ℕ × Option Properties) → Step
  fetch : Option Track → Step
  ask_track ask_play : Step

unfoldable pub operate : Source → Step → Source
unfolding media_control refresh fetch_track ask_track_changed ask_play_state_changed
operate s (control now method) = media_control now s method
operate s (poll now answers) = refresh now s answers
operate s (fetch track) = fetch_track s track
operate s ask_track = (ask_track_changed s).0
operate s ask_play = (ask_play_state_changed s).0

abbrev pub operate_all : Source → List Step → Source
operate_all s [] = s
operate_all s (step ∷ steps) = operate_all (operate s step) steps
