-- ===== src/Avrcp/Guard.antt =====
-- avrcp/avrcp.go: the polls of the phone in the guard behind Play and Pause.
use ipod.Base.{
  ℕ, ◌+◌, ◌<◌, ◌≡◌, refl, sym, ap, ◌∙◌, subst, Bool, true, false, ◌&&◌, Option, none, some, List,
  [], ◌∷◌, inl, inr, Bool-cases, if◌then◌else◌, lt→ltb, All,
}
use ipod.ExtRemote.Device.{Method, play, pause}
use ipod.Avrcp.Texts.{same_text, same_bool, same_bool→≡, same_bool_refl}
use ipod.Avrcp.State.{
  PlayState, Source, signal_play_state_changed, media_control, ask_play_state_changed, Track,
  TrackProperty, absent, empty, given, Properties, with_track, got, note_title, is_there, guard,
}
use ipod.Avrcp.Refresh.{
  playing_text, fetch_track, take_playing, guarded, read_state, patch_position, patch_playing,
  write_back, take_properties, refresh,
}
use ipod.Avrcp.Agreement.{note_title_lem}

-- The last play state, the flag of a change, and the end of the guard.
abbrev pub Known : Bool → Bool → ℕ → Source → Type 0
Known v c u s = (s.last_known_playing ≡ v) × (s.play_state_changed ≡ c) × (s.optimistic_until ≡ u)

abbrev pub Held : Bool → Bool → ℕ → Source → Type 0
Held v c u s = Known v c u s × (s.state.playing ≡ v)

module _ (v c : Bool) (u : ℕ) where
  Held-if :
      (b : Bool) (x y : Source) → Held v c u x → Held v c u y → Held v c u (if b then x else y)
  Held-if true x y h k = h
  Held-if false x y h k = k

  take_playing-Held :
      (s : Source) (new : Bool) → Known v c u s → new ≡ v → Held v c u (take_playing s new)
  unfolding take_playing
  take_playing-Held s new k e =
      let same : same_bool new s.last_known_playing ≡ true =
        ap (λ x. same_bool new x) (k.0 ∙ sym e) ∙ same_bool_refl new in
      rw same (((e, k.1, k.2), e))

  note_title-Known : (s : Source) (t : List ℕ) → Known v c u s → Known v c u (note_title s t)
  note_title-Known s t k = subst (Known v c u) (sym (note_title_lem s t).2) k

  note_title-Held : (s : Source) (t : List ℕ) → Held v c u s → Held v c u (note_title s t)
  note_title-Held s t h = subst (Held v c u) (sym (note_title_lem s t).2) h

  fetch_track-Held : (s : Source) (t : Option Track) → Held v c u s → Held v c u (fetch_track s t)
  unfolding fetch_track with_track
  fetch_track-Held s none h = h
  fetch_track-Held s (some t) h =
      Held-if (got t) _ _
        (note_title-Held (record s { state = with_track s.state t }) (with_track s.state t).title h)
        h

  module _ (now : ℕ) (early : now < u) where
    guarded_held : (s : Source) (new : Bool) → Known v c u s → guarded now s new ≡ v
    guarded_held s new k = elim (Bool-cases (same_bool new s.last_known_playing)) [
      | inl same ↦ rw same (same_bool→≡ new s.last_known_playing same ∙ k.0)
      | inr other ↦ rw (other, k.2, lt→ltb now u early) k.0
    ]

    patch_position-Held :
        (s : Source) (position : Option ℕ)
        → Held v c u s
        → Held v c u (patch_position now s position)
    unfolding patch_position
    patch_position-Held s none h = h
    patch_position-Held s (some pos) h = h

    patch_playing-Held :
        (s : Source) (status : Option (List ℕ))
        → Held v c u s
        → Held v c u (patch_playing now s status)
    unfolding patch_playing
    patch_playing-Held s none h = h
    patch_playing-Held s (some status) h =
        let new = guarded now s (same_text status playing_text) in
        take_playing-Held (record s { pos_refreshed_at = if new then s.pos_refreshed_at else none })
          new h.0 (guarded_held s (same_text status playing_text) h.0)

    write_back-Held :
        (s : Source) (next : PlayState) (p : Properties)
        → Known v c u s
        → Held v c u (write_back now s next p)
    unfolding write_back
    write_back-Held s next p k =
        let new = guarded now s next.playing in
        take_playing-Held
          (record s {
            state = next;
            pos_refreshed_at =
                if is_there p.position && new
                then some now
                else if new
                then s.pos_refreshed_at
                else none;
          })
          new k (guarded_held s next.playing k)

    take_properties-Held :
        (s : Source) (p : Properties) → Held v c u s → Held v c u (take_properties now s p)
    unfolding take_properties with_track
    take_properties-Held s p h = by_track p.track
      where
        by_track : (t : TrackProperty) → Held v c u (take_properties now s (record p { track = t }))
        by_track absent =
            patch_playing-Held (patch_position now (fetch_track s p.fetched) p.position) p.status (
              patch_position-Held (fetch_track s p.fetched) p.position
                (fetch_track-Held s p.fetched h))
        by_track empty =
            Held-if _ _ _ (write_back-Held s (read_state s p) (record p { track = empty }) h.0) h
        by_track (given t) =
            Held-if _ _ _
              (write_back-Held (note_title s (with_track (read_state s p) t).title)
                (with_track (read_state s p) t) (record p { track = given t })
                (note_title-Known s (with_track (read_state s p) t).title h.0))
              (note_title-Held s (with_track (read_state s p) t).title h)

    refresh-Held :
        (s : Source) (answers : Option (List ℕ × Option Properties))
        → Held v c u s
        → Held v c u (refresh now s answers)
    unfolding refresh
    refresh-Held s none h = h
    refresh-Held s (some (name, none)) h = h
    refresh-Held s (some (name, some p)) h = take_properties-Held _ p h

-- Polls, each at its time.
abbrev pub Poll : Type 0
Poll = ℕ × Option (List ℕ × Option Properties)

abbrev pub poll_all : Source → List Poll → Source
poll_all s [] = s
poll_all s ((now, answers) ∷ polls) = poll_all (refresh now s answers) polls

poll_all-Held :
    (v c : Bool) (u : ℕ) (polls : List Poll) (s : Source)
    → All (λ (poll : Poll). poll.0 < u) polls
    → Held v c u s
    → Held v c u (poll_all s polls)
poll_all-Held v c u [] s early h = h
poll_all-Held v c u ((now, answers) ∷ polls) s early h =
    poll_all-Held v c u polls _ early.1 (refresh-Held v c u now early.0 s answers h)

Held-quiet :
    (v : Bool) (u : ℕ) (polls : List Poll) (s : Source)
    → All (λ (poll : Poll). poll.0 < u) polls
    → Held v false u s
    → ((poll_all s polls).state.playing ≡ v)
      × ((ask_play_state_changed (poll_all s polls)).1 ≡ none)
unfolding ask_play_state_changed
Held-quiet v u polls s early h =
    let later = poll_all-Held v false u polls s early h in (later.1, rw later.0.1 refl)

-- The state that a method puts the phone in.
abbrev pub commanded : Method → Option Bool
commanded play = some true
commanded pause = some false
commanded _ = none

-- After Play or Pause, the program is told once of the new state. Whatever the phone says in the second
-- and a half behind it, in however many polls, the state that is shown stays the commanded one, and
-- no change of it is told of.
pub media_control-quiet :
    (now : ℕ) (s : Source) (method : Method) (v : Bool) (polls : List Poll)
    → commanded method ≡ some v
    → All (λ (poll : Poll). poll.0 < now + guard) polls
    → let told = ask_play_state_changed (media_control now s method) in
      let later = poll_all told.0 polls in
      (told.1 ≡ some v) × (later.state.playing ≡ v) × ((ask_play_state_changed later).1 ≡ none)
unfolding media_control ask_play_state_changed signal_play_state_changed
media_control-quiet now s play true polls e early =
    let later = Held-quiet true (now + guard) polls _ early ((refl, refl, refl), refl) in
    (refl, later.0, later.1)
media_control-quiet now s pause false polls e early =
    let later = Held-quiet false (now + guard) polls _ early ((refl, refl, refl), refl) in
    (refl, later.0, later.1)
media_control-quiet now s play false polls e early = absurd (cc e)
media_control-quiet now s pause true polls e early = absurd (cc e)
media_control-quiet now s _ v polls e early = absurd (cc e)
