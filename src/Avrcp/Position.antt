-- ===== src/Avrcp/Position.antt =====
-- avrcp/avrcp.go: the position that is told of between two reports of the phone.
use ipod.Base.{
  ℕ, ◌-◌, ◌/◌, ◌%◌, ◌≤◌, ◌≡◌, refl, Bool, true, false, Option, none, some, arith, if◌then◌else◌,
}
use ipod.Avrcp.State.{Source, known_duration, moved_on, moved_since, playback_status}

moved_on_bounds :
    (dur pos elapsed : ℕ)
    → pos ≤ dur
    → dur ≤ 2147483648
    → (pos ≤ moved_on dur pos elapsed) × (moved_on dur pos elapsed ≤ dur)
moved_on_bounds dur pos elapsed h k = (ground arith, ground arith)

moved_since_bounds :
    (refreshed : Option ℕ) (now dur pos : ℕ)
    → pos ≤ dur
    → dur ≤ 2147483648
    → (pos ≤ moved_since refreshed now dur pos) × (moved_since refreshed now dur pos ≤ dur)
moved_since_bounds none now dur pos h k = (omega arith, h)
moved_since_bounds (some refreshed) now dur pos h k =
    moved_on_bounds dur pos ((now - refreshed) / 1000000 % 4294967296) h k

while_playing :
    (playing : Bool) (dur pos moved : ℕ)
    → pos ≤ dur
    → (pos ≤ moved) × (moved ≤ dur)
    → (pos ≤ (if playing then moved else pos))
      × ((if playing then moved else pos) ≤ dur)
      × (playing ≡ false → (if playing then moved else pos) ≡ pos)
while_playing true dur pos moved h within = (within.0, within.1, λ e. absurd (cc e))
while_playing false dur pos moved h within = (omega arith, h, λ e. refl)

-- A phone that reports a position within a track of at most 2^31 milliseconds, or within five minutes
-- where the length is unknown: at any time the position that the source gives is not before the
-- reported one and within the track, and while nothing plays it is the reported one.
pub playback_status_bounds :
    (now : ℕ) (s : Source)
    → s.state.position ≤ known_duration s.state.duration
    → s.state.duration ≤ 2147483648
    → let status = playback_status now s in
      (status.0 ≡ known_duration s.state.duration)
      × (s.state.position ≤ status.1)
      × (status.1 ≤ status.0)
      × (status.2 ≡ false → status.1 ≡ s.state.position)
unfolding playback_status
playback_status_bounds now s h k =
    let dur = known_duration s.state.duration in
    let short : dur ≤ 2147483648 = ground arith in
    let moved = moved_since_bounds s.pos_refreshed_at now dur s.state.position h short in
    let within =
      while_playing s.state.playing dur s.state.position
        (moved_since s.pos_refreshed_at now dur s.state.position) h moved in
    (refl, within.0, within.1, within.2)
