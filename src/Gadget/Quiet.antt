-- ===== src/Gadget/Quiet.antt =====
-- cmd/ipod/main.go: the events of the phone and the clock, where the other side subscribed to nothing.
use ipod.Base.{
  ℕ, suc, ◌≡◌, refl, ap, Bool, true, false, Option, none, some, List, [], ◌∷◌, ◌++◌, ok, All,
}
use ipod.Command.{Out}
use ipod.DispRemote.Notify.{
  DispHandler, is_enabled, on_track_changed, send_play_status, send_track_index,
  send_track_position_sec,
}
use ipod.ExtRemote.Notify.{
  ExtHandler, ext_enabled, ext_track_changed, ext_send_play_status, ext_send_track_index,
  ext_send_track_position_ms,
}
use ipod.DispRemote.Payloads.{DispPayload}
use ipod.ExtRemote.Payloads.{ExtPayload}
use ipod.Session.{send_cmds}
use ipod.Gadget.Packets.{Process}
use ipod.Gadget.Events.{
  Event, tick, notified, retry, read, Loop, on_tick, on_new_track, on_play_state, on_event, run,
  going_on, play_state_if,
}

-- A side that subscribed to nothing.
pub record Unsubscribed (p : Process) : Type 0 where
  pub ext_lem : p.gadget.ext.notify_mask ≡ 0
  pub disp_lem : p.gadget.disp.event_mask ≡ 0

module _ (h : ExtHandler) (none_asked : h.notify_mask ≡ 0) where
  ext_no_position :
      (pos_ms : ℕ) (out : Out ExtPayload) → ext_send_track_position_ms h pos_ms out ≡ out
  unfolding ext_send_track_position_ms ext_enabled
  ext_no_position pos_ms out = rw none_asked refl

  ext_no_index : (out : Out ExtPayload) → ext_send_track_index (ext_track_changed h) out ≡ out
  unfolding ext_send_track_index ext_enabled ext_track_changed
  ext_no_index out = rw none_asked refl

  ext_no_status : (playing : Bool) (out : Out ExtPayload) → ext_send_play_status h playing out ≡ out
  unfolding ext_send_play_status ext_enabled
  ext_no_status playing out = rw none_asked refl

module _ (h : DispHandler) (none_asked : h.event_mask ≡ 0) where
  disp_no_position :
      (pos_ms : ℕ) (out : Out DispPayload) → send_track_position_sec h pos_ms out ≡ out
  unfolding send_track_position_sec is_enabled
  disp_no_position pos_ms out = rw none_asked refl

  disp_no_index : (out : Out DispPayload) → send_track_index (on_track_changed h) out ≡ out
  unfolding send_track_index is_enabled on_track_changed
  disp_no_index out = rw none_asked refl

  disp_no_status : (playing : Bool) (out : Out DispPayload) → send_play_status h playing out ≡ out
  unfolding send_play_status is_enabled
  disp_no_status playing out = rw none_asked refl

quiet_tick : (p : Process) (pos_ms : ℕ) → Unsubscribed p → on_tick p pos_ms ≡ (p, [])
unfolding on_tick send_cmds
quiet_tick p pos_ms u =
    rw (ext_no_position p.gadget.ext u.ext_lem pos_ms _)
      (rw (disp_no_position p.gadget.disp u.disp_lem pos_ms _) refl)

-- The process behind a new track.
abbrev pub counted : Process → Process
counted p = record p {
  gadget = record p.gadget {
    ext = ext_track_changed p.gadget.ext;
    disp = on_track_changed p.gadget.disp;
  };
}

quiet_track : (p : Process) → Unsubscribed p → on_new_track p ≡ (counted p, [])
unfolding on_new_track send_cmds
quiet_track p u =
    rw (ext_no_index p.gadget.ext u.ext_lem _) (rw (disp_no_index p.gadget.disp u.disp_lem _) refl)

quiet_state : (p : Process) (playing : Bool) → Unsubscribed p → on_play_state p playing ≡ (p, [])
unfolding on_play_state send_cmds
quiet_state p playing u =
    rw (ext_no_status p.gadget.ext u.ext_lem playing _)
      (rw (disp_no_status p.gadget.disp u.disp_lem playing _) refl)

-- The number of new tracks in events of the phone.
abbrev pub new_tracks : List Event → ℕ
new_tracks [] = 0
new_tracks (notified true _ ∷ events) = suc (new_tracks events)
new_tracks (_ ∷ events) = new_tracks events

-- Events of the phone and the clock alone: nothing was read, and no retry is due.
abbrev pub Unasked : Event → Type 0
Unasked (tick _) = Unit {0}
Unasked (notified _ _) = Unit {0}
Unasked retry = ⊥
Unasked (read _ _) = ⊥

counted-Unsubscribed : (p : Process) → Unsubscribed p → Unsubscribed (counted p)
unfolding ext_track_changed on_track_changed
counted-Unsubscribed p u = record { ext_lem = u.ext_lem; disp_lem = u.disp_lem }

-- What an event leaves of the process.
abbrev pub after_event : Process → Event → Process
after_event p (notified true _) = counted p
after_event p _ = p

after_event-Unsubscribed :
    (p : Process) (e : Event) → Unsubscribed p → Unsubscribed (after_event p e)
after_event-Unsubscribed p (notified true _) u = counted-Unsubscribed p u
after_event-Unsubscribed p (notified false _) u = u
after_event-Unsubscribed p (tick _) u = u
after_event-Unsubscribed p retry u = u
after_event-Unsubscribed p (read _ _) u = u

quiet_pair :
    (l : Loop) (play_state : Option Bool) (first : Process × List (List ℕ)) (p : Process)
    → first ≡ (p, [])
    → play_state_if play_state p ≡ (p, [])
    → going_on l
        ((play_state_if play_state first.0).0, first.1 ++ (play_state_if play_state first.0).1)
      ≡ going_on l (p, [])
quiet_pair l play_state first p e e' = rw (e, e') refl

quiet_event :
    (l : Loop) (e : Event)
    → Unsubscribed l.process
    → Unasked e
    → on_event l e ≡ some (ok (record l { process = after_event l.process e }, []))
unfolding on_event
quiet_event l (tick none) u h = refl
quiet_event l (tick (some (pos_ms, true))) u h = ap (going_on l) (quiet_tick l.process pos_ms u)
quiet_event l (tick (some (pos_ms, false))) u h = refl
quiet_event l (notified true none) u h =
    quiet_pair l none _ (counted l.process) (quiet_track l.process u) refl
quiet_event l (notified true (some playing)) u h =
    quiet_pair l (some playing) _ (counted l.process) (quiet_track l.process u)
      (quiet_state (counted l.process) playing (counted-Unsubscribed l.process u))
quiet_event l (notified false none) u h = refl
quiet_event l (notified false (some playing)) u h =
    ap (going_on l) (quiet_state l.process playing u)
quiet_event l retry u h = elim h [ ]
quiet_event l (read _ _) u h = elim h [ ]

abbrev pub after_events : Process → List Event → Process
after_events p [] = p
after_events p (e ∷ events) = after_events (after_event p e) events

run_step :
    (l l' : Loop) (e : Event) (events : List Event) (sent : List (List ℕ))
    (r : Loop × List (List ℕ))
    → l.running ≡ true
    → on_event l e ≡ some (ok (l', sent))
    → run l' events ≡ some (ok r)
    → run l (e ∷ events) ≡ some (ok (r.0, sent ++ r.1))
unfolding run
run_step l l' e events sent r going step more = rw step (rw more (rw going refl))

-- Before the other side has subscribed to anything, no change of the phone and no tick of the clock sends
-- a frame, however many there are; only the two track counters go on.
pub run-Unsubscribed :
    (events : List Event) (l : Loop)
    → l.running ≡ true
    → Unsubscribed l.process
    → All Unasked events
    → run l events ≡ some (ok (record l { process = after_events l.process events }, []))
unfolding run
run-Unsubscribed [] l going u h = refl
run-Unsubscribed (e ∷ events) l going u h =
    let next : Loop = record l { process = after_event l.process e } in
    run_step l next e events [] _ going (quiet_event l e u h.0)
      (run-Unsubscribed events next going (after_event-Unsubscribed l.process e u) h.1)
