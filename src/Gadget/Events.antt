-- ===== src/Gadget/Events.antt =====
-- cmd/ipod/main.go: the events that `processFrames` waits for.
use mathlib.Core.Option
use ipod.Base.{
  ℕ, Bool, true, false, Option, none, some, List, [], ◌∷◌, ◌++◌, Result, ok, err, panic, ◌>>=◌,
  is_eof, if◌then◌else◌,
}
use ipod.Command.{Out, send}
use ipod.DispRemote.Notify.{
  new_disp_handler, on_track_changed, send_play_status, send_track_index, send_track_position_sec,
}
use ipod.ExtRemote.Notify.{
  new_ext_handler, ext_track_changed, ext_send_play_status, ext_send_track_index,
  ext_send_track_position_ms,
}
use ipod.General.Payloads.{request_identify}
use ipod.Session.{send_cmds}
use ipod.Gadget.Payloads.{AnyPayload, general, disp, ext, any_payloads}
use ipod.Gadget.Packets.{World, Gadget, own_part, with_part, Process, process_frame}

-- An event, with what the program then learns of the phone: a tick of the position ticker, with the
-- position and whether the phone plays, if there is a phone; a notification of the phone, with
-- `TrackChanged` and the new play state if `PlayStateChanged`; a retry of RequestIdentify; and what
-- `ReadFrame` returned.
pub data Event : Type 0 where
  tick : (phone : Option (ℕ × Bool)) → Event
  notified : (track_changed : Bool) (play_state : Option Bool) → Event
  retry : Event
  read : (world : ℕ → World) (got : Result (List ℕ)) → Event

-- The variables of `processFrames`, and whether it goes on.
pub record Loop : Type 0 where
  pub process : Process
  pub handshake_done : Bool
  pub running : Bool

-- The start of `processFrames`: fresh handlers and a fresh serde.
unfoldable pub start_loop : Gadget → ℕ → Loop
start_loop g counter = record {
  process = record {
    serde = record { trx_enabled = false };
    gadget = record g { disp = new_disp_handler; ext = new_ext_handler };
    trx_counter = counter;
  };
  handshake_done = false;
  running = true;
}

-- What the two remote lingoes write, one behind the other, into a new buffer.
abbrev pub ext_then_disp :
    ℕ → (Out AnyPayload → Out AnyPayload) → (Out AnyPayload → Out AnyPayload) → Out AnyPayload
ext_then_disp counter first second =
    second (first (record { commands = []; trx_counter = counter }))

-- `sendCmds` of a buffer: the process behind it, and the frames.
abbrev pub send_buffer : Process → Out AnyPayload → Process × List (List ℕ)
send_buffer p out =
    let sent = send_cmds any_payloads p.serde out.commands in
    (record p { serde = sent.0; trx_counter = out.trx_counter }, sent.1)

-- The case of the position ticker.
unfoldable pub on_tick : Process → ℕ → Process × List (List ℕ)
unfolding send_cmds ext_send_track_position_ms send_track_position_sec
on_tick p pos_ms = send_buffer p (
    ext_then_disp p.trx_counter
      (λ out. with_part ext out (ext_send_track_position_ms p.gadget.ext pos_ms (own_part out)))
      (λ out. with_part disp out (send_track_position_sec p.gadget.disp pos_ms (own_part out))))

-- The phone plays another track: both handlers count it, and tell of it.
unfoldable pub on_new_track : Process → Process × List (List ℕ)
unfolding send_cmds ext_track_changed on_track_changed ext_send_track_index send_track_index
on_new_track p =
    let ext_handler = ext_track_changed p.gadget.ext in
    let disp_handler = on_track_changed p.gadget.disp in
    send_buffer (record p { gadget = record p.gadget { ext = ext_handler; disp = disp_handler } })
      (ext_then_disp p.trx_counter
        (λ out. with_part ext out (ext_send_track_index ext_handler (own_part out)))
        (λ out. with_part disp out (send_track_index disp_handler (own_part out))))

unfoldable pub on_play_state : Process → Bool → Process × List (List ℕ)
unfolding send_cmds ext_send_play_status send_play_status
on_play_state p playing = send_buffer p (
    ext_then_disp p.trx_counter
      (λ out. with_part ext out (ext_send_play_status p.gadget.ext playing (own_part out)))
      (λ out. with_part disp out (send_play_status p.gadget.disp playing (own_part out))))

abbrev pub new_track_if : Bool → Process → Process × List (List ℕ)
new_track_if true p = on_new_track p
new_track_if false p = (p, [])

abbrev pub play_state_if : Option Bool → Process → Process × List (List ℕ)
play_state_if (some playing) p = on_play_state p playing
play_state_if none p = (p, [])

-- `sendRI`
unfoldable pub send_identify : Process → Process × List (List ℕ)
unfolding send send_cmds
send_identify p = send_buffer p (
    send any_payloads (general request_identify)
      (record { commands = []; trx_counter = p.trx_counter }))

abbrev pub going_on : Loop → Process × List (List ℕ) → Option (Result (Loop × List (List ℕ)))
going_on l done = some (ok (record l { process = done.0 }, done.1))

abbrev pub phone_plays : Loop → Option (ℕ × Bool) → Option (Result (Loop × List (List ℕ)))
phone_plays l none = going_on l (l.process, [])
phone_plays l (some (pos_ms, playing)) =
    if playing then going_on l (on_tick l.process pos_ms) else going_on l (l.process, [])

-- One round of the `select`: the loop behind it and the frames that it sends. The end of the frames
-- ends the loop; another error of `ReadFrame` is skipped. The first answer ends the retries.
unfoldable pub on_event : Loop → Event → Option (Result (Loop × List (List ℕ)))
unfolding on_tick on_new_track on_play_state send_identify process_frame
on_event l (tick phone) = phone_plays l phone
on_event l (notified track_changed play_state) =
    let first = new_track_if track_changed l.process in
    let second = play_state_if play_state first.0 in going_on l (second.0, first.1 ++ second.1)
on_event l retry =
    if l.handshake_done then going_on l (l.process, []) else going_on l (send_identify l.process)
on_event l (read world (err e)) =
    if is_eof e
    then some (ok (record l { running = false }, []))
    else some (ok (record l { handshake_done = true }, []))
on_event l (read world panic) = some panic
on_event l (read world (ok frame)) =
    Option.map
      (λ got. got >>= λ done. ok (record l { process = done.0; handshake_done = true }, done.1))
      (process_frame world l.process frame)

abbrev pub continued :
    Option (Result (Loop × List (List ℕ)))
    → (Loop → Option (Result (Loop × List (List ℕ))))
    → Option (Result (Loop × List (List ℕ)))
continued none next = none
continued (some (err e)) next = some (err e)
continued (some panic) next = some panic
continued (some (ok done)) next =
    Option.map (λ r. r >>= λ more. ok (more.0, done.1 ++ more.1)) (next done.0)

-- Events one after the other, up to the one that ends the loop, and all frames that were sent.
unfoldable pub run : Loop → List Event → Option (Result (Loop × List (List ℕ)))
unfolding on_event
run l [] = some (ok (l, []))
run l (event ∷ events) =
    let behind = continued (on_event l event) (λ l'. run l' events) in
    if l.running then behind else some (ok (l, []))
