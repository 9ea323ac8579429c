-- ===== src/Gadget/Packets.antt =====
-- cmd/ipod/main.go: the dispatch of a command to its lingo, and the handling of a frame.
use mathlib.Core.Option
use ipod.Base.{
  ℕ, suc, Option, none, some, List, [], ◌∷◌, ◌++◌, Result, ok, err, panic, ◌>>=◌, ◌==◌,
  if◌then◌else◌, map, true,
}
use ipod.Lingo.Ids.{
  lingo_id, lingo_general_id, lingo_simple_remote_id, lingo_display_remote_id, lingo_ext_remote_id,
  lingo_digital_audio_id,
}
use ipod.Command.{Payload, known, unknown, Command, CommandSerde, Out}
use ipod.Audio.Handler.{handle_audio}
use ipod.DispRemote.Handler.{Device, Now, Handled, handle}
use ipod.DispRemote.Notify.{DispHandler}
use ipod.ExtRemote.Device.{ExtDevice, Method}
use ipod.ExtRemote.Handler.{ext_handle}
use ipod.ExtRemote.Notify.{ExtHandler}
use ipod.General.Handler.{General, handle_general}
use ipod.Session.{send_cmds, read_frame_cmds}
use ipod.Gadget.Payloads.{
  AnyPayload, disp, ext, audio, any_payloads, general_part, as_disp, as_ext, as_audio,
}
use ipod.Gadget.Device.{Surroundings, DevGeneral, dev_general}

-- What the handlers find while a command is handled: the device's surroundings, the clock, and
-- `avrcpSource`, which may be nil, as the two remote lingoes see it.
pub record World : Type 0 where
  pub surroundings : Surroundings
  pub now : Now
  pub source : Option (Device × ExtDevice)

-- The variables of the program: `devGeneral` with the certificate buffer, the two handlers, and the
-- media calls that were made on the phone.
pub record Gadget : Type 0 where
  pub general : General DevGeneral
  pub disp : DispHandler
  pub ext : ExtHandler
  pub calls : List Method

-- A command as the handler of one lingo sees it: a payload of another lingo is none of its types.
abbrev pub view :
    {Q : Type 0} → (AnyPayload → Option Q) → Option (Payload AnyPayload) → Option (Payload Q)
view get none = none
view get (some (unknown bytes)) = some (unknown bytes)
view get (some (known p)) = Option.map (λ q. known q) (get p)

abbrev pub seen_as : {Q : Type 0} → (AnyPayload → Option Q) → Command AnyPayload → Command Q
seen_as get cmd = record {
  id = cmd.id;
  transaction = cmd.transaction;
  payload = view get cmd.payload;
}

abbrev pub put_payload : {Q : Type 0} → (Q → AnyPayload) → Payload Q → Payload AnyPayload
put_payload put (known q) = known (put q)
put_payload put (unknown bytes) = unknown bytes

abbrev pub put_command : {Q : Type 0} → (Q → AnyPayload) → Command Q → Command AnyPayload
put_command put cmd = record {
  id = cmd.id;
  transaction = cmd.transaction;
  payload = Option.map (put_payload put) cmd.payload;
}

-- The writer as one lingo sees it, which only writes behind what is there and counts on.
abbrev pub own_part : {Q : Type 0} → Out AnyPayload → Out Q
own_part out = record { commands = []; trx_counter = out.trx_counter }

abbrev pub with_part : {Q : Type 0} → (Q → AnyPayload) → Out AnyPayload → Out Q → Out AnyPayload
with_part put out part = record {
  commands = out.commands ++ map (put_command put) part.commands;
  trx_counter = part.trx_counter;
}

-- `handlePacket` drops the error of a handler; a panic ends the program.
abbrev pub after_disp : Gadget → Out AnyPayload → Handled → Result (Gadget × Out AnyPayload)
after_disp g out (done, ok _) = ok (record g { disp = done.0 }, with_part disp out done.1)
after_disp g out (done, err e) = ok (record g { disp = done.0 }, with_part disp out done.1)
after_disp g out (done, panic) = panic

unfoldable pub handle_packet :
    World → Gadget → Out AnyPayload → Command AnyPayload → Result (Gadget × Out AnyPayload)
unfolding lingo_id handle_general dev_general handle ext_handle handle_audio
handle_packet world g out cmd =
    let lingo = lingo_id cmd.id in
    if lingo == lingo_general_id
    then (let done =
          handle_general any_payloads general_part (dev_general world.surroundings) g.general cmd
            out in
        ok (record g { general = done.0 }, done.1))
    else if lingo == lingo_simple_remote_id
    then ok (g, out)
    else if lingo == lingo_display_remote_id
    then after_disp g out (
        handle g.disp (seen_as as_disp cmd) (own_part out) (Option.map (λ s. s.0) world.source)
          world.now)
    else if lingo == lingo_ext_remote_id
    then (ext_handle g.ext (seen_as as_ext cmd) (own_part out) (Option.map (λ s. s.1) world.source)
        >>= λ done. ok (
          record g { ext = done.handler; calls = g.calls ++ done.calls },
          with_part ext out done.out,
        ))
    else if lingo == lingo_digital_audio_id
    then ok (g, with_part audio out (handle_audio (seen_as as_audio cmd) (own_part out)))
    else ok (g, out)

-- The commands of a frame in order; the world may change between them.
unfoldable pub handle_packets :
    (ℕ → World)
    → ℕ
    → Gadget
    → Out AnyPayload
    → List (Command AnyPayload)
    → Result (Gadget × Out AnyPayload)
unfolding handle_packet
handle_packets world n g out [] = ok (g, out)
handle_packets world n g out (cmd ∷ cmds) =
    handle_packet (world n) g out cmd >>= λ done. handle_packets world (suc n) done.0 done.1 cmds

-- The variables of `processFrames` and `trxCounter`.
pub record Process : Type 0 where
  pub serde : CommandSerde
  pub gadget : Gadget
  pub trx_counter : ℕ

abbrev pub with_writer : Gadget → Gadget
with_writer g = record g {
  general = record {
    dev = record g.general.dev { has_writer = true };
    cert_buf = g.general.cert_buf;
  };
}

abbrev pub answered :
    CommandSerde → Result (Gadget × Out AnyPayload) → Result (Process × List (List ℕ))
unfolding send_cmds
answered s done = done >>= λ (g, out).
    let sent = send_cmds any_payloads s out.commands in
    ok (record { serde = sent.0; gadget = g; trx_counter = out.trx_counter }, sent.1)

-- A frame in `processFrames`: its packets are read and made commands, then these are handled in order,
-- and what they wrote is sent. `none` would be a frame with more packets than bytes.
unfoldable pub process_frame :
    (ℕ → World) → Process → List ℕ → Option (Result (Process × List (List ℕ)))
unfolding read_frame_cmds handle_packets send_cmds
process_frame world p frame =
    Option.map
      (λ got. got >>= λ (s, cmds). answered s (
        handle_packets world 0 (with_writer p.gadget)
          (record { commands = []; trx_counter = p.trx_counter }) cmds))
      (read_frame_cmds any_payloads p.serde frame)
