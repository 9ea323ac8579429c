-- ===== src/Session.antt =====
-- cmd/ipod/main.go: commands sent as frames, and read from frames, by `processFrames`.
pub mod Delivery
mod Runs
use mathlib.Core.Option
use ipod.Base.{
  ℕ, zero, suc, ◌+◌, ◌-◌, ◌*◌, ◌/◌, ◌%◌, ◌^◌, ◌≤◌, ◌<◌, min, ◌≡◌, refl, sym, ap, ◌∙◌, subst, ◌≢◌,
  ◌⊎◌, inl, inr, Bool, true, false, ◌&&◌, ◌||◌, not, Option, none, some, List, [], ◌∷◌, ◌++◌, map,
  append-nil, append_assoc, arith, Result, ok, err, panic, ◌>>=◌, Error, eof, is_eof, ltb, leb,
  ◌==◌, if◌then◌else◌, Bool-cases, Option-cases, ==_iff, length, get_or, take, drop, replicate, All,
  length-append, All-append, Result-cases,
}
use ipod.Packet.{bytes, new_packet_writer, write_packet, read_packets}
use ipod.Packet.Reading.{reader}
use ipod.Command.{Payloads, Command, CommandSerde, marshal_cmd, unmarshal_cmd, Unmarshalled}

module _ {P T : Type 0} (payloads : Payloads P T) where
  -- `sendCmds`: the frames that it hands to `WriteFrame`, one for each command. A command that cannot
  -- be marshalled is skipped. No `MarshalBinary` of the program panics; behind a panic no frame is sent.
  unfoldable pub send_cmds : CommandSerde → List (Command P) → CommandSerde × List (List ℕ)
  send_cmds s [] = (s, [])
  send_cmds s (cmd ∷ cmds) =
      let marshalled = marshal_cmd payloads s cmd in
      let rest = send_cmds marshalled.0 cmds in
      elim marshalled.1 [
        | ok pkt ↦ (rest.0, bytes (write_packet new_packet_writer pkt).0 ∷ rest.1)
        | err e ↦ rest
        | panic ↦ (marshalled.0, [])
      ]

  -- The commands of the packets of a frame: a packet that could not be read is skipped, and a command
  -- is kept also beside an error of its own. A panic ends the program before any command is handled.
  unfoldable pub read_cmds :
      CommandSerde → List (Result (List ℕ)) → Result (CommandSerde × List (Command P))
  read_cmds s [] = ok (s, [])
  read_cmds s (ok pkt ∷ results) =
      let got = unmarshal_cmd payloads s pkt in
      let rest = read_cmds got.0 results in
      elim got.1 [
        | ok (cmd, e) ↦ rest >>= λ more. ok (more.0, cmd ∷ more.1)
        | err e ↦ rest
        | panic ↦ panic
      ]
  read_cmds s (err e ∷ results) = read_cmds s results
  read_cmds s (panic ∷ results) = panic

  -- The commands of one frame. Each packet takes a byte at least, so a round more than the frame has
  -- bytes is enough; `none` means that it is not.
  unfoldable pub read_frame_cmds :
      CommandSerde → List ℕ → Option (Result (CommandSerde × List (Command P)))
  unfolding read_cmds
  read_frame_cmds s frame =
      Option.map (read_cmds s) (read_packets (suc (length frame)) (reader frame []))

  -- What was read of a frame, and what stands in the frames behind it.
  abbrev pub followed :
      Result (CommandSerde × List (Command P))
      → (CommandSerde → Option (Result (CommandSerde × List (Command P))))
      → Option (Result (CommandSerde × List (Command P)))
  followed (ok got) next = Option.map (λ r. r >>= λ more. ok (more.0, got.1 ++ more.1)) (next got.0)
  followed (err e) next = some (err e)
  followed panic next = some panic

  -- The commands of frames that were read one after the other.
  unfoldable pub read_frames :
      CommandSerde → List (List ℕ) → Option (Result (CommandSerde × List (Command P)))
  unfolding read_frame_cmds
  read_frames s [] = some (ok (s, []))
  read_frames s (frame ∷ frames) = elim (read_frame_cmds s frame) [
    | none ↦ none
    | some got ↦ followed got (λ s'. read_frames s' frames)
  ]
