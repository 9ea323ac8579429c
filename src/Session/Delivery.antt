-- ===== src/Session/Delivery.antt =====
-- cmd/ipod/main.go: frames of one side, as the other side reads them.
use ipod.Base.{
  ℕ, suc, ◌<◌, ◌≡◌, subst, Option, none, some, List, [], ◌∷◌, append-nil, arith, ok, length,
}
use ipod.Packet.{bytes, new_packet_writer, write_packet, read_packets}
use ipod.Packet.Reading.{reader}
use ipod.Packet.RoundTrip.{Fits}
use ipod.Packet.Draining.{write_packets, read_packets-write_packets}
use ipod.Command.{Payloads, known, Command, CommandSerde, marshal_cmd, unmarshal_cmd, handle_cmd_id}
use ipod.Command.RoundTrip.{Carries, TrxFits, on_wire}
use ipod.Session.{read_cmds}

module _ {P T : Type 0} (payloads : Payloads P T) where
  -- Commands that can be sent from a serde's state on: the lingo carries each payload, a command has a
  -- transaction where transactions are on, and its packet has a length that the header can carry.
  pub data Sendable : CommandSerde → List (Command P) → Type 0 where
    nothing : {s : CommandSerde} → Sendable s []
    one_more :
        {s : CommandSerde} {cmds : List (Command P)} (id : ℕ) (t : Option ℕ) (p : P)
        (payload pkt : List ℕ)
        → Carries payloads p id payload
        → TrxFits (handle_cmd_id s id).trx_enabled t
        → marshal_cmd payloads s (record { id = id; transaction = t; payload = some (known p) })
          ≡ (handle_cmd_id s id, ok pkt)
        → Fits pkt
        → Sendable (handle_cmd_id s id) cmds
        → Sendable s (record { id = id; transaction = t; payload = some (known p) } ∷ cmds)

  -- What arrives of commands: all of them, without the transactions that are off.
  abbrev pub arriving : CommandSerde → List (Command P) → List (Command P)
  arriving s [] = []
  arriving s (cmd ∷ cmds) =
      record cmd { transaction = on_wire (handle_cmd_id s cmd.id).trx_enabled cmd.transaction }
      ∷ arriving (handle_cmd_id s cmd.id) cmds

  abbrev pub after_all : CommandSerde → List (Command P) → CommandSerde
  after_all s [] = s
  after_all s (cmd ∷ cmds) = after_all (handle_cmd_id s cmd.id) cmds

  some_frame : (pkt : List ℕ) → Fits pkt → 0 < length (bytes (write_packet new_packet_writer pkt).0)
  unfolding bytes write_packet new_packet_writer
  some_frame [] fits = absurd (omega (arith, fits.some_bytes))
  some_frame (b ∷ bs) fits = omega arith

  pub one_frame :
      (pkt : List ℕ)
      → Fits pkt
      → read_packets
          (suc (length (bytes (write_packet new_packet_writer pkt).0)))
          (reader (bytes (write_packet new_packet_writer pkt).0) [])
        ≡ some (ok pkt ∷ [])
  unfolding bytes write_packets
  one_frame pkt fits =
      let frame = (write_packet new_packet_writer pkt).0.frame in
      subst (λ f. read_packets (suc (length frame)) (reader f []) ≡ some (ok pkt ∷ []))
        (append-nil frame)
        (read_packets-write_packets (suc (length frame)) (pkt ∷ []) [] [] (fits, tt) tt
          (omega (arith, some_frame pkt fits)))

  pub read_cmds_one :
      (s s' : CommandSerde) (cmd : Command P) (pkt : List ℕ)
      → unmarshal_cmd payloads s pkt ≡ (s', ok (cmd, none))
      → read_cmds payloads s (ok pkt ∷ []) ≡ ok (s', cmd ∷ [])
  unfolding read_cmds
  read_cmds_one s s' cmd pkt e = rw (e, read_cmds) (rw e)
