-- ===== src/Packet/Draining.antt =====
-- The loop of `processFrames` (cmd/ipod/main.go) that reads one frame's packets.
use mathlib.Core.Option
use ipod.Base.{
  ℕ, zero, suc, ◌<◌, ◌≡◌, ◌≢◌, refl, ap, ◌∙◌, List, [], ◌∷◌, ◌++◌, some, Error, Result, ok, err,
  panic, arith, length, All, inl, inr, map, eof, ◌⊎◌, sym, append-nil, append_assoc, is_eof_ne,
}
use ipod.Packet.{
  PacketReader, PacketWriter, read_packet, read_packets, write_packet, new_packet_writer,
}
use ipod.Packet.Parts.{NotStart}
use ipod.Packet.Reading.{reader}
use ipod.Packet.Outcomes.{Outcome, got, refused, crashed, read_packet_cases, read_packet_eof}
use ipod.Packet.RoundTrip.{Fits, packet_bytes, read_packet-packet_bytes, write_packet-packet_bytes}

-- One round of the loop.
module _ (fuel : ℕ) (pd pd' : PacketReader) where
  read_packets_ok :
      (p : List ℕ)
      → read_packet pd ≡ (pd', ok p)
      → read_packets (suc fuel) pd ≡ Option.map (◌∷◌ (ok p)) (read_packets fuel pd')
  unfolding read_packets
  read_packets_ok p e = rw (e, read_packets) (rw e)

  read_packets_err :
      (x : Error)
      → x ≢ eof
      → read_packet pd ≡ (pd', err x)
      → read_packets (suc fuel) pd ≡ Option.map (◌∷◌ (err x)) (read_packets fuel pd')
  unfolding read_packets
  read_packets_err x ne e = rw (e, read_packets) (rw (is_eof_ne x ne, e))

  read_packets_panic :
      read_packet pd ≡ (pd', panic) → read_packets (suc fuel) pd ≡ some (panic ∷ [])
  unfolding read_packets
  read_packets_panic e = rw (e, read_packets)

  read_packets_eof : read_packet pd ≡ (pd', err eof) → read_packets (suc fuel) pd ≡ some []
  unfolding read_packets
  read_packets_eof e = rw (e, read_packets)

-- Each round but the last takes at least a start byte off the frame, so on every frame the loop ends,
-- whatever errors it meets.
pub read_packets_total :
    (fuel : ℕ) (xs spare : List ℕ)
    → length xs < fuel
    → (results : List (Result (List ℕ))) × (read_packets fuel (reader xs spare) ≡ some results)
read_packets_total zero xs spare h = absurd (omega arith)
read_packets_total (suc fuel) xs spare h =
    step (read_packet_cases xs spare) (λ ys less. read_packets_total fuel ys spare (omega arith))
  where
    step :
        (All NotStart xs × (read_packet (reader xs spare) ≡ (reader xs spare, err eof)))
          ⊎ ((back : List ℕ) × (length back < length xs)
              × Outcome back spare (read_packet (reader xs spare)))
        → ((ys : List ℕ)
            → length ys < length xs
            → (results : List (Result (List ℕ))) × (read_packets fuel (reader ys spare)
                ≡ some results))
        → (results : List (Result (List ℕ))) × (read_packets (suc fuel) (reader xs spare)
            ≡ some results)
    step (inl (clean, e)) more = ([], read_packets_eof fuel _ _ e)
    step (inr (back, less, got rest p shorter e)) more =
        let (results, r) = more rest (omega arith) in
        (ok p ∷ results, read_packets_ok fuel _ _ p e ∙ rw r)
    step (inr (back, less, refused x ne e)) more =
        let (results, r) = more back less in
        (err x ∷ results, read_packets_err fuel _ _ x ne e ∙ rw r)
    step (inr (back, less, crashed e)) more = (panic ∷ [], read_packets_panic fuel _ _ e)

-- The packets of a list of payloads, as the writer appends them one after the other.
unfoldable pub write_packets : PacketWriter → List (List ℕ) → PacketWriter
write_packets pw [] = pw
write_packets pw (p ∷ ps) = write_packets (write_packet pw p).0 ps

abbrev stream : List (List ℕ) → List ℕ
stream [] = []
stream (p ∷ ps) = packet_bytes p ++ stream ps

write_packets-stream :
    (frame : List ℕ) (ps : List (List ℕ))
    → All Fits ps
    → write_packets (record { frame = frame }) ps ≡ record { frame = frame ++ stream ps }
unfolding write_packets
write_packets-stream frame [] h = ap (λ (t : List ℕ). record { frame = t }) (sym (append-nil frame))
write_packets-stream frame (p ∷ ps) h =
    rw (write_packet-packet_bytes (record { frame = frame }) p h.0.some_bytes)
      (write_packets-stream (frame ++ packet_bytes p) ps h.1 ∙ rw (append_assoc frame))

read_packets-stream :
    (fuel : ℕ) (ps : List (List ℕ)) (rest spare : List ℕ)
    → All Fits ps
    → All NotStart rest
    → length ps < fuel
    → read_packets fuel (reader (stream ps ++ rest) spare) ≡ some (map ok ps)
read_packets-stream zero ps rest spare h clean enough = absurd (omega arith)
read_packets-stream (suc fuel) [] rest spare h clean enough =
    read_packets_eof fuel _ _ ((read_packet_eof rest spare (reader rest spare)).1 (clean, refl))
read_packets-stream (suc fuel) (p ∷ ps) rest spare h clean enough =
    rw (append_assoc (packet_bytes p) (stream ps) rest) (
      read_packets_ok fuel _ (reader (stream ps ++ rest) spare) p
        (read_packet-packet_bytes [] p (stream ps ++ rest) spare tt h.0)
      ∙ rw (read_packets-stream fuel ps rest spare h.1 clean (omega arith)))

-- Payloads that the header can carry, written to one frame and padded with bytes that are no start
-- byte, come out of the reading loop in order, with no error between them.
pub read_packets-write_packets :
    (fuel : ℕ) (ps : List (List ℕ)) (padding spare : List ℕ)
    → All Fits ps
    → All NotStart padding
    → length ps < fuel
    → read_packets fuel (reader ((write_packets new_packet_writer ps).frame ++ padding) spare)
      ≡ some (map ok ps)
unfolding new_packet_writer
read_packets-write_packets fuel ps padding spare h clean enough =
    rw (write_packets-stream [] ps h) (read_packets-stream fuel ps padding spare h clean enough)
