-- ===== src/Packet/Truncation.antt =====
-- Packets of packet.go that do not fit their frame, and payloads of 256 bytes.
use ipod.Base.{
  ℕ, ◌+◌, ◌≤◌, ◌<◌, ◌≡◌, ◌≢◌, refl, sym, ap, ◌∙◌, List, [], ◌∷◌, ◌++◌, ok, err, panic, arith,
  length, length-append, All, inl, inr, ◌⊎◌, invalid_checksum,
}
use ipod.Checksum.{checksum}
use ipod.Slices.{reslice_beyond}
use ipod.Packet.{
  PacketReader, packet_start_byte, parse_header, parse_body, parse_packet, read_packet, take_packet,
  length_field, write_packet, new_packet_writer,
}
use ipod.Packet.Parts.{NotStart, read_packet_at, take_packet_short, parse_header_cases}
use ipod.Packet.Reading.{reader, take_packet_ok, take_packet_headless}
use ipod.Packet.RoundTrip.{write_packet-packet_bytes}

-- A packet whose header announces more than the frame still holds is never reported as truncated:
-- the read answers that the checksum is wrong, or it panics.
pub read_packet_truncated :
    (noise back spare : List ℕ) (off len : ℕ)
    → All NotStart noise
    → parse_header back ≡ ok (off, len)
    → length back < off + len + 1
    → let pd = reader (noise ++ (packet_start_byte ∷ back)) spare in
      (read_packet pd ≡ (reader back spare, err invalid_checksum))
      ⊎ (read_packet pd ≡ (reader back spare, panic))
read_packet_truncated noise back spare off len clean hdr short =
    rw (read_packet_at noise back spare clean) (take_packet_short back spare off len hdr short)

-- Where the announced length lies beyond the capacity too, the read panics.
pub read_packet_beyond :
    (noise back spare : List ℕ) (off len : ℕ)
    → All NotStart noise
    → parse_header back ≡ ok (off, len)
    → length back + length spare < off + len + 1
    → read_packet (reader (noise ++ (packet_start_byte ∷ back)) spare) ≡ (reader back spare, panic)
unfolding take_packet parse_packet parse_body
read_packet_beyond noise back spare off len clean hdr beyond =
    rw (read_packet_at noise back spare clean, hdr, reslice_beyond _ (off + len + 1) beyond)

length_field_256 : length_field 256 ≡ 0 ∷ []
unfolding length_field
length_field_256 = refl

-- A first byte 0 announces the long form.
parse_header_zero : (xs : List ℕ) {off len : ℕ} → parse_header (0 ∷ xs) ≡ ok (off, len) → off ≡ 3
unfolding parse_header
parse_header_zero [] e = cc
parse_header_zero (a ∷ []) e = cc
parse_header_zero (a ∷ b ∷ xs) e = ground arith

read_long_form :
    (xs spare : List ℕ) (pd' : PacketReader) (payload : List ℕ)
    → read_packet (reader (packet_start_byte ∷ 0 ∷ xs) spare) ≡ (pd', ok payload)
    → length payload + 3 ≤ length xs
read_long_form xs spare pd' payload e =
    let e' = sym (read_packet_at [] (0 ∷ xs) spare tt) ∙ e in
    elim (parse_header_cases (0 ∷ xs)) [
      | inr missing ↦ absurd (ground (arith, take_packet_headless (0 ∷ xs) spare missing))
      | inl (off, len, hdr, _) ↦
          let (header, check, split, announced, _) =
            take_packet_ok (0 ∷ xs) spare pd' payload off len hdr e' in
          omega (
            arith,
            parse_header_zero xs announced,
            ap length split,
            length-append header (payload ++ (check ∷ pd'.frame.bytes)),
            length-append payload (check ∷ pd'.frame.bytes),
          )
    ]

-- A payload of 256 bytes is never read back from the frame that the writer makes of it.
pub read_packet_256 :
    (payload spare : List ℕ) (pd' : PacketReader)
    → length payload ≡ 256
    → read_packet (reader (write_packet new_packet_writer payload).0.frame spare)
      ≢ (pd', ok payload)
unfolding new_packet_writer
read_packet_256 payload spare pd' size e =
    let c = checksum (0 ∷ payload) ∷ [] in
    let wrote = write_packet-packet_bytes new_packet_writer payload (omega arith) in
    let e' = rw (wrote, size, length_field_256) at e in
    omega (arith, read_long_form (payload ++ c) spare pd' payload e', length-append payload c)
