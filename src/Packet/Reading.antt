-- ===== src/Packet/Reading.antt =====
-- What `ReadPacket` of packet.go reads, and what it leaves.
use ipod.Base.{
  ℕ, ◌+◌, ◌≡◌, sym, ap, ◌∙◌, List, [], ◌∷◌, ◌++◌, subst, ok, err, arith, length, All, inl, inr,
  unexpected_eof, Bool-cases, leb, leb→le,
}
use ipod.Checksum.{checksum}
use ipod.Packet.{
  PacketReader, packet_start_byte, parse_header, parse_packet, take_packet, read_packet,
}
use ipod.Packet.Parts.{
  NotStart, three_parts, take_parts_ok, take_packet_short, parse_header_cases, frame_cases,
  read_packet_at,
}

abbrev pub reader : List ℕ → List ℕ → PacketReader
reader xs spare = record { frame = record { bytes = xs; spare = spare } }

-- The parts of a frame whose first packet was read.
pub record Packet (frame payload rest : List ℕ) : Type 0 where
  pub noise : List ℕ
  pub header : List ℕ
  pub check : ℕ
  pub layout : frame ≡ noise ++ (packet_start_byte ∷ (header ++ (payload ++ (check ∷ rest))))
  pub skipped : All NotStart noise
  pub announced :
      parse_header (header ++ (payload ++ (check ∷ rest))) ≡ ok (length header, length payload)
  pub intact : checksum (header ++ (payload ++ (check ∷ []))) ≡ 0

pub take_packet_ok :
    (back spare : List ℕ) (pd' : PacketReader) (payload : List ℕ) (off len : ℕ)
    → parse_header back ≡ ok (off, len)
    → take_packet (reader back spare) (parse_packet (reader back spare).frame) ≡ (pd', ok payload)
    → (header : List ℕ) × (check : ℕ) × (back ≡ header ++ (payload ++ (check ∷ pd'.frame.bytes)))
      × (parse_header back ≡ ok (length header, length payload))
      × (checksum (header ++ (payload ++ (check ∷ []))) ≡ 0)
take_packet_ok back spare pd' payload off len hdr e =
    elim (Bool-cases (leb (off + len + 1) (length back))) [
      | inl enough ↦
          let (header, mid, check, rest, split, a, b) =
            three_parts off len back (leb→le _ _ enough) in
          let announced : parse_header back ≡ ok (length header, length mid) = rw (a, b) hdr in
          let (same, left, intact) =
            take_parts_ok header mid check rest spare pd' payload (rw split at announced)
              (rw split at e) in
          (header, check, rw (← same, left) split, rw (← same) announced, rw (← same) intact)
      | inr short ↦ elim (take_packet_short back spare off len hdr (ground arith)) [
        | inl wrong ↦ absurd (ground (arith, wrong))
        | inr beyond ↦ absurd (ground (arith, beyond))
      ]
    ]

-- Without a header of three bytes the parse fails, and the reader stands behind the start byte.
pub take_packet_headless :
    (back spare : List ℕ)
    → parse_header back ≡ err unexpected_eof
    → take_packet (reader back spare) (parse_packet (reader back spare).frame)
      ≡ (reader back spare, err unexpected_eof)
unfolding take_packet parse_packet
take_packet_headless back spare e = rw e

read_ok_at :
    (front back spare : List ℕ) (pd' : PacketReader) (payload : List ℕ)
    → All NotStart front
    → take_packet (reader back spare) (parse_packet (reader back spare).frame) ≡ (pd', ok payload)
    → Packet (front ++ (packet_start_byte ∷ back)) payload pd'.frame.bytes
read_ok_at front back spare pd' payload clean e = elim (parse_header_cases back) [
  | inl (off, len, hdr, _) ↦
      let (header, check, split, announced, intact) =
        take_packet_ok back spare pd' payload off len hdr e in
      record {
        noise = front;
        header = header;
        check = check;
        layout = ap (λ (t : List ℕ). front ++ (packet_start_byte ∷ t)) split;
        skipped = clean;
        announced = rw split at announced;
        intact = intact;
      }
  | inr missing ↦ absurd (ground (arith, take_packet_headless back spare missing))
]

-- A successful read found a whole packet behind what is no start byte: its header announces the
-- payload's length, its bytes have the checksum 0, and the reader goes on right behind it.
pub read_packet_ok :
    (xs spare : List ℕ) (pd' : PacketReader) (payload : List ℕ)
    → read_packet (reader xs spare) ≡ (pd', ok payload)
    → Packet xs payload pd'.frame.bytes
read_packet_ok xs spare pd' payload e = elim (frame_cases xs) [
  | inl absent ↦ absurd (unfold read_packet in ground (arith, absent))
  | inr (front, back, split, clean) ↦
      subst (λ t. Packet t payload pd'.frame.bytes) (sym split)
        (read_ok_at front back spare pd' payload clean
          (sym (read_packet_at front back spare clean) ∙ (rw split at e)))
]
