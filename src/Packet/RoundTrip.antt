-- ===== src/Packet/RoundTrip.antt =====
-- Packets that `WritePacket` of packet.go wrote, read back by `ReadPacket`.
use ipod.Base.{
  ℕ, ◌<◌, ◌^◌, ◌≡◌, ◌≢◌, refl, ap, ◌∙◌, List, [], ◌∷◌, ◌++◌, ok, arith, length, All, append_assoc,
}
use ipod.Checksum.{checksum}
use ipod.Checksum.Laws.{checksum-append_self}
use ipod.Packet.{
  PacketWriter, packet_start_byte, length_field, parse_header, read_packet, write_packet,
}
use ipod.Packet.Parts.{NotStart, read_packet_at, take_packet_parts}
use ipod.Packet.Reading.{reader}

-- The payloads whose length the header can carry: not empty, not of 256 bytes, and below 64 KiB.
pub record Fits (payload : List ℕ) : Type 0 where
  pub some_bytes : 0 < length payload
  pub not_256 : length payload ≢ 256
  pub below_64k : length payload < 2 ^ 16

-- What stands behind the start byte.
abbrev pub body : List ℕ → List ℕ
body payload = length_field (length payload) ++ payload

abbrev pub packet_bytes : List ℕ → List ℕ
packet_bytes payload = packet_start_byte ∷ (body payload ++ (checksum (body payload) ∷ []))

-- The writer appends one packet to its frame and changes nothing else.
pub write_packet-packet_bytes :
    (pw : PacketWriter) (payload : List ℕ)
    → 0 < length payload
    → write_packet pw payload ≡ (record { frame = pw.frame ++ packet_bytes payload }, ok tt)
unfolding write_packet
write_packet-packet_bytes pw [] h = absurd (omega arith)
write_packet-packet_bytes pw (b ∷ bs) h = refl

-- The header announces the length that was written.
parse_header-length_field :
    (payload : List ℕ) (c : ℕ) (rest : List ℕ)
    → Fits payload
    → parse_header (length_field (length payload) ++ (payload ++ (c ∷ rest)))
      ≡ ok (length (length_field (length payload)), length payload)
unfolding parse_header length_field
parse_header-length_field [] c rest h = absurd (omega (arith, h.some_bytes))
parse_header-length_field (a ∷ []) c rest h = refl
parse_header-length_field (a ∷ b ∷ bs) c rest h = ground arith

-- The frame of a written packet, grouped as the reader takes it apart.
packet_bytes-append :
    (payload rest : List ℕ)
    → packet_bytes payload ++ rest
      ≡ packet_start_byte
        ∷ (length_field (length payload) ++ (payload ++ (checksum (body payload) ∷ rest)))
packet_bytes-append payload rest = ap (◌∷◌ packet_start_byte) (simp append_assoc)

pub read_packet-packet_bytes :
    (noise payload rest spare : List ℕ)
    → All NotStart noise
    → Fits payload
    → read_packet (reader (noise ++ (packet_bytes payload ++ rest)) spare)
      ≡ (reader rest spare, ok payload)
read_packet-packet_bytes noise payload rest spare clean fits =
    let field = length_field (length payload) in
    let c = checksum (body payload) in
    let intact : checksum (field ++ (payload ++ (c ∷ []))) ≡ 0 =
      rw (← append_assoc field payload (c ∷ [])) (checksum-append_self (body payload)) in
    rw (packet_bytes-append payload rest) (
      read_packet_at noise (field ++ (payload ++ (c ∷ rest))) spare clean
      ∙ (take_packet_parts field payload c rest spare
            (parse_header-length_field payload c rest fits)
          ∙ rw intact))

-- What the writer appends for a payload of 1 to 65535 bytes, but not 256, the reader gives back, also
-- behind bytes that are no start byte; it then stands right behind the packet.
pub read_packet-write_packet :
    (noise payload rest spare : List ℕ)
    → All NotStart noise
    → Fits payload
    → read_packet (reader ((write_packet (record { frame = noise }) payload).0.frame ++ rest) spare)
      ≡ (reader rest spare, ok payload)
read_packet-write_packet noise payload rest spare clean fits =
    rw
      (
        write_packet-packet_bytes (record { frame = noise }) payload fits.some_bytes,
        append_assoc noise (packet_bytes payload) rest,
      )
      (read_packet-packet_bytes noise payload rest spare clean fits)
