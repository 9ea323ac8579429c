-- ===== src/Packet/Runs.antt =====
-- The runs of packet_test.go, and the theorems on packets at concrete inputs.
use ipod.Base.{
  ℕ, ◌≡◌, ◌≢◌, refl, List, [], ◌∷◌, ◌++◌, ok, err, panic, some, Result, arith, ◌⊎◌, replicate,
  invalid_checksum, unexpected_eof, empty_packet, length-replicate,
}
use ipod.Checksum.{checksum}
use ipod.Slices.{reslice, slice_from, sub_slice}
use ipod.Packet.{
  new_packet_writer, write_packet, read_packet, read_packets, index_byte, parse_packet,
  parse_header, parse_body,
}
use ipod.Packet.Reading.{reader, Packet, read_packet_ok}
use ipod.Packet.RoundTrip.{Fits, read_packet-write_packet}
use ipod.Packet.Truncation.{read_packet_truncated, read_packet_256}
use ipod.Packet.Draining.{write_packets, read_packets_total, read_packets-write_packets}

abbrev small : List ℕ
small = 0x55 ∷ 3 ∷ 1 ∷ 2 ∷ 0xfd ∷ 0xfd ∷ []

write_small : (write_packet new_packet_writer (1 ∷ 2 ∷ 0xfd ∷ [])).0.frame ≡ small
unfolding write_packet new_packet_writer checksum
write_small = refl

write_none : (write_packet new_packet_writer []).1 ≡ err empty_packet
unfolding write_packet
write_none = refl

read_small : read_packet (reader small []) ≡ (reader [] [], ok (1 ∷ 2 ∷ 0xfd ∷ []))
unfolding read_packet index_byte parse_packet parse_header parse_body checksum reslice slice_from
    sub_slice
read_small = refl

read_bad_crc :
    (read_packet (reader (0x55 ∷ 3 ∷ 1 ∷ 2 ∷ 0xfd ∷ 0x22 ∷ []) [])).1 ≡ err invalid_checksum
unfolding read_packet index_byte parse_packet parse_header parse_body checksum reslice slice_from
    sub_slice
read_bad_crc = refl

read_short : (read_packet (reader (0x55 ∷ []) [])).1 ≡ err unexpected_eof
unfolding read_packet index_byte parse_packet parse_header parse_body slice_from
read_short = refl

three_bytes : Fits (1 ∷ 2 ∷ 0xfd ∷ [])
three_bytes = omega arith

read_packet_ok_example : Packet small (1 ∷ 2 ∷ 0xfd ∷ []) []
read_packet_ok_example = read_packet_ok small [] (reader [] []) (1 ∷ 2 ∷ 0xfd ∷ []) read_small

read_packet-write_packet_example :
    read_packet (
      reader
        ((write_packet (record { frame = 9 ∷ [] }) (1 ∷ 2 ∷ 0xfd ∷ [])).0.frame ++ (7 ∷ []))
        [])
    ≡ (reader (7 ∷ []) [], ok (1 ∷ 2 ∷ 0xfd ∷ []))
read_packet-write_packet_example =
    read_packet-write_packet (9 ∷ []) (1 ∷ 2 ∷ 0xfd ∷ []) (7 ∷ []) [] (omega arith) three_bytes

read_packet_truncated_example :
    (read_packet (reader (0x55 ∷ 9 ∷ 1 ∷ 2 ∷ []) [])
      ≡ (reader (9 ∷ 1 ∷ 2 ∷ []) [], err invalid_checksum))
    ⊎ (read_packet (reader (0x55 ∷ 9 ∷ 1 ∷ 2 ∷ []) []) ≡ (reader (9 ∷ 1 ∷ 2 ∷ []) [], panic))
unfolding parse_header
read_packet_truncated_example =
    read_packet_truncated [] (9 ∷ 1 ∷ 2 ∷ []) [] 1 9 tt refl (omega arith)

read_packet_256_example :
    read_packet (reader (write_packet new_packet_writer (replicate 256 1)).0.frame [])
    ≢ (reader [] [], ok (replicate 256 1))
read_packet_256_example =
    read_packet_256 (replicate 256 1) [] (reader [] []) (length-replicate {A = ℕ} 256 1)

read_packets_total_example :
    (results : List (Result (List ℕ))) × (read_packets 7 (reader small []) ≡ some results)
read_packets_total_example = read_packets_total 7 small [] (omega arith)

read_packets-write_packets_example :
    read_packets 3 (
      reader
        ((write_packets new_packet_writer ((1 ∷ 2 ∷ 0xfd ∷ []) ∷ (1 ∷ 2 ∷ 0xfd ∷ []) ∷ [])).frame
          ++ (0 ∷ 0 ∷ []))
        [])
    ≡ some (ok (1 ∷ 2 ∷ 0xfd ∷ []) ∷ ok (1 ∷ 2 ∷ 0xfd ∷ []) ∷ [])
read_packets-write_packets_example =
    read_packets-write_packets 3 ((1 ∷ 2 ∷ 0xfd ∷ []) ∷ (1 ∷ 2 ∷ 0xfd ∷ []) ∷ []) (0 ∷ 0 ∷ []) []
      (three_bytes, (three_bytes, tt)) (omega arith) (omega arith)
