-- ===== src/Packet.antt =====
-- packet.go: packets in a frame, and the loop of cmd/ipod/main.go that reads a whole frame.
pub mod Parts
pub mod Reading
pub mod Outcomes
pub mod RoundTrip
pub mod Truncation
pub mod Draining
mod Runs
use mathlib.Core.Option
use ipod.Base.{
  ℕ, zero, suc, ◌+◌, ◌*◌, ◌/◌, ◌%◌, Bool, List, [], ◌∷◌, ◌++◌, Option, none, some, Result, ok, err,
  panic, ◌>>=◌, Error, unexpected_eof, eof, invalid_checksum, empty_packet, length, ltb, ◌==◌,
  if◌then◌else◌, is_eof,
}
use ipod.Checksum.{checksum}
use ipod.Slices.{Slice, reslice, sub_slice, slice_from}

abbrev pub packet_start_byte : ℕ
packet_start_byte = 0x55

abbrev pub large_packet_min_len : ℕ
large_packet_min_len = 256

-- `binary.BigEndian.Uint16`
abbrev pub uint16 : ℕ → ℕ → ℕ
uint16 hi lo = hi * 256 + lo

-- The offset and the length of the payload.
unfoldable pub parse_header : List ℕ → Result (ℕ × ℕ)
parse_header (a ∷ b ∷ c ∷ rest) = if a == 0 then ok (3, uint16 b c) else ok (1, a)
parse_header input = err unexpected_eof

-- The payload of a whole packet, if its checksum is right.
unfoldable pub parse_payload : Slice → ℕ → ℕ → ℕ → Result (ℕ × List ℕ)
parse_payload pkt pkt_len pay_off pay_len =
    if checksum pkt.bytes == 0
    then sub_slice pkt pay_off (pay_off + pay_len) >>= (λ payload. ok (pkt_len, payload.bytes))
    else err invalid_checksum

-- What follows the header. `data[:pktLen]` panics beyond the capacity and may reach beyond the
-- length, so the test `len(pkt) < pktLen` never passes.
unfoldable pub parse_body : Slice → ℕ → ℕ → Result (ℕ × List ℕ)
unfolding parse_payload
parse_body input pay_off pay_len = do
  let pkt_len = pay_off + pay_len + 1
  pkt ← reslice input pkt_len
  if ltb (length pkt.bytes) pkt_len
      then err unexpected_eof
      else parse_payload pkt pkt_len pay_off pay_len

-- On errors Go also returns the packet's length, which the one caller drops.
unfoldable pub parse_packet : Slice → Result (ℕ × List ℕ)
parse_packet input =
    parse_header input.bytes >>= λ (pay_off, pay_len). parse_body input pay_off pay_len

pub record PacketReader : Type 0 where
  pub frame : Slice

unfoldable pub new_packet_reader : Slice → PacketReader
new_packet_reader frame = record { frame = frame }

-- `bytes.IndexByte`; `none` is -1.
unfoldable pub index_byte : ℕ → List ℕ → Option ℕ
index_byte b [] = none
index_byte b (x ∷ xs) = if x == b then some 0 else Option.map suc (index_byte b xs)

-- `pd.frame = …`, and what follows; a panic leaves the reader as it is.
abbrev pub with_frame :
    PacketReader
    → Result Slice
    → (PacketReader → PacketReader × Result (List ℕ))
    → PacketReader × Result (List ℕ)
with_frame pd (ok frame) next = next (record { frame = frame })
with_frame pd (err e) next = (pd, err e)
with_frame pd panic next = (pd, panic)

-- The part of `ReadPacket` behind `parsePacket`, whose result it is given.
unfoldable pub take_packet : PacketReader → Result (ℕ × List ℕ) → PacketReader × Result (List ℕ)
take_packet pd (ok (pkt_len, payload)) =
    with_frame pd (slice_from pd.frame pkt_len) λ pd'. (pd', ok payload)
take_packet pd (err e) = (pd, err e)
take_packet pd panic = (pd, panic)

unfoldable pub read_packet : PacketReader → PacketReader × Result (List ℕ)
unfolding take_packet
read_packet pd = elim (index_byte packet_start_byte pd.frame.bytes) [
  | none ↦ (pd, err eof)
  | some next ↦
      with_frame pd (slice_from pd.frame (next + 1)) λ pd'. take_packet pd' (parse_packet pd'.frame)
]

pub record PacketWriter : Type 0 where
  pub frame : List ℕ

unfoldable pub new_packet_writer : PacketWriter
new_packet_writer = record { frame = [] }

-- The length field: three bytes for a long payload, the first of them 0, and one byte otherwise.
unfoldable pub length_field : ℕ → List ℕ
length_field n =
    if ltb large_packet_min_len n then 0 ∷ (n % 65536 / 256) ∷ (n % 256) ∷ [] else (n % 256) ∷ []

unfoldable pub write_packet : PacketWriter → List ℕ → PacketWriter × Result (Unit {0})
unfolding length_field
write_packet pw [] = (pw, err empty_packet)
write_packet pw (b ∷ bs) =
    let body = length_field (length (b ∷ bs)) ++ (b ∷ bs) in
    (record { frame = pw.frame ++ (packet_start_byte ∷ (body ++ (checksum body ∷ []))) }, ok tt)

unfoldable pub bytes : PacketWriter → List ℕ
bytes pw = pw.frame

-- The loop of `processFrames` over one frame: it goes on behind every error but io.EOF, and a panic
-- ends the program. `none` means that the fuel ran out.
unfoldable pub read_packets : ℕ → PacketReader → Option (List (Result (List ℕ)))
read_packets zero pd = none
read_packets (suc fuel) pd =
    let (pd', result) = read_packet pd in
    let rest = read_packets fuel pd' in
    elim result [
      | ok payload ↦ Option.map (◌∷◌ (ok payload)) rest
      | err e ↦ if is_eof e then some [] else Option.map (◌∷◌ (err e)) rest
      | panic ↦ some (panic ∷ [])
    ]
