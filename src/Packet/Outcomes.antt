-- ===== src/Packet/Outcomes.antt =====
-- The outcomes of `ReadPacket` of packet.go, and when it reports the end of the frame.
use ipod.Base.{
  ℕ, ◌+◌, ◌<◌, ◌≡◌, ◌≢◌, refl, ap, ◌∙◌, List, [], ◌∷◌, ◌++◌, none, Result, ok, err, panic, arith,
  length, length-append, All, inl, inr, ◌⊎◌, eof, invalid_checksum, unexpected_eof, Bool-cases, leb,
  leb→le, ◌↔◌, Error, ◌==◌,
}
use ipod.Checksum.{checksum}
use ipod.Packet.{
  PacketReader, packet_start_byte, index_byte, parse_header, parse_packet, take_packet, read_packet,
}
use ipod.Packet.Parts.{
  NotStart, three_parts, take_packet_short, take_packet_parts, parse_header_cases, frame_cases,
  read_packet_at,
}
use ipod.Packet.Reading.{reader, take_packet_headless}

-- What a read behind a start byte can give.
pub data Outcome (back spare : List ℕ) (r : PacketReader × Result (List ℕ)) : Type 0 where
  got :
      (rest p : List ℕ)
      → length rest < length back
      → r ≡ (reader rest spare, ok p)
      → Outcome back spare r
  refused : (e : Error) → e ≢ eof → r ≡ (reader back spare, err e) → Outcome back spare r
  crashed : r ≡ (reader back spare, panic) → Outcome back spare r

take_packet-Outcome :
    (back spare : List ℕ)
    → Outcome back spare (take_packet (reader back spare) (parse_packet (reader back spare).frame))
take_packet-Outcome back spare = elim (parse_header_cases back) [
  | inr missing ↦ refused unexpected_eof (λ p. cc) (take_packet_headless back spare missing)
  | inl (off, len, hdr, _) ↦ elim (Bool-cases (leb (off + len + 1) (length back))) [
    | inr short ↦ elim (take_packet_short back spare off len hdr (ground arith)) [
      | inl wrong ↦ refused invalid_checksum (λ p. cc) wrong
      | inr beyond ↦ crashed beyond
    ]
    | inl enough ↦
        let (header, mid, check, rest, split, a, b) =
          three_parts off len back (leb→le _ _ enough) in
        let announced : parse_header back ≡ ok (length header, length mid) = rw (a, b) hdr in
        rw split (whole header mid check rest (rw split at announced))
  ]
]
  where
    whole :
        (header mid : List ℕ) (check : ℕ) (rest : List ℕ)
        → parse_header (header ++ (mid ++ (check ∷ rest))) ≡ ok (length header, length mid)
        → let back' = header ++ (mid ++ (check ∷ rest)) in
          Outcome back' spare
            (take_packet (reader back' spare) (parse_packet (reader back' spare).frame))
    whole header mid check rest h =
        elim (Bool-cases (checksum (header ++ (mid ++ (check ∷ []))) == 0)) [
          | inl good ↦
              got rest mid
                (omega (
                  arith,
                  length-append header (mid ++ (check ∷ rest)),
                  length-append mid (check ∷ rest),
                ))
                (take_packet_parts header mid check rest spare h ∙ rw good)
          | inr bad ↦
              refused invalid_checksum (λ p. cc)
                (take_packet_parts header mid check rest spare h ∙ rw bad)
        ]

nothing_left : (xs : List ℕ) → index_byte packet_start_byte xs ≡ none → All NotStart xs
unfolding index_byte
nothing_left [] e = tt
nothing_left (x ∷ xs) e = elim (Bool-cases (x == packet_start_byte)) [
  | inl hit ↦ absurd (ground arith)
  | inr miss ↦ (ground arith, nothing_left xs (ground arith))
]

skipped_ends : (xs : List ℕ) → All NotStart xs → index_byte packet_start_byte xs ≡ none
unfolding index_byte
skipped_ends [] h = refl
skipped_ends (x ∷ xs) h = ground (arith, skipped_ends xs h.1)

-- What a read can give: the end of the frame, or an outcome behind its first start byte.
pub read_packet_cases :
    (xs spare : List ℕ)
    → (All NotStart xs × (read_packet (reader xs spare) ≡ (reader xs spare, err eof)))
      ⊎ ((back : List ℕ) × (length back < length xs)
          × Outcome back spare (read_packet (reader xs spare)))
read_packet_cases xs spare = elim (frame_cases xs) [
  | inl absent ↦ inl (nothing_left xs absent, unfold read_packet in rw (absent, read_packet))
  | inr (front, back, split, clean) ↦ inr (
    back,
    omega (arith, ap length split, length-append front (packet_start_byte ∷ back)),
    rw (split, read_packet_at front back spare clean) (take_packet-Outcome back spare),
  )
]

-- A read ends the frame by io.EOF exactly when no start byte is left, and then keeps the reader.
pub read_packet_eof :
    (xs spare : List ℕ) (pd' : PacketReader)
    → (read_packet (reader xs spare) ≡ (pd', err eof)) ↔ (All NotStart xs × (pd' ≡ reader xs spare))
read_packet_eof xs spare pd' = (forth (read_packet_cases xs spare), back)
  where
    forth :
        (All NotStart xs × (read_packet (reader xs spare) ≡ (reader xs spare, err eof)))
          ⊎ ((back : List ℕ) × (length back < length xs)
              × Outcome back spare (read_packet (reader xs spare)))
        → read_packet (reader xs spare) ≡ (pd', err eof)
        → All NotStart xs × (pd' ≡ reader xs spare)
    forth (inl (clean, e)) h = (clean, cc)
    forth (inr (back, _, got rest p _ e)) h = absurd (cc)
    forth (inr (back, _, refused x ne e)) h = absurd (ne (cc))
    forth (inr (back, _, crashed e)) h = absurd (cc)

    back :
        All NotStart xs × (pd' ≡ reader xs spare) → read_packet (reader xs spare) ≡ (pd', err eof)
    back (clean, e) = unfold read_packet in rw (skipped_ends xs clean, read_packet, e)
