-- ===== src/Packet/Parts.antt =====
-- A frame taken apart as packet.go takes it: noise, start byte, header, payload, checksum, rest.
use ipod.Base.{
  ℕ, zero, suc, ◌+◌, ◌≤◌, ◌<◌, ◌≡◌, ◌≢◌, refl, sym, ap, List, [], ◌∷◌, ◌++◌, none, some, ok, err,
  panic, arith, length, take, drop, length-append, Bool-cases, Option-cases, inl, inr, ◌⊎◌, ==_iff,
  ◌==◌, append_assoc, All, if◌then◌else◌, invalid_checksum, unexpected_eof,
}
use ipod.Checksum.{checksum}
use ipod.Slices.{
  Slice, reslice_split, slice_from_split, reslice_cases, sub_slice_within, slice_from_beyond,
  sub_slice_split,
}
use ipod.Packet.{
  PacketReader, packet_start_byte, index_byte, parse_header, parse_body, parse_payload,
  parse_packet, take_packet, read_packet, uint16,
}

-- A list of enough elements in three parts, of which the last begins with one element more.
pub three_parts :
    (a b : ℕ) (xs : List ℕ)
    → a + b + 1 ≤ length xs
    → (front mid : List ℕ) × (c : ℕ) × (back : List ℕ) × (xs ≡ front ++ (mid ++ (c ∷ back)))
      × (length front ≡ a)
      × (length mid ≡ b)
three_parts zero zero [] h = absurd (omega arith)
three_parts zero zero (x ∷ xs) h = ([], [], x, xs, refl, refl, refl)
three_parts zero (suc b) [] h = absurd (omega arith)
three_parts zero (suc b) (x ∷ xs) h =
    let (front, mid, c, back, e, p, q) = three_parts zero b xs (omega arith) in
    (
      [],
      x ∷ (front ++ mid),
      c,
      back,
      rw e (ap (◌∷◌ x) (sym (append_assoc front mid (c ∷ back)))),
      refl,
      omega (arith, length-append front mid),
    )
three_parts (suc a) b [] h = absurd (omega arith)
three_parts (suc a) b (x ∷ xs) h =
    let (front, mid, c, back, e, p, q) = three_parts a b xs (omega arith) in
    (x ∷ front, mid, c, back, ap (◌∷◌ x) e, omega arith, q)

regroup :
    (hdr payload : List ℕ) (c : ℕ) (back : List ℕ)
    → hdr ++ (payload ++ (c ∷ back)) ≡ (hdr ++ (payload ++ (c ∷ []))) ++ back
regroup hdr payload c back = simp append_assoc

pub length-parts :
    (hdr payload : List ℕ) (c : ℕ)
    → length (hdr ++ (payload ++ (c ∷ []))) ≡ length hdr + length payload + 1
length-parts hdr payload c =
    omega (arith, length-append hdr (payload ++ (c ∷ [])), length-append payload (c ∷ []))

-- The body of a packet whose three parts are at hand.
pub parse_body_parts :
    (hdr payload : List ℕ) (c : ℕ) (back spare : List ℕ) (off len : ℕ)
    → length hdr ≡ off
    → length payload ≡ len
    → parse_body (record { bytes = hdr ++ (payload ++ (c ∷ back)); spare = spare }) off len ≡ (
        if checksum (hdr ++ (payload ++ (c ∷ []))) == 0
        then ok (off + len + 1, payload)
        else err invalid_checksum)
unfolding parse_body
parse_body_parts hdr payload c back spare off len h k =
    rw
      (
        regroup hdr payload c back,
        reslice_split (hdr ++ (payload ++ (c ∷ []))) back spare (off + len + 1) size,
        size,
      )
      (rw (sub_slice_split hdr payload (c ∷ []) (back ++ spare) off (off + len) h (omega arith))
        (ground arith))
  where
    size : length (hdr ++ (payload ++ (c ∷ []))) ≡ off + len + 1
    size = omega (arith, length-parts hdr payload c)

-- The first parse of what stands behind a start byte.
pub parse_packet_parts :
    (hdr payload : List ℕ) (c : ℕ) (back spare : List ℕ)
    → parse_header (hdr ++ (payload ++ (c ∷ back))) ≡ ok (length hdr, length payload)
    → parse_packet (record { bytes = hdr ++ (payload ++ (c ∷ back)); spare = spare }) ≡ (
        if checksum (hdr ++ (payload ++ (c ∷ []))) == 0
        then ok (length hdr + length payload + 1, payload)
        else err invalid_checksum)
unfolding parse_packet
parse_packet_parts hdr payload c back spare e =
    rw e (parse_body_parts hdr payload c back spare (length hdr) (length payload) refl refl)

parse_body_size :
    (input : Slice) (off len : ℕ) {n : ℕ} {p : List ℕ}
    → parse_body input off len ≡ ok (n, p)
    → n ≡ off + len + 1
unfolding parse_body parse_payload
parse_body_size input off len e = ground arith

abbrev pub NotStart : ℕ → Type 0
NotStart x = x ≢ packet_start_byte

-- The position that `index_byte` gives, and what stands there.
index_byte_split :
    (xs : List ℕ) {i : ℕ}
    → index_byte packet_start_byte xs ≡ some i
    → (front back : List ℕ) × (xs ≡ front ++ (packet_start_byte ∷ back))
      × (length front ≡ i)
      × All NotStart front
unfolding index_byte
index_byte_split [] e = cc
index_byte_split (x ∷ xs) e = elim (Bool-cases (x == packet_start_byte)) [
  | inl hit ↦ ([], xs, ap (λ (t : ℕ). t ∷ xs) ((==_iff _ _).0 hit), ground arith, tt)
  | inr miss ↦ elim (Option-cases (index_byte packet_start_byte xs)) [
    | inl absent ↦ absurd (ground (arith))
    | inr (j, found) ↦
        let (front, back, split, len, clean) = index_byte_split xs found in
        (x ∷ front, back, ap (◌∷◌ x) split, ground arith, (ground arith, clean))
  ]
]

pub index_byte_at :
    (front back : List ℕ)
    → All NotStart front
    → index_byte packet_start_byte (front ++ (packet_start_byte ∷ back)) ≡ some (length front)
unfolding index_byte
index_byte_at [] back h = refl
index_byte_at (x ∷ front) back h = ground (arith, index_byte_at front back h.1)

-- A read skips everything up to the first start byte.
pub read_packet_at :
    (front back spare : List ℕ)
    → All NotStart front
    → let pd : PacketReader = record { frame = record { bytes = back; spare = spare } } in
      read_packet
        (record { frame = record { bytes = front ++ (packet_start_byte ∷ back); spare = spare } })
      ≡ take_packet pd (parse_packet pd.frame)
unfolding read_packet
read_packet_at front back spare h =
    rw (index_byte_at front back h, read_packet)
      (rw (← append_assoc front (packet_start_byte ∷ []) back) (
        rw (
          slice_from_split (front ++ (packet_start_byte ∷ [])) back spare (length front + 1)
            (omega (arith, length-append front (packet_start_byte ∷ []))))))

-- `take_packet` behind the parse of a whole packet.
pub take_packet_parts :
    (hdr payload : List ℕ) (c : ℕ) (back spare : List ℕ)
    → parse_header (hdr ++ (payload ++ (c ∷ back))) ≡ ok (length hdr, length payload)
    → let pd : PacketReader = record {
      frame = record { bytes = hdr ++ (payload ++ (c ∷ back)); spare = spare };
    } in
      take_packet pd (parse_packet pd.frame) ≡ (
        if checksum (hdr ++ (payload ++ (c ∷ []))) == 0
        then (record { frame = record { bytes = back; spare = spare } }, ok payload)
        else (pd, err invalid_checksum))
unfolding take_packet
take_packet_parts hdr payload c back spare e =
    rw (parse_packet_parts hdr payload c back spare e)
      (elim (Bool-cases (checksum (hdr ++ (payload ++ (c ∷ []))) == 0)) [
        | inl good ↦ rw good (
            rw (
              regroup hdr payload c back,
              slice_from_split (hdr ++ (payload ++ (c ∷ []))) back spare
                  (length hdr + length payload + 1) (length-parts hdr payload c),
            ))
        | inr bad ↦ rw bad
      ])

pub take_parts_ok :
    (header mid : List ℕ) (check : ℕ) (rest spare : List ℕ) (pd' : PacketReader) (payload : List ℕ)
    → let pd : PacketReader = record {
      frame = record { bytes = header ++ (mid ++ (check ∷ rest)); spare = spare };
    } in
      parse_header pd.frame.bytes ≡ ok (length header, length mid)
      → take_packet pd (parse_packet pd.frame) ≡ (pd', ok payload)
      → (mid ≡ payload)
        × (pd'.frame.bytes ≡ rest)
        × (checksum (header ++ (mid ++ (check ∷ []))) ≡ 0)
take_parts_ok header mid check rest spare pd' payload h e =
    let e' = rw (take_packet_parts header mid check rest spare h) at e in ground (arith, e')

-- The body is parsed to its own size, or its checksum is wrong, or it lies beyond the capacity.
pub parse_body_cases :
    (input : Slice) (off len : ℕ)
    → ((p : List ℕ) × (parse_body input off len ≡ ok (off + len + 1, p)))
      ⊎ ((parse_body input off len ≡ err invalid_checksum) ⊎ (parse_body input off len ≡ panic))
unfolding parse_body parse_payload
parse_body_cases input off len = elim (reslice_cases input (off + len + 1)) [
  | inl beyond ↦ inr (inr (rw beyond))
  | inr (pkt, within, size) ↦ elim (Bool-cases (checksum pkt.bytes == 0)) [
    | inl good ↦
        inl
          ((payload pkt), rw (within, size, good, sub_slice_within pkt off len size) (ground arith))
    | inr bad ↦ inr (inl (rw (within, size, bad) (ground arith)))
  ]
]
  where
    payload : Slice → List ℕ
    payload pkt = drop off (take (off + len) (pkt.bytes ++ pkt.spare))

-- Beyond the length nothing is read: either the parse fails, or the reader panics behind it.
pub take_packet_short :
    (back spare : List ℕ) (off len : ℕ)
    → let pd : PacketReader = record { frame = record { bytes = back; spare = spare } } in
      parse_header back ≡ ok (off, len)
      → length back < off + len + 1
      → (take_packet pd (parse_packet pd.frame) ≡ (pd, err invalid_checksum))
        ⊎ (take_packet pd (parse_packet pd.frame) ≡ (pd, panic))
unfolding take_packet parse_packet
take_packet_short back spare off len hdr short =
    let input : Slice = record { bytes = back; spare = spare } in
    elim (parse_body_cases input off len) [
      | inl (p, e) ↦ inr (rw (hdr, e, slice_from_beyond input (off + len + 1) short))
      | inr (inl e) ↦ inl (rw (hdr, e))
      | inr (inr e) ↦ inr (rw (hdr, e))
    ]

pub parse_header_cases :
    (xs : List ℕ)
    → ((off : ℕ) × (len : ℕ) × (parse_header xs ≡ ok (off, len))
        × ((off ≡ 1) ⊎ ((off ≡ 3) × (3 ≤ length xs))))
      ⊎ (parse_header xs ≡ err unexpected_eof)
unfolding parse_header
parse_header_cases [] = inr refl
parse_header_cases (a ∷ []) = inr refl
parse_header_cases (a ∷ b ∷ []) = inr refl
parse_header_cases (a ∷ b ∷ c ∷ xs) = elim (Bool-cases (a == 0)) [
  | inl e ↦ inl (3, uint16 b c, rw e, inr (refl, omega arith))
  | inr e ↦ inl (1, a, rw e, inl refl)
]

pub frame_cases :
    (xs : List ℕ)
    → (index_byte packet_start_byte xs ≡ none)
      ⊎ ((front : List ℕ) × (back : List ℕ) × (xs ≡ front ++ (packet_start_byte ∷ back))
          × All NotStart front)
frame_cases xs = elim (Option-cases (index_byte packet_start_byte xs)) [
  | inl absent ↦ inl absent
  | inr (i, found) ↦
      let (front, back, split, len, clean) = index_byte_split xs found in
      inr (front, back, split, clean)
]
