-- ===== src/Wire.antt =====
-- What the program uses of Go's encoding/binary: fixed-size structs in big-endian order.
pub mod Laws
use ipod.Base.{
  ℕ, zero, suc, ◌+◌, ◌-◌, ◌*◌, ◌/◌, ◌%◌, ◌^◌, ◌≤◌, ◌<◌, min, ◌≡◌, refl, sym, ap, ◌∙◌, subst, ◌≢◌,
  ◌⊎◌, inl, inr, Bool, true, false, ◌&&◌, ◌||◌, not, Option, none, some, List, [], ◌∷◌, ◌++◌, map,
  append-nil, append_assoc, arith, Result, ok, err, panic, ◌>>=◌, Error, eof, unexpected_eof,
  not_fixed_size, is_eof, ltb, leb, ◌==◌, if◌then◌else◌, Bool-cases, Option-cases, ==_iff, length,
  get_or, take, drop, replicate, All, length-append, All-append, Result-cases,
}

-- The kinds of fields of the payload structs: unsigned integers, and a slice or an interface, which
-- has no fixed size.
pub data Width : Type 0 where
  byte short word long slice : Width

-- The fields of an array of bytes.
abbrev pub array : ℕ → List Width
array n = replicate n byte

abbrev pub be16 : ℕ → List ℕ
be16 v = (v / 256 % 256) ∷ (v % 256) ∷ []

abbrev pub be32 : ℕ → List ℕ
be32 v = (v / 16777216 % 256) ∷ (v / 65536 % 256) ∷ (v / 256 % 256) ∷ (v % 256) ∷ []

abbrev pub be64 : ℕ → List ℕ
be64 v = be32 (v / 4294967296) ++ be32 v

abbrev pub field_size : Width → Option ℕ
field_size byte = some 1
field_size short = some 2
field_size word = some 4
field_size long = some 8
field_size slice = none

abbrev pub plus : Option ℕ → Option ℕ → Option ℕ
plus (some a) (some b) = some (a + b)
plus _ _ = none

-- `binary.Size`; `none` is -1.
unfoldable pub binary_size : List Width → Option ℕ
binary_size [] = some 0
binary_size (w ∷ ws) = plus (field_size w) (binary_size ws)

abbrev pub write_field : Width → ℕ → List ℕ
write_field byte v = (v % 256) ∷ []
write_field short v = be16 v
write_field word v = be32 v
write_field long v = be64 v
write_field slice v = []

-- The fields of a struct one after the other.
unfoldable pub write_fields : List Width → List ℕ → List ℕ
write_fields (w ∷ ws) (v ∷ vs) = write_field w v ++ write_fields ws vs
write_fields _ _ = []

-- `binary.Write`, which refuses a struct with a slice in it and then writes nothing.
unfoldable pub binary_write : List Width → List ℕ → Result (List ℕ)
unfolding binary_size write_fields
binary_write ws vs = elim (binary_size ws) [
  | none ↦ err not_fixed_size
  | some n ↦ ok (write_fields ws vs)
]

-- A field off the front of bytes, and the bytes behind it.
abbrev pub read_field : Width → List ℕ → Option (ℕ × List ℕ)
read_field byte (a ∷ rest) = some (a, rest)
read_field short (a ∷ b ∷ rest) = some (a * 256 + b, rest)
read_field word (a ∷ b ∷ c ∷ d ∷ rest) = some (a * 16777216 + b * 65536 + c * 256 + d, rest)
read_field long (a ∷ b ∷ c ∷ d ∷ e ∷ f ∷ g ∷ h ∷ rest) = some (
  (a * 16777216 + b * 65536 + c * 256 + d) * 4294967296 + (e * 16777216 + f * 65536 + g * 256 + h),
  rest,
)
read_field _ _ = none

unfoldable pub read_fields : List Width → List ℕ → Option (List ℕ × List ℕ)
read_fields [] bytes = some ([], bytes)
read_fields (w ∷ ws) bytes = elim (read_field w bytes) [
  | none ↦ none
  | some (v, rest) ↦ elim (read_fields ws rest) [
    | none ↦ none
    | some (vs, rest') ↦ some (v ∷ vs, rest')
  ]
]

-- io.ReadFull's error on too few bytes.
abbrev pub short_read : List ℕ → Error
short_read [] = eof
short_read (b ∷ bs) = unexpected_eof

-- `binary.Read` from a buffer: the fields, and the bytes that are left. No bytes are wanted for a
-- struct without fields.
unfoldable pub binary_read : List Width → List ℕ → Result (List ℕ × List ℕ)
unfolding binary_size read_fields
binary_read ws bytes = elim (binary_size ws) [
  | none ↦ err not_fixed_size
  | some n ↦ elim (read_fields ws bytes) [ none ↦ err (short_read bytes) | some got ↦ ok got ]
]
