-- ===== src/Wire/Laws.antt =====
-- encoding/binary: structs of fixed size, written and read back.
use ipod.Base.{
  ℕ, ◌<◌, ◌≡◌, refl, ap, some, List, [], ◌∷◌, ◌++◌, append_assoc, arith, ok, length, length-append,
}
use ipod.Wire.{
  Width, byte, short, word, long, slice, field_size, binary_size, write_field, write_fields,
  binary_write, read_field, read_fields, binary_read,
}

-- A value that a field can hold.
abbrev pub InRange : Width → ℕ → Type 0
InRange byte v = v < 256
InRange short v = v < 65536
InRange word v = v < 4294967296
InRange long v = v < 18446744073709551616
InRange slice v = ⊥

-- Values for all fields.
abbrev pub Fill : List Width → List ℕ → Type 0
Fill [] [] = Unit {0}
Fill (w ∷ ws) (v ∷ vs) = InRange w v × Fill ws vs
Fill _ _ = ⊥

read_field-write_field :
    (w : Width) (v : ℕ) (rest : List ℕ)
    → InRange w v
    → read_field w (write_field w v ++ rest) ≡ some (v, rest)
read_field-write_field byte v rest h = ap (λ x. some (x, rest)) (omega arith)
read_field-write_field short v rest h = ap (λ x. some (x, rest)) (omega arith)
read_field-write_field word v rest h = ap (λ x. some (x, rest)) (omega arith)
read_field-write_field long v rest h = ap (λ x. some (x, rest)) (omega arith)
read_field-write_field slice v rest h = elim h [ ]

pub read_fields-write_fields :
    (ws : List Width) (vs rest : List ℕ)
    → Fill ws vs
    → read_fields ws (write_fields ws vs ++ rest) ≡ some (vs, rest)
unfolding read_fields write_fields
read_fields-write_fields [] [] rest h = refl
read_fields-write_fields (w ∷ ws) (v ∷ vs) rest h =
    rw
      (
        append_assoc (write_field w v) (write_fields ws vs) rest,
        read_field-write_field w v (write_fields ws vs ++ rest) h.0,
        read_fields-write_fields ws vs rest h.1,
        read_fields,
      )
      refl
read_fields-write_fields [] (v ∷ vs) rest h = elim h [ ]
read_fields-write_fields (w ∷ ws) [] rest h = elim h [ ]

field_size_lem : (w : Width) (v : ℕ) → InRange w v → field_size w ≡ some (length (write_field w v))
field_size_lem byte v h = refl
field_size_lem short v h = refl
field_size_lem word v h = refl
field_size_lem long v h = refl
field_size_lem slice v h = elim h [ ]

-- A struct whose fields can hold their values has a fixed size, which is the number of bytes written.
pub binary_size-write_fields :
    (ws : List Width) (vs : List ℕ)
    → Fill ws vs
    → binary_size ws ≡ some (length (write_fields ws vs))
unfolding binary_size write_fields
binary_size-write_fields [] [] h = refl
binary_size-write_fields (w ∷ ws) (v ∷ vs) h =
    rw
      (
        field_size_lem w v h.0,
        binary_size-write_fields ws vs h.1,
        length-append (write_field w v) (write_fields ws vs),
      )
      refl
binary_size-write_fields [] (v ∷ vs) h = elim h [ ]
binary_size-write_fields (w ∷ ws) [] h = elim h [ ]

-- Values that the fields of a struct can hold are written, in as many bytes as the struct's size, and
-- read back from any bytes that begin with these.
pub binary_read-binary_write :
    (ws : List Width) (vs rest : List ℕ)
    → Fill ws vs
    → (bytes : List ℕ) × (binary_write ws vs ≡ ok bytes)
      × (binary_size ws ≡ some (length bytes))
      × (binary_read ws (bytes ++ rest) ≡ ok (vs, rest))
unfolding binary_write binary_read
binary_read-binary_write ws vs rest h =
    let sized = binary_size-write_fields ws vs h in
    (
      write_fields ws vs,
      rw (sized, binary_write) refl,
      sized,
      rw (sized, read_fields-write_fields ws vs rest h, binary_read) refl,
    )
