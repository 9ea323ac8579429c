-- ===== src/Checksum/Laws.antt =====
-- What the checksum of crc.go guarantees.
use ipod.Base.{ℕ, ◌+◌, ◌%◌, ◌<◌, ◌≡◌, refl, ◌∙◌, ap, List, [], ◌∷◌, ◌++◌, arith}
use ipod.Checksum.{add_bytes, checksum, Crc8, write, sum8, reset}

pub add_bytes-append :
    (crc : ℕ) (xs ys : List ℕ) → add_bytes crc (xs ++ ys) ≡ add_bytes (add_bytes crc xs) ys
unfolding add_bytes
add_bytes-append crc [] ys = refl
add_bytes-append crc (x ∷ xs) ys = add_bytes-append ((crc + x) % 256) xs ys

pub add_bytes-lt : (crc : ℕ) (xs : List ℕ) → crc < 256 → add_bytes crc xs < 256
unfolding add_bytes
add_bytes-lt crc [] h = h
add_bytes-lt crc (x ∷ xs) h = add_bytes-lt ((crc + x) % 256) xs (omega arith)

pub checksum-lt : (xs : List ℕ) → checksum xs < 256
unfolding checksum
checksum-lt xs = omega arith

-- A packet body followed by its own checksum has the checksum 0.
pub checksum-append_self : (xs : List ℕ) → checksum (xs ++ (checksum xs ∷ [])) ≡ 0
unfolding checksum
checksum-append_self xs =
    rw (add_bytes-append 0 xs (checksum xs ∷ []))
      (unfold add_bytes in omega (arith, add_bytes-lt 0 xs (omega arith)))

-- Adding from another start moves the sum by as much.
add_bytes_shift : (a : ℕ) (xs : List ℕ) → add_bytes (a % 256) xs ≡ (a + add_bytes 0 xs) % 256
unfolding add_bytes
add_bytes_shift a [] = omega arith
add_bytes_shift a (x ∷ xs) =
    ap (λ (t : ℕ). add_bytes t xs) (omega arith)
    ∙ (add_bytes_shift (a + x) xs ∙ omega (arith, add_bytes_shift x xs, add_bytes_shift (0 + x) xs))

add_bytes_middle :
    (xs : List ℕ) (a : ℕ) (ys : List ℕ)
    → add_bytes 0 (xs ++ (a ∷ ys)) ≡ (add_bytes 0 xs + a + add_bytes 0 ys) % 256
unfolding add_bytes
add_bytes_middle xs a ys = add_bytes-append 0 xs (a ∷ ys) ∙ add_bytes_shift (add_bytes 0 xs + a) ys

-- Two bodies that differ in one byte have different checksums.
pub checksum_detects :
    (xs : List ℕ) (a b : ℕ) (ys : List ℕ)
    → a < 256
    → b < 256
    → checksum (xs ++ (a ∷ ys)) ≡ checksum (xs ++ (b ∷ ys))
    → a ≡ b
unfolding checksum
checksum_detects xs a b ys ha hb e = omega (
  arith,
  add_bytes_middle xs a ys,
  add_bytes_middle xs b ys,
  add_bytes-lt 0 (xs ++ (a ∷ ys)) (omega arith),
  add_bytes-lt 0 (xs ++ (b ∷ ys)) (omega arith),
)

-- The running hash, reset and then fed a body in two pieces, gives the checksum of the whole body.
pub sum8-write_pieces :
    (c : Crc8) (xs ys : List ℕ) → sum8 (write (write (reset c) xs).0 ys).0 ≡ checksum (xs ++ ys)
unfolding sum8 write reset checksum
sum8-write_pieces c xs ys = rw (add_bytes-append 0 xs ys)
