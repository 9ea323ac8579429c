-- ===== src/Checksum.antt =====
-- crc.go: the 8-bit additive checksum of a packet, and the same as a running hash.
pub mod Laws
mod Runs
use ipod.Base.{ℕ, ◌+◌, ◌-◌, ◌%◌, List, [], ◌∷◌, ◌++◌, length}

-- The loop `for _, v := range p { crc += v }` on a byte.
unfoldable pub add_bytes : ℕ → List ℕ → ℕ
add_bytes crc [] = crc
add_bytes crc (v ∷ p) = add_bytes ((crc + v) % 256) p

-- `-crc` on a byte.
abbrev pub negate : ℕ → ℕ
negate crc = (256 - crc) % 256

unfoldable pub checksum : List ℕ → ℕ
unfolding add_bytes
checksum p = negate (add_bytes 0 p)

pub record Crc8 : Type 0 where
  pub crc : ℕ

unfoldable pub new_crc8 : Crc8
new_crc8 = record { crc = 0 }

-- The error of `Write` is always nil, so the count alone is returned.
unfoldable pub write : Crc8 → List ℕ → Crc8 × ℕ
unfolding add_bytes
write c p = (record { crc = add_bytes c.crc p }, length p)

unfoldable pub sum8 : Crc8 → ℕ
sum8 c = negate c.crc

unfoldable pub sum : Crc8 → List ℕ → List ℕ
unfolding sum8
sum c input = input ++ (sum8 c ∷ [])

unfoldable pub reset : Crc8 → Crc8
reset c = record c { crc = 0 }

unfoldable pub size : Crc8 → ℕ
size c = 1

unfoldable pub block_size : Crc8 → ℕ
block_size c = 1
