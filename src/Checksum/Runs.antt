-- ===== src/Checksum/Runs.antt =====
-- Runs of crc.go, and its theorems at concrete inputs.
use ipod.Base.{ℕ, ◌≡◌, refl, [], ◌∷◌, ◌++◌, arith}
use ipod.Checksum.{reset, write, sum8, checksum}
use ipod.Checksum.Laws.{checksum_detects, sum8-write_pieces}

checksum_fd : checksum (3 ∷ 1 ∷ 2 ∷ 0xfd ∷ []) ≡ 0xfd
unfolding checksum
checksum_fd = refl

checksum_detects_example : ◌≡◌ {A = ℕ} 7 7
checksum_detects_example = checksum_detects (1 ∷ []) 7 7 (2 ∷ []) (omega arith) (omega arith) refl

sum8-write_pieces_example :
    sum8 (write (write (reset (record { crc = 9 })) (3 ∷ [])).0 (1 ∷ 2 ∷ [])).0
    ≡ checksum ((3 ∷ []) ++ (1 ∷ 2 ∷ []))
sum8-write_pieces_example = sum8-write_pieces (record { crc = 9 }) (3 ∷ []) (1 ∷ 2 ∷ [])
