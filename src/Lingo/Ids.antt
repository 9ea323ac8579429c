-- ===== src/Lingo/Ids.antt =====
-- `LingoCmdID` of lingo.go: a lingo and a command in a uint32, and its bytes in a packet.
use ipod.Base.{
  ℕ, ◌+◌, ◌*◌, ◌/◌, ◌%◌, ◌^◌, ◌<◌, ◌≡◌, refl, ap, subst, ◌⊎◌, inl, inr, List, [], ◌∷◌, ◌++◌, arith,
  Result, ok, err, eof, unexpected_eof, ◌==◌, if◌then◌else◌, Bool-cases,
}
use ipod.Wire.{be16}

abbrev pub lingo_general_id : ℕ
lingo_general_id = 0x00

abbrev pub lingo_simple_remote_id : ℕ
lingo_simple_remote_id = 0x02

abbrev pub lingo_display_remote_id : ℕ
lingo_display_remote_id = 0x03

abbrev pub lingo_ext_remote_id : ℕ
lingo_ext_remote_id = 0x04

abbrev pub lingo_digital_audio_id : ℕ
lingo_digital_audio_id = 0x0A

-- `uint8(id >> 16 & 0xff)`
unfoldable pub lingo_id : ℕ → ℕ
lingo_id id = id / 65536 % 256

-- `uint16(id & 0xffff)`
unfoldable pub cmd_id : ℕ → ℕ
cmd_id id = id % 65536

-- `uint32(lingo)<<16 | uint32(cmd)` of two uint16, whose bits do not meet.
unfoldable pub new_lingo_cmd_id : ℕ → ℕ → ℕ
new_lingo_cmd_id lingo cmd = lingo * 65536 + cmd

unfoldable pub cmd_id_len : ℕ → ℕ
cmd_id_len lingo = if lingo == lingo_ext_remote_id then 2 else 1

-- The bytes that `marshalLingoCmdID` writes; a bytes.Buffer takes them all.
unfoldable pub marshal_lingo_cmd_id : ℕ → List ℕ
unfolding lingo_id cmd_id cmd_id_len
marshal_lingo_cmd_id id =
    lingo_id id
    ∷ (if cmd_id_len (lingo_id id) == 2 then be16 (cmd_id id) else (cmd_id id % 256) ∷ [])

-- The command behind the lingo's byte, and the bytes behind it.
unfoldable pub unmarshal_cmd_id : ℕ → ℕ → List ℕ → Result (ℕ × List ℕ)
unfolding new_lingo_cmd_id
unmarshal_cmd_id lingo len [] = err eof
unmarshal_cmd_id lingo len (a ∷ []) =
    if len == 2 then err unexpected_eof else ok (new_lingo_cmd_id lingo a, [])
unmarshal_cmd_id lingo len (a ∷ b ∷ rest) =
    if len == 2
    then ok (new_lingo_cmd_id lingo (a * 256 + b), rest)
    else ok (new_lingo_cmd_id lingo a, b ∷ rest)

unfoldable pub unmarshal_lingo_cmd_id : List ℕ → Result (ℕ × List ℕ)
unfolding unmarshal_cmd_id cmd_id_len
unmarshal_lingo_cmd_id [] = err eof
unmarshal_lingo_cmd_id (lingo ∷ rest) = unmarshal_cmd_id lingo (cmd_id_len lingo) rest

-- An id of a lingo and a command that its packets have room for.
pub record ValidId (id : ℕ) : Type 0 where
  pub lingo : ℕ
  pub cmd : ℕ
  pub id_lem : id ≡ new_lingo_cmd_id lingo cmd
  pub lingo_lt : lingo < 256
  pub cmd_lt : cmd < 256 ^ cmd_id_len lingo

-- Packing a byte and a uint16 loses neither of them.
pub lingo_id-new_lingo_cmd_id :
    (lingo cmd : ℕ)
    → lingo < 256
    → cmd < 65536
    → (lingo_id (new_lingo_cmd_id lingo cmd) ≡ lingo) × (cmd_id (new_lingo_cmd_id lingo cmd) ≡ cmd)
unfolding lingo_id cmd_id new_lingo_cmd_id
lingo_id-new_lingo_cmd_id lingo cmd l c = (omega arith, omega arith)

two_bytes :
    (id : ℕ) (rest : List ℕ) (v : ValidId id)
    → cmd_id_len v.lingo ≡ 2
    → unmarshal_lingo_cmd_id (marshal_lingo_cmd_id id ++ rest) ≡ ok (id, rest)
unfolding unmarshal_lingo_cmd_id marshal_lingo_cmd_id unmarshal_cmd_id
two_bytes id rest v len =
    let c : v.cmd < 65536 = subst (λ n. v.cmd < 256 ^ n) len v.cmd_lt in
    let parts = lingo_id-new_lingo_cmd_id v.lingo v.cmd v.lingo_lt c in
    rw (v.id_lem, parts.0, parts.1, len) (behind c)
  where
    behind :
        v.cmd < 65536
        → unmarshal_cmd_id v.lingo 2 (be16 v.cmd ++ rest)
          ≡ ok (new_lingo_cmd_id v.lingo v.cmd, rest)
    behind c = ap (λ x. ok (new_lingo_cmd_id v.lingo x, rest)) (omega arith)

one_byte :
    (id : ℕ) (rest : List ℕ) (v : ValidId id)
    → cmd_id_len v.lingo ≡ 1
    → unmarshal_lingo_cmd_id (marshal_lingo_cmd_id id ++ rest) ≡ ok (id, rest)
unfolding unmarshal_lingo_cmd_id marshal_lingo_cmd_id unmarshal_cmd_id
one_byte id rest v len =
    let c : v.cmd < 256 = subst (λ n. v.cmd < 256 ^ n) len v.cmd_lt in
    let parts = lingo_id-new_lingo_cmd_id v.lingo v.cmd v.lingo_lt (omega arith) in
    rw (v.id_lem, parts.0, parts.1, len) (behind rest c)
  where
    behind :
        (more : List ℕ)
        → v.cmd < 256
        → unmarshal_cmd_id v.lingo 1 ((v.cmd % 256) ∷ more)
          ≡ ok (new_lingo_cmd_id v.lingo v.cmd, more)
    behind [] c = ap (λ x. ok (new_lingo_cmd_id v.lingo x, [])) (omega arith)
    behind (b ∷ more) c = ap (λ x. ok (new_lingo_cmd_id v.lingo x, b ∷ more)) (omega arith)

cmd_id_len_cases : (lingo : ℕ) → (cmd_id_len lingo ≡ 2) ⊎ (cmd_id_len lingo ≡ 1)
unfolding cmd_id_len
cmd_id_len_cases lingo = elim (Bool-cases (lingo == lingo_ext_remote_id)) [
  | inl hit ↦ inl (rw hit refl)
  | inr miss ↦ inr (rw miss refl)
]

-- A command id written at the front of a packet is read back, and the payload behind it is left: one
-- byte for the command in all lingoes but the extended remote, which has two.
pub unmarshal_lingo_cmd_id-marshal_lingo_cmd_id :
    (id : ℕ) (rest : List ℕ)
    → ValidId id
    → unmarshal_lingo_cmd_id (marshal_lingo_cmd_id id ++ rest) ≡ ok (id, rest)
unmarshal_lingo_cmd_id-marshal_lingo_cmd_id id rest v = elim (cmd_id_len_cases v.lingo) [
  | inl two ↦ two_bytes id rest v two
  | inr one ↦ one_byte id rest v one
]
