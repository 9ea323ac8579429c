-- ===== src/SimpleRemote/Buttons.antt =====
-- lingo-simpleremote/simpleremote.go: `ButtonStates`, a mask of up to 32 buttons in as few bytes as
-- its highest bit takes, the lowest byte first.
use ipod.Base.{
  ℕ, zero, suc, ◌+◌, ◌*◌, ◌/◌, ◌%◌, List, [], ◌∷◌, ◌++◌, Result, ok, err, invalid_data, ◌==◌, ◌-◌,
  if◌then◌else◌, length, take, replicate,
}

-- `bits.Len32`: the number of bits up to the highest one that is set; a uint32 has 32.
unfoldable pub bit_len : ℕ → ℕ → ℕ
bit_len zero v = 0
bit_len (suc fuel) v = let rest = bit_len fuel (v / 2) in if v == 0 then 0 else suc rest

abbrev pub len32 : ℕ → ℕ
unfolding bit_len
len32 v = bit_len 32 v

-- `binary.LittleEndian.PutUint32` into four bytes
abbrev pub le32 : ℕ → List ℕ
le32 v = (v % 256) ∷ (v / 256 % 256) ∷ (v / 65536 % 256) ∷ (v / 16777216 % 256) ∷ []

-- `binary.LittleEndian.Uint32` of four bytes
abbrev pub from_le32 : List ℕ → ℕ
from_le32 (a ∷ b ∷ c ∷ d ∷ []) = a + b * 256 + c * 65536 + d * 16777216
from_le32 _ = 0

-- The bytes that so many bits take, and one for none.
unfoldable pub byte_len : ℕ → ℕ
byte_len len = let n = (len + 7) / 8 in if n == 0 then 1 else n

-- `ButtonStates.MarshalBinary`
unfoldable pub marshal_button_states : ℕ → List ℕ
unfolding byte_len bit_len
marshal_button_states states = take (byte_len (len32 states)) (le32 states)

-- `ButtonStates.UnmarshalBinary`: at most four bytes are copied to the mask, whose other bytes are 0.
unfoldable pub unmarshal_button_states : List ℕ → Result ℕ
unmarshal_button_states [] = err invalid_data
unmarshal_button_states (b ∷ bs) =
    let copied = take 4 (b ∷ bs) in ok (from_le32 (copied ++ replicate (4 - length copied) 0))
