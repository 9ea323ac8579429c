-- ===== src/General/Tokens.antt =====
-- lingo-general/general.go: the identification tokens (FID tokens) and their acknowledgements, and how
-- they are written and read.
use ipod.Base.{
  ℕ, ◌-◌, ◌%◌, ◌||◌, Option, none, some, List, [], ◌∷◌, ◌++◌, Result, ok, err, panic, ◌>>=◌, eof,
  unexpected_eof, unknown_token, unknown_acc_info, ltb, ◌==◌, if◌then◌else◌, length, take, drop,
  replicate,
}
use ipod.Wire.{
  Width, byte, short, word, long, slice, array, be32, binary_size, binary_write, read_field,
  binary_read,
}

pub data FidToken : Type 0 where
  identify_token : (acc_lingoes : List ℕ) (device_options device_id : ℕ) → FidToken
  acc_caps_token : (acc_caps_bitmask : ℕ) → FidToken
  acc_info_token : (acc_info_type : ℕ) (value : List ℕ) → FidToken
  ipod_preference_token : (pref_class pref_class_setting restore_on_exit : ℕ) → FidToken
  ea_protocol_token : (protocol_index : ℕ) (protocol_string : List ℕ) → FidToken
  bundle_seed_id_pref_token : (bundle_seed_id_string : List ℕ) → FidToken
  screen_info_token :
      (width_inches height_inches width_pixels height_pixels ipod_width_pixels ipod_height_pixels
        features_mask gamma_value : ℕ)
      → FidToken
  ea_protocol_metadata_token : (protocol_index metadata_type : ℕ) → FidToken
  microphone_caps_token : (mic_caps_bitmask : ℕ) → FidToken
  bytes_token : List ℕ → FidToken

-- `FIDTokenValue` with its `TokenID`; the token, an interface{}, may be nil.
pub record FidTokenValue : Type 0 where
  pub fid_type : ℕ
  pub fid_subtype : ℕ
  pub token : Option FidToken

-- `FIDTokenValueACK`: its ACK, an interface{}, is nil or bytes.
pub record FidTokenValueAck : Type 0 where
  pub fid_type : ℕ
  pub fid_subtype : ℕ
  pub ack : Option (List ℕ)

-- The fields of the token's struct; its interface{} counts as a slice.
unfoldable pub token_layout : FidToken → List Width
token_layout (identify_token _ _ _) = slice ∷ word ∷ word ∷ []
token_layout (acc_caps_token _) = long ∷ []
token_layout (acc_info_token _ _) = byte ∷ slice ∷ []
token_layout (ipod_preference_token _ _ _) = byte ∷ byte ∷ byte ∷ []
token_layout (ea_protocol_token _ _) = byte ∷ slice ∷ []
token_layout (bundle_seed_id_pref_token _) = array 11
token_layout (screen_info_token _ _ _ _ _ _ _ _) =
    short ∷ short ∷ short ∷ short ∷ short ∷ short ∷ byte ∷ byte ∷ []
token_layout (ea_protocol_metadata_token _ _) = byte ∷ byte ∷ []
token_layout (microphone_caps_token _) = word ∷ []
token_layout (bytes_token bytes) = array (length bytes)

unfoldable pub token_fields : FidToken → List ℕ
token_fields (acc_caps_token mask) = mask ∷ []
token_fields (ipod_preference_token a b c) = a ∷ b ∷ c ∷ []
token_fields (bundle_seed_id_pref_token s) = s
token_fields (screen_info_token a b c d e f g h) = a ∷ b ∷ c ∷ d ∷ e ∷ f ∷ g ∷ h ∷ []
token_fields (ea_protocol_metadata_token a b) = a ∷ b ∷ []
token_fields (microphone_caps_token mask) = mask ∷ []
token_fields (bytes_token bytes) = bytes
token_fields _ = []

unfoldable pub token_refill : FidToken → List ℕ → FidToken
token_refill (ipod_preference_token _ _ _) (a ∷ b ∷ c ∷ []) = ipod_preference_token a b c
token_refill (bundle_seed_id_pref_token _) s = bundle_seed_id_pref_token s
token_refill (screen_info_token _ _ _ _ _ _ _ _) (a ∷ b ∷ c ∷ d ∷ e ∷ f ∷ g ∷ h ∷ []) =
    screen_info_token a b c d e f g h
token_refill (ea_protocol_metadata_token _ _) (a ∷ b ∷ []) = ea_protocol_metadata_token a b
token_refill (microphone_caps_token _) (mask ∷ []) = microphone_caps_token mask
token_refill t _ = t

-- `FIDIdentifyToken.MarshalBinary`
unfoldable pub marshal_identify : List ℕ → ℕ → ℕ → List ℕ
marshal_identify lingoes options id =
    (length lingoes % 256) ∷ (lingoes ++ (be32 options ++ be32 id))

-- The middle of `FIDTokenValue.MarshalBinary`: the token's own `MarshalBinary`, or `binary.Write` if it
-- has a fixed size.
unfoldable pub marshal_token : FidToken → Result (List ℕ)
unfolding marshal_identify binary_size binary_write token_layout token_fields
marshal_token (identify_token lingoes options id) = ok (marshal_identify lingoes options id)
marshal_token t = elim (binary_size (token_layout t)) [
  | none ↦ err unknown_token
  | some n ↦ binary_write (token_layout t) (token_fields t)
]

-- `FIDTokenValue.MarshalBinary`
unfoldable pub marshal_token_value : FidTokenValue → Result (List ℕ)
unfolding marshal_token
marshal_token_value v = elim v.token [
  | none ↦ err unknown_token
  | some t ↦ marshal_token t >>= λ bytes. ok ((v.fid_type % 256) ∷ (v.fid_subtype % 256) ∷ bytes)
]

-- The token that `FIDTokenValue.UnmarshalBinary` makes for an id; `none` is nil.
unfoldable pub new_token : ℕ → ℕ → Option FidToken
new_token fid_type fid_subtype =
    if fid_type == 0x00
    then (if fid_subtype == 0x00
        then some (identify_token [] 0 0)
        else if fid_subtype == 0x01
        then some (acc_caps_token 0)
        else if fid_subtype == 0x02
        then some (acc_info_token 0 [])
        else if fid_subtype == 0x03
        then some (ipod_preference_token 0 0 0)
        else if fid_subtype == 0x04
        then some (ea_protocol_token 0 [])
        else if fid_subtype == 0x05
        then some (bundle_seed_id_pref_token (replicate 11 0))
        else if fid_subtype == 0x07
        then some (screen_info_token 0 0 0 0 0 0 0 0)
        else if fid_subtype == 0x08
        then some (ea_protocol_metadata_token 0 0)
        else none)
    else if fid_type == 0x01
    then some (microphone_caps_token 0)
    else none

-- A `binary.Read` of a number whose error is dropped: too few bytes are all taken, and leave 0.
abbrev pub field_or_zero : Width → List ℕ → ℕ × List ℕ
field_or_zero w bytes = elim (read_field w bytes) [ none ↦ (0, []) | some got ↦ got ]

-- A `binary.Read` of so many bytes whose error is dropped.
unfoldable pub array_or_zero : ℕ → List ℕ → List ℕ × List ℕ
array_or_zero n bytes =
    if ltb (length bytes) n then (replicate n 0, []) else (take n bytes, drop n bytes)

-- `FIDIdentifyToken.UnmarshalBinary`
unfoldable pub unmarshal_identify : List ℕ → Result FidToken
unfolding array_or_zero
unmarshal_identify [] = err eof
unmarshal_identify (n ∷ bytes) =
    let lingoes = array_or_zero n bytes in
    let options = field_or_zero word lingoes.1 in
    let id = field_or_zero word options.1 in ok (identify_token lingoes.0 options.0 id.0)

-- `ReadBytes(0x00)`: up to the first zero and with it, or all.
unfoldable pub up_to_zero : List ℕ → List ℕ
up_to_zero [] = []
up_to_zero (b ∷ bytes) = let rest = up_to_zero bytes in if b == 0x00 then b ∷ [] else b ∷ rest

-- One `Read` into a new buffer of so many bytes.
abbrev pub read_into : ℕ → List ℕ → List ℕ
read_into n bytes = take n bytes ++ replicate (n - length bytes) 0

-- `FIDAccInfoToken.UnmarshalBinary`; the type is 0 where there are no bytes.
unfoldable pub acc_info : ℕ → List ℕ → Result FidToken
unfolding up_to_zero
acc_info t bytes =
    if t == 0x01 || t == 0x06 || t == 0x07 || t == 0x08
    then ok (acc_info_token t (up_to_zero bytes))
    else if t == 0x04 || t == 0x05
    then ok (acc_info_token t (read_into 3 bytes))
    else if t == 0x09
    then ok (acc_info_token t (read_into 2 bytes))
    else if t == 0x0B || t == 0x0C
    then ok (acc_info_token t (read_into 4 bytes))
    else err unknown_acc_info

-- The `UnmarshalBinary` of a new token, or `binary.Read` into its struct.
unfoldable pub unmarshal_token : FidToken → List ℕ → Result FidToken
unfolding unmarshal_identify acc_info binary_read token_layout token_refill
unmarshal_token (identify_token _ _ _) bytes = unmarshal_identify bytes
unmarshal_token (acc_caps_token _) bytes = ok (acc_caps_token (field_or_zero long bytes).0)
unmarshal_token (acc_info_token _ _) [] = acc_info 0 []
unmarshal_token (acc_info_token _ _) (t ∷ bytes) = acc_info t bytes
-- `data[0]` of no bytes panics.
unmarshal_token (ea_protocol_token _ _) [] = panic
unmarshal_token (ea_protocol_token _ _) (index ∷ bytes) = ok (ea_protocol_token index bytes)
unmarshal_token t bytes = binary_read (token_layout t) bytes >>= λ got. ok (token_refill t got.0)

-- `FIDTokenValue.UnmarshalBinary` of a new value: a token of an unknown id is kept as bytes.
unfoldable pub unmarshal_token_value : List ℕ → Result FidTokenValue
unfolding new_token unmarshal_token
unmarshal_token_value [] = err eof
unmarshal_token_value (a ∷ []) = err unexpected_eof
unmarshal_token_value (a ∷ b ∷ bytes) = elim (new_token a b) [
  | none ↦ ok (record { fid_type = a; fid_subtype = b; token = some (bytes_token bytes) })
  | some new ↦ unmarshal_token new bytes >>= λ t.
      ok (record { fid_type = a; fid_subtype = b; token = some t })
]
