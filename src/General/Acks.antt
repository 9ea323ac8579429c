-- ===== src/General/Acks.antt =====
-- lingo-general/handler.go: how identification tokens are acknowledged.
use ipod.Base.{Option, none, some, List, [], ◌∷◌, ℕ, map}
use ipod.General.Tokens.{
  FidToken, FidTokenValue, FidTokenValueAck, identify_token, acc_caps_token, acc_info_token,
  ipod_preference_token, ea_protocol_token, bundle_seed_id_pref_token, screen_info_token,
  ea_protocol_metadata_token, microphone_caps_token, bytes_token,
}

-- What a token is acknowledged by; `none` is nil, for a token of an unknown type.
unfoldable pub ack_token : Option FidToken → Option (List ℕ)
ack_token (some (identify_token _ _ _)) = some (0x00 ∷ [])
ack_token (some (acc_caps_token _)) = some (0x00 ∷ [])
ack_token (some (acc_info_token info_type _)) = some (0x00 ∷ info_type ∷ [])
ack_token (some (ipod_preference_token pref_class _ _)) = some (0x00 ∷ pref_class ∷ [])
ack_token (some (ea_protocol_token index _)) = some (0x00 ∷ index ∷ [])
ack_token (some (bundle_seed_id_pref_token _)) = some (0x00 ∷ [])
ack_token (some (screen_info_token _ _ _ _ _ _ _ _)) = some (0x00 ∷ [])
ack_token (some (ea_protocol_metadata_token _ _)) = some (0x00 ∷ [])
ack_token (some (microphone_caps_token _)) = some (0x00 ∷ [])
ack_token (some (bytes_token _)) = none
ack_token none = none

unfoldable pub ack_fid_token_value : FidTokenValue → FidTokenValueAck
unfolding ack_token
ack_fid_token_value v = record {
  fid_type = v.fid_type;
  fid_subtype = v.fid_subtype;
  ack = ack_token v.token;
}

unfoldable pub ack_fid_token_values : List FidTokenValue → List FidTokenValueAck
unfolding ack_fid_token_value
ack_fid_token_values values = map ack_fid_token_value values
