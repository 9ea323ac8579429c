-- ===== src/General/Codec.antt =====
-- lingo-general/general.go: how the payloads of the general lingo are written and read, and their
-- registry.
use ipod.Base.{
  ℕ, ◌%◌, List, [], ◌∷◌, ◌++◌, Result, ok, err, panic, ◌>>=◌, short_packet, short_identify, ltb,
  leb, ◌==◌, if◌then◌else◌, length, take,
}
use ipod.Wire.{word, be32, binary_size, binary_write, binary_read}
use ipod.Lingo.Ids.{lingo_general_id}
use ipod.Lingo.Registry.{no_types, register_lingos}
use ipod.Command.{Payloads}
use ipod.General.Tokens.{field_or_zero}
use ipod.General.TokenLists.{marshal_tokens, unmarshal_tokens, marshal_acks, unmarshal_acks}
use ipod.General.Payloads.{
  GeneralPayload, identify, return_ipod_name, return_ipod_serial_num, return_ipod_model_num,
  ret_dev_authentication_info, ret_dev_authentication_signature, set_fid_token_values,
  ret_fid_token_value_acks, request_application_launch,
}
use ipod.General.Types.{type_number, general_new, general_lingos}
use ipod.General.Structs.{general_layout}
use ipod.General.Values.{general_fields, general_refill}

-- `RetDevAuthenticationInfo.MarshalBinary`
unfoldable pub marshal_auth_info : ℕ → ℕ → ℕ → ℕ → List ℕ → List ℕ
marshal_auth_info major minor current max cert =
    (major % 256)
    ∷ (minor % 256)
    ∷ ((if leb 0x02 major then (current % 256) ∷ (max % 256) ∷ [] else []) ++ cert)

-- `RetDevAuthenticationInfo.UnmarshalBinary` of a new value
unfoldable pub unmarshal_auth_info : List ℕ → Result GeneralPayload
unmarshal_auth_info (major ∷ minor ∷ current ∷ max ∷ cert) =
    if leb 0x02 major
    then ok (ret_dev_authentication_info major minor current max cert)
    else ok (ret_dev_authentication_info major minor 0 0 [])
unmarshal_auth_info (major ∷ minor ∷ rest) =
    if leb 0x02 major then err short_packet else ok (ret_dev_authentication_info major minor 0 0 [])
unmarshal_auth_info _ = err short_packet

-- `Identify.UnmarshalBinary` of a new value: lingoes that the packet cuts short are left out.
unfoldable pub unmarshal_identify_cmd : List ℕ → Result GeneralPayload
unmarshal_identify_cmd (device_type ∷ count ∷ bytes) =
    if ltb (length bytes) count
    then ok (identify device_type [])
    else ok (identify device_type (take count bytes))
unmarshal_identify_cmd _ = err short_identify

-- `RequestApplicationLaunch.UnmarshalBinary`, which indexes its first three bytes.
unfoldable pub unmarshal_launch : List ℕ → Result GeneralPayload
unmarshal_launch (a ∷ b ∷ c ∷ app_id) = ok (request_application_launch a b c app_id)
unmarshal_launch _ = panic

-- A payload's `MarshalBinary`, or `binary.Write` of its struct.
unfoldable pub general_marshal : GeneralPayload → Result (List ℕ)
unfolding marshal_auth_info marshal_tokens marshal_acks binary_write general_layout general_fields
general_marshal (return_ipod_name name) = ok name
general_marshal (return_ipod_serial_num serial) = ok serial
general_marshal (return_ipod_model_num model_id model) = ok (be32 model_id ++ model)
general_marshal (ret_dev_authentication_info major minor current max cert) =
    ok (marshal_auth_info major minor current max cert)
general_marshal (set_fid_token_values values) = marshal_tokens values
general_marshal (ret_fid_token_value_acks acks) = marshal_acks acks
general_marshal p = binary_write (general_layout p) (general_fields p)

-- The `UnmarshalBinary` of a new payload, or `binary.Read` into its struct.
unfoldable pub general_unmarshal : GeneralPayload → List ℕ → Result GeneralPayload
unfolding unmarshal_identify_cmd unmarshal_auth_info unmarshal_tokens unmarshal_acks
    unmarshal_launch binary_read general_layout general_refill
general_unmarshal (identify _ _) bytes = unmarshal_identify_cmd bytes
general_unmarshal (return_ipod_name _) bytes = ok (return_ipod_name bytes)
general_unmarshal (return_ipod_serial_num _) bytes = ok (return_ipod_serial_num bytes)
general_unmarshal (return_ipod_model_num _ _) bytes =
    let got = field_or_zero word bytes in ok (return_ipod_model_num got.0 got.1)
general_unmarshal (ret_dev_authentication_info _ _ _ _ _) bytes = unmarshal_auth_info bytes
general_unmarshal (ret_dev_authentication_signature _) bytes =
    ok (ret_dev_authentication_signature bytes)
general_unmarshal (set_fid_token_values _) bytes =
    unmarshal_tokens bytes >>= λ values. ok (set_fid_token_values values)
general_unmarshal (ret_fid_token_value_acks _) bytes =
    unmarshal_acks bytes >>= λ acks. ok (ret_fid_token_value_acks acks)
general_unmarshal (request_application_launch _ _ _ _) bytes = unmarshal_launch bytes
general_unmarshal p bytes =
    binary_read (general_layout p) bytes >>= λ got. ok (general_refill p got.0)

-- `RegisterLingos` of the package's `init`, and the payloads with it. A type is named by its zero value.
unfoldable pub general_payloads : Payloads GeneralPayload GeneralPayload
unfolding general_marshal general_unmarshal type_number general_layout general_new binary_size
    register_lingos
general_payloads = record {
  type_of = general_new;
  same = λ a b. type_number a == type_number b;
  size = λ p. binary_size (general_layout p);
  marshal = general_marshal;
  unmarshal = general_unmarshal;
  registry = (register_lingos lingo_general_id general_lingos no_types).0;
}
