-- ===== src/General/Registration.antt =====
-- lingo-general: the payload types and their command ids.
use ipod.Base.{ℕ, ◌<◌, ◌≡◌, refl, some, [], ◌∷◌, arith}
use ipod.General.Payloads.{
  GeneralPayload, general_code, request_identify, ack, ack_pending, ack_data_dropped,
  get_dev_authentication_signature_v1, get_dev_authentication_signature_v2,
}
use ipod.Lingo.Ids.{ValidId, cmd_id_len, new_lingo_cmd_id, lingo_general_id}
use ipod.Lingo.Registry.{types_of, append_type, id_of, lookup_id, register_lingos, store_mapping}
use ipod.General.Types.{type_number, general_new}
use ipod.General.Codec.{general_payloads}

abbrev pub general_id : GeneralPayload → ℕ
general_id p = new_lingo_cmd_id lingo_general_id (general_code p)

general_code_lt : (p : GeneralPayload) → general_code p < 256
unfolding general_code
general_code_lt request_identify = omega arith
general_code_lt _ = omega arith

pub general_id-ValidId : (p : GeneralPayload) → ValidId (general_id p)
unfolding cmd_id_len
general_id-ValidId p = record {
  lingo = lingo_general_id;
  cmd = general_code p;
  id_lem = refl;
  lingo_lt = omega arith;
  cmd_lt = general_code_lt p;
}

-- A payload of every type of the lingo gets the command id of its tag, also where a tag has several types.
pub general_lookup_id :
    (p : GeneralPayload)
    → lookup_id general_payloads.same general_payloads.registry (general_payloads.type_of p)
      ≡ some (general_id p)
unfolding general_payloads lookup_id id_of type_number general_code general_new new_lingo_cmd_id
    register_lingos store_mapping
general_lookup_id request_identify = refl
general_lookup_id _ = refl

-- Types whose tag has no other type.
abbrev pub Single : GeneralPayload → Type 0
Single (ack _ _) = ⊥
Single (ack_pending _ _ _) = ⊥
Single (ack_data_dropped _ _ _ _) = ⊥
Single (get_dev_authentication_signature_v1 _ _) = ⊥
Single (get_dev_authentication_signature_v2 _ _) = ⊥
Single _ = Unit {0}

pub general_registered_alone :
    (p : GeneralPayload)
    → Single p
    → types_of general_payloads.registry.by_id (general_id p) ≡ some (general_new p ∷ [])
unfolding general_payloads types_of general_code general_new new_lingo_cmd_id register_lingos
    store_mapping append_type
general_registered_alone (ack a b) one = elim one [ ]
general_registered_alone (ack_pending a b c) one = elim one [ ]
general_registered_alone (ack_data_dropped a b c d) one = elim one [ ]
general_registered_alone (get_dev_authentication_signature_v1 a b) one = elim one [ ]
general_registered_alone (get_dev_authentication_signature_v2 a b) one = elim one [ ]
general_registered_alone _ one = refl
