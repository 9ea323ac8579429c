-- ===== src/Gadget/Registration.antt =====
-- cmd/ipod/main.go: the types of the general lingo in the registry of the program.
use ipod.Base.{refl}
use ipod.Lingo.Ids.{new_lingo_cmd_id}
use ipod.Lingo.Registry.{id_of, lookup_id, register_lingos, store_mapping}
use ipod.General.Payloads.{general_code, request_identify}
use ipod.General.Types.{type_number, general_new}
use ipod.General.Codec.{general_payloads}
use ipod.General.Speaking.{IsRegistered}
use ipod.Gadget.Payloads.{any_payloads, any_type, any_same, any_registry, general_part}

pub general_registered : IsRegistered any_payloads general_part
unfolding any_payloads any_type any_same any_registry general_payloads lookup_id id_of type_number
    general_code general_new new_lingo_cmd_id register_lingos store_mapping
general_registered request_identify = refl
general_registered _ = refl
