-- ===== src/Gadget/Lifting.antt =====
-- cmd/ipod/main.go: from the payloads of one lingo to those of the program.
use ipod.Base.{ℕ, ◌≡◌, refl, ap, ◌∙◌, sym, inl, inr, Option, none, some, List, [], ◌∷◌, ok, ◌>>=◌}
use ipod.Lingo.Ids.{new_lingo_cmd_id}
use ipod.Lingo.Registry.{types_of, append_type, register_lingos, store_mapping}
use ipod.Command.{Payloads, CommandSerde, known, marshal_cmd, unmarshal_cmd, handle_cmd_id}
use ipod.Command.RoundTrip.{Carries, TrxFits, on_wire, unmarshal_cmd-marshal_cmd}
use ipod.DispRemote.Payloads.{DispPayload, code, get_num_eq_profiles}
use ipod.DispRemote.Structs.{new_value}
use ipod.DispRemote.Codec.{disp_payloads}
use ipod.DispRemote.Sizes.{FixedSize, disp_id, FixedSize-Carries}
use ipod.ExtRemote.Payloads.{
  ExtPayload, ext_code, set_play_status_change_notification,
  set_play_status_change_notification_short, play_status_change_notification,
  play_status_change_notification_track_index, play_status_change_notification_extended,
  play_status_change_notification_position,
}
use ipod.ExtRemote.Structs.{ext_new}
use ipod.ExtRemote.Codec.{ext_payloads}
use ipod.ExtRemote.Registration.{Single as ExtSingle}
use ipod.ExtRemote.Writing.{ExtFixed}
use ipod.ExtRemote.RoundTrip.{ext_id, ExtFixed-Carries}
use ipod.General.Payloads.{
  GeneralPayload, general_code, ack, ack_pending, ack_data_dropped,
  get_dev_authentication_signature_v1, get_dev_authentication_signature_v2,
}
use ipod.General.Types.{general_new}
use ipod.General.Codec.{general_payloads}
use ipod.General.Registration.{Single, general_id}
use ipod.General.RoundTrip.{Surviving, Surviving-Carries}
use ipod.SimpleRemote.Payloads.{
  SimplePayload, simple_code, simple_new, simple_payloads, accessibility_event,
}
use ipod.SimpleRemote.RoundTrip.{Holds, simple_id, simple-Carries}
use ipod.Gadget.Payloads.{
  AnyPayload, general, simple, disp, ext, any_payloads, any_type, any_size, any_marshal,
  any_unmarshal, any_registry,
}

disp_alone :
    (p : DispPayload)
    → types_of any_payloads.registry.by_id (disp_id p) ≡ some (disp (new_value p) ∷ [])
unfolding any_payloads any_registry types_of code new_value new_lingo_cmd_id register_lingos
    store_mapping append_type
disp_alone get_num_eq_profiles = refl
disp_alone _ = refl

simple_alone :
    (p : SimplePayload)
    → types_of any_payloads.registry.by_id (simple_id p) ≡ some (simple (simple_new p) ∷ [])
unfolding any_payloads any_registry types_of simple_code simple_new new_lingo_cmd_id register_lingos
    store_mapping append_type
simple_alone accessibility_event = refl
simple_alone _ = refl

ext_alone :
    (p : ExtPayload)
    → ExtSingle p
    → types_of any_payloads.registry.by_id (ext_id p) ≡ some (ext (ext_new p) ∷ [])
unfolding any_payloads any_registry types_of ext_code ext_new new_lingo_cmd_id register_lingos
    store_mapping append_type
ext_alone (set_play_status_change_notification _) one = elim one [ ]
ext_alone (set_play_status_change_notification_short _) one = elim one [ ]
ext_alone (play_status_change_notification _ _) one = elim one [ ]
ext_alone (play_status_change_notification_track_index _ _) one = elim one [ ]
ext_alone (play_status_change_notification_extended _ _) one = elim one [ ]
ext_alone (play_status_change_notification_position _ _) one = elim one [ ]
ext_alone _ one = refl

general_alone :
    (p : GeneralPayload)
    → Single p
    → types_of any_payloads.registry.by_id (general_id p) ≡ some (general (general_new p) ∷ [])
unfolding any_payloads any_registry types_of general_code general_new new_lingo_cmd_id
    register_lingos store_mapping append_type
general_alone (ack _ _) one = elim one [ ]
general_alone (ack_pending _ _ _) one = elim one [ ]
general_alone (ack_data_dropped _ _ _ _) one = elim one [ ]
general_alone (get_dev_authentication_signature_v1 _ _) one = elim one [ ]
general_alone (get_dev_authentication_signature_v2 _ _) one = elim one [ ]
general_alone _ one = refl

-- What a lingo carries, under an id that has no other type in the program either.
lift_Carries :
    {Q : Type 0} (sub : Payloads Q Q) (put : Q → AnyPayload) (q : Q) (id : ℕ) (bytes : List ℕ)
    → any_type (put q) ≡ put (sub.type_of q)
    → any_size (put (sub.type_of q)) ≡ sub.size (sub.type_of q)
    → any_marshal (put q) ≡ sub.marshal q
    → any_unmarshal (put (sub.type_of q)) bytes
      ≡ (sub.unmarshal (sub.type_of q) bytes >>= λ r. ok (put r))
    → types_of any_payloads.registry.by_id id ≡ some (put (sub.type_of q) ∷ [])
    → Carries sub q id bytes
    → Carries any_payloads (put q) id bytes
unfolding any_payloads
lift_Carries sub put q id bytes types sizes marshals unmarshals alone c = record {
  marshal_lem = marshals ∙ c.marshal_lem;
  unmarshal_lem =
      ap (λ t. any_unmarshal t bytes) types
      ∙ unmarshals
      ∙ ap (λ r. r >>= λ x. ok (put x)) c.unmarshal_lem;
  size_cases = elim c.size_cases [
    | inl sized ↦ inl (ap any_size types ∙ sizes ∙ sized)
    | inr unsized ↦ inr (ap any_size types ∙ sizes ∙ unsized)
  ];
  id_valid = c.id_valid;
  alone = alone ∙ ap (λ t. some (t ∷ [])) (sym types);
}

-- The payloads that every lingo carries, with their ids.
pub data Crossing : AnyPayload → ℕ → Type 0 where
  general_one : (p : GeneralPayload) → Surviving p → Single p → Crossing (general p) (general_id p)
  simple_one : (p : SimplePayload) → Holds p → Crossing (simple p) (simple_id p)
  disp_one : (p : DispPayload) → FixedSize p → Crossing (disp p) (disp_id p)
  ext_one : (p : ExtPayload) → ExtFixed p → ExtSingle p → Crossing (ext p) (ext_id p)

pub Crossing-Carries :
    {p : AnyPayload} {id : ℕ} → Crossing p id → (bytes : List ℕ) × Carries any_payloads p id bytes
unfolding any_type any_size any_marshal any_unmarshal general_payloads simple_payloads disp_payloads
    ext_payloads
Crossing-Carries (general_one p h one) =
    let c = Surviving-Carries h in
    (
      c.0,
      lift_Carries general_payloads general p _ c.0 refl refl refl refl (general_alone p one) c.1,
    )
Crossing-Carries (simple_one p h) =
    let c = simple-Carries p h in
    (c.0, lift_Carries simple_payloads simple p _ c.0 refl refl refl refl (simple_alone p) c.1)
Crossing-Carries (disp_one p h) =
    let c = FixedSize-Carries p h in
    (c.0, lift_Carries disp_payloads disp p _ c.0 refl refl refl refl (disp_alone p) c.1)
Crossing-Carries (ext_one p h one) =
    let c = ExtFixed-Carries p h one in
    (c.0, lift_Carries ext_payloads ext p _ c.0 refl refl refl refl (ext_alone p one) c.1)

-- In the program, where all lingoes share one registry, the commands of each lingo survive their packets
-- that survive them in the lingo alone: general and simple remote ones, display and extended remote ones
-- of a fixed size. A serde in the same state unmarshals the same command with no error. With
-- transactions on, the command must have one.
pub any_cmd_round_trip :
    (s : CommandSerde) (t : Option ℕ) (p : AnyPayload) (id : ℕ)
    → Crossing p id
    → TrxFits (handle_cmd_id s id).trx_enabled t
    → (pkt : List ℕ) × (marshal_cmd any_payloads s
          (record { id = id; transaction = t; payload = some (known p) })
        ≡ (handle_cmd_id s id, ok pkt))
      × (unmarshal_cmd any_payloads s pkt ≡ (
        handle_cmd_id s id,
        ok (
          record {
            id = id;
            transaction = on_wire (handle_cmd_id s id).trx_enabled t;
            payload = some (known p);
          },
          none,
        ),
      ))
any_cmd_round_trip s t p id h fits =
    let c = Crossing-Carries h in unmarshal_cmd-marshal_cmd any_payloads s id t p c.0 c.1 fits
