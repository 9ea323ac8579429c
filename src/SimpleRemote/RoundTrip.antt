-- ===== src/SimpleRemote/RoundTrip.antt =====
-- lingo-simpleremote: payloads in their packets, written and read back.
use ipod.Base.{
  ℕ, ◌<◌, ◌≡◌, refl, ap, Option, none, some, List, [], ◌∷◌, inl, inr, ◌⊎◌, ◌%◌, ◌>>=◌, arith, ok,
  length,
}
use ipod.Wire.{binary_size, binary_write, binary_read, write_fields, read_fields}
use ipod.Lingo.Ids.{new_lingo_cmd_id, lingo_simple_remote_id, ValidId, cmd_id_len}
use ipod.Lingo.Registry.{types_of, register_lingos, store_mapping, append_type}
use ipod.Command.{known, CommandSerde, marshal_cmd, unmarshal_cmd, handle_cmd_id}
use ipod.Command.RoundTrip.{Carries, TrxFits, on_wire, unmarshal_cmd-marshal_cmd}
use ipod.SimpleRemote.Buttons.{marshal_button_states}
use ipod.SimpleRemote.ButtonLaws.{unmarshal_button_states-marshal_button_states}
use ipod.SimpleRemote.Payloads.{
  SimplePayload, simple_code, simple_new, simple_layout, simple_marshal, simple_unmarshal,
  simple_payloads, context_button_status, ack, video_button_status, audio_button_status,
  ipod_out_button_status, rotation_input_status, radio_button_status, camera_button_status,
  register_descriptor, send_hid_report_to_ipod, send_hid_report_to_acc, unregister_descriptor,
  accessibility_event, get_accessibility_parameter, ret_accessibility_parameter,
  set_accessibility_parameter, get_current_item_property, ret_current_item_property, set_context,
  acc_parameter_changed, dev_ack,
}

-- The id that the type is registered under.
abbrev pub simple_id : SimplePayload → ℕ
simple_id p = new_lingo_cmd_id lingo_simple_remote_id (simple_code p)

-- The fields can hold their values.
abbrev pub Holds : SimplePayload → Type 0
Holds (context_button_status states) = states < 4294967296
Holds (video_button_status states) = states < 4294967296
Holds (audio_button_status states) = states < 4294967296
Holds (ipod_out_button_status source) = source < 256
Holds _ = Unit {0}

registered_simple :
    (p : SimplePayload)
    → types_of simple_payloads.registry.by_id (simple_id p) ≡ some (simple_new p ∷ [])
unfolding simple_payloads types_of simple_code simple_new new_lingo_cmd_id register_lingos
    store_mapping append_type
registered_simple (context_button_status a) = refl
registered_simple ack = refl
registered_simple (video_button_status a) = refl
registered_simple (audio_button_status a) = refl
registered_simple (ipod_out_button_status a) = refl
registered_simple rotation_input_status = refl
registered_simple radio_button_status = refl
registered_simple camera_button_status = refl
registered_simple register_descriptor = refl
registered_simple send_hid_report_to_ipod = refl
registered_simple send_hid_report_to_acc = refl
registered_simple unregister_descriptor = refl
registered_simple accessibility_event = refl
registered_simple get_accessibility_parameter = refl
registered_simple ret_accessibility_parameter = refl
registered_simple set_accessibility_parameter = refl
registered_simple get_current_item_property = refl
registered_simple ret_current_item_property = refl
registered_simple set_context = refl
registered_simple acc_parameter_changed = refl
registered_simple dev_ack = refl

simple_code_lt : (p : SimplePayload) → simple_code p < 256
unfolding simple_code
simple_code_lt (context_button_status a) = omega arith
simple_code_lt ack = omega arith
simple_code_lt (video_button_status a) = omega arith
simple_code_lt (audio_button_status a) = omega arith
simple_code_lt (ipod_out_button_status a) = omega arith
simple_code_lt rotation_input_status = omega arith
simple_code_lt radio_button_status = omega arith
simple_code_lt camera_button_status = omega arith
simple_code_lt register_descriptor = omega arith
simple_code_lt send_hid_report_to_ipod = omega arith
simple_code_lt send_hid_report_to_acc = omega arith
simple_code_lt unregister_descriptor = omega arith
simple_code_lt accessibility_event = omega arith
simple_code_lt get_accessibility_parameter = omega arith
simple_code_lt ret_accessibility_parameter = omega arith
simple_code_lt set_accessibility_parameter = omega arith
simple_code_lt get_current_item_property = omega arith
simple_code_lt ret_current_item_property = omega arith
simple_code_lt set_context = omega arith
simple_code_lt acc_parameter_changed = omega arith
simple_code_lt dev_ack = omega arith

simple_id-ValidId : (p : SimplePayload) → ValidId (simple_id p)
unfolding cmd_id_len
simple_id-ValidId p = record {
  lingo = lingo_simple_remote_id;
  cmd = simple_code p;
  id_lem = refl;
  lingo_lt = omega arith;
  cmd_lt = simple_code_lt p;
}

-- What is written of a payload is read back, and a fixed size is its length.
survives :
    (p : SimplePayload)
    → Holds p
    → (bytes : List ℕ) × (simple_marshal p ≡ ok bytes)
      × (simple_unmarshal (simple_new p) bytes ≡ ok p)
      × ((binary_size (simple_layout (simple_new p)) ≡ some (length bytes))
          ⊎ (binary_size (simple_layout (simple_new p)) ≡ none))
unfolding simple_marshal simple_unmarshal simple_new simple_layout binary_size binary_write
    binary_read write_fields read_fields
survives (context_button_status states) h = (
  marshal_button_states states,
  refl,
  ap (λ r. r >>= λ x. ok (context_button_status x))
      (unmarshal_button_states-marshal_button_states states h).0,
  inr refl,
)
survives ack h = ([], refl, refl, inl refl)
survives (video_button_status states) h = (
  marshal_button_states states,
  refl,
  ap (λ r. r >>= λ x. ok (video_button_status x))
      (unmarshal_button_states-marshal_button_states states h).0,
  inr refl,
)
survives (audio_button_status states) h = (
  marshal_button_states states,
  refl,
  ap (λ r. r >>= λ x. ok (audio_button_status x))
      (unmarshal_button_states-marshal_button_states states h).0,
  inr refl,
)
survives (ipod_out_button_status source) h =
    ((source % 256) ∷ [], refl, ap (λ x. ok (ipod_out_button_status x)) (omega arith), inl refl)
survives rotation_input_status h = ([], refl, refl, inl refl)
survives radio_button_status h = ([], refl, refl, inl refl)
survives camera_button_status h = ([], refl, refl, inl refl)
survives register_descriptor h = ([], refl, refl, inl refl)
survives send_hid_report_to_ipod h = ([], refl, refl, inl refl)
survives send_hid_report_to_acc h = ([], refl, refl, inl refl)
survives unregister_descriptor h = ([], refl, refl, inl refl)
survives accessibility_event h = ([], refl, refl, inl refl)
survives get_accessibility_parameter h = ([], refl, refl, inl refl)
survives ret_accessibility_parameter h = ([], refl, refl, inl refl)
survives set_accessibility_parameter h = ([], refl, refl, inl refl)
survives get_current_item_property h = ([], refl, refl, inl refl)
survives ret_current_item_property h = ([], refl, refl, inl refl)
survives set_context h = ([], refl, refl, inl refl)
survives acc_parameter_changed h = ([], refl, refl, inl refl)
survives dev_ack h = ([], refl, refl, inl refl)

pub simple-Carries :
    (p : SimplePayload) → Holds p → (bytes : List ℕ) × Carries simple_payloads p (simple_id p) bytes
unfolding simple_payloads
simple-Carries p h =
    let w = survives p h in
    (
      w.0,
      record {
        marshal_lem = w.1;
        unmarshal_lem = w.2;
        size_cases = w.3;
        id_valid = simple_id-ValidId p;
        alone = registered_simple p;
      },
    )

-- Every simple remote payload whose fields can hold their values survives its packet: what is marshalled
-- under its registered id is unmarshalled, by a serde in the same state, to the same command with no
-- error. With transactions on, the command must have one.
pub simple_cmd_round_trip :
    (s : CommandSerde) (t : Option ℕ) (p : SimplePayload)
    → Holds p
    → TrxFits (handle_cmd_id s (simple_id p)).trx_enabled t
    → (pkt : List ℕ) × (marshal_cmd simple_payloads s
          (record { id = simple_id p; transaction = t; payload = some (known p) })
        ≡ (handle_cmd_id s (simple_id p), ok pkt))
      × (unmarshal_cmd simple_payloads s pkt ≡ (
        handle_cmd_id s (simple_id p),
        ok (
          record {
            id = simple_id p;
            transaction = on_wire (handle_cmd_id s (simple_id p)).trx_enabled t;
            payload = some (known p);
          },
          none,
        ),
      ))
simple_cmd_round_trip s t p h fits =
    let c = simple-Carries p h in
    unmarshal_cmd-marshal_cmd simple_payloads s (simple_id p) t p c.0 c.1 fits
