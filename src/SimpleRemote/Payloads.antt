-- ===== src/SimpleRemote/Payloads.antt =====
-- lingo-simpleremote/simpleremote.go: the payloads of the simple remote lingo. Most of its structs are
-- empty.
use ipod.Base.{ℕ, List, [], ◌∷◌, Result, ok, ◌>>=◌, ◌==◌}
use ipod.Wire.{Width, byte, word, slice, binary_size, binary_write, binary_read}
use ipod.Lingo.Ids.{lingo_simple_remote_id}
use ipod.Lingo.Registry.{no_types, register_lingos}
use ipod.Command.{Payloads}
use ipod.SimpleRemote.Buttons.{marshal_button_states, unmarshal_button_states}

pub data SimplePayload : Type 0 where
  context_button_status : (state : ℕ) → SimplePayload
  video_button_status audio_button_status : (button_states : ℕ) → SimplePayload
  ipod_out_button_status : (button_source : ℕ) → SimplePayload
  ack rotation_input_status radio_button_status camera_button_status register_descriptor :
      SimplePayload
  send_hid_report_to_ipod send_hid_report_to_acc unregister_descriptor accessibility_event :
      SimplePayload
  get_accessibility_parameter ret_accessibility_parameter set_accessibility_parameter :
      SimplePayload
  get_current_item_property ret_current_item_property set_context acc_parameter_changed :
      SimplePayload
  dev_ack : SimplePayload

-- The tag of the type in `Lingos`.
unfoldable pub simple_code : SimplePayload → ℕ
simple_code (context_button_status _) = 0x00
simple_code ack = 0x01
simple_code (video_button_status _) = 0x03
simple_code (audio_button_status _) = 0x04
simple_code (ipod_out_button_status _) = 0x0B
simple_code rotation_input_status = 0x0C
simple_code radio_button_status = 0x0D
simple_code camera_button_status = 0x0E
simple_code register_descriptor = 0x0F
simple_code send_hid_report_to_ipod = 0x10
simple_code send_hid_report_to_acc = 0x11
simple_code unregister_descriptor = 0x12
simple_code accessibility_event = 0x13
simple_code get_accessibility_parameter = 0x14
simple_code ret_accessibility_parameter = 0x15
simple_code set_accessibility_parameter = 0x16
simple_code get_current_item_property = 0x17
simple_code ret_current_item_property = 0x18
simple_code set_context = 0x19
simple_code acc_parameter_changed = 0x1A
simple_code dev_ack = 0x81

-- A new value of the same type, whose fields are zero.
unfoldable pub simple_new : SimplePayload → SimplePayload
simple_new (context_button_status _) = context_button_status 0
simple_new (video_button_status _) = video_button_status 0
simple_new (audio_button_status _) = audio_button_status 0
simple_new (ipod_out_button_status _) = ipod_out_button_status 0
simple_new p = p

-- The fields of the struct: a mask of buttons has a slice behind it, so that it has no fixed size.
unfoldable pub simple_layout : SimplePayload → List Width
simple_layout (context_button_status _) = word ∷ slice ∷ []
simple_layout (video_button_status _) = word ∷ slice ∷ []
simple_layout (audio_button_status _) = word ∷ slice ∷ []
simple_layout (ipod_out_button_status _) = byte ∷ []
simple_layout _ = []

-- `ContextButtonStatus.MarshalBinary`, and that of the structs that `ButtonStates` is embedded in.
unfoldable pub simple_marshal : SimplePayload → Result (List ℕ)
unfolding marshal_button_states binary_write
simple_marshal (context_button_status states) = ok (marshal_button_states states)
simple_marshal (video_button_status states) = ok (marshal_button_states states)
simple_marshal (audio_button_status states) = ok (marshal_button_states states)
simple_marshal (ipod_out_button_status source) = binary_write (byte ∷ []) (source ∷ [])
simple_marshal _ = binary_write [] []

abbrev ipod_out_of : List ℕ → SimplePayload
ipod_out_of (source ∷ []) = ipod_out_button_status source
ipod_out_of _ = ipod_out_button_status 0

-- `ContextButtonStatus.UnmarshalBinary`, and that of the structs that `ButtonStates` is embedded in.
unfoldable pub simple_unmarshal : SimplePayload → List ℕ → Result SimplePayload
unfolding unmarshal_button_states binary_read
simple_unmarshal (context_button_status _) bytes =
    unmarshal_button_states bytes >>= λ states. ok (context_button_status states)
simple_unmarshal (video_button_status _) bytes =
    unmarshal_button_states bytes >>= λ states. ok (video_button_status states)
simple_unmarshal (audio_button_status _) bytes =
    unmarshal_button_states bytes >>= λ states. ok (audio_button_status states)
simple_unmarshal (ipod_out_button_status _) bytes =
    binary_read (byte ∷ []) bytes >>= λ got. ok (ipod_out_of got.0)
simple_unmarshal p bytes = binary_read [] bytes >>= λ got. ok p

-- The types in `Lingos`, each with its tag.
abbrev pub simple_lingos : List (Result ℕ × SimplePayload)
simple_lingos =
    (ok 0x00, context_button_status 0)
    ∷ (ok 0x01, ack)
    ∷ (ok 0x03, video_button_status 0)
    ∷ (ok 0x04, audio_button_status 0)
    ∷ (ok 0x0B, ipod_out_button_status 0)
    ∷ (ok 0x0C, rotation_input_status)
    ∷ (ok 0x0D, radio_button_status)
    ∷ (ok 0x0E, camera_button_status)
    ∷ (ok 0x0F, register_descriptor)
    ∷ (ok 0x10, send_hid_report_to_ipod)
    ∷ (ok 0x11, send_hid_report_to_acc)
    ∷ (ok 0x12, unregister_descriptor)
    ∷ (ok 0x13, accessibility_event)
    ∷ (ok 0x14, get_accessibility_parameter)
    ∷ (ok 0x15, ret_accessibility_parameter)
    ∷ (ok 0x16, set_accessibility_parameter)
    ∷ (ok 0x17, get_current_item_property)
    ∷ (ok 0x18, ret_current_item_property)
    ∷ (ok 0x19, set_context)
    ∷ (ok 0x1A, acc_parameter_changed)
    ∷ (ok 0x81, dev_ack)
    ∷ []

-- `RegisterLingos` of the package's `init`, and the payloads with it.
unfoldable pub simple_payloads : Payloads SimplePayload SimplePayload
unfolding simple_marshal simple_unmarshal simple_code simple_layout simple_new binary_size
    register_lingos
simple_payloads = record {
  type_of = simple_new;
  same = λ a b. simple_code a == simple_code b;
  size = λ p. binary_size (simple_layout p);
  marshal = simple_marshal;
  unmarshal = simple_unmarshal;
  registry = (register_lingos lingo_simple_remote_id simple_lingos no_types).0;
}
