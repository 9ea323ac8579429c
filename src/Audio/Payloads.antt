-- ===== src/Audio/Payloads.antt =====
-- lingo-audio/audio.go: the payloads of the digital audio lingo.
use ipod.Base.{ℕ, ◌+◌, ◌*◌, List, [], ◌∷◌, ◌++◌, Result, ok, ◌>>=◌, ◌==◌}
use ipod.Wire.{Width, byte, word, slice, be32, binary_size, binary_write, binary_read}
use ipod.Lingo.Ids.{lingo_digital_audio_id}
use ipod.Lingo.Registry.{no_types, register_lingos}
use ipod.Command.{Payloads}

pub data AudioPayload : Type 0 where
  acc_ack : (status cmd_id : ℕ) → AudioPayload
  ipod_ack : (status cmd_id : ℕ) → AudioPayload
  get_acc_sample_rate_caps : AudioPayload
  ret_acc_sample_rate_caps : (sample_rates : List ℕ) → AudioPayload
  new_ipod_track_info : (sample_rate sound_check volume_adjustment : ℕ) → AudioPayload
  set_video_delay : (delay : ℕ) → AudioPayload

-- The tag of the type in `Lingos`.
unfoldable pub audio_code : AudioPayload → ℕ
audio_code (acc_ack _ _) = 0x00
audio_code (ipod_ack _ _) = 0x01
audio_code get_acc_sample_rate_caps = 0x02
audio_code (ret_acc_sample_rate_caps _) = 0x03
audio_code (new_ipod_track_info _ _ _) = 0x04
audio_code (set_video_delay _) = 0x05

-- A new value of the same type, whose fields are zero.
unfoldable pub audio_new : AudioPayload → AudioPayload
audio_new (acc_ack _ _) = acc_ack 0 0
audio_new (ipod_ack _ _) = ipod_ack 0 0
audio_new get_acc_sample_rate_caps = get_acc_sample_rate_caps
audio_new (ret_acc_sample_rate_caps _) = ret_acc_sample_rate_caps []
audio_new (new_ipod_track_info _ _ _) = new_ipod_track_info 0 0 0
audio_new (set_video_delay _) = set_video_delay 0

-- The fields of the struct.
unfoldable pub audio_layout : AudioPayload → List Width
audio_layout (acc_ack _ _) = byte ∷ byte ∷ []
audio_layout (ipod_ack _ _) = byte ∷ byte ∷ []
audio_layout get_acc_sample_rate_caps = []
audio_layout (ret_acc_sample_rate_caps _) = slice ∷ []
audio_layout (new_ipod_track_info _ _ _) = word ∷ word ∷ word ∷ []
audio_layout (set_video_delay _) = word ∷ []

unfoldable pub audio_fields : AudioPayload → List ℕ
audio_fields (acc_ack status cmd_id) = status ∷ cmd_id ∷ []
audio_fields (ipod_ack status cmd_id) = status ∷ cmd_id ∷ []
audio_fields (new_ipod_track_info rate check adjustment) = rate ∷ check ∷ adjustment ∷ []
audio_fields (set_video_delay delay) = delay ∷ []
audio_fields _ = []

unfoldable pub audio_refill : AudioPayload → List ℕ → AudioPayload
audio_refill (acc_ack _ _) (a ∷ b ∷ []) = acc_ack a b
audio_refill (ipod_ack _ _) (a ∷ b ∷ []) = ipod_ack a b
audio_refill (new_ipod_track_info _ _ _) (a ∷ b ∷ c ∷ []) = new_ipod_track_info a b c
audio_refill (set_video_delay _) (a ∷ []) = set_video_delay a
audio_refill p _ = p

-- `RetAccSampleRateCaps.MarshalBinary`
unfoldable pub marshal_rates : List ℕ → List ℕ
marshal_rates [] = []
marshal_rates (r ∷ rs) = be32 r ++ marshal_rates rs

-- `RetAccSampleRateCaps.UnmarshalBinary`: as many rates as there are whole groups of four bytes.
unfoldable pub unmarshal_rates : List ℕ → List ℕ
unmarshal_rates (a ∷ b ∷ c ∷ d ∷ rest) =
    (a * 16777216 + b * 65536 + c * 256 + d) ∷ unmarshal_rates rest
unmarshal_rates _ = []

unfoldable pub audio_marshal : AudioPayload → Result (List ℕ)
unfolding marshal_rates binary_write audio_layout audio_fields
audio_marshal (ret_acc_sample_rate_caps rates) = ok (marshal_rates rates)
audio_marshal p = binary_write (audio_layout p) (audio_fields p)

unfoldable pub audio_unmarshal : AudioPayload → List ℕ → Result AudioPayload
unfolding unmarshal_rates binary_read audio_layout audio_refill
audio_unmarshal (ret_acc_sample_rate_caps _) bytes =
    ok (ret_acc_sample_rate_caps (unmarshal_rates bytes))
audio_unmarshal p bytes = binary_read (audio_layout p) bytes >>= λ got. ok (audio_refill p got.0)

-- The types in `Lingos`, each with its tag.
abbrev pub audio_lingos : List (Result ℕ × AudioPayload)
audio_lingos =
    (ok 0x00, acc_ack 0 0)
    ∷ (ok 0x01, ipod_ack 0 0)
    ∷ (ok 0x02, get_acc_sample_rate_caps)
    ∷ (ok 0x03, ret_acc_sample_rate_caps [])
    ∷ (ok 0x04, new_ipod_track_info 0 0 0)
    ∷ (ok 0x05, set_video_delay 0)
    ∷ []

-- `RegisterLingos` of the package's `init`, and the payloads with it.
unfoldable pub audio_payloads : Payloads AudioPayload AudioPayload
unfolding audio_marshal audio_unmarshal audio_code audio_layout audio_new binary_size
    register_lingos
audio_payloads = record {
  type_of = audio_new;
  same = λ a b. audio_code a == audio_code b;
  size = λ p. binary_size (audio_layout p);
  marshal = audio_marshal;
  unmarshal = audio_unmarshal;
  registry = (register_lingos lingo_digital_audio_id audio_lingos no_types).0;
}
