-- ===== src/Audio/Handler.antt =====
-- lingo-audio/handler.go: the handshake on the sample rate.
use ipod.Base.{ℕ, none, some}
use ipod.Command.{Command, known, unknown, Out, respond, send}
use ipod.Audio.Payloads.{
  AudioPayload, acc_ack, ipod_ack, get_acc_sample_rate_caps, ret_acc_sample_rate_caps,
  new_ipod_track_info, set_video_delay, audio_payloads,
}

-- `negotiatedRate`, a variable that nothing sets.
abbrev pub negotiated_rate : ℕ
negotiated_rate = 44100

unfoldable pub start : Out AudioPayload → Out AudioPayload
unfolding send
start out = send audio_payloads get_acc_sample_rate_caps out

unfoldable pub reopen_audio : Out AudioPayload → Out AudioPayload
unfolding send
reopen_audio out = send audio_payloads (new_ipod_track_info negotiated_rate 0 0) out

-- `HandleAudio`, whose device is never used and whose error is always nil.
unfoldable pub handle_audio : Command AudioPayload → Out AudioPayload → Out AudioPayload
unfolding respond send
handle_audio req out = elim req.payload [
  | none ↦ out
  | some (unknown bytes) ↦ out
  | some (known (acc_ack _ _)) ↦ out
  | some (known (ret_acc_sample_rate_caps rates)) ↦
      send audio_payloads (new_ipod_track_info 44100 0 0)
        (respond audio_payloads req (acc_ack 0x00 0x03) out)
  | some (known (new_ipod_track_info _ _ _)) ↦ respond audio_payloads req (acc_ack 0x00 0x04) out
  | some (known (set_video_delay _)) ↦ respond audio_payloads req (acc_ack 0x00 0x05) out
  | some (known (ipod_ack _ _)) ↦ out
  | some (known get_acc_sample_rate_caps) ↦ out
]
