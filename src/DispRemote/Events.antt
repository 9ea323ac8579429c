-- ===== src/DispRemote/Events.antt =====
-- lingo-dispremote/notify.go: which events are sent.
use ipod.Base.{
  ℕ, ◌+◌, ◌/◌, ◌%◌, ◌<◌, ◌≡◌, refl, ap, ◌⊎◌, inl, inr, Bool, true, false, some, List, [], ◌∷◌, ◌++◌,
  arith, if◌then◌else◌, Bool-cases,
}
use ipod.DispRemote.Payloads.{DispPayload, code, remote_event_notification}
use ipod.Wire.{be16, be32, read_field, word, short}
use ipod.Lingo.Ids.{new_lingo_cmd_id, lingo_display_remote_id}
use ipod.Command.{known, Out, send, trx_next, build_command}
use ipod.DispRemote.Codec.{disp_payloads}
use ipod.DispRemote.Registration.{lookup_id_lem}
use ipod.DispRemote.Notify.{
  DispHandler, is_enabled, send_play_status, send_track_index, send_track_position_sec,
  on_track_changed,
}

-- What sending an event does: a notification behind the other commands, with the next transaction.
abbrev pub notified : Out DispPayload → ℕ → List ℕ → Out DispPayload
notified out event_num event_data = record {
  commands =
      out.commands
      ++ (record {
        id = new_lingo_cmd_id lingo_display_remote_id 0x09;
        transaction = some ((out.trx_counter + 1) % 4294967296 % 65536);
        payload = some (known (remote_event_notification event_num event_data));
      }
          ∷ []);
  trx_counter = (out.trx_counter + 1) % 4294967296;
}

send-notified :
    (event_num : ℕ) (event_data : List ℕ) (out : Out DispPayload)
    → send disp_payloads (remote_event_notification event_num event_data) out
      ≡ notified out event_num event_data
unfolding send build_command trx_next code
send-notified event_num event_data out =
    rw (lookup_id_lem (remote_event_notification event_num event_data), send) refl

-- A play status is told of exactly if the bit 3 of the mask is set, and then once, as playing or paused,
-- with the next transaction; otherwise nothing changes.
pub send_play_status_cases :
    (h : DispHandler) (playing : Bool) (out : Out DispPayload)
    → ((is_enabled h 3 ≡ false) × (send_play_status h playing out ≡ out))
      ⊎ ((is_enabled h 3 ≡ true)
          × (send_play_status h playing out ≡ notified out 0x03 ((if playing then 1 else 2) ∷ [])))
unfolding send_play_status
send_play_status_cases h playing out = elim (Bool-cases (is_enabled h 3)) [
  | inl on ↦ inr (on, rw (on, send_play_status) (send-notified _ _ out))
  | inr off ↦ inl (off, rw (off, send_play_status) refl)
]

-- A new track is told of exactly if the bit 1 of the mask is set, and then by the count of the tracks so
-- far in four bytes, from which the other side reads it; otherwise nothing changes.
pub send_track_index_cases :
    (h : DispHandler) (out : Out DispPayload)
    → h.track_index < 4294967295
    → ((is_enabled h 1 ≡ false) × (send_track_index (on_track_changed h) out ≡ out))
      ⊎ ((is_enabled h 1 ≡ true)
          × ((bytes : List ℕ) × (send_track_index (on_track_changed h) out
                ≡ notified out 0x01 bytes)
              × (read_field word bytes ≡ some (h.track_index + 1, []))))
unfolding send_track_index on_track_changed is_enabled
send_track_index_cases h out lt = elim (Bool-cases (is_enabled h 1)) [
  | inl on ↦ inr (
    on,
    (
      be32 ((h.track_index + 1) % 4294967296),
      rw (on, send_track_index) (send-notified _ _ out),
      ap (λ x. some (x, [])) (omega arith),
    ),
  )
  | inr off ↦ inl (off, rw (off, send_track_index) refl)
]

-- A position is told of exactly if the bit 15 of the mask is set, and then in seconds, cut to 16 bits;
-- otherwise nothing changes.
pub send_track_position_sec_cases :
    (h : DispHandler) (pos_ms : ℕ) (out : Out DispPayload)
    → ((is_enabled h 15 ≡ false) × (send_track_position_sec h pos_ms out ≡ out))
      ⊎ ((is_enabled h 15 ≡ true)
          × ((bytes : List ℕ) × (send_track_position_sec h pos_ms out ≡ notified out 0x0F bytes)
              × (read_field short bytes ≡ some (pos_ms / 1000 % 65536, []))))
unfolding send_track_position_sec
send_track_position_sec_cases h pos_ms out = elim (Bool-cases (is_enabled h 15)) [
  | inl on ↦ inr (
    on,
    (
      be16 (pos_ms / 1000 % 65536),
      rw (on, send_track_position_sec) (send-notified _ _ out),
      ap (λ x. some (x, [])) (omega arith),
    ),
  )
  | inr off ↦ inl (off, rw (off, send_track_position_sec) refl)
]
