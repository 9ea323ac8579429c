-- ===== src/DispRemote/Sizes.antt =====
-- lingo-dispremote: payloads of a fixed size in their packets, written and read back.
use ipod.Base.{
  ℕ, ◌≡◌, refl, ap, ◌∙◌, subst, inl, Bool, true, false, Option, none, some, List, [], append-nil,
  arith, Result, ok, ◌>>=◌,
}
use ipod.DispRemote.Payloads.{
  DispPayload, code, ack, get_current_eq_profile_index, ret_current_eq_profile_index,
  set_current_eq_profile_index, get_num_eq_profiles, ret_num_eq_profiles,
  get_indexed_eq_profile_name, ret_indexed_eq_profile_name, set_remote_event_notification,
  remote_event_notification, get_remote_event_status, ret_remote_event_status, get_ipod_state_info,
  ret_ipod_state_info, set_ipod_state_info, get_play_status, ret_play_status,
  set_current_playing_track, get_indexed_playing_track_info, ret_indexed_playing_track_info,
  get_num_playing_tracks, ret_num_playing_tracks, get_artwork_formats, ret_artwork_formats,
  get_track_artwork_data, ret_track_artwork_data, get_power_battery_state, ret_power_battery_state,
  get_sound_check_state, ret_sound_check_state, set_sound_check_state, get_track_artwork_times,
  ret_track_artwork_times,
}
use ipod.Wire.{binary_size, binary_write, binary_read}
use ipod.Wire.Laws.{Fill, binary_read-binary_write}
use ipod.Lingo.Ids.{ValidId, new_lingo_cmd_id, lingo_display_remote_id, cmd_id_len}
use ipod.Command.{CommandSerde, known, marshal_cmd, unmarshal_cmd, handle_cmd_id}
use ipod.Command.RoundTrip.{Carries, TrxFits, on_wire, unmarshal_cmd-marshal_cmd}
use ipod.DispRemote.Structs.{new_value, layout, fields, refill, bool_value, is_set}
use ipod.DispRemote.Registration.{registered_alone, code_lt}
use ipod.DispRemote.Codec.{disp_payloads, marshal, unmarshal}

-- A payload whose struct has a fixed size, and whose fields can hold their values.
abbrev pub FixedSize : DispPayload → Type 0
FixedSize p = Fill (layout p) (fields p)

abbrev pub disp_id : DispPayload → ℕ
disp_id p = new_lingo_cmd_id lingo_display_remote_id (code p)

is_set_lem : (b : Bool) → is_set (bool_value b) ≡ b
is_set_lem true = refl
is_set_lem false = refl

no_fill : (p : DispPayload) → binary_size (layout p) ≡ none → FixedSize p → ⊥
no_fill p e h = absurd (cc (e, (binary_read-binary_write (layout p) (fields p) [] h).2))

marshal_lem : (p : DispPayload) → FixedSize p → marshal p ≡ binary_write (layout p) (fields p)
unfolding marshal layout fields binary_size
marshal_lem (ack a b) fill = refl
marshal_lem get_current_eq_profile_index fill = refl
marshal_lem (ret_current_eq_profile_index a) fill = refl
marshal_lem (set_current_eq_profile_index a b) fill = refl
marshal_lem get_num_eq_profiles fill = refl
marshal_lem (ret_num_eq_profiles a) fill = refl
marshal_lem (get_indexed_eq_profile_name a) fill = refl
marshal_lem (ret_indexed_eq_profile_name a) fill =
    absurd (no_fill (ret_indexed_eq_profile_name a) refl fill)
marshal_lem (set_remote_event_notification a) fill = refl
marshal_lem (remote_event_notification a b) fill =
    absurd (no_fill (remote_event_notification a b) refl fill)
marshal_lem get_remote_event_status fill = refl
marshal_lem (ret_remote_event_status a) fill = refl
marshal_lem (get_ipod_state_info a) fill = refl
marshal_lem (ret_ipod_state_info a b) fill = absurd (no_fill (ret_ipod_state_info a b) refl fill)
marshal_lem (set_ipod_state_info a b) fill = refl
marshal_lem get_play_status fill = refl
marshal_lem (ret_play_status a b c d) fill = refl
marshal_lem (set_current_playing_track a) fill = refl
marshal_lem (get_indexed_playing_track_info a b c) fill = refl
marshal_lem (ret_indexed_playing_track_info a b) fill =
    absurd (no_fill (ret_indexed_playing_track_info a b) refl fill)
marshal_lem get_num_playing_tracks fill = refl
marshal_lem (ret_num_playing_tracks a) fill = refl
marshal_lem get_artwork_formats fill = refl
marshal_lem (ret_artwork_formats a) fill = absurd (no_fill (ret_artwork_formats a) refl fill)
marshal_lem (get_track_artwork_data a b c) fill = refl
marshal_lem (ret_track_artwork_data a b c d e f g h i j) fill =
    absurd (no_fill (ret_track_artwork_data a b c d e f g h i j) refl fill)
marshal_lem get_power_battery_state fill = refl
marshal_lem (ret_power_battery_state a b) fill = refl
marshal_lem get_sound_check_state fill = refl
marshal_lem (ret_sound_check_state a) fill = refl
marshal_lem (set_sound_check_state a b) fill = refl
marshal_lem (get_track_artwork_times a b c d) fill = refl
marshal_lem (ret_track_artwork_times a) fill =
    absurd (no_fill (ret_track_artwork_times a) refl fill)

layout-new_value : (p : DispPayload) → layout (new_value p) ≡ layout p
unfolding layout new_value
layout-new_value (ack a b) = refl
layout-new_value get_current_eq_profile_index = refl
layout-new_value (ret_current_eq_profile_index a) = refl
layout-new_value (set_current_eq_profile_index a b) = refl
layout-new_value get_num_eq_profiles = refl
layout-new_value (ret_num_eq_profiles a) = refl
layout-new_value (get_indexed_eq_profile_name a) = refl
layout-new_value (ret_indexed_eq_profile_name a) = refl
layout-new_value (set_remote_event_notification a) = refl
layout-new_value (remote_event_notification a b) = refl
layout-new_value get_remote_event_status = refl
layout-new_value (ret_remote_event_status a) = refl
layout-new_value (get_ipod_state_info a) = refl
layout-new_value (ret_ipod_state_info a b) = refl
layout-new_value (set_ipod_state_info a b) = refl
layout-new_value get_play_status = refl
layout-new_value (ret_play_status a b c d) = refl
layout-new_value (set_current_playing_track a) = refl
layout-new_value (get_indexed_playing_track_info a b c) = refl
layout-new_value (ret_indexed_playing_track_info a b) = refl
layout-new_value get_num_playing_tracks = refl
layout-new_value (ret_num_playing_tracks a) = refl
layout-new_value get_artwork_formats = refl
layout-new_value (ret_artwork_formats a) = refl
layout-new_value (get_track_artwork_data a b c) = refl
layout-new_value (ret_track_artwork_data a b c d e f g h i j) = refl
layout-new_value get_power_battery_state = refl
layout-new_value (ret_power_battery_state a b) = refl
layout-new_value get_sound_check_state = refl
layout-new_value (ret_sound_check_state a) = refl
layout-new_value (set_sound_check_state a b) = refl
layout-new_value (get_track_artwork_times a b c d) = refl
layout-new_value (ret_track_artwork_times a) = refl

unmarshal_lem :
    (p : DispPayload) (bytes : List ℕ)
    → FixedSize p
    → unmarshal (new_value p) bytes
      ≡ (binary_read (layout p) bytes >>= λ got. ok (refill (new_value p) got.0))
unfolding unmarshal layout fields new_value binary_size
unmarshal_lem (ack a b) bytes fill = refl
unmarshal_lem get_current_eq_profile_index bytes fill = refl
unmarshal_lem (ret_current_eq_profile_index a) bytes fill = refl
unmarshal_lem (set_current_eq_profile_index a b) bytes fill = refl
unmarshal_lem get_num_eq_profiles bytes fill = refl
unmarshal_lem (ret_num_eq_profiles a) bytes fill = refl
unmarshal_lem (get_indexed_eq_profile_name a) bytes fill = refl
unmarshal_lem (ret_indexed_eq_profile_name a) bytes fill =
    absurd (no_fill (ret_indexed_eq_profile_name a) refl fill)
unmarshal_lem (set_remote_event_notification a) bytes fill = refl
unmarshal_lem (remote_event_notification a b) bytes fill =
    absurd (no_fill (remote_event_notification a b) refl fill)
unmarshal_lem get_remote_event_status bytes fill = refl
unmarshal_lem (ret_remote_event_status a) bytes fill = refl
unmarshal_lem (get_ipod_state_info a) bytes fill = refl
unmarshal_lem (ret_ipod_state_info a b) bytes fill =
    absurd (no_fill (ret_ipod_state_info a b) refl fill)
unmarshal_lem (set_ipod_state_info a b) bytes fill = refl
unmarshal_lem get_play_status bytes fill = refl
unmarshal_lem (ret_play_status a b c d) bytes fill = refl
unmarshal_lem (set_current_playing_track a) bytes fill = refl
unmarshal_lem (get_indexed_playing_track_info a b c) bytes fill = refl
unmarshal_lem (ret_indexed_playing_track_info a b) bytes fill =
    absurd (no_fill (ret_indexed_playing_track_info a b) refl fill)
unmarshal_lem get_num_playing_tracks bytes fill = refl
unmarshal_lem (ret_num_playing_tracks a) bytes fill = refl
unmarshal_lem get_artwork_formats bytes fill = refl
unmarshal_lem (ret_artwork_formats a) bytes fill =
    absurd (no_fill (ret_artwork_formats a) refl fill)
unmarshal_lem (get_track_artwork_data a b c) bytes fill = refl
unmarshal_lem (ret_track_artwork_data a b c d e f g h i j) bytes fill =
    absurd (no_fill (ret_track_artwork_data a b c d e f g h i j) refl fill)
unmarshal_lem get_power_battery_state bytes fill = refl
unmarshal_lem (ret_power_battery_state a b) bytes fill = refl
unmarshal_lem get_sound_check_state bytes fill = refl
unmarshal_lem (ret_sound_check_state a) bytes fill = refl
unmarshal_lem (set_sound_check_state a b) bytes fill = refl
unmarshal_lem (get_track_artwork_times a b c d) bytes fill = refl
unmarshal_lem (ret_track_artwork_times a) bytes fill =
    absurd (no_fill (ret_track_artwork_times a) refl fill)

refill-fields : (p : DispPayload) → FixedSize p → refill (new_value p) (fields p) ≡ p
unfolding refill layout fields new_value binary_size
refill-fields (ack a b) fill = refl
refill-fields get_current_eq_profile_index fill = refl
refill-fields (ret_current_eq_profile_index a) fill = refl
refill-fields (set_current_eq_profile_index a b) fill = rw (is_set_lem b) refl
refill-fields get_num_eq_profiles fill = refl
refill-fields (ret_num_eq_profiles a) fill = refl
refill-fields (get_indexed_eq_profile_name a) fill = refl
refill-fields (ret_indexed_eq_profile_name a) fill =
    absurd (no_fill (ret_indexed_eq_profile_name a) refl fill)
refill-fields (set_remote_event_notification a) fill = refl
refill-fields (remote_event_notification a b) fill =
    absurd (no_fill (remote_event_notification a b) refl fill)
refill-fields get_remote_event_status fill = refl
refill-fields (ret_remote_event_status a) fill = refl
refill-fields (get_ipod_state_info a) fill = refl
refill-fields (ret_ipod_state_info a b) fill = absurd (no_fill (ret_ipod_state_info a b) refl fill)
refill-fields (set_ipod_state_info a b) fill = refl
refill-fields get_play_status fill = refl
refill-fields (ret_play_status a b c d) fill = refl
refill-fields (set_current_playing_track a) fill = refl
refill-fields (get_indexed_playing_track_info a b c) fill = refl
refill-fields (ret_indexed_playing_track_info a b) fill =
    absurd (no_fill (ret_indexed_playing_track_info a b) refl fill)
refill-fields get_num_playing_tracks fill = refl
refill-fields (ret_num_playing_tracks a) fill = refl
refill-fields get_artwork_formats fill = refl
refill-fields (ret_artwork_formats a) fill = absurd (no_fill (ret_artwork_formats a) refl fill)
refill-fields (get_track_artwork_data a b c) fill = refl
refill-fields (ret_track_artwork_data a b c d e f g h i j) fill =
    absurd (no_fill (ret_track_artwork_data a b c d e f g h i j) refl fill)
refill-fields get_power_battery_state fill = refl
refill-fields (ret_power_battery_state a b) fill = refl
refill-fields get_sound_check_state fill = refl
refill-fields (ret_sound_check_state a) fill = rw (is_set_lem a) refl
refill-fields (set_sound_check_state a b) fill = rw (is_set_lem a, is_set_lem b) refl
refill-fields (get_track_artwork_times a b c d) fill = refl
refill-fields (ret_track_artwork_times a) fill =
    absurd (no_fill (ret_track_artwork_times a) refl fill)

disp_id-ValidId : (p : DispPayload) → ValidId (disp_id p)
unfolding cmd_id_len
disp_id-ValidId p = record {
  lingo = lingo_display_remote_id;
  cmd = code p;
  id_lem = refl;
  lingo_lt = omega arith;
  cmd_lt = code_lt p;
}

pub FixedSize-Carries :
    (p : DispPayload) → FixedSize p → (bytes : List ℕ) × Carries disp_payloads p (disp_id p) bytes
unfolding disp_payloads binary_size
FixedSize-Carries p h =
    let w = binary_read-binary_write (layout p) (fields p) [] h in
    let read_back : binary_read (layout p) w.0 ≡ ok (fields p, []) =
      subst (λ x. binary_read (layout p) x ≡ ok (fields p, [])) (append-nil w.0) w.3 in
    (
      w.0,
      record {
        marshal_lem = marshal_lem p h ∙ w.1;
        unmarshal_lem =
            unmarshal_lem p w.0 h
            ∙ ap (λ (r : Result (List ℕ × List ℕ)). r >>= λ got. ok (refill (new_value p) got.0))
                read_back
            ∙ ap ok (refill-fields p h);
        size_cases = inl (ap binary_size (layout-new_value p) ∙ w.2);
        id_valid = disp_id-ValidId p;
        alone = registered_alone p;
      },
    )

-- Every display remote payload whose struct has a fixed size and whose fields can hold their values
-- survives its packet: what is marshalled under its registered id is unmarshalled, by a serde in the
-- same state, to the same command with no error. With transactions on, the command must have one.
pub disp_cmd_round_trip :
    (s : CommandSerde) (t : Option ℕ) (p : DispPayload)
    → FixedSize p
    → TrxFits (handle_cmd_id s (disp_id p)).trx_enabled t
    → (pkt : List ℕ) × (marshal_cmd disp_payloads s
          (record { id = disp_id p; transaction = t; payload = some (known p) })
        ≡ (handle_cmd_id s (disp_id p), ok pkt))
      × (unmarshal_cmd disp_payloads s pkt ≡ (
        handle_cmd_id s (disp_id p),
        ok (
          record {
            id = disp_id p;
            transaction = on_wire (handle_cmd_id s (disp_id p)).trx_enabled t;
            payload = some (known p);
          },
          none,
        ),
      ))
disp_cmd_round_trip s t p h fits =
    let c = FixedSize-Carries p h in
    unmarshal_cmd-marshal_cmd disp_payloads s (disp_id p) t p c.0 c.1 fits
