-- ===== src/ExtRemote/Answers.antt =====
-- lingo-extremote/handler.go: what holds of its answers.
use ipod.Base.{
  ℕ, ◌≤◌, ◌≡◌, refl, sym, ap, ◌∙◌, subst, inl, inr, Bool, true, false, Option, none, some, List, [],
  ◌∷◌, ◌++◌, append-nil, append_assoc, arith, Result, ok, ◌>>=◌, leb, if◌then◌else◌, Bool-cases,
  Option-cases, length, take, length-append,
}
use ipod.ExtRemote.Payloads.{
  ExtPayload, ext_code, ack, get_indexed_playing_track_title, return_indexed_playing_track_title,
  get_indexed_playing_track_artist_name, return_indexed_playing_track_artist_name,
  get_indexed_playing_track_album_name, return_indexed_playing_track_album_name,
  set_play_status_change_notification, set_play_status_change_notification_short, play_control,
}
use ipod.Text.{truncate_runes, runes, string_to_bytes, concat, ellipsis}
use ipod.Lingo.Ids.{cmd_id, new_lingo_cmd_id}
use ipod.Lingo.Registry.{lookup_id, id_of, register_lingos, store_mapping}
use ipod.Command.{Command, Payload, known, unknown, Out, respond, send, build_command, trx_next}
use ipod.Command.Sessions.{respond_cases}
use ipod.ExtRemote.Structs.{ext_new}
use ipod.ExtRemote.Codec.{ext_payloads}
use ipod.ExtRemote.Notify.{ExtHandler, set_notify_mask, ext_enabled, ext_send_play_status}
use ipod.ExtRemote.Device.{ExtDevice, play_method, media_calls, currently_playing, ext_text}
use ipod.ExtRemote.Handler.{
  ext_answer, ext_after, ext_follow_up, ext_respond_with, Done, ext_finish, ext_handle_payload,
  ext_handle,
}

ext_text_total : (s : List ℕ) → (cut : List ℕ) × (ext_text s ≡ ok cut)
unfolding ext_text truncate_runes
ext_text_total s = elim (Bool-cases (leb (length (runes s)) 20)) [
  | inl short ↦ (string_to_bytes s, rw short refl)
  | inr long ↦ (string_to_bytes (concat (take 19 (runes s)) ++ ellipsis), rw long refl)
]

-- A text as an answer, by what is made of it.
text_answer :
    (s : List ℕ) (reply : List ℕ → ExtPayload)
    → (p : Option ExtPayload) × ((ext_text s >>= λ cut. ok (some (reply cut))) ≡ ok p)
text_answer s reply =
    let cut = ext_text_total s in
    (some (reply cut.0), ap (λ (r : Result (List ℕ)). r >>= λ x. ok (some (reply x))) cut.1)

ext_answer_total :
    (h : ExtHandler) (dev : Option ExtDevice) (req : Command ExtPayload) (msg : ExtPayload)
    → (reply : Option ExtPayload) × (ext_answer h dev req msg ≡ ok reply)
unfolding ext_answer
ext_answer_total h dev req (get_indexed_playing_track_title _) =
    text_answer _ return_indexed_playing_track_title
ext_answer_total h dev req (get_indexed_playing_track_artist_name _) =
    text_answer _ return_indexed_playing_track_artist_name
ext_answer_total h dev req (get_indexed_playing_track_album_name _) =
    text_answer _ return_indexed_playing_track_album_name
ext_answer_total h dev req _ = (_, refl)

one_call : (dev : Option ExtDevice) (msg : ExtPayload) → length (media_calls dev msg) ≤ 1
unfolding media_calls
one_call (some d) (play_control cmd) = elim (Option-cases (play_method d.is_playing cmd)) [
  | inl nothing ↦ rw (nothing, media_calls) (omega arith)
  | inr (method, e) ↦ rw (e, media_calls) (omega arith)
]
one_call (some d) _ = omega arith
one_call none _ = omega arith

-- A writer to which at most one command more was written.
abbrev OneMore : Out ExtPayload → Out ExtPayload → Type 0
OneMore before later =
    (more : List (Command ExtPayload)) × (later.commands ≡ before.commands ++ more)
    × (length more ≤ 1)

none_more : (out : Out ExtPayload) → OneMore out out
none_more out = ([], sym (append-nil out.commands), omega arith)

send_one : (p : ExtPayload) (out : Out ExtPayload) → OneMore out (send ext_payloads p out)
unfolding send build_command trx_next
send_one p out =
    elim (Option-cases
      (lookup_id ext_payloads.same ext_payloads.registry (ext_payloads.type_of p))) [
        | inl unregistered ↦ rw (unregistered, send) (none_more out)
        | inr (id, registered) ↦ rw (registered, send) (_ ∷ [], refl, omega arith)
      ]

respond_one :
    (req : Command ExtPayload) (reply : Option ExtPayload) (out : Out ExtPayload)
    → OneMore out (ext_respond_with req reply out)
unfolding ext_respond_with
respond_one req none out = none_more out
respond_one req (some p) out = elim (respond_cases ext_payloads req p out) [
  | inl (_, same) ↦ subst (OneMore out) (sym same) (none_more out)
  | inr (id, _, e) ↦ subst (OneMore out) (sym e) (_ ∷ [], refl, omega arith)
]

play_status_one :
    (h : ExtHandler) (playing : Bool) (out : Out ExtPayload)
    → OneMore out (ext_send_play_status h playing out)
unfolding ext_send_play_status
play_status_one h playing out = elim (Bool-cases (ext_enabled h 1)) [
  | inl on ↦ rw (on, ext_send_play_status) (send_one _ out)
  | inr off ↦ rw (off, ext_send_play_status) (none_more out)
]

follow_up_one :
    (h : ExtHandler) (dev : Option ExtDevice) (msg : ExtPayload) (out : Out ExtPayload)
    → OneMore out (ext_follow_up h dev msg out)
unfolding ext_follow_up
follow_up_one h dev (set_play_status_change_notification _) out =
    play_status_one h (currently_playing dev) out
follow_up_one h dev (set_play_status_change_notification_short _) out =
    play_status_one h (currently_playing dev) out
follow_up_one h dev _ out = none_more out

-- What a request did: it wrote at most two commands behind the others, and called the phone at most
-- once.
pub record Modest (out : Out ExtPayload) (done : Done) : Type 0 where
  pub written : List (Command ExtPayload)
  pub written_lem : done.out.commands ≡ out.commands ++ written
  pub at_most_two : length written ≤ 2
  pub at_most_one_call : length done.calls ≤ 1

-- Every request that reaches the extended remote is handled without an error or a panic, whatever it
-- says and whether there is a phone or not; it is followed by two commands at most, and the phone is
-- called once at most.
pub ext_handle_total :
    (h : ExtHandler) (req : Command ExtPayload) (out : Out ExtPayload) (dev : Option ExtDevice)
    → (done : Done) × (ext_handle h req out dev ≡ ok done) × Modest out done
unfolding ext_handle ext_handle_payload ext_finish
ext_handle_total h req out dev = by_payload req.payload
  where
    skipped : Modest out (record { handler = h; out = out; calls = [] })
    skipped = record {
      written = [];
      written_lem = sym (append-nil out.commands);
      at_most_two = omega arith;
      at_most_one_call = omega arith;
    }

    by_payload :
        (payload : Option (Payload ExtPayload))
        → (done : Done) × (ext_handle_payload h req out dev payload ≡ ok done) × Modest out done
    by_payload none = (_, refl, skipped)
    by_payload (some (unknown bytes)) = (_, refl, skipped)
    by_payload (some (known msg)) =
        let reply = ext_answer_total h dev req msg in
        let first = respond_one req reply.0 out in
        let second = follow_up_one (ext_after h msg) dev msg (ext_respond_with req reply.0 out) in
        (
          _,
          ap (ext_finish h dev req out msg) reply.1,
          record {
            written = first.0 ++ second.0;
            written_lem =
                second.1
                ∙ ap (λ cs. cs ++ second.0) first.1
                ∙ append_assoc out.commands first.0 second.0;
            at_most_two =
                subst (λ n. n ≤ 2) (sym (length-append first.0 second.0))
                  (omega (arith, first.2, second.2));
            at_most_one_call = one_call dev msg;
          },
        )

-- The one-byte form of SetPlayStatusChangeNotification is acknowledged, and no play state ever follows
-- it: the mask that it sets has no bit for the extended play state. Nor does the phone hear of it.
pub one_byte_form_quiet :
    (h : ExtHandler) (id : ℕ) (t : Option ℕ) (enabled : Bool) (out : Out ExtPayload)
    (dev : Option ExtDevice)
    → ext_handle h
        (record {
          id = id;
          transaction = t;
          payload = some (known (set_play_status_change_notification_short enabled));
        })
        out
        dev
      ≡ ok (record {
        handler = record { track_index = h.track_index; notify_mask = if enabled then 45 else 0 };
        out = record {
          commands =
              out.commands
              ++ (record {
                id = 0x040001;
                transaction = t;
                payload = some (known (ack 0 (cmd_id id)));
              }
                  ∷ []);
          trx_counter = out.trx_counter;
        };
        calls = [];
      })
unfolding ext_handle ext_answer ext_after set_notify_mask ext_follow_up ext_send_play_status
    ext_enabled ext_respond_with respond build_command lookup_id id_of ext_payloads ext_code ext_new
    register_lingos store_mapping new_lingo_cmd_id media_calls
one_byte_form_quiet h id none true out none = refl
one_byte_form_quiet h id none true out (some d) = refl
one_byte_form_quiet h id none false out none = refl
one_byte_form_quiet h id none false out (some d) = refl
one_byte_form_quiet h id (some t) true out none = refl
one_byte_form_quiet h id (some t) true out (some d) = refl
one_byte_form_quiet h id (some t) false out none = refl
one_byte_form_quiet h id (some t) false out (some d) = refl
