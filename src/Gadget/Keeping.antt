-- ===== src/Gadget/Keeping.antt =====
-- cmd/ipod: what the program keeps of the requests of the general lingo.
use ipod.Base.{
  ℕ, suc, ◌≡◌, refl, sym, ap, ◌∙◌, Bool, true, false, Option, none, some, List, [], ◌∷◌, ◌++◌,
  append-nil, append_assoc, Result, ok, err, panic, ◌>>=◌, ltb, leb, ◌==◌, if◌then◌else◌, ==_iff,
  subst,
}
use ipod.Lingo.Ids.{
  lingo_id, lingo_general_id, lingo_simple_remote_id, lingo_display_remote_id, lingo_ext_remote_id,
  lingo_digital_audio_id,
}
use ipod.Command.{Payload, known, unknown, Command, Out}
use ipod.DispRemote.Handler.{Handled}
use ipod.ExtRemote.Handler.{Done}
use ipod.General.Tokens.{FidTokenValue}
use ipod.General.Payloads.{
  GeneralPayload, request_identify, enter_remote_ui_mode, exit_remote_ui_mode,
  identify_device_lingoes, ret_dev_authentication_info, set_ui_mode, start_idps,
  set_fid_token_values,
}
use ipod.General.Handler.{
  General, set_tokens, receive_cert, enter_mode, handle_msg, handle_known, handle_payload,
  handle_general,
}
use ipod.Gadget.Payloads.{AnyPayload, ext, general, any_payloads, general_part}
use ipod.Gadget.Device.{
  Surroundings, DevGeneral, dev_general, on_authentication_complete, generate_auth_challenge,
}
use ipod.Gadget.Packets.{World, Gadget, with_part, after_disp, handle_packet, handle_packets}

-- The UI mode and the identification tokens.
pub record Kept : Type 0 where
  pub mode : ℕ
  pub tokens : List FidTokenValue

abbrev pub kept : DevGeneral → Kept
kept d = record { mode = d.ui_mode; tokens = d.tokens }

-- What a request changes of them: the extended mode is entered and left, any mode is set, StartIDPS
-- forgets the tokens, and SetFIDTokenValues adds some.
abbrev pub keep : Kept → GeneralPayload → Kept
keep k enter_remote_ui_mode = record k { mode = 1 }
keep k exit_remote_ui_mode = record k { mode = if k.mode == 1 then 0 else k.mode }
keep k (set_ui_mode mode) = record k { mode = mode }
keep k start_idps = record k { tokens = [] }
keep k (set_fid_token_values values) = record k { tokens = k.tokens ++ values }
keep k _ = k

abbrev pub keep_payload : Kept → Option (Payload AnyPayload) → Kept
keep_payload k (some (known (general p))) = keep k p
keep_payload k _ = k

-- Commands of other lingoes change nothing, also if they hold a payload of the general one.
abbrev pub keep_all : Kept → List (Command AnyPayload) → Kept
keep_all k [] = k
keep_all k (cmd ∷ cmds) =
    keep_all (if lingo_id cmd.id == lingo_general_id then keep_payload k cmd.payload else k) cmds

module _ (env : Surroundings) where
  tokens_kept :
      (values : List FidTokenValue) (d : DevGeneral)
      → set_tokens any_payloads general_part (dev_general env) d values
        ≡ record d { tokens = d.tokens ++ values }
  unfolding dev_general
  tokens_kept [] d = ap (λ ts. record d { tokens = ts }) (sym (append-nil d.tokens))
  tokens_kept (v ∷ values) d =
      tokens_kept values (record d { tokens = d.tokens ++ (v ∷ []) })
      ∙ ap (λ ts. record d { tokens = ts }) (append_assoc d.tokens (v ∷ []) values)

  -- A branch of the handler, as the two results keep the same as they do.
  kept_if :
      (b : Bool) (x y : General DevGeneral × Out AnyPayload) (k : Kept)
      → (b ≡ true → kept x.0.dev ≡ k)
      → (b ≡ false → kept y.0.dev ≡ k)
      → kept (if b then x else y).0.dev ≡ k
  kept_if true x y k then_k else_k = then_k refl
  kept_if false x y k then_k else_k = else_k refl

  handle_msg-kept :
      (g : General DevGeneral) (req : Command AnyPayload) (msg : GeneralPayload)
      (out : Out AnyPayload)
      → kept (handle_msg any_payloads general_part (dev_general env) g req msg out).0.dev
        ≡ keep (kept g.dev) msg
  unfolding handle_msg dev_general receive_cert enter_mode on_authentication_complete
      generate_auth_challenge
  handle_msg-kept g req enter_remote_ui_mode out =
      kept_if (g.dev.ui_mode == 1) _ _ _
        (λ is. ap (λ m. record { mode = m; tokens = g.dev.tokens }) ((==_iff g.dev.ui_mode 1).0 is))
        (λ no. refl)
  handle_msg-kept g req exit_remote_ui_mode out =
      kept_if (g.dev.ui_mode == 1) _ _ _
        (λ is.
          ap (λ b. record { mode = if b then 0 else g.dev.ui_mode; tokens = g.dev.tokens })
            (sym is))
        (λ no.
          ap (λ b. record { mode = if b then 0 else g.dev.ui_mode; tokens = g.dev.tokens })
            (sym no))
  handle_msg-kept g req (identify_device_lingoes _ options _) out =
      kept_if (options == 1) _ _ _ (λ is. refl) (λ no. refl)
  handle_msg-kept g req (ret_dev_authentication_info major minor current max cert) out =
      kept_if (leb 2 major) _ _ _
        (λ is. kept_if (ltb current max) _ _ _ (λ more. refl) (λ last. refl)) (λ no. refl)
  handle_msg-kept g req (set_fid_token_values values) out = ap kept (tokens_kept values g.dev)
  handle_msg-kept g req request_identify out = refl
  handle_msg-kept g req _ out = refl

  handle_general-kept :
      (g : General DevGeneral) (req : Command AnyPayload) (out : Out AnyPayload)
      → kept (handle_general any_payloads general_part (dev_general env) g req out).0.dev
        ≡ keep_payload (kept g.dev) req.payload
  unfolding handle_general handle_payload handle_known
  handle_general-kept g req out = by_payload req.payload
    where
      by_payload :
          (p : Option (Payload AnyPayload))
          → kept (handle_payload any_payloads general_part (dev_general env) g req p out).0.dev
            ≡ keep_payload (kept g.dev) p
      by_payload none = refl
      by_payload (some (unknown bytes)) = refl
      by_payload (some (known (general msg))) = handle_msg-kept g req msg out
      by_payload (some (known _)) = refl

-- What a result keeps, if it is one.
abbrev KeepsAs : Result (Gadget × Out AnyPayload) → Kept → Type 0
KeepsAs (ok done) k = kept done.0.general.dev ≡ k
KeepsAs (err e) k = Unit {0}
KeepsAs panic k = Unit {0}

keeps_if :
    (b : Bool) (x y : Result (Gadget × Out AnyPayload)) (k k' : Kept)
    → KeepsAs x k
    → KeepsAs y k'
    → KeepsAs (if b then x else y) (if b then k else k')
keeps_if true x y k k' h h' = h
keeps_if false x y k k' h h' = h'

keeps_either :
    (b : Bool) (x y : Result (Gadget × Out AnyPayload)) (k : Kept)
    → KeepsAs x k
    → KeepsAs y k
    → KeepsAs (if b then x else y) k
keeps_either true x y k h h' = h
keeps_either false x y k h h' = h'

module _ (world : World) (g : Gadget) (out : Out AnyPayload) where
  disp_keeps : (done : Handled) → KeepsAs (after_disp g out done) (kept g.general.dev)
  disp_keeps (done, ok _) = refl
  disp_keeps (done, err e) = refl
  disp_keeps (done, panic) = tt

  ext_keeps :
      (done : Result Done)
      → KeepsAs
          (done >>= λ d.
            ok (record g { ext = d.handler; calls = g.calls ++ d.calls }, with_part ext out d.out))
          (kept g.general.dev)
  ext_keeps (ok done) = refl
  ext_keeps (err e) = tt
  ext_keeps panic = tt

  handle_packet-keeps :
      (cmd : Command AnyPayload)
      → KeepsAs (handle_packet world g out cmd) (
          if lingo_id cmd.id == lingo_general_id
          then keep_payload (kept g.general.dev) cmd.payload
          else kept g.general.dev)
  unfolding handle_packet
  handle_packet-keeps cmd =
      keeps_if (lingo_id cmd.id == lingo_general_id) _ _ _ _
        (handle_general-kept world.surroundings g.general cmd out)
        (keeps_either (lingo_id cmd.id == lingo_simple_remote_id) _ _ _ refl (
          keeps_either (lingo_id cmd.id == lingo_display_remote_id) _ _ _ (disp_keeps _) (
            keeps_either (lingo_id cmd.id == lingo_ext_remote_id) _ _ _ (ext_keeps _)
              (keeps_either (lingo_id cmd.id == lingo_digital_audio_id) _ _ _ refl refl))))

keeps_then :
    (r : Result (Gadget × Out AnyPayload))
    (next : Gadget × Out AnyPayload → Result (Gadget × Out AnyPayload)) (k : Kept)
    (later : Kept → Kept)
    → KeepsAs r k
    → ((done : Gadget × Out AnyPayload) → KeepsAs (next done) (later (kept done.0.general.dev)))
    → KeepsAs (r >>= next) (later k)
keeps_then (ok done) next k later h h' = subst (λ k. KeepsAs (next done) (later k)) h (h' done)
keeps_then (err e) next k later h h' = tt
keeps_then panic next k later h h' = tt

packets_keep :
    (world : ℕ → World) (n : ℕ) (g : Gadget) (out : Out AnyPayload)
    (cmds : List (Command AnyPayload))
    → KeepsAs (handle_packets world n g out cmds) (keep_all (kept g.general.dev) cmds)
unfolding handle_packets
packets_keep world n g out [] = refl
packets_keep world n g out (cmd ∷ cmds) =
    keeps_then (handle_packet (world n) g out cmd)
      (λ done. handle_packets world (suc n) done.0 done.1 cmds) _ (λ k. keep_all k cmds)
      (handle_packet-keeps (world n) g out cmd)
      (λ done. packets_keep world (suc n) done.0 done.1 cmds)

-- However the commands of a frame are mixed, and whatever the phone says meanwhile, what the program keeps
-- of the UI mode and the identification tokens is what the payloads of the general lingo, under
-- commands of that lingo, make of it in their order: nothing else changes it, if the frame does not
-- end the program.
pub handle_packets-kept :
    (world : ℕ → World) (n : ℕ) (g g' : Gadget) (out out' : Out AnyPayload)
    (cmds : List (Command AnyPayload))
    → handle_packets world n g out cmds ≡ ok (g', out')
    → kept g'.general.dev ≡ keep_all (kept g.general.dev) cmds
handle_packets-kept world n g g' out out' cmds e =
    subst (λ r. KeepsAs r (keep_all (kept g.general.dev) cmds)) e (packets_keep world n g out cmds)
