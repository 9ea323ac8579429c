-- ===== src/General/Speaking.antt =====
-- lingo-general/handler.go: what a response and a command of the own side add to the writer.
use ipod.Base.{ℕ, ◌+◌, ◌%◌, ◌≡◌, refl, Option, none, some, List, [], ◌∷◌, ◌++◌}
use ipod.Lingo.Registry.{lookup_id}
use ipod.Command.{Payloads, known, Command, Out, copy, trx_next, build_command, respond, send}
use ipod.General.Payloads.{GeneralPayload}
use ipod.General.Registration.{general_id}
use ipod.General.Device.{Part, DeviceGeneral}
use ipod.General.Handler.{General, handle_msg, handle_known, handle_payload, handle_general}

copy_same : (t : Option ℕ) → copy t ≡ t
copy_same none = refl
copy_same (some t) = refl

-- The lingo's types are registered in the program under the ids of their tags.
abbrev pub IsRegistered : {P T : Type 0} → Payloads P T → Part GeneralPayload P → Type 0
IsRegistered payloads part =
    (p : GeneralPayload)
    → lookup_id payloads.same payloads.registry (payloads.type_of (part.put p))
      ≡ some (general_id p)

module _ {P T : Type 0} (payloads : Payloads P T) (part : Part GeneralPayload P) where
  -- A command of the general lingo.
  abbrev pub saying : ℕ → Option ℕ → GeneralPayload → Command P
  saying id t p = record { id = id; transaction = t; payload = some (known (part.put p)) }

  -- A response to a request with this transaction.
  abbrev pub answering : Option ℕ → GeneralPayload → Command P
  answering t p = saying (general_id p) t p

  -- A command of the own side, where the counter has this value.
  abbrev pub asking : ℕ → GeneralPayload → Command P
  asking n p = saying (general_id p) (some ((n + 1) % 4294967296 % 65536)) p

  abbrev pub said : Out P → List (Command P) → Out P
  said out cmds = record out { commands = out.commands ++ cmds }

  module _ (registered : IsRegistered payloads part) where
    pub respond_lem :
        (req : Command P) (p : GeneralPayload) (out : Out P)
        → respond payloads req (part.put p) out ≡ said out (answering req.transaction p ∷ [])
    unfolding respond build_command
    respond_lem req p out = rw (registered p, respond) (rw (copy_same req.transaction) refl)

    pub send_lem :
        (p : GeneralPayload) (out : Out P)
        → send payloads (part.put p) out ≡ record {
          commands = out.commands ++ (asking out.trx_counter p ∷ []);
          trx_counter = (out.trx_counter + 1) % 4294967296;
        }
    unfolding send build_command trx_next
    send_lem p out = rw (registered p, send) refl

module _ {P T D : Type 0} (payloads : Payloads P T) (part : Part GeneralPayload P)
    (ops : DeviceGeneral P D) where
  -- Requests handled one after the other.
  abbrev pub handle_each : General D → List (Command P) → Out P → General D × Out P
  handle_each g [] out = (g, out)
  handle_each g (req ∷ reqs) out =
      let done = handle_general payloads part ops g req out in handle_each done.0 reqs done.1

  -- A request with a payload of the lingo is handled by the type switch.
  pub handle_general_lem :
      (g : General D) (id : ℕ) (t : Option ℕ) (p : GeneralPayload) (out : Out P)
      → handle_general payloads part ops g (saying payloads part id t p) out
        ≡ handle_msg payloads part ops g (saying payloads part id t p) p out
  unfolding handle_general handle_payload handle_known
  handle_general_lem g id t p out = rw (part.get-put p, handle_known) refl
