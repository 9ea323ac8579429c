-- ===== src/Command/Sessions.antt =====
-- cmd.go over many commands: when transactions are on, and how they are numbered.
use ipod.Base.{
  ℕ, ◌+◌, ◌%◌, ◌≡◌, refl, sym, ap, ◌∙◌, ◌⊎◌, inl, inr, Bool, true, false, ◌||◌, Option, none, some,
  List, [], ◌∷◌, ◌++◌, append-nil, append_assoc, arith, ◌==◌, if◌then◌else◌, Option-cases,
}
use ipod.Lingo.Ids.{lingo_general_id, new_lingo_cmd_id}
use ipod.Lingo.Registry.{lookup_id}
use ipod.Command.{
  Payloads, known, Command, CommandSerde, handle_cmd_id, copy, Out, write_command, trx_next,
  respond, send, build_command,
}

abbrev pub handle_all : CommandSerde → List ℕ → CommandSerde
handle_all s [] = s
handle_all s (id ∷ ids) = handle_all (handle_cmd_id s id) ids

-- What a command says of transactions, if it does.
abbrev pub says : ℕ → Option Bool
says id =
    if id == new_lingo_cmd_id lingo_general_id 0x38
    then some true
    else if id == new_lingo_cmd_id lingo_general_id 0x00
        || id == new_lingo_cmd_id lingo_general_id 0x13
    then some false
    else none

-- The last word of a session on transactions.
abbrev pub last_word : Bool → List ℕ → Bool
last_word before [] = before
last_word before (id ∷ ids) = elim (says id) [
  | none ↦ last_word before ids
  | some b ↦ last_word b ids
]

low_bits : (n : ℕ) → n % 4294967296 % 65536 ≡ n % 65536
low_bits n = omega arith

copy_lem : (t : Option ℕ) → copy t ≡ t
copy_lem none = refl
copy_lem (some t) = refl

handle_cmd_id_lem :
    (s : CommandSerde) (id : ℕ)
    → (handle_cmd_id s id).trx_enabled ≡ elim (says id) [ none ↦ s.trx_enabled | some b ↦ b ]
unfolding handle_cmd_id new_lingo_cmd_id
handle_cmd_id_lem s id = ground arith

-- Behind any sequence of commands, transactions are on if the last StartIDPS came after every
-- RequestIdentify and IdentifyDeviceLingoes, off if one of these came last, and as before if there was
-- none of the three.
pub handle_all-last_word :
    (ids : List ℕ) (s : CommandSerde) → (handle_all s ids).trx_enabled ≡ last_word s.trx_enabled ids
handle_all-last_word [] s = refl
handle_all-last_word (id ∷ ids) s =
    handle_all-last_word ids (handle_cmd_id s id)
    ∙ ap (λ b. last_word b ids) (handle_cmd_id_lem s id)
    ∙ word_step (says id)
  where
    word_step :
        (said : Option Bool)
        → last_word (elim said [ none ↦ s.trx_enabled | some b ↦ b ]) ids
          ≡ elim said [ none ↦ last_word s.trx_enabled ids | some b ↦ last_word b ids ]
    word_step none = refl
    word_step (some b) = refl

module _ {P T : Type 0} (payloads : Payloads P T) where
  abbrev pub send_all : List P → Out P → Out P
  send_all [] out = out
  send_all (p ∷ ps) out = send_all ps (send payloads p out)

  -- The commands that sends make: a known payload gets the counter's next value in 16 bits.
  abbrev pub numbered : List P → ℕ → List (Command P)
  numbered [] n = []
  numbered (p ∷ ps) n = elim (lookup_id payloads.same payloads.registry (payloads.type_of p)) [
    | none ↦ numbered ps n
    | some id ↦
        record { id = id; transaction = some ((n + 1) % 65536); payload = some (known p) }
        ∷ numbered ps ((n + 1) % 4294967296)
  ]

  -- Payloads sent one after the other are written in order, each with its registered id, and the ones
  -- that are registered are numbered one by one from the transaction counter on; others are dropped.
  pub send_all-numbered :
      (ps : List P) (out : Out P)
      → (send_all ps out).commands ≡ out.commands ++ numbered ps out.trx_counter
  unfolding send build_command trx_next
  send_all-numbered [] out = sym (append-nil out.commands)
  send_all-numbered (p ∷ ps) out =
      elim (Option-cases (lookup_id payloads.same payloads.registry (payloads.type_of p))) [
        | inl unregistered ↦
            ap (λ o. (send_all ps o).commands) (rw (unregistered, send) refl)
            ∙ send_all-numbered ps out
            ∙ rw (unregistered, numbered) refl
        | inr (id, registered) ↦
            ap (λ o. (send_all ps o).commands) (rw (registered, send) refl)
            ∙ send_all-numbered ps (sent id)
            ∙ append_assoc out.commands _ _
            ∙ rw (registered, numbered, low_bits (out.trx_counter + 1)) refl
      ]
    where
      sent : ℕ → Out P
      sent id =
          write_command (trx_next out).0
            (record { id = id; transaction = some (trx_next out).1; payload = some (known p) })

  -- A response to a request has the request's transaction and its payload's registered id, and is
  -- written last; the counter stays. A payload that is not registered changes nothing.
  pub respond_cases :
      (req : Command P) (p : P) (out : Out P)
      → ((lookup_id payloads.same payloads.registry (payloads.type_of p) ≡ none)
          × (respond payloads req p out ≡ out))
        ⊎ ((id : ℕ) × (lookup_id payloads.same payloads.registry (payloads.type_of p) ≡ some id)
            × (respond payloads req p out ≡ record out {
              commands =
                  out.commands
                  ++ (record { id = id; transaction = req.transaction; payload = some (known p) }
                      ∷ []);
            }))
  unfolding respond build_command
  respond_cases req p out =
      elim (Option-cases (lookup_id payloads.same payloads.registry (payloads.type_of p))) [
        | inl unregistered ↦ inl (unregistered, rw (unregistered, respond) refl)
        | inr (id, registered) ↦
            inr (id, registered, rw (registered, copy_lem req.transaction, respond) refl)
      ]
