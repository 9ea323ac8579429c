-- ===== src/Command.antt =====
-- cmd.go: commands, their packets, and the writers of commands.
pub mod RoundTrip
pub mod Sessions
mod Runs
use ipod.Base.{
  ℕ, zero, suc, ◌+◌, ◌-◌, ◌*◌, ◌/◌, ◌%◌, ◌^◌, ◌≤◌, ◌<◌, min, ◌≡◌, refl, sym, ap, ◌∙◌, subst, ◌≢◌,
  ◌⊎◌, inl, inr, Bool, true, false, ◌&&◌, ◌||◌, not, Option, none, some, List, [], ◌∷◌, ◌++◌, map,
  append-nil, append_assoc, arith, Result, ok, err, panic, ◌>>=◌, Error, eof, unexpected_eof,
  unknown_cmd, nil_payload, is_eof, ltb, leb, ◌==◌, if◌then◌else◌, Bool-cases, Option-cases, ==_iff,
  length, get_or, take, drop, replicate, All, length-append, All-append, Result-cases,
}
use ipod.Wire.{be16}
use ipod.Lingo.Ids.{
  lingo_general_id, new_lingo_cmd_id, marshal_lingo_cmd_id, unmarshal_lingo_cmd_id,
}
use ipod.Lingo.Registry.{Registry, LookupResult, lookup, lookup_id}

-- The payload types of the lingoes, as the commands see them: what `LookupID` and `Lookup` find, and
-- how a payload is written and read, by its own methods or by encoding/binary.
pub record Payloads (P T : Type 0) : Type 0 where
  pub type_of : P → T
  pub same : T → T → Bool
  pub size : T → Option ℕ
  pub marshal : P → Result (List ℕ)
  pub unmarshal : T → List ℕ → Result P
  pub registry : Registry T

-- `Payload`, an interface{}: a registered payload, or `UnknownPayload`.
pub data Payload (P : Type 0) : Type 0 where
  known : P → Payload P
  unknown : List ℕ → Payload P

pub record Command (P : Type 0) : Type 0 where
  pub id : ℕ
  pub transaction : Option ℕ
  pub payload : Option (Payload P)

-- `Transaction.Copy`
abbrev pub copy : Option ℕ → Option ℕ
copy (some t) = some t
copy none = none

pub record CommandSerde : Type 0 where
  pub trx_enabled : Bool

-- `handleCmdID`: RequestIdentify and IdentifyDeviceLingoes end transactions, StartIDPS begins them.
unfoldable pub handle_cmd_id : CommandSerde → ℕ → CommandSerde
unfolding new_lingo_cmd_id
handle_cmd_id s cmd_id =
    if cmd_id == new_lingo_cmd_id lingo_general_id 0x00
    then record { trx_enabled = false }
    else if cmd_id == new_lingo_cmd_id lingo_general_id 0x13
    then record { trx_enabled = false }
    else if cmd_id == new_lingo_cmd_id lingo_general_id 0x38
    then record { trx_enabled = true }
    else s

-- The two bytes of a transaction, if there is one and transactions are on.
abbrev pub marshal_trx : Bool → Option ℕ → List ℕ
marshal_trx true (some t) = be16 t
marshal_trx _ _ = []

-- A command's transaction off the front of the payload's bytes.
abbrev pub unmarshal_trx : List ℕ → Result (ℕ × List ℕ)
unmarshal_trx (a ∷ b ∷ rest) = ok (a * 256 + b, rest)
unmarshal_trx [] = err eof
unmarshal_trx (a ∷ []) = err unexpected_eof

-- The transaction, if `Lookup` wants one, and the payload's bytes.
abbrev pub split_trx : Bool → List ℕ → Result (Option ℕ × List ℕ)
split_trx true bytes = unmarshal_trx bytes >>= λ (t, rest). ok (some t, rest)
split_trx false bytes = ok (none, bytes)

-- What `UnmarshalCmd` returns: a command, also beside an error.
abbrev pub Unmarshalled : Type 0 → Type 0
Unmarshalled P = Command P × Option Error

module _ {P T : Type 0} (payloads : Payloads P T) where
  abbrev pub marshal_payload : Option (Payload P) → Result (List ℕ)
  marshal_payload none = err nil_payload
  marshal_payload (some (known p)) = payloads.marshal p
  marshal_payload (some (unknown bytes)) = ok bytes

  unfoldable pub marshal_cmd : CommandSerde → Command P → CommandSerde × Result (List ℕ)
  unfolding handle_cmd_id marshal_lingo_cmd_id
  marshal_cmd s cmd =
      let s' = handle_cmd_id s cmd.id in
      (
        s',
        marshal_payload cmd.payload >>= λ bytes.
            ok (
              marshal_lingo_cmd_id cmd.id ++ (marshal_trx s'.trx_enabled cmd.transaction ++ bytes)),
      )

  -- The payload behind the transaction. After an error the command has no payload.
  abbrev pub with_payload : ℕ → Option ℕ → Result P → Result (Unmarshalled P)
  with_payload id t (ok p) =
      ok (record { id = id; transaction = t; payload = some (known p) }, none)
  with_payload id t (err e) = ok (record { id = id; transaction = t; payload = none }, some e)
  with_payload id t panic = panic

  -- What `Lookup` found, and its transaction split off.
  abbrev pub with_trx : ℕ → T → Result (Option ℕ × List ℕ) → Result (Unmarshalled P)
  with_trx id ty (ok (t, bytes)) = with_payload id t (payloads.unmarshal ty bytes)
  with_trx id ty (err e) = ok (record { id = id; transaction = none; payload = none }, some e)
  with_trx id ty panic = panic

  abbrev pub with_lookup : ℕ → List ℕ → Option (LookupResult T) → Result (Unmarshalled P)
  with_lookup id bytes none =
      ok (record { id = id; transaction = none; payload = some (unknown bytes) }, some unknown_cmd)
  with_lookup id bytes (some found) = with_trx id found.payload (split_trx found.transaction bytes)

  abbrev pub with_id : CommandSerde → Result (ℕ × List ℕ) → CommandSerde × Result (Unmarshalled P)
  with_id s (err e) = (s, ok (record { id = 0; transaction = none; payload = none }, some e))
  with_id s panic = (s, panic)
  with_id s (ok (id, bytes)) =
      let s' = handle_cmd_id s id in
      (
        s',
        with_lookup id bytes
            (lookup payloads.size payloads.registry id (length bytes) s'.trx_enabled),
      )

  unfoldable pub unmarshal_cmd : CommandSerde → List ℕ → CommandSerde × Result (Unmarshalled P)
  unmarshal_cmd s pkt = with_id s (unmarshal_lingo_cmd_id pkt)

  -- `BuildCommand`; `none` is its error.
  unfoldable pub build_command : P → Option (Command P)
  build_command p = elim (lookup_id payloads.same payloads.registry (payloads.type_of p)) [
    | none ↦ none
    | some id ↦ some (record { id = id; transaction = none; payload = some (known p) })
  ]

-- A `CommandWriter` that collects commands, and `trxCounter`, a uint32.
pub record Out (P : Type 0) : Type 0 where
  pub commands : List (Command P)
  pub trx_counter : ℕ

abbrev pub no_commands : {P : Type 0} → Out P
no_commands = record { commands = []; trx_counter = 0 }

-- `CmdBuffer.WriteCommand`
abbrev pub write_command : {P : Type 0} → Out P → Command P → Out P
write_command out cmd = record out { commands = out.commands ++ (cmd ∷ []) }

unfoldable pub trx_reset : {P : Type 0} → Out P → Out P
trx_reset out = record out { trx_counter = 0 }

-- `TrxNext`: the counter counts on, and its low 16 bits are the transaction.
unfoldable pub trx_next : {P : Type 0} → Out P → Out P × ℕ
trx_next out =
    let trx = (out.trx_counter + 1) % 4294967296 in (record out { trx_counter = trx }, trx % 65536)

module _ {P T : Type 0} (payloads : Payloads P T) where
  unfoldable pub respond : Command P → P → Out P → Out P
  unfolding build_command
  respond req payload out = elim (build_command payloads payload) [
    | none ↦ out
    | some cmd ↦ write_command out (record cmd { transaction = copy req.transaction })
  ]

  unfoldable pub send : P → Out P → Out P
  unfolding build_command trx_next
  send payload out = elim (build_command payloads payload) [
    | none ↦ out
    | some cmd ↦
        let next = trx_next out in write_command next.0 (record cmd { transaction = some next.1 })
  ]
