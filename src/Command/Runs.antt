-- ===== src/Command/Runs.antt =====
-- cmd.go: a small lingo of one payload, at concrete inputs.
use ipod.Base.{ℕ, ◌≡◌, refl, inl, true, none, some, List, [], ◌∷◌, ◌++◌, arith, ok, get_or}
use ipod.Lingo.Ids.{new_lingo_cmd_id, cmd_id_len}
use ipod.Lingo.Registry.{types_of}
use ipod.Command.{
  Payloads, CommandSerde, known, no_commands, handle_cmd_id, marshal_cmd, unmarshal_cmd,
}
use ipod.Command.RoundTrip.{Carries, TrxFits, on_wire, unmarshal_cmd-marshal_cmd}
use ipod.Command.Sessions.{
  handle_all, last_word, handle_all-last_word, send_all, numbered, send_all-numbered,
}

-- One payload of one byte, registered for the command 5 of the lingo 3.
abbrev byte_payloads : Payloads ℕ (Unit {0})
byte_payloads = record {
  type_of = λ p. tt;
  same = λ a b. true;
  size = λ t. some 1;
  marshal = λ p. ok (p ∷ []);
  unmarshal = λ t bytes. ok (get_or bytes 0 0);
  registry = record { by_id = (0x030005, tt ∷ []) ∷ []; by_type = (tt, 0x030005) ∷ [] };
}

abbrev with_trx : CommandSerde
with_trx = record { trx_enabled = true }

byte-Carries : Carries byte_payloads 9 0x030005 (9 ∷ [])
unfolding types_of new_lingo_cmd_id cmd_id_len
byte-Carries = record {
  marshal_lem = refl;
  unmarshal_lem = refl;
  size_cases = inl refl;
  id_valid = record {
    lingo = 3;
    cmd = 5;
    id_lem = refl;
    lingo_lt = omega arith;
    cmd_lt = omega arith;
  };
  alone = refl;
}

byte_fits : TrxFits (handle_cmd_id with_trx 0x030005).trx_enabled (some 258)
unfolding handle_cmd_id new_lingo_cmd_id
byte_fits = omega arith

byte_packet :
    (marshal_cmd byte_payloads with_trx
      (record { id = 0x030005; transaction = some 258; payload = some (known 9) })).1
    ≡ ok (3 ∷ 5 ∷ 1 ∷ 2 ∷ 9 ∷ [])
unfolding marshal_cmd new_lingo_cmd_id
byte_packet = refl

unmarshal_cmd-marshal_cmd_example :
    (pkt : List ℕ) × (marshal_cmd byte_payloads with_trx
        (record { id = 0x030005; transaction = some 258; payload = some (known 9) })
      ≡ (handle_cmd_id with_trx 0x030005, ok pkt))
    × (unmarshal_cmd byte_payloads with_trx pkt ≡ (
      handle_cmd_id with_trx 0x030005,
      ok (
        record {
          id = 0x030005;
          transaction = on_wire (handle_cmd_id with_trx 0x030005).trx_enabled (some 258);
          payload = some (known 9);
        },
        none,
      ),
    ))
unmarshal_cmd-marshal_cmd_example =
    unmarshal_cmd-marshal_cmd byte_payloads with_trx 0x030005 (some 258) 9 (9 ∷ []) byte-Carries
      byte_fits

handle_all-last_word_example :
    (handle_all with_trx (0x13 ∷ 0x38 ∷ 0x030005 ∷ [])).trx_enabled
    ≡ last_word true (0x13 ∷ 0x38 ∷ 0x030005 ∷ [])
handle_all-last_word_example = handle_all-last_word (0x13 ∷ 0x38 ∷ 0x030005 ∷ []) with_trx

send_all-numbered_example :
    (send_all byte_payloads (7 ∷ 8 ∷ []) no_commands).commands
    ≡ [] ++ numbered byte_payloads (7 ∷ 8 ∷ []) 0
send_all-numbered_example = send_all-numbered byte_payloads (7 ∷ 8 ∷ []) no_commands
