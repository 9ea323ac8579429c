-- ===== src/ExtRemote/RoundTrip.antt =====
-- lingo-extremote: payloads of a fixed size in their packets, written and read back.
use ipod.Base.{
  ℕ, ◌≡◌, refl, ap, ◌∙◌, subst, inl, Option, none, some, List, [], append-nil, arith, Result, ok,
  ◌>>=◌,
}
use ipod.Wire.{binary_size, binary_read}
use ipod.Wire.Laws.{binary_read-binary_write}
use ipod.Lingo.Ids.{ValidId, new_lingo_cmd_id, lingo_ext_remote_id, cmd_id_len}
use ipod.Command.{CommandSerde, known, marshal_cmd, unmarshal_cmd, handle_cmd_id}
use ipod.Command.RoundTrip.{Carries, TrxFits, on_wire, unmarshal_cmd-marshal_cmd}
use ipod.ExtRemote.Payloads.{ExtPayload, ext_code}
use ipod.ExtRemote.Structs.{ext_new, ext_layout}
use ipod.ExtRemote.Values.{ext_fields, ext_refill}
use ipod.ExtRemote.Codec.{ext_payloads}
use ipod.ExtRemote.Registration.{Single, ext_registered_alone}
use ipod.ExtRemote.Tags.{ext_code_lt}
use ipod.ExtRemote.Writing.{ExtFixed, ext_marshal_lem, ext_layout-ext_new}
use ipod.ExtRemote.Reading.{ext_unmarshal_lem, ext_refill-ext_fields}

abbrev pub ext_id : ExtPayload → ℕ
ext_id p = new_lingo_cmd_id lingo_ext_remote_id (ext_code p)

ext_id-ValidId : (p : ExtPayload) → ValidId (ext_id p)
unfolding cmd_id_len
ext_id-ValidId p = record {
  lingo = lingo_ext_remote_id;
  cmd = ext_code p;
  id_lem = refl;
  lingo_lt = omega arith;
  cmd_lt = ext_code_lt p;
}

pub ExtFixed-Carries :
    (p : ExtPayload)
    → ExtFixed p
    → Single p
    → (bytes : List ℕ) × Carries ext_payloads p (ext_id p) bytes
unfolding ext_payloads binary_size
ExtFixed-Carries p h one =
    let w = binary_read-binary_write (ext_layout p) (ext_fields p) [] h in
    let read_back : binary_read (ext_layout p) w.0 ≡ ok (ext_fields p, []) =
      subst (λ x. binary_read (ext_layout p) x ≡ ok (ext_fields p, [])) (append-nil w.0) w.3 in
    (
      w.0,
      record {
        marshal_lem = ext_marshal_lem p h ∙ w.1;
        unmarshal_lem =
            ext_unmarshal_lem p w.0 h
            ∙ ap (λ (r : Result (List ℕ × List ℕ)). r >>= λ got. ok (ext_refill (ext_new p) got.0))
                read_back
            ∙ ap ok (ext_refill-ext_fields p h);
        size_cases = inl (ap binary_size (ext_layout-ext_new p) ∙ w.2);
        id_valid = ext_id-ValidId p;
        alone = ext_registered_alone p one;
      },
    )

-- Every extended remote payload whose struct has a fixed size, whose fields can hold their values and
-- whose tag has no other type survives its packet, with the two bytes of its command id: a serde in the
-- same state unmarshals the same command with no error. With transactions on, the command must have one.
pub ext_cmd_round_trip :
    (s : CommandSerde) (t : Option ℕ) (p : ExtPayload)
    → ExtFixed p
    → Single p
    → TrxFits (handle_cmd_id s (ext_id p)).trx_enabled t
    → (pkt : List ℕ) × (marshal_cmd ext_payloads s
          (record { id = ext_id p; transaction = t; payload = some (known p) })
        ≡ (handle_cmd_id s (ext_id p), ok pkt))
      × (unmarshal_cmd ext_payloads s pkt ≡ (
        handle_cmd_id s (ext_id p),
        ok (
          record {
            id = ext_id p;
            transaction = on_wire (handle_cmd_id s (ext_id p)).trx_enabled t;
            payload = some (known p);
          },
          none,
        ),
      ))
ext_cmd_round_trip s t p h one fits =
    let c = ExtFixed-Carries p h one in
    unmarshal_cmd-marshal_cmd ext_payloads s (ext_id p) t p c.0 c.1 fits
