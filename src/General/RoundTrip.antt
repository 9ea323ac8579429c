-- ===== src/General/RoundTrip.antt =====
-- lingo-general: payloads in their packets, written and read back.
use ipod.Base.{
  ℕ, ◌≤◌, ◌<◌, ◌≡◌, refl, ap, ◌∙◌, subst, inl, inr, Option, none, some, List, [], ◌++◌, append-nil,
  arith, Result, ok, ◌>>=◌, length,
}
use ipod.Wire.{be32, binary_size, binary_read}
use ipod.Wire.Laws.{binary_read-binary_write}
use ipod.Command.{CommandSerde, known, marshal_cmd, unmarshal_cmd, handle_cmd_id}
use ipod.Command.RoundTrip.{Carries, TrxFits, on_wire, unmarshal_cmd-marshal_cmd}
use ipod.General.Tokens.{FidTokenValue}
use ipod.General.TokenTrips.{WritableAll, unmarshal_tokens-marshal_tokens}
use ipod.General.Payloads.{
  GeneralPayload, return_ipod_name, return_ipod_serial_num, return_ipod_model_num,
  ret_dev_authentication_info, set_fid_token_values,
}
use ipod.General.Types.{general_new}
use ipod.General.Structs.{general_layout}
use ipod.General.Values.{general_fields, general_refill}
use ipod.General.Codec.{
  general_marshal, general_unmarshal, general_payloads, marshal_auth_info, unmarshal_auth_info,
}
use ipod.General.Registration.{general_id, general_id-ValidId, Single, general_registered_alone}
use ipod.General.Writing.{
  GeneralFixed, general_layout-general_new, general_marshal_lem, general_unmarshal_lem,
  general_refill-general_fields,
}

-- The payloads that survive: those whose struct has a fixed size, whose fields can hold their values
-- and whose tag has no other type; the texts; the certificates, which have sections from the major
-- version 2 on; and the identification tokens that can be written.
pub data Surviving : GeneralPayload → Type 0 where
  sized : (p : GeneralPayload) → GeneralFixed p → Single p → Surviving p
  name : (text : List ℕ) → Surviving (return_ipod_name text)
  serial : (text : List ℕ) → Surviving (return_ipod_serial_num text)
  model : (id : ℕ) (text : List ℕ) → id < 4294967296 → Surviving (return_ipod_model_num id text)
  section :
      (major minor current max : ℕ) (cert : List ℕ)
      → 2 ≤ major
      → major < 256
      → minor < 256
      → current < 256
      → max < 256
      → Surviving (ret_dev_authentication_info major minor current max cert)
  no_section :
      (major minor : ℕ)
      → major < 2
      → minor < 256
      → Surviving (ret_dev_authentication_info major minor 0 0 [])
  tokens :
      (values : List FidTokenValue)
      → WritableAll values
      → length values < 256
      → Surviving (set_fid_token_values values)

section_back :
    (major minor current max : ℕ) (cert : List ℕ)
    → 2 ≤ major
    → major < 256
    → minor < 256
    → current < 256
    → max < 256
    → unmarshal_auth_info (marshal_auth_info major minor current max cert)
      ≡ ok (ret_dev_authentication_info major minor current max cert)
unfolding unmarshal_auth_info marshal_auth_info
section_back major minor current max cert h h1 h2 h3 h4 = ground arith

no_section_back :
    (major minor : ℕ)
    → major < 2
    → minor < 256
    → unmarshal_auth_info (marshal_auth_info major minor 0 0 [])
      ≡ ok (ret_dev_authentication_info major minor 0 0 [])
unfolding unmarshal_auth_info marshal_auth_info
no_section_back major minor h h1 = ground arith

sized-Carries :
    (p : GeneralPayload)
    → GeneralFixed p
    → Single p
    → (bytes : List ℕ) × Carries general_payloads p (general_id p) bytes
unfolding general_payloads binary_size
sized-Carries p h one =
    let w = binary_read-binary_write (general_layout p) (general_fields p) [] h in
    let read_back : binary_read (general_layout p) w.0 ≡ ok (general_fields p, []) =
      subst (λ x. binary_read (general_layout p) x ≡ ok (general_fields p, [])) (append-nil w.0)
        w.3 in
    (
      w.0,
      record {
        marshal_lem = general_marshal_lem p h ∙ w.1;
        unmarshal_lem =
            general_unmarshal_lem p w.0 h
            ∙ ap
                (λ (r : Result (List ℕ × List ℕ)).
                  r >>= λ got. ok (general_refill (general_new p) got.0))
                read_back
            ∙ ap ok (general_refill-general_fields p h);
        size_cases = inl (ap binary_size (general_layout-general_new p) ∙ w.2);
        id_valid = general_id-ValidId p;
        alone = general_registered_alone p one;
      },
    )

-- A payload with a `MarshalBinary` of its own, whose struct has no fixed size.
unsized-Carries :
    (p : GeneralPayload) (bytes : List ℕ)
    → general_marshal p ≡ ok bytes
    → general_unmarshal (general_new p) bytes ≡ ok p
    → binary_size (general_layout (general_new p)) ≡ none
    → Single p
    → (bytes : List ℕ) × Carries general_payloads p (general_id p) bytes
unfolding general_payloads
unsized-Carries p bytes m u unsized one = (
  bytes,
  record {
    marshal_lem = m;
    unmarshal_lem = u;
    size_cases = inr unsized;
    id_valid = general_id-ValidId p;
    alone = general_registered_alone p one;
  },
)

pub Surviving-Carries :
    {p : GeneralPayload}
    → Surviving p
    → (bytes : List ℕ) × Carries general_payloads p (general_id p) bytes
unfolding general_marshal general_unmarshal general_new general_layout binary_size
Surviving-Carries (sized p h one) = sized-Carries p h one
Surviving-Carries (name text) = unsized-Carries (return_ipod_name text) text refl refl refl tt
Surviving-Carries (serial text) =
    unsized-Carries (return_ipod_serial_num text) text refl refl refl tt
Surviving-Carries (model id text h) =
    unsized-Carries (return_ipod_model_num id text) (be32 id ++ text) refl
      (ap (λ x. ok (return_ipod_model_num x text)) (omega arith)) refl tt
Surviving-Carries (section major minor current max cert h h1 h2 h3 h4) =
    unsized-Carries (ret_dev_authentication_info major minor current max cert)
      (marshal_auth_info major minor current max cert) refl
      (section_back major minor current max cert h h1 h2 h3 h4) refl tt
Surviving-Carries (no_section major minor h h1) =
    unsized-Carries (ret_dev_authentication_info major minor 0 0 [])
      (marshal_auth_info major minor 0 0 []) refl (no_section_back major minor h h1) refl tt
Surviving-Carries (tokens values h few) =
    let back = unmarshal_tokens-marshal_tokens values h few in
    unsized-Carries (set_fid_token_values values) back.0 back.1
      (ap (λ r. r >>= λ vs. ok (set_fid_token_values vs)) back.2) refl tt

-- Payloads of the general lingo survive their packets: those of a fixed size whose fields can hold their
-- values and whose tag has no other type, the iPod's name, serial number and model, the sections of
-- certificates, and the lists of identification tokens. A serde in the same state unmarshals the same
-- command with no error. With transactions on, the command must have one.
pub general_cmd_round_trip :
    (s : CommandSerde) (t : Option ℕ) (p : GeneralPayload)
    → Surviving p
    → TrxFits (handle_cmd_id s (general_id p)).trx_enabled t
    → (pkt : List ℕ) × (marshal_cmd general_payloads s
          (record { id = general_id p; transaction = t; payload = some (known p) })
        ≡ (handle_cmd_id s (general_id p), ok pkt))
      × (unmarshal_cmd general_payloads s pkt ≡ (
        handle_cmd_id s (general_id p),
        ok (
          record {
            id = general_id p;
            transaction = on_wire (handle_cmd_id s (general_id p)).trx_enabled t;
            payload = some (known p);
          },
          none,
        ),
      ))
general_cmd_round_trip s t p h fits =
    let c = Surviving-Carries h in
    unmarshal_cmd-marshal_cmd general_payloads s (general_id p) t p c.0 c.1 fits
