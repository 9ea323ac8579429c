-- ===== src/General/Authentication.antt =====
-- lingo-general/handler.go: the certificate of the other side, section by section.
use ipod.Base.{
  ℕ, ◌+◌, ◌%◌, ◌≤◌, ◌<◌, ◌≡◌, refl, ap, ◌∙◌, Option, List, [], ◌∷◌, ◌++◌, append_assoc, append-nil,
  arith, false, ltb, lt→ltb, le→leb, ◌==◌, if◌then◌else◌, length,
}
use ipod.Command.{Payloads, Command, Out}
use ipod.General.Payloads.{
  GeneralPayload, ret_dev_authentication_info, ack_dev_authentication_info,
  get_dev_authentication_signature_v2,
}
use ipod.General.Device.{Part, DeviceGeneral}
use ipod.General.Handler.{
  General, ack_success, challenge_of, receive_cert, handle_msg, handle_general,
}
use ipod.General.Speaking.{
  IsRegistered, saying, answering, asking, said, respond_lem, send_lem, handle_each,
  handle_general_lem, handle_general_lem,
}

-- A section of a certificate, and the request that brings it.
pub record Section : Type 0 where
  pub id : ℕ
  pub transaction : Option ℕ
  pub minor : ℕ
  pub cert : List ℕ

abbrev pub whole_cert : List Section → List ℕ
whole_cert [] = []
whole_cert (s ∷ ss) = s.cert ++ whole_cert ss

module _ {P T D : Type 0} (payloads : Payloads P T) (part : Part GeneralPayload P)
    (ops : DeviceGeneral P D) where
  -- The requests for sections from this number on.
  abbrev pub bring : ℕ → ℕ → ℕ → List Section → List (Command P)
  bring major max current [] = []
  bring major max current (s ∷ ss) =
      saying payloads part s.id s.transaction
        (ret_dev_authentication_info major s.minor current max s.cert)
      ∷ bring major max (current + 1) ss

  abbrev pub acked : List Section → List (Command P)
  acked [] = []
  acked (s ∷ ss) = answering payloads part s.transaction (ack_success s.id) ∷ acked ss

  module _ (registered : IsRegistered payloads part) where
    middle_section :
        (g : General D) (s : Section) (major current max : ℕ) (out : Out P)
        → 2 ≤ major
        → current < max
        → handle_general payloads part ops g
            (saying payloads part s.id s.transaction
              (ret_dev_authentication_info major s.minor current max s.cert))
            out
          ≡ (
            record g { cert_buf = (if current == 0 then [] else g.cert_buf) ++ s.cert },
            said payloads part out (answering payloads part s.transaction (ack_success s.id) ∷ []),
          )
    unfolding handle_msg receive_cert
    middle_section g s major current max out h k =
        handle_general_lem payloads part ops g s.id s.transaction _ out
        ∙ rw (le→leb 2 major h, lt→ltb current max k)
            (rw (respond_lem payloads part registered _ (ack_success s.id) out) refl)

    last_section :
        (g : General D) (s : Section) (major max : ℕ) (out : Out P)
        → 2 ≤ major
        → handle_general payloads part ops g
            (saying payloads part s.id s.transaction
              (ret_dev_authentication_info major s.minor max max s.cert))
            out
          ≡ (
            record {
              dev = (challenge_of payloads part ops g.dev ops.generate_auth_challenge).0;
              cert_buf = (if max == 0 then [] else g.cert_buf) ++ s.cert;
            },
            record {
              commands =
                  out.commands
                  ++ (answering payloads part s.transaction (ack_dev_authentication_info 0x00)
                      ∷ asking payloads part out.trx_counter (
                          get_dev_authentication_signature_v2
                            (challenge_of payloads part ops g.dev ops.generate_auth_challenge).1
                            0x01)
                      ∷ []);
              trx_counter = (out.trx_counter + 1) % 4294967296;
            },
          )
    unfolding handle_msg receive_cert
    last_section g s major max out h =
        let not_less : ltb max max ≡ false = ground arith in
        handle_general_lem payloads part ops g s.id s.transaction _ out
        ∙ rw (le→leb 2 major h, not_less)
            (rw
              (
                respond_lem payloads part registered _ (ack_dev_authentication_info 0x00) out,
                send_lem payloads part registered _ _,
              )
              (simp append_assoc))

    -- The dialogue from a section on: an acknowledgement of each one, and a challenge behind the last.
    abbrev pub dialogue : List Section → Section → D → Out P → Out P
    dialogue ss s dev out = record {
      commands =
          out.commands
          ++ (acked ss
              ++ (answering payloads part s.transaction (ack_dev_authentication_info 0x00)
                  ∷ asking payloads part out.trx_counter (
                      get_dev_authentication_signature_v2
                        (challenge_of payloads part ops dev ops.generate_auth_challenge).1 0x01)
                  ∷ []));
      trx_counter = (out.trx_counter + 1) % 4294967296;
    }

    from_section :
        (ss : List Section) (s : Section) (g : General D) (major current max : ℕ) (out : Out P)
        → 2 ≤ major
        → current + length ss ≡ max
        → handle_each payloads part ops g (bring major max current (ss ++ (s ∷ []))) out ≡ (
          record {
            dev = (challenge_of payloads part ops g.dev ops.generate_auth_challenge).0;
            cert_buf = (if current == 0 then [] else g.cert_buf) ++ whole_cert (ss ++ (s ∷ []));
          },
          dialogue ss s g.dev out,
        )
    from_section [] s g major current max out h e =
        let here : current ≡ max = omega arith in
        rw here (last_section g s major max out h ∙ rw (append-nil s.cert) refl)
    from_section (next ∷ ss) s g major current max out h e =
        let base = if current == 0 then [] else g.cert_buf in
        let later : (current + 1 == 0) ≡ false = ground arith in
        ap
          (λ (done : General D × Out P).
            handle_each payloads part ops done.0 (bring major max (current + 1) (ss ++ (s ∷ [])))
              done.1)
          (middle_section g next major current max out h (omega arith))
        ∙ from_section ss s (record g { cert_buf = base ++ next.cert }) major (current + 1) max _ h
            (omega arith)
        ∙ rw (later, append_assoc base next.cert (whole_cert (ss ++ (s ∷ [])))) (simp append_assoc)

    -- A certificate that is brought in sections, numbered from 0 up to the last one that they announce, is
    -- put together whole in their order, whatever the buffer held before. Each section but the last is
    -- acknowledged with its own transaction; the last one is accepted with its own, and is followed by
    -- the challenge, with the next transaction of the own side.
    pub certificate_collected :
        (ss : List Section) (s : Section) (g : General D) (major : ℕ) (out : Out P)
        → 2 ≤ major
        → handle_each payloads part ops g (bring major (length ss) 0 (ss ++ (s ∷ []))) out ≡ (
          record {
            dev = (challenge_of payloads part ops g.dev ops.generate_auth_challenge).0;
            cert_buf = whole_cert (ss ++ (s ∷ []));
          },
          dialogue ss s g.dev out,
        )
    certificate_collected ss s g major out h =
        from_section ss s g major 0 (length ss) out h (omega arith)
