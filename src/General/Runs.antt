-- ===== src/General/Runs.antt =====
-- lingo-general: identification tokens at concrete inputs.
use ipod.Base.{
  ℕ, suc, ◌+◌, ◌*◌, ◌≤◌, ◌≡◌, refl, ◌⊎◌, true, false, some, List, [], ◌∷◌, ◌++◌, arith, ok, err,
  panic, unknown_ack, length,
}
use ipod.General.Tokens.{FidTokenValue, acc_caps_token, bytes_token, marshal_token_value, new_token}
use ipod.General.TokenLists.{marshal_each, marshal_tokens, unmarshal_tokens, marshal_acks}
use ipod.General.Acks.{ack_token, ack_fid_token_value, ack_fid_token_values}
use ipod.General.TokenValues.{Writable, acc_caps, unknown}
use ipod.General.TokenTrips.{unmarshal_tokens-marshal_tokens, no_protocol_panics}
use ipod.General.Refusals.{all_known, acks_cases}

-- The capabilities of an accessory, and a token of a type that the program does not know.
abbrev caps : FidTokenValue
caps = record { fid_type = 0; fid_subtype = 1; token = some (acc_caps_token 0x210) }

abbrev strange : FidTokenValue
strange = record { fid_type = 0; fid_subtype = 9; token = some (bytes_token (5 ∷ 6 ∷ [])) }

caps-Writable : Writable caps
caps-Writable = acc_caps 0x210 (omega arith)

strange-Writable : Writable strange
unfolding new_token
strange-Writable =
    unknown 0 9 (5 ∷ 6 ∷ []) (omega arith) (omega arith) refl (omega arith, (omega arith, tt))
      (omega arith)

strange_bytes : marshal_tokens (strange ∷ []) ≡ ok (1 ∷ 4 ∷ 0 ∷ 9 ∷ 5 ∷ 6 ∷ [])
unfolding marshal_tokens marshal_each marshal_token_value
strange_bytes = refl

caps_acknowledged :
    ack_fid_token_values (caps ∷ [])
    ≡ record { fid_type = 0; fid_subtype = 1; ack = some (0 ∷ []) } ∷ []
unfolding ack_fid_token_values ack_fid_token_value ack_token
caps_acknowledged = refl

unmarshal_tokens-marshal_tokens_example :
    (bytes : List ℕ) × (marshal_tokens (caps ∷ strange ∷ []) ≡ ok bytes)
    × (unmarshal_tokens bytes ≡ ok (caps ∷ strange ∷ []))
unmarshal_tokens-marshal_tokens_example =
    unmarshal_tokens-marshal_tokens (caps ∷ strange ∷ []) (caps-Writable, (strange-Writable, tt))
      (omega arith)

no_protocol_panics_example :
    (bytes : List ℕ) × (marshal_each (caps ∷ []) ≡ ok bytes)
    × (unmarshal_tokens ((length (caps ∷ []) + suc 0) ∷ (bytes ++ (2 ∷ 0 ∷ 4 ∷ []))) ≡ panic)
no_protocol_panics_example = no_protocol_panics (caps ∷ []) 0 [] (caps-Writable, tt)

acks_cases_example :
    ((all_known (caps ∷ strange ∷ []) ≡ true)
      × ((bytes : List ℕ) × (marshal_acks (ack_fid_token_values (caps ∷ strange ∷ [])) ≡ ok bytes)
          × (length bytes ≤ 5 * length (caps ∷ strange ∷ []) + 1)))
    ⊎ ((all_known (caps ∷ strange ∷ []) ≡ false)
        × (marshal_acks (ack_fid_token_values (caps ∷ strange ∷ [])) ≡ err unknown_ack))
acks_cases_example = acks_cases (caps ∷ strange ∷ [])
