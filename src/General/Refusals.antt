-- ===== src/General/Refusals.antt =====
-- lingo-general: what the general lingo cannot answer or read.
use ipod.Base.{
  ℕ, ◌+◌, ◌*◌, ◌%◌, ◌≤◌, ◌<◌, ◌≡◌, refl, ◌⊎◌, inl, inr, Bool, true, false, ◌&&◌, Option, none, some,
  List, [], ◌∷◌, ◌++◌, arith, ok, err, panic, unknown_ack, length, length-append,
}
use ipod.General.Tokens.{
  FidToken, FidTokenValue, identify_token, acc_caps_token, acc_info_token, ipod_preference_token,
  ea_protocol_token, bundle_seed_id_pref_token, screen_info_token, ea_protocol_metadata_token,
  microphone_caps_token, bytes_token,
}
use ipod.General.TokenLists.{marshal_ack_value, marshal_each_ack, marshal_acks}
use ipod.General.Acks.{ack_token, ack_fid_token_value, ack_fid_token_values}
use ipod.General.Payloads.{request_application_launch}
use ipod.General.Codec.{unmarshal_launch}

-- A token of a known type.
abbrev pub known_token : Option FidToken → Bool
known_token none = false
known_token (some (bytes_token _)) = false
known_token (some _) = true

abbrev pub all_known : List FidTokenValue → Bool
all_known [] = true
all_known (v ∷ vs) = known_token v.token && all_known vs

-- The acknowledgement of one token.
one_ack :
    (v : FidTokenValue)
    → ((known_token v.token ≡ true)
        × ((bytes : List ℕ) × (marshal_ack_value (ack_fid_token_value v) ≡ ok bytes)
            × (length bytes ≤ 4)))
      ⊎ ((known_token v.token ≡ false)
          × (marshal_ack_value (ack_fid_token_value v) ≡ err unknown_ack))
unfolding marshal_ack_value ack_fid_token_value
one_ack v = by_token v.token
  where
    by_token :
        (t : Option FidToken)
        → ((known_token t ≡ true)
            × ((bytes : List ℕ) × (marshal_ack_value (record {
              fid_type = v.fid_type;
              fid_subtype = v.fid_subtype;
              ack = ack_token t;
            })
                  ≡ ok bytes)
                × (length bytes ≤ 4)))
          ⊎ ((known_token t ≡ false)
              × (marshal_ack_value (record {
                fid_type = v.fid_type;
                fid_subtype = v.fid_subtype;
                ack = ack_token t;
              })
                  ≡ err unknown_ack))
    by_token none = inr (refl, refl)
    by_token (some (bytes_token _)) = inr (refl, refl)
    by_token (some (identify_token _ _ _)) = inl (refl, (_, refl, omega arith))
    by_token (some (acc_caps_token _)) = inl (refl, (_, refl, omega arith))
    by_token (some (acc_info_token _ _)) = inl (refl, (_, refl, omega arith))
    by_token (some (ipod_preference_token _ _ _)) = inl (refl, (_, refl, omega arith))
    by_token (some (ea_protocol_token _ _)) = inl (refl, (_, refl, omega arith))
    by_token (some (bundle_seed_id_pref_token _)) = inl (refl, (_, refl, omega arith))
    by_token (some (screen_info_token _ _ _ _ _ _ _ _)) = inl (refl, (_, refl, omega arith))
    by_token (some (ea_protocol_metadata_token _ _)) = inl (refl, (_, refl, omega arith))
    by_token (some (microphone_caps_token _)) = inl (refl, (_, refl, omega arith))

each_ack :
    (vs : List FidTokenValue)
    → ((all_known vs ≡ true)
        × ((bytes : List ℕ) × (marshal_each_ack (ack_fid_token_values vs) ≡ ok bytes)
            × (length bytes ≤ 5 * length vs)))
      ⊎ ((all_known vs ≡ false) × (marshal_each_ack (ack_fid_token_values vs) ≡ err unknown_ack))
unfolding marshal_each_ack ack_fid_token_values
each_ack [] = inl (refl, ([], refl, omega arith))
each_ack (v ∷ vs) = elim (one_ack v) [
  | inr (unknown, e) ↦ inr (rw unknown refl, rw e refl)
  | inl (known, (bytes, e, short)) ↦ elim (each_ack vs) [
    | inl (all, (more, e', short')) ↦ inl (
      rw (known, all) refl,
      (
        (length bytes % 256) ∷ (bytes ++ more),
        rw (e, e') refl,
        omega (arith, length-append bytes more),
      ),
    )
    | inr (unknown, e') ↦ inr (rw (known, unknown) refl, rw (e, e') refl)
  ]
]

-- The acknowledgement of identification tokens has at most five bytes for each of them and one more, if
-- all are of types that the program knows; with a single one of another type it cannot be written at
-- all, and the tokens are not acknowledged.
pub acks_cases :
    (vs : List FidTokenValue)
    → ((all_known vs ≡ true)
        × ((bytes : List ℕ) × (marshal_acks (ack_fid_token_values vs) ≡ ok bytes)
            × (length bytes ≤ 5 * length vs + 1)))
      ⊎ ((all_known vs ≡ false) × (marshal_acks (ack_fid_token_values vs) ≡ err unknown_ack))
unfolding marshal_acks
acks_cases vs = elim (each_ack vs) [
  | inl (known, (bytes, e, short)) ↦
      inl (known, ((length (ack_fid_token_values vs) % 256) ∷ bytes, rw e refl, omega arith))
  | inr (unknown, e) ↦ inr (unknown, rw e refl)
]

-- A request to launch an application is read if it has three bytes at least, and panics otherwise.
pub unmarshal_launch_cases :
    (bytes : List ℕ)
    → ((3 ≤ length bytes)
        × ((a b c : ℕ) × (app_id : List ℕ) × (bytes ≡ a ∷ b ∷ c ∷ app_id)
            × (unmarshal_launch bytes ≡ ok (request_application_launch a b c app_id))))
      ⊎ ((length bytes < 3) × (unmarshal_launch bytes ≡ panic))
unfolding unmarshal_launch
unmarshal_launch_cases [] = inr (omega arith, refl)
unmarshal_launch_cases (a ∷ []) = inr (omega arith, refl)
unmarshal_launch_cases (a ∷ b ∷ []) = inr (omega arith, refl)
unmarshal_launch_cases (a ∷ b ∷ c ∷ app_id) = inl (omega arith, (a, b, c, app_id, refl, refl))
