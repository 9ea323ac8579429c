-- ===== src/Command/RoundTrip.antt =====
-- cmd.go: a command in its packet, written and read back.
use ipod.Base.{
  ℕ, ◌<◌, ◌≡◌, refl, ap, ◌∙◌, ◌⊎◌, inl, inr, Bool, true, false, Option, none, some, List, [], ◌∷◌,
  ◌++◌, arith, ok, length,
}
use ipod.Lingo.Ids.{ValidId, marshal_lingo_cmd_id, unmarshal_lingo_cmd_id-marshal_lingo_cmd_id}
use ipod.Lingo.Registry.{lookup, lookup_sized, types_of}
use ipod.Command.{
  Payloads, known, CommandSerde, handle_cmd_id, marshal_trx, split_trx, marshal_cmd, unmarshal_cmd,
  with_id,
}

-- What a packet keeps of a transaction.
abbrev pub on_wire : Bool → Option ℕ → Option ℕ
on_wire true t = t
on_wire false t = none

-- With transactions on, a command has one, of 16 bits.
abbrev pub TrxFits : Bool → Option ℕ → Type 0
TrxFits true (some t) = t < 65536
TrxFits true none = ⊥
TrxFits false t = Unit {0}

module _ {P T : Type 0} (payloads : Payloads P T) where
  -- A payload that is written as these bytes and read back from them, and whose type is the only one of
  -- its command id.
  pub record Carries (p : P) (id : ℕ) (bytes : List ℕ) : Type 0 where
    pub marshal_lem : payloads.marshal p ≡ ok bytes
    pub unmarshal_lem : payloads.unmarshal (payloads.type_of p) bytes ≡ ok p
    pub size_cases :
        (payloads.size (payloads.type_of p) ≡ some (length bytes))
        ⊎ (payloads.size (payloads.type_of p) ≡ none)
    pub id_valid : ValidId id
    pub alone : types_of payloads.registry.by_id id ≡ some (payloads.type_of p ∷ [])

  found_alone :
      (p : P) (id : ℕ) (bytes : List ℕ) (trx : Bool) (t : Option ℕ)
      → Carries p id bytes
      → TrxFits trx t
      → lookup payloads.size payloads.registry id (length (marshal_trx trx t ++ bytes)) trx
        ≡ some (record { payload = payloads.type_of p; transaction = trx })
  unfolding lookup lookup_sized
  found_alone p id bytes true (some t) c fits = elim c.size_cases [
    | inl sized ↦ rw (c.alone, sized, lookup, lookup_sized) (ground arith)
    | inr unsized ↦ rw (c.alone, unsized, lookup, lookup_sized) refl
  ]
  found_alone p id bytes false t c fits = elim c.size_cases [
    | inl sized ↦ rw (c.alone, sized, lookup, lookup_sized) (ground arith)
    | inr unsized ↦ rw (c.alone, unsized, lookup, lookup_sized) refl
  ]
  found_alone p id bytes true none c fits = elim fits [ ]

  split_back :
      (bytes : List ℕ) (trx : Bool) (t : Option ℕ)
      → TrxFits trx t
      → split_trx trx (marshal_trx trx t ++ bytes) ≡ ok (on_wire trx t, bytes)
  split_back bytes true (some t) fits = ap (λ x. ok (some x, bytes)) (omega arith)
  split_back bytes false t fits = refl
  split_back bytes true none fits = elim fits [ ]

  -- A command whose payload its lingo carries is marshalled, and a serde in the same state unmarshals
  -- it with no error: the id and the payload are the same, and so is the transaction where transactions
  -- are on; both serdes are then in the same state. With transactions on, the command must have one.
  pub unmarshal_cmd-marshal_cmd :
      (s : CommandSerde) (id : ℕ) (t : Option ℕ) (p : P) (bytes : List ℕ)
      → Carries p id bytes
      → TrxFits (handle_cmd_id s id).trx_enabled t
      → (pkt : List ℕ) × (marshal_cmd payloads s
            (record { id = id; transaction = t; payload = some (known p) })
          ≡ (handle_cmd_id s id, ok pkt))
        × (unmarshal_cmd payloads s pkt ≡ (
          handle_cmd_id s id,
          ok (
            record {
              id = id;
              transaction = on_wire (handle_cmd_id s id).trx_enabled t;
              payload = some (known p);
            },
            none,
          ),
        ))
  unfolding marshal_cmd unmarshal_cmd
  unmarshal_cmd-marshal_cmd s id t p bytes c fits =
      let trx = (handle_cmd_id s id).trx_enabled in
      let body = marshal_trx trx t ++ bytes in
      (
        marshal_lingo_cmd_id id ++ body,
        rw c.marshal_lem refl,
        ap (with_id payloads s) (unmarshal_lingo_cmd_id-marshal_lingo_cmd_id id body c.id_valid)
            ∙ rw (found_alone p id bytes trx t c fits, split_back bytes trx t fits, c.unmarshal_lem)
                refl,
      )
