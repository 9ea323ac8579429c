-- ===== src/Lingo/Registry.antt =====
-- The registry of lingo.go: payload types by command id, and back.
use ipod.Base.{
  ℕ, ◌+◌, ◌%◌, Bool, true, false, Option, none, some, List, [], ◌∷◌, ◌++◌, Result, ok, err, panic,
  ◌==◌, if◌then◌else◌,
}
use ipod.Lingo.Ids.{new_lingo_cmd_id}

-- The maps mIDToType and mTypeToID over types T; an id that is missing from the first has no types.
pub record Registry (T : Type 0) : Type 0 where
  pub by_id : List (ℕ × List T)
  pub by_type : List (T × ℕ)

abbrev pub no_types : {T : Type 0} → Registry T
no_types = record { by_id = []; by_type = [] }

abbrev pub found : {A : Type 0} → Bool → A → Option A → Option A
found hit a other = if hit then some a else other

module _ {T : Type 0} where
  -- mIDToType[id]
  unfoldable pub types_of : List (ℕ × List T) → ℕ → Option (List T)
  types_of [] id = none
  types_of ((key, types) ∷ more) id = if key == id then some types else types_of more id

  -- mIDToType[cmd] = append(mIDToType[cmd], t)
  unfoldable pub append_type : List (ℕ × List T) → ℕ → T → List (ℕ × List T)
  append_type [] cmd t = (cmd, t ∷ []) ∷ []
  append_type ((key, types) ∷ more) cmd t =
      if key == cmd then (key, types ++ (t ∷ [])) ∷ more else (key, types) ∷ append_type more cmd t

  unfoldable pub store_mapping : Registry T → ℕ → T → Registry T
  store_mapping r cmd t = record {
    by_id = append_type r.by_id cmd t;
    by_type = (t, cmd) ∷ r.by_type;
  }

  -- `RegisterLingos` on the fields of the struct: the id that `parseIdTag` found in the tag, which is
  -- cut to a uint16, or its error, and the field's type. What stands before an error stays registered.
  unfoldable pub register_lingos :
      ℕ → List (Result ℕ × T) → Registry T → Registry T × Result (Unit {0})
  register_lingos lingo [] r = (r, ok tt)
  register_lingos lingo ((err e, t) ∷ fields) r = (r, err e)
  register_lingos lingo ((panic, t) ∷ fields) r = (r, panic)
  register_lingos lingo ((ok tag, t) ∷ fields) r =
      register_lingos lingo fields (store_mapping r (new_lingo_cmd_id lingo (tag % 65536)) t)

module _ {T : Type 0} (same : T → T → Bool) where
  -- mTypeToID[t]
  unfoldable pub id_of : List (T × ℕ) → T → Option ℕ
  id_of [] t = none
  id_of ((key, id) ∷ more) t = if same key t then some id else id_of more t

  -- `LookupID` of a pointer to a value of the type.
  unfoldable pub lookup_id : Registry T → T → Option ℕ
  lookup_id r t = id_of r.by_type t

pub record LookupResult (T : Type 0) : Type 0 where
  pub payload : T
  pub transaction : Bool

module _ {T : Type 0} (size : T → Option ℕ) where
  -- The loop of `Lookup` over the types of an id: the first one whose size is that of the payload, or
  -- smaller by the two bytes of a transaction.
  unfoldable pub lookup_sized : List T → ℕ → Option (LookupResult T)
  lookup_sized [] n = none
  lookup_sized (p ∷ ps) n =
      let rest = lookup_sized ps n in
      elim (size p) [
        | none ↦ rest
        | some s ↦
            if s == n
            then some (record { payload = p; transaction = false })
            else if s + 2 == n
            then some (record { payload = p; transaction = true })
            else rest
      ]

  -- Behind the loop: the one type of the id, if it has no other.
  abbrev pub lookup_only : List T → Bool → Option (LookupResult T)
  lookup_only (p ∷ []) default_trx = some (record { payload = p; transaction = default_trx })
  lookup_only _ default_trx = none

  abbrev pub or_only : List T → Bool → Option (LookupResult T) → Option (LookupResult T)
  or_only ps default_trx (some r) = some r
  or_only ps default_trx none = lookup_only ps default_trx

  unfoldable pub lookup : Registry T → ℕ → ℕ → Bool → Option (LookupResult T)
  unfolding lookup_sized
  lookup r id payload_size default_trx = elim (types_of r.by_id id) [
    | none ↦ none
    | some ps ↦ or_only ps default_trx (lookup_sized ps payload_size)
  ]
