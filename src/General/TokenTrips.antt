-- ===== src/General/TokenTrips.antt =====
-- lingo-general/general.go: lists of identification tokens, written and read back.
use ipod.Base.{
  ℕ, suc, ◌+◌, ◌%◌, ◌<◌, ◌≡◌, refl, ap, ◌∙◌, subst, List, [], ◌∷◌, ◌++◌, append-nil, append_assoc,
  arith, Result, ok, err, panic, ◌>>=◌, length, take-append_exact, drop-append_exact,
}
use ipod.General.Tokens.{FidTokenValue, new_token, unmarshal_token, unmarshal_token_value}
use ipod.General.TokenLists.{marshal_each, marshal_tokens, unmarshal_each, unmarshal_tokens}
use ipod.General.TokenValues.{Writable, Writable-Carried}

-- What can be written, token by token.
abbrev pub WritableAll : List FidTokenValue → Type 0
WritableAll [] = Unit {0}
WritableAll (v ∷ vs) = Writable v × WritableAll vs

bind_ok : (r : Result (List FidTokenValue)) → r ≡ (r >>= λ x. ok x)
bind_ok (ok x) = refl
bind_ok (err e) = refl
bind_ok panic = refl

-- The loop takes what was written of some tokens, and then goes on with what stands behind.
pub each_then :
    (vs : List FidTokenValue) (m : ℕ) (rest : List ℕ)
    → WritableAll vs
    → (bytes : List ℕ) × (marshal_each vs ≡ ok bytes)
      × (unmarshal_each (length vs + m) (bytes ++ rest)
          ≡ (unmarshal_each m rest >>= λ more. ok (vs ++ more)))
unfolding marshal_each unmarshal_each
each_then [] m rest h = ([], refl, nothing_before (0 + m) m (omega arith))
  where
    nothing_before :
        (k m : ℕ) → k ≡ m → unmarshal_each k rest ≡ (unmarshal_each m rest >>= λ more. ok more)
    nothing_before k m e = rw e (bind_ok (unmarshal_each m rest))
each_then (v ∷ vs) m rest h =
    let c = Writable-Carried h.0 in
    let more = each_then vs m rest h.1 in
    let len : length c.bytes % 256 ≡ length c.bytes = omega (arith, c.short_lem) in
    let count : suc (length vs) + m ≡ suc (length vs + m) = omega arith in
    (
      (length c.bytes % 256) ∷ (c.bytes ++ more.0),
      rw (c.marshal_lem, more.1) refl,
      rw
          (
            count,
            len,
            append_assoc c.bytes more.0 rest,
            take-append_exact (length c.bytes) c.bytes (more.0 ++ rest) refl,
            drop-append_exact (length c.bytes) c.bytes (more.0 ++ rest) refl,
            c.unmarshal_lem,
            more.2,
          )
          (bind_assoc (unmarshal_each m rest)),
    )
  where
    bind_assoc :
        (r : Result (List FidTokenValue))
        → ((r >>= λ more. ok (vs ++ more)) >>= λ all. ok (v ∷ all))
          ≡ (r >>= λ more. ok (v ∷ (vs ++ more)))
    bind_assoc (ok more) = refl
    bind_assoc (err e) = refl
    bind_assoc panic = refl

whole :
    (n k : ℕ) (bytes : List ℕ) (vs : List FidTokenValue)
    → k ≡ n
    → unmarshal_each k (bytes ++ []) ≡ (unmarshal_each 0 [] >>= λ more. ok (vs ++ more))
    → unmarshal_each n bytes ≡ ok vs
unfolding unmarshal_each
whole n k bytes vs e h =
    let h' = subst (λ x. unmarshal_each x (bytes ++ []) ≡ ok (vs ++ [])) e h in
    subst (λ x. unmarshal_each n x ≡ ok (vs ++ [])) (append-nil bytes) h' ∙ ap ok (append-nil vs)

-- Identification tokens, up to 255 of them, survive their list: tokens of all types that can be
-- written, and tokens of unknown ids, are read back in order, with their ids and values.
pub unmarshal_tokens-marshal_tokens :
    (vs : List FidTokenValue)
    → WritableAll vs
    → length vs < 256
    → (bytes : List ℕ) × (marshal_tokens vs ≡ ok bytes) × (unmarshal_tokens bytes ≡ ok vs)
unfolding marshal_tokens unmarshal_tokens
unmarshal_tokens-marshal_tokens vs h few =
    let e = each_then vs 0 [] h in
    let count : length vs % 256 ≡ length vs = omega arith in
    (
      (length vs % 256) ∷ e.0,
      rw e.1 refl,
      rw count (whole (length vs) (length vs + 0) e.0 vs (omega arith) e.2),
    )

-- A token of an accessory protocol that has no bytes, behind any tokens that can be written, makes the
-- reading of the list panic, whatever follows.
pub no_protocol_panics :
    (vs : List FidTokenValue) (m : ℕ) (rest : List ℕ)
    → WritableAll vs
    → (bytes : List ℕ) × (marshal_each vs ≡ ok bytes)
      × (unmarshal_tokens ((length vs + suc m) ∷ (bytes ++ (2 ∷ 0 ∷ 4 ∷ rest))) ≡ panic)
unfolding unmarshal_tokens unmarshal_each unmarshal_token_value new_token unmarshal_token
no_protocol_panics vs m rest h =
    let e = each_then vs (suc m) (2 ∷ 0 ∷ 4 ∷ rest) h in (e.0, e.1, e.2)
