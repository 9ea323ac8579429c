-- ===== src/Audio/Handshake.antt =====
-- lingo-audio: what holds of the handshake.
use ipod.Base.{ℕ, ◌<◌, ◌≡◌, refl, ap, List, [], ◌∷◌, ◌++◌, arith, length, All}
use ipod.Audio.Payloads.{marshal_rates, unmarshal_rates}

-- Sample rates of 32 bits are read back from their bytes, all and in order, and so they are from bytes
-- with up to three more behind them.
pub unmarshal_rates-marshal_rates :
    (rates extra : List ℕ)
    → All (λ r. r < 4294967296) rates
    → length extra < 4
    → unmarshal_rates (marshal_rates rates ++ extra) ≡ rates
unfolding unmarshal_rates marshal_rates
unmarshal_rates-marshal_rates [] extra h few = no_rates extra few
  where
    no_rates : (extra : List ℕ) → length extra < 4 → unmarshal_rates extra ≡ []
    no_rates [] few = refl
    no_rates (a ∷ []) few = refl
    no_rates (a ∷ b ∷ []) few = refl
    no_rates (a ∷ b ∷ c ∷ []) few = refl
    no_rates (a ∷ b ∷ c ∷ d ∷ more) few = absurd (omega arith)
unmarshal_rates-marshal_rates (r ∷ rates) extra h few =
    rw (unmarshal_rates-marshal_rates rates extra h.1 few)
      (ap (λ x. x ∷ rates) (omega (arith, h.0)))
