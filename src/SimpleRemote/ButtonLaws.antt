-- ===== src/SimpleRemote/ButtonLaws.antt =====
-- lingo-simpleremote: button states and their bytes.
use ipod.Base.{
  ℕ, zero, suc, ◌*◌, ◌/◌, ◌^◌, ◌≤◌, ◌<◌, ◌≡◌, refl, ap, subst, sym, ◌⊎◌, inl, inr, arith, ok,
  length, take,
}
use native.Mathlib.Nat.{pow-le-pow_right}
use ipod.SimpleRemote.Buttons.{
  bit_len, byte_len, le32, marshal_button_states, unmarshal_button_states,
}

bit_len_step : (fuel v : ℕ) → 1 ≤ v → bit_len (suc fuel) v ≡ suc (bit_len fuel (v / 2))
unfolding bit_len
bit_len_step fuel v h = ground arith

-- A number lies below the power of two of its length, and not below the one before.
bit_len_below : (fuel v : ℕ) → v < 2 ^ fuel → v < 2 ^ bit_len fuel v
unfolding bit_len
bit_len_below zero v h = h
bit_len_below (suc fuel) zero h = omega arith
bit_len_below (suc fuel) (suc v) h =
    rw (bit_len_step fuel (suc v) (omega arith))
      (omega (arith, bit_len_below fuel (suc v / 2) (omega arith)))

bit_len_le : (fuel v : ℕ) → bit_len fuel v ≤ fuel
unfolding bit_len
bit_len_le zero v = omega arith
bit_len_le (suc fuel) zero = omega arith
bit_len_le (suc fuel) (suc v) =
    rw (bit_len_step fuel (suc v) (omega arith)) (omega (arith, bit_len_le fuel (suc v / 2)))

bit_len_zero : (fuel : ℕ) → bit_len fuel 0 ≡ 0
unfolding bit_len
bit_len_zero zero = refl
bit_len_zero (suc fuel) = refl

bit_len_reached : (fuel v : ℕ) → 1 ≤ v → 2 ^ bit_len fuel v ≤ 2 * v
unfolding bit_len
bit_len_reached zero v h = omega arith
bit_len_reached (suc fuel) zero h = omega arith
bit_len_reached (suc fuel) (suc zero) h =
    rw (bit_len_step fuel 1 h, bit_len_zero fuel) (omega arith)
bit_len_reached (suc fuel) (suc (suc v)) h =
    rw (bit_len_step fuel (suc (suc v)) h)
      (omega (arith, bit_len_reached fuel (suc (suc v) / 2) (omega arith)))

-- A number of bytes that holds the number, and without its last byte does not, unless it is the only one.
abbrev pub Shortest : ℕ → ℕ → Type 0
Shortest v n =
    ((n ≡ 1) × (v < 256))
    ⊎ ((n ≡ 2) × (256 ≤ v) × (v < 65536))
    ⊎ ((n ≡ 3) × (65536 ≤ v) × (v < 16777216))
    ⊎ ((n ≡ 4) × (16777216 ≤ v) × (v < 4294967296))

pow_bound : (i j : ℕ) → i ≤ j → 2 ^ i ≤ 2 ^ j
pow_bound i j h = pow-le-pow_right (omega arith) h

byte_len_cases :
    (len : ℕ)
    → len ≤ 32
    → ((byte_len len ≡ 1) × (len ≤ 8))
      ⊎ ((byte_len len ≡ 2) × (9 ≤ len) × (len ≤ 16))
      ⊎ ((byte_len len ≡ 3) × (17 ≤ len) × (len ≤ 24))
      ⊎ ((byte_len len ≡ 4) × (25 ≤ len))
unfolding byte_len
byte_len_cases len most = ground arith

bit_len_enough : (fuel v : ℕ) → 1 ≤ bit_len fuel v → 2 ^ bit_len fuel v ≤ 2 * v
bit_len_enough fuel zero h = absurd (omega (arith, bit_len_zero fuel))
bit_len_enough fuel (suc v) h = bit_len_reached fuel (suc v) (omega arith)

byte_len-Shortest :
    (len v : ℕ) → len ≤ 32 → v < 2 ^ len → (1 ≤ len → 2 ^ len ≤ 2 * v) → Shortest v (byte_len len)
byte_len-Shortest len v most below reached = elim (byte_len_cases len most) [
  | inl (one, few) ↦ inl (one, omega (arith, pow_bound len 8 few))
  | inr (inl (two, many, few)) ↦ inr (
      inl (
        two,
        omega (arith, pow_bound 9 len many, reached (omega arith)),
        omega (arith, pow_bound len 16 few),
      ))
  | inr (inr (inl (three, many, few))) ↦ inr (
      inr (
        inl (
          three,
          omega (arith, pow_bound 17 len many, reached (omega arith)),
          omega (arith, pow_bound len 24 few),
        )))
  | inr (inr (inr (four, many))) ↦ inr (
      inr (
        inr (
          four,
          omega (arith, pow_bound 25 len many, reached (omega arith)),
          omega (arith, pow_bound len 32 most),
        )))
]

read_back :
    (v n : ℕ)
    → Shortest v n
    → (unmarshal_button_states (take n (le32 v)) ≡ ok v) × (length (take n (le32 v)) ≡ n)
unfolding unmarshal_button_states
read_back v n (inl (one, below)) = rw one (ap ok (omega arith), refl)
read_back v n (inr (inl (two, _, below))) = rw two (ap ok (omega arith), refl)
read_back v n (inr (inr (inl (three, _, below)))) = rw three (ap ok (omega arith), refl)
read_back v n (inr (inr (inr (four, _, below)))) = rw four (ap ok (omega arith), refl)

-- A mask of 32 buttons is read back from its bytes, which are one to four and as few as can hold it.
pub unmarshal_button_states-marshal_button_states :
    (states : ℕ)
    → states < 4294967296
    → (unmarshal_button_states (marshal_button_states states) ≡ ok states)
      × Shortest states (length (marshal_button_states states))
unfolding marshal_button_states
unmarshal_button_states-marshal_button_states states h =
    let len = bit_len 32 states in
    let short =
      byte_len-Shortest len states (bit_len_le 32 states) (bit_len_below 32 states h)
        (bit_len_enough 32 states) in
    let back = read_back states (byte_len len) short in
    (back.0, subst (Shortest states) (sym back.1) short)
