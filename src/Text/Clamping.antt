-- ===== src/Text/Clamping.antt =====
-- util.go: what `ClampString` keeps of a string.
use ipod.Base.{
  ℕ, zero, suc, ◌≤◌, ◌<◌, ◌≡◌, refl, ap, ◌⊎◌, inl, inr, true, List, [], arith, leb, Bool-cases,
  length, take,
}
use ipod.Text.{valid_string, clamp_loop, clamp_string}

-- The longest beginning of a string, of at most `most` bytes, that is UTF-8.
pub record LongestValid (s : List ℕ) (most : ℕ) (kept : List ℕ) : Type 0 where
  pub count : ℕ
  pub count_le : count ≤ most
  pub kept_lem : kept ≡ take count s
  pub is_valid : valid_string kept ≡ true
  pub longest : (n : ℕ) → n ≤ most → valid_string (take n s) ≡ true → n ≤ count

valid_nothing : valid_string [] ≡ true
unfolding valid_string
valid_nothing = refl

le_suc_cases : (k n : ℕ) → k ≤ suc n → (k ≤ n) ⊎ (k ≡ suc n)
le_suc_cases k n le = elim (Bool-cases (leb k n)) [
  | inl less ↦ inl (ground (arith, less))
  | inr more ↦ inr (ground (arith, more))
]

clamp_loop-LongestValid : (n : ℕ) (s : List ℕ) → LongestValid s n (clamp_loop n s)
unfolding clamp_loop
clamp_loop-LongestValid zero s = record {
  count = 0;
  count_le = omega arith;
  kept_lem = refl;
  is_valid = valid_nothing;
  longest = λ n le v. le;
}
clamp_loop-LongestValid (suc n) s = elim (Bool-cases (valid_string (take (suc n) s))) [
  | inl valid ↦ rw valid (record {
    count = suc n;
    count_le = omega arith;
    kept_lem = refl;
    is_valid = valid;
    longest = λ k le v. le;
  })
  | inr broken ↦
      let shorter = clamp_loop-LongestValid n s in
      rw broken (record {
        count = shorter.count;
        count_le = omega (arith, shorter.count_le);
        kept_lem = shorter.kept_lem;
        is_valid = shorter.is_valid;
        longest = λ k le v. elim (le_suc_cases k n le) [
          | inl less ↦ shorter.longest k less v
          | inr whole ↦ absurd (cc (v, broken, ap (λ x. valid_string (take x s)) whole))
        ];
      })
]

-- A string of more bytes than wanted is cut to its longest beginning that has no more bytes than wanted
-- and is UTF-8; every other string is kept, be it UTF-8 or not.
pub clamp_string_cases :
    (s : List ℕ) (max_bytes : ℕ)
    → ((length s ≤ max_bytes) × (clamp_string s max_bytes ≡ s))
      ⊎ ((max_bytes < length s) × LongestValid s max_bytes (clamp_string s max_bytes))
unfolding clamp_string
clamp_string_cases s max_bytes = elim (Bool-cases (leb (length s) max_bytes)) [
  | inl short ↦ inl (ground (arith, short), rw short refl)
  | inr long ↦ inr (ground (arith, long), rw long (clamp_loop-LongestValid max_bytes s))
]
