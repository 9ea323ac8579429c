-- ===== src/Avrcp/Texts.antt =====
-- Go's comparison of strings and of truth values.
use ipod.Base.{ℕ, ◌≡◌, refl, Bool, true, false, ◌&&◌, List, [], ◌∷◌, ◌==◌, ==_iff}

unfoldable pub same_text : List ℕ → List ℕ → Bool
same_text [] [] = true
same_text (x ∷ xs) (y ∷ ys) = (x == y) && same_text xs ys
same_text _ _ = false

abbrev pub same_bool : Bool → Bool → Bool
same_bool true b = b
same_bool false true = false
same_bool false false = true

both : (a b : Bool) → (a && b) ≡ true → (a ≡ true) × (b ≡ true)
both true b e = (refl, e)
both false b e = absurd (cc e)

pub same_text→≡ : (s t : List ℕ) → same_text s t ≡ true → s ≡ t
unfolding same_text
same_text→≡ [] [] e = refl
same_text→≡ (x ∷ xs) (y ∷ ys) e =
    let h = both (x == y) (same_text xs ys) e in
    let first = (==_iff x y).0 h.0 in let more = same_text→≡ xs ys h.1 in cc (first, more)
same_text→≡ [] (y ∷ ys) e = absurd (cc e)
same_text→≡ (x ∷ xs) [] e = absurd (cc e)

pub same_bool→≡ : (a b : Bool) → same_bool a b ≡ true → a ≡ b
same_bool→≡ true true e = refl
same_bool→≡ true false e = absurd (cc e)
same_bool→≡ false true e = absurd (cc e)
same_bool→≡ false false e = refl

pub same_bool_refl : (a : Bool) → same_bool a a ≡ true
same_bool_refl true = refl
same_bool_refl false = refl
