-- ===== src/Text/Runs.antt =====
-- util.go: strings at concrete inputs.
use ipod.Base.{ℕ, ◌≤◌, ◌<◌, ◌≡◌, refl, ◌⊎◌, true, List, [], ◌∷◌, ok, length}
use ipod.Text.{clamp_string, valid_string, truncate_runes, bool_to_byte, byte_to_bool, sequence_len}
use ipod.Text.Clamping.{LongestValid, clamp_string_cases}

-- "aé" and a letter more, cut inside of the é.
abbrev accented : List ℕ
accented = 0x61 ∷ 0xC3 ∷ 0xA9 ∷ 0x62 ∷ []

clamped : clamp_string accented 2 ≡ 0x61 ∷ []
unfolding clamp_string valid_string sequence_len
clamped = refl

truncated : truncate_runes accented 2 ≡ ok (0x61 ∷ 0xE2 ∷ 0x80 ∷ 0xA6 ∷ [])
unfolding truncate_runes sequence_len
truncated = refl

true_byte : byte_to_bool (bool_to_byte true) ≡ true
unfolding byte_to_bool bool_to_byte
true_byte = refl

clamp_string_cases_example :
    ((length accented ≤ 2) × (clamp_string accented 2 ≡ accented))
    ⊎ ((2 < length accented) × LongestValid accented 2 (clamp_string accented 2))
clamp_string_cases_example = clamp_string_cases accented 2
