-- ===== src/Text.antt =====
-- util.go: bytes for Booleans and strings, and strings cut at the border of a UTF-8 sequence.
pub mod Clamping
mod Runs
use ipod.Base.{
  ℕ, zero, suc, ◌+◌, ◌-◌, ◌*◌, ◌/◌, ◌%◌, ◌^◌, ◌≤◌, ◌<◌, min, ◌≡◌, refl, sym, ap, ◌∙◌, subst, ◌≢◌,
  ◌⊎◌, inl, inr, Bool, true, false, ◌&&◌, ◌||◌, not, Option, none, some, List, [], ◌∷◌, ◌++◌, map,
  append-nil, append_assoc, arith, Result, ok, err, panic, ◌>>=◌, Error, eof, is_eof, ltb, leb,
  ◌==◌, if◌then◌else◌, Bool-cases, Option-cases, ==_iff, length, get_or, take, drop, replicate, All,
  length-append, All-append, Result-cases,
}

unfoldable pub bool_to_byte : Bool → ℕ
bool_to_byte b = if b then 0x01 else 0x00

unfoldable pub byte_to_bool : ℕ → Bool
byte_to_bool b = b == 0x01

-- `StringToBytes`: the string's bytes and a zero.
unfoldable pub string_to_bytes : List ℕ → List ℕ
string_to_bytes s = s ++ (0x00 ∷ [])

abbrev pub between : ℕ → ℕ → ℕ → Bool
between lo hi b = leb lo b && leb b hi

-- The second byte of a UTF-8 sequence of three bytes, by the first one.
abbrev pub second_of_three : ℕ → ℕ → Bool
second_of_three a b =
    if a == 0xE0
    then between 0xA0 0xBF b
    else if a == 0xED
    then between 0x80 0x9F b
    else between 0x80 0xBF b

-- The second byte of a UTF-8 sequence of four bytes, by the first one.
abbrev pub second_of_four : ℕ → ℕ → Bool
second_of_four a b =
    if a == 0xF0
    then between 0x90 0xBF b
    else if a == 0xF4
    then between 0x80 0x8F b
    else between 0x80 0xBF b

-- The number of bytes of the UTF-8 sequence at the front, as unicode/utf8 takes it: 0 if there is none.
unfoldable pub sequence_len : List ℕ → ℕ
sequence_len [] = 0
sequence_len (a ∷ []) = if ltb a 0x80 then 1 else 0
sequence_len (a ∷ b ∷ []) =
    if ltb a 0x80 then 1 else if between 0xC2 0xDF a && between 0x80 0xBF b then 2 else 0
sequence_len (a ∷ b ∷ c ∷ []) =
    if ltb a 0x80
    then 1
    else if between 0xC2 0xDF a && between 0x80 0xBF b
    then 2
    else if between 0xE0 0xEF a && second_of_three a b && between 0x80 0xBF c
    then 3
    else 0
sequence_len (a ∷ b ∷ c ∷ d ∷ rest) =
    if ltb a 0x80
    then 1
    else if between 0xC2 0xDF a && between 0x80 0xBF b
    then 2
    else if between 0xE0 0xEF a && second_of_three a b && between 0x80 0xBF c
    then 3
    else if between 0xF0 0xF4 a && second_of_four a b && between 0x80 0xBF c && between 0x80 0xBF d
    then 4
    else 0

-- The bytes of U+FFFD, which stands for a byte that is no part of a sequence.
abbrev pub rune_error : List ℕ
rune_error = 0xEF ∷ 0xBF ∷ 0xBD ∷ []

-- A rune off the front, as its bytes.
abbrev pub front_rune : List ℕ → List ℕ
front_rune s = if sequence_len s == 0 then rune_error else take (sequence_len s) s

abbrev pub behind_rune : List ℕ → List ℕ
behind_rune s = if sequence_len s == 0 then drop 1 s else drop (sequence_len s) s

-- `[]rune(s)`, each rune as the bytes that `string` makes of it. Each takes a byte at least, so as much
-- fuel as there are bytes is enough.
unfoldable pub runes_loop : ℕ → List ℕ → List (List ℕ)
runes_loop zero s = []
runes_loop (suc fuel) [] = []
runes_loop (suc fuel) (b ∷ s) = front_rune (b ∷ s) ∷ runes_loop fuel (behind_rune (b ∷ s))

abbrev pub runes : List ℕ → List (List ℕ)
runes s = runes_loop (length s) s

-- `utf8.ValidString`
unfoldable pub valid_loop : ℕ → List ℕ → Bool
valid_loop fuel [] = true
valid_loop zero (b ∷ s) = false
valid_loop (suc fuel) (b ∷ s) =
    let rest = valid_loop fuel (behind_rune (b ∷ s)) in
    if sequence_len (b ∷ s) == 0 then false else rest

unfoldable pub valid_string : List ℕ → Bool
unfolding valid_loop
valid_string s = valid_loop (length s) s

-- The loop of `ClampString`, on the number of bytes that are kept.
unfoldable pub clamp_loop : ℕ → List ℕ → List ℕ
clamp_loop zero s = []
clamp_loop (suc n) s =
    let shorter = clamp_loop n s in
    if valid_string (take (suc n) s) then take (suc n) s else shorter

unfoldable pub clamp_string : List ℕ → ℕ → List ℕ
unfolding clamp_loop
clamp_string s max_bytes = if leb (length s) max_bytes then s else clamp_loop max_bytes s

-- The bytes of "…".
abbrev pub ellipsis : List ℕ
ellipsis = 0xE2 ∷ 0x80 ∷ 0xA6 ∷ []

unfoldable pub concat : List (List ℕ) → List ℕ
concat [] = []
concat (s ∷ more) = s ++ concat more

-- `TruncateRunes`, where `r[:n-1]` panics for n = 0.
unfoldable pub truncate_runes : List ℕ → ℕ → Result (List ℕ)
unfolding runes_loop concat
truncate_runes s n =
    if leb (length (runes s)) n
    then ok s
    else if n == 0
    then panic
    else ok (concat (take (n - 1) (runes s)) ++ ellipsis)
