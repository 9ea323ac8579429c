-- ===== src/Trace/Msg.antt =====
-- trace/trace.go: a message and its line of text.
use ipod.Base.{
  ℕ, ◌+◌, ◌-◌, ◌*◌, ◌/◌, ◌%◌, Bool, ◌&&◌, ◌||◌, List, [], ◌∷◌, Option, none, some, Result, ok, err,
  ◌>>=◌, ltb, leb, ◌==◌, if◌then◌else◌, bad_dir, bad_dir_text, no_data, short_msg, bad_data,
}

-- `Dir` is a byte.
abbrev pub dir_in : ℕ
dir_in = 0

abbrev pub dir_out : ℕ
dir_out = 1

pub record Msg : Type 0 where
  pub dir : ℕ
  pub ts : ℕ
  pub bytes : List ℕ

-- `Dir.MarshalText`, whose text has one byte.
unfoldable pub marshal_dir : ℕ → Result ℕ
marshal_dir d = if d == dir_in then ok b'<' else if d == dir_out then ok b'>' else err bad_dir

-- `Dir.UnmarshalText`
unfoldable pub unmarshal_dir : List ℕ → Result ℕ
unmarshal_dir (c ∷ []) =
    if c == b'<' then ok dir_in else if c == b'>' then ok dir_out else err bad_dir_text
unmarshal_dir text = err bad_dir_text

-- The digits of fmt's verb %X.
unfoldable pub hex_digit : ℕ → ℕ
hex_digit n = if ltb n 10 then n + 48 else n + 55

-- fmt's `% 02X`: two digits for each byte, and a space between bytes.
unfoldable pub hex_text : List ℕ → List ℕ
unfolding hex_digit
hex_text [] = []
hex_text (b ∷ []) = hex_digit (b / 16) ∷ hex_digit (b % 16) ∷ []
hex_text (b ∷ bs) = hex_digit (b / 16) ∷ hex_digit (b % 16) ∷ 32 ∷ hex_text bs

abbrev pub line_text : ℕ → List ℕ → Result (List ℕ)
line_text c [] = err no_data
line_text c (b ∷ bs) = ok (c ∷ 32 ∷ hex_text (b ∷ bs))

-- `Msg.MarshalText`
unfoldable pub marshal_text : Msg → Result (List ℕ)
unfolding marshal_dir
marshal_text m = marshal_dir m.dir >>= λ c. line_text c m.bytes

-- `bytes.Join(bytes.Split(text, " "), nil)`
unfoldable pub without_spaces : List ℕ → List ℕ
without_spaces [] = []
without_spaces (c ∷ cs) = if c == 32 then without_spaces cs else c ∷ without_spaces cs

-- fmt's hex digits.
unfoldable pub hex_value : ℕ → Option ℕ
hex_value c =
    if leb 48 c && leb c 57
    then some (c - 48)
    else if leb 97 c && leb c 102
    then some (c - 87)
    else if leb 65 c && leb c 70
    then some (c - 55)
    else none

-- fmt.Sscanf's verb %x into bytes, behind its white space: pairs of digits up to what is no digit. A
-- digit without a second one is an error.
unfoldable pub scan_hex : List ℕ → Result (List ℕ)
unfolding hex_value
scan_hex [] = ok []
scan_hex (a ∷ []) = elim (hex_value a) [ none ↦ ok [] | some hi ↦ err bad_data ]
scan_hex (a ∷ b ∷ cs) = elim (hex_value a) [
  | none ↦ ok []
  | some hi ↦ elim (hex_value b) [
    | none ↦ err bad_data
    | some lo ↦ scan_hex cs >>= λ rest. ok ((hi * 16 + lo) ∷ rest)
  ]
]

-- ASCII white space but the space, of which none is left, and the newline, which a line has not.
abbrev pub is_space : ℕ → Bool
is_space c = c == 9 || c == 11 || c == 12 || c == 13

unfoldable pub skip_space : List ℕ → List ℕ
skip_space [] = []
skip_space (c ∷ cs) = if is_space c then skip_space cs else c ∷ cs

-- No bytes at all is an error too.
abbrev pub some_bytes : List ℕ → Result (List ℕ)
some_bytes [] = err bad_data
some_bytes (b ∷ bs) = ok (b ∷ bs)

-- `Msg.UnmarshalText` on a line; on an error Go may have changed `m.Dir`, and the callers drop `m`.
unfoldable pub unmarshal_text : Msg → List ℕ → Result Msg
unfolding scan_hex skip_space without_spaces unmarshal_dir
unmarshal_text m (a ∷ b ∷ c ∷ d ∷ rest) = do
  dir ← unmarshal_dir (a ∷ [])
  scanned ← scan_hex (skip_space (without_spaces (c ∷ d ∷ rest)))
  bytes ← some_bytes scanned
  ok (record m { dir = dir; bytes = bytes })
unmarshal_text m text = err short_msg
