-- ===== src/Trace/RoundTrip.antt =====
-- trace/trace.go: a message and its line of text, written and read back.
use ipod.Base.{
  ℕ, zero, suc, ◌/◌, ◌%◌, ◌<◌, ◌≡◌, refl, sym, ap, ◌∙◌, subst, ◌≢◌, some, List, [], ◌∷◌, arith, ok,
  All,
}
use ipod.Trace.Msg.{
  Msg, marshal_dir, unmarshal_dir, hex_digit, hex_text, marshal_text, without_spaces, hex_value,
  scan_hex, skip_space, unmarshal_text,
}

hex_value-digit : (n : ℕ) → n < 16 → hex_value (hex_digit n) ≡ some n
unfolding hex_digit hex_value
hex_value-digit n lt = ground arith

-- The digits of bytes, two for each byte.
abbrev digits : List ℕ → List ℕ
digits [] = []
digits (b ∷ bs) = hex_digit (b / 16) ∷ hex_digit (b % 16) ∷ digits bs

digit_no_space : (n : ℕ) → n < 16 → hex_digit n ≢ 32
unfolding hex_digit
digit_no_space n lt = ground arith

without_spaces-hex_text :
    (bs : List ℕ) → All (λ b. b < 256) bs → without_spaces (hex_text bs) ≡ digits bs
unfolding without_spaces hex_text
without_spaces-hex_text [] h = refl
without_spaces-hex_text (b ∷ []) h =
    ground (arith, digit_no_space (b / 16) (omega arith), digit_no_space (b % 16) (omega arith))
without_spaces-hex_text (b ∷ c ∷ bs) h = ground (
  arith,
  digit_no_space (b / 16) (omega arith),
  digit_no_space (b % 16) (omega arith),
  without_spaces-hex_text (c ∷ bs) h.1,
)

scan_hex-digits : (bs : List ℕ) → All (λ b. b < 256) bs → scan_hex (digits bs) ≡ ok bs
unfolding scan_hex
scan_hex-digits [] h = refl
scan_hex-digits (b ∷ bs) h =
    rw
      (
        hex_value-digit (b / 16) (omega arith),
        hex_value-digit (b % 16) (omega arith),
        scan_hex-digits bs h.1,
        scan_hex,
      )
      (ap (λ x. ok (x ∷ bs)) (omega arith))

skip_space-digits : (bs : List ℕ) → All (λ b. b < 256) bs → skip_space (digits bs) ≡ digits bs
unfolding skip_space hex_digit
skip_space-digits [] h = refl
skip_space-digits (b ∷ bs) h = ground arith

hex_text_cons :
    (b : ℕ) (bs : List ℕ)
    → (rest : List ℕ) × (hex_text (b ∷ bs) ≡ hex_digit (b / 16) ∷ hex_digit (b % 16) ∷ rest)
unfolding hex_text
hex_text_cons b [] = ([], refl)
hex_text_cons b (c ∷ bs) = (32 ∷ hex_text (c ∷ bs), refl)

scan_hex-hex_text :
    (bs : List ℕ)
    → All (λ b. b < 256) bs
    → scan_hex (skip_space (without_spaces (hex_text bs))) ≡ ok bs
scan_hex-hex_text bs h =
    ap (λ t. scan_hex (skip_space t)) (without_spaces-hex_text bs h)
    ∙ ap scan_hex (skip_space-digits bs h)
    ∙ scan_hex-digits bs h

dir_text : (d : ℕ) → d < 2 → (c : ℕ) × (marshal_dir d ≡ ok c) × (unmarshal_dir (c ∷ []) ≡ ok d)
unfolding marshal_dir unmarshal_dir
dir_text zero h = (b'<', refl, refl)
dir_text (suc zero) h = (b'>', refl, refl)
dir_text (suc (suc d)) h = absurd (omega arith)

-- A message of either direction, with at least one byte of data, is written as a line of text, and
-- reading that line into any message gives its direction and its bytes back.
pub unmarshal_text-marshal_text :
    (m into : Msg) (b : ℕ) (bs : List ℕ)
    → m.dir < 2
    → m.bytes ≡ b ∷ bs
    → All (λ b. b < 256) m.bytes
    → (text : List ℕ) × (marshal_text m ≡ ok text)
      × (unmarshal_text into text ≡ ok (record m { ts = into.ts }))
unfolding unmarshal_text marshal_text
unmarshal_text-marshal_text m into b bs two e h =
    let d = dir_text m.dir two in
    let t = hex_text_cons b bs in
    let bytes_lt = subst (All (λ x. x < 256)) e h in
    let scanned : scan_hex
          (skip_space (without_spaces (hex_digit (b / 16) ∷ hex_digit (b % 16) ∷ t.0)))
        ≡ ok (b ∷ bs) =
      ap (λ x. scan_hex (skip_space (without_spaces x))) (sym t.1)
      ∙ scan_hex-hex_text (b ∷ bs) bytes_lt in
    (
      d.0 ∷ 32 ∷ hex_digit (b / 16) ∷ hex_digit (b % 16) ∷ t.0,
      rw (d.1, e) (ap (λ x. ok (d.0 ∷ 32 ∷ x)) t.1),
      rw (d.2, scanned) (ap (λ x. ok (record m { ts = into.ts; bytes = x })) (sym e)),
    )
