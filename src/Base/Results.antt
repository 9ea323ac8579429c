-- ===== src/Base/Results.antt =====
-- Go's `(value, error)` pairs as a result type; `panic` is a run-time panic.
use mathlib.Core.Path.{◌≡◌, refl}
use mathlib.Core.Logic.{◌⊎◌, ◌≢◌, inl, inr}
use mathlib.Core.Bool.{Bool, true, false}
use Prim.Native.Nat.{ℕ}

-- The errors of the program, one constructor for each message that it makes or passes on.
pub data Error : Type 0 where
  -- io.EOF, io.ErrUnexpectedEOF, io.ErrNoProgress
  eof unexpected_eof no_progress : Error
  -- packet.go
  invalid_checksum empty_packet : Error
  -- hid
  no_matching_report report_id_not_found : Error
  -- trace
  bad_dir bad_dir_text no_data short_msg bad_data : Error
  -- cmd.go
  unknown_cmd nil_payload bad_payload : Error
  -- handlers and payload codecs
  unknown_info_type short_packet invalid_data unknown_token not_fixed_size : Error
  short_identify unknown_acc_info unknown_ack : Error
  -- an error of code outside the program, by number
  external : ℕ → Error

pub data Result {ℓ} (A : Type ℓ) : Type ℓ where
  ok : A → Result A
  err : Error → Result A
  panic : Result A

infixl 5 ◌>>=◌
abbrev pub ◌>>=◌ {ℓ κ} : {A : Type ℓ} {B : Type κ} → Result A → (A → Result B) → Result B
ok a >>= f = f a
err e >>= f = err e
panic >>= f = panic

-- The test `err == io.EOF`.
abbrev pub is_eof : Error → Bool
is_eof eof = true
is_eof _ = false

pub is_eof_ne : (e : Error) → e ≢ eof → is_eof e ≡ false
is_eof_ne eof h = absurd (h refl)
is_eof_ne _ h = refl

pub Result-cases {ℓ} :
    {A : Type ℓ} (r : Result A)
    → ((a : A) × (r ≡ ok a)) ⊎ (((e : Error) × (r ≡ err e)) ⊎ (r ≡ panic))
Result-cases (ok a) = inl (a, refl)
Result-cases (err e) = inr (inl (e, refl))
Result-cases panic = inr (inr refl)
