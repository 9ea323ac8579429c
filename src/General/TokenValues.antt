-- ===== src/General/TokenValues.antt =====
-- lingo-general/general.go: one identification token, written and read back.
use ipod.Base.{
  ℕ, zero, suc, ◌%◌, ◌<◌, ◌≡◌, refl, ap, subst, none, some, List, [], ◌∷◌, ◌++◌, append-nil, arith,
  Result, ok, ◌>>=◌, length, replicate, length-append, take-append_exact, drop-append_exact,
}
use ipod.Wire.{array, be32, be64, binary_size, binary_write, binary_read, write_fields}
use ipod.Wire.Laws.{Fill, binary_read-binary_write}
use ipod.General.Tokens.{
  FidToken, FidTokenValue, identify_token, acc_caps_token, ipod_preference_token,
  bundle_seed_id_pref_token, screen_info_token, ea_protocol_metadata_token, microphone_caps_token,
  bytes_token, token_layout, token_fields, token_refill, marshal_identify, marshal_token,
  marshal_token_value, new_token, array_or_zero, unmarshal_identify, unmarshal_token,
  unmarshal_token_value,
}

-- A token that can be written, under an id that it is read back by: its fields can hold their values,
-- and its length fits a byte. Tokens of unknown ids are bytes.
pub data Writable : FidTokenValue → Type 0 where
  identify :
      (lingoes : List ℕ) (options id : ℕ)
      → length lingoes < 245
      → options < 4294967296
      → id < 4294967296
      → Writable (record {
        fid_type = 0;
        fid_subtype = 0;
        token = some (identify_token lingoes options id);
      })
  acc_caps :
      (mask : ℕ)
      → mask < 18446744073709551616
      → Writable (record { fid_type = 0; fid_subtype = 1; token = some (acc_caps_token mask) })
  preference :
      (a b c : ℕ)
      → Fill (token_layout (ipod_preference_token a b c)) (a ∷ b ∷ c ∷ [])
      → Writable
          (record { fid_type = 0; fid_subtype = 3; token = some (ipod_preference_token a b c) })
  bundle_seed_id :
      (s : List ℕ)
      → Fill (array 11) s
      → Writable
          (record { fid_type = 0; fid_subtype = 5; token = some (bundle_seed_id_pref_token s) })
  screen :
      (a b c d e f g h : ℕ)
      → Fill (token_layout (screen_info_token a b c d e f g h)) (a ∷ b ∷ c ∷ d ∷ e ∷ f ∷ g ∷ h ∷ [])
      → Writable (record {
        fid_type = 0;
        fid_subtype = 7;
        token = some (screen_info_token a b c d e f g h);
      })
  metadata :
      (a b : ℕ)
      → Fill (token_layout (ea_protocol_metadata_token a b)) (a ∷ b ∷ [])
      → Writable
          (record { fid_type = 0; fid_subtype = 8; token = some (ea_protocol_metadata_token a b) })
  microphone :
      (subtype mask : ℕ)
      → subtype < 256
      → mask < 4294967296
      → Writable (record {
        fid_type = 1;
        fid_subtype = subtype;
        token = some (microphone_caps_token mask);
      })
  unknown :
      (a b : ℕ) (bytes : List ℕ)
      → a < 256
      → b < 256
      → new_token a b ≡ none
      → Fill (array (length bytes)) bytes
      → length bytes < 254
      → Writable (record { fid_type = a; fid_subtype = b; token = some (bytes_token bytes) })

-- What is written of a token is read back, and its length fits a byte.
pub record Carried (v : FidTokenValue) : Type 0 where
  pub bytes : List ℕ
  pub marshal_lem : marshal_token_value v ≡ ok bytes
  pub short_lem : length bytes < 256
  pub unmarshal_lem : unmarshal_token_value bytes ≡ ok v

array_back : (n : ℕ) (xs ys : List ℕ) → length xs ≡ n → array_or_zero n (xs ++ ys) ≡ (xs, ys)
unfolding array_or_zero
array_back n xs ys e =
    rw (take-append_exact n xs ys e, drop-append_exact n xs ys e)
      (ground (arith, length-append xs ys))

identify_back :
    (lingoes : List ℕ) (options id : ℕ)
    → length lingoes < 245
    → options < 4294967296
    → id < 4294967296
    → unmarshal_identify (marshal_identify lingoes options id)
      ≡ ok (identify_token lingoes options id)
unfolding unmarshal_identify marshal_identify
identify_back lingoes options id few h k =
    rw (array_back (length lingoes % 256) lingoes (be32 options ++ be32 id) (omega arith))
      (ground arith)

id_back :
    (a b : ℕ) (bytes : List ℕ) (v : Result FidTokenValue)
    → a < 256
    → b < 256
    → unmarshal_token_value (a ∷ b ∷ bytes) ≡ v
    → unmarshal_token_value ((a % 256) ∷ (b % 256) ∷ bytes) ≡ v
id_back a b bytes v h k e =
    let ea : a % 256 ≡ a = omega arith in let eb : b % 256 ≡ b = omega arith in rw (ea, eb) e

-- A token whose struct has a fixed size.
carry :
    (a b n : ℕ) (t new : FidToken)
    → a < 256
    → b < 256
    → Fill (token_layout t) (token_fields t)
    → new_token a b ≡ some new
    → binary_size (token_layout t) ≡ some n
    → n < 254
    → marshal_token t ≡ binary_write (token_layout t) (token_fields t)
    → ((bytes : List ℕ)
        → unmarshal_token new bytes
          ≡ (binary_read (token_layout t) bytes >>= λ got. ok (token_refill new got.0)))
    → token_refill new (token_fields t) ≡ t
    → Carried (record { fid_type = a; fid_subtype = b; token = some t })
unfolding marshal_token_value unmarshal_token_value
carry a b n t new ha hb fill is_new size small marshal_lem read_lem refill_lem =
    let w = binary_read-binary_write (token_layout t) (token_fields t) [] fill in
    let read_back =
      subst (λ x. binary_read (token_layout t) x ≡ ok (token_fields t, [])) (append-nil w.0) w.3 in
    let len : n ≡ length w.0 = cc (size, w.2) in
    record {
      bytes = (a % 256) ∷ (b % 256) ∷ w.0;
      marshal_lem = rw (marshal_lem, w.1) refl;
      short_lem = omega arith;
      unmarshal_lem =
          id_back a b w.0 _ ha hb
            (rw (is_new, unmarshal_token_value) (rw (read_lem w.0, read_back, refill_lem) refl));
    }

array_size : (n : ℕ) → binary_size (array n) ≡ some n
unfolding binary_size
array_size zero = refl
array_size (suc n) = rw (array_size n) (ap some (omega arith))

array_written :
    (bs : List ℕ) → Fill (array (length bs)) bs → write_fields (array (length bs)) bs ≡ bs
unfolding write_fields
array_written [] fill = refl
array_written (b ∷ bs) fill =
    let e : b % 256 ≡ b = omega (arith, fill.0) in rw (e, array_written bs fill.1) refl

bytes_marshalled :
    (bs : List ℕ) → Fill (array (length bs)) bs → marshal_token (bytes_token bs) ≡ ok bs
unfolding marshal_token binary_write token_layout token_fields
bytes_marshalled bs fill =
    rw (array_size (length bs), marshal_token)
      (rw (array_size (length bs), binary_write) (rw (array_written bs fill) refl))

pub Writable-Carried : {v : FidTokenValue} → Writable v → Carried v
unfolding marshal_token_value unmarshal_token_value marshal_token unmarshal_token new_token
    token_layout token_fields token_refill binary_size
Writable-Carried (identify lingoes options id few h k) = record {
  bytes = 0 ∷ 0 ∷ marshal_identify lingoes options id;
  marshal_lem = refl;
  short_lem = omega (arith, length-append lingoes (be32 options ++ be32 id));
  unmarshal_lem =
      ap (λ r. r >>= λ t. ok (record { fid_type = 0; fid_subtype = 0; token = some t }))
        (identify_back lingoes options id few h k);
}
Writable-Carried (acc_caps mask h) = record {
  bytes = 0 ∷ 1 ∷ be64 mask;
  marshal_lem = refl;
  short_lem = omega arith;
  unmarshal_lem =
      ap (λ x. ok (record { fid_type = 0; fid_subtype = 1; token = some (acc_caps_token x) }))
        (omega arith);
}
Writable-Carried (preference a b c fill) =
    carry 0 3 3 (ipod_preference_token a b c) (ipod_preference_token 0 0 0) (omega arith)
      (omega arith) fill refl refl (omega arith) refl (λ bytes. refl) refl
Writable-Carried (bundle_seed_id s fill) =
    carry 0 5 11 (bundle_seed_id_pref_token s) (bundle_seed_id_pref_token (replicate 11 0))
      (omega arith) (omega arith) fill refl refl (omega arith) refl (λ bytes. refl) refl
Writable-Carried (screen a b c d e f g h fill) =
    carry 0 7 14 (screen_info_token a b c d e f g h) (screen_info_token 0 0 0 0 0 0 0 0)
      (omega arith) (omega arith) fill refl refl (omega arith) refl (λ bytes. refl) refl
Writable-Carried (metadata a b fill) =
    carry 0 8 2 (ea_protocol_metadata_token a b) (ea_protocol_metadata_token 0 0) (omega arith)
      (omega arith) fill refl refl (omega arith) refl (λ bytes. refl) refl
Writable-Carried (microphone subtype mask h k) =
    carry 1 subtype 4 (microphone_caps_token mask) (microphone_caps_token 0) (omega arith) h (k, tt)
      refl refl (omega arith) refl (λ bytes. refl) refl
Writable-Carried (unknown a b bytes ha hb is_new fill few) = record {
  bytes = (a % 256) ∷ (b % 256) ∷ bytes;
  marshal_lem = rw (bytes_marshalled bytes fill) refl;
  short_lem = omega arith;
  unmarshal_lem = id_back a b bytes _ ha hb (rw (is_new, unmarshal_token_value) refl);
}
