-- ===== src/General/Writing.antt =====
-- lingo-general: payloads of a fixed size, as they are written and read.
use ipod.Base.{
  ℕ, ◌+◌, ◌≡◌, refl, ap, none, List, [], ◌∷◌, ◌++◌, arith, ok, ◌>>=◌, length, take, get_or, suc,
  zero, length-append, take-append_exact,
}
use ipod.Wire.{Width, byte, binary_size, binary_write, binary_read, array}
use ipod.Wire.Laws.{Fill, binary_read-binary_write}
use ipod.General.Payloads.{
  GeneralPayload, request_identify, identify, return_ipod_name, return_ipod_serial_num,
  return_ipod_model_num, ret_dev_authentication_info, ret_dev_authentication_signature,
  ret_ipod_authentication_info, ret_accessory_info, set_fid_token_values, ret_fid_token_value_acks,
  dev_data_transfer, ipod_data_transfer, accessory_status_notification, ipod_notification,
  request_application_launch, ret_now_playing_focus_app, get_dev_authentication_signature_v1,
  get_dev_authentication_signature_v2, get_ipod_authentication_signature,
  ret_ipod_authentication_signature,
}
use ipod.General.Types.{general_new}
use ipod.General.Structs.{general_layout}
use ipod.General.Values.{general_fields, general_refill}
use ipod.General.Codec.{general_marshal, general_unmarshal}

-- A payload whose struct has a fixed size, and whose fields can hold their values.
abbrev pub GeneralFixed : GeneralPayload → Type 0
GeneralFixed p = Fill (general_layout p) (general_fields p)

no_fill : (p : GeneralPayload) → binary_size (general_layout p) ≡ none → GeneralFixed p → ⊥
no_fill p e h =
    absurd (cc (e, (binary_read-binary_write (general_layout p) (general_fields p) [] h).2))

pub general_layout-general_new :
    (p : GeneralPayload) → general_layout (general_new p) ≡ general_layout p
unfolding general_layout general_new
general_layout-general_new request_identify = refl
general_layout-general_new _ = refl

pub general_marshal_lem :
    (p : GeneralPayload)
    → GeneralFixed p
    → general_marshal p ≡ binary_write (general_layout p) (general_fields p)
unfolding general_marshal general_layout general_fields binary_size
general_marshal_lem (identify a b) h = absurd (no_fill (identify a b) refl h)
general_marshal_lem (return_ipod_name a) h = absurd (no_fill (return_ipod_name a) refl h)
general_marshal_lem (return_ipod_serial_num a) h =
    absurd (no_fill (return_ipod_serial_num a) refl h)
general_marshal_lem (return_ipod_model_num a b) h =
    absurd (no_fill (return_ipod_model_num a b) refl h)
general_marshal_lem (ret_dev_authentication_info a b c d e) h =
    absurd (no_fill (ret_dev_authentication_info a b c d e) refl h)
general_marshal_lem (ret_dev_authentication_signature a) h =
    absurd (no_fill (ret_dev_authentication_signature a) refl h)
general_marshal_lem (ret_ipod_authentication_info a b c d e) h =
    absurd (no_fill (ret_ipod_authentication_info a b c d e) refl h)
general_marshal_lem (ret_accessory_info a b) h = absurd (no_fill (ret_accessory_info a b) refl h)
general_marshal_lem (set_fid_token_values a) h = absurd (no_fill (set_fid_token_values a) refl h)
general_marshal_lem (ret_fid_token_value_acks a) h =
    absurd (no_fill (ret_fid_token_value_acks a) refl h)
general_marshal_lem (dev_data_transfer a b) h = absurd (no_fill (dev_data_transfer a b) refl h)
general_marshal_lem (ipod_data_transfer a b) h = absurd (no_fill (ipod_data_transfer a b) refl h)
general_marshal_lem (accessory_status_notification a b) h =
    absurd (no_fill (accessory_status_notification a b) refl h)
general_marshal_lem (ipod_notification a b) h = absurd (no_fill (ipod_notification a b) refl h)
general_marshal_lem (request_application_launch a b c d) h =
    absurd (no_fill (request_application_launch a b c d) refl h)
general_marshal_lem (ret_now_playing_focus_app a) h =
    absurd (no_fill (ret_now_playing_focus_app a) refl h)
general_marshal_lem _ h = refl

pub general_unmarshal_lem :
    (p : GeneralPayload) (bytes : List ℕ)
    → GeneralFixed p
    → general_unmarshal (general_new p) bytes
      ≡ (binary_read (general_layout p) bytes >>= λ got. ok (general_refill (general_new p) got.0))
unfolding general_unmarshal general_layout general_new general_fields binary_size
general_unmarshal_lem (identify a b) bytes h = absurd (no_fill (identify a b) refl h)
general_unmarshal_lem (return_ipod_name a) bytes h = absurd (no_fill (return_ipod_name a) refl h)
general_unmarshal_lem (return_ipod_serial_num a) bytes h =
    absurd (no_fill (return_ipod_serial_num a) refl h)
general_unmarshal_lem (return_ipod_model_num a b) bytes h =
    absurd (no_fill (return_ipod_model_num a b) refl h)
general_unmarshal_lem (ret_dev_authentication_info a b c d e) bytes h =
    absurd (no_fill (ret_dev_authentication_info a b c d e) refl h)
general_unmarshal_lem (ret_dev_authentication_signature a) bytes h =
    absurd (no_fill (ret_dev_authentication_signature a) refl h)
general_unmarshal_lem (ret_ipod_authentication_info a b c d e) bytes h =
    absurd (no_fill (ret_ipod_authentication_info a b c d e) refl h)
general_unmarshal_lem (ret_accessory_info a b) bytes h =
    absurd (no_fill (ret_accessory_info a b) refl h)
general_unmarshal_lem (set_fid_token_values a) bytes h =
    absurd (no_fill (set_fid_token_values a) refl h)
general_unmarshal_lem (ret_fid_token_value_acks a) bytes h =
    absurd (no_fill (ret_fid_token_value_acks a) refl h)
general_unmarshal_lem (dev_data_transfer a b) bytes h =
    absurd (no_fill (dev_data_transfer a b) refl h)
general_unmarshal_lem (ipod_data_transfer a b) bytes h =
    absurd (no_fill (ipod_data_transfer a b) refl h)
general_unmarshal_lem (accessory_status_notification a b) bytes h =
    absurd (no_fill (accessory_status_notification a b) refl h)
general_unmarshal_lem (ipod_notification a b) bytes h =
    absurd (no_fill (ipod_notification a b) refl h)
general_unmarshal_lem (request_application_launch a b c d) bytes h =
    absurd (no_fill (request_application_launch a b c d) refl h)
general_unmarshal_lem (ret_now_playing_focus_app a) bytes h =
    absurd (no_fill (ret_now_playing_focus_app a) refl h)
general_unmarshal_lem _ bytes h = refl

Fill-length : (ws : List Width) (vs : List ℕ) → Fill ws vs → length vs ≡ length ws
Fill-length [] [] h = refl
Fill-length (w ∷ ws) (v ∷ vs) h = ap suc (Fill-length ws vs h.1)
Fill-length [] (v ∷ vs) h = elim h [ ]
Fill-length (w ∷ ws) [] h = elim h [ ]

get_or-append : (xs : List ℕ) (n x : ℕ) → length xs ≡ n → get_or (xs ++ (x ∷ [])) n 0 ≡ x
get_or-append [] zero x h = refl
get_or-append [] (suc n) x h = absurd (omega arith)
get_or-append (y ∷ ys) zero x h = absurd (omega arith)
get_or-append (y ∷ ys) (suc n) x h = get_or-append ys n x (omega arith)

take_all : (n : ℕ) (xs : List ℕ) → length xs ≡ n → take n xs ≡ xs
take_all zero [] h = refl
take_all zero (x ∷ xs) h = absurd (omega arith)
take_all (suc n) [] h = refl
take_all (suc n) (x ∷ xs) h = ap (◌∷◌ x) (take_all n xs (omega arith))

-- An array of bytes and a byte behind it.
length-array :
    (n : ℕ) (xs : List ℕ) (x : ℕ)
    → length (array n ++ (byte ∷ [])) ≡ n + 1
    → Fill (array n ++ (byte ∷ [])) (xs ++ (x ∷ []))
    → length xs ≡ n
length-array n xs x e h =
    omega
      (arith, Fill-length (array n ++ (byte ∷ [])) (xs ++ (x ∷ [])) h, length-append xs (x ∷ []))

pub general_refill-general_fields :
    (p : GeneralPayload) → GeneralFixed p → general_refill (general_new p) (general_fields p) ≡ p
unfolding general_refill general_new general_fields general_layout binary_size
general_refill-general_fields (identify a b) h = absurd (no_fill (identify a b) refl h)
general_refill-general_fields (return_ipod_name a) h = absurd (no_fill (return_ipod_name a) refl h)
general_refill-general_fields (return_ipod_serial_num a) h =
    absurd (no_fill (return_ipod_serial_num a) refl h)
general_refill-general_fields (return_ipod_model_num a b) h =
    absurd (no_fill (return_ipod_model_num a b) refl h)
general_refill-general_fields (ret_dev_authentication_info a b c d e) h =
    absurd (no_fill (ret_dev_authentication_info a b c d e) refl h)
general_refill-general_fields (ret_dev_authentication_signature a) h =
    absurd (no_fill (ret_dev_authentication_signature a) refl h)
general_refill-general_fields (ret_ipod_authentication_info a b c d e) h =
    absurd (no_fill (ret_ipod_authentication_info a b c d e) refl h)
general_refill-general_fields (ret_accessory_info a b) h =
    absurd (no_fill (ret_accessory_info a b) refl h)
general_refill-general_fields (set_fid_token_values a) h =
    absurd (no_fill (set_fid_token_values a) refl h)
general_refill-general_fields (ret_fid_token_value_acks a) h =
    absurd (no_fill (ret_fid_token_value_acks a) refl h)
general_refill-general_fields (dev_data_transfer a b) h =
    absurd (no_fill (dev_data_transfer a b) refl h)
general_refill-general_fields (ipod_data_transfer a b) h =
    absurd (no_fill (ipod_data_transfer a b) refl h)
general_refill-general_fields (accessory_status_notification a b) h =
    absurd (no_fill (accessory_status_notification a b) refl h)
general_refill-general_fields (ipod_notification a b) h =
    absurd (no_fill (ipod_notification a b) refl h)
general_refill-general_fields (request_application_launch a b c d) h =
    absurd (no_fill (request_application_launch a b c d) refl h)
general_refill-general_fields (ret_now_playing_focus_app a) h =
    absurd (no_fill (ret_now_playing_focus_app a) refl h)
general_refill-general_fields (get_dev_authentication_signature_v1 challenge counter) h =
    let len = length-array 16 challenge counter (omega arith) h in
    rw (take-append_exact 16 challenge (counter ∷ []) len, get_or-append challenge 16 counter len)
      refl
general_refill-general_fields (get_dev_authentication_signature_v2 challenge counter) h =
    let len = length-array 20 challenge counter (omega arith) h in
    rw (take-append_exact 20 challenge (counter ∷ []) len, get_or-append challenge 20 counter len)
      refl
general_refill-general_fields (get_ipod_authentication_signature challenge counter) h =
    let len = length-array 20 challenge counter (omega arith) h in
    rw (take-append_exact 20 challenge (counter ∷ []) len, get_or-append challenge 20 counter len)
      refl
general_refill-general_fields (ret_ipod_authentication_signature signature) h =
    ap ret_ipod_authentication_signature
      (take_all 20 signature (Fill-length (array 20) signature h))
general_refill-general_fields _ h = refl
