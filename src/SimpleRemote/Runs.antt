-- ===== src/SimpleRemote/Runs.antt =====
-- Runs of the simple remote lingo.
use ipod.Base.{◌≡◌, refl, [], ◌∷◌, ok}
use ipod.SimpleRemote.Buttons.{bit_len, byte_len, marshal_button_states, unmarshal_button_states}

no_buttons : marshal_button_states 0 ≡ 0 ∷ []
unfolding marshal_button_states byte_len bit_len
no_buttons = refl

next_album : marshal_button_states 0x20C ≡ 0x0C ∷ 0x02 ∷ []
unfolding marshal_button_states byte_len bit_len
next_album = refl

five_bytes : unmarshal_button_states (1 ∷ 0 ∷ 0 ∷ 1 ∷ 9 ∷ []) ≡ ok 0x1000001
unfolding unmarshal_button_states
five_bytes = refl
