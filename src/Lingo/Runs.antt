-- ===== src/Lingo/Runs.antt =====
-- lingo.go: command ids at concrete inputs.
use ipod.Base.{◌≡◌, refl, [], ◌∷◌}
use ipod.Lingo.Ids.{marshal_lingo_cmd_id}

-- GetPlayStatus of the extended remote, which has a command of two bytes.
ext_remote_bytes : marshal_lingo_cmd_id 0x04001C ≡ 4 ∷ 0 ∷ 0x1C ∷ []
unfolding marshal_lingo_cmd_id
ext_remote_bytes = refl

display_remote_bytes : marshal_lingo_cmd_id 0x03000F ≡ 3 ∷ 0x0F ∷ []
unfolding marshal_lingo_cmd_id
display_remote_bytes = refl
