-- ===== src/DispRemote/Info.antt =====
-- lingo-dispremote/dispremote.go: the state of the iPod by its type.
use ipod.Base.{ℕ, Option, none, some, List, [], ◌∷◌, ◌==◌, if◌then◌else◌}
use ipod.Wire.{Width, byte, short, word}

pub data InfoData : Type 0 where
  info_track_position_ms : (track_position_ms : ℕ) → InfoData
  info_track_index : (track_index : ℕ) → InfoData
  info_chapter_index : (track_index chapter_count chapter_index : ℕ) → InfoData
  info_play_status : (play_status : ℕ) → InfoData
  info_volume : (mute_state ui_volume_level : ℕ) → InfoData
  info_power : (power_state battery_level : ℕ) → InfoData
  info_equalizer : (eq_index : ℕ) → InfoData
  info_shuffle : (shuffle_state : ℕ) → InfoData
  info_repeat : (repeat_state : ℕ) → InfoData
  info_date_time : (year month day hour minute : ℕ) → InfoData
  info_backlight : (backlight_level : ℕ) → InfoData
  info_hold_switch : (hold_switch_state : ℕ) → InfoData
  info_sound_check : (sound_check_state : ℕ) → InfoData
  info_audiobook_speed : (playback_speed : ℕ) → InfoData
  info_track_position_sec : (track_position_sec : ℕ) → InfoData
  info_volume2 : (mute_state ui_volume_level absolute_volume_level : ℕ) → InfoData

-- The fields of the struct.
unfoldable pub info_layout : InfoData → List Width
info_layout (info_track_position_ms _) = word ∷ []
info_layout (info_track_index _) = word ∷ []
info_layout (info_chapter_index _ _ _) = word ∷ short ∷ short ∷ []
info_layout (info_play_status _) = byte ∷ []
info_layout (info_volume _ _) = byte ∷ byte ∷ []
info_layout (info_power _ _) = byte ∷ byte ∷ []
info_layout (info_equalizer _) = word ∷ []
info_layout (info_shuffle _) = byte ∷ []
info_layout (info_repeat _) = byte ∷ []
info_layout (info_date_time _ _ _ _ _) = short ∷ byte ∷ byte ∷ byte ∷ byte ∷ []
info_layout (info_backlight _) = byte ∷ []
info_layout (info_hold_switch _) = byte ∷ []
info_layout (info_sound_check _) = byte ∷ []
info_layout (info_audiobook_speed _) = byte ∷ []
info_layout (info_track_position_sec _) = short ∷ []
info_layout (info_volume2 _ _ _) = byte ∷ byte ∷ byte ∷ []

-- Their values, if all have a fixed size.
unfoldable pub info_fields : InfoData → List ℕ
info_fields (info_track_position_ms a) = a ∷ []
info_fields (info_track_index a) = a ∷ []
info_fields (info_chapter_index a b c) = a ∷ b ∷ c ∷ []
info_fields (info_play_status a) = a ∷ []
info_fields (info_volume a b) = a ∷ b ∷ []
info_fields (info_power a b) = a ∷ b ∷ []
info_fields (info_equalizer a) = a ∷ []
info_fields (info_shuffle a) = a ∷ []
info_fields (info_repeat a) = a ∷ []
info_fields (info_date_time a b c d e) = a ∷ b ∷ c ∷ d ∷ e ∷ []
info_fields (info_backlight a) = a ∷ []
info_fields (info_hold_switch a) = a ∷ []
info_fields (info_sound_check a) = a ∷ []
info_fields (info_audiobook_speed a) = a ∷ []
info_fields (info_track_position_sec a) = a ∷ []
info_fields (info_volume2 a b c) = a ∷ b ∷ c ∷ []

-- The struct with other values in its fields.
unfoldable pub info_refill : InfoData → List ℕ → InfoData
info_refill (info_track_position_ms _) (a ∷ []) = info_track_position_ms a
info_refill (info_track_index _) (a ∷ []) = info_track_index a
info_refill (info_chapter_index _ _ _) (a ∷ b ∷ c ∷ []) = info_chapter_index a b c
info_refill (info_play_status _) (a ∷ []) = info_play_status a
info_refill (info_volume _ _) (a ∷ b ∷ []) = info_volume a b
info_refill (info_power _ _) (a ∷ b ∷ []) = info_power a b
info_refill (info_equalizer _) (a ∷ []) = info_equalizer a
info_refill (info_shuffle _) (a ∷ []) = info_shuffle a
info_refill (info_repeat _) (a ∷ []) = info_repeat a
info_refill (info_date_time _ _ _ _ _) (a ∷ b ∷ c ∷ d ∷ e ∷ []) = info_date_time a b c d e
info_refill (info_backlight _) (a ∷ []) = info_backlight a
info_refill (info_hold_switch _) (a ∷ []) = info_hold_switch a
info_refill (info_sound_check _) (a ∷ []) = info_sound_check a
info_refill (info_audiobook_speed _) (a ∷ []) = info_audiobook_speed a
info_refill (info_track_position_sec _) (a ∷ []) = info_track_position_sec a
info_refill (info_volume2 _ _ _) (a ∷ b ∷ c ∷ []) = info_volume2 a b c
info_refill p _ = p

-- `InfoType` of the struct.
unfoldable pub info_type : InfoData → ℕ
info_type (info_track_position_ms _) = 0
info_type (info_track_index _) = 1
info_type (info_chapter_index _ _ _) = 2
info_type (info_play_status _) = 3
info_type (info_volume _ _) = 4
info_type (info_power _ _) = 5
info_type (info_equalizer _) = 6
info_type (info_shuffle _) = 7
info_type (info_repeat _) = 8
info_type (info_date_time _ _ _ _ _) = 9
info_type (info_backlight _) = 11
info_type (info_hold_switch _) = 12
info_type (info_sound_check _) = 13
info_type (info_audiobook_speed _) = 14
info_type (info_track_position_sec _) = 15
info_type (info_volume2 _ _ _) = 16

-- The struct that `RetiPodStateInfo.UnmarshalBinary` makes for a type; `none` is its error.
unfoldable pub new_info : ℕ → Option InfoData
new_info t =
    if t == 0
    then some (info_track_position_ms 0)
    else if t == 1
    then some (info_track_index 0)
    else if t == 2
    then some (info_chapter_index 0 0 0)
    else if t == 3
    then some (info_play_status 0)
    else if t == 4
    then some (info_volume 0 0)
    else if t == 5
    then some (info_power 0 0)
    else if t == 6
    then some (info_equalizer 0)
    else if t == 7
    then some (info_shuffle 0)
    else if t == 8
    then some (info_repeat 0)
    else if t == 9
    then some (info_date_time 0 0 0 0 0)
    else if t == 11
    then some (info_backlight 0)
    else if t == 12
    then some (info_hold_switch 0)
    else if t == 13
    then some (info_sound_check 0)
    else if t == 14
    then some (info_audiobook_speed 0)
    else if t == 15
    then some (info_track_position_sec 0)
    else if t == 16
    then some (info_volume2 0 0 0)
    else none
