-- ===== src/DispRemote/Texts.antt =====
-- lingo-dispremote/dispremote.go: payloads with methods of their own, written and read back.
use ipod.Base.{
  ℕ, ◌+◌, ◌*◌, ◌/◌, ◌%◌, ◌<◌, ◌≡◌, refl, ap, ◌∙◌, subst, some, List, [], ◌∷◌, append-nil, arith,
  Result, ok, ◌>>=◌, All,
}
use ipod.DispRemote.Payloads.{ArtworkFormat, ret_ipod_state_info}
use ipod.DispRemote.Info.{
  InfoData, info_layout, info_fields, info_refill, info_type, new_info, info_track_position_ms,
  info_track_index, info_chapter_index, info_play_status, info_volume, info_power, info_equalizer,
  info_shuffle, info_repeat, info_date_time, info_backlight, info_hold_switch, info_sound_check,
  info_audiobook_speed, info_track_position_sec, info_volume2,
}
use ipod.DispRemote.TrackInfo.{
  TrackInfo, track_info_caps, track_info_chapter_time_name, track_info_artist, track_info_album,
  track_info_genre, track_info_track, track_info_composer, track_info_lyrics,
  track_info_artwork_count,
}
use ipod.Wire.{binary_read}
use ipod.Wire.Laws.{Fill, binary_read-binary_write}
use ipod.DispRemote.Codec.{
  written, read_info, marshal_state_info, unmarshal_state_info, marshal_formats, unmarshal_formats,
  marshal_times, unmarshal_times,
}

new_info-info_type :
    (d : InfoData)
    → (new : InfoData) × (new_info (info_type d) ≡ some new)
      × (info_layout new ≡ info_layout d)
      × (info_refill new (info_fields d) ≡ d)
unfolding new_info info_type info_layout info_fields info_refill
new_info-info_type (info_track_position_ms a) = (_, refl, refl, refl)
new_info-info_type (info_track_index a) = (_, refl, refl, refl)
new_info-info_type (info_chapter_index a b c) = (_, refl, refl, refl)
new_info-info_type (info_play_status a) = (_, refl, refl, refl)
new_info-info_type (info_volume a b) = (_, refl, refl, refl)
new_info-info_type (info_power a b) = (_, refl, refl, refl)
new_info-info_type (info_equalizer a) = (_, refl, refl, refl)
new_info-info_type (info_shuffle a) = (_, refl, refl, refl)
new_info-info_type (info_repeat a) = (_, refl, refl, refl)
new_info-info_type (info_date_time a b c d e) = (_, refl, refl, refl)
new_info-info_type (info_backlight a) = (_, refl, refl, refl)
new_info-info_type (info_hold_switch a) = (_, refl, refl, refl)
new_info-info_type (info_sound_check a) = (_, refl, refl, refl)
new_info-info_type (info_audiobook_speed a) = (_, refl, refl, refl)
new_info-info_type (info_track_position_sec a) = (_, refl, refl, refl)
new_info-info_type (info_volume2 a b c) = (_, refl, refl, refl)

info_type_lt : (d : InfoData) → info_type d < 256
unfolding info_type
info_type_lt (info_track_position_ms _) = omega arith
info_type_lt (info_track_index _) = omega arith
info_type_lt (info_chapter_index _ _ _) = omega arith
info_type_lt (info_play_status _) = omega arith
info_type_lt (info_volume _ _) = omega arith
info_type_lt (info_power _ _) = omega arith
info_type_lt (info_equalizer _) = omega arith
info_type_lt (info_shuffle _) = omega arith
info_type_lt (info_repeat _) = omega arith
info_type_lt (info_date_time _ _ _ _ _) = omega arith
info_type_lt (info_backlight _) = omega arith
info_type_lt (info_hold_switch _) = omega arith
info_type_lt (info_sound_check _) = omega arith
info_type_lt (info_audiobook_speed _) = omega arith
info_type_lt (info_track_position_sec _) = omega arith
info_type_lt (info_volume2 _ _ _) = omega arith

-- A state of the iPod, whatever its type, is read back from what is written of it, if its fields can
-- hold their values.
pub unmarshal_state_info-marshal_state_info :
    (d : InfoData)
    → Fill (info_layout d) (info_fields d)
    → unmarshal_state_info (marshal_state_info (info_type d) (some d))
      ≡ ok (ret_ipod_state_info (info_type d) (some d))
unfolding unmarshal_state_info marshal_state_info read_info
unmarshal_state_info-marshal_state_info d h =
    let new = new_info-info_type d in
    let w = binary_read-binary_write (info_layout d) (info_fields d) [] h in
    let read_back : binary_read (info_layout new.0) w.0 ≡ ok (info_fields d, []) =
      ap (λ l. binary_read l w.0) new.2
      ∙ subst (λ x. binary_read (info_layout d) x ≡ ok (info_fields d, [])) (append-nil w.0) w.3 in
    let same : info_type d % 256 ≡ info_type d = omega (arith, info_type_lt d) in
    ap (λ x. unmarshal_state_info ((info_type d % 256) ∷ written x)) w.1
    ∙ ap (λ x. read_info x w.0 (new_info x)) same
    ∙ ap (read_info (info_type d) w.0) new.1
    ∙ ap
        (λ (r : Result (List ℕ × List ℕ)).
          r >>= λ got. ok (ret_ipod_state_info (info_type d) (some (info_refill new.0 got.0))))
        read_back
    ∙ ap (λ x. ok (ret_ipod_state_info (info_type d) (some x))) new.3

-- The written form of a track's name: chapter name, artist, album, genre, title, composer or lyrics.
abbrev pub Named : TrackInfo → Type 0
Named (track_info_caps _ _ _) = ⊥
Named (track_info_chapter_time_name _ _) = Unit {0}
Named (track_info_artist _) = Unit {0}
Named (track_info_album _) = Unit {0}
Named (track_info_genre _) = Unit {0}
Named (track_info_track _) = Unit {0}
Named (track_info_composer _) = Unit {0}
Named (track_info_lyrics _ _ _) = Unit {0}
Named (track_info_artwork_count _) = ⊥

abbrev pub FormatFits : ArtworkFormat → Type 0
FormatFits f =
    (f.format_id < 65536)
    × (f.pixel_format < 256)
    × (f.image_width < 65536)
    × (f.image_height < 65536)

format_back :
    (f : ArtworkFormat)
    → FormatFits f
    → record {
      format_id = f.format_id / 256 % 256 * 256 + f.format_id % 256;
      pixel_format = f.pixel_format % 256;
      image_width = f.image_width / 256 % 256 * 256 + f.image_width % 256;
      image_height = f.image_height / 256 % 256 * 256 + f.image_height % 256;
    }
      ≡ f
format_back f h =
    rw
      (
        short_back f.format_id h.0,
        byte_back f.pixel_format h.1,
        short_back f.image_width h.2,
        short_back f.image_height h.3,
      )
      refl
  where
    short_back : (n : ℕ) → n < 65536 → n / 256 % 256 * 256 + n % 256 ≡ n
    short_back n lt = omega arith

    byte_back : (n : ℕ) → n < 256 → n % 256 ≡ n
    byte_back n lt = omega arith

-- Artwork formats whose numbers fit their fields are read back from their bytes, all and in order.
pub unmarshal_formats-marshal_formats :
    (fs : List ArtworkFormat) → All FormatFits fs → unmarshal_formats (marshal_formats fs) ≡ ok fs
unfolding unmarshal_formats marshal_formats
unmarshal_formats-marshal_formats [] h = refl
unmarshal_formats-marshal_formats (f ∷ fs) h =
    rw (unmarshal_formats-marshal_formats fs h.1) (ap (λ x. ok (x ∷ fs)) (format_back f h.0))

-- Artwork times of 32 bits are read back from their bytes, all and in order.
pub unmarshal_times-marshal_times :
    (ts : List ℕ) → All (λ t. t < 4294967296) ts → unmarshal_times (marshal_times ts) ≡ ok ts
unfolding unmarshal_times marshal_times
unmarshal_times-marshal_times [] h = refl
unmarshal_times-marshal_times (t ∷ ts) h =
    rw (unmarshal_times-marshal_times ts h.1) (ap (λ x. ok (x ∷ ts)) (omega (arith, h.0)))
