-- ===== src/ExtRemote/Codec.antt =====
-- lingo-extremote/extremote.go: how its payloads are written and read, and their registry.
use ipod.Base.{
  ℕ, ◌+◌, ◌*◌, ◌%◌, ◌&&◌, ◌||◌, Option, none, some, List, [], ◌∷◌, ◌++◌, Result, ok, err, ◌>>=◌,
  eof, unexpected_eof, not_fixed_size, ◌==◌, if◌then◌else◌,
}
use ipod.ExtRemote.Payloads.{
  ExtArtworkFormat, TrackData, track_caps, track_long_text, no_data, raw, ExtPayload, ext_code,
  return_indexed_playing_track_info, ret_artwork_formats, return_ipod_name,
  return_indexed_playing_track_title, return_indexed_playing_track_artist_name,
  return_indexed_playing_track_album_name, set_play_status_change_notification_short,
  play_status_change_notification_track_index, play_status_change_notification_extended,
  play_status_change_notification_position,
}
use ipod.Wire.{byte, short, word, be16, binary_size, binary_write, binary_read}
use ipod.Lingo.Ids.{lingo_ext_remote_id}
use ipod.Lingo.Registry.{no_types, register_lingos}
use ipod.Command.{Payloads}
use ipod.ExtRemote.Structs.{ext_new, ext_layout}
use ipod.ExtRemote.Values.{ext_fields, ext_refill, ext_lingos}

-- `binary.Write` of an `Info`, an interface{}: nil is refused.
unfoldable pub write_track_data : Option TrackData → Result (List ℕ)
unfolding binary_write
write_track_data none = err not_fixed_size
write_track_data (some (track_caps caps len count)) =
    binary_write (word ∷ word ∷ short ∷ []) (caps ∷ len ∷ count ∷ [])
write_track_data (some (track_long_text flags index text)) =
    binary_write (byte ∷ short ∷ byte ∷ []) (flags ∷ index ∷ text ∷ [])
write_track_data (some no_data) = ok []
write_track_data (some (raw bytes)) = ok bytes

-- What was read for `TrackCaps`
abbrev pub caps_of : List ℕ → TrackData
caps_of (a ∷ b ∷ c ∷ []) = track_caps a b c
caps_of _ = no_data

-- What was read for `TrackLongText`
abbrev pub long_text_of : List ℕ → TrackData
long_text_of (a ∷ b ∷ c ∷ []) = track_long_text a b c
long_text_of _ = no_data

-- The data behind the type's byte in `ReturnIndexedPlayingTrackInfo.UnmarshalBinary`.
unfoldable pub read_track_data : ℕ → List ℕ → Result TrackData
unfolding binary_read
read_track_data t rest =
    if t == 0
    then binary_read (word ∷ word ∷ short ∷ []) rest >>= (λ got. ok (caps_of got.0))
    else if t == 3 || t == 4
    then binary_read (byte ∷ short ∷ byte ∷ []) rest >>= (λ got. ok (long_text_of got.0))
    else ok no_data

unfoldable pub unmarshal_playing_info : List ℕ → Result ExtPayload
unfolding read_track_data
unmarshal_playing_info [] = err eof
unmarshal_playing_info (t ∷ rest) =
    read_track_data t rest >>= λ d. ok (return_indexed_playing_track_info t (some d))

-- `RetArtworkFormats.MarshalBinary`
unfoldable pub ext_marshal_formats : List ExtArtworkFormat → List ℕ
ext_marshal_formats [] = []
ext_marshal_formats (f ∷ fs) =
    be16 f.format_id
    ++ (((f.pixel_format % 256) ∷ [])
        ++ (be16 f.image_width ++ (be16 f.image_height ++ ext_marshal_formats fs)))

-- The loop of `RetArtworkFormats.UnmarshalBinary` to the end of the bytes.
unfoldable pub ext_unmarshal_formats : List ℕ → Result (List ExtArtworkFormat)
ext_unmarshal_formats [] = ok []
ext_unmarshal_formats (a ∷ b ∷ p ∷ c ∷ d ∷ e ∷ f ∷ rest) = ext_unmarshal_formats rest >>= λ formats.
    ok (
      record {
        format_id = a * 256 + b;
        pixel_format = p;
        image_width = c * 256 + d;
        image_height = e * 256 + f;
      }
      ∷ formats)
ext_unmarshal_formats bytes = err unexpected_eof

-- A payload's `MarshalBinary`, or `binary.Write` of its struct.
unfoldable pub ext_marshal : ExtPayload → Result (List ℕ)
unfolding write_track_data ext_marshal_formats binary_write ext_layout ext_fields
ext_marshal (return_indexed_playing_track_info t d) =
    write_track_data d >>= λ bytes. ok ((t % 256) ∷ bytes)
ext_marshal (ret_artwork_formats formats) = ok (ext_marshal_formats formats)
ext_marshal (return_ipod_name name) = ok name
ext_marshal (return_indexed_playing_track_title title) = ok title
ext_marshal (return_indexed_playing_track_artist_name name) = ok name
ext_marshal (return_indexed_playing_track_album_name name) = ok name
ext_marshal p = binary_write (ext_layout p) (ext_fields p)

-- The `UnmarshalBinary` of a new payload, or `binary.Read` into its struct.
unfoldable pub ext_unmarshal : ExtPayload → List ℕ → Result ExtPayload
unfolding unmarshal_playing_info ext_unmarshal_formats binary_read ext_layout ext_refill
ext_unmarshal (return_indexed_playing_track_info _ _) bytes = unmarshal_playing_info bytes
ext_unmarshal (ret_artwork_formats _) bytes =
    ext_unmarshal_formats bytes >>= λ formats. ok (ret_artwork_formats formats)
ext_unmarshal (return_ipod_name _) bytes = ok (return_ipod_name bytes)
ext_unmarshal (return_indexed_playing_track_title _) bytes =
    ok (return_indexed_playing_track_title bytes)
ext_unmarshal (return_indexed_playing_track_artist_name _) bytes =
    ok (return_indexed_playing_track_artist_name bytes)
ext_unmarshal (return_indexed_playing_track_album_name _) bytes =
    ok (return_indexed_playing_track_album_name bytes)
ext_unmarshal p bytes = binary_read (ext_layout p) bytes >>= λ got. ok (ext_refill p got.0)

-- A type's place among the types of its tag, by which the types with one tag are told apart.
abbrev pub ext_variant : ExtPayload → ℕ
ext_variant (set_play_status_change_notification_short _) = 1
ext_variant (play_status_change_notification_track_index _ _) = 1
ext_variant (play_status_change_notification_extended _ _) = 2
ext_variant (play_status_change_notification_position _ _) = 3
ext_variant _ = 0

-- `RegisterLingos` of the package's `init`, and the payloads with it.
unfoldable pub ext_payloads : Payloads ExtPayload ExtPayload
unfolding ext_marshal ext_unmarshal ext_code ext_layout ext_new binary_size register_lingos
ext_payloads = record {
  type_of = ext_new;
  same = λ a b. ext_code a == ext_code b && ext_variant a == ext_variant b;
  size = λ p. binary_size (ext_layout p);
  marshal = ext_marshal;
  unmarshal = ext_unmarshal;
  registry = (register_lingos lingo_ext_remote_id ext_lingos no_types).0;
}
