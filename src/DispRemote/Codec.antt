-- ===== src/DispRemote/Codec.antt =====
-- lingo-dispremote/dispremote.go: how its payloads are written and read, and their registry.
use ipod.Base.{
  ℕ, ◌+◌, ◌*◌, ◌%◌, Option, none, some, List, [], ◌∷◌, ◌++◌, Result, ok, err, ◌>>=◌, unexpected_eof,
  not_fixed_size, unknown_info_type, ◌==◌,
}
use ipod.DispRemote.Payloads.{
  ArtworkFormat, DispPayload, code, remote_event_notification, ret_ipod_state_info,
  ret_indexed_playing_track_info, ret_artwork_formats, ret_track_artwork_times,
}
use ipod.DispRemote.Info.{InfoData, info_layout, info_fields, info_refill, new_info}
use ipod.DispRemote.TrackInfo.{TrackInfo, track_layout, track_fields, track_refill, new_track_info}
use ipod.Wire.{be16, be32, binary_size, binary_write, binary_read}
use ipod.Lingo.Ids.{lingo_display_remote_id}
use ipod.Lingo.Registry.{no_types, register_lingos}
use ipod.Command.{Payloads}
use ipod.DispRemote.Structs.{new_value, layout, fields, refill, lingos}

-- What a call of `binary.Write` adds to a buffer if its error is dropped.
abbrev pub written : Result (List ℕ) → List ℕ
written (ok bytes) = bytes
written failed = []

-- `binary.Write` of an `InfoData`, an interface{}: nil is refused.
abbrev pub write_info : Option InfoData → Result (List ℕ)
write_info none = err not_fixed_size
write_info (some d) = binary_write (info_layout d) (info_fields d)

-- `RetiPodStateInfo.MarshalBinary`, which drops the errors of `binary.Write`.
unfoldable pub marshal_state_info : ℕ → Option InfoData → List ℕ
unfolding binary_write info_layout info_fields
marshal_state_info t d = (t % 256) ∷ written (write_info d)

abbrev pub write_track_info : Option TrackInfo → Result (List ℕ)
write_track_info none = err not_fixed_size
write_track_info (some d) = binary_write (track_layout d) (track_fields d)

-- `RetIndexedPlayingTrackInfo.MarshalBinary`, which drops the errors of `binary.Write`.
unfoldable pub marshal_track_info : ℕ → Option TrackInfo → List ℕ
unfolding binary_write track_layout track_fields
marshal_track_info t d = (t % 256) ∷ written (write_track_info d)

-- The type that an `UnmarshalBinary` reads first, dropping the error of no bytes at all, and the bytes
-- behind it.
abbrev pub first_byte : List ℕ → ℕ × List ℕ
first_byte [] = (0, [])
first_byte (t ∷ rest) = (t, rest)

-- The data of a state is read into the struct that its type has.
unfoldable pub read_info : ℕ → List ℕ → Option InfoData → Result DispPayload
unfolding binary_read info_layout info_refill
read_info t rest none = err unknown_info_type
read_info t rest (some d) = binary_read (info_layout d) rest >>= λ got.
    ok (ret_ipod_state_info t (some (info_refill d got.0)))

-- `RetiPodStateInfo.UnmarshalBinary`
unfoldable pub unmarshal_state_info : List ℕ → Result DispPayload
unfolding read_info new_info
unmarshal_state_info bytes = let (t, rest) = first_byte bytes in read_info t rest (new_info t)

-- `RetIndexedPlayingTrackInfo.UnmarshalBinary`
unfoldable pub unmarshal_track_info : List ℕ → Result DispPayload
unfolding binary_read new_track_info track_layout track_refill
unmarshal_track_info bytes =
    let (t, rest) = first_byte bytes in
    elim (new_track_info t) [
      | none ↦ err unknown_info_type
      | some d ↦ binary_read (track_layout d) rest >>= λ got.
          ok (ret_indexed_playing_track_info t (some (track_refill d got.0)))
    ]

-- `RetArtworkFormats.MarshalBinary`
unfoldable pub marshal_formats : List ArtworkFormat → List ℕ
marshal_formats [] = []
marshal_formats (f ∷ fs) =
    be16 f.format_id
    ++ (((f.pixel_format % 256) ∷ [])
        ++ (be16 f.image_width ++ (be16 f.image_height ++ marshal_formats fs)))

-- The loop of `RetArtworkFormats.UnmarshalBinary` to the end of the bytes.
unfoldable pub unmarshal_formats : List ℕ → Result (List ArtworkFormat)
unmarshal_formats [] = ok []
unmarshal_formats (a ∷ b ∷ p ∷ c ∷ d ∷ e ∷ f ∷ rest) = unmarshal_formats rest >>= λ formats. ok (
    record {
      format_id = a * 256 + b;
      pixel_format = p;
      image_width = c * 256 + d;
      image_height = e * 256 + f;
    }
    ∷ formats)
unmarshal_formats bytes = err unexpected_eof

-- `RetTrackArtworkTimes.MarshalBinary`
unfoldable pub marshal_times : List ℕ → List ℕ
marshal_times [] = []
marshal_times (t ∷ ts) = be32 t ++ marshal_times ts

-- The loop of `RetTrackArtworkTimes.UnmarshalBinary` to the end of the bytes.
unfoldable pub unmarshal_times : List ℕ → Result (List ℕ)
unmarshal_times [] = ok []
unmarshal_times (a ∷ b ∷ c ∷ d ∷ rest) =
    unmarshal_times rest >>= λ ts. ok ((a * 16777216 + b * 65536 + c * 256 + d) ∷ ts)
unmarshal_times bytes = err unexpected_eof

-- A payload's `MarshalBinary`, or `binary.Write` of its struct.
unfoldable pub marshal : DispPayload → Result (List ℕ)
unfolding marshal_state_info marshal_track_info marshal_formats marshal_times binary_write layout
    fields
marshal (remote_event_notification event_num event_data) = ok ((event_num % 256) ∷ event_data)
marshal (ret_ipod_state_info t d) = ok (marshal_state_info t d)
marshal (ret_indexed_playing_track_info t d) = ok (marshal_track_info t d)
marshal (ret_artwork_formats formats) = ok (marshal_formats formats)
marshal (ret_track_artwork_times times) = ok (marshal_times times)
marshal p = binary_write (layout p) (fields p)

-- The `UnmarshalBinary` of a new payload, or `binary.Read` into its struct.
unfoldable pub unmarshal : DispPayload → List ℕ → Result DispPayload
unfolding unmarshal_state_info unmarshal_track_info unmarshal_formats unmarshal_times binary_read
    layout refill
unmarshal (ret_ipod_state_info _ _) bytes = unmarshal_state_info bytes
unmarshal (ret_indexed_playing_track_info _ _) bytes = unmarshal_track_info bytes
unmarshal (ret_artwork_formats _) bytes =
    unmarshal_formats bytes >>= λ formats. ok (ret_artwork_formats formats)
unmarshal (ret_track_artwork_times _) bytes =
    unmarshal_times bytes >>= λ times. ok (ret_track_artwork_times times)
unmarshal p bytes = binary_read (layout p) bytes >>= λ got. ok (refill p got.0)

-- `RegisterLingos` of the package's `init`, and the payloads with it. A type is named by its zero value.
unfoldable pub disp_payloads : Payloads DispPayload DispPayload
unfolding marshal unmarshal code layout new_value binary_size register_lingos
disp_payloads = record {
  type_of = new_value;
  same = λ a b. code a == code b;
  size = λ p. binary_size (layout p);
  marshal = marshal;
  unmarshal = unmarshal;
  registry = (register_lingos lingo_display_remote_id lingos no_types).0;
}
