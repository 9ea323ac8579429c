-- ===== src/DispRemote/TrackInfo.antt =====
-- lingo-dispremote/dispremote.go: what a track can be asked for.
use ipod.Base.{ℕ, Option, none, some, List, [], ◌∷◌, ◌==◌, if◌then◌else◌}
use ipod.Wire.{Width, byte, short, word, slice}

pub data TrackInfo : Type 0 where
  track_info_caps : (caps track_total_ms chapter_count : ℕ) → TrackInfo
  track_info_chapter_time_name : (chapter_time : ℕ) (chapter_name : List ℕ) → TrackInfo
  track_info_artist : (name : List ℕ) → TrackInfo
  track_info_album : (name : List ℕ) → TrackInfo
  track_info_genre : (name : List ℕ) → TrackInfo
  track_info_track : (title : List ℕ) → TrackInfo
  track_info_composer : (name : List ℕ) → TrackInfo
  track_info_lyrics : (flags packet_index : ℕ) (lyrics : List ℕ) → TrackInfo
  track_info_artwork_count : (none : ℕ) → TrackInfo

-- The fields of the struct.
unfoldable pub track_layout : TrackInfo → List Width
track_layout (track_info_caps _ _ _) = word ∷ word ∷ short ∷ []
track_layout (track_info_chapter_time_name _ _) = word ∷ slice ∷ []
track_layout (track_info_artist _) = slice ∷ []
track_layout (track_info_album _) = slice ∷ []
track_layout (track_info_genre _) = slice ∷ []
track_layout (track_info_track _) = slice ∷ []
track_layout (track_info_composer _) = slice ∷ []
track_layout (track_info_lyrics _ _ _) = byte ∷ short ∷ slice ∷ []
track_layout (track_info_artwork_count _) = byte ∷ []

-- Their values, if all have a fixed size.
unfoldable pub track_fields : TrackInfo → List ℕ
track_fields (track_info_caps a b c) = a ∷ b ∷ c ∷ []
track_fields (track_info_artwork_count a) = a ∷ []
track_fields info = []

-- The struct with other values in its fields.
unfoldable pub track_refill : TrackInfo → List ℕ → TrackInfo
track_refill (track_info_caps _ _ _) (a ∷ b ∷ c ∷ []) = track_info_caps a b c
track_refill (track_info_artwork_count _) (a ∷ []) = track_info_artwork_count a
track_refill p _ = p

-- `TrackInfoType` of the struct.
unfoldable pub track_info_type : TrackInfo → ℕ
track_info_type (track_info_caps _ _ _) = 0
track_info_type (track_info_chapter_time_name _ _) = 1
track_info_type (track_info_artist _) = 2
track_info_type (track_info_album _) = 3
track_info_type (track_info_genre _) = 4
track_info_type (track_info_track _) = 5
track_info_type (track_info_composer _) = 6
track_info_type (track_info_lyrics _ _ _) = 7
track_info_type (track_info_artwork_count _) = 8

-- The struct that `RetIndexedPlayingTrackInfo.UnmarshalBinary` makes for a type.
unfoldable pub new_track_info : ℕ → Option TrackInfo
new_track_info t =
    if t == 0
    then some (track_info_caps 0 0 0)
    else if t == 1
    then some (track_info_chapter_time_name 0 [])
    else if t == 2
    then some (track_info_artist [])
    else if t == 3
    then some (track_info_album [])
    else if t == 4
    then some (track_info_genre [])
    else if t == 5
    then some (track_info_track [])
    else if t == 6
    then some (track_info_composer [])
    else if t == 7
    then some (track_info_lyrics 0 0 [])
    else if t == 8
    then some (track_info_artwork_count 0)
    else none
