-- ===== src/Hid/Decoder.antt =====
-- `Decoder.ReadFrame` of hid/hid.go.
use ipod.Base.{
  ℕ, ◌==◌, List, [], ◌∷◌, ◌++◌, Result, ok, err, panic, length, take, min, if◌then◌else◌, eof,
}
use ipod.Hid.Defs.{
  Report, ReportDef, max_payload, find, link_control_done, link_control_continue,
  link_control_more_to_follow, link_control_both,
}

-- What a report does to the buffer, and whether it ends the frame. Other link controls change nothing
-- and do not end it.
pub data Effect : Type 0 where
  more : List ℕ → Effect
  complete : List ℕ → Effect

unfoldable pub effect : List ℕ → ℕ → List ℕ → Effect
effect buf link bytes =
    if link == link_control_done
    then complete bytes
    else if link == link_control_more_to_follow
    then more bytes
    else if link == link_control_both
    then more (buf ++ bytes)
    else if link == link_control_continue
    then complete (buf ++ bytes)
    else more buf

-- The reader is the list of what its calls of `ReadReport` will return, and io.EOF behind it. A report
-- type of length 0 has the payload size -1, for which `report.Data[:n]` panics. With what is left of the
-- reader.
unfoldable pub read_frame_loop :
    List ReportDef → List ℕ → List (Result Report) → List (Result Report) × Result (List ℕ)
read_frame_loop defs buf [] = ([], err eof)
read_frame_loop defs buf (err e ∷ reports) = (reports, err e)
read_frame_loop defs buf (panic ∷ reports) = (reports, panic)
read_frame_loop defs buf (ok report ∷ reports) = elim (find defs report.id) [
  | err e ↦ (reports, err e)
  | panic ↦ (reports, panic)
  | ok def ↦
      let n = min (length report.payload) (max_payload def) in
      if def.len == 0
      then (reports, panic)
      else elim (effect buf report.link_control (take n report.payload)) [
        | complete frame ↦ (reports, ok frame)
        | more buf' ↦ read_frame_loop defs buf' reports
      ]
]

unfoldable pub read_frame :
    List ReportDef → List (Result Report) → List (Result Report) × Result (List ℕ)
read_frame defs reports = read_frame_loop defs [] reports
