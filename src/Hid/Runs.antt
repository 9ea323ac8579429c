-- ===== src/Hid/Runs.antt =====
-- The runs of hid/hid_test.go, and the theorems on reports at concrete inputs.
use ipod.Base.{ℕ, ◌≡◌, refl, List, [], ◌∷◌, ◌++◌, ok, some, Result, arith, All, map, replicate}
use ipod.Hid.Defs.{Report, ReportDef, acc_in, pick, find, default_report_defs, legacy_report_defs}
use ipod.Hid.Encoder.{write_frame, write_frame_loop}
use ipod.Hid.Decoder.{read_frame, read_frame_loop, effect}
use ipod.Hid.Rounds.{keep_reports, Serves}
use ipod.Hid.RoundTrip.{read_frame-write_frame}
use ipod.Hid.Termination.{HoldsBytes, write_frame_total}

abbrev two_defs : List ReportDef
two_defs = record { id = 1; len = 2; dir = acc_in } ∷ record { id = 2; len = 3; dir = acc_in } ∷ []

-- report-2-pkt-3
encode_three :
    write_frame keep_reports two_defs 4 (1 ∷ 2 ∷ 3 ∷ []) []
    ≡ some (
      record { id = 2; link_control = 2; payload = 1 ∷ 2 ∷ [] }
          ∷ record { id = 1; link_control = 1; payload = 3 ∷ [] }
          ∷ [],
      ok tt,
    )
unfolding write_frame write_frame_loop pick
encode_three = refl

decode_three :
    read_frame two_defs (
      ok (record { id = 2; link_control = 2; payload = 1 ∷ 2 ∷ [] })
      ∷ ok (record { id = 1; link_control = 1; payload = 3 ∷ [] })
      ∷ [])
    ≡ ([], ok (1 ∷ 2 ∷ 3 ∷ []))
unfolding read_frame read_frame_loop find effect
decode_three = refl

default-Serves : Serves default_report_defs
unfolding find pick
default-Serves = record {
  usable = (
    (omega arith, omega arith, refl),
    (
      (omega arith, omega arith, refl),
      (
        (omega arith, omega arith, refl),
        (
          (omega arith, omega arith, refl),
          (
            (omega arith, omega arith, refl),
            (
              (omega arith, omega arith, refl),
              (
                (omega arith, omega arith, refl),
                ((omega arith, omega arith, refl), ((omega arith, omega arith, refl), tt)),
              ),
            ),
          ),
        ),
      ),
    ),
  );
  one = record { id = 1; len = 12; dir = acc_in };
  one_picked = refl;
}

read_frame-write_frame_example :
    (reports : List Report) × (padding : ℕ) × (write_frame keep_reports default_report_defs 4
        (1 ∷ 2 ∷ 3 ∷ [])
        []
      ≡ some (reports, ok tt))
    × (read_frame default_report_defs (map ok reports ++ [])
        ≡ ([], ok (1 ∷ 2 ∷ 3 ∷ replicate padding 0)))
read_frame-write_frame_example =
    read_frame-write_frame default_report_defs 4 (1 ∷ 2 ∷ 3 ∷ []) [] default-Serves (omega arith)
      (omega arith)

legacy-HoldsBytes : All HoldsBytes legacy_report_defs
legacy-HoldsBytes = omega arith

write_frame_total_example :
    (result : List Report × Result (Unit {0})) × (write_frame keep_reports legacy_report_defs 4
        (1 ∷ 2 ∷ 3 ∷ [])
        []
      ≡ some result)
write_frame_total_example =
    write_frame_total keep_reports legacy_report_defs legacy-HoldsBytes 4 (1 ∷ 2 ∷ 3 ∷ []) []
      (omega arith)
