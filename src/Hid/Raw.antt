-- ===== src/Hid/Raw.antt =====
-- hid/report_transport.go: reports as raw bytes of a character device.
use ipod.Base.{ℕ, List, ◌∷◌, Result, ok, err, panic, no_progress}
use ipod.Hid.Defs.{Report}

-- `SingleReport.ReadReport`, which panics on less than two bytes.
unfoldable pub single_report : List ℕ → Result Report
single_report (id ∷ link ∷ bytes) = ok (record { id = id; link_control = link; payload = bytes })
single_report bytes = panic

abbrev pub max_raw_size : ℕ
max_raw_size = 1024

-- `rawReportReader.ReadReport`, from what `Read` put into the buffer: an error, or the bytes read.
unfoldable pub read_report : Result (List ℕ) → Result Report
read_report (err e) = err e
read_report panic = panic
read_report (ok (id ∷ link ∷ b ∷ bytes)) =
    ok (record { id = id; link_control = link; payload = b ∷ bytes })
read_report (ok bytes) = err no_progress

-- `rawReportWriter.WriteReport` hands these bytes to one call of `Write`.
unfoldable pub raw_report : Report → List ℕ
raw_report report = report.id ∷ report.link_control ∷ report.payload
