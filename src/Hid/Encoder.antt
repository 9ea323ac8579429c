-- ===== src/Hid/Encoder.antt =====
-- `Encoder.WriteFrame` of hid/hid.go.
use ipod.Base.{
  ℕ, zero, suc, ◌+◌, ◌-◌, ◌%◌, Bool, true, false, List, ◌++◌, Option, none, some, Result, ok, err,
  panic, length, take, drop, replicate, leb, ltb, ◌==◌, if◌then◌else◌,
}
use ipod.Hid.Defs.{
  Report, ReportDef, acc_in, max_payload, pick, link_control_done, link_control_continue,
  link_control_more_to_follow, link_control_both,
}

-- Whether the bytes left do not all fit: `bytesLeft > reportDef.MaxPayload()`.
abbrev pub overflows : ReportDef → ℕ → Bool
overflows def bytes_left = leb def.len bytes_left

abbrev pub payload_len : ReportDef → ℕ → ℕ
payload_len def bytes_left = if overflows def bytes_left then max_payload def else bytes_left

abbrev pub link_control : ReportDef → ℕ → ℕ → ℕ
link_control def offset bytes_left =
    if overflows def bytes_left
    then (if offset == 0 then link_control_more_to_follow else link_control_both)
    else if ltb 0 offset
    then link_control_continue
    else link_control_done

-- `make([]byte, n)` and `copy`: the part, cut or filled with zeros to n bytes.
abbrev pub padded : ℕ → List ℕ → List ℕ
padded n part = take n part ++ replicate (n - length part) 0

abbrev pub report_of : ReportDef → List ℕ → ℕ → ℕ → Report
report_of def bytes offset bytes_left = record {
  id = def.id % 256;
  link_control = link_control def offset bytes_left;
  payload = padded (max_payload def) (take (payload_len def bytes_left) (drop offset bytes));
}

-- A report writer as a function on its state.
abbrev pub ReportWriter {ℓ} : Type ℓ → Type ℓ
ReportWriter S = S → Report → S × Result (Unit {0})

module _ {ℓ} {S : Type ℓ} (write_report : ReportWriter S) (defs : List ReportDef) where
  -- The loop, with one round for each report; `none` means that the fuel ran out. A report type of
  -- length 0 has the payload size -1, for which `make` panics.
  unfoldable pub write_frame_loop : ℕ → List ℕ → ℕ → ℕ → S → Option (S × Result (Unit {0}))
  write_frame_loop zero bytes offset bytes_left s = none
  write_frame_loop (suc fuel) bytes offset bytes_left s = elim (bytes_left == 0) [
    | true ↦ some (s, ok tt)
    | false ↦ elim (pick defs bytes_left acc_in) [
      | err e ↦ some (s, err e)
      | panic ↦ some (s, panic)
      | ok def ↦ elim (def.len == 0) [
        | true ↦ some (s, panic)
        | false ↦
            let n = payload_len def bytes_left in
            let (s', written) = write_report s (report_of def bytes offset bytes_left) in
            elim written [
              | ok _ ↦ write_frame_loop fuel bytes (offset + n) (bytes_left - n) s'
              | err e ↦ some (s', err e)
              | panic ↦ some (s', panic)
            ]
      ]
    ]
  ]

  unfoldable pub write_frame : ℕ → List ℕ → S → Option (S × Result (Unit {0}))
  write_frame fuel bytes s = write_frame_loop fuel bytes 0 (length bytes) s
