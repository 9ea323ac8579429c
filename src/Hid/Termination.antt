-- ===== src/Hid/Termination.antt =====
-- The end of the loop of `WriteFrame` of hid/hid.go.
use ipod.Base.{
  ℕ, zero, suc, ◌-◌, ◌<◌, ◌≡◌, ◌≢◌, false, List, some, Result, ok, err, panic, arith, length, All,
  inl, inr, ◌==◌, Bool-cases, Result-cases,
}
use ipod.Hid.Defs.{ReportDef, acc_in, pick}
use ipod.Hid.Encoder.{ReportWriter, payload_len, report_of, write_frame_loop, write_frame}
use ipod.Hid.Picking.{pick-Picked, Picked-All}

-- A report type to the accessory holds a byte of payload, or has the length 0.
abbrev pub HoldsBytes : ReportDef → Type 0
HoldsBytes def = def.dir ≡ acc_in → def.len ≢ 1

holds_picked :
    (defs : List ReportDef) (left : ℕ) (def : ReportDef)
    → All HoldsBytes defs
    → pick defs left acc_in ≡ ok def
    → def.len ≢ 1
holds_picked defs left def holds e =
    let p = pick-Picked defs left acc_in def e in Picked-All HoldsBytes p holds p.right_dir

shrinks :
    (def : ReportDef) (left fuel : ℕ)
    → left < suc fuel
    → (left == 0) ≡ false
    → (def.len == 0) ≡ false
    → def.len ≢ 1
    → left - payload_len def left < fuel
shrinks def left fuel enough some_left some_len more_len = ground arith

module _ {ℓ} {S : Type ℓ} (write_report : ReportWriter S) (defs : List ReportDef)
    (holds : All HoldsBytes defs) where
  write_frame_loop_total :
      (fuel : ℕ) (bytes : List ℕ) (offset left : ℕ) (s : S)
      → left < fuel
      → (result : S × Result (Unit {0})) × (write_frame_loop write_report defs fuel bytes offset
            left s
          ≡ some result)
  unfolding write_frame_loop
  write_frame_loop_total zero bytes offset left s enough = absurd (omega arith)
  write_frame_loop_total (suc fuel) bytes offset left s enough = elim (Bool-cases (left == 0)) [
    | inl done ↦ ((s, ok tt), rw (done, write_frame_loop))
    | inr some_left ↦ elim (Result-cases (pick defs left acc_in)) [
      | inr (inr e) ↦ ((s, panic), rw (some_left, e, write_frame_loop))
      | inr (inl (x, e)) ↦ ((s, err x), rw (some_left, e, write_frame_loop))
      | inl (def, e) ↦ elim (Bool-cases (def.len == 0)) [
        | inl empty ↦ ((s, panic), rw (some_left, e, write_frame_loop) (rw empty))
        | inr some_len ↦ elim (Result-cases (write_report s (report_of def bytes offset left)).1) [
          | inr (inr w) ↦ (
            ((write_report s (report_of def bytes offset left)).0, panic),
            rw (some_left, e, write_frame_loop) (rw (some_len, w)),
          )
          | inr (inl (x, w)) ↦ (
            ((write_report s (report_of def bytes offset left)).0, err x),
            rw (some_left, e, write_frame_loop) (rw (some_len, w)),
          )
          | inl (u, w) ↦
              rw (some_left, e, write_frame_loop)
                (rw (some_len, w)
                  (write_frame_loop_total fuel bytes _ (left - payload_len def left) _ (
                    shrinks def left fuel enough some_left some_len
                      (holds_picked defs left def holds e))))
        ]
      ]
    ]
  ]

  -- With fuel above the frame's length the encoder's loop ends on every frame, whatever the report
  -- writer answers, provided that no report type to the accessory has the length 1.
  pub write_frame_total :
      (fuel : ℕ) (bytes : List ℕ) (s : S)
      → length bytes < fuel
      → (result : S × Result (Unit {0})) × (write_frame write_report defs fuel bytes s
          ≡ some result)
  unfolding write_frame
  write_frame_total fuel bytes s enough =
      write_frame_loop_total fuel bytes 0 (length bytes) s enough
