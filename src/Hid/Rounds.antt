-- ===== src/Hid/Rounds.antt =====
-- One report of hid/hid.go, from the encoder to the decoder.
use ipod.Base.{
  ℕ, zero, suc, ◌-◌, ◌<◌, ◌≡◌, true, false, List, [], ◌∷◌, ◌++◌, Result, ok, arith, length, take,
  replicate, All, inl, inr, min, length-append, length-replicate, length-take, take_all,
}
use ipod.Hid.Defs.{Report, ReportDef, acc_in, max_payload, pick, find}
use ipod.Hid.Encoder.{ReportWriter, overflows, link_control, padded}
use ipod.Hid.Decoder.{Effect, effect, read_frame_loop}
use ipod.Hid.Picking.{pick-Picked, Picked-All, OtherDir, pick_cases}

-- A writer that keeps the reports.
abbrev pub keep_reports : ReportWriter (List Report)
keep_reports reports report = (reports ++ (report ∷ []), ok tt)

-- A report type that a decoder finds by its own number, which is a byte, and that holds at least one
-- byte of payload.
abbrev pub Usable : List ReportDef → ReportDef → Type 0
Usable defs def = (1 < def.len) × (def.id < 256) × (find defs def.id ≡ ok def)

-- Every report type can be used, and one carries frames to the accessory.
pub record Serves (defs : List ReportDef) : Type 0 where
  pub usable : All (Usable defs) defs
  pub one : ReportDef
  pub one_picked : pick defs 1 acc_in ≡ ok one

-- What a decoder has buffered when a frame is `offset` bytes on.
abbrev pub base : ℕ → List ℕ → List ℕ
base zero buf = []
base (suc offset) buf = buf

pub picked :
    (defs : List ReportDef) (n : ℕ)
    → Serves defs
    → (def : ReportDef) × (pick defs n acc_in ≡ ok def) × Usable defs def
picked defs n s = elim (pick_cases defs n acc_in) [
  | inr (def, e) ↦ (def, e, Picked-All (Usable defs) (pick-Picked defs n acc_in def e) s.usable)
  | inl (e, none_in) ↦
      let p = pick-Picked defs 1 acc_in s.one s.one_picked in
      absurd (Picked-All (OtherDir acc_in) p none_in p.right_dir)
]

-- The effect of a report on the decoder's buffer.
module _ (def : ReportDef) (buf part : List ℕ) (left : ℕ) where
  pub effect_more :
      (offset : ℕ)
      → overflows def left ≡ true
      → effect buf (link_control def offset left) part ≡ Effect.more (base offset buf ++ part)
  unfolding effect
  effect_more zero h = rw h
  effect_more (suc offset) h = ground arith

  pub effect_complete :
      (offset : ℕ)
      → overflows def left ≡ false
      → effect buf (link_control def offset left) part ≡ Effect.complete (base offset buf ++ part)
  unfolding effect
  effect_complete zero h = rw h
  effect_complete (suc offset) h = ground arith

pub length-padded : (n : ℕ) (part : List ℕ) → length (padded n part) ≡ n
length-padded n part = omega (
  arith,
  length-append (take n part) (replicate (n - length part) 0),
  length-take n part,
  length-replicate {A = ℕ} (n - length part) 0,
)

-- A report whose type is found and whose payload has the type's size.
module _ (defs : List ReportDef) (report : Report) (def : ReportDef) (buf : List ℕ)
    (reports : List (Result Report)) (found : find defs report.id ≡ ok def) (big : 1 < def.len)
    (size : length report.payload ≡ max_payload def) where
  whole : take (min (length report.payload) (max_payload def)) report.payload ≡ report.payload
  whole = take_all _ report.payload (omega arith)

  pub read_more :
      {buf' : List ℕ}
      → effect buf report.link_control report.payload ≡ Effect.more buf'
      → read_frame_loop defs buf (ok report ∷ reports) ≡ read_frame_loop defs buf' reports
  unfolding read_frame_loop
  read_more e = rw (found, read_frame_loop) (rw (whole, e) (ground arith))

  pub read_complete :
      {frame : List ℕ}
      → effect buf report.link_control report.payload ≡ Effect.complete frame
      → read_frame_loop defs buf (ok report ∷ reports) ≡ (reports, ok frame)
  unfolding read_frame_loop
  read_complete e = rw (found, read_frame_loop) (rw (whole, e) (ground arith))
