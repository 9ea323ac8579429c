-- ===== src/Hid/Defs.antt =====
-- hid/report_def.go, and the report of hid/hid.go: the report types and how one is chosen.
use ipod.Base.{
  ℕ, ◌+◌, ◌-◌, Bool, true, false, List, [], ◌∷◌, Option, none, some, Result, ok, err, leb, ◌==◌,
  if◌then◌else◌, no_matching_report, report_id_not_found,
}

-- `LinkControl` is a byte.
abbrev pub link_control_done : ℕ
link_control_done = 0

abbrev pub link_control_continue : ℕ
link_control_continue = 1

abbrev pub link_control_more_to_follow : ℕ
link_control_more_to_follow = 2

-- LinkControlContinue | LinkControlMoreToFollow
abbrev pub link_control_both : ℕ
link_control_both = 3

pub record Report : Type 0 where
  pub id : ℕ
  pub link_control : ℕ
  pub payload : List ℕ

pub data ReportDir : Type 0 where
  acc_in acc_out : ReportDir

abbrev pub same_dir : ReportDir → ReportDir → Bool
same_dir acc_in acc_in = true
same_dir acc_out acc_out = true
same_dir _ _ = false

pub record ReportDef : Type 0 where
  pub id : ℕ
  pub len : ℕ
  pub dir : ReportDir

-- `Len - 1`, which is negative where `Len` is 0; the callers look at that case first.
abbrev pub max_payload : ReportDef → ℕ
max_payload def = def.len - 1

-- `MaxPayload() >= payloadSize`, also where `Len` is 0.
abbrev pub fits : ReportDef → ℕ → Bool
fits def size = leb (size + 1) def.len

-- The loop of `Pick`; `found` is the pointer `def`.
unfoldable pub pick_loop : Option ReportDef → List ReportDef → ℕ → ReportDir → Option ReportDef
pick_loop found [] size dir = found
pick_loop found (def ∷ defs) size dir =
    let next = pick_loop (some def) defs size dir in
    let skip = pick_loop found defs size dir in
    if same_dir def.dir dir then (if fits def size then some def else next) else skip

abbrev pub or_error {ℓ} : {A : Type ℓ} → Option A → Result A
or_error none = err no_matching_report
or_error (some a) = ok a

unfoldable pub pick : List ReportDef → ℕ → ReportDir → Result ReportDef
unfolding pick_loop
pick defs size dir = or_error (pick_loop none defs size dir)

unfoldable pub find : List ReportDef → ℕ → Result ReportDef
find [] id = err report_id_not_found
find (def ∷ defs) id = if def.id == id then ok def else find defs id

abbrev pub default_report_defs : List ReportDef
default_report_defs =
    def 0x01 12
    ∷ def 0x02 14
    ∷ def 0x03 20
    ∷ def 0x04 63
    ∷ def 0x05 8
    ∷ def 0x06 10
    ∷ def 0x07 14
    ∷ def 0x08 20
    ∷ def 0x09 63
    ∷ []
  where
    def : ℕ → ℕ → ReportDef
    def id len = record { id = id; len = len; dir = acc_in }

abbrev pub legacy_report_defs : List ReportDef
legacy_report_defs =
    def 0x01 5 acc_in
    ∷ def 0x02 9 acc_in
    ∷ def 0x03 13 acc_in
    ∷ def 0x04 17 acc_in
    ∷ def 0x05 25 acc_in
    ∷ def 0x06 49 acc_in
    ∷ def 0x07 95 acc_in
    ∷ def 0x08 193 acc_in
    ∷ def 0x09 257 acc_in
    ∷ def 0x0A 385 acc_in
    ∷ def 0x0B 513 acc_in
    ∷ def 0x0C 767 acc_in
    ∷ def 0x0D 5 acc_out
    ∷ def 0x0E 9 acc_out
    ∷ def 0x0F 13 acc_out
    ∷ def 0x10 17 acc_out
    ∷ def 0x11 25 acc_out
    ∷ def 0x12 49 acc_out
    ∷ def 0x13 95 acc_out
    ∷ def 0x14 193 acc_out
    ∷ def 0x15 255 acc_out
    ∷ []
  where
    def : ℕ → ℕ → ReportDir → ReportDef
    def id len dir = record { id = id; len = len; dir = dir }
