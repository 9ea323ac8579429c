-- ===== src/Hid/Picking.antt =====
-- Which report type `Pick` and `Find` of hid/report_def.go give.
use mathlib.Core.Option.{some-injective}
use ipod.Base.{
  ℕ, ◌≡◌, ◌≢◌, refl, ap, subst, true, false, List, [], ◌∷◌, ◌++◌, Option, none, some, ok, err, All,
  inl, inr, ◌⊎◌, no_matching_report, Bool-cases,
}
use ipod.Hid.Defs.{ReportDef, ReportDir, acc_in, acc_out, same_dir, fits, pick_loop, or_error, pick}

same_dir_eq : (a b : ReportDir) → same_dir a b ≡ true → a ≡ b
same_dir_eq acc_in acc_in e = refl
same_dir_eq acc_in acc_out e = cc
same_dir_eq acc_out acc_in e = cc
same_dir_eq acc_out acc_out e = refl

same_dir_ne : (a b : ReportDir) → same_dir a b ≡ false → a ≢ b
same_dir_ne acc_in acc_in e = cc
same_dir_ne acc_in acc_out e = λ p. cc
same_dir_ne acc_out acc_in e = λ p. cc
same_dir_ne acc_out acc_out e = cc

abbrev pub OtherDir : ReportDir → ReportDef → Type 0
OtherDir dir def = def.dir ≢ dir

abbrev pub TooSmall : ReportDir → ℕ → ReportDef → Type 0
TooSmall dir size def = def.dir ≡ dir → fits def size ≡ false

-- The report type stands in the list and has the direction; those of the direction before it are too
-- small; and it is big enough, or the last one of its direction.
pub record Picked (defs : List ReportDef) (size : ℕ) (dir : ReportDir) (def : ReportDef)
    : Type 0 where
  pub before : List ReportDef
  pub after : List ReportDef
  pub place : defs ≡ before ++ (def ∷ after)
  pub right_dir : def.dir ≡ dir
  pub first : All (TooSmall dir size) before
  pub best : (fits def size ≡ true) ⊎ ((fits def size ≡ false) × All (OtherDir dir) after)

later :
    {defs : List ReportDef} {size : ℕ} {dir : ReportDir} {def : ReportDef} (d : ReportDef)
    → TooSmall dir size d
    → Picked defs size dir def
    → Picked (d ∷ defs) size dir def
later d small p = record {
  before = d ∷ p.before;
  after = p.after;
  place = ap (◌∷◌ d) p.place;
  right_dir = p.right_dir;
  first = (small, p.first);
  best = p.best;
}

here :
    (defs : List ReportDef) (size : ℕ) (dir : ReportDir) (def d : ReportDef)
    → d ≡ def
    → d.dir ≡ dir
    → ((fits d size ≡ true) ⊎ ((fits d size ≡ false) × All (OtherDir dir) defs))
    → Picked (d ∷ defs) size dir def
here defs size dir def d same right best =
    subst (Picked (d ∷ defs) size dir) same (record {
      before = [];
      after = defs;
      place = refl;
      right_dir = right;
      first = tt;
      best = best;
    })

pick_loop-Picked :
    (found : Option ReportDef) (defs : List ReportDef) (size : ℕ) (dir : ReportDir)
    (def : ReportDef)
    → pick_loop found defs size dir ≡ some def
    → ((found ≡ some def) × All (OtherDir dir) defs) ⊎ Picked defs size dir def
unfolding pick_loop
pick_loop-Picked found [] size dir def e = inl (e, tt)
pick_loop-Picked found (d ∷ defs) size dir def e = elim (Bool-cases (same_dir d.dir dir)) [
  | inr other ↦ elim (pick_loop-Picked found defs size dir def (rw other at e)) [
    | inl (p, all) ↦ inl (p, (same_dir_ne _ _ other, all))
    | inr p ↦ inr (later d (λ q. absurd (same_dir_ne _ _ other q)) p)
  ]
  | inl same ↦ elim (Bool-cases (fits d size)) [
    | inl big ↦ inr (
        here defs size dir def d (some-injective _ _ (rw (same, big) at e)) (same_dir_eq _ _ same)
          (inl big))
    | inr small ↦ elim (pick_loop-Picked (some d) defs size dir def (rw (same, small) at e)) [
      | inl (p, all) ↦ inr (
          here defs size dir def d (some-injective _ _ p) (same_dir_eq _ _ same) (inr (small, all)))
      | inr p ↦ inr (later d (λ _. small) p)
    ]
  ]
]

-- `Pick` gives the first report type of the direction that is big enough, and the last one of the
-- direction if none is.
pub pick-Picked :
    (defs : List ReportDef) (size : ℕ) (dir : ReportDir) (def : ReportDef)
    → pick defs size dir ≡ ok def
    → Picked defs size dir def
unfolding pick
pick-Picked defs size dir def e =
    elim (pick_loop-Picked none defs size dir def (found (pick_loop none defs size dir) e)) [
      | inl (p, _) ↦ absurd (cc)
      | inr p ↦ p
    ]
  where
    found : (o : Option ReportDef) → or_error o ≡ ok def → o ≡ some def
    found none e = cc
    found (some d) e = cc

pick_loop-some :
    (d : ReportDef) (defs : List ReportDef) (size : ℕ) (dir : ReportDir)
    → (def : ReportDef) × (pick_loop (some d) defs size dir ≡ some def)
unfolding pick_loop
pick_loop-some d [] size dir = (d, refl)
pick_loop-some d (x ∷ defs) size dir = elim (Bool-cases (same_dir x.dir dir)) [
  | inr other ↦ rw other (pick_loop-some d defs size dir)
  | inl same ↦ elim (Bool-cases (fits x size)) [
    | inl big ↦ (x, rw (same, big))
    | inr small ↦ rw (same, small) (pick_loop-some x defs size dir)
  ]
]

pick_loop-none :
    (defs : List ReportDef) (size : ℕ) (dir : ReportDir)
    → ((pick_loop none defs size dir ≡ none) × All (OtherDir dir) defs)
      ⊎ ((def : ReportDef) × (pick_loop none defs size dir ≡ some def))
unfolding pick_loop
pick_loop-none [] size dir = inl (refl, tt)
pick_loop-none (x ∷ defs) size dir = elim (Bool-cases (same_dir x.dir dir)) [
  | inr other ↦ rw other (elim (pick_loop-none defs size dir) [
    | inl (e, all) ↦ inl (e, (same_dir_ne _ _ other, all))
    | inr found ↦ inr found
  ])
  | inl same ↦ elim (Bool-cases (fits x size)) [
    | inl big ↦ inr (x, rw (same, big))
    | inr small ↦ inr (rw (same, small) (pick_loop-some x defs size dir))
  ]
]

-- `Pick` fails, with its one error, exactly if no report type has the direction.
pub pick_cases :
    (defs : List ReportDef) (size : ℕ) (dir : ReportDir)
    → ((pick defs size dir ≡ err no_matching_report) × All (OtherDir dir) defs)
      ⊎ ((def : ReportDef) × (pick defs size dir ≡ ok def))
unfolding pick
pick_cases defs size dir = elim (pick_loop-none defs size dir) [
  | inl (e, all) ↦ inl (rw e, all)
  | inr (def, e) ↦ inr (def, rw e)
]

-- What holds of every report type holds of the picked one.
pub Picked-All {κ} :
    (P : ReportDef → Type κ) {defs : List ReportDef} {size : ℕ} {dir : ReportDir} {def : ReportDef}
    → Picked defs size dir def
    → All P defs
    → P def
Picked-All P p h = at_place p.before _ _ (subst (All P) p.place h)
  where
    at_place :
        (before : List ReportDef) (def : ReportDef) (after : List ReportDef)
        → All P (before ++ (def ∷ after))
        → P def
    at_place [] def after h = h.0
    at_place (x ∷ before) def after h = at_place before def after h.1
