-- ===== src/Trace/Lists.antt =====
-- The lists of items that the queue of trace/trace.go keeps: directions and keys.
use ipod.Base.{
  append-nil, ℕ, suc, ◌≤◌, ◌≡◌, ◌≢◌, refl, ap, ◌∙◌, List, [], ◌∷◌, ◌++◌, arith, All, inl, inr, ◌==◌,
  if◌then◌else◌, Bool-cases,
}
use ipod.Trace.Msg.{Msg}
use ipod.Trace.Queue.{Item, remove}

-- The items of a direction, in order.
unfoldable pub of_dir : ℕ → List Item → List Item
of_dir dir [] = []
of_dir dir (item ∷ items) =
    if item.msg.dir == dir then item ∷ of_dir dir items else of_dir dir items

-- Keys grow along the list, from `lo` on, and stay below `hi`.
abbrev pub Keys : ℕ → ℕ → List Item → Type 0
Keys lo hi [] = lo ≤ hi
Keys lo hi (item ∷ items) = (lo ≤ item.key) × Keys (suc item.key) hi items

pub of_dir-append :
    (dir : ℕ) (xs ys : List Item) → of_dir dir (xs ++ ys) ≡ of_dir dir xs ++ of_dir dir ys
unfolding of_dir
of_dir-append dir [] ys = refl
of_dir-append dir (x ∷ xs) ys = ground (arith, of_dir-append dir xs ys)

pub Keys-append :
    (lo hi : ℕ) (xs : List Item) (msg : Msg)
    → Keys lo hi xs
    → Keys lo (suc hi) (xs ++ (record { key = hi; msg = msg } ∷ []))
Keys-append lo hi [] msg h = (h, omega arith)
Keys-append lo hi (x ∷ xs) msg h = (h.0, Keys-append (suc x.key) hi xs msg h.1)

pub Keys-weaken : (lo lo' hi : ℕ) (xs : List Item) → lo' ≤ lo → Keys lo hi xs → Keys lo' hi xs
Keys-weaken lo lo' hi [] le h = omega arith
Keys-weaken lo lo' hi (x ∷ xs) le h = (omega arith, h.1)

-- The first item of a direction, where it stands.
pub record First (dir : ℕ) (items : List Item) (item : Item) (more : List Item) : Type 0 where
  pub before : List Item
  pub after : List Item
  pub place : items ≡ before ++ (item ∷ after)
  pub none_before : of_dir dir before ≡ []
  pub rest : of_dir dir after ≡ more
  pub right_dir : item.msg.dir ≡ dir

pub found-First :
    (dir : ℕ) (items : List Item) (item : Item) (more : List Item)
    → of_dir dir items ≡ item ∷ more
    → First dir items item more
unfolding of_dir
found-First dir [] item more e = absurd (cc)
found-First dir (x ∷ items) item more e = elim (Bool-cases (x.msg.dir == dir)) [
  | inl hit ↦
      let e' = rw hit at e in
      record {
        before = [];
        after = items;
        place = ap (λ (t : Item). t ∷ items) (cc e');
        none_before = refl;
        rest = cc e';
        right_dir = ground (arith, e');
      }
  | inr miss ↦
      let f = found-First dir items item more (rw miss at e) in
      record {
        before = x ∷ f.before;
        after = f.after;
        place = ap (◌∷◌ x) f.place;
        none_before = rw miss f.none_before;
        rest = f.rest;
        right_dir = f.right_dir;
      }
]

le_key :
    (lo hi : ℕ) (before : List Item) (item : Item) (after : List Item)
    → Keys lo hi (before ++ (item ∷ after))
    → lo ≤ item.key
le_key lo hi [] item after h = h.0
le_key lo hi (x ∷ before) item after h =
    omega (arith, le_key (suc x.key) hi before item after h.1, h.0)

-- The key finds its item, and no other one.
pub remove_at :
    (lo hi : ℕ) (before : List Item) (item : Item) (after : List Item)
    → Keys lo hi (before ++ (item ∷ after))
    → remove item.key (before ++ (item ∷ after)) ≡ before ++ after
unfolding remove
remove_at lo hi [] item after h = ground arith
remove_at lo hi (x ∷ before) item after h = ground (
  arith,
  remove_at (suc x.key) hi before item after h.1,
  le_key (suc x.key) hi before item after h.1,
)

pub Keys-at :
    (lo hi : ℕ) (before : List Item) (item : Item) (after : List Item)
    → Keys lo hi (before ++ (item ∷ after))
    → Keys lo hi (before ++ after)
Keys-at lo hi [] item after h = Keys-weaken (suc item.key) lo hi after (omega (arith, h.0)) h.1
Keys-at lo hi (x ∷ before) item after h = (h.0, Keys-at (suc x.key) hi before item after h.1)

pub All-at {κ} :
    (P : Item → Type κ) (before : List Item) (item : Item) (after : List Item)
    → All P (before ++ (item ∷ after))
    → All P (before ++ after)
All-at P [] item after h = h.1
All-at P (x ∷ before) item after h = (h.0, All-at P before item after h.1)

-- An item of one direction is no item of the other.
pub of_dir_other :
    (dir : ℕ) (before : List Item) (item : Item) (after : List Item)
    → item.msg.dir ≢ dir
    → of_dir dir (before ++ (item ∷ after)) ≡ of_dir dir (before ++ after)
unfolding of_dir
of_dir_other dir [] item after ne = ground arith
of_dir_other dir (x ∷ before) item after ne = ground (arith, of_dir_other dir before item after ne)

pub of_dir_same :
    (dir : ℕ) (xs : List Item) (item : Item)
    → item.msg.dir ≡ dir
    → of_dir dir (xs ++ (item ∷ [])) ≡ of_dir dir xs ++ (item ∷ [])
unfolding of_dir
of_dir_same dir [] item e = ground arith
of_dir_same dir (x ∷ xs) item e = ground (arith, of_dir_same dir xs item e)

pub of_dir_last :
    (dir : ℕ) (xs : List Item) (item : Item)
    → item.msg.dir ≢ dir
    → of_dir dir (xs ++ (item ∷ [])) ≡ of_dir dir xs
of_dir_last dir xs item ne = of_dir_other dir xs item [] ne ∙ ap (of_dir dir) (append-nil xs)

-- The first item of a direction leaves the list of that direction as it leaves the common list.
pub remove-of_dir :
    (dir : ℕ) (before : List Item) (item : Item) (after : List Item)
    → of_dir dir before ≡ []
    → item.msg.dir ≡ dir
    → remove item.key (of_dir dir (before ++ (item ∷ after))) ≡ of_dir dir (before ++ after)
unfolding remove of_dir
remove-of_dir dir before item after none_before same =
    rw (of_dir-append dir before (item ∷ after), of_dir-append dir before after, none_before)
      (ground arith)
