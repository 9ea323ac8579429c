-- ===== src/Trace/Refinement.antt =====
-- The queue of trace/trace.go against one list of messages.
use ipod.Base.{
  ℕ, suc, ◌≤◌, ◌<◌, ◌≡◌, refl, sym, ap, ◌∙◌, subst, List, [], ◌∷◌, ◌++◌, Option, none, some, Result,
  ok, panic, ◌>>=◌, arith, map, All, inl, inr, ◌⊎◌, ◌==◌, if◌then◌else◌, Bool-cases, drop, zero,
  All-append,
}
use mathlib.Core.List.{map-append}
use ipod.Trace.Msg.{Msg, dir_in, dir_out}
use ipod.Trace.Queue.{
  Item, Queue, empty, dir_list, remove, front, enqueue, head, take_out, dequeue, dequeue_dir,
  take_front,
}
use ipod.Trace.Lists.{
  of_dir, Keys, found-First, Keys-append, remove_at, remove-of_dir, Keys-at, All-at, of_dir_other,
  of_dir_same, of_dir_last,
}

-- The lists of the two directions hold what the common list holds of them, in the same order.
pub record WellFormed (q : Queue) : Type 0 where
  pub ins_lem : q.ins ≡ of_dir dir_in q.all
  pub outs_lem : q.outs ≡ of_dir dir_out q.all
  pub keys : Keys 0 q.next_key q.all
  pub dirs : All (λ item. item.msg.dir < 2) q.all

-- The messages of the queue, oldest first.
abbrev pub msgs : Queue → List Msg
msgs q = map (λ item. item.msg) q.all

abbrev pub first_of : ℕ → List Msg → Option Msg
first_of dir [] = none
first_of dir (m ∷ ms) = if m.dir == dir then some m else first_of dir ms

abbrev pub without_first : ℕ → List Msg → List Msg
without_first dir [] = []
without_first dir (m ∷ ms) = if m.dir == dir then ms else m ∷ without_first dir ms

dir_cases : (d : ℕ) → (d ≡ dir_in) ⊎ ((d ≡ dir_out) ⊎ (2 ≤ d))
dir_cases zero = inl refl
dir_cases (suc zero) = inr (inl refl)
dir_cases (suc (suc d)) = inr (inr (omega arith))

pub empty-WellFormed : WellFormed empty
unfolding of_dir
empty-WellFormed = record { ins_lem = refl; outs_lem = refl; keys = omega arith; dirs = tt }

-- Every message becomes the last one of the queue if its direction is one of the two, and the queue
-- panics otherwise.
pub enqueue_refines :
    (q : Queue) (m : Msg)
    → WellFormed q
    → ((m.dir < 2)
        × ((q' : Queue) × (enqueue q m ≡ ok q') × (msgs q' ≡ msgs q ++ (m ∷ [])) × WellFormed q'))
      ⊎ ((2 ≤ m.dir) × (enqueue q m ≡ panic))
unfolding enqueue
enqueue_refines q m w = elim (dir_cases m.dir) [
  | inr (inr other) ↦ inr (other, ground arith)
  | inl is_in ↦ inl (
    omega arith,
    (
      record q {
        all = q.all ++ (item ∷ []);
        next_key = suc q.next_key;
        ins = q.ins ++ (item ∷ []);
      },
      rw is_in,
      map-append _ q.all (item ∷ []),
      record {
        ins_lem = rw w.ins_lem (sym (of_dir_same dir_in q.all item is_in));
        outs_lem = w.outs_lem ∙ sym (of_dir_last dir_out q.all item (omega arith));
        keys = Keys-append 0 q.next_key q.all m w.keys;
        dirs = All-append _ q.all (item ∷ []) w.dirs (omega arith);
      },
    ),
  )
  | inr (inl is_out) ↦ inl (
    omega arith,
    (
      record q {
        all = q.all ++ (item ∷ []);
        next_key = suc q.next_key;
        outs = q.outs ++ (item ∷ []);
      },
      rw is_out,
      map-append _ q.all (item ∷ []),
      record {
        ins_lem = w.ins_lem ∙ sym (of_dir_last dir_in q.all item (omega arith));
        outs_lem = rw w.outs_lem (sym (of_dir_same dir_out q.all item is_out));
        keys = Keys-append 0 q.next_key q.all m w.keys;
        dirs = All-append _ q.all (item ∷ []) w.dirs (omega arith);
      },
    ),
  )
]
  where
    item : Item
    item = record { key = q.next_key; msg = m }

-- Taking an item out of both its lists keeps the rest as it was.
take_out_refines :
    (q : Queue) (before : List Item) (item : Item) (after : List Item)
    → WellFormed q
    → q.all ≡ before ++ (item ∷ after)
    → of_dir item.msg.dir before ≡ []
    → item.msg.dir < 2
    → (q' : Queue) × (take_out q item ≡ ok (q', some item.msg))
      × (q'.all ≡ before ++ after)
      × WellFormed q'
unfolding take_out
take_out_refines q before item after w place none_before two =
    let placed_keys = subst (Keys 0 q.next_key) place w.keys in
    let placed_dirs = subst (All (λ it. it.msg.dir < 2)) place w.dirs in
    let all_lem : remove item.key q.all ≡ before ++ after =
      rw place (remove_at 0 q.next_key before item after placed_keys) in
    let keys' = Keys-at 0 q.next_key before item after placed_keys in
    let dirs' = All-at (λ it. it.msg.dir < 2) before item after placed_dirs in
    elim (dir_cases item.msg.dir) [
      | inr (inr other) ↦ absurd (omega arith)
      | inl is_in ↦ (
        record q { all = before ++ after; ins = remove item.key q.ins },
        rw (is_in, all_lem),
        refl,
        record {
          ins_lem = in_list dir_in q.ins is_in w.ins_lem;
          outs_lem =
              w.outs_lem
              ∙ ap (of_dir dir_out) place
              ∙ of_dir_other dir_out before item after (omega arith);
          keys = keys';
          dirs = dirs';
        },
      )
      | inr (inl is_out) ↦ (
        record q { all = before ++ after; outs = remove item.key q.outs },
        rw (is_out, all_lem),
        refl,
        record {
          ins_lem =
              w.ins_lem
              ∙ ap (of_dir dir_in) place
              ∙ of_dir_other dir_in before item after (omega arith);
          outs_lem = in_list dir_out q.outs is_out w.outs_lem;
          keys = keys';
          dirs = dirs';
        },
      )
    ]
  where
    in_list :
        (d : ℕ) (items : List Item)
        → item.msg.dir ≡ d
        → items ≡ of_dir d q.all
        → remove item.key items ≡ of_dir d (before ++ after)
    in_list d items same e =
        ap (remove item.key) (e ∙ ap (of_dir d) place)
        ∙ remove-of_dir d before item after (subst (λ x. of_dir x before ≡ []) same none_before)
            same

first_of-msgs :
    (d : ℕ) (before : List Item) (item : Item) (after : List Item)
    → of_dir d before ≡ []
    → item.msg.dir ≡ d
    → (first_of d (map (λ it. it.msg) (before ++ (item ∷ after))) ≡ some item.msg)
      × (without_first d (map (λ it. it.msg) (before ++ (item ∷ after)))
          ≡ map (λ it. it.msg) (before ++ after))
unfolding of_dir
first_of-msgs d [] item after none_before same = (ground arith, ground arith)
first_of-msgs d (x ∷ before) item after none_before same = elim (Bool-cases (x.msg.dir == d)) [
  | inl hit ↦ absurd (cc (rw hit at none_before))
  | inr miss ↦
      let ih = first_of-msgs d before item after (rw miss at none_before) same in
      (rw miss ih.0, rw miss (ap (◌∷◌ x.msg) ih.1))
]

none_of-msgs :
    (d : ℕ) (items : List Item)
    → of_dir d items ≡ []
    → (first_of d (map (λ it. it.msg) items) ≡ none)
      × (without_first d (map (λ it. it.msg) items) ≡ map (λ it. it.msg) items)
unfolding of_dir
none_of-msgs d [] e = (refl, refl)
none_of-msgs d (x ∷ items) e = elim (Bool-cases (x.msg.dir == d)) [
  | inl hit ↦ absurd (cc (rw hit at e))
  | inr miss ↦
      let ih = none_of-msgs d items (rw miss at e) in (rw miss ih.0, rw miss (ap (◌∷◌ x.msg) ih.1))
]

-- A list of a direction is what `dirList` answers.
dir_list_lem : (q : Queue) (d : ℕ) → WellFormed q → d < 2 → dir_list q d ≡ ok (of_dir d q.all)
dir_list_lem q d w two = elim (dir_cases d) [
  | inl is_in ↦ rw is_in (ap ok w.ins_lem)
  | inr (inl is_out) ↦ rw is_out (ap ok w.outs_lem)
  | inr (inr other) ↦ absurd (omega arith)
]

-- On a well-formed queue, taking the next message of a direction takes the oldest message of that
-- direction out of the one list of messages, and leaves the others in their order; if there is none,
-- nothing changes. The queue stays well-formed.
pub dequeue_dir_refines :
    (q : Queue) (d : ℕ)
    → WellFormed q
    → d < 2
    → (q' : Queue) × (dequeue_dir q d ≡ ok (q', first_of d (msgs q)))
      × (msgs q' ≡ without_first d (msgs q))
      × WellFormed q'
unfolding dequeue_dir
dequeue_dir_refines q d w two = by_list (of_dir d q.all) refl
  where
    found :
        (items : List Item) → of_dir d q.all ≡ items → dequeue_dir q d ≡ take_front q (front items)
    found items e =
        ap (λ (r : Result (List Item)). r >>= λ its. take_front q (front its))
          (dir_list_lem q d w two ∙ ap ok e)

    by_list :
        (items : List Item)
        → of_dir d q.all ≡ items
        → (q' : Queue) × (dequeue_dir q d ≡ ok (q', first_of d (msgs q)))
          × (msgs q' ≡ without_first d (msgs q))
          × WellFormed q'
    by_list [] e =
        let n = none_of-msgs d q.all e in
        (q, found [] e ∙ ap (λ o. ok (q, o)) (sym n.0), sym n.1, w)
    by_list (item ∷ more) e =
        let f = found-First d q.all item more e in
        let none_before = subst (λ x. of_dir x f.before ≡ []) (sym f.right_dir) f.none_before in
        let taken =
          take_out_refines q f.before item f.after w f.place none_before
            (omega (arith, f.right_dir)) in
        let spec = first_of-msgs d f.before item f.after f.none_before f.right_dir in
        let ms : List Item → List Msg = map (λ it. it.msg) in
        (
          taken.0,
          found (item ∷ more) e
              ∙ taken.1
              ∙ ap (λ o. ok (taken.0, o)) (sym (ap (λ xs. first_of d (ms xs)) f.place ∙ spec.0)),
          ap ms taken.2 ∙ sym (ap (λ xs. without_first d (ms xs)) f.place ∙ spec.1),
          taken.3,
        )

of_dir-nil : (d : ℕ) → of_dir d [] ≡ []
unfolding of_dir
of_dir-nil d = refl

abbrev first_msg : List Item → Option Msg
first_msg items = elim (front items) [ none ↦ none | some item ↦ some item.msg ]

-- On a well-formed queue, `Dequeue` takes the oldest message out, if there is one.
pub dequeue_refines :
    (q : Queue)
    → WellFormed q
    → (q' : Queue) × (dequeue q ≡ ok (q', head q)) × (msgs q' ≡ drop 1 (msgs q)) × WellFormed q'
unfolding dequeue head
dequeue_refines q w = by_list q.all refl
  where
    by_list :
        (items : List Item)
        → q.all ≡ items
        → (q' : Queue) × (dequeue q ≡ ok (q', head q)) × (msgs q' ≡ drop 1 (msgs q)) × WellFormed q'
    by_list [] e = (
      q,
      ap (λ xs. take_front q (front xs)) e ∙ ap (λ o. ok (q, o)) (sym (ap (λ xs. first_msg xs) e)),
      ap (λ xs. map (λ it. it.msg) xs) e ∙ sym (ap (λ xs. drop 1 (map (λ it. it.msg) xs)) e),
      w,
    )
    by_list (item ∷ items) e =
        let first_dir = subst (All (λ it. it.msg.dir < 2)) e w.dirs in
        let taken = take_out_refines q [] item items w e (of_dir-nil item.msg.dir) first_dir.0 in
        (
          taken.0,
          ap (λ xs. take_front q (front xs)) e
              ∙ taken.1
              ∙ ap (λ o. ok (taken.0, o)) (sym (ap (λ xs. first_msg xs) e)),
          ap (λ xs. map (λ it. it.msg) xs) taken.2
              ∙ sym (ap (λ xs. drop 1 (map (λ it. it.msg) xs)) e),
          taken.3,
        )
