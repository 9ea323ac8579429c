-- ===== src/Trace/Queue.antt =====
-- trace/trace.go: `Queue`, three linked lists over the same items.
use ipod.Base.{
  ℕ, suc, List, [], ◌∷◌, ◌++◌, Option, none, some, Result, ok, panic, err, ◌==◌, if◌then◌else◌,
  take, eof, ◌>>=◌,
}
use ipod.Trace.Msg.{Msg, dir_in, dir_out}

-- An item of the queue. `key` stands for its list elements, by which it is removed: the n-th item that
-- was put in has the key n.
pub record Item : Type 0 where
  pub key : ℕ
  pub msg : Msg

pub record Queue : Type 0 where
  pub all : List Item
  pub ins : List Item
  pub outs : List Item
  pub next_key : ℕ

abbrev pub empty : Queue
empty = record { all = []; ins = []; outs = []; next_key = 0 }

-- `dirList`, which panics on other directions.
abbrev pub dir_list : Queue → ℕ → Result (List Item)
dir_list q dir = if dir == dir_in then ok q.ins else if dir == dir_out then ok q.outs else panic

-- The queue with another list of a direction.
abbrev pub set_dir_list : Queue → ℕ → List Item → Queue
set_dir_list q dir items =
    if dir == dir_in then record q { ins = items } else record q { outs = items }

-- `List.Remove`
unfoldable pub remove : ℕ → List Item → List Item
remove key [] = []
remove key (item ∷ items) = if item.key == key then items else item ∷ remove key items

-- `List.Front`
abbrev pub front : List Item → Option Item
front [] = none
front (item ∷ items) = some item

unfoldable pub enqueue : Queue → Msg → Result Queue
enqueue q msg =
    let item : Item = record { key = q.next_key; msg = msg } in
    let q' = record q { all = q.all ++ (item ∷ []); next_key = suc q.next_key } in
    elim (dir_list q' msg.dir) [
      | ok items ↦ ok (set_dir_list q' msg.dir (items ++ (item ∷ [])))
      | err e ↦ err e
      | panic ↦ panic
    ]

unfoldable pub head : Queue → Option Msg
head q = elim (front q.all) [ none ↦ none | some item ↦ some item.msg ]

-- Takes an item out of both its lists.
unfoldable pub take_out : Queue → Item → Result (Queue × Option Msg)
unfolding remove
take_out q item =
    let q' = record q { all = remove item.key q.all } in
    elim (dir_list q' item.msg.dir) [
      | ok items ↦ ok (set_dir_list q' item.msg.dir (remove item.key items), some item.msg)
      | err e ↦ err e
      | panic ↦ panic
    ]

-- Takes out what `front` found.
abbrev pub take_front : Queue → Option Item → Result (Queue × Option Msg)
take_front q none = ok (q, none)
take_front q (some item) = take_out q item

unfoldable pub dequeue : Queue → Result (Queue × Option Msg)
dequeue q = take_front q (front q.all)

unfoldable pub dequeue_dir : Queue → ℕ → Result (Queue × Option Msg)
dequeue_dir q dir = dir_list q dir >>= λ items. take_front q (front items)

-- `queueDirReader.Read` into a buffer of n bytes: the bytes copied, or io.EOF.
unfoldable pub queue_read : Queue → ℕ → ℕ → Result (Queue × Result (List ℕ))
queue_read q dir n = elim (dequeue_dir q dir) [
  | err e ↦ err e
  | panic ↦ panic
  | ok (q', none) ↦ ok (q', err eof)
  | ok (q', some msg) ↦ ok (q', ok (take n msg.bytes))
]
