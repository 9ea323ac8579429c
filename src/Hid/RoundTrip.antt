-- ===== src/Hid/RoundTrip.antt =====
-- What `WriteFrame` of hid/hid.go sends, as `ReadFrame` reads it.
use ipod.Base.{
  ℕ, zero, suc, ◌+◌, ◌-◌, ◌%◌, ◌≤◌, ◌<◌, ◌≡◌, refl, sym, ap, subst, ◌∙◌, true, false, List, [], ◌∷◌,
  ◌++◌, some, Result, ok, arith, length, take, drop, replicate, map, inl, inr, ◌==◌, Bool-cases,
  length-drop, length-take, take_all, take-append-drop, append_assoc, leb→le, append-nil,
}
use ipod.Hid.Defs.{Report, ReportDef, acc_in, max_payload, pick, find}
use ipod.Hid.Encoder.{overflows, payload_len, padded, report_of, write_frame_loop, write_frame}
use ipod.Hid.Decoder.{read_frame_loop, read_frame}
use ipod.Hid.Rounds.{
  keep_reports, Usable, Serves, base, picked, effect_more, effect_complete, length-padded,
  read_more, read_complete,
}

-- One round of the encoder's loop that keeps its reports.
write_round :
    (defs : List ReportDef) (fuel : ℕ) (bytes : List ℕ) (offset left : ℕ) (s : List Report)
    (def : ReportDef)
    → 0 < left
    → pick defs left acc_in ≡ ok def
    → 1 < def.len
    → write_frame_loop keep_reports defs (suc fuel) bytes offset left s
      ≡ write_frame_loop keep_reports defs fuel bytes
          (offset + payload_len def left)
          (left - payload_len def left)
          (s ++ (report_of def bytes offset left ∷ []))
unfolding write_frame_loop
write_round defs fuel bytes offset left s def some_left choice big =
    rw (nonzero, choice, write_frame_loop) (rw len_nonzero)
  where
    nonzero : (left == 0) ≡ false
    nonzero = ground arith

    len_nonzero : (def.len == 0) ≡ false
    len_nonzero = ground arith

drop_nil : (n : ℕ) → drop {A = ℕ} n [] ≡ []
drop_nil zero = refl
drop_nil (suc n) = refl

drop-drop : (a b : ℕ) (xs : List ℕ) → drop b (drop a xs) ≡ drop (a + b) xs
drop-drop zero b xs = ap (λ (t : ℕ). drop t xs) (omega arith)
drop-drop (suc a) b [] = rw (drop_nil b, drop_nil (suc a + b))
drop-drop (suc a) b (x ∷ xs) =
    drop-drop a b xs ∙ ap (λ (t : ℕ). drop t (x ∷ xs)) {x = suc (a + b)} (omega arith)

base_pos : (offset : ℕ) (buf : List ℕ) → 0 < offset → base offset buf ≡ buf
base_pos zero buf h = absurd (omega arith)
base_pos (suc offset) buf h = refl

write_done :
    (defs : List ReportDef) (fuel : ℕ) (bytes : List ℕ) (offset left : ℕ) (s : List Report)
    → left ≡ 0
    → write_frame_loop keep_reports defs (suc fuel) bytes offset left s ≡ some (s, ok tt)
unfolding write_frame_loop
write_done defs fuel bytes offset left s e = rw e

found_by_byte :
    (defs : List ReportDef) (def : ReportDef) → Usable defs def → find defs (def.id % 256) ≡ ok def
found_by_byte defs def (big, byte, found) =
    let same : def.id % 256 ≡ def.id = omega arith in rw same found

-- The payload of a last report, and of one that is followed by others.
payload_last :
    (def : ReportDef) (rest : List ℕ) (left : ℕ)
    → overflows def left ≡ false
    → length rest ≡ left
    → padded (max_payload def) (take (payload_len def left) rest)
      ≡ rest ++ replicate (max_payload def - left) 0
payload_last def rest left fit size =
    let le : length rest ≤ max_payload def = ground arith in
    rw (fit, take_all left rest (omega arith), take_all (max_payload def) rest le, size)

payload_full :
    (def : ReportDef) (rest : List ℕ) (left : ℕ)
    → overflows def left ≡ true
    → length rest ≡ left
    → padded (max_payload def) (take (payload_len def left) rest) ≡ take (max_payload def) rest
payload_full def rest left more size =
    let m = max_payload def in
    let full : length (take m rest) ≡ m = omega (arith, length-take m rest, leb→le _ _ more) in
    let none_left : m - m ≡ 0 = omega arith in
    rw (more, take_all m (take m rest) (omega arith), full, none_left) (append-nil (take m rest))

full_len :
    (def : ReportDef) (left : ℕ)
    → overflows def left ≡ true
    → payload_len def left ≡ max_payload def
full_len def left more = rw more

regroup_chunks :
    (offset m : ℕ) (bytes front back : List ℕ)
    → 0 < m
    → base (offset + m) (front ++ take m (drop offset bytes)) ++ (drop (offset + m) bytes ++ back)
      ≡ front ++ (drop offset bytes ++ back)
regroup_chunks offset m bytes front back h =
    let part = take m (drop offset bytes) in
    let tail = drop m (drop offset bytes) in
    let assoc : (front ++ part) ++ (tail ++ back) ≡ front ++ ((part ++ tail) ++ back) =
      simp append_assoc in
    rw (base_pos (offset + m) (front ++ part) (omega arith), ← drop-drop offset m bytes)
      (assoc ∙ rw (take-append-drop m (drop offset bytes)))

-- The rounds from `offset` on: the reports that they write, and the frame that a decoder makes of them.
record Sent (defs : List ReportDef) (fuel : ℕ) (bytes : List ℕ) (offset left : ℕ) (s : List Report)
    (buf : List ℕ) (rest : List (Result Report)) : Type 0 where
  reports : List Report
  padding : ℕ
  written : write_frame_loop keep_reports defs fuel bytes offset left s ≡ some (s ++ reports, ok tt)
  read :
      read_frame_loop defs buf (map ok reports ++ rest)
      ≡ (rest, ok (base offset buf ++ (drop offset bytes ++ replicate padding 0)))

-- The last report of a frame.
send_last :
    (defs : List ReportDef) (fuel : ℕ) (bytes : List ℕ) (offset left : ℕ) (s : List Report)
    (buf : List ℕ) (rest : List (Result Report)) (def : ReportDef)
    → 0 < left
    → offset + left ≡ length bytes
    → pick defs left acc_in ≡ ok def
    → Usable defs def
    → overflows def left ≡ false
    → Sent defs (suc (suc fuel)) bytes offset left s buf rest
send_last defs fuel bytes offset left s buf rest def some_left size choice usable fit = record {
  reports = report_of def bytes offset left ∷ [];
  padding = max_payload def - left;
  written =
      write_round defs (suc fuel) bytes offset left s def some_left choice usable.0
      ∙ write_done defs fuel bytes _ _ _ (rw fit (omega arith));
  read =
      read_complete defs (report_of def bytes offset left) def buf rest
        (found_by_byte defs def usable) usable.0 (length-padded (max_payload def) _)
        (effect_complete def buf _ left offset fit)
      ∙ rw
          (payload_last def (drop offset bytes) left fit (omega (arith, length-drop offset bytes)));
}

-- A report that others follow.
send_more :
    (defs : List ReportDef) (fuel : ℕ) (bytes : List ℕ) (offset left : ℕ) (s : List Report)
    (buf : List ℕ) (rest : List (Result Report)) (def : ReportDef)
    → 0 < left
    → offset + left ≡ length bytes
    → pick defs left acc_in ≡ ok def
    → Usable defs def
    → overflows def left ≡ true
    → Sent defs fuel bytes
        (offset + max_payload def)
        (left - max_payload def)
        (s ++ (report_of def bytes offset left ∷ []))
        (base offset buf ++ take (max_payload def) (drop offset bytes))
        rest
    → Sent defs (suc fuel) bytes offset left s buf rest
send_more defs fuel bytes offset left s buf rest def some_left size choice usable more after =
    record {
      reports = report_of def bytes offset left ∷ after.reports;
      padding = after.padding;
      written =
          write_round defs fuel bytes offset left s def some_left choice usable.0
          ∙ (subst
                (λ n.
                  write_frame_loop keep_reports defs fuel bytes (offset + n) (left - n)
                    (s ++ (report_of def bytes offset left ∷ []))
                  ≡ some ((s ++ (report_of def bytes offset left ∷ [])) ++ after.reports, ok tt))
                (sym (full_len def left more)) after.written
              ∙ rw (append_assoc s));
      read =
          read_more defs (report_of def bytes offset left) def buf (map ok after.reports ++ rest)
            (found_by_byte defs def usable) usable.0 (length-padded (max_payload def) _)
            (effect_more def buf _ left offset more)
          ∙ rw
              (payload_full def (drop offset bytes) left more
                (omega (arith, length-drop offset bytes)))
              (after.read
                ∙ ap (λ (t : List ℕ). (rest, ok t))
                    (regroup_chunks offset (max_payload def) bytes (base offset buf)
                      (replicate after.padding 0) (omega arith)));
    }

send :
    (defs : List ReportDef) (fuel : ℕ) (bytes : List ℕ) (offset left : ℕ) (s : List Report)
    (buf : List ℕ) (rest : List (Result Report))
    → Serves defs
    → 0 < left
    → left < fuel
    → offset + left ≡ length bytes
    → Sent defs fuel bytes offset left s buf rest
send defs zero bytes offset left s buf rest serves some_left enough size = absurd (omega arith)
send defs (suc zero) bytes offset left s buf rest serves some_left enough size =
    absurd (omega arith)
send defs (suc (suc fuel)) bytes offset left s buf rest serves some_left enough size =
    let (def, choice, usable) = picked defs left serves in
    elim (Bool-cases (overflows def left)) [
      | inr fit ↦
          send_last defs fuel bytes offset left s buf rest def some_left size choice usable fit
      | inl more ↦
          send_more defs (suc fuel) bytes offset left s buf rest def some_left size choice usable
            more
            (send defs (suc fuel) bytes (offset + max_payload def) (left - max_payload def) _ _ rest
              serves (ground arith) (ground arith) (ground arith))
    ]

-- With report types that serve it, the encoder sends every frame that is not empty, on any fuel above
-- the frame's length; a decoder reads the frame back from those reports, with zeros behind it, and
-- leaves the reports that follow.
pub read_frame-write_frame :
    (defs : List ReportDef) (fuel : ℕ) (bytes : List ℕ) (rest : List (Result Report))
    → Serves defs
    → 0 < length bytes
    → length bytes < fuel
    → (reports : List Report) × (padding : ℕ) × (write_frame keep_reports defs fuel bytes []
        ≡ some (reports, ok tt))
      × (read_frame defs (map ok reports ++ rest) ≡ (rest, ok (bytes ++ replicate padding 0)))
unfolding write_frame read_frame
read_frame-write_frame defs fuel bytes rest serves some_bytes enough =
    let sent =
      send defs fuel bytes 0 (length bytes) [] [] rest serves some_bytes enough (omega arith) in
    (sent.reports, sent.padding, sent.written, sent.read)
