-- ===== src/Trace/Replay.antt =====
-- trace/trace.go: a written trace, read message by message.
use ipod.Base.{
  ℕ, zero, suc, ◌+◌, ◌<◌, ◌≡◌, refl, ap, ◌∙◌, subst, ◌≢◌, none, List, [], ◌∷◌, arith, ok, err, eof,
  All,
}
use ipod.Trace.Msg.{Msg, marshal_dir, marshal_text, unmarshal_text}
use ipod.Trace.Stream.{Reader, read_msg, read_lines, stamped}
use ipod.Trace.RoundTrip.{unmarshal_text-marshal_text}

-- The lines of a trace: one for each message, as `MarshalText` writes it, and blank lines anywhere.
pub data Written : List Msg → List (List ℕ) → Type 0 where
  done : Written [] []
  blank : {ms : List Msg} {lines : List (List ℕ)} → Written ms lines → Written ms ([] ∷ lines)
  line :
      {ms : List Msg} {lines : List (List ℕ)} (m : Msg) (text : List ℕ)
      → marshal_text m ≡ ok text
      → All (λ b. b < 256) m.bytes
      → Written ms lines
      → Written (m ∷ ms) (text ∷ lines)

-- The messages that a reader gives one after the other, numbered from its counter on, with io.EOF
-- behind the last one.
abbrev pub Gives : Reader → List Msg → Type 0
Gives r [] = (r' : Reader) × ((into : Msg) → read_msg r into ≡ (r', err eof))
Gives r (m ∷ ms) =
    (r' : Reader) × ((into : Msg) → read_msg r into ≡ (r', ok (record m { ts = r.ts })))
    × Gives r' ms

-- What `MarshalText` takes has a direction and data.
marshalled :
    (m : Msg) (text : List ℕ)
    → marshal_text m ≡ ok text
    → (m.dir < 2) × ((b : ℕ) × (bs : List ℕ) × (m.bytes ≡ b ∷ bs))
unfolding marshal_text marshal_dir
marshalled m text e = by_parts m.dir m.bytes refl refl e
  where
    by_parts :
        (d : ℕ) (bytes : List ℕ)
        → m.dir ≡ d
        → m.bytes ≡ bytes
        → marshal_text (record { dir = d; ts = 0; bytes = bytes }) ≡ ok text
        → (m.dir < 2) × ((b : ℕ) × (bs : List ℕ) × (m.bytes ≡ b ∷ bs))
    by_parts zero [] ed eb h = absurd (cc h)
    by_parts zero (b ∷ bs) ed eb h = (omega (arith, ed), (b, bs, eb))
    by_parts (suc zero) [] ed eb h = absurd (cc h)
    by_parts (suc zero) (b ∷ bs) ed eb h = (omega (arith, ed), (b, bs, eb))
    by_parts (suc (suc d)) bytes ed eb h = absurd (ground (arith, h))

-- Where the reader stood before does not matter to what it reads next.
read_lines_from :
    (ls xs ys : List (List ℕ)) (ts : ℕ) (into : Msg)
    → read_lines ls (record { lines = xs; scan_err = none; err = none; ts = ts }) into
      ≡ read_lines ls (record { lines = ys; scan_err = none; err = none; ts = ts }) into
unfolding read_lines
read_lines_from [] xs ys ts into = refl
read_lines_from ([] ∷ ls) xs ys ts into = read_lines_from ls xs ys ts into
read_lines_from ((c ∷ cs) ∷ ls) xs ys ts into = refl

Gives-blank :
    (ms : List Msg) (lines : List (List ℕ)) (ts : ℕ)
    → Gives (record { lines = lines; scan_err = none; err = none; ts = ts }) ms
    → Gives (record { lines = [] ∷ lines; scan_err = none; err = none; ts = ts }) ms
unfolding read_msg read_lines
Gives-blank [] lines ts g =
    (g.0, λ into. read_lines_from lines ([] ∷ lines) lines ts into ∙ g.1 into)
Gives-blank (m ∷ ms) lines ts g =
    (g.0, (λ into. read_lines_from lines ([] ∷ lines) lines ts into ∙ g.1 into), g.2)

read_back :
    (m into : Msg) (text : List ℕ)
    → marshal_text m ≡ ok text
    → All (λ b. b < 256) m.bytes
    → unmarshal_text into text ≡ ok (record m { ts = into.ts })
read_back m into text e h =
    let parts = marshalled m text e in
    let back = unmarshal_text-marshal_text m into parts.1.0 parts.1.1 parts.0 parts.1.2 h in
    subst (λ t. unmarshal_text into t ≡ ok (record m { ts = into.ts })) (cc (e, back.1)) back.2

no_text : (m : Msg) → unmarshal_text m [] ≢ ok (record m { ts = m.ts })
unfolding unmarshal_text
no_text m e = absurd (cc e)

-- Reading a written trace from its start gives its messages in order, with their directions and bytes,
-- numbered one by one from the reader's counter, whatever variable each is read into, and io.EOF at
-- the end.
pub read_msg-Written :
    (ms : List Msg) (lines : List (List ℕ)) (ts : ℕ)
    → Written ms lines
    → Gives (record { lines = lines; scan_err = none; err = none; ts = ts }) ms
unfolding read_msg read_lines
read_msg-Written [] [] ts done = (_, λ into. refl)
read_msg-Written ms ([] ∷ lines) ts (blank w) =
    Gives-blank ms lines ts (read_msg-Written ms lines ts w)
read_msg-Written (m ∷ ms) ([] ∷ lines) ts (line _ _ e h w) =
    absurd (no_text m (read_back m m [] e h))
read_msg-Written (m ∷ ms) ((c ∷ cs) ∷ lines) ts (line _ _ e h w) = (
  _,
  (λ into. ap (stamped _) (read_back m into (c ∷ cs) e h)),
  read_msg-Written ms lines (ts + 1) w,
)
read_msg-Written (m ∷ ms) [] ts w = elim w [ ]
read_msg-Written [] ((c ∷ cs) ∷ lines) ts w = elim w [ ]
