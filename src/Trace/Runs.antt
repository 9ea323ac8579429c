-- ===== src/Trace/Runs.antt =====
-- trace/trace.go: runs on concrete messages.
use ipod.Base.{ℕ, ◌<◌, ◌≡◌, refl, none, some, List, [], ◌∷◌, arith, ok, ◌>>=◌, drop, All}
use ipod.Trace.Msg.{Msg, dir_in, dir_out, hex_text, marshal_text, unmarshal_text}
use ipod.Trace.Stream.{dir_read, new_reader, traced}
use ipod.Trace.Queue.{Queue, empty, enqueue, dequeue, dequeue_dir, head}
use ipod.Trace.Lists.{of_dir}
use ipod.Trace.RoundTrip.{unmarshal_text-marshal_text}
use ipod.Trace.Replay.{Written, done, blank, line, Gives, read_msg-Written}
use ipod.Trace.Refinement.{
  WellFormed, msgs, first_of, without_first, dequeue_refines, dequeue_dir_refines,
}

abbrev sent : Msg
sent = record { dir = dir_out; ts = 4; bytes = 85 ∷ 2 ∷ 171 ∷ [] }

abbrev got : Msg
got = record { dir = dir_in; ts = 5; bytes = 255 ∷ [] }

abbrev sent_text : List ℕ
sent_text = 62 ∷ 32 ∷ 53 ∷ 53 ∷ 32 ∷ 48 ∷ 50 ∷ 32 ∷ 65 ∷ 66 ∷ []

abbrev got_text : List ℕ
got_text = 60 ∷ 32 ∷ 70 ∷ 70 ∷ []

sent-text : marshal_text sent ≡ ok sent_text
unfolding marshal_text hex_text
sent-text = refl

got-text : marshal_text got ≡ ok got_text
unfolding marshal_text hex_text
got-text = refl

got_twice :
    dir_read 4 (new_reader (sent_text ∷ [] ∷ got_text ∷ []) none) dir_in 8
    ≡ some (record { lines = []; scan_err = none; err = none; ts = 2 }, ok (255 ∷ []))
unfolding dir_read unmarshal_text
got_twice = refl

traced_sent : traced dir_out (ok (85 ∷ [])) ≡ 62 ∷ 32 ∷ 53 ∷ 53 ∷ 10 ∷ []
unfolding traced hex_text
traced_sent = refl

sent_bytes_lt : All (λ b. b < 256) sent.bytes
sent_bytes_lt = (omega arith, (omega arith, (omega arith, tt)))

unmarshal_text-marshal_text_example :
    (text : List ℕ) × (marshal_text sent ≡ ok text)
    × (unmarshal_text got text ≡ ok (record sent { ts = 5 }))
unmarshal_text-marshal_text_example =
    unmarshal_text-marshal_text sent got 85 (2 ∷ 171 ∷ []) (omega arith) refl sent_bytes_lt

two_lines-Written : Written (sent ∷ got ∷ []) (sent_text ∷ [] ∷ got_text ∷ [])
two_lines-Written =
    line sent sent_text sent-text sent_bytes_lt
      (blank (line got got_text got-text (omega arith, tt) done))

read_msg-Written_example :
    Gives (new_reader (sent_text ∷ [] ∷ got_text ∷ []) none) (sent ∷ got ∷ [])
read_msg-Written_example =
    read_msg-Written (sent ∷ got ∷ []) (sent_text ∷ [] ∷ got_text ∷ []) 0 two_lines-Written

abbrev two_queued : Queue
two_queued = record {
  all = record { key = 0; msg = got } ∷ record { key = 1; msg = sent } ∷ [];
  ins = record { key = 0; msg = got } ∷ [];
  outs = record { key = 1; msg = sent } ∷ [];
  next_key = 2;
}

two_queued_lem : (enqueue empty got >>= λ q. enqueue q sent) ≡ ok two_queued
unfolding enqueue
two_queued_lem = refl

two_queued-WellFormed : WellFormed two_queued
unfolding of_dir
two_queued-WellFormed = record {
  ins_lem = refl;
  outs_lem = refl;
  keys = (omega arith, (omega arith, omega arith));
  dirs = (omega arith, (omega arith, tt));
}

dequeue_dir_refines_example :
    (q' : Queue) × (dequeue_dir two_queued dir_out ≡ ok (q', first_of dir_out (msgs two_queued)))
    × (msgs q' ≡ without_first dir_out (msgs two_queued))
    × WellFormed q'
dequeue_dir_refines_example =
    dequeue_dir_refines two_queued dir_out two_queued-WellFormed (omega arith)

dequeue_refines_example :
    (q' : Queue) × (dequeue two_queued ≡ ok (q', head two_queued))
    × (msgs q' ≡ drop 1 (msgs two_queued))
    × WellFormed q'
dequeue_refines_example = dequeue_refines two_queued two_queued-WellFormed
