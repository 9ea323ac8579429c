-- ===== src/Trace/Stream.antt =====
-- trace/trace.go: `Reader`, `Writer`, `tracer` and `traceDirReader`.
use ipod.Base.{
  ℕ, zero, suc, ◌+◌, List, [], ◌∷◌, ◌++◌, Option, none, some, Result, ok, err, panic, Error, ◌==◌,
  if◌then◌else◌, eof, take, ◌>>=◌,
}
use ipod.Trace.Msg.{Msg, unmarshal_text, marshal_text}

-- What bufio.Scanner has still to give: its lines without the newline, and the error at their end.
pub record Reader : Type 0 where
  pub lines : List (List ℕ)
  pub scan_err : Option Error
  pub err : Option Error
  pub ts : ℕ

abbrev pub new_reader : List (List ℕ) → Option Error → Reader
new_reader lines scan_err = record { lines = lines; scan_err = scan_err; err = none; ts = 0 }

-- The end of the lines: the scanner's error, or io.EOF.
abbrev pub end_err : Option Error → Error
end_err none = eof
end_err (some e) = e

-- A line that has been read: a message with the next number, or the error.
abbrev pub stamped : Reader → Result Msg → Reader × Result Msg
stamped r (ok m) = (record r { ts = r.ts + 1 }, ok (record m { ts = r.ts }))
stamped r failed = (r, failed)

-- The loop of `ReadMsg` over the scanner's lines.
unfoldable pub read_lines : List (List ℕ) → Reader → Msg → Reader × Result Msg
read_lines [] r m =
    (record r { lines = []; err = some (end_err r.scan_err) }, err (end_err r.scan_err))
read_lines ([] ∷ lines) r m = read_lines lines r m
read_lines ((c ∷ cs) ∷ lines) r m = stamped (record r { lines = lines }) (unmarshal_text m (c ∷ cs))

-- `Reader.ReadMsg` into `m`
unfoldable pub read_msg : Reader → Msg → Reader × Result Msg
unfolding read_lines
read_msg r m = elim r.err [ some e ↦ (r, err e) | none ↦ read_lines r.lines r m ]

-- `Writer.WriteMsg`: the bytes handed to the io.Writer, newline included.
unfoldable pub write_msg : Msg → Result (List ℕ)
unfolding marshal_text
write_msg m = marshal_text m >>= λ t. ok (t ++ (10 ∷ []))

-- What a transfer of `tracer` writes to the trace, whose error it ignores: nothing if it failed.
unfoldable pub traced : ℕ → Result (List ℕ) → List ℕ
unfolding write_msg
traced dir (ok moved) = elim (write_msg (record { dir = dir; ts = 0; bytes = moved })) [
  | ok t ↦ t
  | err e ↦ []
  | panic ↦ []
]
traced dir failed = []

abbrev pub zero_msg : Msg
zero_msg = record { dir = 0; ts = 0; bytes = [] }

-- The loop of `traceDirReader.Read` into a buffer of n bytes. Each turn but the last takes a line, so
-- the number of lines and one more turn are enough.
unfoldable pub dir_read : ℕ → Reader → ℕ → ℕ → Option (Reader × Result (List ℕ))
unfolding read_msg
dir_read zero r dir n = none
dir_read (suc fuel) r dir n =
    let got = read_msg r zero_msg in
    let rest = dir_read fuel got.0 dir n in
    elim got.1 [
      | ok m ↦ if m.dir == dir then some (got.0, ok (take n m.bytes)) else rest
      | err e ↦ some (got.0, err e)
      | panic ↦ some (got.0, panic)
    ]
