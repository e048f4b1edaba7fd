-- ===== src/Object/Ndjson.antt =====
-- object/format/ndjson: records as lines. `bufio.Writer` on top of the destination is an interface of
-- write, flush and close; `bufio.Scanner` is a function on what is still to be read.
pub mod Reading
pub mod RoundTrip
use omnistorage_core.Base.{
  ℕ, zero, suc, ◌+◌, Bool, true, false, ◌||◌, Option, none, some, List, [], ◌∷◌, ◌++◌, leb, length,
  if◌then◌else◌, ◌==◌, list_eq, nat_eq, Result, ok, err,
}
use omnistorage_core.Object.{Error}
use omnistorage_core.Object.Backend.{Stream}
use omnistorage_core.Object.Hashing.{concat}

-- `DefaultBufferSize`
abbrev pub default_buffer_size : ℕ
default_buffer_size = 65536

-- The buffered writer and the destination below it; `some` is an error.
pub record Sink (S : Type 0) : Type 0 where
  pub write : List ℕ → S → S × Option Error
  pub flush : S → S × Option Error
  pub close : S → S × Option Error

-- `Writer`
pub record Writer (S : Type 0) : Type 0 where
  pub sink : S
  pub closed : Bool

-- the bytes that `bytes.TrimRight(data, " \t\r\n")` and `bytes.TrimSpace` cut off, of those that are ASCII
abbrev pub is_trimmed : ℕ → Bool
is_trimmed c = c == b' ' || c == b'\t' || c == b'\r' || c == b'\n'

-- `bytes.TrimRight(data, " \t\r\n")`
unfoldable pub trim_right : List ℕ → List ℕ
trim_right [] = []
trim_right (c ∷ cs) = elim (trim_right cs) [
  | [] ↦ if is_trimmed c then [] else c ∷ []
  | d ∷ ds ↦ c ∷ d ∷ ds
]

module _ {S : Type 0} (B : Sink S) where
  -- `NewWriter` and `NewWriterSize`
  abbrev pub new_writer : S → Writer S
  new_writer s = record { sink = s; closed = false }

  -- `Writer.Write`
  unfoldable pub write : List ℕ → Writer S → Writer S × Option Error
  write content w =
      let (s, failed) = B.write content w.sink in
      let (s', failed') = B.write (b'\n' ∷ []) s in
      if w.closed then (w, some Error.writer_closed) else elim failed [
        | some e ↦ (record w { sink = s }, some e)
        | none ↦ (record w { sink = s' }, failed')
      ]

  -- `Writer.WriteJSON`
  unfoldable pub write_json : List ℕ → Writer S → Writer S × Option Error
  write_json content w = write (trim_right content) w

  -- `Writer.Flush`
  unfoldable pub flush : Writer S → Writer S × Option Error
  flush w =
      let (s, failed) = B.flush w.sink in
      if w.closed then (w, some Error.writer_closed) else (record w { sink = s }, failed)

  -- `Writer.Close`
  unfoldable pub close_writer : Writer S → Writer S × Option Error
  close_writer w =
      let (s, failed) = B.flush w.sink in
      let (s', failed') = B.close s in
      if w.closed
      then (w, none)
      else (record { sink = s'; closed = true }, elim failed [ some e ↦ some e | none ↦ failed' ])

-- `Reader`: what is still to be scanned and the error behind it, and what closing the source returns
pub record Reader : Type 0 where
  pub size : ℕ
  pub rest : List ℕ
  pub failure : Option Error
  pub closed : Bool
  pub close_failure : Option Error

-- `NewReader` and `NewReaderSize`, for a buffer of at least one byte
abbrev pub new_reader_size : Stream → Option Error → ℕ → Reader
new_reader_size s close_failure size = record {
  size = size;
  rest = concat s.chunks;
  failure = s.failure;
  closed = false;
  close_failure = close_failure;
}

abbrev pub new_reader : Stream → Option Error → Reader
new_reader s close_failure = new_reader_size s close_failure default_buffer_size

-- the bytes before the first newline, and those behind it
unfoldable pub take_line : List ℕ → List ℕ × List ℕ
take_line [] = ([], [])
take_line (c ∷ cs) =
    let (line, rest) = take_line cs in if c == b'\n' then ([], cs) else (c ∷ line, rest)

-- a line without the carriage return at its end
unfoldable pub drop_cr : List ℕ → List ℕ
drop_cr [] = []
drop_cr (c ∷ []) = if c == b'\r' then [] else c ∷ []
drop_cr (c ∷ d ∷ cs) = c ∷ drop_cr (d ∷ cs)

-- what `Scan` finds
pub data Scanned : Type 0 where
  token : List ℕ → List ℕ → Scanned
  finished too_long : Scanned

-- `Scanner.Scan` with `ScanLines`: a line that fills the buffer is too long
unfoldable pub scan : ℕ → List ℕ → Scanned
scan size [] = finished
scan size (c ∷ cs) =
    let (line, rest) = take_line (c ∷ cs) in
    if leb size (length line) then too_long else token (drop_cr line) rest

-- `bufio.ErrTooLong`
abbrev pub err_too_long : Error
err_too_long = Error.other 1

-- what a `Read` returns; `eof` is `io.EOF`
pub data Answer : Type 0 where
  line : List ℕ → Answer
  eof : Answer
  failed : Error → Answer

module _ (trim_space : List ℕ → List ℕ) where
  -- the loop of `Reader.Read`; `none` is where the fuel has run out
  unfoldable pub read_loop : ℕ → Reader → Reader × Option Answer
  read_loop zero r = (r, none)
  read_loop (suc n) r = elim (scan r.size r.rest) [
    | finished ↦ (r, some (elim r.failure [ none ↦ eof | some e ↦ failed e ]))
    | too_long ↦ (record r { rest = []; failure = some err_too_long }, some (failed err_too_long))
    | token l rest ↦
        let next = read_loop n (record r { rest = rest }) in
        if trim_space l == [] then next else (record r { rest = rest }, some (line l))
  ]

  -- `Reader.Read`
  unfoldable pub read : Reader → Reader × Option Answer
  read r =
      if r.closed then (r, some (failed Error.reader_closed)) else read_loop (length r.rest + 1) r

-- `Reader.Close`
unfoldable pub close_reader : Reader → Reader × Option Error
close_reader r = if r.closed then (r, none) else (record r { closed = true }, r.close_failure)
