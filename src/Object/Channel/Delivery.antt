-- ===== src/Object/Channel/Delivery.antt =====
-- Runs of writes, reads and closings on one channel of object/backend/channel/backend.go.
use omnistorage_core.Base.{
  ℕ, ◌≡◌, sym, ap, ◌∙◌, Bool, true, false, Option, List, [], ◌∷◌, ◌++◌, arith, ltb, ==-refl, length,
  drop, list_eq, nat_eq, Bool-cases, Option-cases, inl, inr,
}
use mathlib.Core.List.{append-nil, append_assoc}
use omnistorage_core.Object.{Error}
use omnistorage_core.Object.Channel.{
  Backend, ChannelInfo, Reader, Writer, Received, put, shut, prepare_write, send, write, read,
  close_writer, close_reader,
}
use omnistorage_core.Object.Channel.Streams.{
  pending, got, accepted, pending-read, pending-eof, concat-append,
}
use omnistorage_core.Object.Hashing.{concat}

module _ (r : Reader) (b : Backend) where
  abbrev Receives : List ℕ → Backend → Type 0
  Receives content b' = pending r b' ≡ pending r b ++ content

  -- What the channel gains, the reader has coming.
  put-Receives :
      (content : List ℕ) (info : ChannelInfo)
      → concat info.ch ≡ concat (b.infos r.info).ch ++ content
      → Receives content (put r.info info b)
  put-Receives content info gained =
      let left = drop r.offset r.current in
      let waiting = concat (b.infos r.info).ch in
      rw (==-refl r.info, gained)
        (ap (λ cs. r.buffer ++ cs) (sym (append_assoc left waiting content))
          ∙ sym (append_assoc r.buffer (left ++ waiting) content))

  Receives-nothing : Receives [] b
  Receives-nothing = sym (append-nil (pending r b))

  send-Receives :
      (ctx : Option Error) (closed : Bool) (content : List ℕ)
      → let (b', outcome) = send ctx (record { info = r.info; closed = closed }) content b in
        Receives (accepted content outcome) b'
  unfolding send
  send-Receives ctx closed content =
      let info = b.infos r.info in
      elim (Option-cases ctx) [
        | inr (e, cancelled) ↦ rw (send, cancelled) Receives-nothing
        | inl free ↦ elim (Bool-cases info.closed) [
          | inl gone ↦ rw (send, free, gone) Receives-nothing
          | inr ready ↦ elim (Bool-cases (ltb (length info.ch) b.buffer_size)) [
            | inr full ↦ rw (send, free, ready, full) Receives-nothing
            | inl room ↦
                rw (send, free, ready, room)
                  (put-Receives content
                    (record info { ch = info.ch ++ content ∷ []; closed = false })
                    (concat-append info.ch content))
          ]
        ]
      ]

  prepare_write-Receives :
      (ctx : Option Error) (closed : Bool) (content : List ℕ)
      → Receives [] (prepare_write ctx (record { info = r.info; closed = closed }) content b).0
  unfolding prepare_write
  prepare_write-Receives ctx closed content =
      let info = b.infos r.info in
      let kept =
        put-Receives [] (record info { buffered = info.buffered ++ content ∷ [] })
          (sym (append-nil (concat info.ch))) in
      ground (arith, kept, Receives-nothing)

  shut-Receives : Receives [] (shut r.info b)
  shut-Receives = elim (Bool-cases (b.infos r.info).closed) [
    | inl gone ↦ rw (shut, gone) Receives-nothing
    | inr ready ↦
        rw (shut, ready)
          (put-Receives [] (record (b.infos r.info) { closed = true })
            (sym (append-nil (concat (b.infos r.info).ch))))
  ]

write-Receives :
    (r : Reader) (b : Backend) (ctx ctx' : Option Error) (closed : Bool) (content : List ℕ)
    → let (b', outcome) = write ctx ctx' (record { info = r.info; closed = closed }) content b in
      Receives r b (accepted content outcome) b'
unfolding write
write-Receives r b ctx ctx' closed content =
    let w : Writer = record { info = r.info; closed = closed } in
    let (b', refused) = prepare_write ctx w content b in
    let kept = prepare_write-Receives r b ctx closed content in
    elim (Option-cases refused) [
      | inr (e, failed) ↦ rw (write, failed) kept
      | inl fine ↦
          rw (write, fine)
            (send-Receives r b' ctx' closed content
              ∙ ap (λ cs. cs ++ accepted content (send ctx' w content b').1)
                  (kept ∙ append-nil (pending r b)))
    ]

-- What happens to a channel that one reader listens to: a write by a writer that is closed or not, a
-- read, the closing of a writer that was open, or that of the reader.
pub data Event : Type 0 where
  write_event : Option Error → Option Error → Bool → List ℕ → Event
  read_event : Option Error → Option Error → ℕ → Event
  close_event close_reader_event : Event

-- the reader and the backend, and the bytes that have been read and those that have been accepted
pub record Run : Type 0 where
  pub reader : Reader
  pub backend : Backend
  pub read_bytes : List ℕ
  pub written_bytes : List ℕ

unfoldable pub step : Event → Run → Run
step (write_event ctx ctx' closed content) s =
    let (b, outcome) =
      write ctx ctx' (record { info = s.reader.info; closed = closed }) content s.backend in
    record s { backend = b; written_bytes = s.written_bytes ++ accepted content outcome }
step (read_event ctx ctx' n) s =
    let (r, b, answer) = read ctx ctx' n s.reader s.backend in
    record s { reader = r; backend = b; read_bytes = s.read_bytes ++ got answer }
step close_event s = record s {
  backend = (close_writer (record { info = s.reader.info; closed = false }) s.backend).1;
}
step close_reader_event s = record s { reader = close_reader s.reader }

unfoldable pub run : List Event → Run → Run
run [] s = s
run (e ∷ es) s = run es (step e s)

-- What was read and what is on its way make up what was written and what was on its way before.
abbrev pub IsBalanced : List ℕ → Run → Type 0
IsBalanced before s = s.read_bytes ++ pending s.reader s.backend ≡ before ++ s.written_bytes

still_balanced :
    (before content : List ℕ) (s : Run) (b : Backend)
    → Receives s.reader s.backend content b
    → IsBalanced before s
    → s.read_bytes ++ pending s.reader b ≡ before ++ (s.written_bytes ++ content)
still_balanced before content s b received h =
    ap (λ cs. s.read_bytes ++ cs) received
    ∙ sym (append_assoc s.read_bytes (pending s.reader s.backend) content)
    ∙ ap (λ cs. cs ++ content) h
    ∙ append_assoc before s.written_bytes content

step-IsBalanced :
    (before : List ℕ) (e : Event) (s : Run) → IsBalanced before s → IsBalanced before (step e s)
unfolding step close_writer close_reader
step-IsBalanced before (write_event ctx ctx' closed content) s h =
    let w : Writer = record { info = s.reader.info; closed = closed } in
    let (b, outcome) = write ctx ctx' w content s.backend in
    still_balanced before (accepted content outcome) s b
      (write-Receives s.reader s.backend ctx ctx' closed content) h
step-IsBalanced before (read_event ctx ctx' n) s h =
    let (r, b, answer) = read ctx ctx' n s.reader s.backend in
    append_assoc s.read_bytes (got answer) (pending r b)
    ∙ ap (λ cs. s.read_bytes ++ cs) (pending-read ctx ctx' n s.reader s.backend)
    ∙ h
step-IsBalanced before close_event s h =
    still_balanced before [] s (shut s.reader.info s.backend) (shut-Receives s.reader s.backend) h
    ∙ ap (λ cs. before ++ cs) (append-nil s.written_bytes)
step-IsBalanced before close_reader_event s h = h

run-IsBalanced :
    (before : List ℕ) (es : List Event) (s : Run)
    → IsBalanced before s
    → IsBalanced before (run es s)
unfolding run
run-IsBalanced before [] s h = h
run-IsBalanced before (e ∷ es) s h =
    run-IsBalanced before es (step e s) (step-IsBalanced before e s h)

-- a run that begins with a reader and a backend
abbrev pub start : Reader → Backend → Run
start r b = record { reader = r; backend = b; read_bytes = []; written_bytes = [] }

-- In any run of writes, reads and closings on a channel with one reader, whatever waits, fails or is
-- cancelled, what the reader has got is a beginning of what it had coming and what was written since, in order and without a gap; once a
-- read finds the end, it is all of that.
pub run_delivers :
    (r : Reader) (b : Backend) (es : List Event) (ctx ctx' : Option Error) (n : ℕ)
    → let s = run es (start r b) in
      (s.read_bytes ++ pending s.reader s.backend ≡ pending r b ++ s.written_bytes)
      × ((read ctx ctx' n s.reader s.backend).2 ≡ Received.eof
          → s.read_bytes ≡ pending r b ++ s.written_bytes)
run_delivers r b es ctx ctx' n =
    let s = run es (start r b) in
    let balanced = run-IsBalanced (pending r b) es (start r b) (sym (append-nil (pending r b))) in
    (
      balanced,
      λ e.
          sym (append-nil s.read_bytes)
          ∙ ap (λ cs. s.read_bytes ++ cs) (sym (pending-eof ctx ctx' n s.reader s.backend e))
          ∙ balanced,
    )
