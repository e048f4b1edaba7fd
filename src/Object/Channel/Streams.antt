-- ===== src/Object/Channel/Streams.antt =====
-- What goes through one channel of object/backend/channel/backend.go: the bytes that a reader gets are
-- those that were written, in order.
use omnistorage_core.Base.{
  ℕ, zero, suc, ◌+◌, ◌≡◌, refl, sym, ap, ◌∙◌, true, false, Option, none, List, [], ◌∷◌, ◌++◌, arith,
  ltb, ◌==◌, ==-refl, length, take, drop, take-append-drop, if◌then◌else◌, list_eq, nat_eq,
  Bool-cases, inl, inr, Option-cases, ◌⊎◌, ==-true,
}
use mathlib.Core.Path.{subst}
use mathlib.Core.List.{append-nil, append_assoc}
use omnistorage_core.Object.{Error}
use omnistorage_core.Object.Channel.{Backend, Reader, Sent, Received, put, read}
use omnistorage_core.Object.Hashing.{concat}

-- the bytes that are on their way to a reader
abbrev pub pending : Reader → Backend → List ℕ
pending r b = r.buffer ++ (drop r.offset r.current ++ concat (b.infos r.info).ch)

pub concat-append : (xs : List (List ℕ)) (m : List ℕ) → concat (xs ++ m ∷ []) ≡ concat xs ++ m
concat-append [] m = append-nil m
concat-append (x ∷ xs) m =
    ap (λ ys. x ++ ys) (concat-append xs m) ∙ sym (append_assoc x (concat xs) m)

drop-length-take : (n : ℕ) (xs : List ℕ) → drop (length (take n xs)) xs ≡ drop n xs
drop-length-take zero xs = refl
drop-length-take (suc n) [] = refl
drop-length-take (suc n) (x ∷ xs) = drop-length-take n xs

drop_nil : (n : ℕ) → drop {A = ℕ} n [] ≡ []
drop_nil zero = refl
drop_nil (suc n) = refl

drop-drop : (n m : ℕ) (xs : List ℕ) → drop (n + m) xs ≡ drop m (drop n xs)
drop-drop zero m xs = let e : 0 + m ≡ m = omega arith in ap (λ k. drop k xs) e
drop-drop (suc n) m [] = drop_nil (suc n + m) ∙ sym (drop_nil m)
drop-drop (suc n) m (x ∷ xs) =
    let e : suc n + m ≡ suc (n + m) = omega arith in ap (λ k. drop k (x ∷ xs)) e ∙ drop-drop n m xs

drop_all : (n : ℕ) (xs : List ℕ) → ltb n (length xs) ≡ false → drop n xs ≡ []
drop_all zero [] h = refl
drop_all zero (x ∷ xs) h = absurd (ground (arith, h))
drop_all (suc n) [] h = refl
drop_all (suc n) (x ∷ xs) h = drop_all n xs (ground (arith, h))

-- the bytes that a read has got, and those that a write has accepted
abbrev pub got : Received → List ℕ
got (Received.received out) = out
got (Received.failed e) = []
got Received.eof = []
got Received.waits = []

abbrev pub accepted : List ℕ → Sent → List ℕ
accepted content (Sent.sent n) = content
accepted content (Sent.failed e) = []
accepted content Sent.waits = []
accepted content Sent.panics = []

pub List-cases : {A : Type 0} (xs : List A) → (xs ≡ []) ⊎ ((x : A) × (ys : List A) × (xs ≡ x ∷ ys))
List-cases [] = inl refl
List-cases (x ∷ xs) = inr (x, xs, refl)

-- The part of a text that is read and the part that is left make up the text.
read_part :
    (n offset : ℕ) (cs rest : List ℕ)
    → let left = take n (drop offset cs) in
      left ++ (drop (offset + length left) cs ++ rest) ≡ drop offset cs ++ rest
read_part n offset cs rest =
    let left = take n (drop offset cs) in
    let kept : drop (offset + length left) cs ≡ drop n (drop offset cs) =
      drop-drop offset (length left) cs ∙ drop-length-take n (drop offset cs) in
    ap (λ ds. left ++ (ds ++ rest)) kept
    ∙ sym (append_assoc left (drop n (drop offset cs)) rest)
    ∙ ap (λ ds. ds ++ rest) (take-append-drop n (drop offset cs))

module _ (n : ℕ) (r : Reader) (b : Backend) (ready : r.closed ≡ false) where
  abbrev Delivers : Reader × Backend × Received → Type 0
  Delivers (r', b', answer) = got answer ++ pending r' b' ≡ pending r b

  read-buffer :
      (ctx' : Option Error)
      → (r.buffer == []) ≡ false
      → read none ctx' n r b
        ≡ (record r { buffer = drop n r.buffer }, b, Received.received (take n r.buffer))
  unfolding read
  read-buffer ctx' full = ground (arith, ready, full)

  read-left :
      (ctx' : Option Error)
      → (r.buffer == []) ≡ true
      → ltb r.offset (length r.current) ≡ true
      → let left = take n (drop r.offset r.current) in
        read none ctx' n r b
        ≡ (record r { offset = r.offset + length left }, b, Received.received left)
  unfolding read
  read-left ctx' empty more = ground (arith, ready, empty, more)

  read-next :
      {message : List ℕ} {messages : List (List ℕ)}
      → (r.buffer == []) ≡ true
      → ltb r.offset (length r.current) ≡ false
      → (b.infos r.info).ch ≡ message ∷ messages
      → read none none n r b ≡ (
        record r { current = message; offset = length (take n message) },
        put r.info (record (b.infos r.info) { ch = messages }) b,
        Received.received (take n message),
      )
  unfolding read
  read-next empty done waiting = ground (arith, ready, empty, done, waiting)

  read_buffer : (ctx' : Option Error) → (r.buffer == []) ≡ false → Delivers (read none ctx' n r b)
  read_buffer ctx' full =
      let rest = drop r.offset r.current ++ concat (b.infos r.info).ch in
      subst Delivers (sym (read-buffer ctx' full)) (
        sym (append_assoc (take n r.buffer) (drop n r.buffer) rest)
        ∙ ap (λ cs. cs ++ rest) (take-append-drop n r.buffer))

  read_left :
      (ctx' : Option Error)
      → (r.buffer == []) ≡ true
      → ltb r.offset (length r.current) ≡ true
      → Delivers (read none ctx' n r b)
  read_left ctx' empty more =
      subst Delivers (sym (read-left ctx' empty more)) (
        rw (==-true r.buffer [] empty)
          (read_part n r.offset r.current (concat (b.infos r.info).ch)))

  read_next :
      {message : List ℕ} {messages : List (List ℕ)}
      → (r.buffer == []) ≡ true
      → ltb r.offset (length r.current) ≡ false
      → (b.infos r.info).ch ≡ message ∷ messages
      → Delivers (read none none n r b)
  read_next {message} {messages} empty done waiting =
      subst Delivers (sym (read-next empty done waiting)) (
        rw
          (
            ==-true r.buffer [] empty,
            waiting,
            drop_all r.offset r.current done,
            ==-refl r.info,
            drop-length-take n message,
          )
          (sym (append_assoc (take n message) (drop n message) (concat messages))
            ∙ ap (λ cs. cs ++ concat messages) (take-append-drop n message)))

  read_nothing :
      (r.buffer == []) ≡ true
      → ltb r.offset (length r.current) ≡ false
      → (b.infos r.info).ch ≡ []
      → Delivers (read none none n r b)
  unfolding read
  read_nothing empty done nothing =
      let e : read none none n r b
          ≡ (r, b, if (b.infos r.info).closed then Received.eof else Received.waits) =
        ground (arith, ready, empty, done, nothing) in
      subst Delivers (sym e)
        (elim (Bool-cases (b.infos r.info).closed) [ inl c ↦ rw c refl | inr c ↦ rw c refl ])

  read_ready : (ctx' : Option Error) → Delivers (read none ctx' n r b)
  unfolding read
  read_ready ctx' = elim (Bool-cases (r.buffer == [])) [
    | inr full ↦ read_buffer ctx' full
    | inl empty ↦ elim (Bool-cases (ltb r.offset (length r.current))) [
      | inl more ↦ read_left ctx' empty more
      | inr done ↦ elim (Option-cases ctx') [
        | inr (e, cancelled) ↦ rw (read, ready, empty, done, cancelled) refl
        | inl free ↦ elim (List-cases (b.infos r.info).ch) [
          | inl nothing ↦ rw free (read_nothing empty done nothing)
          | inr (message, messages, waiting) ↦ rw free (read_next empty done waiting)
        ]
      ]
    ]
  ]

-- Whatever a read finds, what it has got and what is then on its way make up what was on its way.
pub pending-read :
    (ctx ctx' : Option Error) (n : ℕ) (r : Reader) (b : Backend)
    → let (r', b', answer) = read ctx ctx' n r b in got answer ++ pending r' b' ≡ pending r b
unfolding read
pending-read ctx ctx' n r b = elim (Bool-cases r.closed) [
  | inl closed ↦ rw (read, closed) refl
  | inr ready ↦ elim (Option-cases ctx) [
    | inr (e, cancelled) ↦ rw (read, ready, cancelled) refl
    | inl free ↦ rw free (read_ready n r b ready ctx')
  ]
]

-- A read finds the end only where nothing is on its way.
pub pending-eof :
    (ctx ctx' : Option Error) (n : ℕ) (r : Reader) (b : Backend)
    → (read ctx ctx' n r b).2 ≡ Received.eof
    → pending r b ≡ []
unfolding read
pending-eof ctx ctx' n r b h = elim (Bool-cases (r.buffer == [])) [
  | inr full ↦ absurd (ground (arith, h, full))
  | inl empty ↦ elim (Bool-cases (ltb r.offset (length r.current))) [
    | inl more ↦ absurd (ground (arith, h, empty, more))
    | inr done ↦ elim (List-cases (b.infos r.info).ch) [
      | inl nothing ↦ rw (==-true r.buffer [] empty, drop_all r.offset r.current done, nothing) refl
      | inr (message, messages, waiting) ↦ absurd (ground (arith, h, empty, done, waiting))
    ]
  ]
]
