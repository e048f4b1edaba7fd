-- ===== src/Object/Ndjson/Reading.antt =====
-- What the reader of object/format/ndjson finds in given content.
use omnistorage_core.Base.{
  ℕ, zero, suc, ◌+◌, ◌≤◌, ◌<◌, ◌≡◌, refl, ◌∙◌, Bool, true, false, Option, none, some, List, [], ◌∷◌,
  ◌++◌, map, arith, leb, length, if◌then◌else◌, ◌==◌, ==-refl, contains, list_eq, nat_eq, All, ap,
  ◌⊎◌, inl, inr,
}
use omnistorage_core.Base.Dict
use omnistorage_core.Object.Ndjson.{
  Reader, take_line, drop_cr, Scanned, scan, Answer, read_loop, read,
}

length-take_line : (cs : List ℕ) → length (take_line cs).1 ≤ length cs
unfolding take_line
length-take_line [] = omega arith
length-take_line (c ∷ cs) = ground (arith, length-take_line cs)

Scanned-cases :
    (s : Scanned)
    → ((s ≡ Scanned.finished) ⊎ (s ≡ Scanned.too_long))
      ⊎ ((l : List ℕ) × (rest : List ℕ) × (s ≡ Scanned.token l rest))
Scanned-cases Scanned.finished = inl (inl refl)
Scanned-cases Scanned.too_long = inl (inr refl)
Scanned-cases (Scanned.token l rest) = inr (l, rest, refl)

-- a line of more than no bytes has less behind it
take_line_shrinks : (c : ℕ) (cs : List ℕ) → length (take_line (c ∷ cs)).1 ≤ length cs
unfolding take_line
take_line_shrinks c cs = ground (arith, length-take_line cs)

scan_shrinks :
    (size : ℕ) (cs : List ℕ) {l rest : List ℕ}
    → scan size cs ≡ Scanned.token l rest
    → length rest < length cs
unfolding scan
scan_shrinks size [] e = cc
scan_shrinks size (c ∷ cs) e = ground (arith, take_line_shrinks c cs, e)

module _ (trim_space : List ℕ → List ℕ) where
  read_loop_total :
      (n : ℕ) (r : Reader) → length r.rest < n → Dict.is_some (read_loop trim_space n r).1 ≡ true
  unfolding read_loop
  read_loop_total zero r h = absurd (omega arith)
  read_loop_total (suc n) r h = elim (Scanned-cases (scan r.size r.rest)) [
    | inl (inl e) ↦ rw (read_loop, e) refl
    | inl (inr e) ↦ rw (read_loop, e) refl
    | inr (l, rest, e) ↦
        let shorter = scan_shrinks r.size r.rest e in
        let next = read_loop_total n (record r { rest = rest }) (omega arith) in
        ground (arith, e, next)
  ]

  -- A `Read` always returns: it finds a record, the end, or an error.
  pub read_total : (r : Reader) → Dict.is_some (read trim_space r).1 ≡ true
  unfolding read
  read_total r = ground (arith, read_loop_total (length r.rest + 1) r (omega arith))

-- whether the last byte is a carriage return
abbrev pub ends_in_cr : List ℕ → Bool
ends_in_cr [] = false
ends_in_cr (c ∷ []) = c == b'\r'
ends_in_cr (c ∷ d ∷ cs) = ends_in_cr (d ∷ cs)

drop_cr_lem : (cs : List ℕ) → ends_in_cr cs ≡ false → drop_cr cs ≡ cs
unfolding drop_cr
drop_cr_lem [] h = refl
drop_cr_lem (c ∷ []) h = rw h refl
drop_cr_lem (c ∷ d ∷ cs) h = ap (λ ds. c ∷ ds) (drop_cr_lem (d ∷ cs) h)

take_line-append :
    (l rest : List ℕ) → contains l b'\n' ≡ false → take_line (l ++ b'\n' ∷ rest) ≡ (l, rest)
unfolding take_line
take_line-append [] rest h = ground (arith, ==-refl {A = ℕ} b'\n')
take_line-append (c ∷ l) rest h = ground (arith, h, take_line-append l rest)

pub scan-append :
    (size : ℕ) (l rest : List ℕ)
    → contains l b'\n' ≡ false
    → scan size (l ++ b'\n' ∷ rest)
      ≡ (if leb size (length l) then Scanned.too_long else Scanned.token (drop_cr l) rest)
unfolding scan
scan-append size [] rest h = rw (take_line-append [] rest h) refl
scan-append size (c ∷ l) rest h = rw (take_line-append (c ∷ l) rest h) refl

-- the records, each with a newline behind it
abbrev pub lines : List (List ℕ) → List ℕ
lines [] = []
lines (l ∷ ls) = l ++ b'\n' ∷ lines ls

-- a number of reads, one after the other
unfoldable pub read_times : (List ℕ → List ℕ) → ℕ → Reader → List (Option Answer)
read_times trim_space zero r = []
read_times trim_space (suc n) r =
    let (r', answer) = read trim_space r in answer ∷ read_times trim_space n r'

-- A record that a reader with a buffer of some size finds again: one line that fits, is not blank, and does not
-- end in a carriage return.
pub record IsRecord (trim_space : List ℕ → List ℕ) (size : ℕ) (l : List ℕ) : Type 0 where
  pub one_line : contains l b'\n' ≡ false
  pub fits : length l < size
  pub no_cr : ends_in_cr l ≡ false
  pub not_blank : (trim_space l == []) ≡ false

module _ (trim_space : List ℕ → List ℕ) where
  read-line :
      (r : Reader) (l rest : List ℕ)
      → IsRecord trim_space r.size l
      → r.closed ≡ false
      → r.rest ≡ l ++ b'\n' ∷ rest
      → read trim_space r ≡ (record r { rest = rest }, some (Answer.line l))
  unfolding read read_loop
  read-line r l rest good ready e =
      let found : scan r.size r.rest ≡ Scanned.token l rest =
        ap (scan r.size) e
        ∙ scan-append r.size l rest good.one_line
        ∙ ground (arith, good.fits, drop_cr_lem l good.no_cr) in
      ground (arith, ready, found, good.not_blank)

  pub read_times-lines :
      (r : Reader) (ls : List (List ℕ))
      → All (IsRecord trim_space r.size) ls
      → r.closed ≡ false
      → r.failure ≡ none
      → r.rest ≡ lines ls
      → read_times trim_space (suc (length ls)) r
        ≡ map (λ l. some (Answer.line l)) ls ++ some Answer.eof ∷ []
  unfolding read_times read read_loop scan
  read_times-lines r [] good ready whole e = ground (arith, ready, whole, e)
  read_times-lines r (l ∷ ls) (good, goods) ready whole e =
      let rest : Reader = record r { rest = lines ls } in
      rw (read_times, read-line r l (lines ls) good ready e)
        (ap (λ answers. some (Answer.line l) ∷ answers)
          (read_times-lines rest ls goods ready whole refl))
