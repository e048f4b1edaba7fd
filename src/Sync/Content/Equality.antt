-- ===== src/Sync/Content/Equality.antt =====
-- The comparison of two open readers in object/sync/check.go ends, and compares their contents.
use omnistorage_core.Base.{
  ℕ, zero, suc, ◌≤◌, ◌<◌, ◌≡◌, refl, ap, true, ◌&&◌, none, some, List, [], ◌∷◌, arith, ◌==◌,
  ==-true, list_eq, nat_eq, length, take, drop, length-take, length-drop, ok, Option,
}
use omnistorage_core.Sync.Content.{read_full, verdict, compare_loop, Rest, ReadFull, ended, Error}
use omnistorage_core.Base.Dict.{is_some}

==-take-drop : (n : ℕ) (a b : List ℕ) → (a == b) ≡ (take n a == take n b && drop n a == drop n b)
==-take-drop zero a b = ground arith
==-take-drop (suc n) [] [] = ground arith
==-take-drop (suc n) [] (y ∷ b) = ground arith
==-take-drop (suc n) (x ∷ a) [] = ground arith
==-take-drop (suc n) (x ∷ a) (y ∷ b) = ground (arith, ==-take-drop n a b)

drop-nil : (n : ℕ) (a : List ℕ) → length a ≤ n → drop n a ≡ []
drop-nil zero [] h = refl
drop-nil zero (x ∷ a) h = absurd (ground arith)
drop-nil (suc n) [] h = refl
drop-nil (suc n) (x ∷ a) h = drop-nil n a (ground arith)

==-length : (a b : List ℕ) → (a == b) ≡ true → length a ≡ length b
==-length a b h = ap length (==-true a b h)

-- With as many rounds as the source has bytes, and one, the comparison of two files that are read to their
-- end says whether their contents are equal, whatever the size of the buffers.
pub compare_loop_lem :
    (fuel size : ℕ) (a b : List ℕ)
    → 0 < size
    → length a < fuel
    → compare_loop fuel size
        (record { content = a; failure = none })
        (record { content = b; failure = none })
      ≡ some (ok (a == b))
unfolding compare_loop read_full ended verdict
compare_loop_lem zero size a b h k = absurd (ground arith)
compare_loop_lem (suc fuel) size a b h k = ground (
  arith,
  ==-take-drop size a b,
  length-take size a,
  length-take size b,
  length-drop size a,
  drop-nil size a,
  drop-nil size b,
  ==-length (take size a) (take size b),
  compare_loop_lem fuel size (drop size a) (drop size b) h,
)

verdict-ended : (o : Option Error) (j : ReadFull) → is_some (verdict (ended o) j) ≡ true
unfolding verdict ended
verdict-ended none ReadFull.full = refl
verdict-ended none ReadFull.end_of_file = refl
verdict-ended none (ReadFull.failed e) = refl
verdict-ended (some d) ReadFull.full = refl
verdict-ended (some d) ReadFull.end_of_file = refl
verdict-ended (some d) (ReadFull.failed e) = refl

-- The comparison ends, whatever the readers return.
pub compare_loop_total :
    (fuel size : ℕ) (a b : Rest)
    → 0 < size
    → length a.content < fuel
    → is_some (compare_loop fuel size a b) ≡ true
unfolding compare_loop read_full
compare_loop_total zero size a b h k = absurd (ground arith)
compare_loop_total (suc fuel) size a b h k =
    let a' : Rest = record a { content = drop size a.content } in
    let b' : Rest = record b { content = drop size b.content } in
    ground (
      arith,
      length-drop size a.content,
      compare_loop_total fuel size a' b' h,
      verdict-ended a.failure (read_full size b).1,
    )
