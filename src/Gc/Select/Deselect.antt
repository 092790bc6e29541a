-- ===== src/Gc/Select/Deselect.antt =====
-- nilfs_deselect_segment takes one segment out of the selected ones.
use nilfs_utils.Base.{
  ℕ, suc, ◌+◌, ◌-◌, ◌≡◌, refl, ap, subst, ◌∙◌, List, [], ◌∷◌, ◌++◌, ltb, leb, ◌==◌, ◌||◌, true,
  false, arith, ok, length, take, drop, set, get_elem?, some,
}
use nilfs_utils.Base.Cut.{drop-append}
use nilfs_utils.Vector.Edit.{memmove_ok}
use nilfs_utils.Gc.Select.{deselect_segment}

pub get_elem?-middle : (xs ys : List ℕ) (y : ℕ) → get_elem? (xs ++ y ∷ ys) (length xs) ≡ some y
get_elem?-middle [] ys y = refl
get_elem?-middle (x ∷ xs) ys y = get_elem?-middle xs ys y

set-append : (xs ys : List ℕ) (i v : ℕ) → set (xs ++ ys) (length xs + i) v ≡ xs ++ set ys i v
set-append [] ys i v = let e : 0 + i ≡ i = omega arith in rw e refl
set-append (x ∷ xs) ys i v =
    let e : suc (length xs) + i ≡ suc (length xs + i) = omega arith in
    rw e (ap (◌∷◌ x) (set-append xs ys i v))

pub length-append : (xs ys : List ℕ) → length (xs ++ ys) ≡ length xs + length ys
length-append [] ys = omega arith
length-append (x ∷ xs) ys = omega (arith, length-append xs ys)

take-whole : (xs ys : List ℕ) → take (length xs) (xs ++ ys) ≡ xs
take-whole [] ys = refl
take-whole (x ∷ xs) ys = ap (◌∷◌ x) (take-whole xs ys)

drop-whole : (xs ys : List ℕ) → drop (length xs) (xs ++ ys) ≡ ys
drop-whole [] ys = refl
drop-whole (x ∷ xs) ys = drop-whole xs ys

-- The element in front of what follows.
last_kept : (t : ℕ) (xs ys : List ℕ) → (z : ℕ) × (drop (length xs) (t ∷ (xs ++ ys)) ≡ z ∷ ys)
last_kept t [] ys = (t, refl)
last_kept t (x ∷ xs) ys = last_kept x xs ys

-- The memory after the move and the store.
moved :
    (before after rest : List ℕ) (t : ℕ)
    → set
        (take (length before) (before ++ t ∷ (after ++ rest))
          ++ (take (length after) (drop (length before + 1) (before ++ t ∷ (after ++ rest)))
              ++ drop (length before + length after) (before ++ t ∷ (after ++ rest))))
        (length before + length after)
        t
      ≡ before ++ (after ++ t ∷ rest)
moved before after rest t =
    let (z, kept) = last_kept t after rest in
    let tail_ : drop (length before + 1) (before ++ t ∷ (after ++ rest)) ≡ after ++ rest =
      drop-append before (t ∷ (after ++ rest)) (length before) 1 refl in
    let end : drop (length before + length after) (before ++ t ∷ (after ++ rest)) ≡ z ∷ rest =
      drop-append before (t ∷ (after ++ rest)) (length before) (length after) refl ∙ kept in
    let same : set (after ++ z ∷ rest) (length after + 0) t ≡ after ++ t ∷ rest =
      set-append after (z ∷ rest) 0 t in
    let sum : length after + 0 ≡ length after = omega arith in
    rw (take-whole before (t ∷ (after ++ rest)), tail_, take-whole after rest, end)
      (set-append before (after ++ z ∷ rest) (length after) t
        ∙ ap (before ++◌) (subst (λ k. set (after ++ z ∷ rest) k t ≡ after ++ t ∷ rest) sum same))

-- Deselecting the segment `t` moves it behind the segments selected after it, which move up in
-- order; the others stay, and one segment less is selected.
pub deselect_segment_lem :
    (before after rest : List ℕ) (t : ℕ)
    → deselect_segment
        (before ++ t ∷ (after ++ rest))
        (length before + suc (length after))
        (length before)
      ≡ ok (before ++ (after ++ t ∷ rest), length before + length after)
unfolding deselect_segment
deselect_segment_lem before [] rest t =
    let inside : (leb (length before + 1) (length before) || length before + 1 == 0) ≡ false =
      ground arith in
    let less : length before + 1 - 1 ≡ length before = omega arith in
    let none_left : ltb (length before) (length before) ≡ false = ground arith in
    let sum : length before + 0 ≡ length before = omega arith in
    rw (inside, less, none_left, sum) refl
deselect_segment_lem before (a ∷ after) rest t =
    let k = suc (length after) in
    let xs = before ++ t ∷ (a ∷ after ++ rest) in
    let inside : (leb (length before + suc k) (length before) || length before + suc k == 0)
        ≡ false =
      ground arith in
    let less : length before + suc k - 1 ≡ length before + k = omega arith in
    let some_left : ltb (length before) (length before + k) ≡ true = ground arith in
    let count : length before + k - length before ≡ k = omega arith in
    let size : length xs ≡ length before + suc (k + length rest) =
      omega (arith, length-append before (t ∷ (a ∷ after ++ rest)), length-append after rest) in
    rw
      (
        inside,
        less,
        some_left,
        count,
        get_elem?-middle before (a ∷ after ++ rest) t,
        memmove_ok xs (length before) (length before + 1) k (omega (arith, size))
            (omega (arith, size)),
      )
      (ap (λ m. ok (m, length before + k)) (moved before (a ∷ after) rest t))
