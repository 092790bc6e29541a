-- ===== src/Tests/Sorting.antt =====
-- An insertion sort, which meets what is assumed of `qsort`.
use mathlib.Core.List.{Perm}
use mathlib.Core.List.Perm
use nilfs_utils.Base.{
  ℕ, ◌≤◌, inl, inr, Bool-cases, ltb→lt, ltb→le, List, [], ◌∷◌, arith, ltb, if◌then◌else◌, All,
}
use nilfs_utils.Base.Sort.{IsSortedBy, IsSort}

module _ {A : Type 0} (key : A → ℕ) where
  put_in : A → List A → List A
  put_in x [] = x ∷ []
  put_in x (y ∷ ys) = if ltb (key y) (key x) then y ∷ put_in x ys else x ∷ y ∷ ys

  unfoldable pub insertion_sort : List A → List A
  unfolding put_in
  insertion_sort [] = []
  insertion_sort (x ∷ xs) = put_in x (insertion_sort xs)

  put_in-perm : (x : A) (xs : List A) → Perm (put_in x xs) (x ∷ xs)
  unfolding put_in
  put_in-perm x [] = Perm.refl (x ∷ [])
  put_in-perm x (y ∷ ys) = elim (Bool-cases (ltb (key y) (key x))) [
    | inl later ↦ rw later (Perm.trans (Perm.cons y (put_in-perm x ys)) (Perm.swap x y ys))
    | inr here ↦ rw here (Perm.refl (x ∷ y ∷ ys))
  ]

  put_in-All :
      (m : ℕ) (x : A) (xs : List A)
      → m ≤ key x
      → All (λ y. m ≤ key y) xs
      → All (λ y. m ≤ key y) (put_in x xs)
  unfolding put_in
  put_in-All m x [] h a = (h, tt)
  put_in-All m x (y ∷ ys) h (b, a) = elim (Bool-cases (ltb (key y) (key x))) [
    | inl later ↦ rw later (b, put_in-All m x ys h a)
    | inr here ↦ rw here (h, (b, a))
  ]

  All-le : (m n : ℕ) (xs : List A) → m ≤ n → All (λ y. n ≤ key y) xs → All (λ y. m ≤ key y) xs
  All-le m n [] h a = tt
  All-le m n (x ∷ xs) h (b, a) = (omega arith, All-le m n xs h a)

  put_in-sorted : (x : A) (xs : List A) → IsSortedBy key xs → IsSortedBy key (put_in x xs)
  unfolding put_in
  put_in-sorted x [] s = (tt, tt)
  put_in-sorted x (y ∷ ys) (a, s) = elim (Bool-cases (ltb (key y) (key x))) [
    | inl later ↦
        rw later (put_in-All (key y) x ys (omega (arith, ltb→lt _ _ later)) a, put_in-sorted x ys s)
    | inr here ↦
        let le : key x ≤ key y = ltb→le _ _ here in
        rw here ((le, All-le (key x) (key y) ys le a), (a, s))
  ]

  insertion_sort-perm : (xs : List A) → Perm (insertion_sort xs) xs
  unfolding insertion_sort
  insertion_sort-perm [] = Perm.refl []
  insertion_sort-perm (x ∷ xs) =
      Perm.trans (put_in-perm x (insertion_sort xs)) (Perm.cons x (insertion_sort-perm xs))

  insertion_sort-sorted : (xs : List A) → IsSortedBy key (insertion_sort xs)
  unfolding insertion_sort
  insertion_sort-sorted [] = tt
  insertion_sort-sorted (x ∷ xs) = put_in-sorted x (insertion_sort xs) (insertion_sort-sorted xs)

  pub insertion_sort-IsSort : IsSort key insertion_sort
  insertion_sort-IsSort = record { permutes = insertion_sort-perm; orders = insertion_sort-sorted }
