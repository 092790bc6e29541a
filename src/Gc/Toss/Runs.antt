-- ===== src/Gc/Toss/Runs.antt =====
-- Runs of dead elements: the list that is left when each run before a live element is cut out.
use nilfs_utils.Base.{
  ℕ, suc, ◌+◌, ◌-◌, ◌≤◌, ◌≡◌, refl, ap, sym, ◌∙◌, inl, inr, Bool, not, List, [], ◌∷◌, ◌++◌, arith,
  ltb, if◌then◌else◌, Bool-cases, ltb→lt, ltb→le, ok, length, length-take, take, drop,
}
use mathlib.Core.List.{append_assoc}
use nilfs_utils.Base.Cut.{take-append-drop, take-append, drop-append, drop-drop}
use nilfs_utils.Vector.{Vector, IsVector, contents, or_unchanged}
use nilfs_utils.Vector.Edit.{delete_elements-IsDeleted}
use nilfs_utils.Gc.Toss.{delete_run}

-- What a deletion of the elements i .. j - 1 leaves.
pub record IsCut {ℓ} {A : Type ℓ} (v : Vector A) (i j : ℕ) (w : Vector A) : Type ℓ where
  pub valid : IsVector w
  pub left : contents w ≡ take i (contents v) ++ drop j (contents v)
  pub fewer : w.v_nelems + (j - i) ≡ v.v_nelems

module _ {ℓ} {A : Type ℓ} where
  pub delete_run-IsCut :
      (v : Vector A) (i j : ℕ)
      → IsVector v
      → i ≤ j
      → j ≤ v.v_nelems
      → (w : Vector A) × (delete_run v i j ≡ ok w) × IsCut v i j w
  unfolding delete_run or_unchanged
  delete_run-IsCut v i j valid order inside = elim (Bool-cases (ltb i j)) [
    | inl some_in ↦
        let (w, ran, cut) =
          delete_elements-IsDeleted v i (j - i) valid (omega (arith, ltb→lt i j some_in))
            (omega arith) in
        let e : i + (j - i) ≡ j = omega arith in
        (
          w,
          rw some_in (ap (or_unchanged v) ran),
          record {
            valid = cut.valid;
            left = cut.removed ∙ ap (λ m. take i (contents v) ++ drop m (contents v)) e;
            fewer = cut.fewer;
          },
        )
    | inr none_in ↦
        let e : i ≡ j = omega (arith, ltb→le i j none_in) in
        (
          v,
          rw none_in refl,
          record {
            valid = valid;
            left =
                sym (take-append-drop (contents v) i)
                ∙ ap (λ m. take i (contents v) ++ drop m (contents v)) e;
            fewer = omega arith;
          },
        )
  ]

  -- The elements that pass a test.
  unfoldable pub keep_if : (A → Bool) → List A → List A
  keep_if test [] = []
  keep_if test (x ∷ xs) = if test x then x ∷ keep_if test xs else keep_if test xs

  -- How many elements at the front fail the test.
  unfoldable pub run : (A → Bool) → List A → ℕ
  run test [] = 0
  run test (x ∷ xs) = if test x then 0 else suc (run test xs)

  pub run-le : (test : A → Bool) (xs : List A) → run test xs ≤ length xs
  unfolding run
  run-le test [] = omega arith
  run-le test (x ∷ xs) = ground (arith, run-le test xs)

  -- The run is dropped, and the element behind it, if there is one, is kept.
  pub keep_if-run :
      (test : A → Bool) (xs : List A)
      → keep_if test xs
        ≡ take 1 (drop (run test xs) xs) ++ keep_if test (drop 1 (drop (run test xs) xs))
  unfolding keep_if run
  keep_if-run test [] = refl
  keep_if-run test (x ∷ xs) = elim (Bool-cases (test x)) [
    | inl live ↦ rw live refl
    | inr dead ↦ rw dead (keep_if-run test xs)
  ]

  -- What fails the test is the run, and what fails behind it.
  pub keep_if-not-run :
      (test : A → Bool) (xs : List A)
      → keep_if (λ x. not (test x)) xs
        ≡ take (run test xs) xs ++ keep_if (λ x. not (test x)) (drop 1 (drop (run test xs) xs))
  unfolding keep_if run
  keep_if-not-run test [] = refl
  keep_if-not-run test (x ∷ xs) = elim (Bool-cases (test x)) [
    | inl live ↦ rw live refl
    | inr dead ↦ rw dead (ap (◌∷◌ x) (keep_if-not-run test xs))
  ]

  -- One round of the outer loop, on the list: from `i` to `i + 1` after the run at `i` is cut out.
  abbrev pub cut_run : (A → Bool) → List A → ℕ → List A
  cut_run test xs i = take i xs ++ drop (i + run test (drop i xs)) xs

  behind_cut :
      (test : A → Bool) (xs : List A) (i : ℕ)
      → i ≤ length xs
      → drop (i + 1) (cut_run test xs i) ≡ drop 1 (drop (run test (drop i xs)) (drop i xs))
  behind_cut test xs i inside =
      rw
        (
          drop-append (take i xs) (drop (i + run test (drop i xs)) xs) i 1
              (omega (arith, length-take i xs)),
          drop-drop xs i (run test (drop i xs)),
        )
        refl

  pub kept_round :
      (test : A → Bool) (xs : List A) (i : ℕ)
      → i ≤ length xs
      → take (i + 1) (cut_run test xs i) ++ keep_if test (drop (i + 1) (cut_run test xs i))
        ≡ take i xs ++ keep_if test (drop i xs)
  kept_round test xs i inside =
      let k = run test (drop i xs) in
      rw
        (
          behind_cut test xs i inside,
          take-append (take i xs) (drop (i + k) xs) i 1 (omega (arith, length-take i xs)),
          ← drop-drop xs i k,
        )
        (append_assoc (take i xs) (take 1 (drop k (drop i xs))) _
          ∙ ap (◌++◌ (take i xs)) (sym (keep_if-run test (drop i xs))))

  pub dead_round :
      (test : A → Bool) (xs : List A) (i : ℕ)
      → i ≤ length xs
      → take (run test (drop i xs)) (drop i xs)
          ++ keep_if (λ x. not (test x)) (drop (i + 1) (cut_run test xs i))
        ≡ keep_if (λ x. not (test x)) (drop i xs)
  dead_round test xs i inside =
      rw (behind_cut test xs i inside) (sym (keep_if-not-run test (drop i xs)))
