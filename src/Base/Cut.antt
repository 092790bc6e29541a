-- ===== src/Base/Cut.antt =====
-- Lists cut by `take` and `drop` more than once, or after an append.
use Prim.Native.Nat.{ℕ, zero, suc, ◌+◌, ◌≤◌, ◌<◌}
use mathlib.Core.Path.{◌≡◌, refl, ap}
use mathlib.Core.List.{List, [], ◌∷◌, ◌++◌}
use mathlib.Core.Option.{some}
use native.Mathlib.Omega.{arith}
use nilfs_utils.Base.Lists.{length, get_elem?, set, take, drop}

module _ {ℓ} {A : Type ℓ} where
  pub take-append :
      (xs ys : List A) (i k : ℕ) → length xs ≡ i → take (i + k) (xs ++ ys) ≡ xs ++ take k ys
  take-append [] ys i k e = ap (λ t. take t ys) (let f : i + k ≡ k = omega arith in f)
  take-append (x ∷ xs) ys zero k e = absurd (omega arith)
  take-append (x ∷ xs) ys (suc i) k e =
      let f : suc i + k ≡ suc (i + k) = omega arith in
      rw f (ap (◌∷◌ x) (take-append xs ys i k (omega arith)))

  pub take-append_le : (xs ys : List A) (k : ℕ) → k ≤ length xs → take k (xs ++ ys) ≡ take k xs
  take-append_le xs ys zero h = refl
  take-append_le [] ys (suc k) h = absurd (omega arith)
  take-append_le (x ∷ xs) ys (suc k) h = ap (◌∷◌ x) (take-append_le xs ys k (omega arith))

  pub take-length : (xs : List A) (k : ℕ) → length xs ≤ k → take k xs ≡ xs
  take-length [] zero h = refl
  take-length [] (suc k) h = refl
  take-length (x ∷ xs) zero h = absurd (omega arith)
  take-length (x ∷ xs) (suc k) h = ap (◌∷◌ x) (take-length xs k (omega arith))

  pub take-take : (xs : List A) (i n : ℕ) → i ≤ n → take i (take n xs) ≡ take i xs
  take-take xs zero n h = refl
  take-take xs (suc i) zero h = absurd (omega arith)
  take-take [] (suc i) (suc n) h = refl
  take-take (x ∷ xs) (suc i) (suc n) h = ap (◌∷◌ x) (take-take xs i n (omega arith))

  pub drop-take : (xs : List A) (i n k : ℕ) → i + k ≡ n → drop i (take n xs) ≡ take k (drop i xs)
  drop-take xs zero n k e = ap (λ t. take t xs) (let f : n ≡ k = omega arith in f)
  drop-take xs (suc i) zero k e = absurd (omega arith)
  drop-take [] (suc i) (suc n) zero e = refl
  drop-take [] (suc i) (suc n) (suc k) e = refl
  drop-take (x ∷ xs) (suc i) (suc n) k e = drop-take xs i n k (omega arith)

  pub drop-append : (xs ys : List A) (i k : ℕ) → length xs ≡ i → drop (i + k) (xs ++ ys) ≡ drop k ys
  drop-append [] ys i k e = ap (λ t. drop t ys) (let f : i + k ≡ k = omega arith in f)
  drop-append (x ∷ xs) ys zero k e = absurd (omega arith)
  drop-append (x ∷ xs) ys (suc i) k e =
      let f : suc i + k ≡ suc (i + k) = omega arith in rw f (drop-append xs ys i k (omega arith))

  -- A write at an index, seen from the left, from the right, and through a second one.
  pub take-suc-set :
      (xs : List A) (n : ℕ) (x : A)
      → n < length xs
      → take (suc n) (set xs n x) ≡ take n xs ++ x ∷ []
  take-suc-set [] n x h = elim h [ ]
  take-suc-set (y ∷ ys) zero x h = refl
  take-suc-set (y ∷ ys) (suc n) x h = ap (◌∷◌ y) (take-suc-set ys n x (omega arith))

  pub take-set : (xs : List A) (n i : ℕ) (x : A) → n ≤ i → take n (set xs i x) ≡ take n xs
  take-set xs zero i x h = refl
  take-set [] (suc n) i x h = refl
  take-set (y ∷ ys) (suc n) zero x h = absurd (omega arith)
  take-set (y ∷ ys) (suc n) (suc i) x h = ap (◌∷◌ y) (take-set ys n i x (omega arith))

  pub drop-set : (xs : List A) (n i : ℕ) (x : A) → i < n → drop n (set xs i x) ≡ drop n xs
  drop-set xs zero i x h = absurd (omega arith)
  drop-set [] (suc n) i x h = refl
  drop-set (y ∷ ys) (suc n) zero x h = refl
  drop-set (y ∷ ys) (suc n) (suc i) x h = drop-set ys n i x (omega arith)

  pub set-set : (xs : List A) (i : ℕ) (x y : A) → set (set xs i x) i y ≡ set xs i y
  set-set [] i x y = refl
  set-set (z ∷ zs) zero x y = refl
  set-set (z ∷ zs) (suc i) x y = ap (◌∷◌ z) (set-set zs i x y)

  pub set-get_elem? : (xs : List A) (i : ℕ) (x : A) → get_elem? xs i ≡ some x → set xs i x ≡ xs
  set-get_elem? [] i x e = refl
  set-get_elem? (y ∷ ys) zero x e = let f : x ≡ y = cc e in rw f refl
  set-get_elem? (y ∷ ys) (suc i) x e = ap (◌∷◌ y) (set-get_elem? ys i x e)

  pub drop_step :
      (xs : List A) (j : ℕ) (x : A) → get_elem? xs j ≡ some x → drop j xs ≡ x ∷ drop (j + 1) xs
  drop_step [] j x e = absurd (cc e)
  drop_step (y ∷ ys) zero x e = let f : y ≡ x = cc e in rw f refl
  drop_step (y ∷ ys) (suc j) x e =
      let f : suc j + 1 ≡ suc (j + 1) = omega arith in rw f (drop_step ys j x e)

  pub drop_end : (xs : List A) (n : ℕ) → length xs ≤ n → drop n xs ≡ []
  drop_end [] zero h = refl
  drop_end [] (suc n) h = refl
  drop_end (x ∷ xs) zero h = absurd (omega arith)
  drop_end (x ∷ xs) (suc n) h = drop_end xs n (omega arith)

  pub drop-drop : (xs : List A) (i k : ℕ) → drop k (drop i xs) ≡ drop (i + k) xs
  drop-drop xs zero k = ap (λ t. drop t xs) (let f : k ≡ zero + k = omega arith in f)
  drop-drop [] (suc i) zero = let f : suc i + zero ≡ suc i = omega arith in rw f refl
  drop-drop [] (suc i) (suc k) = let f : suc i + suc k ≡ suc (i + suc k) = omega arith in rw f refl
  drop-drop (x ∷ xs) (suc i) k =
      let f : suc i + k ≡ suc (i + k) = omega arith in rw f (drop-drop xs i k)

  pub take-append-drop : (xs : List A) (n : ℕ) → take n xs ++ drop n xs ≡ xs
  take-append-drop xs zero = refl
  take-append-drop [] (suc n) = refl
  take-append-drop (x ∷ xs) (suc n) = ap (◌∷◌ x) (take-append-drop xs n)
