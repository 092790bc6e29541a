-- ===== src/Vector/Edit.antt =====
-- Deleting and inserting elements (nilfs_vector_delete_elements, nilfs_vector_insert_elements).
pub mod Insert
pub mod Wrap
use mathlib.Core.List.{append-nil}
use nilfs_utils.Base.{
  ℕ, zero, suc, ◌+◌, ◌-◌, ◌*◌, ◌≤◌, ◌<◌, ◌^◌, ◌≡◌, refl, ap, ◌∙◌, sym, ◌⊎◌, inl, inr, Bool, not,
  true, false, Option, none, some, List, [], ◌∷◌, ◌++◌, ◌||◌, arith, ltb, leb, if◌then◌else◌,
  Bool-cases, ltb→lt, ltb→le, Result, ok, err, einval, eoverflow, enomem, ◌>>=◌, length, get_elem?,
  set, take, drop, u64, sub64, size_max, length-set, length-take, length-drop, length-append,
}
use nilfs_utils.Base.Cut.{take-append, take-append_le, take-take, drop-take, take-length}
use nilfs_utils.Vector.{Vector, IsVector, contents, memmove, delete_elements, insert_elements}
use nilfs_utils.Vector.Laws.{maxelems-le}

module _ {ℓ} {A : Type ℓ} where
  pub length-memmove :
      (xs : List A) (dst src n : ℕ)
      → src + n ≤ length xs
      → dst + n ≤ length xs
      → length (take dst xs ++ (take n (drop src xs) ++ drop (dst + n) xs)) ≡ length xs
  length-memmove xs dst src n a b = omega (
    arith,
    length-append (take dst xs) (take n (drop src xs) ++ drop (dst + n) xs),
    length-append (take n (drop src xs)) (drop (dst + n) xs),
    length-take dst xs,
    length-take n (drop src xs),
    length-drop src xs,
    length-drop (dst + n) xs,
  )

  -- The slots that a deletion keeps.
  deleted_slots :
      (xs : List A) (i n k m : ℕ)
      → i + n + k ≡ m
      → m ≤ length xs
      → take (i + k) (take i xs ++ (take k (drop (i + n) xs) ++ drop (i + k) xs))
        ≡ take i (take m xs) ++ drop (i + n) (take m xs)
  deleted_slots xs i n k m e fits =
      rw
        (
          take-append (take i xs) (take k (drop (i + n) xs) ++ drop (i + k) xs) i k
              (omega (arith, length-take i xs)),
          take-append_le (take k (drop (i + n) xs)) (drop (i + k) xs) k
              (omega (arith, length-take k (drop (i + n) xs), length-drop (i + n) xs)),
          take-take xs i m (omega arith),
          drop-take xs (i + n) m k e,
          take-take (drop (i + n) xs) k k (omega arith),
        )
        refl

  kept_slots :
      (xs : List A) (i n m : ℕ)
      → i + n ≡ m
      → take i xs ≡ take i (take m xs) ++ drop (i + n) (take m xs)
  kept_slots xs i n m e =
      rw (drop-take xs (i + n) m 0 (omega arith), take-take xs i m (omega arith))
        (sym (append-nil (take i xs)))

  pub memmove_ok :
      (xs : List A) (dst src n : ℕ)
      → src + n ≤ length xs
      → dst + n ≤ length xs
      → memmove xs dst src n ≡ ok (take dst xs ++ (take n (drop src xs) ++ drop (dst + n) xs))
  unfolding memmove
  memmove_ok xs dst src n a b = ground arith

-- `w` is `v` without the `n` elements from `i` on.
pub record IsDeleted {ℓ} {A : Type ℓ} (v : Vector A) (i n : ℕ) (w : Vector A) : Type ℓ where
  pub valid : IsVector w
  pub removed : contents w ≡ take i (contents v) ++ drop (i + n) (contents v)
  pub fewer : w.v_nelems + n ≡ v.v_nelems

module _ {ℓ} {A : Type ℓ} where
  -- With sizes in range no word wraps.
  delete_elements_exact :
      (v : Vector A) (i n : ℕ)
      → v.v_nelems ≤ size_max
      → 0 < n
      → i + n ≤ v.v_nelems
      → delete_elements v i n ≡ (
          (if ltb (i + n) v.v_nelems
            then memmove v.v_data i (i + n) (v.v_nelems - (i + n))
            else ok v.v_data)
          >>= λ d. ok (record v { v_data = d; v_nelems = v.v_nelems - n }))
  unfolding delete_elements
  delete_elements_exact v i n small pos fits =
      let last : sub64 (i + n) 1 ≡ i + n - 1 = omega arith in
      let stop : u64 (i + n) ≡ i + n = omega arith in
      let top : sub64 v.v_nelems 1 ≡ v.v_nelems - 1 = omega arith in
      let tail_ : sub64 v.v_nelems (i + n) ≡ v.v_nelems - (i + n) = omega arith in
      let left : sub64 v.v_nelems n ≡ v.v_nelems - n = omega arith in
      let inside : leb v.v_nelems i ≡ false = ground arith in
      let inside' : leb v.v_nelems (i + n - 1) ≡ false = ground arith in
      let same : ltb (i + n - 1) (v.v_nelems - 1) ≡ ltb (i + n) v.v_nelems = ground arith in
      rw (last, stop, top, tail_, left, inside, inside', same) refl

  -- Deleting a run of at least one element that lies inside a well-formed vector succeeds: the rest
  -- moves down in order, and the vector stays well-formed.
  pub delete_elements-IsDeleted :
      (v : Vector A) (i n : ℕ)
      → IsVector v
      → 0 < n
      → i + n ≤ v.v_nelems
      → (w : Vector A) × (delete_elements v i n ≡ ok w) × IsDeleted v i n w
  delete_elements-IsDeleted v i n valid pos fits =
      let small : v.v_nelems ≤ size_max = omega (arith, maxelems-le v valid, valid.within) in
      let k = v.v_nelems - (i + n) in
      let e : i + n + k ≡ v.v_nelems = omega arith in
      let e' : v.v_nelems - n ≡ i + k = omega arith in
      rw (delete_elements_exact v i n small pos fits) (elim (Bool-cases (ltb (i + n) v.v_nelems)) [
        | inl more ↦ (
          record v {
            v_data = take i v.v_data ++ (take k (drop (i + n) v.v_data) ++ drop (i + k) v.v_data);
            v_nelems = v.v_nelems - n;
          },
          rw
              (
                more,
                memmove_ok v.v_data i (i + n) k (omega (arith, valid.sized, valid.within))
                    (omega (arith, valid.sized, valid.within)),
              )
              refl,
          record {
            valid = record {
              sized =
                  length-memmove v.v_data i (i + n) k (omega (arith, valid.sized, valid.within))
                    (omega (arith, valid.sized, valid.within))
                  ∙ valid.sized;
              within = omega (arith, valid.within);
              roomy = valid.roomy;
              elem = valid.elem;
              bytes = valid.bytes;
            };
            removed = rw e' (
                deleted_slots v.v_data i n k v.v_nelems e
                  (omega (arith, valid.sized, valid.within)));
            fewer = omega arith;
          },
        )
        | inr none_left ↦ (
          record v { v_nelems = v.v_nelems - n },
          rw none_left,
          record {
            valid = record {
              sized = valid.sized;
              within = omega (arith, valid.within);
              roomy = valid.roomy;
              elem = valid.elem;
              bytes = valid.bytes;
            };
            removed =
                let f : v.v_nelems - n ≡ i = ground arith in
                rw f (kept_slots v.v_data i n v.v_nelems (ground arith));
            fewer = omega arith;
          },
        )
      ])
