-- ===== src/Vector/Edit/Wrap.antt =====
-- nilfs_vector_delete_elements with a count that makes `index + nelems` wrap: the range check of
-- lib/vector.c lets it through.
use nilfs_utils.Base.{
  ℕ, ◌+◌, ◌-◌, ◌^◌, ◌≤◌, ◌<◌, ◌≡◌, refl, arith, ltb, leb, true, false, ok, take, drop, ◌++◌, u64,
  sub64, size_max,
}
use nilfs_utils.Vector.{Vector, IsVector, delete_elements}
use nilfs_utils.Vector.Edit.{memmove_ok}
use nilfs_utils.Vector.Laws.{maxelems-le}

module _ {ℓ} {A : Type ℓ} where
  -- A request to delete 2^64 - d elements from index i on, with 0 < d < i, and d free slots, is
  -- accepted, and leaves the vector with d elements more than before.
  pub delete_elements_wraps :
      (v : Vector A) (i d : ℕ)
      → IsVector v
      → 0 < d
      → d < i
      → i < v.v_nelems
      → v.v_nelems + d ≤ v.v_maxelems
      → (w : Vector A) × (delete_elements v i (2 ^ 64 - d) ≡ ok w) × (w.v_nelems ≡ v.v_nelems + d)
  unfolding delete_elements
  delete_elements_wraps v i d valid pos below inside room =
      let small : v.v_maxelems ≤ size_max = maxelems-le v valid in
      let t = i - d in
      let k = v.v_nelems - t in
      let last : sub64 (i + (2 ^ 64 - d)) 1 ≡ t - 1 = omega arith in
      let stop : u64 (i + (2 ^ 64 - d)) ≡ t = omega arith in
      let top : sub64 v.v_nelems 1 ≡ v.v_nelems - 1 = omega arith in
      let rest : sub64 v.v_nelems t ≡ k = omega arith in
      let left : sub64 v.v_nelems (2 ^ 64 - d) ≡ v.v_nelems + d = omega arith in
      let in_range : leb v.v_nelems i ≡ false = ground arith in
      let in_range' : leb v.v_nelems (t - 1) ≡ false = ground arith in
      let move : ltb (t - 1) (v.v_nelems - 1) ≡ true = ground arith in
      (
        record v {
          v_data = take i v.v_data ++ (take k (drop t v.v_data) ++ drop (i + k) v.v_data);
          v_nelems = v.v_nelems + d;
        },
        rw
            (
              last,
              stop,
              top,
              rest,
              left,
              in_range,
              in_range',
              move,
              memmove_ok v.v_data i t k (omega (arith, valid.sized)) (omega (arith, valid.sized)),
            )
            refl,
        refl,
      )
