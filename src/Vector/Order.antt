-- ===== src/Vector/Order.antt =====
-- nilfs_vector_sort: only the elements in use are sorted.
use nilfs_utils.Base.{
  ℕ, ◌≡◌, ◌∙◌, List, arith, length, drop, length-append, length-take, length-drop,
}
use nilfs_utils.Base.Cut.{take-append_le, take-length}
use nilfs_utils.Base.Sort.{IsSort, length-perm}
use nilfs_utils.Vector.{Vector, IsVector, contents, sort_elements}

module _ {ℓ} {A : Type ℓ} {key : A → ℕ} (qsort : List A → List A) (sorts : IsSort key qsort)
    (v : Vector A) (valid : IsVector v) where
  length-sorted : length (qsort (contents v)) ≡ v.v_nelems
  length-sorted = omega (
    arith,
    length-perm (sorts.permutes (contents v)),
    length-take v.v_nelems v.v_data,
    valid.sized,
    valid.within,
  )

  pub contents-sort_elements : contents (sort_elements qsort v) ≡ qsort (contents v)
  unfolding sort_elements
  contents-sort_elements =
      take-append_le (qsort (contents v)) (drop v.v_nelems v.v_data) v.v_nelems
        (omega (arith, length-sorted))
      ∙ take-length (qsort (contents v)) v.v_nelems (omega (arith, length-sorted))

  pub sort_elements-IsVector : IsVector (sort_elements qsort v)
  unfolding sort_elements
  sort_elements-IsVector = record {
    sized = omega (
      arith,
      length-append (qsort (contents v)) (drop v.v_nelems v.v_data),
      length-sorted,
      length-drop v.v_nelems v.v_data,
      valid.sized,
      valid.within,
    );
    within = valid.within;
    roomy = valid.roomy;
    elem = valid.elem;
    bytes = valid.bytes;
  }
