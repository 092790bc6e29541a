-- ===== src/Tests/Vectors.antt =====
-- The vector at small arrays.
use nilfs_utils.Base.{
  ℕ, ◌-◌, ◌^◌, ◌≡◌, refl, Bool, true, [], ◌∷◌, ◌⊎◌, arith, ok, err, einval, enomem,
}
use nilfs_utils.Vector.{
  Vector, IsVector, contents, enlarge_loop, create, enlarge, push, delete_elements, insert_elements,
  get_new_element, put_element,
}
use nilfs_utils.Vector.Enlarge.{Answers, IsEnlarged, enlarge-IsEnlarged}
use nilfs_utils.Vector.Laws.{IsPushed, push-IsPushed, create-IsVector}
use nilfs_utils.Vector.Edit.{IsDeleted, delete_elements-IsDeleted}
use nilfs_utils.Vector.Edit.Insert.{IsInserted, insert_elements-IsInserted}
use nilfs_utils.Vector.Edit.Wrap.{delete_elements_wraps}

-- An allocator that never fails.
abbrev always : ℕ → Bool
always n = true

abbrev three : Vector ℕ
three = record { v_data = 5 ∷ 6 ∷ 7 ∷ []; v_elemsize = 8; v_nelems = 3; v_maxelems = 3 }

three-IsVector : IsVector three
three-IsVector = record {
  sized = refl;
  within = omega arith;
  roomy = omega arith;
  elem = omega arith;
  bytes = omega arith;
}

abbrev loose : Vector ℕ
loose = record { v_data = 5 ∷ 6 ∷ 7 ∷ 0 ∷ []; v_elemsize = 8; v_nelems = 3; v_maxelems = 4 }

loose-IsVector : IsVector loose
loose-IsVector = record {
  sized = refl;
  within = omega arith;
  roomy = omega arith;
  elem = omega arith;
  bytes = omega arith;
}

push_grows :
    push always 0 three 9
    ≡ ok (record {
      v_data = 5 ∷ 6 ∷ 7 ∷ 9 ∷ 0 ∷ 0 ∷ [];
      v_elemsize = 8;
      v_nelems = 4;
      v_maxelems = 6;
    })
unfolding push get_new_element put_element enlarge enlarge_loop
push_grows = refl

delete_first :
    delete_elements three 0 1
    ≡ ok (record { v_data = 6 ∷ 7 ∷ 7 ∷ []; v_elemsize = 8; v_nelems = 2; v_maxelems = 3 })
unfolding delete_elements
delete_first = refl

delete_nothing : delete_elements three 0 0 ≡ err einval
unfolding delete_elements
delete_nothing = refl

enlarge-IsEnlarged_example : Answers (IsEnlarged three 4) (enlarge always 0 three 4)
enlarge-IsEnlarged_example = enlarge-IsEnlarged always 0 three 4 three-IsVector

create-IsVector_example :
    (create {A = ℕ} always 0 24 ≡ err enomem)
    ⊎ ((v : Vector ℕ) × (create {A = ℕ} always 0 24 ≡ ok v)
        × IsVector v
        × (contents v ≡ [])
        × (v.v_elemsize ≡ 24))
create-IsVector_example = create-IsVector always 0 24 (omega arith) (omega arith)

push-IsPushed_example : Answers (IsPushed three 9) (push always 0 three 9)
push-IsPushed_example = push-IsPushed always 0 three 9 three-IsVector

delete_elements-IsDeleted_example :
    (w : Vector ℕ) × (delete_elements three 0 2 ≡ ok w) × IsDeleted three 0 2 w
delete_elements-IsDeleted_example =
    delete_elements-IsDeleted three 0 2 three-IsVector (omega arith) (omega arith)

insert_elements-IsInserted_example :
    Answers (IsInserted three 1 2) (insert_elements always 0 three 1 2)
insert_elements-IsInserted_example =
    insert_elements-IsInserted always 0 three 1 2 three-IsVector (omega arith) (omega arith)

delete_elements_wraps_example :
    (w : Vector ℕ) × (delete_elements loose 2 (2 ^ 64 - 1) ≡ ok w) × (w.v_nelems ≡ 4)
delete_elements_wraps_example =
    delete_elements_wraps loose 2 1 loose-IsVector (omega arith) (omega arith) (omega arith)
      (omega arith)
