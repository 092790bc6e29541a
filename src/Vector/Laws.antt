-- ===== src/Vector/Laws.antt =====
-- What the vector of lib/vector.c shows its clients: a new vector is empty, an element is read by
-- its index, and a push appends.
use nilfs_utils.Base.{
  ℕ, ◌+◌, ◌*◌, ◌≤◌, ◌<◌, ◌≡◌, refl, ◌⊎◌, inl, inr, Bool, false, [], ◌∷◌, ◌++◌, arith, ◌==◌, ◌∙◌,
  length-take, leb, Bool-cases, ok, err, enomem, length, get_elem?, set, take, u64, size_max,
  length-set, length-take, length-replicate, replicate,
}
use native.Mathlib.Nat.{mul-div_right}
use native.Mathlib.Numerals.{add-one}
use nilfs_utils.Base.Cut.{take-suc-set}
use nilfs_utils.Base.Index.{get_elem?_ext, get_elem?-take, get_elem?-set}
use nilfs_utils.Vector.{
  Vector, IsVector, contents, init_maxelems, sizeof_vector, get_element, put_element,
  get_new_element, create, push,
}
use nilfs_utils.Vector.Enlarge.{Answers, enlarge-IsEnlarged}

module _ {ℓ} {A : Type ℓ} where
  pub maxelems-le : (v : Vector A) → IsVector v → v.v_maxelems ≤ size_max
  maxelems-le v valid = grind (arith, valid.bytes, valid.elem)

  -- nilfs_vector_get_element reads the elements, and gives NULL past the last.
  pub get_element-contents : (v : Vector A) (i : ℕ) → get_element v i ≡ get_elem? (contents v) i
  unfolding get_element
  get_element-contents v i = ground (arith, get_elem?-take v.v_nelems v.v_data i)

  -- A store at an index in use writes that element.
  pub put_element-contents :
      (v : Vector A) (i : ℕ) (x : A)
      → IsVector v
      → i < v.v_nelems
      → contents (put_element v i x) ≡ set (contents v) i x
  unfolding put_element
  put_element-contents v i x valid h = get_elem?_ext _ _ λ j. ground (
    arith,
    get_elem?-take v.v_nelems (set v.v_data i x) j,
    get_elem?-set v.v_data i x j,
    get_elem?-set (take v.v_nelems v.v_data) i x j,
    get_elem?-take v.v_nelems v.v_data j,
    length-take v.v_nelems v.v_data,
  )

  pub put_element-IsVector :
      (v : Vector A) (i : ℕ) (x : A) → IsVector v → IsVector (put_element v i x)
  unfolding put_element
  put_element-IsVector v i x valid = ground (arith, length-set v.v_data i x)

pub length-contents {ℓ} :
    {A : Type ℓ} (v : Vector A) → IsVector v → length (contents v) ≡ v.v_nelems
length-contents v valid = omega (arith, length-take v.v_nelems v.v_data, valid.sized, valid.within)

-- `w` is `v` with `x` behind its elements.
pub record IsPushed {ℓ} {A : Type ℓ} (v : Vector A) (x : A) (w : Vector A) : Type ℓ where
  pub valid : IsVector w
  pub appended : contents w ≡ contents v ++ x ∷ []
  pub one_more : w.v_nelems ≡ v.v_nelems + 1

module _ {ℓ} {A : Type ℓ} (alloc : ℕ → Bool) (junk : A) where
  -- For an element size above 0 whose 256 elements fit a size_t, nilfs_vector_create either reports
  -- ENOMEM or gives a well-formed vector with no elements and that element size.
  pub create-IsVector :
      (elemsize : ℕ)
      → 0 < elemsize
      → elemsize * init_maxelems ≤ size_max
      → (create alloc junk elemsize ≡ err enomem)
        ⊎ ((v : Vector A) × (create alloc junk elemsize ≡ ok v)
            × IsVector v
            × (contents v ≡ [])
            × (v.v_elemsize ≡ elemsize))
  unfolding create
  create-IsVector elemsize pos fits =
      let exact : u64 (elemsize * 256) ≡ elemsize * 256 = omega arith in
      let nonzero : (elemsize == 0) ≡ false = ground arith in
      elim (Bool-cases (alloc sizeof_vector)) [
        | inr denied ↦ inl (rw (nonzero, denied))
        | inl given ↦ elim (Bool-cases (alloc (elemsize * 256))) [
          | inr denied ↦ inl (rw (nonzero, given, exact, denied))
          | inl data_given ↦ inr (
            record {
              v_data = replicate 256 junk;
              v_elemsize = elemsize;
              v_nelems = 0;
              v_maxelems = init_maxelems;
            },
            rw (nonzero, given, exact, data_given, mul-div_right 256 pos),
            record {
              sized = length-replicate 256 junk;
              within = omega arith;
              roomy = omega arith;
              elem = pos;
              bytes = fits;
            },
            refl,
            refl,
          )
        ]
      ]

  with_room :
      (v w : Vector A) (x : A)
      → IsVector w
      → contents w ≡ contents v
      → w.v_nelems ≡ v.v_nelems
      → v.v_nelems < w.v_maxelems
      → IsPushed v x (put_element (record w { v_nelems = u64 (w.v_nelems + 1) }) w.v_nelems x)
  unfolding put_element
  with_room v w x valid same count room = record {
    valid = record {
      sized = length-set w.v_data w.v_nelems x ∙ valid.sized;
      within = omega (arith, maxelems-le w valid);
      roomy = valid.roomy;
      elem = valid.elem;
      bytes = valid.bytes;
    };
    appended =
        rw (← same)
          (rw (wraps, add-one) (take-suc-set w.v_data w.v_nelems x (omega (arith, valid.sized))));
    one_more = omega (arith, maxelems-le w valid);
  }
    where
      wraps : u64 (w.v_nelems + 1) ≡ w.v_nelems + 1
      wraps = omega (arith, maxelems-le w valid)

  -- On a well-formed vector, nilfs_vector_get_new_element and the store into the new slot end in
  -- EOVERFLOW, in ENOMEM, or in a well-formed vector whose elements are the old ones and `x` behind.
  pub push-IsPushed :
      (v : Vector A) (x : A) → IsVector v → Answers (IsPushed v x) (push alloc junk v x)
  unfolding push get_new_element
  push-IsPushed v x valid = elim (Bool-cases (leb v.v_maxelems v.v_nelems)) [
    | inl full ↦ elim (enlarge-IsEnlarged alloc junk v (u64 (v.v_nelems + 1)) valid) [
      | inl over ↦ inl (rw (full, over))
      | inr (inl denied) ↦ inr (inl (rw (full, denied)))
      | inr (inr (w, grown, larger)) ↦ inr (
          inr (
            put_element (record w { v_nelems = u64 (w.v_nelems + 1) }) w.v_nelems x,
            rw (full, grown),
            with_room v w x larger.valid larger.same_contents larger.same_nelems
                (omega (arith, valid.within, larger.more)),
          ))
    ]
    | inr room ↦ inr (
        inr (
          put_element (record v { v_nelems = u64 (v.v_nelems + 1) }) v.v_nelems x,
          rw room,
          with_room v v x valid refl refl (ground arith),
        ))
  ]
