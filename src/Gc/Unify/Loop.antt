-- ===== src/Gc/Unify/Loop.antt =====
-- The index loops of nilfs_unify_period do what one pass over the list does.
use mathlib.Core.List.{append_assoc, append-nil}
use nilfs_utils.Base.{
  ℕ, zero, suc, ◌+◌, ◌-◌, ◌≤◌, ◌<◌, ◌≡◌, refl, ap, sym, ◌∙◌, inl, inr, false, some, List, [], ◌∷◌,
  ◌++◌, arith, ltb, if◌then◌else◌, Bool-cases, ltb→lt, ltb→le, Result, ok, ◌>>=◌, length, get_elem?,
  set, take, drop, length-drop, length-take,
}
use nilfs_utils.Base.Index.{get_elem?-some, get_elem?_lt, get_elem?-set}
use nilfs_utils.Base.Cut.{
  take-suc-set, drop-set, set-set, set-get_elem?, drop_step, take-append-drop, take-append,
  drop-append, drop_end, drop-drop, take-length,
}
use nilfs_utils.Vector.{
  Vector, or_unchanged, IsVector, contents, get_size, get_element, put_element, delete_elements,
}
use nilfs_utils.Vector.Laws.{
  length-contents, get_element-contents, put_element-contents, put_element-IsVector,
}
use nilfs_utils.Vector.Edit.{delete_elements-IsDeleted}
use nilfs_utils.Gc.{Period}
use nilfs_utils.Gc.Unify.{unify_inner, unify_outer}
use nilfs_utils.Gc.Unify.Merge.{widen, merge_from, merge}

get_elem?-set_self :
    (xs : List Period) (i : ℕ) (x : Period) → i < length xs → get_elem? (set xs i x) i ≡ some x
get_elem?-set_self xs i x h = ground (arith, get_elem?-set xs i x i)

-- How far the base reaches: the joined base, and the targets that it takes in.
absorb : Period → List Period → Period × ℕ
absorb base [] = (base, 0)
absorb base (t ∷ ts) =
    let r = absorb (widen base t) ts in
    if ltb base.p_end t.p_start then (base, 0) else (r.0, suc r.1)

absorb-le : (base : Period) (ts : List Period) → (absorb base ts).1 ≤ length ts
unfolding absorb
absorb-le base [] = omega arith
absorb-le base (t ∷ ts) = ground (arith, absorb-le (widen base t) ts)

merge_from-absorb :
    (base : Period) (ts : List Period)
    → merge_from base ts ≡ (absorb base ts).0 ∷ merge (drop (absorb base ts).1 ts)
unfolding absorb merge_from merge
merge_from-absorb base [] = refl
merge_from-absorb base (t ∷ ts) = elim (Bool-cases (ltb base.p_end t.p_start)) [
  | inl apart ↦ rw apart refl
  | inr joined ↦ rw joined (merge_from-absorb (widen base t) ts)
]

-- What the inner loop leaves.
record IsAbsorbed (v : Vector Period) (i j : ℕ) (base : Period) (r : Vector Period × ℕ)
    : Type 0 where
  valid : IsVector r.0
  same_size : (r.0).v_nelems ≡ v.v_nelems
  joined : contents r.0 ≡ set (contents v) i (absorb base (drop j (contents v))).0
  stop : r.1 ≡ j + (absorb base (drop j (contents v))).1

IsAbsorbed-stop :
    (v : Vector Period) (i j : ℕ) (base : Period)
    → IsVector v
    → get_elem? (contents v) i ≡ some base
    → absorb base (drop j (contents v)) ≡ (base, 0)
    → IsAbsorbed v i j base (v, j)
IsAbsorbed-stop v i j base valid at_i none_in = record {
  valid = valid;
  same_size = refl;
  joined = rw none_in (sym (set-get_elem? (contents v) i base at_i));
  stop = rw none_in (omega arith);
}

-- One target taken in, and the rest of the loop from `w`.
IsAbsorbed-step :
    (v w : Vector Period) (i j : ℕ) (base t : Period) (r : Vector Period × ℕ)
    → i < j
    → w.v_nelems ≡ v.v_nelems
    → contents w ≡ set (contents v) i (widen base t)
    → drop j (contents v) ≡ t ∷ drop (j + 1) (contents v)
    → ltb base.p_end t.p_start ≡ false
    → IsAbsorbed w i (j + 1) (widen base t) r
    → IsAbsorbed v i j base r
unfolding absorb
IsAbsorbed-step v w i j base t r order same written at_j touch rest =
    let c = contents v in
    let tail_ : drop (j + 1) (contents w) ≡ drop (j + 1) c =
      ap (drop (j + 1)) written ∙ drop-set c (j + 1) i (widen base t) (omega arith) in
    record {
      valid = rest.valid;
      same_size = rest.same_size ∙ same;
      joined =
          rw (at_j, absorb, touch)
            (rest.joined ∙ rw (tail_, written) (set-set c i (widen base t) _));
      stop = rw (at_j, absorb, touch) (rest.stop ∙ rw tail_ (omega arith));
    }

unify_inner-IsAbsorbed :
    (fuel : ℕ) (v : Vector Period) (i j : ℕ) (base : Period)
    → IsVector v
    → i < j
    → j ≤ v.v_nelems
    → v.v_nelems < j + fuel
    → get_elem? (contents v) i ≡ some base
    → (r : Vector Period × ℕ) × (unify_inner fuel v i j ≡ ok r) × IsAbsorbed v i j base r
unfolding unify_inner get_size absorb widen
unify_inner-IsAbsorbed zero v i j base valid order inside short at_i = absurd (omega arith)
unify_inner-IsAbsorbed (suc fuel) v i j base valid order inside short at_i =
    elim (Bool-cases (ltb j v.v_nelems)) [
      | inr past ↦
          let nothing : drop j (contents v) ≡ [] =
            drop_end (contents v) j (omega (arith, length-contents v valid, ltb→le _ _ past)) in
          ((v, j), rw past refl, IsAbsorbed-stop v i j base valid at_i (rw (nothing, absorb) refl))
      | inl more ↦
          let (t, e) =
            get_elem?-some (contents v) j
              (omega (arith, length-contents v valid, ltb→lt _ _ more)) in
          let at_j = drop_step (contents v) j t e in
          let read_i : get_element v i ≡ some base = get_element-contents v i ∙ at_i in
          let read_j : get_element v j ≡ some t = get_element-contents v j ∙ e in
          rw (more, read_i, read_j)
            (elim (Bool-cases (ltb base.p_end t.p_start)) [
              | inl apart ↦ (
                (v, j),
                rw apart refl,
                IsAbsorbed-stop v i j base valid at_i (rw (at_j, absorb, apart) refl),
              )
              | inr touch ↦ elim (Bool-cases (ltb base.p_end t.p_end)) [
                | inl longer ↦
                    let b = record base { p_end = t.p_end } in
                    let w = put_element v i b in
                    let same : w.v_nelems ≡ v.v_nelems = unfold put_element in refl in
                    let b_eq : widen base t ≡ b = rw (widen, longer) refl in
                    let written : contents w ≡ set (contents v) i b =
                      put_element-contents v i b valid (omega arith) in
                    let at_i' : get_elem? (contents w) i ≡ some b = rw written (
                      get_elem?-set_self (contents v) i b
                        (omega (arith, length-contents v valid))) in
                    let (r, ran, rest) =
                      unify_inner-IsAbsorbed fuel w i (j + 1) b (put_element-IsVector v i b valid)
                        (omega arith) (omega (arith, ltb→lt _ _ more)) (omega arith) at_i' in
                    (
                      r,
                      rw (touch, longer) ran,
                      IsAbsorbed-step v w i j base t r order same (rw b_eq written) at_j touch
                          (rw b_eq rest),
                    )
                | inr shorter ↦
                    let b_eq : widen base t ≡ base = rw (widen, shorter) refl in
                    let (r, ran, rest) =
                      unify_inner-IsAbsorbed fuel v i (j + 1) base valid (omega arith)
                        (omega (arith, ltb→lt _ _ more)) (omega arith) at_i in
                    (
                      r,
                      rw (touch, shorter) ran,
                      IsAbsorbed-step v v i j base t r order refl
                          (rw b_eq (sym (set-get_elem? (contents v) i base at_i))) at_j touch
                          (rw b_eq rest),
                    )
              ]
            ])
    ]

-- What the outer loop leaves, from index `i` on.
pub record IsUnified (v : Vector Period) (i : ℕ) (w : Vector Period) : Type 0 where
  pub valid : IsVector w
  pub unified : contents w ≡ take i (contents v) ++ merge (drop i (contents v))

-- The deletion after the inner loop.
record IsTrimmed (v : Vector Period) (i : ℕ) (base : Period) (w : Vector Period) : Type 0 where
  valid : IsVector w
  trimmed :
      contents w
      ≡ take i (contents v)
        ++ ((absorb base (drop (i + 1) (contents v))).0
            ∷ drop (absorb base (drop (i + 1) (contents v))).1 (drop (i + 1) (contents v)))
  left : (w.v_nelems ≤ v.v_nelems) × (i < w.v_nelems)

-- The list that the deletion leaves.
trimmed_list :
    (c : List Period) (i k : ℕ) (b : Period)
    → i < length c
    → take (i + 1) (set c i b) ++ drop (i + 1 + k) (set c i b)
      ≡ take i c ++ (b ∷ drop k (drop (i + 1) c))
trimmed_list c i k b inside =
    let e : i + 1 ≡ suc i = omega arith in
    ap (λ m. take m (set c i b) ++ drop (i + 1 + k) (set c i b)) e
    ∙ rw
        (
          take-suc-set c i b inside,
          drop-set c (i + 1 + k) i b (omega arith),
          drop-drop c (i + 1) k,
          append_assoc (take i c) (b ∷ []) (drop (i + 1 + k) c),
        )
        refl

trim : Vector Period → ℕ → ℕ → Result (Vector Period)
trim w i j = if ltb (i + 1) j then or_unchanged w (delete_elements w (i + 1) (j - i - 1)) else ok w

trim-IsTrimmed :
    (v : Vector Period) (i : ℕ) (base : Period) (r : Vector Period × ℕ)
    → i < v.v_nelems
    → IsVector v
    → IsAbsorbed v i (i + 1) base r
    → (w : Vector Period) × (trim r.0 i r.1 ≡ ok w) × IsTrimmed v i base w
unfolding trim or_unchanged
trim-IsTrimmed v i base r inside valid done =
    let c = contents v in
    let b = (absorb base (drop (i + 1) c)).0 in
    let k = (absorb base (drop (i + 1) c)).1 in
    let full : length c ≡ v.v_nelems = length-contents v valid in
    let small : i + 1 + k ≤ v.v_nelems =
      omega (arith, absorb-le base (drop (i + 1) c), length-drop (i + 1) c) in
    let count : r.1 - i - 1 ≡ k = omega (arith, done.stop) in
    elim (Bool-cases (ltb (i + 1) r.1)) [
      | inl some_in ↦
          let (w, ran, cut) =
            delete_elements-IsDeleted r.0 (i + 1) k done.valid
              (omega (arith, ltb→lt _ _ some_in, done.stop)) (omega (arith, done.same_size)) in
          (
            w,
            rw some_in (ap (or_unchanged r.0) (ap (delete_elements r.0 (i + 1)) count ∙ ran)),
            record {
              valid = cut.valid;
              trimmed = cut.removed ∙ rw done.joined (trimmed_list c i k b (omega arith));
              left = (
                omega (arith, cut.fewer, done.same_size),
                omega (arith, cut.fewer, done.same_size),
              );
            },
          )
      | inr none_in ↦
          let e : i + 1 + k ≡ i + 1 = omega (arith, ltb→le _ _ none_in, done.stop) in
          (
            r.0,
            rw none_in refl,
            record {
              valid = done.valid;
              trimmed =
                  done.joined
                  ∙ sym (take-append-drop (set c i b) (i + 1))
                  ∙ ap (λ m. take (i + 1) (set c i b) ++ drop m (set c i b)) (sym e)
                  ∙ trimmed_list c i k b (omega arith);
              left = (omega (arith, done.same_size), omega (arith, done.same_size));
            },
          )
    ]

outer_step :
    (c : List Period) (i : ℕ) (base : Period)
    → get_elem? c i ≡ some base
    → let b = absorb base (drop (i + 1) c) in
      let cut = take i c ++ (b.0 ∷ drop b.1 (drop (i + 1) c)) in
      take (i + 1) cut ++ merge (drop (i + 1) cut) ≡ take i c ++ merge (drop i c)
unfolding merge
outer_step c i base e =
    let b = absorb base (drop (i + 1) c) in
    let tail_ = b.0 ∷ drop b.1 (drop (i + 1) c) in
    let full : length (take i c) ≡ i = omega (arith, length-take i c, get_elem?_lt c i base e) in
    rw
      (
        take-append (take i c) tail_ i 1 full,
        drop-append (take i c) tail_ i 1 full,
        drop_step c i base e,
        merge_from-absorb base (drop (i + 1) c),
      )
      (append_assoc (take i c) (b.0 ∷ []) (merge (drop b.1 (drop (i + 1) c))))

pub unify_outer-IsUnified :
    (fuel : ℕ) (v : Vector Period) (i : ℕ)
    → IsVector v
    → i ≤ v.v_nelems
    → v.v_nelems < i + fuel
    → (w : Vector Period) × (unify_outer fuel v i ≡ ok w) × IsUnified v i w
unfolding unify_outer get_size merge trim
unify_outer-IsUnified zero v i valid inside short = absurd (omega arith)
unify_outer-IsUnified (suc fuel) v i valid inside short = elim (Bool-cases (ltb i v.v_nelems)) [
  | inr past ↦
      let all_done : length (contents v) ≤ i =
        omega (arith, length-contents v valid, ltb→le _ _ past) in
      (
        v,
        rw past refl,
        record {
          valid = valid;
          unified =
              rw (drop_end (contents v) i all_done, take-length (contents v) i all_done)
                (sym (append-nil (contents v)));
        },
      )
  | inl more ↦
      let inside' : i < v.v_nelems = ltb→lt _ _ more in
      let (base, e) = get_elem?-some (contents v) i (omega (arith, length-contents v valid)) in
      let (r, ran, done) =
        unify_inner-IsAbsorbed (suc v.v_nelems) v i (i + 1) base valid (omega arith) (omega arith)
          (omega arith) e in
      let (w, cut, trimmed) = trim-IsTrimmed v i base r inside' valid done in
      let size = trimmed.left in
      let (w', rest, unified) =
        unify_outer-IsUnified fuel w (i + 1) trimmed.valid (omega arith) (omega arith) in
      let go = λ (m : Result (Vector Period)). m >>= λ u. unify_outer fuel u (i + 1) in
      let go_in = λ (m : Result (Vector Period × ℕ)). m >>= λ x. go (trim x.0 i x.1) in
      (
        w',
        rw more (ap go_in ran ∙ ap go cut ∙ rest),
        record {
          valid = unified.valid;
          unified =
              unified.unified
              ∙ ap (λ t. take (i + 1) t ++ merge (drop (i + 1) t)) trimmed.trimmed
              ∙ outer_step (contents v) i base e;
        },
      )
]
