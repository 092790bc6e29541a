-- ===== src/Gc/Toss/Bdescs.antt =====
-- nilfs_toss_bdescs keeps the live descriptors, all of them, in their order.
use nilfs_utils.Base.{
  ℕ, zero, suc, ◌+◌, ◌≤◌, ◌<◌, ◌≡◌, refl, ap, sym, ◌∙◌, inl, inr, some, [], ◌++◌, arith, ltb,
  Bool-cases, ltb→lt, ltb→le, Result, ok, ◌>>=◌, length, length-drop, take, drop,
}
use mathlib.Core.List.{append-nil}
use nilfs_utils.Base.Index.{get_elem?-some}
use nilfs_utils.Base.Cut.{drop_step, drop_end, take-length}
use nilfs_utils.Vector.{Vector, IsVector, contents, get_size, get_element}
use nilfs_utils.Vector.Laws.{length-contents, get_element-contents}
use nilfs_utils.Gc.{Bdesc}
use nilfs_utils.Gc.Toss.{
  bdesc_is_live, toss_bdescs_inner, toss_bdescs_outer, toss_bdescs, delete_run,
}
use nilfs_utils.Gc.Toss.Runs.{delete_run-IsCut, keep_if, run, run-le, kept_round}

toss_bdescs_inner_lem :
    (fuel : ℕ) (v : Vector Bdesc) (j : ℕ)
    → IsVector v
    → j ≤ v.v_nelems
    → v.v_nelems < j + fuel
    → toss_bdescs_inner fuel v j ≡ ok (j + run bdesc_is_live (drop j (contents v)))
unfolding toss_bdescs_inner get_size run
toss_bdescs_inner_lem zero v j valid inside short = absurd (omega arith)
toss_bdescs_inner_lem (suc fuel) v j valid inside short = elim (Bool-cases (ltb j v.v_nelems)) [
  | inr past ↦
      let nothing : drop j (contents v) ≡ [] =
        drop_end (contents v) j (omega (arith, length-contents v valid, ltb→le _ _ past)) in
      rw (past, nothing) (ap ok (omega arith))
  | inl more ↦
      let (t, e) =
        get_elem?-some (contents v) j (omega (arith, length-contents v valid, ltb→lt _ _ more)) in
      let read_j : get_element v j ≡ some t = get_element-contents v j ∙ e in
      let rest =
        toss_bdescs_inner_lem fuel v (j + 1) valid (omega (arith, ltb→lt _ _ more)) (omega arith) in
      rw (more, read_j, drop_step (contents v) j t e)
        (elim (Bool-cases (bdesc_is_live t)) [
          | inl live ↦ rw live (ap ok (omega arith))
          | inr dead ↦ rw dead (rest ∙ ap ok (omega arith))
        ])
]

-- What the outer loop leaves, from index `i` on.
record IsSwept (v : Vector Bdesc) (i : ℕ) (w : Vector Bdesc) : Type 0 where
  valid : IsVector w
  swept : contents w ≡ take i (contents v) ++ keep_if bdesc_is_live (drop i (contents v))

toss_bdescs_outer-IsSwept :
    (fuel : ℕ) (v : Vector Bdesc) (i : ℕ)
    → IsVector v
    → 0 < fuel
    → v.v_nelems < i + fuel
    → (w : Vector Bdesc) × (toss_bdescs_outer fuel v i ≡ ok w) × IsSwept v i w
unfolding toss_bdescs_outer get_size keep_if
toss_bdescs_outer-IsSwept zero v i valid some_fuel short = absurd (omega arith)
toss_bdescs_outer-IsSwept (suc fuel) v i valid some_fuel short =
    elim (Bool-cases (ltb i v.v_nelems)) [
      | inr past ↦
          let all_done : length (contents v) ≤ i =
            omega (arith, length-contents v valid, ltb→le _ _ past) in
          (
            v,
            rw past refl,
            record {
              valid = valid;
              swept =
                  rw (drop_end (contents v) i all_done, take-length (contents v) i all_done)
                    (sym (append-nil (contents v)));
            },
          )
      | inl more ↦
          let c = contents v in
          let inside : i < v.v_nelems = ltb→lt _ _ more in
          let k = run bdesc_is_live (drop i c) in
          let bound : i + k ≤ v.v_nelems =
            omega
              (arith, run-le bdesc_is_live (drop i c), length-drop i c, length-contents v valid) in
          let scan = toss_bdescs_inner_lem (suc v.v_nelems) v i valid (omega arith) (omega arith) in
          let (w, ran, cut) = delete_run-IsCut v i (i + k) valid (omega arith) bound in
          let (u, rest, swept) =
            toss_bdescs_outer-IsSwept fuel w (i + 1) cut.valid (omega arith)
              (omega (arith, cut.fewer)) in
          let go = λ (m : Result (Vector Bdesc)). m >>= λ x. toss_bdescs_outer fuel x (i + 1) in
          (
            u,
            rw more
                (ap (λ (m : Result ℕ). m >>= λ j. go (delete_run v i j)) scan ∙ ap go ran ∙ rest),
            record {
              valid = swept.valid;
              swept =
                  swept.swept
                  ∙ ap (λ t. take (i + 1) t ++ keep_if bdesc_is_live (drop (i + 1) t)) cut.left
                  ∙ kept_round bdesc_is_live c i (omega (arith, length-contents v valid));
            },
          )
    ]

-- Whatever the descriptors, nilfs_toss_bdescs returns, and keeps exactly the live ones, in order.
pub toss_bdescs_lem :
    (v : Vector Bdesc)
    → IsVector v
    → (w : Vector Bdesc) × (toss_bdescs v ≡ ok w)
      × IsVector w
      × (contents w ≡ keep_if bdesc_is_live (contents v))
unfolding toss_bdescs get_size
toss_bdescs_lem v valid =
    let (w, ran, swept) =
      toss_bdescs_outer-IsSwept (suc v.v_nelems) v 0 valid (omega arith) (omega arith) in
    (w, ran, swept.valid, swept.swept)
