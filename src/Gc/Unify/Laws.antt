-- ===== src/Gc/Unify/Laws.antt =====
-- nilfs_unify_period as its callers see it.
use mathlib.Core.List.{Perm, Permᴰ}
use mathlib.Core.Logic.{∥∥₁_elim}
use mathlib.Core.Bool.{Bool-set}
use nilfs_utils.Base.{ℕ, suc, ◌≡◌, refl, ap, ◌∙◌, List, [], ◌∷◌, arith, ok}
use nilfs_utils.Base.Sort.{IsSortedBy, IsSort}
use nilfs_utils.Vector.{Vector, IsVector, contents, get_size, sort_elements}
use nilfs_utils.Vector.Order.{contents-sort_elements, sort_elements-IsVector}
use nilfs_utils.Gc.{Period}
use nilfs_utils.Gc.Unify.{unify_period}
use nilfs_utils.Gc.Unify.Loop.{unify_outer-IsUnified}
use nilfs_utils.Gc.Unify.Merge.{merge, covered, covered-merge_from, merge_from-IsApart, IsApart}

covered-permᴰ : {ps qs : List Period} (c : ℕ) → Permᴰ ps qs → covered c ps ≡ covered c qs
unfolding covered
covered-permᴰ c Permᴰ.nil = refl
covered-permᴰ c (Permᴰ.cons e p) = rw (e, covered-permᴰ c p) refl
covered-permᴰ c (Permᴰ.swap e f) = rw (e, f) (ground arith)
covered-permᴰ c (Permᴰ.trans p q) = covered-permᴰ c p ∙ covered-permᴰ c q

covered-perm : {ps qs : List Period} (c : ℕ) → Perm ps qs → covered c ps ≡ covered c qs
covered-perm c p = ∥∥₁_elim p (Bool-set _ _) (covered-permᴰ c)

covered-merge :
    (c : ℕ) (ps : List Period)
    → IsSortedBy (λ p. p.p_start) ps
    → covered c (merge ps) ≡ covered c ps
unfolding merge
covered-merge c [] h = refl
covered-merge c (p ∷ ps) h = covered-merge_from c p ps h

merge-IsApart : (ps : List Period) → IsApart (merge ps)
unfolding merge
merge-IsApart [] = tt
merge-IsApart (p ∷ ps) = merge_from-IsApart p ps

module _ (sort : List Period → List Period) (qsort : IsSort (λ p. p.p_start) sort) where
  -- Whatever the periods, nilfs_unify_period returns; the merged periods cover exactly the
  -- checkpoints that were covered before, and each of them ends before the next one starts.
  pub unify_period_lem :
      (v : Vector Period)
      → IsVector v
      → (w : Vector Period) × (unify_period sort v ≡ ok w)
        × IsVector w
        × ((c : ℕ) → covered c (contents w) ≡ covered c (contents v))
        × IsApart (contents w)
  unfolding unify_period get_size
  unify_period_lem v valid =
      let s = sort_elements sort v in
      let s_valid = sort_elements-IsVector sort qsort v valid in
      let (w, ran, done) =
        unify_outer-IsUnified (suc s.v_nelems) s 0 s_valid (omega arith) (omega arith) in
      let whole : contents w ≡ merge (sort (contents v)) =
        done.unified ∙ ap merge (contents-sort_elements sort qsort v valid) in
      (
        w,
        ran,
        done.valid,
        (λ c.
            ap (covered c) whole
            ∙ covered-merge c _ (qsort.orders (contents v))
            ∙ covered-perm c (qsort.permutes (contents v))),
        rw whole (merge-IsApart _),
      )
