-- ===== src/Cleaner/Check/Advance.antt =====
-- nilfs_cleanerd_count_inuse_segments of sbin/cleanerd.c ends when each answer has a record.
use nilfs_utils.Base.{
  Bool, true, false, refl, if◌then◌else◌, ℕ, zero, suc, ◌+◌, ◌-◌, ◌≤◌, ◌<◌, min, ◌≡◌, ◌∙◌, ◌&&◌,
  List, [], ◌∷◌, ltb, Bool-cases, inl, inr, arith, Result, length,
}
use nilfs_utils.Segment.Bytes.{Safe, Safe-bind}
use nilfs_utils.Gc.Select.{Suinfo, suinfo_reclaimable}
use nilfs_utils.Cleaner.Check.{
  Counting, count_answer, nsuinfo, count_inuse_loop, count_inuse_segments,
}

-- The call gives a record at least, or fails, for a segment that there is.
pub record IsAdvancing (get_suinfo : ℕ → ℕ → Result (List Suinfo)) (nsegs : ℕ) : Type 0 where
  pub advances :
      (segnum count : ℕ)
      → segnum < nsegs
      → 0 < count
      → Safe (λ sis. 1 ≤ length sis) (get_suinfo segnum count)

segnum-count_answer :
    (sis : List Suinfo) (s : Counting) → (count_answer sis s).segnum ≡ s.segnum + length sis
unfolding count_answer
segnum-count_answer [] s = omega arith
segnum-count_answer (si ∷ sis) s =
    segnum-count_answer sis _
    ∙ (let one_more = step (suinfo_reclaimable si) in omega (arith, one_more))
  where
    step :
        (b : Bool)
        → (if b
            then record { rest = s.rest - 1; segnum = suc s.segnum; nfound = suc s.nfound }
            else record s { segnum = suc s.segnum }).segnum
          ≡ suc s.segnum
    step true = refl
    step false = refl

module _ (get_suinfo : ℕ → ℕ → Result (List Suinfo)) (nsegs : ℕ)
    (advancing : IsAdvancing get_suinfo nsegs) where
  count_inuse_loop-Safe :
      (fuel : ℕ) (s : Counting)
      → nsegs - s.segnum < fuel
      → Safe (λ n. Unit) (count_inuse_loop get_suinfo fuel nsegs s)
  unfolding count_inuse_loop
  count_inuse_loop-Safe zero s enough = absurd (omega arith)
  count_inuse_loop-Safe (suc fuel) s enough =
      elim (Bool-cases (ltb 0 s.rest && ltb s.segnum nsegs)) [
        | inr done ↦ rw done tt
        | inl more ↦ rw more (
            Safe-bind _ (get_suinfo s.segnum (min s.rest nsuinfo)) _
              (advancing.advances s.segnum (min s.rest nsuinfo) (ground arith) (ground arith))
              (λ sis some_.
                count_inuse_loop-Safe fuel (count_answer sis s)
                  (ground (arith, segnum-count_answer sis s, some_))))
      ]

  pub count_inuse_segments-Safe : Safe (λ n. Unit) (count_inuse_segments get_suinfo nsegs)
  unfolding count_inuse_segments
  count_inuse_segments-Safe = count_inuse_loop-Safe (suc nsegs) _ (omega arith)
