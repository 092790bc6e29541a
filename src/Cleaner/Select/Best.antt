-- ===== src/Cleaner/Select/Best.antt =====
-- nilfs_cleanerd_select_segments of sbin/cleanerd.c chooses the first two of the eligible segments, in
-- the order of the policy.
use mathlib.Core.List.{append-nil, append_assoc}
use nilfs_utils.Base.{
  ℕ, zero, suc, ◌+◌, ◌-◌, ◌≤◌, ◌<◌, min, ◌≡◌, refl, sym, ap, ◌∙◌, inl, inr, Bool, false, ◌==◌,
  Bool-cases, arith, List, [], ◌++◌, map, none, Result, ok, length, take, drop, ltb, ℤ, Timespec,
  timespecsub, length-take, length-drop,
}
use nilfs_utils.Base.Cut.{drop_end}
use nilfs_utils.Base.Sort.{IsSort}
use nilfs_utils.Vector.{Vector, IsVector, contents, sort_elements}
use nilfs_utils.Vector.Laws.{create-IsVector}
use nilfs_utils.Vector.Order.{contents-sort_elements}
use nilfs_utils.Segment.Bytes.{Safe-map, Safe, Safe-bind}
use nilfs_utils.Gc.Select.{Suinfo}
use nilfs_utils.Cleaner.{Cleanerd, Sustat, current_protection_period}
use nilfs_utils.Cleaner.Check.{nsuinfo}
use nilfs_utils.Cleaner.Check.Count.{Reads}
use nilfs_utils.Cleaner.Select.{
  Candidate, Policy, oldest_of, oldest_loop, add_candidates, candidates_loop, select_best,
  null_oldest, select_segments,
}
use nilfs_utils.Cleaner.Select.Oldest.{
  oldest_of-append, oldest_of-fixed, drop-answer, oldest_loop_sized,
}
use nilfs_utils.Cleaner.Select.Gather.{eligible, eligible-append, Holds, add_candidates-Safe}

module _ (get_suinfo : ℕ → ℕ → Result (List Suinfo)) (table : List Suinfo)
    (reads : Reads get_suinfo table) where
  module _ {S : Type 0} (alloc : ℕ → Bool) (junk : Candidate S) (policy : Policy S)
      (sustat : Sustat) (nsegs : sustat.ss_nsegs ≡ length table) (now prottime : ℤ) where
    -- The candidates from `segnum` on join the vector, and their times the oldest one.
    abbrev Gathers : Vector (Candidate S) → ℕ → ℕ → Vector (Candidate S) × ℕ → Type 0
    Gathers v segnum o r =
        Holds (contents v ++ eligible policy sustat now prottime (drop segnum table) segnum) r.0
        × (r.1 ≡ oldest_of (drop segnum table) o)

    Gathers-later :
        (v : Vector (Candidate S)) (u : Vector (Candidate S) × ℕ) (segnum o k : ℕ)
        → contents u.0
          ≡ contents v ++ eligible policy sustat now prottime (take k (drop segnum table)) segnum
        → u.1 ≡ oldest_of (take k (drop segnum table)) o
        → (r : Vector (Candidate S) × ℕ)
        → Gathers u.0 (segnum + length (take k (drop segnum table))) u.1 r
        → Gathers v segnum o r
    Gathers-later v u segnum o k held time_ r (holds, time) =
        let next = segnum + length (take k (drop segnum table)) in
        let rest = drop-answer table segnum k in
        let read = eligible policy sustat now prottime (take k (drop segnum table)) segnum in
        let coming = eligible policy sustat now prottime (drop k (drop segnum table)) next in
        (
          (
            holds.0,
            holds.1
                ∙ ap (λ xs. contents u.0 ++ eligible policy sustat now prottime xs next) (sym rest)
                ∙ ap (λ xs. xs ++ coming) held
                ∙ append_assoc (contents v) read coming
                ∙ ap (λ xs. contents v ++ xs)
                    (eligible-append policy sustat now prottime k (drop segnum table) segnum),
          ),
          time
              ∙ ap (λ xs. oldest_of xs u.1) (sym rest)
              ∙ ap (oldest_of (drop k (drop segnum table))) time_
              ∙ oldest_of-append k (drop segnum table) o,
        )

    candidates_loop-Safe :
        (fuel segnum : ℕ) (v : Vector (Candidate S)) (o : ℕ)
        → length table - segnum < fuel
        → segnum ≤ length table
        → IsVector v
        → Safe
            (Gathers v segnum o)
            (candidates_loop alloc junk policy sustat now prottime get_suinfo fuel segnum v o)
    unfolding candidates_loop oldest_of
    candidates_loop-Safe zero segnum v o enough inside valid = absurd (omega arith)
    candidates_loop-Safe (suc fuel) segnum v o enough inside valid =
        elim (Bool-cases (ltb segnum sustat.ss_nsegs)) [
          | inl more ↦
              let (k, answer, one, most) =
                reads.answers segnum (min (sustat.ss_nsegs - segnum) nsuinfo) (ground arith)
                  (ground arith) in
              let sis = take k (drop segnum table) in
              let long : length sis ≡ min k (length table - segnum) =
                length-take k (drop segnum table) ∙ ap (min k) (length-drop segnum table) in
              let some_ : (length sis == 0) ≡ false = ground (arith, long) in
              rw (more, answer, some_)
                (Safe-bind _ (add_candidates alloc junk policy sustat now prottime sis segnum v o) _
                  (add_candidates-Safe alloc junk policy sustat now prottime sis segnum v o valid)
                  (λ u held. Safe-map _ (Gathers-later v u segnum o k held.0.1 held.1) (
                    candidates_loop-Safe fuel (segnum + length sis) u.0 u.1 (ground (arith, long))
                      (ground (arith, long)) held.0.0)))
          | inr done ↦
              rw (done, drop_end table segnum (ground (arith, nsegs)))
                ((valid, sym (append-nil (contents v))), refl)
        ]

    -- The first two of all candidates, in the order of the policy.
    abbrev pub best : List ℕ
    best =
        map (λ (x : Candidate S). x.segnum)
          (take 2 (policy.sort (eligible policy sustat now prottime table 0)))

    best_taken :
        (key : Candidate S → ℕ) (v w : Vector (Candidate S)) (r : ℕ)
        → IsSort key policy.sort
        → contents v ≡ []
        → Holds (contents v ++ eligible policy sustat now prottime table 0) w
        → map (λ (x : Candidate S). x.segnum) (take 2 (contents (sort_elements policy.sort w)))
          ≡ best
    best_taken key v w r sorts empty (valid, held) =
        ap (λ xs. map (λ (x : Candidate S). x.segnum) (take 2 xs))
          (contents-sort_elements policy.sort sorts w valid
            ∙ ap policy.sort
                (held ∙ ap (λ xs. xs ++ eligible policy sustat now prottime table 0) empty))

    select_best-Safe :
        (key : Candidate S → ℕ) (o : ℕ)
        → IsSort key policy.sort
        → Safe
            (λ r. (r.0 ≡ best) × (r.1 ≡ oldest_of table o))
            (select_best alloc junk policy sustat now prottime get_suinfo o)
    unfolding select_best
    select_best-Safe key o sorts =
        elim (create-IsVector alloc junk 32 (omega arith) (omega arith)) [
          | inl denied ↦ rw denied tt
          | inr (v, made, valid, empty, size) ↦ rw made (
              Safe-bind _
                (candidates_loop alloc junk policy sustat now prottime get_suinfo
                  (suc sustat.ss_nsegs) 0 v o)
                _
                (candidates_loop-Safe (suc sustat.ss_nsegs) 0 v o (omega (arith, nsegs))
                  (omega arith) valid)
                (λ r p. (best_taken key v r.0 0 sorts empty p.0, p.1)))
        ]

-- For a clock, a call that reads the table of all segments, in answers of one record at least, and a
-- policy without a selection of its own, whose sort orders by a key: nilfs_cleanerd_select_segments
-- ends and stays within its vector, and unless a call fails the segments are the first two of the
-- eligible candidates of the table, as sorted, with the limit of the protected times, and the oldest
-- time is that of the reclaimable segments.
pub select_segments_lem :
    {S : Type 0} (alloc : ℕ → Bool) (junk : Candidate S) (policy : Policy S) (key : Candidate S → ℕ)
    (ts : Timespec) (get_suinfo : ℕ → ℕ → Result (List Suinfo)) (table : List Suinfo)
    (sustat : Sustat) (c : Cleanerd)
    → IsSort key policy.sort
    → policy.choose ≡ none
    → Reads get_suinfo table
    → sustat.ss_nsegs ≡ length table
    → let prottime = (timespecsub ts (current_protection_period c)).tv_sec in
      Safe
        (λ r.
          (r.segnums
            ≡ map
                (λ (x : Candidate S). x.segnum)
                (take 2 (policy.sort (eligible policy sustat ts.tv_sec prottime table 0))))
          × (r.prottime ≡ prottime)
          × (r.oldest ≡ oldest_of table null_oldest))
        (select_segments alloc junk policy (ok ts) get_suinfo sustat c)
unfolding select_segments
select_segments_lem alloc junk policy key ts get_suinfo table sustat c sorts plain reads nsegs =
    let prottime = (timespecsub ts (current_protection_period c)).tv_sec in
    let oldest = oldest_of table null_oldest in
    let first : oldest_loop get_suinfo sustat.ss_nsegs (suc sustat.ss_nsegs) 0 null_oldest
        ≡ ok oldest =
      oldest_loop_sized get_suinfo table reads sustat.ss_nsegs nsegs in
    let again = oldest_of-fixed table null_oldest oldest (omega arith) in
    rw first (
      simp plain (
        Safe-bind _ (select_best alloc junk policy sustat ts.tv_sec prottime get_suinfo oldest) _
          (select_best-Safe get_suinfo table reads alloc junk policy sustat nsegs ts.tv_sec prottime
            key oldest sorts)
          (λ r p. (p.0, refl, p.1 ∙ again))))
