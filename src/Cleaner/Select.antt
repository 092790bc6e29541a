-- ===== src/Cleaner/Select.antt =====
-- nilfs_cleanerd_select_segments of sbin/cleanerd.c: the segments to clean, by the policy in use
-- (struct nilfs_cleaning_policy of include/nilfs_cleaning_policy.h). The clock, the call
-- nilfs_get_suinfo, malloc (`alloc`, `junk`), the policy and qsort with its comparison are parameters.
-- On the first errors the code frees a vector that was not created yet, which is undefined: a fault.
pub mod Oldest
pub mod Gather
pub mod Best
use nilfs_utils.Base.{
  ℕ, zero, suc, ◌+◌, ◌-◌, ◌^◌, min, Bool, true, false, not, List, [], ◌∷◌, Option, none, some, ltb,
  ◌==◌, if◌then◌else◌, Result, ok, err, fault, ◌>>=◌, length, map, take, ℤ, Timespec, timespecsub,
}
use nilfs_utils.Vector.{
  Vector, contents, create, push, get_size, delete_elements, or_unchanged, sort_elements,
}
use nilfs_utils.Gc.Select.{Suinfo, suinfo_reclaimable}
use nilfs_utils.Cleaner.{Cleanerd, Sustat, current_protection_period}
use nilfs_utils.Cleaner.Check.{nsuinfo}

-- struct nilfs_segment_candidate; `S` stands for the scores, which are doubles.
pub record Candidate (S : Type 0) : Type 0 where
  pub segnum : ℕ
  pub score : S

-- struct nilfs_cleaning_policy. `evaluate` says what it leaves in the new element and whether the
-- segment is eligible, from the record of a segment, its number, the time, and the limit of the
-- protected times; `sort` is qsort with `compare`; `choose` is the selection of a policy with its own.
pub record Policy (S : Type 0) : Type 0 where
  pub evaluate : Sustat → Suinfo → ℕ → ℤ → ℤ → Candidate S × Bool
  pub sort : List (Candidate S) → List (Candidate S)
  pub choose : Option (Sustat → ℤ → ℤ → Result (List ℕ))

-- What the caller gets: the segments, the limit of the protected times, and the oldest time.
pub record Selected : Type 0 where
  pub segnums : List ℕ
  pub prottime : ℤ
  pub oldest : ℕ

-- The oldest modification of a reclaimable segment.
unfoldable pub oldest_of : List Suinfo → ℕ → ℕ
oldest_of [] oldest = oldest
oldest_of (si ∷ sis) oldest = oldest_of sis (
    if suinfo_reclaimable si
    then (if ltb si.sui_lastmod oldest then si.sui_lastmod else oldest)
    else oldest)

module _ (get_suinfo : ℕ → ℕ → Result (List Suinfo)) (nsegs : ℕ) where
  -- The first pass, which finds the oldest time; with fuel.
  unfoldable pub oldest_loop : ℕ → ℕ → ℕ → Result ℕ
  oldest_loop zero segnum oldest = fault
  oldest_loop (suc fuel) segnum oldest =
      let next = oldest_loop fuel in
      if ltb segnum nsegs
      then (get_suinfo segnum (min (nsegs - segnum) nsuinfo) >>= λ sis.
          if length sis == 0
          then ok (oldest_of sis oldest)
          else next (segnum + length sis) (oldest_of sis oldest))
      else ok oldest

module _ {S : Type 0} (alloc : ℕ → Bool) (junk : Candidate S) (policy : Policy S) (sustat : Sustat)
    (now prottime : ℤ) where
  -- One candidate.
  unfoldable pub add_candidate : Vector (Candidate S) → Suinfo → ℕ → Result (Vector (Candidate S))
  add_candidate v si segnum =
      let r = policy.evaluate sustat si segnum now prottime in
      push alloc junk v r.0 >>= λ w.
      if r.1 then ok w else or_unchanged w (delete_elements w (get_size w - 1) 1)

  -- The inner loop of the second pass, over one answer.
  unfoldable pub add_candidates :
      List Suinfo → ℕ → Vector (Candidate S) → ℕ → Result (Vector (Candidate S) × ℕ)
  add_candidates [] segnum v oldest = ok (v, oldest)
  add_candidates (si ∷ sis) segnum v oldest =
      let next = add_candidates sis (suc segnum) in
      if suinfo_reclaimable si
      then (add_candidate v si segnum >>= λ w.
          next w (if ltb si.sui_lastmod oldest then si.sui_lastmod else oldest))
      else next v oldest

  -- The second pass; with fuel.
  unfoldable pub candidates_loop :
      (ℕ → ℕ → Result (List Suinfo))
      → ℕ
      → ℕ
      → Vector (Candidate S)
      → ℕ
      → Result (Vector (Candidate S) × ℕ)
  candidates_loop get_suinfo zero segnum v oldest = fault
  candidates_loop get_suinfo (suc fuel) segnum v oldest =
      let next = candidates_loop get_suinfo fuel in
      if ltb segnum sustat.ss_nsegs
      then (get_suinfo segnum (min (sustat.ss_nsegs - segnum) nsuinfo) >>= λ sis.
          add_candidates sis segnum v oldest >>= λ r.
          if length sis == 0 then ok r else next (segnum + length sis) r.0 r.1)
      else ok (v, oldest)

  -- The generic selection: the first two candidates. 32 is the size of a candidate.
  unfoldable pub select_best : (ℕ → ℕ → Result (List Suinfo)) → ℕ → Result (List ℕ × ℕ)
  select_best get_suinfo oldest = create alloc junk 32 >>= λ v.
      candidates_loop get_suinfo (suc sustat.ss_nsegs) 0 v oldest >>= λ r.
      let sorted = sort_elements policy.sort r.0 in
      ok (map (λ (c : Candidate S). c.segnum) (take 2 (contents sorted)), r.1)

-- NILFS_CLEANERD_NULLTIME
abbrev pub null_oldest : ℕ
null_oldest = 2 ^ 63 - 1

-- An error before the vector is created: its pointer, which is not set, is freed.
abbrev pub or_undefined {ℓ} : {A : Type ℓ} → Result A → Result A
or_undefined (ok a) = ok a
or_undefined (err e) = fault
or_undefined fault = fault

unfoldable pub select_segments :
    {S : Type 0}
    → (ℕ → Bool)
    → Candidate S
    → Policy S
    → Result Timespec
    → (ℕ → ℕ → Result (List Suinfo))
    → Sustat
    → Cleanerd
    → Result Selected
select_segments alloc junk policy realtime get_suinfo sustat c = or_undefined realtime >>= λ ts.
    let prottime = (timespecsub ts (current_protection_period c)).tv_sec in
    or_undefined (oldest_loop get_suinfo sustat.ss_nsegs (suc sustat.ss_nsegs) 0 null_oldest)
    >>= λ oldest. elim (policy.choose) [
      | some choose ↦ choose sustat ts.tv_sec prottime >>= λ segnums.
          ok (record { segnums = segnums; prottime = prottime; oldest = oldest })
      | none ↦ select_best alloc junk policy sustat ts.tv_sec prottime get_suinfo oldest >>= λ r.
          ok (record { segnums = r.0; prottime = prottime; oldest = r.1 })
    ]
