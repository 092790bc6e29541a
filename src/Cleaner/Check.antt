-- ===== src/Cleaner/Check.antt =====
-- nilfs_cleanerd_check_state of sbin/cleanerd.c and its parts: whether a round cleans or sleeps. The
-- call nilfs_get_suinfo of the library is a parameter; a loop that never ends is a fault.
pub mod Count
pub mod Advance
pub mod Decide
pub mod Paced
use nilfs_utils.Base.{
  ℕ, zero, suc, ◌+◌, ◌-◌, min, Bool, true, false, not, ◌&&◌, List, [], ◌∷◌, ltb, ◌==◌,
  if◌then◌else◌, Result, ok, err, fault, ◌>>=◌, ℤ, pos, ltb_ℤ, eqb_ℤ,
}
use nilfs_utils.Gc.Select.{Suinfo, suinfo_reclaimable}
use nilfs_utils.Cleaner.{
  Config, Cleanerd, Sustat, in_manual, idle, automatic, automatic_suspend, clean_check_pause,
  clean_check_resume, manual_end, get_reserved_segments,
}

-- Fewer clean segments than the lower bound, or more than the upper bound.
abbrev pub is_low : ℕ → Sustat → Cleanerd → Bool
is_low reserved sustat c = ltb sustat.ss_ncleansegs ((c.config).cf_min_clean_segments + reserved)

abbrev pub is_plenty : ℕ → Sustat → Cleanerd → Bool
is_plenty reserved sustat c = ltb ((c.config).cf_max_clean_segments + reserved) sustat.ss_ncleansegs

-- The end of nilfs_cleanerd_handle_clean_check: the speed of cleaning.
unfoldable pub set_speed : ℕ → Sustat → Cleanerd → Cleanerd
set_speed reserved sustat c =
    if is_low reserved sustat c
    then record c {
      ncleansegs = (c.config).cf_mc_nsegments_per_clean;
      cleaning_interval = (c.config).cf_mc_cleaning_interval;
      min_reclaimable_blocks = (c.config).cf_mc_min_reclaimable_blocks;
    }
    else record c {
      ncleansegs = (c.config).cf_nsegments_per_clean;
      cleaning_interval = (c.config).cf_cleaning_interval;
      min_reclaimable_blocks = (c.config).cf_min_reclaimable_blocks;
    }

-- nilfs_cleanerd_handle_clean_check; `true` is to sleep. `ratio` is that of the reserved segments.
unfoldable pub handle_clean_check : ℕ → Sustat → Cleanerd → Cleanerd × Bool
handle_clean_check ratio sustat c =
    let reserved = get_reserved_segments ratio sustat.ss_nsegs in
    if eqb_ℤ c.running automatic
    then if is_plenty reserved sustat c
      then (clean_check_pause c, true)
      else (set_speed reserved sustat c, false)
    else if eqb_ℤ c.running idle
    then if is_low reserved sustat c
      then (set_speed reserved sustat (clean_check_resume c), false)
      else (c, true)
    else (set_speed reserved sustat c, false)

-- The variables of nilfs_cleanerd_count_inuse_segments.
pub record Counting : Type 0 where
  pub rest : ℕ
  pub segnum : ℕ
  pub nfound : ℕ

-- The inner loop, over one answer.
unfoldable pub count_answer : List Suinfo → Counting → Counting
count_answer [] s = s
count_answer (si ∷ sis) s = count_answer sis (
    if suinfo_reclaimable si
    then record { rest = s.rest - 1; segnum = suc s.segnum; nfound = suc s.nfound }
    else record s { segnum = suc s.segnum })

-- NILFS_CLEANERD_NSUINFO
abbrev pub nsuinfo : ℕ
nsuinfo = 512

-- The next pass of a manual run, given the number of segments in use.
unfoldable pub next_pass : Result ℕ → Cleanerd → Result Cleanerd
next_pass (ok n) c = ok (record c { mm_nrestpasses = c.mm_nrestpasses - 1; mm_nrestsegs = n })
next_pass (err e) c = ok (record c { mm_nrestpasses = 0 })
next_pass fault c = fault

-- The end of nilfs_cleanerd_handle_manual_mode.
unfoldable pub end_if_done : Cleanerd → Cleanerd
end_if_done c = if c.mm_nrestpasses == 0 && c.mm_nrestsegs == 0 then manual_end c else c

-- The last test of nilfs_cleanerd_check_state: an idle daemon wakes up for a file system that was
-- written since.
unfoldable pub check_update : Sustat → Cleanerd → Cleanerd × Bool
check_update sustat c =
    if eqb_ℤ c.running idle
    then if not (sustat.ss_nongc_ctime == c.prev_nongc_ctime)
      then (record c { running = automatic; prev_nongc_ctime = sustat.ss_nongc_ctime }, false)
      else (c, true)
    else (c, false)

-- nilfs_cleanerd_check_state, from the clean check on.
unfoldable pub check_automatic : ℕ → Sustat → Cleanerd → Cleanerd × Bool
check_automatic ratio sustat c =
    if ltb_ℤ c.running (pos 2) && automatic_suspend c
    then (let r = handle_clean_check ratio sustat c in
        if r.1 then (r.0, true) else check_update sustat r.0)
    else check_update sustat c

module _ (get_suinfo : ℕ → ℕ → Result (List Suinfo)) where
  -- The outer loop, with fuel.
  unfoldable pub count_inuse_loop : ℕ → ℕ → Counting → Result ℕ
  count_inuse_loop zero nsegs s = fault
  count_inuse_loop (suc fuel) nsegs s =
      let next = count_inuse_loop fuel nsegs in
      if ltb 0 s.rest && ltb s.segnum nsegs
      then (get_suinfo s.segnum (min s.rest nsuinfo) >>= λ si. next (count_answer si s))
      else ok s.nfound

  unfoldable pub count_inuse_segments : ℕ → Result ℕ
  count_inuse_segments nsegs =
      count_inuse_loop (suc nsegs) nsegs (record { rest = nsegs; segnum = 0; nfound = 0 })

  unfoldable pub handle_manual_mode : Sustat → Cleanerd → Result Cleanerd
  handle_manual_mode sustat c =
      let passed =
        if c.mm_nrestsegs == 0 && ltb 0 c.mm_nrestpasses
        then next_pass (count_inuse_segments sustat.ss_nsegs) c
        else ok c in
      passed >>= λ d. ok (end_if_done d)

  -- nilfs_cleanerd_check_state; `true` is to sleep.
  unfoldable pub check_state : ℕ → Sustat → Cleanerd → Result (Cleanerd × Bool)
  check_state ratio sustat c =
      if ltb_ℤ c.running (pos 0)
      then ok (c, true)
      else ((if in_manual c then handle_manual_mode sustat c else ok c) >>= λ d.
          ok (check_automatic ratio sustat d))
