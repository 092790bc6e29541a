-- ===== src/Cleaner/Interval.antt =====
-- nilfs_cleanerd_init_interval and nilfs_cleanerd_recalc_interval of sbin/cleanerd.c: how long the
-- daemon sleeps after a round. The clocks' answers are parameters.
pub mod Bounds
pub mod Paced
pub mod Requests
pub mod Replies
use nilfs_utils.Base.{
  ℕ, ◌^◌, ◌-◌, Bool, true, false, not, ◌&&◌, ◌||◌, ◌==◌, if◌then◌else◌, Result, ok, ◌>>=◌, ℤ, pos,
  ◌+ℤ◌, ◌-ℤ◌, ltb_ℤ, eqb_ℤ, Timespec, timespecadd, timespecsub, timespec_zero, timespec_lt,
}
use nilfs_utils.Cleaner.{
  Cleanerd, in_manual, idle, manual_end, current_cleaning_interval, current_protection_period,
}

-- NILFS_CLEANERD_NULLTIME
abbrev pub nulltime : ℤ
nulltime = pos (2 ^ 63 - 1)

-- The later of two times, as the code compares them with the interval of the clean checks.
unfoldable pub at_least : Timespec → Timespec → Timespec
at_least least t = if timespec_lt t least then least else t

-- min_t on int64_t
abbrev pub min_ℤ : ℤ → ℤ → ℤ
min_ℤ a b = if ltb_ℤ a b then a else b

-- The time until the oldest segment leaves the protection period.
unfoldable pub until_unprotected : ℤ → ℤ → Timespec → Timespec
until_unprotected prottime oldest now =
    let tgt = min_ℤ oldest now.tv_sec in
    record {
      tv_sec = if ltb_ℤ prottime tgt then tgt -ℤ prottime +ℤ pos 1 else pos 1;
      tv_nsec = pos 0;
    }

unfoldable pub sleep_at_least : Timespec → Cleanerd → Cleanerd
sleep_at_least t c = record c { timeout = at_least (c.config).cf_clean_check_interval t }

-- `fallback`: retry later.
unfoldable pub retry_later : Timespec → Cleanerd → Cleanerd
retry_later curr c =
    let target = timespecadd curr (c.config).cf_retry_interval in
    record c { target = target; timeout = timespecsub target curr }

-- The next round at the interval of the mode.
unfoldable pub keep_pace : Timespec → Cleanerd → Cleanerd
keep_pace curr c =
    let interval = current_cleaning_interval c in
    if not (timespec_lt curr c.target) || c.no_timeout
    then record c { timeout = timespec_zero; target = timespecadd curr interval }
    else record c { timeout = timespecsub c.target curr; target = timespecadd c.target interval }

unfoldable pub init_interval : Result Timespec → Cleanerd → Result Cleanerd
init_interval monotonic c =
    monotonic >>= λ now. ok (record c { target = timespecadd now (c.config).cf_cleaning_interval })

module _ (monotonic realtime : Result Timespec) where
  -- No segment was cleaned.
  unfoldable pub nothing_cleaned : ℤ → ℤ → Cleanerd → Result Cleanerd
  nothing_cleaned prottime oldest c =
      if in_manual c
      then ok (manual_end c)
      else if eqb_ℤ oldest nulltime
      then (let d : Cleanerd =
            if not (eqb_ℤ c.running idle) then record c { running = idle } else c in
          ok (sleep_at_least (current_protection_period d) d))
      else (realtime >>= λ now. ok (sleep_at_least (until_unprotected prottime oldest now) c))

  unfoldable pub recalc_interval : ℕ → ℕ → ℤ → ℤ → Cleanerd → Result Cleanerd
  recalc_interval nchosen ndone prottime oldest c =
      if nchosen == 0 || not c.fallback && ndone == 0 && not c.retry_cleaning
      then nothing_cleaned prottime oldest c
      else (monotonic >>= λ curr.
          if c.fallback then ok (retry_later curr c) else ok (keep_pace curr c))
