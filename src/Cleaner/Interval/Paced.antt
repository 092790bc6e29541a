-- ===== src/Cleaner/Interval/Paced.antt =====
-- The invariant on the times of the cleaner daemon, and nilfs_cleanerd_recalc_interval of
-- sbin/cleanerd.c, which keeps it.
use nilfs_utils.Base.{
  ℕ, ◌≡◌, refl, Bool, true, false, not, ◌||◌, if◌then◌else◌, Bool-cases, inl, inr, arith, Result, ℤ,
  pos, eqb_ℤ, Timespec, timespec_zero, timespec_lt,
}
use nilfs_utils.Segment.Bytes.{Safe, Safe-bind}
use nilfs_utils.Cleaner.{
  Config, Cleanerd, in_manual, idle, manual_end, current_cleaning_interval,
  current_protection_period,
}
use nilfs_utils.Cleaner.Interval.{
  nulltime, until_unprotected, sleep_at_least, nothing_cleaned, retry_later, keep_pace,
  recalc_interval,
}
use nilfs_utils.Cleaner.Interval.Bounds.{
  IsNormal, IsTimeout, timespecadd-IsNormal, timespecsub-IsTimeout, timespecadd-NotAfter,
  timespec_lt-NotAfter, at_least-IsTimeout,
}

-- A configuration with well-formed times.
pub record IsTimed (cf : Config) : Type 0 where
  pub period : IsNormal cf.cf_protection_period
  pub check : IsTimeout cf.cf_clean_check_interval
  pub interval : IsTimeout cf.cf_cleaning_interval
  pub mc_interval : IsTimeout cf.cf_mc_cleaning_interval
  pub retry : IsTimeout cf.cf_retry_interval

pub record IsPaced (c : Cleanerd) : Type 0 where
  pub config : IsTimed c.config
  pub interval : IsTimeout c.cleaning_interval
  pub mm_period : IsNormal c.mm_protection_period
  pub mm_interval : IsTimeout c.mm_cleaning_interval
  pub target : IsNormal c.target
  pub timeout : IsTimeout c.timeout

-- The same state with other times for the next sleep.
pub retime :
    (c d : Cleanerd)
    → IsPaced c
    → d.config ≡ c.config
    → d.cleaning_interval ≡ c.cleaning_interval
    → d.mm_protection_period ≡ c.mm_protection_period
    → d.mm_cleaning_interval ≡ c.mm_cleaning_interval
    → IsNormal d.target
    → IsTimeout d.timeout
    → IsPaced d
retime c d paced cf interval period mm_interval target timeout = record {
  config = rw cf paced.config;
  interval = rw interval paced.interval;
  mm_period = rw period paced.mm_period;
  mm_interval = rw mm_interval paced.mm_interval;
  target = target;
  timeout = timeout;
}

-- The period, and the interval, of the mode.
period_lem : (b : Bool) (t u : Timespec) → IsNormal t → IsNormal u → IsNormal (if b then t else u)
period_lem true t u n m = n
period_lem false t u n m = m

interval_lem :
    (b : Bool) (t u : Timespec) → IsTimeout t → IsTimeout u → IsTimeout (if b then t else u)
interval_lem true t u n m = n
interval_lem false t u n m = m

sleep_at_least-IsPaced :
    (t : Timespec) (c : Cleanerd) → IsPaced c → IsNormal t → IsPaced (sleep_at_least t c)
unfolding sleep_at_least
sleep_at_least-IsPaced t c paced n =
    retime c _ paced refl refl refl refl paced.target
      (at_least-IsTimeout (c.config).cf_clean_check_interval t (paced.config).check n)

pub second : (s : ℤ) → IsNormal (record { tv_sec = s; tv_nsec = pos 0 })
second s = record { low = omega arith; high = omega arith }

at_once : IsTimeout timespec_zero
at_once = record {
  normal = record { low = omega arith; high = omega arith };
  positive = omega arith;
}

-- The mode, alone, changes no time.
pub remode : (c : Cleanerd) (running : ℤ) → IsPaced c → IsPaced (record c { running = running })
remode c running paced = retime c _ paced refl refl refl refl paced.target paced.timeout

pub manual_end-IsPaced : (c : Cleanerd) → IsPaced c → IsPaced (manual_end c)
unfolding manual_end
manual_end-IsPaced c paced = retime c _ paced refl refl refl refl paced.target (paced.config).check

pub Paced_either :
    (b : Bool) (c d : Cleanerd) → IsPaced c → IsPaced d → IsPaced (if b then c else d)
Paced_either true c d p q = p
Paced_either false c d p q = q

pub Safe_either :
    (b : Bool) (r t : Result Cleanerd)
    → Safe IsPaced r
    → Safe IsPaced t
    → Safe IsPaced (if b then r else t)
Safe_either true r t p q = p
Safe_either false r t p q = q

idle_sleep :
    (b : Bool) (c : Cleanerd)
    → IsPaced c
    → IsPaced (
        sleep_at_least
          (current_protection_period (if b then record c { running = idle } else c))
          (if b then record c { running = idle } else c))
unfolding current_protection_period
idle_sleep b c paced =
    let d : Cleanerd = if b then record c { running = idle } else c in
    let still : IsPaced d = Paced_either b _ c (remode c idle paced) paced in
    sleep_at_least-IsPaced _ d still
      (period_lem (in_manual d) _ _ still.mm_period (still.config).period)

module _ (monotonic realtime : Result Timespec) (clock : Safe IsNormal monotonic)
    (calendar : Safe IsNormal realtime) where
  nothing_cleaned-IsPaced :
      (prottime oldest : ℤ) (c : Cleanerd)
      → IsPaced c
      → Safe IsPaced (nothing_cleaned monotonic realtime prottime oldest c)
  unfolding nothing_cleaned until_unprotected
  nothing_cleaned-IsPaced prottime oldest c paced =
      Safe_either (in_manual c) _ _ (manual_end-IsPaced c paced) (
        Safe_either (eqb_ℤ oldest nulltime) _ _ (idle_sleep (not (eqb_ℤ c.running idle)) c paced) (
          Safe-bind IsPaced realtime _ calendar (λ now fine.
            sleep_at_least-IsPaced (until_unprotected prottime oldest now) c paced (second _))))

  retry_later-IsPaced :
      (curr : Timespec) (c : Cleanerd) → IsNormal curr → IsPaced c → IsPaced (retry_later curr c)
  unfolding retry_later
  retry_later-IsPaced curr c now paced =
      let wait = (paced.config).retry in
      let target = timespecadd-IsNormal curr _ now wait.normal in
      retime c _ paced refl refl refl refl target (
        timespecsub-IsTimeout _ curr target now
          (timespecadd-NotAfter curr _ now wait.normal wait.positive))

  keep_pace-IsPaced :
      (curr : Timespec) (c : Cleanerd) → IsNormal curr → IsPaced c → IsPaced (keep_pace curr c)
  unfolding keep_pace current_cleaning_interval
  keep_pace-IsPaced curr c now paced =
      let interval = interval_lem (in_manual c) _ _ paced.mm_interval paced.interval in
      elim (Bool-cases (not (timespec_lt curr c.target) || c.no_timeout)) [
        | inl late ↦ rw late (
            retime c _ paced refl refl refl refl (timespecadd-IsNormal curr _ now interval.normal)
              at_once)
        | inr early ↦ rw early (
            retime c _ paced refl refl refl refl
              (timespecadd-IsNormal c.target _ paced.target interval.normal)
              (timespecsub-IsTimeout c.target curr paced.target now
                (timespec_lt-NotAfter curr c.target (ground arith))))
      ]

  -- When the clocks answer well-formed times or fail, nilfs_cleanerd_recalc_interval keeps the times
  -- of the daemon well-formed on each of its branches: in particular the time-out that it leaves is
  -- one that ppoll takes.
  pub recalc_interval-IsPaced :
      (nchosen ndone : ℕ) (prottime oldest : ℤ) (c : Cleanerd)
      → IsPaced c
      → Safe IsPaced (recalc_interval monotonic realtime nchosen ndone prottime oldest c)
  unfolding recalc_interval
  recalc_interval-IsPaced nchosen ndone prottime oldest c paced =
      Safe_either _ _ _ (nothing_cleaned-IsPaced prottime oldest c paced) (
        Safe-bind IsPaced monotonic _ clock (λ curr now.
          Safe_either c.fallback _ _ (retry_later-IsPaced curr c now paced)
            (keep_pace-IsPaced curr c now paced)))
