-- ===== src/Cleaner/Interval/Requests.antt =====
-- The requests to the cleaner daemon of sbin/cleanerd.c keep its times well-formed, if those of a run
-- are.
use nilfs_utils.Base.{
  ℕ, ◌<◌, ◌≡◌, refl, Bool, true, false, ◌||◌, ◌==◌, if◌then◌else◌, Bool-cases, ltb, inl, inr, arith,
  Timespec, ◌^◌, ◌-◌,
}
use nilfs_utils.Cleaner.{Cleanerd}
use nilfs_utils.Cleaner.Args.{
  CleanerArgs, has_arg, Checked, accepted, rejected, ◌then_check◌, set_protection_period,
  set_nsegments, set_cleaning_interval, set_min_reclaimable_blocks, set_npasses, set_args,
}
use nilfs_utils.Cleaner.Accept.{outcome}
use nilfs_utils.Cleaner.Interval.Bounds.{IsNormal, IsTimeout}
use nilfs_utils.Cleaner.Interval.Paced.{IsPaced, retime, second}

-- The interval of a run, if it has one, is well-formed.
abbrev pub WellTimed : CleanerArgs → Type 0
WellTimed args = has_arg 4 args ≡ true → args.cleaning_interval_nsec < 1000000000

module _ (c : Cleanerd) (paced : IsPaced c) where
  -- Changes that no time depends on.
  pub aside :
      (d : Cleanerd)
      → d.config ≡ c.config
      → d.cleaning_interval ≡ c.cleaning_interval
      → d.mm_protection_period ≡ c.mm_protection_period
      → d.mm_cleaning_interval ≡ c.mm_cleaning_interval
      → d.target ≡ c.target
      → d.timeout ≡ c.timeout
      → IsPaced d
  aside d a b e f g h = retime c d paced a b e f (rw g paced.target) (rw h paced.timeout)

pick :
    (b : Bool) (r t : Checked)
    → IsPaced (outcome r)
    → IsPaced (outcome t)
    → IsPaced (outcome (if b then r else t))
pick true r t p q = p
pick false r t p q = q

next_check :
    (r : Checked) (f : Cleanerd → Checked)
    → IsPaced (outcome r)
    → ((d : Cleanerd) → IsPaced d → IsPaced (outcome (f d)))
    → IsPaced (outcome (r then_check f))
next_check (accepted d) f p keeps = keeps d p
next_check (rejected d) f p keeps = p

new_interval :
    (c : Cleanerd) (t : Timespec)
    → IsPaced c
    → IsTimeout t
    → IsPaced (record c { mm_cleaning_interval = t })
new_interval c t paced fine = record {
  config = paced.config;
  interval = paced.interval;
  mm_period = paced.mm_period;
  mm_interval = fine;
  target = paced.target;
  timeout = paced.timeout;
}

new_period :
    (c : Cleanerd) (t : Timespec)
    → IsPaced c
    → IsNormal t
    → IsPaced (record c { mm_protection_period = t })
new_period c t paced fine = record {
  config = paced.config;
  interval = paced.interval;
  mm_period = fine;
  mm_interval = paced.mm_interval;
  target = paced.target;
  timeout = paced.timeout;
}

set_protection_period-IsPaced :
    (args : CleanerArgs) (c : Cleanerd)
    → IsPaced c
    → IsPaced (outcome (set_protection_period args c))
unfolding set_protection_period
set_protection_period-IsPaced args c paced =
    pick (has_arg 1 args) _ _
      (pick (ltb (2 ^ 64 - 1) args.protection_period) _ _ paced (new_period c _ paced (second _)))
      (new_period c _ paced (paced.config).period)

set_cleaning_interval-IsPaced :
    (args : CleanerArgs) (c : Cleanerd)
    → WellTimed args
    → IsPaced c
    → IsPaced (outcome (set_cleaning_interval args c))
unfolding set_cleaning_interval
set_cleaning_interval-IsPaced args c well paced = elim (Bool-cases (has_arg 4 args)) [
  | inl given ↦
      let small = well given in
      rw given (
        new_interval c _ paced (record {
          normal = record { low = omega arith; high = omega arith };
          positive = omega arith;
        }))
  | inr default ↦ rw default (new_interval c _ paced paced.interval)
]

set_nsegments-IsPaced :
    (args : CleanerArgs) (c : Cleanerd) → IsPaced c → IsPaced (outcome (set_nsegments args c))
unfolding set_nsegments
set_nsegments-IsPaced args c paced =
    pick (has_arg 2 args) _ _
      (pick (args.nsegments_per_clean == 0 || ltb 32 args.nsegments_per_clean) _ _ paced
        (aside c paced _ refl refl refl refl refl refl))
      (aside c paced _ refl refl refl refl refl refl)

set_min_reclaimable_blocks-IsPaced :
    (blocks_per_segment : ℕ) (args : CleanerArgs) (c : Cleanerd)
    → IsPaced c
    → IsPaced (outcome (set_min_reclaimable_blocks blocks_per_segment args c))
unfolding set_min_reclaimable_blocks
set_min_reclaimable_blocks-IsPaced blocks_per_segment args c paced =
    let apart = λ (n : ℕ).
      aside c paced (record c { mm_min_reclaimable_blocks = n }) refl refl refl refl refl refl in
    pick (has_arg 256 args) _ _
      (pick (args.min_reclaimable_blocks_unit == 0) _ _
        (pick (ltb blocks_per_segment args.min_reclaimable_blocks) _ _ paced (apart _))
        (pick (args.min_reclaimable_blocks_unit == 1) _ _
          (pick (ltb 100 args.min_reclaimable_blocks) _ _ paced (apart _)) paced))
      (apart _)

set_npasses-IsPaced :
    (args : CleanerArgs) (c : Cleanerd) → IsPaced c → IsPaced (outcome (set_npasses args c))
unfolding set_npasses
set_npasses-IsPaced args c paced =
    pick (has_arg 64 args) _ _
      (pick (args.npasses == 0) _ _ paced (aside c paced _ refl refl refl refl refl refl))
      (aside c paced _ refl refl refl refl refl refl)

pub set_args-IsPaced :
    (blocks_per_segment : ℕ) (args : CleanerArgs) (c : Cleanerd)
    → WellTimed args
    → IsPaced c
    → IsPaced (outcome (set_args blocks_per_segment args c))
unfolding set_args
set_args-IsPaced blocks_per_segment args c well paced =
    let one = set_protection_period args c in
    let two = one then_check set_nsegments args in
    let three = two then_check set_cleaning_interval args in
    let four = three then_check set_min_reclaimable_blocks blocks_per_segment args in
    let paced_two =
      next_check one (set_nsegments args) (set_protection_period-IsPaced args c paced)
        (set_nsegments-IsPaced args) in
    let paced_three =
      next_check two (set_cleaning_interval args) paced_two
        (λ d p. set_cleaning_interval-IsPaced args d well p) in
    let paced_four =
      next_check three (set_min_reclaimable_blocks blocks_per_segment args) paced_three
        (set_min_reclaimable_blocks-IsPaced blocks_per_segment args) in
    next_check four (set_npasses args) paced_four (set_npasses-IsPaced args)
