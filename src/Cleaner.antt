-- ===== src/Cleaner.antt =====
-- The state of the cleaner daemon (struct nilfs_cleanerd of sbin/cleanerd.h and sbin/cleanerd.c), the
-- values that depend on its mode, and its transitions. `running` is -1 while the daemon is suspended,
-- 0 while it is idle, 1 while it cleans by itself and 2 in a manual run. Fields that no function of
-- the model reads (names, queues' descriptors, the open file system) are left out, and so are the
-- messages to the log. The C integers that are used as flags are Booleans.
pub mod Args
pub mod Messages
pub mod Accept
pub mod Control
pub mod Check
pub mod Interval
pub mod Select
pub mod Clean
pub mod Round
use nilfs_utils.Base.{
  ℕ, ◌+◌, ◌*◌, ◌/◌, ◌<◌, max, Bool, true, false, Option, none, some, ltb, if◌then◌else◌, u32, u64,
  ℤ, pos, negsuc, eqb_ℤ, Timespec, timespecadd, Result, ok, err, fault,
}

-- struct nilfs_cldconfig of sbin/cldconfig.h
pub record Config : Type 0 where
  pub cf_protection_period : Timespec
  pub cf_min_clean_segments : ℕ
  pub cf_max_clean_segments : ℕ
  pub cf_clean_check_interval : Timespec
  pub cf_nsegments_per_clean : ℕ
  pub cf_mc_nsegments_per_clean : ℕ
  pub cf_cleaning_interval : Timespec
  pub cf_mc_cleaning_interval : Timespec
  pub cf_retry_interval : Timespec
  pub cf_min_reclaimable_blocks : ℕ
  pub cf_mc_min_reclaimable_blocks : ℕ

-- struct nilfs_cleanerd. `client` is the client whose queue is open (sendq and client_uuid).
pub record Cleanerd : Type 0 where
  pub config : Config
  pub running : ℤ
  pub fallback : Bool
  pub retry_cleaning : Bool
  pub no_timeout : Bool
  pub shutdown : Bool
  pub ncleansegs : ℕ
  pub cleaning_interval : Timespec
  pub target : Timespec
  pub timeout : Timespec
  pub min_reclaimable_blocks : ℕ
  pub prev_nongc_ctime : ℕ
  pub client : Option ℕ
  pub jobid : ℕ
  pub mm_prev_state : ℤ
  pub mm_nrestpasses : ℕ
  pub mm_nrestsegs : ℕ
  pub mm_ncleansegs : ℕ
  pub mm_protection_period : Timespec
  pub mm_cleaning_interval : Timespec
  pub mm_min_reclaimable_blocks : ℕ

-- struct nilfs_sustat, the fields that the daemon reads
pub record Sustat : Type 0 where
  pub ss_nsegs : ℕ
  pub ss_ncleansegs : ℕ
  pub ss_nongc_ctime : ℕ
  pub ss_prot_seq : ℕ

abbrev pub suspended : ℤ
suspended = negsuc 0

abbrev pub idle : ℤ
idle = pos 0

abbrev pub automatic : ℤ
automatic = pos 1

abbrev pub manual : ℤ
manual = pos 2

abbrev pub in_manual : Cleanerd → Bool
in_manual c = eqb_ℤ c.running manual

unfoldable pub automatic_suspend : Cleanerd → Bool
automatic_suspend c = ltb 0 (c.config).cf_min_clean_segments

-- the number of segments to clean at once
unfoldable pub current_ncleansegs : Cleanerd → ℕ
current_ncleansegs c = if in_manual c then c.mm_ncleansegs else c.ncleansegs

unfoldable pub current_cleaning_interval : Cleanerd → Timespec
current_cleaning_interval c = if in_manual c then c.mm_cleaning_interval else c.cleaning_interval

unfoldable pub current_protection_period : Cleanerd → Timespec
current_protection_period c =
    if in_manual c then c.mm_protection_period else (c.config).cf_protection_period

unfoldable pub current_min_reclaimable_blocks : Cleanerd → ℕ
current_min_reclaimable_blocks c =
    if in_manual c then c.mm_min_reclaimable_blocks else c.min_reclaimable_blocks

-- As the code has it: a manual run halves the number of the automatic mode, and the reverse.
unfoldable pub reduce_ncleansegs_for_retry : Cleanerd → Cleanerd
reduce_ncleansegs_for_retry c =
    if in_manual c
    then if ltb 1 c.ncleansegs then record c { ncleansegs = c.ncleansegs / 2 } else c
    else if ltb 1 c.mm_ncleansegs
    then record c { mm_ncleansegs = c.mm_ncleansegs / 2 }
    else c

unfoldable pub clean_check_pause : Cleanerd → Cleanerd
clean_check_pause c = record c { running = idle; timeout = (c.config).cf_clean_check_interval }

unfoldable pub clean_check_resume : Cleanerd → Cleanerd
clean_check_resume c = record c { running = automatic }

unfoldable pub manual_suspend : Cleanerd → Cleanerd
manual_suspend c = record c {
  mm_prev_state = c.running;
  running = suspended;
  timeout = (c.config).cf_clean_check_interval;
}

-- As the code has it: `running` becomes the 0 that was just stored.
unfoldable pub manual_resume : Cleanerd → Cleanerd
manual_resume c =
    let d = record c { mm_prev_state = idle } in record d { running = d.mm_prev_state }

unfoldable pub manual_run : Cleanerd → Cleanerd
manual_run c = record c { running = manual }

unfoldable pub manual_end : Cleanerd → Cleanerd
manual_end c = record c { running = idle; timeout = (c.config).cf_clean_check_interval }

unfoldable pub manual_stop : Cleanerd → Cleanerd
manual_stop c = record c { running = idle; timeout = (c.config).cf_clean_check_interval }

-- What nilfs_cleanerd_config leaves in the configuration: `loaded` is what nilfs_cldconfig_read put
-- there, `override` the protection period of the command line.
unfoldable pub override_protection_period : Option ℤ → Config → Config
override_protection_period none loaded = loaded
override_protection_period (some seconds) loaded = record loaded {
  cf_protection_period = record { tv_sec = seconds; tv_nsec = pos 0 };
}

-- nilfs_cleanerd_reconfig, given what nilfs_cldconfig_read answers: it fails before it changes
-- anything, or leaves a whole configuration.
unfoldable pub reconfig : Option ℤ → Result Config → Cleanerd → Cleanerd × Result (Unit {0})
unfolding override_protection_period
reconfig override read c = elim read [
  | ok loaded ↦
      let cf = override_protection_period override loaded in
      (
        record c {
          config = cf;
          ncleansegs = cf.cf_nsegments_per_clean;
          cleaning_interval = cf.cf_cleaning_interval;
          min_reclaimable_blocks = cf.cf_min_reclaimable_blocks;
        },
        ok tt,
      )
  | err e ↦ (c, err e)
  | fault ↦ (c, fault)
]

-- nilfs_get_reserved_segments, in 64 bits; 8 is NILFS_MIN_NRSVSEGS.
unfoldable pub get_reserved_segments : ℕ → ℕ → ℕ
get_reserved_segments ratio nsegs = max (u64 (nsegs * ratio + 99) / 100) 8
