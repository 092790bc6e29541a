-- ===== src/Cleaner/Args.antt =====
-- The arguments of a manual run (struct nilfs_cleaner_args of include/nilfs_cleaner.h), and the steps
-- of nilfs_cleanerd_cmd_run of sbin/cleanerd.c that check them and enter them into the state. A
-- rejected request leaves what the steps before have entered.
use nilfs_utils.Base.{
  ℕ, ◌+◌, ◌*◌, ◌/◌, ◌%◌, ◌^◌, ◌-◌, Bool, ◌||◌, List, ltb, ◌==◌, if◌then◌else◌, Result, ok, ◌>>=◌,
  u32, pos, to_int64,
}
use nilfs_utils.Segment.Bytes.{le, le16, le32, le64}
use nilfs_utils.Cleaner.{Cleanerd}

-- struct nilfs_cleaner_args, without the fields that are reserved
pub record CleanerArgs : Type 0 where
  pub valid : ℕ
  pub npasses : ℕ
  pub nsegments_per_clean : ℕ
  pub min_reclaimable_blocks_unit : ℕ
  pub cleaning_interval : ℕ
  pub cleaning_interval_nsec : ℕ
  pub protection_period : ℕ
  pub min_reclaimable_blocks : ℕ

-- sizeof(struct nilfs_cleaner_args)
abbrev pub sizeof_args : ℕ
sizeof_args = 48

-- The arguments, as the handler finds them in the bytes after the header.
unfoldable pub read_args : List ℕ → Result CleanerArgs
unfolding le
read_args buf = le16 buf 0 >>= λ valid. le16 buf 2 >>= λ npasses. le16 buf 6 >>= λ nsegments.
    le 1 buf 9 >>= λ unit. le16 buf 10 >>= λ interval. le32 buf 12 >>= λ nsec.
    le64 buf 16 >>= λ period. le32 buf 44 >>= λ blocks. ok (record {
      valid = valid;
      npasses = npasses;
      nsegments_per_clean = nsegments;
      min_reclaimable_blocks_unit = unit;
      cleaning_interval = interval;
      cleaning_interval_nsec = nsec;
      protection_period = period;
      min_reclaimable_blocks = blocks;
    })

-- the test of a flag of `valid`, by its weight
abbrev pub has_arg : ℕ → CleanerArgs → Bool
has_arg weight args = args.valid / weight % 2 == 1

pub data Checked : Type 0 where
  accepted : Cleanerd → Checked
  rejected : Cleanerd → Checked

infixl 5 ◌then_check◌
abbrev pub ◌then_check◌ : Checked → (Cleanerd → Checked) → Checked
accepted c then_check f = f c
rejected c then_check f = rejected c

-- The steps of nilfs_cleanerd_cmd_run, each on one argument.
unfoldable pub set_protection_period : CleanerArgs → Cleanerd → Checked
set_protection_period args c =
    if has_arg 1 args
    then if ltb (2 ^ 64 - 1) args.protection_period
      then rejected c
      else accepted (record c {
        mm_protection_period = record { tv_sec = to_int64 args.protection_period; tv_nsec = pos 0 };
      })
    else accepted (record c { mm_protection_period = (c.config).cf_protection_period })

unfoldable pub set_nsegments : CleanerArgs → Cleanerd → Checked
set_nsegments args c =
    if has_arg 2 args
    then if args.nsegments_per_clean == 0 || ltb 32 args.nsegments_per_clean
      then rejected c
      else accepted (record c { mm_ncleansegs = args.nsegments_per_clean })
    else accepted (record c { mm_ncleansegs = c.ncleansegs })

unfoldable pub set_cleaning_interval : CleanerArgs → Cleanerd → Checked
set_cleaning_interval args c =
    if has_arg 4 args
    then accepted (record c {
      mm_cleaning_interval = record {
        tv_sec = pos args.cleaning_interval;
        tv_nsec = pos args.cleaning_interval_nsec;
      };
    })
    else accepted (record c { mm_cleaning_interval = c.cleaning_interval })

-- Units 0 (blocks) and 1 (percent) are known.
unfoldable pub set_min_reclaimable_blocks : ℕ → CleanerArgs → Cleanerd → Checked
set_min_reclaimable_blocks blocks_per_segment args c =
    if has_arg 256 args
    then if args.min_reclaimable_blocks_unit == 0
      then if ltb blocks_per_segment args.min_reclaimable_blocks
        then rejected c
        else accepted (record c { mm_min_reclaimable_blocks = args.min_reclaimable_blocks })
      else if args.min_reclaimable_blocks_unit == 1
      then if ltb 100 args.min_reclaimable_blocks
        then rejected c
        else accepted (record c {
          mm_min_reclaimable_blocks =
              u32 (args.min_reclaimable_blocks * blocks_per_segment + 99) / 100;
        })
      else rejected c
    else accepted (record c { mm_min_reclaimable_blocks = c.min_reclaimable_blocks })

unfoldable pub set_npasses : CleanerArgs → Cleanerd → Checked
set_npasses args c =
    if has_arg 64 args
    then if args.npasses == 0
      then rejected c
      else accepted (record c { mm_nrestpasses = args.npasses; mm_nrestsegs = 0 })
    else accepted (record c { mm_nrestpasses = 1; mm_nrestsegs = 0 })

unfoldable pub set_args : ℕ → CleanerArgs → Cleanerd → Checked
set_args blocks_per_segment args c =
    set_protection_period args c
    then_check set_nsegments args
    then_check set_cleaning_interval args
    then_check set_min_reclaimable_blocks blocks_per_segment args
    then_check set_npasses args
