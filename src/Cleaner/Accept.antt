-- ===== src/Cleaner/Accept.antt =====
-- nilfs_cleanerd_cmd_run of sbin/cleanerd.c: which arguments are accepted, and what the checks leave.
use nilfs_utils.Base.{ℕ, ◌^◌, ◌-◌, ◌≡◌, refl, Bool, true, false, not, ◌&&◌, ◌||◌, leb, ◌==◌, arith}
use nilfs_utils.Cleaner.{Cleanerd}
use nilfs_utils.Cleaner.Args.{
  CleanerArgs, has_arg, Checked, accepted, rejected, ◌then_check◌, set_protection_period,
  set_nsegments, set_cleaning_interval, set_min_reclaimable_blocks, set_npasses, set_args,
}

-- The conditions on the arguments that are present, written out.
abbrev pub period_ok : CleanerArgs → Bool
period_ok args = not (has_arg 1 args) || leb args.protection_period (2 ^ 64 - 1)

abbrev pub nsegments_ok : CleanerArgs → Bool
nsegments_ok args =
    not (has_arg 2 args) || leb 1 args.nsegments_per_clean && leb args.nsegments_per_clean 32

abbrev pub blocks_ok : ℕ → CleanerArgs → Bool
blocks_ok blocks_per_segment args =
    not (has_arg 256 args)
    || args.min_reclaimable_blocks_unit == 0 && leb args.min_reclaimable_blocks blocks_per_segment
    || args.min_reclaimable_blocks_unit == 1 && leb args.min_reclaimable_blocks 100

abbrev pub npasses_ok : CleanerArgs → Bool
npasses_ok args = not (has_arg 64 args) || leb 1 args.npasses

abbrev pub acceptable : ℕ → CleanerArgs → Bool
acceptable blocks_per_segment args =
    ((period_ok args && nsegments_ok args) && blocks_ok blocks_per_segment args) && npasses_ok args

-- What the checks leave alone.
pub record SameBut (c d : Cleanerd) : Type 0 where
  pub running : d.running ≡ c.running
  pub shutdown : d.shutdown ≡ c.shutdown
  pub jobid : d.jobid ≡ c.jobid
  pub client : d.client ≡ c.client
  pub config : d.config ≡ c.config
  pub ncleansegs : d.ncleansegs ≡ c.ncleansegs
  pub cleaning_interval : d.cleaning_interval ≡ c.cleaning_interval
  pub min_reclaimable_blocks : d.min_reclaimable_blocks ≡ c.min_reclaimable_blocks
  pub timeout : d.timeout ≡ c.timeout
  pub target : d.target ≡ c.target

abbrev pub outcome : Checked → Cleanerd
outcome (accepted d) = d
outcome (rejected d) = d

abbrev pub is_accepted : Checked → Bool
is_accepted (accepted d) = true
is_accepted (rejected d) = false

-- A check that answers as `fine` says.
abbrev Answers : Bool → Cleanerd → Checked → Type 0
Answers fine c r = (is_accepted r ≡ fine) × SameBut c (outcome r)

set_protection_period-Answers :
    (args : CleanerArgs) (c : Cleanerd) → Answers (period_ok args) c (set_protection_period args c)
unfolding set_protection_period
set_protection_period-Answers args c = ground arith

set_nsegments-Answers :
    (args : CleanerArgs) (c : Cleanerd) → Answers (nsegments_ok args) c (set_nsegments args c)
unfolding set_nsegments
set_nsegments-Answers args c = ground arith

set_cleaning_interval-Answers :
    (args : CleanerArgs) (c : Cleanerd) → Answers true c (set_cleaning_interval args c)
unfolding set_cleaning_interval
set_cleaning_interval-Answers args c = ground arith

set_min_reclaimable_blocks-Answers :
    (blocks_per_segment : ℕ) (args : CleanerArgs) (c : Cleanerd)
    → Answers
        (blocks_ok blocks_per_segment args)
        c
        (set_min_reclaimable_blocks blocks_per_segment args c)
unfolding set_min_reclaimable_blocks
set_min_reclaimable_blocks-Answers blocks_per_segment args c = ground arith

set_npasses-Answers :
    (args : CleanerArgs) (c : Cleanerd) → Answers (npasses_ok args) c (set_npasses args c)
unfolding set_npasses
set_npasses-Answers args c = ground arith

SameBut-trans : {c d e : Cleanerd} → SameBut c d → SameBut d e → SameBut c e
SameBut-trans s t = ground arith

then_check-Answers :
    (fine more : Bool) (c : Cleanerd) (r : Checked) (f : Cleanerd → Checked)
    → Answers fine c r
    → ((d : Cleanerd) → Answers more d (f d))
    → Answers (fine && more) c (r then_check f)
then_check-Answers true more c (accepted d) f (e, same) g = ((g d).0, SameBut-trans same (g d).1)
then_check-Answers false more c (accepted d) f (e, same) g = absurd (cc e)
then_check-Answers true more c (rejected d) f (e, same) g = absurd (cc e)
then_check-Answers false more c (rejected d) f (e, same) g = (refl, same)

and_true : (b : Bool) → (b && true) ≡ b
and_true true = refl
and_true false = refl

-- The checks of nilfs_cleanerd_cmd_run accept exactly the acceptable arguments, and leave the mode and
-- the values of the automatic mode alone even if they reject.
pub set_args-Answers :
    (blocks_per_segment : ℕ) (args : CleanerArgs) (c : Cleanerd)
    → (is_accepted (set_args blocks_per_segment args c) ≡ acceptable blocks_per_segment args)
      × SameBut c (outcome (set_args blocks_per_segment args c))
unfolding set_args
set_args-Answers blocks_per_segment args c =
    let two =
      then_check-Answers _ _ c _ (set_nsegments args) (set_protection_period-Answers args c)
        (set_nsegments-Answers args) in
    let three =
      then_check-Answers _ _ c _ (set_cleaning_interval args) two
        (set_cleaning_interval-Answers args) in
    let four =
      then_check-Answers (period_ok args && nsegments_ok args) _ c _
        (set_min_reclaimable_blocks blocks_per_segment args)
        (rw (and_true (period_ok args && nsegments_ok args)) at three)
        (set_min_reclaimable_blocks-Answers blocks_per_segment args) in
    then_check-Answers _ _ c _ (set_npasses args) four (set_npasses-Answers args)
