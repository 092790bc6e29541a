-- ===== src/Tests/Daemon.antt =====
-- The cleaner daemon at small inputs.
use nilfs_utils.Base.{
  ℕ, ◌≡◌, refl, true, false, List, [], ◌∷◌, ◌++◌, arith, none, some, Result, ok, err, einval, take,
  drop, length, replicate, pos, Timespec, timespec_zero, timespecadd, timespec_lt, ◌+ℤ◌, ◌-ℤ◌,
}
use nilfs_utils.Segment.Bytes.{Safe, le}
use nilfs_utils.Gc.Select.{Suinfo, suinfo_reclaimable}
use nilfs_utils.Gc.Reclaim.{ReclaimStat}
use nilfs_utils.Cleaner.{
  Config, Cleanerd, Sustat, suspended, automatic, manual, manual_suspend, manual_resume, manual_run,
}
use nilfs_utils.Cleaner.Args.{CleanerArgs, set_args}
use nilfs_utils.Cleaner.Accept.{acceptable, set_args-Answers, outcome, is_accepted, SameBut}
use nilfs_utils.Cleaner.Messages.{
  Mailbox, Surroundings, handle_message, dispatch, cmd_suspend, respond, send, open_and_send, ack,
}
use nilfs_utils.Cleaner.Control.{Mode, View}
use nilfs_utils.Cleaner.Control.Handle.{MessageMeets, handle_message-Meets}
use nilfs_utils.Cleaner.Check.{count_inuse_segments, count_inuse_loop, count_answer, check_state}
use nilfs_utils.Cleaner.Check.Count.{Reads, count_inuse_segments_lem}
use nilfs_utils.Cleaner.Check.Decide.{Decides, decide, situation, is_over, check_state-Decides}
use nilfs_utils.Cleaner.Interval.{recalc_interval, keep_pace}
use nilfs_utils.Cleaner.Interval.Bounds.{IsNormal, IsTimeout}
use nilfs_utils.Cleaner.Interval.Paced.{IsTimed, IsPaced, recalc_interval-IsPaced}
use nilfs_utils.Cleaner.Clean.{Collector}
use nilfs_utils.Cleaner.Round.{Answers, message}

abbrev pub seconds : ℕ → Timespec
seconds n = record { tv_sec = pos n; tv_nsec = pos 0 }

seconds-IsTimeout : (n : ℕ) → IsTimeout (seconds n)
seconds-IsTimeout n = record {
  normal = record { low = omega arith; high = omega arith };
  positive = omega arith;
}

abbrev pub config : Config
config = record {
  cf_protection_period = seconds 3600;
  cf_min_clean_segments = 10;
  cf_max_clean_segments = 20;
  cf_clean_check_interval = seconds 10;
  cf_nsegments_per_clean = 2;
  cf_mc_nsegments_per_clean = 4;
  cf_cleaning_interval = seconds 5;
  cf_mc_cleaning_interval = seconds 1;
  cf_retry_interval = seconds 60;
  cf_min_reclaimable_blocks = 10;
  cf_mc_min_reclaimable_blocks = 1;
}

config-IsTimed : IsTimed config
config-IsTimed = record {
  period = (seconds-IsTimeout 3600).normal;
  check = seconds-IsTimeout 10;
  interval = seconds-IsTimeout 5;
  mc_interval = seconds-IsTimeout 1;
  retry = seconds-IsTimeout 60;
}

-- The state that nilfs_cleanerd_create leaves.
abbrev pub created : Cleanerd
created = record {
  config = config;
  running = pos 0;
  fallback = false;
  retry_cleaning = false;
  no_timeout = false;
  shutdown = false;
  ncleansegs = 0;
  cleaning_interval = timespec_zero;
  target = timespec_zero;
  timeout = timespec_zero;
  min_reclaimable_blocks = 0;
  prev_nongc_ctime = 0;
  client = none;
  jobid = 0;
  mm_prev_state = pos 0;
  mm_nrestpasses = 0;
  mm_nrestsegs = 0;
  mm_ncleansegs = 0;
  mm_protection_period = timespec_zero;
  mm_cleaning_interval = timespec_zero;
  mm_min_reclaimable_blocks = 0;
}

abbrev pub cleaning : Cleanerd
cleaning = record created { running = automatic }

abbrev box : Mailbox
box = record { opens = true; sends = true }

abbrev pub env : Surroundings
env = record { blocks_per_segment = 2048; override = none; read = λ file. ok config }

-- A message with a command, a client and a payload.
abbrev bytes_of : ℕ → List ℕ → List ℕ
bytes_of cmd payload = cmd ∷ 0 ∷ 0 ∷ 0 ∷ length payload ∷ 0 ∷ 0 ∷ 0 ∷ (replicate 16 7 ++ payload)

abbrev view_of : Mode → View
view_of m = record { mode = m; stopping = false; jobs = 0 }

suspends :
    handle_message env box (bytes_of 2 []) cleaning
    ≡ ok (
      record cleaning {
        mm_prev_state = automatic;
        running = suspended;
        timeout = seconds 10;
        client = some 9341084582143408800955381380479911687;
      },
      ok ack,
    )
unfolding handle_message dispatch cmd_suspend respond open_and_send send manual_suspend le
suspends = refl

handle_message-Meets_example :
    MessageMeets env
      (λ file. tt)
      box
      (bytes_of 2 [])
      (view_of Mode.automatic)
      cleaning
      (handle_message env box (bytes_of 2 []) cleaning)
handle_message-Meets_example =
    handle_message-Meets env (λ file. tt) box (bytes_of 2 []) (view_of Mode.automatic) cleaning
      (record { mode = refl; stopping = refl; jobs = refl })

-- A run of two passes over four segments at a time; too many segments are refused.
abbrev two_passes : CleanerArgs
two_passes = record {
  valid = 66;
  npasses = 2;
  nsegments_per_clean = 4;
  min_reclaimable_blocks_unit = 0;
  cleaning_interval = 0;
  cleaning_interval_nsec = 0;
  protection_period = 0;
  min_reclaimable_blocks = 0;
}

set_args-Answers_example :
    (is_accepted (set_args 2048 (record two_passes { nsegments_per_clean = 33 }) cleaning)
      ≡ acceptable 2048 (record two_passes { nsegments_per_clean = 33 }))
    × SameBut cleaning
        (outcome (set_args 2048 (record two_passes { nsegments_per_clean = 33 }) cleaning))
set_args-Answers_example =
    set_args-Answers 2048 (record two_passes { nsegments_per_clean = 33 }) cleaning

-- Three segments, the second one clean.
abbrev pub dirty : Suinfo
dirty = record { sui_lastmod = 5; sui_nblocks = 7; sui_flags = 2 }

abbrev clean : Suinfo
clean = record { sui_lastmod = 0; sui_nblocks = 0; sui_flags = 0 }

abbrev table : List Suinfo
table = dirty ∷ clean ∷ dirty ∷ []

abbrev read_table : ℕ → ℕ → Result (List Suinfo)
read_table segnum count = ok (take count (drop segnum table))

read_table-Reads : Reads read_table table
read_table-Reads = record {
  answers = λ segnum count inside some_asked. (count, refl, omega arith, omega arith);
}

count_inuse_segments_lem_example : count_inuse_segments read_table 3 ≡ ok 2
unfolding suinfo_reclaimable
count_inuse_segments_lem_example = count_inuse_segments_lem read_table table read_table-Reads

-- A call that answers no record for a segment that exists makes the loop run for ever.
no_record_hangs : count_inuse_segments (λ segnum count. ok []) 3 ≡ Result.fault
unfolding count_inuse_segments count_inuse_loop count_answer
no_record_hangs = refl

abbrev pub sustat : Sustat
sustat = record { ss_nsegs = 3; ss_ncleansegs = 30; ss_nongc_ctime = 9; ss_prot_seq = 4 }

table_counts : Safe (λ n. Unit) (count_inuse_segments read_table 3)
table_counts = rw (count_inuse_segments_lem read_table table read_table-Reads) tt

check_state-Decides_example :
    Safe
      (Decides (
        decide (situation 5 sustat cleaning (is_over 5 sustat read_table cleaning)) Mode.automatic))
      (check_state read_table 5 sustat cleaning)
check_state-Decides_example =
    check_state-Decides 5 sustat read_table table_counts Mode.automatic cleaning refl

paced :
    (c : Cleanerd)
    → c.config ≡ config
    → IsTimeout c.cleaning_interval
    → IsTimeout c.mm_cleaning_interval
    → IsNormal c.mm_protection_period
    → IsNormal c.target
    → IsTimeout c.timeout
    → IsPaced c
paced c e a b f g h = record {
  config = rw e config-IsTimed;
  interval = a;
  mm_period = f;
  mm_interval = b;
  target = g;
  timeout = h;
}

cleaning-IsPaced : IsPaced cleaning
cleaning-IsPaced =
    let zero_time = seconds-IsTimeout 0 in
    paced cleaning refl zero_time zero_time zero_time.normal zero_time.normal zero_time

recalc_interval-IsPaced_example :
    Safe IsPaced (recalc_interval (ok (seconds 100)) (ok (seconds 7)) 1 1 (pos 0) (pos 9) cleaning)
recalc_interval-IsPaced_example =
    recalc_interval-IsPaced (ok (seconds 100)) (ok (seconds 7)) (seconds-IsTimeout 100).normal
      (seconds-IsTimeout 7).normal 1 1 (pos 0) (pos 9) cleaning cleaning-IsPaced

-- An interval of three thousand million nanoseconds, which no check refuses, makes a time-out that
-- ppoll does not take.
abbrev hurried : Cleanerd
hurried = record cleaning {
  running = manual;
  target = record { tv_sec = pos 103; tv_nsec = pos 2000000000 };
  mm_cleaning_interval = record { tv_sec = pos 0; tv_nsec = pos 3000000000 };
}

abbrev tenth : Timespec
tenth = record { tv_sec = pos 100; tv_nsec = pos 0 }

hurried_target :
    recalc_interval
      (ok tenth)
      (ok tenth)
      1
      1
      (pos 0)
      (pos 9)
      (record hurried { target = timespec_zero })
    ≡ ok (record hurried {
      target = record { tv_sec = pos 101; tv_nsec = pos 2000000000 };
      timeout = timespec_zero;
    })
unfolding recalc_interval keep_pace timespecadd timespec_lt ◌+ℤ◌ ◌-ℤ◌
    nilfs_utils.Cleaner.current_cleaning_interval
hurried_target = refl

-- One round that is woken by the message, after nothing to do.
abbrev pub counted : ReclaimStat
counted = record {
  exflags = 0;
  cleaned_segs = 1;
  protected_segs = 0;
  deferred_segs = 0;
  live_blks = 2;
  live_vblks = 0;
  live_pblks = 2;
  defunct_blks = 6;
  defunct_vblks = 0;
  defunct_pblks = 0;
  freed_vblks = 0;
}

abbrev pub collector : Collector
collector = record {
  track_back = λ t. ok 8;
  reclaim = λ segnums params. ok counted;
  get_suinfo = λ segnum count. err einval;
  segment_is_protected = λ segnum protseq. ok false;
  freeze = true;
  thaw = true;
}

abbrev pub answers : Answers
answers = record {
  hangup = some (ok config);
  get_sustat = ok sustat;
  ratio = 5;
  select = λ s c. ok (record { segnums = 1 ∷ []; prottime = pos 0; oldest = 5 });
  gc = collector;
  monotonic = ok (seconds 100);
  realtime = ok (seconds 7);
  ppoll = λ t. message box (bytes_of 2 []);
}
