-- ===== src/Tests/Manual.antt =====
-- A manual run of the cleaner daemon, over three segments in use.
use nilfs_utils.Base.{
  ℕ, zero, suc, ◌+◌, ◌≤◌, ◌≡◌, refl, List, [], ◌∷◌, arith, none, ok, take, replicate, All,
}
use nilfs_utils.Gc.Select.{suinfo_reclaimable, suinfo_empty}
use nilfs_utils.Cleaner.{Cleanerd, manual}
use nilfs_utils.Cleaner.Check.{count_inuse_segments, count_inuse_loop, count_answer}
use nilfs_utils.Cleaner.Clean.{Collector, judge, segments_still_reclaimable}
use nilfs_utils.Cleaner.Round.{Answers, quiet, rounds}
use nilfs_utils.Cleaner.Round.Manual.{measure, IsFree, Yields}
use nilfs_utils.Cleaner.Round.Collects.{Cooperates}
use nilfs_utils.Cleaner.Round.Ends.{manual_run_ends}
use nilfs_utils.Tests.Daemon.{cleaning, env, seconds, dirty, collector, answers}

abbrev busy : Collector
busy = record collector { get_suinfo = λ segnum count. ok (dirty ∷ []) }

abbrev calm : Answers
calm = record answers { hangup = none; gc = busy; ppoll = λ t. quiet }

busy_still :
    (protseq : ℕ) (segnums : List ℕ)
    → Yields (λ b. Unit) (segments_still_reclaimable busy protseq segnums)
unfolding segments_still_reclaimable judge suinfo_reclaimable suinfo_empty
busy_still protseq [] = tt
busy_still protseq (segnum ∷ segnums) = busy_still protseq segnums

calm-Cooperates : Cooperates 3 calm
unfolding count_inuse_segments count_inuse_loop count_answer suinfo_reclaimable
calm-Cooperates = record {
  no_hangup = refl;
  get_sustat = omega arith;
  select = λ s c. tt;
  track_back = λ t. tt;
  reclaim = λ segnums params. tt;
  still = busy_still;
  monotonic = (seconds 100, refl);
  realtime = (seconds 7, refl);
  silent = λ t. refl;
}

-- One pass.
abbrev ordered : Cleanerd
ordered = record cleaning { running = manual; mm_nrestpasses = 1 }

All-calm : (n : ℕ) → All (Cooperates 3) (replicate n calm)
All-calm zero = tt
All-calm (suc n) = (calm-Cooperates, All-calm n)

manual_run_ends_example :
    (n : ℕ) × (d : Cleanerd) × (n ≤ measure 3 ordered + 1)
    × (rounds env (take n (replicate 10 calm)) ordered ≡ ok d)
    × IsFree d
manual_run_ends_example =
    manual_run_ends env 3 (replicate 10 calm) ordered (All-calm 10) refl refl refl (omega arith)
