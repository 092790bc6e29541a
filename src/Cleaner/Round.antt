-- ===== src/Cleaner/Round.antt =====
-- nilfs_cleanerd_clean_loop of sbin/cleanerd.c: the rounds of the daemon, each with the answers of the
-- system that it gets. The log of the workload (nilfs_workload_logger) and the signal masks are left
-- out.
pub mod Sound
pub mod Loop
pub mod Manual
pub mod Collects
pub mod Enters
pub mod Ends
use nilfs_utils.Base.{
  ℕ, Bool, true, false, List, [], ◌∷◌, Option, none, some, ◌==◌, if◌then◌else◌, Result, ok, err,
  fault, Errno, ◌>>=◌, length, ℤ, pos, Timespec,
}
use nilfs_utils.Gc.Select.{Suinfo}
use nilfs_utils.Cleaner.{
  Config, Cleanerd, Sustat, idle, automatic, automatic_suspend, clean_check_pause, reconfig,
}
use nilfs_utils.Cleaner.Messages.{Mailbox, Surroundings, handle_message}
use nilfs_utils.Cleaner.Check.{check_state}
use nilfs_utils.Cleaner.Interval.{init_interval, recalc_interval}
use nilfs_utils.Cleaner.Select.{Selected}
use nilfs_utils.Cleaner.Clean.{Collector, clean_segments}

-- How nilfs_cleanerd_wait wakes up: by itself or by a signal, by a failure of ppoll or mq_receive, or
-- by a message.
pub data Wakeup : Type 0 where
  quiet : Wakeup
  broken : Errno → Wakeup
  message : Mailbox → List ℕ → Wakeup

-- The answers that one round gets. `hangup` is what the configuration reads as, if SIGHUP came;
-- `select` is nilfs_cleanerd_select_segments with its parameters filled in, but for the state.
pub record Answers : Type 0 where
  pub hangup : Option (Result Config)
  pub get_sustat : Result Sustat
  pub ratio : ℕ
  pub select : Sustat → Cleanerd → Result Selected
  pub gc : Collector
  pub monotonic : Result Timespec
  pub realtime : Result Timespec
  pub ppoll : Timespec → Wakeup

module _ (env : Surroundings) where
  -- nilfs_cleanerd_wait
  unfoldable pub wait : (Timespec → Wakeup) → Cleanerd → Result Cleanerd
  wait ppoll c = elim (ppoll c.timeout) [
    | quiet ↦ ok c
    | broken e ↦ err e
    | message box bytes ↦ handle_message env box bytes c >>= λ r. ok r.0
  ]

  -- nilfs_cleanerd_handle_signals
  unfoldable pub handle_signals : Option (Result Config) → Cleanerd → Cleanerd
  handle_signals none c = c
  handle_signals (some read) c = (reconfig env.override read c).0

  -- The segments that were selected are cleaned.
  unfoldable pub clean_selected : Answers → Sustat → List ℕ → Cleanerd → Result (Cleanerd × ℕ)
  clean_selected a sustat segnums c =
      if length segnums == 0
      then ok (record c { retry_cleaning = false }, 0)
      else clean_segments a.gc sustat.ss_prot_seq segnums c

  -- The part of a round that collects garbage.
  unfoldable pub collect : Answers → Sustat → Cleanerd → Result Cleanerd
  collect a sustat c = a.select sustat c >>= λ s. clean_selected a sustat s.segnums c >>= λ r.
      recalc_interval a.monotonic a.realtime (length s.segnums) r.1 s.prottime (pos s.oldest) r.0

  -- The body of the loop up to `sleep`.
  unfoldable pub work : Answers → Cleanerd → Result Cleanerd
  work a c =
      let d = handle_signals a.hangup (record c { no_timeout = false }) in
      a.get_sustat >>= λ sustat. check_state (a.gc).get_suinfo a.ratio sustat d >>= λ r.
      if r.1 then ok r.0 else collect a sustat r.0

  -- The body of the loop.
  unfoldable pub round : Answers → Cleanerd → Result Cleanerd
  round a c = work a c >>= wait a.ppoll

  -- The loop, for as many rounds as there are answers.
  unfoldable pub rounds : List Answers → Cleanerd → Result Cleanerd
  rounds [] c = ok c
  rounds (a ∷ later) c =
      let next = rounds later in if c.shutdown then ok c else (round a c >>= next)

-- The start of nilfs_cleanerd_clean_loop.
unfoldable pub start : Result Timespec → Cleanerd → Result Cleanerd
start monotonic c =
    init_interval monotonic
      (record c { running = automatic; fallback = false; retry_cleaning = false })
    >>= λ d.
        let e : Cleanerd = record d {
          ncleansegs = (d.config).cf_nsegments_per_clean;
          cleaning_interval = (d.config).cf_cleaning_interval;
          min_reclaimable_blocks = (d.config).cf_min_reclaimable_blocks;
        } in
        ok (if automatic_suspend e then clean_check_pause e else e)
