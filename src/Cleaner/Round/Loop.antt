-- ===== src/Cleaner/Round/Loop.antt =====
-- The daemon of sbin/cleanerd.c over any number of rounds: its mode is one of the four, and its times
-- are such that ppoll takes each time-out.
use nilfs_utils.Base.{
  inl, inr, ℕ, ◌≡◌, refl, ◌∙◌, Bool, true, false, ◌==◌, if◌then◌else◌, List, [], ◌∷◌, Option, none,
  some, Result, ok, err, fault, ◌>>=◌, length, pos, timespec_zero, All,
}
use nilfs_utils.Segment.Bytes.{Safe, SafeOr, SafeOr-bind, Safe-SafeOr, fault-SafeOr}
use nilfs_utils.Cleaner.{Config, Cleanerd, Sustat, reconfig}
use nilfs_utils.Cleaner.Messages.{Surroundings, handle_message, Response}
use nilfs_utils.Cleaner.Control.{View, IsView, obey, message_order}
use nilfs_utils.Cleaner.Control.Handle.{MessageMeets, handle_message-Meets}
use nilfs_utils.Cleaner.Check.{check_state}
use nilfs_utils.Cleaner.Check.Advance.{IsAdvancing, count_inuse_segments-Safe}
use nilfs_utils.Cleaner.Check.Decide.{Decides, decide, situation, is_over, check_state-Decides}
use nilfs_utils.Cleaner.Check.Paced.{check_state-Kept}
use nilfs_utils.Cleaner.Clean.Alike.{Alike, clean_segments-Alike}
use nilfs_utils.Cleaner.Interval.Paced.{IsTimed, IsPaced, recalc_interval-IsPaced}
use nilfs_utils.Cleaner.Interval.Requests.{aside}
use nilfs_utils.Cleaner.Interval.Replies.{reconfig-IsPaced, handle_message-Kept}
use nilfs_utils.Cleaner.Round.{
  Wakeup, quiet, broken, message, Answers, wait, handle_signals, clean_selected, collect, work,
  round, rounds,
}
use nilfs_utils.Cleaner.Round.Sound.{
  HasMode, IsSound, both, weaken, IsFairWakeup, IsFairHangup, IsFair, IsBroken, SomeBroken,
  broken-IsReliable, weaken_or-SafeOr, recalc_interval-HasMode,
}

Alike-IsSound : (c d : Cleanerd) → Alike c d → IsSound c → IsSound d
Alike-IsSound c d same ((m, at), paced) = (
  (m, same.running ∙ at),
  aside c paced d same.config same.interval same.mm_period same.mm_interval same.target
      same.timeout,
)

module _ (env : Surroundings)
    (reads : (file : Option (List ℕ)) → Safe IsTimed (env.read file)) where
  handle_signals-IsSound :
      (hangup : Option (Result Config)) (c : Cleanerd)
      → IsFairHangup hangup
      → IsSound c
      → IsSound (handle_signals env hangup c)
  unfolding handle_signals reconfig
  handle_signals-IsSound none c fair sound = sound
  handle_signals-IsSound (some (ok cf)) c fair (has, paced) =
      (has, reconfig-IsPaced env.override (ok cf) c fair paced)
  handle_signals-IsSound (some (err e)) c fair sound = sound
  handle_signals-IsSound (some fault) c fair sound = absurd fair

  module _ (F : Type 0) (a : Answers) (fair : IsFair a) (cause : IsBroken a → F) where
    clean_selected-IsSound :
        (sustat : Sustat) (segnums : List ℕ) (c : Cleanerd)
        → IsSound c
        → SafeOr F (λ r. IsSound r.0) (clean_selected env a sustat segnums c)
    unfolding clean_selected
    clean_selected-IsSound sustat segnums c sound =
        pick (length segnums == 0) _ (sound.0, aside c sound.1 _ refl refl refl refl refl refl)
          (weaken_or-SafeOr {A = Cleanerd × ℕ} F (λ r. Alike c r.0) (λ r. IsSound r.0) _
            (λ r same. Alike-IsSound c r.0 same sound)
            (clean_segments-Alike a.gc (broken-IsReliable F a cause) sustat.ss_prot_seq segnums c))
      where
        pick :
            (b : Bool) (t : Result (Cleanerd × ℕ))
            → IsSound (record c { retry_cleaning = false })
            → SafeOr F (λ r. IsSound r.0) t
            → SafeOr F
                (λ r. IsSound r.0)
                (if b then ok (record c { retry_cleaning = false }, 0) else t)
        pick true t p q = p
        pick false t p q = q

    collect-IsSound :
        (sustat : Sustat) (c : Cleanerd) → IsSound c → SafeOr F IsSound (collect env a sustat c)
    unfolding collect
    collect-IsSound sustat c sound =
        SafeOr-bind F IsSound (a.select sustat c) _
          (fault-SafeOr F _ (λ e. cause (inl (sustat, c, e))))
          (λ s chosen.
            SafeOr-bind F IsSound (clean_selected env a sustat s.segnums c) _
              (clean_selected-IsSound sustat s.segnums c sound)
              (λ r kept. Safe-SafeOr F IsSound _ (
                both HasMode IsPaced _
                  (recalc_interval-HasMode a.monotonic a.realtime fair.monotonic fair.realtime
                    (length s.segnums) r.1 s.prottime (pos s.oldest) r.0 kept.0)
                  (recalc_interval-IsPaced a.monotonic a.realtime fair.monotonic fair.realtime
                    (length s.segnums) r.1 s.prottime (pos s.oldest) r.0 kept.1))))

    check_state-IsSound :
        (sustat : Sustat) (c : Cleanerd)
        → IsAdvancing (a.gc).get_suinfo sustat.ss_nsegs
        → IsSound c
        → Safe (λ r. IsSound r.0) (check_state (a.gc).get_suinfo a.ratio sustat c)
    check_state-IsSound sustat c advancing ((m, at), paced) =
        let get_suinfo = (a.gc).get_suinfo in
        let counts = count_inuse_segments-Safe get_suinfo sustat.ss_nsegs advancing in
        let next = decide (situation a.ratio sustat c (is_over a.ratio sustat get_suinfo c)) m in
        both {A = Cleanerd × Bool} (λ r. HasMode r.0) (λ r. IsPaced r.0) _
          (weaken {A = Cleanerd × Bool} (Decides next) (λ r. HasMode r.0) _
            (λ r decided. (next, decided.0))
            (check_state-Decides a.ratio sustat get_suinfo counts m c at))
          (check_state-Kept a.ratio sustat get_suinfo counts c paced)

    -- The state at the time of the sleep.
    pub work-IsSound : (c : Cleanerd) → IsSound c → SafeOr F IsSound (work env a c)
    unfolding work
    work-IsSound c sound =
        let d = record c { no_timeout = false } in
        let ready : IsSound (handle_signals env a.hangup d) =
          handle_signals-IsSound a.hangup d fair.hangup
            (sound.0, aside c sound.1 d refl refl refl refl refl refl) in
        SafeOr-bind F IsSound a.get_sustat _
          (Safe-SafeOr F (λ (s : Sustat). IsAdvancing (a.gc).get_suinfo s.ss_nsegs) a.get_sustat
            fair.get_sustat)
          (λ sustat advancing.
            SafeOr-bind F IsSound
              (check_state (a.gc).get_suinfo a.ratio sustat (handle_signals env a.hangup d)) _
              (Safe-SafeOr F (λ r. IsSound r.0) _ (check_state-IsSound sustat _ advancing ready))
              (λ r kept.
                pick r.1 r.0 (collect env a sustat r.0) kept (collect-IsSound sustat r.0 kept)))
      where
        pick :
            (b : Bool) (e : Cleanerd) (t : Result Cleanerd)
            → IsSound e
            → SafeOr F IsSound t
            → SafeOr F IsSound (if b then ok e else t)
        pick true e t p q = p
        pick false e t p q = q

    woken :
        (c : Cleanerd) (w : Wakeup)
        → IsFairWakeup w
        → IsSound c
        → Safe IsSound (elim w [
          | quiet ↦ ok c
          | broken e ↦ err e
          | message box bytes ↦ handle_message env box bytes c >>= λ r. ok r.0
        ])
    woken c quiet fine sound = sound
    woken c (broken e) fine sound = tt
    woken c (message box bytes) fine ((m, at), paced) =
        let v : View = record { mode = m; stopping = c.shutdown; jobs = c.jobid } in
        let sees : IsView c v = record { mode = at; stopping = refl; jobs = refl } in
        let met =
          handle_message-Meets env (λ file. weaken _ _ _ (λ cf t. tt) (reads file)) box bytes v c
            sees in
        let kept = handle_message-Kept env reads box bytes c fine paced in after _ v met kept
      where
        after :
            (r : Result (Cleanerd × Result Response)) (v : View)
            → MessageMeets env (λ file. weaken _ _ _ (λ cf t. tt) (reads file)) box bytes v c r
            → Safe (λ p. IsPaced p.0) r
            → Safe IsSound (r >>= λ p. ok p.0)
        after (ok r) v met kept =
            (((obey (message_order env.blocks_per_segment bytes) v).mode, (met.0).mode), kept)
        after (err e) v met kept = tt
        after fault v met kept = absurd met

    round-IsSound : (c : Cleanerd) → IsSound c → SafeOr F IsSound (round env a c)
    unfolding round wait
    round-IsSound c sound = SafeOr-bind F IsSound (work env a c) _ (work-IsSound c sound) (λ d kept.
        Safe-SafeOr F IsSound _
          (woken d (a.ppoll d.timeout) (fair.ppoll d.timeout (kept.1).timeout) kept))

  -- The invariant over any number of rounds.
  pub rounds-IsSound :
      (F : Type 0) (answers : List Answers) (c : Cleanerd)
      → (SomeBroken answers → F)
      → All IsFair answers
      → IsSound c
      → SafeOr F IsSound (rounds env answers c)
  unfolding rounds
  rounds-IsSound F [] c cause fair sound = sound
  rounds-IsSound F (a ∷ later) c cause (fair, fair_later) sound =
      pick c.shutdown (round env a c >>= rounds env later) (
        SafeOr-bind F IsSound (round env a c) _
          (round-IsSound F a fair (λ b. cause (inl b)) c sound)
          (λ d kept. rounds-IsSound F later d (λ b. cause (inr b)) fair_later kept))
    where
      pick :
          (b : Bool) (t : Result Cleanerd)
          → SafeOr F IsSound t
          → SafeOr F IsSound (if b then ok c else t)
      pick true t p = sound
      pick false t p = p

-- What nilfs_cleanerd_create leaves, for a configuration file with well-formed times: the rest is
-- cleared.
pub record IsFresh (c : Cleanerd) : Type 0 where
  pub config : IsTimed c.config
  pub mm_period : c.mm_protection_period ≡ timespec_zero
  pub mm_interval : c.mm_cleaning_interval ≡ timespec_zero
  pub timeout : c.timeout ≡ timespec_zero
