-- ===== src/Cleaner/Check/Decide.antt =====
-- nilfs_cleanerd_check_state of sbin/cleanerd.c decides as the table of modes says.
use nilfs_utils.Base.{
  ℕ, ◌-◌, ◌≡◌, refl, Bool, true, false, not, ◌&&◌, ◌||◌, List, ltb, ◌==◌, if◌then◌else◌, Bool-cases,
  inl, inr, arith, Result, ok, err, fault, ◌>>=◌, pos, ltb_ℤ,
}
use nilfs_utils.Segment.Bytes.{Safe}
use nilfs_utils.Gc.Select.{Suinfo}
use nilfs_utils.Cleaner.{
  Cleanerd, Sustat, in_manual, automatic_suspend, clean_check_pause, clean_check_resume, manual_end,
  get_reserved_segments,
}
use nilfs_utils.Cleaner.Control.{Mode, code}
use nilfs_utils.Cleaner.Check.{
  is_low, is_plenty, set_speed, handle_clean_check, count_inuse_segments, next_pass, end_if_done,
  handle_manual_mode, check_update, check_automatic, check_state,
}

-- What a decision depends on: does the daemon watch the clean segments, are they few, are they many,
-- was the file system written since, and is the manual run over?
pub record Situation : Type 0 where
  pub watching : Bool
  pub low : Bool
  pub plenty : Bool
  pub updated : Bool
  pub finished : Bool

abbrev pub wake : Situation → Mode
wake s = if (if s.watching then s.low else s.updated) then Mode.automatic else Mode.idle

abbrev pub decide : Situation → Mode → Mode
decide s Mode.suspended = Mode.suspended
decide s Mode.idle = wake s
decide s Mode.automatic = if s.watching && s.plenty then Mode.idle else Mode.automatic
decide s Mode.manual = if s.finished then wake s else Mode.manual

abbrev pub asleep : Mode → Bool
asleep Mode.suspended = true
asleep Mode.idle = true
asleep Mode.automatic = false
asleep Mode.manual = false

-- No pass is left, or the last one finds nothing or cannot count.
abbrev pub finishes : Cleanerd → Result ℕ → Bool
finishes c counted =
    c.mm_nrestsegs == 0
    && (c.mm_nrestpasses == 0
        || (elim counted [ ok n ↦ c.mm_nrestpasses == 1 && n == 0 | err e ↦ true | fault ↦ false ]))

abbrev pub situation : ℕ → Sustat → Cleanerd → Bool → Situation
situation ratio sustat c finished =
    let reserved = get_reserved_segments ratio sustat.ss_nsegs in
    record {
      watching = ltb 0 (c.config).cf_min_clean_segments;
      low = is_low reserved sustat c;
      plenty = is_plenty reserved sustat c;
      updated = not (sustat.ss_nongc_ctime == c.prev_nongc_ctime);
      finished = finished;
    }

abbrev pub Decides : Mode → Cleanerd × Bool → Type 0
Decides m r = (r.0.running ≡ code m) × (r.1 ≡ asleep m)

module _ (ratio : ℕ) (sustat : Sustat) where
  pub check_idle :
      (c : Cleanerd) (finished : Bool)
      → c.running ≡ code Mode.idle
      → Decides (wake (situation ratio sustat c finished)) (check_automatic ratio sustat c)
  unfolding check_automatic handle_clean_check check_update set_speed clean_check_resume
      automatic_suspend
  check_idle c finished e = ground arith

  check_watching :
      (c : Cleanerd) (finished : Bool)
      → c.running ≡ code Mode.automatic
      → Decides
          (decide (situation ratio sustat c finished) Mode.automatic)
          (check_automatic ratio sustat c)
  unfolding check_automatic handle_clean_check check_update set_speed clean_check_pause
      automatic_suspend
  check_watching c finished e = ground arith

  check_manual :
      (c : Cleanerd)
      → c.running ≡ code Mode.manual
      → Decides Mode.manual (check_automatic ratio sustat c)
  unfolding check_automatic check_update
  check_manual c e = ground arith

  -- A manual run with this much left: `finished` says whether it is nothing.
  end_or_go_on :
      (c : Cleanerd) (passes segs : ℕ) (finished : Bool)
      → c.running ≡ code Mode.manual
      → (passes == 0 && segs == 0) ≡ finished
      → Decides (decide (situation ratio sustat c finished) Mode.manual) (
          check_automatic ratio sustat
            (end_if_done (record c { mm_nrestpasses = passes; mm_nrestsegs = segs })))
  unfolding end_if_done manual_end
  end_or_go_on c passes segs true e none_left = rw none_left (check_idle _ true refl)
  end_or_go_on c passes segs false e more = rw more (check_manual _ e)

  manual_round :
      (c : Cleanerd) (counted : Result ℕ)
      → c.running ≡ code Mode.manual
      → Safe (λ n. Unit) counted
      → Safe (Decides (decide (situation ratio sustat c (finishes c counted)) Mode.manual)) (
          (if c.mm_nrestsegs == 0 && ltb 0 c.mm_nrestpasses then next_pass counted c else ok c)
          >>= (λ d. ok (end_if_done d))
          >>= (λ d. ok (check_automatic ratio sustat d)))
  unfolding next_pass
  manual_round c (ok n) e safe = elim (Bool-cases (c.mm_nrestsegs == 0 && ltb 0 c.mm_nrestpasses)) [
    | inl pass ↦ rw pass (end_or_go_on c (c.mm_nrestpasses - 1) n _ e (ground arith))
    | inr same ↦ rw same (end_or_go_on c c.mm_nrestpasses c.mm_nrestsegs _ e (ground arith))
  ]
  manual_round c (err x) e safe =
      elim (Bool-cases (c.mm_nrestsegs == 0 && ltb 0 c.mm_nrestpasses)) [
        | inl pass ↦ rw pass (end_or_go_on c 0 c.mm_nrestsegs _ e (ground arith))
        | inr same ↦ rw same (end_or_go_on c c.mm_nrestpasses c.mm_nrestsegs _ e (ground arith))
      ]
  manual_round c fault e safe = absurd safe

  -- Is the manual run over, as the segments in use are counted?
  abbrev pub is_over : (ℕ → ℕ → Result (List Suinfo)) → Cleanerd → Bool
  is_over get_suinfo c = finishes c (count_inuse_segments get_suinfo sustat.ss_nsegs)

  module _ (get_suinfo : ℕ → ℕ → Result (List Suinfo))
      (counts : Safe (λ n. Unit) (count_inuse_segments get_suinfo sustat.ss_nsegs)) where
    -- Let the count of the segments in use answer or fail, not hang. Then nilfs_cleanerd_check_state,
    -- in each of the four modes, ends in the mode that the table `decide` gives for the clean
    -- segments, the bounds of the configuration, the time of the last write and what is left of a
    -- manual run; and the round sleeps exactly if that mode is idle or suspended.
    pub check_state-Decides :
        (m : Mode) (c : Cleanerd)
        → c.running ≡ code m
        → Safe
            (Decides (decide (situation ratio sustat c (is_over get_suinfo c)) m))
            (check_state get_suinfo ratio sustat c)
    unfolding check_state handle_manual_mode
    check_state-Decides Mode.suspended c e =
        let below : ltb_ℤ c.running (pos 0) ≡ true = rw e refl in rw below (e, refl)
    check_state-Decides Mode.idle c e =
        let above : ltb_ℤ c.running (pos 0) ≡ false = rw e refl in
        let free : in_manual c ≡ false = rw e refl in
        rw (above, free) (check_idle c (is_over get_suinfo c) e)
    check_state-Decides Mode.automatic c e =
        let above : ltb_ℤ c.running (pos 0) ≡ false = rw e refl in
        let free : in_manual c ≡ false = rw e refl in
        rw (above, free) (check_watching c (is_over get_suinfo c) e)
    check_state-Decides Mode.manual c e =
        let above : ltb_ℤ c.running (pos 0) ≡ false = rw e refl in
        let bound : in_manual c ≡ true = rw e refl in
        rw (above, bound)
          (manual_round c (count_inuse_segments get_suinfo sustat.ss_nsegs) e counts)
