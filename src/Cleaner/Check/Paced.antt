-- ===== src/Cleaner/Check/Paced.antt =====
-- nilfs_cleanerd_check_state of sbin/cleanerd.c keeps the times of the daemon well-formed.
use nilfs_utils.Base.{
  ℕ, refl, Bool, true, false, not, ◌&&◌, ◌==◌, if◌then◌else◌, List, Result, ok, err, fault, ltb,
  ltb_ℤ, eqb_ℤ, pos,
}
use nilfs_utils.Segment.Bytes.{Safe, Safe-bind}
use nilfs_utils.Gc.Select.{Suinfo}
use nilfs_utils.Cleaner.{
  Cleanerd, Sustat, in_manual, idle, automatic, automatic_suspend, clean_check_pause,
  clean_check_resume, get_reserved_segments,
}
use nilfs_utils.Cleaner.Check.{
  is_low, is_plenty, set_speed, handle_clean_check, count_inuse_segments, next_pass, end_if_done,
  handle_manual_mode, check_update, check_automatic, check_state,
}
use nilfs_utils.Cleaner.Interval.Paced.{
  IsPaced, Paced_either, Safe_either, manual_end-IsPaced, remode,
}
use nilfs_utils.Cleaner.Interval.Requests.{aside}
use nilfs_utils.Cleaner.Interval.Replies.{pause_lem}

-- The state kept, whatever the decision.
abbrev pub Kept : Cleanerd × Bool → Type 0
Kept r = IsPaced r.0

Kept-either : (b : Bool) (r t : Cleanerd × Bool) → Kept r → Kept t → Kept (if b then r else t)
Kept-either true r t p q = p
Kept-either false r t p q = q

module _ (ratio : ℕ) (sustat : Sustat) where
  set_speed-IsPaced :
      (reserved : ℕ) (c : Cleanerd) → IsPaced c → IsPaced (set_speed reserved sustat c)
  unfolding set_speed
  set_speed-IsPaced reserved c paced =
      Paced_either (is_low reserved sustat c) _ _
        (record {
          config = paced.config;
          interval = (paced.config).mc_interval;
          mm_period = paced.mm_period;
          mm_interval = paced.mm_interval;
          target = paced.target;
          timeout = paced.timeout;
        })
        (record {
          config = paced.config;
          interval = (paced.config).interval;
          mm_period = paced.mm_period;
          mm_interval = paced.mm_interval;
          target = paced.target;
          timeout = paced.timeout;
        })

  handle_clean_check-Kept : (c : Cleanerd) → IsPaced c → Kept (handle_clean_check ratio sustat c)
  unfolding handle_clean_check clean_check_pause clean_check_resume
  handle_clean_check-Kept c paced =
      let reserved = get_reserved_segments ratio sustat.ss_nsegs in
      Kept-either (eqb_ℤ c.running automatic) _ _
        (Kept-either (is_plenty reserved sustat c) _ _
          (pause_lem c _ paced refl refl refl refl refl refl) (set_speed-IsPaced reserved c paced))
        (Kept-either (eqb_ℤ c.running idle) _ _
          (Kept-either (is_low reserved sustat c) _ _
            (set_speed-IsPaced reserved _ (remode c automatic paced)) paced)
          (set_speed-IsPaced reserved c paced))

  check_update-Kept : (c : Cleanerd) → IsPaced c → Kept (check_update sustat c)
  unfolding check_update
  check_update-Kept c paced =
      Kept-either (eqb_ℤ c.running idle) _ _
        (Kept-either (not (sustat.ss_nongc_ctime == c.prev_nongc_ctime)) _ _
          (aside c paced _ refl refl refl refl refl refl) paced)
        paced

  check_automatic-Kept : (c : Cleanerd) → IsPaced c → Kept (check_automatic ratio sustat c)
  unfolding check_automatic
  check_automatic-Kept c paced =
      let checked = handle_clean_check-Kept c paced in
      Kept-either (ltb_ℤ c.running (pos 2) && automatic_suspend c) _ _
        (Kept-either (handle_clean_check ratio sustat c).1 _ _ checked
          (check_update-Kept (handle_clean_check ratio sustat c).0 checked))
        (check_update-Kept c paced)

  next_pass-IsPaced :
      (counted : Result ℕ) (c : Cleanerd)
      → Safe (λ n. Unit) counted
      → IsPaced c
      → Safe IsPaced (next_pass counted c)
  unfolding next_pass
  next_pass-IsPaced (ok n) c safe paced = aside c paced _ refl refl refl refl refl refl
  next_pass-IsPaced (err e) c safe paced = aside c paced _ refl refl refl refl refl refl
  next_pass-IsPaced fault c safe paced = absurd safe

  end_if_done-IsPaced : (c : Cleanerd) → IsPaced c → IsPaced (end_if_done c)
  unfolding end_if_done
  end_if_done-IsPaced c paced =
      Paced_either (c.mm_nrestpasses == 0 && c.mm_nrestsegs == 0) _ c (manual_end-IsPaced c paced)
        paced

  module _ (get_suinfo : ℕ → ℕ → Result (List Suinfo))
      (counts : Safe (λ n. Unit) (count_inuse_segments get_suinfo sustat.ss_nsegs)) where
    handle_manual_mode-IsPaced :
        (c : Cleanerd) → IsPaced c → Safe IsPaced (handle_manual_mode get_suinfo sustat c)
    unfolding handle_manual_mode
    handle_manual_mode-IsPaced c paced =
        Safe-bind IsPaced _ _
          (Safe_either (c.mm_nrestsegs == 0 && ltb 0 c.mm_nrestpasses)
            (next_pass (count_inuse_segments get_suinfo sustat.ss_nsegs) c) (ok c)
            (next_pass-IsPaced (count_inuse_segments get_suinfo sustat.ss_nsegs) c counts paced)
            paced)
          end_if_done-IsPaced

    pub check_state-Kept :
        (c : Cleanerd) → IsPaced c → Safe Kept (check_state get_suinfo ratio sustat c)
    unfolding check_state
    check_state-Kept c paced = Kept-ok (ltb_ℤ c.running (pos 0)) (ok (c, true)) _ paced (
        Safe-bind Kept (if in_manual c then handle_manual_mode get_suinfo sustat c else ok c) _
          (Safe_either (in_manual c) (handle_manual_mode get_suinfo sustat c) (ok c)
            (handle_manual_mode-IsPaced c paced) paced)
          check_automatic-Kept)
      where
        Kept-ok :
            (b : Bool) (r t : Result (Cleanerd × Bool))
            → Safe Kept r
            → Safe Kept t
            → Safe Kept (if b then r else t)
        Kept-ok true r t p q = p
        Kept-ok false r t p q = q
