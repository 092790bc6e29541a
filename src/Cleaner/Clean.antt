-- ===== src/Cleaner/Clean.antt =====
-- nilfs_cleanerd_clean_segments of sbin/cleanerd.c and its helpers: the selected segments are cleaned
-- or deferred, and the state follows. The collector (lib/gc.c, lib/cnormap.c) is an interface.
pub mod Alike
use nilfs_utils.Base.{
  ℕ, ◌+◌, ◌-◌, Bool, true, false, not, ◌&&◌, List, [], ◌∷◌, ltb, ◌==◌, if◌then◌else◌, Result, ok,
  err, fault, Errno, enomem, ◌>>=◌, length, ℤ, pos, Timespec,
}
use nilfs_utils.Gc.Select.{Suinfo, suinfo_reclaimable, suinfo_empty}
use nilfs_utils.Gc.Reclaim.{ReclaimParams, ReclaimStat}
use nilfs_utils.Cleaner.{
  Cleanerd, in_manual, current_protection_period, current_min_reclaimable_blocks,
  reduce_ncleansegs_for_retry,
}

-- What the daemon calls: nilfs_cnormap_track_back, nilfs_xreclaim_segment on segments that are all
-- to be cleaned (not a dry run, counts that start at 0), nilfs_get_suinfo,
-- nilfs_segment_is_protected, nilfs_freeze and nilfs_thaw (do they succeed?).
pub record Collector : Type 0 where
  pub track_back : ℤ → Result ℕ
  pub reclaim : List ℕ → ReclaimParams → Result ReclaimStat
  pub get_suinfo : ℕ → ℕ → Result (List Suinfo)
  pub segment_is_protected : ℕ → ℕ → Result Bool
  pub freeze : Bool
  pub thaw : Bool

-- nilfs_cleanerd_progress
unfoldable pub progress : ℕ → Cleanerd → Cleanerd
progress nsegs c = if in_manual c then record c { mm_nrestsegs = c.mm_nrestsegs - nsegs } else c

unfoldable pub is_enomem : Errno → Bool
is_enomem e = elim e [ enomem ↦ true | _ ↦ false ]

-- The answer `true` ends the search; a failure does not.
abbrev pub or_go_on : Result Bool → Result Bool → Result Bool
or_go_on (ok found) rest = if found then ok true else rest
or_go_on (err e) rest = rest
or_go_on fault rest = fault

-- The segments cleaned, or deferred, in the counts of the collector.
unfoldable pub note_cleaned : ReclaimStat → Cleanerd → Cleanerd
note_cleaned stat c =
    if ltb 0 stat.cleaned_segs
    then record (progress stat.cleaned_segs c) { fallback = false; retry_cleaning = false }
    else c

unfoldable pub note_deferred : ReclaimStat → Cleanerd → Cleanerd
note_deferred stat c =
    if ltb 0 stat.deferred_segs
    then (let d = progress stat.deferred_segs c in
        record d {
          fallback = false;
          retry_cleaning = false;
          no_timeout = if stat.cleaned_segs == 0 then true else d.no_timeout;
        })
    else c

-- NILFS_RECLAIM_PARAM_PROTSEQ, _PROTCNO and _MIN_RECLAIMABLE_BLKS make 7.
abbrev pub clean_params : ℕ → ℕ → Cleanerd → ReclaimParams
clean_params protseq protcno c = record {
  flags = 7;
  min_reclaimable_blks = current_min_reclaimable_blocks c;
  protseq = protseq;
  protcno = protcno;
}

-- One segment of nilfs_segments_still_reclaimable, given its record, if the call gave one, and the
-- answer of nilfs_segment_is_protected: is it scrapped, or protected?
unfoldable pub judge : Result (List Suinfo) → Result Bool → Result Bool
judge (ok []) guarded = guarded
judge (ok (si ∷ [])) guarded =
    if not (suinfo_reclaimable si) then ok false else if suinfo_empty si then ok true else guarded
judge (ok (si ∷ more ∷ rest)) guarded = guarded
judge (err e) guarded = guarded
judge fault guarded = fault

module _ (gc : Collector) where
  unfoldable pub segments_still_reclaimable : ℕ → List ℕ → Result Bool
  segments_still_reclaimable protseq [] = ok false
  segments_still_reclaimable protseq (segnum ∷ segnums) =
      or_go_on (judge (gc.get_suinfo segnum 1) (gc.segment_is_protected segnum protseq))
        (segments_still_reclaimable protseq segnums)

  -- nilfs_shrink_protected_region: does it succeed?
  unfoldable pub shrink_protected_region : Bool
  shrink_protected_region = gc.freeze && gc.thaw

  -- No segment was cleaned or deferred: is another try worth while?
  unfoldable pub note_nothing : ℕ → List ℕ → Cleanerd → Result Cleanerd
  note_nothing protseq segnums c =
      if c.retry_cleaning
      then ok (record c { retry_cleaning = false })
      else (segments_still_reclaimable protseq segnums >>= λ still.
          ok (record c { retry_cleaning = still && shrink_protected_region }))

  -- What follows a successful nilfs_xreclaim_segment.
  unfoldable pub note_stat : ℕ → List ℕ → ReclaimStat → Cleanerd → Result (Cleanerd × ℕ)
  note_stat protseq segnums stat c =
      let d = note_deferred stat (note_cleaned stat c) in
      let ndone = stat.cleaned_segs + stat.deferred_segs in
      if ndone == 0 then (note_nothing protseq segnums d >>= λ e. ok (e, 0)) else ok (d, ndone)

  -- nilfs_cleanerd_clean_segments: the state, and the number of segments done.
  unfoldable pub clean_segments : ℕ → List ℕ → Cleanerd → Result (Cleanerd × ℕ)
  clean_segments protseq segnums c =
      gc.track_back (current_protection_period c).tv_sec >>= λ protcno.
      elim (gc.reclaim segnums (clean_params protseq protcno c)) [
        | ok stat ↦ note_stat protseq segnums stat c
        | err e ↦
            if is_enomem e
            then ok (record (reduce_ncleansegs_for_retry c) { fallback = true }, 0)
            else err e
        | fault ↦ fault
      ]
