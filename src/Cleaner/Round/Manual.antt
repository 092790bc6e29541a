-- ===== src/Cleaner/Round/Manual.antt =====
-- A manual run of the daemon of sbin/cleanerd.c comes to its end.
use nilfs_utils.Base.{
  ℕ, ◌+◌, ◌*◌, ◌-◌, ◌≤◌, ◌<◌, ◌≡◌, refl, sym, ◌⊎◌, inl, inr, Bool, true, false, not, ◌&&◌, ◌||◌,
  ◌==◌, if◌then◌else◌, Bool-cases, arith, List, Result, ok, err, fault, ◌>>=◌, ℤ, eqb_ℤ, Timespec,
}
use nilfs_utils.Gc.Reclaim.{ReclaimStat}
use nilfs_utils.Cleaner.{Cleanerd, in_manual, manual_end}
use nilfs_utils.Cleaner.Control.{Mode, code}
use nilfs_utils.Cleaner.Clean.{
  Collector, progress, note_cleaned, note_deferred, note_nothing, note_stat,
  segments_still_reclaimable, shrink_protected_region,
}
use nilfs_utils.Cleaner.Interval.{
  nulltime, sleep_at_least, nothing_cleaned, keep_pace, recalc_interval, retry_later,
}

-- What is left of a run: the passes, the segments of this pass, and whether the last try may be
-- repeated. `most` bounds the segments of a pass.
abbrev pub weight : ℕ → Cleanerd → ℕ
weight most c = c.mm_nrestpasses * (most + 1) + c.mm_nrestsegs

abbrev pub measure : ℕ → Cleanerd → ℕ
measure most c = 2 * weight most c + (if c.retry_cleaning then 0 else 1)

-- No manual run is going on.
abbrev pub IsFree : Cleanerd → Type 0
IsFree d = in_manual d ≡ false

-- The same run, without a failure that is to be retried later.
pub record Continues (c d : Cleanerd) : Type 0 where
  pub running : d.running ≡ code Mode.manual
  pub fallback : d.fallback ≡ false
  pub shutdown : d.shutdown ≡ c.shutdown
  pub passes : d.mm_nrestpasses ≡ c.mm_nrestpasses

-- A result, of which `P` holds.
abbrev pub Yields {ℓ} : {A : Type ℓ} → (A → Type 0) → Result A → Type 0
Yields P (ok a) = P a
Yields P (err e) = ⊥
Yields P fault = ⊥

pub either {ℓ} :
    {A : Type ℓ} (P : A → Type 0) (b : Bool) (r t : Result A)
    → Yields P r
    → Yields P t
    → Yields P (if b then r else t)
either P true r t p q = p
either P false r t p q = q

module _ (now today : Timespec) where
  pub recalc_manual :
      (nchosen ndone : ℕ) (prottime oldest : ℤ) (c : Cleanerd)
      → c.running ≡ code Mode.manual
      → c.fallback ≡ false
      → recalc_interval (ok now) (ok today) nchosen ndone prottime oldest c
        ≡ ok (
            if nchosen == 0 || ndone == 0 && not c.retry_cleaning
            then manual_end c
            else keep_pace now c)
  unfolding recalc_interval nothing_cleaned
  recalc_manual nchosen ndone prottime oldest c at fine = ground arith

  pub recalc-IsFree :
      (nchosen ndone : ℕ) (prottime oldest : ℤ) (c : Cleanerd)
      → IsFree c
      → Yields IsFree (recalc_interval (ok now) (ok today) nchosen ndone prottime oldest c)
  unfolding recalc_interval nothing_cleaned retry_later keep_pace sleep_at_least manual_end
  recalc-IsFree nchosen ndone prottime oldest c free =
      either IsFree (nchosen == 0 || not c.fallback && ndone == 0 && not c.retry_cleaning) _ _
        (either IsFree (in_manual c) (ok (manual_end c)) _ refl
          (either IsFree (eqb_ℤ oldest nulltime) _ _ (ground arith) free))
        (either IsFree c.fallback _ _ free (ground arith))

-- What nilfs_cleanerd_clean_segments leaves of a run: some segments are done, or none is, and then a
-- try is repeated at most once.
abbrev pub Cleaned : Cleanerd → Cleanerd × ℕ → Type 0
Cleaned c r =
    Continues c r.0
    × (((0 < r.1) × (r.0.mm_nrestsegs ≤ c.mm_nrestsegs - 1))
        ⊎ ((r.1 ≡ 0)
            × (r.0.mm_nrestsegs ≡ c.mm_nrestsegs)
            × ((c.retry_cleaning ≡ false) ⊎ (r.0.retry_cleaning ≡ false))))

module _ (c : Cleanerd) (at : c.running ≡ code Mode.manual) (fine : c.fallback ≡ false) where
  noted-Continues : (stat : ReclaimStat) → Continues c (note_deferred stat (note_cleaned stat c))
  unfolding note_deferred note_cleaned progress
  noted-Continues stat = ground arith

  noted_some :
      (stat : ReclaimStat)
      → 0 < stat.cleaned_segs + stat.deferred_segs
      → (note_deferred stat (note_cleaned stat c)).mm_nrestsegs ≤ c.mm_nrestsegs - 1
  unfolding note_deferred note_cleaned progress
  noted_some stat some_done = ground arith

  noted_none :
      (stat : ReclaimStat)
      → stat.cleaned_segs + stat.deferred_segs ≡ 0
      → ((note_deferred stat (note_cleaned stat c)).mm_nrestsegs ≡ c.mm_nrestsegs)
        × ((note_deferred stat (note_cleaned stat c)).retry_cleaning ≡ c.retry_cleaning)
  unfolding note_deferred note_cleaned progress
  noted_none stat none_done = ground arith

  module _ (gc : Collector)
      (still : (protseq : ℕ) (segnums : List ℕ)
        → Yields (λ b. Unit) (segments_still_reclaimable gc protseq segnums)) where
    note_nothing_lem :
        (protseq : ℕ) (segnums : List ℕ) (d : Cleanerd)
        → Continues c d
        → d.mm_nrestsegs ≡ c.mm_nrestsegs
        → d.retry_cleaning ≡ c.retry_cleaning
        → Yields (λ e. Cleaned c (e, 0)) (note_nothing gc protseq segnums d)
    unfolding note_nothing
    note_nothing_lem protseq segnums d goes rest retry = branch d.retry_cleaning (sym retry)
      where
        set_retry : Continues c d → (b : Bool) → Continues c (record d { retry_cleaning = b })
        set_retry goes b = record {
          running = goes.running;
          fallback = goes.fallback;
          shutdown = goes.shutdown;
          passes = goes.passes;
        }

        after :
            (r : Result Bool)
            → Yields (λ b. Unit) r
            → c.retry_cleaning ≡ false
            → Yields
                (λ e. Cleaned c (e, 0))
                (r >>= λ s. ok (record d { retry_cleaning = s && shrink_protected_region gc }))
        after (ok s) y first =
            (set_retry goes (s && shrink_protected_region gc), inr (refl, rest, inl first))
        after (err e) y first = absurd y
        after fault y first = absurd y

        branch :
            (b : Bool)
            → c.retry_cleaning ≡ b
            → Yields
                (λ e. Cleaned c (e, 0))
                (if b
                  then ok (record d { retry_cleaning = false })
                  else (segments_still_reclaimable gc protseq segnums >>= λ s.
                      ok (record d { retry_cleaning = s && shrink_protected_region gc })))
        branch true again = (set_retry goes false, inr (refl, rest, inr refl))
        branch false first = after _ (still protseq segnums) first

    pub note_stat_lem :
        (protseq : ℕ) (segnums : List ℕ) (stat : ReclaimStat)
        → Yields (Cleaned c) (note_stat gc protseq segnums stat c)
    unfolding note_stat
    note_stat_lem protseq segnums stat =
        let d = note_deferred stat (note_cleaned stat c) in
        elim (Bool-cases (stat.cleaned_segs + stat.deferred_segs == 0)) [
          | inl nothing ↦
              let same = noted_none stat (ground arith) in
              rw nothing (
                then_none _
                  (note_nothing_lem protseq segnums d (noted-Continues stat) same.0 same.1))
          | inr something ↦
              rw something
                (noted-Continues stat, inl (ground arith, noted_some stat (ground arith)))
        ]
      where
        then_none :
            (r : Result Cleanerd)
            → Yields (λ e. Cleaned c (e, 0)) r
            → Yields (Cleaned c) (r >>= λ e. ok (e, 0))
        then_none (ok e) y = y
        then_none (err x) y = absurd y
        then_none fault y = absurd y
