-- ===== src/Cleaner/Round/Collects.antt =====
-- The part of a round of sbin/cleanerd.c that collects, during a manual run: when the calls answer,
-- the run is over or gets on.
use nilfs_utils.Base.{
  ℕ, ◌+◌, ◌-◌, ◌≤◌, ◌<◌, ◌≡◌, refl, ◌∙◌, ◌⊎◌, inl, inr, true, false, not, ◌&&◌, ◌||◌, ◌==◌,
  if◌then◌else◌, Bool-cases, arith, List, none, Result, ok, err, fault, ◌>>=◌, length, ℤ, pos,
  Timespec,
}
use nilfs_utils.Gc.Reclaim.{ReclaimStat, ReclaimParams}
use nilfs_utils.Cleaner.{
  Cleanerd, Sustat, manual_end, current_protection_period, reduce_ncleansegs_for_retry,
}
use nilfs_utils.Cleaner.Messages.{Surroundings}
use nilfs_utils.Cleaner.Control.{Mode, code}
use nilfs_utils.Cleaner.Check.{count_inuse_segments}
use nilfs_utils.Cleaner.Clean.{
  note_stat, segments_still_reclaimable, clean_segments, is_enomem, note_nothing, note_cleaned,
  note_deferred, progress,
}
use nilfs_utils.Cleaner.Select.{Selected}
use nilfs_utils.Cleaner.Interval.{keep_pace, recalc_interval}
use nilfs_utils.Cleaner.Round.{quiet, Answers, clean_selected, collect}
use nilfs_utils.Cleaner.Round.Manual.{
  IsFree, Continues, Cleaned, Yields, either, recalc_manual, recalc-IsFree, note_stat_lem,
}

-- The calls of a round answer: no signal, no message, no lack of memory; `most` bounds the number of
-- segments in use.
pub record Cooperates (most : ℕ) (a : Answers) : Type 0 where
  pub no_hangup : a.hangup ≡ none
  pub get_sustat :
      Yields
        (λ s. Yields (λ n. n ≤ most) (count_inuse_segments (a.gc).get_suinfo s.ss_nsegs))
        a.get_sustat
  pub select : (sustat : Sustat) (c : Cleanerd) → Yields (λ s. Unit) (a.select sustat c)
  pub track_back : (period : ℤ) → Yields (λ n. Unit) ((a.gc).track_back period)
  pub reclaim :
      (segnums : List ℕ) (params : ReclaimParams)
      → Yields (λ s. Unit) ((a.gc).reclaim segnums params)
  pub still :
      (protseq : ℕ) (segnums : List ℕ)
      → Yields (λ b. Unit) (segments_still_reclaimable a.gc protseq segnums)
  pub monotonic : (t : Timespec) × (a.monotonic ≡ ok t)
  pub realtime : (t : Timespec) × (a.realtime ≡ ok t)
  pub silent : (t : Timespec) → a.ppoll t ≡ quiet

pub Yields-bind {ℓ κ} :
    {A : Type ℓ} {B : Type κ} {P : A → Type 0} (Q : B → Type 0) (m : Result A) (f : A → Result B)
    → Yields P m
    → ((a : A) → P a → Yields Q (f a))
    → Yields Q (m >>= f)
Yields-bind Q (ok a) f y g = g a y
Yields-bind Q (err e) f y g = absurd y
Yields-bind Q fault f y g = absurd y

-- The mode alone.
note-IsFree :
    (stat : ReclaimStat) (c : Cleanerd)
    → IsFree c
    → IsFree (note_deferred stat (note_cleaned stat c))
unfolding note_deferred note_cleaned progress
note-IsFree stat c free = ground arith

reduce-IsFree : (c : Cleanerd) → IsFree c → IsFree (reduce_ncleansegs_for_retry c)
unfolding reduce_ncleansegs_for_retry
reduce-IsFree c free = ground arith

-- Either the segments of the pass became fewer, or the try is repeated once.
abbrev pub Less : Cleanerd → Cleanerd → Type 0
Less c d =
    ((d.mm_nrestsegs ≡ c.mm_nrestsegs) × (c.retry_cleaning ≡ false) × (d.retry_cleaning ≡ true))
    ⊎ (d.mm_nrestsegs ≤ c.mm_nrestsegs - 1)

abbrev pub Went : Cleanerd → Cleanerd → Type 0
Went c d = IsFree d ⊎ (Continues c d × Less c d)

keep_pace-Continues :
    (now : Timespec) (c d : Cleanerd) → Continues c d → Continues c (keep_pace now d)
unfolding keep_pace
keep_pace-Continues now c d goes = ground arith

keep_pace_rest :
    (now : Timespec) (d : Cleanerd)
    → ((keep_pace now d).mm_nrestsegs ≡ d.mm_nrestsegs)
      × ((keep_pace now d).retry_cleaning ≡ d.retry_cleaning)
unfolding keep_pace
keep_pace_rest now d = ground arith

-- What is left, from what was cleaned, if the run is not over.
left :
    (now : Timespec) (c d : Cleanerd) (ndone : ℕ)
    → ((0 < ndone) × (d.mm_nrestsegs ≤ c.mm_nrestsegs - 1))
      ⊎ ((ndone ≡ 0)
          × (d.mm_nrestsegs ≡ c.mm_nrestsegs)
          × ((c.retry_cleaning ≡ false) ⊎ (d.retry_cleaning ≡ false)))
    → (ndone == 0 && not d.retry_cleaning) ≡ false
    → Less c (keep_pace now d)
left now c d ndone (inl (some_done, less)) more =
    let (rest, retry) = keep_pace_rest now d in inr (omega arith)
left now c d ndone (inr (none_done, rest, inl first)) more =
    let (rest', retry) = keep_pace_rest now d in
    let again : d.retry_cleaning ≡ true = ground arith in inl (rest' ∙ rest, first, retry ∙ again)
left now c d ndone (inr (none_done, rest, inr quit)) more = absurd (ground arith)

module _ (env : Surroundings) (most : ℕ) (a : Answers) (works : Cooperates most a) where
  clean_segments_lem :
      (protseq : ℕ) (segnums : List ℕ) (c : Cleanerd)
      → c.running ≡ code Mode.manual
      → c.fallback ≡ false
      → Yields (Cleaned c) (clean_segments a.gc protseq segnums c)
  unfolding clean_segments
  clean_segments_lem protseq segnums c at fine =
      Yields-bind (Cleaned c) ((a.gc).track_back (current_protection_period c).tv_sec) _
        (works.track_back _) (λ protcno found. reclaimed _ (works.reclaim segnums _))
    where
      reclaimed :
          (r : Result ReclaimStat)
          → Yields (λ s. Unit) r
          → Yields (Cleaned c) (elim r [
            | ok stat ↦ note_stat a.gc protseq segnums stat c
            | err e ↦
                if is_enomem e
                then ok (record (reduce_ncleansegs_for_retry c) { fallback = true }, 0)
                else err e
            | fault ↦ fault
          ])
      reclaimed (ok stat) y = note_stat_lem c at fine a.gc works.still protseq segnums stat
      reclaimed (err e) y = absurd y
      reclaimed fault y = absurd y

  -- The interval of a run that goes on, or its end.
  recalc_lem :
      (nchosen : ℕ) (s : Selected) (c : Cleanerd) (r : Cleanerd × ℕ)
      → Cleaned c r
      → Yields
          (Went c)
          (recalc_interval a.monotonic a.realtime nchosen r.1 s.prottime (pos s.oldest) r.0)
  unfolding manual_end
  recalc_lem nchosen s c (d, ndone) (goes, how) =
      let (now, clock) = works.monotonic in
      let (today, calendar) = works.realtime in
      let answer =
        recalc_manual now today nchosen ndone s.prottime (pos s.oldest) d goes.running
          goes.fallback in
      let over = nchosen == 0 || ndone == 0 && not d.retry_cleaning in
      rw (clock, calendar, answer)
        (elim (Bool-cases over) [
          | inl ends ↦ rw ends (inl refl)
          | inr more ↦
              rw more
                (inr (keep_pace-Continues now c d goes, left now c d ndone how (ground arith)))
        ])

  note_nothing-IsFree :
      (protseq : ℕ) (segnums : List ℕ) (d : Cleanerd)
      → IsFree d
      → Yields IsFree (note_nothing a.gc protseq segnums d)
  unfolding note_nothing
  note_nothing-IsFree protseq segnums d free =
      either IsFree d.retry_cleaning (ok (record d { retry_cleaning = false })) _ free (
        Yields-bind IsFree (segments_still_reclaimable a.gc protseq segnums) _
          (works.still protseq segnums) (λ still y. free))

  note_stat-IsFree :
      (protseq : ℕ) (segnums : List ℕ) (stat : ReclaimStat) (c : Cleanerd)
      → IsFree c
      → Yields (λ r. IsFree r.0) (note_stat a.gc protseq segnums stat c)
  unfolding note_stat
  note_stat-IsFree protseq segnums stat c free =
      let d = note_deferred stat (note_cleaned stat c) in
      either (λ r. IsFree r.0) (stat.cleaned_segs + stat.deferred_segs == 0) _
        (ok (d, stat.cleaned_segs + stat.deferred_segs))
        (Yields-bind (λ r. IsFree r.0) (note_nothing a.gc protseq segnums d) (λ e. ok (e, 0))
          (note_nothing-IsFree protseq segnums d (note-IsFree stat c free)) (λ e y. y))
        (note-IsFree stat c free)

  clean_segments-IsFree :
      (protseq : ℕ) (segnums : List ℕ) (c : Cleanerd)
      → IsFree c
      → Yields (λ r. IsFree r.0) (clean_segments a.gc protseq segnums c)
  unfolding clean_segments
  clean_segments-IsFree protseq segnums c free =
      Yields-bind (λ r. IsFree r.0) ((a.gc).track_back (current_protection_period c).tv_sec) _
        (works.track_back _) (λ protcno found. reclaimed _ (works.reclaim segnums _))
    where
      reclaimed :
          (r : Result ReclaimStat)
          → Yields (λ s. Unit) r
          → Yields
              (λ r. IsFree r.0)
              (elim r [
                | ok stat ↦ note_stat a.gc protseq segnums stat c
                | err e ↦
                    if is_enomem e
                    then ok (record (reduce_ncleansegs_for_retry c) { fallback = true }, 0)
                    else err e
                | fault ↦ fault
              ])
      reclaimed (ok stat) y = note_stat-IsFree protseq segnums stat c free
      reclaimed (err e) y = absurd y
      reclaimed fault y = absurd y

  pub collect-IsFree :
      (sustat : Sustat) (c : Cleanerd) → IsFree c → Yields IsFree (collect env a sustat c)
  unfolding collect clean_selected
  collect-IsFree sustat c free =
      let (now, clock) = works.monotonic in
      let (today, calendar) = works.realtime in
      Yields-bind IsFree (a.select sustat c) _ (works.select sustat c) (λ s chosen.
        Yields-bind IsFree (clean_selected env a sustat s.segnums c) _
          (either (λ r. IsFree r.0) (length s.segnums == 0)
            (ok (record c { retry_cleaning = false }, 0)) _ free
            (clean_segments-IsFree sustat.ss_prot_seq s.segnums c free))
          (λ r kept.
            rw (clock, calendar)
              (recalc-IsFree now today (length s.segnums) r.1 s.prottime (pos s.oldest) r.0 kept)))

  pub collect_lem :
      (sustat : Sustat) (c : Cleanerd)
      → c.running ≡ code Mode.manual
      → c.fallback ≡ false
      → Yields (Went c) (collect env a sustat c)
  unfolding collect clean_selected
  collect_lem sustat c at fine =
      Yields-bind (Went c) (a.select sustat c) _ (works.select sustat c) (λ s chosen.
        Yields-bind (Went c) (clean_selected env a sustat s.segnums c) _
          (either (Cleaned c) (length s.segnums == 0) (ok (record c { retry_cleaning = false }, 0))
            _
            (
              record { running = at; fallback = fine; shutdown = refl; passes = refl },
              inr (refl, refl, inr refl),
            )
            (clean_segments_lem sustat.ss_prot_seq s.segnums c at fine))
          (λ r cleaned. recalc_lem (length s.segnums) s c r cleaned))
