-- ===== src/Cleaner/Clean/Alike.antt =====
-- nilfs_cleanerd_clean_segments of sbin/cleanerd.c changes neither the mode nor the times of the
-- daemon.
use nilfs_utils.Base.{
  ℕ, ◌+◌, ◌≡◌, refl, ◌∙◌, Bool, true, false, ◌&&◌, ◌==◌, if◌then◌else◌, List, [], ◌∷◌, arith,
  Result, ok, err, fault, not,
}
use nilfs_utils.Segment.Bytes.{SafeOr, SafeOr-bind}
use nilfs_utils.Gc.Select.{Suinfo, suinfo_reclaimable, suinfo_empty}
use nilfs_utils.Gc.Reclaim.{ReclaimStat}
use nilfs_utils.Cleaner.{Cleanerd, current_protection_period, reduce_ncleansegs_for_retry}
use nilfs_utils.Cleaner.Clean.{
  Collector, progress, is_enomem, or_go_on, judge, segments_still_reclaimable,
  shrink_protected_region, note_cleaned, note_deferred, note_nothing, note_stat, clean_segments,
}

-- The same mode and the same times.
pub record Alike (c d : Cleanerd) : Type 0 where
  pub running : d.running ≡ c.running
  pub config : d.config ≡ c.config
  pub interval : d.cleaning_interval ≡ c.cleaning_interval
  pub mm_period : d.mm_protection_period ≡ c.mm_protection_period
  pub mm_interval : d.mm_cleaning_interval ≡ c.mm_cleaning_interval
  pub target : d.target ≡ c.target
  pub timeout : d.timeout ≡ c.timeout

Alike-trans : {c d e : Cleanerd} → Alike c d → Alike d e → Alike c e
Alike-trans s t = record {
  running = t.running ∙ s.running;
  config = t.config ∙ s.config;
  interval = t.interval ∙ s.interval;
  mm_period = t.mm_period ∙ s.mm_period;
  mm_interval = t.mm_interval ∙ s.mm_interval;
  target = t.target ∙ s.target;
  timeout = t.timeout ∙ s.timeout;
}

-- The calls of the collector answer or fail, or are a cause `F` of a fault.
pub record IsReliable (F : Type 0) (gc : Collector) : Type 0 where
  pub track_back : (period : _) → SafeOr F (λ n. Unit) (gc.track_back period)
  pub reclaim : (segnums : List ℕ) (params : _) → SafeOr F (λ s. Unit) (gc.reclaim segnums params)
  pub get_suinfo : (segnum n : ℕ) → SafeOr F (λ s. Unit) (gc.get_suinfo segnum n)
  pub segment_is_protected :
      (segnum protseq : ℕ) → SafeOr F (λ b. Unit) (gc.segment_is_protected segnum protseq)

note_cleaned-Alike : (stat : ReclaimStat) (c : Cleanerd) → Alike c (note_cleaned stat c)
unfolding note_cleaned progress
note_cleaned-Alike stat c = ground arith

note_deferred-Alike : (stat : ReclaimStat) (c : Cleanerd) → Alike c (note_deferred stat c)
unfolding note_deferred progress
note_deferred-Alike stat c = ground arith

reduce-Alike : (c : Cleanerd) → Alike c (reduce_ncleansegs_for_retry c)
unfolding reduce_ncleansegs_for_retry
reduce-Alike c = ground arith

or_go_on-Safe :
    (F : Type 0) (r t : Result Bool)
    → SafeOr F (λ b. Unit) r
    → SafeOr F (λ b. Unit) t
    → SafeOr F (λ b. Unit) (or_go_on r t)
or_go_on-Safe F (ok true) t p q = tt
or_go_on-Safe F (ok false) t p q = q
or_go_on-Safe F (err e) t p q = q
or_go_on-Safe F fault t p q = p

either :
    (F : Type 0) (b : Bool) (r t : Result Bool)
    → SafeOr F (λ b. Unit) r
    → SafeOr F (λ b. Unit) t
    → SafeOr F (λ b. Unit) (if b then r else t)
either F true r t p q = p
either F false r t p q = q

judge-Safe :
    (F : Type 0) (answer : Result (List Suinfo)) (guarded : Result Bool)
    → SafeOr F (λ s. Unit) answer
    → SafeOr F (λ b. Unit) guarded
    → SafeOr F (λ b. Unit) (judge answer guarded)
unfolding judge
judge-Safe F (ok []) guarded safe fine = fine
judge-Safe F (ok (si ∷ [])) guarded safe fine =
    either F (not (suinfo_reclaimable si)) _ _ tt (either F (suinfo_empty si) _ _ tt fine)
judge-Safe F (ok (si ∷ more ∷ rest)) guarded safe fine = fine
judge-Safe F (err e) guarded safe fine = fine
judge-Safe F fault guarded safe fine = safe

either_state {ℓ} :
    {A : Type ℓ} (F : Type 0) (P : A → Type 0) (b : Bool) (r t : Result A)
    → SafeOr F P r
    → SafeOr F P t
    → SafeOr F P (if b then r else t)
either_state F P true r t p q = p
either_state F P false r t p q = q

module _ {F : Type 0} (gc : Collector) (reliable : IsReliable F gc) (protseq : ℕ) where
  segments_still_reclaimable-Safe :
      (segnums : List ℕ) → SafeOr F (λ b. Unit) (segments_still_reclaimable gc protseq segnums)
  unfolding segments_still_reclaimable
  segments_still_reclaimable-Safe [] = tt
  segments_still_reclaimable-Safe (segnum ∷ segnums) =
      or_go_on-Safe F _ _
        (judge-Safe F (gc.get_suinfo segnum 1) _ (reliable.get_suinfo segnum 1)
          (reliable.segment_is_protected segnum protseq))
        (segments_still_reclaimable-Safe segnums)

  retry_set : (b : Bool) (c : Cleanerd) → Alike c (record c { retry_cleaning = b })
  retry_set b c = record {
    running = refl;
    config = refl;
    interval = refl;
    mm_period = refl;
    mm_interval = refl;
    target = refl;
    timeout = refl;
  }

  note_nothing-Alike :
      (segnums : List ℕ) (c : Cleanerd) → SafeOr F (Alike c) (note_nothing gc protseq segnums c)
  unfolding note_nothing
  note_nothing-Alike segnums c =
      either_state F (Alike c) c.retry_cleaning (ok (record c { retry_cleaning = false })) _
        (retry_set false c)
        (SafeOr-bind F (Alike c) (segments_still_reclaimable gc protseq segnums) _
          (segments_still_reclaimable-Safe segnums)
          (λ still done. retry_set (still && shrink_protected_region gc) c))

  note_stat-Alike :
      (segnums : List ℕ) (stat : ReclaimStat) (c : Cleanerd)
      → SafeOr F (λ r. Alike c r.0) (note_stat gc protseq segnums stat c)
  unfolding note_stat
  note_stat-Alike segnums stat c =
      let d = note_deferred stat (note_cleaned stat c) in
      let noted = Alike-trans (note_cleaned-Alike stat c) (note_deferred-Alike stat _) in
      either_state F (λ r. Alike c r.0) (stat.cleaned_segs + stat.deferred_segs == 0) _
        (ok (d, stat.cleaned_segs + stat.deferred_segs))
        (SafeOr-bind F (λ r. Alike c r.0) (note_nothing gc protseq segnums d) (λ e. ok (e, 0))
          (note_nothing-Alike segnums d) (λ e more. Alike-trans noted more))
        noted

  reclaimed :
      (segnums : List ℕ) (c : Cleanerd) (r : Result ReclaimStat)
      → SafeOr F (λ s. Unit) r
      → SafeOr F
          (λ p. Alike c p.0)
          (elim r [
            | ok stat ↦ note_stat gc protseq segnums stat c
            | err e ↦
                if is_enomem e
                then ok (record (reduce_ncleansegs_for_retry c) { fallback = true }, 0)
                else err e
            | fault ↦ fault
          ])
  reclaimed segnums c (ok stat) safe = note_stat-Alike segnums stat c
  reclaimed segnums c (err e) safe =
      let less = reduce-Alike c in
      either_state F (λ p. Alike c p.0) (is_enomem e) _ (err e)
        (record {
          running = less.running;
          config = less.config;
          interval = less.interval;
          mm_period = less.mm_period;
          mm_interval = less.mm_interval;
          target = less.target;
          timeout = less.timeout;
        })
        tt
  reclaimed segnums c fault safe = safe

  pub clean_segments-Alike :
      (segnums : List ℕ) (c : Cleanerd)
      → SafeOr F (λ r. Alike c r.0) (clean_segments gc protseq segnums c)
  unfolding clean_segments
  clean_segments-Alike segnums c =
      SafeOr-bind F (λ r. Alike c r.0) (gc.track_back (current_protection_period c).tv_sec) _
        (reliable.track_back _)
        (λ protcno found. reclaimed segnums c _ (reliable.reclaim segnums _))
