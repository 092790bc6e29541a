-- ===== src/Policy/Eligible.antt =====
-- The scan of strict_cluster_select of sbin/policies/nilfs_policy_segregation.c gathers the eligible
-- segments.
use mathlib.Core.List.{append_assoc, append-nil}
use nilfs_utils.Base.{
  ℕ, zero, suc, ◌*◌, ◌%◌, ◌^◌, ◌≡◌, refl, sym, ap, ◌∙◌, arith, Bool, true, false, not, ◌&&◌, ◌||◌,
  List, [], ◌∷◌, ◌++◌, Option, none, some, ltb, leb, if◌then◌else◌, length, ℤ, pos, ltb_ℤ, to_int64,
  All, Result, ok, err, fault, ◌>>=◌, enomem,
}
use nilfs_utils.Segment.Bytes.{Safe, Safe-bind, Safe-map}
use nilfs_utils.Gc.Select.{Suinfo, suinfo_reclaimable}
use nilfs_utils.Gc.Reclaim.{ReclaimStat}
use nilfs_utils.Cleaner.{Sustat}
use nilfs_utils.Policy.{
  or_skip, put_eligible, classify_assessed, HotCold, Sources, Gathered, to_uint64, is_protected,
  age_of, classify, hc_evaluate, put_candidate, scan_segment, scan, hot_threshold,
}
use nilfs_utils.Policy.Cluster.{Fits}
use nilfs_utils.Policy.Fits.{All-append}

-- The calls answer, with an error or without one.
pub record AreSafe (src : Sources) : Type 0 where
  pub track_back : Safe (λ n. Unit) src.track_back
  pub assess : (protseq segnum protcno : ℕ) → Safe (λ s. Unit) (src.assess protseq segnum protcno)
  pub get_suinfo : (segnum : ℕ) → Safe (λ s. Unit) (src.get_suinfo segnum)

abbrev list_of : Option HotCold → List HotCold
list_of none = []
list_of (some c) = c ∷ []

module _ (alloc : ℕ → Bool) (src : Sources) (sustat : Sustat) (now prottime : ℤ) where
  -- The segment was last modified before the protected times or after the present, it is reclaimable,
  -- and there is memory for its metadata.
  abbrev pub is_open : Suinfo → Bool
  is_open si =
      (ltb si.sui_lastmod (to_uint64 prottime) || ltb (to_uint64 now) si.sui_lastmod)
      && suinfo_reclaimable si
      && alloc 16

  abbrev from_stat : Suinfo → ℕ → Option ReclaimStat → List HotCold
  from_stat si segnum none = []
  from_stat si segnum (some stat) =
      if is_open si
      then (record {
        segnum = segnum;
        is_hot = ltb_ℤ (age_of si now) (pos hot_threshold);
        live_blocks = stat.live_blks % 2 ^ 32;
        lastmod = to_int64 si.sui_lastmod;
      })
        ∷ []
      else []

  abbrev from_assess : Suinfo → ℕ → Result (Option ReclaimStat) → List HotCold
  from_assess si segnum (ok assessed) = from_stat si segnum assessed
  from_assess si segnum (err e) = []
  from_assess si segnum fault = []

  abbrev from_cno : Suinfo → ℕ → Result ℕ → List HotCold
  from_cno si segnum (ok protcno) =
      from_assess si segnum (src.assess sustat.ss_prot_seq segnum protcno)
  from_cno si segnum (err e) = []
  from_cno si segnum fault = []

  abbrev from_suinfo : ℕ → Result Suinfo → List HotCold
  from_suinfo segnum (ok si) = from_cno si segnum src.track_back
  from_suinfo segnum (err e) = []
  from_suinfo segnum fault = []

  -- The candidate of a segment for which every call succeeds, which is dirty and open.
  abbrev pub eligible_at : ℕ → List HotCold
  eligible_at segnum = from_suinfo segnum (src.get_suinfo segnum)

  -- The candidates among `n` segments from `segnum` on.
  abbrev pub eligible_from : ℕ → ℕ → List HotCold
  eligible_from zero segnum = []
  eligible_from (suc n) segnum = eligible_at segnum ++ eligible_from n (suc segnum)

  classify_lem :
      (si : Suinfo) (segnum : ℕ) (stat : ReclaimStat)
      → list_of (classify alloc src sustat now prottime si segnum stat)
        ≡ from_stat si segnum (some stat)
  unfolding classify is_protected
  classify_lem si segnum stat =
      let shut : (leb (to_uint64 prottime) si.sui_lastmod && leb si.sui_lastmod (to_uint64 now))
          ≡ not (ltb si.sui_lastmod (to_uint64 prottime) || ltb (to_uint64 now) si.sui_lastmod) =
        ground arith in
      rw shut (
        pick (ltb si.sui_lastmod (to_uint64 prottime) || ltb (to_uint64 now) si.sui_lastmod)
          (suinfo_reclaimable si) (alloc 16) _)
    where
      pick :
          (b1 b2 b3 : Bool) (c : HotCold)
          → list_of
              (if not b1 then none else if not b2 then none else if not b3 then none else some c)
            ≡ (if b1 && b2 && b3 then c ∷ [] else [])
      pick false b2 b3 c = refl
      pick true false b3 c = refl
      pick true true false c = refl
      pick true true true c = refl

  classify_assessed_lem :
      (si : Suinfo) (segnum : ℕ) (assessed : Option ReclaimStat)
      → list_of (classify_assessed alloc src sustat now prottime si segnum assessed)
        ≡ from_stat si segnum assessed
  unfolding classify_assessed
  classify_assessed_lem si segnum none = refl
  classify_assessed_lem si segnum (some stat) = classify_lem si segnum stat

  module _ (safe : AreSafe src) where
    assessed_lem :
        (si : Suinfo) (segnum : ℕ) (m : Result (Option ReclaimStat))
        → Safe (λ s. Unit) m
        → Safe
            (λ c. list_of c ≡ from_assess si segnum m)
            (or_skip none m
              (λ assessed. ok (classify_assessed alloc src sustat now prottime si segnum assessed)))
    assessed_lem si segnum (ok assessed) answers = classify_assessed_lem si segnum assessed
    assessed_lem si segnum (err e) answers = refl
    assessed_lem si segnum fault answers = answers

    hc_evaluate_lem :
        (si : Suinfo) (segnum : ℕ)
        → Safe
            (λ c. list_of c ≡ from_cno si segnum src.track_back)
            (hc_evaluate alloc src sustat now prottime si segnum)
    unfolding hc_evaluate
    hc_evaluate_lem si segnum = go src.track_back safe.track_back
      where
        go :
            (m : Result ℕ)
            → Safe (λ n. Unit) m
            → Safe
                (λ c. list_of c ≡ from_cno si segnum m)
                (or_skip none m (λ protcno.
                  or_skip none (src.assess sustat.ss_prot_seq segnum protcno) (λ assessed.
                    ok (classify_assessed alloc src sustat now prottime si segnum assessed))))
        go (ok protcno) answers =
            assessed_lem si segnum (src.assess sustat.ss_prot_seq segnum protcno)
              (safe.assess sustat.ss_prot_seq segnum protcno)
        go (err e) answers = refl
        go fault answers = answers

    put_eligible_lem :
        (g : Gathered) (c : Option HotCold)
        → Safe (λ (h : Gathered). h.candidates ≡ g.candidates ++ list_of c) (put_eligible alloc g c)
    unfolding put_eligible put_candidate
    put_eligible_lem g none = sym (append-nil g.candidates)
    put_eligible_lem g (some c) =
        either (leb g.capacity (length g.candidates)) (alloc (g.capacity * 2 * 32)) _
      where
        either :
            (b1 b2 : Bool) (n : ℕ)
            → Safe
                (λ (h : Gathered). h.candidates ≡ g.candidates ++ c ∷ [])
                (if not b1
                  then ok (record g { candidates = g.candidates ++ (c ∷ []) })
                  else if b2
                  then ok (record { candidates = g.candidates ++ (c ∷ []); capacity = n })
                  else err enomem)
        either true true n = refl
        either true false n = tt
        either false b2 n = refl

    scan_segment_lem :
        (g : Gathered) (segnum : ℕ)
        → Safe
            (λ (h : Gathered). h.candidates ≡ g.candidates ++ eligible_at segnum)
            (scan_segment alloc src sustat now prottime g segnum)
    unfolding scan_segment
    scan_segment_lem g segnum = go (src.get_suinfo segnum) (safe.get_suinfo segnum)
      where
        go :
            (m : Result Suinfo)
            → Safe (λ si. Unit) m
            → Safe
                (λ (h : Gathered). h.candidates ≡ g.candidates ++ from_suinfo segnum m)
                (or_skip g m (λ si. hc_evaluate alloc src sustat now prottime si segnum >>= λ c.
                  put_eligible alloc g c))
        go (ok si) answers =
            Safe-bind _ (hc_evaluate alloc src sustat now prottime si segnum) _
              (hc_evaluate_lem si segnum) (λ c same. rw⁻¹ same (put_eligible_lem g c))
        go (err e) answers = sym (append-nil g.candidates)
        go fault answers = answers

    pub scan_lem :
        (n segnum : ℕ) (g : Gathered)
        → Safe
            (λ (h : Gathered). h.candidates ≡ g.candidates ++ eligible_from n segnum)
            (scan alloc src sustat now prottime n segnum g)
    unfolding scan
    scan_lem zero segnum g = sym (append-nil g.candidates)
    scan_lem (suc n) segnum g =
        Safe-bind _ (scan_segment alloc src sustat now prottime g segnum) _
          (scan_segment_lem g segnum)
          (λ h held.
            Safe-map {A = Gathered}
              {P = λ k. k.candidates ≡ h.candidates ++ eligible_from n (suc segnum)}
              {Q = λ k. k.candidates ≡ g.candidates ++ eligible_from (suc n) segnum}
              (scan alloc src sustat now prottime n (suc segnum) h)
              (λ k more.
                more
                ∙ ap (λ xs. xs ++ eligible_from n (suc segnum)) held
                ∙ append_assoc g.candidates (eligible_at segnum) (eligible_from n (suc segnum)))
              (scan_lem n (suc segnum) h))

  stat-Fits :
      (si : Suinfo) (segnum : ℕ) (assessed : Option ReclaimStat)
      → All Fits (from_stat si segnum assessed)
  stat-Fits si segnum none = tt
  stat-Fits si segnum (some stat) = pick (is_open si) _ (omega arith)
    where
      pick : (b : Bool) (c : HotCold) → Fits c → All Fits (if b then c ∷ [] else [])
      pick true c fits = (fits, tt)
      pick false c fits = tt

  eligible-Fits : (segnum : ℕ) → All Fits (eligible_at segnum)
  eligible-Fits segnum = suinfo (src.get_suinfo segnum)
    where
      assess : (si : Suinfo) (m : Result (Option ReclaimStat)) → All Fits (from_assess si segnum m)
      assess si (ok assessed) = stat-Fits si segnum assessed
      assess si (err e) = tt
      assess si fault = tt

      cno : (si : Suinfo) (m : Result ℕ) → All Fits (from_cno si segnum m)
      cno si (ok protcno) = assess si (src.assess sustat.ss_prot_seq segnum protcno)
      cno si (err e) = tt
      cno si fault = tt

      suinfo : (m : Result Suinfo) → All Fits (from_suinfo segnum m)
      suinfo (ok si) = cno si src.track_back
      suinfo (err e) = tt
      suinfo fault = tt

  pub All-eligible_from : (n segnum : ℕ) → All Fits (eligible_from n segnum)
  All-eligible_from zero segnum = tt
  All-eligible_from (suc n) segnum =
      All-append (eligible_at segnum) (eligible_from n (suc segnum)) (eligible-Fits segnum)
        (All-eligible_from n (suc segnum))
