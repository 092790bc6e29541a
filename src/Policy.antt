-- ===== src/Policy.antt =====
-- The cleaning policy "segregation" of sbin/policies/nilfs_policy_segregation.c. A candidate stands with
-- its metadata. The calls of the file system and of the checkpoint map, malloc (`alloc`) and qsort with
-- age_compare_descending are parameters; nilfs_get_suinfo answers one record.
pub mod Cluster
pub mod Fits
pub mod Eligible
pub mod Whole
use nilfs_utils.Base.{
  ℕ, zero, suc, ◌+◌, ◌-◌, ◌*◌, ◌%◌, ◌^◌, Bool, ◌&&◌, not, List, [], ◌∷◌, ◌++◌, Option, none, some,
  ltb, leb, ◌==◌, if◌then◌else◌, Result, ok, err, fault, enomem, ◌>>=◌, length, ℤ, pos, negsuc,
  pos_part, neg_part, ltb_ℤ, to_int64, ◌-ℤ◌, u64, sub64,
}
use nilfs_utils.Gc.Select.{Suinfo, suinfo_reclaimable}
use nilfs_utils.Gc.Reclaim.{ReclaimStat}
use nilfs_utils.Cleaner.{Sustat}

-- struct nilfs_segment_candidate with struct hc_candidate_meta
pub record HotCold : Type 0 where
  pub segnum : ℕ
  pub is_hot : Bool
  pub live_blocks : ℕ
  pub lastmod : ℤ

-- nilfs_cnormap_track_back for the whole period, assess_segment_if_dirty (by the limit of the protected
-- sequences, the segment and the checkpoint; `none` for a clean segment) and nilfs_get_suinfo.
pub record Sources : Type 0 where
  pub track_back : Result ℕ
  pub assess : ℕ → ℕ → ℕ → Result (Option ReclaimStat)
  pub get_suinfo : ℕ → Result Suinfo

-- HC_HOT_THRESHOLD_SEC
abbrev pub hot_threshold : ℕ
hot_threshold = 24 * 60 * 60

-- The conversion of an int64_t to an unsigned value, which a comparison with a __u64 makes.
abbrev pub to_uint64 : ℤ → ℕ
to_uint64 (pos n) = n % 2 ^ 64
to_uint64 (negsuc n) = 2 ^ 64 - 1 - n % 2 ^ 64

unfoldable pub is_protected : Suinfo → ℤ → ℤ → Bool
is_protected si now prottime =
    leb (to_uint64 prottime) si.sui_lastmod && leb si.sui_lastmod (to_uint64 now)

-- An age that is negative is 0.
unfoldable pub age_of : Suinfo → ℤ → ℤ
age_of si now =
    let age = to_int64 (sub64 (to_uint64 now) si.sui_lastmod) in
    if ltb_ℤ age (pos 0) then pos 0 else age

-- The rest of the code, unless a call fails, when the segment is skipped.
abbrev pub or_skip {ℓ κ} : {A : Type ℓ} {B : Type κ} → B → Result A → (A → Result B) → Result B
or_skip b (ok a) f = f a
or_skip b (err e) f = ok b
or_skip b fault f = fault

-- The array of candidates and its capacity.
pub record Gathered : Type 0 where
  pub candidates : List HotCold
  pub capacity : ℕ

-- A candidate at the end of the array, which doubles when it is full; 32 is the size of a candidate.
unfoldable pub put_candidate : (ℕ → Bool) → Gathered → HotCold → Result Gathered
put_candidate alloc g cand =
    if not (leb g.capacity (length g.candidates))
    then ok (record g { candidates = g.candidates ++ (cand ∷ []) })
    else if alloc (g.capacity * 2 * 32)
    then ok (record { candidates = g.candidates ++ (cand ∷ []); capacity = g.capacity * 2 })
    else err enomem

unfoldable pub put_eligible : (ℕ → Bool) → Gathered → Option HotCold → Result Gathered
put_eligible alloc g none = ok g
put_eligible alloc g (some cand) = put_candidate alloc g cand

module _ (alloc : ℕ → Bool) (src : Sources) (sustat : Sustat) (now prottime : ℤ) where
  -- The candidate of a segment that was assessed; 16 is the size of its metadata. The number of live
  -- blocks is unsigned, so its test for a negative one never holds.
  unfoldable pub classify : Suinfo → ℕ → ReclaimStat → Option HotCold
  classify si segnum stat =
      if is_protected si now prottime
      then none
      else if not (suinfo_reclaimable si)
      then none
      else if not (alloc 16)
      then none
      else some (record {
        segnum = segnum;
        is_hot = ltb_ℤ (age_of si now) (pos hot_threshold);
        live_blocks = stat.live_blks % 2 ^ 32;
        lastmod = to_int64 si.sui_lastmod;
      })

  unfoldable pub classify_assessed : Suinfo → ℕ → Option ReclaimStat → Option HotCold
  classify_assessed si segnum none = none
  classify_assessed si segnum (some stat) = classify si segnum stat

  unfoldable pub hc_evaluate : Suinfo → ℕ → Result (Option HotCold)
  hc_evaluate si segnum = or_skip none src.track_back (λ protcno.
      or_skip none (src.assess sustat.ss_prot_seq segnum protcno)
        (λ assessed. ok (classify_assessed si segnum assessed)))

  unfoldable pub scan_segment : Gathered → ℕ → Result Gathered
  scan_segment g segnum =
      or_skip g (src.get_suinfo segnum)
        (λ si. hc_evaluate si segnum >>= λ c. put_eligible alloc g c)

  -- `n` segments from `segnum` on.
  unfoldable pub scan : ℕ → ℕ → Gathered → Result Gathered
  scan zero segnum g = ok g
  scan (suc n) segnum g = scan_segment g segnum >>= λ h. scan n (suc segnum) h

-- llabs(seed_ts - cand_ts) > age_window
unfoldable pub is_far : ℤ → HotCold → Bool
is_far seed_ts c = let gap = seed_ts -ℤ c.lastmod in ltb 4 (pos_part gap + neg_part gap)

-- NILFS_CLDCONFIG_NSEGMENTS_PER_CLEAN_MAX
abbrev pub nsegments_per_clean_max : ℕ
nsegments_per_clean_max = 32

-- The loop over the sorted candidates, with the number of those selected and their live blocks.
unfoldable pub cluster : ℕ → ℤ → List HotCold → ℕ → ℕ → List ℕ
cluster blocks_per_seg seed_ts [] count accum_blocks = []
cluster blocks_per_seg seed_ts (c ∷ cs) count accum_blocks =
    let total = u64 (accum_blocks + c.live_blocks) in
    let skipped = cluster blocks_per_seg seed_ts cs count accum_blocks in
    let more = cluster blocks_per_seg seed_ts cs (suc count) total in
    if leb nsegments_per_clean_max count
    then []
    else if is_far seed_ts c
    then skipped
    else c.segnum ∷ (if leb blocks_per_seg total then [] else more)

-- The first candidate is the seed.
unfoldable pub select_cluster : ℕ → List HotCold → List ℕ
select_cluster blocks_per_seg [] = []
select_cluster blocks_per_seg (seed ∷ rest) = cluster blocks_per_seg seed.lastmod (seed ∷ rest) 0 0

unfoldable pub strict_cluster_select :
    (ℕ → Bool) → (List HotCold → List HotCold) → Sources → ℕ → ℕ → Sustat → ℤ → ℤ → Result (List ℕ)
strict_cluster_select alloc qsort src nsegs blocks_per_seg sustat now prottime =
    if nsegs == 0
    then ok []
    else if alloc (100 * 32)
    then (scan alloc src sustat now prottime nsegs 0 (record { candidates = []; capacity = 100 })
        >>= λ g. ok (
            if length g.candidates == 0
            then []
            else select_cluster blocks_per_seg (qsort g.candidates)))
    else err enomem
