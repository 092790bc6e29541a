-- ===== src/Policy/Whole.antt =====
-- strict_cluster_select of sbin/policies/nilfs_policy_segregation.c, from the scan of all segments to the
-- selection.
use mathlib.Core.List.{Perm}
use nilfs_utils.Base.{
  ◌≤ℤ◌, true, false, ℕ, zero, suc, ◌*◌, ◌<◌, ◌≡◌, refl, arith, Bool, ◌==◌, List, [], ◌∷◌,
  if◌then◌else◌, length, ℤ, All, Result, err, enomem,
}
use nilfs_utils.Segment.Bytes.{Safe, Safe-bind}
use nilfs_utils.Cleaner.{Sustat}
use nilfs_utils.Policy.{HotCold, Sources, scan, select_cluster, strict_cluster_select}
use nilfs_utils.Policy.Cluster.{Fits, IsFill, within, select_cluster_lem}
use nilfs_utils.Base.Sort.{length-perm}
use nilfs_utils.Policy.Fits.{Fits-perm}
use nilfs_utils.Policy.Eligible.{AreSafe, eligible_from, scan_lem, All-eligible_from}

-- qsort with age_compare_descending: the same candidates, the oldest first.
pub record IsAgeSort (qsort : List HotCold → List HotCold) : Type 0 where
  pub permutes : (xs : List HotCold) → Perm (qsort xs) xs
  pub oldest_first :
      (xs : List HotCold) (x : HotCold) (ys : List HotCold)
      → qsort xs ≡ x ∷ ys
      → All (λ (c : HotCold). x.lastmod ≤ℤ c.lastmod) ys

-- Without a candidate nothing is selected; else those near the first one of the sorted candidates, which
-- is the oldest, that fill a segment.
abbrev pub Selects : ℕ → List HotCold → List ℕ → Type 0
Selects blocks_per_seg [] segnums = segnums ≡ []
Selects blocks_per_seg (seed ∷ rest) segnums =
    All (λ (c : HotCold). seed.lastmod ≤ℤ c.lastmod) rest
    × IsFill blocks_per_seg 0 0 (within seed.lastmod (seed ∷ rest)) segnums

selected-Selects :
    (blocks_per_seg : ℕ) (cs : List HotCold)
    → 0 < blocks_per_seg
    → ((x : HotCold) (ys : List HotCold)
        → cs ≡ x ∷ ys
        → All (λ (c : HotCold). x.lastmod ≤ℤ c.lastmod) ys)
    → All Fits cs
    → Selects blocks_per_seg cs (select_cluster blocks_per_seg cs)
unfolding select_cluster
selected-Selects blocks_per_seg [] some_blocks old fit = refl
selected-Selects blocks_per_seg (seed ∷ rest) some_blocks old fit =
    (old seed rest refl, select_cluster_lem blocks_per_seg seed rest some_blocks fit)

-- With no candidates the sort is not called, and would change nothing.
nothing-Selects :
    (b : Bool) (blocks_per_seg : ℕ) (cs sorted : List HotCold)
    → (length cs == 0) ≡ b
    → Perm sorted cs
    → Selects blocks_per_seg sorted (select_cluster blocks_per_seg sorted)
    → Selects blocks_per_seg sorted (if b then [] else select_cluster blocks_per_seg sorted)
nothing-Selects false blocks_per_seg cs sorted e p s = s
nothing-Selects true blocks_per_seg cs [] e p s = refl
nothing-Selects true blocks_per_seg cs (x ∷ sorted) e p s = absurd (ground (arith, length-perm p))

-- For calls that answer, a qsort that puts the oldest candidate first, and segments of at least one
-- block: strict_cluster_select ends, and unless it fails it selects, of the eligible segments of the file
-- system as sorted, those that are modified within four seconds of the oldest one, as few as fill a
-- segment with their live blocks, but at most the 32 that the array of the caller holds, and otherwise
-- all such segments.
pub strict_cluster_select-Selects :
    (alloc : ℕ → Bool) (qsort : List HotCold → List HotCold) (src : Sources)
    (nsegs blocks_per_seg : ℕ) (sustat : Sustat) (now prottime : ℤ)
    → IsAgeSort qsort
    → AreSafe src
    → 0 < blocks_per_seg
    → Safe
        (Selects blocks_per_seg (qsort (eligible_from alloc src sustat now prottime nsegs 0)))
        (strict_cluster_select alloc qsort src nsegs blocks_per_seg sustat now prottime)
unfolding strict_cluster_select
strict_cluster_select-Selects alloc qsort src zero blocks_per_seg sustat now prottime sorts safe
      some_blocks =
    nothing-Selects true blocks_per_seg [] (qsort []) refl (sorts.permutes []) (
      selected-Selects blocks_per_seg (qsort []) some_blocks (sorts.oldest_first [])
        (Fits-perm (sorts.permutes []) tt))
strict_cluster_select-Selects alloc qsort src (suc n) blocks_per_seg sustat now prottime sorts safe
      some_blocks =
    let cs = eligible_from alloc src sustat now prottime (suc n) 0 in
    let more : (suc n == 0) ≡ false = ground arith in
    rw more (
      either (alloc (100 * 32)) _ (
        Safe-bind _ (scan alloc src sustat now prottime (suc n) 0 _) _
          (scan_lem alloc src sustat now prottime safe (suc n) 0 _)
          (λ g held. rw held (
            nothing-Selects (length cs == 0) blocks_per_seg cs (qsort cs) refl (sorts.permutes cs) (
              selected-Selects blocks_per_seg (qsort cs) some_blocks (sorts.oldest_first cs) (
                Fits-perm (sorts.permutes cs)
                  (All-eligible_from alloc src sustat now prottime (suc n) 0)))))))
  where
    either :
        (b : Bool) (r : Result (List ℕ))
        → Safe
            (Selects blocks_per_seg (qsort (eligible_from alloc src sustat now prottime (suc n) 0)))
            r
        → Safe
            (Selects blocks_per_seg (qsort (eligible_from alloc src sustat now prottime (suc n) 0)))
            (if b then r else err enomem)
    either true r s = s
    either false r s = tt
