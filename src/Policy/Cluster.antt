-- ===== src/Policy/Cluster.antt =====
-- The selection of strict_cluster_select of sbin/policies/nilfs_policy_segregation.c.
use nilfs_utils.Base.{
  ℕ, zero, suc, ◌+◌, ◌*◌, ◌^◌, ◌≤◌, ◌<◌, ◌≡◌, refl, ap, ◌⊎◌, inl, inr, arith, Bool-cases, List, [],
  ◌∷◌, map, leb, if◌then◌else◌, length, take, ℤ, All, u64,
}
use nilfs_utils.Policy.{HotCold, is_far, cluster, select_cluster, nsegments_per_clean_max}

-- The candidates that are modified within four seconds of the seed.
abbrev pub within : ℤ → List HotCold → List HotCold
within seed_ts [] = []
within seed_ts (c ∷ cs) = if is_far seed_ts c then within seed_ts cs else c ∷ within seed_ts cs

abbrev pub live_of : List HotCold → ℕ
live_of [] = 0
live_of (c ∷ cs) = c.live_blocks + live_of cs

-- The number of live blocks is a uint32_t.
abbrev pub Fits : HotCold → Type 0
Fits c = c.live_blocks < 2 ^ 32

-- The segments are the first `taken` ones of the list: as few as fill a segment, or all, or as many as
-- a round takes.
pub record IsFill (blocks_per_seg count accum : ℕ) (near : List HotCold) (segnums : List ℕ)
    : Type 0 where
  pub taken : ℕ
  pub chosen : segnums ≡ map (λ (c : HotCold). c.segnum) (take taken near)
  pub few : count + taken ≤ nsegments_per_clean_max
  pub stopped :
      (taken ≡ length near)
      ⊎ (count + taken ≡ nsegments_per_clean_max)
      ⊎ (blocks_per_seg ≤ accum + live_of (take taken near))
  pub needed : (j : ℕ) → j < taken → accum + live_of (take j near) < blocks_per_seg

no_more-IsFill :
    (blocks_per_seg count accum : ℕ) (near : List HotCold)
    → count ≡ nsegments_per_clean_max
    → IsFill blocks_per_seg count accum near []
no_more-IsFill blocks_per_seg count accum near full = record {
  taken = 0;
  chosen = refl;
  few = omega (arith, full);
  stopped = inr (inl (omega (arith, full)));
  needed = λ j less. absurd (omega arith);
}

last-IsFill :
    (blocks_per_seg count accum : ℕ) (c : HotCold) (near : List HotCold)
    → count < nsegments_per_clean_max
    → accum < blocks_per_seg
    → blocks_per_seg ≤ accum + c.live_blocks
    → IsFill blocks_per_seg count accum (c ∷ near) (c.segnum ∷ [])
last-IsFill blocks_per_seg count accum c near room spare filled = record {
  taken = 1;
  chosen = refl;
  few = omega arith;
  stopped = inr (inr (omega arith));
  needed = needed;
}
  where
    needed : (j : ℕ) → j < 1 → accum + live_of (take j (c ∷ near)) < blocks_per_seg
    needed zero less = omega arith
    needed (suc j) less = absurd (omega arith)

cons-IsFill :
    (blocks_per_seg count accum : ℕ) (c : HotCold) (near : List HotCold) (segnums : List ℕ)
    → accum < blocks_per_seg
    → IsFill blocks_per_seg (suc count) (accum + c.live_blocks) near segnums
    → IsFill blocks_per_seg count accum (c ∷ near) (c.segnum ∷ segnums)
cons-IsFill blocks_per_seg count accum c near segnums spare fill = record {
  taken = suc fill.taken;
  chosen = ap (◌∷◌ c.segnum) fill.chosen;
  few = omega (arith, fill.few);
  stopped = elim (fill.stopped) [
    | inl all ↦ inl (ap suc all)
    | inr (inl full) ↦ inr (inl (omega (arith, full)))
    | inr (inr filled) ↦ inr (inr (omega (arith, filled)))
  ];
  needed = λ j less. needed j less;
}
  where
    needed : (j : ℕ) → j < suc fill.taken → accum + live_of (take j (c ∷ near)) < blocks_per_seg
    needed zero less = omega arith
    needed (suc j) less = omega (arith, fill.needed j (omega arith))

module _ (blocks_per_seg : ℕ) (seed_ts : ℤ) where
  cluster-IsFill :
      (cs : List HotCold) (count accum : ℕ)
      → All Fits cs
      → count ≤ nsegments_per_clean_max
      → accum ≤ count * 2 ^ 32
      → accum < blocks_per_seg
      → IsFill blocks_per_seg count accum
          (within seed_ts cs)
          (cluster blocks_per_seg seed_ts cs count accum)
  unfolding cluster
  cluster-IsFill [] count accum fit few small spare = record {
    taken = 0;
    chosen = refl;
    few = omega arith;
    stopped = inl refl;
    needed = λ j less. absurd (omega arith);
  }
  cluster-IsFill (c ∷ cs) count accum (fits, fit) few small spare =
      elim (Bool-cases (leb nsegments_per_clean_max count)) [
        | inl full ↦ rw full (no_more-IsFill blocks_per_seg count accum _ (ground arith))
        | inr room ↦ elim (Bool-cases (is_far seed_ts c)) [
          | inl far ↦ rw (room, far) (cluster-IsFill cs count accum fit few small spare)
          | inr near ↦
              let exact : u64 (accum + c.live_blocks) ≡ accum + c.live_blocks = omega arith in
              elim (Bool-cases (leb blocks_per_seg (accum + c.live_blocks))) [
                | inl filled ↦
                    rw (room, near, exact, filled)
                      (last-IsFill blocks_per_seg count accum c _ (ground arith) spare
                        (ground arith))
                | inr more ↦
                    rw (room, near, exact, more)
                      (cons-IsFill blocks_per_seg count accum c _ _ spare (
                        cluster-IsFill cs (suc count) (accum + c.live_blocks) fit (ground arith)
                          (ground arith) (ground arith)))
              ]
        ]
      ]

-- For candidates whose numbers of live blocks are below 2^32, and segments of at least one block, the
-- loop of strict_cluster_select selects the first of those candidates that are modified within four
-- seconds of the seed: as few as fill a segment with their live blocks, but at most the 32 that the
-- array of the caller holds, and otherwise all. The number of blocks does not wrap around.
pub select_cluster_lem :
    (blocks_per_seg : ℕ) (seed : HotCold) (rest : List HotCold)
    → 0 < blocks_per_seg
    → All Fits (seed ∷ rest)
    → IsFill blocks_per_seg 0 0
        (within seed.lastmod (seed ∷ rest))
        (select_cluster blocks_per_seg (seed ∷ rest))
unfolding select_cluster
select_cluster_lem blocks_per_seg seed rest some_blocks fit =
    cluster-IsFill blocks_per_seg seed.lastmod (seed ∷ rest) 0 0 fit (omega arith) (omega arith)
      some_blocks
