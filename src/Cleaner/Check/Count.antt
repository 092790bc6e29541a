-- ===== src/Cleaner/Check/Count.antt =====
-- nilfs_cleanerd_count_inuse_segments of sbin/cleanerd.c against a table of all segments.
use nilfs_utils.Base.{
  ℕ, zero, suc, ◌+◌, ◌-◌, ◌≤◌, ◌<◌, min, ◌≡◌, refl, ap, sym, ◌∙◌, ◌&&◌, List, [], ◌∷◌, ltb,
  if◌then◌else◌, Bool-cases, inl, inr, arith, Result, ok, length, take, drop, length-take,
  length-drop,
}
use nilfs_utils.Base.Cut.{drop-drop}
use nilfs_utils.Gc.Select.{Suinfo, suinfo_reclaimable}
use nilfs_utils.Cleaner.Check.{
  Counting, count_answer, nsuinfo, count_inuse_loop, count_inuse_segments,
}

-- How many records of a table are reclaimable.
abbrev pub count_reclaimable : List Suinfo → ℕ
count_reclaimable [] = 0
count_reclaimable (si ∷ sis) =
    if suinfo_reclaimable si then suc (count_reclaimable sis) else count_reclaimable sis

-- The call reads the table: each answer begins at the segment asked for and has at least one record,
-- but maybe fewer than asked for.
pub record Reads (get_suinfo : ℕ → ℕ → Result (List Suinfo)) (table : List Suinfo) : Type 0 where
  pub answers :
      (segnum count : ℕ)
      → segnum < length table
      → 0 < count
      → (k : ℕ) × (get_suinfo segnum count ≡ ok (take k (drop segnum table)))
        × (1 ≤ k)
        × (k ≤ count)

count_reclaimable-le : (sis : List Suinfo) → count_reclaimable sis ≤ length sis
count_reclaimable-le [] = omega arith
count_reclaimable-le (si ∷ sis) = ground (arith, count_reclaimable-le sis)

count_reclaimable-take-drop :
    (k : ℕ) (sis : List Suinfo)
    → count_reclaimable (take k sis) + count_reclaimable (drop k sis) ≡ count_reclaimable sis
count_reclaimable-take-drop zero sis = omega arith
count_reclaimable-take-drop (suc k) [] = omega arith
count_reclaimable-take-drop (suc k) (si ∷ sis) = ground (arith, count_reclaimable-take-drop k sis)

pub drop-length-take {ℓ} :
    {A : Type ℓ} (k : ℕ) (xs : List A) → drop (length (take k xs)) xs ≡ drop k xs
drop-length-take zero xs = refl
drop-length-take (suc k) [] = refl
drop-length-take (suc k) (x ∷ xs) = drop-length-take k xs

count_answer_lem :
    (sis : List Suinfo) (s : Counting)
    → count_reclaimable sis ≤ s.rest
    → count_answer sis s ≡ (record {
      rest = s.rest - count_reclaimable sis;
      segnum = s.segnum + length sis;
      nfound = s.nfound + count_reclaimable sis;
    })
unfolding count_answer
count_answer_lem [] s h = ground arith
count_answer_lem (si ∷ sis) s h = elim (Bool-cases (suinfo_reclaimable si)) [
  | inl counted ↦ rw counted (
      count_answer_lem sis _ (let g = rw counted at h in omega arith)
      ∙ (let g = rw counted at h in ground arith))
  | inr other ↦
      rw other (count_answer_lem sis _ (let g = rw other at h in omega arith) ∙ ground arith)
]

count_reclaimable-drop_end :
    (table : List Suinfo) (i : ℕ) → length table ≤ i → count_reclaimable (drop i table) ≡ 0
count_reclaimable-drop_end table i h =
    omega (arith, count_reclaimable-le (drop i table), length-drop i table)

module _ (get_suinfo : ℕ → ℕ → Result (List Suinfo)) (table : List Suinfo)
    (reads : Reads get_suinfo table) where
  -- The rounds after an answer of `k` records.
  after :
      (fuel : ℕ) (s : Counting) (k : ℕ)
      → length table - s.segnum < suc fuel
      → s.segnum < length table
      → s.nfound ≤ s.segnum
      → s.rest + s.nfound ≡ length table
      → 1 ≤ k
      → k ≤ s.rest
      → ((t : Counting)
          → length table - t.segnum < fuel
          → t.segnum ≤ length table
          → t.nfound ≤ t.segnum
          → t.rest + t.nfound ≡ length table
          → count_inuse_loop get_suinfo fuel (length table) t
            ≡ ok (t.nfound + count_reclaimable (drop t.segnum table)))
      → count_inuse_loop get_suinfo fuel
          (length table)
          (count_answer (take k (drop s.segnum table)) s)
        ≡ ok (s.nfound + count_reclaimable (drop s.segnum table))
  after fuel s k enough inside found total one most later =
      let sis = take k (drop s.segnum table) in
      let few = count_reclaimable-le sis in
      let long = length-take k (drop s.segnum table) in
      let there = length-drop s.segnum table in
      let counted = count_reclaimable-take-drop k (drop s.segnum table) in
      let rest =
        ap count_reclaimable (
          sym (drop-length-take k (drop s.segnum table)) ∙ drop-drop table s.segnum (length sis)) in
      rw (count_answer_lem sis s (omega (arith, few, long))) (
        later _ (omega (arith, long, there)) (omega (arith, long, there)) (omega (arith, few))
          (omega (arith, few, long))
        ∙ ap ok (omega (arith, counted, rest)))

  count_inuse_loop_lem :
      (fuel : ℕ) (s : Counting)
      → length table - s.segnum < fuel
      → s.segnum ≤ length table
      → s.nfound ≤ s.segnum
      → s.rest + s.nfound ≡ length table
      → count_inuse_loop get_suinfo fuel (length table) s
        ≡ ok (s.nfound + count_reclaimable (drop s.segnum table))
  unfolding count_inuse_loop
  count_inuse_loop_lem zero s enough inside found total = absurd (omega arith)
  count_inuse_loop_lem (suc fuel) s enough inside found total =
      elim (Bool-cases (ltb 0 s.rest && ltb s.segnum (length table))) [
        | inl more ↦
            let (k, answer, one, most) =
              reads.answers s.segnum (min s.rest nsuinfo) (ground arith) (ground arith) in
            rw (more, answer)
              (after fuel s k enough (ground arith) found total one (ground arith)
                (count_inuse_loop_lem fuel))
        | inr done ↦
            rw done
              (ap ok (omega (arith, count_reclaimable-drop_end table s.segnum (ground arith))))
      ]

  -- For a call that reads the table of all segments, in answers of one record at least, the loops of
  -- nilfs_cleanerd_count_inuse_segments end, and the result is the number of reclaimable segments.
  pub count_inuse_segments_lem :
      count_inuse_segments get_suinfo (length table) ≡ ok (count_reclaimable table)
  unfolding count_inuse_segments
  count_inuse_segments_lem =
      count_inuse_loop_lem (suc (length table)) _ (omega arith) (omega arith) (omega arith)
        (omega arith)
      ∙ ap ok (omega arith)
