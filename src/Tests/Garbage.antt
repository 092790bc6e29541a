-- ===== src/Tests/Garbage.antt =====
-- The garbage collector at small inputs.
use nilfs_utils.Base.{ℕ, ◌≡◌, refl, inl, Bool, not, true, false, List, [], ◌∷◌, ◌++◌, arith, ok}
use nilfs_utils.Vector.{Vector, IsVector, contents}
use nilfs_utils.Vector.Enlarge.{Answers}
use nilfs_utils.Gc.{Period, Vdesc, Bdesc}
use nilfs_utils.Gc.Live.{vdesc_is_live, live_search, live_by_snapshot, live_reference}
use nilfs_utils.Gc.Live.Search.{Answer, vdesc_is_live-Answer}
use nilfs_utils.Gc.Unify.{unify_period}
use nilfs_utils.Gc.Unify.Merge.{covered, IsApart}
use nilfs_utils.Gc.Unify.Laws.{unify_period_lem}
use nilfs_utils.Gc.Toss.{toss_bdescs, bdesc_is_live, toss_vdescs}
use nilfs_utils.Gc.Toss.Runs.{keep_if}
use nilfs_utils.Gc.Toss.Bdescs.{toss_bdescs_lem}
use nilfs_utils.Gc.Toss.Vdescs.{numbers_of, periods_of}
use nilfs_utils.Gc.Toss.Vdescs.Outer.{toss_vdescs_lem}
use nilfs_utils.Tests.Sorting.{insertion_sort, insertion_sort-IsSort}

abbrev always : ℕ → Bool
always n = true

abbrev span : ℕ → ℕ → Period
span a b = record { p_start = a; p_end = b }

abbrev block : ℕ → ℕ → ℕ → ℕ → Vdesc
block cno number a b = record {
  vd_ino = 12;
  vd_cno = cno;
  vd_vblocknr = number;
  vd_period = span a b;
  vd_blocknr = 100;
  vd_offset = 0;
  vd_flags = 0;
}

abbrev snapshots : List ℕ
snapshots = 3 ∷ 7 ∷ 20 ∷ []

-- Snapshot 7 lies in [5, 9), and none in [8, 12).
live_and_dead :
    (vdesc_is_live (block 5 41 5 9) 100 snapshots 0 ≡ ok (true, 7))
    × (vdesc_is_live (block 8 42 8 12) 100 snapshots 7 ≡ ok (false, 7))
unfolding vdesc_is_live live_by_snapshot live_search
live_and_dead = (refl, refl)

vdesc_is_live-Answer_example :
    Answer snapshots
      (live_reference (block 5 41 5 9) 100 snapshots)
      (vdesc_is_live (block 5 41 5 9) 100 snapshots 0)
vdesc_is_live-Answer_example =
    vdesc_is_live-Answer (block 5 41 5 9) 100 snapshots 0 (omega arith) (inl refl)

abbrev periods : Vector Period
periods = record {
  v_data = span 6 9 ∷ span 1 4 ∷ span 4 5 ∷ span 2 3 ∷ [];
  v_elemsize = 16;
  v_nelems = 4;
  v_maxelems = 4;
}

periods-IsVector : IsVector periods
periods-IsVector = record {
  sized = refl;
  within = omega arith;
  roomy = omega arith;
  elem = omega arith;
  bytes = omega arith;
}

abbrev by_start : List Period → List Period
by_start = insertion_sort (λ p. p.p_start)

unify_period_lem_example :
    (w : Vector Period) × (unify_period by_start periods ≡ ok w)
    × IsVector w
    × ((c : ℕ) → covered c (contents w) ≡ covered c (contents periods))
    × IsApart (contents w)
unify_period_lem_example =
    unify_period_lem by_start (insertion_sort-IsSort (λ p. p.p_start)) periods periods-IsVector

abbrev disk_block : ℕ → ℕ → Bdesc
disk_block old new = record {
  bd_ino = 3;
  bd_oblocknr = old;
  bd_blocknr = new;
  bd_offset = 0;
  bd_level = 0;
}

abbrev disk_blocks : Vector Bdesc
disk_blocks = record {
  v_data = disk_block 8 9 ∷ disk_block 4 4 ∷ disk_block 5 0 ∷ [];
  v_elemsize = 40;
  v_nelems = 3;
  v_maxelems = 3;
}

disk_blocks-IsVector : IsVector disk_blocks
disk_blocks-IsVector = record {
  sized = refl;
  within = omega arith;
  roomy = omega arith;
  elem = omega arith;
  bytes = omega arith;
}

toss_bdescs_lem_example :
    (w : Vector Bdesc) × (toss_bdescs disk_blocks ≡ ok w)
    × IsVector w
    × (contents w ≡ keep_if bdesc_is_live (contents disk_blocks))
toss_bdescs_lem_example = toss_bdescs_lem disk_blocks disk_blocks-IsVector

abbrev blocks : Vector Vdesc
blocks = record {
  v_data = block 8 42 8 12 ∷ block 5 41 5 9 ∷ block 0 43 2 5 ∷ [];
  v_elemsize = 64;
  v_nelems = 3;
  v_maxelems = 3;
}

blocks-IsVector : IsVector blocks
blocks-IsVector = record {
  sized = refl;
  within = omega arith;
  roomy = omega arith;
  elem = omega arith;
  bytes = omega arith;
}

abbrev numbers : Vector ℕ
numbers = record { v_data = 0 ∷ []; v_elemsize = 8; v_nelems = 0; v_maxelems = 1 }

numbers-IsVector : IsVector numbers
numbers-IsVector = record {
  sized = refl;
  within = omega arith;
  roomy = omega arith;
  elem = omega arith;
  bytes = omega arith;
}

toss_vdescs_lem_example :
    let test = λ (d : Vdesc). live_reference d 100 snapshots in
    let dead = keep_if (λ d. not (test d)) (contents blocks) in
    Answers
      (λ t.
        IsVector t.vdescv
        × IsVector t.periodv
        × IsVector t.vblocknrv
        × (contents t.vdescv ≡ keep_if test (contents blocks))
        × (contents t.vblocknrv ≡ contents numbers ++ numbers_of dead)
        × (contents t.periodv ≡ contents periods ++ periods_of dead))
      (toss_vdescs always (span 0 0) 0 snapshots 100 blocks periods numbers)
toss_vdescs_lem_example =
    toss_vdescs_lem always (span 0 0) 0 snapshots 100 (omega arith) blocks periods numbers
      blocks-IsVector periods-IsVector numbers-IsVector
