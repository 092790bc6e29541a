-- ===== src/Tests/Reclaiming.antt =====
-- The end of a reclaim at a small input.
use nilfs_utils.Base.{ℕ, ◌≡◌, refl, Bool, true, false, [], ◌∷◌, arith, ok, err, enotty}
use nilfs_utils.Vector.{get_size, Vector, IsVector, push, get_new_element, put_element}
use nilfs_utils.Gc.{Bdesc}
use nilfs_utils.Gc.Reclaim.{
  ReclaimParams, ReclaimStat, SuinfoUpdate, Prepared, System, set_suinfo, clean_segments, commit,
  clean, defer, fill_updates, is_enotty, reclaimable_blocks,
}
use nilfs_utils.Gc.Reclaim.Deferral.{Answering, Reports, commit_lem}

abbrev always : ℕ → Bool
always n = true

abbrev blank : SuinfoUpdate
blank = record { sup_segnum = 0; sup_flags = 0; sui_lastmod = 0 }

abbrev updates : Vector SuinfoUpdate
updates = record { v_data = blank ∷ blank ∷ []; v_elemsize = 32; v_nelems = 0; v_maxelems = 2 }

updates-IsVector : IsVector updates
updates-IsVector = record {
  sized = refl;
  within = omega arith;
  roomy = omega arith;
  elem = omega arith;
  bytes = omega arith;
}

-- A kernel that does not know set_suinfo.
abbrev old_kernel : System
old_kernel = record {
  sigpending = ok false;
  gettimeofday = ok 100;
  do_set_suinfo = λ u. err enotty;
  do_clean_segments = λ p. ok 0;
}

-- One segment with two live blocks of the DAT file.
abbrev dat_block : Bdesc
dat_block = record { bd_ino = 3; bd_oblocknr = 8; bd_blocknr = 8; bd_offset = 0; bd_level = 0 }

abbrev one_segment : Prepared
one_segment = record {
  segnums = 4 ∷ [];
  nsegs = 1;
  vdescv = record { v_data = []; v_elemsize = 64; v_nelems = 0; v_maxelems = 0 };
  bdescv = record {
    v_data = dat_block ∷ dat_block ∷ [];
    v_elemsize = 40;
    v_nelems = 2;
    v_maxelems = 2;
  };
  periodv = record { v_data = []; v_elemsize = 16; v_nelems = 0; v_maxelems = 0 };
  vblocknrv = record { v_data = []; v_elemsize = 8; v_nelems = 0; v_maxelems = 0 };
}

-- Defer below ten blocks won.
abbrev ten_blocks : ReclaimParams
ten_blocks = record { flags = 5; min_reclaimable_blks = 10; protseq = 0; protcno = 0 }

abbrev counted : ReclaimStat
counted = record {
  exflags = 0;
  cleaned_segs = 1;
  protected_segs = 0;
  deferred_segs = 0;
  live_blks = 2;
  live_vblks = 0;
  live_pblks = 2;
  defunct_blks = 6;
  defunct_vblks = 0;
  defunct_pblks = 0;
  freed_vblks = 0;
}

-- The fallback: after the refused update the segment is cleaned.
falls_back : commit always blank old_kernel ten_blocks false true 8 updates one_segment counted ≡ (
  set_suinfo (record { sup_segnum = 4; sup_flags = 1; sui_lastmod = 100 } ∷ [])
      ∷ clean_segments [] [] [] (dat_block ∷ dat_block ∷ []) (4 ∷ [])
      ∷ [],
  ok counted,
)
unfolding commit clean defer fill_updates is_enotty reclaimable_blocks push get_new_element
    put_element get_size
falls_back = refl

old_kernel-Answering : Answering old_kernel one_segment
old_kernel-Answering = record { signals = tt; clock = tt; updating = λ u. tt; cleaning = tt }

commit_lem_example :
    Reports always blank old_kernel one_segment old_kernel-Answering ten_blocks false true 8 updates
      counted
      (commit always blank old_kernel ten_blocks false true 8 updates one_segment counted)
commit_lem_example =
    commit_lem always blank old_kernel one_segment old_kernel-Answering ten_blocks false true 8
      updates counted updates-IsVector refl
