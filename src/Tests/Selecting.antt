-- ===== src/Tests/Selecting.antt =====
-- The collector's selection of segments and its reading of snapshots at small inputs.
use nilfs_utils.Base.{
  ℕ, ◌≡◌, refl, inl, inr, List, [], ◌∷◌, Bool, true, arith, Bool-cases, Result, ok, ◌==◌,
  if◌then◌else◌,
}
use nilfs_utils.Segment.{Segment, psegment_for_each, psegment_init, psegment_is_end}
use nilfs_utils.Segment.Bytes.{Safe}
use nilfs_utils.Gc.{Vdesc, Bdesc}
use nilfs_utils.Gc.Snapshot.{Cpinfo, get_snapshot, read_batches, store_batch, gc_ncpinfo}
use nilfs_utils.Gc.Snapshot.Ascending.{IsBatch, IsRead, get_snapshot-Safe}
use nilfs_utils.Gc.Accumulate.{acc_blocks_segment, psegment_is_error, Found}
use nilfs_utils.Gc.Select.{Suinfo, deselect_segment}
use nilfs_utils.Gc.Select.Deselect.{deselect_segment_lem}
use nilfs_utils.Tests.Segments.{logged}

abbrev always : ℕ → Bool
always n = true

-- The snapshots 2, 5 and 7, in two batches.
abbrev list_snapshots : ℕ → ℕ → Result (List Cpinfo)
list_snapshots cno count =
    if cno == 0
    then ok (record { ci_cno = 2; ci_next = 5 } ∷ [])
    else ok (record { ci_cno = 5; ci_next = 7 } ∷ record { ci_cno = 7; ci_next = 0 } ∷ [])

abbrev left : ℕ → ℕ
left cno = if cno == 0 then 3 else 2

lists : (cno : ℕ) → Safe (IsBatch left cno) (list_snapshots cno gc_ncpinfo)
lists cno = elim (Bool-cases (cno == 0)) [
  | inl start ↦ rw start (record {
    few = rw start (omega arith);
    behind = λ c found more. let next : c.ci_next ≡ 5 = cc found in rw (start, next) (omega arith);
  })
  | inr later ↦ rw later (record {
    few = rw later (omega arith);
    behind = λ c found more. let next : c.ci_next ≡ 0 = cc found in absurd (omega arith);
  })
]

reads_three : get_snapshot always 0 (ok 3) list_snapshots ≡ ok (2 ∷ 5 ∷ 7 ∷ [], 3)
unfolding get_snapshot read_batches store_batch
reads_three = refl

get_snapshot-Safe_example : Safe IsRead (get_snapshot always 0 (ok 3) list_snapshots)
get_snapshot-Safe_example =
    get_snapshot-Safe list_snapshots left lists always 0 (ok 3) (omega arith, omega arith)

deselect_segment_lem_example :
    deselect_segment (1 ∷ 2 ∷ 3 ∷ 4 ∷ 9 ∷ []) 4 1 ≡ ok (1 ∷ 3 ∷ 4 ∷ 2 ∷ 9 ∷ [], 3)
deselect_segment_lem_example = deselect_segment_lem (1 ∷ []) (3 ∷ 4 ∷ []) (9 ∷ []) 2

-- Segment 3 is clean, the others are dirty and hold a log; the sequence number is the number, and
-- those from 6 on are protected.
abbrev suinfo_of : ℕ → Result Suinfo
suinfo_of segnum =
    ok (record { sui_lastmod = 0; sui_nblocks = 2; sui_flags = if segnum == 3 then 0 else 2 })

abbrev segment_of : ℕ → Result Segment
segment_of segnum = ok (record logged { seqnum = segnum })

abbrev put_nothing : Segment → Result ℕ
put_nothing seg = ok 0

abbrev junk_vdesc : Vdesc
junk_vdesc = record {
  vd_ino = 0;
  vd_cno = 0;
  vd_vblocknr = 0;
  vd_period = record { p_start = 0; p_end = 0 };
  vd_blocknr = 0;
  vd_offset = 0;
  vd_flags = 0;
}

abbrev junk_bdesc : Bdesc
junk_bdesc = record { bd_ino = 0; bd_oblocknr = 0; bd_blocknr = 0; bd_offset = 0; bd_level = 0 }

abbrev nothing : Found
nothing = record {
  vdescv = record { v_data = junk_vdesc ∷ []; v_elemsize = 64; v_nelems = 0; v_maxelems = 1 };
  bdescv = record { v_data = junk_bdesc ∷ []; v_elemsize = 40; v_nelems = 0; v_maxelems = 1 };
}

-- The block of the log is collected.
block_collected :
    acc_blocks_segment always junk_vdesc junk_bdesc logged 2 nothing
    ≡ ok (record nothing {
      vdescv = record {
        v_data =
            record junk_vdesc {
              vd_ino = 12;
              vd_cno = 3;
              vd_vblocknr = 9;
              vd_blocknr = 3;
              vd_offset = 4;
            }
            ∷ [];
        v_elemsize = 64;
        v_nelems = 1;
        v_maxelems = 1;
      };
    })
unfolding acc_blocks_segment nilfs_utils.Gc.Accumulate.acc_blocks_psegment
    nilfs_utils.Gc.Accumulate.acc_blocks_file nilfs_utils.Gc.Accumulate.acc_vdesc
    nilfs_utils.Gc.Accumulate.file_is_error psegment_is_error psegment_for_each psegment_init
    psegment_is_end nilfs_utils.Segment.psegment_is_valid nilfs_utils.Segment.psegment_sane
    nilfs_utils.Segment.psegment_next nilfs_utils.Segment.File.file_init
    nilfs_utils.Segment.File.file_for_each nilfs_utils.Segment.File.file_is_end
    nilfs_utils.Segment.File.file_is_valid nilfs_utils.Segment.File.file_next
    nilfs_utils.Segment.File.file_init_from_finfo nilfs_utils.Segment.File.file_info_size
    nilfs_utils.Segment.File.binfo_total_size nilfs_utils.Segment.File.adjust_finfo_position
    nilfs_utils.Segment.File.block_init nilfs_utils.Segment.File.block_for_each
    nilfs_utils.Segment.File.block_is_end nilfs_utils.Segment.File.block_next
    nilfs_utils.Segment.File.block_is_data nilfs_utils.Segment.File.block_binfosize
    nilfs_utils.Segment.File.adjust_binfo_position nilfs_utils.Segment.Bytes.le
    nilfs_utils.Segment.Bytes.slice nilfs_utils.Segment.Crc.crc32_le
    nilfs_utils.Segment.Crc.crc32tab nilfs_utils.Vector.get_new_element
    nilfs_utils.Vector.put_element
block_collected = refl
