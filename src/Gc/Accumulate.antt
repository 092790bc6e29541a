-- ===== src/Gc/Accumulate.antt =====
-- nilfs_acc_blocks_file, _psegment and _segment of lib/gc.c: collect a descriptor for each block that
-- the logs of a segment describe. A field that the code does not set keeps what the memory held.
use nilfs_utils.Base.{
  ℕ, suc, ◌+◌, ◌^◌, Bool, true, false, if◌then◌else◌, Result, ok, err, einval, ◌>>=◌, checked,
  get_elem?,
}
use nilfs_utils.Vector.{Vector, get_new_element, put_element}
use nilfs_utils.Segment.{Segment, Psegment, PsegmentError, psegment_init, psegment_for_each}
use nilfs_utils.Segment.Bytes.{le, le64}
use nilfs_utils.Segment.File.{
  File, FileError, Block, fi_ino, fi_cno, block_is_data, block_init, block_for_each, file_init,
  file_for_each,
}
use nilfs_utils.Gc.{Vdesc, Bdesc}

-- nilfs_file_is_error
unfoldable pub file_is_error : File → Bool
file_is_error f = elim (f.error) [ FileError.success ↦ false | _ ↦ true ]

-- nilfs_psegment_is_error
unfoldable pub psegment_is_error : Psegment → Bool
psegment_is_error p = elim (p.error) [ PsegmentError.success ↦ false | _ ↦ true ]

-- The vectors that the descriptors go to.
pub record Found : Type 0 where
  pub vdescv : Vector Vdesc
  pub bdescv : Vector Bdesc

module _ (alloc : ℕ → Bool) (junk_vdesc : Vdesc) (junk_bdesc : Bdesc) (seg : Segment) where
  -- One block of the DAT file.
  unfoldable pub acc_bdesc : ℕ → Block → Found → Result Found
  acc_bdesc ino blk s = get_new_element alloc junk_bdesc s.bdescv >>= λ r.
      checked (get_elem? (r.1).v_data r.0) >>= λ old. le64 seg.addr blk.binfo >>= λ offset.
      (if block_is_data blk then ok 0 else le 1 seg.addr (blk.binfo + 8)) >>= λ level.
      ok (record s {
        bdescv = put_element r.1 r.0 (record old {
          bd_ino = ino;
          bd_oblocknr = blk.blocknr;
          bd_offset = offset;
          bd_level = level;
        });
      })

  -- One block of another file.
  unfoldable pub acc_vdesc : ℕ → ℕ → Block → Found → Result Found
  acc_vdesc ino cno blk s = get_new_element alloc junk_vdesc s.vdescv >>= λ r.
      checked (get_elem? (r.1).v_data r.0) >>= λ old. le64 seg.addr blk.binfo >>= λ vblocknr.
      (if block_is_data blk then le64 seg.addr (blk.binfo + 8) else ok old.vd_offset) >>= λ offset.
      ok (record s {
        vdescv = put_element r.1 r.0 (record old {
          vd_ino = ino;
          vd_cno = cno;
          vd_blocknr = blk.blocknr;
          vd_vblocknr = vblocknr;
          vd_offset = offset;
          vd_flags = if block_is_data blk then 0 else 1;
        });
      })

  -- nilfs_acc_blocks_file
  unfoldable pub acc_blocks_file : Psegment → File → Found → Result Found
  acc_blocks_file p f s = fi_ino seg.addr f.finfo >>= λ ino.
      if f.use_real_blocknr
      then (block_init seg (2 ^ p.blkbits) f >>= λ blk.
          block_for_each (suc blk.nbinfo) (2 ^ p.blkbits) (acc_bdesc ino) blk s)
      else (fi_cno seg.addr f.finfo >>= λ cno. block_init seg (2 ^ p.blkbits) f >>= λ blk.
          block_for_each (suc blk.nbinfo) (2 ^ p.blkbits) (acc_vdesc ino cno) blk s)

  -- nilfs_acc_blocks_psegment
  unfoldable pub acc_blocks_psegment : Psegment → Found → Result Found
  acc_blocks_psegment p s = file_init seg p false >>= λ f.
      file_for_each seg p (suc f.nfinfo) (acc_blocks_file p) f s >>= λ r.
      if file_is_error r.1 then err einval else ok r.0

  -- nilfs_acc_blocks_segment
  unfoldable pub acc_blocks_segment : ℕ → Found → Result Found
  acc_blocks_segment nblocks s =
      psegment_for_each seg (suc seg.nblocks) acc_blocks_psegment (psegment_init seg nblocks) s
      >>= λ r. if psegment_is_error r.1 then err einval else ok r.0
