-- ===== src/Segment/File.antt =====
-- lib/segment.c: the iterators over the files of a log and the blocks of a file.
pub mod Walk
use nilfs_utils.Base.{
  ℕ, zero, suc, ◌+◌, ◌-◌, ◌*◌, ◌/◌, ◌%◌, ◌^◌, Bool, true, false, not, List, ltb, leb, ◌==◌,
  if◌then◌else◌, Result, ok, fault, ◌>>=◌, u32, u64, sub32,
}
use nilfs_utils.Segment.{Segment, Psegment, ss_bytes, ss_nblocks, ss_nfinfo, ss_sumbytes}
use nilfs_utils.Segment.Bytes.{le32, le64}

-- Error codes of the file iterator
pub data FileError : Type 0 where
  success error_manyblks error_blkcnt error_overrun : FileError

-- struct nilfs_file; the back pointer to the log is an argument of the operations
pub record File : Type 0 where
  pub finfo : ℕ
  pub blocknr : ℕ
  pub offset : ℕ
  pub index : ℕ
  pub nfinfo : ℕ
  pub sumbytes : ℕ
  pub sumlen : ℕ
  pub error : FileError
  pub use_real_blocknr : Bool

-- struct nilfs_block; the fields of the file that it points to and that the operations read are
-- arguments
pub record Block : Type 0 where
  pub binfo : ℕ
  pub blocknr : ℕ
  pub offset : ℕ
  pub index : ℕ
  pub nbinfo : ℕ
  pub nbinfo_data : ℕ
  pub dsize : ℕ
  pub nsize : ℕ

-- sizeof(struct nilfs_finfo), and its fields at a position
abbrev pub finfo_size : ℕ
finfo_size = 24

abbrev pub fi_ino : List ℕ → ℕ → Result ℕ
fi_ino bytes at = le64 bytes at

abbrev pub fi_cno : List ℕ → ℕ → Result ℕ
fi_cno bytes at = le64 bytes (at + 8)

abbrev pub fi_nblocks : List ℕ → ℕ → Result ℕ
fi_nblocks bytes at = le32 bytes (at + 16)

abbrev pub fi_ndatablk : List ℕ → ℕ → Result ℕ
fi_ndatablk bytes at = le32 bytes (at + 20)

-- NILFS_DAT_INO
abbrev pub dat_ino : ℕ
dat_ino = 3

-- NILFS_BINFO_DATA_SIZE, NILFS_BINFO_NODE_SIZE and the two of the DAT file
abbrev pub data_size : Bool → ℕ
data_size use_real_blocknr = if use_real_blocknr then 8 else 16

abbrev pub node_size : Bool → ℕ
node_size use_real_blocknr = if use_real_blocknr then 16 else 8

-- What is left of the block that the offset lies in. `blksize` is a power of two, for which
-- `offset & (blksize - 1)` is the remainder.
abbrev pub rest_of_block : ℕ → ℕ → ℕ
rest_of_block offset blksize = blksize - offset % blksize

-- nilfs_file_adjust_finfo_position
unfoldable pub adjust_finfo_position : File → ℕ → File
adjust_finfo_position f blksize =
    let rest = rest_of_block f.offset blksize in
    if ltb rest finfo_size
    then record f { finfo = f.finfo + rest; offset = u32 (f.offset + rest) }
    else f

-- nilfs_binfo_total_size
unfoldable pub binfo_total_size : ℕ → ℕ → ℕ → ℕ → ℕ
binfo_total_size offset blksize binfosize blkcnt =
    let rest = rest_of_block offset blksize in
    let later = sub32 blkcnt (rest / binfosize) in
    let per_block = blksize / binfosize in
    if leb (u32 (binfosize * blkcnt)) rest
    then u32 (binfosize * blkcnt)
    else rest + later / per_block * blksize + u32 (later % per_block * binfosize)

module _ (seg : Segment) (p : Psegment) where
  abbrev pub psegment_blksize : ℕ
  psegment_blksize = 2 ^ p.blkbits

  -- nilfs_file_info_size
  unfoldable pub file_info_size : File → Result ℕ
  file_info_size f = fi_nblocks seg.addr f.finfo >>= λ nblocks.
      fi_ndatablk seg.addr f.finfo >>= λ ndatablk.
      let data_ =
        finfo_size
        + binfo_total_size (f.offset + finfo_size) psegment_blksize (data_size f.use_real_blocknr)
            ndatablk in
      ok (
        data_
        + binfo_total_size (f.offset + data_) psegment_blksize (node_size f.use_real_blocknr)
            (sub32 nblocks ndatablk))

  -- nilfs_file_init_from_finfo
  unfoldable pub file_init_from_finfo : File → Result File
  file_init_from_finfo f =
      if ltb f.sumbytes (f.offset + finfo_size)
      then ok (record f { sumlen = finfo_size })
      else (fi_ino seg.addr f.finfo >>= λ ino.
          let g = record f { use_real_blocknr = ino == dat_ino } in
          file_info_size g >>= λ size. ok (record g { sumlen = size }))

  -- nilfs_file_init. `bit` is what use_real_blocknr was: it is not set for a log with no room for a
  -- first file.
  unfoldable pub file_init : Bool → Result File
  file_init bit = ss_nfinfo seg.addr p.segsum >>= λ nfinfo.
      ss_sumbytes seg.addr p.segsum >>= λ sumbytes. ss_bytes seg.addr p.segsum >>= λ hdrsize.
      let f : File = record {
        finfo = p.segsum + hdrsize;
        blocknr = u64 (p.blocknr + u32 (sumbytes + psegment_blksize - 1) / psegment_blksize);
        offset = hdrsize;
        index = 0;
        nfinfo = nfinfo;
        sumbytes = sumbytes;
        sumlen = 0;
        error = success;
        use_real_blocknr = bit;
      } in
      file_init_from_finfo (adjust_finfo_position f psegment_blksize)

  -- nilfs_file_is_valid: the answer, and the iterator with its error code
  unfoldable pub file_is_valid : File → Result (Bool × File)
  file_is_valid f =
      if ltb f.sumbytes (f.offset + f.sumlen)
      then ok (false, record f { error = error_overrun })
      else (fi_nblocks seg.addr f.finfo >>= λ nblocks.
          ss_nblocks seg.addr p.segsum >>= λ pseg_nblocks.
          let blkoff = sub32 f.blocknr p.blocknr in
          if ltb pseg_nblocks (u32 (blkoff + nblocks))
          then ok (false, record f { error = error_manyblks })
          else (fi_ndatablk seg.addr f.finfo >>= λ ndatablk.
              if ltb nblocks ndatablk
              then ok (false, record f { error = error_blkcnt })
              else ok (true, f)))

  -- nilfs_file_is_end
  unfoldable pub file_is_end : File → Result (Bool × File)
  file_is_end f =
      if leb f.nfinfo f.index then ok (true, f) else (file_is_valid f >>= λ r. ok (not (r.0), r.1))

  -- nilfs_file_next
  unfoldable pub file_next : File → Result File
  file_next f = fi_nblocks seg.addr f.finfo >>= λ nblocks.
      let g = record f {
        blocknr = u64 (f.blocknr + nblocks);
        offset = u32 (f.offset + f.sumlen);
        finfo = f.finfo + f.sumlen;
      } in
      file_init_from_finfo (adjust_finfo_position g psegment_blksize) >>= λ h.
      ok (record h { index = u32 (h.index + 1) })

  -- nilfs_file_for_each from `f` on, with a body that works on a state
  unfoldable pub file_for_each {ℓ} :
      {S : Type ℓ} → ℕ → (File → S → Result S) → File → S → Result (S × File)
  file_for_each zero body f s = fault
  file_for_each (suc fuel) body f s = file_is_end f >>= λ r.
      if r.0
      then ok (s, r.1)
      else (body r.1 s >>= λ t. file_next r.1 >>= λ g. file_for_each fuel body g t)

-- nilfs_block_is_data
unfoldable pub block_is_data : Block → Bool
block_is_data blk = ltb blk.index blk.nbinfo_data

-- the size of the description that the block iterator stands at
unfoldable pub block_binfosize : Block → ℕ
unfolding block_is_data
block_binfosize blk = if block_is_data blk then blk.dsize else blk.nsize

-- nilfs_block_adjust_binfo_position
unfoldable pub adjust_binfo_position : Block → ℕ → Block
unfolding block_binfosize
adjust_binfo_position blk blksize =
    let rest = rest_of_block blk.offset blksize in
    if ltb rest (block_binfosize blk)
    then record blk { binfo = blk.binfo + rest; offset = u32 (blk.offset + rest) }
    else blk

-- nilfs_block_init
unfoldable pub block_init : Segment → ℕ → File → Result Block
block_init seg blksize f = fi_nblocks seg.addr f.finfo >>= λ nblocks.
    fi_ndatablk seg.addr f.finfo >>= λ ndatablk. ok (
      adjust_binfo_position
        (record {
          binfo = f.finfo + finfo_size;
          blocknr = f.blocknr;
          offset = u32 (f.offset + finfo_size);
          index = 0;
          nbinfo = nblocks;
          nbinfo_data = ndatablk;
          dsize = data_size f.use_real_blocknr;
          nsize = node_size f.use_real_blocknr;
        })
        blksize)

-- nilfs_block_is_end
unfoldable pub block_is_end : Block → Bool
block_is_end blk = leb blk.nbinfo blk.index

-- nilfs_block_next
unfoldable pub block_next : Block → ℕ → Block
unfolding block_binfosize
block_next blk blksize =
    let size = block_binfosize blk in
    adjust_binfo_position
      (record blk {
        binfo = blk.binfo + size;
        offset = u32 (blk.offset + size);
        blocknr = u64 (blk.blocknr + 1);
        index = u32 (blk.index + 1);
      })
      blksize

-- nilfs_block_for_each from `blk` on, with a body that works on a state
unfoldable pub block_for_each {ℓ} :
    {S : Type ℓ} → ℕ → ℕ → (Block → S → Result S) → Block → S → Result S
block_for_each zero blksize body blk s = fault
block_for_each (suc fuel) blksize body blk s =
    if block_is_end blk
    then ok s
    else (body blk s >>= λ t. block_for_each fuel blksize body (block_next blk blksize) t)
