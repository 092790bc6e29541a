-- ===== src/Segment.antt =====
-- lib/segment.c and include/segment.h: iterators over the logs (partial segments) of a segment, the
-- files of a log and the blocks of a file. The segment in memory is the list of its bytes; a pointer
-- into it is a position. A read outside the bytes is a `fault`. Sums of `size_t` that cannot come
-- near 2^64 (a position in a segment and the size of one file's descriptions) are written without
-- their wrap-around, those of 32-bit fields with it.
pub mod Bytes
pub mod Crc
pub mod File
pub mod Logs
use nilfs_utils.Base.{
  ℕ, zero, suc, ◌+◌, ◌-◌, ◌*◌, ◌/◌, ◌%◌, ◌^◌, min, Bool, true, false, not, ◌||◌, List, ltb, leb,
  ◌==◌, if◌then◌else◌, Result, ok, fault, ◌>>=◌, u32, u64,
}
use nilfs_utils.Segment.Bytes.{le16, le32, slice}
use nilfs_utils.Segment.Crc.{crc32_le}

-- struct nilfs_segment of include/nilfs.h, the fields that the iterators read
pub record Segment : Type 0 where
  pub addr : List ℕ
  pub segsize : ℕ
  pub segnum : ℕ
  pub seqnum : ℕ
  pub blocknr : ℕ
  pub nblocks : ℕ
  pub blkbits : ℕ
  pub seed : ℕ

-- Error codes of the psegment iterator
pub data PsegmentError : Type 0 where
  success alignment bigpseg bighdr bigsum : PsegmentError

-- struct nilfs_psegment; the back pointer to the segment is an argument of the operations
pub record Psegment : Type 0 where
  pub segsum : ℕ
  pub blocknr : ℕ
  pub blkcnt : ℕ
  pub blkbits : ℕ
  pub error : PsegmentError

-- NILFS_SEGSUM_MAGIC
abbrev pub segsum_magic : ℕ
segsum_magic = 514849297

-- NILFS_PSEG_MIN_BLOCKS
abbrev pub pseg_min_blocks : ℕ
pseg_min_blocks = 2

-- offsetofend(struct nilfs_segment_summary, ss_sumsum)
abbrev pub sumsum_end : ℕ
sumsum_end = 8

-- Fields of struct nilfs_segment_summary at a position
abbrev pub ss_sumsum : List ℕ → ℕ → Result ℕ
ss_sumsum bytes at = le32 bytes (at + 4)

abbrev pub ss_magic : List ℕ → ℕ → Result ℕ
ss_magic bytes at = le32 bytes (at + 8)

abbrev pub ss_bytes : List ℕ → ℕ → Result ℕ
ss_bytes bytes at = le16 bytes (at + 12)

abbrev pub ss_nblocks : List ℕ → ℕ → Result ℕ
ss_nblocks bytes at = le32 bytes (at + 40)

abbrev pub ss_nfinfo : List ℕ → ℕ → Result ℕ
ss_nfinfo bytes at = le32 bytes (at + 44)

abbrev pub ss_sumbytes : List ℕ → ℕ → Result ℕ
ss_sumbytes bytes at = le32 bytes (at + 48)

module _ (seg : Segment) where
  -- The sanity checks of nilfs_psegment_is_valid, once the checksum is right.
  unfoldable pub psegment_sane : Psegment → ℕ → Result (Bool × Psegment)
  psegment_sane p sumbytes = ss_bytes seg.addr p.segsum >>= λ hdrsize.
      if not (hdrsize % 8 == 0)
      then ok (false, record p { error = alignment })
      else (ss_nblocks seg.addr p.segsum >>= λ nblocks.
          if ltb (u64 (seg.blocknr + seg.nblocks)) (u64 (p.blocknr + nblocks))
          then ok (false, record p { error = bigpseg })
          else if ltb sumbytes hdrsize
          then ok (false, record p { error = bighdr })
          else if leb nblocks ((sumbytes + (2 ^ p.blkbits - 1)) / 2 ^ p.blkbits)
          then ok (false, record p { error = bigsum })
          else ok (true, p))

  -- nilfs_psegment_is_valid: the answer, and the iterator with its error code
  unfoldable pub psegment_is_valid : Psegment → Result (Bool × Psegment)
  psegment_is_valid p = ss_magic seg.addr p.segsum >>= λ magic.
      if not (magic == segsum_magic)
      then ok (false, p)
      else (ss_sumbytes seg.addr p.segsum >>= λ sumbytes.
          if ltb sumbytes sumsum_end || leb seg.segsize (p.segsum + sumbytes)
          then ok (false, p)
          else (ss_sumsum seg.addr p.segsum >>= λ sumsum.
              slice seg.addr (p.segsum + sumsum_end) (sumbytes - sumsum_end) >>= λ summary.
              crc32_le seg.seed summary >>= λ crc.
              if not (sumsum == crc) then ok (false, p) else psegment_sane p sumbytes))

  -- nilfs_psegment_init
  unfoldable pub psegment_init : ℕ → Psegment
  psegment_init blkcnt = record {
    segsum = 0;
    blocknr = seg.blocknr;
    blkcnt = min blkcnt seg.nblocks;
    blkbits = seg.blkbits;
    error = success;
  }

  -- nilfs_psegment_is_end
  unfoldable pub psegment_is_end : Psegment → Result (Bool × Psegment)
  psegment_is_end p =
      if ltb p.blkcnt pseg_min_blocks
      then ok (true, p)
      else (psegment_is_valid p >>= λ r. ok (not (r.0), r.1))

  -- nilfs_psegment_next
  unfoldable pub psegment_next : Psegment → Result Psegment
  psegment_next p = ss_nblocks seg.addr p.segsum >>= λ nblocks. ok (record p {
    segsum = p.segsum + u64 (nblocks * 2 ^ p.blkbits);
    blkcnt = if leb nblocks p.blkcnt then p.blkcnt - nblocks else 0;
    blocknr = u64 (p.blocknr + nblocks);
  })

  -- nilfs_psegment_for_each from `p` on, with a body that works on a state: the last state, and the
  -- iterator at the end
  unfoldable pub psegment_for_each {ℓ} :
      {S : Type ℓ} → ℕ → (Psegment → S → Result S) → Psegment → S → Result (S × Psegment)
  psegment_for_each zero body p s = fault
  psegment_for_each (suc fuel) body p s = psegment_is_end p >>= λ r.
      if r.0
      then ok (s, r.1)
      else (body r.1 s >>= λ t. psegment_next r.1 >>= λ q. psegment_for_each fuel body q t)
