-- ===== src/Tests/Segments.antt =====
-- The segment iterators and the checksum at small inputs.
use nilfs_utils.Base.{
  ℕ, zero, suc, ◌<◌, ◌≡◌, refl, List, [], ◌∷◌, arith, Result, ok, All, replicate, ◌++◌, true,
}
use nilfs_utils.Segment.{
  Segment, Psegment, PsegmentError, psegment_for_each, psegment_init, psegment_is_valid,
  psegment_sane,
}
use nilfs_utils.Segment.Bytes.{IsByte, Safe, le, slice}
use nilfs_utils.Segment.Crc.{crc32_le, crc32tab, crc_reference, crc32_le-reference}
use nilfs_utils.Segment.Logs.{IsSegment, IsLog}
use nilfs_utils.Segment.Logs.Walk.{psegment_for_each-Safe}

All-zeros : (n : ℕ) → All IsByte (replicate n 0)
All-zeros zero = tt
All-zeros (suc n) = (omega arith, All-zeros n)

-- Two blocks of 1024 bytes that hold no log.
abbrev blank : Segment
blank = record {
  addr = replicate 2048 0;
  segsize = 2048;
  segnum = 1;
  seqnum = 0;
  blocknr = 2;
  nblocks = 2;
  blkbits = 10;
  seed = 0;
}

blank-IsSegment : IsSegment blank
blank-IsSegment = record {
  mapped = refl;
  bytes = All-zeros 2048;
  whole = refl;
  block = omega arith;
  numbers = omega arith;
  small = omega arith;
}

-- Collect the block numbers of the logs.
abbrev collect : Psegment → List ℕ → Result (List ℕ)
collect p found = ok (p.blocknr ∷ found)

abbrev InBlank : List ℕ → Type 0
InBlank found = All (λ n. n < 4) found

collect-InBlank :
    (p : Psegment) (found : List ℕ) → IsLog blank p → InBlank found → Safe InBlank (collect p found)
collect-InBlank p found log old = (omega (arith, log.number, log.inside, log.payload), old)

psegment_for_each-Safe_example :
    Safe (λ r. InBlank r.0) (psegment_for_each blank 3 collect (psegment_init blank 2) [])
psegment_for_each-Safe_example =
    psegment_for_each-Safe InBlank blank blank-IsSegment collect collect-InBlank 2 [] tt

-- The check value of CRC-32 without its final complement.
crc32_check : crc32_le 4294967295 (49 ∷ 50 ∷ 51 ∷ 52 ∷ 53 ∷ 54 ∷ 55 ∷ 56 ∷ 57 ∷ []) ≡ ok 873187033
unfolding crc32_le crc32tab
crc32_check = refl

crc32_le-reference_example : crc32_le 7 (49 ∷ 50 ∷ []) ≡ ok (crc_reference 7 (49 ∷ 50 ∷ []))
crc32_le-reference_example = crc32_le-reference 7 (49 ∷ 50 ∷ []) (omega arith, (omega arith, tt))

-- A log with one file of one block, and then that block.
abbrev pub logged : Segment
logged = record blank {
  addr =
      replicate 4 0
      ++ (248 ∷ 133 ∷ 168 ∷ 207 ∷ 17 ∷ 250 ∷ 175 ∷ 30 ∷ 64 ∷ [])
      ++ replicate 27 0
      ++ (2 ∷ [])
      ++ replicate 3 0
      ++ (1 ∷ [])
      ++ replicate 3 0
      ++ (104 ∷ [])
      ++ replicate 15 0
      ++ (12 ∷ [])
      ++ replicate 7 0
      ++ (3 ∷ [])
      ++ replicate 7 0
      ++ (1 ∷ [])
      ++ replicate 3 0
      ++ (1 ∷ [])
      ++ replicate 3 0
      ++ (9 ∷ [])
      ++ replicate 7 0
      ++ (4 ∷ [])
      ++ replicate 7 0
      ++ replicate 1944 0;
}

abbrev first_log : Psegment
first_log = record {
  segsum = 0;
  blocknr = 2;
  blkcnt = 2;
  blkbits = 10;
  error = PsegmentError.success;
}

log_is_valid : psegment_is_valid logged first_log ≡ ok (true, first_log)
unfolding psegment_is_valid psegment_sane le slice crc32_le crc32tab
log_is_valid = refl
