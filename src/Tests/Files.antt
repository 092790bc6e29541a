-- ===== src/Tests/Files.antt =====
-- The walk over the files of a log at a small log.
use nilfs_utils.Base.{ℕ, ◌+◌, ◌<◌, refl, List, ◌∷◌, arith, Result, ok, All, set, replicate}
use nilfs_utils.Segment.{Segment, Psegment, PsegmentError}
use nilfs_utils.Segment.Bytes.{le}
use nilfs_utils.Segment.Logs.{IsLog}
use nilfs_utils.Segment.File.{File}
use nilfs_utils.Segment.File.Walk.{summary_end}

-- Two blocks of 1024 bytes, with a log of both: a header of 64 bytes, one file, a summary of 100
-- bytes.
abbrev one_log : Segment
one_log = record {
  addr = set (set (set (set (replicate 2048 0) 12 64) 40 2) 44 1) 48 100;
  segsize = 2048;
  segnum = 1;
  seqnum = 0;
  blocknr = 2;
  nblocks = 2;
  blkbits = 10;
  seed = 0;
}

abbrev at_log : Psegment
at_log = record { segsum = 0; blocknr = 2; blkcnt = 2; blkbits = 10; error = PsegmentError.success }

at_log-IsLog : IsLog one_log at_log
unfolding le
at_log-IsLog = record {
  ahead = 0;
  nblocks = 2;
  sumbytes = 100;
  hdrsize = 64;
  bits = refl;
  place = refl;
  number = refl;
  nblocks_is = refl;
  sumbytes_is = refl;
  hdrsize_is = refl;
  header = omega arith;
  inside = omega arith;
  payload = omega arith;
  summary = omega arith;
}

-- The end of the summary.
abbrev last : ℕ
last = summary_end one_log at_log at_log-IsLog

-- Collect the positions of the files.
abbrev collect : File → List ℕ → Result (List ℕ)
collect f found = ok (f.finfo ∷ found)

abbrev InSegment : List ℕ → Type 0
InSegment found = All (λ n. n + 24 < 2048) found
