-- ===== src/Cleaner/Control/Decode.antt =====
-- The fields of a message are the numbers at their places.
use nilfs_utils.Base.{ℕ, zero, suc, ◌+◌, ◌≤◌, ◌≡◌, refl, List, arith, ok, length, take, drop}
use nilfs_utils.Base.Cut.{drop_step}
use nilfs_utils.Base.Index.{get_elem?-some}
use nilfs_utils.Segment.Bytes.{le}
use nilfs_utils.Cleaner.Args.{read_args}
use nilfs_utils.Cleaner.Control.{number, args_of}

pub le-number :
    (n : ℕ) (bytes : List ℕ) (at : ℕ)
    → at + n ≤ length bytes
    → le n bytes at ≡ ok (number (take n (drop at bytes)))
unfolding le
le-number zero bytes at h = refl
le-number (suc n) bytes at h =
    let (b, read) = get_elem?-some bytes at (omega arith) in
    rw (read, le-number n bytes (at + 1) (omega arith), drop_step bytes at b read) refl

pub read_args_lem : (buf : List ℕ) → 48 ≤ length buf → read_args buf ≡ ok (args_of buf)
unfolding read_args
read_args_lem buf h =
    rw
      (
        le-number 2 buf 0 (omega arith),
        le-number 2 buf 2 (omega arith),
        le-number 2 buf 6 (omega arith),
        le-number 1 buf 9 (omega arith),
        le-number 2 buf 10 (omega arith),
        le-number 4 buf 12 (omega arith),
        le-number 8 buf 16 (omega arith),
        le-number 4 buf 44 (omega arith),
      )
      refl
