-- ===== src/Tests/Choosing.antt =====
-- The choice of segments to clean, at a small table.
use nilfs_utils.Base.{
  ℕ, ◌≡◌, refl, true, List, [], ◌∷◌, arith, none, ok, Result, take, drop, ltb, map, pos,
  timespecsub,
}
use nilfs_utils.Segment.Bytes.{Safe}
use nilfs_utils.Gc.Select.{Suinfo}
use nilfs_utils.Cleaner.{current_protection_period}
use nilfs_utils.Cleaner.Check.Count.{Reads}
use nilfs_utils.Cleaner.Select.{Candidate, Policy, oldest_of, null_oldest, select_segments}
use nilfs_utils.Cleaner.Select.Gather.{eligible}
use nilfs_utils.Cleaner.Select.Best.{select_segments_lem}
use nilfs_utils.Tests.Sorting.{insertion_sort, insertion_sort-IsSort}
use nilfs_utils.Tests.Daemon.{dirty, cleaning, sustat, seconds}

-- The segments that were modified before the limit, the oldest first.
abbrev oldest_first : Policy ℕ
oldest_first = record {
  evaluate = λ s si segnum now prottime.
      (record { segnum = segnum; score = si.sui_lastmod }, ltb si.sui_lastmod 100);
  sort = insertion_sort (λ (x : Candidate ℕ). x.score);
  choose = none;
}

abbrev three : List Suinfo
three = record dirty { sui_lastmod = 8 } ∷ record dirty { sui_lastmod = 500 } ∷ dirty ∷ []

abbrev read_three : ℕ → ℕ → Result (List Suinfo)
read_three segnum count = ok (take count (drop segnum three))

read_three-Reads : Reads read_three three
read_three-Reads = record {
  answers = λ segnum count inside some_asked. (count, refl, omega arith, omega arith);
}

abbrev blank : Candidate ℕ
blank = record { segnum = 0; score = 0 }

select_segments_lem_example :
    Safe
      (λ r.
        (r.segnums
          ≡ map
              (λ (x : Candidate ℕ). x.segnum)
              (take 2 (
                insertion_sort
                  (λ (x : Candidate ℕ). x.score)
                  (eligible oldest_first sustat
                    (pos 7)
                    ((timespecsub (seconds 7) (current_protection_period cleaning)).tv_sec)
                    three
                    0))))
        × (r.prottime ≡ (timespecsub (seconds 7) (current_protection_period cleaning)).tv_sec)
        × (r.oldest ≡ oldest_of three null_oldest))
      (select_segments (λ n. true) blank oldest_first (ok (seconds 7)) read_three sustat cleaning)
select_segments_lem_example =
    select_segments_lem (λ n. true) blank oldest_first (λ (x : Candidate ℕ). x.score) (seconds 7)
      read_three three sustat cleaning (insertion_sort-IsSort (λ (x : Candidate ℕ). x.score)) refl
      read_three-Reads refl
