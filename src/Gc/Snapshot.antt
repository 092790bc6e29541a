-- ===== src/Gc/Snapshot.antt =====
-- nilfs_get_snapshot of lib/gc.c: read the checkpoint numbers of the snapshots, in batches, into an
-- array of the size that nilfs_get_cpstat gave. A store outside the array is a `fault`.
pub mod Ascending
use nilfs_utils.Base.{
  ℕ, zero, suc, ◌+◌, ◌-◌, ◌*◌, ◌/◌, Bool, List, [], ◌∷◌, ltb, leb, ◌==◌, not, if◌then◌else◌, Result,
  ok, err, fault, eio, enomem, ◌>>=◌, checked, length, get_elem?, set, replicate, u64,
}

-- NILFS_GC_NCPINFO
abbrev pub gc_ncpinfo : ℕ
gc_ncpinfo = 512

-- struct nilfs_cpinfo, the fields read here
pub record Cpinfo : Type 0 where
  pub ci_cno : ℕ
  pub ci_next : ℕ

-- The inner loop: store one batch from index `at` on. The array and the new `prev`.
unfoldable pub store_batch : List Cpinfo → List ℕ → ℕ → ℕ → Result (List ℕ × ℕ)
store_batch [] ss at prev = ok (ss, prev)
store_batch (c ∷ batch) ss at prev =
    let rest = store_batch batch (set ss at c.ci_cno) (at + 1) c.ci_cno in
    if not (ltb at (length ss)) then fault else if leb c.ci_cno prev then err eio else rest

-- nilfs_get_cpstat's `cs_nsss` is `get_cpstat`, and nilfs_get_cpinfo for snapshots is `get_cpinfo`.
module _ (alloc : ℕ → Bool) (junk : ℕ) (get_cpstat : Result ℕ)
    (get_cpinfo : ℕ → ℕ → Result (List Cpinfo)) where
  -- The outer loop: the array, and how many numbers were read
  unfoldable pub read_batches : ℕ → ℕ → List ℕ → ℕ → ℕ → ℕ → ℕ → Result (List ℕ × ℕ)
  read_batches zero nsss ss i cno nss prev = fault
  read_batches (suc fuel) nsss ss i cno nss prev =
      if ltb i nsss
      then (get_cpinfo cno gc_ncpinfo >>= λ batch.
          let n = length batch in
          if n == 0
          then ok (ss, nss)
          else (store_batch batch ss i prev >>= λ r. checked (get_elem? batch (n - 1)) >>= λ last.
              if last.ci_next == 0
              then ok (r.0, nss + n)
              else read_batches fuel nsss r.0 (i + n) last.ci_next (nss + n) r.1))
      else ok (ss, nss)

  -- nilfs_get_snapshot
  unfoldable pub get_snapshot : Result (List ℕ × ℕ)
  get_snapshot = get_cpstat >>= λ nsss.
      if nsss == 0
      then ok ([], 0)
      else if not (alloc (u64 (8 * nsss)))
      then err enomem
      else read_batches (suc nsss) nsss (replicate (u64 (8 * nsss) / 8) junk) 0 0 0 0
