-- ===== src/Gc.antt =====
-- lib/gc.c: the garbage collector's records (include/linux/nilfs2_api.h, include/nilfs_gc.h), and
-- one child for each of its steps.
pub mod Live
pub mod Snapshot
pub mod Accumulate
pub mod Select
pub mod Reclaim
pub mod Describe
pub mod Whole
pub mod Unify
pub mod Toss
use nilfs_utils.Base.{ℕ, ◌-◌, ◌^◌}

-- NILFS_CNO_MAX of include/nilfs.h
abbrev pub cno_max : ℕ
cno_max = 2 ^ 64 - 1

-- struct nilfs_period: the checkpoints from `p_start` up to, and without, `p_end`
pub record Period : Type 0 where
  pub p_start : ℕ
  pub p_end : ℕ

-- struct nilfs_vdesc
pub record Vdesc : Type 0 where
  pub vd_ino : ℕ
  pub vd_cno : ℕ
  pub vd_vblocknr : ℕ
  pub vd_period : Period
  pub vd_blocknr : ℕ
  pub vd_offset : ℕ
  pub vd_flags : ℕ

-- struct nilfs_bdesc
pub record Bdesc : Type 0 where
  pub bd_ino : ℕ
  pub bd_oblocknr : ℕ
  pub bd_blocknr : ℕ
  pub bd_offset : ℕ
  pub bd_level : ℕ
