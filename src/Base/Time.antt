-- ===== src/Base/Time.antt =====
-- The macros on struct timespec of include/compat.h.
use mathlib.Core.Bool.{Bool, not}
use nilfs_utils.Base.Tests.{if◌then◌else◌}
use nilfs_utils.Base.Int.{ℤ, pos, ◌+ℤ◌, ◌-ℤ◌, ltb_ℤ, eqb_ℤ}

pub record Timespec : Type 0 where
  pub tv_sec : ℤ
  pub tv_nsec : ℤ

-- nanoseconds in a second
abbrev pub nsec_per_sec : ℤ
nsec_per_sec = pos 1000000000

unfoldable pub timespecadd : Timespec → Timespec → Timespec
timespecadd a b =
    let sec = a.tv_sec +ℤ b.tv_sec in
    let nsec = a.tv_nsec +ℤ b.tv_nsec in
    if not (ltb_ℤ nsec nsec_per_sec)
    then record { tv_sec = sec +ℤ pos 1; tv_nsec = nsec -ℤ nsec_per_sec }
    else record { tv_sec = sec; tv_nsec = nsec }

unfoldable pub timespecsub : Timespec → Timespec → Timespec
timespecsub a b =
    let sec = a.tv_sec -ℤ b.tv_sec in
    let nsec = a.tv_nsec -ℤ b.tv_nsec in
    if ltb_ℤ nsec (pos 0)
    then record { tv_sec = sec -ℤ pos 1; tv_nsec = nsec +ℤ nsec_per_sec }
    else record { tv_sec = sec; tv_nsec = nsec }

-- timespecclear
abbrev pub timespec_zero : Timespec
timespec_zero = record { tv_sec = pos 0; tv_nsec = pos 0 }

-- timespeccmp with `<`
unfoldable pub timespec_lt : Timespec → Timespec → Bool
timespec_lt a b =
    if eqb_ℤ a.tv_sec b.tv_sec then ltb_ℤ a.tv_nsec b.tv_nsec else ltb_ℤ a.tv_sec b.tv_sec
