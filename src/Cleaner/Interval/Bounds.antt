-- ===== src/Cleaner/Interval/Bounds.antt =====
-- The times of the cleaner daemon stay well-formed, so that ppoll takes its time-out.
use nilfs_utils.Base.{
  ◌≡◌, true, false, Bool-cases, ◌⊎◌, inl, inr, arith, pos, ◌+ℤ◌, ◌-ℤ◌, ◌≤ℤ◌, ◌<ℤ◌, ltb_ℤ, eqb_ℤ,
  int_laws, Timespec, timespecadd, timespecsub, timespec_lt, nsec_per_sec, ltb→lt, ltb→le,
}
use nilfs_utils.Cleaner.Interval.{at_least}

-- The nanoseconds are less than a second.
pub record IsNormal (t : Timespec) : Type 0 where
  pub low : pos 0 ≤ℤ t.tv_nsec
  pub high : t.tv_nsec <ℤ nsec_per_sec

-- What ppoll asks of its time-out; other times make it fail with EINVAL.
pub record IsTimeout (t : Timespec) : Type 0 where
  pub normal : IsNormal t
  pub positive : pos 0 ≤ℤ t.tv_sec

pub timespecadd-IsNormal : (a b : Timespec) → IsNormal a → IsNormal b → IsNormal (timespecadd a b)
unfolding timespecadd
timespecadd-IsNormal a b n m = elim (Bool-cases (ltb_ℤ (a.tv_nsec +ℤ b.tv_nsec) nsec_per_sec)) [
  | inl small ↦
      rw small (record { low = omega int_laws; high = omega (int_laws, ltb→lt _ _ small) })
  | inr big ↦ rw big (record { low = omega (int_laws, ltb→le _ _ big); high = omega int_laws })
]

pub timespecsub-IsNormal : (a b : Timespec) → IsNormal a → IsNormal b → IsNormal (timespecsub a b)
unfolding timespecsub
timespecsub-IsNormal a b n m = elim (Bool-cases (ltb_ℤ (a.tv_nsec -ℤ b.tv_nsec) (pos 0))) [
  | inl less ↦ rw less (record { low = omega int_laws; high = omega (int_laws, ltb→lt _ _ less) })
  | inr more ↦ rw more (record { low = omega (int_laws, ltb→le _ _ more); high = omega int_laws })
]

-- `a` is not later than `b`.
abbrev pub NotAfter : Timespec → Timespec → Type 0
NotAfter a b = (a.tv_sec <ℤ b.tv_sec) ⊎ ((a.tv_sec ≤ℤ b.tv_sec) × (a.tv_nsec ≤ℤ b.tv_nsec))

pub timespec_lt-NotAfter : (a b : Timespec) → timespec_lt a b ≡ true → NotAfter a b
unfolding timespec_lt
timespec_lt-NotAfter a b h = elim (Bool-cases (eqb_ℤ a.tv_sec b.tv_sec)) [
  | inl same ↦ let h' = rw same at h in inr (ground arith, ground arith)
  | inr other ↦ let h' = rw other at h in inl (ground arith)
]

-- The seconds of a difference, with their borrow.
timespecsub_sec : (a b : Timespec) → NotAfter b a → pos 0 ≤ℤ (timespecsub a b).tv_sec
unfolding timespecsub
timespecsub_sec a b h = elim (Bool-cases (ltb_ℤ (a.tv_nsec -ℤ b.tv_nsec) (pos 0))) [
  | inl less ↦ rw less (elim h [
    | inl before ↦ omega int_laws
    | inr (same, order) ↦ absurd (omega (int_laws, ltb→lt _ _ less))
  ])
  | inr more ↦ rw more (elim h [ inl before ↦ omega int_laws | inr (same, order) ↦ omega int_laws ])
]

pub timespecadd-NotAfter :
    (a b : Timespec) → IsNormal a → IsNormal b → pos 0 ≤ℤ b.tv_sec → NotAfter a (timespecadd a b)
unfolding timespecadd
timespecadd-NotAfter a b n m h = elim (Bool-cases (ltb_ℤ (a.tv_nsec +ℤ b.tv_nsec) nsec_per_sec)) [
  | inl small ↦ rw small (inr (omega int_laws, omega int_laws))
  | inr big ↦ rw big (inl (omega int_laws))
]

pub timespecsub-IsTimeout :
    (a b : Timespec) → IsNormal a → IsNormal b → NotAfter b a → IsTimeout (timespecsub a b)
timespecsub-IsTimeout a b n m h = record {
  normal = timespecsub-IsNormal a b n m;
  positive = timespecsub_sec a b h;
}

timespec_lt-false_sec : (a b : Timespec) → timespec_lt a b ≡ false → b.tv_sec ≤ℤ a.tv_sec
unfolding timespec_lt
timespec_lt-false_sec a b h = ground arith

pub at_least-IsTimeout :
    (least t : Timespec) → IsTimeout least → IsNormal t → IsTimeout (at_least least t)
unfolding at_least
at_least-IsTimeout least t fine n = elim (Bool-cases (timespec_lt t least)) [
  | inl less ↦ rw less fine
  | inr more ↦ rw more (record {
    normal = n;
    positive = omega (arith, timespec_lt-false_sec t least more, fine.positive);
  })
]
