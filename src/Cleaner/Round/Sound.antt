-- ===== src/Cleaner/Round/Sound.antt =====
-- What the loop of sbin/cleanerd.c keeps, and what it expects of the answers of the system; and the
-- mode after nilfs_cleanerd_recalc_interval.
use nilfs_utils.Base.{
  ◌⊎◌, inl, inr, List, [], ◌∷◌, ℕ, ◌≡◌, refl, Bool, true, false, not, ◌||◌, if◌then◌else◌, Option,
  none, some, Result, ok, err, fault, drop, ℤ, eqb_ℤ, Timespec, timespec_lt,
}
use nilfs_utils.Segment.Bytes.{Safe, Safe-bind, SafeOr, fault-SafeOr}
use nilfs_utils.Cleaner.{Config, Cleanerd, Sustat, in_manual, idle, manual_end}
use nilfs_utils.Cleaner.Control.{Mode, code, args_of}
use nilfs_utils.Gc.Reclaim.{ReclaimParams}
use nilfs_utils.Cleaner.Check.Advance.{IsAdvancing}
use nilfs_utils.Cleaner.Clean.Alike.{IsReliable}
use nilfs_utils.Cleaner.Interval.{
  nulltime, sleep_at_least, nothing_cleaned, retry_later, keep_pace, recalc_interval,
}
use nilfs_utils.Cleaner.Interval.Bounds.{IsNormal, IsTimeout}
use nilfs_utils.Cleaner.Interval.Paced.{IsTimed, IsPaced}
use nilfs_utils.Cleaner.Interval.Requests.{WellTimed}
use nilfs_utils.Cleaner.Round.{Wakeup, quiet, broken, message, Answers}

-- The mode is one of the four.
abbrev pub HasMode : Cleanerd → Type 0
HasMode c = (m : Mode) × (c.running ≡ code m)

-- The invariant of the loop.
abbrev pub IsSound : Cleanerd → Type 0
IsSound c = HasMode c × IsPaced c

-- Two facts of one result.
pub both {ℓ} :
    {A : Type ℓ} (P Q : A → Type 0) (r : Result A) → Safe P r → Safe Q r → Safe (λ a. P a × Q a) r
both P Q (ok a) p q = (p, q)
both P Q (err e) p q = tt
both P Q fault p q = absurd p

pub weaken {ℓ} :
    {A : Type ℓ} (P Q : A → Type 0) (r : Result A) → ((a : A) → P a → Q a) → Safe P r → Safe Q r
weaken P Q (ok a) f p = f a p
weaken P Q (err e) f p = tt
weaken P Q fault f p = absurd p

pub weaken_or-SafeOr {ℓ} :
    {A : Type ℓ} (F : Type 0) (P Q : A → Type 0) (r : Result A)
    → ((a : A) → P a → Q a)
    → SafeOr F P r
    → SafeOr F Q r
weaken_or-SafeOr F P Q (ok a) f p = f a p
weaken_or-SafeOr F P Q (err e) f p = tt
weaken_or-SafeOr F P Q fault f p = p

either_safe :
    (b : Bool) (r t : Result Cleanerd)
    → Safe HasMode r
    → Safe HasMode t
    → Safe HasMode (if b then r else t)
either_safe true r t p q = p
either_safe false r t p q = q

either_mode : (b : Bool) (c d : Cleanerd) → HasMode c → HasMode d → HasMode (if b then c else d)
either_mode true c d p q = p
either_mode false c d p q = q

-- A wakeup that keeps the daemon sound: the interval of a run that a message asks for is well-formed.
abbrev pub IsFairWakeup : Wakeup → Type 0
IsFairWakeup quiet = Unit
IsFairWakeup (broken e) = Unit
IsFairWakeup (message box bytes) = WellTimed (args_of (drop 24 bytes))

abbrev pub IsFairHangup : Option (Result Config) → Type 0
IsFairHangup none = Unit
IsFairHangup (some read) = Safe IsTimed read

-- Answers as the documentation of the calls has them: they may be failures.
pub record IsFair (a : Answers) : Type 0 where
  pub hangup : IsFairHangup a.hangup
  pub get_sustat : Safe (λ s. IsAdvancing (a.gc).get_suinfo s.ss_nsegs) a.get_sustat
  pub monotonic : Safe IsNormal a.monotonic
  pub realtime : Safe IsNormal a.realtime
  pub ppoll : (t : Timespec) → IsTimeout t → IsFairWakeup (a.ppoll t)

-- The selection of segments, or a call of the collector, goes wrong.
abbrev pub IsBroken : Answers → Type 0
IsBroken a =
    ((sustat : Sustat) × (c : Cleanerd) × (a.select sustat c ≡ fault))
    ⊎ ((period : ℤ) × ((a.gc).track_back period ≡ fault))
    ⊎ ((segnums : List ℕ) × (params : ReclaimParams) × ((a.gc).reclaim segnums params ≡ fault))
    ⊎ ((segnum : ℕ) × (n : ℕ) × ((a.gc).get_suinfo segnum n ≡ fault))
    ⊎ ((segnum : ℕ) × (protseq : ℕ) × ((a.gc).segment_is_protected segnum protseq ≡ fault))

abbrev pub SomeBroken : List Answers → Type 0
SomeBroken [] = ⊥
SomeBroken (a ∷ later) = IsBroken a ⊎ SomeBroken later

-- A collector that goes wrong is the cause of a fault.
pub broken-IsReliable : (F : Type 0) (a : Answers) → (IsBroken a → F) → IsReliable F a.gc
broken-IsReliable F a cause = record {
  track_back = λ t. fault-SafeOr F _ (λ e. cause (inr (inl (t, e))));
  reclaim = λ segnums params. fault-SafeOr F _ (λ e. cause (inr (inr (inl (segnums, params, e)))));
  get_suinfo = λ segnum n. fault-SafeOr F _ (λ e. cause (inr (inr (inr (inl (segnum, n, e))))));
  segment_is_protected =
      λ segnum protseq. fault-SafeOr F _ (λ e. cause (inr (inr (inr (inr (segnum, protseq, e))))));
}

module _ (monotonic realtime : Result Timespec) (clock : Safe IsNormal monotonic)
    (calendar : Safe IsNormal realtime) where
  nothing_cleaned-HasMode :
      (prottime oldest : ℤ) (c : Cleanerd)
      → HasMode c
      → Safe HasMode (nothing_cleaned monotonic realtime prottime oldest c)
  unfolding nothing_cleaned manual_end sleep_at_least
  nothing_cleaned-HasMode prottime oldest c has =
      either_safe (in_manual c) _ _ (Mode.idle, refl)
        (either_safe (eqb_ℤ oldest nulltime) _ _
          (either_mode (not (eqb_ℤ c.running idle)) _ c (Mode.idle, refl) has)
          (Safe-bind HasMode realtime _ calendar (λ now fine. has)))

  pub recalc_interval-HasMode :
      (nchosen ndone : ℕ) (prottime oldest : ℤ) (c : Cleanerd)
      → HasMode c
      → Safe HasMode (recalc_interval monotonic realtime nchosen ndone prottime oldest c)
  unfolding recalc_interval retry_later keep_pace
  recalc_interval-HasMode nchosen ndone prottime oldest c has =
      either_safe _ _ _ (nothing_cleaned-HasMode prottime oldest c has) (
        Safe-bind HasMode monotonic _ clock (λ curr now.
          either_safe c.fallback _ _ has
            (either_safe_ok (not (timespec_lt curr c.target) || c.no_timeout) _ _ has has)))
    where
      either_safe_ok :
          (b : Bool) (d e : Cleanerd)
          → HasMode d
          → HasMode e
          → Safe HasMode (ok (if b then d else e))
      either_safe_ok true d e p q = p
      either_safe_ok false d e p q = q
