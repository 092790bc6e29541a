-- ===== src/Cleaner/Round/Enters.antt =====
-- What nilfs_cleanerd_check_state of sbin/cleanerd.c leaves of a manual run.
use nilfs_utils.Base.{
  ℕ, zero, suc, ◌+◌, ◌*◌, ◌-◌, ◌≤◌, ◌<◌, ◌≡◌, refl, ◌⊎◌, inl, inr, Bool, true, false, ◌&&◌, ◌==◌,
  if◌then◌else◌, Bool-cases, arith, List, Result, ok, err, fault, ◌>>=◌, ltb, pos, ltb_ℤ,
}
use nilfs_utils.Cleaner.{Cleanerd, Sustat, in_manual, manual_end}
use nilfs_utils.Cleaner.Control.{Mode, code}
use nilfs_utils.Cleaner.Check.{
  count_inuse_segments, next_pass, end_if_done, handle_manual_mode, check_automatic, check_update,
  check_state,
}
use nilfs_utils.Cleaner.Round.Manual.{weight, measure, IsFree, Yields}
use nilfs_utils.Gc.Select.{Suinfo}
use nilfs_utils.Cleaner.Check.Decide.{check_idle, situation}

-- One more round of the run: it is over, or less is left of it.
abbrev pub Nearer : ℕ → Cleanerd → Cleanerd → Type 0
Nearer most c d =
    IsFree d
    ⊎ ((d.running ≡ code Mode.manual)
        × (d.fallback ≡ false)
        × (d.shutdown ≡ c.shutdown)
        × (measure most d < measure most c))

-- What nilfs_cleanerd_check_state leaves of a run that is not over.
pub record Entered (most : ℕ) (c d : Cleanerd) : Type 0 where
  pub running : d.running ≡ code Mode.manual
  pub fallback : d.fallback ≡ c.fallback
  pub shutdown : d.shutdown ≡ c.shutdown
  pub retry : d.retry_cleaning ≡ c.retry_cleaning
  pub work :
      (weight most d < weight most c) ⊎ ((weight most d ≡ weight most c) × (0 < d.mm_nrestsegs))

abbrev pub Checked : ℕ → Cleanerd → Cleanerd × Bool → Type 0
Checked most c r = IsFree r.0 ⊎ ((r.1 ≡ false) × Entered most c r.0)

wake-IsFree :
    (b : Bool) (d : Cleanerd)
    → d.running ≡ code (if b then Mode.automatic else Mode.idle)
    → IsFree d
wake-IsFree true d e = rw e refl
wake-IsFree false d e = rw e refl

module _ (most ratio : ℕ) (sustat : Sustat) where
  goes_on :
      (d : Cleanerd) → d.running ≡ code Mode.manual → check_automatic ratio sustat d ≡ (d, false)
  unfolding check_automatic check_update
  goes_on d at = ground arith

  ends : (d : Cleanerd) → IsFree (check_automatic ratio sustat (manual_end d)).0
  unfolding manual_end
  ends d =
      let s = situation ratio sustat (manual_end d) false in
      wake-IsFree (if s.watching then s.low else s.updated)
        (check_automatic ratio sustat (manual_end d)).0
        (check_idle ratio sustat (manual_end d) false refl).0

  -- Given what the start of a round leaves.
  checked :
      (c d : Cleanerd) (over : Bool)
      → (over ≡ false → Entered most c d)
      → d.running ≡ code Mode.manual
      → (d.mm_nrestpasses == 0 && d.mm_nrestsegs == 0) ≡ over
      → Checked most c (check_automatic ratio sustat (end_if_done d))
  unfolding end_if_done
  checked c d true how at e = rw e (inl (ends d))
  checked c d false how at e = rw (e, goes_on d at) (inr (refl, how refl))

  passed :
      (c : Cleanerd) (n : ℕ)
      → c.running ≡ code Mode.manual
      → (c.mm_nrestsegs == 0 && ltb 0 c.mm_nrestpasses) ≡ true
      → n ≤ most
      → Entered most c (record c { mm_nrestpasses = c.mm_nrestpasses - 1; mm_nrestsegs = n })
  passed c n at pass few = record {
    running = at;
    fallback = refl;
    shutdown = refl;
    retry = refl;
    work = inl (fewer c.mm_nrestpasses c.mm_nrestsegs (ground arith));
  }
    where
      fewer : (p r : ℕ) → 0 < p → (p - 1) * (most + 1) + n < p * (most + 1) + r
      fewer zero r some_left = absurd (omega arith)
      fewer (suc p) r some_left = grind arith

  stayed :
      (c : Cleanerd)
      → c.running ≡ code Mode.manual
      → (c.mm_nrestsegs == 0 && ltb 0 c.mm_nrestpasses) ≡ false
      → (c.mm_nrestpasses == 0 && c.mm_nrestsegs == 0) ≡ false
      → Entered most c c
  stayed c at same more = record {
    running = at;
    fallback = refl;
    shutdown = refl;
    retry = refl;
    work = inr (refl, ground arith);
  }

  manual_round :
      (c : Cleanerd) (counted : Result ℕ)
      → c.running ≡ code Mode.manual
      → Yields (λ n. n ≤ most) counted
      → Yields (Checked most c) (
          (if c.mm_nrestsegs == 0 && ltb 0 c.mm_nrestpasses then next_pass counted c else ok c)
          >>= (λ d. ok (end_if_done d))
          >>= (λ d. ok (check_automatic ratio sustat d)))
  unfolding next_pass
  manual_round c (ok n) at few = elim (Bool-cases (c.mm_nrestsegs == 0 && ltb 0 c.mm_nrestpasses)) [
    | inl pass ↦ rw pass (checked c _ _ (λ more. passed c n at pass few) at refl)
    | inr same ↦ rw same (checked c c _ (λ more. stayed c at same more) at refl)
  ]
  manual_round c (err e) at few = absurd few
  manual_round c fault at few = absurd few

  pub check_state_lem :
      (get_suinfo : ℕ → ℕ → Result (List Suinfo)) (c : Cleanerd)
      → c.running ≡ code Mode.manual
      → Yields (λ n. n ≤ most) (count_inuse_segments get_suinfo sustat.ss_nsegs)
      → Yields (Checked most c) (check_state get_suinfo ratio sustat c)
  unfolding check_state handle_manual_mode
  check_state_lem get_suinfo c at few =
      let above : ltb_ℤ c.running (pos 0) ≡ false = rw at refl in
      let bound : in_manual c ≡ true = rw at refl in
      rw (above, bound) (manual_round c (count_inuse_segments get_suinfo sustat.ss_nsegs) at few)
