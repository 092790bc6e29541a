-- ===== src/Cleaner/Round/Ends.antt =====
-- A manual run of the daemon of sbin/cleanerd.c ends after as many rounds as it has work left, when
-- the calls answer.
use nilfs_utils.Base.{
  ℕ, suc, ◌+◌, ◌*◌, ◌-◌, ◌≤◌, ◌<◌, ◌≡◌, refl, sym, subst, ◌∙◌, ◌⊎◌, inl, inr, Bool, true, false,
  if◌then◌else◌, arith, List, [], ◌∷◌, Option, none, Result, ok, err, fault, ◌>>=◌, length, take,
  Timespec, All,
}
use nilfs_utils.Cleaner.{Config, Cleanerd, Sustat}
use nilfs_utils.Cleaner.Messages.{Surroundings}
use nilfs_utils.Cleaner.Control.{Mode, code}
use nilfs_utils.Cleaner.Check.{check_state}
use nilfs_utils.Cleaner.Round.{
  Wakeup, quiet, Answers, collect, work, handle_signals, wait, round, rounds,
}
use nilfs_utils.Cleaner.Round.Manual.{weight, measure, IsFree, Yields}
use nilfs_utils.Cleaner.Round.Collects.{Cooperates, Went, Yields-bind, collect-IsFree, collect_lem}
use nilfs_utils.Cleaner.Round.Enters.{check_state_lem, Nearer, Entered, Checked}

-- The numbers: `p` passes' worth, the segments before and after, and the weight at first; whether a
-- try could be repeated at first, and can be now.
fewer_left :
    (p rd re w : ℕ) (first now : Bool)
    → (p + rd < w) ⊎ ((p + rd ≡ w) × (0 < rd))
    → ((re ≡ rd) × (first ≡ false) × (now ≡ true)) ⊎ (re ≤ rd - 1)
    → 2 * (p + re) + (if now then 0 else 1) < 2 * w + (if first then 0 else 1)
fewer_left p rd re w first now (inl less) (inl (same, a, b)) = ground arith
fewer_left p rd re w first now (inl less) (inr fewer) = ground arith
fewer_left p rd re w first now (inr (same, some_left)) (inl (rest, a, b)) = ground arith
fewer_left p rd re w first now (inr (same, some_left)) (inr fewer) = ground arith

-- A pass that was entered, then collected.
nearer :
    (most : ℕ) (c d e : Cleanerd)
    → c.fallback ≡ false
    → Entered most c d
    → Went d e
    → Nearer most c e
nearer most c d e fine entered (inl free) = inl free
nearer most c d e fine entered (inr (goes, less)) =
    let retried : ((e.mm_nrestsegs ≡ d.mm_nrestsegs)
          × (c.retry_cleaning ≡ false)
          × (e.retry_cleaning ≡ true))
        ⊎ (e.mm_nrestsegs ≤ d.mm_nrestsegs - 1) =
      elim less [
        | inl (rest, first, now) ↦ inl (rest, sym entered.retry ∙ first, now)
        | inr fewer ↦ inr fewer
      ] in
    let counted =
      fewer_left (d.mm_nrestpasses * (most + 1)) d.mm_nrestsegs e.mm_nrestsegs (weight most c)
        c.retry_cleaning e.retry_cleaning entered.work retried in
    inr (
      goes.running,
      goes.fallback,
      goes.shutdown ∙ entered.shutdown,
      subst
          (λ p.
            2 * (p * (most + 1) + e.mm_nrestsegs) + (if e.retry_cleaning then 0 else 1)
            < measure most c)
          (sym goes.passes) counted,
    )

weaken-Yields {ℓ} :
    {A : Type ℓ} {P Q : A → Type 0} (r : Result A) → ((a : A) → P a → Q a) → Yields P r → Yields Q r
weaken-Yields (ok a) f p = f a p
weaken-Yields (err e) f p = absurd p
weaken-Yields fault f p = absurd p

bind_ok {ℓ κ} :
    {A : Type ℓ} {B : Type κ} (m : Result A) (f : A → Result B) (d : A) → m ≡ ok d → (m >>= f) ≡ f d
bind_ok m f d e = rw e refl

if_false {ℓ} : {A : Type ℓ} (b : Bool) (x y : A) → b ≡ false → (if b then x else y) ≡ y
if_false b x y e = rw e refl

wait_quiet :
    (env : Surroundings) (ppoll : Timespec → Wakeup) (c : Cleanerd)
    → ppoll c.timeout ≡ quiet
    → wait env ppoll c ≡ ok c
unfolding wait
wait_quiet env ppoll c e = rw (e, wait) refl

no_signal :
    (env : Surroundings) (hangup : Option (Result Config)) (c : Cleanerd)
    → hangup ≡ none
    → handle_signals env hangup c ≡ c
unfolding handle_signals
no_signal env hangup c e = rw (e, handle_signals) refl

Yields-cases {ℓ} :
    {A : Type ℓ} {P : A → Type 0} (r : Result A) → Yields P r → (a : A) × (r ≡ ok a) × P a
Yields-cases (ok a) p = (a, refl, p)
Yields-cases (err e) p = absurd p
Yields-cases fault p = absurd p

module _ (env : Surroundings) (most : ℕ) (a : Answers) (works : Cooperates most a) where
  work_lem :
      (c : Cleanerd)
      → c.running ≡ code Mode.manual
      → c.fallback ≡ false
      → Yields (Nearer most c) (work env a c)
  unfolding work
  work_lem c at fine =
      let d = record c { no_timeout = false } in
      rw (no_signal env a.hangup d works.no_hangup) (
        Yields-bind (Nearer most c) a.get_sustat _ works.get_sustat (λ sustat few.
          Yields-bind (Nearer most c) (check_state (a.gc).get_suinfo a.ratio sustat d) _
            (check_state_lem most a.ratio sustat (a.gc).get_suinfo d at few)
            (λ r found. after sustat r.0 r.1 found)))
    where
      after :
          (sustat : Sustat) (e : Cleanerd) (b : Bool)
          → Checked most (record c { no_timeout = false }) (e, b)
          → Yields (Nearer most c) (if b then ok e else collect env a sustat e)
      after sustat e true (inl free) = inl free
      after sustat e false (inl free) =
          weaken-Yields (collect env a sustat e) (λ x y. inl y)
            (collect-IsFree env most a works sustat e free)
      after sustat e true (inr (no_sleep, entered)) = absurd (cc no_sleep)
      after sustat e false (inr (no_sleep, entered)) =
          weaken-Yields (collect env a sustat e)
            (λ x went.
              nearer most c e x fine
                (record {
                  running = entered.running;
                  fallback = entered.fallback;
                  shutdown = entered.shutdown;
                  retry = entered.retry;
                  work = entered.work;
                })
                went)
            (collect_lem env most a works sustat e entered.running (entered.fallback ∙ fine))

  round_lem :
      (c : Cleanerd)
      → c.running ≡ code Mode.manual
      → c.fallback ≡ false
      → (d : Cleanerd) × (round env a c ≡ ok d) × Nearer most c d
  unfolding round wait
  round_lem c at fine =
      let (d, worked, near) = Yields-cases (work env a c) (work_lem c at fine) in
      (d, bind_ok _ _ d worked ∙ wait_quiet env a.ppoll d (works.silent d.timeout), near)

-- Let the calls of the rounds answer, with no signal, no message and no lack of memory, and let no
-- pass find more than `most` segments in use. Then a manual run, begun without a failure that is to
-- be retried and without a shutdown, is over after some number of rounds, if there are so many. Let
-- `w` be the segments left in its pass, and `most` and one for each pass that is left: the number is at
-- most twice `w` and one, and another one unless a try is being repeated.
pub manual_run_ends :
    (env : Surroundings) (most : ℕ) (answers : List Answers) (c : Cleanerd)
    → All (Cooperates most) answers
    → c.running ≡ code Mode.manual
    → c.fallback ≡ false
    → c.shutdown ≡ false
    → measure most c < length answers
    → (n : ℕ) × (d : Cleanerd) × (n ≤ measure most c + 1)
      × (rounds env (take n answers) c ≡ ok d)
      × IsFree d
unfolding rounds
manual_run_ends env most [] c works at fine open_yet enough = absurd (omega arith)
manual_run_ends env most (a ∷ later) c (work_now, work_later) at fine open_yet enough =
    let (d, done, near) = round_lem env most a work_now c at fine in
    elim near [
      | inl free ↦ (1, d, omega arith, if_false _ _ _ open_yet ∙ bind_ok _ _ d done, free)
      | inr (still, well, same, less) ↦
          let (n, e, few, ran, free) =
            manual_run_ends env most later d work_later still well (same ∙ open_yet)
              (omega arith) in
          (suc n, e, omega arith, if_false _ _ _ open_yet ∙ bind_ok _ _ d done ∙ ran, free)
    ]
