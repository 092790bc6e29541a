-- ===== src/Gc/Snapshot/Ascending.antt =====
-- nilfs_get_snapshot stays inside its array, ends, and gives ascending numbers.
use nilfs_utils.Base.{
  ℕ, zero, suc, ◌+◌, ◌-◌, ◌*◌, ◌/◌, ◌^◌, ◌<◌, ◌≤◌, ◌≡◌, refl, subst, sym, Bool, false, List, [],
  ◌∷◌, ◌++◌, not, ltb, leb, ◌==◌, arith, Bool-cases, Result, ok, ◌>>=◌, length, get_elem?, set,
  take, All, u64, some, inl, inr, if◌then◌else◌, checked, replicate, length-replicate, length-set,
}
use nilfs_utils.Base.Cut.{take-suc-set}
use nilfs_utils.Base.Index.{get_elem?-some}
use nilfs_utils.Segment.Bytes.{Safe, Safe-bind}
use nilfs_utils.Gc.Live.{IsAscending}
use nilfs_utils.Gc.Snapshot.{Cpinfo, store_batch, read_batches, get_snapshot, gc_ncpinfo}

-- The first `n` numbers of the array ascend, up to `prev`.
record IsFilled (ss : List ℕ) (n prev : ℕ) : Type 0 where
  ascending : IsAscending (take n ss)
  upto : All (λ s. s ≤ prev) (take n ss)

All-append : (P : ℕ → Type 0) (xs : List ℕ) (x : ℕ) → All P xs → P x → All P (xs ++ x ∷ [])
All-append P [] x all p = (p, tt)
All-append P (y ∷ xs) x (q, all) p = (q, All-append P xs x all p)

All-upto : (xs : List ℕ) (a b : ℕ) → a ≤ b → All (λ s. s ≤ a) xs → All (λ s. s ≤ b) xs
All-upto [] a b le all = tt
All-upto (x ∷ xs) a b le (p, all) = (omega arith, All-upto xs a b le all)

IsAscending-append :
    (xs : List ℕ) (prev x : ℕ)
    → prev < x
    → All (λ s. s ≤ prev) xs
    → IsAscending xs
    → IsAscending (xs ++ x ∷ [])
IsAscending-append [] prev x less all up = (tt, tt)
IsAscending-append (y ∷ xs) prev x less (p, all) (q, up) =
    (All-append (λ t. y < t) xs x q (omega arith), IsAscending-append xs prev x less all up)

store-IsFilled :
    (ss : List ℕ) (n prev x : ℕ)
    → n < length ss
    → prev < x
    → IsFilled ss n prev
    → IsFilled (set ss n x) (n + 1) x
store-IsFilled ss n prev x inside less filled =
    let up : suc n ≡ n + 1 = omega arith in
    let e : take (n + 1) (set ss n x) ≡ take n ss ++ x ∷ [] =
      subst (λ k. take k (set ss n x) ≡ take n ss ++ x ∷ []) up (take-suc-set ss n x inside) in
    record {
      ascending =
          subst IsAscending (sym e)
            (IsAscending-append (take n ss) prev x less filled.upto filled.ascending);
      upto = subst (All (λ s. s ≤ x)) (sym e) (
          All-append (λ s. s ≤ x) (take n ss) x
            (All-upto (take n ss) prev x (omega arith) filled.upto) (omega arith));
    }

store_batch-Safe :
    (batch : List Cpinfo) (ss : List ℕ) (at prev : ℕ)
    → at + length batch ≤ length ss
    → IsFilled ss at prev
    → Safe
        (λ r. (length r.0 ≡ length ss) × IsFilled r.0 (at + length batch) r.1)
        (store_batch batch ss at prev)
unfolding store_batch
store_batch-Safe [] ss at prev room filled =
    (refl, subst (λ n. IsFilled ss n prev) (omega arith) filled)
store_batch-Safe (c ∷ batch) ss at prev room filled =
    let inside : not (ltb at (length ss)) ≡ false = ground arith in
    rw inside (elim (Bool-cases (leb c.ci_cno prev)) [
      | inl bad ↦ rw bad tt
      | inr more ↦ rw more (
          subst
            (λ k.
              Safe (λ r. (length r.0 ≡ length ss) × IsFilled r.0 k r.1)
                (store_batch batch (set ss at c.ci_cno) (at + 1) c.ci_cno))
            (omega arith)
            (subst
              (λ k.
                Safe (λ r. (length r.0 ≡ k) × IsFilled r.0 (at + 1 + length batch) r.1)
                  (store_batch batch (set ss at c.ci_cno) (at + 1) c.ci_cno))
              (length-set ss at c.ci_cno)
              (store_batch-Safe batch (set ss at c.ci_cno) (at + 1) c.ci_cno
                (omega (arith, length-set ss at c.ci_cno))
                (store-IsFilled ss at prev c.ci_cno (omega arith) (leb→lt more) filled))))
    ])
  where
    leb→lt : leb c.ci_cno prev ≡ false → prev < c.ci_cno
    leb→lt h = ground arith

-- A batch of the snapshots from `cno` on, of which there are `left cno`; the next batch starts
-- behind it.
pub record IsBatch (left : ℕ → ℕ) (cno : ℕ) (batch : List Cpinfo) : Type 0 where
  pub few : length batch ≤ left cno
  pub behind :
      (c : Cpinfo)
      → get_elem? batch (length batch - 1) ≡ some c
      → 0 < c.ci_next
      → left c.ci_next + length batch ≤ left cno

-- What nilfs_get_snapshot promises.
abbrev pub IsRead : List ℕ × ℕ → Type 0
IsRead (ss, n) = (n ≤ length ss) × IsAscending (take n ss)

module _ (get_cpinfo : ℕ → ℕ → Result (List Cpinfo)) (left : ℕ → ℕ)
    (lists : (cno : ℕ) → Safe (IsBatch left cno) (get_cpinfo cno gc_ncpinfo)) where
  -- What the outer loop does with one batch, given the rounds that follow.
  batch_round :
      (rest : List ℕ → ℕ → ℕ → ℕ → Result (List ℕ × ℕ)) (nsss : ℕ) (ss : List ℕ) (i cno prev : ℕ)
      → length ss ≡ nsss
      → i + left cno ≤ nsss
      → IsFilled ss i prev
      → ((ss' : List ℕ) (j next last : ℕ)
          → length ss' ≡ nsss
          → j + left next ≤ nsss
          → i < j
          → IsFilled ss' j last
          → Safe IsRead (rest ss' j next last))
      → (batch : List Cpinfo) → IsBatch left cno batch
      → Safe IsRead (
          if length batch == 0
          then ok (ss, i)
          else (store_batch batch ss i prev >>= λ r.
              checked (get_elem? batch (length batch - 1)) >>= λ last.
              if last.ci_next == 0
              then ok (r.0, i + length batch)
              else rest r.0 (i + length batch) last.ci_next r.1))
  batch_round rest nsss ss i cno prev size room filled later batch is =
      elim (Bool-cases (length batch == 0)) [
        | inl none_left ↦ rw none_left (omega arith, filled.ascending)
        | inr some_left ↦
            let (last, found) = get_elem?-some batch (length batch - 1) (ground arith) in
            rw (some_left, found)
              (Safe-bind IsRead (store_batch batch ss i prev) _
                (store_batch-Safe batch ss i prev (omega (arith, is.few)) filled)
                (λ r kept. elim (Bool-cases (last.ci_next == 0)) [
                  | inl end ↦ rw end (omega (arith, is.few, kept.0), (kept.1).ascending)
                  | inr more ↦ rw more (
                      later r.0 (i + length batch) last.ci_next r.1 (omega (arith, kept.0))
                        (omega (arith, is.behind last found (ground arith))) (ground arith) kept.1)
                ]))
      ]

  read_batches-Safe :
      (alloc : ℕ → Bool) (junk : ℕ) (get_cpstat : Result ℕ) (fuel nsss : ℕ) (ss : List ℕ)
      (i cno prev : ℕ)
      → length ss ≡ nsss
      → i + left cno ≤ nsss
      → nsss < i + fuel
      → IsFilled ss i prev
      → Safe IsRead (read_batches alloc junk get_cpstat get_cpinfo fuel nsss ss i cno i prev)
  unfolding read_batches
  read_batches-Safe alloc junk get_cpstat zero nsss ss i cno prev size room enough filled =
      absurd (omega arith)
  read_batches-Safe alloc junk get_cpstat (suc fuel) nsss ss i cno prev size room enough filled =
      let rest = read_batches alloc junk get_cpstat get_cpinfo fuel nsss in
      elim (Bool-cases (ltb i nsss)) [
        | inl more ↦ rw more (
            Safe-bind IsRead (get_cpinfo cno gc_ncpinfo) _ (lists cno) (
              batch_round (λ ss' j next last. rest ss' j next j last) nsss ss i cno prev size room
                filled
                (λ ss' j next last size' room' later filled'.
                  read_batches-Safe alloc junk get_cpstat fuel nsss ss' j next last size' room'
                    (omega arith) filled')))
        | inr done ↦ rw done (omega arith, filled.ascending)
      ]

  -- If nilfs_get_cpinfo lists snapshots in batches, at most `left cno` of them from `cno` on, and
  -- nilfs_get_cpstat counts no fewer than there are: nilfs_get_snapshot writes inside its array and
  -- ends, and the numbers it gives strictly ascend, or it reports an error.
  pub get_snapshot-Safe :
      (alloc : ℕ → Bool) (junk : ℕ) (get_cpstat : Result ℕ)
      → Safe (λ n. (left 0 ≤ n) × (n < 2 ^ 61)) get_cpstat
      → Safe IsRead (get_snapshot alloc junk get_cpstat get_cpinfo)
  unfolding get_snapshot
  get_snapshot-Safe alloc junk get_cpstat counted = Safe-bind IsRead get_cpstat _ counted (λ nsss c.
      elim (Bool-cases (nsss == 0)) [
        | inl none_there ↦ rw none_there (omega arith, tt)
        | inr some_there ↦ rw some_there (elim (Bool-cases (not (alloc (u64 (8 * nsss))))) [
          | inl denied ↦ rw denied tt
          | inr given ↦ rw given (
              read_batches-Safe alloc junk get_cpstat (suc nsss) nsss
                (replicate (u64 (8 * nsss) / 8) junk) 0 0 0
                (omega (arith, length-replicate (u64 (8 * nsss) / 8) junk, c.1))
                (omega (arith, c.0)) (omega arith) (record { ascending = tt; upto = tt }))
        ])
      ])
