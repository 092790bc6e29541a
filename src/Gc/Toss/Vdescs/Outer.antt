-- ===== src/Gc/Toss/Vdescs/Outer.antt =====
-- The outer loop of nilfs_toss_vdescs, and the whole function.
use nilfs_utils.Base.{
  ℕ, zero, suc, ◌+◌, ◌≤◌, ◌<◌, ◌≡◌, refl, ap, sym, subst, ◌∙◌, inl, inr, Bool, not, List, ◌++◌,
  arith, ltb, Bool-cases, ltb→lt, ltb→le, ok, ◌>>=◌, length, length-drop, take, drop,
}
use mathlib.Core.List.{append-nil}
use nilfs_utils.Base.Cut.{drop_end, take-length}
use nilfs_utils.Vector.{Vector, IsVector, contents, get_size}
use nilfs_utils.Vector.Enlarge.{Answers, Answers-bind, Answers-map}
use nilfs_utils.Vector.Laws.{length-contents}
use nilfs_utils.Gc.{Vdesc, Period}
use nilfs_utils.Gc.Live.{live_reference, IsAscending}
use nilfs_utils.Gc.Live.Search.{IsHit}
use nilfs_utils.Gc.Toss.{Tossed, toss_vdescs_outer, toss_vdescs, delete_run}
use nilfs_utils.Gc.Toss.Runs.{
  IsCut, delete_run-IsCut, keep_if, run, run-le, kept_round, dead_round, cut_run,
}
use nilfs_utils.Gc.Toss.Vdescs.{
  IsNoted, IsNoted-trans, IsNoted-none, IsScanned, toss_vdescs_inner-IsScanned, numbers_of,
  periods_of,
}

-- What the outer loop leaves, from index `i` on.
record IsTossed (test : Vdesc → Bool) (ss : List ℕ) (s : Tossed) (i : ℕ) (t : Tossed) : Type 0 where
  valid : IsVector t.vdescv
  kept : contents t.vdescv ≡ take i (contents s.vdescv) ++ keep_if test (drop i (contents s.vdescv))
  noted : IsNoted ss s (keep_if (λ d. not (test d)) (drop i (contents s.vdescv))) t

-- The same numbers, periods and hit, beside another vector.
IsNoted-vdescv :
    {ss : List ℕ} {s t : Tossed} {ds : List Vdesc} (v : Vector Vdesc)
    → IsNoted ss s ds t
    → IsNoted ss s ds (record t { vdescv = v })
IsNoted-vdescv v n = record {
  numbers_valid = n.numbers_valid;
  numbers = n.numbers;
  periods_valid = n.periods_valid;
  periods = n.periods;
  hit = n.hit;
}

module _ (alloc : ℕ → Bool) (junk_period : Period) (junk_vblocknr : ℕ) (ss : List ℕ) (protcno : ℕ)
    (ascending : IsAscending ss) where
  abbrev live : Vdesc → Bool
  live d = live_reference d protcno ss

  -- One round: the run at `i` is noted and cut out, and the rest is tossed from `i + 1`.
  IsTossed-round :
      (s m t : Tossed) (i : ℕ)
      → i ≤ length (contents s.vdescv)
      → contents m.vdescv ≡ cut_run live (contents s.vdescv) i
      → IsNoted ss s (take (run live (drop i (contents s.vdescv))) (drop i (contents s.vdescv))) m
      → IsTossed live ss m (i + 1) t
      → IsTossed live ss s i t
  IsTossed-round s m t i inside cut noted rest =
      let c = contents s.vdescv in
      let rest_noted : IsNoted ss m (keep_if (λ d. not (live d)) (drop (i + 1) (cut_run live c i)))
          t =
        subst (λ x. IsNoted ss m (keep_if (λ d. not (live d)) (drop (i + 1) x)) t) cut rest.noted in
      record {
        valid = rest.valid;
        kept =
            rest.kept
            ∙ ap (λ x. take (i + 1) x ++ keep_if live (drop (i + 1) x)) cut
            ∙ kept_round live c i inside;
        noted =
            subst (λ ds. IsNoted ss s ds t) (dead_round live c i inside)
              (IsNoted-trans noted rest_noted);
      }

  -- The deletion after a scan, and the rest of the loop.
  after_scan :
      (fuel : ℕ) (s : Tossed) (i : ℕ) (r : Tossed × ℕ) (w : Vector Vdesc)
      → i ≤ length (contents s.vdescv)
      → IsScanned alloc junk_period junk_vblocknr ss protcno ascending s i r
      → delete_run (r.0).vdescv i r.1 ≡ ok w
      → IsCut (r.0).vdescv i r.1 w
      → Answers (IsTossed live ss (record (r.0) { vdescv = w }) (i + 1)) (
          toss_vdescs_outer alloc junk_period junk_vblocknr ss protcno fuel
            (record (r.0) { vdescv = w })
            (i + 1))
      → Answers (IsTossed live ss s i) (
          delete_run (r.0).vdescv i r.1 >>= λ v.
          toss_vdescs_outer alloc junk_period junk_vblocknr ss protcno fuel
            (record (r.0) { vdescv = v })
            (i + 1))
  after_scan fuel s i r w inside scanned ran cut rest =
      let left : contents w ≡ cut_run live (contents s.vdescv) i =
        cut.left
        ∙ ap (λ v. take i (contents v) ++ drop r.1 (contents v)) scanned.same
        ∙ ap (λ j. take i (contents s.vdescv) ++ drop j (contents s.vdescv)) scanned.stop in
      rw ran (
        Answers-map
          (λ t tossed.
            IsTossed-round s (record (r.0) { vdescv = w }) t i inside left
              (IsNoted-vdescv w scanned.noted) tossed)
          rest)

  toss_vdescs_outer-IsTossed :
      (fuel : ℕ) (s : Tossed) (i : ℕ)
      → IsVector s.vdescv
      → IsVector s.vblocknrv
      → IsVector s.periodv
      → IsHit ss s.last_hit
      → 0 < fuel
      → (s.vdescv).v_nelems < i + fuel
      → Answers
          (IsTossed live ss s i)
          (toss_vdescs_outer alloc junk_period junk_vblocknr ss protcno fuel s i)
  unfolding toss_vdescs_outer get_size keep_if
  toss_vdescs_outer-IsTossed zero s i vv nv pv hit some_fuel short = absurd (omega arith)
  toss_vdescs_outer-IsTossed (suc fuel) s i vv nv pv hit some_fuel short =
      let v = s.vdescv in
      elim (Bool-cases (ltb i v.v_nelems)) [
        | inr past ↦
            let all_done : length (contents v) ≤ i =
              omega (arith, length-contents v vv, ltb→le _ _ past) in
            inr (
              inr (
                s,
                rw past refl,
                record {
                  valid = vv;
                  kept =
                      rw (drop_end (contents v) i all_done, take-length (contents v) i all_done)
                        (sym (append-nil (contents v)));
                  noted =
                      rw (drop_end (contents v) i all_done)
                        (IsNoted-none ss s s.last_hit nv pv hit);
                },
              ))
        | inl more ↦ rw more (
            Answers-bind _ _
              (toss_vdescs_inner-IsScanned alloc junk_period junk_vblocknr ss protcno ascending
                (suc v.v_nelems) s i vv nv pv hit (omega (arith, ltb→lt _ _ more)) (omega arith))
              λ r scanned.
                let size : ((r.0).vdescv).v_nelems ≡ v.v_nelems =
                  ap (λ x. x.v_nelems) scanned.same in
                let bound : r.1 ≤ ((r.0).vdescv).v_nelems = omega (
                  arith,
                  run-le live (drop i (contents v)),
                  length-drop i (contents v),
                  length-contents v vv,
                  scanned.stop,
                  ltb→lt _ _ more,
                ) in
                let (w, ran, cut) =
                  delete_run-IsCut (r.0).vdescv i r.1 (rw scanned.same vv)
                    (omega (arith, scanned.stop)) bound in
                after_scan fuel s i r w (omega (arith, length-contents v vv, ltb→lt _ _ more))
                  scanned ran cut
                  (toss_vdescs_outer-IsTossed fuel (record (r.0) { vdescv = w }) (i + 1) cut.valid
                    (scanned.noted).numbers_valid (scanned.noted).periods_valid (scanned.noted).hit
                    (omega (arith, ltb→lt _ _ more)) (omega (arith, cut.fewer))))
      ]

  -- Unless memory runs out, nilfs_toss_vdescs keeps exactly the live descriptors, in order, adds
  -- the virtual block number of each dead one to the numbers to delete, and its period to the
  -- periods to delete if its checkpoint number is not 0.
  pub toss_vdescs_lem :
      (vdescv : Vector Vdesc) (periodv : Vector Period) (vblocknrv : Vector ℕ)
      → IsVector vdescv
      → IsVector periodv
      → IsVector vblocknrv
      → let test = λ (d : Vdesc). live_reference d protcno ss in
        let dead = keep_if (λ d. not (test d)) (contents vdescv) in
        Answers
          (λ t.
            IsVector t.vdescv
            × IsVector t.periodv
            × IsVector t.vblocknrv
            × (contents t.vdescv ≡ keep_if test (contents vdescv))
            × (contents t.vblocknrv ≡ contents vblocknrv ++ numbers_of dead)
            × (contents t.periodv ≡ contents periodv ++ periods_of dead))
          (toss_vdescs alloc junk_period junk_vblocknr ss protcno vdescv periodv vblocknrv)
  unfolding toss_vdescs get_size
  toss_vdescs_lem vdescv periodv vblocknrv vv pv nv =
      Answers-map
        (λ t tossed.
          let n = tossed.noted in
          (tossed.valid, n.periods_valid, n.numbers_valid, tossed.kept, n.numbers, n.periods))
        (toss_vdescs_outer-IsTossed (suc vdescv.v_nelems)
          (record { vdescv = vdescv; periodv = periodv; vblocknrv = vblocknrv; last_hit = 0 }) 0 vv
          nv pv (inl refl) (omega arith) (omega arith))
