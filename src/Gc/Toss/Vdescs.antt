-- ===== src/Gc/Toss/Vdescs.antt =====
-- nilfs_toss_vdescs keeps the live descriptors, and notes the numbers and the periods of the dead.
pub mod Outer
use nilfs_utils.Base.{
  ℕ, zero, suc, ◌+◌, ◌-◌, ◌≤◌, ◌<◌, ◌≡◌, refl, ap, sym, subst, ◌∙◌, ◌⊎◌, inl, inr, Bool, true,
  false, not, some, List, [], ◌∷◌, ◌++◌, map, arith, ltb, ◌==◌, if◌then◌else◌, Bool-cases, ltb→lt,
  ltb→le, Result, ok, err, eoverflow, enomem, ◌>>=◌, checked, length, length-drop, get_elem?, take,
  drop,
}
use mathlib.Core.List.{append-nil, append_assoc}
use nilfs_utils.Base.Index.{get_elem?-some}
use nilfs_utils.Base.Cut.{drop_step, drop_end, take-length}
use nilfs_utils.Vector.{Vector, IsVector, contents, get_size, get_element, push}
use nilfs_utils.Vector.Enlarge.{Answers, Answers-bind, Answers-map}
use nilfs_utils.Vector.Laws.{length-contents, get_element-contents, IsPushed, push-IsPushed}
use nilfs_utils.Gc.{Vdesc, Period}
use nilfs_utils.Gc.Live.{vdesc_is_live, live_reference, IsAscending}
use nilfs_utils.Gc.Live.Search.{IsHit, vdesc_is_live-Answer}
use nilfs_utils.Gc.Toss.{
  Tossed, note_dead, toss_vdescs_inner, toss_vdescs_outer, toss_vdescs, delete_run,
}
use nilfs_utils.Gc.Toss.Runs.{IsCut, delete_run-IsCut, keep_if, run, run-le, kept_round, dead_round}

-- The numbers and the periods to delete with some dead descriptors.
unfoldable pub numbers_of : List Vdesc → List ℕ
numbers_of [] = []
numbers_of (d ∷ ds) = d.vd_vblocknr ∷ numbers_of ds

unfoldable pub periods_of : List Vdesc → List Period
periods_of [] = []
periods_of (d ∷ ds) = if not (d.vd_cno == 0) then d.vd_period ∷ periods_of ds else periods_of ds

-- `t` is `s` with the dead descriptors `ds` noted.
record IsNoted (ss : List ℕ) (s : Tossed) (ds : List Vdesc) (t : Tossed) : Type 0 where
  numbers_valid : IsVector t.vblocknrv
  numbers : contents t.vblocknrv ≡ contents s.vblocknrv ++ numbers_of ds
  periods_valid : IsVector t.periodv
  periods : contents t.periodv ≡ contents s.periodv ++ periods_of ds
  hit : IsHit ss t.last_hit

numbers_of-append : (ds es : List Vdesc) → numbers_of (ds ++ es) ≡ numbers_of ds ++ numbers_of es
unfolding numbers_of
numbers_of-append [] es = refl
numbers_of-append (d ∷ ds) es = ap (◌∷◌ d.vd_vblocknr) (numbers_of-append ds es)

periods_of-append : (ds es : List Vdesc) → periods_of (ds ++ es) ≡ periods_of ds ++ periods_of es
unfolding periods_of
periods_of-append [] es = refl
periods_of-append (d ∷ ds) es = elim (Bool-cases (d.vd_cno == 0)) [
  | inl meta_file ↦ rw meta_file (periods_of-append ds es)
  | inr plain ↦ rw plain (ap (◌∷◌ d.vd_period) (periods_of-append ds es))
]

IsNoted-trans :
    {ss : List ℕ} {s t u : Tossed} {ds es : List Vdesc}
    → IsNoted ss s ds t
    → IsNoted ss t es u
    → IsNoted ss s (ds ++ es) u
IsNoted-trans {s = s} {ds = ds} {es = es} a b = record {
  numbers_valid = b.numbers_valid;
  numbers =
      b.numbers
      ∙ rw (a.numbers, numbers_of-append ds es)
          (append_assoc (contents s.vblocknrv) (numbers_of ds) (numbers_of es));
  periods_valid = b.periods_valid;
  periods =
      b.periods
      ∙ rw (a.periods, periods_of-append ds es)
          (append_assoc (contents s.periodv) (periods_of ds) (periods_of es));
  hit = b.hit;
}

-- Nothing noted, and another snapshot hit.
IsNoted-none :
    (ss : List ℕ) (s : Tossed) (h : ℕ)
    → IsVector s.vblocknrv
    → IsVector s.periodv
    → IsHit ss h
    → IsNoted ss s [] (record s { last_hit = h })
unfolding numbers_of periods_of
IsNoted-none ss s h nv pv hit = record {
  numbers_valid = nv;
  numbers = sym (append-nil (contents s.vblocknrv));
  periods_valid = pv;
  periods = sym (append-nil (contents s.periodv));
  hit = hit;
}

module _ (alloc : ℕ → Bool) (junk_period : Period) (junk_vblocknr : ℕ) (ss : List ℕ) (protcno : ℕ)
    (ascending : IsAscending ss) where
  abbrev live : Vdesc → Bool
  live d = live_reference d protcno ss

  note_dead-IsNoted :
      (s : Tossed) (d : Vdesc)
      → IsVector s.vblocknrv
      → IsVector s.periodv
      → IsHit ss s.last_hit
      → Answers
          (λ t. IsNoted ss s (d ∷ []) t × (t.vdescv ≡ s.vdescv))
          (note_dead alloc junk_period junk_vblocknr ss protcno s d)
  unfolding note_dead numbers_of periods_of
  note_dead-IsNoted s d nv pv hit =
      elim (push-IsPushed alloc junk_vblocknr s.vblocknrv d.vd_vblocknr nv) [
        | inl over ↦ inl (rw over refl)
        | inr (inl denied) ↦ inr (inl (rw denied refl))
        | inr (inr (w, ran, pushed)) ↦ elim (Bool-cases (d.vd_cno == 0)) [
          | inl meta_file ↦ inr (
              inr (
                record s { vblocknrv = w },
                rw (ran, meta_file) refl,
                (
                  record {
                    numbers_valid = pushed.valid;
                    numbers = pushed.appended;
                    periods_valid = pv;
                    periods = rw meta_file (sym (append-nil (contents s.periodv)));
                    hit = hit;
                  },
                  refl,
                ),
              ))
          | inr plain ↦ elim (push-IsPushed alloc junk_period s.periodv d.vd_period pv) [
            | inl over ↦ inl (rw (ran, plain, over) refl)
            | inr (inl denied) ↦ inr (inl (rw (ran, plain, denied) refl))
            | inr (inr (u, ran', pushed')) ↦ inr (
                inr (
                  record s { vblocknrv = w; periodv = u },
                  rw (ran, plain, ran') refl,
                  (
                    record {
                      numbers_valid = pushed.valid;
                      numbers = pushed.appended;
                      periods_valid = pushed'.valid;
                      periods = rw plain pushed'.appended;
                      hit = hit;
                    },
                    refl,
                  ),
                ))
          ]
        ]
      ]

  -- What the inner loop leaves.
  record IsScanned (s : Tossed) (j : ℕ) (r : Tossed × ℕ) : Type 0 where
    noted :
        IsNoted ss s (take (run live (drop j (contents s.vdescv))) (drop j (contents s.vdescv))) r.0
    same : (r.0).vdescv ≡ s.vdescv
    stop : r.1 ≡ j + run live (drop j (contents s.vdescv))

  IsScanned-step :
      (s u : Tossed) (j : ℕ) (d : Vdesc) (h : ℕ) (r : Tossed × ℕ)
      → drop j (contents s.vdescv) ≡ d ∷ drop (j + 1) (contents s.vdescv)
      → live d ≡ false
      → IsNoted ss (record s { last_hit = h }) (d ∷ []) u
      → u.vdescv ≡ s.vdescv
      → IsScanned u (j + 1) r
      → IsScanned s j r
  unfolding run
  IsScanned-step s u j d h r at_j dead noted kept scanned =
      let first : IsNoted ss s (d ∷ []) u = record {
        numbers_valid = noted.numbers_valid;
        numbers = noted.numbers;
        periods_valid = noted.periods_valid;
        periods = noted.periods;
        hit = noted.hit;
      } in
      let rest : IsNoted ss u
          (take (run live (drop (j + 1) (contents s.vdescv))) (drop (j + 1) (contents s.vdescv)))
          r.0 =
        subst
          (λ v.
            IsNoted ss u (take (run live (drop (j + 1) (contents v))) (drop (j + 1) (contents v)))
              r.0)
          kept scanned.noted in
      let stop : r.1 ≡ j + 1 + run live (drop (j + 1) (contents s.vdescv)) =
        subst (λ v. r.1 ≡ j + 1 + run live (drop (j + 1) (contents v))) kept scanned.stop in
      record {
        noted = rw (at_j, dead) (IsNoted-trans first rest);
        same = scanned.same ∙ kept;
        stop = rw (at_j, dead) (omega arith);
      }

  toss_vdescs_inner-IsScanned :
      (fuel : ℕ) (s : Tossed) (j : ℕ)
      → IsVector s.vdescv
      → IsVector s.vblocknrv
      → IsVector s.periodv
      → IsHit ss s.last_hit
      → j ≤ (s.vdescv).v_nelems
      → (s.vdescv).v_nelems < j + fuel
      → Answers
          (IsScanned s j)
          (toss_vdescs_inner alloc junk_period junk_vblocknr ss protcno fuel s j)
  unfolding toss_vdescs_inner get_size run
  toss_vdescs_inner-IsScanned zero s j vv nv pv hit inside short = absurd (omega arith)
  toss_vdescs_inner-IsScanned (suc fuel) s j vv nv pv hit inside short =
      let v = s.vdescv in
      elim (Bool-cases (ltb j v.v_nelems)) [
        | inr past ↦
            let nothing : drop j (contents v) ≡ [] =
              drop_end (contents v) j (omega (arith, length-contents v vv, ltb→le _ _ past)) in
            inr (
              inr (
                (s, j),
                rw past refl,
                record {
                  noted = rw nothing (IsNoted-none ss s s.last_hit nv pv hit);
                  same = refl;
                  stop = rw nothing (omega arith);
                },
              ))
        | inl more ↦
            let (d, e) =
              get_elem?-some (contents v) j
                (omega (arith, length-contents v vv, ltb→lt _ _ more)) in
            let read_j : get_element v j ≡ some d = get_element-contents v j ∙ e in
            let at_j = drop_step (contents v) j d e in
            let (h, judged, hit') = vdesc_is_live-Answer d protcno ss s.last_hit ascending hit in
            let t = record s { last_hit = h } in
            rw (more, read_j, judged)
              (elim (Bool-cases (live d)) [
                | inl alive ↦ inr (
                    inr (
                      (t, j),
                      rw alive refl,
                      record {
                        noted = rw (at_j, alive) (IsNoted-none ss s h nv pv hit');
                        same = refl;
                        stop = rw (at_j, alive) (omega arith);
                      },
                    ))
                | inr dead ↦ rw dead (
                    Answers-bind _ _ (note_dead-IsNoted t d nv pv hit') λ u noted.
                      let kept : u.vdescv ≡ s.vdescv = noted.1 in
                      let size : (u.vdescv).v_nelems ≡ v.v_nelems = ap (λ x. x.v_nelems) kept in
                      Answers-map
                        (λ r scanned. IsScanned-step s u j d h r at_j dead noted.0 kept scanned)
                        (toss_vdescs_inner-IsScanned fuel u (j + 1) (rw kept vv)
                          (noted.0).numbers_valid (noted.0).periods_valid (noted.0).hit
                          (omega (arith, ltb→lt _ _ more)) (omega arith)))
              ])
      ]
