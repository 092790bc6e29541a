-- ===== src/Gc/Live/Search.antt =====
-- The binary search of nilfs_vdesc_is_live ends, reads inside the array, and finds a snapshot in the
-- period exactly if there is one.
use nilfs_utils.Base.{
  ℕ, zero, suc, ◌+◌, ◌-◌, ◌/◌, ◌≤◌, ◌<◌, ◌≡◌, refl, ap, ◌∙◌, ◌⊎◌, inl, inr, Bool, true, false, ◌&&◌,
  ◌||◌, none, some, List, [], ◌∷◌, arith, ltb, leb, ◌==◌, Bool-cases, ltb→lt, ltb→le, Result, ok,
  length, get_elem?, All,
}
use nilfs_utils.Base.Index.{get_elem?-some, get_elem?-none}
use nilfs_utils.Gc.{Vdesc, cno_max}
use nilfs_utils.Gc.Live.{
  live_search, live_by_snapshot, vdesc_is_live, any_within, live_reference, IsAscending,
}

-- `*last_hit` is 0, as at the start, or a snapshot.
abbrev pub IsHit : List ℕ → ℕ → Type 0
IsHit ss h = (h ≡ 0) ⊎ ((i : ℕ) × (get_elem? ss i ≡ some h))

All_at : (P : ℕ → Type 0) (ss : List ℕ) (i s : ℕ) → All P ss → get_elem? ss i ≡ some s → P s
All_at P [] i s h e = absurd (cc e)
All_at P (t ∷ ss) zero s h e = let f : t ≡ s = cc e in rw f at h.0
All_at P (t ∷ ss) (suc i) s h e = All_at P ss i s h.1 e

ascending_at :
    (ss : List ℕ) (i j s t : ℕ)
    → IsAscending ss
    → i < j
    → get_elem? ss i ≡ some s
    → get_elem? ss j ≡ some t
    → s < t
ascending_at [] i j s t h lt e f = absurd (cc e)
ascending_at (u ∷ ss) i zero s t h lt e f = absurd (omega arith)
ascending_at (u ∷ ss) zero (suc j) s t h lt e f =
    let g : u ≡ s = cc e in rw g at (All_at (λ v. u < v) ss j t h.0 f)
ascending_at (u ∷ ss) (suc i) (suc j) s t h lt e f = ascending_at ss i j s t h.1 (omega arith) e f

any_within-true :
    (ss : List ℕ) (a b i s : ℕ) → get_elem? ss i ≡ some s → a ≤ s → s < b → any_within ss a b ≡ true
unfolding any_within
any_within-true [] a b i s e lo hi = absurd (cc e)
any_within-true (t ∷ ss) a b zero s e lo hi = let f : t ≡ s = cc e in rw f (ground arith)
any_within-true (t ∷ ss) a b (suc i) s e lo hi = ground (arith, any_within-true ss a b i s e lo hi)

-- Outside the period: before it, or past it.
abbrev Outside : ℕ → ℕ → ℕ → Type 0
Outside a b s = (s < a) ⊎ (b ≤ s)

any_within-false :
    (ss : List ℕ) (a b : ℕ)
    → ((i s : ℕ) → get_elem? ss i ≡ some s → Outside a b s)
    → any_within ss a b ≡ false
unfolding any_within
any_within-false [] a b h = refl
any_within-false (t ∷ ss) a b h =
    ground (arith, h 0 t refl, any_within-false ss a b (λ i s e. h (suc i) s e))

-- The answer of a search: right, with a valid hit.
abbrev pub Answer : List ℕ → Bool → Result (Bool × ℕ) → Type 0
Answer ss expected r = (hit : ℕ) × (r ≡ ok (expected, hit)) × IsHit ss hit

module _ (ss : List ℕ) (ascending : IsAscending ss) (a b last_hit : ℕ)
    (valid : IsHit ss last_hit) where
  live_search-Answer :
      (fuel low upto : ℕ)
      → low ≤ upto
      → upto ≤ length ss
      → upto < low + fuel
      → ((i s : ℕ) → i < low → get_elem? ss i ≡ some s → s < a)
      → ((i s : ℕ) → upto ≤ i → get_elem? ss i ≡ some s → b ≤ s)
      → Answer ss (any_within ss a b) (live_search fuel ss a b last_hit low upto)
  unfolding live_search
  live_search-Answer zero low upto ordered fits short before behind = absurd (omega arith)
  live_search-Answer (suc fuel) low upto ordered fits short before behind =
      elim (Bool-cases (ltb low upto)) [
        | inr over ↦
            let none_inside : any_within ss a b ≡ false =
              any_within-false ss a b (λ i s e. outside i s e over) in
            (last_hit, rw (over, none_inside) refl, valid)
        | inl going ↦
            let index = (low + (upto - 1)) / 2 in
            let lower : low ≤ index = omega (arith, ltb→lt low upto going) in
            let upper : index < upto = omega (arith, ltb→lt low upto going) in
            let (s, e) = get_elem?-some ss index (omega arith) in
            rw (going, e)
              (elim (Bool-cases (ltb s a)) [
                | inl early ↦ rw early (
                    live_search-Answer fuel (index + 1) upto (omega arith) fits (omega arith)
                      (λ i t lt f. early_part index s e i t (omega arith) f (ltb→lt s a early))
                      behind)
                | inr on ↦ elim (Bool-cases (leb b s)) [
                  | inl late ↦
                      rw (on, late)
                        (live_search-Answer fuel low index (omega arith) (omega arith) (omega arith)
                          before (λ i t le f. late_part index s e i t le f (ground arith)))
                  | inr inside ↦
                      let found : any_within ss a b ≡ true =
                        any_within-true ss a b index s e (ltb→le s a on) (ground arith) in
                      (s, rw (on, inside, found) refl, inr (index, e))
                ]
              ])
      ]
    where
      outside : (i s : ℕ) → get_elem? ss i ≡ some s → ltb low upto ≡ false → Outside a b s
      outside i s e over = elim (Bool-cases (ltb i low)) [
        | inl left ↦ inl (before i s (ltb→lt i low left) e)
        | inr right ↦ inr (behind i s (omega (arith, ltb→le i low right, ltb→le low upto over)) e)
      ]

      early_part :
          (index s : ℕ)
          → get_elem? ss index ≡ some s
          → (i t : ℕ) → i ≤ index
          → get_elem? ss i ≡ some t
          → s < a
          → t < a
      early_part index s e i t le f h = elim (Bool-cases (ltb i index)) [
        | inl lt ↦ omega (arith, ascending_at ss i index t s ascending (ltb→lt i index lt) f e)
        | inr ge ↦
            let same : i ≡ index = omega (arith, ltb→le i index ge) in
            let g : t ≡ s = cc (same) in omega arith
      ]

      late_part :
          (index s : ℕ)
          → get_elem? ss index ≡ some s
          → (i t : ℕ) → index ≤ i
          → get_elem? ss i ≡ some t
          → b ≤ s
          → b ≤ t
      late_part index s e i t le f h = elim (Bool-cases (ltb index i)) [
        | inl lt ↦ omega (arith, ascending_at ss index i s t ascending (ltb→lt index i lt) e f)
        | inr ge ↦
            let same : i ≡ index = omega (arith, ltb→le index i ge) in
            let g : t ≡ s = cc (same) in omega arith
      ]

-- The two tests before the search.
module _ (s : ℕ) (rest : List ℕ) (ascending : IsAscending (s ∷ rest)) (a b : ℕ) where
  past_last :
      (last : ℕ)
      → get_elem? (s ∷ rest) (length rest) ≡ some last
      → (last < a) ⊎ (b ≤ s)
      → (i t : ℕ) → get_elem? (s ∷ rest) i ≡ some t
      → Outside a b t
  past_last last e (inr late) zero t f = inr (let g : s ≡ t = cc f in omega arith)
  past_last last e (inr late) (suc i) t f =
      inr (omega (arith, ascending_at (s ∷ rest) 0 (suc i) s t ascending (omega arith) refl f))
  past_last last e (inl early) i t f = elim (Bool-cases (ltb i (length rest))) [
    | inl lt ↦ inl (
        omega (arith, ascending_at (s ∷ rest) i (length rest) t last ascending (ltb→lt i _ lt) f e))
    | inr ge ↦ elim (Bool-cases (ltb (length rest) i)) [
      | inl over ↦ absurd (
          let g : get_elem? (s ∷ rest) i ≡ none =
            get_elem?-none (s ∷ rest) i (omega (arith, ltb→lt (length rest) i over)) in
          cc (g, f))
      | inr under ↦
          let same : i ≡ length rest = omega (arith, ltb→le i _ ge, ltb→le _ i under) in
          inl (let g : t ≡ last = cc (same) in omega arith)
    ]
  ]

  hit_again :
      (last_hit : ℕ)
      → IsHit (s ∷ rest) last_hit
      → s < b
      → a ≤ last_hit
      → last_hit < b
      → any_within (s ∷ rest) a b ≡ true
  hit_again last_hit (inl zero_hit) first lo hi =
      any_within-true (s ∷ rest) a b 0 s refl (omega arith) first
  hit_again last_hit (inr (i, e)) first lo hi = any_within-true (s ∷ rest) a b i last_hit e lo hi

pub live_by_snapshot-Answer :
    (ss : List ℕ) (a b last_hit : ℕ)
    → IsAscending ss
    → IsHit ss last_hit
    → Answer ss (any_within ss a b) (live_by_snapshot ss a b last_hit)
unfolding live_by_snapshot
live_by_snapshot-Answer [] a b last_hit ascending valid =
    (last_hit, unfold any_within in refl, valid)
live_by_snapshot-Answer (s ∷ rest) a b last_hit ascending valid =
    let ss = s ∷ rest in
    let (last, e) = get_elem?-some ss (length rest) (omega arith) in
    let e' : get_elem? ss (suc (length rest) - 1) ≡ some last =
      ap (get_elem? ss) (let f : suc (length rest) - 1 ≡ length rest = omega arith in f) ∙ e in
    rw e' (elim (Bool-cases (ltb last a || leb b s)) [
      | inl out ↦
          let none_inside : any_within ss a b ≡ false =
            any_within-false ss a b (past_last s rest ascending a b last e (ground arith)) in
          (last_hit, rw (out, none_inside) refl, valid)
      | inr maybe ↦ elim (Bool-cases (leb a last_hit && ltb last_hit b)) [
        | inl again ↦
            let found : any_within ss a b ≡ true =
              hit_again s rest ascending a b last_hit valid (ground arith) (ground arith)
                (ground arith) in
            (last_hit, rw (maybe, again, found) refl, valid)
        | inr search_on ↦
            rw (maybe, search_on)
              (live_search-Answer ss ascending a b last_hit valid (suc (length ss)) 0 (length ss)
                (omega arith) (omega arith) (omega arith) (λ i t lt f. absurd (omega arith))
                (λ i t le f.
                  absurd (let g : get_elem? ss i ≡ none = get_elem?-none ss i le in cc (g, f))))
      ]
    ])

-- Whatever the block, `protect` and the ascending snapshots, nilfs_vdesc_is_live answers what its
-- comments define, and leaves in `*last_hit` 0 or a snapshot. It reads nothing outside the array
-- and its loop ends.
pub vdesc_is_live-Answer :
    (vdesc : Vdesc) (protect : ℕ) (ss : List ℕ) (last_hit : ℕ)
    → IsAscending ss
    → IsHit ss last_hit
    → Answer ss (live_reference vdesc protect ss) (vdesc_is_live vdesc protect ss last_hit)
unfolding vdesc_is_live live_reference
vdesc_is_live-Answer vdesc protect ss last_hit ascending valid =
    let end = vdesc.vd_period.p_end in
    elim (Bool-cases (vdesc.vd_cno == 0)) [
      | inl meta_file ↦ (last_hit, rw meta_file refl, valid)
      | inr plain ↦ elim (Bool-cases (end == vdesc.vd_cno)) [
        | inl overwritten ↦ (last_hit, rw (plain, overwritten) refl, valid)
        | inr kept ↦ elim (Bool-cases (end == cno_max || ltb protect end)) [
          | inl recent ↦ (last_hit, rw (plain, kept, recent) refl, valid)
          | inr old ↦
              rw (plain, kept, old)
                (live_by_snapshot-Answer ss vdesc.vd_period.p_start end last_hit ascending valid)
        ]
      ]
    ]
