-- ===== src/Gc/Unify/Merge.antt =====
-- What merging periods in order of their start means: the same checkpoints are covered, and what is
-- left is apart.
use nilfs_utils.Base.{
  ℕ, ◌≤◌, ◌<◌, ◌≡◌, inl, inr, refl, ◌∙◌, Bool, false, ◌&&◌, ◌||◌, List, [], ◌∷◌, arith, ltb, leb,
  if◌then◌else◌, Bool-cases, ltb→lt, ltb→le, All,
}
use nilfs_utils.Base.Sort.{IsSortedBy}
use nilfs_utils.Gc.{Period}

-- Base and target joined.
unfoldable pub widen : Period → Period → Period
widen base target =
    if ltb base.p_end target.p_end then record base { p_end = target.p_end } else base

-- The reference: one pass over the rest of the list.
unfoldable pub merge_from : Period → List Period → List Period
merge_from base [] = base ∷ []
merge_from base (t ∷ ts) =
    let apart = base ∷ merge_from t ts in
    let joined = merge_from (widen base t) ts in if ltb base.p_end t.p_start then apart else joined

unfoldable pub merge : List Period → List Period
merge [] = []
merge (p ∷ ps) = merge_from p ps

-- Is checkpoint `c` in one of the periods?
unfoldable pub covered : ℕ → List Period → Bool
covered c [] = false
covered c (p ∷ ps) = (leb p.p_start c && ltb c p.p_end) || covered c ps

-- Each period ends before the next starts.
abbrev pub ApartFrom : Period → List Period → Type 0
ApartFrom p [] = Unit
ApartFrom p (q ∷ qs) = p.p_end < q.p_start

abbrev pub IsApart : List Period → Type 0
IsApart [] = Unit
IsApart (p ∷ ps) = ApartFrom p ps × IsApart ps

p_start-widen : (base t : Period) → (widen base t).p_start ≡ base.p_start
unfolding widen
p_start-widen base t = ground arith

ApartFrom-merge_from :
    (p base : Period) (ts : List Period) → p.p_end < base.p_start → ApartFrom p (merge_from base ts)
unfolding merge_from
ApartFrom-merge_from p base [] h = h
ApartFrom-merge_from p base (t ∷ ts) h = elim (Bool-cases (ltb base.p_end t.p_start)) [
  | inl apart ↦ rw apart h
  | inr joined ↦
      rw joined (ApartFrom-merge_from p (widen base t) ts (omega (arith, p_start-widen base t)))
]

-- Of the merged periods, each ends before the next one starts.
pub merge_from-IsApart : (base : Period) (ts : List Period) → IsApart (merge_from base ts)
unfolding merge_from
merge_from-IsApart base [] = (tt, tt)
merge_from-IsApart base (t ∷ ts) = elim (Bool-cases (ltb base.p_end t.p_start)) [
  | inl apart ↦
      rw apart (ApartFrom-merge_from base t ts (ltb→lt _ _ apart), merge_from-IsApart t ts)
  | inr joined ↦ rw joined (merge_from-IsApart (widen base t) ts)
]

-- One join, seen at one checkpoint.
covered-widen :
    (c : ℕ) (base t : Period) (ts : List Period)
    → base.p_start ≤ t.p_start
    → t.p_start ≤ base.p_end
    → covered c (widen base t ∷ ts) ≡ covered c (base ∷ t ∷ ts)
unfolding covered widen
covered-widen c base t ts order touch = ground arith

All-widen :
    (base t : Period) (ts : List Period)
    → All (λ q. base.p_start ≤ q.p_start) ts
    → All (λ q. (widen base t).p_start ≤ q.p_start) ts
All-widen base t ts h = rw (p_start-widen base t) h

covered-cons :
    (c : ℕ) (p : Period) (ps qs : List Period)
    → covered c ps ≡ covered c qs
    → covered c (p ∷ ps) ≡ covered c (p ∷ qs)
unfolding covered
covered-cons c p ps qs e = rw e refl

-- Periods in order of their start keep what they cover.
pub covered-merge_from :
    (c : ℕ) (base : Period) (ts : List Period)
    → IsSortedBy (λ p. p.p_start) (base ∷ ts)
    → covered c (merge_from base ts) ≡ covered c (base ∷ ts)
unfolding merge_from
covered-merge_from c base [] h = refl
covered-merge_from c base (t ∷ ts) ((order, all), rest) =
    elim (Bool-cases (ltb base.p_end t.p_start)) [
      | inl apart ↦ rw apart (covered-cons c base _ _ (covered-merge_from c t ts rest))
      | inr joined ↦ rw joined (
          covered-merge_from c (widen base t) ts (All-widen base t ts all, rest.1)
          ∙ covered-widen c base t ts order (ltb→le _ _ joined))
    ]
