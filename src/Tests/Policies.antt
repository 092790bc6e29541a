-- ===== src/Tests/Policies.antt =====
-- The policy of segregation, at four segments.
use mathlib.Core.List.{Perm}
use mathlib.Core.List.Perm
use nilfs_utils.Base.{
  ◌≡◌, refl, true, List, [], ◌∷◌, Bool-cases, inl, inr, arith, none, some, Option, get_elem?, ok,
  err, einval, if◌then◌else◌, pos, ltb_ℤ, ◌≤ℤ◌, All, subst, Result, ◌-ℤ◌,
}
use nilfs_utils.Segment.Bytes.{Safe}
use nilfs_utils.Gc.Select.{Suinfo, suinfo_reclaimable}
use nilfs_utils.Policy.{
  HotCold, Sources, strict_cluster_select, select_cluster, cluster, is_far, scan, scan_segment,
  hc_evaluate, classify, classify_assessed, put_candidate, put_eligible, is_protected, age_of,
}
use nilfs_utils.Policy.Eligible.{AreSafe, eligible_from}
use nilfs_utils.Policy.Whole.{IsAgeSort, Selects, strict_cluster_select-Selects}
use nilfs_utils.Tests.Daemon.{dirty, sustat, counted}

-- A sort that brings the oldest candidate to the front.
abbrev put : HotCold → List HotCold → List HotCold
put x [] = x ∷ []
put x (y ∷ ys) = if ltb_ℤ y.lastmod x.lastmod then y ∷ x ∷ ys else x ∷ y ∷ ys

abbrev oldest_to_front : List HotCold → List HotCold
oldest_to_front [] = []
oldest_to_front (x ∷ xs) = put x (oldest_to_front xs)

put-perm : (x : HotCold) (ys : List HotCold) → Perm (put x ys) (x ∷ ys)
put-perm x [] = Perm.refl (x ∷ [])
put-perm x (y ∷ ys) = elim (Bool-cases (ltb_ℤ y.lastmod x.lastmod)) [
  | inl older ↦ rw older (Perm.swap x y ys)
  | inr younger ↦ rw younger (Perm.refl (x ∷ y ∷ ys))
]

oldest_to_front-perm : (xs : List HotCold) → Perm (oldest_to_front xs) xs
oldest_to_front-perm [] = Perm.refl []
oldest_to_front-perm (x ∷ xs) =
    Perm.trans (put-perm x (oldest_to_front xs)) (Perm.cons x (oldest_to_front-perm xs))

-- The first candidate is the oldest.
abbrev Headed : List HotCold → Type 0
Headed [] = Unit
Headed (x ∷ xs) = All (λ (c : HotCold). x.lastmod ≤ℤ c.lastmod) xs

older_all :
    (x y : HotCold) (zs : List HotCold)
    → x.lastmod ≤ℤ y.lastmod
    → All (λ (c : HotCold). y.lastmod ≤ℤ c.lastmod) zs
    → All (λ (c : HotCold). x.lastmod ≤ℤ c.lastmod) zs
older_all x y [] le all = tt
older_all x y (z ∷ zs) le (h, all) = (omega arith, older_all x y zs le all)

put-Headed : (x : HotCold) (ys : List HotCold) → Headed ys → Headed (put x ys)
put-Headed x [] h = tt
put-Headed x (y ∷ ys) h = elim (Bool-cases (ltb_ℤ y.lastmod x.lastmod)) [
  | inl older ↦ rw older (ground arith, h)
  | inr younger ↦ rw younger (ground arith, older_all x y ys (ground arith) h)
]

oldest_to_front-Headed : (xs : List HotCold) → Headed (oldest_to_front xs)
oldest_to_front-Headed [] = tt
oldest_to_front-Headed (x ∷ xs) = put-Headed x (oldest_to_front xs) (oldest_to_front-Headed xs)

oldest_to_front-IsAgeSort : IsAgeSort oldest_to_front
oldest_to_front-IsAgeSort = record {
  permutes = oldest_to_front-perm;
  oldest_first = λ xs x ys e. subst Headed e (oldest_to_front-Headed xs);
}

-- Segments 0 to 3, modified at 12, at 100, at 10 and at 14; each has two live blocks.
abbrev table : List Suinfo
table =
    record dirty { sui_lastmod = 12 }
    ∷ record dirty { sui_lastmod = 100 }
    ∷ record dirty { sui_lastmod = 10 }
    ∷ record dirty { sui_lastmod = 14 }
    ∷ []

abbrev answer_of : Option Suinfo → Result Suinfo
answer_of none = err einval
answer_of (some si) = ok si

abbrev sources : Sources
sources = record {
  track_back = ok 8;
  assess = λ protseq segnum protcno. ok (some counted);
  get_suinfo = λ segnum. answer_of (get_elem? table segnum);
}

answer_of-Safe : (a : Option Suinfo) → Safe (λ si. Unit) (answer_of a)
answer_of-Safe none = tt
answer_of-Safe (some si) = tt

sources-AreSafe : AreSafe sources
sources-AreSafe = record {
  track_back = tt;
  assess = λ protseq segnum protcno. tt;
  get_suinfo = λ segnum. answer_of-Safe (get_elem? table segnum);
}

strict_cluster_select-Selects_example :
    Safe
      (Selects 5
        (oldest_to_front (eligible_from (λ n. true) sources sustat (pos 300) (pos 200) 4 0)))
      (strict_cluster_select (λ n. true) oldest_to_front sources 4 5 sustat (pos 300) (pos 200))
strict_cluster_select-Selects_example =
    strict_cluster_select-Selects (λ n. true) oldest_to_front sources 4 5 sustat (pos 300) (pos 200)
      oldest_to_front-IsAgeSort sources-AreSafe (omega arith)

-- A segment has five blocks: the three that are near the oldest one fill it.
three_selected :
    strict_cluster_select (λ n. true) oldest_to_front sources 4 5 sustat (pos 300) (pos 200)
    ≡ ok (2 ∷ 0 ∷ 3 ∷ [])
unfolding strict_cluster_select select_cluster cluster is_far scan scan_segment hc_evaluate classify
    classify_assessed put_candidate put_eligible is_protected age_of suinfo_reclaimable ◌-ℤ◌
three_selected = refl
