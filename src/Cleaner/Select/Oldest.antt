-- ===== src/Cleaner/Select/Oldest.antt =====
-- The first pass of nilfs_cleanerd_select_segments of sbin/cleanerd.c, which looks for the oldest time,
-- over a table of all segments.
use nilfs_utils.Base.{
  ℕ, zero, suc, ◌+◌, ◌-◌, ◌≤◌, ◌<◌, min, ◌≡◌, refl, sym, ap, ◌∙◌, inl, inr, false, ◌==◌,
  if◌then◌else◌, Bool-cases, arith, List, [], ◌∷◌, Result, ok, length, take, drop, ltb, length-take,
  length-drop,
}
use nilfs_utils.Base.Cut.{drop-drop, drop_end}
use nilfs_utils.Gc.Select.{Suinfo, suinfo_reclaimable}
use nilfs_utils.Cleaner.Check.{nsuinfo}
use nilfs_utils.Cleaner.Check.Count.{Reads, drop-length-take}
use nilfs_utils.Cleaner.Select.{oldest_of, oldest_loop, null_oldest}

pub oldest_of-append :
    (k : ℕ) (sis : List Suinfo) (o : ℕ)
    → oldest_of (drop k sis) (oldest_of (take k sis) o) ≡ oldest_of sis o
unfolding oldest_of
oldest_of-append zero sis o = refl
oldest_of-append (suc k) [] o = refl
oldest_of-append (suc k) (si ∷ sis) o = oldest_of-append k sis _

-- One record of the first pass.
abbrev older : Suinfo → ℕ → ℕ
older si o =
    if suinfo_reclaimable si then (if ltb si.sui_lastmod o then si.sui_lastmod else o) else o

oldest_of-le : (sis : List Suinfo) (o : ℕ) → oldest_of sis o ≤ o
unfolding oldest_of
oldest_of-le [] o = omega arith
oldest_of-le (si ∷ sis) o =
    let le : older si o ≤ o = ground arith in omega (arith, oldest_of-le sis (older si o), le)

pub oldest_of-fixed : (sis : List Suinfo) (o p : ℕ) → p ≤ oldest_of sis o → oldest_of sis p ≡ p
unfolding oldest_of
oldest_of-fixed [] o p h = refl
oldest_of-fixed (si ∷ sis) o p h =
    let le : p ≤ older si o = omega (arith, oldest_of-le sis (older si o)) in
    let same : older si p ≡ p = ground arith in rw same (oldest_of-fixed sis (older si o) p h)

-- The rest of a table after an answer of `k` records.
pub drop-answer :
    (table : List Suinfo) (segnum k : ℕ)
    → drop k (drop segnum table) ≡ drop (segnum + length (take k (drop segnum table))) table
drop-answer table segnum k = sym (drop-length-take k (drop segnum table)) ∙ drop-drop table segnum _

module _ (get_suinfo : ℕ → ℕ → Result (List Suinfo)) (table : List Suinfo)
    (reads : Reads get_suinfo table) where
  oldest_loop_lem :
      (fuel segnum o : ℕ)
      → length table - segnum < fuel
      → segnum ≤ length table
      → oldest_loop get_suinfo (length table) fuel segnum o ≡ ok (oldest_of (drop segnum table) o)
  unfolding oldest_loop oldest_of
  oldest_loop_lem zero segnum o enough inside = absurd (omega arith)
  oldest_loop_lem (suc fuel) segnum o enough inside =
      elim (Bool-cases (ltb segnum (length table))) [
        | inl more ↦
            let (k, answer, one, most) =
              reads.answers segnum (min (length table - segnum) nsuinfo) (ground arith)
                (ground arith) in
            let sis = take k (drop segnum table) in
            let long : length sis ≡ min k (length table - segnum) =
              length-take k (drop segnum table) ∙ ap (min k) (length-drop segnum table) in
            let some_ : (length sis == 0) ≡ false = ground (arith, long) in
            rw (more, answer, some_)
              (oldest_loop_lem fuel (segnum + length sis) (oldest_of sis o) (ground (arith, long))
                  (ground (arith, long))
                ∙ ap ok (
                    ap (λ xs. oldest_of xs (oldest_of sis o)) (sym (drop-answer table segnum k))
                    ∙ oldest_of-append k (drop segnum table) o))
        | inr done ↦ rw (done, drop_end table segnum (ground arith)) refl
      ]

pub oldest_loop_sized :
    (get_suinfo : ℕ → ℕ → Result (List Suinfo)) (table : List Suinfo)
    → Reads get_suinfo table
    → (n : ℕ) → n ≡ length table
    → oldest_loop get_suinfo n (suc n) 0 null_oldest ≡ ok (oldest_of table null_oldest)
oldest_loop_sized get_suinfo table reads n sized = rw sized (
    oldest_loop_lem get_suinfo table reads (suc (length table)) 0 null_oldest (omega arith)
      (omega arith))
