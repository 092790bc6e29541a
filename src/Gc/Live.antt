-- ===== src/Gc/Live.antt =====
-- nilfs_vdesc_is_live of lib/gc.c: is a virtual block still wanted? It is one function in the
-- source; its loop is `live_search` here. A read outside the snapshot array is a `fault`.
pub mod Search
use nilfs_utils.Base.{
  ℕ, zero, suc, ◌+◌, ◌-◌, ◌/◌, ◌<◌, Bool, true, false, ◌&&◌, ◌||◌, Option, none, some, List, [],
  ◌∷◌, ltb, leb, ◌==◌, if◌then◌else◌, Result, ok, fault, checked, ◌>>=◌, length, get_elem?, All,
}
use nilfs_utils.Gc.{Vdesc, cno_max}

-- ss[i]
abbrev pub at : List ℕ → ℕ → Result ℕ
at ss i = checked (get_elem? ss i)

-- The binary search over ss[low] .. ss[high]. `upto` is `high + 1`, so that it stays a natural
-- number. The answer comes with the new `*last_hit`.
unfoldable pub live_search : ℕ → List ℕ → ℕ → ℕ → ℕ → ℕ → ℕ → Result (Bool × ℕ)
live_search zero ss p_start p_end last_hit low upto = fault
live_search (suc fuel) ss p_start p_end last_hit low upto =
    let index = (low + (upto - 1)) / 2 in
    let right = live_search fuel ss p_start p_end last_hit (index + 1) upto in
    let left = live_search fuel ss p_start p_end last_hit low index in
    if ltb low upto
    then (at ss index >>= λ s.
        if ltb s p_start then right else if leb p_end s then left else ok (true, s))
    else ok (false, last_hit)

-- The part of the function after its tests on the block alone.
unfoldable pub live_by_snapshot : List ℕ → ℕ → ℕ → ℕ → Result (Bool × ℕ)
live_by_snapshot [] p_start p_end last_hit = ok (false, last_hit)
live_by_snapshot (s ∷ rest) p_start p_end last_hit =
    let ss = s ∷ rest in
    at ss (length ss - 1) >>= λ last.
    if ltb last p_start || leb p_end s
    then ok (false, last_hit)
    else if leb p_start last_hit && ltb last_hit p_end
    then ok (true, last_hit)
    else live_search (suc (length ss)) ss p_start p_end last_hit 0 (length ss)

-- nilfs_vdesc_is_live: is the block live, and the new `*last_hit`
unfoldable pub vdesc_is_live : Vdesc → ℕ → List ℕ → ℕ → Result (Bool × ℕ)
vdesc_is_live vdesc protect ss last_hit =
    let period = vdesc.vd_period in
    if vdesc.vd_cno == 0
    then ok (period.p_end == cno_max, last_hit)
    else if period.p_end == vdesc.vd_cno
    then ok (false, last_hit)
    else if period.p_end == cno_max || ltb protect period.p_end
    then ok (true, last_hit)
    else live_by_snapshot ss period.p_start period.p_end last_hit

-- The documented judgement, with no search: some snapshot lies in the period.
unfoldable pub any_within : List ℕ → ℕ → ℕ → Bool
any_within [] p_start p_end = false
any_within (s ∷ ss) p_start p_end = (leb p_start s && ltb s p_end) || any_within ss p_start p_end

unfoldable pub live_reference : Vdesc → ℕ → List ℕ → Bool
live_reference vdesc protect ss =
    let period = vdesc.vd_period in
    if vdesc.vd_cno == 0
    then period.p_end == cno_max
    else if period.p_end == vdesc.vd_cno
    then false
    else period.p_end == cno_max
      || ltb protect period.p_end
      || any_within ss period.p_start period.p_end

-- Strictly ascending, as nilfs_get_snapshot makes sure.
abbrev pub IsAscending : List ℕ → Type 0
IsAscending [] = Unit
IsAscending (s ∷ ss) = All (λ t. s < t) ss × IsAscending ss
