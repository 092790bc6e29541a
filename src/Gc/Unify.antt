-- ===== src/Gc/Unify.antt =====
-- nilfs_unify_period of lib/gc.c: sort the deletable periods by their start, and merge those that
-- overlap or touch. `qsort` is the parameter `sort`.
pub mod Merge
pub mod Loop
pub mod Laws
use nilfs_utils.Base.{
  ℕ, zero, suc, ◌+◌, ◌-◌, ◌<◌, ◌≤◌, Bool, true, false, List, [], ◌∷◌, ltb, leb, if◌then◌else◌,
  Result, ok, err, fault, ◌>>=◌, checked, take, drop, ◌++◌,
}
use nilfs_utils.Vector.{
  Vector, or_unchanged, sort_elements, get_size, get_element, put_element, delete_elements,
}
use nilfs_utils.Gc.{Period}

-- The inner loop: targets from `j` on are taken into the base at `i`. The vector, and the `j` at
-- which the loop stops.
unfoldable pub unify_inner : ℕ → Vector Period → ℕ → ℕ → Result (Vector Period × ℕ)
unify_inner zero v i j = fault
unify_inner (suc fuel) v i j =
    let next = unify_inner fuel in
    if ltb j (get_size v)
    then (checked (get_element v i) >>= λ base. checked (get_element v j) >>= λ target.
        if ltb base.p_end target.p_start
        then ok (v, j)
        else if ltb base.p_end target.p_end
        then next (put_element v i (record base { p_end = target.p_end })) i (j + 1)
        else next v i (j + 1))
    else ok (v, j)

-- The outer loop, from index `i` on.
unfoldable pub unify_outer : ℕ → Vector Period → ℕ → Result (Vector Period)
unify_outer zero v i = fault
unify_outer (suc fuel) v i =
    let next = unify_outer fuel in
    if ltb i (get_size v)
    then (do
      (w, j) ← unify_inner (suc (get_size v)) v i (i + 1)
      w' ← if ltb (i + 1) j then or_unchanged w (delete_elements w (i + 1) (j - i - 1)) else ok w
      next w' (i + 1))
    else ok v

module _ (sort : List Period → List Period) where
  -- nilfs_unify_period
  unfoldable pub unify_period : Vector Period → Result (Vector Period)
  unify_period periodv = let v = sort_elements sort periodv in unify_outer (suc (get_size v)) v 0
