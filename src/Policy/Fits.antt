-- ===== src/Policy/Fits.antt =====
-- The candidates of a policy keep the bound of their fields when the array grows or is sorted.
use mathlib.Core.List.{Perm, Permᴰ}
use mathlib.Core.Logic.{∥∥₁_elim}
use native.Mathlib.Nat.{ℕ_set}
use nilfs_utils.Base.{
  ltb, ℕ, ◌+◌, ◌^◌, ◌≡◌, refl, ap, ◌∙◌, arith, List, [], ◌∷◌, ◌++◌, if◌then◌else◌, All,
}
use nilfs_utils.Policy.{HotCold}
use nilfs_utils.Policy.Cluster.{Fits}

pub All-append : (xs ys : List HotCold) → All Fits xs → All Fits ys → All Fits (xs ++ ys)
All-append [] ys fit fits = fits
All-append (x ∷ xs) ys (f, fit) fits = (f, All-append xs ys fit fits)

-- How many candidates do not fit.
abbrev unfit : List HotCold → ℕ
unfit [] = 0
unfit (c ∷ cs) = (if ltb c.live_blocks (2 ^ 32) then 0 else 1) + unfit cs

abbrev weight : HotCold → ℕ
weight c = if ltb c.live_blocks (2 ^ 32) then 0 else 1

unfit-permᴰ : {xs ys : List HotCold} → Permᴰ xs ys → unfit xs ≡ unfit ys
unfit-permᴰ Permᴰ.nil = refl
unfit-permᴰ (Permᴰ.cons e p) = omega (arith, unfit-permᴰ p, ap weight e)
unfit-permᴰ (Permᴰ.swap e f) = omega (arith, ap weight e, ap weight f)
unfit-permᴰ (Permᴰ.trans p q) = unfit-permᴰ p ∙ unfit-permᴰ q

unfit-zero : (xs : List HotCold) → All Fits xs → unfit xs ≡ 0
unfit-zero [] fit = refl
unfit-zero (c ∷ cs) (fits, fit) = ground (arith, unfit-zero cs fit)

zero-unfit : (xs : List HotCold) → unfit xs ≡ 0 → All Fits xs
zero-unfit [] none_left = tt
zero-unfit (c ∷ cs) none_left = (ground arith, zero-unfit cs (ground arith))

pub Fits-perm : {xs ys : List HotCold} → Perm xs ys → All Fits ys → All Fits xs
Fits-perm {xs = xs} {ys = ys} p fit =
    zero-unfit xs (∥∥₁_elim p (ℕ_set _ _) unfit-permᴰ ∙ unfit-zero ys fit)
