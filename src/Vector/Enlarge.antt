-- ===== src/Vector/Enlarge.antt =====
-- Growth of lib/vector.c's array (nilfs_vector_enlarge): its loop ends, its sizes do not wrap, and
-- the elements stay.
use native.Mathlib.Nat.{pow-suc, mul-div-le, mul-div_right, mul-le-mul_left}
use nilfs_utils.Base.{
  ℕ, zero, suc, ◌-◌, ◌*◌, ◌/◌, ◌^◌, ◌≤◌, ◌<◌, ◌≡◌, refl, ap, ◌⊎◌, inl, inr, Bool, List, ◌++◌, arith,
  ltb, if◌then◌else◌, Bool-cases, ltb→lt, ltb→le, Result, ok, err, eoverflow, enomem, ◌>>=◌, length,
  take, replicate, u64, size_max, length-append, length-take, length-replicate,
}
use nilfs_utils.Base.Index.{get_elem?_ext, get_elem?-take, get_elem?-append}
use nilfs_utils.Vector.{Vector, IsVector, contents, factor, enlarge_loop, enlarge}

-- What the growth loop answers: it refuses, or the result is larger than before and at least
-- `minelems`, and at most twice the limit.
abbrev pub Grown : ℕ → ℕ → ℕ → Result ℕ → Type 0
Grown nelems_limit minelems maxelems r =
    (r ≡ err eoverflow)
    ⊎ ((n : ℕ) × (r ≡ ok n) × (minelems ≤ n) × (maxelems < n) × (n ≤ nelems_limit * 2))

-- One round, over what the rest of the loop answers.
Grown-round :
    (limit minelems maxelems : ℕ) (rest : Result ℕ)
    → 0 < maxelems
    → limit * 2 ≤ size_max
    → (maxelems ≤ limit → maxelems * 2 < minelems → Grown limit minelems (maxelems * 2) rest)
    → Grown limit minelems maxelems (
        if ltb limit maxelems
        then err eoverflow
        else if ltb (u64 (maxelems * factor)) minelems
        then rest
        else ok (u64 (maxelems * factor)))
Grown-round limit minelems maxelems rest pos fits more = elim (Bool-cases (ltb limit maxelems)) [
  | inl over ↦ inl (rw over)
  | inr room ↦
      let exact : u64 (maxelems * 2) ≡ maxelems * 2 = omega (arith, ltb→le limit maxelems room) in
      elim (Bool-cases (ltb (maxelems * 2) minelems)) [
        | inl small ↦
            rw (room, exact, small) (widen (more (ltb→le limit maxelems room) (ltb→lt _ _ small)))
        | inr large ↦ inr (
          maxelems * 2,
          rw (room, exact, large),
          ltb→le (maxelems * 2) minelems large,
          omega arith,
          omega (arith, ltb→le limit maxelems room),
        )
      ]
]
  where
    widen : Grown limit minelems (maxelems * 2) rest → Grown limit minelems maxelems rest
    widen (inl e) = inl e
    widen (inr (n, e, a, b, c)) = inr (n, e, a, omega arith, c)

enlarge_loop-Grown :
    (fuel nelems_limit minelems maxelems : ℕ)
    → 0 < maxelems
    → nelems_limit * 2 ≤ size_max
    → nelems_limit < maxelems * 2 ^ fuel
    → Grown nelems_limit minelems maxelems (enlarge_loop (suc fuel) nelems_limit minelems maxelems)
unfolding enlarge_loop
enlarge_loop-Grown zero limit minelems maxelems pos fits short =
    Grown-round limit minelems maxelems _ pos fits (λ a b. absurd (omega arith))
enlarge_loop-Grown (suc fuel) limit minelems maxelems pos fits short =
    let exact : maxelems ≤ limit → u64 (maxelems * 2) ≡ maxelems * 2 = λ a. omega arith in
    let rest = enlarge_loop (suc fuel) limit minelems in
    Grown-round limit minelems maxelems (rest (u64 (maxelems * 2))) pos fits λ a b. rw (exact a) (
      enlarge_loop-Grown fuel limit minelems (maxelems * 2) (omega arith) fits
        (double_pow maxelems fuel short))
  where
    double_pow : (m k : ℕ) → limit < m * 2 ^ suc k → limit < m * 2 * 2 ^ k
    double_pow m k h = omega (arith, ap (λ (t : ℕ). m * t) (pow-suc 2 k))

half_limit : (e : ℕ) → 0 < e → size_max / factor / e * 2 ≤ size_max
half_limit e h = grind arith

limit_short : (e m : ℕ) → 0 < m → size_max / factor / e < m * 2 ^ 64
limit_short e m h = grind arith

bytes_fit : (e n : ℕ) → n ≤ size_max / factor / e * 2 → e * n ≤ size_max
bytes_fit e n h =
    let q = size_max / factor / e in
    let twice : e * n ≤ e * (q * 2) = mul-le-mul_left e h in
    omega (arith, twice, mul-div-le (size_max / factor) e)

-- Slots kept by a realloc to `n` slots.
resize-keeps {ℓ} :
    {A : Type ℓ} (junk : A) (k n : ℕ) (xs : List A)
    → k ≤ length xs
    → k ≤ n
    → take k (take n xs ++ replicate (n - length xs) junk) ≡ take k xs
resize-keeps junk k n xs fits small = get_elem?_ext _ _ λ i. ground (
  arith,
  get_elem?-take k (take n xs ++ replicate (n - length xs) junk) i,
  get_elem?-append (take n xs) (replicate (n - length xs) junk) i,
  get_elem?-take k xs i,
  get_elem?-take n xs i,
  length-take n xs,
)

length-resize {ℓ} :
    {A : Type ℓ} (junk : A) (n : ℕ) (xs : List A)
    → length (take n xs ++ replicate (n - length xs) junk) ≡ n
length-resize junk n xs = omega (
  arith,
  length-append (take n xs) (replicate (n - length xs) junk),
  length-take n xs,
  length-replicate (n - length xs) junk,
)

-- A larger vector with the elements of `v`, and room for `minelems`.
pub record IsEnlarged {ℓ} {A : Type ℓ} (v : Vector A) (minelems : ℕ) (w : Vector A) : Type ℓ where
  pub valid : IsVector w
  pub same_contents : contents w ≡ contents v
  pub same_nelems : w.v_nelems ≡ v.v_nelems
  pub room : minelems ≤ w.v_maxelems
  pub more : v.v_maxelems < w.v_maxelems

-- The three answers of an operation that may grow the memory.
abbrev pub Answers {ℓ κ} : {B : Type ℓ} → (B → Type κ) → Result B → Type (ℓ ⊔ κ)
Answers {B} P r = (r ≡ err eoverflow) ⊎ (r ≡ err enomem) ⊎ ((b : B) × (r ≡ ok b) × P b)

-- A step that may fail, then the rest.
pub Answers-bind {ℓ κ} :
    {B C : Type ℓ} {P : B → Type κ} {Q : C → Type κ} (m : Result B) (f : B → Result C)
    → Answers P m
    → ((b : B) → P b → Answers Q (f b))
    → Answers Q (m >>= f)
Answers-bind m f (inl over) h = inl (rw over refl)
Answers-bind m f (inr (inl denied)) h = inr (inl (rw denied refl))
Answers-bind m f (inr (inr (b, ran, p))) h = rw ran (h b p)

pub Answers-map {ℓ κ} :
    {B : Type ℓ} {P Q : B → Type κ} {r : Result B}
    → ((b : B) → P b → Q b)
    → Answers P r
    → Answers Q r
Answers-map h (inl over) = inl over
Answers-map h (inr (inl denied)) = inr (inl denied)
Answers-map h (inr (inr (b, ran, p))) = inr (inr (b, ran, h b p))

module _ {ℓ} {A : Type ℓ} (alloc : ℕ → Bool) (junk : A) where
  -- On a well-formed vector, nilfs_vector_enlarge returns: with EOVERFLOW, with ENOMEM, or with a
  -- well-formed vector that has the same elements, more room than before and room for `minelems`.
  pub enlarge-IsEnlarged :
      (v : Vector A) (minelems : ℕ)
      → IsVector v
      → Answers (IsEnlarged v minelems) (enlarge alloc junk v minelems)
  unfolding enlarge
  enlarge-IsEnlarged v minelems valid =
      elim (enlarge_loop-Grown 64 (size_max / factor / v.v_elemsize) minelems v.v_maxelems
        valid.roomy (half_limit v.v_elemsize valid.elem)
        (limit_short v.v_elemsize v.v_maxelems valid.roomy)) [
          | inl over ↦ inl (rw over)
          | inr (n, grown, large, more, small) ↦
              let fits : v.v_elemsize * n ≤ size_max = bytes_fit v.v_elemsize n small in
              let exact : u64 (v.v_elemsize * n) ≡ v.v_elemsize * n = omega arith in
              elim (Bool-cases (alloc (v.v_elemsize * n))) [
                | inl given ↦ inr (
                    inr (
                      record v {
                        v_data = take n v.v_data ++ replicate (n - length v.v_data) junk;
                        v_maxelems = n;
                      },
                      rw (grown, exact, given, mul-div_right n valid.elem),
                      record {
                        valid = record {
                          sized = length-resize junk n v.v_data;
                          within = omega (arith, valid.within);
                          roomy = omega arith;
                          elem = valid.elem;
                          bytes = fits;
                        };
                        same_contents =
                            resize-keeps junk v.v_nelems n v.v_data
                              (omega (arith, valid.sized, valid.within))
                              (omega (arith, valid.within));
                        same_nelems = refl;
                        room = large;
                        more = more;
                      },
                    ))
                | inr denied ↦ inr (inl (rw (grown, exact, denied)))
              ]
        ]
