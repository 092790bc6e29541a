-- ===== src/Segment/Bytes.antt =====
-- Little-endian fields in memory (le16_to_cpu, le32_to_cpu, le64_to_cpu of include/compat.h), and
-- what holds of every read.
use Prim.Native.Nat.{ℕ, zero, suc, ◌+◌, ◌*◌, ◌≤◌, ◌<◌}
use mathlib.Core.Path.{◌≡◌, refl, ◌∙◌}
use mathlib.Core.List.{List, [], ◌∷◌}
use mathlib.Core.Option.{Option, some, none}
use nilfs_utils.Base.Index.{get_elem?-take}
use nilfs_utils.Base.{
  ltb, ◌⊎◌, inl, inr, Errno, arith, Result, ok, err, fault, ◌>>=◌, checked, length, get_elem?, take,
  drop, leb, if◌then◌else◌, All,
}

-- The number in the `n` bytes at a position.
unfoldable pub le : ℕ → List ℕ → ℕ → Result ℕ
le zero bytes at = ok 0
le (suc n) bytes at =
    checked (get_elem? bytes at) >>= λ b. le n bytes (at + 1) >>= λ high. ok (b + 256 * high)

abbrev pub le16 : List ℕ → ℕ → Result ℕ
le16 = le 2

abbrev pub le32 : List ℕ → ℕ → Result ℕ
le32 = le 4

abbrev pub le64 : List ℕ → ℕ → Result ℕ
le64 = le 8

-- The `n` bytes at a position.
unfoldable pub slice : List ℕ → ℕ → ℕ → Result (List ℕ)
slice bytes at n = if leb (at + n) (length bytes) then ok (take n (drop at bytes)) else fault

-- No fault, and a value that `P` holds of.
abbrev pub Safe {ℓ} : {A : Type ℓ} → (A → Type 0) → Result A → Type 0
Safe P (ok a) = P a
Safe P (err e) = Unit
Safe P fault = ⊥

pub Safe-bind {ℓ κ} :
    {A : Type ℓ} {B : Type κ} {P : A → Type 0} (Q : B → Type 0) (m : Result A) (f : A → Result B)
    → Safe P m
    → ((a : A) → P a → Safe Q (f a))
    → Safe Q (m >>= f)
Safe-bind Q (ok a) f s h = h a s
Safe-bind Q (err e) f s h = tt
Safe-bind Q fault f s h = absurd s

pub Safe-cases {ℓ} :
    {A : Type ℓ} {P : A → Type 0} (m : Result A)
    → Safe P m
    → ((a : A) × (m ≡ ok a) × P a) ⊎ ((e : Errno) × (m ≡ err e))
Safe-cases (ok a) s = inl (a, refl, s)
Safe-cases (err e) s = inr (e, refl)
Safe-cases fault s = absurd s

pub Safe-map {ℓ} :
    {A : Type ℓ} {P Q : A → Type 0} (m : Result A) → ((a : A) → P a → Q a) → Safe P m → Safe Q m
Safe-map (ok a) f p = f a p
Safe-map (err e) f p = p
Safe-map fault f p = p

-- As `Safe`, but a fault may have the cause `F`.
abbrev pub SafeOr {ℓ} : {A : Type ℓ} → Type 0 → (A → Type 0) → Result A → Type 0
SafeOr F P (ok a) = P a
SafeOr F P (err e) = Unit
SafeOr F P fault = F

pub SafeOr-bind {ℓ κ} :
    {A : Type ℓ} {B : Type κ} {P : A → Type 0} (F : Type 0) (Q : B → Type 0) (m : Result A)
    (f : A → Result B)
    → SafeOr F P m
    → ((a : A) → P a → SafeOr F Q (f a))
    → SafeOr F Q (m >>= f)
SafeOr-bind F Q (ok a) f s h = h a s
SafeOr-bind F Q (err e) f s h = tt
SafeOr-bind F Q fault f s h = s

pub Safe-SafeOr {ℓ} :
    {A : Type ℓ} (F : Type 0) (P : A → Type 0) (m : Result A) → Safe P m → SafeOr F P m
Safe-SafeOr F P (ok a) s = s
Safe-SafeOr F P (err e) s = tt
Safe-SafeOr F P fault s = absurd s

-- A call that may fault is a cause where it does.
pub fault-SafeOr {ℓ} :
    {A : Type ℓ} (F : Type 0) (m : Result A) → (m ≡ fault → F) → SafeOr F (λ a. Unit) m
fault-SafeOr F (ok a) f = tt
fault-SafeOr F (err e) f = tt
fault-SafeOr F fault f = f refl

pub Result-cases {ℓ} :
    {A : Type ℓ} (m : Result A) → ((a : A) × (m ≡ ok a)) ⊎ ((e : Errno) × (m ≡ err e)) ⊎ (m ≡ fault)
Result-cases (ok a) = inl (a, refl)
Result-cases (err e) = inr (inl (e, refl))
Result-cases fault = inr (inr refl)

abbrev pub IsByte : ℕ → Type 0
IsByte b = b < 256

-- 256 ^ n
abbrev pub cap : ℕ → ℕ
cap zero = 1
cap (suc n) = 256 * cap n

get_elem?-byte :
    (bytes : List ℕ) (i : ℕ)
    → All IsByte bytes
    → i < length bytes
    → (b : ℕ) × (get_elem? bytes i ≡ some b) × (b < 256)
get_elem?-byte [] i fine inside = absurd (omega arith)
get_elem?-byte (b ∷ bytes) zero (small, fine) inside = (b, refl, small)
get_elem?-byte (b ∷ bytes) (suc i) (small, fine) inside = get_elem?-byte bytes i fine (omega arith)

-- A field that lies inside is read, and below the bound of its width.
pub le-Safe :
    (n : ℕ) (bytes : List ℕ) (at : ℕ)
    → All IsByte bytes
    → at + n ≤ length bytes
    → (v : ℕ) × (le n bytes at ≡ ok v) × (v < cap n)
unfolding le
le-Safe zero bytes at fine inside = (0, refl, omega arith)
le-Safe (suc n) bytes at fine inside =
    let (b, read, small) = get_elem?-byte bytes at fine (omega arith) in
    let (high, more, less) = le-Safe n bytes (at + 1) fine (omega arith) in
    (b + 256 * high, rw (read, more) refl, omega arith)

pub slice-Safe :
    (bytes : List ℕ) (at n : ℕ)
    → at + n ≤ length bytes
    → slice bytes at n ≡ ok (take n (drop at bytes))
unfolding slice
slice-Safe bytes at n inside = ground arith

-- Bytes before the end of a prefix are those of the whole.
pub le-take :
    (n k : ℕ) (bytes : List ℕ) (at : ℕ) → at + n ≤ k → le n (take k bytes) at ≡ le n bytes at
unfolding le
le-take zero k bytes at inside = refl
le-take (suc n) k bytes at inside =
    let first : get_elem? (take k bytes) at ≡ get_elem? bytes at =
      get_elem?-take k bytes at ∙ if_below at k (get_elem? bytes at) (omega arith) in
    rw (first, le-take n k bytes (at + 1) (omega arith)) refl
  where
    if_below : (i k : ℕ) (a : Option ℕ) → i < k → (if ltb i k then a else none) ≡ a
    if_below i k a less = ground arith

pub All-slice : (bytes : List ℕ) (at n : ℕ) → All IsByte bytes → All IsByte (take n (drop at bytes))
All-slice [] zero zero fine = tt
All-slice [] zero (suc n) fine = tt
All-slice [] (suc at) zero fine = tt
All-slice [] (suc at) (suc n) fine = tt
All-slice (b ∷ bytes) zero zero fine = tt
All-slice (b ∷ bytes) zero (suc n) (small, fine) = (small, All-slice bytes zero n fine)
All-slice (b ∷ bytes) (suc at) n (small, fine) = All-slice bytes at n fine
