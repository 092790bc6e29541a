-- ===== src/Vector/Edit/Insert.antt =====
-- nilfs_vector_insert_elements: a gap of fresh slots opens at the index, and nothing else moves out
-- of order.
use nilfs_utils.Base.{
  ℕ, ◌+◌, ◌-◌, ◌≤◌, ◌≡◌, refl, ap, ◌∙◌, sym, inl, inr, Bool, false, List, ◌++◌, arith, ltb,
  if◌then◌else◌, Bool-cases, ltb→le, Result, ok, ◌>>=◌, length, take, drop, u64, sub64, size_max,
  length-take, length-drop,
}
use nilfs_utils.Base.Cut.{take-append, take-append_le, take-take, drop-take, drop-append}
use nilfs_utils.Vector.{Vector, IsVector, contents, memmove, insert_elements, enlarge}
use nilfs_utils.Vector.Enlarge.{Answers, enlarge-IsEnlarged}
use nilfs_utils.Vector.Edit.{memmove_ok, length-memmove}

-- `r` is the index `i`, and `v` with `n` fresh elements before its element `i`.
pub record IsInserted {ℓ} {A : Type ℓ} (v : Vector A) (i n : ℕ) (r : ℕ × Vector A) : Type ℓ where
  pub index : r.0 ≡ i
  pub valid : IsVector r.1
  pub before : take i (contents r.1) ≡ take i (contents v)
  pub behind : drop (i + n) (contents r.1) ≡ drop i (contents v)
  pub more : (r.1).v_nelems ≡ v.v_nelems + n

-- `w` holds what `v` holds.
record IsEnough {ℓ} {A : Type ℓ} (v w : Vector A) : Type ℓ where
  valid : IsVector w
  same_contents : contents w ≡ contents v
  same_nelems : w.v_nelems ≡ v.v_nelems

module _ {ℓ} {A : Type ℓ} where
  shifted :
      (xs : List A) (i n k : ℕ)
      → i + n + k ≤ length xs
      → take (i + n + k) (take (i + n) xs ++ (take k (drop i xs) ++ drop (i + n + k) xs))
        ≡ take (i + n) xs ++ take k (drop i xs)
  shifted xs i n k fits =
      rw
        (
          take-append (take (i + n) xs) (take k (drop i xs) ++ drop (i + n + k) xs) (i + n) k
              (omega (arith, length-take (i + n) xs)),
          take-append_le (take k (drop i xs)) (drop (i + n + k) xs) k
              (omega (arith, length-take k (drop i xs), length-drop i xs)),
          take-take (drop i xs) k k (omega arith),
        )
        refl

  -- The memory after the move, when there is something to move.
  gap_before :
      (xs : List A) (i n k : ℕ)
      → i + n + k ≤ length xs
      → take i (take (i + n) xs ++ take k (drop i xs)) ≡ take i (take (i + k) xs)
  gap_before xs i n k fits =
      rw
        (
          take-append_le (take (i + n) xs) (take k (drop i xs)) i
              (omega (arith, length-take (i + n) xs)),
          take-take xs i (i + n) (omega arith),
          take-take xs i (i + k) (omega arith),
        )
        refl

  gap_behind :
      (xs : List A) (i n k : ℕ)
      → i + n + k ≤ length xs
      → drop (i + n) (take (i + n) xs ++ take k (drop i xs)) ≡ drop i (take (i + k) xs)
  gap_behind xs i n k fits =
      let e : i + n ≡ i + n + 0 = omega arith in
      ap (λ t. drop t (take (i + n) xs ++ take k (drop i xs))) e
      ∙ drop-append (take (i + n) xs) (take k (drop i xs)) (i + n) 0
          (omega (arith, length-take (i + n) xs))
      ∙ sym (drop-take xs i (i + k) k refl)

  -- The memory after the call, once there is room: `slots` is what it holds.
  opened-IsInserted :
      (v w : Vector A) (i n : ℕ) (slots : List A)
      → IsEnough v w
      → i ≤ w.v_nelems
      → w.v_nelems + n ≤ w.v_maxelems
      → length slots ≡ length w.v_data
      → take i (take (w.v_nelems + n) slots) ≡ take i (contents w)
      → drop (i + n) (take (w.v_nelems + n) slots) ≡ drop i (contents w)
      → IsInserted v i n (i, record w { v_data = slots; v_nelems = w.v_nelems + n })
  opened-IsInserted v w i n slots enough inside room same_length before behind = record {
    index = refl;
    valid = record {
      sized = same_length ∙ enough.valid.sized;
      within = room;
      roomy = enough.valid.roomy;
      elem = enough.valid.elem;
      bytes = enough.valid.bytes;
    };
    before = before ∙ ap (take i) enough.same_contents;
    behind = behind ∙ ap (drop i) enough.same_contents;
    more = ap (λ t. t + n) enough.same_nelems;
  }

  -- The second half of the call, from the vector with room.
  insert_into : Vector A → ℕ → ℕ → Result (ℕ × Vector A)
  insert_into w i n = do
    slots ← if ltb i w.v_nelems then memmove w.v_data (i + n) i (w.v_nelems - i) else ok w.v_data
    ok (i, record w { v_data = slots; v_nelems = w.v_nelems + n })

  insert_into-IsInserted :
      (v w : Vector A) (i n : ℕ)
      → IsEnough v w
      → i ≤ w.v_nelems
      → w.v_nelems + n ≤ w.v_maxelems
      → (r : ℕ × Vector A) × (insert_into w i n ≡ ok r) × IsInserted v i n r
  unfolding insert_into
  insert_into-IsInserted v w i n enough inside room = elim (Bool-cases (ltb i w.v_nelems)) [
    | inl move ↦
        let xs = w.v_data in
        let k = w.v_nelems - i in
        let e : w.v_nelems + n ≡ i + n + k = omega arith in
        let e' : i + k ≡ w.v_nelems = omega arith in
        let fits : i + n + k ≤ length xs = omega (arith, enough.valid.sized) in
        let src_fits : i + k ≤ length xs = omega arith in
        (
          (
            i,
            record w {
              v_data = take (i + n) xs ++ (take k (drop i xs) ++ drop (i + n + k) xs);
              v_nelems = w.v_nelems + n;
            },
          ),
          rw (move, memmove_ok xs (i + n) i k src_fits fits) refl,
          opened-IsInserted v w i n _ enough inside room
              (length-memmove xs (i + n) i k src_fits fits)
              (ap
                  (λ m.
                    take i
                      (take m (take (i + n) xs ++ (take k (drop i xs) ++ drop (i + n + k) xs))))
                  e
                ∙ ap (take i) (shifted xs i n k fits)
                ∙ gap_before xs i n k fits
                ∙ ap (λ m. take i (take m xs)) e')
              (ap
                  (λ m.
                    drop (i + n)
                      (take m (take (i + n) xs ++ (take k (drop i xs) ++ drop (i + n + k) xs))))
                  e
                ∙ ap (drop (i + n)) (shifted xs i n k fits)
                ∙ gap_behind xs i n k fits
                ∙ ap (λ m. drop i (take m xs)) e'),
        )
    | inr at_end ↦
        let e : w.v_nelems ≡ i = omega (arith, ltb→le i w.v_nelems at_end) in
        (
          (i, record w { v_nelems = w.v_nelems + n }),
          rw at_end refl,
          opened-IsInserted v w i n w.v_data enough inside room refl
              (take-take w.v_data i (w.v_nelems + n) (omega arith)
                ∙ sym (take-take w.v_data i w.v_nelems inside))
              (drop-take w.v_data (i + n) (w.v_nelems + n) 0 (omega arith)
                ∙ sym (drop-take w.v_data i w.v_nelems 0 (omega arith))),
        )
  ]

module _ {ℓ} {A : Type ℓ} (alloc : ℕ → Bool) (junk : A) where
  -- With sizes in range no word wraps.
  insert_elements_exact :
      (v : Vector A) (i n : ℕ)
      → i ≤ v.v_nelems
      → v.v_nelems + n ≤ size_max
      → insert_elements alloc junk v i n ≡ (
          (if ltb v.v_maxelems (v.v_nelems + n)
            then enlarge alloc junk v (v.v_nelems + n)
            else ok v)
          >>= λ w. do
            slots ←
                if ltb i w.v_nelems
                then memmove w.v_data (i + n) i (sub64 w.v_nelems i)
                else ok w.v_data
            ok (i, record w { v_data = slots; v_nelems = u64 (w.v_nelems + n) }))
  unfolding insert_elements
  insert_elements_exact v i n inside fits =
      let a : ltb v.v_nelems i ≡ false = ground arith in
      let b : sub64 size_max v.v_nelems ≡ size_max - v.v_nelems = omega arith in
      let c : ltb (size_max - v.v_nelems) n ≡ false = ground arith in
      let d : u64 (v.v_nelems + n) ≡ v.v_nelems + n = omega arith in
      let e : u64 (i + n) ≡ i + n = omega arith in rw (a, b, c, d, e) refl

  no_wrap :
      (w : Vector A) (i n : ℕ)
      → i ≤ w.v_nelems
      → w.v_nelems + n ≤ size_max
      → (do
        slots ←
            if ltb i w.v_nelems
            then memmove w.v_data (i + n) i (sub64 w.v_nelems i)
            else ok w.v_data
        ok (i, record w { v_data = slots; v_nelems = u64 (w.v_nelems + n) }))
        ≡ insert_into w i n
  unfolding insert_into
  no_wrap w i n inside fits =
      let a : sub64 w.v_nelems i ≡ w.v_nelems - i = omega arith in
      let b : u64 (w.v_nelems + n) ≡ w.v_nelems + n = omega arith in rw (a, b) refl

  -- On a well-formed vector, at an index not past its end and with a count that does not overflow,
  -- nilfs_vector_insert_elements ends in EOVERFLOW, in ENOMEM, or in a well-formed vector with
  -- `n` elements more, where those before the index are as they were and the others follow the gap.
  pub insert_elements-IsInserted :
      (v : Vector A) (i n : ℕ)
      → IsVector v
      → i ≤ v.v_nelems
      → v.v_nelems + n ≤ size_max
      → Answers (IsInserted v i n) (insert_elements alloc junk v i n)
  insert_elements-IsInserted v i n valid inside fits =
      rw (insert_elements_exact v i n inside fits)
        (elim (Bool-cases (ltb v.v_maxelems (v.v_nelems + n))) [
          | inl full ↦ elim (enlarge-IsEnlarged alloc junk v (v.v_nelems + n) valid) [
            | inl over ↦ inl (rw (full, over))
            | inr (inl denied) ↦ inr (inl (rw (full, denied)))
            | inr (inr (w, grown, larger)) ↦
                let count : w.v_nelems ≡ v.v_nelems = larger.same_nelems in
                inr (
                  inr (
                    rw (full, grown, no_wrap w i n (omega arith) (omega arith))
                      (insert_into-IsInserted v w i n
                        (record {
                          valid = larger.valid;
                          same_contents = larger.same_contents;
                          same_nelems = count;
                        })
                        (omega arith) (omega (arith, larger.room)))))
          ]
          | inr room ↦ inr (
              inr (
                rw (room, no_wrap v i n inside fits)
                  (insert_into-IsInserted v v i n
                    (record { valid = valid; same_contents = refl; same_nelems = refl }) inside
                    (ltb→le v.v_maxelems (v.v_nelems + n) room))))
        ])
