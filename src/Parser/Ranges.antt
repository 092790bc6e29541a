-- ===== src/Parser/Ranges.antt =====
-- nilfs_parse_cno_range reads the four ways to write a range.
use nilfs_utils.Base.{
  ℕ, suc, ◌+◌, ◌<◌, ◌≡◌, refl, ap, subst, Bool, true, false, none, some, List, [], ◌∷◌, ◌++◌, ltb,
  ◌==◌, arith, ok, length, drop, All, lt→ltb,
}
use mathlib.Core.List.{append-nil}
use nilfs_utils.Base.Cut.{drop-append}
use nilfs_utils.Gc.{cno_max}
use nilfs_utils.Parser.{
  cno_min, minus_sign, dot, starts_with, find_dots, count_spaces, parse_cno, reads_to,
  parse_cno_range,
}

-- What may follow a number: the end, or a dot.
abbrev pub IsEnd : List ℕ → Type 0
IsEnd [] = Unit
IsEnd (c ∷ text) = c ≡ dot

module _ (isspace : ℕ → Bool) (strtoull : List ℕ → ℕ × ℕ) where
  -- `c ∷ text` is how the number is written: strtoull reads it up to the end or a dot, and it holds no
  -- dot and does not start with a space or a minus sign.
  pub record IsNumeral (c : ℕ) (text : List ℕ) (number : ℕ) : Type 0 where
    pub no_space : isspace c ≡ false
    pub no_sign : (c == minus_sign) ≡ false
    pub no_dot : All (λ d. (d == dot) ≡ false) (c ∷ text)
    pub below : number < cno_max
    pub reads :
        (rest : List ℕ) → IsEnd rest → strtoull (c ∷ text ++ rest) ≡ (number, suc (length text))

  find_dots-none : (text : List ℕ) → All (λ d. (d == dot) ≡ false) text → find_dots text ≡ none
  unfolding find_dots
  find_dots-none [] all = refl
  find_dots-none (c ∷ text) (no_dot, all) = rw (no_dot, find_dots-none text all) refl

  find_dots-some :
      (text rest : List ℕ)
      → All (λ d. (d == dot) ≡ false) text
      → find_dots (text ++ dot ∷ dot ∷ rest) ≡ some (length text)
  unfolding find_dots starts_with
  find_dots-some [] rest all = refl
  find_dots-some (c ∷ text) rest (no_dot, all) = rw (no_dot, find_dots-some text rest all) refl

  parse_cno-numeral :
      (c : ℕ) (text rest : List ℕ) (number : ℕ)
      → IsNumeral c text number
      → IsEnd rest
      → parse_cno isspace strtoull (c ∷ text ++ rest) ≡ (number, some (suc (length text)))
  unfolding parse_cno count_spaces starts_with
  parse_cno-numeral c text rest number numeral end =
      rw (numeral.no_space, numeral.no_sign, numeral.reads rest end)
        (let sum : 0 + suc (length text) ≡ suc (length text) = omega arith in
          ap (λ k. (number, some k)) sum)

  parse_cno-whole :
      (c : ℕ) (text : List ℕ) (number : ℕ)
      → IsNumeral c text number
      → parse_cno isspace strtoull (c ∷ text) ≡ (number, some (suc (length text)))
  parse_cno-whole c text number numeral =
      subst (λ t. parse_cno isspace strtoull (c ∷ t) ≡ (number, some (suc (length text))))
        (append-nil text) (parse_cno-numeral c text [] number numeral tt)

  reads_to-numeral :
      (k number : ℕ) → number < cno_max → reads_to isspace strtoull k (number, some k) ≡ true
  unfolding reads_to
  reads_to-numeral k number below =
      let small : ltb number cno_max ≡ true = lt→ltb number cno_max below in
      let same : (k == k) ≡ true = ground arith in rw (small, same) refl

  drop-dots :
      (c : ℕ) (text rest : List ℕ)
      → drop (suc (length text) + 2) (c ∷ text ++ dot ∷ dot ∷ rest) ≡ rest
  drop-dots c text rest = drop-append (c ∷ text) (dot ∷ dot ∷ rest) (suc (length text)) 2 refl

  -- Let the C library read `a ∷ as_` as the number m and `b ∷ bs` as n, both below the greatest
  -- checkpoint number. Then nilfs_parse_cno_range takes "m" for the range from m to m, "m.." for
  -- that from m to the greatest number, "..n" for that from the least number to n, and "m..n" for
  -- that from m to n.
  pub parse_cno_range_lem :
      (a : ℕ) (as_ : List ℕ) (m : ℕ) (b : ℕ) (bs : List ℕ) (n : ℕ)
      → IsNumeral a as_ m
      → IsNumeral b bs n
      → (parse_cno_range isspace strtoull (a ∷ as_) ≡ ok (m, m))
        × (parse_cno_range isspace strtoull (a ∷ (as_ ++ dot ∷ dot ∷ [])) ≡ ok (m, cno_max))
        × (parse_cno_range isspace strtoull (dot ∷ dot ∷ b ∷ bs) ≡ ok (cno_min, n))
        × (parse_cno_range isspace strtoull (a ∷ (as_ ++ dot ∷ dot ∷ b ∷ bs)) ≡ ok (m, n))
  unfolding parse_cno_range
  parse_cno_range_lem a as_ m b bs n left right =
      let nonzero : (suc (length as_) == 0) ≡ false = ground arith in
      let second : (suc (length bs) == 0) ≡ false = ground arith in
      let m_read = reads_to-numeral (suc (length as_)) m left.below in
      let n_read = reads_to-numeral (suc (length bs)) n right.below in
      let found1 : find_dots (a ∷ (as_ ++ dot ∷ dot ∷ [])) ≡ some (suc (length as_)) =
        find_dots-some (a ∷ as_) [] left.no_dot in
      let found2 : find_dots (a ∷ (as_ ++ dot ∷ dot ∷ b ∷ bs)) ≡ some (suc (length as_)) =
        find_dots-some (a ∷ as_) (b ∷ bs) left.no_dot in
      let read1 : parse_cno isspace strtoull (a ∷ (as_ ++ dot ∷ dot ∷ []))
          ≡ (m, some (suc (length as_))) =
        parse_cno-numeral a as_ (dot ∷ dot ∷ []) m left refl in
      let read2 : parse_cno isspace strtoull (a ∷ (as_ ++ dot ∷ dot ∷ b ∷ bs))
          ≡ (m, some (suc (length as_))) =
        parse_cno-numeral a as_ (dot ∷ dot ∷ b ∷ bs) m left refl in
      let rest1 : drop (suc (length as_) + 2) (a ∷ (as_ ++ dot ∷ dot ∷ [])) ≡ [] =
        drop-dots a as_ [] in
      let rest2 : drop (suc (length as_) + 2) (a ∷ (as_ ++ dot ∷ dot ∷ b ∷ bs)) ≡ b ∷ bs =
        drop-dots a as_ (b ∷ bs) in
      (
        rw
            (
              find_dots-none (a ∷ as_) left.no_dot,
              parse_cno-whole a as_ m left,
              m_read,
              parse_cno_range,
            )
            refl,
        rw (found1, read1, rest1, nonzero, m_read, parse_cno_range) refl,
        rw
            (
              find_dots-some [] (b ∷ bs) tt,
              parse_cno-whole b bs n right,
              second,
              n_read,
              parse_cno_range,
            )
            refl,
        rw
            (
              found2,
              read2,
              rest2,
              nonzero,
              m_read,
              parse_cno-whole b bs n right,
              second,
              n_read,
              parse_cno_range,
            )
            refl,
      )
