-- ===== src/Tests/Parsing.antt =====
-- Ranges of checkpoint numbers as text.
use nilfs_utils.Base.{
  ℕ, suc, ◌+◌, ◌*◌, ◌-◌, ◌≡◌, refl, Bool, List, [], ◌∷◌, ltb, ◌&&◌, ◌==◌, if◌then◌else◌, arith, ok,
}
use nilfs_utils.Gc.{cno_max}
use nilfs_utils.Parser.{
  cno_min, dot, parse_cno_range, parse_protection_period, checked_period, unit_seconds,
}
use nilfs_utils.Parser.Ranges.{IsNumeral, IsEnd, parse_cno_range_lem}

abbrev is_digit : ℕ → Bool
is_digit c = ltb 47 c && ltb c 58

-- strtoull at base 10, for texts that start with a digit and numbers that fit
abbrev read_digits : ℕ → ℕ → List ℕ → ℕ × ℕ
read_digits value count [] = (value, count)
read_digits value count (c ∷ text) =
    let more = read_digits (value * 10 + (c - 48)) (suc count) text in
    if is_digit c then more else (value, count)

abbrev strtoull_10 : List ℕ → ℕ × ℕ
strtoull_10 = read_digits 0 0

abbrev is_blank : ℕ → Bool
is_blank c = c == 32

twelve_reads : (rest : List ℕ) → IsEnd rest → strtoull_10 (49 ∷ 50 ∷ rest) ≡ (12, 2)
twelve_reads [] end = refl
twelve_reads (c ∷ rest) end = rw end refl

twelve-IsNumeral : IsNumeral is_blank strtoull_10 49 (50 ∷ []) 12
twelve-IsNumeral = record {
  no_space = refl;
  no_sign = refl;
  no_dot = (refl, (refl, tt));
  below = omega arith;
  reads = twelve_reads;
}

seven_reads : (rest : List ℕ) → IsEnd rest → strtoull_10 (55 ∷ rest) ≡ (7, 1)
seven_reads [] end = refl
seven_reads (c ∷ rest) end = rw end refl

seven-IsNumeral : IsNumeral is_blank strtoull_10 55 [] 7
seven-IsNumeral = record {
  no_space = refl;
  no_sign = refl;
  no_dot = (refl, tt);
  below = omega arith;
  reads = seven_reads;
}

parse_cno_range_lem_example :
    (parse_cno_range is_blank strtoull_10 (49 ∷ 50 ∷ []) ≡ ok (12, 12))
    × (parse_cno_range is_blank strtoull_10 (49 ∷ 50 ∷ dot ∷ dot ∷ []) ≡ ok (12, cno_max))
    × (parse_cno_range is_blank strtoull_10 (dot ∷ dot ∷ 55 ∷ []) ≡ ok (cno_min, 7))
    × (parse_cno_range is_blank strtoull_10 (49 ∷ 50 ∷ dot ∷ dot ∷ 55 ∷ []) ≡ ok (12, 7))
parse_cno_range_lem_example =
    parse_cno_range_lem is_blank strtoull_10 49 (50 ∷ []) 12 55 [] 7 twelve-IsNumeral
      seven-IsNumeral

-- "9223372036854775808m" is 2^63 minutes; their seconds wrap to 0, which is accepted.
period_wraps :
    parse_protection_period is_blank strtoull_10 (
      57 ∷ 50 ∷ 50 ∷ 51 ∷ 51 ∷ 55 ∷ 50 ∷ 48 ∷ 51 ∷ 54 ∷ 56 ∷ 53 ∷ 52 ∷ 55 ∷ 55 ∷ 53 ∷ 56 ∷ 48 ∷ 56
      ∷ 109 ∷ [])
    ≡ ok 0
unfolding parse_protection_period checked_period unit_seconds
period_wraps = refl
