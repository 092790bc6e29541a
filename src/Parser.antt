-- ===== src/Parser.antt =====
-- lib/parser.c: checkpoint numbers and ranges of them, as the tools take them on the command line. A
-- string is the list of its characters, without the final 0. `isspace` and `strtoull` (the value, and
-- how many characters it read) of the C library are parameters, the latter at the caller's base.
pub mod Ranges
use nilfs_utils.Base.{
  ℕ, suc, ◌+◌, Bool, true, false, ◌&&◌, not, Option, none, some, List, [], ◌∷◌, ltb, ◌==◌,
  if◌then◌else◌, Result, ok, err, fault, unset, einval, erange, length, drop, u64, ◌*◌, ◌-◌, ◌^◌,
}
use nilfs_utils.Gc.{cno_max}

-- NILFS_CNO_MIN
abbrev pub cno_min : ℕ
cno_min = 1

-- '-' and '.'
abbrev pub minus_sign : ℕ
minus_sign = 45

abbrev pub dot : ℕ
dot = 46

-- Does a string start with this character?
unfoldable pub starts_with : ℕ → List ℕ → Bool
starts_with c [] = false
starts_with c (d ∷ text) = d == c

-- strstr(text, "..")
unfoldable pub find_dots : List ℕ → Option ℕ
unfolding starts_with
find_dots [] = none
find_dots (c ∷ text) =
    if c == dot && starts_with dot text
    then some 0
    else elim (find_dots text) [ none ↦ none | some i ↦ some (suc i) ]

module _ (isspace : ℕ → Bool) (strtoull : List ℕ → ℕ × ℕ) where
  -- how many spaces a string starts with
  unfoldable pub count_spaces : List ℕ → ℕ
  count_spaces [] = 0
  count_spaces (c ∷ text) = if isspace c then suc (count_spaces text) else 0

  -- nilfs_parse_cno: the number, and where `*endptr` points, which a negative number does not set
  unfoldable pub parse_cno : List ℕ → ℕ × Option ℕ
  parse_cno arg =
      let skipped = count_spaces arg in
      let read = strtoull (drop skipped arg) in
      if starts_with minus_sign (drop skipped arg)
      then (cno_max, none)
      else (read.0, some (skipped + read.1))

  -- `cno < NILFS_CNO_MAX && endptr == <position>`
  unfoldable pub reads_to : ℕ → ℕ × Option ℕ → Bool
  reads_to position (cno, none) = false
  reads_to position (cno, some end) = ltb cno cno_max && end == position

  -- nilfs_parse_cno_range: the start and the end
  unfoldable pub parse_cno_range : List ℕ → Result (ℕ × ℕ)
  parse_cno_range [] = fault
  parse_cno_range (c ∷ text) =
      let arg = c ∷ text in
      elim (find_dots arg) [
        | none ↦
            let r = parse_cno arg in if reads_to (length arg) r then ok (r.0, r.0) else err unset
        | some delim ↦
            let first = parse_cno arg in
            let second = parse_cno (drop (delim + 2) arg) in
            let whole = reads_to (length (drop (delim + 2) arg)) second in
            if delim == 0
            then if not (length (drop 2 arg) == 0) && whole
              then ok (cno_min, second.0)
              else err unset
            else if not (reads_to delim first)
            then err unset
            else if length (drop (delim + 2) arg) == 0
            then ok (first.0, cno_max)
            else if whole
            then ok (first.0, second.0)
            else err unset
      ]

  -- The seconds of a unit character; `none` for any other
  unfoldable pub unit_seconds : ℕ → Option ℕ
  unit_seconds c =
      if c == 115
      then some 1
      else if c == 109
      then some 60
      else if c == 104
      then some 3600
      else if c == 100
      then some 86400
      else if c == 119
      then some 604800
      else if c == 77
      then some 2678400
      else if c == 89
      then some 31536000
      else none

  -- The last test of nilfs_parse_protection_period.
  unfoldable pub checked_period : ℕ → Result ℕ
  checked_period val = if ltb val (2 ^ 64 - 1) then ok val else err erange

  -- nilfs_parse_protection_period
  unfoldable pub parse_protection_period : List ℕ → Result ℕ
  parse_protection_period arg =
      let val = (strtoull arg).0 in
      let rest = drop (strtoull arg).1 arg in
      if (strtoull arg).1 == 0 then err einval else elim rest [
        | [] ↦ checked_period val
        | c ∷ more ↦
            if length more == 0 && ltb val (2 ^ 64 - 1)
            then elim (unit_seconds c) [
              | none ↦ err unset
              | some seconds ↦ checked_period (u64 (val * seconds))
            ]
            else checked_period val
      ]
