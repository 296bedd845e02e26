-- ===== src/Base/Decimal.antt =====
-- Python's `int(s)` on ASCII text, given by its code points: white space round it is dropped, a
-- sign may lead, and single underscores may stand between digits. `none` is a ValueError.
use datacube_ows.Base.{
  ℕ, ◌+◌, ◌-◌, ◌*◌, Bool, true, false, ◌&&◌, ◌||◌, Option, none, some, List, [], ◌∷◌, reverse, leb,
  ◌==◌, nat_eq, if◌then◌else◌,
}
use datacube_ows.Base.Int.{ℤ, pos, sub_ℕ}

unfoldable pub is_digit : ℕ → Bool
is_digit c = leb b'0' c && leb c b'9'

is_space : ℕ → Bool
is_space c = (c == 32) || (leb 9 c && leb c 13)

-- The value read so far, and whether the last character was a digit.
digits_from : ℕ → Bool → List ℕ → Option ℕ
digits_from acc after_digit [] = if after_digit then some acc else none
digits_from acc after_digit (c ∷ cs) =
    let more = digits_from (acc * 10 + (c - b'0')) true cs in
    let skip = digits_from acc false cs in
    if is_digit c then more else if (c == b'_') && after_digit then skip else none

skip_space : List ℕ → List ℕ
skip_space [] = []
skip_space (c ∷ cs) = let rest = skip_space cs in if is_space c then rest else c ∷ cs

signed : List ℕ → Option ℤ
signed [] = none
signed (c ∷ cs) =
    if c == b'-'
    then elim (digits_from 0 false cs) [ none ↦ none | some n ↦ some (sub_ℕ 0 n) ]
    else elim (digits_from 0 false (if c == b'+' then cs else c ∷ cs)) [
      | none ↦ none
      | some n ↦ some (pos n)
    ]

unfoldable pub py_int : List ℕ → Option ℤ
unfolding is_digit is_space digits_from skip_space signed
py_int s = signed (reverse (skip_space (reverse (skip_space s))))
