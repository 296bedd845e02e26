-- ===== src/Base/Text.antt =====
-- Text: the code points of a `String`, and Python's `split` by one ASCII character.
use Prim.Native.Char.{Char, code}
use datacube_ows.Base.{
  Bool, true, false, ℕ, zero, suc, ◌-◌, leb, ◌&&◌, String, List, [], ◌∷◌, ◌==◌, nat_eq,
  if◌then◌else◌,
}

abbrev pub codes : String → List ℕ
codes String.[] = []
codes (String.◌∷◌ c s) = code c ∷ codes s

abbrev cons_head : Char → List String → List String
cons_head c [] = String.◌∷◌ c String.[] ∷ []
cons_head c (s ∷ ss) = String.◌∷◌ c s ∷ ss

-- `s.split(sep)`: never empty, since the empty text splits into itself.
abbrev pub split : ℕ → String → List String
split sep String.[] = String.[] ∷ []
split sep (String.◌∷◌ c s) =
    let rest = split sep s in if code c == sep then String.[] ∷ rest else cons_head c rest

abbrev char_at : ℕ → String → Char → Char
char_at n String.[] default = default
char_at zero (String.◌∷◌ c s) default = c
char_at (suc n) (String.◌∷◌ c s) default = char_at n s default

-- `s.upper()` and `s.lower()`, on ASCII letters
abbrev pub upper : String → String
upper String.[] = String.[]
upper (String.◌∷◌ c s) =
    String.◌∷◌
      (if leb b'a' (code c) && leb (code c) b'z'
        then char_at (code c - b'a') "ABCDEFGHIJKLMNOPQRSTUVWXYZ" c
        else c)
      (upper s)

abbrev pub lower : String → String
lower String.[] = String.[]
lower (String.◌∷◌ c s) =
    String.◌∷◌
      (if leb b'A' (code c) && leb (code c) b'Z'
        then char_at (code c - b'A') "abcdefghijklmnopqrstuvwxyz" c
        else c)
      (lower s)

-- `s.startswith(prefix)`
abbrev pub starts_with : String → String → Bool
starts_with String.[] s = true
starts_with (String.◌∷◌ c p) String.[] = false
starts_with (String.◌∷◌ c p) (String.◌∷◌ d s) = code c == code d && starts_with p s

abbrev last_of : String → List String → String
last_of s [] = s
last_of s (t ∷ ts) = last_of t ts

-- `s.rpartition(sep)[-1]`: what follows the last separator.
abbrev pub last_part : ℕ → String → String
last_part sep s = last_of "" (split sep s)
