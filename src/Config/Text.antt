-- ===== src/Config/Text.antt =====
-- The text functions that the configuration file is read with: `trim` and what it takes from the C
-- library.
pub mod Trim
use xiaozhi.Base.{
  ℕ, zero, suc, ◌+◌, ◌-◌, ◌*◌, Bool, true, false, ◌&&◌, ◌||◌, List, [], ◌∷◌, ◌++◌, Option, none,
  some, ◌==◌, leb, if◌then◌else◌,
}
use xiaozhi.Base.Int.{ℤ, pos, negsuc}
use xiaozhi.Base.Strings.{Bytes, is_empty}

-- `isspace` in the C locale.
unfoldable pub is_space : ℕ → Bool
is_space c = c == b' ' || (leb 9 c && leb c 13)

-- `while (*s && isspace(*s)) s++;`
unfoldable pub skip_space : Bytes → Bytes
skip_space [] = []
skip_space (c ∷ s) = if is_space c then skip_space s else c ∷ s

-- `while (end > s && isspace(*end)) *end-- = '\0';`
unfoldable pub strip_space : Bytes → Bytes
strip_space [] = []
strip_space (c ∷ s) = let r = strip_space s in if is_empty r && is_space c then [] else c ∷ r

unfoldable pub trim : Bytes → Bytes
trim s = strip_space (skip_space s)

-- `strchr`: the parts in front of the first `c` and behind it.
unfoldable pub cut : ℕ → Bytes → Option (Bytes × Bytes)
cut c [] = none
cut c (x ∷ s) =
    if x == c
    then some ([], s)
    else (elim (cut c s) [ none ↦ none | some (a, b) ↦ some (x ∷ a, b) ])

-- `strtok_r(…, "\n", …)`, called until it returns NULL: the lines that are not empty.
add_line : Bytes → List Bytes → List Bytes
add_line [] ls = ls
add_line line ls = line ∷ ls

split_lines : Bytes → Bytes → List Bytes
split_lines line [] = add_line line []
split_lines line (c ∷ s) =
    if c == b'\n' then add_line line (split_lines [] s) else split_lines (line ++ c ∷ []) s

unfoldable pub tokens : Bytes → List Bytes
unfolding add_line split_lines
tokens = split_lines []

is_digit : ℕ → Bool
is_digit c = leb b'0' c && leb c b'9'

digits_from : ℕ → Bytes → ℕ
digits_from n [] = n
digits_from n (c ∷ s) = if is_digit c then digits_from (n * 10 + (c - b'0')) s else n

-- -n
abbrev negative : ℕ → ℤ
negative zero = pos 0
negative (suc n) = negsuc n

signed : Bytes → ℤ
signed [] = pos 0
signed (c ∷ s) =
    if c == b'-'
    then negative (digits_from 0 s)
    else if c == b'+'
    then pos (digits_from 0 s)
    else pos (digits_from 0 (c ∷ s))

-- The number at the start of a text; its value out of the range of `int` is undefined in C.
unfoldable pub atoi : Bytes → ℤ
unfolding is_digit digits_from signed is_space skip_space
atoi s = signed (skip_space s)
