-- ===== src/Net/Strtoul.antt =====
-- `strtoul(s, &s, 0)` of the C library: the number at the beginning of a text, and what follows it.
-- An unsigned long has 64 bits.
use libtask_annotation.Base.{
  ℕ, ◌+◌, ◌-◌, ◌*◌, ◌%◌, ◌^◌, Bool, true, false, ◌&&◌, ◌||◌, Option, none, some, [], ◌∷◌, ltb, leb,
  ◌==◌, if◌then◌else◌, Text,
}

abbrev pub is_space : ℕ → Bool
is_space c = c == b' ' || (leb 9 c && leb c 13)

unfoldable pub skip_spaces : Text → Text
skip_spaces [] = []
skip_spaces (c ∷ s) = elim (is_space c) [ true ↦ skip_spaces s | false ↦ c ∷ s ]

-- The value of a digit or a letter; 99 for other characters.
unfoldable pub char_digit : ℕ → ℕ
char_digit c =
    if leb b'0' c && leb c b'9'
    then c - b'0'
    else (if leb b'a' c && leb c b'z'
        then c - b'a' + 10
        else (if leb b'A' c && leb c b'Z' then c - b'A' + 10 else 99))

-- The digits of the base, behind the number `n`.
unfoldable pub scan : (base n : ℕ) → Text → ℕ × Text
scan base n [] = (n, [])
scan base n (c ∷ s) = elim (ltb (char_digit c) base) [
  | true ↦ scan base (n * base + char_digit c) s
  | false ↦ (n, c ∷ s)
]

-- What follows a leading `0`: `x` and a digit, for base 16.
unfoldable pub scan_hex : Text → Option (ℕ × Text)
scan_hex [] = none
scan_hex (x ∷ []) = none
scan_hex (x ∷ h ∷ s) =
    if (x == b'x' || (x == b'X')) && ltb (char_digit h) 16 then some (scan 16 0 (h ∷ s)) else none

-- The number in the base that its prefix names, if there is a digit.
unfoldable pub scan_number : Text → Option (ℕ × Text)
scan_number [] = none
scan_number (c ∷ s) =
    if c == b'0'
    then elim (scan_hex s) [ none ↦ some (scan 8 0 (c ∷ s)) | some r ↦ some r ]
    else (if ltb (char_digit c) 10 then some (scan 10 0 (c ∷ s)) else none)

unfoldable pub sign : Text → Bool × Text
sign [] = (false, [])
sign (c ∷ s) = if c == b'-' then (true, s) else (if c == b'+' then (false, s) else (false, c ∷ s))

-- A number that does not fit is the greatest there is.
unfoldable pub clamp : (negative : Bool) → ℕ → ℕ
clamp negative n =
    if leb (2 ^ 64) n then 2 ^ 64 - 1 else (if negative then (2 ^ 64 - n) % 2 ^ 64 else n)

-- Without a number, 0 and the whole text.
unfoldable pub strtoul : Text → ℕ × Text
strtoul s =
    let t = sign (skip_spaces s) in
    elim (scan_number t.1) [ none ↦ (0, s) | some (n, rest) ↦ (clamp t.0 n, rest) ]
