-- ===== src/Net/Parseip.antt =====
-- `parseip` of net.c: the text of an IPv4 address.
use libtask_annotation.Base.{
  ℕ, zero, suc, ◌/◌, ◌%◌, ◌^◌, Option, none, some, List, [], ◌∷◌, leb, ◌==◌, if◌then◌else◌, Text,
  length,
}
use libtask_annotation.Net.Strtoul.{strtoul}

-- The four bytes of an address, in the order of memory.
pub record Ip : Type 0 where
  pub b0 : ℕ
  pub b1 : ℕ
  pub b2 : ℕ
  pub b3 : ℕ

-- What must follow a number: the end, or a dot, which is skipped.
unfoldable pub skip_dot : Text → Option Text
skip_dot [] = some []
skip_dot (c ∷ s) = if c == b'.' then some s else none

-- The loop: as many numbers as there are, up to `left`, each converted to an int.
unfoldable pub parse_fields : (left : ℕ) → Text → Option (List ℕ)
parse_fields zero s = some []
parse_fields (suc left) [] = some []
parse_fields (suc left) (c ∷ s) =
    let x = (strtoul (c ∷ s)).0 % 2 ^ 32 in
    if leb 256 x then none else elim (skip_dot (strtoul (c ∷ s)).1) [
      | none ↦ none
      | some t ↦ elim (parse_fields left t) [ none ↦ none | some xs ↦ some (x ∷ xs) ]
    ]

-- `addr[i]`, where the loop has written it; `junk` is what the stack holds.
unfoldable pub at_or : List ℕ → (i : ℕ) → (junk : ℕ) → ℕ
at_or [] i junk = junk
at_or (x ∷ xs) zero junk = x
at_or (x ∷ xs) (suc i) junk = at_or xs i junk

unfoldable pub to_ip : (junk : Ip) → List ℕ → Ip
to_ip junk xs = record {
  b0 = at_or xs 0 junk.b0;
  b1 = at_or xs 1 junk.b1;
  b2 = at_or xs 2 junk.b2;
  b3 = at_or xs 3 junk.b3;
}

-- `switch(CLASS(addr)){ … }`, for `n` numbers.
unfoldable pub by_class : (n : ℕ) → Ip → Option Ip
by_class n ip =
    if leb (ip.b0 / 64) 1
    then (if n == 3
        then some (record ip { b1 = 0; b2 = ip.b1; b3 = ip.b2 })
        else (if n == 2
            then some (record ip { b1 = 0; b2 = 0; b3 = ip.b1 })
            else (if n == 4 then some ip else none)))
    else (if ip.b0 / 64 == 2
        then (if n == 3
            then some (record ip { b2 = 0; b3 = ip.b2 })
            else (if n == 4 then some ip else none))
        else some ip)

unfoldable pub parseip : (junk : Ip) → Text → Option Ip
parseip junk name = elim (parse_fields 4 name) [
  | none ↦ none
  | some xs ↦ by_class (length xs) (to_ip junk xs)
]
