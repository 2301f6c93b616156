-- ===== src/Print/Digits.antt =====
-- The digits that `vseprint` prints for a number: what number they stand for, and how many there are.
use libtask_annotation.Base.{
  ℕ, zero, suc, ◌+◌, ◌-◌, ◌*◌, ◌/◌, ◌%◌, ◌^◌, ◌<◌, ◌≡◌, refl, sym, ap, ◌∙◌, append_assoc, false,
  ◌||◌, [], ◌∷◌, ◌++◌, arith, leb, ltb, ◌==◌, if◌then◌else◌, Text, Bool-cases, inl, inr,
}
use libtask_annotation.Print.Number.{
  Verb, number_arg, magnitude, digit, digits_loop, luv_text, number_text,
}

unfoldable pub digit_value : ℕ → ℕ
digit_value c = if leb b'a' c then c - b'a' + 10 else c - b'0'

-- The number that digits stand for, behind `n`.
unfoldable pub value : (base n : ℕ) → Text → ℕ
value base n [] = n
value base n (c ∷ s) = value base (n * base + digit_value c) s

digits_loop-append :
    (fuel base n : ℕ) (p : Text) → digits_loop fuel base n p ≡ digits_loop fuel base n [] ++ p
unfolding digits_loop
digits_loop-append zero base n p = refl
digits_loop-append (suc fuel) base n p = elim (Bool-cases (n == 0)) [
  | inl none ↦ rw (digits_loop, none)
  | inr some ↦
      rw (digits_loop, some)
        (digits_loop-append fuel base (n / base) (digit (n % base) ∷ p)
          ∙ sym (append_assoc (digits_loop fuel base (n / base) []) (digit (n % base) ∷ []) p)
          ∙ ap (λ (s : Text). s ++ p)
              (sym (digits_loop-append fuel base (n / base) (digit (n % base) ∷ []))))
]

-- How many bits of an argument are a number.
abbrev pub width : Verb → ℕ
width v = if v.long || v.longlong then 64 else 32

-- The absolute value of the two's complement number `y` of `b` bits.
abbrev pub absolute : (b y : ℕ) → ℕ
absolute b y = if ltb y (2 ^ (b - 1)) then y else 2 ^ b - y

-- The number that is to be printed for the argument `x`.
abbrev pub number_of : Verb → ℕ → ℕ
number_of v x = if v.unsigned then x % 2 ^ width v else absolute (width v) (x % 2 ^ width v)

-- What stands before the digits: `0x`, and a `0` in base 8 and before a zero.
abbrev pub lead : (base n : ℕ) → Text
lead base n =
    (if base == 8 || (n == 0) then b'0' ∷ [] else [])
    ++ (if base == 16 then b'0' ∷ b'x' ∷ [] else [])

magnitude-negative :
    (v : Verb) (x : ℕ)
    → (v.long || v.longlong) ≡ false
    → v.unsigned ≡ false
    → x < 2 ^ 31
    → magnitude v (number_arg v (2 ^ 32 - x)) ≡ magnitude v (number_arg v x)
unfolding magnitude number_arg
magnitude-negative v x short signed small = ground arith

-- A negative int, above -2^31, is printed as its absolute value: without a sign.
pub number_text-negative :
    (base : ℕ) (v : Verb) (x : ℕ)
    → (v.long || v.longlong) ≡ false
    → v.unsigned ≡ false
    → x < 2 ^ 31
    → number_text base v (2 ^ 32 - x) ≡ number_text base v x
unfolding number_text
number_text-negative base v x short signed small =
    ap (luv_text base) (magnitude-negative v x short signed small)
