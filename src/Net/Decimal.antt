-- ===== src/Net/Decimal.antt =====
-- The numbers of a printed address, read again.
use libtask_annotation.Base.{
  ℕ, zero, suc, ◌+◌, ◌*◌, ◌/◌, ◌%◌, ◌^◌, ◌≤◌, ◌<◌, ◌≡◌, refl, ap, ◌∙◌, true, false, some, [], ◌∷◌,
  ◌++◌, arith, ltb, ◌==◌, if◌then◌else◌, Text, dec_lt,
}
use libtask_annotation.Print.Number.{digit, digits_loop, luv_text}
use libtask_annotation.Net.Strtoul.{
  is_space, skip_spaces, char_digit, scan, scan_hex, scan_number, sign, clamp, strtoul,
}

digits-zero : (fuel : ℕ) (p : Text) → digits_loop fuel 10 0 p ≡ p
unfolding digits_loop
digits-zero zero p = refl
digits-zero (suc fuel) p = refl

digits-suc :
    (fuel n : ℕ) (p : Text)
    → 0 < n
    → digits_loop (suc fuel) 10 n p ≡ digits_loop fuel 10 (n / 10) (digit (n % 10) ∷ p)
unfolding digits_loop
digits-suc fuel n p pos = let e : (n == 0) ≡ false = ground arith in rw (digits_loop, e)

digit-small : (d : ℕ) → d < 10 → digit d ≡ b'0' + d
unfolding digit
digit-small d lt = ground arith

-- The text of a byte: one, two or three digits.
unfoldable pub byte_text : ℕ → Text
byte_text n =
    if ltb n 10
    then (b'0' + n) ∷ []
    else (if ltb n 100
        then (b'0' + n / 10) ∷ (b'0' + n % 10) ∷ []
        else (b'0' + n / 100) ∷ (b'0' + n / 10 % 10) ∷ (b'0' + n % 10) ∷ [])

luv_text_pos : (n : ℕ) → 0 < n → luv_text 10 n ≡ digits_loop 64 10 n []
unfolding luv_text
luv_text_pos n pos = let e : (n == 0) ≡ false = ground arith in rw e

-- The digits of a number below 10, 100 and 1000, before others.
digits_one :
    (fuel n : ℕ) (p : Text) → 0 < n → n < 10 → digits_loop (suc fuel) 10 n p ≡ (b'0' + n) ∷ p
digits_one fuel n p pos lt =
    let last : n / 10 ≡ 0 = omega arith in
    let same : n % 10 ≡ n = omega arith in
    rw (digits-suc fuel n p pos, last, same, digits-zero fuel, digit-small n lt)

digits_two :
    (fuel n : ℕ) (p : Text)
    → 10 ≤ n
    → n < 100
    → digits_loop (suc (suc fuel)) 10 n p ≡ (b'0' + n / 10) ∷ (b'0' + n % 10) ∷ p
digits_two fuel n p ge lt = rw (
  digits-suc (suc fuel) n p (omega arith),
  digit-small (n % 10) (omega arith),
  digits_one fuel (n / 10) ((b'0' + n % 10) ∷ p) (omega arith) (omega arith),
)

digits_three :
    (fuel n : ℕ) (p : Text)
    → 100 ≤ n
    → n < 1000
    → digits_loop (suc (suc (suc fuel))) 10 n p
      ≡ (b'0' + n / 100) ∷ (b'0' + n / 10 % 10) ∷ (b'0' + n % 10) ∷ p
digits_three fuel n p ge lt =
    let first : n / 10 / 10 ≡ n / 100 = omega arith in
    rw (
      digits-suc (suc (suc fuel)) n p (omega arith),
      digit-small (n % 10) (omega arith),
      digits_two fuel (n / 10) ((b'0' + n % 10) ∷ p) (omega arith) (omega arith),
      first,
    )

pub luv_text-byte : (n : ℕ) → n < 256 → luv_text 10 n ≡ byte_text n
unfolding byte_text
luv_text-byte n lt = elim (dec_lt n 10) [
  | yes one ↦ elim (dec_lt 0 n) [
    | yes pos ↦
        let e : ltb n 10 ≡ true = ground arith in
        rw e (luv_text_pos n pos ∙ digits_one 63 n [] pos one)
    | no nil ↦ let e : n ≡ 0 = omega arith in rw e (unfold luv_text digits_loop in refl)
  ]
  | no more ↦
      let e : ltb n 10 ≡ false = ground arith in
      elim (dec_lt n 100) [
        | yes two ↦
            let e' : ltb n 100 ≡ true = ground arith in
            rw (e, e') (luv_text_pos n (omega arith) ∙ digits_two 62 n [] (omega arith) two)
        | no three ↦
            let e' : ltb n 100 ≡ false = ground arith in
            rw (e, e')
              (luv_text_pos n (omega arith) ∙ digits_three 61 n [] (omega arith) (omega arith))
      ]
]

-- A text that a number does not go on into.
abbrev pub Stops : Text → Type 0
Stops [] = Unit
Stops (c ∷ s) = c ≡ b'.'

scan-Stops : (base n : ℕ) (s : Text) → base ≤ 10 → Stops s → scan base n s ≡ (n, s)
unfolding scan
scan-Stops base n [] le stops = refl
scan-Stops base n (c ∷ s) le stops =
    let e : ltb (char_digit c) base ≡ false = unfold char_digit in ground arith in rw (scan, e)

scan-digit : (n d : ℕ) (s : Text) → d < 10 → scan 10 n ((b'0' + d) ∷ s) ≡ scan 10 (n * 10 + d) s
unfolding scan
scan-digit n d s lt =
    let e : char_digit (b'0' + d) ≡ d = unfold char_digit in ground arith in
    let e' : ltb d 10 ≡ true = ground arith in rw (scan, e, e', e)

-- A text that begins with a digit has no blanks and no sign, and with one that is not 0 it has no prefix.
skip_spaces-digit : (d : ℕ) (s : Text) → d < 10 → skip_spaces ((b'0' + d) ∷ s) ≡ (b'0' + d) ∷ s
unfolding skip_spaces
skip_spaces-digit d s lt = let e : is_space (b'0' + d) ≡ false = ground arith in rw (skip_spaces, e)

sign-digit : (d : ℕ) (s : Text) → d < 10 → sign ((b'0' + d) ∷ s) ≡ (false, (b'0' + d) ∷ s)
unfolding sign
sign-digit d s lt =
    let minus : (b'0' + d == b'-') ≡ false = ground arith in
    let plus : (b'0' + d == b'+') ≡ false = ground arith in rw (minus, plus)

scan_number-digit :
    (d : ℕ) (s : Text)
    → 0 < d
    → d < 10
    → scan_number ((b'0' + d) ∷ s) ≡ some (scan 10 0 ((b'0' + d) ∷ s))
unfolding scan_number
scan_number-digit d s pos lt =
    let nil : (b'0' + d == b'0') ≡ false = ground arith in
    let is_digit : ltb (char_digit (b'0' + d)) 10 ≡ true = unfold char_digit in ground arith in
    rw (nil, is_digit)

clamp-small : (n : ℕ) → n < 2 ^ 64 → clamp false n ≡ n
unfolding clamp
clamp-small n lt = ground arith

strtoul-digit :
    (d n : ℕ) (s t : Text)
    → 0 < d
    → d < 10
    → n < 2 ^ 64
    → scan 10 0 ((b'0' + d) ∷ s) ≡ (n, t)
    → strtoul ((b'0' + d) ∷ s) ≡ (n, t)
unfolding strtoul
strtoul-digit d n s t pos lt small e = rw (
  strtoul,
  skip_spaces-digit d s lt,
  sign-digit d s lt,
  scan_number-digit d s pos lt,
  e,
  skip_spaces-digit d s lt,
  sign-digit d s lt,
  clamp-small n small,
)

strtoul-zero : (s : Text) → Stops s → strtoul (b'0' ∷ s) ≡ (0, s)
unfolding strtoul skip_spaces sign scan_number clamp scan_hex scan char_digit
strtoul-zero [] stops = refl
strtoul-zero (c ∷ []) stops = rw stops refl
strtoul-zero (c ∷ h ∷ s) stops = rw stops refl

scan-first : (d : ℕ) (s : Text) → d < 10 → scan 10 0 ((b'0' + d) ∷ s) ≡ scan 10 d s
scan-first d s lt = scan-digit 0 d s lt ∙ ap (λ (k : ℕ). scan 10 k s) (omega arith)

scan-next :
    (n k d : ℕ) (s : Text) → d < 10 → k * 10 + d ≡ n → scan 10 k ((b'0' + d) ∷ s) ≡ scan 10 n s
scan-next n k d s lt e = scan-digit k d s lt ∙ ap (λ (x : ℕ). scan 10 x s) e

-- A byte that was printed is read, whatever follows.
pub strtoul-byte : (n : ℕ) (s : Text) → n < 256 → Stops s → strtoul (byte_text n ++ s) ≡ (n, s)
unfolding byte_text
strtoul-byte n s lt stops = elim (dec_lt n 10) [
  | yes one ↦
      let e : ltb n 10 ≡ true = ground arith in
      rw e (elim (dec_lt 0 n) [
        | yes pos ↦
            strtoul-digit n n s s pos one (omega arith)
              (scan-first n s one ∙ scan-Stops 10 n s (omega arith) stops)
        | no nil ↦ let e' : n ≡ 0 = omega arith in rw e' (strtoul-zero s stops)
      ])
  | no more ↦
      let e : ltb n 10 ≡ false = ground arith in
      elim (dec_lt n 100) [
        | yes two ↦
            let e' : ltb n 100 ≡ true = ground arith in
            rw (e, e')
              (strtoul-digit (n / 10) n ((b'0' + n % 10) ∷ s) s (omega arith) (omega arith)
                (omega arith)
                (scan-first (n / 10) ((b'0' + n % 10) ∷ s) (omega arith)
                  ∙ scan-next n (n / 10) (n % 10) s (omega arith) (omega arith)
                  ∙ scan-Stops 10 n s (omega arith) stops))
        | no three ↦
            let e' : ltb n 100 ≡ false = ground arith in
            let t = (b'0' + n % 10) ∷ s in
            rw (e, e')
              (strtoul-digit (n / 100) n ((b'0' + n / 10 % 10) ∷ t) s (omega arith) (omega arith)
                (omega arith)
                (scan-first (n / 100) ((b'0' + n / 10 % 10) ∷ t) (omega arith)
                  ∙ scan-next (n / 10) (n / 100) (n / 10 % 10) t (omega arith) (omega arith)
                  ∙ scan-next n (n / 10) (n % 10) s (omega arith) (omega arith)
                  ∙ scan-Stops 10 n s (omega arith) stops))
      ]
]
