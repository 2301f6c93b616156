-- ===== src/Print/Number.antt =====
-- The numbers of `vseprint`: what is taken from the arguments, and its digits.
use libtask_annotation.Base.{
  ℕ, zero, suc, ◌+◌, ◌-◌, ◌/◌, ◌%◌, ◌^◌, Bool, true, false, not, ◌&&◌, ◌||◌, [], ◌∷◌, ltb, leb,
  ◌==◌, if◌then◌else◌, Text,
}

-- The flags of a verb, its size, and whether the size has a minus.
pub record Verb : Type 0 where
  pub long : Bool
  pub longlong : Bool
  pub unsigned : Bool
  pub size : ℕ
  pub left : Bool

-- `luv`: an argument of 32 bits or 64, as an unsigned 64-bit number.
unfoldable pub number_arg : Verb → ℕ → ℕ
number_arg v x =
    if v.longlong || v.long
    then x % 2 ^ 64
    else (if v.unsigned || ltb (x % 2 ^ 32) (2 ^ 31)
        then x % 2 ^ 32
        else x % 2 ^ 32 + (2 ^ 64 - 2 ^ 32))

-- `if(!(fl&FlagUnsigned) && (vlong)luv < 0) luv = -luv;`. The flag `neg` that it sets is never read.
unfoldable pub magnitude : Verb → ℕ → ℕ
magnitude v luv = if not v.unsigned && leb (2 ^ 63) luv then 2 ^ 64 - luv else luv

-- `digits[d]`
unfoldable pub digit : ℕ → ℕ
digit d = if ltb d 10 then b'0' + d else b'a' + (d - 10)

-- `while(luv){ *--p = digits[luv%base]; luv /= base; }`, for as many digits as there is fuel.
unfoldable pub digits_loop : (fuel base luv : ℕ) → (p : Text) → Text
digits_loop zero base luv p = p
digits_loop (suc fuel) base luv p = elim (luv == 0) [
  | true ↦ p
  | false ↦ digits_loop fuel base (luv / base) (digit (luv % base) ∷ p)
]

-- The digits and the prefixes. 64 rounds are enough for a number of 64 bits.
unfoldable pub luv_text : (base luv : ℕ) → Text
luv_text base luv =
    let p = digits_loop 64 base luv [] in
    let p' : Text = if base == 16 then b'0' ∷ b'x' ∷ p else p in
    if base == 8 || (luv == 0) then b'0' ∷ p' else p'

unfoldable pub number_text : (base : ℕ) → Verb → ℕ → Text
number_text base v x = luv_text base (magnitude v (number_arg v x))
