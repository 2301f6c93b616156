-- ===== src/Print.antt =====
-- print.c: formatted printing into a buffer. `va_arg` takes the arguments from a list, one 64-bit
-- word or one text for each; `strerror(errno)` is a parameter.
pub mod Number
pub mod Buffer
pub mod Render
pub mod Bounds
pub mod Digits
use libtask_annotation.Base.{
  ℕ, zero, suc, ◌+◌, ◌-◌, ◌*◌, ◌%◌, Bool, true, false, not, ◌&&◌, ◌||◌, Option, none, some, List,
  [], ◌∷◌, ltb, leb, ◌==◌, if◌then◌else◌, update, length, Text, codes, take, repeat,
}
use Number.{Verb, number_text}

-- The text `s`, from address `p` on: `memmove` from a text, and `memset`, of memory.
unfoldable pub put : (ℕ → ℕ) → (p : ℕ) → Text → ℕ → ℕ
put m p [] = m
put m p (c ∷ s) = put (update m p c) (p + 1) s

-- `n` and `l` of `printstr`, for a text of length `len` and a field of `size`, with `room` bytes left.
unfoldable pub field_len : (room len size : ℕ) → ℕ
field_len room len size =
    let n = if ltb len size then size else len in if leb room n then room - 1 else n

unfoldable pub shown_len : (room len size : ℕ) → ℕ
unfolding field_len
shown_len room len size = if ltb (field_len room len size) len then field_len room len size else len

-- `printstr`, given the sign of the size as `left`, and its absolute value.
unfoldable pub printstr : (ℕ → ℕ) → (dst edst : ℕ) → Text → (size : ℕ) → (left : Bool) → (ℕ → ℕ) × ℕ
printstr m dst edst s size left =
    let n = field_len (edst - dst) (length s) size in
    let l = shown_len (edst - dst) (length s) size in
    if leb edst dst
    then (m, dst)
    else (if left
        then (put (put m dst (take l s)) (dst + l) (repeat (n - l) b' '), dst + n)
        else (put (put m dst (repeat (n - l) b' ')) (dst + (n - l)) (take l s), dst + n))

-- An argument.
pub data Arg : Type 0 where
  word : ℕ → Arg
  text : Text → Arg

-- What a flag, or a digit of the size, makes of the verb; `none` for other characters.
unfoldable pub flag : Verb → ℕ → Option Verb
flag v c =
    if c == b'-'
    then some (record v { left = true })
    else (if leb b'0' c && leb c b'9'
        then some (record v { size = v.size * 10 + (c - b'0') })
        else (if c == b'l'
            then some (if v.long then record v { longlong = true } else record v { long = true })
            else (if c == b'u' then some (record v { unsigned = true }) else none)))

-- The text that a verb prints and the arguments that are left.
pub data Shows : Type 0 where
  -- The arguments are not those that the format asks for: no behaviour is defined.
  bad_args : Shows
  -- The character is no verb.
  no_verb : Shows
  shows : Text → List Arg → Shows

unfoldable pub show_number : (base : ℕ) → Verb → List Arg → Shows
show_number base v (word x ∷ args) = shows (number_text base v x) args
show_number base v _ = bad_args

unfoldable pub show_char : List Arg → Shows
show_char (word x ∷ args) = shows (if x % 256 == 0 then [] else x % 256 ∷ []) args
show_char _ = bad_args

unfoldable pub show_text : List Arg → Shows
show_text (text s ∷ args) = shows s args
show_text _ = bad_args

unfoldable pub show_verb : (errstr : Text) → Verb → (c : ℕ) → List Arg → Shows
show_verb errstr v c args =
    if c == b'd'
    then show_number 10 v args
    else (if c == b'o'
        then show_number 8 v args
        else (if c == b'p' || (c == b'x')
            then show_number 16 v args
            else (if c == b'c'
                then show_char args
                else (if c == b's'
                    then show_text args
                    else (if c == b'r' then shows errstr args else no_verb)))))

-- Characters that are no `%` are copied while there is room for one more and a NUL.
unfoldable pub copy_text : (ℕ → ℕ) → (w edst : ℕ) → Text → (ℕ → ℕ) × ℕ
copy_text m w edst [] = (m, w)
copy_text m w edst (c ∷ s) = elim (ltb (w + 1) edst) [
  | true ↦ copy_text (update m w c) (w + 1) edst s
  | false ↦ (m, w)
]

-- Where the loops of `vseprint` are: in the text, or behind a `%`.
pub data Mode : Type 0 where
  plain : Mode
  behind : Verb → Mode

abbrev pub no_flags : Verb
no_flags = record { long = false; longlong = false; unsigned = false; size = 0; left = false }

module _ (errstr : Text) (edst : ℕ) where
  -- The loops of `vseprint`. `none` stands for undefined behaviour: at the end of the format behind a
  -- `%`, the outer loop steps over the NUL.
  unfoldable pub vformat : Mode → (fmt : Text) → List Arg → (ℕ → ℕ) → (w : ℕ) → Option ((ℕ → ℕ) × ℕ)
  vformat plain [] args m w = some (m, w)
  vformat plain (c ∷ fmt) args m w = elim (ltb (w + 1) edst) [
    | false ↦ some (m, w)
    | true ↦ elim (c == b'%') [
      | true ↦ vformat (behind no_flags) fmt args m w
      | false ↦ vformat plain fmt args (update m w c) (w + 1)
    ]
  ]
  vformat (behind v) [] args m w = none
  vformat (behind v) (c ∷ fmt) args m w = elim (flag v c) [
    | some v' ↦ vformat (behind v') fmt args m w
    | none ↦ elim (show_verb errstr v c args) [
      | bad_args ↦ none
      -- `p = "X*verb*"`: the rest of the format is forgotten.
      | no_verb ↦ some (copy_text m w edst (codes "*verb*"))
      | shows s rest ↦ let r = printstr m w edst s v.size v.left in vformat plain fmt rest r.0 r.1
    ]
  ]

-- What a call leaves in memory, or how it fails.
pub data Printed : Type 0 where
  printed : (ℕ → ℕ) → Printed
  asserts : Printed
  undefined : Printed

-- `assert(w < edst); *w = 0;`
unfoldable pub end_text : (edst : ℕ) → Option ((ℕ → ℕ) × ℕ) → Printed
end_text edst none = undefined
end_text edst (some (m, w)) = if ltb w edst then printed (update m w 0) else asserts

unfoldable pub vseprint :
    (errstr : Text) → (ℕ → ℕ) → (dst edst : ℕ) → (fmt : Text) → List Arg → Printed
vseprint errstr m dst edst fmt args = end_text edst (vformat errstr edst plain fmt args m dst)

unfoldable pub vsnprint :
    (errstr : Text) → (ℕ → ℕ) → (dst n : ℕ) → (fmt : Text) → List Arg → Printed
vsnprint errstr m dst n fmt args = vseprint errstr m dst (dst + n) fmt args

unfoldable pub snprint : (errstr : Text) → (ℕ → ℕ) → (dst n : ℕ) → (fmt : Text) → List Arg → Printed
snprint errstr m dst n fmt args = vsnprint errstr m dst n fmt args

unfoldable pub seprint :
    (errstr : Text) → (ℕ → ℕ) → (dst edst : ℕ) → (fmt : Text) → List Arg → Printed
seprint errstr m dst edst fmt args = vseprint errstr m dst edst fmt args

-- The text at `p` up to its NUL, which is looked for in `fuel` bytes.
unfoldable pub text_at : (fuel : ℕ) → (ℕ → ℕ) → (p : ℕ) → Option Text
text_at zero m p = none
text_at (suc fuel) m p =
    if m p == 0
    then some []
    else elim (text_at fuel m (p + 1)) [ none ↦ none | some s ↦ some (m p ∷ s) ]

-- What `vfprint` hands to `write`: the 256 bytes at `buf` up to the NUL.
unfoldable pub written : Printed → (buf : ℕ) → Option Text
written (printed m) buf = text_at 256 m buf
written asserts buf = none
written undefined buf = none

-- `fprint` and `print` are `vfprint` with their own arguments; `write` returns what the system's does.
module _ {A : Type 0} (write : (fd : ℕ) → Text → A) (errstr : Text) (m : ℕ → ℕ) (buf : ℕ) where
  unfoldable pub vfprint : (fd : ℕ) → (fmt : Text) → List Arg → Option A
  vfprint fd fmt args = elim (written (vseprint errstr m buf (buf + 256) fmt args) buf) [
    | none ↦ none
    | some s ↦ some (write fd s)
  ]

  unfoldable pub vprint : (fmt : Text) → List Arg → Option A
  vprint fmt args = vfprint 1 fmt args

  unfoldable pub fprint : (fd : ℕ) → (fmt : Text) → List Arg → Option A
  fprint fd fmt args = vfprint fd fmt args

  unfoldable pub print : (fmt : Text) → List Arg → Option A
  print fmt args = vprint fmt args

unfoldable pub strecpy : (ℕ → ℕ) → (dst edst : ℕ) → Text → ℕ → ℕ
strecpy m dst edst src = let r = printstr m dst edst src 0 false in update r.0 r.1 0
