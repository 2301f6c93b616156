-- ===== src/Print/Buffer.antt =====
-- What a text put into memory leaves there, and the field that `printstr` prints.
use libtask_annotation.Base.{
  ℕ, zero, suc, ◌+◌, ◌-◌, ◌≤◌, ◌<◌, ◌≡◌, ◌⊎◌, inl, inr, refl, ap, ◌∙◌, Bool, true, false, [], ◌∷◌,
  ◌++◌, arith, length, length-append, leb, ◌==◌, if◌then◌else◌, update, Text, take, repeat,
  Bool-cases,
}
use libtask_annotation.Print.{put, field_len, shown_len, printstr}

pub put-append :
    (m : ℕ → ℕ) (p : ℕ) (s t : Text) → put m p (s ++ t) ≡ put (put m p s) (p + length s) t
unfolding put
put-append m p [] t = ap (λ (q : ℕ). put m q t) (omega arith)
put-append m p (c ∷ s) t =
    put-append (update m p c) (p + 1) s t
    ∙ ap (λ (q : ℕ). put (put (update m p c) (p + 1) s) q t) (omega arith)

-- Only the bytes under the text change.
pub put-outside :
    (m : ℕ → ℕ) (p : ℕ) (s : Text) (a : ℕ) → (a < p) ⊎ (p + length s ≤ a) → put m p s a ≡ m a
unfolding put
put-outside m p [] a out = refl
put-outside m p (c ∷ s) a out = ground (arith, put-outside (update m p c) (p + 1) s a)

-- The text is there.
unfoldable pub Holds : (ℕ → ℕ) → (p : ℕ) → Text → Type 0
Holds m p [] = Unit
Holds m p (c ∷ s) = (m p ≡ c) × Holds m (p + 1) s

pub put-Holds : (m : ℕ → ℕ) (p : ℕ) (s : Text) → Holds (put m p s) p s
unfolding put Holds
put-Holds m p [] = tt
put-Holds m p (c ∷ s) =
    (ground (arith, put-outside (update m p c) (p + 1) s p), put-Holds (update m p c) (p + 1) s)

pub length-repeat : (n c : ℕ) → length (repeat n c) ≡ n
unfolding repeat
length-repeat zero c = refl
length-repeat (suc n) c = ap suc (length-repeat n c)

pub length-take : (n : ℕ) (s : Text) → n ≤ length s → length (take n s) ≡ n
unfolding take
length-take zero s le = refl
length-take (suc n) [] le = absurd (omega arith)
length-take (suc n) (c ∷ s) le = omega (arith, length-take n s)

-- A text in a field of `size`, cut to leave one of the `room` bytes: the text is cut at its end, and
-- blanks go behind it or before it.
unfoldable pub field : (room : ℕ) → Text → (size : ℕ) → (left : Bool) → Text
field room s size left =
    let n = field_len room (length s) size in
    let l = shown_len room (length s) size in
    if room == 0
    then []
    else (if left then take l s ++ repeat (n - l) b' ' else repeat (n - l) b' ' ++ take l s)

shown-le :
    (room len size : ℕ)
    → (shown_len room len size ≤ len) × (shown_len room len size ≤ field_len room len size)
unfolding shown_len field_len
shown-le room len size = ground arith

field_len-lt : (room len size : ℕ) → 0 < room → field_len room len size < room
unfolding field_len
field_len-lt room len size pos = ground arith

-- The two parts are as long as the field.
parts-length :
    (room : ℕ) (s : Text) (size : ℕ)
    → let n = field_len room (length s) size in
      let l = shown_len room (length s) size in
      (length (take l s) ≡ l)
      × (length (take l s ++ repeat (n - l) b' ') ≡ n)
      × (length (repeat (n - l) b' ' ++ take l s) ≡ n)
parts-length room s size =
    let n = field_len room (length s) size in
    let l = shown_len room (length s) size in
    let (le, le') = shown-le room (length s) size in
    let e = length-take l s le in
    let f = length-repeat (n - l) b' ' in
    (
      e,
      omega (arith, length-append (take l s) (repeat (n - l) b' ')),
      omega (arith, length-append (repeat (n - l) b' ') (take l s)),
    )

pub length-field :
    (room : ℕ) (s : Text) (size : ℕ) (left : Bool)
    → 0 < room
    → length (field room s size left) ≡ field_len room (length s) size
unfolding field
length-field room s size true pos =
    let some : (room == 0) ≡ false = ground arith in rw some (parts-length room s size).1
length-field room s size false pos =
    let some : (room == 0) ≡ false = ground arith in rw some (parts-length room s size).2

pub field-lt :
    (room : ℕ) (s : Text) (size : ℕ) (left : Bool)
    → 0 < room
    → length (field room s size left) < room
field-lt room s size left pos =
    omega (arith, length-field room s size left pos, field_len-lt room (length s) size pos)

-- The two parts of a field, one behind the other.
put-parts :
    (m : ℕ → ℕ) (p n k : ℕ) (s t : Text)
    → length s ≡ k
    → length (s ++ t) ≡ n
    → ◌≡◌ {A = (ℕ → ℕ) × ℕ}
        (put (put m p s) (p + k) t, p + n)
        (put m p (s ++ t), p + length (s ++ t))
put-parts m p n k s t e e' = rw (← e, ← e', put-append m p s t) refl

printstr-out :
    (m : ℕ → ℕ) (dst edst : ℕ) (s : Text) (size : ℕ) (left : Bool)
    → leb edst dst ≡ true
    → printstr m dst edst s size left
      ≡ (put m dst (field (edst - dst) s size left), dst + length (field (edst - dst) s size left))
unfolding printstr field put
printstr-out m dst edst s size left out =
    let none : (edst - dst == 0) ≡ true = ground arith in
    let same : dst + 0 ≡ dst = omega arith in rw (out, none, same)

printstr-inside :
    (m : ℕ → ℕ) (dst edst : ℕ) (s : Text) (size : ℕ) (left : Bool)
    → leb edst dst ≡ false
    → printstr m dst edst s size left
      ≡ (put m dst (field (edst - dst) s size left), dst + length (field (edst - dst) s size left))
unfolding printstr field
printstr-inside m dst edst s size true inside =
    let some : (edst - dst == 0) ≡ false = ground arith in
    let n = field_len (edst - dst) (length s) size in
    let l = shown_len (edst - dst) (length s) size in
    let e = parts-length (edst - dst) s size in
    rw (inside, some) (put-parts m dst n l (take l s) (repeat (n - l) b' ') e.0 e.1)
printstr-inside m dst edst s size false inside =
    let some : (edst - dst == 0) ≡ false = ground arith in
    let n = field_len (edst - dst) (length s) size in
    let l = shown_len (edst - dst) (length s) size in
    let e = parts-length (edst - dst) s size in
    rw (inside, some)
      (put-parts m dst n (n - l) (repeat (n - l) b' ') (take l s) (length-repeat (n - l) b' ') e.2)

-- `printstr` puts the field at `dst` and returns where it ends.
pub printstr-field :
    (m : ℕ → ℕ) (dst edst : ℕ) (s : Text) (size : ℕ) (left : Bool)
    → printstr m dst edst s size left
      ≡ (put m dst (field (edst - dst) s size left), dst + length (field (edst - dst) s size left))
printstr-field m dst edst s size left = elim (Bool-cases (leb edst dst)) [
  | inl out ↦ printstr-out m dst edst s size left out
  | inr inside ↦ printstr-inside m dst edst s size left inside
]
