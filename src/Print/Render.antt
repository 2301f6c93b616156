-- ===== src/Print/Render.antt =====
-- `vseprint` against a reference: the text that a format stands for, cut to the room there is.
use libtask_annotation.Base.{
  ℕ, suc, ◌+◌, ◌-◌, ◌≡◌, ◌⊎◌, inl, inr, refl, ap, ◌∙◌, true, false, Option, none, some, List, [],
  ◌∷◌, ◌++◌, arith, length, length-append, ltb, ◌==◌, if◌then◌else◌, update, Text, codes,
  Bool-cases,
}
use libtask_annotation.Print.{
  put, Arg, flag, Shows, bad_args, no_verb, shows, show_verb, copy_text, Mode, plain, behind,
  no_flags, vformat,
}
use libtask_annotation.Print.Buffer.{put-append, field, printstr-field}

-- As much of a text as leaves one of the `room` bytes.
unfoldable pub cut : (room : ℕ) → Text → Text
cut room [] = []
cut room (c ∷ s) = if ltb 1 room then c ∷ cut (room - 1) s else []

abbrev pub follow : Text → Option Text → Option Text
follow s none = none
follow s (some t) = some (s ++ t)

-- The text that a format stands for: each verb's text in its field, one behind the other.
unfoldable pub render : (errstr : Text) → Mode → (fmt : Text) → List Arg → (room : ℕ) → Option Text
render errstr plain [] args room = some []
render errstr plain (c ∷ fmt) args room = elim (ltb 1 room) [
  | false ↦ some []
  | true ↦ elim (c == b'%') [
    | true ↦ render errstr (behind no_flags) fmt args room
    | false ↦ follow (c ∷ []) (render errstr plain fmt args (room - 1))
  ]
]
render errstr (behind v) [] args room = none
render errstr (behind v) (c ∷ fmt) args room = elim (flag v c) [
  | some v' ↦ render errstr (behind v') fmt args room
  | none ↦ elim (show_verb errstr v c args) [
    | bad_args ↦ none
    | no_verb ↦ some (cut room (codes "*verb*"))
    | shows s rest ↦
        let f = field room s v.size v.left in
        follow f (render errstr plain fmt rest (room - length f))
  ]
]

-- A text put at `w`, and where it ends.
abbrev pub placed : (ℕ → ℕ) → (w : ℕ) → Option Text → Option ((ℕ → ℕ) × ℕ)
placed m w none = none
placed m w (some t) = some (put m w t, w + length t)

placed-follow :
    (m : ℕ → ℕ) (w : ℕ) (s : Text) (o : Option Text)
    → placed (put m w s) (w + length s) o ≡ placed m w (follow s o)
placed-follow m w s none = refl
placed-follow m w s (some t) =
    let e : w + length s + length t ≡ w + length (s ++ t) = omega (arith, length-append s t) in
    rw (put-append m w s t, e) refl

placed-char :
    (m : ℕ → ℕ) (w c : ℕ) (o : Option Text)
    → placed (update m w c) (w + 1) o ≡ placed m w (follow (c ∷ []) o)
unfolding put
placed-char m w c o = placed-follow m w (c ∷ []) o

copy_text-cut :
    (m : ℕ → ℕ) (w edst : ℕ) (s : Text)
    → copy_text m w edst s ≡ (put m w (cut (edst - w) s), w + length (cut (edst - w) s))
unfolding copy_text cut put
copy_text-cut m w edst [] = let e : w + 0 ≡ w = omega arith in rw e
copy_text-cut m w edst (c ∷ s) = elim (Bool-cases (ltb (w + 1) edst)) [
  | inl more ↦
      let e : ltb 1 (edst - w) ≡ true = ground arith in
      let less : edst - (w + 1) ≡ edst - w - 1 = omega arith in
      let next : w + 1 + length (cut (edst - w - 1) s) ≡ w + suc (length (cut (edst - w - 1) s)) =
        omega arith in
      rw (copy_text, more, e, ← next, ← less) (copy_text-cut (update m w c) (w + 1) edst s)
  | inr full ↦
      let e : ltb 1 (edst - w) ≡ false = ground arith in
      let same : w + 0 ≡ w = omega arith in rw (copy_text, full, e, same)
]

pub Option-cases : {A : Type 0} (o : Option A) → (o ≡ none) ⊎ ((a : A) × (o ≡ some a))
Option-cases none = inl refl
Option-cases (some a) = inr (a, refl)

pub Shows-cases :
    (x : Shows)
    → (x ≡ bad_args) ⊎ ((x ≡ no_verb) ⊎ ((s : Text) × ((rest : List Arg) × (x ≡ shows s rest))))
Shows-cases bad_args = inl refl
Shows-cases no_verb = inr (inl refl)
Shows-cases (shows s rest) = inr (inr (s, (rest, refl)))

pub vformat-render :
    (errstr : Text) (edst : ℕ) (mode : Mode) (fmt : Text) (args : List Arg) (m : ℕ → ℕ) (w : ℕ)
    → vformat errstr edst mode fmt args m w ≡ placed m w (render errstr mode fmt args (edst - w))
unfolding vformat render
vformat-render errstr edst plain [] args m w =
    let e : w + 0 ≡ w = omega arith in unfold put in rw e refl
vformat-render errstr edst (behind v) [] args m w = refl
vformat-render errstr edst plain (c ∷ fmt) args m w = elim (Bool-cases (ltb (w + 1) edst)) [
  | inr full ↦
      let e : ltb 1 (edst - w) ≡ false = ground arith in
      let same : w + 0 ≡ w = omega arith in rw (vformat, full, render, e, same) (unfold put in refl)
  | inl more ↦
      let e : ltb 1 (edst - w) ≡ true = ground arith in
      elim (Bool-cases (c == b'%')) [
        | inl percent ↦
            rw (vformat, more, render, e, percent)
              (vformat-render errstr edst (behind no_flags) fmt args m w)
        | inr other ↦
            let less : edst - (w + 1) ≡ edst - w - 1 = omega arith in
            rw (vformat, more, render, e, other, ← less)
              (vformat-render errstr edst plain fmt args (update m w c) (w + 1)
                ∙ placed-char m w c (render errstr plain fmt args (edst - (w + 1))))
      ]
]
vformat-render errstr edst (behind v) (c ∷ fmt) args m w = elim (Option-cases (flag v c)) [
  | inr (v', e) ↦ rw (vformat, render, e) (vformat-render errstr edst (behind v') fmt args m w)
  | inl e ↦ elim (Shows-cases (show_verb errstr v c args)) [
    | inl bad ↦ rw (vformat, render, e, bad) refl
    | inr (inl bad) ↦
        rw (vformat, render, e, bad)
          (ap (λ (r : (ℕ → ℕ) × ℕ). some r) (copy_text-cut m w edst (codes "*verb*")))
    | inr (inr (s, (rest, good))) ↦
        let f = field (edst - w) s v.size v.left in
        let less : edst - (w + length f) ≡ edst - w - length f = omega arith in
        rw (vformat, render, e, good, printstr-field m w edst s v.size v.left, ← less)
          (vformat-render errstr edst plain fmt rest (put m w f) (w + length f)
            ∙ placed-follow m w f (render errstr plain fmt rest (edst - (w + length f))))
  ]
]
