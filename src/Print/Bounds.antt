-- ===== src/Print/Bounds.antt =====
-- `vseprint` stays inside its buffer, ends the text with a NUL, and its assertion holds.
use libtask_annotation.Base.{
  ℕ, suc, ◌+◌, ◌-◌, ◌≤◌, ◌<◌, ◌≡◌, ◌⊎◌, inl, inr, refl, ap, ◌∙◌, true, Option, none, some, List, [],
  ◌∷◌, ◌++◌, arith, length, length-append, ltb, ◌==◌, update, Text, codes, Bool-cases,
}
use libtask_annotation.Print.{
  put, Arg, flag, show_verb, Mode, plain, behind, no_flags, Printed, printed, asserts, undefined,
  end_text, vseprint,
}
use libtask_annotation.Print.Buffer.{put-append, put-outside, field, field-lt}
use libtask_annotation.Print.Render.{
  cut, render, follow, placed, vformat-render, Option-cases, Shows-cases,
}

-- The text, if there is one, leaves a byte.
abbrev Fits : (room : ℕ) → Option Text → Type 0
Fits room none = Unit
Fits room (some t) = length t < room

cut-lt : (room : ℕ) (s : Text) → 0 < room → length (cut room s) < room
unfolding cut
cut-lt room [] pos = pos
cut-lt room (c ∷ s) pos = elim (Bool-cases (ltb 1 room)) [
  | inl more ↦
      rw (cut, more) (omega (arith, cut-lt (room - 1) s (ground arith), ground_lt room more))
  | inr full ↦ rw (cut, full) pos
]
  where
    ground_lt : (room : ℕ) → ltb 1 room ≡ true → 1 < room
    ground_lt room h = ground arith

Fits-follow :
    (room : ℕ) (s : Text) (o : Option Text)
    → length s < room
    → Fits (room - length s) o
    → Fits room (follow s o)
Fits-follow room s none lt f = tt
Fits-follow room s (some t) lt f = omega (arith, length-append s t)

render-Fits :
    (errstr : Text) (mode : Mode) (fmt : Text) (args : List Arg) (room : ℕ)
    → 0 < room
    → Fits room (render errstr mode fmt args room)
unfolding render
render-Fits errstr plain [] args room pos = pos
render-Fits errstr (behind v) [] args room pos = tt
render-Fits errstr plain (c ∷ fmt) args room pos = elim (Bool-cases (ltb 1 room)) [
  | inr full ↦ rw (render, full) pos
  | inl more ↦ elim (Bool-cases (c == b'%')) [
    | inl percent ↦
        rw (render, more, percent) (render-Fits errstr (behind no_flags) fmt args room pos)
    | inr other ↦
        rw (render, more, other)
          (Fits-follow room (c ∷ []) (render errstr plain fmt args (room - 1)) (ground arith)
            (render-Fits errstr plain fmt args (room - 1) (ground arith)))
  ]
]
render-Fits errstr (behind v) (c ∷ fmt) args room pos = elim (Option-cases (flag v c)) [
  | inr (v', e) ↦ rw (render, e) (render-Fits errstr (behind v') fmt args room pos)
  | inl e ↦ elim (Shows-cases (show_verb errstr v c args)) [
    | inl bad ↦ rw (render, e, bad) tt
    | inr (inl bad) ↦ rw (render, e, bad) (cut-lt room (codes "*verb*") pos)
    | inr (inr (s, (rest, good))) ↦
        let f = field room s v.size v.left in
        let lt = field-lt room s v.size v.left pos in
        rw (render, e, good)
          (Fits-follow room f (render errstr plain fmt rest (room - length f)) lt
            (render-Fits errstr plain fmt rest (room - length f) (omega arith)))
  ]
]

-- What `vseprint` leaves in memory when its text is this.
abbrev pub ended : (ℕ → ℕ) → (dst : ℕ) → Option Text → Printed
ended m dst none = undefined
ended m dst (some t) = printed (put m dst (t ++ 0 ∷ []))

end_text-ended :
    (m : ℕ → ℕ) (dst edst : ℕ) (o : Option Text)
    → dst < edst
    → Fits (edst - dst) o
    → end_text edst (placed m dst o) ≡ ended m dst o
unfolding end_text put
end_text-ended m dst edst none lt f = refl
end_text-ended m dst edst (some t) lt f =
    let inside : ltb (dst + length t) edst ≡ true = ground arith in
    rw (inside, put-append m dst t (0 ∷ [])) refl

-- vseprint into a buffer that has room for a NUL puts what render gives for the room, and a NUL.
pub vseprint-render :
    (errstr : Text) (m : ℕ → ℕ) (dst edst : ℕ) (fmt : Text) (args : List Arg)
    → dst < edst
    → vseprint errstr m dst edst fmt args ≡ ended m dst (render errstr plain fmt args (edst - dst))
unfolding vseprint
vseprint-render errstr m dst edst fmt args lt =
    ap (end_text edst) (vformat-render errstr edst plain fmt args m dst)
    ∙ end_text-ended m dst edst (render errstr plain fmt args (edst - dst)) lt
        (render-Fits errstr plain fmt args (edst - dst) (omega arith))

-- Memory `g` is `m` but for the bytes from `dst` to `edst`, which end a text.
pub record Inside (m g : ℕ → ℕ) (dst edst : ℕ) : Type 0 where
  pub others : (a : ℕ) → (a < dst) ⊎ (edst ≤ a) → g a ≡ m a
  pub nul : (a : ℕ) × (dst ≤ a) × (a < edst) × (g a ≡ 0)

last-nul : (m : ℕ → ℕ) (p : ℕ) (t : Text) → put m p (t ++ 0 ∷ []) (p + length t) ≡ 0
unfolding put
last-nul m p [] = ground arith
last-nul m p (c ∷ t) =
    let e : p + suc (length t) ≡ p + 1 + length t = omega arith in
    rw e (last-nul (update m p c) (p + 1) t)

-- What may come of a call: the memory is changed inside the buffer only, or the behaviour is undefined.
-- The assertion does not fail.
abbrev pub StaysInside : (m : ℕ → ℕ) → (dst edst : ℕ) → Printed → Type 0
StaysInside m dst edst (printed g) = Inside m g dst edst
StaysInside m dst edst asserts = ⊥
StaysInside m dst edst undefined = Unit

ended-Inside :
    (m : ℕ → ℕ) (dst edst : ℕ) (o : Option Text)
    → dst < edst
    → Fits (edst - dst) o
    → StaysInside m dst edst (ended m dst o)
ended-Inside m dst edst none lt f = tt
ended-Inside m dst edst (some t) lt f = record {
  others = λ a out. put-outside m dst (t ++ 0 ∷ []) a (ground (arith, length-append t (0 ∷ [])));
  nul = (dst + length t, omega arith, omega arith, last-nul m dst t);
}

-- vseprint into a buffer that has room for a NUL never fails its assertion. Where the format and
-- the arguments define its behaviour it returns, no byte outside of the buffer has changed, and
-- a byte inside is NUL.
pub vseprint-Inside :
    (errstr : Text) (m : ℕ → ℕ) (dst edst : ℕ) (fmt : Text) (args : List Arg)
    → dst < edst
    → StaysInside m dst edst (vseprint errstr m dst edst fmt args)
vseprint-Inside errstr m dst edst fmt args lt = rw (vseprint-render errstr m dst edst fmt args lt) (
    ended-Inside m dst edst (render errstr plain fmt args (edst - dst)) lt
      (render-Fits errstr plain fmt args (edst - dst) (omega arith)))
