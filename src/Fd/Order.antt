-- ===== src/Fd/Order.antt =====
-- The order of the tasks that sleep, and where the loop of `taskdelay` stops in it.
use libtask_annotation.Base.{
  ℕ, zero, suc, ◌≡◌, ◌≤◌, ◌<◌, ◌==◌, refl, ap, Ptr, some, false, List, [], ◌∷◌, ◌++◌, arith, ◌∈◌,
  ◌∉◌, length, has-append, Bool-cases, inl, inr, ltb, if◌then◌else◌,
}
use libtask_annotation.Tasklist.{Tasks}
use libtask_annotation.Tasklist.Seg.{Seg}
use libtask_annotation.Fd.{first_later}
use libtask_annotation.Fd.Insert.{first_of}

-- Every task of the list wakes before `when`.
abbrev pub AllBefore : Tasks → (when : ℕ) → List Ptr → Type 0
AllBefore m when xs = (a : Ptr) → a ∈ xs → (m a).alarmtime < when

-- None of them does.
abbrev pub NoneBefore : Tasks → (when : ℕ) → List Ptr → Type 0
NoneBefore m when xs = (a : Ptr) → a ∈ xs → when ≤ (m a).alarmtime

-- The list is in the order of the times.
abbrev pub IsSorted : Tasks → List Ptr → Type 0
IsSorted m [] = Unit
IsSorted m (x ∷ xs) = NoneBefore m (m x).alarmtime xs × IsSorted m xs

-- The loop stops where the tasks that wake before `when` end.
pub record Found (fuel : ℕ) (m : Tasks) (when : ℕ) (p : Ptr) (zs : List Ptr) : Type 0 where
  pub before : List Ptr
  pub later : List Ptr
  pub whole : zs ≡ before ++ later
  pub stops : first_later fuel m when p ≡ some (first_of later)
  pub early : AllBefore m when before
  pub late : NoneBefore m when later

pub first_later-Found :
    (fuel : ℕ) (m : Tasks) (when : ℕ) (before p : Ptr) (zs : List Ptr) (last : Ptr)
    → length zs < fuel
    → IsSorted m zs
    → Seg m before p zs last 0
    → Found fuel m when p zs
unfolding first_later
first_later-Found zero m when before p zs last lt sorted s = absurd (omega arith)
first_later-Found (suc fuel) m when before p [] last lt sorted s = record {
  before = [];
  later = [];
  whole = refl;
  stops = rw s.1;
  early = λ a i. cc;
  late = λ a i. cc;
}
first_later-Found (suc fuel) m when before p (z ∷ zs) last lt (first, sorted)
      (e, ne, back, out, s) =
    let nz : (z == 0) ≡ false = ground arith in
    elim (Bool-cases (ltb (m z).alarmtime when)) [
      | inl early ↦
          let r = first_later-Found fuel m when z ((m z).next) zs last (omega arith) sorted s in
          record {
            before = z ∷ r.before;
            later = r.later;
            whole = ap (λ (l : List Ptr). z ∷ l) r.whole;
            stops = rw (e, nz, early) r.stops;
            early = λ a i. ground (arith, r.early a);
            late = r.late;
          }
      | inr late ↦ record {
        before = [];
        later = z ∷ zs;
        whole = refl;
        stops = rw (e, nz, late);
        early = λ a i. cc;
        late = λ a i. ground (arith, first a);
      }
    ]

pub IsSorted-insert :
    (m g : Tasks) (x : Ptr) (when : ℕ) (xs ys : List Ptr)
    → ((a : Ptr) → (g a).alarmtime ≡ (if a == x then when else (m a).alarmtime))
    → x ∉ xs
    → x ∉ ys
    → AllBefore m when xs
    → NoneBefore m when ys
    → IsSorted m (xs ++ ys)
    → IsSorted g (xs ++ x ∷ ys)
IsSorted-insert m g x when [] [] same out out' early late sorted = (λ a i. cc, tt)
IsSorted-insert m g x when [] (y ∷ ys) same out out' early late (first, sorted) =
    (λ a i. ground (arith, same a, same x, late a), IsSorted-same (y ∷ ys) (first, sorted) out')
  where
    IsSorted-same : (zs : List Ptr) → IsSorted m zs → x ∉ zs → IsSorted g zs
    IsSorted-same [] s out = tt
    IsSorted-same (z ∷ zs) (f, s) out =
        (λ a i. ground (arith, same a, same z, f a), IsSorted-same zs s (ground arith))
IsSorted-insert m g x when (z ∷ xs) ys same out out' early late (first, sorted) = (
  λ a i.
      ground
        (arith, same a, same z, first a, early z, has-append a xs (x ∷ ys), has-append a xs ys),
  IsSorted-insert m g x when xs ys same (ground arith) out' (λ a i. early a (ground arith)) late
      sorted,
)
