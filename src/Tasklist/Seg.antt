-- ===== src/Tasklist/Seg.antt =====
-- Segments of a doubly linked list, and what changes of the store they survive.
use libtask_annotation.Base.{
  Ptr, ◌≡◌, refl, ◌≢◌, List, [], ◌∷◌, ◌++◌, arith, ◌∈◌, ◌∉◌, Disjoint, has-append,
}
use libtask_annotation.World.{Task}

-- From `p` the `next` links lead through the distinct tasks `xs` to `end`, and the `prev` links
-- lead back from `last` to `before`.
abbrev pub Seg : (Ptr → Task) → (before p : Ptr) → List Ptr → (last end : Ptr) → Type 0
Seg m before p [] last end = (last ≡ before) × (p ≡ end)
Seg m before p (x ∷ xs) last end =
    (p ≡ x) × (x ≢ 0) × ((m x).prev ≡ before) × (x ∉ xs) × Seg m x ((m x).next) xs last end

-- The two stores have the same links at the tasks of `xs`.
abbrev pub SameLinks : List Ptr → (Ptr → Task) → (Ptr → Task) → Type 0
SameLinks xs m g = (a : Ptr) → a ∈ xs → ((g a).next ≡ (m a).next) × ((g a).prev ≡ (m a).prev)

pub frame :
    (m g : Ptr → Task) (before p : Ptr) (xs : List Ptr) (last end : Ptr)
    → SameLinks xs m g
    → Seg m before p xs last end
    → Seg g before p xs last end
frame m g before p [] last end same s = s
frame m g before p (x ∷ xs) last end same (e, ne, back, out, s) =
    let at : ((g x).next ≡ (m x).next) × ((g x).prev ≡ (m x).prev) = same x (ground arith) in
    (
      e,
      ne,
      ground arith,
      out,
      rw at.0 (frame m g x ((m x).next) xs last end (λ a i. same a (ground arith)) s),
    )

pub last-mem :
    (m : Ptr → Task) (before p x : Ptr) (xs : List Ptr) (last end : Ptr)
    → Seg m before p (x ∷ xs) last end
    → last ∈ (x ∷ xs)
last-mem m before p x [] last end s = ground arith
last-mem m before p x (y ∷ ys) last end s =
    ground (arith, last-mem m x ((m x).next) y ys last end s.4)

pub append :
    (m : Ptr → Task) (before p : Ptr) (xs : List Ptr) (mid q : Ptr) (ys : List Ptr) (last end : Ptr)
    → Disjoint xs ys
    → Seg m before p xs mid q
    → Seg m mid q ys last end
    → Seg m before p (xs ++ ys) last end
append m before p [] mid q ys last end apart s t = rw (← s.0, s.1) t
append m before p (x ∷ xs) mid q ys last end apart (e, ne, back, out, s) t = (
  e,
  ne,
  back,
  rw (has-append, out) (apart x (ground arith)),
  append m x ((m x).next) xs mid q ys last end (λ a i. apart a (ground arith)) s t,
)

-- The segment around one of its tasks.
pub split :
    (m : Ptr → Task) (before p : Ptr) (xs : List Ptr) (t : Ptr) (ys : List Ptr) (last end : Ptr)
    → Seg m before p (xs ++ t ∷ ys) last end
    → Seg m before p xs (m t).prev t × Seg m (m t).prev t (t ∷ ys) last end
split m before p [] t ys last end (e, ne, back, out, s) = ((back, e), (refl, ne, refl, out, s))
split m before p (x ∷ xs) t ys last end (e, ne, back, out, s) =
    let rest = split m x ((m x).next) xs t ys last end s in
    ((e, ne, back, ground (arith, has-append x xs (t ∷ ys)), rest.0), rest.1)

-- The tasks before one and after it are others.
pub split-out :
    (m : Ptr → Task) (before p : Ptr) (xs : List Ptr) (t : Ptr) (ys : List Ptr) (last end : Ptr)
    → Seg m before p (xs ++ t ∷ ys) last end
    → (t ∉ xs) × (t ∉ ys) × Disjoint xs ys
split-out m before p [] t ys last end s = (refl, s.3, λ a i. cc)
split-out m before p (x ∷ xs) t ys last end (e, ne, back, out, s) =
    let rest = split-out m x ((m x).next) xs t ys last end s in
    let apart : x ∉ (xs ++ t ∷ ys) = out in
    (
      ground (arith, has-append x xs (t ∷ ys)),
      rest.1,
      λ a i. ground (arith, rest.2 a, has-append x xs (t ∷ ys)),
    )

-- `g` has the links of `m` at the tasks of `xs`, but that `last` points on to `end`.
pub record EndsAt (xs : List Ptr) (last end : Ptr) (m g : Ptr → Task) : Type 0 where
  pub back : (a : Ptr) → a ∈ xs → (g a).prev ≡ (m a).prev
  pub forth : (a : Ptr) → a ∈ xs → a ≢ last → (g a).next ≡ (m a).next
  pub here : (g last).next ≡ end

pub relink :
    (m g : Ptr → Task) (before p x : Ptr) (xs : List Ptr) (last end end' : Ptr)
    → EndsAt (x ∷ xs) last end' m g
    → Seg m before p (x ∷ xs) last end
    → Seg g before p (x ∷ xs) last end'
relink m g before p x [] last end end' r (e, ne, back, out, s) =
    (e, ne, ground (arith, r.back x), out, (s.0, ground (arith, r.here)))
relink m g before p x (y ∷ ys) last end end' r (e, ne, back, out, s) =
    let inside = last-mem m x ((m x).next) y ys last end s in
    let rest =
      relink m g x ((m x).next) y ys last end end'
        (record {
          back = λ a i. r.back a (ground arith);
          forth = λ a i n. r.forth a (ground arith) n;
          here = r.here;
        })
        s in
    let on : (g x).next ≡ (m x).next = r.forth x (ground arith) (λ q. ground arith) in
    (e, ne, ground (arith, r.back x), out, rw on rest)

-- `nil` is no task of a list.
pub mem-ne_zero :
    (m : Ptr → Task) (before p : Ptr) (xs : List Ptr) (last end a : Ptr)
    → Seg m before p xs last end
    → a ∈ xs
    → a ≢ 0
mem-ne_zero m before p [] last end a s i = λ e. cc
mem-ne_zero m before p (x ∷ xs) last end a (e, ne, back, out, s) i =
    ground (arith, mem-ne_zero m x ((m x).next) xs last end a s)
