-- ===== src/Tasklist/Links.antt =====
-- What `addtask` and `deltask` do to the list that a header and the links stand for.
use libtask_annotation.Base.{Ptr, ◌≡◌, refl, ◌≢◌, List, [], ◌∷◌, ◌++◌, arith, ◌∈◌, ◌∉◌}
use libtask_annotation.World.{Tasklist}
use libtask_annotation.Tasklist.{Tasks, set_next, set_prev, addtask}
use libtask_annotation.Tasklist.Seg
use libtask_annotation.Tasklist.Seg.{Seg, SameLinks, EndsAt}

-- The list with header `l` holds the tasks `xs`, in this order.
pub record IsQueue (m : Tasks) (l : Tasklist) (xs : List Ptr) : Type 0 where
  pub chain : Seg m 0 l.head xs l.tail 0

pub IsQueue-frame :
    (m g : Tasks) (l : Tasklist) (xs : List Ptr)
    → SameLinks xs m g
    → IsQueue m l xs
    → IsQueue g l xs
IsQueue-frame m g l xs same q = record { chain = Seg.frame m g 0 l.head xs l.tail 0 same q.chain }

-- The empty header is the empty list.
pub IsQueue-nil : (m : Tasks) → IsQueue m (record { head = 0; tail = 0 }) []
IsQueue-nil m = record { chain = (refl, refl) }

pub head-nil : (m : Tasks) (l : Tasklist) → IsQueue m l [] → l.head ≡ 0
head-nil m l q = q.chain.1

pub head-cons :
    (m : Tasks) (l : Tasklist) (x : Ptr) (xs : List Ptr)
    → IsQueue m l (x ∷ xs)
    → (l.head ≡ x) × (x ≢ 0)
head-cons m l x xs q = (q.chain.0, q.chain.1)

pub tail-cons :
    (m : Tasks) (l : Tasklist) (x : Ptr) (xs : List Ptr)
    → IsQueue m l (x ∷ xs)
    → (l.tail ∈ (x ∷ xs)) × (l.tail ≢ 0)
tail-cons m l x xs q =
    let i = Seg.last-mem m 0 l.head x xs l.tail 0 q.chain in
    (i, Seg.mem-ne_zero m 0 l.head (x ∷ xs) l.tail 0 l.tail q.chain i)

-- The store after `addtask` at a list that ends in `tail`.
abbrev behind : Tasks → Ptr → Ptr → Tasks
behind m tail t = set_next (set_prev (set_next m tail t) t tail) t 0

addtask_at :
    (m : Tasks) (l : Tasklist) (t : Ptr)
    → l.tail ≢ 0
    → addtask m l t ≡ (behind m l.tail t, record l { tail = t })
unfolding addtask
addtask_at m l t ne = ground arith

behind-EndsAt :
    (m : Tasks) (tail t : Ptr) (xs : List Ptr)
    → t ∉ xs
    → tail ∈ xs
    → EndsAt xs tail t m (behind m tail t)
behind-EndsAt m tail t xs out i = record {
  back = λ a j. ground arith;
  forth = λ a j n. ground arith;
  here = ground arith;
}

-- addtask puts a task, which is not nil, behind those of a list that it is not in.
pub addtask-snoc :
    (m : Tasks) (l : Tasklist) (t : Ptr) (xs : List Ptr)
    → t ≢ 0
    → t ∉ xs
    → IsQueue m l xs
    → IsQueue (addtask m l t).0 (addtask m l t).1 (xs ++ t ∷ [])
addtask-snoc m l t [] ne out q = unfold addtask in record { chain = ground arith }
addtask-snoc m l t (x ∷ xs) ne out q =
    let tail = tail-cons m l x xs q in
    let g = behind m l.tail t in
    let old =
      Seg.relink m g 0 l.head x xs l.tail 0 t (behind-EndsAt m l.tail t (x ∷ xs) out tail.0)
        q.chain in
    rw (addtask_at m l t tail.1) (record {
      chain =
          Seg.append g 0 l.head (x ∷ xs) l.tail t (t ∷ []) t 0 (λ a i. ground arith) old
            (refl, ne, ground arith, refl, (refl, ground arith));
    })
