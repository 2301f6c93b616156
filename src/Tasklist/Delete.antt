-- ===== src/Tasklist/Delete.antt =====
-- What `deltask` does to a list, wherever the task stands in it.
use libtask_annotation.Base.{Ptr, ◌≡◌, refl, sym, subst, List, [], ◌∷◌, ◌++◌, arith, ◌∉◌, Disjoint}
use libtask_annotation.World.{Tasklist}
use libtask_annotation.Tasklist.{Tasks, set_next, set_prev, skip_forward, skip_backward, deltask}
use libtask_annotation.Tasklist.Seg
use libtask_annotation.Tasklist.Seg.{Seg, SameLinks, EndsAt}
use libtask_annotation.Tasklist.Links.{IsQueue}

-- The tasks before `t` lead on to what followed it.
forward-Seg :
    (m : Tasks) (l : Tasklist) (t : Ptr) (xs : List Ptr)
    → t ∉ xs
    → Seg m 0 l.head xs (m t).prev t
    → Seg (skip_forward m l t).0 0 (skip_forward m l t).1.head xs (m t).prev (m t).next
unfolding skip_forward
forward-Seg m l t [] out s = ground arith
forward-Seg m l t (x ∷ xs) out s =
    let i = Seg.last-mem m 0 l.head x xs (m t).prev t s in
    let ne = Seg.mem-ne_zero m 0 l.head (x ∷ xs) (m t).prev t (m t).prev s i in
    let set : skip_forward m l t ≡ (set_next m (m t).prev (m t).next, l) = ground arith in
    subst (λ r. Seg r.0 0 r.1.head (x ∷ xs) (m t).prev (m t).next) (sym set)
      (Seg.relink m (set_next m (m t).prev (m t).next) 0 l.head x xs (m t).prev t (m t).next
        (record { back = λ a j. ground arith; forth = λ a j n. ground arith; here = ground arith })
        s)

-- The first step changes links of the tasks before `t` only, and not the tail.
forward-same :
    (m : Tasks) (l : Tasklist) (t : Ptr) (xs ys : List Ptr)
    → Seg m 0 l.head xs (m t).prev t
    → Disjoint xs ys
    → SameLinks ys m (skip_forward m l t).0 × ((skip_forward m l t).1.tail ≡ l.tail)
unfolding skip_forward
forward-same m l t [] ys s apart = (λ a i. ground arith, ground arith)
forward-same m l t (x ∷ xs) ys s apart =
    let j = Seg.last-mem m 0 l.head x xs (m t).prev t s in
    (λ a i. ground (arith, apart a), ground arith)

-- The tasks after `t` lead back to what stood before it.
backward-Seg :
    (m : Tasks) (l : Tasklist) (t : Ptr) (ys : List Ptr)
    → Seg m t (m t).next ys l.tail 0
    → t ∉ ys
    → Seg (skip_backward m l t).0 (m t).prev (m t).next ys (skip_backward m l t).1.tail 0
unfolding skip_backward
backward-Seg m l t [] s out = ground arith
backward-Seg m l t (y ∷ ys) (e, ne, back, new, s) out =
    let set : skip_backward m l t ≡ (set_prev m (m t).next (m t).prev, l) = ground arith in
    let g = set_prev m (m t).next (m t).prev in
    let on : (g y).next ≡ (m y).next = ground arith in
    subst (λ r. Seg r.0 (m t).prev (m t).next (y ∷ ys) r.1.tail 0) (sym set)
      (
        e,
        ne,
        ground arith,
        new,
        rw on (Seg.frame m g y ((m y).next) ys l.tail 0 (λ a i. ground arith) s),
      )

backward-same :
    (m : Tasks) (l : Tasklist) (t : Ptr) (xs ys : List Ptr)
    → Seg m t (m t).next ys l.tail 0
    → Disjoint xs ys
    → SameLinks xs m (skip_backward m l t).0 × ((skip_backward m l t).1.head ≡ l.head)
unfolding skip_backward
backward-same m l t xs [] s apart = (λ a i. ground arith, ground arith)
backward-same m l t xs (y ∷ ys) s apart = (λ a i. ground (arith, apart a), ground arith)

deltask_lem :
    (m : Tasks) (l : Tasklist) (t : Ptr)
    → deltask m l t ≡ skip_backward (skip_forward m l t).0 (skip_forward m l t).1 t
unfolding deltask
deltask_lem m l t = refl

deltask-chain :
    (m : Tasks) (l : Tasklist) (t : Ptr) (xs ys : List Ptr)
    → Seg m 0 l.head (xs ++ t ∷ ys) l.tail 0
    → Seg (deltask m l t).0 0 (deltask m l t).1.head (xs ++ ys) (deltask m l t).1.tail 0
deltask-chain m l t xs ys s =
    let parts = Seg.split m 0 l.head xs t ys l.tail 0 s in
    let out = Seg.split-out m 0 l.head xs t ys l.tail 0 s in
    let m' = (skip_forward m l t).0 in
    let l' = (skip_forward m l t).1 in
    let first = forward-Seg m l t xs out.0 parts.0 in
    let kept = forward-same m l t xs (t ∷ ys) parts.0 (λ a i. ground (arith, out.2 a)) in
    let here = kept.0 t (ground arith) in
    let rest = Seg.frame m m' t (m t).next ys l.tail 0 (λ a i. kept.0 a (ground arith)) parts.1.4 in
    let again : Seg m' t (m' t).next ys l'.tail 0 = rw (here.0, kept.1) rest in
    let second = backward-Seg m' l' t ys again out.1 in
    let still = backward-same m' l' t xs ys again out.2 in
    let second' : Seg (skip_backward m' l' t).0 (m t).prev (m t).next ys
        (skip_backward m' l' t).1.tail 0 =
      subst (λ n. Seg (skip_backward m' l' t).0 (m t).prev n ys (skip_backward m' l' t).1.tail 0)
        here.0
        (subst
          (λ b. Seg (skip_backward m' l' t).0 b (m' t).next ys (skip_backward m' l' t).1.tail 0)
          here.1 second) in
    let g = (skip_backward m' l' t).0 in
    let first' = Seg.frame m' g 0 l'.head xs (m t).prev (m t).next still.0 first in
    let head : Ptr = (skip_backward m' l' t).1.head in
    subst (λ r. Seg r.0 0 r.1.head (xs ++ ys) r.1.tail 0) (sym (deltask_lem m l t))
      (Seg.append g 0 head xs (m t).prev (m t).next ys (skip_backward m' l' t).1.tail 0 out.2
        (subst (λ h. Seg g 0 h xs (m t).prev (m t).next) (sym still.1) first') second')

-- deltask takes one task out of the list, wherever it stands, and keeps the order of the others.
pub deltask-erase :
    (m : Tasks) (l : Tasklist) (t : Ptr) (xs ys : List Ptr)
    → IsQueue m l (xs ++ t ∷ ys)
    → IsQueue (deltask m l t).0 (deltask m l t).1 (xs ++ ys)
deltask-erase m l t xs ys q = record { chain = deltask-chain m l t xs ys q.chain }
