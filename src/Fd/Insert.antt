-- ===== src/Fd/Insert.antt =====
-- The list of the tasks that sleep in `taskdelay`: a task goes in where its time belongs.
use libtask_annotation.Base.{
  ℕ, ◌≡◌, ◌≢◌, ◌==◌, refl, sym, subst, Ptr, List, [], ◌∷◌, ◌++◌, append-nil, ◌∙◌, arith, ◌∉◌,
  Disjoint, if◌then◌else◌,
}
use libtask_annotation.World.{Tasklist}
use libtask_annotation.Tasklist.{Tasks, set_next, set_prev}
use libtask_annotation.Tasklist.Seg
use libtask_annotation.Tasklist.Seg.{Seg, SameLinks}
use libtask_annotation.Tasklist.Links.{IsQueue}
use libtask_annotation.Fd.{aim, set_alarm, join_forward, join_backward, insert_sleeper}

-- The tasks before `x` lead on to it.
join_forward-Seg :
    (m : Tasks) (l : Tasklist) (x t : Ptr) (xs : List Ptr)
    → x ∉ xs
    → Seg m 0 l.head xs (m x).prev t
    → Seg (join_forward m l x).0 0 (join_forward m l x).1.head xs (m x).prev x
unfolding join_forward
join_forward-Seg m l x t [] out s = ground arith
join_forward-Seg m l x t (y ∷ ys) out s =
    let i = Seg.last-mem m 0 l.head y ys (m x).prev t s in
    let ne = Seg.mem-ne_zero m 0 l.head (y ∷ ys) (m x).prev t (m x).prev s i in
    let set : join_forward m l x ≡ (set_next m (m x).prev x, l) = ground arith in
    subst (λ r. Seg r.0 0 r.1.head (y ∷ ys) (m x).prev x) (sym set)
      (Seg.relink m (set_next m (m x).prev x) 0 l.head y ys (m x).prev t x
        (record { back = λ a j. ground arith; forth = λ a j n. ground arith; here = ground arith })
        s)

join_forward-same :
    (m : Tasks) (l : Tasklist) (x t : Ptr) (xs ys : List Ptr)
    → Seg m 0 l.head xs (m x).prev t
    → Disjoint xs ys
    → SameLinks ys m (join_forward m l x).0 × ((join_forward m l x).1.tail ≡ l.tail)
unfolding join_forward
join_forward-same m l x t [] ys s apart = (λ a i. ground arith, ground arith)
join_forward-same m l x t (y ∷ xs) ys s apart =
    let j = Seg.last-mem m 0 l.head y xs (m x).prev t s in
    (λ a i. ground (arith, apart a), ground arith)

-- The tasks after `x` lead back to it.
join_backward-Seg :
    (m : Tasks) (l : Tasklist) (x before : Ptr) (ys : List Ptr)
    → x ∉ ys
    → Seg m before (m x).next ys l.tail 0
    → Seg (join_backward m l x).0 x (m x).next ys (join_backward m l x).1.tail 0
unfolding join_backward
join_backward-Seg m l x before [] out s = ground arith
join_backward-Seg m l x before (y ∷ ys) out (e, ne, back, new, s) =
    let set : join_backward m l x ≡ (set_prev m (m x).next x, l) = ground arith in
    let g = set_prev m (m x).next x in
    let on : (g y).next ≡ (m y).next = ground arith in
    subst (λ r. Seg r.0 x (m x).next (y ∷ ys) r.1.tail 0) (sym set)
      (
        e,
        ne,
        ground arith,
        new,
        rw on (Seg.frame m g y ((m y).next) ys l.tail 0 (λ a i. ground arith) s),
      )

join_backward-same :
    (m : Tasks) (l : Tasklist) (x before : Ptr) (xs ys : List Ptr)
    → Seg m before (m x).next ys l.tail 0
    → Disjoint xs ys
    → SameLinks xs m (join_backward m l x).0 × ((join_backward m l x).1.head ≡ l.head)
unfolding join_backward
join_backward-same m l x before xs [] s apart = (λ a i. ground arith, ground arith)
join_backward-same m l x before xs (y ∷ ys) s apart = (λ a i. ground (arith, apart a), ground arith)

-- Once the links of `x` are set, its neighbours take it in between them.
join-Seg :
    (m : Tasks) (l : Tasklist) (x : Ptr) (xs ys : List Ptr)
    → x ≢ 0
    → x ∉ xs
    → x ∉ ys
    → Disjoint xs ys
    → Seg m 0 l.head xs (m x).prev (m x).next
    → Seg m (m x).prev (m x).next ys l.tail 0
    → IsQueue
        (join_backward (join_forward m l x).0 (join_forward m l x).1 x).0
        (join_backward (join_forward m l x).0 (join_forward m l x).1 x).1
        (xs ++ x ∷ ys)
join-Seg m l x xs ys ne out out' apart s s' =
    let m' = (join_forward m l x).0 in
    let l' = (join_forward m l x).1 in
    let g = (join_backward m' l' x).0 in
    let h = (join_backward m' l' x).1 in
    let first = join_forward-Seg m l x (m x).next xs out s in
    let kept = join_forward-same m l x (m x).next xs (x ∷ ys) s (λ a i. ground (arith, apart a)) in
    let here = kept.0 x (ground arith) in
    let after : Seg m' (m x).prev (m' x).next ys l'.tail 0 =
      rw (here.0, kept.1)
        (Seg.frame m m' (m x).prev (m x).next ys l.tail 0 (λ a i. kept.0 a (ground arith)) s') in
    let second = join_backward-Seg m' l' x (m x).prev ys out' after in
    let still =
      join_backward-same m' l' x (m x).prev (x ∷ xs) ys after (λ a i. ground (arith, apart a)) in
    let here' = still.0 x (ground arith) in
    let first' : Seg g 0 h.head xs (m x).prev x =
      rw still.1
        (Seg.frame m' g 0 l'.head xs (m x).prev x (λ a i. still.0 a (ground arith)) first) in
    let second' : Seg g x (g x).next ys h.tail 0 = rw here'.0 second in
    record {
      chain =
          Seg.append g 0 h.head xs (m x).prev x (x ∷ ys) h.tail 0 (λ a i. ground (arith, apart a))
            first' (refl, ne, here'.1 ∙ here.1, out', second');
    }

-- The task that the rest of the list begins with.
abbrev pub first_of : List Ptr → Ptr
first_of [] = 0
first_of (y ∷ ys) = y

-- `x` is aimed at its place between `xs` and `ys`.
aim-Seg :
    (m : Tasks) (l : Tasklist) (x : Ptr) (when : ℕ) (xs ys : List Ptr)
    → x ∉ xs
    → x ∉ ys
    → IsQueue m l (xs ++ ys)
    → Disjoint xs ys
      × (let g = set_alarm (aim m l x (first_of ys)) x when in
          Seg g 0 l.head xs (g x).prev (g x).next × Seg g (g x).prev (g x).next ys l.tail 0)
unfolding set_alarm aim
aim-Seg m l x when xs [] out out' q =
    let g = set_alarm (aim m l x 0) x when in
    let back : (g x).prev ≡ l.tail = ground arith in
    let forth : (g x).next ≡ 0 = ground arith in
    let s : Seg m 0 l.head xs l.tail 0 = rw append-nil at q.chain in
    (
      λ a i. refl,
      rw (back, forth) (Seg.frame m g 0 l.head xs l.tail 0 (λ a i. ground arith) s, (refl, refl)),
    )
aim-Seg m l x when xs (y ∷ ys) out out' q =
    let parts = Seg.split m 0 l.head xs y ys l.tail 0 q.chain in
    let others = Seg.split-out m 0 l.head xs y ys l.tail 0 q.chain in
    let g = set_alarm (aim m l x y) x when in
    let ne : y ≢ 0 = parts.1.1 in
    let back : (g x).prev ≡ (m y).prev = ground arith in
    let forth : (g x).next ≡ y = ground arith in
    (
      λ a i. ground (arith, others.2 a),
      rw (back, forth)
          (
            Seg.frame m g 0 l.head xs (m y).prev y (λ a i. ground arith) parts.0,
            Seg.frame m g (m y).prev y (y ∷ ys) l.tail 0 (λ a i. ground arith) parts.1,
          ),
    )

pub insert_sleeper-IsQueue :
    (m : Tasks) (l : Tasklist) (x : Ptr) (when : ℕ) (xs ys : List Ptr)
    → x ≢ 0
    → x ∉ xs
    → x ∉ ys
    → IsQueue m l (xs ++ ys)
    → IsQueue
        (insert_sleeper m l x (first_of ys) when).0
        (insert_sleeper m l x (first_of ys) when).1
        (xs ++ x ∷ ys)
unfolding insert_sleeper
insert_sleeper-IsQueue m l x when xs ys ne out out' q =
    let (apart, (s, s')) = aim-Seg m l x when xs ys out out' q in
    join-Seg (set_alarm (aim m l x (first_of ys)) x when) l x xs ys ne out out' apart s s'

pub insert_sleeper-alarm :
    (m : Tasks) (l : Tasklist) (x t : Ptr) (when : ℕ) (a : Ptr)
    → ((insert_sleeper m l x t when).0 a).alarmtime ≡ (if a == x then when else (m a).alarmtime)
unfolding insert_sleeper join_backward join_forward set_alarm aim
insert_sleeper-alarm m l x t when a = ground arith
