-- ===== src/Fd/Files.antt =====
-- The loops of `fdtask` over the files: whom they wake, and which entries they keep.
use libtask_annotation.Base.{
  ℕ, zero, suc, ◌+◌, ◌-◌, ◌≡◌, ◌≢◌, ◌≤◌, ◌<◌, ◌⊎◌, ◌==◌, ◌&&◌, refl, ◌∙◌, ap, Ptr, true, false,
  arith, ltb, Bool-cases, inl, inr, if◌then◌else◌, dec_lt,
}
use libtask_annotation.World.{World, Pollfd}
use libtask_annotation.Flow.{Returns, Returns-mono}
use libtask_annotation.Tasklist.{addtask}
use libtask_annotation.Task.{make_ready, taskready}
use libtask_annotation.Fd.Poller.{drop_fd, wake_fds}

-- Whether entry `j` is the task's and has no event: 1 or 0.
unfoldable pub idle_at : World → (j : ℕ) → Ptr → ℕ
idle_at w j p = if (w.polltask j == p) && ((w.pollfd j).revents == 0) then 1 else 0

-- How many of the first `n` entries are the task's and have no event.
unfoldable pub idle : World → (n : ℕ) → Ptr → ℕ
idle w zero p = 0
idle w (suc n) p = idle w n p + idle_at w n p

-- The task has been flagged ready, or has an event among the entries from `i` on.
abbrev IsServed : World → (i : ℕ) → Ptr → Type 0
IsServed w i p =
    ((w.task p).ready ≡ true)
    ⊎ ((j : ℕ) × (i ≤ j) × (j < w.npollfd) × (w.polltask j ≡ p) × ((w.pollfd j).revents ≢ 0))

make_ready-flag :
    (t : Ptr) (w : World) (a : Ptr)
    → ((make_ready t w).task a).ready ≡ (if a == t then true else (w.task a).ready)
unfolding make_ready addtask
make_ready-flag t w a = ground arith

make_ready-idle : (t : Ptr) (w : World) (n : ℕ) (p : Ptr) → idle (make_ready t w) n p ≡ idle w n p
unfolding idle idle_at make_ready
make_ready-idle t w zero p = refl
make_ready-idle t w (suc n) p = ground (arith, make_ready-idle t w n p)

idle-above : (w : World) (i n : ℕ) (p : Ptr) → n ≤ i → idle (drop_fd i w) n p ≡ idle w n p
unfolding idle idle_at drop_fd
idle-above w i zero p le = refl
idle-above w i (suc n) p le = ground (arith, idle-above w i n p)

drop_fd-idle_at :
    (w : World) (i j : ℕ) (p : Ptr)
    → idle_at (drop_fd i w) j p ≡ (if j == i then idle_at w (w.npollfd - 1) p else idle_at w j p)
unfolding idle_at drop_fd
drop_fd-idle_at w i j p = ground arith

event-idle_at : (w : World) (i : ℕ) (p : Ptr) → (w.pollfd i).revents ≢ 0 → idle_at w i p ≡ 0
unfolding idle_at
event-idle_at w i p ne = ground arith

-- The last entry takes the place of one that has an event, and does not count.
idle-moved :
    (w : World) (i n : ℕ) (p : Ptr)
    → i < n
    → (w.pollfd i).revents ≢ 0
    → idle (drop_fd i w) n p ≡ idle w n p + idle_at w (w.npollfd - 1) p
unfolding idle
idle-moved w i zero p lt ne = absurd (omega arith)
idle-moved w i (suc n) p lt ne = elim (dec_lt i n) [
  | yes below ↦ ground (arith, idle-moved w i n p below ne, drop_fd-idle_at w i n p)
  | no last ↦ ground (arith, idle-above w i n p, drop_fd-idle_at w i n p, event-idle_at w i p ne)
]

idle-drop_fd :
    (w : World) (i k : ℕ) (p : Ptr)
    → w.npollfd ≡ suc k
    → i < suc k
    → (w.pollfd i).revents ≢ 0
    → idle (drop_fd i w) k p ≡ idle w (suc k) p
unfolding idle
idle-drop_fd w i k p e lt ne =
    let less : w.npollfd - 1 ≡ k = omega arith in
    elim (dec_lt i k) [
      | yes below ↦ rw less at (idle-moved w i k p below ne)
      | no last ↦ ground (arith, idle-above w i k p, event-idle_at w i p ne)
    ]

-- What has come of the entries of `w` once the loops have ended in `v`.
pub record Served (w v : World) (i : ℕ) : Type 0 where
  pub quiet : (j : ℕ) → i ≤ j → j < v.npollfd → (v.pollfd j).revents ≡ 0
  pub kept : (p : Ptr) → idle v v.npollfd p ≡ idle w w.npollfd p
  pub woken : (p : Ptr) → IsServed w i p → (v.task p).ready ≡ true
  pub before : (j : ℕ) → j < i → v.pollfd j ≡ w.pollfd j
  pub fewer : v.npollfd ≤ w.npollfd

Served-end : (w : World) (i : ℕ) → w.npollfd ≤ i → Served w w i
Served-end w i le = record {
  quiet = λ j low high. absurd (omega arith);
  kept = λ p. refl;
  woken = λ p s. elim s [ inl flag ↦ flag | inr (j, low, high, of, event) ↦ absurd (omega arith) ];
  before = λ j low. refl;
  fewer = omega arith;
}

Served-next : (w v : World) (i : ℕ) → (w.pollfd i).revents ≡ 0 → Served w v (i + 1) → Served w v i
Served-next w v i none s = record {
  quiet = λ j low high. elim (dec_lt i j) [
    | yes above ↦ s.quiet j (omega arith) high
    | no here ↦
        ap (λ (f : Pollfd). f.revents) (s.before j (omega arith))
        ∙ (let e : j ≡ i = omega arith in rw e none)
  ];
  kept = s.kept;
  woken = λ p t. s.woken p (elim t [
    | inl flag ↦ inl flag
    | inr (j, low, high, of, event) ↦ inr (j, ground arith, high, of, event)
  ]);
  before = λ j low. s.before j (omega arith);
  fewer = s.fewer;
}

-- The state once the task of entry `i` is ready and the entry is gone.
abbrev served_one : ℕ → World → World
served_one i w = drop_fd i (make_ready (w.polltask i) w)

served_one-IsServed :
    (w : World) (i : ℕ) (p : Ptr) → i < w.npollfd → IsServed w i p → IsServed (served_one i w) i p
unfolding drop_fd
served_one-IsServed w i p lt (inl flag) = inl (ground (arith, make_ready-flag (w.polltask i) w p))
served_one-IsServed w i p lt (inr (j, low, high, of, event)) = elim (dec_lt i j) [
  | no here ↦ inl (ground (arith, make_ready-flag (w.polltask i) w p))
  | yes above ↦ elim (dec_lt j (w.npollfd - 1)) [
    | yes inner ↦ inr (
      j,
      omega arith,
      unfold make_ready in omega arith,
      unfold make_ready in ground arith,
      unfold make_ready in ground arith,
    )
    | no last ↦ inr (
      i,
      omega arith,
      unfold make_ready in omega arith,
      unfold make_ready in ground arith,
      unfold make_ready in ground arith,
    )
  ]
]

served_one-npollfd : (w : World) (i : ℕ) → (served_one i w).npollfd ≡ w.npollfd - 1
unfolding drop_fd make_ready
served_one-npollfd w i = refl

served_one-idle :
    (w : World) (i : ℕ) (p : Ptr)
    → i < w.npollfd
    → (w.pollfd i).revents ≢ 0
    → idle (served_one i w) (served_one i w).npollfd p ≡ idle w w.npollfd p
served_one-idle w i p lt event =
    let g = make_ready (w.polltask i) w in
    let k = w.npollfd - 1 in
    let full : suc k ≡ w.npollfd = omega arith in
    let count : g.npollfd ≡ suc k = unfold make_ready in omega arith in
    let event' : (g.pollfd i).revents ≢ 0 = unfold make_ready in event in
    ap (λ (n : ℕ). idle (served_one i w) n p) (served_one-npollfd w i)
    ∙ idle-drop_fd g i k p count (omega arith) event'
    ∙ make_ready-idle (w.polltask i) w (suc k) p
    ∙ ap (λ (n : ℕ). idle w n p) full

Served-drop :
    (w v : World) (i : ℕ)
    → i < w.npollfd
    → (w.pollfd i).revents ≢ 0
    → Served (served_one i w) v i
    → Served w v i
Served-drop w v i lt event s = record {
  quiet = s.quiet;
  kept = λ p. s.kept p ∙ served_one-idle w i p lt event;
  woken = λ p t. s.woken p (served_one-IsServed w i p lt t);
  before = λ j low. s.before j low ∙ (unfold drop_fd make_ready in ground arith);
  fewer = omega (arith, s.fewer, served_one-npollfd w i);
}

wake_fds_from :
    (fuel i : ℕ) (w : World)
    → i ≤ w.npollfd
    → w.npollfd < fuel + i
    → Returns (λ _ v. Served w v i) (wake_fds fuel i w)
unfolding wake_fds taskready
wake_fds_from zero i w le lt = absurd (omega arith)
wake_fds_from (suc fuel) i w le lt = elim (dec_lt i w.npollfd) [
  | no end ↦ let e : ltb i w.npollfd ≡ false = ground arith in rw e (Served-end w i (omega arith))
  | yes more ↦
      let e : ltb i w.npollfd ≡ true = ground arith in
      elim (Bool-cases ((w.pollfd i).revents == 0)) [
        | inl none ↦
            rw (e, none)
              (Returns-mono (λ _ v. Served w v (i + 1)) (λ _ v. Served w v i)
                (wake_fds fuel (i + 1) w) (λ _ v s. Served-next w v i (ground arith) s)
                (wake_fds_from fuel (i + 1) w (omega arith) (omega arith)))
        | inr event ↦
            rw (e, event)
              (Returns-mono (λ _ v. Served (served_one i w) v i) (λ _ v. Served w v i)
                (wake_fds fuel i (served_one i w))
                (λ _ v s. Served-drop w v i more (ground arith) s)
                (wake_fds_from fuel i (served_one i w) (omega (arith, served_one-npollfd w i))
                  (omega (arith, served_one-npollfd w i))))
      ]
]

-- The loops of fdtask over the files end, with fuel for each file and one more. The task of each
-- entry that has an event is flagged ready, no entry with an event is left, and each task has as
-- many entries without one as it had.
pub wake_fds-Served :
    (fuel : ℕ) (w : World) → w.npollfd < fuel → Returns (λ _ v. Served w v 0) (wake_fds fuel 0 w)
wake_fds-Served fuel w lt = wake_fds_from fuel 0 w (omega arith) (omega arith)
