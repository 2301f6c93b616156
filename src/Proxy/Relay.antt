-- ===== src/Proxy/Relay.antt =====
-- What `rwtask` of tcpproxy.c makes of the calls of the system.
use libtask_annotation.Base.{
  ℕ, zero, suc, ◌+◌, ◌/◌, ◌%◌, ◌^◌, ◌<◌, ◌≡◌, ◌≢◌, ◌⊎◌, inl, inr, refl, ap, ◌∙◌, List, ◌∷◌, arith,
  false, ◌==◌,
}
use libtask_annotation.World.{Call, World, read, write, shutdown, close}
use libtask_annotation.Flow.{done, ◌>>=◌, Returns, Returns-bind, Returns-mono}
use libtask_annotation.Fd.Io.{Reply, fails, gives, Os, ask, note, retry, fdread, fdwrite}
use libtask_annotation.Fd.Write.{Pieces, piece, nothing, Takes, fdwrite-Pieces}
use libtask_annotation.Print.{put}
use libtask_annotation.Proxy.{int_bytes, int_at, mkfd2, pass_on, relay, rwtask}

-- What is read into `buf` is written before the next is read; 0, or a read that fails, is the end.
pub data Relays (os : Os) (rfd wfd buf : ℕ) : (before after : List Call) → Type 0 where
  ends :
      {cs : List Call}
      → os.answer (read rfd buf 2048 ∷ cs) ≡ gives 0
      → Relays os rfd wfd buf cs (read rfd buf 2048 ∷ cs)
  breaks :
      {cs : List Call} (e : ℕ)
      → os.answer (read rfd buf 2048 ∷ cs) ≡ fails e
      → e ≢ os.eagain
      → Relays os rfd wfd buf cs (read rfd buf 2048 ∷ cs)
  passes :
      {cs ds es : List Call} (n : ℕ)
      → os.answer (read rfd buf 2048 ∷ cs) ≡ gives n
      → 0 < n
      → Pieces os wfd buf n (read rfd buf 2048 ∷ cs) ds
      → Relays os rfd wfd buf ds es
      → Relays os rfd wfd buf cs es

-- What a read of the connection answers: it is the end, or fails, but never because it would have to
-- wait, or there are bytes, which the other end sends at most `left` times more.
pub record Supplies (os : Os) (rfd wfd buf : ℕ) (left : List Call → ℕ) : Type 0 where
  pub reads :
      (cs : List Call)
      → (os.answer (read rfd buf 2048 ∷ cs) ≡ gives 0)
        ⊎ ((e : ℕ) × (os.answer (read rfd buf 2048 ∷ cs) ≡ fails e) × (e ≢ os.eagain))
        ⊎ ((n : ℕ) × (os.answer (read rfd buf 2048 ∷ cs) ≡ gives n)
            × (0 < n)
            × (left (read rfd buf 2048 ∷ cs) < left cs))
  pub writes : (b n : ℕ) (cs : List Call) → left (write wfd b n ∷ cs) ≡ left cs

Pieces-left :
    (os : Os) (rfd wfd buf : ℕ) (left : List Call → ℕ)
    → Supplies os rfd wfd buf left
    → {b n : ℕ} {cs ds : List Call} → Pieces os wfd b n cs ds
    → left ds ≡ left cs
Pieces-left os rfd wfd buf left h nothing = refl
Pieces-left os rfd wfd buf left h {b} {n} {cs} (piece m e more fits p) =
    Pieces-left os rfd wfd buf left h p ∙ h.writes b n cs

fdread-gives :
    (os : Os) (tries fd b k m : ℕ) (w : World)
    → os.answer (read fd b k ∷ w.calls) ≡ gives m
    → fdread os (suc tries) fd b k w ≡ done (gives m) (record w { calls = read fd b k ∷ w.calls })
unfolding fdread ask note retry
fdread-gives os tries fd b k m w e = rw e refl

fdread-fails :
    (os : Os) (tries fd b k e : ℕ) (w : World)
    → os.answer (read fd b k ∷ w.calls) ≡ fails e
    → e ≢ os.eagain
    → fdread os (suc tries) fd b k w
      ≡ done (fails e) (record w { calls = read fd b k ∷ w.calls; errno = e })
unfolding fdread ask note retry
fdread-fails os tries fd b k e w said ne =
    let no_wait : (e == os.eagain) ≡ false = ground arith in rw (said, no_wait) refl

module _ (os : Os) (shut_wr rfd wfd buf : ℕ) (left : List Call → ℕ) (takes : Takes os wfd)
    (supplies : Supplies os rfd wfd buf left) where
  relay-Relays :
      (fuel tries : ℕ) (w : World)
      → left w.calls < fuel
      → Returns
          (λ _ v. Relays os rfd wfd buf w.calls v.calls)
          (relay os shut_wr fuel (suc tries) rfd wfd buf w)
  unfolding relay pass_on
  relay-Relays zero tries w enough = elim enough [ ]
  relay-Relays (suc fuel) tries w enough = elim (supplies.reads w.calls) [
    | inl over ↦ rw (fdread-gives os tries rfd buf 2048 0 w over) (ends over)
    | inr (inl (e, said, ne)) ↦
        rw (fdread-fails os tries rfd buf 2048 e w said ne) (breaks e said ne)
    | inr (inr (n, e, more, fewer)) ↦
        let go_on : (n == 0) ≡ false = ground arith in
        let w' = record w { calls = read rfd buf 2048 ∷ w.calls } in
        rw (fdread-gives os tries rfd buf 2048 n w e, go_on)
          (Returns-bind (λ r v. (r ≡ gives n) × Pieces os wfd buf n w'.calls v.calls) _
            (fdwrite os (suc n) (suc tries) wfd buf n w') _
            (fdwrite-Pieces os wfd takes (suc n) tries buf n w' (omega arith))
            (λ r v p.
              let same = Pieces-left os rfd wfd buf left supplies p.1 in
              Returns-mono _ _ (relay os shut_wr fuel (suc tries) rfd wfd buf v)
                (λ _ u q. passes n e more p.1 q)
                (relay-Relays fuel tries v (omega (arith, same, fewer)))))
  ]

-- The four bytes of an int at an address.
cells :
    (m : ℕ → ℕ) (a x : ℕ)
    → let g = put m a (int_bytes x) in
      (g a ≡ x % 256)
      × (g (a + 1) ≡ x / 256 % 256)
      × (g (a + 2) ≡ x / 256 ^ 2 % 256)
      × (g (a + 3) ≡ x / 256 ^ 3 % 256)
unfolding put
cells m a x = ground arith

below_cells : (m : ℕ → ℕ) (a x b : ℕ) → b < a → put m a (int_bytes x) b ≡ m b
unfolding put
below_cells m a x b lt = ground arith

int_at-put : (m : ℕ → ℕ) (a x : ℕ) → x < 2 ^ 32 → int_at (put m a (int_bytes x)) a ≡ x
unfolding int_at
int_at-put m a x lt = let (c0, c1, c2, c3) = cells m a x in rw (c0, c1, c2, c3) (omega (arith, lt))

int_at-below : (m : ℕ → ℕ) (a x : ℕ) → int_at (put m (a + 4) (int_bytes x)) a ≡ int_at m a
unfolding int_at
int_at-below m a x =
    let c0 = below_cells m (a + 4) x a (omega arith) in
    let c1 = below_cells m (a + 4) x (a + 1) (omega arith) in
    let c2 = below_cells m (a + 4) x (a + 2) (omega arith) in
    let c3 = below_cells m (a + 4) x (a + 3) (omega arith) in rw (c0, c1, c2, c3) refl

ask-noted : (os : Os) (c : Call) (w : World) → Returns (λ _ v. v.calls ≡ c ∷ w.calls) (ask os c w)
unfolding ask note
ask-noted os c w = noted (os.answer (c ∷ w.calls))
  where
    noted : (r : Reply) → Returns (λ _ v. v.calls ≡ c ∷ w.calls) (note c r w)
    noted (fails e) = refl
    noted (gives n) = refl

-- The calls of rwtask.
pub record Relayed (os : Os) (shut_wr rfd wfd buf : ℕ) (w v : World) : Type 0 where
  pub through : List Call
  pub relays : Relays os rfd wfd buf w.calls through
  pub closes : v.calls ≡ close rfd ∷ shutdown wfd shut_wr ∷ through

module _ (os : Os) (shut_wr rfd wfd buf : ℕ) (left : List Call → ℕ) (takes : Takes os wfd)
    (supplies : Supplies os rfd wfd buf left) where
  rwtask_ints :
      (fuel tries a : ℕ) (w : World)
      → left w.calls < fuel
      → int_at w.mem a ≡ rfd
      → int_at w.mem (a + 4) ≡ wfd
      → Returns
          (λ _ v. Relayed os shut_wr rfd wfd buf w v)
          (rwtask os shut_wr fuel (suc tries) buf a w)
  unfolding rwtask
  rwtask_ints fuel tries a w enough er ew =
      rw (er, ew)
        (Returns-bind (λ _ v. Relays os rfd wfd buf w.calls v.calls) _
          (relay os shut_wr fuel (suc tries) rfd wfd buf w) _
          (relay-Relays os shut_wr rfd wfd buf left takes supplies fuel tries w enough)
          (λ _ v r.
            Returns-bind (λ _ u. u.calls ≡ shutdown wfd shut_wr ∷ v.calls) _
              (ask os (shutdown wfd shut_wr) v) _ (ask-noted os (shutdown wfd shut_wr) v)
              (λ _ u e.
                Returns-bind (λ _ x. x.calls ≡ close rfd ∷ u.calls) _ (ask os (close rfd) u) _
                  (ask-noted os (close rfd) u)
                  (λ _ x e'. record {
                    through = v.calls;
                    relays = r;
                    closes = e' ∙ ap (λ (cs : List Call). close rfd ∷ cs) e;
                  }))))

  -- rwtask of tcpproxy, given the pair that mkfd2 has made, returns, with fuel for each time the
  -- other end sends and one more: whatever is read into its buffer is written to the other
  -- connection, all of it and in order, before the next is read, and when a read answers 0 or
  -- fails it shuts that connection down for writing and closes the one that it has read. No read
  -- or write answers EAGAIN, so that rwtask never waits; the other end sends finitely often,
  -- each write takes a byte or more, and malloc has not failed.
  pub rwtask-Relayed :
      (fuel tries fresh : ℕ) (w : World)
      → left w.calls < fuel
      → fresh ≢ 0
      → rfd < 2 ^ 32
      → wfd < 2 ^ 32
      → Returns
          (λ _ v. Relayed os shut_wr rfd wfd buf w v)
          ((mkfd2 fresh rfd wfd >>= rwtask os shut_wr fuel (suc tries) buf) w)
  unfolding mkfd2
  rwtask-Relayed fuel tries fresh w enough ne lr lw =
      let placed : (fresh == 0) ≡ false = ground arith in
      let m = put w.mem fresh (int_bytes rfd) in
      let v : World = record w { mem = put m (fresh + 4) (int_bytes wfd) } in
      rw placed (
        Returns-mono (λ _ u. Relayed os shut_wr rfd wfd buf v u) _
          (rwtask os shut_wr fuel (suc tries) buf fresh v)
          (λ _ u r. record { through = r.through; relays = r.relays; closes = r.closes })
          (rwtask_ints fuel tries fresh v enough
            (int_at-below m fresh wfd ∙ int_at-put w.mem fresh rfd lr)
            (int_at-put m (fresh + 4) wfd lw)))
