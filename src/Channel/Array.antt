-- ===== src/Channel/Array.antt =====
-- `Altarray` of channel.c: the operations that wait on a channel, in no order.
use libtask_annotation.Base.{
  ℕ, zero, suc, ◌+◌, ◌%◌, ◌^◌, Ptr, Option, none, some, update, ◌==◌, if◌then◌else◌, inc32, dec32,
}
use libtask_annotation.World.{Altarray}

-- `addarray`. As in the source, `realloc` is taken to succeed.
unfoldable pub addarray : Altarray → Ptr → Altarray
addarray x alt = record {
  a = update x.a x.n alt;
  n = inc32 x.n;
  m = if x.n == x.m then (x.m + 16) % 2 ^ 32 else x.m;
}

-- `delarray`: the last entry moves to the place of entry `i`.
unfoldable pub delarray : Altarray → ℕ → Altarray
delarray x i = record x { n = dec32 x.n; a = update x.a i (x.a (dec32 x.n)) }

-- The loop of `altdequeue`: the first of the `left` entries from `i` on that is `alt`.
unfoldable pub find_from : (ℕ → Ptr) → Ptr → (i left : ℕ) → Option ℕ
find_from a alt i zero = none
find_from a alt i (suc left) =
    let rest = find_from a alt (i + 1) left in if a i == alt then some i else rest
