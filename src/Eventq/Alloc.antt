-- ===== src/Eventq/Alloc.antt =====
-- `tw_eventq_alloc` of core/tw-eventq.h in a build without `ROSS_ALLOC_DEBUG`: one block of memory
-- becomes a list of free events.
use ross.Prelude.{
  ℕ, zero, suc, ◌+◌, ◌-◌, ◌%◌, ◌^◌, ◌≤◌, ◌<◌, ◌≡◌, refl, sym, ap, ◌∙◌, subst, false, Option, none,
  some, List, [], ◌∷◌, ◌==◌, if◌then◌else◌, All, All-imp, arith, length,
}
use ross.Queue.Tree.{Ptr, null}
use ross.Eventq.{Links, Store, write, set_next, set_prev}
use ross.Eventq.Linked.{last_or, Linked, Distinct, set_next-last, set_prev-first}
use ross.Eventq.Ops.{IsQueue}

-- `TW_pe_free_q`
abbrev pub pe_free_q : ℕ
pe_free_q = 9

-- The size of an event and its data, rounded up to a multiple of `align`, the greater of the sizes of
-- a `double` and of a pointer.
unfoldable pub event_len : ℕ → ℕ → ℕ → ℕ
event_len align sizeof_event msg_sz =
    let len = sizeof_event + msg_sz in if len % align == 0 then len else len + (align - len % align)

-- The loop `while (--cnt)` for `n` rounds, and the write of `prev` behind it: the links and the last
-- event.
unfoldable pub alloc_loop : ℕ → Links → Ptr → ℕ → Links × Ptr
alloc_loop zero σ event len = (set_prev σ event (event - len), event)
alloc_loop (suc n) σ event len =
    alloc_loop n (set_next (set_prev σ event (event - len)) event (event + len)) (event + len) len

-- The writes of `state.owner` in the loop and behind it.
unfoldable pub own_loop : ℕ → (Ptr → ℕ) → Ptr → ℕ → Ptr → ℕ
own_loop zero owner event len = write owner event pe_free_q
own_loop (suc n) owner event len = own_loop n (write owner event pe_free_q) (event + len) len

-- The block starts at `block`. No event at all would run the loop round the range of `cnt`: `none`.
unfoldable pub tw_eventq_alloc : Links → (Ptr → ℕ) → Ptr → ℕ → ℕ → ℕ → Option (Store × (Ptr → ℕ))
tw_eventq_alloc σ owner block len cnt g_tw_gvt_threshold =
    let total = (cnt + g_tw_gvt_threshold) % 2 ^ 32 in
    let (σ', t) = alloc_loop (total - 1) σ block len in
    let store : Store = record {
      links = set_prev (set_next σ' t null) block null;
      q = record { size = total; head = block; tail = t };
    } in
    if total == 0 then none else some (store, own_loop (total - 1) owner block len)

-- The addresses of the events in a block.
abbrev pub chunk : ℕ → Ptr → ℕ → List Ptr
chunk zero event len = []
chunk (suc n) event len = event ∷ chunk n (event + len) len

-- The loop links the events; those before them stay as they were.
record Chained (n : ℕ) (σ : Links) (event len : ℕ) (out : Links × Ptr) : Type 0 where
  last : out.1 ≡ last_or event (chunk n (event + len) len)
  linked : Linked out.0 (event - len) (chunk (suc n) event len) (out.0.next out.1)
  prev_kept : (x : Ptr) → x < event → out.0.prev x ≡ σ.prev x
  next_kept : (x : Ptr) → x < event → out.0.next x ≡ σ.next x

write-at : (f : Ptr → Ptr) (e v : Ptr) → write f e v e ≡ v
write-at f e v = same (f e)
  where
    same : (z : Ptr) → (if e == e then v else z) ≡ v
    same z = ground arith

write-below : (f : Ptr → Ptr) (e v x : Ptr) → x < e → write f e v x ≡ f x
write-below f e v x lt = other (f x)
  where
    other : (z : Ptr) → (if x == e then v else z) ≡ z
    other z = ground (arith, lt)

alloc_loop-Chained :
    (n : ℕ) (σ : Links) (event len : ℕ)
    → 0 < event
    → 0 < len
    → Chained n σ event len (alloc_loop n σ event len)
unfolding alloc_loop
alloc_loop-Chained zero σ event len pos pos_len = record {
  last = refl;
  linked = (pos, write-at σ.prev event (event - len), refl, tt);
  prev_kept = λ x lt. write-below σ.prev event (event - len) x lt;
  next_kept = λ x lt. refl;
}
alloc_loop-Chained (suc n) σ event len pos pos_len =
    let σ1 = set_next (set_prev σ event (event - len)) event (event + len) in
    let rest = alloc_loop-Chained n σ1 (event + len) len (omega arith) pos_len in
    let out = alloc_loop n σ1 (event + len) len in
    let here : event < event + len = omega arith in
    let back : event + len - len ≡ event = omega arith in
    record {
      last = rest.last;
      linked = (
        pos,
        rest.prev_kept event here ∙ write-at σ.prev event (event - len),
        rest.next_kept event here ∙ write-at σ.next event (event + len),
        subst (λ z. Linked out.0 z (chunk (suc n) (event + len) len) (out.0.next out.1)) back
            rest.linked,
      );
      prev_kept = λ x lt.
          rest.prev_kept x (omega (arith, lt)) ∙ write-below σ.prev event (event - len) x lt;
      next_kept = λ x lt.
          rest.next_kept x (omega (arith, lt)) ∙ write-below σ.next event (event + len) x lt;
    }

chunk-above : (n event len : ℕ) → All (λ x. event ≤ x) (chunk n event len)
chunk-above zero event len = tt
chunk-above (suc n) event len = (
  omega arith,
  All-imp (λ x le. omega (arith, le)) (chunk n (event + len) len) (chunk-above n (event + len) len),
)

chunk-Distinct : (n event len : ℕ) → 0 < len → Distinct (chunk n event len)
chunk-Distinct zero event len pos = tt
chunk-Distinct (suc n) event len pos = (
  All-imp (λ x le e. absurd (omega (arith, le, e))) (chunk n (event + len) len)
      (chunk-above n (event + len) len),
  chunk-Distinct n (event + len) len pos,
)

length-chunk : (n event len : ℕ) → length (chunk n event len) ≡ n
length-chunk zero event len = refl
length-chunk (suc n) event len = ap suc (length-chunk n (event + len) len)

own_loop-below :
    (n : ℕ) (owner : Ptr → ℕ) (event len x : ℕ) → x < event → own_loop n owner event len x ≡ owner x
unfolding own_loop
own_loop-below zero owner event len x lt = write-below owner event pe_free_q x lt
own_loop-below (suc n) owner event len x lt =
    own_loop-below n (write owner event pe_free_q) (event + len) len x (omega (arith, lt))
    ∙ write-below owner event pe_free_q x lt

own_loop-free :
    (n : ℕ) (owner : Ptr → ℕ) (event len : ℕ)
    → 0 < len
    → All (λ x. own_loop n owner event len x ≡ pe_free_q) (chunk (suc n) event len)
unfolding own_loop
own_loop-free zero owner event len pos = (write-at owner event pe_free_q, tt)
own_loop-free (suc n) owner event len pos = (
  own_loop-below n (write owner event pe_free_q) (event + len) len event (omega arith)
      ∙ write-at owner event pe_free_q,
  own_loop-free n (write owner event pe_free_q) (event + len) len pos,
)

-- A list of the events in the block, all of them free.
pub record Allocated (events : List Ptr) (out : Option (Store × (Ptr → ℕ))) : Type 0 where
  pub store : Store
  pub owner : Ptr → ℕ
  pub returns : out ≡ some (store, owner)
  pub holds : IsQueue store events
  pub free : All (λ x. owner x ≡ pe_free_q) events

alloc_loop-Linked :
    (n : ℕ) (σ : Links) (block len : ℕ)
    → 0 < block
    → 0 < len
    → (let out = alloc_loop n σ block len in
        Linked (set_prev (set_next out.0 out.1 null) block null) null (chunk (suc n) block len) null
        × (out.1 ≡ last_or null (chunk (suc n) block len)))
alloc_loop-Linked n σ block len pos pos_len =
    let loop = alloc_loop-Chained n σ block len pos pos_len in
    let out = alloc_loop n σ block len in
    let xs = chunk n (block + len) len in
    let distinct = chunk-Distinct (suc n) block len pos_len in
    let closed =
      subst (λ t. Linked (set_next out.0 t null) (block - len) (block ∷ xs) null) (sym loop.last)
        (set_next-last out.0 (block - len) block xs (out.0.next out.1) null distinct loop.linked) in
    (
      set_prev-first (set_next out.0 out.1 null) (block - len) block xs null null distinct closed,
      loop.last,
    )

total-Allocated :
    (σ : Links) (owner : Ptr → ℕ) (block len cnt extra n : ℕ)
    → 0 < block
    → 0 < len
    → (cnt + extra) % 2 ^ 32 ≡ suc n
    → suc n < 2 ^ 64
    → Allocated (chunk (suc n) block len) (tw_eventq_alloc σ owner block len cnt extra)
unfolding tw_eventq_alloc
total-Allocated σ owner block len cnt extra n pos pos_len total fits =
    let out = alloc_loop n σ block len in
    let rounds : suc n - 1 ≡ n = omega arith in
    let some_events : (suc n == 0) ≡ false = ground arith in
    let (linked, last) = alloc_loop-Linked n σ block len pos pos_len in
    record {
      store = record {
        links = set_prev (set_next out.0 out.1 null) block null;
        q = record { size = suc n; head = block; tail = out.1 };
      };
      owner = own_loop n owner block len;
      returns = rw (total, rounds, some_events) refl;
      holds = record {
        linked = linked;
        head = refl;
        tail = last;
        distinct = chunk-Distinct (suc n) block len pos_len;
        sized = sym (length-chunk (suc n) block len);
        fits = omega (arith, fits, length-chunk (suc n) block len);
      };
      free = own_loop-free n owner block len pos_len;
    }

-- For a block that does not start at null and events of a positive size, `tw_eventq_alloc` of at least
-- one event and fewer than 2 ^ 32 returns a list of just the events in the block, in the order of
-- their addresses, each owned by the free list.
pub tw_eventq_alloc-Allocated :
    (σ : Links) (owner : Ptr → ℕ) (block len cnt extra : ℕ)
    → 0 < block
    → 0 < len
    → 0 < cnt + extra
    → cnt + extra < 2 ^ 32
    → Allocated (chunk (cnt + extra) block len) (tw_eventq_alloc σ owner block len cnt extra)
tw_eventq_alloc-Allocated σ owner block len cnt extra pos pos_len some_events fits =
    subst (λ z. Allocated (chunk z block len) (tw_eventq_alloc σ owner block len cnt extra))
      {x = suc (cnt + extra - 1)} (omega arith)
      (total-Allocated σ owner block len cnt extra (cnt + extra - 1) pos pos_len (omega arith)
        (omega arith))
