-- ===== src/Eventq.antt =====
-- core/tw-eventq.h: doubly linked lists of events, as `free_q`, `event_q` of a process, `pevent_q` of
-- a kernel process. The links are those of the events, in a store: `next` and `prev` by address.
pub mod Linked
pub mod Relink
pub mod Alloc
pub mod Ops
pub mod Debug
pub mod Splice
pub mod Walk
pub mod Released
pub mod Round
pub mod Committed
pub mod Prepend
pub mod PushList
pub mod Holds
pub mod Fossil
pub mod Collect
use ross.Prelude.{
  ℕ, ◌+◌, ◌-◌, ◌%◌, ◌^◌, Bool, true, false, Option, none, some, List, [], ◌∷◌, ◌==◌, if◌then◌else◌,
  ◌&&◌,
}
use ross.Queue.Tree.{Ptr, null}

pub record Links : Type 0 where
  pub next : Ptr → Ptr
  pub prev : Ptr → Ptr

pub record TwEventq : Type 0 where
  pub size : ℕ
  pub head : Ptr
  pub tail : Ptr

pub record Store : Type 0 where
  pub links : Links
  pub q : TwEventq

abbrev pub write : (Ptr → Ptr) → Ptr → Ptr → Ptr → Ptr
write f a v x = if x == a then v else f x

abbrev pub set_next : Links → Ptr → Ptr → Links
set_next σ a v = record σ { next = write σ.next a v }

abbrev pub set_prev : Links → Ptr → Ptr → Links
set_prev σ a v = record σ { prev = write σ.prev a v }

-- `if (p) p->next = n; else q->head = n;`
unfoldable pub link_next : Store → Ptr → Ptr → Store
link_next s p n =
    if p == null
    then record s { q = record s.q { head = n } }
    else record s { links = set_next s.links p n }

-- `if (n) n->prev = p; else q->tail = p;`
unfoldable pub link_prev : Store → Ptr → Ptr → Store
link_prev s n p =
    if n == null
    then record s { q = record s.q { tail = p } }
    else record s { links = set_prev s.links n p }

-- `size` is a `size_t`.
abbrev pub grow : TwEventq → ℕ → TwEventq
grow q n = record q { size = (q.size + n) % 2 ^ 64 }

abbrev pub shrink : TwEventq → ℕ → TwEventq
shrink q n = record q { size = (q.size + (2 ^ 64 - n)) % 2 ^ 64 }

-- `e->next = e->prev = NULL;`
abbrev pub unlink : Links → Ptr → Links
unlink σ e = set_next (set_prev σ e null) e null

unfoldable pub tw_eventq_push : Store → Ptr → Store
tw_eventq_push s e =
    let t = s.q.tail in
    let s1 = link_next (record s { links = set_prev (set_next s.links e null) e t }) t e in
    record s1 { q = grow (record s1.q { tail = e }) 1 }

unfoldable pub tw_eventq_peek : Store → Ptr
tw_eventq_peek s = s.q.tail

-- The returned event, which is null where the list is empty.
unfoldable pub tw_eventq_pop : Store → Ptr × Store
tw_eventq_pop s =
    let t = s.q.tail in
    let p = s.links.prev t in
    let s1 = link_next s p null in
    if t == null
    then (null, s)
    else (t, record { links = unlink s1.links t; q = shrink (record s1.q { tail = p }) 1 })

unfoldable pub tw_eventq_unshift : Store → Ptr → Store
tw_eventq_unshift s e =
    let h = s.q.head in
    let s1 = link_prev (record s { links = set_next (set_prev s.links e null) e h }) h e in
    record s1 { q = grow (record s1.q { head = e }) 1 }

unfoldable pub tw_eventq_peek_head : Store → Ptr
tw_eventq_peek_head s = s.q.head

unfoldable pub tw_eventq_shift : Store → Ptr × Store
tw_eventq_shift s =
    let h = s.q.head in
    let n = s.links.next h in
    let s1 = link_prev s n null in
    if h == null
    then (null, s)
    else (h, record { links = unlink s1.links h; q = shrink (record s1.q { head = n }) 1 })

unfoldable pub tw_eventq_delete_any : Store → Ptr → Store
tw_eventq_delete_any s e =
    let p = s.links.prev e in
    let n = s.links.next e in
    let s1 = link_prev (link_next s p n) n p in
    record { links = unlink s1.links e; q = shrink s1.q 1 }

unfoldable pub tw_eventq_pop_list : Store → Ptr × Store
tw_eventq_pop_list s = (s.q.head, record s { q = record { size = 0; head = null; tail = null } })

-- The two tests at the ends of `tw_eventq_splice`.
unfoldable pub splice_head : Store → Ptr → Ptr → Store
splice_head s h t =
    if h == s.q.head
    then record s { q = record s.q { head = s.links.next t } }
    else record s { links = set_next s.links (s.links.prev h) (s.links.next t) }

unfoldable pub splice_tail : Store → Ptr → Ptr → Store
splice_tail s h t =
    if t == s.q.tail
    then record s { q = record s.q { tail = s.links.prev h } }
    else record s { links = set_prev s.links (s.links.next t) (s.links.prev h) }

unfoldable pub tw_eventq_splice : Store → Ptr → Ptr → ℕ → Store
tw_eventq_splice s h t cnt =
    let s1 = splice_tail (splice_head s h t) h t in
    if h == s.q.head && t == s.q.tail
    then record s { q = record { size = 0; head = null; tail = null } }
    else record s1 { q = shrink s1.q cnt }
