-- ===== src/Eventq/Splice.antt =====
-- `tw_eventq_splice` of core/tw-eventq.h.
use ross.Prelude.{
  ℕ, ◌+◌, ◌-◌, ◌%◌, ◌^◌, ◌<◌, ◌≡◌, ◌≢◌, refl, sym, ap, ◌∙◌, true, false, List, [], ◌∷◌, ◌++◌, ◌==◌,
  ◌&&◌, All, All-append_left, All-append_right, arith, length, length-append,
}
use ross.Queue.Tree.{Ptr, null}
use ross.Eventq.{Store, link_next, link_prev, splice_head, splice_tail, tw_eventq_splice}
use ross.Eventq.Linked.{
  first_or, last_or, first_or-append, last_or-append, Distinct, Linked-left, Linked-right,
  Linked-allocated, Distinct-left, Distinct-right, Distinct-last, next-last,
}
use ross.Eventq.Relink.{
  gap-Cut, link_next-NextSet, link_next-other, apart_next, not_null, last-positive,
}
use ross.Eventq.Ops.{IsQueue, Distinct-remove}
use ross.Eventq.Prepend.{All-last}

differs : (a b : Ptr) → a ≢ b → (a == b) ≡ false
differs a b ne = ground (arith, ne)

equals : (a b : Ptr) → a ≡ b → (a == b) ≡ true
equals a b e = ground arith

-- The first test of the splice is that of `link_next`.
head-link :
    (s : Store) (xs : List Ptr) (m t : Ptr) (zs : List Ptr)
    → s.q.head ≡ first_or (xs ++ m ∷ zs) null
    → Distinct (xs ++ m ∷ zs)
    → All (λ x. 0 < x) xs
    → s.links.prev m ≡ last_or null xs
    → splice_head s m t ≡ link_next s (last_or null xs) (s.links.next t)
unfolding splice_head link_next
head-link s [] m t zs h d pos p = rw (equals m s.q.head (sym h)) refl
head-link s (x ∷ xs) m t zs h d pos p =
    let ne = (All-append_right _ xs (m ∷ zs) d.0).0 in
    rw (differs m s.q.head (λ e. ne (e ∙ h)), p, not_null (last_or x xs) (last-positive x xs pos))
      refl

-- And the second that of `link_prev`.
tail-link :
    (s : Store) (b m : Ptr) (ms ys : List Ptr) (h : Ptr)
    → s.q.tail ≡ last_or b (m ∷ ms ++ ys)
    → Distinct (m ∷ ms ++ ys)
    → All (λ y. 0 < y) ys
    → s.links.next (last_or m ms) ≡ first_or ys null
    → splice_tail s h (last_or m ms) ≡ link_prev s (first_or ys null) (s.links.prev h)
unfolding splice_tail link_prev
tail-link s b m ms [] h e d pos n =
    rw (equals (last_or m ms) s.q.tail (sym (e ∙ last_or-append m ms []))) refl
tail-link s b m ms (y ∷ ys) h e d pos n =
    let ne = All-last (λ z. z ≢ last_or m ms) y ys (Distinct-last m ms (y ∷ ys) d) in
    rw
      (
        differs (last_or m ms) s.q.tail (λ q. ne (sym (q ∙ e ∙ last_or-append m ms (y ∷ ys)))),
        n,
        not_null y pos.0,
      )
      refl

not_whole :
    (s : Store) (xs : List Ptr) (m : Ptr) (ms ys : List Ptr)
    → s.q.head ≡ first_or (xs ++ (m ∷ ms ++ ys)) null
    → s.q.tail ≡ last_or (last_or null xs) (m ∷ ms ++ ys)
    → Distinct (xs ++ (m ∷ ms ++ ys))
    → 0 < length xs + length ys
    → (m == s.q.head && last_or m ms == s.q.tail) ≡ false
not_whole s [] m ms [] h e d left = absurd (omega arith)
not_whole s [] m ms (y ∷ ys) h e d left =
    let ne = All-last (λ z. z ≢ last_or m ms) y ys (Distinct-last m ms (y ∷ ys) d) in
    rw
      (
        equals m s.q.head (sym h),
        differs (last_or m ms) s.q.tail (λ q. ne (sym (q ∙ e ∙ last_or-append m ms (y ∷ ys)))),
      )
      refl
not_whole s (x ∷ xs) m ms ys h e d left =
    let ne = (All-append_right _ xs (m ∷ ms ++ ys) d.0).0 in
    rw (differs m s.q.head (λ q. ne (q ∙ h))) refl

-- A splice of a part leaves what a closed gap leaves.
splice-part :
    {s : Store} (xs : List Ptr) (m : Ptr) (ms ys : List Ptr)
    → IsQueue s (xs ++ (m ∷ ms ++ ys))
    → 0 < length xs + length ys
    → IsQueue (tw_eventq_splice s m (last_or m ms) (length (m ∷ ms))) (xs ++ ys)
unfolding tw_eventq_splice
splice-part {s} xs m ms ys v left =
    let t = last_or m ms in
    let p = last_or null xs in
    let n = first_or ys null in
    let part = m ∷ ms in
    let front = Linked-left s.links null xs (part ++ ys) null v.linked in
    let rest = Linked-right s.links null xs (part ++ ys) null v.linked in
    let chain = Linked-left s.links p part ys null rest in
    let back = Linked-right s.links p part ys null rest in
    let tail = v.tail ∙ last_or-append null xs (part ++ ys) in
    let d_rest = Distinct-right xs (part ++ ys) v.distinct in
    let apart = Distinct-remove xs part ys v.distinct in
    let one = link_next-NextSet s xs m n (Distinct-left xs (part ++ ys) v.distinct) front in
    let not_p =
      All-append_left _ part ys (
        apart_next xs (part ++ ys) v.distinct
          (Linked-allocated s.links p (part ++ ys) null rest)) in
    let kept = link_next-other s p n p part n not_p chain in
    let first =
      head-link s xs m t (ms ++ ys) v.head v.distinct (Linked-allocated s.links null xs m front)
        chain.1
      ∙ ap (link_next s p) (next-last s.links p m ms n chain) in
    let both : splice_tail (splice_head s m t) m t ≡ link_prev (link_next s p n) n p =
      ap (λ z. splice_tail z m t) first
      ∙ tail-link (link_next s p n) p m ms ys m (one.tail ∙ tail) d_rest
          (Linked-allocated s.links t ys null back)
          (next-last (link_next s p n).links p m ms n kept)
      ∙ ap (link_prev (link_next s p n) n) kept.1 in
    let cut =
      gap-Cut s xs ys m t apart front back (v.head ∙ first_or-append xs (part ++ ys) null)
        (tail ∙ last_or-append p part ys) in
    rw (not_whole s xs m ms ys v.head tail v.distinct left, both)
      record {
        linked = cut.linked;
        head = cut.head;
        tail = cut.tail;
        distinct = apart;
        sized = sizes cut.size v.sized v.fits;
        fits = omega (
          arith,
          v.fits,
          length-append xs (part ++ ys),
          length-append part ys,
          length-append xs ys,
        );
      }
  where
    sizes :
        {k : ℕ}
        → k ≡ s.q.size
        → s.q.size ≡ length (xs ++ (m ∷ ms ++ ys))
        → length (xs ++ (m ∷ ms ++ ys)) < 2 ^ 64
        → (k + (2 ^ 64 - length (m ∷ ms))) % 2 ^ 64 ≡ length (xs ++ ys)
    sizes e e' f =
        omega
          (arith, length-append xs (m ∷ ms ++ ys), length-append (m ∷ ms) ys, length-append xs ys)

splice-whole :
    {s : Store} (m : Ptr) (ms : List Ptr)
    → IsQueue s (m ∷ ms ++ [])
    → IsQueue (tw_eventq_splice s m (last_or m ms) (length (m ∷ ms))) []
unfolding tw_eventq_splice
splice-whole {s} m ms v =
    rw
      (
        equals m s.q.head (sym v.head),
        equals (last_or m ms) s.q.tail (sym (v.tail ∙ last_or-append m ms [])),
      )
      record {
        linked = tt;
        head = refl;
        tail = refl;
        distinct = tt;
        sized = refl;
        fits = omega arith;
      }

-- `tw_eventq_splice` of a part of a list with the length of the part takes out just that part, be it
-- at the head, at the tail, inside or the whole list.
pub tw_eventq_splice-IsQueue :
    {s : Store} (xs : List Ptr) (m : Ptr) (ms ys : List Ptr)
    → IsQueue s (xs ++ (m ∷ ms ++ ys))
    → IsQueue (tw_eventq_splice s m (last_or m ms) (length (m ∷ ms))) (xs ++ ys)
tw_eventq_splice-IsQueue [] m ms [] v = splice-whole m ms v
tw_eventq_splice-IsQueue [] m ms (y ∷ ys) v = splice-part [] m ms (y ∷ ys) v (omega arith)
tw_eventq_splice-IsQueue (x ∷ xs) m ms ys v = splice-part (x ∷ xs) m ms ys v (omega arith)
