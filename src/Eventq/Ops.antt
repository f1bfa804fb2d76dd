-- ===== src/Eventq/Ops.antt =====
-- The operations of core/tw-eventq.h on the sequence of events that a list holds.
use ross.Prelude.{
  ℕ, suc, ◌+◌, ◌-◌, ◌%◌, ◌^◌, ◌<◌, ◌≡◌, ◌≢◌, refl, sym, ◌∙◌, subst, List, [], ◌∷◌, ◌++◌, ◌==◌,
  if◌then◌else◌, All, All-append, All-append_left, All-append_right, inl, inr, arith, Bool-cases,
  length, length-append,
}
use ross.Queue.Tree.{Ptr, null}
use ross.Eventq.{
  Links, Store, set_next, set_prev, unlink, link_next, link_prev, tw_eventq_push, tw_eventq_pop,
  tw_eventq_unshift, tw_eventq_shift, tw_eventq_delete_any,
}
use ross.Eventq.Linked.{
  first_or, last_or, first_or-append, last_or-append, Linked, Distinct, Linked-join, Linked-left,
  Linked-right, Linked-set_next, Linked-set_prev, Distinct-right, Distinct-before,
}
use ross.Eventq.Relink.{
  NextSet, PrevSet, gap-Cut, link_next-NextSet, link_prev-PrevSet, link_next-other, link_prev-other,
  apart_next, apart_prev, not_null,
}

-- The store holds the list of these events.
pub record IsQueue (s : Store) (xs : List Ptr) : Type 0 where
  pub linked : Linked s.links null xs null
  pub head : s.q.head ≡ first_or xs null
  pub tail : s.q.tail ≡ last_or null xs
  pub distinct : Distinct xs
  pub sized : s.q.size ≡ length xs
  pub fits : length xs < 2 ^ 64

pub Distinct-remove : (xs ms ys : List Ptr) → Distinct (xs ++ (ms ++ ys)) → Distinct (xs ++ ys)
Distinct-remove [] ms ys d = Distinct-right ms ys d
Distinct-remove (x ∷ xs) ms ys d = (
  All-append _ xs ys (All-append_left _ xs (ms ++ ys) d.0)
      (All-append_right _ ms ys (All-append_right _ xs (ms ++ ys) d.0)),
  Distinct-remove xs ms ys d.1,
)

Distinct-middle :
    (xs : List Ptr) (e : Ptr) (ys : List Ptr)
    → Distinct (xs ++ e ∷ ys)
    → All (λ x. x ≢ e) (xs ++ ys)
Distinct-middle xs e ys d =
    All-append _ xs ys (Distinct-before xs e ys d) (Distinct-right xs (e ∷ ys) d).0

Distinct-snoc :
    (xs : List Ptr) (e : Ptr) → Distinct xs → All (λ x. x ≢ e) xs → Distinct (xs ++ e ∷ [])
Distinct-snoc [] e d ne = (tt, tt)
Distinct-snoc (x ∷ xs) e d ne =
    (All-append _ xs (e ∷ []) d.0 ((λ q. ne.0 (sym q)), tt), Distinct-snoc xs e d.1 ne.1)

Linked-unlink :
    (σ : Links) (b : Ptr) (xs : List Ptr) (a e : Ptr)
    → All (λ x. x ≢ e) xs
    → Linked σ b xs a
    → Linked (unlink σ e) b xs a
Linked-unlink σ b xs a e ne l =
    Linked-set_next (set_prev σ e null) b xs a e null ne (Linked-set_prev σ b xs a e null ne l)

less_one :
    {n m k k' : ℕ} (a b : ℕ)
    → n ≡ m
    → m ≡ k'
    → k' < 2 ^ 64
    → k ≡ a + b
    → k' ≡ a + suc b
    → (n + (2 ^ 64 - 1)) % 2 ^ 64 ≡ k
less_one a b p q f e d = omega arith

-- `tw_eventq_delete_any` of an event that the list holds takes out that event, and no other.
pub tw_eventq_delete_any-IsQueue :
    {s : Store} (xs : List Ptr) (e : Ptr) (ys : List Ptr)
    → IsQueue s (xs ++ e ∷ ys)
    → IsQueue (tw_eventq_delete_any s e) (xs ++ ys)
unfolding tw_eventq_delete_any
tw_eventq_delete_any-IsQueue {s} xs e ys v =
    let at = Linked-right s.links null xs (e ∷ ys) null v.linked in
    let n = first_or ys null in
    let p = last_or null xs in
    let apart = Distinct-remove xs (e ∷ []) ys v.distinct in
    let cut =
      gap-Cut s xs ys e e apart (Linked-left s.links null xs (e ∷ ys) null v.linked) at.3
        (v.head ∙ first_or-append xs (e ∷ ys) null) (v.tail ∙ last_or-append null xs (e ∷ ys)) in
    rw (at.1, at.2)
      record {
        linked =
            Linked-unlink (link_prev (link_next s p n) n p).links null (xs ++ ys) null e
              (Distinct-middle xs e ys v.distinct) cut.linked;
        head = cut.head;
        tail = cut.tail;
        distinct = apart;
        sized =
            less_one (length xs) (length ys) cut.size v.sized v.fits (length-append xs ys)
              (length-append xs (e ∷ ys));
        fits = omega (arith, v.fits, length-append xs ys, length-append xs (e ∷ ys));
      }

same-set_next : (σ : Links) (e v : Ptr) → (set_next σ e v).next e ≡ v
same-set_next σ e v = same (σ.next e)
  where
    same : (z : Ptr) → (if e == e then v else z) ≡ v
    same z = ground arith

same-set_prev : (σ : Links) (e v : Ptr) → (set_prev σ e v).prev e ≡ v
same-set_prev σ e v = same (σ.prev e)
  where
    same : (z : Ptr) → (if e == e then v else z) ≡ v
    same z = ground arith

-- `tw_eventq_push` of an event that is not null and not in the list puts it at the tail, and leaves
-- the rest, while the new size fits a `size_t`.
pub tw_eventq_push-IsQueue :
    {s : Store} (xs : List Ptr) (e : Ptr)
    → IsQueue s xs
    → 0 < e
    → All (λ x. x ≢ e) xs
    → length xs + 1 < 2 ^ 64
    → IsQueue (tw_eventq_push s e) (xs ++ e ∷ [])
unfolding tw_eventq_push
tw_eventq_push-IsQueue {s} xs e v pos fresh room =
    let t = s.q.tail in
    let s1 = record s { links = set_prev (set_next s.links e null) e t } in
    let old =
      Linked-set_prev (set_next s.links e null) null xs null e t fresh
        (Linked-set_next s.links null xs null e null fresh v.linked) in
    let one =
      subst (λ z. NextSet s1 (link_next s1 z e) xs e) (sym v.tail)
        (link_next-NextSet s1 xs null e v.distinct old) in
    let alone : Linked s1.links (last_or null xs) (e ∷ []) null = (
      pos,
      same-set_prev (set_next s.links e null) e t ∙ v.tail,
      same-set_next s.links e null,
      tt,
    ) in
    let distinct = Distinct-snoc xs e v.distinct fresh in
    let apart =
      subst (λ z. All (λ y. y ≢ z) (e ∷ [])) (sym v.tail)
        (apart_next xs (e ∷ []) distinct (pos, tt)) in
    record {
      linked =
          Linked-join (link_next s1 t e).links null xs (e ∷ []) null one.linked
            (link_next-other s1 t e (last_or null xs) (e ∷ []) null apart alone);
      head = one.head null v.head ∙ sym (first_or-append xs (e ∷ []) null);
      tail = sym (last_or-append null xs (e ∷ []));
      distinct = distinct;
      sized = omega (arith, one.size, v.sized, length-append xs (e ∷ []), room);
      fits = omega (arith, length-append xs (e ∷ []), room);
    }

-- `tw_eventq_unshift` of an event that is not null and not in the list puts it at the head, and
-- leaves the rest, while the new size fits a `size_t`.
pub tw_eventq_unshift-IsQueue :
    {s : Store} (xs : List Ptr) (e : Ptr)
    → IsQueue s xs
    → 0 < e
    → All (λ x. x ≢ e) xs
    → length xs + 1 < 2 ^ 64
    → IsQueue (tw_eventq_unshift s e) (e ∷ xs)
unfolding tw_eventq_unshift
tw_eventq_unshift-IsQueue {s} xs e v pos fresh room =
    let h = s.q.head in
    let s1 = record s { links = set_next (set_prev s.links e null) e h } in
    let old =
      Linked-set_next (set_prev s.links e null) null xs null e h fresh
        (Linked-set_prev s.links null xs null e null fresh v.linked) in
    let one =
      subst (λ z. PrevSet s1 (link_prev s1 z e) xs e) (sym v.head)
        (link_prev-PrevSet s1 xs null e v.distinct old) in
    let alone : Linked s1.links null (e ∷ []) (first_or xs null) = (
      pos,
      same-set_prev s.links e null,
      same-set_next (set_prev s.links e null) e h ∙ v.head,
      tt,
    ) in
    let apart =
      subst (λ z. All (λ x. x ≢ z) (e ∷ [])) (sym v.head)
        (apart_prev (e ∷ []) xs (fresh, v.distinct) (pos, tt)) in
    record {
      linked =
          Linked-join (link_prev s1 h e).links null (e ∷ []) xs null
            (link_prev-other s1 h e null (e ∷ []) (first_or xs null) apart alone) one.linked;
      head = refl;
      tail = one.tail null v.tail;
      distinct = (fresh, v.distinct);
      sized = omega (arith, one.size, v.sized, room);
      fits = omega (arith, room);
    }

-- On a list that is not empty, `tw_eventq_pop` is the deletion of the event at the tail, which it
-- returns.
pub tw_eventq_pop-delete :
    {s : Store} (xs : List Ptr) (e : Ptr)
    → IsQueue s (xs ++ e ∷ [])
    → tw_eventq_pop s ≡ (e, tw_eventq_delete_any s e)
unfolding tw_eventq_pop tw_eventq_delete_any link_prev
tw_eventq_pop-delete {s} xs e v =
    let at = Linked-right s.links null xs (e ∷ []) null v.linked in
    rw (v.tail ∙ last_or-append null xs (e ∷ []), not_null e at.0, at.2) refl

-- On a list that is not empty, `tw_eventq_shift` is the deletion of the event at the head, which it
-- returns.
pub tw_eventq_shift-delete :
    {s : Store} (xs : List Ptr) (e : Ptr)
    → IsQueue s (e ∷ xs)
    → tw_eventq_shift s ≡ (e, tw_eventq_delete_any s e)
unfolding tw_eventq_shift tw_eventq_delete_any link_prev link_next
tw_eventq_shift-delete {s} xs e v = elim (Bool-cases (s.links.next e == null)) [
  | inl c ↦ rw (v.head, not_null e v.linked.0, v.linked.1, c) refl
  | inr c ↦ rw (v.head, not_null e v.linked.0, v.linked.1, c) refl
]

-- On the empty list `tw_eventq_pop` and `tw_eventq_shift` return null and change nothing.
pub tw_eventq_pop-empty :
    {s : Store} → IsQueue s [] → (tw_eventq_pop s ≡ (null, s)) × (tw_eventq_shift s ≡ (null, s))
unfolding tw_eventq_pop tw_eventq_shift
tw_eventq_pop-empty {s} v = (rw v.tail refl, rw v.head refl)
