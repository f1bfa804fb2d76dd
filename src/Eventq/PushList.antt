-- ===== src/Eventq/PushList.antt =====
-- `tw_eventq_push_list` of core/tw-eventq.h on a chain and a list.
use mathlib.Core.List.{reverse-cons, reverse-reverse}
use ross.Prelude.{
  ◌+◌, ◌^◌, ◌<◌, ◌≡◌, ◌≢◌, refl, sym, ap, ◌∙◌, subst, Option, some, List, [], ◌∷◌, ◌++◌, reverse,
  inl, inr, ◌≤◌, Has, All, All-Has, All-append, arith, length, length-append,
}
use ross.Queue.Tree.{Ptr, null}
use ross.Eventq.Linked.{last_or, Linked, Distinct, Distinct-left, Linked-allocated}
use ross.Eventq.Ops.{IsQueue}
use ross.Eventq.Walk.{All-reverse, length-reverse, first_or-reverse}
use ross.Eventq.Collect.{
  push_list_links, push_list_q, Collecting, free_store, pe_sevent_q, commit_loop,
  tw_eventq_push_list,
}
use ross.Eventq.Released.{Clean, NotIn, AllSent, All-of}
use ross.Eventq.Round.{Caused, total}
use ross.Eventq.Committed.{commit_loop-Committed}
use ross.Eventq.Prepend.{links-Linked, links-other, new_tail, Distinct-apart}

pub NotIn-of_apart : (ks zs : List Ptr) → All (λ z. All (λ k. k ≢ z) ks) zs → NotIn ks zs
NotIn-of_apart ks zs a k i j =
    All-Has (λ x. x ≢ k) ks (All-Has (λ z. All (λ x. x ≢ z) ks) zs a j) i refl

All-NotIn : (x : Ptr) (ks ys : List Ptr) → NotIn (x ∷ ks) ys → All (λ y. y ≢ x) ys
All-NotIn x ks ys n = All-of ys (λ y i e. n x (inl refl) (subst (λ z. Has z ys) e i))

pub Distinct-join :
    (ks ys : List Ptr) → Distinct ks → Distinct ys → NotIn ks ys → Distinct (ks ++ ys)
Distinct-join [] ys d e n = e
Distinct-join (k ∷ ks) ys d e n =
    (All-append _ ks ys d.0 (All-NotIn k ks ys n), Distinct-join ks ys d.1 e (λ x i. n x (inr i)))

Distinct-reverse : (xs : List Ptr) → Distinct xs → Distinct (reverse xs)
Distinct-reverse [] d = tt
Distinct-reverse (x ∷ xs) d = subst Distinct (sym (reverse-cons x xs)) (
    Distinct-join (reverse xs) (x ∷ []) (Distinct-reverse xs d.1) (tt, tt)
      (λ k i j. elim j [
        | inl e ↦ All-Has (λ y. y ≢ x) (reverse xs) (All-reverse (λ y. y ≢ x) xs d.0) i (sym e)
        | inr z ↦ absurd z
      ]))

pub total-append :
    (f : Ptr → List Ptr) (xs ys : List Ptr) → total f (xs ++ ys) ≡ total f xs + total f ys
total-append f [] ys = omega arith
total-append f (x ∷ xs) ys = omega (arith, total-append f xs ys)

total-reverse : (f : Ptr → List Ptr) (xs : List Ptr) → total f (reverse xs) ≡ total f xs
total-reverse f [] = refl
total-reverse f (x ∷ xs) =
    ap (total f) (reverse-cons x xs)
    ∙ total-append f (reverse xs) (x ∷ [])
    ∙ omega (arith, total-reverse f xs)

-- What `tw_eventq_push_list` makes of a chain and a list; `freed` are the events that wait in
-- `sevent_q` and that one of the chain had caused.
pub record Pushed (s : Collecting) (ms fs : List Ptr) (out : Option Collecting) : Type 0 where
  pub s' : Collecting
  pub returns : out ≡ some s'
  pub freed : List Ptr
  pub holds : IsQueue (free_store s') (freed ++ (ms ++ fs))
  pub sound : (p : Ptr) → Has p freed → (s.owner p ≡ pe_sevent_q) × Caused s.caused (reverse ms) p
  pub complete : (p : Ptr) → Caused s.caused (reverse ms) p → s.owner p ≡ pe_sevent_q → Has p freed
  pub count : length freed ≤ total s.caused ms
  pub q : s'.q ≡ s.q
  pub commits : s'.commits ≡ s.commits ++ reverse ms
  pub others :
      (b a : Ptr) (ks : List Ptr)
      → Clean s.owner ks
      → Distinct (ks ++ (ms ++ fs))
      → Linked s.links b ks a
      → Linked s'.links b ks a

-- Let a chain of events have none of the list's, let none of these events wait in `sevent_q`, let
-- those that do be allocated, and let all events and the number of caused ones fit a `size_t`. Then
-- `tw_eventq_push_list` of the chain returns, with its events committed from its end to its start,
-- each once. The list then holds the caused events that waited in `sevent_q`, and no other ones, in
-- front, and then the chain and the old list. Chains apart from these stay linked.
pub tw_eventq_push_list-Pushed :
    (s : Collecting) (b m : Ptr) (ms : List Ptr) (a : Ptr) (fs : List Ptr)
    → Linked s.links b (m ∷ ms) a
    → IsQueue (free_store s) fs
    → Distinct (m ∷ ms ++ fs)
    → Clean s.owner (m ∷ ms ++ fs)
    → AllSent s.owner
    → length (m ∷ ms ++ fs) + total s.caused (m ∷ ms) < 2 ^ 64
    → Pushed s (m ∷ ms) fs (tw_eventq_push_list s m (last_or m ms) (length (m ∷ ms)))
unfolding tw_eventq_push_list push_list_q
tw_eventq_push_list-Pushed s b m ms a fs lm v d clean sent fits =
    let t = last_or m ms in
    let zs = m ∷ ms ++ fs in
    let σ = push_list_links s.links s.free_q m t in
    let s0 : Collecting = record s {
      links = σ;
      free_q = push_list_q s.free_q m t (length (m ∷ ms));
    } in
    let pos = Linked-allocated s.links null fs null v.linked in
    let linked = links-Linked s.links s.free_q b m ms a fs lm v.linked v.head d in
    let held : IsQueue (free_store s0) zs = record {
      linked = linked;
      head = refl;
      tail = new_tail m ms fs s.free_q.tail pos v.tail;
      distinct = d;
      sized = omega (arith, v.sized, length-append ms fs, fits);
      fits = omega (arith, fits);
    } in
    let order : reverse ms ++ m ∷ [] ≡ reverse (m ∷ ms) = sym (reverse-cons m ms) in
    let c =
      commit_loop-Committed (length (m ∷ ms) + 1) m (reverse ms) zs [] fs s0
        (ap (λ l. m ∷ l ++ fs) (sym (reverse-reverse ms))) held clean sent
        (subst Distinct (sym order) (Distinct-reverse (m ∷ ms) (Distinct-left (m ∷ ms) fs d)))
        (omega (arith, length-reverse ms))
        (omega (arith, fits, ap (total s.caused) order, total-reverse s.caused (m ∷ ms))) in
    record {
      s' = c.s';
      returns =
          subst (λ z. commit_loop (length (m ∷ ms) + 1) m z s0 ≡ some c.s') (first_or-reverse ms m)
            c.returns;
      freed = c.freed;
      holds = c.holds;
      sound = λ p h. (let (o, k) = c.sound p h in (o, subst (λ l. Caused s.caused l p) order k));
      complete = λ p k o. c.complete p (subst (λ l. Caused s.caused l p) (sym order) k) o;
      count = omega (arith, c.count, ap (total s.caused) order, total-reverse s.caused (m ∷ ms));
      q = c.q;
      commits = c.commits ∙ ap (λ l. s.commits ++ l) order;
      others = λ b a ks k dk l.
          c.others b a ks k (NotIn-of_apart ks zs (Distinct-apart ks zs dk))
            (links-other s.links s.free_q b m ms a fs ks v.head pos dk l);
    }
