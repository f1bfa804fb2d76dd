-- ===== src/Eventq/Relink.antt =====
-- The two conditional writes of core/tw-eventq.h that take a part out of a list.
use ross.Prelude.{
  ◌<◌, ◌≡◌, ◌≢◌, refl, sym, ◌∙◌, false, List, [], ◌∷◌, ◌++◌, ◌==◌, All, All-imp, inl, inr, arith,
  Bool-cases,
}
use ross.Queue.Tree.{Ptr, null}
use ross.Eventq.{Store, link_next, link_prev}
use ross.Eventq.Linked.{
  first_or, last_or, first_or-append, last_or-append, Linked, Distinct, Linked-join,
  Linked-allocated, Linked-set_next, Linked-set_prev, set_next-last, set_prev-first, Distinct-left,
  Distinct-right, Distinct-last, Distinct-before,
}

pub not_null : (x : Ptr) → 0 < x → (x == null) ≡ false
not_null x pos = ground arith

pub last-positive : (x : Ptr) (xs : List Ptr) → All (λ y. 0 < y) (x ∷ xs) → 0 < last_or x xs
last-positive x [] p = p.0
last-positive x (y ∷ ys) p = last-positive y ys p.1

-- After `link_next` at the end of the chain `xs`, `v` stands behind it.
pub record NextSet (s s' : Store) (xs : List Ptr) (v : Ptr) : Type 0 where
  pub linked : Linked s'.links null xs v
  pub head : (a : Ptr) → s.q.head ≡ first_or xs a → s'.q.head ≡ first_or xs v
  pub tail : s'.q.tail ≡ s.q.tail
  pub size : s'.q.size ≡ s.q.size

pub link_next-NextSet :
    (s : Store) (xs : List Ptr) (a v : Ptr)
    → Distinct xs
    → Linked s.links null xs a
    → NextSet s (link_next s (last_or null xs) v) xs v
unfolding link_next
link_next-NextSet s [] a v d l = record {
  linked = tt;
  head = λ a e. refl;
  tail = refl;
  size = refl;
}
link_next-NextSet s (x ∷ xs) a v d l =
    let pos = last-positive x xs (Linked-allocated s.links null (x ∷ xs) a l) in
    rw (not_null (last_or x xs) pos) record {
      linked = set_next-last s.links null x xs a v d l;
      head = λ a e. e;
      tail = refl;
      size = refl;
    }

-- After `link_prev` at the start of the chain `ys`, `v` stands before it.
pub record PrevSet (s s' : Store) (ys : List Ptr) (v : Ptr) : Type 0 where
  pub linked : Linked s'.links v ys null
  pub tail : (b : Ptr) → s.q.tail ≡ last_or b ys → s'.q.tail ≡ last_or v ys
  pub head : s'.q.head ≡ s.q.head
  pub size : s'.q.size ≡ s.q.size

pub link_prev-PrevSet :
    (s : Store) (ys : List Ptr) (b v : Ptr)
    → Distinct ys
    → Linked s.links b ys null
    → PrevSet s (link_prev s (first_or ys null) v) ys v
unfolding link_prev
link_prev-PrevSet s [] b v d l = record {
  linked = tt;
  tail = λ b e. refl;
  head = refl;
  size = refl;
}
link_prev-PrevSet s (y ∷ ys) b v d l = rw (not_null y l.0) record {
  linked = set_prev-first s.links b y ys null v d l;
  tail = λ b e. e;
  head = refl;
  size = refl;
}

-- Other chains stay.
pub link_next-other :
    (s : Store) (p v b : Ptr) (ys : List Ptr) (a : Ptr)
    → All (λ y. y ≢ p) ys
    → Linked s.links b ys a
    → Linked (link_next s p v).links b ys a
unfolding link_next
link_next-other s p v b ys a ne l = elim (Bool-cases (p == null)) [
  | inl e ↦ rw e l
  | inr e ↦ rw e (Linked-set_next s.links b ys a p v ne l)
]

pub link_prev-other :
    (s : Store) (n v b : Ptr) (xs : List Ptr) (a : Ptr)
    → All (λ x. x ≢ n) xs
    → Linked s.links b xs a
    → Linked (link_prev s n v).links b xs a
unfolding link_prev
link_prev-other s n v b xs a ne l = elim (Bool-cases (n == null)) [
  | inl e ↦ rw e l
  | inr e ↦ rw e (Linked-set_prev s.links b xs a n v ne l)
]

not-null : (xs : List Ptr) → All (λ x. 0 < x) xs → All (λ x. x ≢ null) xs
not-null xs p = All-imp (λ x q e. absurd (omega arith)) xs p

-- Nothing in the one chain is the border of the other.
pub apart_next :
    (xs ys : List Ptr)
    → Distinct (xs ++ ys)
    → All (λ x. 0 < x) ys
    → All (λ y. y ≢ last_or null xs) ys
apart_next [] ys d p = not-null ys p
apart_next (x ∷ xs) ys d p = Distinct-last x xs ys d

pub apart_prev :
    (xs ys : List Ptr)
    → Distinct (xs ++ ys)
    → All (λ x. 0 < x) xs
    → All (λ x. x ≢ first_or ys null) xs
apart_prev xs [] d p = not-null xs p
apart_prev xs (y ∷ ys) d p = Distinct-before xs y ys d

-- `xs` and `ys` are one list.
pub record Cut (s s' : Store) (xs ys : List Ptr) : Type 0 where
  pub linked : Linked s'.links null (xs ++ ys) null
  pub head : s'.q.head ≡ first_or (xs ++ ys) null
  pub tail : s'.q.tail ≡ last_or null (xs ++ ys)
  pub size : s'.q.size ≡ s.q.size

-- The writes at the two borders close the gap between two chains.
pub gap-Cut :
    (s : Store) (xs ys : List Ptr) (a b : Ptr)
    → Distinct (xs ++ ys)
    → Linked s.links null xs a
    → Linked s.links b ys null
    → s.q.head ≡ first_or xs a
    → s.q.tail ≡ last_or b ys
    → Cut s
        (link_prev
          (link_next s (last_or null xs) (first_or ys null))
          (first_or ys null)
          (last_or null xs))
        xs
        ys
gap-Cut s xs ys a b d lx ly h t =
    let n = first_or ys null in
    let p = last_or null xs in
    let s1 = link_next s p n in
    let pos_x = Linked-allocated s.links null xs a lx in
    let pos_y = Linked-allocated s.links b ys null ly in
    let one = link_next-NextSet s xs a n (Distinct-left xs ys d) lx in
    let two =
      link_prev-PrevSet s1 ys b p (Distinct-right xs ys d)
        (link_next-other s p n b ys null (apart_next xs ys d pos_y) ly) in
    record {
      linked =
          Linked-join (link_prev s1 n p).links null xs ys null
            (link_prev-other s1 n p null xs n (apart_prev xs ys d pos_x) one.linked) two.linked;
      head = two.head ∙ one.head a h ∙ sym (first_or-append xs ys null);
      tail = two.tail b (one.tail ∙ t) ∙ sym (last_or-append null xs ys);
      size = two.size ∙ one.size;
    }
