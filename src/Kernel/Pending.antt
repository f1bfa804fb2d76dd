-- ===== src/Kernel/Pending.antt =====
-- The event queue together with the owners of the events: an event is in the queue exactly if its
-- owner says so.
use ross.Prelude.{
  ℕ, ◌+◌, ◌^◌, ◌<◌, ◌≡◌, ◌≢◌, refl, sym, ap, subst, ◌⊎◌, inl, inr, Bool, false, Option, none, some,
  List, [], ◌∷◌, ◌++◌, length, length-append, All-Has, Has, Has-append, Has-middle, ◌==◌, fun_ext,
  ℕ_discrete, arith,
}
use ross.Event.{TwEvent}
use ross.Event.Compare.{tw_pq_compare_less_than_rand}
use ross.Event.Queue.{tw_pq_compare_less_than_rand-IsOrder}
use ross.Queue.Tree.{Ptr}
use ross.Queue.Pq.{TwPq, pe_pq, set_owner, tw_pq_enqueue, tw_pq_dequeue, tw_pq_delete_any}
use ross.Queue.Sorted.{IsOrder, Lt, Sorted, Comparable, Sorted-before, Sorted-right}
use ross.Queue.Valid.{IsValid, events}
use ross.Queue.Enqueue.{tw_pq_enqueue-Inserted}
use ross.Queue.Delete.{tw_pq_delete_any-Deleted}

-- A list holds an element between two parts.
pub Has-split :
    (a : ℕ) (xs : List ℕ) → Has a xs → (ys : List ℕ) × (zs : List ℕ) × (xs ≡ ys ++ a ∷ zs)
Has-split a [] h = absurd h
Has-split a (x ∷ xs) (inl e) = ([], xs, ap (λ y. y ∷ xs) e)
Has-split a (x ∷ xs) (inr h) = let (ys, zs, e) = Has-split a xs h in (x ∷ ys, zs, ap (λ l. x ∷ l) e)

pub Has-left : (a : ℕ) (xs ys : List ℕ) → Has a xs → Has a (xs ++ ys)
Has-left a [] ys h = absurd h
Has-left a (x ∷ xs) ys (inl e) = inl e
Has-left a (x ∷ xs) ys (inr h) = inr (Has-left a xs ys h)

pub Has-right : (a : ℕ) (xs ys : List ℕ) → Has a ys → Has a (xs ++ ys)
Has-right a [] ys h = h
Has-right a (x ∷ xs) ys h = inr (Has-right a xs ys h)

-- One more element between two parts.
pub Has-insert : (a e : ℕ) (xs ys : List ℕ) → Has a (xs ++ ys) → Has a (xs ++ e ∷ ys)
Has-insert a e [] ys h = inr h
Has-insert a e (x ∷ xs) ys (inl p) = inl p
Has-insert a e (x ∷ xs) ys (inr h) = inr (Has-insert a e xs ys h)

pub Has-uninsert : (a e : ℕ) (xs ys : List ℕ) → Has a (xs ++ e ∷ ys) → (a ≡ e) ⊎ Has a (xs ++ ys)
Has-uninsert a e [] ys (inl p) = inl (sym p)
Has-uninsert a e [] ys (inr h) = inr h
Has-uninsert a e (x ∷ xs) ys (inl p) = inr (inl p)
Has-uninsert a e (x ∷ xs) ys (inr h) = elim (Has-uninsert a e xs ys h) [
  | inl p ↦ inl p
  | inr i ↦ inr (inr i)
]

enqueue-owner :
    (less_than : Ptr → Ptr → Option Bool) (q q' : TwPq) (e : Ptr)
    → tw_pq_enqueue less_than q e ≡ some q'
    → q'.owner ≡ set_owner q.owner e pe_pq
unfolding tw_pq_enqueue
enqueue-owner less_than q q' e h = ground arith

delete-owner :
    (q q' : TwPq) (e p : Ptr)
    → (q.nitems == 0) ≡ false
    → tw_pq_delete_any q e ≡ some q'
    → q'.owner p ≡ set_owner q.owner e 0 p
unfolding tw_pq_delete_any tw_pq_dequeue
delete-owner q q' e p n h = ground arith

abbrev Inside : (Ptr → ℕ) → List Ptr → Type 0
Inside owner xs = (p : Ptr) → Has p xs → owner p ≡ pe_pq

abbrev Holds : (Ptr → ℕ) → List Ptr → Type 0
Holds owner xs = (p : Ptr) → owner p ≡ pe_pq → Has p xs

module _ (owner : Ptr → ℕ) (e : Ptr) (xs ys : List Ptr) where
  Inside-insert : Inside owner (xs ++ ys) → Inside (set_owner owner e pe_pq) (xs ++ e ∷ ys)
  Inside-insert h p i = elim (Has-uninsert p e xs ys i) [
    | inl q ↦ ground arith
    | inr j ↦ ground (arith, h p j)
  ]

  Holds-insert : Holds owner (xs ++ ys) → Holds (set_owner owner e pe_pq) (xs ++ e ∷ ys)
  Holds-insert h p o = elim (ℕ_discrete p e) [
    | yes q ↦ rw q (Has-middle e xs ys)
    | no q ↦ Has-insert p e xs ys (h p (ground arith))
  ]

  Inside-remove :
      ¬ Has e (xs ++ ys) → Inside owner (xs ++ e ∷ ys) → Inside (set_owner owner e 0) (xs ++ ys)
  Inside-remove n h p i =
      let ne : p ≢ e = λ q. n (subst (λ z. Has z (xs ++ ys)) q i) in
      ground (arith, h p (Has-insert p e xs ys i))

  Holds-remove : Holds owner (xs ++ e ∷ ys) → Holds (set_owner owner e 0) (xs ++ ys)
  Holds-remove h p o = elim (ℕ_discrete p e) [
    | yes q ↦ absurd (ground arith)
    | no q ↦ elim (Has-uninsert p e xs ys (h p (ground arith))) [
      | inl q' ↦ absurd (q q')
      | inr j ↦ j
    ]
  ]

-- No two events of a set tie in everything that the comparison reads. A buffer that holds no event
-- may look like another one, so the set is one of events that are queued or come into the queue.
abbrev pub NoTie : (Ptr → TwEvent) → (Ptr → Type 0) → Type 0
NoTie keys live =
    (a b : Ptr) → live a → live b → a ≢ b → tw_pq_compare_less_than_rand (keys a) (keys b) ≢ none

abbrev pub key_less_than : (Ptr → TwEvent) → Ptr → Ptr → Option Bool
key_less_than keys n e = tw_pq_compare_less_than_rand (keys n) (keys e)

module _ (keys : Ptr → TwEvent) (live : Ptr → Type 0) where
  -- The queue is valid, holds the events whose owner says so, and all of them are in the set.
  pub record IsHeld (q : TwPq) : Type 0 where
    pub valid : IsValid (key_less_than keys) q
    pub inside : (p : Ptr) → Has p (events q) → q.owner p ≡ pe_pq
    pub held : (p : Ptr) → q.owner p ≡ pe_pq → Has p (events q)
    pub known : (p : Ptr) → q.owner p ≡ pe_pq → live p

  pub record Enqueued (q : TwPq) (e : Ptr) (r : Option TwPq) : Type 0 where
    pub q' : TwPq
    pub returns : r ≡ some q'
    pub held : IsHeld q'
    pub owner : (p : Ptr) → q'.owner p ≡ set_owner q.owner e pe_pq p
    pub count : length (events q') ≡ length (events q) + 1

  pub record Removed (q : TwPq) (e : Ptr) (r : Option TwPq) : Type 0 where
    pub q' : TwPq
    pub returns : r ≡ some q'
    pub held : IsHeld q'
    pub owner : (p : Ptr) → q'.owner p ≡ set_owner q.owner e 0 p
    pub count : length (events q) ≡ length (events q') + 1

  not_pending : {q : TwPq} {e : Ptr} → IsHeld q → q.owner e ≢ pe_pq → ¬ Has e (events q)
  not_pending h o i = o (h.inside _ i)

  comparable :
      (e : Ptr) (xs : List Ptr)
      → NoTie keys live
      → live e
      → ((x : Ptr) → Has x xs → live x)
      → ¬ Has e xs
      → Comparable (key_less_than keys) e xs
  comparable e [] n l k h = tt
  comparable e (x ∷ xs) n l k h = (
    n x e (k x (inl refl)) l (λ p. h (inl p)),
    comparable e xs n l (λ y i. k y (inr i)) (λ i. h (inr i)),
  )

  pub enqueue-Enqueued :
      {q : TwPq} (e : Ptr)
      → NoTie keys live
      → live e
      → IsHeld q
      → 0 < e
      → q.owner e ≢ pe_pq
      → length (events q) + 1 < 2 ^ 32
      → Enqueued q e (tw_pq_enqueue (key_less_than keys) q e)
  enqueue-Enqueued {q} e n l h pos o room =
      let order = tw_pq_compare_less_than_rand-IsOrder keys in
      let absent =
        comparable e (events q) n l (λ x i. h.known x (h.inside x i)) (not_pending h o) in
      let i = tw_pq_enqueue-Inserted order e h.valid pos absent room in
      let owner = enqueue-owner (key_less_than keys) q i.st' e i.returns in
      record {
        q' = i.st';
        returns = i.returns;
        held = record {
          valid = i.valid;
          inside =
              subst (λ f. Inside f (events i.st')) (sym owner)
                (rw i.new (Inside-insert q.owner e i.lesser i.greater (rw (← i.old) h.inside)));
          held =
              subst (λ f. Holds f (events i.st')) (sym owner)
                (rw i.new (Holds-insert q.owner e i.lesser i.greater (rw (← i.old) h.held)));
          known = λ p r. elim (ℕ_discrete p e) [
            | yes z ↦ subst live (sym z) l
            | no z ↦ h.known p (ground (arith, ap (λ f. f p) owner))
          ];
        };
        owner = λ p. ap (λ f. f p) owner;
        count = omega (
          arith,
          ap length i.old,
          ap length i.new,
          length-append i.lesser i.greater,
          length-append i.lesser (e ∷ i.greater),
        );
      }

  absent_of_Sorted :
      (order : IsOrder (key_less_than keys)) (e : Ptr) (xs ys : List Ptr)
      → Sorted (key_less_than keys) (xs ++ e ∷ ys)
      → ¬ Has e (xs ++ ys)
  absent_of_Sorted order e xs ys s h =
      let after = (Sorted-right (key_less_than keys) xs (e ∷ ys) s).0 in
      let before = Sorted-before (key_less_than keys) xs e ys s in
      elim (Has-append e xs ys h) [
        | inl i ↦ order.irrefl e (All-Has (λ x. Lt (key_less_than keys) x e) xs before i)
        | inr i ↦ order.irrefl e (All-Has (Lt (key_less_than keys) e) ys after i)
      ]

  pub delete-Removed :
      {q : TwPq} (e : Ptr) → IsHeld q → q.owner e ≡ pe_pq → Removed q e (tw_pq_delete_any q e)
  delete-Removed {q} e h o =
      let order = tw_pq_compare_less_than_rand-IsOrder keys in
      let (xs, ys, whole) = Has-split e (events q) (h.held e o) in
      let (q', returns, valid, rest) = tw_pq_delete_any-Deleted order e xs ys h.valid whole in
      let count = ap length whole in
      let some_left : (q.nitems == 0) ≡ false =
        ground (arith, h.valid.counted, count, length-append xs (e ∷ ys)) in
      let absent =
        absent_of_Sorted order e xs ys (subst (Sorted (key_less_than keys)) whole h.valid.sorted) in
      let owner = λ (p : Ptr). delete-owner q q' e p some_left returns in
      record {
        q' = q';
        returns = returns;
        held = record {
          valid = valid;
          inside =
              subst (λ f. Inside f (events q')) (sym (fun_ext owner))
                (rw rest (Inside-remove q.owner e xs ys absent (rw (← whole) h.inside)));
          held =
              subst (λ f. Holds f (events q')) (sym (fun_ext owner))
                (rw rest (Holds-remove q.owner e xs ys (rw (← whole) h.held)));
          known = λ p r. h.known p (ground (arith, owner p));
        };
        owner = owner;
        count =
            omega (arith, count, ap length rest, length-append xs (e ∷ ys), length-append xs ys);
      }

  -- An owner other than the queue's, for an event that is not in the queue.
  pub IsHeld-set_owner :
      {q : TwPq} (e a : ℕ)
      → IsHeld q
      → q.owner e ≢ pe_pq
      → a ≢ pe_pq
      → IsHeld (record q { owner = set_owner q.owner e a })
  IsHeld-set_owner {q} e a h o n = record {
    valid = record {
      sorted = h.valid.sorted;
      least = h.valid.least;
      counted = h.valid.counted;
      allocated = h.valid.allocated;
    };
    inside = λ p i.
        let ne : p ≢ e = λ r. o (subst (λ z. q.owner z ≡ pe_pq) r (h.inside p i)) in
        ground (arith, h.inside p i);
    held = λ p r. h.held p (ground arith);
    known = λ p r. h.known p (ground arith);
  }
