-- ===== src/Eventq/Linked.antt =====
-- Chains of events in the store of Eventq.antt.
use ross.Prelude.{
  ◌<◌, ◌≡◌, ◌≢◌, refl, sym, ◌∙◌, List, [], ◌∷◌, ◌++◌, ◌==◌, if◌then◌else◌, All, All-append_left,
  All-append_right, arith,
}
use ross.Queue.Tree.{Ptr}
use ross.Eventq.{Links, write, set_next, set_prev}

abbrev pub first_or : List Ptr → Ptr → Ptr
first_or [] a = a
first_or (x ∷ xs) a = x

abbrev pub last_or : Ptr → List Ptr → Ptr
last_or b [] = b
last_or b (x ∷ xs) = last_or x xs

pub first_or-append :
    (xs ys : List Ptr) (a : Ptr) → first_or (xs ++ ys) a ≡ first_or xs (first_or ys a)
first_or-append [] ys a = refl
first_or-append (x ∷ xs) ys a = refl

pub last_or-append : (b : Ptr) (xs ys : List Ptr) → last_or b (xs ++ ys) ≡ last_or (last_or b xs) ys
last_or-append b [] ys = refl
last_or-append b (x ∷ xs) ys = last_or-append x xs ys

-- The events are linked in both directions; `b` stands before them and `a` behind them.
abbrev pub Linked : Links → Ptr → List Ptr → Ptr → Type 0
Linked σ b [] a = Unit {0}
Linked σ b (x ∷ xs) a = (0 < x) × (σ.prev x ≡ b) × (σ.next x ≡ first_or xs a) × Linked σ x xs a

-- No event twice.
abbrev pub Distinct : List Ptr → Type 0
Distinct [] = Unit {0}
Distinct (x ∷ xs) = All (λ y. y ≢ x) xs × Distinct xs

module _ (σ : Links) where
  pub Linked-join :
      (b : Ptr) (xs ys : List Ptr) (a : Ptr)
      → Linked σ b xs (first_or ys a)
      → Linked σ (last_or b xs) ys a
      → Linked σ b (xs ++ ys) a
  Linked-join b [] ys a l r = r
  Linked-join b (x ∷ xs) ys a (pos, p, n, l) r =
      (pos, p, n ∙ sym (first_or-append xs ys a), Linked-join x xs ys a l r)

  pub Linked-left :
      (b : Ptr) (xs ys : List Ptr) (a : Ptr)
      → Linked σ b (xs ++ ys) a
      → Linked σ b xs (first_or ys a)
  Linked-left b [] ys a l = tt
  Linked-left b (x ∷ xs) ys a (pos, p, n, l) =
      (pos, p, n ∙ first_or-append xs ys a, Linked-left x xs ys a l)

  pub Linked-right :
      (b : Ptr) (xs ys : List Ptr) (a : Ptr)
      → Linked σ b (xs ++ ys) a
      → Linked σ (last_or b xs) ys a
  Linked-right b [] ys a l = l
  Linked-right b (x ∷ xs) ys a (pos, p, n, l) = Linked-right x xs ys a l

  pub Linked-allocated : (b : Ptr) (xs : List Ptr) (a : Ptr) → Linked σ b xs a → All (λ x. 0 < x) xs
  Linked-allocated b [] a l = tt
  Linked-allocated b (x ∷ xs) a (pos, p, n, l) = (pos, Linked-allocated x xs a l)

  -- Writes to other events.
  pub Linked-set_next :
      (b : Ptr) (xs : List Ptr) (a e v : Ptr)
      → All (λ x. x ≢ e) xs
      → Linked σ b xs a
      → Linked (set_next σ e v) b xs a
  Linked-set_next b [] a e v ne l = tt
  Linked-set_next b (x ∷ xs) a e v ne (pos, p, n, l) =
      (pos, p, other (σ.next x) ne.0 ∙ n, Linked-set_next x xs a e v ne.1 l)
    where
      other : (z : Ptr) → x ≢ e → (if x == e then v else z) ≡ z
      other z n = ground arith

  pub Linked-set_prev :
      (b : Ptr) (xs : List Ptr) (a e v : Ptr)
      → All (λ x. x ≢ e) xs
      → Linked σ b xs a
      → Linked (set_prev σ e v) b xs a
  Linked-set_prev b [] a e v ne l = tt
  Linked-set_prev b (x ∷ xs) a e v ne (pos, p, n, l) =
      (pos, other (σ.prev x) ne.0 ∙ p, n, Linked-set_prev x xs a e v ne.1 l)
    where
      other : (z : Ptr) → x ≢ e → (if x == e then v else z) ≡ z
      other z n = ground arith

write-same : (f : Ptr → Ptr) (e v : Ptr) → write f e v e ≡ v
write-same f e v = same (f e)
  where
    same : (z : Ptr) → (if e == e then v else z) ≡ v
    same z = ground arith

write-other : (f : Ptr → Ptr) (e v x : Ptr) → x ≢ e → write f e v x ≡ f x
write-other f e v x ne = other (f x)
  where
    other : (z : Ptr) → (if x == e then v else z) ≡ z
    other z = ground (arith, ne)

last-differs : (x y : Ptr) (ys : List Ptr) → All (λ z. z ≢ x) (y ∷ ys) → x ≢ last_or y ys
last-differs x y [] ne = λ e. ne.0 (sym e)
last-differs x y (z ∷ zs) ne = last-differs x z zs ne.1

-- A write of `next` to the last event of a chain moves what stands behind the chain.
pub set_next-last :
    (σ : Links) (b x : Ptr) (xs : List Ptr) (a v : Ptr)
    → Distinct (x ∷ xs)
    → Linked σ b (x ∷ xs) a
    → Linked (set_next σ (last_or x xs) v) b (x ∷ xs) v
set_next-last σ b x [] a v d (pos, p, n, l) = (pos, p, write-same σ.next x v, tt)
set_next-last σ b x (y ∷ ys) a v d (pos, p, n, l) = (
  pos,
  p,
  write-other σ.next (last_or y ys) v x (last-differs x y ys d.0) ∙ n,
  set_next-last σ x y ys a v d.1 l,
)

-- A write of `prev` to the first event moves what stands before it.
pub set_prev-first :
    (σ : Links) (b x : Ptr) (xs : List Ptr) (a v : Ptr)
    → Distinct (x ∷ xs)
    → Linked σ b (x ∷ xs) a
    → Linked (set_prev σ x v) v (x ∷ xs) a
set_prev-first σ b x xs a v d (pos, p, n, l) =
    (pos, write-same σ.prev x v, n, Linked-set_prev σ x xs a x v d.0 l)

pub Distinct-left : (xs ys : List Ptr) → Distinct (xs ++ ys) → Distinct xs
Distinct-left [] ys d = tt
Distinct-left (x ∷ xs) ys d = (All-append_left _ xs ys d.0, Distinct-left xs ys d.1)

pub Distinct-right : (xs ys : List Ptr) → Distinct (xs ++ ys) → Distinct ys
Distinct-right [] ys d = d
Distinct-right (x ∷ xs) ys d = Distinct-right xs ys d.1

-- Nothing behind a part is its last event.
pub Distinct-last :
    (x : Ptr) (xs ys : List Ptr) → Distinct (x ∷ xs ++ ys) → All (λ y. y ≢ last_or x xs) ys
Distinct-last x [] ys d = d.0
Distinct-last x (z ∷ zs) ys d = Distinct-last z zs ys d.1

-- Nothing before an event is that event.
pub Distinct-before :
    (xs : List Ptr) (e : Ptr) (ys : List Ptr) → Distinct (xs ++ e ∷ ys) → All (λ x. x ≢ e) xs
Distinct-before [] e ys d = tt
Distinct-before (x ∷ xs) e ys d =
    ((λ q. (All-append_right _ xs (e ∷ ys) d.0).0 (sym q)), Distinct-before xs e ys d.1)

pub next-last :
    (σ : Links) (b x : Ptr) (xs : List Ptr) (a : Ptr)
    → Linked σ b (x ∷ xs) a
    → σ.next (last_or x xs) ≡ a
next-last σ b x [] a l = l.2
next-last σ b x (y ∷ ys) a l = next-last σ x y ys a l.3
