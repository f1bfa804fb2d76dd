-- ===== src/Queue/Sorted.antt =====
-- What the queue needs of its comparison, and lists in its order.
use ross.Prelude.{
  ◌≡◌, ◌≢◌, Bool, true, false, Option, none, some, List, [], ◌∷◌, ◌++◌, All, All-append,
  All-append_left, All-append_right,
}
use ross.Queue.Tree.{Ptr}

-- The interface of the queue to the event signatures: where the comparison answers, it is a strict
-- order.
pub record IsOrder (less_than : Ptr → Ptr → Option Bool) : Type 0 where
  pub irrefl : (a : Ptr) → less_than a a ≢ some true
  pub asymm : (a b : Ptr) → less_than a b ≡ some false → less_than b a ≡ some true
  pub trans :
      (a b c : Ptr)
      → less_than a b ≡ some true
      → less_than b c ≡ some true
      → less_than a c ≡ some true

module _ (less_than : Ptr → Ptr → Option Bool) where
  abbrev pub Lt : Ptr → Ptr → Type 0
  Lt a b = less_than a b ≡ some true

  abbrev pub Sorted : List Ptr → Type 0
  Sorted [] = Unit {0}
  Sorted (x ∷ xs) = All (Lt x) xs × Sorted xs

  -- The comparison answers for `e` and every event of the list.
  abbrev pub Comparable : Ptr → List Ptr → Type 0
  Comparable e xs = All (λ x. less_than x e ≢ none) xs

  pub Sorted-left : (xs ys : List Ptr) → Sorted (xs ++ ys) → Sorted xs
  Sorted-left [] ys s = tt
  Sorted-left (x ∷ xs) ys s = (All-append_left (Lt x) xs ys s.0, Sorted-left xs ys s.1)

  pub Sorted-right : (xs ys : List Ptr) → Sorted (xs ++ ys) → Sorted ys
  Sorted-right [] ys s = s
  Sorted-right (x ∷ xs) ys s = Sorted-right xs ys s.1

  -- What stands before an element is less than it.
  pub Sorted-before :
      (xs : List Ptr) (y : Ptr) (ys : List Ptr) → Sorted (xs ++ y ∷ ys) → All (λ x. Lt x y) xs
  Sorted-before [] y ys s = tt
  Sorted-before (x ∷ xs) y ys s =
      ((All-append_right (Lt x) xs (y ∷ ys) s.0).0, Sorted-before xs y ys s.1)

  pub Sorted-insert :
      (xs : List Ptr) (e : Ptr) (ys : List Ptr)
      → Sorted (xs ++ ys)
      → All (λ x. Lt x e) xs
      → All (Lt e) ys
      → Sorted (xs ++ e ∷ ys)
  Sorted-insert [] e ys s a b = (b, s)
  Sorted-insert (x ∷ xs) e ys s a b = (
    All-append (Lt x) xs (e ∷ ys) (All-append_left (Lt x) xs ys s.0)
        (a.0, All-append_right (Lt x) xs ys s.0),
    Sorted-insert xs e ys s.1 a.1 b,
  )

  pub Sorted-remove :
      (xs : List Ptr) (y : Ptr) (ys : List Ptr) → Sorted (xs ++ y ∷ ys) → Sorted (xs ++ ys)
  Sorted-remove [] y ys s = s.1
  Sorted-remove (x ∷ xs) y ys s = (
    All-append (Lt x) xs ys (All-append_left (Lt x) xs (y ∷ ys) s.0)
        (All-append_right (Lt x) xs (y ∷ ys) s.0).1,
    Sorted-remove xs y ys s.1,
  )
