-- ===== src/Avl/Search.antt =====
-- `avlSearch` of core/avl_tree.c on sorted trees.
use Prim.Native.Nat.Ordering.{lt, eq, gt}
use ross.Prelude.{ℕ, ◌≡◌, refl, sym, ◌∙◌, true, List, [], ◌∷◌, ◌++◌, ◌↔◌, inl, inr, Has}
use ross.Event.{TwEvent}
use ross.Queue.Tree.{Ptr}
use ross.Queue.Sorted.{Sorted, Sorted-left, Sorted-right}
use ross.Avl.{AvlTree, avl_empty, avl_node, key_compare, avl_search, to_list}
use ross.Avl.Keys.{key_less, Ordering-cases, to_left, here, to_right, side}

Has-left : (a : Ptr) (xs ys : List Ptr) → Has a xs → Has a (xs ++ ys)
Has-left a [] ys h = absurd h
Has-left a (x ∷ xs) ys (inl e) = inl e
Has-left a (x ∷ xs) ys (inr h) = inr (Has-left a xs ys h)

Has-right : (a : Ptr) (xs ys : List Ptr) → Has a ys → Has a (xs ++ ys)
Has-right a [] ys h = h
Has-right a (x ∷ xs) ys h = inr (Has-right a xs ys h)

module _ (event : Ptr → TwEvent) (key : Ptr) where
  abbrev pub Stored : List Ptr → Type 0
  Stored xs = (target : Ptr) × Has target xs × (key_compare (event key) (event target) ≡ eq)

  module _ (l : AvlTree) (k : Ptr) (r : AvlTree) (h : ℕ) where
    went_lt :
        key_compare (event key) (event k) ≡ lt
        → avl_search event (avl_node l k r h) key ≡ avl_search event l key
    unfolding avl_search
    went_lt c = rw (c, avl_search) refl

    went_gt :
        key_compare (event key) (event k) ≡ gt
        → avl_search event (avl_node l k r h) key ≡ avl_search event r key
    unfolding avl_search
    went_gt c = rw (c, avl_search) refl

  found-Stored : (t : AvlTree) → avl_search event t key ≡ true → Stored (to_list t)
  unfolding avl_search to_list
  found-Stored avl_empty e = cc
  found-Stored (avl_node l k r h) e = elim (Ordering-cases (key_compare (event key) (event k))) [
    | inl c ↦
        let (target, has, same) = found-Stored l (sym (went_lt l k r h c) ∙ e) in
        (target, Has-left target (to_list l) (k ∷ to_list r) has, same)
    | inr (inl c) ↦
        let (target, has, same) = found-Stored r (sym (went_gt l k r h c) ∙ e) in
        (target, Has-right target (to_list l) (k ∷ to_list r) (inr has), same)
    | inr (inr c) ↦ (k, Has-right k (to_list l) (k ∷ to_list r) (inl refl), c)
  ]

  Stored-found :
      (t : AvlTree) (target : Ptr)
      → Sorted (key_less event) (to_list t)
      → Has target (to_list t)
      → key_compare (event key) (event target) ≡ eq
      → avl_search event t key ≡ true
  unfolding avl_search to_list
  Stored-found avl_empty target s has same = absurd has
  Stored-found (avl_node l k r h) target s has same =
      elim (side event key target (to_list l) k (to_list r) same s has) [
        | to_left e at ↦
            rw (e, avl_search)
              (Stored-found l target (Sorted-left (key_less event) (to_list l) (k ∷ to_list r) s) at
                same)
        | here e at ↦ rw (e, avl_search) refl
        | to_right e at ↦
            rw (e, avl_search)
              (Stored-found r target (Sorted-right (key_less event) (to_list l) (k ∷ to_list r) s).1
                at same)
      ]

  -- On a sorted tree `avlSearch` answers yes just where an event with the key is stored.
  pub avl_search_iff :
      (t : AvlTree)
      → Sorted (key_less event) (to_list t)
      → (avl_search event t key ≡ true) ↔ Stored (to_list t)
  avl_search_iff t s = (found-Stored t, λ (target, has, same). Stored-found t target s has same)
