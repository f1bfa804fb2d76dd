-- ===== src/Queue/Locate.antt =====
-- Finding the links of an event in the tree of core/queue/splay.c.
use mathlib.Core.List.{append_assoc, append-nil}
use ross.Prelude.{
  Has, Has-append, Has-middle, ◌≡◌, ◌≢◌, refl, sym, ◌∙◌, subst, Bool, Option, none, some, List, [],
  ◌∷◌, ◌++◌, arith, ◌==◌, Bool-cases, ==_iff, inl, inr, All, All-append_right, Option-cases,
}
use ross.Queue.Tree.{
  Ptr, Tree, leaf, node, left_of, right_of, TreePath, or_else, locate, to_list, before, behind,
}
use ross.Queue.Sorted.{IsOrder, Lt, Sorted, Sorted-before}

abbrev Links : Type 0
Links = Tree × Tree × TreePath

-- Where links are found, the events around them are those of the list.
abbrev Splits : Ptr → List Ptr → Option Links → Type 0
Splits a xs none = Unit {0}
Splits a xs (some (l, r, up)) = before up ++ (to_list l ++ a ∷ (to_list r ++ behind up)) ≡ xs

Splits-or_else :
    (a : Ptr) (xs : List Ptr) (x y : Option Links)
    → Splits a xs x
    → Splits a xs y
    → Splits a xs (or_else x y)
Splits-or_else a xs none y p q = q
Splits-or_else a xs (some x) y p q = p

locate-Splits :
    (a : Ptr) (t : Tree) (up : TreePath)
    → Splits a (before up ++ (to_list t ++ behind up)) (locate a t up)
unfolding locate to_list before behind
locate-Splits a leaf up = tt
locate-Splits a (node l n r) up =
    let left =
      subst (λ xs. Splits a xs (locate a l (left_of n r ∷ up))) (simp append_assoc)
        (locate-Splits a l (left_of n r ∷ up)) in
    let right =
      subst (λ xs. Splits a xs (locate a r (right_of l n ∷ up))) (simp append_assoc)
        (locate-Splits a r (right_of l n ∷ up)) in
    elim (Bool-cases (n == a)) [
      | inl hit ↦ rw hit (rw ((==_iff n a).0 hit) (simp append_assoc))
      | inr miss ↦ rw miss (
          Splits-or_else a _ (locate a l (left_of n r ∷ up)) (locate a r (right_of l n ∷ up)) left
            right)
    ]

or_else-none : (x y : Option Links) → or_else x y ≡ none → (x ≡ none) × (y ≡ none)
or_else-none none y h = (refl, h)
or_else-none (some x) y h = cc

locate-total : (a : Ptr) (t : Tree) (up : TreePath) → Has a (to_list t) → locate a t up ≢ none
unfolding locate to_list
locate-total a leaf up h = absurd h
locate-total a (node l n r) up h = elim (Bool-cases (n == a)) [
  | inl hit ↦ rw hit (λ e. cc)
  | inr miss ↦ rw miss λ e.
      let (e_left, e_right) = or_else-none (locate a l (left_of n r ∷ up)) _ e in
      elim (Has-append a (to_list l) (n ∷ to_list r) h) [
        | inl i ↦ locate-total a l (left_of n r ∷ up) i e_left
        | inr (inl i) ↦ ground (arith, i)
        | inr (inr i) ↦ locate-total a r (right_of l n ∷ up) i e_right
      ]
]

pub record Located (a : Ptr) (xs ys : List Ptr) (out : Option Links) : Type 0 where
  pub l : Tree
  pub r : Tree
  pub up : TreePath
  pub found : out ≡ some (l, r, up)
  pub lesser : before up ++ to_list l ≡ xs
  pub greater : to_list r ++ behind up ≡ ys

module _ {less_than : Ptr → Ptr → Option Bool} (o : IsOrder less_than) where
  -- In a sorted list an event stands at one place.
  split_unique :
      (a : Ptr) (xs' xs ys' ys : List Ptr)
      → Sorted less_than (xs ++ a ∷ ys)
      → xs' ++ a ∷ ys' ≡ xs ++ a ∷ ys
      → (xs' ≡ xs) × (ys' ≡ ys)
  split_unique a [] [] ys' ys s e = (refl, cc)
  split_unique a [] (x ∷ xs) ys' ys s e =
      let same : x ≡ a = cc in
      absurd (
        o.irrefl a (subst (λ z. Lt less_than z a) same (Sorted-before less_than (x ∷ xs) a ys s).0))
  split_unique a (x' ∷ xs') [] ys' ys s e =
      let rest : ys ≡ xs' ++ a ∷ ys' = cc in
      absurd
        (o.irrefl a (All-append_right _ xs' (a ∷ ys') (subst (All (Lt less_than a)) rest s.0)).0)
  split_unique a (x' ∷ xs') (x ∷ xs) ys' ys s e =
      let tails : xs' ++ a ∷ ys' ≡ xs ++ a ∷ ys = cc in
      let same : x' ≡ x = cc in
      let (p, q) = split_unique a xs' xs ys' ys s.1 tails in (rw (same, p), q)

  pub locate-Located :
      (a : Ptr) (t : Tree) (xs ys : List Ptr)
      → Sorted less_than (to_list t)
      → to_list t ≡ xs ++ a ∷ ys
      → Located a xs ys (locate a t [])
  unfolding before behind
  locate-Located a t xs ys s e = elim (Option-cases (locate a t [])) [
    | inl missing ↦
        absurd (locate-total a t [] (subst (Has a) (sym e) (Has-middle a xs ys)) missing)
    | inr ((l, r, up), found) ↦
        let whole = subst (Splits a (to_list t ++ [])) found (locate-Splits a t []) in
        let sides : (before up ++ to_list l ≡ xs) × (to_list r ++ behind up ≡ ys) =
          split_unique a (before up ++ to_list l) xs (to_list r ++ behind up) ys
            (subst (Sorted less_than) e s)
            (append_assoc (before up) (to_list l) _ ∙ whole ∙ append-nil (to_list t) ∙ e) in
        record { l = l; r = r; up = up; found = found; lesser = sides.0; greater = sides.1 }
  ]
