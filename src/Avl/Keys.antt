-- ===== src/Avl/Keys.antt =====
-- The ladder of tests on the keys of two events in core/avl_tree.c, as a comparison of the kind that
-- Queue/Sorted.antt describes.
use Prim.Native.Nat.{Ordering}
use Prim.Native.Nat.Ordering.{lt, eq, gt}
use ross.Prelude.{
  ◌≡◌, refl, sym, ◌∙◌, subst, Bool, true, false, Option, none, some, List, ◌∷◌, ◌++◌, ◌⊎◌, inl, inr,
  arith, Has, Has-append, All-Has,
}
use ross.Event.{TwEvent}
use ross.Queue.Tree.{Ptr}
use ross.Queue.Sorted.{IsOrder, Lt, Sorted, Sorted-right, Sorted-before}
use ross.Avl.{key_compare}

abbrev pub answer : Ordering → Option Bool
answer lt = some true
answer gt = some false
answer eq = none

abbrev pub key_less : (Ptr → TwEvent) → Ptr → Ptr → Option Bool
key_less event a b = answer (key_compare (event a) (event b))

pub key_less-IsOrder : (event : Ptr → TwEvent) → IsOrder (key_less event)
unfolding key_compare
key_less-IsOrder event = ground arith

module _ (a b c : TwEvent) where
  pub key_compare-eq_left : key_compare a b ≡ eq → key_compare a c ≡ key_compare b c
  unfolding key_compare
  key_compare-eq_left h = ground arith

  pub key_compare-eq_right : key_compare b c ≡ eq → key_compare a b ≡ key_compare a c
  unfolding key_compare
  key_compare-eq_right h = ground arith

answer-lt : (o : Ordering) → answer o ≡ some true → o ≡ lt
answer-lt lt h = ground arith
answer-lt gt h = cc
answer-lt eq h = cc

key_compare-flip : (a b : TwEvent) → key_compare a b ≡ lt → key_compare b a ≡ gt
unfolding key_compare
key_compare-flip a b h = ground arith

-- Where the search goes from a node, when the sorted tree holds an event with the key.
module _ (event : Ptr → TwEvent) (key target : Ptr) where
  pub data Side (ls : List Ptr) (k : Ptr) (rs : List Ptr) : Type 0 where
    to_left : key_compare (event key) (event k) ≡ lt → Has target ls → Side ls k rs
    here : key_compare (event key) (event k) ≡ eq → k ≡ target → Side ls k rs
    to_right : key_compare (event key) (event k) ≡ gt → Has target rs → Side ls k rs

  pub side :
      (ls : List Ptr) (k : Ptr) (rs : List Ptr)
      → key_compare (event key) (event target) ≡ eq
      → Sorted (key_less event) (ls ++ k ∷ rs)
      → Has target (ls ++ k ∷ rs)
      → Side ls k rs
  side ls k rs same s has = elim (Has-append target ls (k ∷ rs) has) [
    | inl left ↦
        let below =
          All-Has (λ x. Lt (key_less event) x k) ls (Sorted-before (key_less event) ls k rs s)
            left in
        to_left (key_compare-eq_left (event key) (event target) (event k) same ∙ answer-lt _ below)
          left
    | inr (inl at) ↦ here (subst (λ x. key_compare (event key) (event x) ≡ eq) (sym at) same) at
    | inr (inr right) ↦
        let above =
          All-Has (Lt (key_less event) k) rs (Sorted-right (key_less event) ls (k ∷ rs) s).0
            right in
        to_right
          (key_compare-eq_left (event key) (event target) (event k) same
            ∙ key_compare-flip (event k) (event target) (answer-lt _ above))
          right
  ]

pub Ordering-cases : (o : Ordering) → (o ≡ lt) ⊎ ((o ≡ gt) ⊎ (o ≡ eq))
Ordering-cases lt = inl refl
Ordering-cases gt = inr (inl refl)
Ordering-cases eq = inr (inr refl)

module _ (event : Ptr → TwEvent) (a b : Ptr) where
  pub key_less-lt : key_compare (event a) (event b) ≡ lt → Lt (key_less event) a b
  key_less-lt c = rw c refl

  pub key_less-gt : key_compare (event a) (event b) ≡ gt → Lt (key_less event) b a
  unfolding key_compare
  key_less-gt c = ground arith
