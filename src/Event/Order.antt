-- ===== src/Event/Order.antt =====
-- The order of signatures in core/ross-types.h.
use Prim.Native.Nat.{compare, Ordering}
use Prim.Native.Nat.Ordering.{lt, eq, gt}
use ross.Prelude.{ℕ, ◌≡◌, refl, List, [], ◌∷◌, arith}
use ross.Event.Compare.{lineage_compare, tw_event_sig_compare_ptr}

-- The comparison with the arguments exchanged.
abbrev pub flip : Ordering → Ordering
flip lt = gt
flip eq = eq
flip gt = lt

pub record IsLawful {A : Type 0} (cmp : A → A → Ordering) : Type 0 where
  pub swap : (a b : A) → cmp b a ≡ flip (cmp a b)
  pub same : (a b : A) → cmp a b ≡ eq → a ≡ b
  pub trans : (a b c : A) → cmp a b ≡ lt → cmp b c ≡ lt → cmp a c ≡ lt

compare-IsLawful : IsLawful compare
compare-IsLawful = ground arith

lineage-swap : (xs ys : List ℕ) → lineage_compare ys xs ≡ flip (lineage_compare xs ys)
unfolding lineage_compare
lineage-swap [] [] = refl
lineage-swap [] (y ∷ ys) = refl
lineage-swap (x ∷ xs) [] = refl
lineage-swap (x ∷ xs) (y ∷ ys) = ground (arith, lineage-swap xs ys)

lineage-same : (xs ys : List ℕ) → lineage_compare xs ys ≡ eq → xs ≡ ys
unfolding lineage_compare
lineage-same [] [] h = refl
lineage-same [] (y ∷ ys) h = cc
lineage-same (x ∷ xs) [] h = cc
lineage-same (x ∷ xs) (y ∷ ys) h = ground (arith, lineage-same xs ys)

lineage_trans :
    (xs ys zs : List ℕ)
    → lineage_compare xs ys ≡ lt
    → lineage_compare ys zs ≡ lt
    → lineage_compare xs zs ≡ lt
unfolding lineage_compare
lineage_trans [] [] zs h k = cc
lineage_trans [] (y ∷ ys) [] h k = cc
lineage_trans [] (y ∷ ys) (z ∷ zs) h k = refl
lineage_trans (x ∷ xs) [] zs h k = cc
lineage_trans (x ∷ xs) (y ∷ ys) [] h k = cc
lineage_trans (x ∷ xs) (y ∷ ys) (z ∷ zs) h k = ground (arith, lineage_trans xs ys zs)

-- Signatures are totally ordered by `tw_event_sig_compare_ptr`: exchanging the arguments turns the
-- answer round, the answer 0 means that the signatures are the same, and less is transitive.
pub tw_event_sig_compare_ptr-IsLawful : IsLawful tw_event_sig_compare_ptr
unfolding tw_event_sig_compare_ptr
tw_event_sig_compare_ptr-IsLawful = record {
  swap = λ a b. ground (arith, lineage-swap a.event_tiebreaker b.event_tiebreaker);
  same = λ a b. ground (arith, lineage-same a.event_tiebreaker b.event_tiebreaker);
  trans = λ a b c.
      ground (arith, lineage_trans a.event_tiebreaker b.event_tiebreaker c.event_tiebreaker);
}
