-- ===== src/Kernel/Ready.antt =====
-- Processed events that can be rolled back.
use ross.Prelude.{
  ℕ, ◌<◌, ◌≡◌, ◌≢◌, refl, sym, ap, ◌∙◌, subst, ◌⊎◌, inl, inr, false, List, [], ◌∷◌, All, Has,
  ℕ_discrete, arith,
}
use ross.Event.{TwEvent, TwEventSig}
use ross.Queue.Tree.{Ptr}
use ross.Queue.Pq.{pe_pq}
use ross.Eventq.Linked.{Distinct}
use ross.Eventq.Alloc.{pe_free_q}
use ross.Kernel.State.{kp_pevent_q}
use ross.Kernel.Rollback.{not_before}
use ross.Kernel.Causes.{Cancelable, Settles}

abbrev pub Apart : List Ptr → List Ptr → Type 0
Apart xs ys = (p : Ptr) → Has p xs → ¬ Has p ys

-- A processed event `e`, with those that were processed before it: each event that it caused is of
-- a kind that can be cancelled, and no two events caused the same one.
pub record Entry (owner : Ptr → ℕ) (caused : Ptr → List Ptr) (e : Ptr) (xs : List Ptr)
    : Type 0 where
  pub allocated : 0 < e
  pub processed : owner e ≡ kp_pevent_q
  pub distinct : Distinct (caused e)
  pub cancelable : (c : Ptr) → Has c (caused e) → Cancelable (owner c)
  pub apart : (y : Ptr) → Has y xs → (y ≢ e) × Apart (caused e) (caused y)

abbrev pub Ready : (Ptr → ℕ) → (Ptr → List Ptr) → List Ptr → Type 0
Ready owner caused [] = Unit {0}
Ready owner caused (e ∷ xs) = Entry owner caused e xs × Ready owner caused xs

pub All-of_Has : {P : Ptr → Type 0} (xs : List Ptr) → ((x : Ptr) → Has x xs → P x) → All P xs
All-of_Has [] f = tt
All-of_Has (x ∷ xs) f = (f x (inl refl), All-of_Has xs (λ y i. f y (inr i)))

-- A round for the event `e` keeps the others ready.
module _ {f f' : Ptr → ℕ} {g g' : Ptr → List Ptr} {e : Ptr} (queued : f' e ≡ pe_pq)
    (others : (p : Ptr) → p ≢ e → ¬ Has p (g e) → f' p ≡ f p)
    (settles : (p : Ptr) → p ≢ e → Settles (f p) (f' p))
    (same : (p : Ptr) → p ≢ e → g' p ≡ g p) where
  pub Ready-step :
      (xs : List Ptr)
      → ((y : Ptr) → Has y xs → (y ≢ e) × Apart (g e) (g y))
      → Ready f g xs
      → Ready f' g' xs
  Ready-step [] a r = tt
  Ready-step (x ∷ xs) a r =
      let n = (a x (inl refl)).0 in
      let gx = same x n in
      (
        record {
          allocated = r.0.allocated;
          processed = elim (settles x n) [
            | inl q ↦ q ∙ r.0.processed
            | inr q ↦ absurd (omega (arith, r.0.processed, q.0))
          ];
          distinct = subst Distinct (sym gx) r.0.distinct;
          cancelable = λ c i.
              let j = subst (Has c) gx i in
              elim (ℕ_discrete c e) [
                | yes q ↦ inl (ap f' q ∙ queued)
                | no q ↦
                    subst Cancelable (sym (others c q (λ z. (a x (inl refl)).1 c z j)))
                      (r.0.cancelable c j)
              ];
          apart = λ y i.
              let old = r.0.apart y i in
              (
                old.0,
                λ p u v. old.1 p (subst (Has p) gx u) (subst (Has p) (same y (a y (inr i)).0) v),
              );
        },
        Ready-step xs (λ y i. a y (inr i)) r.1,
      )

-- The event is back in the queue, or free.
abbrev pub Settled : ℕ → Type 0
Settled a = (a ≡ pe_pq) ⊎ (a ≡ pe_free_q)

pub Settled-Settles : {a b : ℕ} → Settled a → Settles a b → Settled b
Settled-Settles (inl p) (inl q) = inl (q ∙ p)
Settled-Settles (inl p) (inr q) = inr q.1
Settled-Settles (inr p) (inl q) = inr (q ∙ p)
Settled-Settles (inr p) (inr q) = inr q.1

-- Some event of the list caused the event `p`.
abbrev pub Caused : (Ptr → List Ptr) → Ptr → List Ptr → Type 0
Caused caused p [] = ⊥
Caused caused p (x ∷ xs) = Has p (caused x) ⊎ Caused caused p xs

-- Let `zs` be events in the order in which they were rolled back, and `us` a start of them. Each of
-- `us` is back in the queue, or it is free and one that was rolled back after it had caused it.
abbrev pub AllSettled : (Ptr → ℕ) → (Ptr → List Ptr) → List Ptr → List Ptr → Type 0
AllSettled owner caused [] zs = Unit {0}
AllSettled owner caused (e ∷ us) [] = ⊥
AllSettled owner caused (e ∷ us) (z ∷ zs) =
    ((owner e ≡ pe_pq) ⊎ ((owner e ≡ pe_free_q) × Caused caused e zs))
    × AllSettled owner caused us zs

-- An event that is free now and was not before was caused by one of the list.
abbrev pub Freed : (Ptr → ℕ) → (Ptr → ℕ) → (Ptr → List Ptr) → List Ptr → Type 0
Freed before after caused us =
    (p : Ptr) → after p ≡ pe_free_q → (before p ≡ pe_free_q) ⊎ Caused caused p us

pub Has-cases : (p : Ptr) (xs : List Ptr) → Has p xs ⊎ (¬ Has p xs)
Has-cases p [] = inr (λ z. z)
Has-cases p (x ∷ xs) = elim (ℕ_discrete x p) [
  | yes q ↦ inl (inl q)
  | no q ↦ elim (Has-cases p xs) [
    | inl i ↦ inl (inr i)
    | inr n ↦ inr (λ j. elim j [ inl z ↦ q z | inr z ↦ n z ])
  ]
]

-- What the events caused before the round that cleared it for the event `e`.
module _ {g g1 : Ptr → List Ptr} {e : Ptr} (same : (p : Ptr) → p ≢ e → g1 p ≡ g p)
    (cleared : g1 e ≡ []) where
  Has-before : (p x : Ptr) → Has p (g1 x) → Has p (g x)
  Has-before p x i = elim (ℕ_discrete x e) [
    | yes q ↦ absurd (subst (Has p) (ap g1 q ∙ cleared) i)
    | no q ↦ subst (Has p) (same x q) i
  ]

  Caused-before : (p : Ptr) (us : List Ptr) → Caused g1 p us → Caused g p us
  Caused-before p [] i = absurd i
  Caused-before p (x ∷ us) (inl i) = inl (Has-before p x i)
  Caused-before p (x ∷ us) (inr i) = inr (Caused-before p us i)

  AllSettled-before :
      (owner : Ptr → ℕ) (us zs : List Ptr) → AllSettled owner g1 us zs → AllSettled owner g us zs
  AllSettled-before owner [] zs a = tt
  AllSettled-before owner (x ∷ us) [] a = absurd a
  AllSettled-before owner (x ∷ us) (z ∷ zs) a = (
    elim a.0 [ inl q ↦ inl q | inr q ↦ inr (q.0, Caused-before x zs q.1) ],
    AllSettled-before owner us zs a.1,
  )

-- A round for the event `e`, and the rounds behind it.
module _ {f f1 f2 : Ptr → ℕ} {g g1 : Ptr → List Ptr} {e : Ptr} (queued : f1 e ≡ pe_pq)
    (others : (p : Ptr) → p ≢ e → ¬ Has p (g e) → f1 p ≡ f p)
    (same : (p : Ptr) → p ≢ e → g1 p ≡ g p) (cleared : g1 e ≡ []) where
  pub AllSettled-step :
      (us zs : List Ptr)
      → Settled (f2 e)
      → Freed f1 f2 g1 zs
      → AllSettled f2 g1 us zs
      → AllSettled f2 g (e ∷ us) (e ∷ zs)
  AllSettled-step us zs s freed a = (
    elim s [
      | inl q ↦ inl q
      | inr q ↦ inr (
        q,
        elim (freed e q) [
          | inl z ↦ absurd (omega arith)
          | inr c ↦ Caused-before same cleared e zs c
        ],
      )
    ],
    AllSettled-before same cleared f2 us zs a,
  )

  pub Freed-step : (zs : List Ptr) → Freed f1 f2 g1 zs → Freed f f2 g (e ∷ zs)
  Freed-step zs freed p z = elim (freed p z) [
    | inr c ↦ inr (inr (Caused-before same cleared p zs c))
    | inl q ↦ elim (ℕ_discrete p e) [
      | yes r ↦ absurd (omega (arith, ap f1 r))
      | no r ↦ elim (Has-cases p (g e)) [
        | inl i ↦ inr (inl i)
        | inr n ↦ inl (sym (others p r n) ∙ q)
      ]
    ]
  ]

-- The loop stops at an event before the signature, or at the end.
abbrev pub Stops : (Ptr → TwEvent) → TwEventSig → List Ptr → Type 0
Stops keys to_sig [] = Unit {0}
Stops keys to_sig (x ∷ xs) = not_before (keys x).sig to_sig ≡ false
