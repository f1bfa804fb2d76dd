-- ===== src/Kernel/Calm.antt =====
-- The cancellation of the caused events takes the draws of their sender back.
use ross.Prelude.{
  ℕ, zero, suc, ◌+◌, ◌≡◌, refl, ap, ap₂, ◌∙◌, ◌⊎◌, inl, inr, Bool-cases, some, List, [], ◌∷◌,
  length, Has, ◌==◌, ◌||◌, arith,
}
use ross.Queue.Tree.{Ptr, null}
use ross.Queue.Pq.{pe_pq, tw_pq_delete_any}
use ross.Kernel.Machine.{Machine}
use ross.Kernel.State.{Lp, World, write, owner_of, pe_event_q, kp_pevent_q}
use ross.Kernel.Output.{tw_free_output_messages, free_delta, give_back, tw_event_free}
use ross.Kernel.Send.{note_transit}
use ross.Kernel.Cancel.{
  dequeue_any, local_cancel, net_cancel, is_remote, event_cancel, reverse_core, cancel_caused,
  reverse_aborted,
}
use ross.Kernel.Sent.{Ensures, Ensures-bind, Ensures_any}
use ross.Kernel.Keeps.{Keeps, free_messages-Keeps, free_messages-lps}
use ross.Kernel.Still.{note_transit-Still}
use ross.Kernel.Draws.{Ensures-imp, drawn, draws, write_self, write-write}

-- The reversal of the generator undoes a draw.
abbrev pub Reverses : Machine → Type 0
Reverses m = (g : m.Rng) → m.rand_reverse_unif (m.rand_unif g).1 ≡ some g

zero-add : (n : ℕ) → 0 + n ≡ n
zero-add n = omega arith

suc-add : (k n : ℕ) → suc k + n ≡ suc (k + n)
suc-add k n = omega arith

module _ {m : Machine} (e i : ℕ) where
  -- The processes, the sender of every event, and what is left of the event `e`.
  pub record Calm (w w' : World m) : Type 0 where
    pub lps : w'.lps ≡ w.lps
    pub dest_lp : (w'.bufs e).dest_lp ≡ (w.bufs e).dest_lp
    pub aborted : (w'.bufs e).aborted_total ≡ (w.bufs e).aborted_total
    pub src_lp : (p : Ptr) → ((w'.bufs p).src_lp ≡ i) ⊎ ((w'.bufs p).src_lp ≡ (w.bufs p).src_lp)

  Calm-trans : {u v w : World m} → Calm u v → Calm v w → Calm u w
  Calm-trans a b = record {
    lps = b.lps ∙ a.lps;
    dest_lp = b.dest_lp ∙ a.dest_lp;
    aborted = b.aborted ∙ a.aborted;
    src_lp = λ p. elim (b.src_lp p) [
      | inl q ↦ inl q
      | inr q ↦ elim (a.src_lp p) [ inl r ↦ inl (q ∙ r) | inr r ↦ inr (q ∙ r) ]
    ];
  }

  pub Calm-of_Keeps : {w w' : World m} → Keeps e i w w' → w'.lps ≡ w.lps → Calm w w'
  Calm-of_Keeps k l = record {
    lps = l;
    dest_lp = k.dest_lp;
    aborted = k.aborted;
    src_lp = k.src_lp;
  }

  pub free_delta-Calm : (x : Ptr) (w : World m) → Calm w (free_delta x w)
  unfolding free_delta
  free_delta-Calm x w = elim (Bool-cases ((w.bufs x).delta_buddy == null)) [
    | inl h ↦ rw h (record { lps = refl; dest_lp = refl; aborted = refl; src_lp = λ p. inr refl })
    | inr h ↦ rw h (record {
      lps = refl;
      dest_lp = ground arith;
      aborted = ground arith;
      src_lp = λ p. inr (ground arith);
    })
  ]

  give_back-Calm : (x : Ptr) (w : World m) → Calm w (give_back x w)
  unfolding give_back
  give_back-Calm x w = record { lps = refl; dest_lp = refl; aborted = refl; src_lp = λ p. inr refl }

  event_free-Calm : (x : Ptr) (w : World m) → Calm w (tw_event_free x w)
  unfolding tw_event_free
  event_free-Calm x w =
      let u = tw_free_output_messages x w in
      Calm-trans (Calm-of_Keeps (free_messages-Keeps e i x w) (free_messages-lps x w))
        (Calm-trans (free_delta-Calm x u) (give_back-Calm x (free_delta x u)))

  transit-Calm : (x : Ptr) (w : World m) → Calm w (note_transit x w)
  transit-Calm x w = let s = note_transit-Still e i x w in Calm-of_Keeps s.0 s.1

  local_cancel-Calm : (x : Ptr) (w : World m) → Calm w (local_cancel x w)
  unfolding local_cancel
  local_cancel-Calm x w = record {
    lps = refl;
    dest_lp = ground arith;
    aborted = ground arith;
    src_lp = λ p. inr (ground arith);
  }

  net_cancel-Calm : (x : Ptr) (w : World m) → Calm w (net_cancel x w)
  unfolding net_cancel
  net_cancel-Calm x w = record {
    lps = refl;
    dest_lp = refl;
    aborted = refl;
    src_lp = λ p. inr refl;
  }

  dequeue-Calm : (x : Ptr) (w : World m) → Ensures (Calm w) (dequeue_any x w)
  unfolding dequeue_any
  dequeue-Calm x w =
      Ensures-bind (λ pq. Unit {0}) (Calm w) (tw_pq_delete_any w.pe.pq x) _
        (Ensures_any (tw_pq_delete_any w.pe.pq x))
        (λ pq h. record { lps = refl; dest_lp = refl; aborted = refl; src_lp = λ p. inr refl })

  event_cancel-Calm : (x : Ptr) (w : World m) → Ensures (Calm w) (event_cancel x w)
  unfolding event_cancel
  event_cancel-Calm x w = elim (Bool-cases (is_remote (owner_of w x))) [
    | inl h ↦ rw h (Calm-trans (net_cancel-Calm x w) (transit-Calm x (net_cancel x w)))
    | inr h ↦ rw h (elim (Bool-cases (owner_of w x == pe_pq)) [
      | inl q ↦ rw q (
          Ensures-bind (Calm w) (Calm w) (dequeue_any x w) _ (dequeue-Calm x w)
            (λ v c. Calm-trans c (event_free-Calm x v)))
      | inr q ↦
          rw q (elim (Bool-cases (owner_of w x == pe_event_q || owner_of w x == kp_pevent_q)) [
            | inl l ↦ rw l (Calm-trans (local_cancel-Calm x w) (transit-Calm x (local_cancel x w)))
            | inr l ↦ rw l tt
          ])
    ])
  ]

  -- The process `i` after `n` draws from `lp`.
  abbrev pub At : (ℕ → Lp m) → Lp m → ℕ → World m → Type 0
  At f lp n w = w.lps ≡ write f i (drawn m n lp)

  -- One reversal takes a draw back and writes to nothing else.
  abbrev Back : (ℕ → Lp m) → Lp m → ℕ → World m → World m → Type 0
  Back f lp n w w' = At f lp n w' × (w'.bufs ≡ w.bufs)

  reverse-Back :
      Reverses m
      → (f : ℕ → Lp m) (lp : Lp m) (n : ℕ) (w : World m) → At f lp (suc n) w
      → Ensures (Back f lp n w) (reverse_core i w)
  unfolding reverse_core
  reverse-Back law f lp n w at =
      let here : w.lps i ≡ drawn m (suc n) lp =
        ap (λ (g : ℕ → Lp m). g i) at ∙ write_self f i (drawn m (suc n) lp) in
      let back : m.rand_reverse_unif (w.lps i).core_rng ≡ some (draws m n lp.core_rng) =
        ap (λ (z : Lp m). m.rand_reverse_unif z.core_rng) here ∙ law (draws m n lp.core_rng) in
      rw back (
        ap₂ (λ (g : ℕ → Lp m) (z : Lp m). write g i (record z { core_rng = draws m n lp.core_rng }))
              at here
            ∙ write-write f i (drawn m (suc n) lp) (drawn m n lp),
        refl,
      )

  -- As many reversals as events in the list, if `i` sent them all.
  pub cancel_caused-At :
      Reverses m
      → (f : ℕ → Lp m) (lp : Lp m) (n : ℕ) (cs : List Ptr) (w : World m) → At f lp (length cs + n) w
      → ((p : Ptr) → Has p cs → (w.bufs p).src_lp ≡ i)
      → Ensures
          (λ w'.
            At f lp n w'
            × ((w'.bufs e).dest_lp ≡ (w.bufs e).dest_lp)
            × ((w'.bufs e).aborted_total ≡ (w.bufs e).aborted_total))
          (cancel_caused cs w)
  unfolding cancel_caused
  cancel_caused-At law f lp n [] w at src =
      (at ∙ ap (λ k. write f i (drawn m k lp)) (zero-add n), refl, refl)
  cancel_caused-At law f lp n (c ∷ cs) w at src =
      let start : At f lp (suc (length cs + n)) w =
        at ∙ ap (λ k. write f i (drawn m k lp)) (suc-add (length cs) n) in
      let sender = src c (inl refl) in
      rw sender (
        Ensures-bind (Back f lp (length cs + n) w) _ (reverse_core i w) _
          (reverse-Back law f lp (length cs + n) w start)
          (λ u b. Ensures-bind (Calm u) _ (event_cancel c u) _ (event_cancel-Calm c u) (λ v k.
            let src' : (p : Ptr) → Has p cs → (v.bufs p).src_lp ≡ i = λ p h. elim (k.src_lp p) [
              | inl q ↦ q
              | inr q ↦ q ∙ ap (λ g. (g p).src_lp) b.1 ∙ src p (inr h)
            ] in
            Ensures-imp _ _ (cancel_caused cs v)
              (λ w' t. (
                t.0,
                t.1 ∙ k.dest_lp ∙ ap (λ g. (g e).dest_lp) b.1,
                t.2 ∙ k.aborted ∙ ap (λ g. (g e).aborted_total) b.1,
              ))
              (cancel_caused-At law f lp n cs v (k.lps ∙ b.0) src'))))

  pub reverse_aborted-At :
      Reverses m
      → (f : ℕ → Lp m) (lp : Lp m) (n : ℕ) (w : World m) → At f lp n w
      → Ensures (At f lp 0) (reverse_aborted i n w)
  unfolding reverse_aborted
  reverse_aborted-At law f lp zero w at = at
  reverse_aborted-At law f lp (suc n) w at =
      Ensures-bind (Back f lp n w) (At f lp 0) (reverse_core i w) _ (reverse-Back law f lp n w at)
        (λ v b. reverse_aborted-At law f lp n v b.0)
