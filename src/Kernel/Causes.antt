-- ===== src/Kernel/Causes.antt =====
-- The cancellation of the events that an event caused.
use ross.Prelude.{
  ℕ, ◌≤◌, ◌≡◌, ◌≢◌, refl, sym, ap, ◌∙◌, subst, ◌⊎◌, inl, inr, Option, some, List, [], ◌∷◌, length,
  All, Has, ◌==◌, ℕ_discrete, if◌then◌else◌, arith,
}
use ross.Event.{TwEvent}
use ross.Queue.Tree.{Ptr}
use ross.Queue.Pq.{TwPq, ◌>>=◌, pe_pq, set_owner}
use ross.Queue.Valid.{events}
use ross.Eventq.Linked.{Distinct}
use ross.Eventq.Alloc.{pe_free_q}
use ross.Kernel.Machine.{Machine}
use ross.Kernel.State.{World, owner_of, pe_event_q, kp_pevent_q}
use ross.Kernel.Output.{tw_free_output_messages, free_delta, give_back, tw_event_free}
use ross.Kernel.Cancel.{dequeue_any, local_cancel, event_cancel, cancel_caused}
use ross.Kernel.Pending.{IsHeld, delete-Removed, IsHeld-set_owner}
use ross.Kernel.Frame.{
  Frame, Frame-trans, Frame-refl, Same, Same-trans, free_messages-Same, free_delta-Same,
  note_transit-Same, local_cancel-Same, reverse_core-Same, StepsBack,
}

-- The owners of an event of this process that `event_cancel` knows.
abbrev pub Cancelable : ℕ → Type 0
Cancelable a = (a ≡ pe_pq) ⊎ ((a ≡ pe_event_q) ⊎ (a ≡ kp_pevent_q))

-- An event that leaves the queue is free.
abbrev pub Settles : ℕ → ℕ → Type 0
Settles a b = (b ≡ a) ⊎ ((a ≡ pe_pq) × (b ≡ pe_free_q))

abbrev pub pending : {m : Machine} → World m → ℕ
pending w = length (events w.pe.pq)

-- The owners after an event has left the queue and has been released.
module _ (f : Ptr → ℕ) (e p a b : ℕ) (taken : a ≡ set_owner f e 0 p) where
  freed_other : b ≡ (if p == e then pe_free_q else a) → ¬ (e ≡ p) → b ≡ f p
  freed_other h n = ground arith

  freed-Settles : f e ≡ pe_pq → b ≡ (if p == e then pe_free_q else a) → Settles (f p) b
  freed-Settles o h = elim (ℕ_discrete p e) [
    | yes q ↦ inr (rw q o, ground arith)
    | no q ↦ inl (ground arith)
  ]

pub Settles-trans : {a b c : ℕ} → Settles a b → Settles b c → Settles a c
Settles-trans (inl p) (inl q) = inl (q ∙ p)
Settles-trans (inl p) (inr q) = inr (sym p ∙ q.0, q.1)
Settles-trans (inr p) (inl q) = inr (p.0, q ∙ p.1)
Settles-trans (inr p) (inr q) = absurd (omega arith)

keep-Cancelable :
    (f g : Ptr → ℕ) (c : Ptr) (cs : List Ptr)
    → ((p : Ptr) → p ≢ c → g p ≡ f p)
    → All (λ y. y ≢ c) cs
    → All (λ y. Cancelable (f y)) cs
    → All (λ y. Cancelable (g y)) cs
keep-Cancelable f g c [] h n k = tt
keep-Cancelable f g c (x ∷ xs) h n k =
    (subst Cancelable (sym (h x n.0)) k.0, keep-Cancelable f g c xs h n.1 k.1)

module _ {m : Machine} (keys : Ptr → TwEvent) (live : Ptr → Type 0) where
  -- What the cancellation of the events in a list leaves.
  pub record Cancelled (cs : List Ptr) (w : World m) (r : Option (World m)) : Type 0 where
    pub w' : World m
    pub returns : r ≡ some w'
    pub frame : Frame w w'
    pub held : IsHeld keys live w'.pe.pq
    pub others : (p : Ptr) → ¬ Has p cs → owner_of w' p ≡ owner_of w p
    pub settles : (p : Ptr) → Settles (owner_of w p) (owner_of w' p)
    pub fewer : pending w' ≤ pending w

  Same-Cancelled :
      {w w' : World m} (e : Ptr)
      → IsHeld keys live w.pe.pq
      → Same w w'
      → Cancelled (e ∷ []) w (some w')
  Same-Cancelled {w} {w'} e h s = record {
    w' = w';
    returns = refl;
    frame = s.frame;
    held = subst (IsHeld keys live) (sym s.pq) h;
    others = λ p n. ap (λ (q : TwPq). q.owner p) s.pq;
    settles = λ p. inl (ap (λ (q : TwPq). q.owner p) s.pq);
    fewer = omega (arith, ap (λ (q : TwPq). length (events q)) s.pq);
  }

  give_back-Frame : (e : Ptr) (w : World m) → Frame w (give_back e w)
  unfolding give_back
  give_back-Frame e w = record {
    keys = refl;
    gvt_sig = refl;
    caused = λ p. refl;
    processed = λ k. refl;
  }

  pub record Freed (e : Ptr) (w w' : World m) : Type 0 where
    pub frame : Frame w w'
    pub pq : w'.pe.pq ≡ record w.pe.pq { owner = set_owner w.pe.pq.owner e pe_free_q }

  pub tw_event_free-Freed : (e : Ptr) (w : World m) → Freed e w (tw_event_free e w)
  unfolding tw_event_free give_back
  tw_event_free-Freed e w =
      let u = tw_free_output_messages e w in
      let s = Same-trans (free_messages-Same e w) (free_delta-Same e u) in
      record {
        frame = Frame-trans s.frame (give_back-Frame e (free_delta e u));
        pq = ap (λ (q : TwPq). record q { owner = set_owner q.owner e pe_free_q }) s.pq;
      }

  -- An event in the queue is taken out and released.
  cancel_pending :
      (e : Ptr) (w : World m)
      → IsHeld keys live w.pe.pq
      → owner_of w e ≡ pe_pq
      → Cancelled (e ∷ []) w (dequeue_any e w >>= λ w'. some (tw_event_free e w'))
  unfolding dequeue_any
  cancel_pending e w h o =
      let r = delete-Removed keys live e h o in
      let v = record w { pe = record w.pe { pq = r.q' } } in
      let f = tw_event_free-Freed e v in
      let owner : (p : Ptr) → owner_of (tw_event_free e v) p ≡ set_owner r.q'.owner e pe_free_q p =
        λ p. ap (λ (q : TwPq). q.owner p) f.pq in
      record {
        w' = tw_event_free e v;
        returns = rw r.returns refl;
        frame =
            Frame-trans
              (record { keys = refl; gvt_sig = refl; caused = λ p. refl; processed = λ k. refl })
              f.frame;
        held = subst (IsHeld keys live) (sym f.pq) (
            IsHeld-set_owner keys live e pe_free_q r.held (ground (arith, r.owner e))
              (omega arith));
        others = λ p n.
            freed_other w.pe.pq.owner e p (r.q'.owner p) _ (r.owner p) (owner p) (λ q. n (inl q));
        settles = λ p. freed-Settles w.pe.pq.owner e p (r.q'.owner p) _ (r.owner p) o (owner p);
        fewer = omega (arith, r.count, ap (λ (q : TwPq). length (events q)) f.pq);
      }

  pub event_cancel-Cancelled :
      (e : Ptr) (w : World m)
      → IsHeld keys live w.pe.pq
      → Cancelable (owner_of w e)
      → Cancelled (e ∷ []) w (event_cancel e w)
  unfolding event_cancel
  event_cancel-Cancelled e w h (inl o) = rw o (cancel_pending e w h o)
  event_cancel-Cancelled e w h (inr (inl o)) = rw o (
      Same-Cancelled e h
        (Same-trans (local_cancel-Same e w) (note_transit-Same e (local_cancel e w))))
  event_cancel-Cancelled e w h (inr (inr o)) = rw o (
      Same-Cancelled e h
        (Same-trans (local_cancel-Same e w) (note_transit-Same e (local_cancel e w))))

  -- The loop over the caused events, each of which is of a kind that the cancellation knows.
  pub cancel_caused-Cancelled :
      StepsBack m
      → (cs : List Ptr) (w : World m) → IsHeld keys live w.pe.pq
      → Distinct cs
      → All (λ c. Cancelable (owner_of w c)) cs
      → Cancelled cs w (cancel_caused cs w)
  unfolding cancel_caused
  cancel_caused-Cancelled back [] w h d k = record {
    w' = w;
    returns = refl;
    frame = Frame-refl w;
    held = h;
    others = λ p n. refl;
    settles = λ p. inl refl;
    fewer = omega arith;
  }
  cancel_caused-Cancelled back (c ∷ cs) w h d k =
      let (u, e, s) = reverse_core-Same back (w.bufs c).src_lp w in
      let same : (p : Ptr) → owner_of u p ≡ owner_of w p = λ p. ap (λ (q : TwPq). q.owner p) s.pq in
      let one =
        event_cancel-Cancelled c u (subst (IsHeld keys live) (sym s.pq) h)
          (subst Cancelable (sym (same c)) k.0) in
      let kept : All (λ x. Cancelable (owner_of one.w' x)) cs =
        keep-Cancelable (owner_of w) (owner_of one.w') c cs
          (λ p n. one.others p (λ i. elim i [ inl q ↦ n (sym q) | inr z ↦ absurd z ]) ∙ same p) d.0
          k.1 in
      let rest = cancel_caused-Cancelled back cs one.w' one.held d.1 kept in
      record {
        w' = rest.w';
        returns = rw (e, one.returns) rest.returns;
        frame = Frame-trans s.frame (Frame-trans one.frame rest.frame);
        held = rest.held;
        others = λ p n.
            rest.others p (λ i. n (inr i))
            ∙ one.others p (λ i. elim i [ inl q ↦ n (inl q) | inr z ↦ absurd z ])
            ∙ same p;
        settles = λ p.
            Settles-trans (subst (λ a. Settles a (owner_of one.w' p)) (same p) (one.settles p))
              (rest.settles p);
        fewer = omega (arith, rest.fewer, one.fewer, ap (λ (q : TwPq). length (events q)) s.pq);
      }
