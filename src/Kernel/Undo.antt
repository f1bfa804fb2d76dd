-- ===== src/Kernel/Undo.antt =====
-- `tw_event_rollback`, and one round of `tw_kp_rollback_to_sig`.
use ross.Prelude.{
  ℕ, ◌+◌, ◌≤◌, ◌<◌, ◌^◌, ◌≡◌, ◌≢◌, refl, sym, ap, ◌∙◌, subst, inl, inr, Option, some, List, [], ◌∷◌,
  length, All, Has, arith,
}
use ross.Event.{TwEvent, TwEventSig}
use ross.Queue.Tree.{Ptr}
use ross.Queue.Pq.{TwPq, ◌>>=◌, tw_pq_enqueue, pe_pq}
use ross.Queue.Valid.{events}
use ross.Eventq.Linked.{Distinct}
use ross.Kernel.Machine.{Machine}
use ross.Kernel.State.{Kp, World, set_kp, owner_of, kp_pevent_q}
use ross.Kernel.Output.{tw_free_output_messages, free_delta}
use ross.Kernel.Create.{enqueue}
use ross.Kernel.Cancel.{unprocess, rewind, finish, tw_event_rollback}
use ross.Kernel.Rollback.{
  newest, reset_last_sig, rollback_one, rollback_newer, rollback_last, shift,
}
use ross.Kernel.Pending.{NoTie, key_less_than, IsHeld, enqueue-Enqueued}
use ross.Kernel.Frame.{
  caused_of, processed_of, Frame-trans, Same, Same-trans, free_messages-Same, free_delta-Same,
  unprocess-Same, rewind-Same, reverse_aborted-Same, StepsBack,
}
use ross.Kernel.Causes.{Cancelable, Settles, pending, cancel_caused-Cancelled}

module _ {m : Machine} (keys : Ptr → TwEvent) (live : Ptr → Type 0) where
  -- What the rollback of one event leaves.
  pub record Undone (e : Ptr) (w : World m) (r : Option (World m)) : Type 0 where
    pub w' : World m
    pub returns : r ≡ some w'
    pub keys' : w'.keys ≡ w.keys
    pub gvt_sig : w'.pe.gvt_sig ≡ w.pe.gvt_sig
    pub caused : (p : Ptr) → p ≢ e → caused_of w' p ≡ caused_of w p
    pub none_caused : caused_of w' e ≡ []
    pub processed : (k : ℕ) → processed_of w' k ≡ processed_of w k
    pub held : IsHeld keys live w'.pe.pq
    pub others : (p : Ptr) → ¬ Has p (caused_of w e) → owner_of w' p ≡ owner_of w p
    pub settles : (p : Ptr) → Settles (owner_of w p) (owner_of w' p)
    pub fewer : pending w' ≤ pending w

  pub tw_event_rollback-Undone :
      StepsBack m
      → (e : Ptr) (w : World m) → IsHeld keys live w.pe.pq
      → Distinct (caused_of w e)
      → All (λ c. Cancelable (owner_of w c)) (caused_of w e)
      → Undone e w (tw_event_rollback e w)
  unfolding tw_event_rollback finish
  tw_event_rollback-Undone back e w h d k =
      let u1 = tw_free_output_messages e w in
      let u2 = rewind e u1 in
      let u3 = unprocess e u2 in
      let u = free_delta e u3 in
      let s : Same w u =
        Same-trans (free_messages-Same e w) (
          Same-trans (rewind-Same e u1)
            (Same-trans (unprocess-Same e u2) (free_delta-Same e u3))) in
      let same : (p : Ptr) → owner_of u p ≡ owner_of w p = λ p. ap (λ (q : TwPq). q.owner p) s.pq in
      let c =
        cancel_caused-Cancelled keys live back (caused_of w e) u
          (subst (IsHeld keys live) (sym s.pq) h) d
          (subst (λ (q : TwPq). All (λ c. Cancelable (q.owner c)) (caused_of w e)) (sym s.pq) k) in
      let (v, ran, a) =
        reverse_aborted-Same back (c.w'.bufs e).dest_lp (c.w'.bufs e).aborted_total c.w' in
      let f = Frame-trans s.frame (Frame-trans c.frame a.frame) in
      let owner : (p : Ptr) → owner_of v p ≡ owner_of c.w' p =
        λ p. ap (λ (q : TwPq). q.owner p) a.pq in
      record {
        w' = finish e v;
        returns = rw (c.returns, ran) refl;
        keys' = f.keys;
        gvt_sig = f.gvt_sig;
        caused = λ p n. ground (arith, f.caused p);
        none_caused = ground arith;
        processed = λ i. ground (arith, f.processed i);
        held = subst (IsHeld keys live) (sym a.pq) c.held;
        others = λ p n. owner p ∙ c.others p n ∙ same p;
        settles = λ p.
            subst (λ x. Settles (owner_of w p) x) (sym (owner p))
              (subst (λ x. Settles x (owner_of c.w' p)) (same p) (c.settles p));
        fewer = omega (
          arith,
          c.fewer,
          ap (λ (q : TwPq). length (events q)) s.pq,
          ap (λ (q : TwPq). length (events q)) a.pq,
        );
      }

module _ {m : Machine} (keys : Ptr → TwEvent) (live : Ptr → Type 0) where
  -- What a round for the event `e` leaves, where `xs` are the events that were processed before it,
  -- and `sig` becomes the last signature.
  pub record Round (k e : ℕ) (xs : List Ptr) (sig : TwEventSig) (w : World m) (r : Option (World m))
      : Type 0 where
    pub w' : World m
    pub returns : r ≡ some w'
    pub keys' : w'.keys ≡ w.keys
    pub gvt_sig : w'.pe.gvt_sig ≡ w.pe.gvt_sig
    pub caused : (p : Ptr) → p ≢ e → caused_of w' p ≡ caused_of w p
    pub none_caused : caused_of w' e ≡ []
    pub processed : processed_of w' k ≡ xs
    pub elsewhere : (i : ℕ) → i ≢ k → processed_of w' i ≡ processed_of w i
    pub last_sig : (w'.kps k).last_sig ≡ sig
    pub held : IsHeld keys live w'.pe.pq
    pub back_in_queue : owner_of w' e ≡ pe_pq
    pub others : (p : Ptr) → p ≢ e → ¬ Has p (caused_of w e) → owner_of w' p ≡ owner_of w p
    pub settles : (p : Ptr) → p ≢ e → Settles (owner_of w p) (owner_of w' p)
    pub one_more : pending w' ≤ pending w + 1

module _ {m : Machine} (keys : Ptr → TwEvent) (live : Ptr → Type 0) (no_tie : NoTie keys live)
    (back : StepsBack m) where
  -- The event is put back into the queue after its rollback, with any kernel processes that keep
  -- the lists of processed events.
  requeue :
      (k e : ℕ) (xs : List Ptr) (w : World m) (kps0 kps' : ℕ → Kp) (r : Option (World m))
      (u : Undone keys live e (record w { kps = kps0 }) r)
      → w.keys ≡ keys
      → live e
      → 0 < e
      → owner_of w e ≡ kp_pevent_q
      → pending w + 1 < 2 ^ 32
      → (kps0 k).pevent_q ≡ xs
      → ((i : ℕ) → i ≢ k → (kps0 i).pevent_q ≡ processed_of w i)
      → ((i : ℕ) → (kps' i).pevent_q ≡ processed_of u.w' i)
      → Round keys live k e xs (kps' k).last_sig w (enqueue e (record u.w' { kps = kps' }))
  unfolding enqueue
  requeue k e xs w kps0 kps' r u same l pos o room here there kept =
      let v = u.w' in
      let owner_e : owner_of v e ≡ kp_pevent_q = elim (u.settles e) [
        | inl q ↦ q ∙ o
        | inr q ↦ absurd (omega arith)
      ] in
      let q =
        enqueue-Enqueued keys live {q = v.pe.pq} e no_tie l u.held pos (λ z. ground arith)
          (omega (arith, u.fewer)) in
      let x = record v { kps = kps' } in
      let f : keys ≡ v.keys = sym (u.keys' ∙ same) in
      record {
        w' = record x { pe = record x.pe { pq = q.q' } };
        returns =
            subst
              (λ ks.
                (tw_pq_enqueue (key_less_than ks) v.pe.pq e >>= λ pq.
                some (record x { pe = record x.pe { pq = pq } }))
                ≡ some (record x { pe = record x.pe { pq = q.q' } }))
              f (rw q.returns refl);
        keys' = u.keys';
        gvt_sig = u.gvt_sig;
        caused = u.caused;
        none_caused = u.none_caused;
        processed = kept k ∙ u.processed k ∙ here;
        elsewhere = λ i n. kept i ∙ u.processed i ∙ there i n;
        last_sig = refl;
        held = q.held;
        back_in_queue = ground (arith, q.owner e);
        others = λ p n i. ground (arith, q.owner p, u.others p i);
        settles = λ p n.
            subst (λ a. Settles (owner_of w p) a) (sym (ground (arith, q.owner p))) (u.settles p);
        one_more = omega (arith, q.count, u.fewer);
      }

  module _ (k e : ℕ) (w : World m) (same : w.keys ≡ keys) (h : IsHeld keys live w.pe.pq)
      (l : live e) (pos : 0 < e) (o : owner_of w e ≡ kp_pevent_q) (d : Distinct (caused_of w e))
      (c : All (λ c. Cancelable (owner_of w c)) (caused_of w e)) where
    pub rollback_one-Round :
        (xs : List Ptr)
        → pending w + 1 < 2 ^ 32
        → Round keys live k e xs (newest w.keys w.pe.gvt_sig xs) w (rollback_one k e xs w)
    unfolding rollback_one reset_last_sig
    rollback_one-Round xs room =
        let u = tw_event_rollback-Undone keys live back e (shift k xs w) h d c in
        let v = u.w' in
        let list : processed_of v k ≡ xs = ground (arith, u.processed k) in
        let kps' = (reset_last_sig k v).kps in
        let sig : (kps' k).last_sig ≡ newest w.keys w.pe.gvt_sig xs =
          ground (arith, u.keys', u.gvt_sig, list) in
        let round =
          requeue k e xs w (shift k xs w).kps kps' (tw_event_rollback e (shift k xs w)) u same l pos
            o room (ground arith) (λ i n. ground arith) (λ i. ground arith) in
        subst (λ s. Round keys live k e xs s w (rollback_one k e xs w)) sig (rw u.returns round)

    -- In the loop of `tw_kp_rollback_event` the event's own signature stays the last one.
    pub rollback_newer-Round :
        (x : Ptr) (xs : List Ptr)
        → pending w + 1 < 2 ^ 32
        → (sig : TwEventSig) × Round keys live k e (x ∷ xs) sig w (rollback_newer k e (x ∷ xs) w)
    unfolding rollback_newer
    rollback_newer-Round x xs room =
        let w0 = set_kp w k (record (w.kps k) { pevent_q = x ∷ xs; last_sig = (w.keys x).sig }) in
        let u = tw_event_rollback-Undone keys live back e w0 h d c in
        let round =
          requeue k e (x ∷ xs) w w0.kps u.w'.kps (tw_event_rollback e w0) u same l pos o room
            (ground arith) (λ i n. ground arith) (λ i. refl) in
        ((u.w'.kps k).last_sig, rw u.returns round)

    -- The event that was looked for is not put back.
    pub rollback_last-Undone :
        (xs : List Ptr)
        → (v : World m) × (rollback_last k e xs w ≡ some v)
          × (processed_of v k ≡ xs)
          × ((i : ℕ) → i ≢ k → processed_of v i ≡ processed_of w i)
          × ((v.kps k).last_sig ≡ newest keys w.pe.gvt_sig xs)
          × IsHeld keys live v.pe.pq
          × (owner_of v e ≡ kp_pevent_q)
          × (caused_of v e ≡ [])
          × ((p : Ptr) → ¬ Has p (caused_of w e) → owner_of v p ≡ owner_of w p)
          × ((p : Ptr) → Settles (owner_of w p) (owner_of v p))
    unfolding rollback_last reset_last_sig
    rollback_last-Undone xs =
        let u = tw_event_rollback-Undone keys live back e (shift k xs w) h d c in
        let v = u.w' in
        let list : processed_of v k ≡ xs = ground (arith, u.processed k) in
        let ks = u.keys' ∙ same in
        (
          reset_last_sig k v,
          rw u.returns refl,
          ground arith,
          λ i n. ground (arith, u.processed i),
          ground (arith, u.gvt_sig, list, ks),
          u.held,
          elim (u.settles e) [ inl q ↦ q ∙ o | inr q ↦ absurd (omega arith) ],
          u.none_caused,
          u.others,
          u.settles,
        )
