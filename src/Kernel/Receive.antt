-- ===== src/Kernel/Receive.antt =====
-- The arrival of an event, a straggler or not.
use Prim.Native.Nat.{Ordering}
use Prim.Native.Nat.Ordering.{lt, eq, gt}
use ross.Prelude.{
  ℕ, ◌+◌, ◌<◌, ◌^◌, ◌≡◌, ◌≢◌, refl, sym, ap, subst, ◌⊎◌, inl, inr, Option, some, List, [], ◌∷◌,
  length, All, Has, arith,
}
use ross.Event.{TwEvent, TwEventSig}
use ross.Event.Compare.{tw_event_sig_compare_ptr}
use ross.Queue.Tree.{Ptr}
use ross.Queue.Pq.{◌>>=◌, tw_pq_enqueue, pe_pq}
use ross.Kernel.Machine.{Machine}
use ross.Kernel.State.{World, owner_of, pe_event_q, kp_pevent_q}
use ross.Kernel.Create.{enqueue}
use ross.Kernel.Rollback.{newest, not_before, tw_kp_rollback_to_sig}
use ross.Kernel.Sched.{kp_of, receive}
use ross.Kernel.Pending.{NoTie, key_less_than, IsHeld, enqueue-Enqueued}
use ross.Kernel.Frame.{caused_of, processed_of, StepsBack}
use ross.Kernel.Causes.{pending}
use ross.Kernel.Restore.{tw_kp_rollback_to_sig-Restored}
use ross.Kernel.Ready.{Ready, Stops}

-- The newest processed event is not after the signature.
abbrev pub NotAfter : (Ptr → TwEvent) → TwEventSig → List Ptr → Type 0
NotAfter keys sig [] = Unit {0}
NotAfter keys sig (x ∷ xs) = tw_event_sig_compare_ptr (keys x).sig sig ≢ gt

Stops-NotAfter :
    (keys : Ptr → TwEvent) (sig : TwEventSig) (xs : List Ptr)
    → Stops keys sig xs
    → NotAfter keys sig xs
unfolding not_before
Stops-NotAfter keys sig [] s = tt
Stops-NotAfter keys sig (x ∷ xs) s = λ g. ground arith

Ready-processed :
    (owner : Ptr → ℕ) (caused : Ptr → List Ptr) (p : Ptr) (xs : List Ptr)
    → Ready owner caused xs
    → Has p xs
    → owner p ≡ kp_pevent_q
Ready-processed owner caused p [] r h = absurd h
Ready-processed owner caused p (x ∷ xs) r (inl e) =
    subst (λ z. owner z ≡ kp_pevent_q) e r.0.processed
Ready-processed owner caused p (x ∷ xs) r (inr h) = Ready-processed owner caused p xs r.1 h

-- The last signature is that of the newest processed event.
NotAfter-newest :
    (keys : Ptr → TwEvent) (sig gvt s : TwEventSig) (xs : List Ptr)
    → s ≡ newest keys gvt xs
    → tw_event_sig_compare_ptr s sig ≢ gt
    → NotAfter keys sig xs
NotAfter-newest keys sig gvt s [] e n = tt
NotAfter-newest keys sig gvt s (x ∷ xs) e n = subst (λ z. tw_event_sig_compare_ptr z sig ≢ gt) e n

gt-cases : (o : Ordering) → (o ≡ gt) ⊎ (o ≢ gt)
gt-cases gt = inl refl
gt-cases lt = inr (λ e. cc)
gt-cases eq = inr (λ e. cc)

module _ {m : Machine} (keys : Ptr → TwEvent) (live : Ptr → Type 0) where
  pub record Received (e : Ptr) (w : World m) (r : Option (World m)) : Type 0 where
    pub w' : World m
    pub returns : r ≡ some w'
    pub held : IsHeld keys live w'.pe.pq
    pub queued : owner_of w' e ≡ pe_pq
    pub in_order : NotAfter keys (keys e).sig (processed_of w' (kp_of w e))
    pub elsewhere : (i : ℕ) → i ≢ kp_of w e → processed_of w' i ≡ processed_of w i

module _ {m : Machine} (keys : Ptr → TwEvent) (live : Ptr → Type 0) (no_tie : NoTie keys live)
    (back : StepsBack m) where
  put :
      (e : Ptr) (w v : World m)
      → v.keys ≡ keys
      → IsHeld keys live v.pe.pq
      → live e
      → 0 < e
      → owner_of v e ≢ pe_pq
      → pending v + 1 < 2 ^ 32
      → NotAfter keys (keys e).sig (processed_of v (kp_of w e))
      → ((i : ℕ) → i ≢ kp_of w e → processed_of v i ≡ processed_of w i)
      → Received keys live e w (enqueue e v)
  unfolding enqueue
  put e w v same h l pos o room a other =
      let q = enqueue-Enqueued keys live {q = v.pe.pq} e no_tie l h pos o room in
      record {
        w' = record v { pe = record v.pe { pq = q.q' } };
        returns =
            subst
              (λ ks.
                (tw_pq_enqueue (key_less_than ks) v.pe.pq e >>= λ pq.
                some (record v { pe = record v.pe { pq = pq } }))
                ≡ some (record v { pe = record v.pe { pq = q.q' } }))
              (sym same) (rw q.returns refl);
        held = q.held;
        queued = ground (arith, q.owner e);
        in_order = a;
        elsewhere = other;
      }

  receive_late :
      (e : Ptr) (w : World m)
      → tw_event_sig_compare_ptr (w.kps (kp_of w e)).last_sig (w.keys e).sig ≡ gt
      → receive e w ≡ (tw_kp_rollback_to_sig (kp_of w e) (w.keys e).sig w >>= enqueue e)
  unfolding receive
  receive_late e w h = rw (h, receive) refl

  receive_fine :
      (e : Ptr) (w : World m)
      → tw_event_sig_compare_ptr (w.kps (kp_of w e)).last_sig (w.keys e).sig ≢ gt
      → receive e w ≡ enqueue e w
  unfolding receive
  receive_fine e w h = ground arith

  -- Let an event of `event_q` arrive at a kernel process whose `last_sig` is that of its newest
  -- processed event, or the global time, under the conditions of a rollback to a signature, and let
  -- it tie with no queued event and no processed event of that kernel process. Then the event goes
  -- into the queue, whether it is a straggler or not, the newest event that its kernel process still
  -- counts as processed is not after it, and the other kernel processes keep their lists.
  pub receive-Received :
      (e : Ptr) (w : World m)
      → w.keys ≡ keys
      → IsHeld keys live w.pe.pq
      → Ready (owner_of w) (caused_of w) (processed_of w (kp_of w e))
      → All live (e ∷ processed_of w (kp_of w e))
      → (w.kps (kp_of w e)).last_sig ≡ newest keys w.pe.gvt_sig (processed_of w (kp_of w e))
      → 0 < e
      → owner_of w e ≡ pe_event_q
      → pending w + length (processed_of w (kp_of w e)) + 1 < 2 ^ 32
      → Received keys live e w (receive e w)
  receive-Received e w same h r l last pos o room =
      let k = kp_of w e in
      let sig : (w.keys e).sig ≡ (keys e).sig = ap (λ ks. (ks e).sig) same in
      let xs = processed_of w k in
      elim (gt-cases (tw_event_sig_compare_ptr (w.kps k).last_sig (w.keys e).sig)) [
        | inl late ↦
            let a =
              tw_kp_rollback_to_sig-Restored keys live no_tie back k (w.keys e).sig w same h r l.1
                (omega arith) in
            let waits : owner_of a.w' e ≢ pe_pq = λ z.
              elim (a.others e (λ i.
                absurd (omega (arith, Ready-processed (owner_of w) (caused_of w) e xs r i)))) [
                  | inl q ↦ absurd (omega arith)
                  | inr q ↦ absurd (omega arith)
                ] in
            let order =
              subst (λ s. NotAfter keys s (processed_of a.w' k)) sig
                (Stops-NotAfter keys (w.keys e).sig (processed_of a.w' k)
                  (subst (Stops keys (w.keys e).sig) (sym a.processed) a.stops)) in
            rw (receive_late e w late, a.returns)
              (put e w a.w' a.keys' a.held l.0 pos waits (omega (arith, a.room)) order a.elsewhere)
        | inr fine ↦
            let order =
              subst (λ s. NotAfter keys s xs) sig
                (NotAfter-newest keys (w.keys e).sig w.pe.gvt_sig (w.kps k).last_sig xs last
                  fine) in
            rw (receive_fine e w fine) (
              put e w w same h l.0 pos (λ z. absurd (omega arith)) (omega arith) order
                (λ i n. refl))
      ]
