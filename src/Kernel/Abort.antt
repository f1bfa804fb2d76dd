-- ===== src/Kernel/Abort.antt =====
-- The abort of an event that ran out of buffers.
use ross.Prelude.{
  ℕ, ◌+◌, ◌<◌, ◌^◌, ◌≡◌, ◌≢◌, refl, sym, ◌∙◌, subst, inl, inr, false, Option, some, List, [], All,
  ◌==◌, if◌then◌else◌, arith,
}
use ross.Event.{TwEvent, TwEventSig}
use ross.Queue.Tree.{Ptr, null}
use ross.Queue.Pq.{◌>>=◌, tw_pq_enqueue, pe_pq}
use ross.Eventq.Linked.{Distinct}
use ross.Kernel.Machine.{Machine}
use ross.Kernel.State.{World, set_pe, set_kp, owner_of}
use ross.Kernel.Create.{enqueue}
use ross.Kernel.Sched.{kp_of}
use ross.Kernel.Batch.{oldest, abort}
use ross.Kernel.Pending.{NoTie, key_less_than, IsHeld, enqueue-Enqueued}
use ross.Kernel.Frame.{caused_of, processed_of, StepsBack}
use ross.Kernel.Causes.{Cancelable, pending}
use ross.Kernel.Undo.{tw_event_rollback-Undone}

-- The signature of the oldest processed event, or the global time.
abbrev pub oldest_sig : (Ptr → TwEvent) → TwEventSig → List Ptr → TwEventSig
oldest_sig keys gvt xs = if oldest xs == null then gvt else (keys (oldest xs)).sig

module _ {m : Machine} (keys : Ptr → TwEvent) (live : Ptr → Type 0) where
  pub record Aborted (e : Ptr) (w : World m) (r : Option (World m)) : Type 0 where
    pub w' : World m
    pub returns : r ≡ some w'
    pub held : IsHeld keys live w'.pe.pq
    pub queued : owner_of w' e ≡ pe_pq
    pub none_caused : caused_of w' e ≡ []
    pub processed : (k : ℕ) → processed_of w' k ≡ processed_of w k
    pub last_sig :
        (w'.kps (kp_of w e)).last_sig ≡ oldest_sig keys w.pe.gvt_sig (processed_of w (kp_of w e))

module _ {m : Machine} (keys : Ptr → TwEvent) (live : Ptr → Type 0) (no_tie : NoTie keys live)
    (back : StepsBack m) where
  -- Let an event that was taken from the queue and processed run out of buffers, let the events that
  -- it caused be distinct and of this process, the generator be able to step back, the queue hold the
  -- events whose owner says so and have room for one more, and no two of the queued events and this
  -- one tie. Then the abort returns: the event is in the queue again and has caused nothing, and
  -- the lists of processed events are as they were. But `last_sig` becomes the signature of the
  -- oldest processed event, the tail of the list, not of the newest one; the global time if there is
  -- none.
  pub abort-Aborted :
      (e : Ptr) (w : World m)
      → w.keys ≡ keys
      → IsHeld keys live w.pe.pq
      → live e
      → 0 < e
      → owner_of w e ≡ 0
      → Distinct (caused_of w e)
      → All (λ c. Cancelable (owner_of w c)) (caused_of w e)
      → pending w + 1 < 2 ^ 32
      → Aborted keys live e w (abort e w)
  unfolding abort enqueue
  abort-Aborted e w same h l pos o d c room =
      let k = kp_of w e in
      let w0 =
        set_pe w (record w.pe { s_nevent_abort = w.pe.s_nevent_abort + 1; cev_abort = false }) in
      let u = tw_event_rollback-Undone keys live back e w0 h d c in
      let v = u.w' in
      let waits : owner_of v e ≢ pe_pq =
        λ z. elim (u.settles e) [ inl q ↦ absurd (omega arith) | inr q ↦ absurd (omega arith) ] in
      let q =
        enqueue-Enqueued keys live {q = v.pe.pq} e no_tie l u.held pos waits
          (omega (arith, u.fewer)) in
      let f : v.keys ≡ keys = u.keys' ∙ same in
      let queued = record v { pe = record v.pe { pq = q.q' } } in
      let old = oldest (queued.kps k).pevent_q in
      let sig = if old == null then v.pe.gvt_sig else (v.keys old).sig in
      let put : (enqueue e v) ≡ some queued =
        subst
          (λ ks.
            (tw_pq_enqueue (key_less_than ks) v.pe.pq e >>= λ pq.
            some (record v { pe = record v.pe { pq = pq } }))
            ≡ some queued)
          (sym f) (rw q.returns refl) in
      let w' = set_kp queued k (record (queued.kps k) { last_sig = sig }) in
      let hit : (w'.kps k).last_sig ≡ sig = ground arith in
      record {
        w' = w';
        returns = rw (u.returns, put) refl;
        held = q.held;
        queued = ground (arith, q.owner e);
        none_caused = u.none_caused;
        processed = λ i. ground (arith, u.processed i);
        last_sig = hit ∙ (λ i. oldest_sig (f i) (u.gvt_sig i) (u.processed k i));
      }
