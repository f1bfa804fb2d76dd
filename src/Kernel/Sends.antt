-- ===== src/Kernel/Sends.antt =====
-- The sends of an event handler, one after another.
use ross.Prelude.{
  ℕ, suc, ◌+◌, ◌^◌, ◌<◌, ◌≡◌, ◌≢◌, refl, sym, ap, ◌∙◌, subst, ◌⊎◌, inl, inr, Bool-cases, List, [],
  ◌∷◌, length, Has, ◌==◌, arith,
}
use ross.Queue.Tree.{Ptr}
use ross.Kernel.Machine.{Machine, Request}
use ross.Kernel.State.{Lp, World, write}
use ross.Kernel.Create.{Config, tw_event_new_user_prio}
use ross.Kernel.Send.{
  send_abort, send_local, link_causality, label, violates, has_output, tw_event_send, send_all,
}
use ross.Kernel.Sent.{Ensures, Ensures-bind, Made, new-Made}
use ross.Kernel.Draws.{Ensures-imp, draws, draws_shift, drawn, write_self, write_same, write-write}
use ross.Kernel.Still.{Still, send_local-Still, send_remote-Still}

module _ {m : Machine} (e i : ℕ) where
  -- What `n` requests of the process `i` leave of the event `e` that is processed.
  pub record Sends (n : ℕ) (w w' : World m) : Type 0 where
    pub cur_event : w'.pe.cur_event ≡ w.pe.cur_event
    pub abort_event : w'.pe.abort_event ≡ w.pe.abort_event
    pub free : Has e w'.pe.free_q → Has e w.pe.free_q
    pub key : w'.keys e ≡ w.keys e
    pub dest_lp : (w'.bufs e).dest_lp ≡ (w.bufs e).dest_lp
    pub cv : (w'.bufs e).cv ≡ (w.bufs e).cv
    pub message : (w'.bufs e).message ≡ (w.bufs e).message
    pub src_lp : (p : Ptr) → ((w'.bufs p).src_lp ≡ i) ⊎ ((w'.bufs p).src_lp ≡ (w.bufs p).src_lp)
    pub count :
        (w'.bufs e).aborted_total + length (w'.bufs e).caused_by_me
        ≡ (w.bufs e).aborted_total + length (w.bufs e).caused_by_me + n
    pub blame :
        (p : Ptr)
        → Has p (w'.bufs e).caused_by_me
        → ((w'.bufs p).src_lp ≡ i) ⊎ Has p (w.bufs e).caused_by_me
    pub lps : w'.lps ≡ write w.lps i (record (w.lps i) { core_rng = draws m n (w.lps i).core_rng })

  Sends-Still : {n : ℕ} {u v w : World m} → Sends n u v → Still e i v w → Sends n u w
  Sends-Still {n} {u} {v} {w} s t =
      let k = t.0 in
      record {
        cur_event = k.cur_event ∙ s.cur_event;
        abort_event = k.abort_event ∙ s.abort_event;
        free = λ h. s.free (k.free h);
        key = k.key ∙ s.key;
        dest_lp = k.dest_lp ∙ s.dest_lp;
        cv = k.cv ∙ s.cv;
        message = k.message ∙ s.message;
        src_lp = λ p. elim (k.src_lp p) [
          | inl q ↦ inl q
          | inr q ↦ elim (s.src_lp p) [ inl r ↦ inl (q ∙ r) | inr r ↦ inr (q ∙ r) ]
        ];
        count = omega (arith, s.count, k.aborted, ap (λ (l : List Ptr). length l) k.caused);
        blame = λ p h. elim (s.blame p (subst (Has p) k.caused h)) [
          | inl q ↦ inl (elim (k.src_lp p) [ inl r ↦ r | inr r ↦ r ∙ q ])
          | inr j ↦ inr j
        ];
        lps = t.1 ∙ s.lps;
      }

  module _ (w w1 : World m) (x : ℕ) (made : Made e i w (x, w1)) (cur : w.pe.cur_event ≡ e) where
    cur1 : w1.pe.cur_event ≡ e
    cur1 = made.1.cur_event ∙ cur

    label-Sends : Sends 1 w (label x w1)
    unfolding label link_causality
    label-Sends =
        let k = made.1 in
        let ne = made.0 in
        let v = label x w1 in
        let same_cv : (v.bufs e).cv ≡ (w1.bufs e).cv = ground arith in
        let same_message : (v.bufs e).message ≡ (w1.bufs e).message = ground arith in
        let same_src : (p : Ptr) → (v.bufs p).src_lp ≡ (w1.bufs p).src_lp = λ p. ground arith in
        let same_aborted : (v.bufs e).aborted_total ≡ (w1.bufs e).aborted_total = ground arith in
        let new : (v.bufs e).caused_by_me ≡ x ∷ (w1.bufs e).caused_by_me = ground (arith, cur1) in
        record {
          cur_event = k.cur_event;
          abort_event = k.abort_event;
          free = k.free;
          key = ground (arith, k.key);
          dest_lp = ground (arith, k.dest_lp, cur1);
          cv = same_cv ∙ k.cv;
          message = same_message ∙ k.message;
          src_lp = λ p. elim (k.src_lp p) [
            | inl q ↦ inl (same_src p ∙ q)
            | inr q ↦ inr (same_src p ∙ q)
          ];
          count = omega (
            arith,
            k.aborted,
            same_aborted,
            ap (λ (l : List Ptr). length l) k.caused,
            ap (λ (l : List Ptr). length l) new,
          );
          blame = λ p h. elim (subst (Has p) new h) [
            | inl q ↦ inl (same_src p ∙ subst (λ z. (w1.bufs z).src_lp ≡ i) q made.2)
            | inr j ↦ inr (subst (Has p) k.caused j)
          ];
          lps = made.3;
        }

    abort-Sends :
        (c : Config) → (w.bufs e).aborted_total + 1 < 2 ^ 64 → Sends 1 w (send_abort c x w1)
    unfolding send_abort
    abort-Sends c room =
        let k = made.1 in
        let v = send_abort c x w1 in
        let same_cv : (v.bufs e).cv ≡ (w1.bufs e).cv = ground arith in
        let same_message : (v.bufs e).message ≡ (w1.bufs e).message = ground arith in
        let same_src : (p : Ptr) → (v.bufs p).src_lp ≡ (w1.bufs p).src_lp = λ p. ground arith in
        let caused : (v.bufs e).caused_by_me ≡ (w1.bufs e).caused_by_me = ground arith in
        let more : (v.bufs e).aborted_total ≡ (w1.bufs e).aborted_total + 1 =
          ground (arith, cur1, k.aborted) in
        record {
          cur_event = k.cur_event;
          abort_event = k.abort_event;
          free = k.free;
          key = k.key;
          dest_lp = ground (arith, k.dest_lp, cur1);
          cv = same_cv ∙ k.cv;
          message = same_message ∙ k.message;
          src_lp = λ p. elim (k.src_lp p) [
            | inl q ↦ inl (same_src p ∙ q)
            | inr q ↦ inr (same_src p ∙ q)
          ];
          count =
              omega (arith, k.aborted, more, ap (λ (l : List Ptr). length l) (caused ∙ k.caused));
          blame = λ p h. inr (subst (Has p) (caused ∙ k.caused) h);
          lps = made.3;
        }

    send-Sends :
        (c : Config)
        → (w.bufs e).aborted_total + 1 < 2 ^ 64
        → Ensures (Sends 1 w) (tw_event_send c x w1)
    unfolding tw_event_send
    send-Sends c room = elim (Bool-cases (x == w1.pe.abort_event)) [
      | inl h ↦ rw h (abort-Sends c room)
      | inr h ↦ rw h (elim (Bool-cases (violates c x w1)) [
        | inl v ↦ rw v tt
        | inr v ↦ rw v (elim (Bool-cases (has_output (w1.bufs x).out_msgs)) [
          | inl o ↦ rw o tt
          | inr o ↦ rw o (elim (Bool-cases (m.lp_map (w1.bufs x).dest_lp == c.mynode)) [
            | inl l ↦ rw l (
                Ensures-imp (Still e i (label x w1)) (Sends 1 w) (send_local x (label x w1))
                  (λ v' t. Sends-Still label-Sends t) (send_local-Still e i x (label x w1) made.0))
            | inr l ↦ rw l (Sends-Still label-Sends (send_remote-Still e i x (label x w1)))
          ])
        ])
      ])
    ]

  write-draws :
      (n : ℕ) (f g : ℕ → Lp m)
      → g ≡ write f i (record (f i) { core_rng = draws m 1 (f i).core_rng })
      → write g i (record (g i) { core_rng = draws m n (g i).core_rng })
        ≡ write f i (record (f i) { core_rng = draws m (suc n) (f i).core_rng })
  write-draws n f g h =
      ap (λ (z : ℕ → Lp m). write z i (drawn m n (z i))) h
      ∙ ap (λ (z : Lp m). write (write f i (drawn m 1 (f i))) i (drawn m n z))
          (write_self f i (drawn m 1 (f i)))
      ∙ write-write f i (drawn m 1 (f i)) (drawn m n (drawn m 1 (f i)))
      ∙ ap (λ (g : m.Rng). write f i (record (f i) { core_rng = g }))
          (draws_shift m n (f i).core_rng)

  Sends-next : {n : ℕ} {u v w : World m} → Sends 1 u v → Sends n v w → Sends (suc n) u w
  Sends-next {n} {u} {v} {w} s t = record {
    cur_event = t.cur_event ∙ s.cur_event;
    abort_event = t.abort_event ∙ s.abort_event;
    free = λ h. s.free (t.free h);
    key = t.key ∙ s.key;
    dest_lp = t.dest_lp ∙ s.dest_lp;
    cv = t.cv ∙ s.cv;
    message = t.message ∙ s.message;
    src_lp = λ p. elim (t.src_lp p) [
      | inl q ↦ inl q
      | inr q ↦ elim (s.src_lp p) [ inl r ↦ inl (q ∙ r) | inr r ↦ inr (q ∙ r) ]
    ];
    count = omega (arith, s.count, t.count);
    blame = λ p h. elim (t.blame p h) [
      | inl q ↦ inl q
      | inr j ↦ elim (s.blame p j) [
        | inl q ↦ inl (elim (t.src_lp p) [ inl r ↦ r | inr r ↦ r ∙ q ])
        | inr z ↦ inr z
      ]
    ];
    lps = t.lps ∙ write-draws n u.lps v.lps s.lps;
  }

  Sends-none : (w : World m) → Sends 0 w w
  Sends-none w = record {
    cur_event = refl;
    abort_event = refl;
    free = λ h. h;
    key = refl;
    dest_lp = refl;
    cv = refl;
    message = refl;
    src_lp = λ p. inr refl;
    count = omega arith;
    blame = λ p h. inr h;
    lps = sym (write_same w.lps i);
  }

  pub send_all-Sends :
      (c : Config) (rs : List (Request m.Message)) (w : World m)
      → w.pe.cur_event ≡ e
      → w.pe.abort_event ≢ e
      → ¬ Has e w.pe.free_q
      → (w.bufs e).aborted_total + length (w.bufs e).caused_by_me + length rs < 2 ^ 64
      → Ensures (Sends (length rs) w) (send_all c i rs w)
  unfolding send_all
  send_all-Sends c [] w cur ab fr room = Sends-none w
  send_all-Sends c (r ∷ rs) w cur ab fr room =
      Ensures-bind (Made e i w) (Sends (suc (length rs)) w) (tw_event_new_user_prio c i r w) _
        (new-Made e i c r w fr ab)
        (λ out made.
          Ensures-bind (Sends 1 w) (Sends (suc (length rs)) w) (tw_event_send c out.0 out.1) _
            (send-Sends w out.1 out.0 made cur c (omega arith))
            (λ v s.
              Ensures-imp (Sends (length rs) v) (Sends (suc (length rs)) w) (send_all c i rs v)
                (λ w' t. Sends-next s t)
                (send_all-Sends c rs v (s.cur_event ∙ cur) (λ z. ab (sym s.abort_event ∙ z))
                  (λ z. fr (s.free z)) (omega (arith, s.count)))))
