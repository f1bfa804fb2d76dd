-- ===== src/Kernel/Restore.antt =====
-- The loop of `tw_kp_rollback_to_sig`.
use ross.Prelude.{
  ℕ, zero, suc, ◌+◌, ◌<◌, ◌≤◌, ◌^◌, ◌≡◌, ◌≢◌, refl, sym, ap, ap₂, ◌∙◌, ◌⊎◌, inl, inr, true, false,
  Bool-cases, Option, some, List, [], ◌∷◌, ◌++◌, length, All, Has, ℕ_discrete, arith,
}
use ross.Event.{TwEvent, TwEventSig}
use ross.Queue.Tree.{Ptr}
use ross.Queue.Pq.{◌>>=◌}
use ross.Kernel.Machine.{Machine}
use ross.Kernel.State.{World, set_kp, owner_of}
use ross.Kernel.Rollback.{newest, not_before, rollback_one, rollback_loop, tw_kp_rollback_to_sig}
use ross.Kernel.Pending.{NoTie, IsHeld}
use ross.Kernel.Frame.{caused_of, processed_of, StepsBack}
use ross.Kernel.Causes.{Settles, Settles-trans, pending}
use ross.Kernel.Undo.{Round, rollback_one-Round}
use ross.Kernel.Ready.{
  Ready, All-of_Has, Ready-step, Settled, Settled-Settles, Stops, AllSettled, Freed,
  AllSettled-step, Freed-step,
}

module _ {m : Machine} (keys : Ptr → TwEvent) (live : Ptr → Type 0) where
  -- What the rollback of the kernel process `k` to a signature leaves, where `xs` are the events that
  -- it had processed, the newest first.
  pub record Restored (k : ℕ) (to_sig : TwEventSig) (xs : List Ptr) (w : World m)
      (r : Option (World m)) : Type 0 where
    pub w' : World m
    pub returns : r ≡ some w'
    pub undone : List Ptr
    pub kept : List Ptr
    pub whole : xs ≡ undone ++ kept
    pub all_undone : All (λ e. not_before (keys e).sig to_sig ≡ true) undone
    pub stops : Stops keys to_sig kept
    pub processed : processed_of w' k ≡ kept
    pub elsewhere : (i : ℕ) → i ≢ k → processed_of w' i ≡ processed_of w i
    pub held : IsHeld keys live w'.pe.pq
    pub keys' : w'.keys ≡ keys
    pub room : pending w' + length kept ≤ pending w + length xs
    pub settled : AllSettled (owner_of w') (caused_of w) undone undone
    pub freed : Freed (owner_of w) (owner_of w') (caused_of w) undone
    pub others : (p : Ptr) → ¬ Has p xs → Settles (owner_of w p) (owner_of w' p)
    pub stays : (p : Ptr) → Settled (owner_of w p) → Settled (owner_of w' p)
    pub last_sig :
        ((undone ≡ []) × ((w'.kps k).last_sig ≡ (w.kps k).last_sig))
        ⊎ ((w'.kps k).last_sig ≡ newest keys w.pe.gvt_sig kept)

module _ {m : Machine} (keys : Ptr → TwEvent) (live : Ptr → Type 0) (no_tie : NoTie keys live)
    (back : StepsBack m) where
  unfolded_stop :
      (k : ℕ) (to_sig : TwEventSig) (xs : List Ptr) (w : World m)
      → processed_of w k ≡ xs
      → w.keys ≡ keys
      → Stops keys to_sig xs
      → IsHeld keys live w.pe.pq
      → Restored keys live k to_sig xs w (some w)
  unfolded_stop k to_sig xs w p same s h = record {
    w' = w;
    returns = refl;
    undone = [];
    kept = xs;
    whole = refl;
    all_undone = tt;
    stops = s;
    processed = p;
    elsewhere = λ i n. refl;
    held = h;
    keys' = same;
    room = omega arith;
    settled = tt;
    freed = λ q z. inl z;
    others = λ q n. inl refl;
    stays = λ q z. z;
    last_sig = inl (refl, refl);
  }

  loop_end :
      (fuel k : ℕ) (to_sig : TwEventSig) (w : World m)
      → processed_of w k ≡ []
      → rollback_loop (suc fuel) k to_sig w ≡ some w
  unfolding rollback_loop
  loop_end fuel k to_sig w p = rw (p, rollback_loop) refl

  loop_stop :
      (fuel k : ℕ) (to_sig : TwEventSig) (e : Ptr) (xs : List Ptr) (w : World m)
      → processed_of w k ≡ e ∷ xs
      → not_before (w.keys e).sig to_sig ≡ false
      → rollback_loop (suc fuel) k to_sig w ≡ some w
  unfolding rollback_loop
  loop_stop fuel k to_sig e xs w p b = rw (p, b, rollback_loop) refl

  loop_more :
      (fuel k : ℕ) (to_sig : TwEventSig) (e : Ptr) (xs : List Ptr) (w : World m)
      → processed_of w k ≡ e ∷ xs
      → not_before (w.keys e).sig to_sig ≡ true
      → rollback_loop (suc fuel) k to_sig w
        ≡ (rollback_one k e xs w >>= rollback_loop fuel k to_sig)
  unfolding rollback_loop
  loop_more fuel k to_sig e xs w p b = rw (p, b, rollback_loop) refl

  -- A round for the event `e`, and the rounds behind it.
  rounds :
      (k : ℕ) (to_sig : TwEventSig) (e : Ptr) (xs : List Ptr) (w : World m) (r : Option (World m))
      (one : Round keys live k e xs (newest w.keys w.pe.gvt_sig xs) w r)
      (f : World m → Option (World m))
      → w.keys ≡ keys
      → not_before (keys e).sig to_sig ≡ true
      → Restored keys live k to_sig xs one.w' (f one.w')
      → Restored keys live k to_sig (e ∷ xs) w (r >>= f)
  rounds k to_sig e xs w r one f same b rest =
      let stays : (p : Ptr) → Settled (owner_of w p) → Settled (owner_of rest.w' p) = λ p z.
        elim (ℕ_discrete p e) [
          | yes q ↦ rest.stays p (inl (ap (owner_of one.w') q ∙ one.back_in_queue))
          | no q ↦ rest.stays p (Settled-Settles z (one.settles p q))
        ] in
      record {
        w' = rest.w';
        returns = rw one.returns rest.returns;
        undone = e ∷ rest.undone;
        kept = rest.kept;
        whole = ap (λ l. e ∷ l) rest.whole;
        all_undone = (b, rest.all_undone);
        stops = rest.stops;
        processed = rest.processed;
        elsewhere = λ i n. rest.elsewhere i n ∙ one.elsewhere i n;
        held = rest.held;
        keys' = rest.keys';
        room = omega (arith, rest.room, one.one_more);
        others = λ p n.
            Settles-trans (one.settles p (λ q. n (inl (sym q)))) (rest.others p (λ i. n (inr i)));
        settled =
            AllSettled-step one.back_in_queue one.others one.caused one.none_caused rest.undone
              rest.undone (rest.stays e (inl one.back_in_queue)) rest.freed rest.settled;
        freed =
            Freed-step one.back_in_queue one.others one.caused one.none_caused rest.undone
              rest.freed;
        stays = stays;
        last_sig = inr (elim rest.last_sig [
          | inl q ↦
              q.1
              ∙ one.last_sig
              ∙ ap₂ (λ ks l. newest ks w.pe.gvt_sig l) same
                  (rest.whole ∙ ap (λ l. l ++ rest.kept) q.0)
          | inr q ↦ q ∙ ap (λ g. newest keys g rest.kept) one.gvt_sig
        ]);
      }

  rollback_loop-Restored :
      (fuel k : ℕ) (to_sig : TwEventSig) (xs : List Ptr) (w : World m)
      → processed_of w k ≡ xs
      → length xs < fuel
      → w.keys ≡ keys
      → IsHeld keys live w.pe.pq
      → Ready (owner_of w) (caused_of w) xs
      → All live xs
      → pending w + length xs < 2 ^ 32
      → Restored keys live k to_sig xs w (rollback_loop fuel k to_sig w)
  rollback_loop-Restored zero k to_sig xs w p f same h r l room = absurd (omega arith)
  rollback_loop-Restored (suc fuel) k to_sig [] w p f same h r l room =
      rw (loop_end fuel k to_sig w p) (unfolded_stop k to_sig [] w p same tt h)
  rollback_loop-Restored (suc fuel) k to_sig (e ∷ xs) w p f same h r l room =
      let test : not_before (w.keys e).sig to_sig ≡ not_before (keys e).sig to_sig =
        ap (λ ks. not_before (ks e).sig to_sig) same in
      let one =
        rollback_one-Round keys live no_tie back k e w same h l.0 r.0.allocated r.0.processed
          r.0.distinct (All-of_Has (caused_of w e) r.0.cancelable) xs (omega arith) in
      elim (Bool-cases (not_before (keys e).sig to_sig)) [
        | inl b ↦ rw (loop_more fuel k to_sig e xs w p (test ∙ b)) (
            rounds k to_sig e xs w (rollback_one k e xs w) one (rollback_loop fuel k to_sig) same b
              (rollback_loop-Restored fuel k to_sig xs one.w' one.processed (omega arith)
                (one.keys' ∙ same) one.held
                (Ready-step one.back_in_queue one.others one.settles one.caused xs r.0.apart r.1)
                l.1 (omega (arith, one.one_more))))
        | inr b ↦
            rw (loop_stop fuel k to_sig e xs w p (test ∙ b))
              (unfolded_stop k to_sig (e ∷ xs) w p same b h)
      ]

  -- A count of rollbacks has no part in what is left.
  from_counted :
      (k n : ℕ) (to_sig : TwEventSig) (w : World m) (r : Option (World m))
      → Restored keys live k to_sig
          (processed_of w k)
          (set_kp w k (record (w.kps k) { s_rb_total = n }))
          r
      → Restored keys live k to_sig (processed_of w k) w r
  from_counted k n to_sig w r a = record {
    w' = a.w';
    returns = a.returns;
    undone = a.undone;
    kept = a.kept;
    whole = a.whole;
    all_undone = a.all_undone;
    stops = a.stops;
    processed = a.processed;
    elsewhere = λ i ne. ground (arith, a.elsewhere i);
    held = a.held;
    keys' = a.keys';
    room = a.room;
    others = a.others;
    settled = a.settled;
    freed = a.freed;
    stays = a.stays;
    last_sig = elim a.last_sig [ inl q ↦ inl (q.0, ground arith) | inr q ↦ inr q ];
  }

  pub tw_kp_rollback_to_sig-Restored :
      (k : ℕ) (to_sig : TwEventSig) (w : World m)
      → w.keys ≡ keys
      → IsHeld keys live w.pe.pq
      → Ready (owner_of w) (caused_of w) (processed_of w k)
      → All live (processed_of w k)
      → pending w + length (processed_of w k) < 2 ^ 32
      → Restored keys live k to_sig (processed_of w k) w (tw_kp_rollback_to_sig k to_sig w)
  unfolding tw_kp_rollback_to_sig
  tw_kp_rollback_to_sig-Restored k to_sig w same h r l room =
      let n = (w.kps k).s_rb_total + 1 in
      from_counted k n to_sig w (tw_kp_rollback_to_sig k to_sig w) (
        rollback_loop-Restored (suc (length (processed_of w k))) k to_sig (processed_of w k)
          (set_kp w k (record (w.kps k) { s_rb_total = n })) (ground arith) (omega arith) same h r l
          room)
