-- ===== src/Kernel/Sent.antt =====
-- What a new event leaves of the event that is processed.
use ross.Prelude.{
  ℕ, ◌≡◌, ◌≢◌, refl, sym, ap, ◌∙◌, subst, inl, inr, Bool-cases, Option, none, some, List, [], ◌∷◌,
  Has, ltb, leb, ℕ_discrete, arith,
}
use ross.Queue.Tree.{Ptr}
use ross.Queue.Pq.{◌>>=◌}
use ross.Kernel.Machine.{Machine, Request}
use ross.Kernel.State.{World, write}
use ross.Kernel.Output.{tw_free_output_messages}
use ross.Kernel.Create.{
  Config, split_last, lineage, tw_event_grab, note_offset, sequential, conservative, optimistic,
  or_abort, pick, fill, tw_event_new_user_prio, tw_now,
}
use ross.Kernel.Keeps.{
  Keeps, Keeps-trans, Keeps-refl, free_messages-lps, free_messages-Keeps, note_offset-Keeps,
}

-- A result, if there is one, satisfies the predicate.
abbrev pub Ensures : {A : Type 0} → (A → Type 0) → Option A → Type 0
Ensures P none = Unit {0}
Ensures P (some a) = P a

pub Ensures-bind :
    {A B : Type 0} (P : A → Type 0) (Q : B → Type 0) (r : Option A) (f : A → Option B)
    → Ensures P r
    → ((a : A) → P a → Ensures Q (f a))
    → Ensures Q (r >>= f)
Ensures-bind P Q none f h k = tt
Ensures-bind P Q (some a) f h k = k a h

pub Ensures_any : {A : Type 0} (r : Option A) → Ensures (λ a. Unit {0}) r
Ensures_any none = tt
Ensures_any (some a) = tt

split_last-rest : (e x : Ptr) (xs : List Ptr) → Has e (split_last x xs).0 → Has e (x ∷ xs)
unfolding split_last
split_last-rest e x [] h = absurd h
split_last-rest e x (y ∷ ys) (inl q) = inl q
split_last-rest e x (y ∷ ys) (inr h) = inr (split_last-rest e y ys h)

split_last-last : (x : Ptr) (xs : List Ptr) → Has (split_last x xs).1 (x ∷ xs)
unfolding split_last
split_last-last x [] = inl refl
split_last-last x (y ∷ ys) = inr (split_last-last y ys)

module _ {m : Machine} (e i : ℕ) where
  -- The event that a request uses is not `e`.
  abbrev Fresh : World m → Ptr × World m → Type 0
  Fresh w out = (out.0 ≢ e) × Keeps e i w out.1 × (out.1.lps ≡ w.lps)

  grab-Fresh :
      (w : World m) (xs : List Ptr)
      → w.pe.free_q ≡ xs
      → ¬ Has e xs
      → Ensures (Fresh w) (tw_event_grab w)
  unfolding tw_event_grab
  grab-Fresh w [] p n = rw (p, tw_event_grab) tt
  grab-Fresh w (x ∷ xs) p n =
      let out = split_last x xs in
      let ne : out.1 ≢ e = λ q. n (subst (λ z. Has z (x ∷ xs)) q (split_last-last x xs)) in
      rw (p, tw_event_grab)
        (
          ne,
          record {
            cur_event = refl;
            abort_event = refl;
            free = λ h. split_last-rest e x xs h;
            key = ground arith;
            dest_lp = ground arith;
            cv = ground arith;
            message = ground arith;
            caused = ground arith;
            aborted = ground arith;
            src_lp = λ p'. inr (ground arith);
          },
          refl,
        )

  abort-Fresh : (w : World m) → w.pe.abort_event ≢ e → Fresh w (w.pe.abort_event, w)
  abort-Fresh w a = (a, Keeps-refl e i w, refl)

  or_abort-Fresh :
      (c : Config) (w : World m) (o : Option (Ptr × World m))
      → w.pe.abort_event ≢ e
      → Ensures (Fresh w) o
      → Ensures (Fresh w) (or_abort c w o)
  unfolding or_abort
  or_abort-Fresh c w (some g) a h = h
  or_abort-Fresh c w none a h =
      elim c.protocol
        as (λ z.
          Ensures (Fresh w) (elim z [ optimistic ↦ some (w.pe.abort_event, w) | _ ↦ none ])) [
            | optimistic ↦ abort-Fresh w a
            | conservative ↦ tt
            | sequential ↦ tt
          ]

  pick-Fresh :
      (c : Config) (t : ℕ) (w : World m)
      → ¬ Has e w.pe.free_q
      → w.pe.abort_event ≢ e
      → Ensures (Fresh w) (pick c t w)
  unfolding pick
  pick-Fresh c t w n a = elim (Bool-cases (leb c.ts_end t)) [
    | inl h ↦ rw h (
      a,
      record {
        cur_event = refl;
        abort_event = refl;
        free = λ z. z;
        key = refl;
        dest_lp = refl;
        cv = refl;
        message = refl;
        caused = refl;
        aborted = refl;
        src_lp = λ p. inr refl;
      },
      refl,
    )
    | inr h ↦ rw h (or_abort-Fresh c w (tw_event_grab w) a (grab-Fresh w w.pe.free_q refl n))
  ]

  fill-Keeps :
      (r : Request m.Message) (g : m.Rng) (tb : List ℕ) (now t x : ℕ) (w : World m)
      → x ≢ e
      → Keeps e i w (fill i r g tb now t x w)
  unfolding fill
  fill-Keeps r g tb now t x w n = record {
    cur_event = refl;
    abort_event = refl;
    free = λ h. h;
    key = ground arith;
    dest_lp = ground arith;
    cv = ground arith;
    message = ground arith;
    caused = ground arith;
    aborted = ground arith;
    src_lp = λ p. elim (ℕ_discrete p x) [ yes q ↦ inl (ground arith) | no q ↦ inr (ground arith) ];
  }

  note_offset-lps : (c : Config) (o : ℕ) (w : World m) → (note_offset c o w).lps ≡ w.lps
  unfolding note_offset
  note_offset-lps c o w = ground arith

  -- A new event: its sender has drawn once.
  abbrev pub Made : World m → Ptr × World m → Type 0
  Made w out =
      (out.0 ≢ e)
      × Keeps e i w out.1
      × ((out.1.bufs out.0).src_lp ≡ i)
      × (out.1.lps
          ≡ write w.lps i (record (w.lps i) { core_rng = (m.rand_unif (w.lps i).core_rng).1 }))

  made :
      (r : Request m.Message) (g : m.Rng) (tb : List ℕ) (now t : ℕ) (out : Ptr × World m)
      (w : World m)
      → Keeps e i w out.1
      → out.0 ≢ e
      → out.1.lps ≡ w.lps
      → (out.0 ≢ e)
        × Keeps e i w (tw_free_output_messages out.0 (fill i r g tb now t out.0 out.1))
        × (((tw_free_output_messages out.0 (fill i r g tb now t out.0 out.1)).bufs out.0).src_lp
            ≡ i)
        × ((tw_free_output_messages out.0 (fill i r g tb now t out.0 out.1)).lps
            ≡ write w.lps i (record (w.lps i) { core_rng = g }))
  unfolding fill
  made r g tb now t out w k ne l =
      let y = fill i r g tb now t out.0 out.1 in
      let last = free_messages-Keeps e i out.0 y in
      (
        ne,
        Keeps-trans k (Keeps-trans (fill-Keeps r g tb now t out.0 out.1 ne) last),
        elim (last.src_lp out.0) [ inl q ↦ q | inr q ↦ q ∙ ground arith ],
        free_messages-lps out.0 y ∙ ap (λ ls. write ls i (record (ls i) { core_rng = g })) l,
      )

  pub new-Made :
      (c : Config) (r : Request m.Message) (w : World m)
      → ¬ Has e w.pe.free_q
      → w.pe.abort_event ≢ e
      → Ensures (Made w) (tw_event_new_user_prio c i r w)
  unfolding tw_event_new_user_prio
  new-Made c r w n a =
      let u = note_offset c r.offset_ts w in
      let now = tw_now w i in
      let t = m.stime_add now r.offset_ts in
      let drawn = m.rand_unif (w.lps i).core_rng in
      let ok = note_offset-Keeps c e i r.offset_ts w in
      let lps : u.lps ≡ w.lps = note_offset-lps c r.offset_ts w in
      elim (Bool-cases (ltb c.one r.prio)) [
        | inl h ↦ rw h tt
        | inr h ↦ rw h (
            Ensures-bind (Fresh u) (Made w) (pick c t u) _
              (pick-Fresh c t u (λ z. n (ok.free z)) (λ z. a (sym ok.abort_event ∙ z)))
              (λ out f.
                Ensures-bind (λ tb. Unit {0}) (Made w) (lineage c r.offset_ts drawn.0 _) _
                  (Ensures_any (lineage c r.offset_ts drawn.0 _))
                  (λ tb z. made r drawn.1 tb now t out w (Keeps-trans ok f.1) f.0 (f.2 ∙ lps))))
      ]
