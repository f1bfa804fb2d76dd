-- ===== src/Eventq/Committed.antt =====
-- The loop of `tw_eventq_push_list` over the moved events.
use mathlib.Core.List.{append_assoc, append-nil, reverse-cons}
use ross.Prelude.{
  ℕ, zero, suc, ◌+◌, ◌^◌, ◌<◌, ◌≤◌, ◌≡◌, ◌≢◌, refl, sym, ap, ◌∙◌, subst, inl, inr, true, false,
  Option, some, List, [], ◌∷◌, ◌++◌, reverse, ◌==◌, All, All-Has, Has, Has-append, Has-middle,
  arith, length, length-append,
}
use ross.Queue.Tree.{Ptr, null}
use ross.Eventq.Linked.{first_or, last_or, last_or-append, Linked, Linked-right, Distinct}
use ross.Eventq.Ops.{IsQueue}
use ross.Eventq.Collect.{Collecting, free_store, pe_sevent_q, commit_event, commit_loop}
use ross.Eventq.Released.{Clean, NotIn, AllSent, Has-left_of, Has-right_of}
use ross.Eventq.Round.{Done, commit_event-Done, Caused, total, total-same, Caused-old, Caused-new}

-- What the loop over the events `es` of the list `zs` leaves.
pub record Committed (zs es : List Ptr) (s : Collecting) (out : Option Collecting) : Type 0 where
  pub s' : Collecting
  pub returns : out ≡ some s'
  pub freed : List Ptr
  pub holds : IsQueue (free_store s') (freed ++ zs)
  pub clean : Clean s'.owner (freed ++ zs)
  pub sound : (p : Ptr) → Has p freed → (s.owner p ≡ pe_sevent_q) × Caused s.caused es p
  pub complete : (p : Ptr) → Caused s.caused es p → s.owner p ≡ pe_sevent_q → Has p freed
  pub count : length freed ≤ total s.caused es
  pub q : s'.q ≡ s.q
  pub commits : s'.commits ≡ s.commits ++ es
  pub others :
      (b a : Ptr) (ks : List Ptr)
      → Clean s.owner ks
      → NotIn ks zs
      → Linked s.links b ks a
      → Linked s'.links b ks a

last_or-reverse : (b : Ptr) (es : List Ptr) → last_or b (reverse es) ≡ first_or es b
last_or-reverse b [] = refl
last_or-reverse b (e ∷ es) =
    ap (last_or b) (reverse-cons e es) ∙ last_or-append b (reverse es) (e ∷ [])

shape :
    (pre : List Ptr) (h e : Ptr) (es post : List Ptr)
    → (pre ++ h ∷ reverse (e ∷ es)) ++ post ≡ (pre ++ h ∷ reverse es) ++ e ∷ post
shape pre h e es post =
    ap (λ r. (pre ++ h ∷ r) ++ post) (reverse-cons e es)
    ∙ ap (λ l. l ++ post) (sym (append_assoc pre (h ∷ reverse es) (e ∷ [])))
    ∙ append_assoc (pre ++ h ∷ reverse es) (e ∷ []) post

prev_of :
    (s : Collecting) (zs pre : List Ptr) (h e : Ptr) (es post : List Ptr)
    → IsQueue (free_store s) zs
    → zs ≡ (pre ++ h ∷ reverse es) ++ e ∷ post
    → s.links.prev e ≡ first_or es h
prev_of s zs pre h e es post v w =
    let l = subst (λ l. Linked s.links null l null) w v.linked in
    (Linked-right s.links null (pre ++ h ∷ reverse es) (e ∷ post) null l).1
    ∙ last_or-append null pre (h ∷ reverse es)
    ∙ last_or-reverse h es

-- A round for the event `e`, and the rounds for the events `es`.
rounds :
    (zs es : List Ptr) (e : Ptr) (s s1 : Collecting) (out : Option Collecting) (d : Done zs e s s1)
    → All (λ x. x ≢ e) es
    → Committed (d.freed ++ zs) es s1 out
    → Committed zs (e ∷ es) s out
rounds zs es e s s1 out d n r =
    let assoc = append_assoc r.freed d.freed zs in
    record {
      s' = r.s';
      returns = r.returns;
      freed = r.freed ++ d.freed;
      holds = subst (IsQueue (free_store r.s')) (sym assoc) r.holds;
      clean = subst (Clean r.s'.owner) (sym assoc) r.clean;
      sound = λ p h. elim (Has-append p r.freed d.freed h) [
        | inl i ↦
            let (o, c) = r.sound p i in
            (d.sent p o, inr (Caused-old s.caused s1.caused e d.caused es p n c))
        | inr i ↦ (let (o, c) = d.sound p i in (o, inl c))
      ];
      complete = λ p c o. elim c [
        | inl i ↦ Has-right_of p r.freed d.freed (d.complete p i o)
        | inr c' ↦ elim (d.waits p o) [
          | inl i ↦ Has-right_of p r.freed d.freed i
          | inr w ↦
              Has-left_of p r.freed d.freed
                (r.complete p (Caused-new s.caused s1.caused e d.caused es p n c') w)
        ]
      ];
      count = omega (
        arith,
        length-append r.freed d.freed,
        r.count,
        d.count,
        total-same s.caused s1.caused e d.caused es n,
      );
      q = r.q ∙ d.q;
      commits = r.commits ∙ ap (λ l. l ++ es) d.commits ∙ append_assoc s.commits (e ∷ []) es;
      others = λ b a ks k m l.
          r.others b a ks (λ x i w. k x i (d.sent x w))
            (λ x i j. elim (Has-append x d.freed zs j) [
              | inl f ↦ k x i ((d.sound x f).0)
              | inr z ↦ m x i z
            ])
            (d.others b a ks k m l);
    }

stopped :
    (zs : List Ptr) (s : Collecting)
    → IsQueue (free_store s) zs
    → Clean s.owner zs
    → Committed zs [] s (some s)
stopped zs s v d = record {
  s' = s;
  returns = refl;
  freed = [];
  holds = v;
  clean = d;
  sound = λ p h. absurd h;
  complete = λ p c o. absurd c;
  count = omega arith;
  q = refl;
  commits = sym (append-nil s.commits);
  others = λ b a ks k n l. l;
}

loop_last :
    (fuel : ℕ) (h : Ptr) (s : Collecting) → commit_loop (suc fuel) h h s ≡ some (commit_event h s)
unfolding commit_loop
loop_last fuel h s = (let t : (h == h) ≡ true = ground arith in rw t refl)

loop_more :
    (fuel : ℕ) (h e p : Ptr) (s : Collecting)
    → e ≢ h
    → (commit_event e s).links.prev e ≡ p
    → commit_loop (suc fuel) h e s ≡ commit_loop fuel h p (commit_event e s)
unfolding commit_loop
loop_more fuel h e p s n q =
    let t : (e == h) ≡ false = ground arith in
    rw t (ap (λ x. commit_loop fuel h x (commit_event e s)) q)

pub commit_loop-Committed :
    (fuel : ℕ) (h : Ptr) (es zs pre post : List Ptr) (s : Collecting)
    → zs ≡ (pre ++ h ∷ reverse es) ++ post
    → IsQueue (free_store s) zs
    → Clean s.owner zs
    → AllSent s.owner
    → Distinct (es ++ h ∷ [])
    → length es < fuel
    → length zs + total s.caused (es ++ h ∷ []) < 2 ^ 64
    → Committed zs (es ++ h ∷ []) s (commit_loop fuel h (first_or es h) s)
commit_loop-Committed zero h es zs pre post s w v c pos d f fits = absurd (omega arith)
commit_loop-Committed (suc fuel) h [] zs pre post s w v c pos d f fits =
    let here : Has h zs =
      subst (Has h) (sym (w ∙ append_assoc pre (h ∷ []) post)) (Has-middle h pre post) in
    let one = commit_event-Done zs h s v c pos here (omega arith) in
    rw (loop_last fuel h s) (
      rounds zs [] h s (commit_event h s) (some (commit_event h s)) one tt
        (stopped (one.freed ++ zs) (commit_event h s) one.holds one.clean))
commit_loop-Committed (suc fuel) h (e ∷ es) zs pre post s w v c pos d f fits =
    let w' = w ∙ shape pre h e es post in
    let here : Has e zs = subst (Has e) (sym w') (Has-middle e (pre ++ h ∷ reverse es) post) in
    let one = commit_event-Done zs e s v c pos here (omega arith) in
    let s1 = commit_event e s in
    let ne : e ≢ h = λ q. (All-Has (λ x. x ≢ e) (es ++ h ∷ []) d.0 (Has-middle h es [])) (sym q) in
    let whole : one.freed ++ zs ≡ ((one.freed ++ pre) ++ h ∷ reverse es) ++ e ∷ post =
      ap (λ l. one.freed ++ l) w'
      ∙ sym (append_assoc one.freed (pre ++ h ∷ reverse es) (e ∷ post))
      ∙ ap (λ l. l ++ e ∷ post) (sym (append_assoc one.freed pre (h ∷ reverse es))) in
    let back = prev_of s1 (one.freed ++ zs) (one.freed ++ pre) h e es post one.holds whole in
    rw (loop_more fuel h e (first_or es h) s ne back) (
      rounds zs (es ++ h ∷ []) e s s1 (commit_loop fuel h (first_or es h) s1) one d.0 (
        commit_loop-Committed fuel h es (one.freed ++ zs) (one.freed ++ pre) (e ∷ post) s1 whole
          one.holds one.clean (λ p o. pos p (one.sent p o)) d.1 (omega arith)
          (omega (
            arith,
            fits,
            one.count,
            length-append one.freed zs,
            total-same s.caused s1.caused e one.caused (es ++ h ∷ []) d.0,
          ))))
