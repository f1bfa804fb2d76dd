-- ===== src/Eventq/Released.antt =====
-- The release of sent events that a committed event had caused.
use mathlib.Core.List.{append_assoc}
use ross.Prelude.{
  ℕ, ◌+◌, ◌^◌, ◌<◌, ◌≤◌, ◌≡◌, ◌≢◌, refl, sym, ap, ◌∙◌, subst, ◌⊎◌, inl, inr, true, false, List, [],
  ◌∷◌, ◌++◌, ◌==◌, All, Has, Has-append, ℕ_discrete, arith, length, length-append,
}
use ross.Queue.Tree.{Ptr, null}
use ross.Eventq.{Store, write, set_next, set_prev, tw_eventq_unshift}
use ross.Eventq.Linked.{first_or, Linked, Linked-allocated, Linked-set_next, Linked-set_prev}
use ross.Eventq.Relink.{link_prev-other}
use ross.Eventq.Alloc.{pe_free_q}
use ross.Eventq.Ops.{IsQueue, tw_eventq_unshift-IsQueue}
use ross.Eventq.Collect.{Collecting, free_store, pe_sevent_q, free_one, free_sent}

-- No event of the list waits in `sevent_q`.
abbrev pub Clean : (Ptr → ℕ) → List Ptr → Type 0
Clean owner zs = (z : Ptr) → Has z zs → owner z ≢ pe_sevent_q

abbrev pub NotIn : List Ptr → List Ptr → Type 0
NotIn ks zs = (k : Ptr) → Has k ks → ¬ Has k zs

-- Sent events are allocated.
abbrev pub AllSent : (Ptr → ℕ) → Type 0
AllSent owner = (p : Ptr) → owner p ≡ pe_sevent_q → 0 < p

pub All-of : {P : Ptr → Type 0} (xs : List Ptr) → ((x : Ptr) → Has x xs → P x) → All P xs
All-of [] f = tt
All-of (x ∷ xs) f = (f x (inl refl), All-of xs (λ y i. f y (inr i)))

pub Has-right_of : (p : Ptr) (xs ys : List Ptr) → Has p ys → Has p (xs ++ ys)
Has-right_of p [] ys h = h
Has-right_of p (x ∷ xs) ys h = inr (Has-right_of p xs ys h)

pub Has-left_of : (p : Ptr) (xs ys : List Ptr) → Has p xs → Has p (xs ++ ys)
Has-left_of p [] ys h = absurd h
Has-left_of p (x ∷ xs) ys (inl e) = inl e
Has-left_of p (x ∷ xs) ys (inr h) = inr (Has-left_of p xs ys h)

unshift-other :
    (st : Store) (c b : Ptr) (ks : List Ptr) (a : Ptr)
    → All (λ k. k ≢ c) ks
    → All (λ k. k ≢ st.q.head) ks
    → Linked st.links b ks a
    → Linked (tw_eventq_unshift st c).links b ks a
unfolding tw_eventq_unshift
unshift-other st c b ks a n m l =
    link_prev-other (record st { links = set_next (set_prev st.links c null) c st.q.head })
      st.q.head c b ks a m
      (Linked-set_next (set_prev st.links c null) b ks a c st.q.head n
        (Linked-set_prev st.links b ks a c null n l))

not_head :
    (ks zs : List Ptr) (h : Ptr)
    → h ≡ first_or zs null
    → All (λ k. 0 < k) ks
    → NotIn ks zs
    → All (λ k. k ≢ h) ks
not_head [] zs h e pos n = tt
not_head (k ∷ ks) [] h e pos n =
    ((λ q. omega (arith, pos.0)), not_head ks [] h e pos.1 (λ x i. n x (inr i)))
not_head (k ∷ ks) (z ∷ zs) h e pos n =
    ((λ q. n k (inl refl) (inl (sym (q ∙ e)))), not_head ks (z ∷ zs) h e pos.1 (λ x i. n x (inr i)))

-- What the release of the sent events among `cs` leaves of a list `zs`.
pub record Releases (zs cs : List Ptr) (s s' : Collecting) : Type 0 where
  pub freed : List Ptr
  pub holds : IsQueue (free_store s') (freed ++ zs)
  pub clean : Clean s'.owner (freed ++ zs)
  pub sound : (p : Ptr) → Has p freed → (s.owner p ≡ pe_sevent_q) × Has p cs
  pub complete : (p : Ptr) → Has p cs → s.owner p ≡ pe_sevent_q → Has p freed
  pub sent : (p : Ptr) → s'.owner p ≡ pe_sevent_q → s.owner p ≡ pe_sevent_q
  pub waits : (p : Ptr) → s.owner p ≡ pe_sevent_q → Has p freed ⊎ (s'.owner p ≡ pe_sevent_q)
  pub count : length freed ≤ length cs
  pub q : s'.q ≡ s.q
  pub caused : s'.caused ≡ s.caused
  pub commits : s'.commits ≡ s.commits
  pub others :
      (b a : Ptr) (ks : List Ptr)
      → Clean s.owner ks
      → NotIn ks zs
      → Linked s.links b ks a
      → Linked s'.links b ks a

free_sent-none :
    (zs : List Ptr) (s : Collecting)
    → IsQueue (free_store s) zs
    → Clean s.owner zs
    → Releases zs [] s s
free_sent-none zs s v c = record {
  freed = [];
  holds = v;
  clean = c;
  sound = λ p h. absurd h;
  complete = λ p h o. absurd h;
  sent = λ p o. o;
  waits = λ p o. inr o;
  count = omega arith;
  q = refl;
  caused = refl;
  commits = refl;
  others = λ b a ks d n l. l;
}

-- One of the events is released, and then the others.
release_one :
    (zs cs : List Ptr) (c : Ptr) (s s' : Collecting)
    → s.owner c ≡ pe_sevent_q
    → IsQueue (free_store s) zs
    → Releases
        (c ∷ zs)
        cs
        (record s {
          links = (tw_eventq_unshift (free_store s) c).links;
          free_q = (tw_eventq_unshift (free_store s) c).q;
          owner = write s.owner c pe_free_q;
        })
        s'
    → Releases zs (c ∷ cs) s s'
release_one zs cs c s s' o v r =
    let assoc = append_assoc r.freed (c ∷ []) zs in
    record {
      freed = r.freed ++ c ∷ [];
      holds = subst (IsQueue (free_store s')) (sym assoc) r.holds;
      clean = subst (Clean s'.owner) (sym assoc) r.clean;
      sound = λ p h. elim (Has-append p r.freed (c ∷ []) h) [
        | inl i ↦ (let (a, b) = r.sound p i in (ground (arith), inr b))
        | inr i ↦ elim i [ inl e ↦ (ap s.owner (sym e) ∙ o, inl e) | inr z ↦ absurd z ]
      ];
      complete = λ p h w. elim (ℕ_discrete p c) [
        | yes e ↦ Has-right_of p r.freed (c ∷ []) (inl (sym e))
        | no e ↦ elim h [
          | inl q ↦ absurd (e (sym q))
          | inr i ↦ Has-left_of p r.freed (c ∷ []) (r.complete p i (ground arith))
        ]
      ];
      sent = λ p w. ground (arith, r.sent p);
      waits = λ p w. elim (ℕ_discrete p c) [
        | yes e ↦ inl (Has-right_of p r.freed (c ∷ []) (inl (sym e)))
        | no e ↦ elim (r.waits p (ground arith)) [
          | inl i ↦ inl (Has-left_of p r.freed (c ∷ []) i)
          | inr i ↦ inr i
        ]
      ];
      count = omega (arith, length-append r.freed (c ∷ []), r.count);
      q = r.q;
      caused = r.caused;
      commits = r.commits;
      others = λ b a ks d n l.
          let apart : (k : Ptr) → Has k ks → k ≢ c = λ k i e. d k i (ap s.owner e ∙ o) in
          let pos = Linked-allocated s.links b ks a l in
          r.others b a ks (λ k i w. d k i (ground arith))
            (λ k i j. elim j [ inl e ↦ apart k i (sym e) | inr z ↦ n k i z ])
            (unshift-other (free_store s) c b ks a (All-of ks apart)
              (not_head ks zs s.free_q.head v.head pos n) l);
    }

free_one-sent :
    (c : Ptr) (s : Collecting)
    → s.owner c ≡ pe_sevent_q
    → free_one c s ≡ record s {
      links = (tw_eventq_unshift (free_store s) c).links;
      free_q = (tw_eventq_unshift (free_store s) c).q;
      owner = write s.owner c pe_free_q;
    }
unfolding free_one
free_one-sent c s o = let t : (s.owner c == pe_sevent_q) ≡ true = ground arith in rw t refl

free_one-other : (c : Ptr) (s : Collecting) → s.owner c ≢ pe_sevent_q → free_one c s ≡ s
unfolding free_one
free_one-other c s o = let t : (s.owner c == pe_sevent_q) ≡ false = ground (arith, o) in rw t refl

pub free_sent-Releases :
    (zs cs : List Ptr) (s : Collecting)
    → IsQueue (free_store s) zs
    → Clean s.owner zs
    → AllSent s.owner
    → length zs + length cs < 2 ^ 64
    → Releases zs cs s (free_sent cs s)
unfolding free_sent
free_sent-Releases zs [] s v d pos fits = free_sent-none zs s v d
free_sent-Releases zs (c ∷ cs) s v d pos fits = elim (ℕ_discrete (s.owner c) pe_sevent_q) [
  | yes o ↦
      let s1 : Collecting = record s {
        links = (tw_eventq_unshift (free_store s) c).links;
        free_q = (tw_eventq_unshift (free_store s) c).q;
        owner = write s.owner c pe_free_q;
      } in
      let fresh : All (λ z. z ≢ c) zs = All-of zs (λ z i e. d z i (ap s.owner e ∙ o)) in
      let run : free_one c s ≡ s1 = free_one-sent c s o in
      subst (λ z. Releases zs (c ∷ cs) s (free_sent cs z)) (sym run)
        (release_one zs cs c s (free_sent cs s1) o v (
          free_sent-Releases (c ∷ zs) cs s1
            (tw_eventq_unshift-IsQueue zs c v (pos c o) fresh (omega arith))
            (λ z i w. elim i [ inl e ↦ ground arith | inr j ↦ d z j (ground arith) ])
            (λ p w. pos p (ground arith)) (omega arith)))
  | no o ↦
      let run : free_one c s ≡ s = free_one-other c s o in
      let r = free_sent-Releases zs cs s v d pos (omega arith) in
      subst (λ z. Releases zs (c ∷ cs) s (free_sent cs z)) (sym run)
        (record {
          freed = r.freed;
          holds = r.holds;
          clean = r.clean;
          sound = λ p h. (let (a, b) = r.sound p h in (a, inr b));
          complete =
              λ p h w. elim h [ inl e ↦ absurd (o (ap s.owner e ∙ w)) | inr i ↦ r.complete p i w ];
          sent = r.sent;
          waits = r.waits;
          count = omega (arith, r.count);
          q = r.q;
          caused = r.caused;
          commits = r.commits;
          others = r.others;
        })
]
