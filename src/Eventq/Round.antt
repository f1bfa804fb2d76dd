-- ===== src/Eventq/Round.antt =====
-- A round of the loop of `tw_eventq_push_list`.
use ross.Prelude.{
  ℕ, ◌+◌, ◌^◌, ◌<◌, ◌≤◌, ◌≡◌, ◌≢◌, refl, sym, ap, ◌∙◌, subst, ◌⊎◌, inl, inr, false, List, [], ◌∷◌,
  ◌++◌, ◌==◌, All, Has, arith, length,
}
use ross.Queue.Tree.{Ptr}
use ross.Eventq.{Store}
use ross.Eventq.Linked.{Linked}
use ross.Eventq.Ops.{IsQueue}
use ross.Eventq.Collect.{Collecting, free_store, pe_sevent_q, free_sent, clear, commit_event}
use ross.Eventq.Released.{Clean, NotIn, AllSent, Releases, free_sent-Releases}

record Cleared (e : Ptr) (s s' : Collecting) : Type 0 where
  store : free_store s' ≡ free_store s
  q : s'.q ≡ s.q
  commits : s'.commits ≡ s.commits
  sent : (p : Ptr) → s'.owner p ≡ pe_sevent_q → s.owner p ≡ pe_sevent_q
  owner : (p : Ptr) → p ≢ e → s'.owner p ≡ s.owner p
  caused : (p : Ptr) → p ≢ e → s'.caused p ≡ s.caused p

clear-Cleared : (e : Ptr) (cs : List Ptr) (s : Collecting) → Cleared e s (clear e cs s)
unfolding clear
clear-Cleared e [] s = record {
  store = refl;
  q = refl;
  commits = refl;
  sent = λ p o. o;
  owner = λ p n. refl;
  caused = λ p n. refl;
}
clear-Cleared e (c ∷ cs) s = record {
  store = refl;
  q = refl;
  commits = refl;
  sent = λ p o. ground arith;
  owner = λ p n. ground arith;
  caused = λ p n. (let other : (p == e) ≡ false = ground arith in rw other refl);
}

-- What a round of the loop for the event `e`, which is in the list `zs`, leaves.
pub record Done (zs : List Ptr) (e : Ptr) (s s' : Collecting) : Type 0 where
  pub freed : List Ptr
  pub holds : IsQueue (free_store s') (freed ++ zs)
  pub clean : Clean s'.owner (freed ++ zs)
  pub sound : (p : Ptr) → Has p freed → (s.owner p ≡ pe_sevent_q) × Has p (s.caused e)
  pub complete : (p : Ptr) → Has p (s.caused e) → s.owner p ≡ pe_sevent_q → Has p freed
  pub sent : (p : Ptr) → s'.owner p ≡ pe_sevent_q → s.owner p ≡ pe_sevent_q
  pub waits : (p : Ptr) → s.owner p ≡ pe_sevent_q → Has p freed ⊎ (s'.owner p ≡ pe_sevent_q)
  pub count : length freed ≤ length (s.caused e)
  pub q : s'.q ≡ s.q
  pub caused : (p : Ptr) → p ≢ e → s'.caused p ≡ s.caused p
  pub commits : s'.commits ≡ s.commits ++ e ∷ []
  pub others :
      (b a : Ptr) (ks : List Ptr)
      → Clean s.owner ks
      → NotIn ks zs
      → Linked s.links b ks a
      → Linked s'.links b ks a

pub commit_event-Done :
    (zs : List Ptr) (e : Ptr) (s : Collecting)
    → IsQueue (free_store s) zs
    → Clean s.owner zs
    → AllSent s.owner
    → Has e zs
    → length zs + length (s.caused e) < 2 ^ 64
    → Done zs e s (commit_event e s)
unfolding commit_event
commit_event-Done zs e s v d pos i fits =
    let cs = s.caused e in
    let s0 = record s { commits = s.commits ++ e ∷ [] } in
    let s1 = free_sent cs s0 in
    let r : Releases zs cs s0 s1 = free_sent-Releases zs cs s0 v d pos fits in
    let c = clear-Cleared e cs s1 in
    record {
      freed = r.freed;
      holds = subst (λ z. IsQueue z (r.freed ++ zs)) (sym c.store) r.holds;
      clean = λ z h o. r.clean z h (c.sent z o);
      sound = r.sound;
      complete = r.complete;
      sent = λ p o. r.sent p (c.sent p o);
      waits = λ p o. elim (r.waits p o) [
        | inl h ↦ inl h
        | inr w ↦ inr (c.owner p (λ q. d e i (ap s.owner (sym q) ∙ o)) ∙ w)
      ];
      count = r.count;
      q = c.q ∙ r.q;
      caused = λ p n. c.caused p n ∙ ap (λ f. f p) r.caused;
      commits = c.commits ∙ r.commits;
      others = λ b a ks k n l.
          subst (λ (z : Store). Linked z.links b ks a) (sym c.store) (r.others b a ks k n l);
    }

-- Some event of the list caused `p`.
abbrev pub Caused : (Ptr → List Ptr) → List Ptr → Ptr → Type 0
Caused caused [] p = ⊥
Caused caused (e ∷ es) p = Has p (caused e) ⊎ Caused caused es p

-- How many events those of the list caused.
abbrev pub total : (Ptr → List Ptr) → List Ptr → ℕ
total caused [] = 0
total caused (e ∷ es) = length (caused e) + total caused es

module _ (f g : Ptr → List Ptr) (e : Ptr) (same : (p : Ptr) → p ≢ e → g p ≡ f p) where
  pub total-same : (es : List Ptr) → All (λ x. x ≢ e) es → total g es ≡ total f es
  total-same [] n = refl
  total-same (x ∷ es) n = omega (arith, ap length (same x n.0), total-same es n.1)

  pub Caused-old : (es : List Ptr) (p : Ptr) → All (λ x. x ≢ e) es → Caused g es p → Caused f es p
  Caused-old [] p n c = absurd c
  Caused-old (x ∷ es) p n (inl i) = inl (subst (Has p) (same x n.0) i)
  Caused-old (x ∷ es) p n (inr c) = inr (Caused-old es p n.1 c)

  pub Caused-new : (es : List Ptr) (p : Ptr) → All (λ x. x ≢ e) es → Caused f es p → Caused g es p
  Caused-new [] p n c = absurd c
  Caused-new (x ∷ es) p n (inl i) = inl (subst (Has p) (sym (same x n.0)) i)
  Caused-new (x ∷ es) p n (inr c) = inr (Caused-new es p n.1 c)
