-- ===== src/Eventq/Prepend.antt =====
-- The links that `tw_eventq_push_list` of core/tw-eventq.h sets.
use ross.Prelude.{
  ◌<◌, ◌≡◌, ◌≢◌, refl, sym, subst, List, [], ◌∷◌, ◌++◌, ◌==◌, if◌then◌else◌, All, All-append_left,
  All-append_right,
}
use ross.Queue.Tree.{Ptr, null}
use ross.Eventq.{Links, TwEventq, set_next, set_prev}
use ross.Eventq.Linked.{
  first_or, last_or, Linked, Distinct, Linked-join, Linked-set_next, Linked-set_prev, set_next-last,
  set_prev-first, Distinct-left, Distinct-right, Distinct-last, Distinct-before, last_or-append,
}
use ross.Eventq.Relink.{not_null, last-positive}
use ross.Eventq.Collect.{push_list_links}

links-empty :
    (σ : Links) (q : TwEventq) (h t : Ptr)
    → q.head ≡ null
    → push_list_links σ q h t ≡ set_prev (set_next σ t null) h null
unfolding push_list_links
links-empty σ q h t e = rw e refl

links-cons :
    (σ : Links) (q : TwEventq) (h t f : Ptr)
    → q.head ≡ f
    → 0 < f
    → push_list_links σ q h t ≡ set_prev (set_prev (set_next σ t f) f t) h null
unfolding push_list_links
links-cons σ q h t f e pos = rw (e, not_null f pos) refl

pub links-Linked :
    (σ : Links) (q : TwEventq) (b m : Ptr) (ms : List Ptr) (a : Ptr) (fs : List Ptr)
    → Linked σ b (m ∷ ms) a
    → Linked σ null fs null
    → q.head ≡ first_or fs null
    → Distinct (m ∷ ms ++ fs)
    → Linked (push_list_links σ q m (last_or m ms)) null (m ∷ ms ++ fs) null
links-Linked σ q b m ms a [] lm lf h d =
    let t = last_or m ms in
    let dm = Distinct-left (m ∷ ms) [] d in
    subst (λ τ. Linked τ null (m ∷ ms ++ []) null) (sym (links-empty σ q m t h))
      (Linked-join (set_prev (set_next σ t null) m null) null (m ∷ ms) [] null
        (set_prev-first (set_next σ t null) b m ms null null dm
          (set_next-last σ b m ms a null dm lm))
        tt)
links-Linked σ q b m ms a (f ∷ fs) lm lf h d =
    let t = last_or m ms in
    let dm = Distinct-left (m ∷ ms) (f ∷ fs) d in
    let df = Distinct-right (m ∷ ms) (f ∷ fs) d in
    let σ1 = set_next σ t f in
    let σ2 = set_prev σ1 f t in
    let σ3 = set_prev σ2 m null in
    let ms1 = set_next-last σ b m ms a f dm lm in
    let ms2 = Linked-set_prev σ1 b (m ∷ ms) f f t (Distinct-before (m ∷ ms) f fs d) ms1 in
    let ms3 = set_prev-first σ2 b m ms f null dm ms2 in
    let fs1 = Linked-set_next σ null (f ∷ fs) null t f (Distinct-last m ms (f ∷ fs) d) lf in
    let fs2 = set_prev-first σ1 null f fs null t df fs1 in
    let fs3 = Linked-set_prev σ2 t (f ∷ fs) null m null (All-append_right _ ms (f ∷ fs) d.0) fs2 in
    subst (λ τ. Linked τ null (m ∷ ms ++ f ∷ fs) null) (sym (links-cons σ q m t f h lf.0))
      (Linked-join σ3 null (m ∷ ms) (f ∷ fs) null ms3 fs3)

-- Nothing of the one part is in the other.
pub Distinct-apart : (ks zs : List Ptr) → Distinct (ks ++ zs) → All (λ z. All (λ k. k ≢ z) ks) zs
Distinct-apart [] zs d = trivial zs
  where
    trivial : (zs : List Ptr) → All (λ z. Unit {0}) zs
    trivial [] = tt
    trivial (z ∷ zs) = (tt, trivial zs)
Distinct-apart (k ∷ ks) zs d = both zs (All-append_right _ ks zs d.0) (Distinct-apart ks zs d.1)
  where
    both :
        (zs : List Ptr)
        → All (λ z. z ≢ k) zs
        → All (λ z. All (λ x. x ≢ z) ks) zs
        → All (λ z. (k ≢ z) × All (λ x. x ≢ z) ks) zs
    both [] p q = tt
    both (z ∷ zs) p q = (((λ e. p.0 (sym e)), q.0), both zs p.1 q.1)

pub All-last : (P : Ptr → Type 0) (x : Ptr) (xs : List Ptr) → All P (x ∷ xs) → P (last_or x xs)
All-last P x [] p = p.0
All-last P x (y ∷ ys) p = All-last P y ys p.1

pub links-other :
    (σ : Links) (q : TwEventq) (b m : Ptr) (ms : List Ptr) (a : Ptr) (fs ks : List Ptr)
    → q.head ≡ first_or fs null
    → All (λ x. 0 < x) fs
    → Distinct (ks ++ (m ∷ ms ++ fs))
    → Linked σ b ks a
    → Linked (push_list_links σ q m (last_or m ms)) b ks a
links-other σ q b m ms a [] ks h pos d l =
    let t = last_or m ms in
    let apart = Distinct-apart ks (m ∷ ms ++ []) d in
    let not_t = All-last (λ z. All (λ k. k ≢ z) ks) m ms (All-append_left _ (m ∷ ms) [] apart) in
    subst (λ τ. Linked τ b ks a) (sym (links-empty σ q m t h))
      (Linked-set_prev (set_next σ t null) b ks a m null apart.0
        (Linked-set_next σ b ks a t null not_t l))
links-other σ q b m ms a (f ∷ fs) ks h pos d l =
    let t = last_or m ms in
    let apart = Distinct-apart ks (m ∷ ms ++ f ∷ fs) d in
    let not_t =
      All-last (λ z. All (λ k. k ≢ z) ks) m ms (All-append_left _ (m ∷ ms) (f ∷ fs) apart) in
    let not_f = (All-append_right _ (m ∷ ms) (f ∷ fs) apart).0 in
    let l1 = Linked-set_next σ b ks a t f not_t l in
    let l2 = Linked-set_prev (set_next σ t f) b ks a f t not_f l1 in
    subst (λ τ. Linked τ b ks a) (sym (links-cons σ q m t f h pos.0))
      (Linked-set_prev (set_prev (set_next σ t f) f t) b ks a m null apart.0 l2)

pub new_tail :
    (m : Ptr) (ms fs : List Ptr) (tail : Ptr)
    → All (λ x. 0 < x) fs
    → tail ≡ last_or null fs
    → (if tail == null then last_or m ms else tail) ≡ last_or m (ms ++ fs)
new_tail m ms [] tail pos e = rw e (sym (last_or-append m ms []))
new_tail m ms (f ∷ fs) tail pos e =
    rw (e, not_null (last_or f fs) (last-positive f fs pos)) (sym (last_or-append m ms (f ∷ fs)))
