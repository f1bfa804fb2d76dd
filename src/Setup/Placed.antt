-- ===== src/Setup/Placed.antt =====
-- The first processes of a rank are in their places.
use ross.Prelude.{
  ℕ, suc, ◌+◌, ◌<◌, ◌≤◌, ◌≡◌, refl, true, false, Option, none, some, ◌==◌, leb, ℕ_discrete, arith,
}
use ross.Queue.Pq.{Run, ◌>>=◌}
use ross.Setup.{LpEntry, KpEntry, Tables, Rank, put, tw_kp_onpe, tw_lp_onpe, tw_lp_onkp}

module _ (r : Rank) (gid kp : ℕ → ℕ) where
  -- The first `n` logical processes, with their global numbers and kernel processes, and no other.
  pub record LpsPlaced (n : ℕ) (t : Tables) : Type 0 where
    pub done :
        (j : ℕ)
        → j < n
        → t.lps j ≡ some (record { id = j; gid = gid j; pe = r.pe; kp = some (kp j) })
    pub free : (j : ℕ) → n ≤ j → t.lps j ≡ none

  pub LpsPlaced-same : (n : ℕ) (t t' : Tables) → t'.lps ≡ t.lps → LpsPlaced n t → LpsPlaced n t'
  LpsPlaced-same n t t' q p = record {
    done = λ j l. rw q (p.done j l);
    free = λ j l. rw q (p.free j l);
  }

-- The first `n` kernel processes, and no other.
pub record KpsPlaced (n : ℕ) (t : Tables) : Type 0 where
  pub done : (k : ℕ) → k < n → (e : KpEntry) × (t.kps k ≡ some e)
  pub free : (k : ℕ) → n ≤ k → t.kps k ≡ none

pub bind_assoc :
    {A B C : Type 0} (x : Run A) (f : A → Run B) (g : B → Run C)
    → (x >>= (λ a. f a >>= g)) ≡ ((x >>= f) >>= g)
bind_assoc none f g = refl
bind_assoc (some a) f g = refl

abbrev pub Returns : Run Tables → (Tables → Type 0) → Type 0
Returns r P = (t : Tables) × (r ≡ some t) × P t

module _ (r : Rank) where
  pub kp_onpe-Placed :
      (n : ℕ) (t : Tables)
      → n < r.nkp
      → KpsPlaced n t
      → Returns (tw_kp_onpe r n t) (λ t'. KpsPlaced (suc n) t' × (t'.lps ≡ t.lps))
  unfolding tw_kp_onpe
  kp_onpe-Placed n t h k =
      let e : KpEntry = record { id = n; pe = r.pe; lp_count = 0 } in
      let room : leb r.nkp n ≡ false = ground arith in
      (
        record t { kps = put t.kps n (some e) },
        rw (room, k.free n (omega arith)) refl,
        (
          record {
            done = λ j l. elim (ℕ_discrete j n) [
              | yes q ↦ (e, ground arith)
              | no q ↦ ((k.done j (omega arith)).0, ground (arith, (k.done j (omega arith)).1))
            ];
            free = λ j l. ground (arith, k.free j (omega arith));
          },
          refl,
        ),
      )

  -- One process is placed on a kernel process that is there.
  pub place-Placed :
      (gid kp : ℕ → ℕ) (i n : ℕ) (t : Tables)
      → i < r.nlp + r.analysis_nlp
      → kp i < n
      → LpsPlaced r gid kp i t
      → KpsPlaced n t
      → Returns
          (tw_lp_onpe r i (gid i) t >>= tw_lp_onkp i (kp i))
          (λ t'. LpsPlaced r gid kp (suc i) t' × KpsPlaced n t')
  unfolding tw_lp_onpe tw_lp_onkp
  place-Placed gid kp i n t h l p k =
      let old : KpEntry = (k.done (kp i) l).0 in
      let there : t.kps (kp i) ≡ some old = (k.done (kp i) l).1 in
      let room : leb (r.nlp + r.analysis_nlp) i ≡ false = ground arith in
      let same : (i == i) ≡ true = ground arith in
      let lp : LpEntry = record { id = i; gid = gid i; pe = r.pe; kp = none } in
      let lp' : LpEntry = record { id = i; gid = gid i; pe = r.pe; kp = some (kp i) } in
      let kp' : KpEntry = record old { lp_count = old.lp_count + 1 } in
      let mid : ℕ → Option LpEntry = put t.lps i (some lp) in
      (
        record { lps = put mid i (some lp'); kps = put t.kps (kp i) (some kp') },
        rw (room, p.free i (omega arith), same, there) refl,
        (
          record {
            done = λ j m. elim (ℕ_discrete j i) [
              | yes q ↦ ground arith
              | no q ↦ ground (arith, p.done j (omega arith))
            ];
            free = λ j m. ground (arith, p.free j (omega arith));
          },
          record {
            done = λ j m. elim (ℕ_discrete j (kp i)) [
              | yes q ↦ (kp', ground arith)
              | no q ↦ ((k.done j m).0, ground (arith, (k.done j m).1))
            ];
            free = λ j m. ground (arith, k.free j m);
          },
        ),
      )
