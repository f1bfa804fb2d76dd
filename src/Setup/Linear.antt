-- ===== src/Setup/Linear.antt =====
-- `map_linear`, from empty tables.
use native.Mathlib.Nat.{div-eq_of_lt-le, mul_comm}
use ross.Prelude.{
  ℕ, zero, suc, ◌+◌, ◌-◌, ◌*◌, ◌/◌, ◌<◌, ◌≤◌, ◌≡◌, refl, sym, ap, ◌∙◌, ◌⊎◌, inl, inr, some, true,
  false, ◌==◌, ltb, ℕ_discrete, subst, arith,
}
use ross.Queue.Pq.{Run, ◌>>=◌}
use ross.Setup.{
  Tables, Rank, tw_lp_onpe, tw_lp_onkp, fill_kp, linear_loop, check_last, map_linear,
  getlocal_linear, empty,
}
use ross.Setup.Placed.{
  LpsPlaced, KpsPlaced, Returns, kp_onpe-Placed, place-Placed, LpsPlaced-same, bind_assoc,
}

module _ (r : Rank) (per : ℕ) where
  abbrev pub global : ℕ → ℕ
  global i = r.mynode * r.nlp + i

  abbrev pub kernel : ℕ → ℕ
  kernel i = i / per

  -- `i` logical and `k` kernel processes are placed; the last kernel process of them is full, or
  -- no logical process is left.
  pub record Placed (i k : ℕ) (t : Tables) : Type 0 where
    pub lps : LpsPlaced r global kernel i t
    pub kps : KpsPlaced k t
    pub below : i ≤ r.nlp

  abbrev Filled : ℕ → Run (ℕ × Tables) → Type 0
  Filled k x =
      (out : ℕ × Tables) × (x ≡ some out)
      × Placed (out.0) (suc k) (out.1)
      × ((out.0 ≡ r.nlp) ⊎ (out.0 ≡ k * per + per))

  fill_kp-suc :
      (j k i : ℕ) (t : Tables)
      → i < r.nlp
      → kernel i ≡ k
      → fill_kp (suc j) k i r t
        ≡ (tw_lp_onpe r i (global i) t >>= tw_lp_onkp i (kernel i) >>= fill_kp j k (suc i) r)
  unfolding fill_kp
  fill_kp-suc j k i t h q =
      let room : ltb i r.nlp ≡ true = ground arith in
      let one : i + 1 ≡ suc i = omega arith in
      rw (room, q, one) (bind_assoc (tw_lp_onpe r i (global i) t) (tw_lp_onkp i k) _)

  fill_kp-Placed :
      (j k i : ℕ) (t : Tables)
      → k * per ≤ i
      → i + j ≡ k * per + per
      → Placed i (suc k) t
      → Filled k (fill_kp j k i r t)
  unfolding fill_kp
  fill_kp-Placed zero k i t a q p = ((i, t), refl, p, inr (omega arith))
  fill_kp-Placed (suc j) k i t a q p = elim (ℕ_discrete i r.nlp) [
    | yes e ↦ let stop : ltb i r.nlp ≡ false = ground arith in ((i, t), rw stop refl, p, inl e)
    | no e ↦
        let i<nlp : i < r.nlp = (let b : i ≤ r.nlp = p.below in omega arith) in
        let same : kernel i ≡ k = div-eq_of_lt-le per a (omega arith) in
        let (t1, e1, (l1, k1)) =
          place-Placed r global kernel i (suc k) t (omega arith) (rw same (omega arith)) p.lps
            p.kps in
        let p1 : Placed (suc i) (suc k) t1 = record { lps = l1; kps = k1; below = i<nlp } in
        let (out, e2, p2, c) = fill_kp-Placed j k (suc i) t1 (omega arith) (omega arith) p1 in
        (out, fill_kp-suc j k i t i<nlp same ∙ rw e1 e2, p2, c)
  ]

  fill_kp-full : (j k : ℕ) (t : Tables) → fill_kp j k r.nlp r t ≡ some (r.nlp, t)
  unfolding fill_kp
  fill_kp-full zero k t = refl
  fill_kp-full (suc j) k t = (let stop : ltb r.nlp r.nlp ≡ false = ground arith in rw stop refl)

  abbrev Reached : ℕ → ℕ → Type 0
  Reached k i = (i ≡ r.nlp) ⊎ (i ≡ k * per)

  fill_kp-Reached :
      (k i : ℕ) (t : Tables) → Reached k i → Placed i (suc k) t → Filled k (fill_kp per k i r t)
  fill_kp-Reached k i t (inl e) p = (
    (i, t),
    subst (λ m. fill_kp per k m r t ≡ some (m, t)) (sym e) (fill_kp-full per k t),
    p,
    inl e,
  )
  fill_kp-Reached k i t (inr e) p = fill_kp-Placed per k i t (omega arith) (omega arith) p

  loop-Placed :
      (n k i : ℕ) (t : Tables)
      → k + n ≡ r.nkp_per_pe
      → r.nkp_per_pe ≤ r.nkp
      → Reached k i
      → Placed i k t
      → Returns
          (linear_loop n per k i r t)
          (λ t'. (i' : ℕ) × Reached r.nkp_per_pe i' × Placed i' r.nkp_per_pe t')
  unfolding linear_loop
  loop-Placed zero k i t q h c p =
      let e : k ≡ r.nkp_per_pe = omega arith in
      (t, refl, (i, subst (λ m. Reached m i) e c, subst (λ m. Placed i m t) e p))
  loop-Placed (suc n) k i t q h c p =
      let (t1, e1, (k1, same)) = kp_onpe-Placed r k t (omega arith) p.kps in
      let p1 : Placed i (suc k) t1 = record {
        lps = LpsPlaced-same r global kernel i t t1 same p.lps;
        kps = k1;
        below = p.below;
      } in
      let ((i2, t2), e2, p2, c2) = fill_kp-Reached k i t1 c p1 in
      let next : Reached (suc k) i2 = elim c2 [ inl e ↦ inl e | inr e ↦ inr (omega arith) ] in
      let (t3, e3, p3) = loop-Placed n (suc k) i2 t2 (omega arith) h next p2 in
      let one : k + 1 ≡ suc k = omega arith in (t3, rw (one, e1, e2) e3, p3)

  all-Placed :
      (i : ℕ) (t : Tables)
      → r.nlp ≤ r.nkp_per_pe * per
      → Reached r.nkp_per_pe i
      → Placed i r.nkp_per_pe t
      → Placed r.nlp r.nkp_per_pe t
  all-Placed i t h c p =
      let b : i ≤ r.nlp = p.below in
      let e : i ≡ r.nlp = elim c [ inl e ↦ e | inr e ↦ omega arith ] in
      subst (λ m. Placed m r.nkp_per_pe t) e p

  empty-Placed : Placed 0 0 empty
  unfolding empty
  empty-Placed = record {
    lps = record { done = λ j l. absurd (omega arith); free = λ j l. refl };
    kps = record { done = λ j l. absurd (omega arith); free = λ j l. refl };
    below = omega arith;
  }

  check_last-Placed :
      (t : Tables) → 1 ≤ r.nlp → Placed r.nlp r.nkp_per_pe t → check_last r t ≡ some t
  unfolding check_last
  check_last-Placed t h p =
      let same : (r.mynode * r.nlp + (r.nlp - 1) == r.mynode * r.nlp + r.nlp - 1) ≡ true =
        ground arith in
      rw (p.lps.done (r.nlp - 1) (omega arith), same) refl

  getlocal-Placed :
      (t : Tables) (i : ℕ)
      → i < r.nlp
      → Placed r.nlp r.nkp_per_pe t
      → getlocal_linear r t (global i)
        ≡ some (record { id = i; gid = global i; pe = r.pe; kp = some (i / per) })
  unfolding getlocal_linear
  getlocal-Placed t i h p =
      let there : global i - r.mynode * r.nlp ≡ i = omega arith in ap t.lps there ∙ p.lps.done i h

-- `ceil((double) a / (double) b)` in the range where the quotient is exact enough.
pub record IsCeil (a b c : ℕ) : Type 0 where
  pub le : a ≤ c * b
  pub lt : c * b < a + b

pos_of_IsCeil : (a b c : ℕ) → 1 ≤ a → IsCeil a b c → 1 ≤ c
pos_of_IsCeil a b zero h q = (let l : a ≤ 0 * b = q.le in absurd (omega arith))
pos_of_IsCeil a b (suc c) h q = omega arith

-- With as many kernel processes asked for as `g_tw_nkp` says, and the quotient rounded up,
-- `map_linear` succeeds from empty tables, and `tw_getlocal_lp` then finds, for each `i` below the
-- number of logical processes, the `i`-th of them by its global number `mynode * nlp + i`, on the
-- kernel process `i / nlp_per_kp`.
pub getlocal_linear-map_linear :
    (ceil_div : ℕ → ℕ → ℕ) (r : Rank) (i : ℕ)
    → IsCeil r.nlp r.nkp (ceil_div r.nlp r.nkp)
    → r.nkp_per_pe ≡ r.nkp
    → i < r.nlp
    → (map_linear ceil_div r empty >>= (λ t. getlocal_linear r t (r.mynode * r.nlp + i)))
      ≡ some (record {
        id = i;
        gid = r.mynode * r.nlp + i;
        pe = r.pe;
        kp = some (i / ceil_div r.nlp r.nkp);
      })
unfolding map_linear
getlocal_linear-map_linear ceil_div r i q h b =
    let per : ℕ = ceil_div r.nlp r.nkp in
    let o : 1 ≤ r.nlp = omega arith in
    let l : 1 ≤ per = pos_of_IsCeil r.nlp r.nkp per o q in
    let le : r.nlp ≤ per * r.nkp = q.le in
    let m : r.nlp ≤ r.nkp_per_pe * per = rw (h, mul_comm r.nkp per) le in
    let (t, e, (j, c, p)) =
      loop-Placed r per r.nkp_per_pe 0 0 empty (omega arith) (omega arith) (inr (omega arith))
        (empty-Placed r per) in
    let all = all-Placed r per j t m c p in
    let some_per : (per == 0) ≡ false = ground arith in
    rw (some_per, e, check_last-Placed r per t o all) (getlocal-Placed r per t i b all)
