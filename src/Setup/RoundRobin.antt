-- ===== src/Setup/RoundRobin.antt =====
-- `map_round_robin`, from empty tables.
use native.Mathlib.Nat.{mod-eq_of_lt, mod_self, add-mul-div_right, div-eq_of_lt}
use ross.Prelude.{
  ℕ, zero, suc, ◌+◌, ◌*◌, ◌/◌, ◌%◌, ◌<◌, ◌≤◌, ◌≡◌, refl, ap, ◌∙◌, none, some, ℕ_discrete, subst,
  arith,
}
use ross.Queue.Pq.{Run, ◌>>=◌}
use ross.Setup.{
  Tables, Rank, tw_kp_onpe, tw_lp_onpe, tw_lp_onkp, round_robin_loop, map_round_robin,
  getlocal_round_robin, empty,
}
use ross.Setup.Placed.{
  LpsPlaced, KpsPlaced, Returns, kp_onpe-Placed, place-Placed, LpsPlaced-same, bind_assoc,
}

assoc3 :
    {A B C D : Type 0} (x : Run A) (f : A → Run B) (g : B → Run C) (h : C → Run D)
    → (x >>= (λ a. f a >>= (λ b. g b >>= h))) ≡ ((x >>= (λ a. f a >>= g)) >>= h)
assoc3 none f g h = refl
assoc3 (some a) f g h = bind_assoc (f a) g h

module _ (r : Rank) where
  abbrev pub global : ℕ → ℕ
  global i = r.mynode + i * r.nnodes

  abbrev pub kernel : ℕ → ℕ
  kernel i = i % r.nkp

  pub record Placed (i : ℕ) (t : Tables) : Type 0 where
    pub lps : LpsPlaced r global kernel i t
    pub kps : KpsPlaced i t

  -- The two tables are independent, so the kernel process may come first.
  onpe_comm :
      (i gid k : ℕ) (t : Tables) (f : Tables → Run Tables)
      → (tw_lp_onpe r i gid t >>= (λ t1. tw_kp_onpe r k t1 >>= f))
        ≡ (tw_kp_onpe r k t >>= (λ t1. tw_lp_onpe r i gid t1 >>= f))
  unfolding tw_lp_onpe tw_kp_onpe
  onpe_comm i gid k t f = ground arith

  -- While kernel processes are left, a step places one process.
  step-Placed :
      (i : ℕ) (t : Tables)
      → i < r.nlp
      → i < r.nkp
      → Placed i t
      → Returns
          (tw_kp_onpe r (kernel i) t
            >>= (λ t1. tw_lp_onpe r i (global i) t1 >>= tw_lp_onkp i (kernel i)))
          (Placed (suc i))
  step-Placed i t h l p =
      let (t1, e1, (k1, q)) : Returns (tw_kp_onpe r (kernel i) t)
          (λ t'. KpsPlaced (suc i) t' × (t'.lps ≡ t.lps)) =
        rw (mod-eq_of_lt l) (kp_onpe-Placed r i t l p.kps) in
      let (t2, e2, (l2, k2)) : Returns (tw_lp_onpe r i (global i) t1 >>= tw_lp_onkp i (kernel i))
          (λ t'. LpsPlaced r global kernel (suc i) t' × KpsPlaced (suc i) t') =
        place-Placed r global kernel i (suc i) t1 (omega arith) (rw (mod-eq_of_lt l) (omega arith))
          (LpsPlaced-same r global kernel i t t1 q p.lps) k1 in
      (t2, rw (e1, e2) refl, record { lps = l2; kps = k2 })

  local_of_global : (i : ℕ) → r.mynode < r.nnodes → global i / r.nnodes ≡ i
  local_of_global i l =
      add-mul-div_right r.mynode i (omega arith) ∙ ap (λ q. q + i) (div-eq_of_lt l) ∙ omega arith

  empty-Placed : Placed 0 empty
  unfolding empty
  empty-Placed = record {
    lps = record { done = λ j l. absurd (omega arith); free = λ j l. refl };
    kps = record { done = λ j l. absurd (omega arith); free = λ j l. refl };
  }

  loop-suc :
      (n i : ℕ) (t : Tables)
      → round_robin_loop (suc n) i (global i) r t ≡ (
          tw_kp_onpe r (kernel i) t
          >>= (λ t1. tw_lp_onpe r i (global i) t1 >>= tw_lp_onkp i (kernel i))
          >>= round_robin_loop n (suc i) (global (suc i)) r)
  unfolding round_robin_loop
  loop-suc n i t =
      let next : global i + r.nnodes ≡ global (i + 1) = omega arith in
      let one : i + 1 ≡ suc i = omega arith in
      onpe_comm i (global i) (kernel i) t _
      ∙ assoc3 (tw_kp_onpe r (kernel i) t) (tw_lp_onpe r i (global i)) (tw_lp_onkp i (kernel i)) _
      ∙ ap
          (λ g.
            (tw_kp_onpe r (kernel i) t
              >>= (λ t1. tw_lp_onpe r i (global i) t1 >>= tw_lp_onkp i (kernel i)))
            >>= round_robin_loop n (i + 1) g r)
          next
      ∙ ap
          (λ j.
            (tw_kp_onpe r (kernel i) t
              >>= (λ t1. tw_lp_onpe r i (global i) t1 >>= tw_lp_onkp i (kernel i)))
            >>= round_robin_loop n j (global j) r)
          one

  -- The loop from the `i`-th process on, `n` being left.
  loop-Placed :
      (n i : ℕ) (t : Tables)
      → i + n ≡ r.nlp
      → r.nlp ≤ r.nkp
      → Placed i t
      → Returns (round_robin_loop n i (global i) r t) (Placed r.nlp)
  unfolding round_robin_loop
  loop-Placed zero i t q h p = (t, refl, subst (λ m. Placed m t) (omega arith) p)
  loop-Placed (suc n) i t q h p =
      let (t1, e1, p1) = step-Placed i t (omega arith) (omega arith) p in
      let (t2, e2, p2) = loop-Placed n (suc i) t1 (omega arith) h p1 in
      (t2, rw (loop-suc n i t, e1) e2, p2)

  kp_onpe-again : (i : ℕ) (t : Tables) → 0 < i → Placed i t → tw_kp_onpe r 0 t ≡ none
  unfolding tw_kp_onpe
  kp_onpe-again i t h p = ground (arith, (p.kps.done 0 h).1)

  -- After `nkp` processes the first kernel process is asked for again.
  loop-fails :
      (n i : ℕ) (t : Tables)
      → i + n ≡ r.nlp
      → i ≤ r.nkp
      → 1 ≤ r.nkp
      → r.nkp < r.nlp
      → Placed i t
      → round_robin_loop n i (global i) r t ≡ none
  unfolding round_robin_loop
  loop-fails zero i t q l o h p = absurd (omega arith)
  loop-fails (suc n) i t q l o h p = rw (loop-suc n i t) (elim (ℕ_discrete i r.nkp) [
    | yes e ↦ rw (ap kernel e, mod_self r.nkp, kp_onpe-again i t (omega arith) p) refl
    | no e ↦
        let (t1, e1, p1) = step-Placed i t (omega arith) (omega arith) p in
        rw e1 (loop-fails n (suc i) t1 (omega arith) (omega arith) o h p1)
  ])

  map_round_robin_lem : (t : Tables) → map_round_robin r t ≡ round_robin_loop r.nlp 0 (global 0) r t
  unfolding map_round_robin
  map_round_robin_lem t =
      let start : r.mynode ≡ global 0 = omega arith in
      ap (λ g. round_robin_loop r.nlp 0 g r t) start

  getlocal-Placed :
      (t : Tables) (i : ℕ)
      → r.mynode < r.nnodes
      → i < r.nlp
      → Placed r.nlp t
      → getlocal_round_robin r t (global i)
        ≡ some (record { id = i; gid = global i; pe = r.pe; kp = some (i % r.nkp) })
  unfolding getlocal_round_robin
  getlocal-Placed t i l h p = ap t.lps (local_of_global i l) ∙ p.lps.done i h

-- With a kernel process for each logical process, and the rank's number below the number of ranks,
-- `map_round_robin` succeeds from empty tables, and `tw_getlocal_lp` then finds, for each `i` below
-- the number of logical processes, the `i`-th of them by its global number `mynode + i * nnodes`, on
-- the kernel process `i % nkp`.
pub getlocal_round_robin-map_round_robin :
    (r : Rank) (i : ℕ)
    → r.nlp ≤ r.nkp
    → r.mynode < r.nnodes
    → i < r.nlp
    → (map_round_robin r empty >>= (λ t. getlocal_round_robin r t (r.mynode + i * r.nnodes)))
      ≡ some (record { id = i; gid = r.mynode + i * r.nnodes; pe = r.pe; kp = some (i % r.nkp) })
getlocal_round_robin-map_round_robin r i h l m =
    let (t, e, p) = loop-Placed r r.nlp 0 empty (omega arith) h (empty-Placed r) in
    rw (map_round_robin_lem r empty, e) (getlocal-Placed r t i l m p)

-- With at least one kernel process and fewer of them than logical processes `map_round_robin` ends
-- in `tw_error`.
pub map_round_robin-none : (r : Rank) → 1 ≤ r.nkp → r.nkp < r.nlp → map_round_robin r empty ≡ none
map_round_robin-none r o h =
    map_round_robin_lem r empty
    ∙ loop-fails r r.nlp 0 empty (omega arith) (omega arith) o h (empty-Placed r)
