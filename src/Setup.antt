-- ===== src/Setup.antt =====
-- The maps of logical processes to kernel processes of core/tw-setup.c, with `tw_kp_onpe` of
-- core/tw-kp.c, `tw_lp_onpe` and `tw_lp_onkp` of core/tw-lp.c and `tw_getlocal_lp` of
-- core/ross-kernel-inline.h.
pub mod Placed
pub mod RoundRobin
pub mod Linear
use ross.Prelude.{
  ℕ, zero, suc, ◌+◌, ◌-◌, ◌*◌, ◌/◌, ◌%◌, Bool, true, false, Option, none, some, ◌==◌, ltb, leb,
  ◌&&◌, if◌then◌else◌,
}
use ross.Queue.Pq.{Run, ◌>>=◌}

-- What the set-up writes of `tw_lp` and `tw_kp`.
pub record LpEntry : Type 0 where
  pub id : ℕ
  pub gid : ℕ
  pub pe : ℕ
  pub kp : Option ℕ

pub record KpEntry : Type 0 where
  pub id : ℕ
  pub pe : ℕ
  pub lp_count : ℕ

-- `g_tw_lp` and `g_tw_kp`; `none` is `NULL`.
pub record Tables : Type 0 where
  pub lps : ℕ → Option LpEntry
  pub kps : ℕ → Option KpEntry

-- The globals of a rank: `g_tw_nlp`, `g_st_analysis_nlp`, `g_tw_nkp`, `nkp_per_pe`, `g_tw_mynode`,
-- `tw_nnodes()` and the number of `g_tw_pe`.
pub record Rank : Type 0 where
  pub nlp : ℕ
  pub analysis_nlp : ℕ
  pub nkp : ℕ
  pub nkp_per_pe : ℕ
  pub mynode : ℕ
  pub nnodes : ℕ
  pub pe : ℕ

abbrev pub put : {A : Type 0} → (ℕ → A) → ℕ → A → ℕ → A
put f i v j = if j == i then v else f j

abbrev pub is_null : {A : Type 0} → Option A → Bool
is_null none = true
is_null (some a) = false

unfoldable pub tw_kp_onpe : Rank → ℕ → Tables → Run Tables
tw_kp_onpe r id t =
    if leb r.nkp id
    then none
    else if is_null (t.kps id)
    then some (record t { kps = put t.kps id (some (record { id = id; pe = r.pe; lp_count = 0 })) })
    else none

unfoldable pub tw_lp_onpe : Rank → ℕ → ℕ → Tables → Run Tables
tw_lp_onpe r id gid t =
    if leb (r.nlp + r.analysis_nlp) id
    then none
    else if is_null (t.lps id)
    then some (record t {
      lps = put t.lps id (some (record { id = id; gid = gid; pe = r.pe; kp = none }));
    })
    else none

-- `tw_lp_onkp(g_tw_lp[i], g_tw_kp[k])`; a null `tw_kp` is a fault.
unfoldable pub tw_lp_onkp : ℕ → ℕ → Tables → Run Tables
tw_lp_onkp i k t = do
  lp ← t.lps i
  kp ← t.kps k
  some (record {
    lps = put t.lps i (some (record lp { kp = some k }));
    kps = put t.kps k (some (record kp { lp_count = kp.lp_count + 1 }));
  })

-- The loop of `map_round_robin`, for `n` more processes from the `i`-th on.
unfoldable pub round_robin_loop : ℕ → ℕ → ℕ → Rank → Tables → Run Tables
round_robin_loop zero i lpid r t = some t
round_robin_loop (suc n) i lpid r t = do
  let kpid = i % r.nkp
  t1 ← tw_lp_onpe r i lpid t
  t2 ← tw_kp_onpe r kpid t1
  t3 ← tw_lp_onkp i kpid t2
  round_robin_loop n (i + 1) (lpid + r.nnodes) r t3

unfoldable pub map_round_robin : Rank → Tables → Run Tables
unfolding round_robin_loop
map_round_robin r t = round_robin_loop r.nlp 0 r.mynode r t

-- The inner loop of `map_linear`, for `j` more processes on the kernel process `kpid`.
unfoldable pub fill_kp : ℕ → ℕ → ℕ → Rank → Tables → Run (ℕ × Tables)
fill_kp zero kpid lpid r t = some (lpid, t)
fill_kp (suc j) kpid lpid r t =
    let next : Run (ℕ × Tables) = do
      t1 ← tw_lp_onpe r lpid (r.mynode * r.nlp + lpid) t
      t2 ← tw_lp_onkp lpid kpid t1
      fill_kp j kpid (lpid + 1) r t2
    in if ltb lpid r.nlp then next else some (lpid, t)

-- The outer loop, for `n` more kernel processes.
unfoldable pub linear_loop : ℕ → ℕ → ℕ → ℕ → Rank → Tables → Run Tables
linear_loop zero per kpid lpid r t = some t
linear_loop (suc n) per kpid lpid r t = do
  t1 ← tw_kp_onpe r kpid t
  (lpid', t2) ← fill_kp per kpid lpid r t1
  linear_loop n per (kpid + 1) lpid' r t2

-- The check behind the loops: the last process is there and has the last number.
unfoldable pub check_last : Rank → Tables → Run Tables
check_last r t = do
  lp ← t.lps (r.nlp - 1)
  if lp.gid == r.mynode * r.nlp + r.nlp - 1 then some t else none

-- `map_linear`, with `ceil((double) g_tw_nlp / (double) g_tw_nkp)` given.
unfoldable pub map_linear : (ℕ → ℕ → ℕ) → Rank → Tables → Run Tables
unfolding linear_loop check_last
map_linear ceil_div r t =
    let per = ceil_div r.nlp r.nkp in
    if per == 0 then none else (linear_loop r.nkp_per_pe per 0 0 r t >>= check_last r)

-- The cases of `tw_getlocal_lp` for the processes of the model.
unfoldable pub getlocal_round_robin : Rank → Tables → ℕ → Option LpEntry
getlocal_round_robin r t gid = t.lps (gid / r.nnodes)

unfoldable pub getlocal_linear : Rank → Tables → ℕ → Option LpEntry
getlocal_linear r t gid = t.lps (gid - r.mynode * r.nlp)

-- Before the map, `tw_calloc` has cleared both tables.
pub empty : Tables
empty = record { lps = λ i. none; kps = λ k. none }
