-- ===== src/Examples/Simulation.antt =====
-- A small simulation: three events and one kernel process.
use ross.Prelude.{
  ℕ, ◌+◌, ◌-◌, ◌≡◌, ◌≢◌, refl, sym, ap, ◌∙◌, subst, inl, inr, Bool, false, some, List, [], ◌∷◌, Has,
  ◌==◌, ◌<◌, ltb, if◌then◌else◌, ℕ_discrete, arith,
}
use ross.Event.{TwEvent, TwEventSig}
use ross.Event.Compare.{tw_pq_compare_less_than_rand}
use ross.Queue.Tree.{Ptr, leaf, node, to_list}
use ross.Queue.Pq.{TwPq, pe_pq}
use ross.Kernel.Machine.{Machine, Request}
use ross.Kernel.State.{World}
use ross.Kernel.Pending.{NoTie, IsHeld}
use ross.Kernel.Frame.{StepsBack}
use ross.Kernel.Ready.{Entry, Ready}

abbrev pub sig_at : ℕ → TwEventSig
sig_at t = record { recv_ts = t; priority = 0; event_tiebreaker = [] }

-- The time stamp of an event is its address; buffers from 8 on were never used, and are all zero.
abbrev pub IsLive : Ptr → Type 0
IsLive p = p < 8

abbrev pub keys_at : Ptr → TwEvent
keys_at p = record {
  recv_ts = if ltb p 8 then p else 0;
  sig = sig_at (if ltb p 8 then p else 0);
  event_id = p;
  send_pe = 0;
  send_lp = 0;
  dest_gid = 0;
}

abbrev pub one_request : List (Request ℕ)
one_request = record { dest_gid = 0; offset_ts = 1; prio = 0; message = 2 } ∷ []

-- An event adds its message to the state and sends one event; the generator counts.
abbrev pub counting : Machine
counting = record {
  State = ℕ;
  Bitfield = Bool;
  Message = ℕ;
  Rng = ℕ;
  Net = List Ptr;
  Buddy = List Ptr;
  event =
      λ lp now s cv msg. record { state = s + msg; cv = cv; message = msg; requests = one_request };
  revent = λ lp now s cv msg. (s - msg, cv, msg);
  lp_map = λ gid. 0;
  getlocal_lp = λ gid. gid;
  zero_bitfield = false;
  stime_add = λ a b. a + b;
  rand_unif = λ g. (g, g + 1);
  rand_reverse_unif = λ g. some (g - 1);
  net_send = λ p k msg o n. (o, p ∷ n);
  net_cancel = λ p k pe n. (pe, n);
  buddy_free = λ p b. p ∷ b;
}

abbrev pub counting-StepsBack : StepsBack counting
counting-StepsBack g = (g - 1, refl)

pub keys_at-NoTie : NoTie keys_at IsLive
unfolding tw_pq_compare_less_than_rand
keys_at-NoTie a b la lb n = ground arith

-- Events 3 and 5 are processed, and event 5 was caused by event 3; event 7 is in the queue, caused
-- by event 5. Event 4 has the owner that is given.
abbrev pub owners : ℕ → Ptr → ℕ
owners a p =
    if p == 7 then 2 else if p == 3 then 3 else if p == 5 then 3 else if p == 4 then a else 0

abbrev pub causes : Ptr → List Ptr
causes p = if p == 3 then 5 ∷ [] else if p == 5 then 7 ∷ [] else []

abbrev pub queue_of_seven : (Ptr → ℕ) → TwPq
queue_of_seven owner = record {
  root = node leaf 7 leaf;
  least = 7;
  nitems = 1;
  max_size = 1;
  owner = owner;
}

abbrev pub world : (Ptr → ℕ) → World counting
world owner = record {
  keys = keys_at;
  bufs = λ p. record {
    dest_lp = 0;
    src_lp = 0;
    send_ts = 0;
    critical_path = 0;
    caused_by_me = causes p;
    cancel_q = false;
    aborted_total = 0;
    out_msgs = [];
    delta_buddy = 0;
    cv = false;
    message = p;
  };
  lps = λ i. record {
    gid = i;
    kp = 0;
    cur_state = 3;
    core_rng = 2;
    critical_path = 0;
    suspend_flag = false;
    suspend_event = 0;
    suspend_sig = sig_at 0;
    suspend_error_number = 0;
    suspend_do_orig_event_rc = false;
  };
  kps = λ k. record {
    last_sig = sig_at 5;
    pevent_q = 5 ∷ 3 ∷ [];
    output = [];
    s_nevent_processed = 2;
    s_e_rbs = 0;
    s_rb_total = 0;
    s_rb_secondary = 0;
  };
  pe = record {
    id = 0;
    pq = queue_of_seven owner;
    event_q = [];
    cancel_q = [];
    free_q = 8 ∷ [];
    cur_event = 5;
    abort_event = 9;
    cev_abort = false;
    gvt_sig = sig_at 0;
    trans_msg_sig = sig_at 0;
    gvt_inprogress = false;
    seq_num = 0;
    s_events_past_end = 0;
    s_nsend_net_remote = 0;
    s_nevent_abort = 0;
  };
  min_detected_offset = 0;
  net = [];
  buddy = [];
}

queue_of_seven-IsHeld :
    (owner : Ptr → ℕ)
    → owner 7 ≡ pe_pq
    → ((p : Ptr) → p ≢ 7 → owner p ≢ pe_pq)
    → IsHeld keys_at IsLive (queue_of_seven owner)
unfolding to_list
queue_of_seven-IsHeld owner o other = record {
  valid = record { sorted = (tt, tt); least = refl; counted = refl; allocated = (omega arith, tt) };
  inside = λ p h. elim h [ inl q ↦ ap owner (sym q) ∙ o | inr z ↦ absurd z ];
  held = λ p q. elim (ℕ_discrete p 7) [ yes r ↦ inl (sym r) | no r ↦ absurd (other p r q) ];
  known = λ p q. elim (ℕ_discrete p 7) [ yes r ↦ omega arith | no r ↦ absurd (other p r q) ];
}

pub owners-IsHeld : (a : ℕ) → a ≢ 2 → IsHeld keys_at IsLive (queue_of_seven (owners a))
owners-IsHeld a h = queue_of_seven-IsHeld (owners a) refl (λ p n. ground arith)

only : (x y p : Ptr) → x ≢ y → Has p (x ∷ []) → ¬ Has p (y ∷ [])
only x y p n (inl a) (inl b) = n (a ∙ sym b)
only x y p n (inl a) (inr z) = absurd z
only x y p n (inr z) b = absurd z

Entry-of_five : (a : ℕ) → Entry (owners a) causes 5 (3 ∷ [])
Entry-of_five a = record {
  allocated = omega arith;
  processed = refl;
  distinct = (tt, tt);
  cancelable = λ c h. elim h [ inl r ↦ inl (ap (owners a) (sym r)) | inr z ↦ absurd z ];
  apart = λ y h. elim h [
    | inl r ↦ (
      ground arith,
      λ p u v. only 7 5 p (ground arith) u (subst (λ z. Has p (causes z)) (sym r) v),
    )
    | inr z ↦ absurd z
  ];
}

Entry-of_three : (a : ℕ) → Entry (owners a) causes 3 []
Entry-of_three a = record {
  allocated = omega arith;
  processed = refl;
  distinct = (tt, tt);
  cancelable = λ c h. elim h [ inl r ↦ inr (inr (ap (owners a) (sym r))) | inr z ↦ absurd z ];
  apart = λ y h. absurd h;
}

pub world-Ready : (a : ℕ) → Ready (owners a) causes (5 ∷ 3 ∷ [])
world-Ready a = (Entry-of_five a, (Entry-of_three a, tt))
