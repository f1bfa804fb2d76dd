-- ===== src/Kernel/Create.antt =====
-- `tw_event_grab` and `tw_event_new_user_prio` of core/ross-inline.h, and `tw_event_send` of
-- core/tw-event.c, for one request of an event handler.
use ross.Prelude.{
  ℕ, ◌+◌, ◌%◌, ◌^◌, Bool, false, Option, none, some, List, [], ◌∷◌, ◌++◌, ◌==◌, ltb, leb, length,
  if◌then◌else◌,
}
use ross.Event.Compare.{tw_pq_compare_less_than_rand}
use ross.Queue.Tree.{Ptr}
use ross.Queue.Pq.{Run, ◌>>=◌, set_owner, tw_pq_enqueue}
use ross.Kernel.Machine.{Machine, Request}
use ross.Kernel.State.{World, write, set_pe}
use ross.Kernel.Output.{tw_free_output_messages}

-- `g_tw_synchronization_protocol`, as far as it matters here.
pub data Protocol : Type 0 where
  sequential : Protocol
  conservative : Protocol
  optimistic : Protocol

-- The constants of a run: `g_tw_ts_end`, `g_tw_mynode`, `MAX_TIE_CHAIN`, the rank of 1.0, and the
-- test for a lookahead violation, of the time sent from and the time sent to.
pub record Config : Type 0 where
  pub protocol : Protocol
  pub ts_end : ℕ
  pub mynode : ℕ
  pub max_tie_chain : ℕ
  pub one : ℕ
  pub too_early : ℕ → ℕ → Bool

-- `tw_eventq_pop`: the last event of the list, and the others.
unfoldable pub split_last : Ptr → List Ptr → List Ptr × Ptr
split_last x [] = ([], x)
split_last x (y ∷ ys) = let (rest, last) = split_last y ys in (x ∷ rest, last)

-- The tie breakers of the new event; `none` is a chain that is too long.
unfoldable pub lineage : Config → ℕ → ℕ → List ℕ → Run (List ℕ)
lineage c offset_ts u now =
    if offset_ts == 0
    then (if leb c.max_tie_chain (length now) then none else some (now ++ u ∷ []))
    else some (u ∷ [])

module _ {m : Machine} where
  abbrev pub less_than : World m → Ptr → Ptr → Option Bool
  less_than w n e = tw_pq_compare_less_than_rand (w.keys n) (w.keys e)

  abbrev pub tw_now : World m → ℕ → ℕ
  tw_now w lp = (w.kps (w.lps lp).kp).last_sig.recv_ts

  -- `tw_pq_enqueue(pe->pq, e)`
  unfoldable pub enqueue : Ptr → World m → Run (World m)
  enqueue e w =
      tw_pq_enqueue (less_than w) w.pe.pq e >>= λ pq. some (set_pe w (record w.pe { pq = pq }))

  -- The fields of a buffer that `tw_event_grab` clears; `0` is no owner.
  unfoldable pub tw_event_grab : World m → Option (Ptr × World m)
  unfolding split_last
  tw_event_grab w = elim w.pe.free_q [
    | [] ↦ none
    | x ∷ xs ↦
        let (rest, e) = split_last x xs in
        let pq = record w.pe.pq { owner = set_owner w.pe.pq.owner e 0 } in
        some (
          e,
          record w {
            bufs = write w.bufs e (record (w.bufs e) { caused_by_me = []; cancel_q = false });
            keys = write w.keys e (record (w.keys e) { event_id = 0 });
            pe = record w.pe { pq = pq; free_q = rest };
          },
        )
  ]

  -- `g_tw_min_detected_offset`, which a conservative run keeps.
  unfoldable pub note_offset : Config → ℕ → World m → World m
  note_offset c offset_ts w = elim c.protocol [
    | conservative ↦
        if ltb offset_ts w.min_detected_offset
        then record w { min_detected_offset = offset_ts }
        else w
    | _ ↦ w
  ]

  -- Without a free event an optimistic run uses the abort event, any other stops.
  unfoldable pub or_abort : Config → World m → Option (Ptr × World m) → Run (Ptr × World m)
  or_abort c w (some grabbed) = some grabbed
  or_abort c w none = elim c.protocol [ optimistic ↦ some (w.pe.abort_event, w) | _ ↦ none ]

  -- The event that a new one uses, with the count of events past the end.
  unfoldable pub pick : Config → ℕ → World m → Run (Ptr × World m)
  unfolding or_abort
  pick c recv_ts w =
      if leb c.ts_end recv_ts
      then some (
        w.pe.abort_event,
        set_pe w (record w.pe { s_events_past_end = w.pe.s_events_past_end + 1 }),
      )
      else or_abort c w (tw_event_grab w)

  -- The fields of the event that is made, and the generator of its sender.
  unfoldable pub fill : ℕ → Request m.Message → m.Rng → List ℕ → ℕ → ℕ → Ptr → World m → World m
  fill sender r rng tiebreaker now recv_ts e w = record w {
    keys = write w.keys e (record (w.keys e) {
      recv_ts = recv_ts;
      send_pe = w.pe.id;
      dest_gid = r.dest_gid;
      sig = record { recv_ts = recv_ts; priority = r.prio; event_tiebreaker = tiebreaker };
    });
    bufs = write w.bufs e (record (w.bufs e) {
      dest_lp = r.dest_gid;
      src_lp = sender;
      send_ts = now;
      critical_path = ((w.lps sender).critical_path + 1) % 2 ^ 32;
      aborted_total = 0;
      message = r.message;
    });
    lps = write w.lps sender (record (w.lps sender) { core_rng = rng });
  }

  -- `tw_event_new_user_prio(dest_gid, offset_ts, sender, prio)`, and the message that is put into the
  -- event. No offset is negative.
  unfoldable pub tw_event_new_user_prio :
      Config → ℕ → Request m.Message → World m → Run (Ptr × World m)
  unfolding pick lineage fill
  tw_event_new_user_prio c sender r w0 =
      let now = tw_now w0 sender in
      let recv_ts = m.stime_add now r.offset_ts in
      let (u, rng) = m.rand_unif (w0.lps sender).core_rng in
      if ltb c.one r.prio then none else do
        (e, w) ← pick c recv_ts (note_offset c r.offset_ts w0)
        tiebreaker ← lineage c r.offset_ts u (w.keys w.pe.cur_event).sig.event_tiebreaker
        some (e, tw_free_output_messages e (fill sender r rng tiebreaker now recv_ts e w))
