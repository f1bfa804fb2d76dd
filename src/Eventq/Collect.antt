-- ===== src/Eventq/Collect.antt =====
-- `tw_eventq_push_list` and `tw_eventq_fossil_collect` of core/tw-eventq.h: the part of a list that is
-- older than GVT moves to the free list. The loop over the moved events commits them and releases the
-- remote events that they had caused.
use ross.Prelude.{
  ℕ, zero, suc, ◌+◌, Bool, Option, none, some, List, [], ◌∷◌, ◌++◌, ◌==◌, if◌then◌else◌,
}
use ross.Queue.Tree.{Ptr, null}
use ross.Eventq.{Links, TwEventq, Store, write, set_next, set_prev, grow, shrink, tw_eventq_unshift}
use ross.Eventq.Alloc.{pe_free_q}

-- The links that `tw_eventq_push_list` sets, and the fields of the list.
unfoldable pub push_list_links : Links → TwEventq → Ptr → Ptr → Links
push_list_links σ q h t =
    let σ1 = set_next σ t q.head in
    let σ2 = if q.head == null then σ1 else set_prev σ1 q.head t in set_prev σ2 h null

unfoldable pub push_list_q : TwEventq → Ptr → Ptr → ℕ → TwEventq
push_list_q q h t cnt =
    grow (record q { head = h; tail = if q.tail == null then t else q.tail }) cnt

-- The loop of `tw_eventq_fossil_collect`: the last event that is not older, and the count.
unfoldable pub older_walk : ℕ → (Ptr → Ptr) → (Ptr → Bool) → Ptr → ℕ → Option (Ptr × ℕ)
older_walk zero prev older h cnt = none
older_walk (suc fuel) prev older h cnt =
    let rest = older_walk fuel prev older (prev h) (cnt + 1) in
    if h == null then some (h, cnt) else if older h then rest else some (h, cnt)

abbrev pub pe_sevent_q : ℕ
pe_sevent_q = 8

-- The links, a list and the free list, the owners and the `caused_by_me` of the events, and the
-- events in the order of their commits.
pub record Collecting : Type 0 where
  pub links : Links
  pub q : TwEventq
  pub free_q : TwEventq
  pub owner : Ptr → ℕ
  pub caused : Ptr → List Ptr
  pub commits : List Ptr

abbrev pub free_store : Collecting → Store
free_store s = record { links = s.links; q = s.free_q }

-- `if(cev->state.owner == TW_pe_sevent_q) tw_event_free(cev->src_lp->pe, cev);`
unfoldable pub free_one : Ptr → Collecting → Collecting
free_one c s =
    let st = tw_eventq_unshift (free_store s) c in
    if s.owner c == pe_sevent_q
    then record s { links = st.links; free_q = st.q; owner = write s.owner c pe_free_q }
    else s

unfoldable pub free_sent : List Ptr → Collecting → Collecting
unfolding free_one
free_sent [] s = s
free_sent (c ∷ cs) s = free_sent cs (free_one c s)

-- `e->caused_by_me = NULL; e->state.owner = TW_pe_free_q;`, if the event has caused one.
unfoldable pub clear : Ptr → List Ptr → Collecting → Collecting
clear e [] s = s
clear e (c ∷ cs) s = record s {
  owner = write s.owner e pe_free_q;
  caused = λ p. if p == e then [] else s.caused p;
}

-- The body of the loop of `tw_eventq_push_list`. The call of `commit` is an entry in the list of
-- commits; the output messages, the deltas and the hash table are left out.
unfoldable pub commit_event : Ptr → Collecting → Collecting
unfolding free_sent clear
commit_event e s =
    clear e (s.caused e) (free_sent (s.caused e) (record s { commits = s.commits ++ e ∷ [] }))

-- The loop, from `e` to `h`; `none` is an end of the fuel.
unfoldable pub commit_loop : ℕ → Ptr → Ptr → Collecting → Option Collecting
unfolding commit_event
commit_loop zero h e s = none
commit_loop (suc fuel) h e s =
    let s1 = commit_event e s in
    let rest = commit_loop fuel h (s1.links.prev e) s1 in if e == h then some s1 else rest

-- `tw_eventq_push_list(&pe->free_q, h, t, cnt)`
unfoldable pub tw_eventq_push_list : Collecting → Ptr → Ptr → ℕ → Option Collecting
unfolding commit_loop
tw_eventq_push_list s h t cnt = commit_loop (cnt + 1) h t (record s {
  links = push_list_links s.links s.free_q h t;
  free_q = push_list_q s.free_q h t cnt;
})

-- `older e` is `CMP_EVENT_TO_GVT(e, pe) < 0`.
module _ (older : Ptr → Bool) where
  -- The branch where only a part of the list is collected; `h` is the event where the search ended.
  unfoldable pub collect_part : Collecting → Ptr → Ptr → ℕ → Option Collecting
  collect_part s n t cnt =
      let h = s.links.next n in
      let rest =
        tw_eventq_push_list
          (record s { links = set_next s.links n null; q = shrink (record s.q { tail = n }) cnt }) h
          t cnt in
      if n == null then none else rest

  unfoldable pub collect_all : Collecting → Option Collecting
  collect_all s =
      tw_eventq_push_list (record s { q = record { size = 0; head = null; tail = null } }) s.q.head
        s.q.tail s.q.size

  unfoldable pub tw_eventq_fossil_collect : Collecting → Option Collecting
  tw_eventq_fossil_collect s =
      let t = s.q.tail in
      let part : Option Collecting =
        elim (older_walk s.q.size s.links.prev older (s.links.prev t) 1) [
          | none ↦ none
          | some (n, cnt) ↦ collect_part s n t cnt
        ] in
      if t == null
      then some s
      else if older t
      then if older s.q.head then collect_all s else part
      else some s
