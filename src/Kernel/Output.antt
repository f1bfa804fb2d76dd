-- ===== src/Kernel/Output.antt =====
-- The output buffers of a kernel process in core/tw-kp.c, and the release of an event in
-- core/ross-inline.h.
pub mod Returned
use ross.Prelude.{
  ℕ, zero, suc, Option, none, some, List, [], ◌∷◌, ◌++◌, reverse, ◌==◌, if◌then◌else◌,
}
use ross.Queue.Tree.{Ptr, null}
use ross.Queue.Pq.{set_owner}
use ross.Kernel.Machine.{Machine}
use ross.Kernel.State.{TwOut, Kp, Pe, Buffer, World, write, set_buf, set_kp, set_pe}
use ross.Eventq.Alloc.{pe_free_q}

-- `init_output_messages(kp)`: `n` empty messages, `NUM_OUT_MESG` in the code, in order.
pub init_output_messages : ℕ → ℕ → List TwOut
init_output_messages zero kp = []
init_output_messages (suc n) kp = record { owner = kp; message = [] } ∷ init_output_messages n kp

-- `none` is `NULL`.
unfoldable pub tw_kp_grab_output_buffer : Kp → Option TwOut × Kp
tw_kp_grab_output_buffer kp = elim kp.output [
  | [] ↦ (none, kp)
  | ret ∷ rest ↦ (some ret, record kp { output = rest })
]

unfoldable pub put_back : TwOut → List TwOut → List TwOut
put_back out [] = out ∷ []
put_back out (o ∷ output) = out ∷ o ∷ output

module _ {m : Machine} where
  unfoldable pub tw_kp_put_back_output_buffer : TwOut → World m → World m
  unfolding put_back
  tw_kp_put_back_output_buffer out w =
      let kp = w.kps out.owner in set_kp w out.owner (record kp { output = put_back out kp.output })

  -- The loop of `tw_free_output_messages(e, 0)`.
  unfoldable pub free_outs : List TwOut → World m → World m
  free_outs [] w = w
  free_outs (temp ∷ next) w = free_outs next (tw_kp_put_back_output_buffer temp w)

  unfoldable pub tw_free_output_messages : Ptr → World m → World m
  tw_free_output_messages e w =
      let b = w.bufs e in free_outs b.out_msgs (set_buf w e (record b { out_msgs = [] }))

  -- `if (e->delta_buddy) { buddy_free(e->delta_buddy); e->delta_buddy = 0; }`
  unfoldable pub free_delta : Ptr → World m → World m
  free_delta e w =
      let b = w.bufs e in
      if b.delta_buddy == null then w else record w {
        buddy = m.buddy_free b.delta_buddy w.buddy;
        bufs = write w.bufs e (record b { delta_buddy = null });
      }

  -- `tw_eventq_unshift(&pe->free_q, e)` and the owner that is written before it.
  unfoldable pub give_back : Ptr → World m → World m
  give_back e w =
      let pe = w.pe in
      let pq = record pe.pq { owner = set_owner pe.pq.owner e pe_free_q } in
      set_pe w (record pe { pq = pq; free_q = e ∷ pe.free_q })

  unfoldable pub tw_event_free : Ptr → World m → World m
  tw_event_free e w = give_back e (free_delta e (tw_free_output_messages e w))
