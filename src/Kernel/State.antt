-- ===== src/Kernel/State.antt =====
-- `tw_event`, `tw_lp`, `tw_kp` and `tw_pe` of core/ross-types.h, and the memory of one process, which
-- has one processing element. A list that the code links through `next`, `cause_next` or
-- `cancel_next` is a list of addresses, its head first. The keys of the events stand apart.
use ross.Prelude.{ℕ, Bool, List, ◌==◌, if◌then◌else◌}
use ross.Event.{TwEventSig, TwEvent}
pub use ross.Kernel.Element.{Pe}
pub use ross.Eventq.Collect.{pe_sevent_q}
use ross.Queue.Tree.{Ptr}
use ross.Kernel.Machine.{Machine}

-- `tw_out`: its owner, by number.
pub record TwOut : Type 0 where
  pub owner : ℕ
  pub message : List ℕ

-- Values of `tw_event_owner`.
abbrev pub pe_event_q : ℕ
pe_event_q = 1

abbrev pub kp_pevent_q : ℕ
kp_pevent_q = 3

abbrev pub pe_anti_msg : ℕ
pe_anti_msg = 4

abbrev pub net_outq : ℕ
net_outq = 5

abbrev pub net_asend : ℕ
net_asend = 6

-- `tw_event` without its key and its owner. `dest_lp` is the destination's global number until the
-- event is sent, and its local number from then on.
pub record Buffer (m : Machine) : Type 0 where
  pub dest_lp : ℕ
  pub src_lp : ℕ
  pub send_ts : ℕ
  pub critical_path : ℕ
  pub caused_by_me : List Ptr
  pub cancel_q : Bool
  pub aborted_total : ℕ
  pub out_msgs : List TwOut
  pub delta_buddy : Ptr
  pub cv : m.Bitfield
  pub message : m.Message

pub record Lp (m : Machine) : Type 0 where
  pub gid : ℕ
  pub kp : ℕ
  pub cur_state : m.State
  pub core_rng : m.Rng
  pub critical_path : ℕ
  pub suspend_flag : Bool
  pub suspend_event : Ptr
  pub suspend_sig : TwEventSig
  pub suspend_error_number : ℕ
  pub suspend_do_orig_event_rc : Bool

pub record Kp : Type 0 where
  pub last_sig : TwEventSig
  pub pevent_q : List Ptr
  pub output : List TwOut
  pub s_nevent_processed : ℕ
  pub s_e_rbs : ℕ
  pub s_rb_total : ℕ
  pub s_rb_secondary : ℕ

pub record World (m : Machine) : Type 0 where
  pub keys : Ptr → TwEvent
  pub bufs : Ptr → Buffer m
  pub lps : ℕ → Lp m
  pub kps : ℕ → Kp
  pub pe : Pe
  pub min_detected_offset : ℕ
  pub net : m.Net
  pub buddy : m.Buddy

-- A write to one cell of a memory.
abbrev pub write : {A : Type 0} → (ℕ → A) → ℕ → A → ℕ → A
write f i v j = if j == i then v else f j

module _ {m : Machine} where
  abbrev pub set_buf : World m → Ptr → Buffer m → World m
  set_buf w p b = record w { bufs = write w.bufs p b }

  abbrev pub set_lp : World m → ℕ → Lp m → World m
  set_lp w i lp = record w { lps = write w.lps i lp }

  abbrev pub set_kp : World m → ℕ → Kp → World m
  set_kp w i kp = record w { kps = write w.kps i kp }

  abbrev pub set_pe : World m → Pe → World m
  set_pe w pe = record w { pe = pe }

  abbrev pub owner_of : World m → Ptr → ℕ
  owner_of w p = w.pe.pq.owner p
