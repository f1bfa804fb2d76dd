-- ===== src/Kernel/Secondary.antt =====
-- The loop of `tw_kp_rollback_event`, a rollback that the cancellation of a processed event causes.
use ross.Prelude.{ℕ, ◌≡◌, ◌≢◌, Option, some, List, [], ◌∷◌, ◌++◌}
use ross.Event.{TwEvent}
use ross.Queue.Tree.{Ptr}
use ross.Kernel.Machine.{Machine}
use ross.Kernel.State.{World, owner_of, kp_pevent_q}
use ross.Kernel.Rollback.{newest}
use ross.Kernel.Pending.{IsHeld}
use ross.Kernel.Frame.{caused_of, processed_of}
use ross.Kernel.Ready.{Ready, Settled, AllSettled, Freed}

module _ {m : Machine} (keys : Ptr → TwEvent) (live : Ptr → Type 0) where
  -- What the rollback of the kernel process `k` to its processed event `event` leaves, where `newer`
  -- were processed after that event and `older` before it.
  pub record Found (k event : ℕ) (newer older : List Ptr) (w : World m) (r : Option (World m))
      : Type 0 where
    pub w' : World m
    pub returns : r ≡ some w'
    pub processed : processed_of w' k ≡ older
    pub elsewhere : (i : ℕ) → i ≢ k → processed_of w' i ≡ processed_of w i
    pub held : IsHeld keys live w'.pe.pq
    pub settled : AllSettled (owner_of w') (caused_of w) newer (newer ++ event ∷ [])
    pub freed : Freed (owner_of w) (owner_of w') (caused_of w) (newer ++ event ∷ [])
    pub stays : (p : Ptr) → Settled (owner_of w p) → Settled (owner_of w' p)
    pub taken : owner_of w' event ≡ kp_pevent_q
    pub none_caused : caused_of w' event ≡ []
    pub last_sig : (w'.kps k).last_sig ≡ newest keys w.pe.gvt_sig older
