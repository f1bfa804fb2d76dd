-- ===== src/Eventq/Debug.antt =====
-- `tw_eventq_debug` of core/tw-eventq.h in a build with `ROSS_DEBUG`: the checks of a list that every
-- operation makes before and after its work.
use ross.Prelude.{
  ℕ, zero, suc, ◌+◌, ◌%◌, ◌^◌, ◌<◌, ◌≡◌, refl, sym, ap, ◌∙◌, subst, Bool, true, false, Option, none,
  some, List, [], ◌∷◌, ◌==◌, ◌&&◌, if◌then◌else◌, arith, length,
}
use ross.Queue.Tree.{Ptr, null}
use ross.Eventq.{Links, Store}
use ross.Eventq.Linked.{first_or, last_or, Linked}
use ross.Eventq.Relink.{not_null}
use ross.Eventq.Ops.{IsQueue}

-- The loop along `next`: the last event and the count, an `unsigned int`; `none` is the call of
-- `tw_error` on a wrong `prev`, or an end of the fuel.
unfoldable pub debug_walk : ℕ → Links → Ptr → Ptr → ℕ → Option (Ptr × ℕ)
debug_walk zero σ next last cnt = none
debug_walk (suc fuel) σ next last cnt =
    let rest = debug_walk fuel σ (σ.next next) next ((cnt + 1) % 2 ^ 32) in
    if next == null then some (last, cnt) else if σ.prev next == last then rest else none

-- `true` where no check calls `tw_error`.
unfoldable pub tw_eventq_debug : Store → Bool
tw_eventq_debug s = elim (debug_walk (s.q.size + 1) s.links s.q.head null 0) [
  | none ↦ false
  | some (last, cnt) ↦ s.q.tail == last && cnt == s.q.size
]

same : (x y : ℕ) → x ≡ y → (x == y) ≡ true
same x y e = ground arith

debug_walk-Linked :
    (fuel : ℕ) (σ : Links) (b : Ptr) (xs : List Ptr) (cnt : ℕ)
    → Linked σ b xs null
    → length xs < fuel
    → cnt + length xs < 2 ^ 32
    → debug_walk fuel σ (first_or xs null) b cnt ≡ some (last_or b xs, cnt + length xs)
unfolding debug_walk
debug_walk-Linked zero σ b xs cnt l enough fits = absurd (omega arith)
debug_walk-Linked (suc fuel) σ b [] cnt l enough fits = ap (λ z. some (b, z)) (omega arith)
debug_walk-Linked (suc fuel) σ b (x ∷ xs) cnt (pos, p, n, l) enough fits =
    let no_wrap : (cnt + 1) % 2 ^ 32 ≡ cnt + 1 = omega arith in
    rw (not_null x pos, same (σ.prev x) b p, n, no_wrap)
      (debug_walk-Linked fuel σ x xs (cnt + 1) l (omega arith) (omega arith)
        ∙ ap (λ z. some (last_or x xs, z)) (omega arith))

-- A list of fewer than 2 ^ 32 events, as every operation leaves it, passes all checks of
-- `tw_eventq_debug`.
pub tw_eventq_debug-true :
    {s : Store} (xs : List Ptr) → IsQueue s xs → length xs < 2 ^ 32 → tw_eventq_debug s ≡ true
unfolding tw_eventq_debug
tw_eventq_debug-true {s} xs v few =
    let walk =
      subst
        (λ z. debug_walk (s.q.size + 1) s.links z null 0 ≡ some (last_or null xs, 0 + length xs))
        (sym v.head)
        (debug_walk-Linked (s.q.size + 1) s.links null xs 0 v.linked (omega (arith, v.sized))
          (omega (arith, few))) in
    rw
      (
        tw_eventq_debug,
        walk,
        same s.q.tail (last_or null xs) v.tail,
        same (0 + length xs) s.q.size (omega (arith, v.sized)),
      )
      refl
