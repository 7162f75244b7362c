-- ===== src/ConditionVariable/Monitor/Leaving.antt =====
-- Where the steps that the threads take by themselves lead, after the last notify_all.
use cmsis_cpp.Base.{
  ℕ, ◌-◌, ◌*◌, ◌≤◌, ◌<◌, ◌≡◌, refl, ap, sym, ◌⊎◌, inl, inr, true, false, arith, le-cases, eq-cases,
}
use cmsis_cpp.Base.Sums.{sum_below-positive, sum_below-le, sum_below-zero}
use cmsis_cpp.ConditionVariable.{Phase, outside, blocked, acquired, expired, returned}
use cmsis_cpp.ConditionVariable.Monitor.{
  Pc, rank, Monitor, Step, unlocks, tests, enlists, releases, wakes, relocks, returns,
}
use cmsis_cpp.ConditionVariable.Monitor.Ordered.{holds, placed_by, Ordered}
use cmsis_cpp.ConditionVariable.Monitor.Invariant.{Reach-Ordered}
use cmsis_cpp.ConditionVariable.Monitor.Settled.{
  quiet, Quiets, Settled, distance, token_of, Quiets-Settled,
}

module _ (n : ℕ) (s : Monitor) (h : Settled n s) where
  abbrev v : Ordered s
  v = Reach-Ordered h.reached

  CanMove : Type 0
  CanMove = (t : Monitor) × (st : Step s t) × (quiet st ≡ true)

  returner_moves :
      (i : ℕ) (x : Phase)
      → s.pc i ≡ Pc.returning
      → s.cv.phase i ≡ x
      → placed_by 3 x ≡ true
      → CanMove
  unfolding CanMove
  returner_moves i outside p e q = absurd (cc)
  returner_moves i blocked p e q = absurd (cc)
  returner_moves i acquired p e q = (_, returns i p e, refl)
  returner_moves i expired p e q = absurd (h.patient i e)
  returner_moves i (returned st) p e q = absurd (cc)

  holder_moves : (i : ℕ) (x : Pc) → s.pc i ≡ x → holds (rank x) ≡ true → CanMove
  unfolding CanMove
  holder_moves i Pc.outside p q = absurd (cc)
  holder_moves i Pc.inside p q = (_, unlocks i p, refl)
  holder_moves i Pc.testing p q = (_, tests i p, refl)
  holder_moves i Pc.returning p q =
      returner_moves i (s.cv.phase i) p refl (rw (sym (ap rank p)) (v.placed i h.unbroken))
  holder_moves i Pc.relocking p q = absurd (cc)
  holder_moves i Pc.waiting p q = absurd (cc)
  holder_moves i Pc.enlisted p q = (_, releases i p, refl)
  holder_moves i Pc.enlisting p q = (_, enlists i p, refl)

  waiter_moves :
      (i : ℕ) (x : Pc)
      → s.pc i ≡ x
      → s.lock.owner ≡ 0
      → 0 < rank x
      → holds (rank x) ≡ false
      → CanMove
  unfolding CanMove
  waiter_moves i Pc.outside p z l q = absurd (omega arith)
  waiter_moves i Pc.inside p z l q = absurd (cc)
  waiter_moves i Pc.testing p z l q = absurd (cc)
  waiter_moves i Pc.returning p z l q = absurd (cc)
  waiter_moves i Pc.relocking p z l q = (_, relocks i p (ground arith), refl)
  waiter_moves i Pc.waiting p z l q = (_, wakes i p (token_of n s h i p), refl)
  waiter_moves i Pc.enlisted p z l q = absurd (cc)
  waiter_moves i Pc.enlisting p z l q = absurd (cc)

  can_move : 0 < distance n s → CanMove
  can_move far = elim (eq-cases s.lock.owner 0) [
    | inl z ↦
        let (i, l, p) = sum_below-positive (λ j. rank (s.pc j)) n far in
        waiter_moves i (s.pc i) refl z p (ground (arith, v.owns i))
    | inr o ↦
        let i = s.lock.owner - 1 in holder_moves i (s.pc i) refl (v.owned i (omega (arith, o)))
  ]

rank-le : (p : Pc) → rank p ≤ 7
rank-le Pc.outside = omega arith
rank-le Pc.inside = omega arith
rank-le Pc.testing = omega arith
rank-le Pc.returning = omega arith
rank-le Pc.relocking = omega arith
rank-le Pc.waiting = omega arith
rank-le Pc.enlisted = omega arith
rank-le Pc.enlisting = omega arith

rank_outside : (p : Pc) → rank p ≡ 0 → p ≡ Pc.outside
rank_outside Pc.outside e = refl
rank_outside Pc.inside e = absurd (omega arith)
rank_outside Pc.testing e = absurd (omega arith)
rank_outside Pc.returning e = absurd (omega arith)
rank_outside Pc.relocking e = absurd (omega arith)
rank_outside Pc.waiting e = absurd (omega arith)
rank_outside Pc.enlisted e = absurd (omega arith)
rank_outside Pc.enlisting e = absurd (omega arith)

-- Where the flag is true and somebody has called notify_all since it became so, nobody has timed out, and
-- at most `n` threads take part: while nobody newly locks, writes, waits or notifies, no more than 7 * n
-- steps follow, in whatever order; and as long as one thread is not outside, with its wait behind it and
-- the lock given back, another such step can follow. So the last of them leaves everybody outside.
pub everyone_leaves :
    (n k : ℕ) (s t : Monitor)
    → Settled n s
    → Quiets s k t
    → (k ≤ 7 * n)
      × (((i : ℕ) → t.pc i ≡ Pc.outside) ⊎ ((u : Monitor) × (st : Step t u) × (quiet st ≡ true)))
unfolding CanMove
everyone_leaves n k s t h r =
    let (g, b) = Quiets-Settled h r in
    let small = sum_below-le (λ i. rank (s.pc i)) 7 n (λ i. rank-le (s.pc i)) in
    (
      omega (arith, b, small),
      elim (le-cases (distance n t) 0) [
        | inl z ↦ inl (λ i. elim (le-cases n i) [
          | inl g' ↦ g.few i g'
          | inr l ↦ rank_outside (t.pc i) (sum_below-zero (λ j. rank (t.pc j)) n i (omega arith) l)
        ])
        | inr p ↦ inr (can_move n t g p)
      ],
    )
