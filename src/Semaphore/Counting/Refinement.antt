-- ===== src/Semaphore/Counting/Refinement.antt =====
-- The counting semaphore refines a counter: any history of calls that do not block answers as the
-- counter does, and leaves as many tokens.
use cmsis_cpp.Base.{
  ℕ, ◌+◌, ◌-◌, ◌≡◌, refl, inl, inr, Bool, true, false, List, [], ◌∷◌, arith, leb, if◌then◌else◌,
  le-cases, ◌==◌,
}
use cmsis_cpp.Base.Int.{pos}
use cmsis_cpp.Rtos.{Result, ok, throw, terminate}
use cmsis_cpp.Semaphore.{SemaphoreApi}
use cmsis_cpp.Semaphore.Contract.{IsCounting}
use cmsis_cpp.Semaphore.Release.{release_adds, release_overflows}
use cmsis_cpp.Semaphore.Acquire.{try_acquire-takes}
use cmsis_cpp.Semaphore.Counting.{counting_release, counting_try_acquire}

-- `releases n` is `release(n)`, `tries` is `try_acquire()`.
pub data Op : Type 0 where
  releases : ℕ → Op
  tries : Op

pub data Answer : Type 0 where
  released refused : Answer
  acquired : Bool → Answer

-- The abstract semaphore: a number of tokens up to `limit`.
abbrev pub spec_step : ℕ → Op → ℕ → Answer × ℕ
spec_step limit (releases n) c = if leb (c + n) limit then (released, c + n) else (refused, limit)
spec_step limit tries c = if c == 0 then (acquired false, 0) else (acquired true, c - 1)

unfoldable pub spec_run : ℕ → List Op → ℕ → List Answer × ℕ
spec_run limit [] c = ([], c)
spec_run limit (op ∷ ops) c =
    let (a, c') = spec_step limit op c in let (as', c'') = spec_run limit ops c' in (a ∷ as', c'')

-- What the caller sees of a call's result. A failure is one whether it throws or ends the program.
abbrev release_answer : Result (Unit {0}) → Answer
release_answer (ok _) = released
release_answer (throw e) = refused
release_answer terminate = refused

abbrev try_answer : Result Bool → Answer
try_answer (ok b) = acquired b
try_answer (throw e) = refused
try_answer terminate = refused

module _ {W : Type 0} (api : SemaphoreApi W) (m_id : ℕ) where
  -- The calls with exceptions compiled in, after which the client goes on.
  abbrev pub perform : Op → W → Answer × W
  perform (releases n) w =
      let (r, w') = counting_release true api m_id (pos n) w in (release_answer r, w')
  perform tries w = let (r, w') = counting_try_acquire true api m_id w in (try_answer r, w')

  pub history : List Op → W → List Answer × W
  history [] w = ([], w)
  history (op ∷ ops) w =
      let (a, w') = perform op w in let (as', w'') = history ops w' in (a ∷ as', w'')

module _ {W : Type 0} (api : SemaphoreApi W) (m_id limit : ℕ) (count : W → ℕ)
    (counting : IsCounting api m_id limit count) where
  perform-refines :
      (op : Op) (w : W)
      → ((perform api m_id op w).0 ≡ (spec_step limit op (count w)).0)
        × (count (perform api m_id op w).1 ≡ (spec_step limit op (count w)).1)
  unfolding counting_release counting_try_acquire
  perform-refines (releases n) w = elim (le-cases (count w + n) limit) [
    | inl h ↦ ground (arith, release_adds true api m_id limit count counting n w h)
    | inr h ↦ ground (arith, release_overflows true api m_id limit count counting n w h)
  ]
  perform-refines tries w = elim (try_acquire-takes true api m_id limit count counting w) [
    | inl (p, r, c) ↦ ground arith
    | inr (z, r, c) ↦ ground arith
  ]

  -- Over any history of `release` with non-negative updates and `try_acquire`, a semaphore answers
  -- every call as a counter up to the limit does, and ends with as many tokens: a release beyond the
  -- limit is refused and leaves the counter at the limit.
  pub history-refines :
      (ops : List Op) (w : W)
      → ((history api m_id ops w).0 ≡ (spec_run limit ops (count w)).0)
        × (count (history api m_id ops w).1 ≡ (spec_run limit ops (count w)).1)
  unfolding history spec_run
  history-refines [] w = (refl, refl)
  history-refines (op ∷ ops) w =
      let s = perform-refines op w in
      let rest = history-refines ops (perform api m_id op w).1 in ground (arith, s, rest)
