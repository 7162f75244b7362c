-- ===== src/ConditionVariable/Monitor/Locking.antt =====
-- The steps that leave the condition variable alone, against the invariant of the monitor.
use cmsis_cpp.Base.{ℕ, suc, ◌≡◌, Bool, true, false, not, ◌&&◌, ◌||◌, arith, if◌then◌else◌}
use cmsis_cpp.Mutex.History.{free, take, give}
use cmsis_cpp.ConditionVariable.{update}
use cmsis_cpp.ConditionVariable.Monitor.{Pc, Monitor}
use cmsis_cpp.ConditionVariable.Monitor.Ordered.{Ordered}

module _ (s : Monitor) (v : Ordered s) where
  pub locks-Ordered :
      (i : ℕ)
      → s.pc i ≡ Pc.outside
      → free false (suc i) s.lock ≡ true
      → Ordered (record s { pc = update s.pc i Pc.inside; lock = take (suc i) s.lock })
  locks-Ordered i p f = record {
    sound = v.sound;
    owns = λ j h. ground (arith, v.owns j);
    owned = λ j h. ground (arith, v.owned j);
    level = ground (arith, v.level);
    placed = λ j u. ground (arith, v.placed j);
    tested = λ j h. ground (arith, v.tested j);
    woken = λ j h t. ground (arith, v.woken j);
  }

  pub unlocks-Ordered :
      (i : ℕ)
      → s.pc i ≡ Pc.inside
      → Ordered (record s { pc = update s.pc i Pc.outside; lock = give s.lock })
  unlocks-Ordered i p = record {
    sound = v.sound;
    owns = λ j h. ground (arith, v.owns j, v.owns i, v.level);
    owned = λ j h. ground (arith, v.owned j, v.owns i, v.level);
    level = ground (arith, v.owns i, v.level);
    placed = λ j u. ground (arith, v.placed j);
    tested = λ j h. ground (arith, v.tested j);
    woken = λ j h t. ground (arith, v.woken j);
  }

  pub writes-Ordered :
      (i : ℕ) (b : Bool)
      → s.pc i ≡ Pc.inside
      → Ordered (record s { flag = b; due = s.due || (b && not s.flag) })
  writes-Ordered i b p = record {
    sound = v.sound;
    owns = v.owns;
    owned = v.owned;
    level = v.level;
    placed = v.placed;
    tested = λ j h. ground (arith, v.owns i, v.owns j, v.tested j);
    woken = λ j h t. ground (arith, v.woken j);
  }

  pub waits-Ordered :
      (i : ℕ) → s.pc i ≡ Pc.inside → Ordered (record s { pc = update s.pc i Pc.testing })
  waits-Ordered i p = record {
    sound = v.sound;
    owns = λ j h. ground (arith, v.owns j, v.owns i);
    owned = λ j h. ground (arith, v.owned j, v.owned i);
    level = ground (arith, v.level);
    placed = λ j u. ground (arith, v.placed j);
    tested = λ j h. ground (arith, v.tested j);
    woken = λ j h t. ground (arith, v.woken j);
  }

  pub tests-Ordered :
      (i : ℕ)
      → s.pc i ≡ Pc.testing
      → Ordered (record s { pc = update s.pc i (if s.flag then Pc.inside else Pc.enlisting) })
  tests-Ordered i p = record {
    sound = v.sound;
    owns = λ j h. ground (arith, v.owns j, v.owns i);
    owned = λ j h. ground (arith, v.owned j, v.owned i);
    level = ground (arith, v.level);
    placed = λ j u. ground (arith, v.placed j);
    tested = λ j h. ground (arith, v.tested j);
    woken = λ j h t. ground (arith, v.woken j);
  }

  pub releases-Ordered :
      (i : ℕ)
      → s.pc i ≡ Pc.enlisted
      → Ordered (record s { pc = update s.pc i Pc.waiting; lock = give s.lock })
  releases-Ordered i p = record {
    sound = v.sound;
    owns = λ j h. ground (arith, v.owns j, v.owns i, v.level);
    owned = λ j h. ground (arith, v.owned j, v.owns i, v.level);
    level = ground (arith, v.owns i, v.level);
    placed = λ j u. ground (arith, v.placed j);
    tested = λ j h. ground (arith, v.tested j);
    woken = λ j h t. ground (arith, v.woken j, v.tested i);
  }

  pub relocks-Ordered :
      (i : ℕ)
      → s.pc i ≡ Pc.relocking
      → free false (suc i) s.lock ≡ true
      → Ordered (record s { pc = update s.pc i Pc.returning; lock = take (suc i) s.lock })
  relocks-Ordered i p f = record {
    sound = v.sound;
    owns = λ j h. ground (arith, v.owns j, v.owns i);
    owned = λ j h. ground (arith, v.owned j, v.owned i);
    level = ground (arith, v.level);
    placed = λ j u. ground (arith, v.placed j);
    tested = λ j h. ground (arith, v.tested j);
    woken = λ j h t. ground (arith, v.woken j);
  }
