-- ===== src/Thread/Owners.antt =====
-- Any number of thread objects, src/Thread.cpp, and the RTOS threads that they own.
pub mod Single
pub mod Calls
mod Examples
use cmsis_cpp.Base.{
  ℕ, ◌≡◌, ◌≢◌, Bool, true, false, not, ◌&&◌, ◌||◌, ◌==◌, List, [], ◌∷◌, none, some, if◌then◌else◌,
}
use cmsis_cpp.Base.Int.{◌==ℤ◌}
use cmsis_cpp.Rtos.{Action, Result, ok, throw, terminate, os_ok}
use cmsis_cpp.Thread.{
  Thread, ThreadAttr, ThreadApi, swap, Attributes, construct, destroy, move_assign, join, detach,
  joinable, get_id, thread_attr,
}

abbrev pub update : (ℕ → Thread) → ℕ → Thread → ℕ → Thread
update f i t j = if i == j then t else f j

-- The variables of a client, by number: one without a thread object holds `none`, as an empty one does.
pub record Objects (W : Type 0) : Type 0 where
  pub world : W
  pub slots : ℕ → Thread

-- `starts i attr` constructs a thread object in a variable without one, `moves i j` is x_i = std::move(x_j),
-- `swaps i j` is x_i.swap(x_j), `drops i` the end of the object.
pub data Op : Type 0 where
  starts : ℕ → Attributes → Op
  moves swaps : ℕ → ℕ → Op
  joins detaches drops : ℕ → Op

-- What CMSIS-RTOS2 documents of the threads that nobody has joined, detached or terminated. A new thread has
-- another handle than each of them, but may get one that a thread had before that is none of them.
pub record HasHandles {W : Type 0} (api : ThreadApi W) (unclaimed : ℕ → W → Bool) : Type 0 where
  pub new_unclaimed :
      (attr : ThreadAttr) (p : ℕ) (w : W)
      → unclaimed p (api.os_thread_new attr w).1
        ≡ ((not (p == 0) && p == (api.os_thread_new attr w).0) || unclaimed p w)
  pub new_apart :
      (attr : ThreadAttr) (w : W)
      → unclaimed (api.os_thread_new attr w).0 w ≡ true
      → (api.os_thread_new attr w).0 ≡ 0
  pub join_unclaimed :
      (p q : ℕ) (w : W)
      → unclaimed q (api.os_thread_join p w).1
        ≡ (unclaimed q w && not (q == p && (api.os_thread_join p w).0 ==ℤ os_ok))
  pub detach_unclaimed :
      (p q : ℕ) (w : W)
      → unclaimed q (api.os_thread_detach p w).1
        ≡ (unclaimed q w && not (q == p && (api.os_thread_detach p w).0 ==ℤ os_ok))
  pub terminate_unclaimed :
      (p q : ℕ) (w : W)
      → unclaimed q (api.os_thread_terminate p w).1 ≡ (unclaimed q w && not (q == p))

-- A call that fails leaves the object as it was.
abbrev pub after : {A : Type 0} → A → Result A → A
after a (ok b) = b
after a (throw e) = a
after a terminate = a

abbrev pub has_ended : {A : Type 0} → Result A → Bool
has_ended (ok a) = false
has_ended (throw e) = false
has_ended terminate = true

abbrev pub succeeds : {A : Type 0} → Result A → Bool
succeeds (ok a) = true
succeeds (throw e) = false
succeeds terminate = false

module _ {W : Type 0} (ex : Bool) (api : ThreadApi W) where
  -- Whether std::terminate was called, and the objects.
  abbrev pub perform : Op → Objects W → Bool × Objects W
  perform (starts i attr) o =
      if get_id (o.slots i) == 0
      then (let (r, w) = construct ex api attr o.world in
          (has_ended r, record { world = w; slots = update o.slots i (after none r) }))
      else (false, o)
  perform (moves i j) o =
      let (r, w) = move_assign ex api (o.slots i) (o.slots j) o.world in
      let (a, b) = after (o.slots i, o.slots j) r in
      (has_ended r, record { world = w; slots = update (update o.slots i a) j b })
  perform (swaps i j) o =
      let (a, b) = swap (o.slots i) (o.slots j) in
      (false, record o { slots = update (update o.slots i a) j b })
  perform (joins i) o =
      let (r, w) = join ex api (o.slots i) o.world in
      (has_ended r, record { world = w; slots = update o.slots i (after (o.slots i) r) })
  perform (detaches i) o =
      let (r, w) = detach ex api (o.slots i) o.world in
      (has_ended r, record { world = w; slots = update o.slots i (after (o.slots i) r) })
  perform (drops i) o =
      let (r, w) = destroy ex api (o.slots i) o.world in
      (
        has_ended r,
        record { world = w; slots = if has_ended r then o.slots else update o.slots i none },
      )

  -- The end of the program ends the history early.
  unfoldable pub history : List Op → Objects W → Objects W
  history [] o = o
  history (op ∷ ops) o =
      let (ended, o') = perform op o in let rest = history ops o' in if ended then o' else rest

  -- No object that was joined or detached before, and not yet destroyed, holds the handle that a
  -- construction gets.
  abbrev pub Fresh : Op → Objects W → Type 0
  Fresh (starts i attr) o =
      (j : ℕ)
      → joinable (o.slots j) ≡ false
      → get_id (o.slots j) ≡ (api.os_thread_new (thread_attr attr) o.world).0
      → get_id (o.slots j) ≡ 0
  Fresh (moves i j) o = Unit {0}
  Fresh (swaps i j) o = Unit {0}
  Fresh (joins i) o = Unit {0}
  Fresh (detaches i) o = Unit {0}
  Fresh (drops i) o = Unit {0}

  -- This in every state of a history.
  abbrev pub AllFresh : List Op → Objects W → Type 0
  AllFresh [] o = Unit {0}
  AllFresh (op ∷ ops) o = Fresh op o × AllFresh ops (perform op o).1
