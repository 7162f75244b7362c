-- ===== src/Thread/Owners/Calls.antt =====
-- The calls on one of many thread objects, against the owners of the RTOS threads.
use cmsis_cpp.Base.{
  sym, ◌∙◌, ℕ, ◌≡◌, ◌≢◌, refl, inl, inr, Bool, true, false, not, ◌&&◌, ◌==◌, List, [], ◌∷◌, none,
  some, arith, Bool-cases, eq-cases,
}
use cmsis_cpp.Thread.{
  Thread, ThreadApi, Attributes, thread_attr, construct, destroy, move_assign, join, detach,
  joinable, get_id, swap,
}
use cmsis_cpp.Thread.Owners.{
  update, Objects, Op, starts, moves, swaps, joins, detaches, drops, HasHandles, Fresh, AllFresh,
  after, succeeds, perform, history,
}
use cmsis_cpp.Thread.Owners.Single.{Single, given_up-Single, swapped, unchanged, started, emptied}

module _ {W : Type 0} (ex : Bool) (api : ThreadApi W) (unclaimed : ℕ → W → Bool)
    (handles : HasHandles api unclaimed) where
  join_same : (t : Thread) (w : W) → get_id (after t (join ex api t w).0) ≡ get_id t
  unfolding join get_id
  join_same none w = ground arith
  join_same (some t) w = ground arith

  joinable-join :
      (t : Thread) (w : W)
      → joinable (after t (join ex api t w).0) ≡ (joinable t && not (succeeds (join ex api t w).0))
  unfolding join joinable
  joinable-join none w = ground arith
  joinable-join (some t) w = ground arith

  join_claims :
      (t : Thread) (q : ℕ) (w : W)
      → unclaimed q (join ex api t w).1
        ≡ (unclaimed q w && not (q == get_id t && succeeds (join ex api t w).0))
  unfolding join get_id
  join_claims none q w = ground arith
  join_claims (some t) q w = ground (arith, handles.join_unclaimed t.m_id q w)

  joins-Single :
      (i : ℕ) (o : Objects W) → Single unclaimed o → Single unclaimed (perform ex api (joins i) o).1
  joins-Single i o v =
      let t = o.slots i in
      let (r, w) = join ex api t o.world in
      given_up-Single unclaimed i (succeeds r) (after t r) w o v (join_same t o.world)
        (joinable-join t o.world) (λ q. join_claims t q o.world)

  detach_same : (t : Thread) (w : W) → get_id (after t (detach ex api t w).0) ≡ get_id t
  unfolding detach get_id
  detach_same none w = ground arith
  detach_same (some t) w = ground arith

  joinable-detach :
      (t : Thread) (w : W)
      → joinable (after t (detach ex api t w).0)
        ≡ (joinable t && not (succeeds (detach ex api t w).0))
  unfolding detach joinable
  joinable-detach none w = ground arith
  joinable-detach (some t) w = ground arith

  detach_claims :
      (t : Thread) (q : ℕ) (w : W)
      → unclaimed q (detach ex api t w).1
        ≡ (unclaimed q w && not (q == get_id t && succeeds (detach ex api t w).0))
  unfolding detach get_id
  detach_claims none q w = ground arith
  detach_claims (some t) q w = ground (arith, handles.detach_unclaimed t.m_id q w)

  detaches-Single :
      (i : ℕ) (o : Objects W)
      → Single unclaimed o
      → Single unclaimed (perform ex api (detaches i) o).1
  detaches-Single i o v =
      let t = o.slots i in
      let (r, w) = detach ex api t o.world in
      given_up-Single unclaimed i (succeeds r) (after t r) w o v (detach_same t o.world)
        (joinable-detach t o.world) (λ q. detach_claims t q o.world)

  module _ (i : ℕ) (attr : Attributes) (o : Objects W) where
    abbrev p : ℕ
    p = (api.os_thread_new (thread_attr attr) o.world).0

    abbrev w : W
    w = (api.os_thread_new (thread_attr attr) o.world).1

    start_succeeds :
        get_id (o.slots i) ≡ 0
        → p ≢ 0
        → (perform ex api (starts i attr) o).1 ≡ record {
          world = w;
          slots = update o.slots i (some (record { m_id = p; m_detached = false }));
        }
    unfolding construct
    start_succeeds z n = ground arith

    start_fails :
        get_id (o.slots i) ≡ 0
        → p ≡ 0
        → (perform ex api (starts i attr) o).1 ≡ record { world = w; slots = update o.slots i none }
    unfolding construct
    start_fails z e = ground arith

    start_refused : get_id (o.slots i) ≢ 0 → (perform ex api (starts i attr) o).1 ≡ o
    start_refused d = ground arith

    starts-Single :
        ((j : ℕ)
          → get_id (o.slots j) ≡ (api.os_thread_new (thread_attr attr) o.world).0
          → get_id (o.slots j) ≡ 0)
        → Single unclaimed o
        → Single unclaimed (perform ex api (starts i attr) o).1
    unfolding get_id joinable
    starts-Single fresh v = elim (eq-cases (get_id (o.slots i)) 0) [
      | inl z ↦ elim (eq-cases p 0) [
        | inl e ↦ rw (start_fails z e) (
            emptied unclaimed i false w o v (ground (arith, v.named i))
              (λ q. ground (arith, handles.new_unclaimed (thread_attr attr) q o.world)))
        | inr n ↦ rw (start_succeeds z n) (
            started unclaimed i p (some (record { m_id = p; m_detached = false })) w o v z refl refl
              n (λ j e. n (sym e ∙ fresh j e))
              (λ q. ground (arith, handles.new_unclaimed (thread_attr attr) q o.world)))
      ]
      | inr d ↦ rw (start_refused d) v
    ]

  -- Moving swaps, and only into an object that is not joinable.
  moves-Single :
      (i j : ℕ) (o : Objects W)
      → Single unclaimed o
      → Single unclaimed (perform ex api (moves i j) o).1
  unfolding move_assign swap
  moves-Single i j o v = elim (Bool-cases (joinable (o.slots i))) [
    | inl c ↦ rw c (unchanged unclaimed i j o v)
    | inr c ↦ rw c (swapped unclaimed i j o v)
  ]

  swaps-Single :
      (i j : ℕ) (o : Objects W)
      → Single unclaimed o
      → Single unclaimed (perform ex api (swaps i j) o).1
  unfolding swap
  swaps-Single i j o v = swapped unclaimed i j o v

  is_some : Thread → Bool
  is_some none = false
  is_some (some t) = true

  drop_ends :
      (i : ℕ) (o : Objects W) → joinable (o.slots i) ≡ true → (perform ex api (drops i) o).1 ≡ o
  unfolding destroy
  drop_ends i o c = ground arith

  -- ~thread terminates what it holds, whether it is there or not.
  dropped : Thread → W → W
  unfolding get_id
  dropped none w = w
  dropped (some t) w = (api.os_thread_terminate t.m_id w).1

  drop_returns :
      (i : ℕ) (t : Thread) (o : Objects W)
      → o.slots i ≡ t
      → joinable t ≡ false
      → (perform ex api (drops i) o).1
        ≡ record { world = dropped t o.world; slots = update o.slots i none }
  unfolding destroy dropped joinable
  drop_returns i none o e c = ground arith
  drop_returns i (some t) o e c = ground arith

  dropped_claims :
      (t : Thread) (q : ℕ) (w : W)
      → unclaimed q (dropped t w) ≡ (unclaimed q w && not (q == get_id t && is_some t))
  unfolding dropped get_id is_some
  dropped_claims none q w = ground arith
  dropped_claims (some t) q w = ground (arith, handles.terminate_unclaimed t.m_id q w)

  drops-Single :
      (i : ℕ) (o : Objects W) → Single unclaimed o → Single unclaimed (perform ex api (drops i) o).1
  drops-Single i o v = elim (Bool-cases (joinable (o.slots i))) [
    | inl c ↦ rw (drop_ends i o c) v
    | inr c ↦ rw (drop_returns i (o.slots i) o refl c) (
        emptied unclaimed i (is_some (o.slots i)) (dropped (o.slots i) o.world) o v c
          (λ q. dropped_claims (o.slots i) q o.world))
  ]

  -- An object that is joinable has a thread that nobody has claimed, and so another handle.
  all_apart :
      (i : ℕ) (attr : Attributes) (o : Objects W)
      → Fresh ex api (starts i attr) o
      → Single unclaimed o
      → (j : ℕ) → get_id (o.slots j) ≡ (api.os_thread_new (thread_attr attr) o.world).0
      → get_id (o.slots j) ≡ 0
  all_apart i attr o fresh v j e = elim (Bool-cases (joinable (o.slots j))) [
    | inl c ↦ e ∙ handles.new_apart (thread_attr attr) o.world (claims c)
    | inr c ↦ fresh j c e
  ]
    where
      claims :
          joinable (o.slots j) ≡ true
          → unclaimed (api.os_thread_new (thread_attr attr) o.world).0 o.world ≡ true
      claims c = rw (sym e) (v.claimed j (v.named j c) ∙ c)

  perform-Single :
      (op : Op) (o : Objects W)
      → Fresh ex api op o
      → Single unclaimed o
      → Single unclaimed (perform ex api op o).1
  perform-Single (starts i attr) o fresh v = starts-Single i attr o (all_apart i attr o fresh v) v
  perform-Single (moves i j) o fresh v = moves-Single i j o v
  perform-Single (swaps i j) o fresh v = swaps-Single i j o v
  perform-Single (joins i) o fresh v = joins-Single i o v
  perform-Single (detaches i) o fresh v = detaches-Single i o v
  perform-Single (drops i) o fresh v = drops-Single i o v

  -- Over any history of constructions, moves, swaps, joins, detachments and ends of any number of thread
  -- objects, the end of the program included, in which no construction gets the handle of a thread whose
  -- object was joined or detached but not yet destroyed: if at first each unclaimed thread of the RTOS has a joinable object, each joinable object an
  -- unclaimed thread, and no thread two objects, this is so in the end. So no thread is lost without a
  -- join or a detachment, and none has two owners.
  pub owners-Single :
      (ops : List Op) (o : Objects W)
      → AllFresh ex api ops o
      → Single unclaimed o
      → Single unclaimed (history ex api ops o)
  unfolding history
  owners-Single [] o f v = v
  owners-Single (op ∷ ops) o f v = elim (Bool-cases (perform ex api op o).0) [
    | inl e ↦ rw e (perform-Single op o f.0 v)
    | inr e ↦ rw e (owners-Single ops (perform ex api op o).1 f.1 (perform-Single op o f.0 v))
  ]
