-- ===== src/Flags/Event/Values.antt =====
-- The event's value: what the calls return and throw, and the life of an event object.
use Prim.Native.Nat.{bit_or, bit_or-bitwise}
use cmsis_cpp.Base.{ℕ, ◌≤◌, ◌<◌, ◌^◌, ◌≡◌, ◌≢◌, ◌⊎◌, Bool, arith, if◌then◌else◌}
use cmsis_cpp.Base.Int.{signed32}
use cmsis_cpp.Rtos.{
  Result, Category, os_category, ◌>>=◌, ok, throw, terminate, system_error, flags_category,
  os_wait_forever,
}
use cmsis_cpp.Flags.WaitFlag.{wait_option}
use cmsis_cpp.Flags.Event.{EventApi, set, get, clear, wait, construct, destroy, move_construct}

-- A uint32_t answer `v` is returned if it has no error bit, and otherwise fails as the error code that
-- the same bits are as an int32_t.
abbrev pub Checked : Bool → Category → ℕ → Result ℕ → Type 0
Checked ex category v r =
    ((v < 2 ^ 31) × (r ≡ ok v))
    ⊎ ((2 ^ 31 ≤ v) × (r ≡ (if ex then throw (system_error (signed32 v) category) else terminate)))

module _ {W : Type 0} (ex : Bool) (api : EventApi W) where
  -- Where the RTOS answers with uint32_t values, `get`, `set`, `clear` and `wait` return every answer
  -- without the error bit unchanged, and fail with every other, `get` in the category for status
  -- codes and the others in that for flags.
  pub event-Checked :
      (m_id mask flg : ℕ) (w : W)
      → (api.os_event_flags_get m_id w).0 < 2 ^ 32
      → (api.os_event_flags_set m_id mask w).0 < 2 ^ 32
      → (api.os_event_flags_clear m_id mask w).0 < 2 ^ 32
      → (api.os_event_flags_wait m_id mask (wait_option flg) os_wait_forever w).0 < 2 ^ 32
      → Checked ex os_category (api.os_event_flags_get m_id w).0 (get ex api m_id w).0
        × Checked ex flags_category
            (api.os_event_flags_set m_id mask w).0
            (set ex api m_id mask w).0
        × Checked ex flags_category
            (api.os_event_flags_clear m_id mask w).0
            (clear ex api m_id mask w).0
        × Checked ex flags_category
            (api.os_event_flags_wait m_id mask (wait_option flg) os_wait_forever w).0
            (wait ex api m_id mask flg w).0
  unfolding get set clear wait
  event-Checked m_id mask flg w g s c a = (ground arith, ground arith, ground arith, ground arith)

-- What CMSIS-RTOS2 documents of event objects: a new one has no flag set, setting flags gives the union
-- of the flags, and flags read back as they are.
pub record HasEvents {W : Type 0} (api : EventApi W) (flags : ℕ → W → ℕ) : Type 0 where
  pub new_empty :
      (w : W)
      → ((api.os_event_flags_new w).0 ≢ 0)
        × (flags (api.os_event_flags_new w).0 (api.os_event_flags_new w).1 ≡ 0)
  pub set_union :
      (m_id mask : ℕ) (w : W)
      → m_id ≢ 0
      → mask < 2 ^ 31
      → ((api.os_event_flags_set m_id mask w).0 ≡ bit_or (flags m_id w) mask)
        × (flags m_id (api.os_event_flags_set m_id mask w).1 ≡ bit_or (flags m_id w) mask)
  pub get_flags : (m_id : ℕ) (w : W) → m_id ≢ 0 → (api.os_event_flags_get m_id w).0 ≡ flags m_id w

zero-bit_or : (b : ℕ) → bit_or 0 b ≡ b
zero-bit_or b = bit_or-bitwise 0 b

module _ {W : Type 0} (ex : Bool) (api : EventApi W) (flags : ℕ → W → ℕ)
    (events : HasEvents api flags) where
  -- An event constructed with a mask of the 31 flags reads back exactly that mask.
  pub get-construct :
      (mask : ℕ) (w : W)
      → mask < 2 ^ 31
      → ((do m_id ← construct ex api mask; get ex api m_id) w).0 ≡ ok mask
  unfolding construct get set
  get-construct mask w h =
      let m_id = (api.os_event_flags_new w).0 in
      let w' = (api.os_event_flags_new w).1 in
      let n = events.new_empty w in
      ground (
        arith,
        n,
        events.set_union m_id mask w' n.0 h,
        events.get_flags m_id w' n.0,
        events.get_flags m_id (api.os_event_flags_set m_id mask w').1 n.0,
        zero-bit_or mask,
      )

module _ {W : Type 0} (ex : Bool) (api : EventApi W) where
  -- Moving an event hands its handle over, and destroying what is left of the old object calls
  -- nothing and fails never.
  pub destroy-move_construct :
      (evt : ℕ) (w : W)
      → ((move_construct evt).0 ≡ evt) × (destroy ex api (move_construct evt).1 w ≡ (ok tt, w))
  unfolding destroy move_construct
  destroy-move_construct evt w = ground arith
