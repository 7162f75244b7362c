-- ===== src/MemoryPool/Pointers.antt =====
-- The smart pointers of a client over a history of make_unique and of their ends, include/Memory.h.
pub mod Balance
mod Examples
use cmsis_cpp.Base.{
  ℕ, suc, ◌+◌, ◌≤◌, ◌<◌, ◌≡◌, ◌≢◌, refl, inl, inr, Bool, true, false, List, [], ◌∷◌, ◌++◌, arith,
  ◌∙◌, length, ltb, ◌==◌, if◌then◌else◌, Bool-cases, le-cases, ap,
}
use cmsis_cpp.Base.Counts.{count, count-append}
use cmsis_cpp.Rtos.{Action, Result, Error, ok, throw, terminate, pure, ◌>>=◌, ◌>>◌}
use cmsis_cpp.MemoryPool.{
  MemoryPoolApi, allocate, deallocate, size, max_size, make_pointer, delete_object,
}
use cmsis_cpp.MemoryPool.Contract.{IsPool, contains, remove}

-- The state of the RTOS and of T's objects, and the addresses that live smart pointers hold.
pub record Holder (W : Type 0) : Type 0 where
  pub world : W
  pub held : List ℕ

-- `makes` is make_unique where size() is less than max_size(), `drops p` the end of the smart pointer
-- that holds `p`.
pub data Op : Type 0 where
  makes : Op
  drops : ℕ → Op

-- What T's constructor and destructor, and the calls of the RTOS, do to the blocks in use and to two
-- logs: `begun` of the addresses at which a constructor ran, whether it threw or not, and
-- `destroyed` of those at which a destructor ran. A constructor does not end the program.
pub record IsTracked {W : Type 0} (api : MemoryPoolApi W)
    (construct_object : ℕ → Action W (Unit {0})) (destroy_object : ℕ → W → W) (m_id : ℕ)
    (used begun destroyed : W → List ℕ) : Type 0 where
  pub construct_ends : (p : ℕ) (w : W) → (construct_object p w).0 ≢ terminate
  pub construct_used : (p : ℕ) (w : W) → used (construct_object p w).1 ≡ used w
  pub construct_begun : (p : ℕ) (w : W) → begun (construct_object p w).1 ≡ begun w ++ p ∷ []
  pub construct_destroyed : (p : ℕ) (w : W) → destroyed (construct_object p w).1 ≡ destroyed w
  pub destroy_used : (p : ℕ) (w : W) → used (destroy_object p w) ≡ used w
  pub destroy_begun : (p : ℕ) (w : W) → begun (destroy_object p w) ≡ begun w
  pub destroy_destroyed : (p : ℕ) (w : W) → destroyed (destroy_object p w) ≡ destroyed w ++ p ∷ []
  pub alloc_begun :
      (timeout : ℕ) (w : W) → begun (api.os_memory_pool_alloc m_id timeout w).1 ≡ begun w
  pub alloc_destroyed :
      (timeout : ℕ) (w : W) → destroyed (api.os_memory_pool_alloc m_id timeout w).1 ≡ destroyed w
  pub free_begun : (p : ℕ) (w : W) → begun (api.os_memory_pool_free m_id p w).1 ≡ begun w
  pub free_destroyed :
      (p : ℕ) (w : W) → destroyed (api.os_memory_pool_free m_id p w).1 ≡ destroyed w

-- Where making a pointer throws, no smart pointer is left.
abbrev pub hold : Result ℕ → List ℕ → List ℕ
hold (ok p) ps = if p == 0 then ps else p ∷ ps
hold (throw e) ps = ps
hold terminate ps = ps

module _ {W : Type 0} (ex : Bool) (api : MemoryPoolApi W)
    (construct_object : ℕ → Action W (Unit {0})) (destroy_object : ℕ → W → W) (m_id : ℕ) where
  pub make_if_room : Action W ℕ
  make_if_room =
      let pointer = make_pointer ex api construct_object destroy_object m_id in
      do n ← size ex api m_id; c ← max_size ex api m_id; if ltb n c then pointer else pure 0

  -- The client's calls, after which it goes on whatever they return.
  abbrev pub perform : Op → Holder W → Holder W
  perform makes o = let (r, w) = make_if_room o.world in record { world = w; held = hold r o.held }
  perform (drops p) o =
      if contains p o.held
      then record {
        world = (delete_object ex api construct_object destroy_object m_id p o.world).1;
        held = remove p o.held;
      }
      else o

  unfoldable pub history : List Op → Holder W → Holder W
  history [] o = o
  history (op ∷ ops) o = history ops (perform op o)

-- The blocks in use are those that smart pointers hold, each as often, and each run of a constructor is
-- matched by one of a destructor, or by a smart pointer.
pub record Balanced {W : Type 0} (used begun destroyed : W → List ℕ) (o : Holder W) : Type 0 where
  pub in_use : (p : ℕ) → count p (used o.world) ≡ count p o.held
  pub ended : (p : ℕ) → count p (begun o.world) ≡ count p (destroyed o.world) + count p o.held
  pub no_null : contains 0 o.held ≡ false
