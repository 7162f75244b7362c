-- ===== src/Thread/Owners/Single.antt =====
-- The owners of the RTOS threads, and what happens to them where one variable changes, or two do.
use cmsis_cpp.Base.{
  ℕ, ◌≡◌, ◌≢◌, inl, inr, Bool, true, false, not, ◌&&◌, ◌||◌, ◌==◌, none, arith, if◌then◌else◌,
  eq-cases,
}
use cmsis_cpp.Thread.{Thread, joinable, get_id}
use cmsis_cpp.Thread.Owners.{update, Objects}

-- Each RTOS thread that is unclaimed has an object, which is joinable; no thread has two objects; and the
-- objects that are joinable are those of unclaimed threads.
pub record Single {W : Type 0} (unclaimed : ℕ → W → Bool) (o : Objects W) : Type 0 where
  pub owned :
      (p : ℕ)
      → unclaimed p o.world ≡ true
      → (i : ℕ) × (get_id (o.slots i) ≡ p) × (joinable (o.slots i) ≡ true)
  pub alone : (i j : ℕ) → get_id (o.slots i) ≢ 0 → get_id (o.slots i) ≡ get_id (o.slots j) → i ≡ j
  pub claimed :
      (i : ℕ)
      → get_id (o.slots i) ≢ 0
      → unclaimed (get_id (o.slots i)) o.world ≡ joinable (o.slots i)
  pub named : (i : ℕ) → joinable (o.slots i) ≡ true → get_id (o.slots i) ≢ 0

module _ {W : Type 0} (unclaimed : ℕ → W → Bool) where
  -- A variable whose object keeps its handle, and is joinable no more where a call succeeded.
  pub given_up-Single :
      (i : ℕ) (b : Bool) (t : Thread) (w : W) (o : Objects W)
      → Single unclaimed o
      → get_id t ≡ get_id (o.slots i)
      → joinable t ≡ (joinable (o.slots i) && not b)
      → ((q : ℕ) → unclaimed q w ≡ (unclaimed q o.world && not (q == get_id (o.slots i) && b)))
      → Single unclaimed (record { world = w; slots = update o.slots i t })
  given_up-Single i b t w o v same js us = record {
    owned = λ p u.
        let (j, e, c) = v.owned p (ground (arith, us p)) in (j, ground arith, ground (arith, us p));
    alone = λ j l n e. ground (arith, v.alone j l);
    claimed = λ j n. ground (arith, v.claimed j, us (get_id (o.slots j)), v.alone i j);
    named = λ j c. ground (arith, v.named j);
  }

  -- Two objects that change places, or stay.
  pub swapped :
      (i j : ℕ) (o : Objects W)
      → Single unclaimed o
      → Single unclaimed
          (record { world = o.world; slots = update (update o.slots i (o.slots j)) j (o.slots i) })
  swapped i j o v = record {
    owned = λ p u.
        let (l, e, c) = v.owned p u in
        (if l == i then j else if l == j then i else l, ground arith, ground arith);
    alone = λ k l n e.
        ground
          (arith, v.alone k l, v.alone i l, v.alone j l, v.alone k i, v.alone k j, v.alone i j);
    claimed = λ l n. ground (arith, v.claimed l, v.claimed i, v.claimed j);
    named = λ l c. ground (arith, v.named l, v.named i, v.named j);
  }

  pub unchanged :
      (i j : ℕ) (o : Objects W)
      → Single unclaimed o
      → Single unclaimed
          (record { world = o.world; slots = update (update o.slots i (o.slots i)) j (o.slots j) })
  unchanged i j o v = record {
    owned = λ p u. let (l, e, c) = v.owned p u in (l, ground arith, ground arith);
    alone = λ k l n e. ground (arith, v.alone k l);
    claimed = λ l n. ground (arith, v.claimed l);
    named = λ l c. ground (arith, v.named l);
  }

  -- A variable that gets the object of a new thread.
  pub started :
      (i p : ℕ) (t : Thread) (w : W) (o : Objects W)
      → Single unclaimed o
      → get_id (o.slots i) ≡ 0
      → get_id t ≡ p
      → joinable t ≡ true
      → p ≢ 0
      → ((j : ℕ) → get_id (o.slots j) ≢ p)
      → ((q : ℕ) → unclaimed q w ≡ (q == p || unclaimed q o.world))
      → Single unclaimed (record { world = w; slots = update o.slots i t })
  started i p t w o v z g c n new us = record {
    owned = λ q u. elim (eq-cases q p) [
      | inl e ↦ (i, ground arith, ground arith)
      | inr d ↦
          let (j, e, y) = v.owned q (ground (arith, us q)) in
          (j, ground (arith, v.named j), ground (arith, v.named j))
    ];
    alone = λ j l m e. ground (arith, v.alone j l, new j, new l);
    claimed = λ j m. ground (arith, v.claimed j, new j, us (get_id (o.slots j)), us p);
    named = λ j y. ground (arith, v.named j);
  }

  -- A variable that has no object any more, and had none that is joinable.
  pub emptied :
      (i : ℕ) (b : Bool) (w : W) (o : Objects W)
      → Single unclaimed o
      → joinable (o.slots i) ≡ false
      → ((q : ℕ) → unclaimed q w ≡ (unclaimed q o.world && not (q == get_id (o.slots i) && b)))
      → Single unclaimed (record { world = w; slots = update o.slots i none })
  unfolding get_id joinable
  emptied i b w o v c us = record {
    owned =
        λ p u. let (j, e, y) = v.owned p (ground (arith, us p)) in (j, ground arith, ground arith);
    alone = λ j l n e. ground (arith, v.alone j l);
    claimed = λ j n. ground (arith, v.claimed j, us (get_id (o.slots j)), v.alone j i);
    named = λ j y. ground (arith, v.named j);
  }
