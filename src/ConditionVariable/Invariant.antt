-- ===== src/ConditionVariable/Invariant.antt =====
-- The invariant of the waiting list: which threads stand in it, and which semaphores have a token.
use cmsis_cpp.Base.{
  ℕ, ◌≡◌, refl, ap, ◌∙◌, ◌⊎◌, inl, inr, Bool, true, false, not, ◌==◌, List, [], ◌∷◌, ◌++◌, none,
  arith, if◌then◌else◌,
}
use mathlib.Core.Path.{subst}
use cmsis_cpp.ConditionVariable.{
  Cv, Phase, outside, blocked, acquired, expired, returned, start, update, contains, remove,
  is_waiting, release, release_all, notify_first, notify_one, notify_all, enter, take, expire,
  finish_acquired, finish_expired, is_blocked,
}

abbrev pub Distinct : List ℕ → Type 0
Distinct [] = Unit {0}
Distinct (i ∷ is) = (contains i is ≡ false) × Distinct is

-- How a thread may stand, given whether it is in the list and whether its semaphore has a token.
abbrev pub fits : Bool → Phase → Bool → Bool
fits true outside t = false
fits true blocked t = not t
fits true acquired t = false
fits true expired t = not t
fits true (returned st) t = false
fits false outside t = true
fits false blocked t = t
fits false acquired t = not t
fits false expired t = t
fits false (returned st) t = true

pub record Inv (s : Cv) : Type 0 where
  pub unbroken : s.fault ≡ none
  pub distinct : Distinct s.m_wait
  pub fit : (i : ℕ) → fits (contains i s.m_wait) (s.phase i) (s.token i) ≡ true

contains-append :
    (i j : ℕ) (xs : List ℕ) → contains i (xs ++ j ∷ []) ≡ (if i == j then true else contains i xs)
contains-append i j [] = refl
contains-append i j (x ∷ xs) = ground (arith, contains-append i j xs)

Distinct-append :
    (j : ℕ) (xs : List ℕ) → contains j xs ≡ false → Distinct xs → Distinct (xs ++ j ∷ [])
Distinct-append j [] h d = (refl, tt)
Distinct-append j (x ∷ xs) h d = ground (arith, contains-append x j xs, Distinct-append j xs)

contains-remove :
    (i j : ℕ) (xs : List ℕ)
    → Distinct xs
    → contains i (remove j xs) ≡ (if i == j then false else contains i xs)
contains-remove i j [] d = ground arith
contains-remove i j (x ∷ xs) d = ground (arith, contains-remove i j xs)

Distinct-remove : (j : ℕ) (xs : List ℕ) → Distinct xs → Distinct (remove j xs)
Distinct-remove j [] d = tt
Distinct-remove j (x ∷ xs) d = ground (arith, Distinct-remove j xs d.1, contains-remove x j xs d.1)

pub start-Inv : Inv start
unfolding start
start-Inv = record { unbroken = refl; distinct = tt; fit = λ i. refl }

pub enter-Inv : (i : ℕ) (s : Cv) → is_waiting (s.phase i) ≡ false → Inv s → Inv (enter i s)
unfolding enter
enter-Inv i s h v = record {
  unbroken = v.unbroken;
  distinct = Distinct-append i s.m_wait (ground (arith, v.fit i)) v.distinct;
  fit = λ j. ground (arith, v.fit j, v.fit i, contains-append j i s.m_wait);
}

pub take-Inv :
    (i : ℕ) (s : Cv) → is_blocked (s.phase i) ≡ true → s.token i ≡ true → Inv s → Inv (take i s)
unfolding take
take-Inv i s h t v = record {
  unbroken = v.unbroken;
  distinct = v.distinct;
  fit = λ j. ground (arith, v.fit j, v.fit i);
}

pub expire-Inv :
    (i : ℕ) (s : Cv) → is_blocked (s.phase i) ≡ true → s.token i ≡ false → Inv s → Inv (expire i s)
unfolding expire
expire-Inv i s h t v = record {
  unbroken = v.unbroken;
  distinct = v.distinct;
  fit = λ j. ground (arith, v.fit j, v.fit i);
}

pub finish_acquired-Inv :
    (i : ℕ) (s : Cv) → s.phase i ≡ acquired → Inv s → Inv (finish_acquired i s)
unfolding finish_acquired
finish_acquired-Inv i s h v = record {
  unbroken = v.unbroken;
  distinct = v.distinct;
  fit = λ j. ground (arith, v.fit j, v.fit i);
}

pub finish_expired-Inv :
    (i : ℕ) (s : Cv)
    → s.phase i ≡ expired
    → contains i s.m_wait ≡ true
    → Inv s
    → Inv (finish_expired i s)
unfolding finish_expired
finish_expired-Inv i s h c v = rw c (record {
  unbroken = v.unbroken;
  distinct = Distinct-remove i s.m_wait v.distinct;
  fit = λ j. ground (arith, v.fit j, v.fit i, contains-remove j i s.m_wait v.distinct);
})

-- A thread in the list is inside the call, and its semaphore has no token.
pub listed :
    (i : ℕ) (s : Cv)
    → contains i s.m_wait ≡ true
    → Inv s
    → (is_waiting (s.phase i) ≡ true) × (s.token i ≡ false)
listed i s h v = ground (arith, v.fit i)

pub release_lem :
    (i : ℕ) (s : Cv)
    → is_waiting (s.phase i) ≡ true
    → s.token i ≡ false
    → release i s ≡ record s { token = update s.token i true }
unfolding release
release_lem i s h t = rw (h, t)

pub release_all_step :
    (i : ℕ) (is : List ℕ) (s : Cv)
    → s.fault ≡ none
    → is_waiting (s.phase i) ≡ true
    → s.token i ≡ false
    → release_all (i ∷ is) s ≡ release_all is (record s { token = update s.token i true })
unfolding release_all release
release_all_step i is s f h t =
    let e = release_lem i s h t in
    let unbroken : (release i s).fault ≡ none = ap (λ (c : Cv). c.fault) e ∙ f in
    let open_step : release_all (i ∷ is) s ≡ release_all is (release i s) =
      rw (unbroken, release_all) in
    open_step ∙ ap (release_all is) e

-- Releasing the semaphores of distinct threads that wait without a token gives each of them one, and
-- changes nothing else.
pub release_all-tokens :
    (is : List ℕ) (s : Cv)
    → s.fault ≡ none
    → Distinct is
    → ((i : ℕ) → contains i is ≡ true → (is_waiting (s.phase i) ≡ true) × (s.token i ≡ false))
    → ((release_all is s).fault ≡ none)
      × ((i : ℕ) → (release_all is s).phase i ≡ s.phase i)
      × ((i : ℕ) → (release_all is s).token i ≡ (if contains i is then true else s.token i))
unfolding release_all
release_all-tokens [] s f d h = (f, λ i. refl, λ i. refl)
release_all-tokens (i ∷ is) s f d h =
    let head = h i (ground arith) in
    let s' : Cv = record s { token = update s.token i true } in
    let rest = release_all-tokens is s' f d.1 (λ j c. ground (arith, d.0, h j)) in
    rw (release_all_step i is s f head.0 head.1)
      (rest.0, rest.1, λ j. ground (arith, d.0, rest.2 j))

pub notify_all-Inv : (s : Cv) → Inv s → Inv (notify_all s)
unfolding notify_all
notify_all-Inv s v =
    let r = release_all-tokens s.m_wait s v.unbroken v.distinct (λ i c. listed i s c v) in
    record { unbroken = r.0; distinct = tt; fit = λ i. rw (r.1 i, r.2 i) (ground (arith, v.fit i)) }

pub List-cases : (xs : List ℕ) → (xs ≡ []) ⊎ ((i : ℕ) × (is : List ℕ) × (xs ≡ i ∷ is))
List-cases [] = inl refl
List-cases (x ∷ xs) = inr (x, xs, refl)

-- On an empty list notify_one does nothing; otherwise it gives the thread in front its token and takes
-- it off.
pub notify_one-empty : (s : Cv) → s.m_wait ≡ [] → notify_one s ≡ s
unfolding notify_one
notify_one-empty s e = ap (λ xs. notify_first xs s) e

pub notify_one-front :
    (i : ℕ) (is : List ℕ) (s : Cv)
    → s.m_wait ≡ i ∷ is
    → Inv s
    → notify_one s ≡ record s { m_wait = is; token = update s.token i true }
unfolding notify_one
notify_one-front i is s e v =
    let l = listed i s (rw e (ground arith)) v in
    ap (λ xs. notify_first xs s) e
    ∙ ap (λ (c : Cv). record c { m_wait = is }) (release_lem i s l.0 l.1)

pub notify_one-Inv : (s : Cv) → Inv s → Inv (notify_one s)
notify_one-Inv s v = elim (List-cases s.m_wait) [
  | inl e ↦ rw (notify_one-empty s e) v
  | inr (i, is, e) ↦ rw (notify_one-front i is s e v) (
      let d : Distinct (i ∷ is) = subst Distinct e v.distinct in
      record {
        unbroken = v.unbroken;
        distinct = d.1;
        fit = λ j. ground (arith, v.fit j, v.fit i, e, d.0);
      })
]
