-- ===== src/ConditionVariable/Repeating.antt =====
-- notify_one called again and again, against one call of notify_all.
use cmsis_cpp.Base.{
  ℕ, zero, suc, ◌≡◌, refl, ap, sym, ◌∙◌, inl, inr, true, List, [], ◌∷◌, none, some, Option, arith,
  length, Bool-cases,
}
use mathlib.Core.Path.{subst}
use cmsis_cpp.ConditionVariable.{
  Cv, Fault, Event, start, update, is_waiting, release, release_all, notify_one, notify_all, run,
}
use cmsis_cpp.ConditionVariable.Invariant.{
  Inv, listed, release_all_step, notify_one-front, notify_one-Inv,
}
use cmsis_cpp.ConditionVariable.Notifying.{run-Sound, unbroken-Inv}

abbrev pub notify_times : ℕ → Cv → Cv
notify_times zero s = s
notify_times (suc n) s = notify_times n (notify_one s)

-- Whoever releases semaphores does not look at the list.
release-list :
    (i : ℕ) (xs : List ℕ) (s : Cv)
    → release i (record s { m_wait = xs }) ≡ record (release i s) { m_wait = xs }
unfolding release
release-list i xs s = elim (Bool-cases (is_waiting (s.phase i))) [
  | inl w ↦ elim (Bool-cases (s.token i)) [ inl t ↦ rw (w, t) refl | inr t ↦ rw (w, t) refl ]
  | inr w ↦ rw w refl
]

release_all-list :
    (is xs : List ℕ) (s : Cv)
    → release_all is (record s { m_wait = xs }) ≡ record (release_all is s) { m_wait = xs }
unfolding release_all
release_all-list [] xs s = refl
release_all-list (i ∷ is) xs s =
    ap (chosen (λ c. release_all is c)) (release-list i xs s)
    ∙ through (release i s).fault (release_all-list is xs (release i s))
  where
    chosen : (Cv → Cv) → Cv → Cv
    chosen k c = elim c.fault [ none ↦ k c | some g ↦ c ]

    through :
        (f : Option Fault)
        → release_all is (record (release i s) { m_wait = xs })
          ≡ record (release_all is (release i s)) { m_wait = xs }
        → elim f as (λ _. Cv) [
          | none ↦ release_all is (record (release i s) { m_wait = xs })
          | some g ↦ record (release i s) { m_wait = xs }
        ]
          ≡ record (elim f as (λ _. Cv) [
            | none ↦ release_all is (release i s)
            | some g ↦ release i s
          ]) { m_wait = xs }
    through none e = e
    through (some g) e = refl

times-all :
    (xs : List ℕ) (s : Cv) → s.m_wait ≡ xs → Inv s → notify_times (length xs) s ≡ notify_all s
unfolding notify_all release_all
times-all [] s e v =
    ap (λ xs. record s { m_wait = xs }) e
    ∙ sym (ap (λ xs. record (release_all xs s) { m_wait = [] }) e)
times-all (i ∷ is) s e v =
    let l = listed i s (rw e (ground arith)) v in
    let s₁ : Cv = record s { token = update s.token i true } in
    let s' : Cv = record s₁ { m_wait = is } in
    let front = notify_one-front i is s e v in
    let v' : Inv s' = subst Inv front (notify_one-Inv s v) in
    ap (notify_times (length is)) front
    ∙ times-all is s' refl v'
    ∙ ap (λ (c : Cv). record c { m_wait = [] }) (release_all-list is is s₁)
    ∙ sym (
        ap (λ xs. record (release_all xs s) { m_wait = [] }) e
        ∙ ap (λ (c : Cv). record c { m_wait = [] }) (release_all_step i is s v.unbroken l.0 l.1))

-- In a state that a run reaches without a fault, notify_one called once for each thread in the list comes
-- to the same as one call of notify_all.
pub notify_times-notify_all :
    (es : List Event) (s : Cv)
    → run es start ≡ some s
    → s.fault ≡ none
    → notify_times (length s.m_wait) s ≡ notify_all s
notify_times-notify_all es s h f = times-all s.m_wait s refl (unbroken-Inv s (run-Sound es s h) f)
