-- ===== src/Flags/WaitFlag/Options.antt =====
-- The wait option, and the assigning operators.
use cmsis_cpp.Base.{ℕ, zero, suc, ◌/◌, ◌%◌, ◌<◌, ◌≡◌, refl, sym, arith}
use cmsis_cpp.Flags.WaitFlag.{flag_or, flag_or_assign, wait_option}

-- For each of the four combinations of `all` and `no_clear`, the option handed to the RTOS has
-- osFlagsWaitAll exactly if `all` is set, and osFlagsNoClear exactly if `no_clear` is.
pub wait_option_bits :
    (flg : ℕ)
    → flg < 4
    → (wait_option flg < 4) × (wait_option flg % 2 ≡ flg % 2) × (wait_option flg / 2 ≡ flg / 2)
unfolding wait_option
wait_option_bits zero h = (omega arith, refl, refl)
wait_option_bits (suc zero) h = (omega arith, refl, refl)
wait_option_bits (suc (suc zero)) h = (omega arith, refl, refl)
wait_option_bits (suc (suc (suc zero))) h = (omega arith, refl, refl)
wait_option_bits (suc (suc (suc (suc n)))) h = absurd (omega arith)

-- `a |= b` leaves `a` as it is, and gives the union only as its value: it sets no flag in `a`, though
-- `a | b` differs from `a`.
pub flag_or_assign_keeps :
    (a b : ℕ)
    → (flag_or a b ≡ a → ⊥)
    → (flag_or_assign a b ≡ (a, flag_or a b))
      × ((flag_or_assign a b).0 ≡ (flag_or_assign a b).1 → ⊥)
unfolding flag_or_assign flag_or
flag_or_assign_keeps a b h = (refl, λ e. h (sym e))
