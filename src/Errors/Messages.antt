-- ===== src/Errors/Messages.antt =====
-- Which codes have a text of their own.
use mathlib.Core.Path.{subst}
use cmsis_cpp.Base.{ℕ, zero, suc, ◌≤◌, ◌<◌, ◌≡◌, ◌≢◌, ◌⊎◌, inl, inr, refl, none, arith}
use cmsis_cpp.Base.Int.{ℤ, pos, negsuc}
use cmsis_cpp.Errors.{os_message, unknown_error}

text_reserved : ¬ (os_message none (pos 0x7FFFFFFF) ≡ unknown_error)
text_reserved h = absurd (cc)

-- Without RTX5, a code of RTOS functions has the text of an unknown error only if it is below -6 or
-- above 0 and not osStatusReserved.
pub os_message_unknown :
    (c : ℤ)
    → os_message none c ≡ unknown_error
    → ((n : ℕ) × (6 ≤ n) × (c ≡ negsuc n)) ⊎ ((n : ℕ) × (0 < n) × (n ≢ 0x7FFFFFFF) × (c ≡ pos n))
os_message_unknown (pos zero) h = absurd (cc)
os_message_unknown (pos (suc n)) h = inr (
  suc n,
  omega arith,
  (λ e. text_reserved (subst (λ m. os_message none (pos m) ≡ unknown_error) e h)),
  refl,
)
os_message_unknown (negsuc zero) h = absurd (cc)
os_message_unknown (negsuc (suc zero)) h = absurd (cc)
os_message_unknown (negsuc (suc (suc zero))) h = absurd (cc)
os_message_unknown (negsuc (suc (suc (suc zero)))) h = absurd (cc)
os_message_unknown (negsuc (suc (suc (suc (suc zero))))) h = absurd (cc)
os_message_unknown (negsuc (suc (suc (suc (suc (suc zero)))))) h = absurd (cc)
os_message_unknown (negsuc (suc (suc (suc (suc (suc (suc n))))))) h = inl (_, omega arith, refl)
