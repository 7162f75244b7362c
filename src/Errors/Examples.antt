-- ===== src/Errors/Examples.antt =====
-- Tests and witnesses on the texts of errors.
use cmsis_cpp.Base.{List, [], ◌∷◌}
use cmsis_cpp.Errors.Context.{str_error}
use cmsis_cpp.Errors.Context.Decimal.{read_error, read_error-str_error}
use cmsis_cpp.Base.{ℕ, ◌≡◌, ◌≢◌, ◌≤◌, ◌<◌, ◌⊎◌, refl, none, some}
use cmsis_cpp.Base.Int.{pos, negsuc}
use cmsis_cpp.Errors.{os_message, flags_message}
use cmsis_cpp.Errors.Messages.{os_message_unknown}

parameter_text : os_message none (negsuc 3) ≡ "Parameter error"
parameter_text = refl

timeout_text :
    flags_message (negsuc 1)
    ≡ "A timeout was specified and the specified flags were not set, when the timeout occurred"
timeout_text = refl

os_message_unknown_example :
    ((n : ℕ) × (6 ≤ n) × (negsuc 9 ≡ negsuc n))
    ⊎ ((n : ℕ) × (0 < n) × (n ≢ 0x7FFFFFFF) × (negsuc 9 ≡ pos n))
os_message_unknown_example = os_message_unknown (negsuc 9) refl

-- "join"
abbrev sample_func : List ℕ
sample_func = b'j' ∷ b'o' ∷ b'i' ∷ b'n' ∷ []

read_error-str_error_example :
    read_error (str_error sample_func 536871048) ≡ some (sample_func, 536871048)
read_error-str_error_example = read_error-str_error sample_func 536871048 refl

str_error_text :
    str_error sample_func 40 ≡ b'j' ∷ b'o' ∷ b'i' ∷ b'n' ∷ b'(' ∷ b'4' ∷ b'0' ∷ b')' ∷ []
unfolding str_error
str_error_text = refl
