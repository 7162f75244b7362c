-- ===== src/Errors/Context/Decimal.antt =====
-- The text of an error is read back: the failing call, and the object's number.
use cmsis_cpp.Base.{
  ℕ, zero, suc, ◌+◌, ◌-◌, ◌*◌, ◌/◌, ◌%◌, ◌<◌, ◌≡◌, ap, Bool, true, false, ◌&&◌, leb, ◌==◌,
  if◌then◌else◌, List, [], ◌∷◌, ◌++◌, Option, none, some, arith,
}
use mathlib.Core.List.{append_assoc}
use mathlib.Core.Option
use cmsis_cpp.Errors.Context.{digits, to_string, str_error}

-- Reads digits and a closing parenthesis that ends the text.
pub read_digits : ℕ → List ℕ → Option ℕ
read_digits n [] = none
read_digits n (c ∷ []) = if c == b')' then some n else none
read_digits n (c ∷ d ∷ cs) =
    let rest = read_digits (n * 10 + (c - b'0')) (d ∷ cs) in
    if leb b'0' c && leb c b'9' then rest else none

-- Reads a name up to an opening parenthesis, and the number behind it.
pub read_error : List ℕ → Option (List ℕ × ℕ)
unfolding read_digits
read_error [] = none
read_error (c ∷ cs) =
    let rest = Option.map (λ (r : List ℕ × ℕ). (c ∷ r.0, r.1)) (read_error cs) in
    if c == b'(' then Option.map (λ n. ([], n)) (read_digits 0 cs) else rest

abbrev pub has_parenthesis : List ℕ → Bool
has_parenthesis [] = false
has_parenthesis (c ∷ cs) = if c == b'(' then true else has_parenthesis cs

read_digits-digits :
    (fuel n d : ℕ) (ys : List ℕ)
    → n < fuel
    → read_digits 0 (digits fuel n ++ d ∷ ys) ≡ read_digits n (d ∷ ys)
unfolding digits read_digits
read_digits-digits zero n d ys h = absurd (omega arith)
read_digits-digits (suc fuel) n d ys h = ground (
  arith,
  append_assoc (digits fuel (n / 10)) ((b'0' + n % 10) ∷ []) (d ∷ ys),
  read_digits-digits fuel (n / 10) (b'0' + n % 10) (d ∷ ys),
)

-- Where the name of the failing call has no opening parenthesis, the name and the number of the object are
-- read back from the text, as what stands before one and as the decimal number between it and the closing
-- parenthesis that ends the text.
pub read_error-str_error :
    (func : List ℕ) (id : ℕ)
    → has_parenthesis func ≡ false
    → read_error (str_error func id) ≡ some (func, id)
unfolding str_error read_error read_digits to_string
read_error-str_error [] id h =
    ap (Option.map (λ n. ([], n))) (read_digits-digits (suc id) id b')' [] (omega arith))
read_error-str_error (f ∷ fs) id h = ground (arith, read_error-str_error fs id)
