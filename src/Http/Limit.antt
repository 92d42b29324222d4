-- ===== src/Http/Limit.antt =====
-- parseLimit of internal/transport/http/handler.go, and strconv.Atoi as it uses it.
use storefront.Common.{
  Bool, Bool-cases, Option, Text, [], ap, arith, codes, false, if◌then◌else◌, inl, inr, leb, ltb,
  lt→ltb, negsuc, none, pos, refl, some, suc, text_eq, true, zero, ℕ, ℤ, ◌%◌, ◌&&◌, ◌*◌, ◌+◌, ◌-◌,
  ◌/◌, ◌<◌, ◌==◌, ◌^◌, ◌∙◌, ◌∷◌, ◌≡◌, ◌≤◌,
}
use storefront.Domain.Pages.{default_page_size, normalize_page_size}
use storefront.Errors.{Result, err, message, ok}
use storefront.Store.Orders.{digit_loop, format_nat}

abbrev is_digit : ℕ → Bool
is_digit b = leb 48 b && leb b 57

-- the number that digits write behind `n`
unfoldable pub read_digits : ℕ → Text → Option ℕ
read_digits n [] = some n
read_digits n (b ∷ t) = if is_digit b then read_digits (n * 10 + (b - 48)) t else none

abbrev pub read_nat : Text → Option ℕ
read_nat [] = none
read_nat (b ∷ t) = read_digits 0 (b ∷ t)

-- an int has 64 bits
abbrev pub not_negated : Option ℕ → Option ℤ
not_negated none = none
not_negated (some n) = if ltb n (2 ^ 63) then some (pos n) else none

abbrev pub negated : Option ℕ → Option ℤ
negated none = none
negated (some zero) = some (pos 0)
negated (some (suc n)) = if ltb n (2 ^ 63) then some (negsuc n) else none

-- strconv.Atoi
unfoldable pub atoi : Text → Option ℤ
atoi [] = none
atoi (b ∷ t) =
    if b == b'-'
    then negated (read_nat t)
    else if b == b'+'
    then not_negated (read_nat t)
    else not_negated (read_nat (b ∷ t))

abbrev pub limit_of : Option ℤ → Result ℤ
limit_of none = err (message (codes "invalid limit"))
limit_of (some n) = ok (normalize_page_size n)

-- `parseLimit`
unfoldable pub parse_limit : Text → Result ℤ
parse_limit raw = if text_eq raw [] then ok default_page_size else limit_of (atoi raw)

read_digit-cons :
    (m n : ℕ) (t : Text) → read_digits m ((48 + n % 10) ∷ t) ≡ read_digits (m * 10 + n % 10) t
unfolding read_digits
read_digit-cons m n t = ground arith

-- reading what has been printed in front of a text goes on behind the number
read-digit_loop :
    (f n : ℕ) (acc : Text) → n ≤ f → read_digits 0 (digit_loop f n acc) ≡ read_digits n acc
unfolding digit_loop
read-digit_loop zero n acc h = ap (λ k. read_digits k acc) (omega arith)
read-digit_loop (suc f) n acc h = elim (Bool-cases (n == 0)) [
  | inl z ↦ rw z (ap (λ k. read_digits k acc) (ground arith))
  | inr nz ↦ rw nz (
      read-digit_loop f (n / 10) ((48 + n % 10) ∷ acc) (ground arith)
      ∙ read_digit-cons (n / 10) n acc
      ∙ ap (λ k. read_digits k acc) (omega arith))
]

-- printed digits begin with a digit
abbrev Begins : Text → Type 0
Begins [] = ⊥
Begins (b ∷ t) = is_digit b ≡ true

digit_loop-Begins : (f n : ℕ) (acc : Text) → Begins acc → Begins (digit_loop f n acc)
unfolding digit_loop
digit_loop-Begins zero n acc h = h
digit_loop-Begins (suc f) n acc h = elim (Bool-cases (n == 0)) [
  | inl z ↦ rw z h
  | inr nz ↦ rw nz (digit_loop-Begins f (n / 10) ((48 + n % 10) ∷ acc) (ground arith))
]

suc-not_zero : (n : ℕ) → (suc n == 0) ≡ false
suc-not_zero n = ground arith

format_nat-Begins : (n : ℕ) → Begins (format_nat n)
unfolding format_nat digit_loop
format_nat-Begins zero = refl
format_nat-Begins (suc n) =
    rw (suc-not_zero n) (digit_loop-Begins n (suc n / 10) ((48 + suc n % 10) ∷ []) (ground arith))

read-format_nat : (n : ℕ) → read_digits 0 (format_nat n) ≡ some n
unfolding format_nat read_digits
read-format_nat zero = refl
read-format_nat (suc n) = rw (suc-not_zero n) (read-digit_loop (suc n) (suc n) [] (omega arith))

atoi_digits :
    (t : Text) (n : ℕ) → Begins t → read_digits 0 t ≡ some n → atoi t ≡ not_negated (some n)
unfolding atoi
atoi_digits [] n b h = elim b [ ]
atoi_digits (d ∷ t) n b h = ground (arith, ap not_negated h)

nonempty_digits : (t : Text) → Begins t → text_eq t [] ≡ false
unfolding text_eq
nonempty_digits [] b = elim b [ ]
nonempty_digits (d ∷ t) b = refl

-- A limit that is written as the decimal digits of a number below 2^63 is read as that number, brought
-- into the range of page sizes.
pub parse_limit-format_nat :
    (n : ℕ) → n < 2 ^ 63 → parse_limit (format_nat n) ≡ ok (normalize_page_size (pos n))
unfolding parse_limit
parse_limit-format_nat n h =
    let digits = format_nat-Begins n in
    rw
      (
        nonempty_digits (format_nat n) digits,
        atoi_digits (format_nat n) n digits (read-format_nat n),
      )
      (rw (lt→ltb n (2 ^ 63) h) refl)
