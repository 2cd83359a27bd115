-- ===== src/Base/Numerals.antt =====
-- fmt.Sprintf("%06d", n) of a natural number, and a float64 by its bits.
use Prim.Native.Nat.{ℕ, zero, suc, ◌+◌, ◌-◌, ◌*◌, ◌/◌, ◌%◌, ◌≤◌}
use mathlib.Core.Path.{◌≡◌, refl, sym, ap, ◌∙◌}
use mathlib.Core.Bool.{Bool, ◌&&◌}
use mathlib.Core.List.{[], ◌∷◌, ◌++◌}
use native.Mathlib.Omega.{arith}
use anix_ops_sd_wan.Base.Tests.{ltb, leb, eqb, if◌then◌else◌}
use anix_ops_sd_wan.Base.Strings.{Text}

-- The decimal digits of n, none for 0. The fuel n is enough, since n / 10 < n.
unfoldable pub digits : ℕ → ℕ → Text
digits zero n = []
digits (suc fuel) n =
    let front = digits fuel (n / 10) in if eqb n 0 then [] else front ++ ((48 + n % 10) ∷ [])

-- Six digits with zeros in front, and more where the number needs them.
unfoldable pub six_digits : ℕ → Text
six_digits n =
    digits (n / 1000000) (n / 1000000)
    ++ ((48 + n / 100000 % 10)
        ∷ (48 + n / 10000 % 10)
        ∷ (48 + n / 1000 % 10)
        ∷ (48 + n / 100 % 10)
        ∷ (48 + n / 10 % 10)
        ∷ (48 + n % 10)
        ∷ [])

-- The number that a text of digits writes, with the number written so far.
read_digits : ℕ → Text → ℕ
read_digits seen [] = seen
read_digits seen (c ∷ s) = read_digits (seen * 10 + (c - 48)) s

read_digits-append :
    (seen : ℕ) (s t : Text) → read_digits seen (s ++ t) ≡ read_digits (read_digits seen s) t
unfolding read_digits
read_digits-append seen [] t = refl
read_digits-append seen (c ∷ s) t = read_digits-append (seen * 10 + (c - 48)) s t

read_digits-digits : (fuel n : ℕ) → n ≤ fuel → read_digits 0 (digits fuel n) ≡ n
unfolding digits read_digits
read_digits-digits zero n h = omega arith
read_digits-digits (suc fuel) n h =
    let front = read_digits-digits fuel (n / 10) in
    let joined = read_digits-append 0 (digits fuel (n / 10)) ((48 + n % 10) ∷ []) in
    ground (arith, joined, front)

read_digits-six_digits : (n : ℕ) → read_digits 0 (six_digits n) ≡ n
unfolding six_digits read_digits
read_digits-six_digits n =
    let high = n / 1000000 in
    let written = read_digits-digits high high (omega arith) in
    let joined = read_digits-append 0 (digits high high) (
      (48 + n / 100000 % 10)
      ∷ (48 + n / 10000 % 10)
      ∷ (48 + n / 1000 % 10)
      ∷ (48 + n / 100 % 10)
      ∷ (48 + n / 10 % 10)
      ∷ (48 + n % 10)
      ∷ []) in
    joined ∙ rw written (omega arith)

-- Two numbers with the same text are the same.
pub six_digits_inj : (m n : ℕ) → six_digits m ≡ six_digits n → m ≡ n
six_digits_inj m n h =
    sym (read_digits-six_digits m) ∙ ap (read_digits 0) h ∙ read_digits-six_digits n

-- strconv.FormatUint(n, 10), and FormatInt of a number that is not negative
unfoldable pub format_uint : ℕ → Text
format_uint n = if eqb n 0 then 48 ∷ [] else digits n n

read_digits-format_uint : (n : ℕ) → read_digits 0 (format_uint n) ≡ n
unfolding format_uint read_digits
read_digits-format_uint n = ground (arith, read_digits-digits n n (omega arith))

pub format_uint_inj : (m n : ℕ) → format_uint m ≡ format_uint n → m ≡ n
format_uint_inj m n h =
    sym (read_digits-format_uint m) ∙ ap (read_digits 0) h ∙ read_digits-format_uint n

-- A float64 as its IEEE 754 bits: the numbers from +0 up to infinity are ordered like their bits,
-- the negative ones carry the sign bit, and each comparison with a NaN is false.
abbrev pub Float64 : Type 0
Float64 = ℕ

-- x < 0
abbrev pub is_negative : Float64 → Bool
is_negative x = ltb 0x8000000000000000 x && leb x 0xFFF0000000000000

-- x > 1
abbrev pub is_above_one : Float64 → Bool
is_above_one x = ltb 0x3FF0000000000000 x && leb x 0x7FF0000000000000

-- x >= 0.5
abbrev pub is_at_least_half : Float64 → Bool
is_at_least_half x = leb 0x3FE0000000000000 x && leb x 0x7FF0000000000000
