-- ===== src/Base/Decimal/RoundTrip.antt =====
-- A number's decimal print is read back.
use Prim.Native.Nat.{ℕ, zero, suc, ◌+◌, ◌-◌, ◌*◌, ◌/◌, ◌%◌, ◌^◌, ◌<◌, ◌≤◌}
use mathlib.Core.Path.{◌≡◌, refl, ap, ◌∙◌, sym}
use mathlib.Core.Bool.{true, false}
use mathlib.Core.Logic.{inl, inr}
use mathlib.Core.Option.{some}
use mathlib.Core.List.{[], ◌∷◌, ◌++◌, append_assoc, append-nil}
use native.Mathlib.Omega.{arith}
use rook_host.Base.Tests.{ltb, ◌==◌, Bool-cases, if_split}
use rook_host.Base.Lists.{All}
use rook_host.Base.Bytes.{Bytes}
use rook_host.Base.Int.{pos}
use rook_host.Base.Decimal.{decimal_digits, decimal, is_digit, scan, scan_to, atoi}

-- Digits, of which there is one at least.
abbrev pub IsNumeral : Bytes → Type 0
IsNumeral [] = ⊥
IsNumeral (c ∷ s) = (is_digit c ≡ true) × All (λ d. is_digit d ≡ true) s

digits_snoc :
    (t : Bytes) (d : ℕ)
    → All (λ c. is_digit c ≡ true) t
    → is_digit d ≡ true
    → All (λ c. is_digit c ≡ true) (t ++ d ∷ [])
digits_snoc [] d a h = (h, tt)
digits_snoc (b ∷ t) d a h = (a.0, digits_snoc t d a.1 h)

IsNumeral-snoc : (s : Bytes) (d : ℕ) → IsNumeral s → is_digit d ≡ true → IsNumeral (s ++ d ∷ [])
IsNumeral-snoc [] d n h = absurd n
IsNumeral-snoc (c ∷ s) d n h = (n.0, digits_snoc s d n.1 h)

decimal_digits-IsNumeral :
    (fuel n : ℕ) → n < 10 ^ suc fuel → IsNumeral (decimal_digits (suc fuel) n)
unfolding decimal_digits
decimal_digits-IsNumeral zero n h =
    let small : ltb n 10 ≡ true = ground arith in rw (small) (ground arith, tt)
decimal_digits-IsNumeral (suc fuel) n h =
    if_split IsNumeral (ltb n 10) ((48 + n) ∷ [])
      (decimal_digits (suc fuel) (n / 10) ++ (48 + n % 10) ∷ []) (λ e. (ground arith, tt))
      (λ e.
        IsNumeral-snoc (decimal_digits (suc fuel) (n / 10)) (48 + n % 10)
          (decimal_digits-IsNumeral fuel (n / 10) (ground arith)) (ground arith))

scan-decimal_digits :
    (fuel n : ℕ) (rest : Bytes)
    → n < 10 ^ fuel
    → scan (decimal_digits fuel n ++ rest) 0 ≡ scan rest n
unfolding scan decimal_digits
scan-decimal_digits zero n rest h = let z : n ≡ 0 = ground arith in rw (z) refl
scan-decimal_digits (suc fuel) n rest h = elim (Bool-cases (ltb n 10)) [
  | inl e ↦
      let d : is_digit (48 + n) ≡ true = ground arith in
      let v : 0 * 10 + (48 + n - 48) ≡ n = ground arith in rw (e, d, v) refl
  | inr e ↦
      let d : is_digit (48 + n % 10) ≡ true = ground arith in
      let v : n / 10 * 10 + (48 + n % 10 - 48) ≡ n = ground arith in
      rw
        (
          e,
          append_assoc (decimal_digits fuel (n / 10)) ((48 + n % 10) ∷ []) rest,
          scan-decimal_digits fuel (n / 10) ((48 + n % 10) ∷ rest) (ground arith),
          d,
          v,
        )
        refl
]

pub decimal-IsNumeral : (n : ℕ) → n < 18446744073709551616 → IsNumeral (decimal n)
unfolding decimal
decimal-IsNumeral n h = decimal_digits-IsNumeral 19 n (ground arith)

pub scan-decimal : (n : ℕ) → n < 18446744073709551616 → scan (decimal n) 0 ≡ some n
unfolding decimal scan
scan-decimal n h =
    let e = scan-decimal_digits 20 n [] (ground arith) in
    ap (λ s. scan s 0) (sym (append-nil (decimal_digits 20 n))) ∙ e

scan_to_numeral :
    (bound n : ℕ) (s : Bytes)
    → IsNumeral s
    → scan s 0 ≡ some n
    → n ≤ bound
    → scan_to bound s ≡ some n
unfolding scan_to
scan_to_numeral bound n [] i e h = absurd i
scan_to_numeral bound n (c ∷ s) i e h = ground (arith, e)

atoi_numeral :
    (n : ℕ) (s : Bytes)
    → IsNumeral s
    → scan_to 9223372036854775807 s ≡ some n
    → atoi s ≡ some (pos n)
unfolding atoi
atoi_numeral n [] i e = absurd i
atoi_numeral n (c ∷ s) i e =
    let minus : (c == b'-') ≡ false = ground (arith, i.0) in
    let plus : (c == b'+') ≡ false = ground (arith, i.0) in rw (minus, plus, e) refl

-- Atoi reads what Itoa printed.
pub atoi-decimal : (n : ℕ) → n ≤ 9223372036854775807 → atoi (decimal n) ≡ some (pos n)
atoi-decimal n h =
    let i = decimal-IsNumeral n (ground arith) in
    atoi_numeral n (decimal n) i
      (scan_to_numeral 9223372036854775807 n (decimal n) i (scan-decimal n (ground arith)) h)
