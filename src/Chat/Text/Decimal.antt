-- ===== src/Chat/Text/Decimal.antt =====
-- The decimal form of a number determines it, so two hashes print alike only if they are equal.
use native.Mathlib.Nat.{pow-suc}
use learningproject.Common.{
  length, length-append, ℕ, zero, suc, ◌+◌, ◌-◌, ◌*◌, ◌/◌, ◌%◌, ◌^◌, ◌≤◌, ◌<◌, ◌≡◌, refl, sym, ap,
  ◌∙◌, List, [], ◌∷◌, ◌++◌, arith, ltb, ltb→lt, Bool-cases, inl, inr,
}
use learningproject.Chat.Text.{decimal}

-- the number that some digits stand for, after the digits of `acc`
value : ℕ → List ℕ → ℕ
value acc [] = acc
value acc (d ∷ ds) = value (acc * 10 + (d - b'0')) ds

value-nil : value 0 [] ≡ 0
unfolding value
value-nil = refl

value-append : (acc d : ℕ) (ds : List ℕ) → value acc (ds ++ d ∷ []) ≡ value acc ds * 10 + (d - b'0')
unfolding value
value-append acc d [] = refl
value-append acc d (e ∷ ds) = value-append (acc * 10 + (e - b'0')) d ds

value-decimal : (fuel n : ℕ) → n < 10 ^ fuel → value 0 (decimal fuel n) ≡ n
unfolding decimal
value-decimal zero n h = let none_left : n ≡ 0 = omega arith in rw none_left value-nil
value-decimal (suc fuel) n h = elim (Bool-cases (ltb n 10)) [
  | inl small ↦
      rw small (value-append 0 (b'0' + n % 10) [] ∙ omega (arith, value-nil, ltb→lt n 10 small))
  | inr big ↦ rw big (
      value-append 0 (b'0' + n % 10) (decimal fuel (n / 10))
      ∙ omega (arith, value-decimal fuel (n / 10) (omega (arith, pow-suc 10 fuel))))
]

-- Two numbers of at most `fuel` digits that print alike are equal.
pub decimal-injective :
    (fuel n m : ℕ) → n < 10 ^ fuel → m < 10 ^ fuel → decimal fuel n ≡ decimal fuel m → n ≡ m
decimal-injective fuel n m hn hm e =
    sym (value-decimal fuel n hn) ∙ ap (value 0) e ∙ value-decimal fuel m hm

-- only digits
abbrev pub IsDigits : List ℕ → Type 0
IsDigits [] = Unit
IsDigits (d ∷ ds) = (48 ≤ d) × (d ≤ 57) × IsDigits ds

IsDigits-append : (ds : List ℕ) (d : ℕ) → IsDigits ds → 48 ≤ d → d ≤ 57 → IsDigits (ds ++ d ∷ [])
IsDigits-append [] d h lo hi = (lo, hi, tt)
IsDigits-append (e ∷ ds) d h lo hi = (h.0, h.1, IsDigits-append ds d h.2 lo hi)

pub decimal-IsDigits : (fuel n : ℕ) → IsDigits (decimal fuel n)
unfolding decimal
decimal-IsDigits zero n = tt
decimal-IsDigits (suc fuel) n = elim (Bool-cases (ltb n 10)) [
  | inl small ↦ rw small (IsDigits-append [] (b'0' + n % 10) tt (omega arith) (omega arith))
  | inr big ↦ rw big (
      IsDigits-append (decimal fuel (n / 10)) (b'0' + n % 10) (decimal-IsDigits fuel (n / 10))
        (omega arith) (omega arith))
]

pub length-decimal : (fuel n : ℕ) → length (decimal fuel n) ≤ fuel
unfolding decimal
length-decimal zero n = omega arith
length-decimal (suc fuel) n = elim (Bool-cases (ltb n 10)) [
  | inl small ↦ rw small (omega arith)
  | inr big ↦ rw big (
      omega (
        arith,
        length-append (decimal fuel (n / 10)) ((b'0' + n % 10) ∷ []),
        length-decimal fuel (n / 10),
      ))
]

pub decimal_pos : (fuel n : ℕ) → 0 < fuel → 0 < length (decimal fuel n)
unfolding decimal
decimal_pos zero n h = absurd (omega arith)
decimal_pos (suc fuel) n h = elim (Bool-cases (ltb n 10)) [
  | inl small ↦ rw small (omega arith)
  | inr big ↦ rw big (omega (arith, length-append (decimal fuel (n / 10)) ((b'0' + n % 10) ∷ [])))
]
