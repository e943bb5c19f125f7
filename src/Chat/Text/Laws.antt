-- ===== src/Chat/Text/Laws.antt =====
-- Laws of C strings: comparison, and reading a string back from a block.
use mathlib.Core.List.{append_assoc}
use learningproject.Common.{
  ◌≤◌, ap, ◌∙◌, sym, ℕ, zero, suc, ◌-◌, ◌<◌, ◌≡◌, ◌≢◌, ◌↔◌, refl, true, false, List, [], ◌∷◌, ◌++◌,
  none, some, arith, inl, inr, Bool-cases, ==_self, length, take, replicate, take_of_le,
  length-take, length-append, length-replicate,
}
use mathlib.Core.Bool.{false≢true}
use learningproject.Chat.Text.{
  is_alphanumeric, all_alphanumeric, is_letter_or_digit, bounded_string, c_string, str_eq, before,
  safe_strcpy, padded,
}

-- No byte of the text is `stop`.
abbrev pub Without : ℕ → List ℕ → Type 0
Without stop [] = Unit
Without stop (b ∷ bs) = (b ≢ stop) × Without stop bs

pub str_eq_self : (xs : List ℕ) → str_eq xs xs ≡ true
unfolding str_eq
str_eq_self [] = refl
str_eq_self (x ∷ xs) = rw (==_self x, str_eq_self xs)

pub eq_of_str_eq : (xs ys : List ℕ) → str_eq xs ys ≡ true → xs ≡ ys
unfolding str_eq
eq_of_str_eq [] [] h = refl
eq_of_str_eq [] (y ∷ ys) h = cc
eq_of_str_eq (x ∷ xs) [] h = cc
eq_of_str_eq (x ∷ xs) (y ∷ ys) h = ground (arith, eq_of_str_eq xs ys)

pub str_eq_iff : (xs ys : List ℕ) → (str_eq xs ys ≡ true) ↔ (xs ≡ ys)
str_eq_iff xs ys = (eq_of_str_eq xs ys, λ e. rw e (str_eq_self ys))

pub str_eq_ne : (xs ys : List ℕ) → xs ≢ ys → str_eq xs ys ≡ false
str_eq_ne xs ys ne = elim (Bool-cases (str_eq xs ys)) [
  | inl e ↦ absurd (ne (eq_of_str_eq xs ys e))
  | inr e ↦ e
]

-- A string with its final zero is read back, whatever follows in the block.
pub c_string-append : (s rest : List ℕ) → Without 0 s → c_string (s ++ 0 ∷ rest) ≡ some s
unfolding c_string
c_string-append [] rest h = refl
c_string-append (b ∷ bs) rest h = ground (arith, c_string-append bs rest h.1)

pub bounded_string-append :
    (n : ℕ) (s rest : List ℕ)
    → Without 0 s
    → length s ≤ n
    → bounded_string n (s ++ 0 ∷ rest) ≡ some s
unfolding bounded_string
bounded_string-append zero [] rest h lt = refl
bounded_string-append zero (b ∷ bs) rest h lt = absurd (omega arith)
bounded_string-append (suc n) [] rest h lt = refl
bounded_string-append (suc n) (b ∷ bs) rest h lt =
    ground (arith, bounded_string-append n bs rest h.1)

-- In a block with no zero the read runs out of it.
pub c_string-none : (block : List ℕ) → Without 0 block → c_string block ≡ none
unfolding c_string
c_string-none [] h = refl
c_string-none (b ∷ bs) h = ground (arith, c_string-none bs h.1)

pub before-append :
    (stop : ℕ) (s rest : List ℕ) → Without stop s → before stop (s ++ stop ∷ rest) ≡ s
unfolding before
before-append stop [] rest h = rw (==_self stop)
before-append stop (b ∷ bs) rest h = ground (arith, before-append stop bs rest h.1)

pub before_of_Without : (stop : ℕ) (s : List ℕ) → Without stop s → before stop s ≡ s
unfolding before
before_of_Without stop [] h = refl
before_of_Without stop (b ∷ bs) h = ground (arith, before_of_Without stop bs h.1)

-- A string that fits is copied whole, and a field of a message gives it back.
pub safe_strcpy_of_lt : (s : List ℕ) (size : ℕ) → length s < size → safe_strcpy s size ≡ s
unfolding safe_strcpy
safe_strcpy_of_lt s size h = take_of_le (size - 1) s (omega arith)

pub length-padded : (s : List ℕ) (size : ℕ) → 0 < size → length (padded s size) ≡ size
unfolding padded safe_strcpy
length-padded s size h = omega (
  arith,
  length-append (take (size - 1) s) (replicate (size - length (take (size - 1) s)) 0),
  length-take (size - 1) s,
  length-replicate {A = ℕ} (size - length (take (size - 1) s)) 0,
)

-- a string, one or more zeros, and more bytes
c_string-zeros :
    (s rest : List ℕ) (n : ℕ)
    → Without 0 s
    → 0 < n
    → c_string ((s ++ replicate n 0) ++ rest) ≡ some s
c_string-zeros s rest zero h p = absurd (omega arith)
c_string-zeros s rest (suc n) h p = rw append_assoc (c_string-append s (replicate n 0 ++ rest) h)

pub c_string-padded :
    (s rest : List ℕ) (size : ℕ)
    → Without 0 s
    → length s < size
    → c_string (padded s size ++ rest) ≡ some s
unfolding padded
c_string-padded s rest size h lt =
    rw (safe_strcpy_of_lt s size lt) (c_string-zeros s rest (size - length s) h (omega arith))

bounded-zeros :
    (s rest : List ℕ) (k n : ℕ)
    → Without 0 s
    → length s ≤ k
    → 0 < n
    → bounded_string k ((s ++ replicate n 0) ++ rest) ≡ some s
bounded-zeros s rest k zero h le p = absurd (omega arith)
bounded-zeros s rest k (suc n) h le p =
    rw append_assoc (bounded_string-append k s (replicate n 0 ++ rest) h le)

pub bounded_string-padded :
    (s rest : List ℕ) (size : ℕ)
    → Without 0 s
    → length s < size
    → bounded_string (size - 1) (padded s size ++ rest) ≡ some s
unfolding padded
bounded_string-padded s rest size h lt =
    rw (safe_strcpy_of_lt s size lt)
      (bounded-zeros s rest (size - 1) (size - length s) h (omega arith) (omega arith))

all_alphanumeric-Without :
    (stop : ℕ) (s : List ℕ)
    → is_letter_or_digit stop ≡ false
    → all_alphanumeric s ≡ true
    → Without stop s
unfolding all_alphanumeric
all_alphanumeric-Without stop [] no_stop e = tt
all_alphanumeric-Without stop (c ∷ cs) no_stop e = elim (Bool-cases (is_letter_or_digit c)) [
  | inl fine ↦ (
    λ same. false≢true (sym no_stop ∙ ap is_letter_or_digit (sym same) ∙ fine),
    all_alphanumeric-Without stop cs no_stop (ground (arith, fine)),
  )
  | inr bad ↦ absurd (ground (arith, bad))
]

is_alphanumeric-all :
    (s : List ℕ) → is_alphanumeric s ≡ true → (0 < length s) × (all_alphanumeric s ≡ true)
unfolding is_alphanumeric
is_alphanumeric-all s e = ground arith

-- What is_alphanumeric accepts is not empty, and has neither zero nor colon nor newline.
pub is_alphanumeric-Without :
    (s : List ℕ)
    → is_alphanumeric s ≡ true
    → (0 < length s) × Without 0 s × Without b':' s × Without 10 s
unfolding is_letter_or_digit
is_alphanumeric-Without s e =
    let (some_byte, all) = is_alphanumeric-all s e in
    (
      some_byte,
      all_alphanumeric-Without 0 s refl all,
      all_alphanumeric-Without b':' s refl all,
      all_alphanumeric-Without 10 s refl all,
    )
