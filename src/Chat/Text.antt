-- ===== src/Chat/Text.antt =====
-- Texts of the chat programs, as C sees them: 局域网聊天/server_tool.c, is_alphanumeric, safe_strcpy and
-- simple_hash, and what they use of the C library.
-- A C string is the list of its bytes, with no byte 0. `none` is a read outside a block of memory.
pub mod Laws
pub mod Decimal
use Prim.Native.Char.{Char, code}
use Prim.Native.String.{String}
use learningproject.Common.{
  ℕ, zero, suc, ◌+◌, ◌-◌, ◌*◌, ◌/◌, ◌%◌, ◌^◌, Bool, true, false, ◌&&◌, ◌||◌, List, [], ◌∷◌, ◌++◌,
  Option, none, some, ◌>>=◌, if◌then◌else◌, ◌==◌, ltb, leb, length, take, drop, replicate,
}

-- the bytes of a code point, and of a text of the source
abbrev pub utf8_char : ℕ → List ℕ
utf8_char c =
    if ltb c 128
    then c ∷ []
    else if ltb c 2048
    then (192 + c / 64) ∷ (128 + c % 64) ∷ []
    else (224 + c / 4096) ∷ (128 + c / 64 % 64) ∷ (128 + c % 64) ∷ []

abbrev pub utf8 : String → List ℕ
utf8 String.[] = []
utf8 (String.◌∷◌ c s) = utf8_char (code c) ++ utf8 s

-- the C string at the start of a block
unfoldable pub c_string : List ℕ → Option (List ℕ)
c_string [] = none
c_string (b ∷ bs) =
    let rest = c_string bs in if b == 0 then some [] else (do s ← rest; some (b ∷ s))

-- the C string at offset `k` of a block
abbrev pub string_at : ℕ → List ℕ → Option (List ℕ)
string_at k block = c_string (drop k block)

-- what `strncpy` with a count of `n` reads: `n` bytes at most, and none behind a zero
unfoldable pub bounded_string : ℕ → List ℕ → Option (List ℕ)
bounded_string zero block = some []
bounded_string (suc n) [] = none
bounded_string (suc n) (b ∷ bs) =
    let rest = bounded_string n bs in if b == 0 then some [] else (do s ← rest; some (b ∷ s))

-- `strcmp(a, b) == 0`
unfoldable pub str_eq : List ℕ → List ℕ → Bool
str_eq [] [] = true
str_eq [] (y ∷ ys) = false
str_eq (x ∷ xs) [] = false
str_eq (x ∷ xs) (y ∷ ys) = x == y && str_eq xs ys

-- the bytes before the first `stop`: what `s[strcspn(s, "\n")] = 0` leaves, at `stop` 10
unfoldable pub before : ℕ → List ℕ → List ℕ
before stop [] = []
before stop (b ∷ bs) = if b == stop then [] else b ∷ before stop bs

-- The string that `safe_strcpy(dest, src, size)` leaves in `dest`, and all bytes of `dest`, that
-- `strncpy` fills up with zeros.
unfoldable pub safe_strcpy : List ℕ → ℕ → List ℕ
safe_strcpy src size = take (size - 1) src

unfoldable pub padded : List ℕ → ℕ → List ℕ
unfolding safe_strcpy
padded src size = let s = safe_strcpy src size in s ++ replicate (size - length s) 0

unfoldable pub is_letter_or_digit : ℕ → Bool
is_letter_or_digit c =
    (leb b'a' c && leb c b'z') || ((leb b'A' c && leb c b'Z') || (leb b'0' c && leb c b'9'))

-- the loop of `is_alphanumeric`
unfoldable pub all_alphanumeric : List ℕ → Bool
all_alphanumeric [] = true
all_alphanumeric (c ∷ cs) = is_letter_or_digit c && all_alphanumeric cs

unfoldable pub is_alphanumeric : List ℕ → Bool
is_alphanumeric s = if length s == 0 then false else all_alphanumeric s

-- `unsigned long`, and a signed `char` that is added to one
abbrev pub ulong_mod : ℕ
ulong_mod = 2 ^ 64

abbrev char_value : ℕ → ℕ
char_value c = if ltb c 128 then c else ulong_mod - 256 + c

unfoldable pub hash_from : ℕ → List ℕ → ℕ
hash_from hash [] = hash
hash_from hash (c ∷ cs) = hash_from ((hash * 32 + hash + char_value c) % ulong_mod) cs

-- the decimal digits of a number, the last `fuel` of them at most
unfoldable pub decimal : ℕ → ℕ → List ℕ
decimal zero n = []
decimal (suc fuel) n =
    let rest = decimal fuel (n / 10) in (if ltb n 10 then [] else rest) ++ (b'0' + n % 10) ∷ []

-- `%lu` of a number below 2^64, that has 20 digits at most
unfoldable pub simple_hash : List ℕ → List ℕ
unfolding hash_from decimal
simple_hash pass = decimal 20 (hash_from 5381 pass)
