-- ===== src/Car/Frame/Reference.antt =====
-- The packets of a byte stream, read in one pass with no buffer: what parseBuffer of
-- MyCarUI/SerialWorker.cpp should find.
use learningproject.Common.{
  inr, ◌⊎◌, inl, length-drop, ℕ, zero, suc, ◌+◌, ◌-◌, ◌≤◌, ◌<◌, ◌≡◌, ◌≢◌, refl, Bool, false, not,
  List, [], ◌∷◌, ◌++◌, if◌then◌else◌, ◌==◌, ltb, length, take, drop, arith, take-append_le,
  drop-append_le, length-append,
}
use learningproject.Car.Frame.{packet_tail, is_head, byte_at, calculate_checksum}

-- What stands at the start of some bytes: nothing that can be told yet, some bytes to skip, or a packet of
-- this length.
pub data Verdict : Type 0 where
  wait : Verdict
  skip packet : ℕ → Verdict

unfoldable pub starts : List ℕ → Bool
starts [] = false
starts (a ∷ []) = false
starts (a ∷ b ∷ bs) = is_head a b

unfoldable pub scan : List ℕ → Verdict
scan s =
    let len = byte_at 3 s in
    if not (starts s)
    then skip 1
    else if ltb (length s) 4
    then wait
    else if ltb (length s) (6 + len)
    then wait
    else if not (byte_at (5 + len) s == packet_tail)
    then skip 2
    else if byte_at (4 + len) s == calculate_checksum (byte_at 2 s) len (take len (drop 4 s))
    then packet (6 + len)
    else skip (6 + len)

-- the packets of a stream, behind its first `k` bytes
unfoldable pub decode : ℕ → List ℕ → List (List ℕ)
decode k [] = []
decode (suc k) (b ∷ bs) = decode k bs
decode zero (b ∷ bs) = elim (scan (b ∷ bs)) [
  | wait ↦ []
  | skip n ↦ decode (n - 1) bs
  | packet n ↦ take n (b ∷ bs) ∷ decode (n - 1) bs
]

pub byte_at-append : (i : ℕ) (xs ys : List ℕ) → i < length xs → byte_at i (xs ++ ys) ≡ byte_at i xs
unfolding byte_at
byte_at-append i [] ys h = absurd (omega arith)
byte_at-append zero (x ∷ xs) ys h = refl
byte_at-append (suc i) (x ∷ xs) ys h = byte_at-append i xs ys (omega arith)

starts-append : (xs ys : List ℕ) → 2 ≤ length xs → starts (xs ++ ys) ≡ starts xs
unfolding starts
starts-append [] ys h = absurd (omega arith)
starts-append (a ∷ []) ys h = absurd (omega arith)
starts-append (a ∷ b ∷ xs) ys h = refl

-- More bytes do not change what is told.
pub scan-append : (xs ys : List ℕ) → 2 ≤ length xs → scan xs ≢ wait → scan (xs ++ ys) ≡ scan xs
unfolding scan
scan-append xs ys h told = ground (
  arith,
  told,
  starts-append xs ys h,
  length-append xs ys,
  byte_at-append 2 xs ys,
  byte_at-append 3 xs ys,
  byte_at-append (4 + byte_at 3 xs) xs ys,
  byte_at-append (5 + byte_at 3 xs) xs ys,
  drop-append_le 4 xs ys,
  take-append_le (byte_at 3 xs) (drop 4 xs) ys,
  length-drop 4 xs,
)

pub decode-drop : (k : ℕ) (s : List ℕ) → decode k s ≡ decode 0 (drop k s)
unfolding decode
decode-drop zero s = refl
decode-drop (suc k) [] = refl
decode-drop (suc k) (b ∷ bs) = decode-drop k bs

pub scan-skip : (s : List ℕ) (n : ℕ) → scan s ≡ skip n → 0 < n
unfolding scan
scan-skip s n e = ground arith

pub scan-packet : (s : List ℕ) (n : ℕ) → scan s ≡ packet n → (6 ≤ n) × (n ≤ length s)
unfolding scan
scan-packet s n e = ground arith

pub Verdict-cases :
    (v : Verdict) → (v ≡ wait) ⊎ (((n : ℕ) × (v ≡ skip n)) ⊎ ((n : ℕ) × (v ≡ packet n)))
Verdict-cases wait = inl refl
Verdict-cases (skip n) = inr (inl (n, refl))
Verdict-cases (packet n) = inr (inr (n, refl))

-- Fewer bytes than a packet has hold none.
pub decode_short : (k : ℕ) (s : List ℕ) → length s < 6 → decode k s ≡ []
unfolding decode
decode_short k [] h = ground arith
decode_short (suc k) (b ∷ bs) h = decode_short k bs (omega arith)
decode_short zero (b ∷ bs) h = elim (Verdict-cases (scan (b ∷ bs))) [
  | inl e ↦ rw (e, decode)
  | inr (inl (n, e)) ↦ rw (e, decode) (decode_short (n - 1) bs (omega arith))
  | inr (inr (n, e)) ↦ absurd (omega (arith, scan-packet (b ∷ bs) n e))
]
