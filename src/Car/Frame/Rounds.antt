-- ===== src/Car/Frame/Rounds.antt =====
-- What one round of the loop of parseBuffer (MyCarUI/SerialWorker.cpp) does to the packets of the stream.
use learningproject.Common.{
  ◌⊎◌, ltb→lt, ap₂, ℕ, zero, suc, ◌-◌, ◌≤◌, ◌<◌, ◌≡◌, refl, ap, ◌∙◌, true, false, List, [], ◌∷◌,
  ◌++◌, none, some, ltb, length, take, drop, arith, take-append_le, drop-append_le, length-drop,
  inl, inr, Bool-cases, Option-cases,
}
use learningproject.Car.Frame.{
  is_head, find_after, find_head, Round, stop, again, found, at_head, round,
}
use learningproject.Car.Frame.Reference.{
  wait, skip, packet, Verdict-cases, starts, scan, decode, decode-drop, decode_short, scan-append,
  scan-skip, scan-packet,
}

pub Round-cases :
    (r : Round)
    → ((left : List ℕ) × (r ≡ stop left))
      ⊎ (((left : List ℕ) × (r ≡ again left)) ⊎ ((p left : List ℕ) × (r ≡ found p left)))
Round-cases (stop left) = inl (left, refl)
Round-cases (again left) = inr (inl (left, refl))
Round-cases (found p left) = inr (inr (p, left, refl))

-- What a round promises of a buffer: whatever bytes `c` follow, the packets of the whole stream are those
-- that the round hands out and those of the rest.
abbrev pub Keeps : Round → List ℕ → Type 0
Keeps (stop left) buffer =
    ((c : List ℕ) → decode 0 (buffer ++ c) ≡ decode 0 (left ++ c)) × (decode 0 left ≡ [])
Keeps (again left) buffer =
    ((c : List ℕ) → decode 0 (buffer ++ c) ≡ decode 0 (left ++ c)) × (length left < length buffer)
Keeps (found p left) buffer =
    ((c : List ℕ) → decode 0 (buffer ++ c) ≡ p ∷ decode 0 (left ++ c))
    × (length left < length buffer)

scan-no_head : (b a : ℕ) (bs : List ℕ) → is_head b a ≡ false → scan (b ∷ a ∷ bs) ≡ skip 1
unfolding scan starts
scan-no_head b a bs e = ground arith

decode-skip :
    (s c : List ℕ) (n : ℕ)
    → 2 ≤ length s
    → n ≤ length s
    → scan s ≡ skip n
    → decode 0 (s ++ c) ≡ decode 0 (drop n s ++ c)
unfolding decode
decode-skip [] c n h le e = absurd (omega arith)
decode-skip (b ∷ bs) c zero h le e = absurd (omega (arith, scan-skip (b ∷ bs) 0 e))
decode-skip (b ∷ bs) c (suc n) h le e =
    let same : scan ((b ∷ bs) ++ c) ≡ skip (suc n) = scan-append (b ∷ bs) c h (λ w. cc) ∙ e in
    rw (same, decode)
      (decode-drop (suc n - 1) (bs ++ c)
        ∙ ap (decode 0) (drop-append_le (suc n - 1) bs c (omega arith))
        ∙ ap (λ k. decode 0 (drop k bs ++ c)) (omega arith))

pub decode-packet :
    (s c : List ℕ) (n : ℕ)
    → 2 ≤ length s
    → scan s ≡ packet n
    → decode 0 (s ++ c) ≡ take n s ∷ decode 0 (drop n s ++ c)
unfolding decode
decode-packet [] c n h e = absurd (omega arith)
decode-packet (b ∷ bs) c zero h e = absurd (omega (arith, scan-packet (b ∷ bs) 0 e))
decode-packet (b ∷ bs) c (suc n) h e =
    let same : scan ((b ∷ bs) ++ c) ≡ packet (suc n) = scan-append (b ∷ bs) c h (λ w. cc) ∙ e in
    let le : suc n ≤ length (b ∷ bs) = (scan-packet (b ∷ bs) (suc n) e).1 in
    let rest : decode (suc n - 1) (bs ++ c) ≡ decode 0 (drop n bs ++ c) =
      decode-drop (suc n - 1) (bs ++ c)
      ∙ ap (decode 0) (drop-append_le (suc n - 1) bs c (omega arith))
      ∙ ap (λ k. decode 0 (drop k bs ++ c)) (omega arith) in
    rw (same, decode) (ap₂ ◌∷◌ (take-append_le (suc n) (b ∷ bs) c le) rest)

-- The rest of a round agrees with the one-pass reading.
at_head-scan :
    (s : List ℕ)
    → starts s ≡ true
    → at_head s ≡ (elim (scan s) [
      | wait ↦ stop s
      | skip n ↦ again (drop n s)
      | packet n ↦ found (take n s) (drop n s)
    ])
unfolding at_head scan
at_head-scan s h = ground arith

scan-le : (s : List ℕ) (n : ℕ) → 2 ≤ length s → scan s ≡ skip n → n ≤ length s
unfolding scan
scan-le s n h e = ground arith

decode-wait : (s : List ℕ) → scan s ≡ wait → decode 0 s ≡ []
unfolding decode
decode-wait [] e = refl
decode-wait (b ∷ bs) e = rw (e, decode)

at_head-Keeps : (s : List ℕ) → 2 ≤ length s → starts s ≡ true → Keeps (at_head s) s
at_head-Keeps s h e = elim (Verdict-cases (scan s)) [
  | inl w ↦ rw (at_head-scan s e, w) ((λ c. refl), decode-wait s w)
  | inr (inl (n, w)) ↦
      rw (at_head-scan s e, w)
        (
          (λ c. decode-skip s c n h (scan-le s n h w) w),
          omega (arith, length-drop n s, scan-skip s n w),
        )
  | inr (inr (n, w)) ↦
      rw (at_head-scan s e, w)
        ((λ c. decode-packet s c n h w), omega (arith, length-drop n s, scan-packet s n w))
]

-- A byte that starts no head is passed over.
decode-next :
    (b a : ℕ) (bs : List ℕ) → is_head b a ≡ false → decode 0 (b ∷ a ∷ bs) ≡ decode 0 (a ∷ bs)
unfolding decode
decode-next b a bs e =
    let one : scan (b ∷ a ∷ bs) ≡ skip 1 = scan-no_head b a bs e in rw (one, decode) refl

-- with no head in a buffer, its last byte is all that matters
find_after-none :
    (b : ℕ) (bs c : List ℕ)
    → find_after b bs ≡ none
    → decode 0 ((b ∷ bs) ++ c) ≡ decode 0 (drop (length bs) (b ∷ bs) ++ c)
unfolding find_after
find_after-none b [] c e = refl
find_after-none b (a ∷ bs) c e = elim (Bool-cases (is_head b a)) [
  | inl here ↦ ground (arith, here)
  | inr other ↦ decode-next b a (bs ++ c) other ∙ find_after-none a bs c (ground (arith, other))
]

find_after-some :
    (b i : ℕ) (bs c : List ℕ)
    → find_after b bs ≡ some i
    → (decode 0 ((b ∷ bs) ++ c) ≡ decode 0 (drop i (b ∷ bs) ++ c))
      × (starts (drop i (b ∷ bs)) ≡ true)
      × (2 ≤ length (drop i (b ∷ bs)))
unfolding find_after starts
find_after-some b i [] c e = cc
find_after-some b i (a ∷ bs) c e = elim (Bool-cases (is_head b a)) [
  | inl here ↦ let first : i ≡ 0 = ground (arith, here) in rw first (refl, here, omega arith)
  | inr other ↦ elim (Option-cases (find_after a bs)) [
    | inl missing ↦ ground (arith, other, missing)
    | inr (j, later) ↦
        let next : i ≡ suc j = ground (arith, other, later) in
        let (same, head, two) = find_after-some a j bs c later in
        rw next (decode-next b a (bs ++ c) other ∙ same, head, two)
  ]
]

Keeps-trans :
    (r : Round) (buffer s : List ℕ)
    → ((c : List ℕ) → decode 0 (buffer ++ c) ≡ decode 0 (s ++ c))
    → length s ≤ length buffer
    → Keeps r s
    → Keeps r buffer
Keeps-trans (stop left) buffer s same le k = ((λ c. same c ∙ k.0 c), k.1)
Keeps-trans (again left) buffer s same le k = ((λ c. same c ∙ k.0 c), omega (arith, k.1))
Keeps-trans (found p left) buffer s same le k = ((λ c. same c ∙ k.0 c), omega (arith, k.1))

searched :
    (buffer : List ℕ)
    → 6 ≤ length buffer
    → Keeps
        (elim (find_head buffer) [
          | none ↦ stop (drop (length buffer - 1) buffer)
          | some i ↦ at_head (drop i buffer)
        ])
        buffer
unfolding find_head
searched [] h = absurd (omega arith)
searched (b ∷ bs) h = elim (Option-cases (find_after b bs)) [
  | inl missing ↦
      let last : suc (length bs) - 1 ≡ length bs = omega arith in
      rw (missing, last)
        (
          (λ c. find_after-none b bs c missing),
          decode_short 0 (drop (length bs) (b ∷ bs))
              (omega (arith, length-drop (length bs) (b ∷ bs))),
        )
  | inr (i, here) ↦ rw here (
      Keeps-trans (at_head (drop i (b ∷ bs))) (b ∷ bs) (drop i (b ∷ bs))
        (λ c. (find_after-some b i bs c here).0) (omega (arith, length-drop i (b ∷ bs)))
        (at_head-Keeps (drop i (b ∷ bs)) (find_after-some b i bs [] here).2
          (find_after-some b i bs [] here).1))
]

-- Every round keeps the packets of the stream, and leaves fewer bytes unless it is the last one.
pub round-Keeps : (buffer : List ℕ) → Keeps (round buffer) buffer
unfolding round
round-Keeps buffer = elim (Bool-cases (ltb (length buffer) 6)) [
  | inl few ↦ rw (few, round) ((λ c. refl), decode_short 0 buffer (ltb→lt (length buffer) 6 few))
  | inr many ↦ rw (many, round) (searched buffer (ground (arith, many)))
]
