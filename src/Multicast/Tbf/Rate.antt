-- ===== src/Multicast/Tbf/Rate.antt =====
-- Sequences of calls of tbf_fetch_token: a bucket's rate is bounded.
use Prim.Native.Nat.{min, max}
use learningproject.Common.{
  ℕ, ◌+◌, ◌-◌, ◌*◌, ◌^◌, ◌≤◌, ◌<◌, ◌≡◌, ◌≢◌, ◌∙◌, zero, suc, Bool, true, false, List, [], ◌∷◌, some,
  get_elem?, get_elem?-set_self, get_elem?-set_ne, length, ℤ, pos, negsuc, pos_part, arith, inl,
  inr, if◌then◌else◌, ◌==◌, Option-cases, Bool-cases,
}
use learningproject.Multicast.Tbf.{Bucket, Buckets, bucket_at, tbf_fetch_token}
use learningproject.Multicast.Tbf.Fetch.{bucket, Holds, tokens_after, fetch_lem}

-- one call: its time, the descriptor, and the number of tokens that are wanted, which is not negative
pub record Request : Type 0 where
  pub now : ℕ
  pub tb : ℤ
  pub ntokens : ℕ

abbrev pub serve : Request → Buckets → ℤ × Buckets
serve r s = tbf_fetch_token r.now r.tb (pos r.ntokens) s

abbrev pub names : ℕ → ℤ → Bool
names i (pos j) = i == j
names i (negsuc j) = false

unfoldable pub run : List Request → Buckets → Buckets
run [] s = s
run (r ∷ rs) s = run rs (serve r s).1

-- the tokens that the calls on descriptor `i` return, added up
pub granted : ℕ → List Request → Buckets → ℕ
granted i [] s = 0
granted i (r ∷ rs) s =
    (if names i r.tb then pos_part (serve r s).0 else 0) + granted i rs (serve r s).1

-- No call is later than `h`.
abbrev pub AllBefore : ℕ → List Request → Type 0
AllBefore h [] = Unit
AllBefore h (r ∷ rs) = (r.now ≤ h) × AllBefore h rs

pub in_range {ℓ} :
    {A : Type ℓ} (xs : List A) (i : ℕ) {a : A} → get_elem? xs i ≡ some a → i < length xs
in_range [] i e = cc
in_range (x ∷ xs) zero e = omega arith
in_range (x ∷ xs) (suc i) e = omega (arith, in_range xs i e)

bucket_at-index :
    (tb : ℤ) (s : Buckets) (j : ℕ) (me : Bucket) → bucket_at tb s ≡ some (j, me) → tb ≡ pos j
unfolding bucket_at
bucket_at-index (pos k) s j me e = ground arith
bucket_at-index (negsuc k) s j me e = cc

pub serve-clock :
    (r : Request) (s : Buckets)
    → (s.last_update ≤ (serve r s).1.last_update)
      × ((serve r s).1.last_update ≤ max s.last_update r.now)
unfolding tbf_fetch_token
serve-clock r s = ground arith

pub serve-frame :
    (i : ℕ) (r : Request) (s : Buckets)
    → names i r.tb ≡ false
    → get_elem? (serve r s).1.tbf_lib i ≡ get_elem? s.tbf_lib i
unfolding tbf_fetch_token
serve-frame i r s e = elim (Option-cases (bucket_at r.tb s)) [
  | inl failed ↦ rw (failed, tbf_fetch_token)
  | inr ((j, me), found) ↦
      let named : r.tb ≡ pos j = bucket_at-index r.tb s j me found in
      let ne : j ≢ i = ground arith in rw (found, tbf_fetch_token) (get_elem?-set_ne s.tbf_lib _ ne)
]

-- What one call does to bucket `i`, that held `t` tokens: `u` are left.
record Served (i c t b h : ℕ) (r : Request) (s : Buckets) (u : ℕ) : Type 0 where
  holds : Holds i (bucket c u b) (serve r s).1
  room : u ≤ b
  on : s.last_update ≤ (serve r s).1.last_update
  early : (serve r s).1.last_update ≤ max s.last_update h
  paid :
      (if names i r.tb then pos_part (serve r s).0 else 0) + u
      ≤ t + ((serve r s).1.last_update - s.last_update) * c

serve_self :
    (i c t b h : ℕ) (r : Request) (s : Buckets)
    → r.now ≤ h
    → t ≤ b
    → b + (h - s.last_update) * c < 2 ^ 31
    → Holds i (bucket c t b) s
    → r.tb ≡ pos i
    → (u : ℕ) × Served i c t b h r s u
serve_self i c t b h r s now le fits held e =
    let T = tokens_after (r.now - s.last_update) c t b in
    (
      T - min r.ntokens T,
      ground (
        arith,
        fetch_lem r.now i r.ntokens c t b s le more held,
        get_elem?-set_self s.tbf_lib i (some (bucket c (T - min r.ntokens T) b))
            (in_range s.tbf_lib i held.1),
      ),
    )
  where
    more : t + (r.now - s.last_update) * c < 2 ^ 31
    more = grind arith

serve_of_other :
    (i c t b h : ℕ) (r : Request) (s : Buckets)
    → r.now ≤ h
    → t ≤ b
    → Holds i (bucket c t b) s
    → names i r.tb ≡ false
    → Served i c t b h r s t
serve_of_other i c t b h r s now le held e = record {
  holds = (held.0, serve-frame i r s e ∙ held.1);
  room = le;
  on = (serve-clock r s).0;
  early = omega (arith, serve-clock r s);
  paid = rw e (omega arith);
}

names-eq : (i : ℕ) (tb : ℤ) → names i tb ≡ true → tb ≡ pos i
names-eq i (pos j) e = ground arith
names-eq i (negsuc j) e = cc

served :
    (i c t b h : ℕ) (r : Request) (s : Buckets)
    → r.now ≤ h
    → t ≤ b
    → b + (h - s.last_update) * c < 2 ^ 31
    → Holds i (bucket c t b) s
    → (u : ℕ) × Served i c t b h r s u
served i c t b h r s now le fits held = elim (Bool-cases (names i r.tb)) [
  | inl e ↦ serve_self i c t b h r s now le fits held (names-eq i r.tb e)
  | inr e ↦ (t, serve_of_other i c t b h r s now le held e)
]

record Paid (i c t b h : ℕ) (rs : List Request) (s : Buckets) (u : ℕ) : Type 0 where
  holds : Holds i (bucket c u b) (run rs s)
  room : u ≤ b
  on : s.last_update ≤ (run rs s).last_update
  early : (run rs s).last_update ≤ h
  paid : granted i rs s + u ≤ t + ((run rs s).last_update - s.last_update) * c

sum_of_spans : (a b d c : ℕ) → a ≤ b → b ≤ d → (b - a) * c + (d - b) * c ≡ (d - a) * c
sum_of_spans a b d c p q = grind arith

mono_span : (h a b c : ℕ) → a ≤ b → (h - b) * c ≤ (h - a) * c
mono_span h a b c p = grind arith

late_span : (a b h c : ℕ) → b ≤ h → (b - a) * c ≤ (h - a) * c
late_span a b h c p = grind arith

run-Paid :
    (i c t b h : ℕ) (rs : List Request) (s : Buckets)
    → AllBefore h rs
    → t ≤ b
    → s.last_update ≤ h
    → b + (h - s.last_update) * c < 2 ^ 31
    → Holds i (bucket c t b) s
    → (u : ℕ) × Paid i c t b h rs s u
unfolding run granted
run-Paid i c t b h [] s before le past fits held =
    (t, record { holds = held; room = le; on = omega arith; early = past; paid = omega arith })
run-Paid i c t b h (r ∷ rs) s before le past fits held =
    let (u, one) = served i c t b h r s before.0 le fits held in
    let (v, more) =
      run-Paid i c u b h rs (serve r s).1 before.1 one.room (omega (arith, one.early))
        (omega (arith, mono_span h s.last_update (serve r s).1.last_update c one.on)) one.holds in
    (
      v,
      record {
        holds = more.holds;
        room = more.room;
        on = omega (arith, one.on, more.on);
        early = more.early;
        paid = omega (
          arith,
          one.paid,
          more.paid,
          sum_of_spans s.last_update (serve r s).1.last_update (run rs (serve r s).1).last_update c
              one.on more.on,
        );
      },
    )

-- However the calls on the buckets interleave, and however many tokens they ask for, where no call asks for
-- a negative number: up to time `h`, a bucket that starts with `t` tokens hands out at most `t` and its
-- rate times the seconds since `last_update`, provided that a full bucket's refill over that time does not
-- overflow an `int`.
pub rate_bound :
    (i c t b h : ℕ) (rs : List Request) (s : Buckets)
    → AllBefore h rs
    → t ≤ b
    → s.last_update ≤ h
    → b + (h - s.last_update) * c < 2 ^ 31
    → Holds i (bucket c t b) s
    → granted i rs s ≤ t + (h - s.last_update) * c
rate_bound i c t b h rs s before le past fits held =
    let (u, all) = run-Paid i c t b h rs s before le past fits held in
    omega (arith, all.paid, late_span s.last_update (run rs s).last_update h c all.early)
