-- ===== src/Multicast/Tbf/Filling.antt =====
-- A table of buckets that fills up from its start: tbf_init of 流媒体组播/server/tbf/tbf.c.
use learningproject.Common.{
  ℕ, zero, suc, ◌+◌, ◌≡◌, refl, sym, ap, ◌∙◌, true, false, List, ◌∷◌, ◌++◌, Option, none, some,
  length, set, replicate, ℤ, pos, arith, length-append, length-replicate,
}
use learningproject.Multicast.Tbf.{
  Bucket, Buckets, tbf_max, free_from, get_free_pos, start_clock, put_bucket, fresh, tbf_init,
  tbf_destroy,
}
use learningproject.Multicast.Tbf.Slots.{IsTable, tbf_lib-start_clock, destroy-init}

-- `n` places hold a bucket, and the `k` places behind them are free
abbrev pub filled : Bucket → ℕ → ℕ → List (Option Bucket)
filled b n k = replicate n (some b) ++ replicate k none

free_from-filled : (b : Bucket) (n k i : ℕ) → free_from (filled b n (suc k)) i ≡ some (i + n)
unfolding free_from
free_from-filled b zero k i = ap some (omega arith)
free_from-filled b (suc n) k i = free_from-filled b n k (i + 1) ∙ ap some (omega arith)

free_from-full : (b : Bucket) (n i : ℕ) → free_from (filled b n 0) i ≡ none
unfolding free_from
free_from-full b zero i = refl
free_from-full b (suc n) i = free_from-full b n (i + 1)

set-filled : (b : Bucket) (n k : ℕ) → set (filled b n (suc k)) n (some b) ≡ filled b (suc n) k
set-filled b zero k = refl
set-filled b (suc n) k = ap (λ r. some b ∷ r) (set-filled b n k)

-- The next bucket is put in the first place that is free.
pub tbf_init-filled :
    (now n k : ℕ) (cps burst : ℤ) (s : Buckets)
    → s.tbf_lib ≡ filled (fresh cps burst) n (suc k)
    → (t : Buckets) × (tbf_init now true cps burst s ≡ (some n, t))
      × (t.tbf_lib ≡ filled (fresh cps burst) (suc n) k)
unfolding tbf_init get_free_pos put_bucket
tbf_init-filled now n k cps burst s e =
    let clock = tbf_lib-start_clock now s ∙ e in
    let found : free_from (start_clock now s).tbf_lib 0 ≡ some n =
      ap (λ xs. free_from xs 0) clock
      ∙ free_from-filled (fresh cps burst) n k 0
      ∙ ap some (omega arith) in
    (
      put_bucket n (fresh cps burst) (start_clock now s),
      ground (arith, found),
      ap (λ xs. set xs n (some (fresh cps burst))) clock ∙ set-filled (fresh cps burst) n k,
    )

pub tbf_init-full :
    (now n : ℕ) (cps burst : ℤ) (s : Buckets)
    → s.tbf_lib ≡ filled (fresh cps burst) n 0
    → tbf_init now true cps burst s ≡ (none, start_clock now s)
unfolding tbf_init get_free_pos
tbf_init-full now n cps burst s e =
    let full : free_from (start_clock now s).tbf_lib 0 ≡ none =
      ap (λ xs. free_from xs 0) (tbf_lib-start_clock now s ∙ e)
      ∙ free_from-full (fresh cps burst) n 0 in
    ground (arith, full)

pub tbf_init-refused :
    (now : ℕ) (cps burst : ℤ) (s : Buckets)
    → tbf_init now false cps burst s ≡ (none, start_clock now s)
unfolding tbf_init
tbf_init-refused now cps burst s = refl

filled-IsTable :
    (b : Bucket) (n k : ℕ) (s : Buckets) → n + k ≡ tbf_max → s.tbf_lib ≡ filled b n k → IsTable s
filled-IsTable b n k s all e =
    let taken : List (Option Bucket) = replicate n (some b) in
    let free : List (Option Bucket) = replicate k none in
    let size : length (taken ++ free) ≡ tbf_max = omega (
      arith,
      all,
      length-append taken free,
      length-replicate {A = Option Bucket} n (some b),
      length-replicate {A = Option Bucket} k none,
    ) in
    ap length e ∙ size

-- A bucket that is given back leaves the table as it was.
pub tbf_destroy-filled :
    (now n k i : ℕ) (cps burst : ℤ) (s t : Buckets)
    → n + k ≡ tbf_max
    → s.tbf_lib ≡ filled (fresh cps burst) n k
    → tbf_init now true cps burst s ≡ (some i, t)
    → (tbf_destroy (pos i) t).tbf_lib ≡ s.tbf_lib
tbf_destroy-filled now n k i cps burst s t all e made =
    let table = filled-IsTable (fresh cps burst) n k s all e in
    let undone = destroy-init now i cps burst s table (ap (λ r. r.0) made) in
    ap (λ r. (tbf_destroy (pos i) r).tbf_lib) (sym (ap (λ r. r.1) made))
    ∙ ap (λ r. r.tbf_lib) undone
    ∙ tbf_lib-start_clock now s
