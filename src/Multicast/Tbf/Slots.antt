-- ===== src/Multicast/Tbf/Slots.antt =====
-- The descriptors of tbf.c: which slot tbf_init takes, and what the destroy functions free.
use learningproject.Common.{
  ℕ, zero, suc, ◌+◌, ◌-◌, ◌≤◌, ◌<◌, ◌≡◌, ◌≢◌, refl, sym, ◌∙◌, ap, true, List, [], ◌∷◌, Option, none,
  some, set, get_elem?, get_elem?-set_self, get_elem?-set_ne, length, length-set, ℤ, pos, arith,
  inl, inr, ◌⊎◌, Option-cases,
}
use learningproject.Multicast.Tbf.{
  Bucket, Buckets, tbf_max, bucket_at, free_from, get_free_pos, start_clock, put_bucket, fresh,
  tbf_init, tbf_destroy,
}

-- The table has its `TBF_MAX` places.
abbrev pub IsTable : Buckets → Type 0
IsTable s = length s.tbf_lib ≡ tbf_max

-- `free_from` finds the first free place.
free_from-first :
    (xs : List (Option Bucket)) (i k : ℕ)
    → free_from xs i ≡ some k
    → (i ≤ k)
      × (get_elem? xs (k - i) ≡ some none)
      × ((j : ℕ) → j < k - i → get_elem? xs j ≢ some none)
unfolding free_from
free_from-first [] i k e = cc
free_from-first (none ∷ xs) i k e =
    let same : i ≡ k = ground arith in
    let start : k - i ≡ 0 = omega arith in (omega arith, rw start refl, λ j h. absurd (omega arith))
free_from-first (some b ∷ xs) i k e =
    let (le, free, first) = free_from-first xs (i + 1) k e in
    let next : k - i ≡ suc (k - (i + 1)) = omega arith in
    (
      omega arith,
      rw next free,
      λ j. elim j as (λ j. j < k - i → get_elem? (some b ∷ xs) j ≢ some none) [
        | zero ↦ λ h q. cc
        | suc j ↦ λ h. first j (omega arith)
      ],
    )

free_from-none :
    (xs : List (Option Bucket)) (i j : ℕ) → free_from xs i ≡ none → get_elem? xs j ≢ some none
unfolding free_from
free_from-none [] i j e h = cc
free_from-none (none ∷ xs) i j e h = cc
free_from-none (some b ∷ xs) i zero e h = cc
free_from-none (some b ∷ xs) i (suc j) e h = free_from-none xs (i + 1) j e h

set-set : {A : Type 0} (xs : List A) (i : ℕ) (a b : A) → set (set xs i a) i b ≡ set xs i b
set-set [] i a b = refl
set-set (x ∷ xs) zero a b = refl
set-set (x ∷ xs) (suc i) a b = ap (λ r. x ∷ r) (set-set xs i a b)

set_self : {A : Type 0} (xs : List A) (i : ℕ) (a : A) → get_elem? xs i ≡ some a → set xs i a ≡ xs
set_self [] i a e = refl
set_self (x ∷ xs) zero a e = ground arith
set_self (x ∷ xs) (suc i) a e = ap (λ r. x ∷ r) (set_self xs i a e)

in_range : {A : Type 0} (xs : List A) (i : ℕ) (a : A) → get_elem? xs i ≡ some a → i < length xs
in_range [] i a e = cc
in_range (x ∷ xs) zero a e = omega arith
in_range (x ∷ xs) (suc i) a e = omega (arith, in_range xs i a e)

pub tbf_lib-start_clock : (now : ℕ) (s : Buckets) → (start_clock now s).tbf_lib ≡ s.tbf_lib
unfolding start_clock
tbf_lib-start_clock now s = ground arith

-- What a successful `tbf_init` promises: the lowest free place, a fresh bucket there, and all other
-- places as they were.
pub record Placed (cps burst : ℤ) (s t : Buckets) (i : ℕ) : Type 0 where
  pub was_free : get_elem? s.tbf_lib i ≡ some none
  pub lowest : (j : ℕ) → j < i → get_elem? s.tbf_lib j ≢ some none
  pub here : bucket_at (pos i) t ≡ some (i, fresh cps burst)
  pub frame : (j : ℕ) → j ≢ i → get_elem? t.tbf_lib j ≡ get_elem? s.tbf_lib j
  pub table : IsTable t

free_pos-some :
    (s : Buckets) (i : ℕ)
    → get_free_pos s ≡ some i
    → (get_elem? s.tbf_lib i ≡ some none) × ((j : ℕ) → j < i → get_elem? s.tbf_lib j ≢ some none)
unfolding get_free_pos
free_pos-some s i e =
    let (_, free, first) = free_from-first s.tbf_lib 0 i e in
    let same : i - 0 ≡ i = omega arith in (rw same at free, λ j h. first j (omega arith))

tbf_init-full :
    (now : ℕ) (cps burst : ℤ) (s : Buckets)
    → get_free_pos (start_clock now s) ≡ none
    → tbf_init now true cps burst s ≡ (none, start_clock now s)
unfolding tbf_init
tbf_init-full now cps burst s e = ground arith

tbf_init-found :
    (now i : ℕ) (cps burst : ℤ) (s : Buckets)
    → get_free_pos (start_clock now s) ≡ some i
    → tbf_init now true cps burst s ≡ (some i, put_bucket i (fresh cps burst) (start_clock now s))
unfolding tbf_init
tbf_init-found now i cps burst s e = ground arith

get_free_pos-start_clock :
    (now : ℕ) (s : Buckets) → get_free_pos (start_clock now s) ≡ get_free_pos s
unfolding get_free_pos
get_free_pos-start_clock now s = rw (tbf_lib-start_clock now s)

put-Placed :
    (now i : ℕ) (cps burst : ℤ) (s : Buckets)
    → IsTable s
    → get_free_pos s ≡ some i
    → Placed cps burst s (put_bucket i (fresh cps burst) (start_clock now s)) i
unfolding put_bucket bucket_at
put-Placed now i cps burst s table e =
    let (free, first) = free_pos-some s i e in
    let inside : i < length s.tbf_lib = in_range s.tbf_lib i none free in
    record {
      was_free = free;
      lowest = first;
      here = ground (
        arith,
        tbf_lib-start_clock now s,
        get_elem?-set_self s.tbf_lib i (some (fresh cps burst)) inside,
      );
      frame =
          λ j ne. rw (tbf_lib-start_clock now s) (get_elem?-set_ne s.tbf_lib _ (λ q. ne (sym q)));
      table = rw (tbf_lib-start_clock now s, length-set) table;
    }

-- `tbf_init` with memory at hand: it fails exactly when no place is free, and then changes no place;
-- otherwise it returns the lowest free place, which now holds a fresh bucket.
init_lem :
    (now : ℕ) (cps burst : ℤ) (s : Buckets)
    → IsTable s
    → let (r, t) = tbf_init now true cps burst s in
      ((r ≡ none) × (t.tbf_lib ≡ s.tbf_lib) × ((j : ℕ) → get_elem? s.tbf_lib j ≢ some none))
      ⊎ ((i : ℕ) × (r ≡ some i) × Placed cps burst s t i)
unfolding get_free_pos
init_lem now cps burst s table = elim (Option-cases (get_free_pos s)) [
  | inl full ↦
      rw (tbf_init-full now cps burst s (get_free_pos-start_clock now s ∙ full))
        (inl (refl, tbf_lib-start_clock now s, λ j. free_from-none s.tbf_lib 0 j full))
  | inr (i, found) ↦
      rw (tbf_init-found now i cps burst s (get_free_pos-start_clock now s ∙ found))
        (inr (i, refl, put-Placed now i cps burst s table found))
]

restored :
    (i : ℕ) (me : Bucket) (s : Buckets)
    → IsTable s
    → get_elem? s.tbf_lib i ≡ some none
    → tbf_destroy (pos i) (put_bucket i me s) ≡ s
unfolding tbf_destroy bucket_at put_bucket
restored i me s table free = ground (
  arith,
  get_elem?-set_self s.tbf_lib i (some me) (in_range s.tbf_lib i none free),
  in_range s.tbf_lib i none free,
  set-set s.tbf_lib i (some me) none,
  set_self s.tbf_lib i none free,
)

-- `tbf_destroy` undoes `tbf_init`, but for the clock that the first call starts.
pub destroy-init :
    (now i : ℕ) (cps burst : ℤ) (s : Buckets)
    → IsTable s
    → (tbf_init now true cps burst s).0 ≡ some i
    → tbf_destroy (pos i) (tbf_init now true cps burst s).1 ≡ start_clock now s
destroy-init now i cps burst s table e = elim (Option-cases (get_free_pos s)) [
  | inl full ↦
      let failed = tbf_init-full now cps burst s (get_free_pos-start_clock now s ∙ full) in
      cc (failed, e)
  | inr (k, found) ↦
      let done = tbf_init-found now k cps burst s (get_free_pos-start_clock now s ∙ found) in
      let same : k ≡ i = ground (arith, done) in
      rw (done, same)
        (restored i (fresh cps burst) (start_clock now s) (rw (tbf_lib-start_clock now s) table)
          (rw (tbf_lib-start_clock now s) (rw same at (free_pos-some s k found).0)))
]

-- Between the locked parts of one `tbf_init` another thread can run one: both searches then return the
-- same place, and the bucket stored first is lost.
init_race :
    (i : ℕ) (a b : Bucket) (s : Buckets)
    → IsTable s
    → get_free_pos s ≡ some i
    → let t = put_bucket i b (put_bucket i a s) in
      (bucket_at (pos i) t ≡ some (i, b)) × (t ≡ put_bucket i b s)
unfolding put_bucket bucket_at get_free_pos
init_race i a b s table e =
    let (free, _) = free_pos-some s i e in
    let inside = in_range s.tbf_lib i none free in
    (
      ground (
        arith,
        inside,
        get_elem?-set_self (set s.tbf_lib i (some a)) i (some b) (rw length-set inside),
      ),
      ground (arith, set-set s.tbf_lib i (some a) (some b)),
    )
