-- ===== src/Multicast/Tbf.antt =====
-- The token buckets that limit each channel's rate: 流媒体组播/server/tbf/tbf.c and tbf.h.
-- The statics of the file are the record `Buckets`. The part of a function between `lock` and `unlock`
-- of `tbf_mut` is one step; `tbf_init` has three such parts, each a definition of its own. What
-- `malloc` and `time` return are arguments.
pub mod Fetch
pub mod Rate
pub mod Slots
pub mod Filling
mod Tests
use learningproject.Common.{
  ℕ, ◌+◌, ◌-◌, ◌^◌, Bool, true, false, List, [], ◌∷◌, Option, none, some, if◌then◌else◌, ◌==◌, ltb,
  set, get_elem?, replicate, ℤ, pos, negsuc, ◌+ℤ◌, ◌-ℤ◌, scale, ltb_ℤ, to_int, map,
}

-- `tbf_t`
pub record Bucket : Type 0 where
  pub cps : ℤ
  pub token : ℤ
  pub burst : ℤ

pub record Buckets : Type 0 where
  pub tbf_lib : List (Option Bucket)
  pub inited : Bool
  pub last_update : ℕ

abbrev pub tbf_max : ℕ
tbf_max = 1024

-- the statics when the program starts
abbrev pub initial : Buckets
initial = record { tbf_lib = replicate tbf_max none; inited = false; last_update = 0 }

-- the loop of `__get_free_pos` from index `i` on
pub free_from : List (Option Bucket) → ℕ → Option ℕ
free_from [] i = none
free_from (none ∷ rest) i = some i
free_from (some b ∷ rest) i = free_from rest (i + 1)

-- `none` is -1.
pub get_free_pos : Buckets → Option ℕ
get_free_pos s = free_from s.tbf_lib 0

-- the first locked part of `tbf_init`
pub start_clock : ℕ → Buckets → Buckets
start_clock now s = if s.inited then s else record s { last_update = now; inited = true }

-- the last locked part of `tbf_init`
pub put_bucket : ℕ → Bucket → Buckets → Buckets
put_bucket i me s = record s { tbf_lib = set s.tbf_lib i (some me) }

abbrev pub fresh : ℤ → ℤ → Bucket
fresh cps burst = record { cps = cps; token = pos 0; burst = burst }

pub tbf_init : ℕ → Bool → ℤ → ℤ → Buckets → Option ℕ × Buckets
tbf_init now malloc_ok cps burst s =
    let s' = start_clock now s in
    if malloc_ok
    then elim (get_free_pos s') [
      | none ↦ (none, s')
      | some i ↦ (some i, put_bucket i (fresh cps burst) s')
    ]
    else (none, s')

-- The guard on `tb`, and then `tbf_lib[tb]`, with its index: the bucket of a valid descriptor.
pub bucket_at : ℤ → Buckets → Option (ℕ × Bucket)
bucket_at (negsuc n) s = none
bucket_at (pos i) s =
    if ltb i tbf_max
    then elim (get_elem? s.tbf_lib i) [ some (some me) ↦ some (i, me) | _ ↦ none ]
    else none

-- The lazy refill of a bucket after `seconds`, which is positive. The sum of an `int` and a `long` is
-- stored in an `int`.
pub refill : ℕ → Bucket → Bucket
refill seconds me =
    let token = to_int (me.token +ℤ scale seconds me.cps) in
    record me { token = if ltb_ℤ me.burst token then me.burst else token }

-- The rest of `tbf_fetch_token`: what is taken of the `token` at hand.
pub taken : ℤ → ℤ → ℤ
taken available ntokens = if ltb_ℤ available ntokens then available else ntokens

pub is_zero : ℤ → Bool
is_zero (pos n) = n == 0
is_zero (negsuc n) = false

pub tbf_fetch_token : ℕ → ℤ → ℤ → Buckets → ℤ × Buckets
tbf_fetch_token now tb ntokens s = elim (bucket_at tb s) [
  | none ↦ (negsuc 0, s)
  | some (i, me) ↦
      let elapsed = ltb s.last_update now in
      let me' = if elapsed then refill (now - s.last_update) me else me in
      let last = if elapsed then now else s.last_update in
      let ret = if is_zero me'.token then pos 0 else taken me'.token ntokens in
      (
        ret,
        record s {
          tbf_lib = set s.tbf_lib i (some (record me' { token = me'.token -ℤ ret }));
          last_update = last;
        },
      )
]

pub tbf_destroy : ℤ → Buckets → Buckets
tbf_destroy tb s = elim (bucket_at tb s) [
  | none ↦ s
  | some (i, me) ↦ record s { tbf_lib = set s.tbf_lib i none }
]

pub tbf_destroy_all : Buckets → Buckets
tbf_destroy_all s = record s { tbf_lib = map (λ _. none) s.tbf_lib }
