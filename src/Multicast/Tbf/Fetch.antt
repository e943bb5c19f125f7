-- ===== src/Multicast/Tbf/Fetch.antt =====
-- One call of tbf_fetch_token (流媒体组播/server/tbf/tbf.c): what it returns and what it leaves.
use Prim.Native.Nat.{min, max}
use learningproject.Common.{
  ℕ, ◌+◌, ◌-◌, ◌*◌, ◌^◌, ◌≤◌, ◌<◌, ◌≡◌, none, some, set, get_elem?, ℤ, pos, negsuc, to_int, arith,
  ◌-ℤ◌, if◌then◌else◌,
}
use learningproject.Multicast.Tbf.{
  Bucket, Buckets, tbf_max, bucket_at, refill, taken, is_zero, tbf_fetch_token,
}

-- a bucket whose three fields are not negative
abbrev pub bucket : ℕ → ℕ → ℕ → Bucket
bucket c t b = record { cps = pos c; token = pos t; burst = pos b }

-- Slot `i` holds this bucket.
abbrev pub Holds : ℕ → Bucket → Buckets → Type 0
Holds i me s = (i < tbf_max) × (get_elem? s.tbf_lib i ≡ some (some me))

-- the tokens that a bucket of `t` tokens has `elapsed` seconds later
abbrev pub tokens_after : ℕ → ℕ → ℕ → ℕ → ℕ
tokens_after elapsed c t b = min b (t + elapsed * c)

pub to_int_small : (n : ℕ) → n < 2 ^ 31 → to_int (pos n) ≡ pos n
to_int_small n h = ground arith

pub refill_lem :
    (e c t b : ℕ) → t + e * c < 2 ^ 31 → refill e (bucket c t b) ≡ bucket c (min b (t + e * c)) b
unfolding refill
refill_lem e c t b h = ground (arith)

pub bucket_at-Holds :
    (i : ℕ) (me : Bucket) (s : Buckets) → Holds i me s → bucket_at (pos i) s ≡ some (i, me)
unfolding bucket_at
bucket_at-Holds i me s h = ground arith

grant_lem :
    (held n : ℕ)
    → ((if is_zero (pos held) then pos 0 else taken (pos held) (pos n)) ≡ pos (min n held))
      × (pos held -ℤ pos (min n held) ≡ pos (held - min n held))
unfolding is_zero taken
grant_lem held n = (ground arith, ground arith)

-- A call on a slot that holds a bucket of `t ≤ b` tokens, for `n` tokens, where the refill does not
-- overflow an `int`: it returns `n` or all there is after the refill, if that is less, takes so many
-- from the bucket, and moves `last_update` up to the time of the call.
pub fetch_lem :
    (now i n c t b : ℕ) (s : Buckets)
    → t ≤ b
    → t + (now - s.last_update) * c < 2 ^ 31
    → Holds i (bucket c t b) s
    → let held = tokens_after (now - s.last_update) c t b in
      tbf_fetch_token now (pos i) (pos n) s ≡ (
        pos (min n held),
        record s {
          tbf_lib = set s.tbf_lib i (some (bucket c (held - min n held) b));
          last_update = max s.last_update now;
        },
      )
unfolding tbf_fetch_token
fetch_lem now i n c t b s le fits h = ground (
  arith,
  bucket_at-Holds i (bucket c t b) s h,
  refill_lem (now - s.last_update) c t b fits,
  grant_lem (tokens_after (now - s.last_update) c t b) n,
)

-- A descriptor that names no bucket gets -1, and nothing changes.
pub fetch-error :
    (now : ℕ) (tb n : ℤ) (s : Buckets)
    → bucket_at tb s ≡ none
    → tbf_fetch_token now tb n s ≡ (negsuc 0, s)
unfolding tbf_fetch_token
fetch-error now tb n s h = ground arith

overflowed :
    (e c b : ℕ)
    → 2 ^ 31 ≤ e * c
    → e * c < 2 ^ 32
    → refill e (bucket c 0 b) ≡ record (bucket c 0 b) { token = negsuc (2 ^ 32 - 1 - e * c) }
unfolding refill
overflowed e c b lo hi = ground arith

negative : (n k : ℕ) → (if is_zero (negsuc k) then pos 0 else taken (negsuc k) (pos n)) ≡ negsuc k
unfolding is_zero taken
negative n k = ground arith

-- The sum of tokens is stored in an `int`: where the refill of an empty bucket reaches 2^31 tokens (and
-- stays below 2^32), the bucket's count turns negative, and the call hands out that negative number.
fetch-overflow :
    (now i n c b : ℕ) (s : Buckets)
    → s.last_update < now
    → 2 ^ 31 ≤ (now - s.last_update) * c
    → (now - s.last_update) * c < 2 ^ 32
    → Holds i (bucket c 0 b) s
    → (tbf_fetch_token now (pos i) (pos n) s).0 ≡ negsuc (2 ^ 32 - 1 - (now - s.last_update) * c)
unfolding tbf_fetch_token
fetch-overflow now i n c b s late lo hi h = ground (
  arith,
  bucket_at-Holds i (bucket c 0 b) s h,
  overflowed (now - s.last_update) c b lo hi,
  negative n (2 ^ 32 - 1 - (now - s.last_update) * c),
)
