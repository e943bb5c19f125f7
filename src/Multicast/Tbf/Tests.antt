-- ===== src/Multicast/Tbf/Tests.antt =====
-- Runs of the model of tbf.c on small inputs.
use learningproject.Common.{
  Option, ◌-◌, ◌*◌, ◌+◌, ◌≤◌, ◌≡◌, refl, List, [], ◌∷◌, none, some, true, arith, replicate, pos,
  length-replicate,
}
use learningproject.Multicast.Tbf.{
  Bucket, Buckets, tbf_max, initial, tbf_fetch_token, bucket_at, refill, taken, is_zero,
}
use learningproject.Multicast.Tbf.Fetch.{bucket, Holds}
use learningproject.Multicast.Tbf.Rate.{Request, granted, rate_bound}
use learningproject.Multicast.Tbf.Slots.{IsTable}

-- two buckets, empty, since time 100
abbrev two : Buckets
two = record {
  tbf_lib = some (bucket 10 0 50) ∷ some (bucket 20 0 70) ∷ replicate 1022 none;
  inited = true;
  last_update = 100;
}

first-Holds : Holds 0 (bucket 10 0 50) two
first-Holds = (omega arith, refl)

initial-IsTable : IsTable initial
initial-IsTable = length-replicate {A = Option Bucket} tbf_max none

fetch_runs : (tbf_fetch_token 103 (pos 0) (pos 25) two).0 ≡ pos 25
unfolding tbf_fetch_token bucket_at refill taken is_zero
fetch_runs = refl

-- the server's rate: after 10,486 quiet seconds
abbrev server_bucket : Buckets
server_bucket = record {
  tbf_lib = some (bucket 204800 0 2097152) ∷ replicate 1023 none;
  inited = true;
  last_update = 0;
}

abbrev requests : List Request
requests =
    record { now = 101; tb = pos 0; ntokens = 8 }
    ∷ record { now = 102; tb = pos 1; ntokens = 100 }
    ∷ record { now = 104; tb = pos 0; ntokens = 100 }
    ∷ []

rate_bound_example : granted 0 requests two ≤ 0 + (110 - 100) * 10
rate_bound_example =
    rate_bound 0 10 0 50 110 requests two (omega arith) (omega arith) (omega arith) (omega arith)
      first-Holds
