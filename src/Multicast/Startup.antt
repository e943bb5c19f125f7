-- ===== src/Multicast/Startup.antt =====
-- main of 流媒体组播/server/server.c gives each channel a token bucket and a job of the pool, that runs
-- chn_sender. What malloc, time and thr_pool_add_task return is an argument.
pub mod Jobs
mod Tests
use learningproject.Common.{
  ℕ, Bool, ◌&&◌, List, [], ◌∷◌, ◌++◌, Option, none, some, if◌then◌else◌, ℤ, pos,
}
use learningproject.Multicast.Channels.{Channel}
use learningproject.Multicast.Tbf.{Buckets, tbf_init, tbf_destroy}

abbrev pub cps_per_chn : ℤ
cps_per_chn = pos 204800

abbrev pub burst_per_chn : ℤ
burst_per_chn = pos 2097152

-- What the calls for a channel return: the time, whether there is memory for the bucket and for the job's
-- argument, and whether the pool takes the job.
pub record Attempt : Type 0 where
  pub now : ℕ
  pub bucket_memory : Bool
  pub arg_memory : Bool
  pub accepted : Bool

-- `struct chn_sender_arg`
pub record ChnSenderArg : Type 0 where
  pub chnid : ℕ
  pub tbf_id : ℕ

-- what follows tbf_init: the job that the pool took, if it did
unfoldable pub add_job : Channel → Attempt → Option ℕ × Buckets → List ChnSenderArg × Buckets
add_job c a (none, s) = ([], s)
add_job c a (some i, s) =
    if a.arg_memory && a.accepted
    then (record { chnid = c.chnid; tbf_id = i } ∷ [], s)
    else ([], tbf_destroy (pos i) s)

-- a pass of the loop
abbrev pub start_channel : Channel → Attempt → Buckets → List ChnSenderArg × Buckets
start_channel c a s = add_job c a (tbf_init a.now a.bucket_memory cps_per_chn burst_per_chn s)

unfoldable pub start_channels : List (Channel × Attempt) → Buckets → List ChnSenderArg × Buckets
start_channels [] s = ([], s)
start_channels ((c, a) ∷ more) s =
    let (jobs, s') = start_channel c a s in
    let (later, s'') = start_channels more s' in (jobs ++ later, s'')
