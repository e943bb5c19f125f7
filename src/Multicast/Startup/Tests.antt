-- ===== src/Multicast/Startup/Tests.antt =====
-- The start of the server of 流媒体组播 with three channels.
use learningproject.Common.{◌≡◌, true, false, List, [], ◌∷◌, ◌++◌, some, none, arith, replicate}
use learningproject.Chat.Text.{utf8}
use learningproject.Multicast.Channels.{Channel}
use learningproject.Multicast.Tbf.{Buckets, initial}
use learningproject.Multicast.Startup.{Attempt, start_channels}
use learningproject.Multicast.Startup.Jobs.{new_bucket, start_channels_lem}

-- The pool refuses the job of the second channel.
abbrev attempts : List (Channel × Attempt)
attempts =
    (
      record { chnid = 1; descrp = utf8 "a" },
      record { now = 7; bucket_memory = true; arg_memory = true; accepted = true },
    )
    ∷ (
      record { chnid = 2; descrp = utf8 "b" },
      record { now = 7; bucket_memory = true; arg_memory = true; accepted = false },
    )
    ∷ (
      record { chnid = 3; descrp = utf8 "c" },
      record { now = 8; bucket_memory = true; arg_memory = true; accepted = true },
    )
    ∷ []

start_channels_lem_example :
    (t : Buckets) × (start_channels attempts initial
      ≡ (record { chnid = 1; tbf_id = 0 } ∷ record { chnid = 3; tbf_id = 1 } ∷ [], t))
    × (t.tbf_lib ≡ replicate 2 (some new_bucket) ++ replicate 1022 none)
start_channels_lem_example = start_channels_lem attempts (omega arith)
