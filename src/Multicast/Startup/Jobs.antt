-- ===== src/Multicast/Startup/Jobs.antt =====
-- Each channel that gets a job has a bucket of its own: main of 流媒体组播/server/server.c.
use learningproject.Common.{
  ℕ, zero, suc, ◌+◌, ◌-◌, ◌≤◌, ◌≡◌, refl, sym, ap, ◌∙◌, Bool, true, false, ◌&&◌, List, [], ◌∷◌,
  ◌++◌, none, some, if◌then◌else◌, length, replicate, ◌⊎◌, pos, arith, Bool-cases, inl, inr,
}
use learningproject.Multicast.Channels.{Channel}
use learningproject.Multicast.Tbf.{
  Bucket, Buckets, tbf_max, initial, start_clock, fresh, tbf_init, tbf_destroy,
}
use learningproject.Multicast.Tbf.Slots.{tbf_lib-start_clock}
use learningproject.Multicast.Tbf.Filling.{
  filled, tbf_init-filled, tbf_init-full, tbf_init-refused, tbf_destroy-filled,
}
use learningproject.Multicast.Startup.{
  add_job, cps_per_chn, burst_per_chn, Attempt, ChnSenderArg, start_channel, start_channels,
}

abbrev pub is_served : Attempt → Bool
is_served a = a.bucket_memory && (a.arg_memory && a.accepted)

-- the channels for which no call fails
abbrev pub served : List (Channel × Attempt) → List Channel
served [] = []
served ((c, a) ∷ more) = if is_served a then c ∷ served more else served more

-- jobs with one bucket after the other
abbrev pub numbered : ℕ → List Channel → List ChnSenderArg
numbered n [] = []
numbered n (c ∷ cs) = record { chnid = c.chnid; tbf_id = n } ∷ numbered (suc n) cs

abbrev pub new_bucket : Bucket
new_bucket = fresh cps_per_chn burst_per_chn

-- the test of a Boolean product
and-cases : (b c : Bool) → ((b ≡ true) × (c ≡ true) × ((b && c) ≡ true)) ⊎ ((b && c) ≡ false)
and-cases true true = inl (refl, refl, refl)
and-cases true false = inr refl
and-cases false c = inr refl

start_channel-served :
    (c : Channel) (a : Attempt) (s : Buckets) (n k : ℕ)
    → a.bucket_memory ≡ true
    → (a.arg_memory && a.accepted) ≡ true
    → s.tbf_lib ≡ filled new_bucket n (suc k)
    → (t : Buckets) × (start_channel c a s ≡ (record { chnid = c.chnid; tbf_id = n } ∷ [], t))
      × (t.tbf_lib ≡ filled new_bucket (suc n) k)
unfolding add_job
start_channel-served c a s n k memory taken e =
    let (t, made, table) = tbf_init-filled a.now n k cps_per_chn burst_per_chn s e in
    let made' = ap (λ b. tbf_init a.now b cps_per_chn burst_per_chn s) memory ∙ made in
    (t, ap (add_job c a) made' ∙ rw taken refl, table)

-- Where a call fails nothing is left of it.
start_channel-unserved :
    (c : Channel) (a : Attempt) (s : Buckets) (n k : ℕ)
    → is_served a ≡ false
    → n + k ≡ tbf_max
    → s.tbf_lib ≡ filled new_bucket n k
    → (t : Buckets) × (start_channel c a s ≡ ([], t)) × (t.tbf_lib ≡ filled new_bucket n k)
unfolding add_job
start_channel-unserved c a s n k bad all e = elim (Bool-cases a.bucket_memory) [
  | inr no_memory ↦ (
    start_clock a.now s,
    ap (add_job c a) (
        ap (λ b. tbf_init a.now b cps_per_chn burst_per_chn s) no_memory
        ∙ tbf_init-refused a.now cps_per_chn burst_per_chn s),
    tbf_lib-start_clock a.now s ∙ e,
  )
  | inl memory ↦ from k all e (rw memory at bad) memory
]
  where
    from :
        (k : ℕ)
        → n + k ≡ tbf_max
        → s.tbf_lib ≡ filled new_bucket n k
        → (a.arg_memory && a.accepted) ≡ false
        → a.bucket_memory ≡ true
        → (t : Buckets) × (start_channel c a s ≡ ([], t)) × (t.tbf_lib ≡ filled new_bucket n k)
    from zero all e refused memory = (
      start_clock a.now s,
      ap (add_job c a) (
          ap (λ b. tbf_init a.now b cps_per_chn burst_per_chn s) memory
          ∙ tbf_init-full a.now n cps_per_chn burst_per_chn s e),
      tbf_lib-start_clock a.now s ∙ e,
    )
    from (suc k) all e refused memory =
        let (t, made, _) = tbf_init-filled a.now n k cps_per_chn burst_per_chn s e in
        let undone =
          tbf_destroy-filled a.now n (suc k) n cps_per_chn burst_per_chn s t all e made in
        let made' = ap (λ b. tbf_init a.now b cps_per_chn burst_per_chn s) memory ∙ made in
        (tbf_destroy (pos n) t, ap (add_job c a) made' ∙ rw refused refl, undone ∙ e)

-- what the loop has done for some channels
abbrev Started : List (Channel × Attempt) → Buckets → (n k : ℕ) → Type 0
Started channels s n k =
    (t : Buckets) × (start_channels channels s ≡ (numbered n (served channels), t))
    × (t.tbf_lib ≡ filled new_bucket (n + length (served channels)) (k - length (served channels)))

resized : (n k n' k' : ℕ) → n ≡ n' → k ≡ k' → filled new_bucket n k ≡ filled new_bucket n' k'
resized n k n' k' e f = rw (e, f) refl

start_channels-Started :
    (channels : List (Channel × Attempt)) (s : Buckets) (n k : ℕ)
    → n + k ≡ tbf_max
    → s.tbf_lib ≡ filled new_bucket n k
    → length (served channels) ≤ k
    → Started channels s n k
unfolding start_channels
start_channels-Started [] s n k all e few =
    (s, refl, e ∙ resized n k (n + 0) (k - 0) (omega arith) (omega arith))
start_channels-Started ((c, a) ∷ more) s n k all e few = elim (Bool-cases (is_served a)) [
  | inl good ↦ elim (and-cases a.bucket_memory (a.arg_memory && a.accepted)) [
    | inr bad ↦ absurd (let two : false ≡ true = sym bad ∙ good in cc)
    | inl (memory, taken, _) ↦
        let fewer : suc (length (served more)) ≤ k = rw good at few in
        let (t, made, table) =
          start_channel-served c a s n (k - 1) memory taken
            (e ∙ resized n k n (suc (k - 1)) refl (omega arith)) in
        let (t', later, table') =
          start_channels-Started more t (suc n) (k - 1) (omega arith) table (omega arith) in
        let size = length (served more) in
        let kept : served ((c, a) ∷ more) ≡ c ∷ served more = rw good refl in
        (
          t',
          rw (made, later, good) refl,
          table'
              ∙ resized (suc n + size) (k - 1 - size) (n + suc size) (k - suc size) (omega arith)
                  (omega arith)
              ∙ ap (λ cs. filled new_bucket (n + length cs) (k - length cs)) (sym kept),
        )
  ]
  | inr bad ↦
      let (t, made, table) = start_channel-unserved c a s n k bad all e in
      let fewer : length (served more) ≤ k = rw bad at few in
      let (t', later, table') = start_channels-Started more t n k all table fewer in
      (t', rw (made, later, bad) refl, rw bad table')
]

-- The server starts with up to 1024 channels for which every call succeeds; for others memory may be short,
-- or the pool may refuse the job. Each of the former, and no other, gets one job of the pool, in their
-- order, and a token bucket that no other has: the first ones, with no token yet, the server's rate and
-- its burst. All other places of the table are free afterwards.
pub start_channels_lem :
    (channels : List (Channel × Attempt))
    → length (served channels) ≤ tbf_max
    → (t : Buckets) × (start_channels channels initial ≡ (numbered 0 (served channels), t))
      × (t.tbf_lib
          ≡ replicate (length (served channels)) (some new_bucket)
            ++ replicate (tbf_max - length (served channels)) none)
start_channels_lem channels few =
    let (t, made, table) = start_channels-Started channels initial 0 tbf_max refl refl few in
    (
      t,
      made,
      table
          ∙ resized (0 + length (served channels)) _ (length (served channels)) _ (omega arith)
              refl,
    )
