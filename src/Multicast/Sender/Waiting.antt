-- ===== src/Multicast/Sender/Waiting.antt =====
-- chn_sender of 流媒体组播/server/server.c gets the tokens that it waits for.
use Prim.Native.Nat.{min, max}
use learningproject.Common.{
  ◌∙◌, get_elem?, false, dec_lt, ℕ, refl, ◌+◌, ◌-◌, ◌*◌, ◌^◌, ◌≤◌, ◌<◌, ◌≡◌, List, [], ◌∷◌, some,
  pos, arith, length, set, get_elem?-set_self,
}
use learningproject.Multicast.Tbf.{Buckets}
use learningproject.Multicast.Tbf.Fetch.{Holds, bucket, tokens_after, fetch_lem}
use learningproject.Multicast.Sender.{collect, Turn}
use learningproject.Multicast.Tbf.Rate.{
  in_range, Request, run, names, serve, serve-clock, serve-frame,
}

-- calls on other buckets than `j`, before second `now`
abbrev pub AllOther : (j now : ℕ) → List Request → Type 0
AllOther j now [] = Unit
AllOther j now (r ∷ rs) = (names j r.tb ≡ false) × (r.now < now) × AllOther j now rs

-- The calls on bucket `j` are at times that go up by a second at least, after `last` and up to `h`, and
-- what the others call before each of them is on other buckets and in earlier seconds.
abbrev pub IsSchedule : (j last h : ℕ) → List Turn → Type 0
IsSchedule j last h [] = Unit
IsSchedule j last h (turn ∷ turns) =
    AllOther j turn.now turn.others
    × (last < turn.now)
    × (turn.now ≤ h)
    × IsSchedule j turn.now h turns

-- Calls on other buckets leave bucket `j` as it is, and the clock before `now`.
run-AllOther :
    (j now : ℕ) (rs : List Request) (s : Buckets)
    → AllOther j now rs
    → s.last_update < now
    → (get_elem? (run rs s).tbf_lib j ≡ get_elem? s.tbf_lib j)
      × (s.last_update ≤ (run rs s).last_update)
      × ((run rs s).last_update < now)
unfolding run
run-AllOther j now [] s all early = (refl, omega arith, early)
run-AllOther j now (r ∷ rs) s all early =
    let (on, late) = serve-clock r s in
    let (same, further, soon) =
      run-AllOther j now rs (serve r s).1 all.2 (omega (arith, late, all.1, early)) in
    (same ∙ serve-frame j r s all.0, omega (arith, on, further), soon)

refill_fits :
    (last now c t b h : ℕ)
    → t ≤ b
    → now ≤ h
    → b + (h - last) * c < 2 ^ 31
    → t + (now - last) * c < 2 ^ 31
refill_fits last now c t b h le in_time fits = grind arith

-- The loop on a bucket of a positive rate and burst, that no one else uses: it ends after as many calls as
-- there are tokens wanted at the latest, with exactly so many, if each call is the first of all in its
-- second, and no refill until time `h` overflows an `int`.
pub collect_lem :
    (i c t b h len fetched : ℕ) (turns : List Turn) (s : Buckets)
    → IsSchedule i s.last_update h turns
    → 0 < c
    → 0 < b
    → t ≤ b
    → b + (h - s.last_update) * c < 2 ^ 31
    → Holds i (bucket c t b) s
    → fetched ≤ len
    → len ≤ fetched + length turns
    → (s' : Buckets) × (collect turns (pos i) len fetched s ≡ some (len, s'))
unfolding collect
collect_lem i c t b h len fetched [] s on cp bp le fits held low enough = (s, ground arith)
collect_lem i c t b h len fetched (turn ∷ turns) s on cp bp le fits held low enough =
    elim (dec_lt fetched len) [
      | no done ↦ (s, ground (arith, done))
      | yes more ↦
          let (s', e) =
            collect_lem i c (T - m) b h len (fetched + m) turns after (ground (arith, later)) cp bp
              (omega arith) (grind (arith, fits'))
              (
                held.0,
                get_elem?-set_self mid.tbf_lib i (some (bucket c (T - m) b))
                    (in_range mid.tbf_lib i held'.1),
              )
              (omega arith) (omega (arith, positive)) in
          (
            s',
            ground (
              arith,
              more,
              fetch_lem turn.now i (len - fetched) c t b mid le
                  (refill_fits mid.last_update turn.now c t b h le on.2 fits') held',
              e,
            ),
          )
    ]
  where
    mid : Buckets
    mid = run turn.others s

    waited :
        (get_elem? mid.tbf_lib i ≡ get_elem? s.tbf_lib i)
        × (s.last_update ≤ mid.last_update)
        × (mid.last_update < turn.now)
    waited = run-AllOther i turn.now turn.others s on.0 on.1

    held' : Holds i (bucket c t b) mid
    held' = (held.0, waited.0 ∙ held.1)

    fits' : b + (h - mid.last_update) * c < 2 ^ 31
    fits' = grind (arith, waited.1)

    T : ℕ
    T = tokens_after (turn.now - mid.last_update) c t b

    m : ℕ
    m = min (len - fetched) T

    after : Buckets
    after = record mid {
      tbf_lib = set mid.tbf_lib i (some (bucket c (T - m) b));
      last_update = max mid.last_update turn.now;
    }

    later : IsSchedule i after.last_update h turns
    later = ground (arith, waited.2, on.3)

    positive : 0 < T
    positive = grind (arith, waited.2)
