-- ===== src/Chat/Wire/Reading.antt =====
-- recv_full (局域网聊天/server_tool.c, client_tool.c) does not depend on how the stream is cut.
use learningproject.Common.{
  drop-append_ge, take-append_ge, drop-append_le, take-append_le, ◌+◌, inr, inl, ℕ, ◌-◌, ◌≤◌, ◌<◌,
  ◌≡◌, refl, sym, ◌∙◌, List, [], ◌∷◌, ◌++◌, none, some, arith, length, take, drop, length-append,
  dec_lt, ℕ_discrete, length-drop, length-take, Option-cases,
}
use learningproject.Chat.Wire.{recv_full}

-- all bytes that a socket still delivers
abbrev pub stream : List (List ℕ) → List ℕ
stream [] = []
stream (c ∷ cs) = c ++ stream cs

-- No `read` comes back empty before the end.
abbrev pub IsLive : List (List ℕ) → Type 0
IsLive [] = Unit
IsLive (c ∷ cs) = (0 < length c) × IsLive cs

-- What `recv_full` promises of `n` bytes.
pub record Got (n : ℕ) (socket left : List (List ℕ)) : Type 0 where
  pub live : IsLive left
  pub got : recv_full n socket ≡ some (take n (stream socket), left)
  pub rest : stream left ≡ drop n (stream socket)

-- However the bytes are cut into pieces that are not empty, `recv_full` returns the first `n` of them and leaves the rest,
-- if there are so many.
pub recv_full_lem :
    (n : ℕ) (socket : List (List ℕ))
    → IsLive socket
    → n ≤ length (stream socket)
    → (left : List (List ℕ)) × Got n socket left
unfolding recv_full
recv_full_lem n [] live h =
    let none_left : n ≡ 0 = omega arith in
    ([], rw none_left (record { live = tt; got = refl; rest = refl }))
recv_full_lem n (c ∷ cs) live h = elim (ℕ_discrete n 0) [
  | yes z ↦ (c ∷ cs, rw z (record { live = live; got = refl; rest = refl }))
  | no pos ↦ elim (dec_lt n (length c)) [
    | yes lt ↦ (
      drop n c ∷ cs,
      record {
        live = (omega (arith, length-drop n c), live.1);
        got = ground (arith, take-append_le n c (stream cs));
        rest = sym (drop-append_le n c (stream cs) (omega arith));
      },
    )
    | no ge ↦
        let (left, more) =
          recv_full_lem (n - length c) cs live.1 (omega (arith, length-append c (stream cs))) in
        (
          left,
          record {
            live = more.live;
            got = ground (arith, more.got, take-append_ge n c (stream cs));
            rest = more.rest ∙ sym (drop-append_ge n c (stream cs) (omega arith));
          },
        )
  ]
]

-- If the stream ends before `n` bytes, `recv_full` fails.
pub recv_full-short :
    (n : ℕ) (socket : List (List ℕ)) → length (stream socket) < n → recv_full n socket ≡ none
unfolding recv_full
recv_full-short n [] h = ground arith
recv_full-short n (c ∷ cs) h =
    ground (arith, length-append c (stream cs), recv_full-short (n - length c) cs)

pub length-recv_full :
    (n : ℕ) (socket left : List (List ℕ)) (bytes : List ℕ)
    → recv_full n socket ≡ some (bytes, left)
    → length bytes ≡ n
unfolding recv_full
length-recv_full n [] left bytes e = ground arith
length-recv_full n (c ∷ cs) left bytes e = elim (ℕ_discrete n 0) [
  | yes z ↦ ground arith
  | no pos ↦ elim (dec_lt n (length c)) [
    | yes lt ↦ ground (arith, length-take n c)
    | no ge ↦ elim (Option-cases (recv_full (n - length c) cs)) [
      | inl failed ↦ ground (arith, failed)
      | inr ((more, left'), found) ↦
          ground (
            arith,
            found,
            length-recv_full (n - length c) cs left' more found,
            length-append c more,
          )
    ]
  ]
]

-- No byte is lost or made up.
pub stream-recv_full :
    (n : ℕ) (socket left : List (List ℕ)) (bytes : List ℕ)
    → recv_full n socket ≡ some (bytes, left)
    → length bytes + length (stream left) ≡ length (stream socket)
unfolding recv_full
stream-recv_full n [] left bytes e = ground arith
stream-recv_full n (c ∷ cs) left bytes e = elim (ℕ_discrete n 0) [
  | yes z ↦ ground arith
  | no pos ↦ elim (dec_lt n (length c)) [
    | yes lt ↦ ground (
      arith,
      length-take n c,
      length-drop n c,
      length-append c (stream cs),
      length-append (drop n c) (stream cs),
    )
    | no ge ↦ elim (Option-cases (recv_full (n - length c) cs)) [
      | inl failed ↦ ground (arith, failed)
      | inr ((more, left'), found) ↦ ground (
        arith,
        found,
        stream-recv_full (n - length c) cs left' more found,
        length-append c more,
        length-append c (stream cs),
      )
    ]
  ]
]
