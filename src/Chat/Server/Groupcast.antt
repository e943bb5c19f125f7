-- ===== src/Chat/Server/Groupcast.antt =====
-- Who gets a group message: 局域网聊天/server.c, MSG_TYPE_GROUP_SEND, with notify_group_members of
-- server_tool.c.
use mathlib.Core.List.{append-nil, append_assoc}
use learningproject.Common.{
  ◌-◌, if◌then◌else◌, take, ℕ, zero, suc, ◌-◌, ◌≤◌, ◌≡◌, refl, sym, replicate, ap, ◌∙◌, true, false,
  ◌||◌, ◌==◌, List, [], ◌∷◌, ◌++◌, none, some, arith, length, inl, inr, Bool-cases, Option-cases,
  map,
}
use learningproject.Chat.Text.{safe_strcpy, padded, safe_strcpy, str_eq, utf8}
use learningproject.Chat.Disk.{max_username_len}
use learningproject.Chat.Disk.Lines.{lines_of-print_lines}
use learningproject.Chat.Groups.Laws.{HoldsMembers, is_in_group-among}
use learningproject.Chat.Friends.Laws.{among}
use learningproject.Chat.Online.{ClientNode, find_online_fd}
use learningproject.Chat.Kind
use learningproject.Chat.Resp
use learningproject.Chat.Server.{
  take, Server, chat_deliver, generic_resp, group_message, send_members, notify_group_members,
  max_content_len,
}
use learningproject.Chat.Server.Messaging.{IsField}
use learningproject.Chat.Server.Replies.{
  string_at-second, packet, with_sent, send_message-deliver, send_message-resp, string_at-first,
}
use learningproject.Chat.Server.GroupRequests.{on_group_send}

-- The descriptors that a group's message goes to: of those members, in their order, who are online and
-- not the sender.
unfoldable pub recipients : List ℕ → List ClientNode → List (List ℕ) → List ℕ
recipients sender online [] = []
recipients sender online (m ∷ ms) = elim (length m == 0 || str_eq m sender) [
  | true ↦ recipients sender online ms
  | false ↦ elim (find_online_fd m online) [
    | none ↦ recipients sender online ms
    | some fd ↦ fd ∷ recipients sender online ms
  ]
]

-- one message to each of some descriptors
abbrev pub to_each : List ℕ → List ℕ → List (ℕ × List ℕ)
to_each bytes fds = map (λ fd. (fd, bytes)) fds

send_members-recipients :
    (sender from content : List ℕ) (members : List (List ℕ)) (s : Server)
    → send_members sender (chat_deliver from content) members s
      ≡ some (record s {
        sent =
            s.sent
            ++ to_each
                (packet Kind.group_deliver (chat_deliver from content))
                (recipients sender s.online members);
      })
unfolding send_members recipients
send_members-recipients sender from content [] s =
    ap (λ l. some (record s { sent = l })) (sym (append-nil s.sent))
send_members-recipients sender from content (m ∷ ms) s =
    elim (Bool-cases (length m == 0 || str_eq m sender)) [
      | inl skipped ↦
          rw (skipped, send_members, recipients) (send_members-recipients sender from content ms s)
      | inr kept ↦ elim (Option-cases (find_online_fd m s.online)) [
        | inl offline ↦
            rw (kept, offline, send_members, recipients)
              (send_members-recipients sender from content ms s)
        | inr (fd, found) ↦
            rw
              (
                kept,
                found,
                send_members,
                recipients,
                send_message-deliver fd Kind.group_deliver from content s,
              )
              (send_members-recipients sender from content ms
                  (with_sent s fd (packet Kind.group_deliver (chat_deliver from content)))
                ∙ ap (λ l. some (record s { sent = l }))
                    (append_assoc s.sent
                      ((fd, packet Kind.group_deliver (chat_deliver from content)) ∷ [])
                      (to_each (packet Kind.group_deliver (chat_deliver from content))
                        (recipients sender s.online ms))))
      ]
    ]

notify-recipients :
    (g u c : List ℕ) (names : List (List ℕ)) (s : Server)
    → HoldsMembers g names s.disk
    → notify_group_members g u c s
      ≡ some (record s {
        sent =
            s.sent
            ++ to_each
                (packet Kind.group_deliver (group_message g u c))
                (recipients u s.online names);
      })
unfolding notify_group_members
notify-recipients g u c names s held =
    rw (held.text, notify_group_members, lines_of-print_lines max_username_len names held.fit)
      (send_members-recipients u g (take 1097 (u ++ utf8 ": " ++ c)) names s)

take-take : (m n : ℕ) (xs : List ℕ) → m ≤ n → take m (take n xs) ≡ take m xs
take-take zero n xs le = refl
take-take (suc m) zero xs le = absurd (omega arith)
take-take (suc m) (suc n) [] le = refl
take-take (suc m) (suc n) (x ∷ xs) le = ap (λ r. x ∷ r) (take-take m n xs (omega arith))

-- what is cut behind a field's end does not show in it
padded-take : (n size : ℕ) (xs : List ℕ) → size - 1 ≤ n → padded (take n xs) size ≡ padded xs size
unfolding padded safe_strcpy
padded-take n size xs le =
    ap (λ s. s ++ replicate (size - length s) 0) (take-take (size - 1) n xs le)

-- The array `full_msg` cuts nothing that the field would hold.
group_message_lem :
    (g u c : List ℕ)
    → group_message g u c ≡ chat_deliver g (take (max_content_len - 1) (u ++ utf8 ": " ++ c))
group_message_lem g u c =
    let text = u ++ utf8 ": " ++ c in
    let field : List ℕ → List ℕ = λ content. padded g max_username_len ++ content in
    ap field (
      padded-take 1097 max_content_len text (omega arith)
      ∙ sym (padded-take (max_content_len - 1) max_content_len text (omega arith)))

-- A text of at most 1023 bytes is sent to a group whose file holds some members, with names of at most 62
-- bytes, by a user `u`. If `u` is a member, each other member who is online is sent one message at the
-- descriptor that the list of users has for that name, in the order of the file, and no one else is sent
-- anything. Its sender is the group, and its text the name of `u`, a colon, a space and the text, cut to
-- 1023 bytes in all, so that a long text loses its end. If not, `u` alone is sent a refusal. Files and the
-- list of users stay.
pub group_send-recipients :
    (fd : ℕ) (g u c : List ℕ) (names : List (List ℕ)) (s : Server)
    → HoldsMembers g names s.disk
    → IsField max_username_len g
    → IsField max_content_len c
    → on_group_send fd u (chat_deliver g c) s
      ≡ some (record s {
        sent =
            s.sent
            ++ (if among u names
                then to_each
                    (packet Kind.group_deliver
                      (chat_deliver g (take (max_content_len - 1) (u ++ utf8 ": " ++ c))))
                    (recipients u s.online names)
                else (
                  fd,
                  packet Kind.group_join_resp (generic_resp Resp.err_unknown (utf8 "你不在该群，无法发送消息")),
                )
                  ∷ []);
      })
unfolding on_group_send
group_send-recipients fd g u c names s held fg fc = elim (Bool-cases (among u names)) [
  | inl member ↦ ground (
    arith,
    member,
    is_in_group-among g u names s.disk held,
    string_at-first g (padded c max_content_len) fg.0 fg.1,
    string_at-second g c max_content_len fc.0 fc.1,
    notify-recipients g u c names s held,
    group_message_lem g u c,
  )
  | inr stranger ↦ ground (
    arith,
    stranger,
    is_in_group-among g u names s.disk held,
    string_at-first g (padded c max_content_len) fg.0 fg.1,
    send_message-resp fd Kind.group_join_resp Resp.err_unknown (utf8 "你不在该群，无法发送消息") s,
  )
]
