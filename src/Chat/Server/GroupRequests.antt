-- ===== src/Chat/Server/GroupRequests.antt =====
-- The requests on groups: the cases of the switch of handle_client in 局域网聊天/server.c.
use learningproject.Common.{ℕ, not, List, ◌++◌, Option, ◌>>=◌, if◌then◌else◌}
use learningproject.Chat.Text.{string_at, utf8}
use learningproject.Chat.Groups.{
  group_exists, create_group, join_group, leave_group, is_in_group, load_group_list,
}
use learningproject.Chat.Kind
use learningproject.Chat.Resp
use learningproject.Chat.Server.{
  Server, send_message, generic_resp, notify_group_members, list_body,
}

unfoldable pub on_group_create : ℕ → List ℕ → List ℕ → Server → Option Server
on_group_create fd username body s = do
  g ← string_at 0 body
  (if group_exists g s.disk
      then send_message fd Kind.group_create_resp (generic_resp Resp.err_group_exist (utf8 "群聊已存在"))
          s
      else send_message fd Kind.group_create_resp
          (generic_resp Resp.ok (utf8 "成功创建群聊 [" ++ g ++ utf8 "]"))
          (record s { disk = create_group g username s.disk }))

unfoldable pub on_group_join : ℕ → List ℕ → List ℕ → Server → Option Server
on_group_join fd username body s = do
  g ← string_at 0 body
  (if not (group_exists g s.disk)
      then send_message fd Kind.group_join_resp
          (generic_resp Resp.err_group_not_exist (utf8 "群聊不存在")) s
      else if is_in_group g username s.disk
      then send_message fd Kind.group_join_resp
          (generic_resp Resp.err_already_in_group (utf8 "已在该群中")) s
      else send_message fd Kind.group_join_resp
          (generic_resp Resp.ok (utf8 "成功加入群聊 [" ++ g ++ utf8 "]"))
          (record s { disk = join_group g username s.disk }))

unfoldable pub on_leave_group : ℕ → List ℕ → List ℕ → Server → Option Server
on_leave_group fd username body s = do
  g ← string_at 0 body
  (if not (group_exists g s.disk)
      then send_message fd Kind.leave_group_resp
          (generic_resp Resp.err_group_not_exist (utf8 "群聊不存在")) s
      else if not (is_in_group g username s.disk)
      then send_message fd Kind.leave_group_resp (generic_resp Resp.err_unknown (utf8 "你不在该群中")) s
      else send_message fd Kind.leave_group_resp
          (generic_resp Resp.ok (utf8 "已退出群聊 [" ++ g ++ utf8 "]"))
          (record s { disk = leave_group g username s.disk }))

unfoldable pub on_group_list : ℕ → List ℕ → Server → Option Server
on_group_list fd username s = do
  groups ← load_group_list username s.disk
  send_message fd Kind.group_list_resp (list_body (λ _. 0) groups) s

unfoldable pub on_group_send : ℕ → List ℕ → List ℕ → Server → Option Server
on_group_send fd username body s = do
  g ← string_at 0 body
  (if is_in_group g username s.disk
      then (do content ← string_at 64 body; notify_group_members g username content s)
      else send_message fd Kind.group_join_resp
          (generic_resp Resp.err_unknown (utf8 "你不在该群，无法发送消息")) s)
