-- ===== src/Chat/Kind.antt =====
-- The message types of 局域网聊天/protocol.h, `msg_type_t`.
use learningproject.Common.{ℕ}

abbrev pub register : ℕ
register = 0

abbrev pub register_resp : ℕ
register_resp = 1

abbrev pub login : ℕ
login = 2

abbrev pub login_resp : ℕ
login_resp = 3

abbrev pub add_friend : ℕ
add_friend = 4

abbrev pub add_friend_resp : ℕ
add_friend_resp = 5

abbrev pub remove_friend : ℕ
remove_friend = 6

abbrev pub remove_friend_resp : ℕ
remove_friend_resp = 7

abbrev pub chat_send : ℕ
chat_send = 8

abbrev pub chat_deliver : ℕ
chat_deliver = 9

abbrev pub friend_list_req : ℕ
friend_list_req = 10

abbrev pub friend_list_resp : ℕ
friend_list_resp = 11

abbrev pub friend_online : ℕ
friend_online = 12

abbrev pub friend_offline : ℕ
friend_offline = 13

abbrev pub group_create : ℕ
group_create = 14

abbrev pub group_create_resp : ℕ
group_create_resp = 15

abbrev pub group_join : ℕ
group_join = 16

abbrev pub group_join_resp : ℕ
group_join_resp = 17

abbrev pub leave_group : ℕ
leave_group = 18

abbrev pub leave_group_resp : ℕ
leave_group_resp = 19

abbrev pub group_list_req : ℕ
group_list_req = 20

abbrev pub group_list_resp : ℕ
group_list_resp = 21

abbrev pub group_send : ℕ
group_send = 22

abbrev pub group_deliver : ℕ
group_deliver = 23
