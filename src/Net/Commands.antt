-- ===== src/Net/Commands.antt =====
-- The command and status codes of net/protocol.go and net/protocol_ext.go.
use mcache.Prelude.{ℕ, Bool, leb, ◌&&◌}

abbrev pub status_ok : ℕ
status_ok = 0

abbrev pub status_err : ℕ
status_err = 1

abbrev pub status_not_found : ℕ
status_not_found = 2

abbrev pub get : ℕ
get = 1

abbrev pub set : ℕ
set = 2

abbrev pub del : ℕ
del = 3

abbrev pub len : ℕ
len = 4

abbrev pub cleanup : ℕ
cleanup = 5

abbrev pub stats : ℕ
stats = 6

abbrev pub s_add : ℕ
s_add = 10

abbrev pub s_rem : ℕ
s_rem = 11

abbrev pub s_is_member : ℕ
s_is_member = 12

abbrev pub s_members : ℕ
s_members = 13

abbrev pub s_card : ℕ
s_card = 14

abbrev pub s_pop : ℕ
s_pop = 15

abbrev pub s_rand_member : ℕ
s_rand_member = 16

abbrev pub s_union : ℕ
s_union = 17

abbrev pub s_inter : ℕ
s_inter = 18

abbrev pub s_diff : ℕ
s_diff = 19

abbrev pub h_set : ℕ
h_set = 32

abbrev pub h_get : ℕ
h_get = 33

abbrev pub h_del : ℕ
h_del = 34

abbrev pub h_exists : ℕ
h_exists = 35

abbrev pub h_get_all : ℕ
h_get_all = 36

abbrev pub h_keys : ℕ
h_keys = 37

abbrev pub h_vals : ℕ
h_vals = 38

abbrev pub h_len : ℕ
h_len = 39

abbrev pub h_str_len : ℕ
h_str_len = 40

abbrev pub h_incr_by : ℕ
h_incr_by = 41

abbrev pub h_incr_by_float : ℕ
h_incr_by_float = 42

abbrev pub hm_get : ℕ
hm_get = 43

abbrev pub hm_set : ℕ
hm_set = 44

abbrev pub h_set_nx : ℕ
h_set_nx = 45

abbrev pub l_push : ℕ
l_push = 48

abbrev pub r_push : ℕ
r_push = 49

abbrev pub l_pop : ℕ
l_pop = 50

abbrev pub r_pop : ℕ
r_pop = 51

abbrev pub l_len : ℕ
l_len = 52

abbrev pub l_range : ℕ
l_range = 53

abbrev pub l_index : ℕ
l_index = 54

abbrev pub l_set : ℕ
l_set = 55

abbrev pub l_rem : ℕ
l_rem = 56

abbrev pub l_trim : ℕ
l_trim = 57

abbrev pub l_insert : ℕ
l_insert = 58

abbrev pub bl_pop : ℕ
bl_pop = 59

abbrev pub br_pop : ℕ
br_pop = 60

abbrev pub l_pos : ℕ
l_pos = 61

abbrev pub exists : ℕ
exists = 64

abbrev pub type_of : ℕ
type_of = 65

abbrev pub expire : ℕ
expire = 66

abbrev pub expire_at : ℕ
expire_at = 67

abbrev pub p_expire : ℕ
p_expire = 68

abbrev pub p_expire_at : ℕ
p_expire_at = 69

abbrev pub ttl : ℕ
ttl = 70

abbrev pub pttl : ℕ
pttl = 71

abbrev pub persist : ℕ
persist = 72

abbrev pub keys : ℕ
keys = 73

unfoldable pub is_hash_cmd : ℕ → Bool
is_hash_cmd cmd = leb h_set cmd && leb cmd h_set_nx

unfoldable pub is_list_cmd : ℕ → Bool
is_list_cmd cmd = leb l_push cmd && leb cmd l_pos

unfoldable pub is_key_cmd : ℕ → Bool
is_key_cmd cmd = leb exists cmd && leb cmd keys
