-- ===== src/Discovery.antt =====
-- The discovery client of common/zooClient.h and common/zooClient.cpp, and `HostInfo` of common/common.h.
-- A string is the list of its bytes. ZooKeeper's library, `snprintf` with `%u` and `atoi` are parameters.
pub mod Hosts
pub mod Names
pub mod Split
pub mod Counter
pub mod Client
pub mod Session
pub mod Watched
pub mod Events
pub mod Listed
pub mod Register
use websocket_test.Base.{
  same_bytes, ℕ, ◌+◌, ◌%◌, ◌^◌, zero, suc, Bool, true, false, not, ◌&&◌, Option, none, some, List,
  [], ◌∷◌, ◌++◌, map, ◌==◌, ltb, if◌then◌else◌, length, get_or,
}

pub record HostInfo : Type 0 where
  pub name : List ℕ
  pub ip : List ℕ
  pub port : ℕ

-- `operator ==`.
unfoldable pub same_host : HostInfo → HostInfo → Bool
unfolding same_bytes
same_host a b = (same_bytes b.name a.name && same_bytes b.ip a.ip) && b.port == a.port

-- The inner loop of `compareHostInfo`, up to its `break`.
unfoldable pub contains : HostInfo → List HostInfo → Bool
contains h [] = false
contains h (x ∷ xs) = if same_host h x then true else contains h xs

-- One of its outer loops: what is in the first list and not in the second.
unfoldable pub missing : List HostInfo → List HostInfo → List HostInfo
missing [] others = []
missing (x ∷ xs) others =
    let rest = missing xs others in if contains x others then rest else x ∷ rest

-- The hosts that were added, and those that are gone.
unfoldable pub compare_host_info : List HostInfo → List HostInfo → List HostInfo × List HostInfo
compare_host_info new old = (missing new old, missing old new)

-- `EOPT`.
pub data Opt : Type 0 where
  e_add e_del e_update : Opt

-- One call of a `zookCallBack`.
pub record Notice : Type 0 where
  pub hosts : List HostInfo
  pub opt : Opt

unfoldable pub notify_some : Opt → List HostInfo → List Notice
notify_some o [] = []
notify_some o (h ∷ hs) = record { hosts = h ∷ hs; opt = o } ∷ []

-- What `updateServer` tells the callback, for the hosts it fetched and those it had.
unfoldable pub notices : List HostInfo → List HostInfo → List Notice
notices [] old = notify_some e_del old
notices (h ∷ hs) old =
    let (added, gone) = compare_host_info (h ∷ hs) old in
    notify_some e_add added ++ notify_some e_del gone

-- A loop whose counter is a `uint8_t`, over a vector: it is out of fuel, or aborted at an element, or
-- it ended with what it pushed.
pub data Walk (A : Type 0) : Type 0 where
  running aborted : Walk A
  ended : List A → Walk A

module _ {A B : Type 0} (visit : A → Option B) (default : A) where
  unfoldable pub walk : ℕ → ℕ → List A → List B → Walk B
  walk zero i xs out = running
  walk (suc n) i xs out =
      if ltb i (length xs)
      then (elim (visit (get_or xs i default)) [
        | none ↦ aborted
        | some b ↦ walk n ((i + 1) % 2 ^ 8) xs (out ++ (b ∷ []))
      ])
      else ended out

-- The tokens of `SplitString` for a delimiter of one byte, as `strtok_r` finds them: the longest runs
-- without the delimiter, up to the first NUL.
unfoldable pub flush : List ℕ → List (List ℕ) → List (List ℕ)
flush [] rest = rest
flush (c ∷ token) rest = (c ∷ token) ∷ rest

unfoldable pub split_from : ℕ → List ℕ → List ℕ → List (List ℕ)
unfolding flush
split_from delim token [] = flush token []
split_from delim token (c ∷ s) =
    if c == 0
    then flush token []
    else if c == delim
    then flush token (split_from delim [] s)
    else split_from delim (token ++ (c ∷ [])) s

unfoldable pub split_string : List ℕ → ℕ → List (List ℕ)
unfolding split_from
split_string s delim = split_from delim [] s

abbrev pub slash : ℕ
slash = 47

abbrev pub colon : ℕ
colon = 58

unfoldable pub generate_addr_info : (ℕ → List ℕ) → HostInfo → List ℕ
generate_addr_info print_u h = h.ip ++ (colon ∷ print_u h.port)

module _ (atoi : List ℕ → ℕ) where
  unfoldable pub parse_address : List ℕ → List (List ℕ) → Option HostInfo
  parse_address name (ip ∷ (port ∷ [])) =
      some (record { name = name; ip = ip; port = atoi port % 2 ^ 16 })
  parse_address name _ = none

  unfoldable pub parse_parts : List (List ℕ) → Option HostInfo
  unfolding parse_address split_string
  parse_parts (name ∷ (info ∷ [])) = parse_address name (split_string info colon)
  parse_parts _ = none

  -- `parseHostInfo`; `none` where an assertion fails.
  unfoldable pub parse_host_info : List ℕ → Option HostInfo
  unfolding parse_parts split_string
  parse_host_info path = parse_parts (split_string path slash)

  unfoldable pub parse_names : ℕ → List ℕ → Walk (List ℕ) → Walk HostInfo
  parse_names fuel path running = running
  parse_names fuel path aborted = aborted
  parse_names fuel path (ended names) =
      walk (λ n. parse_host_info (path ++ (slash ∷ n))) [] fuel 0 names []

  -- `getServerList`, given the children that ZooKeeper answers: their names are copied by one loop of
  -- `zoo_wget_children`, and parsed by another.
  unfoldable pub get_server_list : ℕ → List ℕ → List (List ℕ) → Walk HostInfo
  get_server_list fuel path children = parse_names fuel path (walk some [] fuel 0 children [])

-- `_mapCallBack`: the hosts last seen under each path that is watched.
abbrev pub Watches : Type 0
Watches = List (List ℕ × List HostInfo)

unfoldable pub watched : List ℕ → Watches → Option (List HostInfo)
watched path [] = none
watched path ((p, hosts) ∷ rest) = if same_bytes path p then some hosts else watched path rest

unfoldable pub replace : List ℕ → List HostInfo → Watches → Watches
replace path hosts [] = []
replace path hosts ((p, old) ∷ rest) =
    let later = replace path hosts rest in
    if same_bytes path p then (p, hosts) ∷ rest else (p, old) ∷ later

unfoldable pub update_found :
    List ℕ → List HostInfo → Watches → Option (List HostInfo) → Watches × List Notice
update_found path hosts w none = (w, [])
update_found path hosts w (some old) = (replace path hosts w, notices hosts old)

-- `updateServer` with the hosts that `getServerList` gave.
unfoldable pub update_server : List ℕ → List HostInfo → Watches → Watches × List Notice
update_server path hosts w = update_found path hosts w (watched path w)

-- What `zoo_exists` answers for a node: none, or the session that owns it.
pub data NodeReply : Type 0 where
  no_node : NodeReply
  owned_by : ℕ → NodeReply

pub data ZooCall : Type 0 where
  create_node : List ℕ → ZooCall
  create_ephemeral : List ℕ → ZooCall
  delete_node : List ℕ → ZooCall

unfoldable pub father_calls : List ℕ → NodeReply → List ZooCall
father_calls path no_node = create_node path ∷ []
father_calls path (owned_by s) = []

unfoldable pub stale_calls : List ℕ → ℕ → NodeReply → List ZooCall
stale_calls path session no_node = []
stale_calls path session (owned_by s) = if s == session then [] else delete_node path ∷ []

unfoldable pub father_path : HostInfo → List ℕ
father_path local = slash ∷ local.name

unfoldable pub full_path : (ℕ → List ℕ) → HostInfo → List ℕ
full_path print_u local = father_path local ++ (slash ∷ generate_addr_info print_u local)

-- The calls of `registerSelf` that change ZooKeeper's tree.
unfoldable pub register_self : (ℕ → List ℕ) → HostInfo → ℕ → NodeReply → NodeReply → List ZooCall
register_self print_u local session father node =
    father_calls (father_path local) father
    ++ (stale_calls (full_path print_u local) session node
        ++ (create_ephemeral (full_path print_u local) ∷ []))
