-- ===== src/Ws/Registry.antt =====
-- The registry of WebSocket clients, src/protocol/websocket/halmos_ws_registry.c. A pointer to a client is
-- the name of its memory, which `calloc` gives and `free` takes back; `faulted` is set where the code reads
-- a client that has been freed. Each call is one step, and its locks are free. A descriptor is a natural
-- number: a negative one is refused as one is that is too large. A bucket that is not there yet is empty.
pub mod Counts
pub mod Valid
pub mod Steps
pub mod Safety
pub mod Runs
pub mod Identity
use mathlib.Core.Option
use halmos.Base.{
  ℕ, zero, suc, ◌+◌, ◌-◌, ◌*◌, ◌%◌, ◌^◌, Bool, true, false, ◌&&◌, ◌||◌, not, Option, some, none,
  List, [], ◌∷◌, ◌++◌, map, ltb, ◌==◌, if◌then◌else◌, length, take, replicate, bit_or, streq,
}

-- `HalmosWSClient`; `topic_count` is the number of topics.
pub record Client : Type 0 where
  pub fd : ℕ
  pub ssl : Option ℕ
  pub last_seen : ℕ
  pub is_active : Bool
  pub is_http2 : Bool
  pub stream_id : ℕ
  pub session_id : ℕ
  pub user_id : List ℕ
  pub subscribed_topics : List (List ℕ)

-- `HalmosWSRegistry`, the memory, and `global_session_counter`.
pub record Registry : Type 0 where
  pub memory : ℕ → Option Client
  pub clients : List (Option ℕ)
  pub fd_map : ℕ → Option ℕ
  pub current_count : ℕ
  pub buckets : ℕ → List ℕ
  pub user_map : ℕ → List ℕ
  pub global_session_counter : ℕ
  pub faulted : Bool

abbrev pub max_ws_clients : ℕ
max_ws_clients = 1024

abbrev pub max_topics_per_user : ℕ
max_topics_per_user = 16

abbrev pub ws_fd_is_valid : ℕ → Bool
ws_fd_is_valid fd = ltb fd 65536

unfoldable pub hash_loop : ℕ → List ℕ → ℕ
hash_loop hash [] = hash
hash_loop hash (c ∷ s) = hash_loop ((hash * 33 + c) % 2 ^ 64) s

-- On characters of 7 bits, which are not negative.
unfoldable pub hash_topic : List ℕ → ℕ
hash_topic s = hash_loop 5381 s % 256

abbrev pub update {ℓ} : {A : Type ℓ} → (ℕ → A) → ℕ → A → ℕ → A
update f i v j = if j == i then v else f j

unfoldable pub ws_registry_init : (ℕ → Option Client) → Registry
ws_registry_init memory = record {
  memory = memory;
  clients = replicate max_ws_clients none;
  fd_map = λ fd. none;
  current_count = 0;
  buckets = λ b. [];
  user_map = λ i. [];
  global_session_counter = 1;
  faulted = false;
}

-- The first free slot, filled.
unfoldable pub fill_slot : ℕ → List (Option ℕ) → Option (List (Option ℕ))
fill_slot p [] = none
fill_slot p (none ∷ slots) = some (some p ∷ slots)
fill_slot p (some q ∷ slots) = Option.map (◌∷◌ (some q)) (fill_slot p slots)

abbrev pub new_client : Registry → ℕ → Option ℕ → ℕ → Bool → ℕ → Client
new_client s fd ssl now is_http2 stream_id = record {
  fd = fd;
  ssl = ssl;
  last_seen = now;
  is_active = true;
  is_http2 = is_http2;
  stream_id = stream_id;
  session_id = bit_or (now * 2 ^ 32 % 2 ^ 64) s.global_session_counter;
  user_id = [];
  subscribed_topics = [];
}

-- What `ws_registry_add` and `ws_registry_add_h2` share, with what `calloc` gives.
unfoldable pub add_client : Registry → ℕ → Client → Option ℕ → Registry
add_client s fd client none = s
add_client s fd client (some p) = elim (fill_slot p s.clients) [
  | none ↦ s
  | some clients ↦ record s {
    memory = update s.memory p (some client);
    clients = clients;
    fd_map = update s.fd_map fd (some p);
    current_count = s.current_count + 1;
    global_session_counter = (s.global_session_counter + 1) % 2 ^ 64;
  }
]

unfoldable pub ws_registry_add : Registry → ℕ → Option ℕ → ℕ → Option ℕ → Registry
ws_registry_add s fd ssl now calloc =
    if ws_fd_is_valid fd then add_client s fd (new_client s fd ssl now false 0) calloc else s

unfoldable pub ws_registry_add_h2 : Registry → ℕ → Option ℕ → ℕ → ℕ → Option ℕ → Registry
ws_registry_add_h2 s fd ssl stream_id now calloc =
    if ws_fd_is_valid fd then add_client s fd (new_client s fd ssl now true stream_id) calloc else s

abbrev pub fault : Registry → Registry
fault s = record s { faulted = true }

-- The client of a descriptor, read.
unfoldable pub on_client : Registry → ℕ → (ℕ → Client → Registry) → Registry
on_client s fd f =
    if ws_fd_is_valid fd
    then elim (s.fd_map fd) [
      | none ↦ s
      | some p ↦ elim (s.memory p) [ none ↦ fault s | some c ↦ f p c ]
    ]
    else s

unfoldable pub remove_first : ℕ → List ℕ → List ℕ
remove_first p [] = []
remove_first p (q ∷ qs) = let rest = remove_first p qs in if q == p then qs else q ∷ rest

unfoldable pub clear_slot : ℕ → List (Option ℕ) → List (Option ℕ)
clear_slot p [] = []
clear_slot p (none ∷ slots) = none ∷ clear_slot p slots
clear_slot p (some q ∷ slots) =
    let rest = clear_slot p slots in if q == p then none ∷ slots else some q ∷ rest

-- Out of the bucket of the name, if there is one.
unfoldable pub leave_user_map : ℕ → Client → (ℕ → List ℕ) → ℕ → List ℕ
leave_user_map p c user_map =
    if length c.user_id == 0
    then user_map
    else update user_map (hash_topic c.user_id) (remove_first p (user_map (hash_topic c.user_id)))

-- Out of the bucket of each topic.
unfoldable pub leave_topics : ℕ → List (List ℕ) → (ℕ → List ℕ) → ℕ → List ℕ
leave_topics p [] buckets = buckets
leave_topics p (topic ∷ topics) buckets =
    leave_topics p topics
      (update buckets (hash_topic topic) (remove_first p (buckets (hash_topic topic))))

-- `current_count` is positive where a client is registered.
unfoldable pub remove_client : Registry → ℕ → ℕ → Client → Registry
remove_client s fd p c = record s {
  user_map = leave_user_map p c s.user_map;
  buckets = leave_topics p c.subscribed_topics s.buckets;
  clients = clear_slot p s.clients;
  fd_map = update s.fd_map fd none;
  current_count = s.current_count - 1;
  memory = update s.memory p none;
}

unfoldable pub ws_registry_remove : Registry → ℕ → Registry
ws_registry_remove s fd = on_client s fd (remove_client s fd)

unfoldable pub put_client : Registry → ℕ → Client → Registry
put_client s p c = record s { memory = update s.memory p (some c) }

unfoldable pub ws_registry_update_activity : Registry → ℕ → ℕ → Registry
ws_registry_update_activity s fd now =
    on_client s fd (λ p c. put_client s p (record c { last_seen = now }))

-- `snprintf (full_key, 64, "%.30s:%.32s", app_id, topic)`
unfoldable pub topic_key : List ℕ → List ℕ → List ℕ
topic_key app_id topic = take 30 app_id ++ 58 ∷ take 32 topic

unfoldable pub is_in : ℕ → List ℕ → Bool
is_in p [] = false
is_in p (q ∷ qs) = (q == p) || is_in p qs

-- The subscription, and its record in the client if there is room.
unfoldable pub subscribe : Registry → List ℕ → ℕ → Client → Registry
subscribe s key p c =
    let idx = hash_topic key in
    let s' = record s { buckets = update s.buckets idx (p ∷ s.buckets idx) } in
    if not c.is_active || is_in p (s.buckets idx)
    then s
    else if ltb (length c.subscribed_topics) max_topics_per_user
    then put_client s' p (record c { subscribed_topics = c.subscribed_topics ++ key ∷ [] })
    else s'

unfoldable pub ws_registry_add_to_topic : Registry → ℕ → List ℕ → List ℕ → Registry
ws_registry_add_to_topic s fd app_id topic = on_client s fd (subscribe s (topic_key app_id topic))

unfoldable pub name_client : Registry → List ℕ → ℕ → Client → Registry
name_client s user_id p c =
    let idx = hash_topic user_id in
    let left = leave_user_map p c s.user_map in
    if c.is_active
    then put_client (record s { user_map = update left idx (p ∷ left idx) }) p
        (record c { user_id = take 63 user_id })
    else s

unfoldable pub ws_registry_set_user_id : Registry → ℕ → List ℕ → Registry
ws_registry_set_user_id s fd user_id =
    if length user_id == 0 then s else on_client s fd (name_client s user_id)

-- The clients behind a list of pointers, and whether one of them is gone.
unfoldable pub visit : (ℕ → Option Client) → List ℕ → Bool × List Client
visit memory [] = (false, [])
visit memory (p ∷ ps) =
    let (gone, cs) = visit memory ps in
    elim (memory p) [ none ↦ (true, cs) | some c ↦ (gone, if c.is_active then c ∷ cs else cs) ]

abbrev pub visited : Registry → Bool × List Client → Registry × List Client
visited s (gone, cs) = (if gone then fault s else s, cs)

-- The clients that a message goes to, in their order.
unfoldable pub ws_registry_publish : Registry → List ℕ → List ℕ → Registry × List Client
ws_registry_publish s app_id topic =
    visited s (visit s.memory (s.buckets (hash_topic (take 127 (app_id ++ 58 ∷ topic)))))

abbrev pub pointers : List (Option ℕ) → List ℕ
pointers [] = []
pointers (none ∷ slots) = pointers slots
pointers (some p ∷ slots) = p ∷ pointers slots

unfoldable pub ws_registry_broadcast : Registry → Registry × List Client
ws_registry_broadcast s = visited s (visit s.memory (pointers s.clients))

abbrev http1_clients : List Client → List Client
http1_clients [] = []
http1_clients (c ∷ cs) = let rest = http1_clients cs in if c.is_http2 then rest else c ∷ rest

-- The clients that get a ping.
unfoldable pub ws_registry_heartbeat : Registry → Registry × List Client
ws_registry_heartbeat s =
    let (s', cs) = visited s (visit s.memory (pointers s.clients)) in (s', http1_clients cs)

abbrev pub stale_fds : ℕ → List Client → List ℕ
stale_fds now [] = []
stale_fds now (c ∷ cs) =
    let rest = stale_fds now cs in if ltb (c.last_seen + 90) now then c.fd ∷ rest else rest

unfoldable pub remove_all : Registry → List ℕ → Registry
remove_all s [] = s
remove_all s (fd ∷ fds) = remove_all (ws_registry_remove s fd) fds

-- The descriptors closed are the ones removed.
unfoldable pub ws_registry_reaper : Registry → ℕ → Registry
ws_registry_reaper s now =
    let (s', cs) = visited s (visit s.memory (pointers s.clients)) in
    remove_all s' (stale_fds now cs)

-- The search in a chain of the map of names: the client, and whether one on the way was gone.
unfoldable pub find_name : (ℕ → Option Client) → List ℕ → List ℕ → Bool × Option Client
find_name memory name [] = (false, none)
find_name memory name (p ∷ ps) =
    let rest = find_name memory name ps in
    elim (memory p) [
      | none ↦ (true, rest.1)
      | some c ↦ if c.is_active && streq c.user_id name then (false, some c) else rest
    ]

unfoldable pub ws_registry_get_session_info : Registry → List ℕ → Registry × Option Client
ws_registry_get_session_info s name =
    let (gone, found) = find_name s.memory name (s.user_map (hash_topic name)) in
    (if gone then fault s else s, found)

-- The protocol of the client of a descriptor, HTTP/1 if there is none.
unfoldable pub ws_registry_get_h2_status : Registry → ℕ → Bool × ℕ
ws_registry_get_h2_status s fd =
    let status : Client → Bool × ℕ =
      λ c. if c.is_active then (c.is_http2, c.stream_id) else (false, 0) in
    if ws_fd_is_valid fd
    then elim (s.fd_map fd) [
      | none ↦ (false, 0)
      | some p ↦ elim (s.memory p) [ none ↦ (false, 0) | some c ↦ status c ]
    ]
    else (false, 0)

unfoldable pub ws_registry_validate_session : Registry → ℕ → ℕ → Bool
ws_registry_validate_session s fd session_id = ws_fd_is_valid fd && elim (s.fd_map fd) [
  | none ↦ false
  | some p ↦ elim (s.memory p) [
    | none ↦ false
    | some c ↦ (c.session_id == session_id) && c.is_active
  ]
]
