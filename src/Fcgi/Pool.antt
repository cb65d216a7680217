-- ===== src/Fcgi/Pool.antt =====
-- The pool of backend connections, src/fastcgi/halmos_fcgi_pool.c, with each call as one step. A
-- descriptor of -1 is `none`; what poll, getsockopt, recv and the making of a socket give are arguments.
pub mod Exclusive
use halmos.Base.{
  ℕ, zero, suc, ◌+◌, Bool, true, false, ◌&&◌, ◌||◌, not, Option, some, none, List, [], ◌∷◌, ltb,
  ◌==◌, if◌then◌else◌, take, replicate, streq,
}
use halmos.Base.Int.{ℤ, pos, negsuc, ◌+ℤ◌, ltb_ℤ}

-- `HalmosFCGI_Conn`
pub record BackendConn : Type 0 where
  pub sockfd : Option ℕ
  pub target_port : ℤ
  pub target_path : List ℕ
  pub is_unix : Bool
  pub in_use : Bool

-- The addresses and ports of a group in the configuration.
pub record Group : Type 0 where
  pub ips : List (List ℕ)
  pub ports : List ℤ

-- `HalmosFCGI_Pool` and the groups: PHP, Rust and Python are 0, 1 and 2.
pub record Pool : Type 0 where
  pub connections : List BackendConn
  pub active_counts : ℕ → ℤ
  pub quota : ℕ → ℤ
  pub groups : ℕ → Group

abbrev pub empty_conn : BackendConn
empty_conn = record {
  sockfd = none;
  target_port = pos 0;
  target_path = [];
  is_unix = false;
  in_use = false;
}

-- What `malloc` leaves in the other fields of a slot is not read before it is set.
unfoldable pub fcgi_pool_init : ℕ → (ℕ → ℤ) → (ℕ → Group) → Pool
fcgi_pool_init pool_size quota groups = record {
  connections = replicate pool_size empty_conn;
  active_counts = λ i. pos 0;
  quota = quota;
  groups = groups;
}

abbrev eq_ℤ : ℤ → ℤ → Bool
eq_ℤ (pos m) (pos n) = m == n
eq_ℤ (negsuc m) (negsuc n) = m == n
eq_ℤ _ _ = false

abbrev has_ip : List ℕ → List (List ℕ) → Bool
has_ip target [] = false
has_ip target (ip ∷ ips) = streq ip target || has_ip target ips

abbrev has_port : ℤ → List ℤ → Bool
has_port port [] = false
has_port port (p ∷ ports) = eq_ℤ p port || has_port port ports

-- A group with the address, if one is given, otherwise with the port.
abbrev in_group : Option (List ℕ) → ℤ → Group → Bool
in_group (some target) port g = has_ip target g.ips
in_group none port g = has_port port g.ports

unfoldable pub get_backend_index : Pool → Option (List ℕ) → ℤ → ℕ
get_backend_index s target port =
    if in_group target port (s.groups 0)
    then 0
    else if in_group target port (s.groups 1)
    then 1
    else if in_group target port (s.groups 2)
    then 2
    else 0

abbrev add_count : (ℕ → ℤ) → ℕ → ℤ → ℕ → ℤ
add_count counts idx change i = if i == idx then counts i +ℤ change else counts i

-- `port == 0 || port == -1`
abbrev pub unix_port : ℤ → Bool
unix_port (pos n) = n == 0
unix_port (negsuc n) = n == 0

unfoldable pub belongs : List ℕ → ℤ → BackendConn → Bool
belongs target port c =
    if unix_port port
    then c.is_unix && streq c.target_path target
    else not c.is_unix && eq_ℤ c.target_port port

-- The search for an idle connection from slot `i` on; a dead one is closed and its slot emptied.
unfoldable pub reuse_conn :
    (ℕ → Bool) → List ℕ → ℤ → ℕ → List BackendConn → List BackendConn × Option ℕ
reuse_conn alive target port i [] = ([], none)
reuse_conn alive target port i (c ∷ cs) =
    let (cs', found) = reuse_conn alive target port (suc i) cs in
    elim c.sockfd [
      | none ↦ (c ∷ cs', found)
      | some fd ↦
          if not c.in_use && belongs target port c
          then (if alive i
              then (record c { in_use = true } ∷ cs, some fd)
              else (record c { sockfd = none } ∷ cs', found))
          else (c ∷ cs', found)
    ]

-- The new socket into the first empty slot, and whether there was one.
unfoldable pub store_conn : List ℕ → ℤ → ℕ → List BackendConn → List BackendConn × Bool
store_conn target port fd [] = ([], false)
store_conn target port fd (c ∷ cs) =
    let (cs', stored) = store_conn target port fd cs in
    elim c.sockfd [
      | some other ↦ (c ∷ cs', stored)
      | none ↦ (
        record {
          sockfd = some fd;
          in_use = true;
          is_unix = unix_port port;
          target_port = port;
          target_path = if unix_port port then take 107 target else c.target_path;
        }
            ∷ cs,
        true,
      )
    ]

-- With room in the backend's quota, an idle connection.
abbrev pub try_reuse : Pool → (ℕ → Bool) → List ℕ → ℤ → List BackendConn × Option ℕ
try_reuse s alive target port =
    let idx = get_backend_index s (some target) port in
    if ltb_ℤ (s.active_counts idx) (s.quota idx)
    then reuse_conn alive target port 0 s.connections
    else (s.connections, none)

-- Otherwise a new one, `none` where `create_backend_socket` fails, pooled if there is room.
unfoldable pub create_conn : Pool → List ℕ → ℤ → Option ℕ → Pool × Option ℕ
create_conn s target port none = (s, none)
create_conn s target port (some fd) =
    let idx = get_backend_index s (some target) port in
    let (connections, stored) = store_conn target port fd s.connections in
    if ltb_ℤ (s.active_counts idx) (s.quota idx) && stored
    then (
      record s { connections = connections; active_counts = add_count s.active_counts idx (pos 1) },
      some fd,
    )
    else (s, some fd)

unfoldable pub finish_acquire :
    Pool → List ℕ → ℤ → Option ℕ → List BackendConn × Option ℕ → Pool × Option ℕ
finish_acquire s target port created (connections, some fd) = (
  record s {
    connections = connections;
    active_counts = add_count s.active_counts (get_backend_index s (some target) port) (pos 1);
  },
  some fd,
)
finish_acquire s target port created (connections, none) =
    create_conn (record s { connections = connections }) target port created

unfoldable pub fcgi_pool_conn_acquire : Pool → (ℕ → Bool) → List ℕ → ℤ → Option ℕ → Pool × Option ℕ
fcgi_pool_conn_acquire s alive target port created =
    finish_acquire s target port created (try_reuse s alive target port)

-- The first slot with the socket is given back, emptied if the connection is not healthy.
unfoldable pub return_conn : ℕ → Bool → List BackendConn → List BackendConn × Option BackendConn
return_conn fd healthy [] = ([], none)
return_conn fd healthy (c ∷ cs) =
    let (cs', found) = return_conn fd healthy cs in
    elim c.sockfd [
      | none ↦ (c ∷ cs', found)
      | some other ↦
          if other == fd
          then (
            (if healthy
                  then record c { in_use = false }
                  else record c { sockfd = none; in_use = false })
                ∷ cs,
            some c,
          )
          else (c ∷ cs', found)
    ]

unfoldable pub fcgi_pool_conn_release : Pool → ℕ → Bool → Pool
fcgi_pool_conn_release s fd healthy =
    let (connections, found) = return_conn fd healthy s.connections in
    elim found [
      | none ↦ s
      | some c ↦
          let idx =
            get_backend_index s (if c.is_unix then some c.target_path else none) c.target_port in
          record s {
            connections = connections;
            active_counts = add_count s.active_counts idx (negsuc 0);
          }
    ]
