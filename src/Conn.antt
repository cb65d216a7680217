-- ===== src/Conn.antt =====
-- The connection table, src/core/halmos_core_conn_table.c: one slot for each file descriptor, whose
-- generation tells the lives of a descriptor apart. The array is a list, `none` before
-- `core_conn_t_init` and after `core_conn_t_destroy`. Pointers to TLS contexts, buffers and sessions
-- are names (numbers); `destroyed` records the sessions whose destructor was called, newest first.
pub mod Generation
pub mod Sessions
use halmos.Base.{
  ℕ, zero, suc, ◌+◌, ◌%◌, ◌^◌, ◌≡◌, Bool, true, false, ◌&&◌, ◌||◌, not, Option, none, some, List,
  [], ◌∷◌, ◌==◌, leb, if◌then◌else◌, get_elem?, set, length,
}
use halmos.Base.Int.{ℤ, pos, negsuc}

pub data ConnState : Type 0 where
  reading processing writing closing dead : ConnState

-- A session and its destructor are pointers, absent when null.
pub record Conn : Type 0 where
  pub fd : ℕ
  pub generation : ℕ
  pub active : Bool
  pub state : ConnState
  pub ssl : Option ℕ
  pub write_buf : Option (List ℕ)
  pub write_len : ℕ
  pub write_offset : ℕ
  pub epoll_events : ℕ
  pub protocol_session : Option ℕ
  pub protocol_session_destroy : Option ℕ

pub record Table : Type 0 where
  pub g_max_fd : ℕ
  pub g_connections : Option (List Conn)
  pub destroyed : List ℕ

unfoldable pub core_conn_t_clear_write_buf : Conn → Conn
core_conn_t_clear_write_buf c = record c { write_buf = none; write_len = 0; write_offset = 0 }

abbrev pub fresh_slot : ℕ → Conn
fresh_slot i = record {
  fd = i;
  generation = 0;
  active = false;
  state = dead;
  ssl = none;
  write_buf = none;
  write_len = 0;
  write_offset = 0;
  epoll_events = 0;
  protocol_session = none;
  protocol_session_destroy = none;
}

-- The slots from `i` on, `n` of them.
unfoldable pub init_slots : ℕ → ℕ → List Conn
init_slots i zero = []
init_slots i (suc n) = fresh_slot i ∷ init_slots (suc i) n

-- `calloc_ok` is whether `calloc` returned memory. The mutexes are taken to initialise.
unfoldable pub core_conn_t_init : Table → Bool → Table × ℤ
unfolding init_slots
core_conn_t_init t calloc_ok =
    if t.g_max_fd == 0
    then (t, negsuc 0)
    else if calloc_ok
    then (record t { g_connections = some (init_slots 0 t.g_max_fd) }, pos 0)
    else (record t { g_connections = none }, negsuc 0)

-- The guard of every operation: `fd < 0 || (uint32_t)fd >= g_max_fd || !g_connections`.
unfoldable pub core_conn_t_get : Table → ℤ → Option Conn
core_conn_t_get t (negsuc _) = none
core_conn_t_get t (pos n) = elim t.g_connections [
  | none ↦ none
  | some cs ↦ if leb t.g_max_fd n then none else get_elem? cs n
]

-- The write through `&g_connections[fd]`, under the same guard.
unfoldable pub put_conn : Table → ℤ → Conn → Table
put_conn t (negsuc _) c = t
put_conn t (pos n) c = elim t.g_connections [
  | none ↦ t
  | some cs ↦ if leb t.g_max_fd n then t else record t { g_connections = some (set cs n c) }
]

-- `conn->protocol_session && conn->protocol_session_destroy`: the session that the destructor gets.
unfoldable pub doomed_session : Option ℕ → Option ℕ → List ℕ
doomed_session (some s) (some d) = s ∷ []
doomed_session (some s) none = []
doomed_session none d = []

unfoldable pub destroy_session : Table → Conn → Table
unfolding doomed_session
destroy_session t c = elim (doomed_session c.protocol_session c.protocol_session_destroy) [
  | [] ↦ t
  | s ∷ _ ↦ record t { destroyed = s ∷ t.destroyed }
]

-- The slot as `core_conn_t_activate` leaves it, with the generation `g`.
unfoldable pub activated : Conn → ℕ → Conn
unfolding core_conn_t_clear_write_buf
activated c g = record (core_conn_t_clear_write_buf c) {
  generation = g;
  ssl = none;
  epoll_events = 0;
  protocol_session = none;
  protocol_session_destroy = none;
  state = reading;
  active = true;
}

-- The new generation is what the caller gets; 0 stands for a descriptor out of range.
unfoldable pub core_conn_t_activate : Table → ℤ → Table × ℕ
core_conn_t_activate t fd = elim (core_conn_t_get t fd) [
  | none ↦ (t, 0)
  | some c ↦
      let g = (c.generation + 1) % 2 ^ 32 in (put_conn (destroy_session t c) fd (activated c g), g)
]

unfoldable pub deactivated : Conn → Conn
unfolding core_conn_t_clear_write_buf
deactivated c = record (core_conn_t_clear_write_buf c) {
  active = false;
  state = dead;
  ssl = none;
  protocol_session = none;
  protocol_session_destroy = none;
}

unfoldable pub core_conn_t_deactivate : Table → ℤ → Table
core_conn_t_deactivate t fd = elim (core_conn_t_get t fd) [
  | none ↦ t
  | some c ↦ put_conn (destroy_session t c) fd (deactivated c)
]

unfoldable pub is_closing : ConnState → Bool
is_closing closing = true
is_closing dead = true
is_closing _ = false

unfoldable pub core_conn_t_is_valid : Table → ℤ → ℕ → Bool
unfolding is_closing
core_conn_t_is_valid t fd expected_generation = elim (core_conn_t_get t fd) [
  | none ↦ false
  | some c ↦ c.active && (c.generation == expected_generation) && not (is_closing c.state)
]

-- The next two take the slot that the caller got for `fd`, and do nothing on a null pointer.
unfoldable pub core_conn_t_set_protocol_session : Table → ℤ → ℕ → ℕ → Table
core_conn_t_set_protocol_session t fd session destroy_fn = elim (core_conn_t_get t fd) [
  | none ↦ t
  | some c ↦
      put_conn t fd
        (record c { protocol_session = some session; protocol_session_destroy = some destroy_fn })
]

unfoldable pub core_conn_t_destroy_protocol_session : Table → ℤ → Table
core_conn_t_destroy_protocol_session t fd = elim (core_conn_t_get t fd) [
  | none ↦ t
  | some c ↦
      put_conn (destroy_session t c) fd
        (record c { protocol_session = none; protocol_session_destroy = none })
]

-- The loop of `core_conn_t_destroy` over the slots, lowest first.
unfoldable pub destroy_all : List Conn → Table → Table
unfolding destroy_session
destroy_all [] t = t
destroy_all (c ∷ cs) t = destroy_all cs (destroy_session t c)

unfoldable pub core_conn_t_destroy : Table → Table
unfolding destroy_all
core_conn_t_destroy t = elim t.g_connections [
  | none ↦ t
  | some cs ↦ record (destroy_all cs t) { g_connections = none }
]

-- What the other modules call, in some order.
pub data Call : Type 0 where
  activate deactivate release_session : ℤ → Call
  attach_session : ℤ → ℕ → ℕ → Call

unfoldable pub step : Table → Call → Table
step t (activate fd) = (core_conn_t_activate t fd).0
step t (deactivate fd) = core_conn_t_deactivate t fd
step t (release_session fd) = core_conn_t_destroy_protocol_session t fd
step t (attach_session fd s d) = core_conn_t_set_protocol_session t fd s d

unfoldable pub run : Table → List Call → Table
unfolding step
run t [] = t
run t (c ∷ cs) = run (step t c) cs
