-- ===== src/Fcgi/Pool/Exclusive.antt =====
-- A socket of the pool of src/fastcgi/halmos_fcgi_pool.c is lent to one request at a time.
use halmos.Base.{
  ℕ, zero, suc, ◌+◌, ◌≤◌, ◌<◌, ◌≡◌, refl, inl, inr, Bool, true, false, ◌-◌, sym, subst,
  Option-cases, ◌&&◌, Option, some, none, List, [], ◌∷◌, ◌==◌, if◌then◌else◌, Bool-cases, replicate,
  arith,
}
use halmos.Base.Int.{ℤ, ltb_ℤ}
use halmos.Fcgi.Pool.{
  BackendConn, Group, empty_conn, Pool, fcgi_pool_init, get_backend_index, reuse_conn, store_conn,
  try_reuse, create_conn, finish_acquire, fcgi_pool_conn_acquire, return_conn,
  fcgi_pool_conn_release,
}

unfoldable pub holds : ℕ → Option ℕ → Bool
holds fd none = false
holds fd (some other) = other == fd

-- How many slots have the socket, and how many of these are in use.
unfoldable pub held : ℕ → List BackendConn → ℕ
held fd [] = 0
held fd (c ∷ cs) = (if holds fd c.sockfd then 1 else 0) + held fd cs

unfoldable pub lent : ℕ → List BackendConn → ℕ
lent fd [] = 0
lent fd (c ∷ cs) = (if holds fd c.sockfd && c.in_use then 1 else 0) + lent fd cs

lent-held : (fd : ℕ) (cs : List BackendConn) → lent fd cs ≤ held fd cs
unfolding lent held
lent-held fd [] = omega arith
lent-held fd (c ∷ cs) = ground (arith, lent-held fd cs)

-- A search moves no socket to another slot.
held-reuse_conn :
    (alive : ℕ → Bool) (target : List ℕ) (port : ℤ) (i fd : ℕ) (cs : List BackendConn)
    → held fd (reuse_conn alive target port i cs).0 ≤ held fd cs
unfolding held reuse_conn holds
held-reuse_conn alive target port i fd [] = omega arith
held-reuse_conn alive target port i fd (c ∷ cs) =
    ground (arith, held-reuse_conn alive target port (suc i) fd cs)

-- What a search finds was held by a slot that was not in use.
reuse_conn_free :
    (alive : ℕ → Bool) (target : List ℕ) (port : ℤ) (i fd : ℕ) (cs : List BackendConn)
    → (reuse_conn alive target port i cs).1 ≡ some fd
    → lent fd cs < held fd cs
unfolding held lent reuse_conn holds
reuse_conn_free alive target port i fd [] h = absurd (ground (arith, h))
reuse_conn_free alive target port i fd (c ∷ cs) h =
    ground (arith, h, lent-held fd cs, reuse_conn_free alive target port (suc i) fd cs)

held-store_conn :
    (target : List ℕ) (port : ℤ) (fd other : ℕ) (cs : List BackendConn)
    → held other (store_conn target port fd cs).0 ≤ held other cs + (if fd == other then 1 else 0)
unfolding held store_conn holds
held-store_conn target port fd other [] = omega arith
held-store_conn target port fd other (c ∷ cs) =
    ground (arith, held-store_conn target port fd other cs)

held-return_conn :
    (fd other : ℕ) (healthy : Bool) (cs : List BackendConn)
    → held other (return_conn fd healthy cs).0 ≤ held other cs
unfolding held return_conn holds
held-return_conn fd other healthy [] = omega arith
held-return_conn fd other healthy (c ∷ cs) = ground (arith, held-return_conn fd other healthy cs)

-- A search leaves the slots in use alone, and the one that it finds is in use from then on.
lent-reuse_conn :
    (alive : ℕ → Bool) (target : List ℕ) (port : ℤ) (i fd : ℕ) (cs : List BackendConn)
    → lent fd (reuse_conn alive target port i cs).0
      ≡ lent fd cs + (if holds fd (reuse_conn alive target port i cs).1 then 1 else 0)
unfolding lent reuse_conn holds
lent-reuse_conn alive target port i fd [] = omega arith
lent-reuse_conn alive target port i fd (c ∷ cs) =
    ground (arith, lent-reuse_conn alive target port (suc i) fd cs)

lent-store_conn :
    (target : List ℕ) (port : ℤ) (fd other : ℕ) (cs : List BackendConn)
    → (store_conn target port fd cs).1 ≡ true
    → lent other (store_conn target port fd cs).0 ≡ lent other cs + (if fd == other then 1 else 0)
unfolding lent store_conn holds
lent-store_conn target port fd other [] h = absurd (ground (arith, h))
lent-store_conn target port fd other (c ∷ cs) h =
    ground (arith, h, lent-store_conn target port fd other cs)

-- What is given back, is in use no more.
lent-return_conn :
    (fd : ℕ) (healthy : Bool) (cs : List BackendConn)
    → held fd cs ≤ 1
    → lent fd (return_conn fd healthy cs).0 ≡ 0
unfolding lent held return_conn holds
lent-return_conn fd healthy [] h = refl
lent-return_conn fd healthy (c ∷ cs) h =
    ground (arith, h, lent-held fd cs, lent-return_conn fd healthy cs)

-- The other sockets stay as they are.
others-return_conn :
    (fd other : ℕ) (healthy : Bool) (cs : List BackendConn)
    → (fd == other) ≡ false
    → (lent other (return_conn fd healthy cs).0 ≡ lent other cs)
      × (held other (return_conn fd healthy cs).0 ≡ held other cs)
unfolding lent held return_conn holds
others-return_conn fd other healthy [] h = (refl, refl)
others-return_conn fd other healthy (c ∷ cs) h =
    ground (arith, h, others-return_conn fd other healthy cs)

-- What `try_reuse` gives, with the quota reached or not.
record Tried (s : Pool) (fd : ℕ) (tried : List BackendConn × Option ℕ) : Type 0 where
  no_more : held fd tried.0 ≤ held fd s.connections
  marked : lent fd tried.0 ≡ lent fd s.connections + (if holds fd tried.1 then 1 else 0)
  free : tried.1 ≡ some fd → lent fd s.connections < held fd s.connections

try_reuse-Tried :
    (s : Pool) (alive : ℕ → Bool) (target : List ℕ) (port : ℤ) (fd : ℕ)
    → Tried s fd (try_reuse s alive target port)
unfolding holds
try_reuse-Tried s alive target port fd =
    let idx = get_backend_index s (some target) port in
    elim (Bool-cases (ltb_ℤ (s.active_counts idx) (s.quota idx))) [
      | inl e ↦ rw e (record {
        no_more = held-reuse_conn alive target port 0 fd s.connections;
        marked = lent-reuse_conn alive target port 0 fd s.connections;
        free = reuse_conn_free alive target port 0 fd s.connections;
      })
      | inr e ↦ rw e (record {
        no_more = omega arith;
        marked = omega arith;
        free = λ h. absurd (ground (arith, h));
      })
    ]

-- How many requests hold a descriptor, after one more is handed out, and after one comes back.
unfoldable pub hand_out : Option ℕ → (ℕ → ℕ) → ℕ → ℕ
hand_out got taken fd = taken fd + (if holds fd got then 1 else 0)

unfoldable pub take_back : ℕ → (ℕ → ℕ) → ℕ → ℕ
take_back fd taken other = taken other - (if fd == other then 1 else 0)

-- A descriptor that `create_backend_socket` returns was not open: no slot that the search left has it, and
-- no request.
abbrev pub IsFresh : Pool → (ℕ → ℕ) → (ℕ → Bool) → List ℕ → ℤ → Option ℕ → Type 0
IsFresh s taken alive target port created =
    (fd : ℕ) → created ≡ some fd → (held fd (try_reuse s alive target port).0 ≡ 0) × (taken fd ≡ 0)

-- What calls lead to from the empty pool on, and which descriptors the requests then hold: each that
-- `fcgi_pool_conn_acquire` returned, pooled or not, until it is given to `fcgi_pool_conn_release`.
pub data Reaches : Pool → (ℕ → ℕ) → Type 0 where
  started :
      (size : ℕ) (quota : ℕ → ℤ) (groups : ℕ → Group)
      → Reaches (fcgi_pool_init size quota groups) (λ fd. 0)
  acquired :
      (s : Pool) (taken : ℕ → ℕ) (alive : ℕ → Bool) (target : List ℕ) (port : ℤ)
      (created : Option ℕ)
      → Reaches s taken
      → IsFresh s taken alive target port created
      → Reaches
          (fcgi_pool_conn_acquire s alive target port created).0
          (hand_out (fcgi_pool_conn_acquire s alive target port created).1 taken)
  released :
      (s : Pool) (taken : ℕ → ℕ) (fd : ℕ) (healthy : Bool)
      → Reaches s taken
      → Reaches (fcgi_pool_conn_release s fd healthy) (take_back fd taken)

-- A descriptor is with one request and in one slot at most; a slot whose socket a request holds is in use,
-- and one in use has a socket that a request holds.
pub record IsSoleHolder (s : Pool) (taken : ℕ → ℕ) (fd : ℕ) : Type 0 where
  pub one_request : taken fd ≤ 1
  pub one_slot : held fd s.connections ≤ 1
  pub marked : held fd s.connections + taken fd ≤ 1 + lent fd s.connections
  pub used : lent fd s.connections ≤ taken fd

exclusive :
    (s : Pool) (taken : ℕ → ℕ) (fd : ℕ)
    → held fd s.connections + taken fd ≤ 1 + lent fd s.connections
    → lent fd s.connections ≤ taken fd
    → IsSoleHolder s taken fd
exclusive s taken fd marked used =
    let part = lent-held fd s.connections in
    record { one_request = omega arith; one_slot = omega arith; marked = marked; used = used }

held-replicate : (fd n : ℕ) (c : BackendConn) → c.sockfd ≡ none → held fd (replicate n c) ≡ 0
unfolding held holds
held-replicate fd zero c h = refl
held-replicate fd (suc n) c h = ground (arith, held-replicate fd n c h)

eq_of_test : (m n : ℕ) → (m == n) ≡ true → m ≡ n
eq_of_test m n h = ground (arith, h)

-- There is room for one more holder of a descriptor that was not open.
hand_out-fresh :
    (s : Pool) (taken : ℕ → ℕ) (fd other : ℕ)
    → (held fd s.connections ≡ 0) × (taken fd ≡ 0)
    → IsSoleHolder s taken other
    → held other s.connections + hand_out (some fd) taken other ≤ 1 + lent other s.connections
unfolding hand_out holds
hand_out-fresh s taken fd other (no_slot, no_request) h = elim (Bool-cases (fd == other)) [
  | inl e ↦
      let same = eq_of_test fd other e in
      let slot = subst (λ k. held k s.connections ≡ 0) same no_slot in
      let request = subst (λ k. taken k ≡ 0) same no_request in rw e (omega (arith, slot, request))
  | inr e ↦ rw e (omega (arith, h.marked))
]

-- A new socket in a slot, and one that no slot has.
store_conn-IsSoleHolder :
    (s s' : Pool) (taken : ℕ → ℕ) (target : List ℕ) (port : ℤ) (fd other : ℕ)
    → (held fd s.connections ≡ 0) × (taken fd ≡ 0)
    → (store_conn target port fd s.connections).1 ≡ true
    → s'.connections ≡ (store_conn target port fd s.connections).0
    → IsSoleHolder s taken other
    → IsSoleHolder s' (hand_out (some fd) taken) other
unfolding hand_out holds
store_conn-IsSoleHolder s s' taken target port fd other fresh stored e h =
    let room = hand_out-fresh s taken fd other fresh h in
    let more = held-store_conn target port fd other s.connections in
    let mark = lent-store_conn target port fd other s.connections stored in
    exclusive s' _ other (rw e (omega (arith, room, more, mark)))
      (rw e (omega (arith, mark, h.used)))

bypass-IsSoleHolder :
    (s : Pool) (taken : ℕ → ℕ) (fd other : ℕ)
    → (held fd s.connections ≡ 0) × (taken fd ≡ 0)
    → IsSoleHolder s taken other
    → IsSoleHolder s (hand_out (some fd) taken) other
unfolding hand_out
bypass-IsSoleHolder s taken fd other fresh h =
    exclusive s _ other (hand_out-fresh s taken fd other fresh h) (omega (arith, h.used))

and_right : (a b : Bool) → (a && b) ≡ true → b ≡ true
and_right true b h = h
and_right false b h = cc

create_conn-IsSoleHolder :
    (s : Pool) (taken : ℕ → ℕ) (target : List ℕ) (port : ℤ) (created : Option ℕ) (other : ℕ)
    → ((fd : ℕ) → created ≡ some fd → (held fd s.connections ≡ 0) × (taken fd ≡ 0))
    → IsSoleHolder s taken other
    → IsSoleHolder
        (create_conn s target port created).0
        (hand_out (create_conn s target port created).1 taken)
        other
unfolding create_conn
create_conn-IsSoleHolder s taken target port none other fresh h =
    exclusive s _ other (unfold hand_out in unfold holds in omega (arith, h.marked))
      (unfold hand_out in unfold holds in omega (arith, h.used))
create_conn-IsSoleHolder s taken target port (some fd) other fresh h =
    let idx = get_backend_index s (some target) port in
    let quota = ltb_ℤ (s.active_counts idx) (s.quota idx) in
    let stored = (store_conn target port fd s.connections).1 in
    elim (Bool-cases (quota && stored)) [
      | inl e ↦ rw e (
          store_conn-IsSoleHolder s _ taken target port fd other (fresh fd refl)
            (and_right quota stored e) refl h)
      | inr e ↦ rw e (bypass-IsSoleHolder s taken fd other (fresh fd refl) h)
    ]

finish_acquire-IsSoleHolder :
    (s : Pool) (taken : ℕ → ℕ) (target : List ℕ) (port : ℤ) (created : Option ℕ)
    (tried : List BackendConn × Option ℕ) (other : ℕ)
    → ((fd : ℕ) → created ≡ some fd → (held fd tried.0 ≡ 0) × (taken fd ≡ 0))
    → Tried s other tried
    → IsSoleHolder s taken other
    → IsSoleHolder
        (finish_acquire s target port created tried).0
        (hand_out (finish_acquire s target port created tried).1 taken)
        other
unfolding finish_acquire
finish_acquire-IsSoleHolder s taken target port created (cs, some fd) other fresh t h =
    exclusive _ _ other (unfold hand_out in omega (arith, h.marked, t.no_more, t.marked))
      (unfold hand_out in omega (arith, h.used, t.marked))
finish_acquire-IsSoleHolder s taken target port created (cs, none) other fresh t h =
    let s' = record s { connections = cs } in
    let mark : lent other cs ≡ lent other s.connections + (if holds other none then 1 else 0) =
      t.marked in
    let mark : lent other cs ≡ lent other s.connections = unfold holds in omega (arith, mark) in
    create_conn-IsSoleHolder s' taken target port created other fresh (
      exclusive s' taken other (omega (arith, h.marked, t.no_more, mark))
        (omega (arith, h.used, mark)))

return_conn-none :
    (fd : ℕ) (healthy : Bool) (cs : List BackendConn)
    → (return_conn fd healthy cs).1 ≡ none
    → (return_conn fd healthy cs).0 ≡ cs
unfolding return_conn
return_conn-none fd healthy [] h = refl
return_conn-none fd healthy (c ∷ cs) h = ground (arith, h, return_conn-none fd healthy cs)

release_connections :
    (s : Pool) (fd : ℕ) (healthy : Bool)
    → (fcgi_pool_conn_release s fd healthy).connections ≡ (return_conn fd healthy s.connections).0
unfolding fcgi_pool_conn_release
release_connections s fd healthy = elim (Option-cases (return_conn fd healthy s.connections).1) [
  | inl e ↦ rw (e, fcgi_pool_conn_release) (sym (return_conn-none fd healthy s.connections e))
  | inr (c, e) ↦ rw (e, fcgi_pool_conn_release) refl
]

released-IsSoleHolder :
    (s s' : Pool) (taken : ℕ → ℕ) (fd other : ℕ) (healthy : Bool)
    → s'.connections ≡ (return_conn fd healthy s.connections).0
    → IsSoleHolder s taken other
    → IsSoleHolder s' (take_back fd taken) other
unfolding take_back
released-IsSoleHolder s s' taken fd other healthy c h = elim (Bool-cases (fd == other)) [
  | inl e ↦
      let same = eq_of_test fd other e in
      let less = held-return_conn fd other healthy s.connections in
      let one : held fd s.connections ≤ 1 =
        subst (λ k. held k s.connections ≤ 1) (sym same) h.one_slot in
      let unused =
        subst (λ k. lent k (return_conn fd healthy s.connections).0 ≡ 0) same
          (lent-return_conn fd healthy s.connections one) in
      exclusive s' _ other (rw (c, e) (omega (arith, less, unused, h.one_slot, h.one_request)))
        (rw c (omega (arith, unused)))
  | inr e ↦
      let (mark, slots) = others-return_conn fd other healthy s.connections e in
      exclusive s' _ other (rw (c, e) (omega (arith, mark, slots, h.marked)))
        (rw (c, e) (omega (arith, mark, h.used)))
]

pub Reaches-IsSoleHolder :
    (s : Pool) (taken : ℕ → ℕ) → Reaches s taken → (fd : ℕ) → IsSoleHolder s taken fd
unfolding fcgi_pool_init fcgi_pool_conn_acquire
Reaches-IsSoleHolder _ _ (started size quota groups) fd =
    let empty = held-replicate fd size empty_conn refl in
    exclusive (fcgi_pool_init size quota groups) (λ fd. 0) fd (omega (arith, empty))
      (omega (arith, empty, lent-held fd (replicate size empty_conn)))
Reaches-IsSoleHolder _ _ (acquired s taken alive target port created r fresh) fd =
    finish_acquire-IsSoleHolder s taken target port created (try_reuse s alive target port) fd fresh
      (try_reuse-Tried s alive target port fd) (Reaches-IsSoleHolder s taken r fd)
Reaches-IsSoleHolder _ _ (released s taken fd healthy r) other =
    released-IsSoleHolder s (fcgi_pool_conn_release s fd healthy) taken fd other healthy
      (release_connections s fd healthy) (Reaches-IsSoleHolder s taken r other)
