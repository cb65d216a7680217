-- ===== src/Conn/Generation.antt =====
-- What one slot goes through under the calls of src/core/halmos_core_conn_table.c, and what the
-- generation check of `core_conn_t_is_valid` is worth to an event that waits in the queue.
use halmos.Base.{
  ℕ, zero, suc, ◌+◌, ◌%◌, ◌^◌, ◌<◌, ◌≡◌, refl, ◌∙◌, inl, inr, Bool, true, false, ◌&&◌, ◌||◌, not,
  Option, none, some, List, [], ◌∷◌, ◌==◌, if◌then◌else◌, get_elem?, length, get_elem?-set_self,
  get_elem?-set_ne, Bool-cases, Option-cases, arith,
}
use halmos.Base.Int.{ℤ, pos, negsuc}
use halmos.Conn.{
  Conn, Table, Call, activate, deactivate, release_session, attach_session, core_conn_t_get,
  put_conn, destroy_session, doomed_session, activated, deactivated, core_conn_t_activate,
  core_conn_t_deactivate, core_conn_t_is_valid, is_closing, core_conn_t_set_protocol_session,
  core_conn_t_destroy_protocol_session, step, run,
}

abbrev pub same_fd : ℤ → ℤ → Bool
same_fd (pos a) (pos b) = a == b
same_fd (negsuc a) (negsuc b) = a == b
same_fd (pos a) (negsuc b) = false
same_fd (negsuc a) (pos b) = false

get_elem?-some-lt {ℓ} :
    {A : Type ℓ} (xs : List A) (i : ℕ) (a : A) → get_elem? xs i ≡ some a → i < length xs
get_elem?-some-lt [] i a e = cc
get_elem?-some-lt (x ∷ xs) zero a e = omega arith
get_elem?-some-lt (x ∷ xs) (suc i) a e = omega (arith, get_elem?-some-lt xs i a e)

get-put_self :
    (t : Table) (fd : ℤ) (c d : Conn)
    → core_conn_t_get t fd ≡ some c
    → core_conn_t_get (put_conn t fd d) fd ≡ some d
unfolding core_conn_t_get put_conn
get-put_self t (negsuc n) c d e = cc
get-put_self t (pos n) c d e = grind (arith, get_elem?-set_self, get_elem?-some-lt)

get-put_ne :
    (t : Table) (fd gd : ℤ) (d : Conn)
    → same_fd fd gd ≡ false
    → core_conn_t_get (put_conn t fd d) gd ≡ core_conn_t_get t gd
unfolding core_conn_t_get put_conn
get-put_ne t (negsuc n) gd d e = refl
get-put_ne t (pos n) (negsuc m) d e = refl
get-put_ne t (pos n) (pos m) d e = grind (arith, get_elem?-set_ne)

get-destroy_session :
    (t : Table) (c : Conn) (fd : ℤ)
    → core_conn_t_get (destroy_session t c) fd ≡ core_conn_t_get t fd
unfolding core_conn_t_get destroy_session doomed_session
get-destroy_session t c (negsuc n) = refl
get-destroy_session t c (pos n) = ground arith

same_fd-eq : (fd gd : ℤ) → same_fd fd gd ≡ true → fd ≡ gd
same_fd-eq (pos a) (pos b) e = ground arith
same_fd-eq (negsuc a) (negsuc b) e = ground arith
same_fd-eq (pos a) (negsuc b) e = cc
same_fd-eq (negsuc a) (pos b) e = cc

same_fd_refl : (fd : ℤ) → same_fd fd fd ≡ true
same_fd_refl (pos a) = ground arith
same_fd_refl (negsuc a) = ground arith

-- What a call makes of the slot of `fd`.
unfoldable pub slot_step : ℤ → Call → Conn → Conn
unfolding activated deactivated
slot_step fd (activate gd) c =
    if same_fd gd fd then activated c ((c.generation + 1) % 2 ^ 32) else c
slot_step fd (deactivate gd) c = if same_fd gd fd then deactivated c else c
slot_step fd (release_session gd) c =
    if same_fd gd fd
    then record c { protocol_session = none; protocol_session_destroy = none }
    else c
slot_step fd (attach_session gd s d) c =
    if same_fd gd fd
    then record c { protocol_session = some s; protocol_session_destroy = some d }
    else c

-- One shape serves the four calls: a slot is read, the session's destructor may run, and the slot
-- is written back as `f` makes it.
module _ (t : Table) (fd gd : ℤ) (c : Conn) (found : core_conn_t_get t fd ≡ some c) where
  get-write_back :
      (d : Conn) (u : Table)
      → core_conn_t_get u fd ≡ core_conn_t_get t fd
      → core_conn_t_get (put_conn u gd d) fd ≡ some (if same_fd gd fd then d else c)
  get-write_back d u same = elim (Bool-cases (same_fd gd fd)) [
    | inl hit ↦ rw hit (rw (same_fd-eq gd fd hit) (get-put_self u fd c d (same ∙ found)))
    | inr miss ↦ rw miss (get-put_ne u gd fd d miss ∙ same ∙ found)
  ]

get-miss :
    (t : Table) (fd gd : ℤ) (c : Conn)
    → core_conn_t_get t fd ≡ some c
    → core_conn_t_get t gd ≡ none
    → same_fd gd fd ≡ false
get-miss t fd gd c found missing = elim (Bool-cases (same_fd gd fd)) [
  | inl hit ↦ cc (same_fd-eq gd fd hit)
  | inr miss ↦ miss
]

-- A hit makes the slot that the call reads the slot of `fd`.
get-hit :
    (t : Table) (fd gd : ℤ) (c d : Conn)
    → core_conn_t_get t fd ≡ some c
    → core_conn_t_get t gd ≡ some d
    → same_fd gd fd ≡ true
    → d ≡ c
get-hit t fd gd c d found other hit = cc (same_fd-eq gd fd hit)

-- A call that finds no slot leaves the table alone; one that finds the slot `d` writes `w d` back.
module _ (t : Table) (fd gd : ℤ) (c : Conn) (found : core_conn_t_get t fd ≡ some c)
    (w : Conn → Conn) (v : Conn → Table)
    (same : (d : Conn) → core_conn_t_get (v d) fd ≡ core_conn_t_get t fd) where
  abbrev after : Option Conn → Table
  after none = t
  after (some d) = put_conn (v d) gd (w d)

  get-after :
      core_conn_t_get (after (core_conn_t_get t gd)) fd ≡ some (if same_fd gd fd then w c else c)
  get-after = elim (Option-cases (core_conn_t_get t gd)) [
    | inl e ↦ rw (e, get-miss t fd gd c found e) found
    | inr (d, e) ↦ rw e (
        ground
          (arith, get-write_back t fd gd c found (w d) (v d) (same d), get-hit t fd gd c d found e))
  ]

-- The slot of `fd` after a call depends on that slot alone.
pub get-step :
    (t : Table) (fd : ℤ) (c : Conn) (call : Call)
    → core_conn_t_get t fd ≡ some c
    → core_conn_t_get (step t call) fd ≡ some (slot_step fd call c)
unfolding step slot_step core_conn_t_activate core_conn_t_deactivate
    core_conn_t_set_protocol_session core_conn_t_destroy_protocol_session
get-step t fd c (activate gd) found = ground (
  arith,
  get-after t fd gd c found (λ d. activated d ((d.generation + 1) % 2 ^ 32)) (destroy_session t)
      (λ d. get-destroy_session t d fd),
)
get-step t fd c (deactivate gd) found = ground (
  arith,
  get-after t fd gd c found deactivated (destroy_session t) (λ d. get-destroy_session t d fd),
)
get-step t fd c (release_session gd) found = ground (
  arith,
  get-after t fd gd c found
      (λ d. record d { protocol_session = none; protocol_session_destroy = none })
      (destroy_session t) (λ d. get-destroy_session t d fd),
)
get-step t fd c (attach_session gd s f) found = ground (
  arith,
  get-after t fd gd c found
      (λ d. record d { protocol_session = some s; protocol_session_destroy = some f }) (λ d. t)
      (λ d. refl),
)

-- The calls on `fd` that begin a life of it, and whether some call begins or ends one.
unfoldable pub activations : ℤ → List Call → ℕ
activations fd [] = 0
activations fd (activate gd ∷ cs) =
    if same_fd gd fd then suc (activations fd cs) else activations fd cs
activations fd (_ ∷ cs) = activations fd cs

unfoldable pub reused : ℤ → List Call → Bool
reused fd [] = false
reused fd (activate gd ∷ cs) = same_fd gd fd || reused fd cs
reused fd (deactivate gd ∷ cs) = same_fd gd fd || reused fd cs
reused fd (_ ∷ cs) = reused fd cs

abbrev alive : Conn → Bool
alive c = c.active && not (is_closing c.state)

-- A slot that stems from one with generation `g`, by `k` activations; `touched` if any call began or
-- ended a life of it.
record Descends (g k : ℕ) (touched : Bool) (c : Conn) : Type 0 where
  generation_counts : c.generation ≡ (g + k) % 2 ^ 32
  alive_unless_touched : k ≡ 0 → alive c ≡ not touched

Descends-call :
    (g k : ℕ) (b : Bool) (fd : ℤ) (call : Call) (c : Conn)
    → Descends g k b c
    → Descends g (k + activations fd (call ∷ [])) (b || reused fd (call ∷ [])) (slot_step fd call c)
unfolding slot_step activations reused is_closing
Descends-call g k b fd (activate gd) c d = ground (arith, d.alive_unless_touched)
Descends-call g k b fd (deactivate gd) c d = ground (arith, d.alive_unless_touched)
Descends-call g k b fd (release_session gd) c d = ground (arith, d.alive_unless_touched)
Descends-call g k b fd (attach_session gd s f) c d = ground (arith, d.alive_unless_touched)

activations-cons :
    (fd : ℤ) (call : Call) (cs : List Call)
    → activations fd (call ∷ cs) ≡ activations fd (call ∷ []) + activations fd cs
unfolding activations
activations-cons fd (activate gd) cs = ground arith
activations-cons fd (deactivate gd) cs = omega arith
activations-cons fd (release_session gd) cs = omega arith
activations-cons fd (attach_session gd s f) cs = omega arith

reused-cons :
    (fd : ℤ) (call : Call) (cs : List Call) (b : Bool)
    → (b || reused fd (call ∷ cs)) ≡ ((b || reused fd (call ∷ [])) || reused fd cs)
unfolding reused
reused-cons fd (activate gd) cs b = ground arith
reused-cons fd (deactivate gd) cs b = ground arith
reused-cons fd (release_session gd) cs b = ground arith
reused-cons fd (attach_session gd s f) cs b = ground arith

Descends-run :
    (g k k' : ℕ) (b b' : Bool) (fd : ℤ) (cs : List Call) (t : Table) (c : Conn)
    → core_conn_t_get t fd ≡ some c
    → Descends g k b c
    → k' ≡ k + activations fd cs
    → b' ≡ (b || reused fd cs)
    → (d : Conn) × (core_conn_t_get (run t cs) fd ≡ some d) × Descends g k' b' d
unfolding run
Descends-run g k k' b b' fd [] t c found d ek eb =
    (c, found, unfold activations reused in ground arith)
Descends-run g k k' b b' fd (call ∷ cs) t c found d ek eb =
    Descends-run g (k + activations fd (call ∷ [])) k' (b || reused fd (call ∷ [])) b' fd cs
      (step t call) (slot_step fd call c) (get-step t fd c call found)
      (Descends-call g k b fd call c d) (omega (arith, activations-cons fd call cs))
      (eb ∙ reused-cons fd call cs b)

reused-activations : (fd : ℤ) (cs : List Call) → reused fd cs ≡ false → activations fd cs ≡ 0
unfolding activations reused
reused-activations fd [] e = refl
reused-activations fd (activate gd ∷ cs) e = ground (arith, reused-activations fd cs)
reused-activations fd (deactivate gd ∷ cs) e = ground (arith, reused-activations fd cs)
reused-activations fd (release_session gd ∷ cs) e = reused-activations fd cs e
reused-activations fd (attach_session gd s f ∷ cs) e = reused-activations fd cs e

activated-Descends : (g : ℕ) (c : Conn) → g < 2 ^ 32 → Descends g 0 false (activated c g)
unfolding activated is_closing
activated-Descends g c h = ground arith

fresh_generation :
    (t : Table) (fd : ℤ) (c : Conn)
    → core_conn_t_get t fd ≡ some c
    → ((core_conn_t_activate t fd).1 ≡ (c.generation + 1) % 2 ^ 32)
      × (core_conn_t_get (core_conn_t_activate t fd).0 fd
          ≡ some (activated c (core_conn_t_activate t fd).1))
unfolding core_conn_t_activate
fresh_generation t fd c found = ground (
  arith,
  get-put_self (destroy_session t c) fd c (activated c ((c.generation + 1) % 2 ^ 32)),
  get-destroy_session t c fd,
)

-- An event that carries the generation which `core_conn_t_activate` gave out is accepted, after any
-- calls with fewer than 2^32 activations of its descriptor among them, exactly as long as none of
-- the calls activated or deactivated that descriptor.
pub is_valid-run_activate :
    (t : Table) (fd : ℤ) (c : Conn) (cs : List Call)
    → core_conn_t_get t fd ≡ some c
    → activations fd cs < 2 ^ 32
    → let (u, g) = core_conn_t_activate t fd in
      core_conn_t_is_valid (run u cs) fd g ≡ not (reused fd cs)
unfolding core_conn_t_is_valid
is_valid-run_activate t fd c cs found few =
    let (eg, now) = fresh_generation t fd c found in
    let g = (core_conn_t_activate t fd).1 in
    ground (
      arith,
      eg,
      Descends-run g 0 (activations fd cs) false (reused fd cs) fd cs (core_conn_t_activate t fd).0
          (activated c g) now (activated-Descends g c (omega (arith, eg))) (omega arith) refl,
      reused-activations fd cs,
    )
