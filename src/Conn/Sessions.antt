-- ===== src/Conn/Sessions.antt =====
-- The protocol sessions that the slots of src/core/halmos_core_conn_table.c hold, and the calls of
-- their destructors.
use halmos.Base.{
  ℕ, zero, suc, ◌+◌, ◌%◌, ◌^◌, ◌≤◌, ◌≡◌, refl, inl, inr, Option, none, some, List, [], ◌∷◌, ◌++◌,
  ◌==◌, if◌then◌else◌, get_elem?, set, Option-cases, arith,
}
use halmos.Base.Int.{ℤ, pos, negsuc}
use halmos.Conn.{
  Conn, Table, Call, activate, deactivate, release_session, attach_session, core_conn_t_get,
  put_conn, destroy_session, doomed_session, activated, deactivated, core_conn_t_activate,
  core_conn_t_deactivate, destroy_all, core_conn_t_destroy, core_conn_t_set_protocol_session,
  core_conn_t_destroy_protocol_session, step, run,
}

unfoldable pub count : ℕ → List ℕ → ℕ
count s [] = 0
count s (x ∷ xs) = (if s == x then 1 else 0) + count s xs

count-append : (s : ℕ) (xs ys : List ℕ) → count s (xs ++ ys) ≡ count s xs + count s ys
unfolding count
count-append s [] ys = omega arith
count-append s (x ∷ xs) ys = omega (arith, count-append s xs ys)

abbrev doomed : Conn → List ℕ
doomed c = doomed_session c.protocol_session c.protocol_session_destroy

-- The sessions that some slot would hand to a destructor.
unfoldable pub held : List Conn → List ℕ
held [] = []
held (c ∷ cs) = doomed c ++ held cs

unfoldable pub held_by : Option (List Conn) → List ℕ
unfolding held
held_by none = []
held_by (some cs) = held cs

-- How often the session `s` was destroyed, or still can be.
unfoldable pub destructions : ℕ → Table → ℕ
unfolding held_by count
destructions s t = count s t.destroyed + count s (held_by t.g_connections)

-- How often the calls attach the session `s` to a slot.
unfoldable pub attachments : ℕ → List Call → ℕ
attachments s [] = 0
attachments s (attach_session fd x d ∷ cs) = (if s == x then 1 else 0) + attachments s cs
attachments s (_ ∷ cs) = attachments s cs

count-held-set :
    (s : ℕ) (cs : List Conn) (n : ℕ) (c d : Conn)
    → get_elem? cs n ≡ some c
    → count s (held (set cs n d)) + count s (doomed c) ≡ count s (held cs) + count s (doomed d)
unfolding held
count-held-set s [] n c d e = cc
count-held-set s (x ∷ xs) zero c d e =
    ground (arith, count-append s (doomed x) (held xs), count-append s (doomed d) (held xs))
count-held-set s (x ∷ xs) (suc n) c d e = omega (
  arith,
  count-append s (doomed x) (held xs),
  count-append s (doomed x) (held (set xs n d)),
  count-held-set s xs n c d e,
)

destructions-put_conn :
    (s : ℕ) (t : Table) (fd : ℤ) (c d : Conn)
    → core_conn_t_get t fd ≡ some c
    → destructions s (put_conn t fd d) + count s (doomed c) ≡ destructions s t + count s (doomed d)
unfolding core_conn_t_get put_conn destructions
destructions-put_conn s t (negsuc n) c d e = cc
destructions-put_conn s t (pos n) c d e = grind (arith, count-held-set)

destructions-destroy_session :
    (s : ℕ) (t : Table) (c : Conn)
    → destructions s (destroy_session t c) ≡ destructions s t + count s (doomed c)
unfolding destroy_session destructions doomed_session
destructions-destroy_session s t c = ground arith

get-destroy_session :
    (t : Table) (c : Conn) (fd : ℤ)
    → core_conn_t_get (destroy_session t c) fd ≡ core_conn_t_get t fd
unfolding core_conn_t_get destroy_session doomed_session
get-destroy_session t c (negsuc n) = refl
get-destroy_session t c (pos n) = ground arith

-- A slot whose session was destroyed is written back without one: nothing is added or lost.
destructions-release :
    (s : ℕ) (t : Table) (fd : ℤ) (c d : Conn)
    → core_conn_t_get t fd ≡ some c
    → d.protocol_session ≡ none
    → destructions s (put_conn (destroy_session t c) fd d) ≡ destructions s t
unfolding doomed_session count
destructions-release s t fd c d e h = ground (
  arith,
  destructions-put_conn s (destroy_session t c) fd c d,
  get-destroy_session t c fd,
  destructions-destroy_session s t c,
)

destructions-step :
    (s : ℕ) (t : Table) (call : Call)
    → destructions s (step t call) ≤ destructions s t + attachments s (call ∷ [])
unfolding step attachments core_conn_t_activate core_conn_t_deactivate
    core_conn_t_set_protocol_session core_conn_t_destroy_protocol_session
destructions-step s t (activate fd) = elim (Option-cases (core_conn_t_get t fd)) [
  | inl e ↦ ground (arith, e)
  | inr (c, e) ↦ ground (
    arith,
    e,
    destructions-release s t fd c (activated c ((c.generation + 1) % 2 ^ 32)) e
        (unfold activated in refl),
  )
]
destructions-step s t (deactivate fd) = elim (Option-cases (core_conn_t_get t fd)) [
  | inl e ↦ ground (arith, e)
  | inr (c, e) ↦
      ground
        (arith, e, destructions-release s t fd c (deactivated c) e (unfold deactivated in refl))
]
destructions-step s t (release_session fd) = elim (Option-cases (core_conn_t_get t fd)) [
  | inl e ↦ ground (arith, e)
  | inr (c, e) ↦ ground (
    arith,
    e,
    destructions-release s t fd c
        (record c { protocol_session = none; protocol_session_destroy = none }) e refl,
  )
]
destructions-step s t (attach_session fd x f) = elim (Option-cases (core_conn_t_get t fd)) [
  | inl e ↦ ground (arith, e)
  | inr (c, e) ↦
      unfold doomed_session count in
      ground (
        arith,
        e,
        destructions-put_conn s t fd c
            (record c { protocol_session = some x; protocol_session_destroy = some f }),
      )
]

attachments-cons :
    (s : ℕ) (call : Call) (cs : List Call)
    → attachments s (call ∷ cs) ≡ attachments s (call ∷ []) + attachments s cs
unfolding attachments
attachments-cons s (activate fd) cs = omega arith
attachments-cons s (deactivate fd) cs = omega arith
attachments-cons s (release_session fd) cs = omega arith
attachments-cons s (attach_session fd x d) cs = omega arith

destructions-run :
    (s : ℕ) (t : Table) (cs : List Call)
    → destructions s (run t cs) ≤ destructions s t + attachments s cs
unfolding run
destructions-run s t [] = unfold attachments in omega arith
destructions-run s t (c ∷ cs) =
    omega
      (arith, destructions-run s (step t c) cs, destructions-step s t c, attachments-cons s c cs)

count-destroy_all :
    (s : ℕ) (cs : List Conn) (t : Table)
    → count s (destroy_all cs t).destroyed ≡ count s t.destroyed + count s (held cs)
unfolding destroy_all held count doomed_session
count-destroy_all s [] t = omega arith
count-destroy_all s (c ∷ cs) t =
    ground
      (arith, count-destroy_all s cs (destroy_session t c), count-append s (doomed c) (held cs))

-- The teardown destroys what the slots still hold, each session once, and leaves nothing held.
pub core_conn_t_destroy-releases :
    (s : ℕ) (t : Table)
    → (count s (core_conn_t_destroy t).destroyed ≡ destructions s t)
      × (destructions s (core_conn_t_destroy t) ≡ destructions s t)
unfolding core_conn_t_destroy destructions
core_conn_t_destroy-releases s t = elim (Option-cases t.g_connections) [
  | inl e ↦ ground (arith, e)
  | inr (cs, e) ↦ ground (arith, e, count-destroy_all s cs t)
]

-- Whatever calls are made, and with the teardown behind them, the destructor of a session runs at
-- most as often as the session was destroyed, or held with its destructor by some slot, at the
-- start, plus the times it was attached since: none is destroyed twice for one attachment.
pub destroyed-run-le :
    (s : ℕ) (t : Table) (cs : List Call)
    → count s (core_conn_t_destroy (run t cs)).destroyed ≤ destructions s t + attachments s cs
destroyed-run-le s t cs =
    omega (arith, core_conn_t_destroy-releases s (run t cs), destructions-run s t cs)
