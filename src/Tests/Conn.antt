-- ===== src/Tests/Conn.antt =====
-- Runs of the connection table, src/core/halmos_core_conn_table.c.
use halmos.Base.{◌+◌, ◌≤◌, ◌≡◌, refl, true, some, List, [], ◌∷◌, arith}
use halmos.Base.Int.{pos}
use halmos.Conn.{
  Table, fresh_slot, core_conn_t_get, core_conn_t_activate, core_conn_t_is_valid,
  core_conn_t_destroy, Call, activate, deactivate, attach_session, run,
}
use halmos.Conn.Generation.{activations, reused, is_valid-run_activate}
use halmos.Conn.Sessions.{count, destructions, attachments, destroyed-run-le}

abbrev two_slots : Table
two_slots = record {
  g_max_fd = 2;
  g_connections = some (fresh_slot 0 ∷ fresh_slot 1 ∷ []);
  destroyed = [];
}

-- A session on descriptor 1, while descriptor 0 comes and goes.
abbrev undisturbed : List Call
undisturbed = activate (pos 0) ∷ attach_session (pos 1) 7 9 ∷ deactivate (pos 0) ∷ []

is_valid-run_activate_example :
    core_conn_t_is_valid
      (run (core_conn_t_activate two_slots (pos 1)).0 undisturbed)
      (pos 1)
      (core_conn_t_activate two_slots (pos 1)).1
    ≡ true
unfolding core_conn_t_get activations reused
is_valid-run_activate_example =
    is_valid-run_activate two_slots (pos 1) (fresh_slot 1) undisturbed refl (omega arith)

-- The session 7 is attached twice and replaced once.
abbrev attached_twice : List Call
attached_twice = attach_session (pos 1) 7 9 ∷ activate (pos 1) ∷ attach_session (pos 1) 7 9 ∷ []

destroyed-run-le_example :
    count 7 (core_conn_t_destroy (run two_slots attached_twice)).destroyed
    ≤ destructions 7 two_slots + attachments 7 attached_twice
destroyed-run-le_example = destroyed-run-le 7 two_slots attached_twice
