-- ===== src/Ws/Registry/Runs.antt =====
-- Runs of the calls of src/protocol/websocket/halmos_ws_registry.c.
use halmos.Base.{
  ℕ, ◌≤◌, ◌<◌, ◌≡◌, refl, ◌∙◌, inl, inr, Option, some, none, List, [], ◌∷◌, ◌==◌, Bool-cases,
  length, arith,
}
use halmos.Ws.Registry.{
  Client, Registry, ws_fd_is_valid, hash_topic, ws_registry_init, ws_registry_add,
  ws_registry_add_h2, ws_registry_remove, ws_registry_update_activity, ws_registry_add_to_topic,
  ws_registry_publish, ws_registry_broadcast, ws_registry_heartbeat, ws_registry_reaper,
  ws_registry_set_user_id, ws_registry_get_session_info, visit, visited, pointers, topic_key,
  max_topics_per_user, put_client, subscribe, name_client,
}
use halmos.Ws.Registry.Counts.{count, find_name_live, count-no_pointers}
use halmos.Ws.Registry.Steps.{put_client-IsValid, subscribe-IsValid, name_client-IsValid, either}
use halmos.Ws.Registry.Safety.{
  IsSound, IsFresh, on_client-IsSound, add_client-IsSound, faulted-subscribe, faulted-name_client,
  remove-IsSound, remove_all-IsSound, subscribers_live, names_live, slots_live, visited-IsSound,
}

-- One call, with what the clock and `calloc` give.
pub data Call : Type 0 where
  add : ℕ → Option ℕ → ℕ → Option ℕ → Call
  add_h2 : ℕ → Option ℕ → ℕ → ℕ → Option ℕ → Call
  remove : ℕ → Call
  update_activity : ℕ → ℕ → Call
  add_to_topic : ℕ → List ℕ → List ℕ → Call
  publish : List ℕ → List ℕ → Call
  broadcast : Call
  heartbeat : Call
  reaper : ℕ → Call
  set_user_id : ℕ → List ℕ → Call
  get_session_info : List ℕ → Call

unfoldable pub after : Registry → Call → Registry
after s (add fd ssl now calloc) = ws_registry_add s fd ssl now calloc
after s (add_h2 fd ssl stream_id now calloc) = ws_registry_add_h2 s fd ssl stream_id now calloc
after s (remove fd) = ws_registry_remove s fd
after s (update_activity fd now) = ws_registry_update_activity s fd now
after s (add_to_topic fd app_id topic) = ws_registry_add_to_topic s fd app_id topic
after s (publish app_id topic) = (ws_registry_publish s app_id topic).0
after s broadcast = (ws_registry_broadcast s).0
after s heartbeat = (ws_registry_heartbeat s).0
after s (reaper now) = ws_registry_reaper s now
after s (set_user_id fd user_id) = ws_registry_set_user_id s fd user_id
after s (get_session_info name) = (ws_registry_get_session_info s name).0

-- A client subscribes while it has fewer than 16 topics, and a name fits its buffer.
abbrev pub IsAllowed : Registry → Call → Type 0
IsAllowed s (add fd ssl now calloc) = IsFresh s calloc
IsAllowed s (add_h2 fd ssl stream_id now calloc) = IsFresh s calloc
IsAllowed s (add_to_topic fd app_id topic) =
    (p : ℕ) (c : Client)
    → s.fd_map fd ≡ some p
    → s.memory p ≡ some c
    → length c.subscribed_topics < max_topics_per_user
IsAllowed s (set_user_id fd user_id) = length user_id ≤ 63
IsAllowed s _ = Unit

unfoldable pub run : Registry → List Call → Registry
run s [] = s
run s (call ∷ calls) = run (after s call) calls

abbrev pub AreAllowed : Registry → List Call → Type 0
AreAllowed s [] = Unit
AreAllowed s (call ∷ calls) = IsAllowed s call × AreAllowed (after s call) calls

abbrev pub start : Registry
unfolding ws_registry_init
start = ws_registry_init (λ p. none)

start-IsSound : IsSound start
unfolding ws_registry_init count
start-IsSound = record {
  valid = record {
    subscribers = λ b p. omega arith;
    names = λ i p. omega arith;
    slots = λ p. omega (arith, count-no_pointers p 1024);
    descriptors = λ fd p h. absurd (ground (arith, h));
  };
  no_fault = refl;
}

walk-IsSound :
    (s : Registry) → IsSound s → IsSound (visited s (visit s.memory (pointers s.clients))).0
walk-IsSound s ok = visited-IsSound s (pointers s.clients) ok (λ p h. slots_live s p ok h)

-- Each call, from a sound registry.
pub after-IsSound :
    (s : Registry) (call : Call) → IsSound s → IsAllowed s call → IsSound (after s call)
unfolding after ws_registry_add ws_registry_add_h2 ws_registry_update_activity
    ws_registry_add_to_topic ws_registry_publish ws_registry_broadcast ws_registry_heartbeat
    ws_registry_reaper ws_registry_set_user_id ws_registry_get_session_info put_client
after-IsSound s (add fd ssl now calloc) ok h =
    either IsSound (ws_fd_is_valid fd) _ s (add_client-IsSound s fd _ calloc ok refl h) ok
after-IsSound s (add_h2 fd ssl stream_id now calloc) ok h =
    either IsSound (ws_fd_is_valid fd) _ s (add_client-IsSound s fd _ calloc ok refl h) ok
after-IsSound s (remove fd) ok h = remove-IsSound s fd ok
after-IsSound s (update_activity fd now) ok h =
    on_client-IsSound s fd (λ p c. put_client s p (record c { last_seen = now })) ok
      λ p c here e same. record {
        valid = put_client-IsValid s p c now ok.valid e;
        no_fault = ok.no_fault;
      }
after-IsSound s (add_to_topic fd app_id topic) ok h =
    on_client-IsSound s fd (subscribe s (topic_key app_id topic)) ok λ p c here e same. record {
      valid = subscribe-IsValid s (topic_key app_id topic) p c ok.valid e (h p c here e);
      no_fault = faulted-subscribe s (topic_key app_id topic) p c ∙ ok.no_fault;
    }
after-IsSound s (publish app_id topic) ok h =
    visited-IsSound s _ ok (λ p k. subscribers_live s _ p ok k)
after-IsSound s broadcast ok h = walk-IsSound s ok
after-IsSound s heartbeat ok h = walk-IsSound s ok
after-IsSound s (reaper now) ok h = remove_all-IsSound _ _ (walk-IsSound s ok)
after-IsSound s (set_user_id fd user_id) ok h = elim (Bool-cases (length user_id == 0)) [
  | inl e ↦ rw e ok
  | inr e ↦ rw e (
      on_client-IsSound s fd (name_client s user_id) ok λ p c here f same. record {
        valid = name_client-IsValid s user_id p c ok.valid f (ground arith) h;
        no_fault = faulted-name_client s user_id p c ∙ ok.no_fault;
      })
]
after-IsSound s (get_session_info name) ok h =
    rw
      (find_name_live s.memory name (s.user_map (hash_topic name))
        (λ p k. names_live s (hash_topic name) p ok k))
      ok

run-IsSound_from :
    (s : Registry) (calls : List Call) → IsSound s → AreAllowed s calls → IsSound (run s calls)
unfolding run
run-IsSound_from s [] ok h = ok
run-IsSound_from s (call ∷ calls) ok (h, hs) =
    run-IsSound_from (after s call) calls (after-IsSound s call ok h) hs

-- Through any calls from the empty registry, in which a client subscribes only while it has fewer than 16
-- topics, names have at most 63 bytes and `calloc` gives memory that is not in use, no client is
-- read after it is freed: the descriptors, the slots, the topics' subscribers and the map of names point
-- to live clients only, each at most once in a list, and by a topic, name or descriptor of its own.
pub run-IsSound : (calls : List Call) → AreAllowed start calls → IsSound (run start calls)
run-IsSound calls h = run-IsSound_from start calls start-IsSound h
