-- ===== src/Tests/Registry.antt =====
-- Runs of src/protocol/websocket/halmos_ws_registry.c.
use halmos.Base.{
  ◌==◌, ◌≡◌, refl, true, false, none, some, List, [], ◌∷◌, map, codes, replicate, arith,
}
use halmos.Ws.Registry.{
  Client, Registry, update, hash_loop, hash_topic, is_in, fill_slot, add_client, on_client,
  put_client, topic_key, subscribe, ws_registry_init, ws_registry_add, ws_registry_remove,
  ws_registry_add_to_topic, ws_registry_publish, remove_first, remove_client, leave_topics, visit,
  ws_registry_set_user_id, ws_registry_get_session_info, ws_registry_validate_session,
}
use halmos.Ws.Registry.Runs.{
  Call, add, remove, add_to_topic, publish, set_user_id, after, run, start, run-IsSound,
}
use halmos.Ws.Registry.Safety.{IsSound}
use halmos.Ws.Registry.Identity.{
  IsRegistered, session_at, get_session_info-set_user_id, publish-add_to_topic,
  validate_session-add,
}

-- A client of descriptor 5, at the address 1.
abbrev one_client : Client
one_client = record {
  fd = 5;
  ssl = none;
  last_seen = 0;
  is_active = true;
  is_http2 = false;
  stream_id = 0;
  session_id = 1;
  user_id = [];
  subscribed_topics = [];
}

abbrev one_registered : Registry
one_registered = record {
  memory = update (λ p. none) 1 (some one_client);
  clients = some 1 ∷ none ∷ [];
  fd_map = update (λ fd. none) 5 (some 1);
  current_count = 1;
  buckets = λ b. [];
  user_map = λ i. [];
  global_session_counter = 2;
  faulted = false;
}

abbrev registered : IsRegistered one_registered 5 1 one_client
registered = record { in_range = omega arith; mapped = refl; here = refl; active = refl }

get_session_info-set_user_id_example :
    (ws_registry_get_session_info
      (ws_registry_set_user_id one_registered 5 (codes "eko"))
      (codes "eko")).1
    ≡ some (record one_client { user_id = codes "eko" })
get_session_info-set_user_id_example =
    get_session_info-set_user_id one_registered 5 1 one_client (codes "eko") registered
      (omega arith) (omega arith)

publish-add_to_topic_example :
    is_in 5 (
      map Client.fd
        (ws_registry_publish
          (ws_registry_add_to_topic one_registered 5 (codes "app") (codes "news"))
          (codes "app")
          (codes "news")).1)
    ≡ true
publish-add_to_topic_example =
    publish-add_to_topic one_registered 5 1 one_client (codes "app") (codes "news") registered
      (omega arith) (omega arith)

validate_session-add_example :
    (ws_registry_validate_session (ws_registry_add one_registered 9 none 0 (some 2)) 9 2
      ≡ (session_at one_registered 0 == 2))
    × (ws_registry_validate_session
          (ws_registry_remove (ws_registry_add one_registered 9 none 0 (some 2)) 9)
          9
          2
        ≡ false)
unfolding fill_slot
validate_session-add_example =
    validate_session-add one_registered 9 0 2 2 none (some 1 ∷ some 2 ∷ []) (omega arith) refl

abbrev calls : List Call
calls =
    add 5 none 0 (some 7)
    ∷ add_to_topic 5 (codes "app") (codes "news")
    ∷ set_user_id 5 (codes "eko")
    ∷ remove 5
    ∷ publish (codes "app") (codes "news")
    ∷ []

run-IsSound_example : IsSound (run start calls)
unfolding after ws_registry_init ws_registry_add add_client fill_slot
run-IsSound_example =
    run-IsSound calls
      (λ p e. refl, (λ p c here e. ground (arith, here, e), (omega arith, (tt, (tt, tt)))))

-- A client with 16 topics subscribes to another one and leaves: its pointer stays behind, and the next message
-- to the topic reads the freed client.
abbrev busy : Registry
busy = record one_registered {
  memory =
      update (λ p. none) 1
        (some (record one_client { subscribed_topics = replicate 16 (codes "app:x") }));
}

run_seventeenth_topic :
    (ws_registry_publish
      (ws_registry_remove (ws_registry_add_to_topic busy 5 (codes "app") (codes "news")) 5)
      (codes "app")
      (codes "news")).0.faulted
    ≡ true
unfolding ws_registry_publish ws_registry_remove ws_registry_add_to_topic on_client subscribe
    topic_key hash_topic hash_loop is_in remove_client leave_topics remove_first visit
run_seventeenth_topic = refl

-- Topics that share a bucket share their messages.
run_colliding_topics :
    map Client.fd
      (ws_registry_publish
        (ws_registry_add_to_topic one_registered 5 (codes "a") (codes "aa"))
        (codes "a")
        (codes "hz")).1
    ≡ 5 ∷ []
unfolding ws_registry_publish ws_registry_add_to_topic on_client subscribe topic_key hash_topic
    hash_loop is_in put_client visit
run_colliding_topics = refl
