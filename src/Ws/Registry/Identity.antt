-- ===== src/Ws/Registry/Identity.antt =====
-- Names, topics and sessions of src/protocol/websocket/halmos_ws_registry.c: what is put in is found.
use halmos.Base.{
  ℕ, ◌*◌, ◌%◌, ◌^◌, ◌≤◌, ◌<◌, ◌≡◌, refl, sym, ◌∙◌, ap, inl, inr, Bool, true, false, ◌&&◌, ◌||◌, not,
  Option, some, none, List, [], ◌∷◌, ◌++◌, map, ltb, ◌==◌, if◌then◌else◌, Bool-cases, length, take,
  take_all, length-append, arith, streq, streq_refl, bit_or,
}
use halmos.Ws.Registry.{
  Client, Registry, ws_fd_is_valid, hash_topic, update, fill_slot, new_client, on_client,
  put_client, topic_key, subscribe, name_client, leave_user_map, is_in, visit, find_name,
  add_client, ws_registry_add, ws_registry_remove, remove_client, ws_registry_add_to_topic,
  ws_registry_publish, ws_registry_set_user_id, ws_registry_get_session_info,
  ws_registry_validate_session, max_topics_per_user,
}

-- The client of a descriptor.
pub record IsRegistered (s : Registry) (fd p : ℕ) (c : Client) : Type 0 where
  pub in_range : fd < 65536
  pub mapped : s.fd_map fd ≡ some p
  pub here : s.memory p ≡ some c
  pub active : c.is_active ≡ true

then_branch {ℓ} : {A : Type ℓ} (b : Bool) (x y : A) → b ≡ true → (if b then x else y) ≡ x
then_branch true x y h = refl
then_branch false x y h = absurd (ground (arith, h))

on_client_lem :
    (s : Registry) (fd p : ℕ) (c : Client) (f : ℕ → Client → Registry)
    → IsRegistered s fd p c
    → on_client s fd f ≡ f p c
unfolding on_client
on_client_lem s fd p c f r =
    let valid : ws_fd_is_valid fd ≡ true = let h = r.in_range in ground arith in
    rw (valid, r.mapped, r.here) refl

name_client_lem :
    (s : Registry) (name : List ℕ) (p : ℕ) (c : Client)
    → c.is_active ≡ true
    → let idx = hash_topic name in
      let left = leave_user_map p c s.user_map in
      name_client s name p c
      ≡ put_client
          (record s { user_map = update left idx (p ∷ left idx) })
          p
          (record c { user_id = take 63 name })
unfolding name_client
name_client_lem s name p c h = then_branch c.is_active _ s h

find_name_head :
    (memory : ℕ → Option Client) (name : List ℕ) (p : ℕ) (c : Client) (ps : List ℕ)
    → memory p ≡ some c
    → c.is_active ≡ true
    → c.user_id ≡ name
    → find_name memory name (p ∷ ps) ≡ (false, some c)
unfolding find_name
find_name_head memory name p c ps here active named =
    let same : streq c.user_id name ≡ true = rw named (streq_refl name) in
    rw (find_name, here)
      (then_branch (c.is_active && streq c.user_id name) _ _ (ground (arith, active, same)))

-- A registered client that is given a name of at most 63 bytes is found by that name, with its descriptor and
-- its session, whoever had the name before.
pub get_session_info-set_user_id :
    (s : Registry) (fd p : ℕ) (c : Client) (name : List ℕ)
    → IsRegistered s fd p c
    → 0 < length name
    → length name ≤ 63
    → (ws_registry_get_session_info (ws_registry_set_user_id s fd name) name).1
      ≡ some (record c { user_id = name })
unfolding ws_registry_get_session_info ws_registry_set_user_id put_client
get_session_info-set_user_id s fd p c name r some_name short =
    let idx = hash_topic name in
    let left = leave_user_map p c s.user_map in
    let c' = record c { user_id = take 63 name } in
    let s' = put_client (record s { user_map = update left idx (p ∷ left idx) }) p c' in
    let whole : take 63 name ≡ name = take_all 63 name short in
    let not_empty : (length name == 0) ≡ false = ground arith in
    let named =
      on_client_lem s fd p c (name_client s name) r ∙ name_client_lem s name p c r.active in
    let at_p : (p == p) ≡ true = ground arith in
    let at_idx : (idx == idx) ≡ true = ground arith in
    let found : find_name s'.memory name (s'.user_map idx) ≡ (false, some c') =
      rw at_idx (find_name_head s'.memory name p c' (left idx) (rw at_p refl) r.active whole) in
    rw (not_empty, named, found, whole) refl

-- The head of a walk, and what is behind it.
visit_step :
    (memory : ℕ → Option Client) (q : ℕ) (ps : List ℕ) (fd : ℕ) (v : Option Client)
    → memory q ≡ v
    → is_in fd (map Client.fd (visit memory ps).1) ≡ true
    → is_in fd (map Client.fd (visit memory (q ∷ ps)).1) ≡ true
unfolding visit is_in
visit_step memory q ps fd none e h = rw (visit, e) h
visit_step memory q ps fd (some c) e h = rw (visit, e) (ground (arith, h))

visit_head :
    (memory : ℕ → Option Client) (q : ℕ) (ps : List ℕ) (c : Client)
    → memory q ≡ some c
    → c.is_active ≡ true
    → is_in c.fd (map Client.fd (visit memory (q ∷ ps)).1) ≡ true
unfolding visit is_in
visit_head memory q ps c e active = rw (visit, e) (ground (arith, active))

visit_in :
    (memory : ℕ → Option Client) (ps : List ℕ) (p : ℕ) (c : Client)
    → memory p ≡ some c
    → c.is_active ≡ true
    → is_in p ps ≡ true
    → is_in c.fd (map Client.fd (visit memory ps).1) ≡ true
unfolding is_in
visit_in memory [] p c here active h = absurd (ground (arith, h))
visit_in memory (q ∷ ps) p c here active h = elim (Bool-cases (q == p)) [
  | inl e ↦
      let same : q ≡ p = ground arith in visit_head memory q ps c (ap memory same ∙ here) active
  | inr e ↦
      visit_step memory q ps c.fd (memory q) refl
        (visit_in memory ps p c here active (ground (arith, h, e)))
]

-- After a subscription the client is in the bucket, with or without a record of it.
subscribe_in :
    (s : Registry) (key : List ℕ) (p : ℕ) (c : Client)
    → s.memory p ≡ some c
    → c.is_active ≡ true
    → let s' = subscribe s key p c in
      (c' : Client) × (s'.memory p ≡ some c')
      × (c'.is_active ≡ true)
      × (c'.fd ≡ c.fd)
      × (is_in p (s'.buckets (hash_topic key)) ≡ true)
unfolding subscribe put_client is_in
subscribe_in s key p c here active =
    let idx = hash_topic key in
    let at_p : (p == p) ≡ true = ground arith in
    let at_idx : (idx == idx) ≡ true = ground arith in
    let c' = record c { subscribed_topics = c.subscribed_topics ++ key ∷ [] } in
    elim (Bool-cases (not c.is_active || is_in p (s.buckets idx))) [
      | inl e ↦ rw e (c, here, active, refl, ground (arith, e, active))
      | inr e ↦ elim (Bool-cases (ltb (length c.subscribed_topics) max_topics_per_user)) [
        | inl room ↦ rw (e, room) (c', rw at_p refl, active, refl, rw (at_idx, at_p) refl)
        | inr full ↦ rw (e, full) (c, here, active, refl, rw (at_idx, at_p) refl)
      ]
    ]

-- The two forms of a key agree while neither part is cut off.
topic_key_lem :
    (app_id topic : List ℕ)
    → length app_id ≤ 30
    → length topic ≤ 32
    → take 127 (app_id ++ 58 ∷ topic) ≡ topic_key app_id topic
unfolding topic_key
topic_key_lem app_id topic short short' =
    rw (take_all 30 app_id short, take_all 32 topic short')
      (take_all 127 (app_id ++ 58 ∷ topic) (omega (arith, length-append app_id (58 ∷ topic))))

-- A message to a topic goes to a registered client that was subscribed to it, if the application's name has
-- at most 30 bytes and the topic's at most 32.
pub publish-add_to_topic :
    (s : Registry) (fd p : ℕ) (c : Client) (app_id topic : List ℕ)
    → IsRegistered s fd p c
    → length app_id ≤ 30
    → length topic ≤ 32
    → is_in c.fd (
        map Client.fd
          (ws_registry_publish (ws_registry_add_to_topic s fd app_id topic) app_id topic).1)
      ≡ true
unfolding ws_registry_publish ws_registry_add_to_topic
publish-add_to_topic s fd p c app_id topic r short short' =
    let key = topic_key app_id topic in
    let s' = subscribe s key p c in
    let (c', here, active, same, inside) = subscribe_in s key p c r.here r.active in
    let reached = visit_in s'.memory (s'.buckets (hash_topic key)) p c' here active inside in
    rw (on_client_lem s fd p c (subscribe s key) r, topic_key_lem app_id topic short short')
      (ap (λ i. is_in i (map Client.fd (visit s'.memory (s'.buckets (hash_topic key))).1))
          (sym same)
        ∙ reached)

validate_session_lem :
    (s : Registry) (fd p session_id : ℕ) (c : Client)
    → IsRegistered s fd p c
    → ws_registry_validate_session s fd session_id ≡ (c.session_id == session_id)
unfolding ws_registry_validate_session
validate_session_lem s fd p session_id c r =
    let valid : ws_fd_is_valid fd ≡ true = let h = r.in_range in ground arith in
    rw (valid, r.mapped, r.here) (ground (arith, r.active))

validate_session-remove :
    (s : Registry) (fd p session_id : ℕ) (c : Client)
    → IsRegistered s fd p c
    → ws_registry_validate_session (ws_registry_remove s fd) fd session_id ≡ false
unfolding ws_registry_validate_session ws_registry_remove remove_client
validate_session-remove s fd p session_id c r =
    let at_fd : (fd == fd) ≡ true = ground arith in
    rw (on_client_lem s fd p c (remove_client s fd) r, at_fd) (ground arith)

-- The session that `ws_registry_add` makes.
abbrev pub session_at : Registry → ℕ → ℕ
session_at s now = bit_or (now * 2 ^ 32 % 2 ^ 64) s.global_session_counter

add_registers :
    (s : Registry) (fd now p : ℕ) (ssl : Option ℕ) (slots : List (Option ℕ))
    → fd < 65536
    → fill_slot p s.clients ≡ some slots
    → (c : Client) × IsRegistered (ws_registry_add s fd ssl now (some p)) fd p c
      × (c.session_id ≡ session_at s now)
unfolding ws_registry_add add_client
add_registers s fd now p ssl slots small free =
    let valid : ws_fd_is_valid fd ≡ true = ground arith in
    let at_p : (p == p) ≡ true = ground arith in
    let at_fd : (fd == fd) ≡ true = ground arith in
    rw (valid, add_client, free)
      (
        new_client s fd ssl now false 0,
        record { in_range = small; mapped = rw at_fd refl; here = rw at_p refl; active = refl },
        refl,
      )

-- With a free slot and memory, the session that `ws_registry_add` makes for a descriptor is the only one that is
-- valid for it, and none is valid once the descriptor is removed.
pub validate_session-add :
    (s : Registry) (fd now p session_id : ℕ) (ssl : Option ℕ) (slots : List (Option ℕ))
    → fd < 65536
    → fill_slot p s.clients ≡ some slots
    → let s' = ws_registry_add s fd ssl now (some p) in
      (ws_registry_validate_session s' fd session_id ≡ (session_at s now == session_id))
      × (ws_registry_validate_session (ws_registry_remove s' fd) fd session_id ≡ false)
validate_session-add s fd now p session_id ssl slots small free =
    let s' = ws_registry_add s fd ssl now (some p) in
    let (c, r, made) = add_registers s fd now p ssl slots small free in
    (
      validate_session_lem s' fd p session_id c r ∙ ap (λ n. n == session_id) made,
      validate_session-remove s' fd p session_id c r,
    )
