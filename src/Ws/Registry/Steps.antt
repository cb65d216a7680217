-- ===== src/Ws/Registry/Steps.antt =====
-- The operations of src/protocol/websocket/halmos_ws_registry.c keep the pointers to clients that live.
use halmos.Base.{
  ℕ, ◌+◌, ◌%◌, ◌^◌, ◌≤◌, ◌<◌, ◌≡◌, refl, inl, inr, Bool, true, false, ◌||◌, not, Option, some, none,
  List, [], ◌∷◌, ◌++◌, ltb, ◌==◌, if◌then◌else◌, Bool-cases, length, take, arith, take_all,
}
use halmos.Ws.Registry.{
  Client, Registry, hash_topic, update, fill_slot, add_client, leave_user_map, remove_client,
  put_client, subscribe, name_client, is_in, pointers, max_topics_per_user,
}
use halmos.Ws.Registry.Counts.{
  bit, count, has_bucket, has_bucket-append, is_in-count, count-leave_topics,
  count-leave_topics_self, named_at, count-leave_user_map, count-leave_user_map_self, IsFilled,
  fill_slot-IsFilled, count-clear_slot, count-clear_slot_self,
}
use halmos.Ws.Registry.Valid.{records, is_named, is_live, IsValid, IsChange, IsChange-IsValid}

-- In memory that is not in use no pointer leads.
abbrev IsFree : Registry → ℕ → Type 0
IsFree s p = s.memory p ≡ none

-- A descriptor's pointer, after a write to the map.
map_other :
    (f : ℕ → Option ℕ) (fd i p q : ℕ)
    → (q == p) ≡ false
    → update f fd (some p) i ≡ some q
    → f i ≡ some q
map_other f fd i p q e h = elim (Bool-cases (i == fd)) [
  | inl same ↦ absurd (ground (arith, rw same at h, e))
  | inr other ↦ rw other at h
]

-- The registry with the new client in its slot.
abbrev added : Registry → ℕ → ℕ → Client → List (Option ℕ) → Registry
added s fd p c slots = record s {
  memory = update s.memory p (some c);
  clients = slots;
  fd_map = update s.fd_map fd (some p);
  current_count = s.current_count + 1;
  global_session_counter = (s.global_session_counter + 1) % 2 ^ 64;
}

added-IsChange :
    (s : Registry) (fd p : ℕ) (c : Client) (slots : List (Option ℕ))
    → IsValid s
    → IsFree s p
    → c.fd ≡ fd
    → ((q : ℕ) → IsFilled p q s.clients (some slots))
    → IsChange s p (some c) (added s fd p c slots)
added-IsChange s fd p c slots ok free here filled = record {
  memory = λ q. refl;
  subscribers = λ b q e. omega arith;
  subscribers_self = λ b.
      let none_there : bit (records b (s.memory p)) ≡ 0 = rw free refl in
      omega (arith, ok.subscribers b p, none_there);
  names = λ i q e. omega arith;
  names_self = λ i.
      let none_there : bit (is_named i (s.memory p)) ≡ 0 = rw free refl in
      omega (arith, ok.names i p, none_there);
  slots = λ q e. ground (arith, filled q, e);
  slots_self =
      let none_there : bit (is_live (s.memory p)) ≡ 0 = rw free refl in
      ground (arith, filled p, ok.slots p, none_there);
  descriptors = λ i q e h. map_other s.fd_map fd i p q e h;
  descriptors_self = λ i h. elim (Bool-cases (i == fd)) [
    | inl same ↦ ground (arith, same)
    | inr other ↦ absurd (ground (arith, free, ok.descriptors i p (rw other at h)))
  ];
}

add_filled :
    (s : Registry) (fd p : ℕ) (c : Client) (filled : Option (List (Option ℕ)))
    → IsValid s
    → c.fd ≡ fd
    → IsFree s p
    → ((q : ℕ) → IsFilled p q s.clients filled)
    → IsValid (elim filled [ none ↦ s | some slots ↦ added s fd p c slots ])
add_filled s fd p c none ok here free h = ok
add_filled s fd p c (some slots) ok here free h =
    IsChange-IsValid s p (some c) (added s fd p c slots) ok
      (added-IsChange s fd p c slots ok free here h)

map_removed : (f : ℕ → Option ℕ) (fd i q : ℕ) → update f fd none i ≡ some q → f i ≡ some q
map_removed f fd i q h = elim (Bool-cases (i == fd)) [
  | inl same ↦ absurd (ground (arith, rw same at h))
  | inr other ↦ rw other at h
]

pub add_client-IsValid :
    (s : Registry) (fd : ℕ) (c : Client) (calloc : Option ℕ)
    → IsValid s
    → c.fd ≡ fd
    → ((p : ℕ) → calloc ≡ some p → s.memory p ≡ none)
    → IsValid (add_client s fd c calloc)
unfolding add_client
add_client-IsValid s fd c none ok here free = ok
add_client-IsValid s fd c (some p) ok here free =
    add_filled s fd p c (fill_slot p s.clients) ok here (free p refl)
      (λ q. fill_slot-IsFilled p q s.clients)

pub remove_client-IsValid :
    (s : Registry) (fd p : ℕ) (c : Client)
    → IsValid s
    → s.memory p ≡ some c
    → c.fd ≡ fd
    → IsValid (remove_client s fd p c)
unfolding remove_client
remove_client-IsValid s fd p c ok here same_fd =
    IsChange-IsValid s p none (remove_client s fd p c) ok (record {
      memory = λ q. refl;
      subscribers = λ b q e. count-leave_topics p q b c.subscribed_topics s.buckets;
      subscribers_self = λ b.
          let known : count p (s.buckets b) ≤ bit (has_bucket b c.subscribed_topics) =
            rw here at (ok.subscribers b p) in
          omega (arith, count-leave_topics_self p b c.subscribed_topics s.buckets known);
      names = λ i q e. count-leave_user_map p q i c s.user_map;
      names_self = λ i.
          let known : count p (s.user_map i) ≤ bit (named_at i c) = rw here at (ok.names i p) in
          omega (arith, count-leave_user_map_self p i c s.user_map known);
      slots = λ q e. count-clear_slot p q s.clients;
      slots_self =
          let known : count p (pointers s.clients) ≤ 1 = rw here at (ok.slots p) in
          omega (arith, count-clear_slot_self p s.clients, known);
      descriptors = λ i q e h. map_removed s.fd_map fd i q h;
      descriptors_self = λ i h.
          let before = map_removed s.fd_map fd i p h in
          absurd (ground (arith, ok.descriptors i p before, here, same_fd, h));
    })

-- A client written again, with what it records still there.
abbrev put_back : Registry → ℕ → Client → (ℕ → List ℕ) → (ℕ → List ℕ) → Registry
put_back s p c buckets user_map = record s {
  memory = update s.memory p (some c);
  buckets = buckets;
  user_map = user_map;
}

put_back-IsValid :
    (s : Registry) (p : ℕ) (c c' : Client) (buckets user_map : ℕ → List ℕ)
    → IsValid s
    → s.memory p ≡ some c
    → c'.fd ≡ c.fd
    → ((b q : ℕ) → (q == p) ≡ false → count q (buckets b) ≤ count q (s.buckets b))
    → ((b : ℕ) → count p (buckets b) ≤ bit (has_bucket b c'.subscribed_topics))
    → ((i q : ℕ) → (q == p) ≡ false → count q (user_map i) ≤ count q (s.user_map i))
    → ((i : ℕ) → count p (user_map i) ≤ bit (named_at i c'))
    → IsValid (put_back s p c' buckets user_map)
put_back-IsValid s p c c' buckets user_map ok here same_fd hb hb' hu hu' =
    IsChange-IsValid s p (some c') (put_back s p c' buckets user_map) ok (record {
      memory = λ q. refl;
      subscribers = hb;
      subscribers_self = hb';
      names = hu;
      names_self = hu';
      slots = λ q e. omega arith;
      slots_self = let known : count p (pointers s.clients) ≤ 1 = rw here at (ok.slots p) in known;
      descriptors = λ i q e h. h;
      descriptors_self = λ i h. ground (arith, ok.descriptors i p h, here, same_fd);
    })

pub put_client-IsValid :
    (s : Registry) (p : ℕ) (c : Client) (now : ℕ)
    → IsValid s
    → s.memory p ≡ some c
    → IsValid (put_client s p (record c { last_seen = now }))
unfolding put_client
put_client-IsValid s p c now ok here =
    put_back-IsValid s p c (record c { last_seen = now }) s.buckets s.user_map ok here refl
      (λ b q e. omega arith) (λ b. rw here at (ok.subscribers b p)) (λ i q e. omega arith)
      (λ i. rw here at (ok.names i p))

count-front :
    (lists : ℕ → List ℕ) (idx p i q : ℕ)
    → (q == p) ≡ false
    → count q (update lists idx (p ∷ lists idx) i) ≡ count q (lists i)
unfolding count
count-front lists idx p i q e = elim (Bool-cases (i == idx)) [
  | inl same ↦ let at_idx : i ≡ idx = ground arith in rw (same, at_idx) (ground (arith, e))
  | inr other ↦ rw other refl
]

subscribed_self :
    (s : Registry) (idx : ℕ) (key : List ℕ) (p b : ℕ) (c : Client)
    → idx ≡ hash_topic key
    → IsValid s
    → s.memory p ≡ some c
    → count p (s.buckets idx) ≡ 0
    → count p (update s.buckets idx (p ∷ s.buckets idx) b)
      ≤ bit (has_bucket b (c.subscribed_topics ++ key ∷ []))
unfolding count
subscribed_self s idx key p b c e ok here absent =
    let more = has_bucket-append b c.subscribed_topics key in
    let known : count p (s.buckets b) ≤ bit (has_bucket b c.subscribed_topics) =
      rw here at (ok.subscribers b p) in
    elim (Bool-cases (b == idx)) [
      | inl same ↦ rw (same, more) (ground (arith, absent, e))
      | inr other ↦ rw (other, more) (ground (arith, known))
    ]

-- A subscription, while there is room for its record.
pub subscribe-IsValid :
    (s : Registry) (key : List ℕ) (p : ℕ) (c : Client)
    → IsValid s
    → s.memory p ≡ some c
    → length c.subscribed_topics < max_topics_per_user
    → IsValid (subscribe s key p c)
unfolding subscribe put_client
subscribe-IsValid s key p c ok here room =
    let idx = hash_topic key in
    let c' = record c { subscribed_topics = c.subscribed_topics ++ key ∷ [] } in
    let fits : ltb (length c.subscribed_topics) max_topics_per_user ≡ true = ground arith in
    elim (Bool-cases (not c.is_active || is_in p (s.buckets idx))) [
      | inl e ↦ rw e ok
      | inr e ↦
          let absent : count p (s.buckets idx) ≡ 0 =
            is_in-count p (s.buckets idx) (ground (arith, e)) in
          rw (e, fits)
            (put_back-IsValid s p c c' (update s.buckets idx (p ∷ s.buckets idx)) s.user_map ok here
              refl (λ b q f. omega (arith, count-front s.buckets idx p b q f))
              (λ b. subscribed_self s idx key p b c refl ok here absent) (λ i q f. omega arith)
              (λ i. rw here at (ok.names i p)))
    ]

named_self :
    (left : ℕ → List ℕ) (user_id : List ℕ) (p i : ℕ) (c : Client)
    → 0 < length user_id
    → length user_id ≤ 63
    → ((j : ℕ) → count p (left j) ≡ 0)
    → count p (update left (hash_topic user_id) (p ∷ left (hash_topic user_id)) i)
      ≤ bit (named_at i (record c { user_id = take 63 user_id }))
unfolding count
named_self left user_id p i c some_name short gone =
    let whole : take 63 user_id ≡ user_id = take_all 63 user_id short in
    let idx = hash_topic user_id in
    let named : (length user_id == 0) ≡ false = ground arith in
    elim (Bool-cases (i == idx)) [
      | inl same ↦ rw (whole, same) (ground (arith, gone idx, named))
      | inr other ↦ rw (whole, other) (ground (arith, gone i))
    ]

pub either :
    (P : Registry → Type 0) (b : Bool) (s t : Registry) → P s → P t → P (if b then s else t)
either P true s t hs ht = hs
either P false s t hs ht = ht

-- A name that fits its buffer.
pub name_client-IsValid :
    (s : Registry) (user_id : List ℕ) (p : ℕ) (c : Client)
    → IsValid s
    → s.memory p ≡ some c
    → 0 < length user_id
    → length user_id ≤ 63
    → IsValid (name_client s user_id p c)
unfolding name_client put_client
name_client-IsValid s user_id p c ok here some_name short =
    let idx = hash_topic user_id in
    let left = leave_user_map p c s.user_map in
    let c' = record c { user_id = take 63 user_id } in
    let gone : (j : ℕ) → count p (left j) ≡ 0 =
      λ j. count-leave_user_map_self p j c s.user_map (rw here at (ok.names j p)) in
    either IsValid c.is_active (put_back s p c' s.buckets (update left idx (p ∷ left idx))) s
      (put_back-IsValid s p c c' s.buckets (update left idx (p ∷ left idx)) ok here refl
        (λ b q f. omega arith) (λ b. rw here at (ok.subscribers b p))
        (λ i q f.
          omega (arith, count-front left idx p i q f, count-leave_user_map p q i c s.user_map))
        (λ i. named_self left user_id p i c some_name short gone))
      ok
