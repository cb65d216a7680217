-- ===== src/Ws/Registry/Safety.antt =====
-- Runs of src/protocol/websocket/halmos_ws_registry.c that read no client after it is freed.
use halmos.Base.{
  ℕ, ◌<◌, ◌≡◌, refl, ◌∙◌, Bool, true, false, Option, some, none, List, [], ◌∷◌, arith,
}
use halmos.Ws.Registry.{
  Client, Registry, ws_fd_is_valid, fault, on_client, ws_registry_remove, remove_all, visit,
  visited, pointers, add_client, remove_client, put_client, subscribe, name_client,
}
use halmos.Ws.Registry.Counts.{bit, count, visit_live}
use halmos.Ws.Registry.Valid.{records, is_named, has_fd, is_live, IsValid}
use halmos.Ws.Registry.Steps.{add_client-IsValid, remove_client-IsValid, either}

-- A step that takes a sound registry to a sound one.
pub record IsSound (s : Registry) : Type 0 where
  pub valid : IsValid s
  pub no_fault : s.faulted ≡ false

-- The client of a descriptor is there, so that a step on it depends on the step alone.
module _ (s : Registry) (fd : ℕ) (f : ℕ → Client → Registry) (ok : IsSound s) where
  abbrev pub IsStep : Type 0
  IsStep =
      (p : ℕ) (c : Client)
      → s.fd_map fd ≡ some p
      → s.memory p ≡ some c
      → c.fd ≡ fd
      → IsSound (f p c)

  read-IsSound :
      (p : ℕ) (v : Option Client)
      → IsStep
      → s.fd_map fd ≡ some p
      → s.memory p ≡ v
      → has_fd fd v ≡ true
      → IsSound (elim v [ none ↦ fault s | some c ↦ f p c ])
  read-IsSound p none step here e live = absurd (ground (arith, live))
  read-IsSound p (some c) step here e live = step p c here e (ground (arith, live))

  mapped-IsSound :
      (o : Option ℕ)
      → IsStep
      → s.fd_map fd ≡ o
      → IsSound
          (elim o [ none ↦ s | some p ↦ elim (s.memory p) [ none ↦ fault s | some c ↦ f p c ] ])
  mapped-IsSound none step e = ok
  mapped-IsSound (some p) step e =
      read-IsSound p (s.memory p) step e refl (ok.valid.descriptors fd p e)

  pub on_client-IsSound : IsStep → IsSound (on_client s fd f)
  unfolding on_client
  on_client-IsSound step =
      either IsSound (ws_fd_is_valid fd) _ s (mapped-IsSound (s.fd_map fd) step refl) ok

-- `calloc` gives memory that is not in use.
abbrev pub IsFresh : Registry → Option ℕ → Type 0
IsFresh s calloc = (p : ℕ) → calloc ≡ some p → s.memory p ≡ none

faulted-add_client :
    (s : Registry) (fd : ℕ) (c : Client) (calloc : Option ℕ)
    → (add_client s fd c calloc).faulted ≡ s.faulted
unfolding add_client
faulted-add_client s fd c none = refl
faulted-add_client s fd c (some p) = ground arith

pub add_client-IsSound :
    (s : Registry) (fd : ℕ) (c : Client) (calloc : Option ℕ)
    → IsSound s
    → c.fd ≡ fd
    → IsFresh s calloc
    → IsSound (add_client s fd c calloc)
add_client-IsSound s fd c calloc ok here fresh = record {
  valid = add_client-IsValid s fd c calloc ok.valid here fresh;
  no_fault = faulted-add_client s fd c calloc ∙ ok.no_fault;
}

pub faulted-subscribe :
    (s : Registry) (key : List ℕ) (p : ℕ) (c : Client) → (subscribe s key p c).faulted ≡ s.faulted
unfolding subscribe put_client
faulted-subscribe s key p c = ground arith

pub faulted-name_client :
    (s : Registry) (user_id : List ℕ) (p : ℕ) (c : Client)
    → (name_client s user_id p c).faulted ≡ s.faulted
unfolding name_client put_client
faulted-name_client s user_id p c = ground arith

pub remove-IsSound : (s : Registry) (fd : ℕ) → IsSound s → IsSound (ws_registry_remove s fd)
unfolding ws_registry_remove remove_client
remove-IsSound s fd ok = on_client-IsSound s fd (remove_client s fd) ok λ p c here e same. record {
  valid = remove_client-IsValid s fd p c ok.valid e same;
  no_fault = ok.no_fault;
}

pub remove_all-IsSound : (s : Registry) (fds : List ℕ) → IsSound s → IsSound (remove_all s fds)
unfolding remove_all
remove_all-IsSound s [] ok = ok
remove_all-IsSound s (fd ∷ fds) ok =
    remove_all-IsSound (ws_registry_remove s fd) fds (remove-IsSound s fd ok)

-- A walk over pointers that a sound registry bounds meets no freed client.
live :
    (v : Option Client) → (b : Bool) → 0 < bit b → (b ≡ true → is_live v ≡ true) → is_live v ≡ true
live v true h k = k refl
live v false h k = absurd (omega arith)

records_live : (b : ℕ) (v : Option Client) → records b v ≡ true → is_live v ≡ true
records_live b none h = h
records_live b (some c) h = refl

is_named_live : (i : ℕ) (v : Option Client) → is_named i v ≡ true → is_live v ≡ true
is_named_live i none h = h
is_named_live i (some c) h = refl

pub subscribers_live :
    (s : Registry) (b p : ℕ) → IsSound s → 0 < count p (s.buckets b) → is_live (s.memory p) ≡ true
subscribers_live s b p ok h =
    live (s.memory p) (records b (s.memory p)) (omega (arith, ok.valid.subscribers b p))
      (records_live b (s.memory p))

pub names_live :
    (s : Registry) (i p : ℕ) → IsSound s → 0 < count p (s.user_map i) → is_live (s.memory p) ≡ true
names_live s i p ok h =
    live (s.memory p) (is_named i (s.memory p)) (omega (arith, ok.valid.names i p))
      (is_named_live i (s.memory p))

pub slots_live :
    (s : Registry) (p : ℕ)
    → IsSound s
    → 0 < count p (pointers s.clients)
    → is_live (s.memory p) ≡ true
slots_live s p ok h =
    live (s.memory p) (is_live (s.memory p)) (omega (arith, ok.valid.slots p)) (λ e. e)

pub visited-IsSound :
    (s : Registry) (ps : List ℕ)
    → IsSound s
    → ((p : ℕ) → 0 < count p ps → is_live (s.memory p) ≡ true)
    → IsSound (visited s (visit s.memory ps)).0
visited-IsSound s ps ok h = rw (visit_live s.memory ps h) ok
