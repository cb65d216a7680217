-- ===== src/Ws/Registry/Valid.antt =====
-- The pointers of the registry of src/protocol/websocket/halmos_ws_registry.c, and what keeps them to
-- clients that live.
use halmos.Base.{
  ℕ, ◌≤◌, ◌≡◌, refl, sym, ◌∙◌, ap, subst, inl, inr, Bool, true, false, Option, some, none, ◌==◌,
  Bool-cases, arith,
}
use halmos.Ws.Registry.{Client, Registry, update, pointers}
use halmos.Ws.Registry.Counts.{bit, count, has_bucket, named_at}

-- What a client's memory says of it; nothing if it is freed.
abbrev pub records : ℕ → Option Client → Bool
records b none = false
records b (some c) = has_bucket b c.subscribed_topics

abbrev pub is_named : ℕ → Option Client → Bool
is_named i none = false
is_named i (some c) = named_at i c

abbrev pub has_fd : ℕ → Option Client → Bool
has_fd fd none = false
has_fd fd (some c) = c.fd == fd

abbrev pub is_live : Option Client → Bool
is_live none = false
is_live (some c) = true

-- A pointer stands at most once in a bucket, and only if its client has a topic of this bucket; likewise
-- for names, slots and descriptors.
pub record IsValid (s : Registry) : Type 0 where
  pub subscribers : (b p : ℕ) → count p (s.buckets b) ≤ bit (records b (s.memory p))
  pub names : (i p : ℕ) → count p (s.user_map i) ≤ bit (is_named i (s.memory p))
  pub slots : (p : ℕ) → count p (pointers s.clients) ≤ bit (is_live (s.memory p))
  pub descriptors : (fd p : ℕ) → s.fd_map fd ≡ some p → has_fd fd (s.memory p) ≡ true

-- A step that writes the memory `p` only, and adds no other pointer.
pub record IsChange (s : Registry) (p : ℕ) (v : Option Client) (s' : Registry) : Type 0 where
  pub memory : (q : ℕ) → s'.memory q ≡ update s.memory p v q
  pub subscribers : (b q : ℕ) → (q == p) ≡ false → count q (s'.buckets b) ≤ count q (s.buckets b)
  pub subscribers_self : (b : ℕ) → count p (s'.buckets b) ≤ bit (records b v)
  pub names : (i q : ℕ) → (q == p) ≡ false → count q (s'.user_map i) ≤ count q (s.user_map i)
  pub names_self : (i : ℕ) → count p (s'.user_map i) ≤ bit (is_named i v)
  pub slots :
      (q : ℕ) → (q == p) ≡ false → count q (pointers s'.clients) ≤ count q (pointers s.clients)
  pub slots_self : count p (pointers s'.clients) ≤ bit (is_live v)
  pub descriptors : (fd q : ℕ) → (q == p) ≡ false → s'.fd_map fd ≡ some q → s.fd_map fd ≡ some q
  pub descriptors_self : (fd : ℕ) → s'.fd_map fd ≡ some p → has_fd fd v ≡ true

update_same :
    (f : ℕ → Option Client) (p q : ℕ) (v : Option Client) → (q == p) ≡ true → update f p v q ≡ v
update_same f p q v e = rw e refl

update_other :
    (f : ℕ → Option Client) (p q : ℕ) (v : Option Client) → (q == p) ≡ false → update f p v q ≡ f q
update_other f p q v e = rw e refl

equal : (q p : ℕ) → (q == p) ≡ true → p ≡ q
equal q p e = ground arith

pub IsChange-IsValid :
    (s : Registry) (p : ℕ) (v : Option Client) (s' : Registry)
    → IsValid s
    → IsChange s p v s'
    → IsValid s'
IsChange-IsValid s p v s' ok ch =
    let here : (q : ℕ) → (q == p) ≡ true → s'.memory q ≡ v =
      λ q e. ch.memory q ∙ update_same s.memory p q v e in
    let there : (q : ℕ) → (q == p) ≡ false → s'.memory q ≡ s.memory q =
      λ q e. ch.memory q ∙ update_other s.memory p q v e in
    record {
      subscribers = λ b q. elim (Bool-cases (q == p)) [
        | inl e ↦ rw (here q e) (
            subst (λ r. count r (s'.buckets b) ≤ bit (records b v)) (equal q p e)
              (ch.subscribers_self b))
        | inr e ↦ rw (there q e) (omega (arith, ch.subscribers b q e, ok.subscribers b q))
      ];
      names = λ i q. elim (Bool-cases (q == p)) [
        | inl e ↦ rw (here q e) (
            subst (λ r. count r (s'.user_map i) ≤ bit (is_named i v)) (equal q p e)
              (ch.names_self i))
        | inr e ↦ rw (there q e) (omega (arith, ch.names i q e, ok.names i q))
      ];
      slots = λ q. elim (Bool-cases (q == p)) [
        | inl e ↦ rw (here q e) (
            subst (λ r. count r (pointers s'.clients) ≤ bit (is_live v)) (equal q p e)
              ch.slots_self)
        | inr e ↦ rw (there q e) (omega (arith, ch.slots q e, ok.slots q))
      ];
      descriptors = λ fd q h. elim (Bool-cases (q == p)) [
        | inl e ↦ rw (here q e) (ch.descriptors_self fd (h ∙ ap some (sym (equal q p e))))
        | inr e ↦ rw (there q e) (ok.descriptors fd q (ch.descriptors fd q e h))
      ];
    }
