-- ===== src/Ws/Registry/Counts.antt =====
-- How often a pointer stands in the lists of src/protocol/websocket/halmos_ws_registry.c.
use mathlib.Core.Option
use halmos.Base.{
  ℕ, zero, suc, ◌+◌, ◌-◌, ◌≤◌, ◌<◌, ◌≡◌, refl, inl, inr, Bool, true, false, ◌&&◌, ◌||◌, Option,
  some, none, List, [], ◌∷◌, ◌++◌, ◌==◌, if◌then◌else◌, Bool-cases, length, replicate, arith,
}
use halmos.Ws.Registry.{
  Client, hash_topic, update, fill_slot, remove_first, clear_slot, leave_user_map, leave_topics,
  is_in, visit, pointers, find_name,
}

abbrev pub bit : Bool → ℕ
bit b = if b then 1 else 0

unfoldable pub count : ℕ → List ℕ → ℕ
count p [] = 0
count p (q ∷ qs) = bit (q == p) + count p qs

pub count-remove_self : (p : ℕ) (l : List ℕ) → count p (remove_first p l) ≤ count p l - 1
unfolding count remove_first
count-remove_self p [] = omega arith
count-remove_self p (q ∷ qs) = ground (arith, count-remove_self p qs)

pub count-remove : (p q : ℕ) (l : List ℕ) → count q (remove_first p l) ≤ count q l
unfolding count remove_first
count-remove p q [] = omega arith
count-remove p q (r ∷ l) = ground (arith, count-remove p q l)

pub is_in-count : (p : ℕ) (l : List ℕ) → is_in p l ≡ false → count p l ≡ 0
unfolding is_in count
is_in-count p [] h = refl
is_in-count p (q ∷ l) h = ground (arith, is_in-count p l)

-- One of the topics has the bucket.
unfoldable pub has_bucket : ℕ → List (List ℕ) → Bool
has_bucket b [] = false
has_bucket b (topic ∷ topics) = (hash_topic topic == b) || has_bucket b topics

pub has_bucket-append :
    (b : ℕ) (topics : List (List ℕ)) (key : List ℕ)
    → has_bucket b (topics ++ key ∷ []) ≡ (has_bucket b topics || (hash_topic key == b))
unfolding has_bucket
has_bucket-append b [] key = ground arith
has_bucket-append b (topic ∷ topics) key = ground (arith, has_bucket-append b topics key)

pub count-leave_topics :
    (p q b : ℕ) (topics : List (List ℕ)) (buckets : ℕ → List ℕ)
    → count q (leave_topics p topics buckets b) ≤ count q (buckets b)
unfolding leave_topics
count-leave_topics p q b [] buckets = omega arith
count-leave_topics p q b (topic ∷ topics) buckets =
    let h = hash_topic topic in
    let buckets' = update buckets h (remove_first p (buckets h)) in
    let rest = count-leave_topics p q b topics buckets' in
    elim (Bool-cases (b == h)) [
      | inl e ↦
          let same : b ≡ h = ground arith in
          let fewer : count q (buckets' b) ≤ count q (buckets b) =
            rw (e, same) (count-remove p q (buckets h)) in
          omega (arith, rest, fewer)
      | inr e ↦
          let same : count q (buckets' b) ≡ count q (buckets b) = rw e refl in
          omega (arith, rest, same)
    ]

-- A pointer that stands only in buckets of the topics leaves all of them.
pub count-leave_topics_self :
    (p b : ℕ) (topics : List (List ℕ)) (buckets : ℕ → List ℕ)
    → count p (buckets b) ≤ bit (has_bucket b topics)
    → count p (leave_topics p topics buckets b) ≡ 0
unfolding leave_topics has_bucket
count-leave_topics_self p b [] buckets h = omega arith
count-leave_topics_self p b (topic ∷ topics) buckets h =
    let i = hash_topic topic in
    let buckets' = update buckets i (remove_first p (buckets i)) in
    elim (Bool-cases (b == i)) [
      | inl e ↦
          let same : b ≡ i = ground arith in
          let fewer : count p (buckets' b) ≤ count p (buckets b) - 1 =
            rw (e, same) (count-remove_self p (buckets i)) in
          ground (arith, fewer, count-leave_topics p p b topics buckets')
      | inr e ↦
          let same : count p (buckets' b) ≡ count p (buckets b) = rw e refl in
          count-leave_topics_self p b topics buckets' (ground (arith, same))
    ]

-- The bucket of a client's name.
abbrev pub named_at : ℕ → Client → Bool
named_at i c = (if length c.user_id == 0 then false else true) && (hash_topic c.user_id == i)

pub count-leave_user_map :
    (p q i : ℕ) (c : Client) (user_map : ℕ → List ℕ)
    → count q (leave_user_map p c user_map i) ≤ count q (user_map i)
unfolding leave_user_map
count-leave_user_map p q i c user_map =
    let h = hash_topic c.user_id in
    elim (Bool-cases (length c.user_id == 0)) [
      | inl e ↦ rw e (omega arith)
      | inr e ↦ elim (Bool-cases (i == h)) [
        | inl f ↦ let same : i ≡ h = ground arith in rw (e, f, same) (count-remove p q (user_map h))
        | inr f ↦ rw (e, f) (omega arith)
      ]
    ]

pub count-leave_user_map_self :
    (p i : ℕ) (c : Client) (user_map : ℕ → List ℕ)
    → count p (user_map i) ≤ bit (named_at i c)
    → count p (leave_user_map p c user_map i) ≡ 0
unfolding leave_user_map
count-leave_user_map_self p i c user_map h =
    let j = hash_topic c.user_id in
    elim (Bool-cases (length c.user_id == 0)) [
      | inl e ↦ rw e (ground arith)
      | inr e ↦ elim (Bool-cases (i == j)) [
        | inl f ↦
            let same : i ≡ j = ground arith in
            let fewer : count p (remove_first p (user_map j)) ≤ count p (user_map i) - 1 =
              rw same (count-remove_self p (user_map j)) in
            rw (e, f) (ground arith)
        | inr f ↦ rw (e, f) (ground arith)
      ]
    ]

-- The slots with one more pointer, if there is room.
abbrev pub IsFilled : ℕ → ℕ → List (Option ℕ) → Option (List (Option ℕ)) → Type 0
IsFilled p q slots none = Unit
IsFilled p q slots (some slots') =
    count q (pointers slots') ≡ count q (pointers slots) + bit (p == q)

IsFilled-cons :
    (p q r : ℕ) (slots : List (Option ℕ)) (filled : Option (List (Option ℕ)))
    → IsFilled p q slots filled
    → IsFilled p q (some r ∷ slots) (Option.map (◌∷◌ (some r)) filled)
unfolding count
IsFilled-cons p q r slots none h = tt
IsFilled-cons p q r slots (some slots') h = omega arith

pub fill_slot-IsFilled :
    (p q : ℕ) (slots : List (Option ℕ)) → IsFilled p q slots (fill_slot p slots)
unfolding fill_slot count
fill_slot-IsFilled p q [] = tt
fill_slot-IsFilled p q (none ∷ slots) = omega arith
fill_slot-IsFilled p q (some r ∷ slots) =
    IsFilled-cons p q r slots (fill_slot p slots) (fill_slot-IsFilled p q slots)

pub count-clear_slot :
    (p q : ℕ) (slots : List (Option ℕ))
    → count q (pointers (clear_slot p slots)) ≤ count q (pointers slots)
unfolding clear_slot count
count-clear_slot p q [] = omega arith
count-clear_slot p q (none ∷ slots) = count-clear_slot p q slots
count-clear_slot p q (some r ∷ slots) = ground (arith, count-clear_slot p q slots)

pub count-clear_slot_self :
    (p : ℕ) (slots : List (Option ℕ))
    → count p (pointers (clear_slot p slots)) ≤ count p (pointers slots) - 1
unfolding clear_slot count
count-clear_slot_self p [] = omega arith
count-clear_slot_self p (none ∷ slots) = count-clear_slot_self p slots
count-clear_slot_self p (some r ∷ slots) = ground (arith, count-clear_slot_self p slots)

pub count-no_pointers : (p n : ℕ) → count p (pointers (replicate n none)) ≡ 0
unfolding count
count-no_pointers p zero = refl
count-no_pointers p (suc n) = count-no_pointers p n

abbrev pub is_live : (ℕ → Option Client) → ℕ → Bool
is_live memory p = elim (memory p) [ none ↦ false | some c ↦ true ]

-- Where every pointer is live nothing is gone.
pub visit_live :
    (memory : ℕ → Option Client) (ps : List ℕ)
    → ((p : ℕ) → 0 < count p ps → is_live memory p ≡ true)
    → (visit memory ps).0 ≡ false
unfolding visit count
visit_live memory [] h = refl
visit_live memory (p ∷ ps) h = ground (arith, h p, visit_live memory ps (λ q k. h q (omega arith)))

pub find_name_live :
    (memory : ℕ → Option Client) (name : List ℕ) (ps : List ℕ)
    → ((p : ℕ) → 0 < count p ps → is_live memory p ≡ true)
    → (find_name memory name ps).0 ≡ false
unfolding find_name count
find_name_live memory name [] h = refl
find_name_live memory name (p ∷ ps) h =
    ground (arith, h p, find_name_live memory name ps (λ q k. h q (omega arith)))
