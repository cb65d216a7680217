-- ===== src/Hpack/Table/Refines.antt =====
-- The array of src/protocol/http2/halmos_http2_hpack.c refines a list of at most 128 entries, newest
-- first.
use halmos.Base.{
  ℕ, zero, suc, ◌+◌, ◌-◌, ◌%◌, ◌^◌, ◌≤◌, ◌<◌, ◌≡◌, refl, sym, ap, ◌∙◌, none, some, List, ltb, leb,
  if◌then◌else◌, get_elem?, get_or, set, length, length-set, get_elem?-set_self, get_elem?-set_ne,
  arith, get_or-get_elem?, dec_lt,
}
use halmos.Hpack.Static.{Entry}
use halmos.Hpack.Table.{
  DynamicTable, blank_entry, table_slots, get_dynamic, http2_hpack_get_header, shift_entries,
  fitted, http2_hpack_dynamic_table_add,
}

-- The invariant of the array.
pub record IsTable (t : DynamicTable) : Type 0 where
  pub slots : length t.entries ≡ table_slots
  pub used : t.count ≤ table_slots

length-shift_entries : (n : ℕ) (es : List Entry) → length (shift_entries n es) ≡ length es
unfolding shift_entries
length-shift_entries zero es = refl
length-shift_entries (suc i) es = omega (
  arith,
  length-shift_entries i (set es (suc i) (get_or es i blank_entry)),
  length-set es (suc i) (get_or es i blank_entry),
)

-- The loop leaves the slots above `n`, and the first one, as they were.
get-shift_entries_above :
    (n k : ℕ) (es : List Entry) → n < k → get_elem? (shift_entries n es) k ≡ get_elem? es k
unfolding shift_entries
get-shift_entries_above zero k es h = refl
get-shift_entries_above (suc i) k es h =
    get-shift_entries_above i k (set es (suc i) (get_or es i blank_entry)) (omega arith)
    ∙ get_elem?-set_ne es (get_or es i blank_entry) (omega arith)

-- Every other slot gets what the slot before it held.
get-shift_entries :
    (n k : ℕ) (es : List Entry)
    → k < n
    → n < length es
    → get_elem? (shift_entries n es) (suc k) ≡ get_elem? es k
unfolding shift_entries
get-shift_entries zero k es h long = absurd (omega arith)
get-shift_entries (suc i) k es h long = elim (dec_lt k i) [
  | yes below ↦
      get-shift_entries i k (set es (suc i) (get_or es i blank_entry)) below
        (omega (arith, length-set es (suc i) (get_or es i blank_entry)))
      ∙ get_elem?-set_ne es (get_or es i blank_entry) (omega arith)
  | no above ↦
      let here : k ≡ i = omega arith in
      rw here (
        get-shift_entries_above i (suc i) (set es (suc i) (get_or es i blank_entry)) (omega arith)
        ∙ get_elem?-set_self es (suc i) (get_or es i blank_entry) long
        ∙ sym (get_or-get_elem? es i blank_entry (omega arith)))
]

-- Every insertion keeps the array at 128 slots with at most 128 in use: the loop and the writes stay
-- inside it.
pub add-IsTable :
    (t : DynamicTable) (name value : List ℕ)
    → IsTable t
    → IsTable (http2_hpack_dynamic_table_add t name value)
unfolding http2_hpack_dynamic_table_add
add-IsTable t name value h = ground (
  arith,
  length-shift_entries t.count t.entries,
  length-shift_entries 127 t.entries,
  length-set (shift_entries t.count t.entries) 0 (fitted name value),
  length-set (shift_entries 127 t.entries) 0 (fitted name value),
)

-- The dynamic indices count from 62.
get_header-dynamic :
    (t : DynamicTable) (i : ℕ)
    → i < 1000
    → http2_hpack_get_header t (62 + i) ≡ (if ltb i t.count then get_elem? t.entries i else none)
unfolding http2_hpack_get_header get_dynamic
get_header-dynamic t i h =
    let e : (62 + i + 2 ^ 32 - 62) % 2 ^ 32 ≡ i = omega arith in
    ground (arith, ap (get_elem? t.entries) e)

-- The two values of `count` that an insertion starts from.
abbrev kept : DynamicTable → ℕ
kept t = if leb table_slots t.count then 127 else t.count

get-added :
    (t : DynamicTable) (name value : List ℕ) (i : ℕ)
    → IsTable t
    → i < kept t
    → get_elem? (http2_hpack_dynamic_table_add t name value).entries (suc i) ≡ get_elem? t.entries i
unfolding http2_hpack_dynamic_table_add
get-added t name value i h lt =
    get_elem?-set_ne (shift_entries (kept t) t.entries) (fitted name value) (omega arith)
    ∙ get-shift_entries (kept t) i t.entries lt (ground arith)

module _ (t : DynamicTable) (name value : List ℕ) (h : IsTable t) where
  abbrev added : DynamicTable
  added = http2_hpack_dynamic_table_add t name value

  count-added : added.count ≡ kept t + 1
  unfolding http2_hpack_dynamic_table_add
  count-added = refl

  newest : http2_hpack_get_header added 62 ≡ some (fitted name value)
  newest =
      get_header-dynamic added 0 (omega arith)
      ∙ rw count-added (
          unfold http2_hpack_dynamic_table_add in
          ground (
            arith,
            h.slots,
            length-shift_entries (kept t) t.entries,
            get_elem?-set_self (shift_entries (kept t) t.entries) 0 (fitted name value),
          ))

  older :
      (i : ℕ)
      → i < 127
      → http2_hpack_get_header added (62 + suc i) ≡ http2_hpack_get_header t (62 + i)
  older i lt =
      get_header-dynamic added (suc i) (omega arith)
      ∙ rw (get_header-dynamic t i (omega arith), count-added)
          (ground (arith, h.used, get-added t name value i h))

  evicted : http2_hpack_get_header added (62 + 128) ≡ none
  evicted = get_header-dynamic added 128 (omega arith) ∙ rw count-added (ground (arith, h.used))

  static_same : (i : ℕ) → i ≤ 61 → http2_hpack_get_header added i ≡ http2_hpack_get_header t i
  unfolding http2_hpack_get_header get_dynamic http2_hpack_dynamic_table_add
  static_same i le = ground (arith, h.used)

-- After an insertion the index 62 gives the new entry, cut to its buffers; every dynamic index goes
-- up by one, up to the 128th entry, which is evicted; and the indices up to 61 are as before.
pub get_header-add :
    (t : DynamicTable) (name value : List ℕ)
    → IsTable t
    → let u = http2_hpack_dynamic_table_add t name value in
      (http2_hpack_get_header u 62 ≡ some (fitted name value))
      × ((i : ℕ)
          → i < 127
          → http2_hpack_get_header u (62 + suc i) ≡ http2_hpack_get_header t (62 + i))
      × (http2_hpack_get_header u (62 + 128) ≡ none)
      × ((i : ℕ) → i ≤ 61 → http2_hpack_get_header u i ≡ http2_hpack_get_header t i)
get_header-add t name value h = (
  newest t name value h,
  older t name value h,
  evicted t name value h,
  static_same t name value h,
)
