-- ===== src/Hpack/Table.antt =====
-- The tables of src/protocol/http2/halmos_http2_hpack.c: lookup by index, and the insertion into the
-- dynamic table, an array of 128 entries of which the first `count` are in use.
pub mod Refines
use halmos.Base.{
  ℕ, zero, suc, ◌+◌, ◌-◌, ◌%◌, ◌^◌, Bool, ◌&&◌, Option, none, some, List, [], ◌∷◌, ltb, leb,
  if◌then◌else◌, get_elem?, get_or, set, take, replicate,
}
use halmos.Hpack.Static.{Entry, static_table}

-- The buffers of an entry hold C strings, which `snprintf` cuts to the size less one.
abbrev pub hpack_name_max : ℕ
hpack_name_max = 128

abbrev pub hpack_value_max : ℕ
hpack_value_max = 512

abbrev pub table_slots : ℕ
table_slots = 128

abbrev pub blank_entry : Entry
blank_entry = record { name = []; value = [] }

pub record DynamicTable : Type 0 where
  pub entries : List Entry
  pub count : ℕ

-- As `session_init` of halmos_http2_manager.c allocates it.
abbrev pub new_table : DynamicTable
new_table = record { entries = replicate table_slots blank_entry; count = 0 }

unfoldable pub get_dynamic : DynamicTable → ℕ → Option Entry
get_dynamic t index =
    let dyn_idx = (index + 2 ^ 32 - 62) % 2 ^ 32 in
    if ltb 0 t.count && ltb dyn_idx t.count then get_elem? t.entries dyn_idx else none

unfoldable pub http2_hpack_get_header : DynamicTable → ℕ → Option Entry
unfolding get_dynamic
http2_hpack_get_header t index =
    if leb 1 index && leb index 61 then get_elem? static_table (index - 1) else get_dynamic t index

-- `for (int i = count; i > 0; i--) entries[i] = entries[i-1];`
unfoldable pub shift_entries : ℕ → List Entry → List Entry
shift_entries zero es = es
shift_entries (suc i) es = shift_entries i (set es (suc i) (get_or es i blank_entry))

abbrev pub fitted : List ℕ → List ℕ → Entry
fitted name value = record {
  name = take (hpack_name_max - 1) name;
  value = take (hpack_value_max - 1) value;
}

unfoldable pub http2_hpack_dynamic_table_add : DynamicTable → List ℕ → List ℕ → DynamicTable
unfolding shift_entries
http2_hpack_dynamic_table_add t name value =
    let n = if leb table_slots t.count then 127 else t.count in
    record { entries = set (shift_entries n t.entries) 0 (fitted name value); count = n + 1 }
