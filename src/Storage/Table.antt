-- ===== src/Storage/Table.antt =====
-- lib/storage/storage.c: hash_uri, find_slot and add_hash_entry.
pub mod Lookup
use objmapper.Base.{
  ℕ, ◌+◌, ◌-◌, ◌*◌, ◌%◌, ◌^◌, Bool, false, ◌&&◌, Option, none, some, List, [], ◌∷◌, get_elem?, set,
  ltb, ◌==◌, bytes_eq, if◌then◌else◌,
}
use objmapper.Storage.Types.{HashEntry, Slot, Storage}

-- A signed char that is converted to uint64_t.
abbrev char_value : ℕ → ℕ
char_value c = if ltb c 128 then c else c + (2 ^ 64 - 256)

hash_from : ℕ → List ℕ → ℕ
hash_from hash [] = hash
hash_from hash (c ∷ uri) =
    hash_from (((hash * 2 ^ 5 % 2 ^ 64 + hash) % 2 ^ 64 + char_value c) % 2 ^ 64) uri

unfoldable pub hash_uri : List ℕ → ℕ
unfolding hash_from
hash_uri uri = hash_from 5381 uri

-- `slot->in_use && strcmp(slot->uri, uri) == 0`
unfoldable pub holds : Slot → List ℕ → Bool
holds slot uri = slot.in_use && bytes_eq slot.uri uri

abbrev pub held_by : Option Slot → List ℕ → Bool
held_by none uri = false
held_by (some slot) uri = holds slot uri

-- The slot at an index; the array has no slot past its end.
unfoldable pub slot_holds : List Slot → ℕ → List ℕ → Bool
slot_holds objects i uri = held_by (get_elem? objects i) uri

-- The chain of a hash.
unfoldable pub chain : Storage → ℕ → List HashEntry
chain s hash = elim (get_elem? s.hash_table (hash % s.hash_size)) [
  | none ↦ []
  | some entries ↦ entries
]

unfoldable pub find_entry : List Slot → List ℕ → ℕ → List HashEntry → Option ℕ
unfolding slot_holds
find_entry objects uri hash [] = none
find_entry objects uri hash (entry ∷ next) =
    let rest = find_entry objects uri hash next in
    if (entry.hash == hash) && slot_holds objects entry.slot_index uri
    then some entry.slot_index
    else rest

-- The index of the slot.
unfoldable pub find_slot : Storage → List ℕ → Option ℕ
unfolding find_entry
find_slot s uri = find_entry s.objects uri (hash_uri uri) (chain s (hash_uri uri))

unfoldable pub add_hash_entry : Storage → List ℕ → ℕ → Storage
add_hash_entry s uri slot_index =
    let hash = hash_uri uri in
    record s {
      hash_table =
          set s.hash_table (hash % s.hash_size)
            (record { hash = hash; slot_index = slot_index } ∷ chain s hash);
    }
