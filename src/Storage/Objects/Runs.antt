-- ===== src/Storage/Objects/Runs.antt =====
-- Sequences of operations on a new storage.
use objmapper.Base.{
  ℕ, zero, suc, ◌≤◌, ◌<◌, ◌≡◌, refl, sym, subst, ◌↔◌, inl, inr, true, false, Option, none, some,
  List, [], ◌∷◌, length, replicate, length-replicate, ltb, if◌then◌else◌, arith,
}
use objmapper.Storage.Types.{
  Config, Storage, Slot, Answers, Result, cleared_slot, HashEntry, Info, failed, enoent, done,
}
use objmapper.Storage.Table.{holds, slot_holds, find_slot}
use objmapper.Storage.Table.Lookup.{find_slot_iff}
use objmapper.Storage.Objects.{
  default_capacity, opened_storage, storage_put, storage_get_fd, serve_slot, storage_get_mmap,
  may_cache, map_object, hit_slot, storage_remove, slot_at,
}
use objmapper.Storage.Objects.Keeps.{count_used}
use objmapper.Storage.Objects.Writes.{Keeps-write_object, Keeps-serve_slot, Keeps-get_mmap}
use objmapper.Storage.Objects.Consistent.{IsConsistent, Keeps-IsConsistent}
use objmapper.Storage.Objects.Put.{target, storage_put-full}
use objmapper.Storage.Objects.Dictionary.Removal.{storage_remove-IsConsistent}

count_used-le : (slots : List Slot) → count_used slots ≤ length slots
unfolding count_used
count_used-le [] = omega arith
count_used-le (slot ∷ slots) = let rest = count_used-le slots in ground arith

-- The operations that change the storage, with the kernel's answers to each.
pub data Command : Type 0 where
  put : Answers → List ℕ → List ℕ → ℕ → Command
  get_fd get_mmap : Answers → List ℕ → Command
  remove : List ℕ → Command

abbrev run_command : Command → Storage → Storage
run_command (put a uri bytes size) s = (storage_put a uri bytes size s).1
run_command (get_fd a uri) s = (storage_get_fd a uri s).1
run_command (get_mmap a uri) s = (storage_get_mmap a uri s).1
run_command (remove uri) s = (storage_remove uri s).1

unfoldable pub run_commands : List Command → Storage → Storage
run_commands [] s = s
run_commands (c ∷ cs) s = run_commands cs (run_command c s)

-- The URIs that are put fit their slots.
abbrev pub Fits : List Command → Type 0
Fits [] = Unit
Fits (put a uri bytes size ∷ cs) = (length uri ≤ 1023) × Fits cs
Fits (get_fd a uri ∷ cs) = Fits cs
Fits (get_mmap a uri ∷ cs) = Fits cs
Fits (remove uri ∷ cs) = Fits cs

cleared_count : (n : ℕ) → count_used (replicate n cleared_slot) ≡ 0
unfolding count_used
cleared_count zero = refl
cleared_count (suc n) = let rest = cleared_count n in omega (arith, rest)

cleared_holds : (n i : ℕ) (uri : List ℕ) → slot_holds (replicate n cleared_slot) i uri ≡ false
unfolding slot_holds holds
cleared_holds zero i uri = refl
cleared_holds (suc n) zero uri = refl
cleared_holds (suc n) (suc i) uri = cleared_holds n i uri

abbrev no_entries : List HashEntry
no_entries = []

abbrev table_size : ℕ → ℕ
table_size n = if ltb 0 n then n else 16384

pub opened_storage-IsConsistent :
    (dir : List ℕ) (config : Config) → IsConsistent (opened_storage dir config)
unfolding opened_storage
opened_storage-IsConsistent dir config = record {
  slots = length-replicate default_capacity cleared_slot;
  buckets = length-replicate (table_size config.hash_size) no_entries;
  sized = positive config.hash_size;
  counted = sym (cleared_count default_capacity);
  indexed = record {
    listed = λ i uri held. absurd (never default_capacity i uri held);
    unique = λ i j uri held also. absurd (never default_capacity i uri held);
  };
}
  where
    positive : (n : ℕ) → 0 < table_size n
    positive n = ground arith

    never : (n i : ℕ) (uri : List ℕ) → slot_holds (replicate n cleared_slot) i uri ≡ true → ⊥
    never n i uri held = let missed = cleared_holds n i uri in cc

pub storage_put-IsConsistent :
    (a : Answers) (uri bytes : List ℕ) (size : ℕ) (s : Storage)
    → IsConsistent s
    → length uri ≤ 1023
    → IsConsistent (storage_put a uri bytes size s).1
storage_put-IsConsistent a uri bytes size s ok short = elim (target a uri bytes size s ok short) [
  | inr full ↦
      subst (λ (r : Result (Unit {0}) × Storage). IsConsistent r.1)
        (sym (storage_put-full a uri bytes size s full.0 full.1)) ok
  | inl t ↦
      subst (λ (r : Result (Unit {0}) × Storage). IsConsistent r.1) (sym t.written)
        (Keeps-IsConsistent (Keeps-write_object a t.index uri bytes size t.store) t.ok)
]

abbrev served_at : Answers → Storage → Option ℕ → Result (Option ℕ × Info) × Storage
served_at a s none = (failed enoent, s)
served_at a s (some i) = serve_slot (slot_at s i).backing_fd a i s

storage_get_fd-IsConsistent :
    (a : Answers) (uri : List ℕ) (s : Storage)
    → IsConsistent s
    → IsConsistent (storage_get_fd a uri s).1
unfolding storage_get_fd
storage_get_fd-IsConsistent a uri s ok =
    elim (find_slot s uri) as (λ o. IsConsistent (served_at a s o).1) [
      | none ↦ ok
      | some i ↦ Keeps-IsConsistent (Keeps-serve_slot (slot_at s i).backing_fd a i s) ok
    ]

abbrev mapped_at : Answers → Storage → Option ℕ → Result (ℕ × Option ℕ) × Storage
mapped_at a s none = (failed enoent, s)
mapped_at a s (some i) =
    let hit = hit_slot i (if may_cache (slot_at s i) s then map_object a i s else s) in
    (done ((slot_at hit i).size, (slot_at hit i).cache_mmap), hit)

storage_get_mmap-IsConsistent :
    (a : Answers) (uri : List ℕ) (s : Storage)
    → IsConsistent s
    → IsConsistent (storage_get_mmap a uri s).1
unfolding storage_get_mmap
storage_get_mmap-IsConsistent a uri s ok =
    elim (find_slot s uri) as (λ o. IsConsistent (mapped_at a s o).1) [
      | none ↦ ok
      | some i ↦ Keeps-IsConsistent (Keeps-get_mmap a i s) ok
    ]

run_command-IsConsistent :
    (c : Command) (s : Storage) → Fits (c ∷ []) → IsConsistent s → IsConsistent (run_command c s)
run_command-IsConsistent (put a uri bytes size) s fits ok =
    storage_put-IsConsistent a uri bytes size s ok fits.0
run_command-IsConsistent (get_fd a uri) s fits ok = storage_get_fd-IsConsistent a uri s ok
run_command-IsConsistent (get_mmap a uri) s fits ok = storage_get_mmap-IsConsistent a uri s ok
run_command-IsConsistent (remove uri) s fits ok = storage_remove-IsConsistent uri s ok

-- Operations in any order, with any answers of the kernel, keep a consistent storage consistent.
-- The URIs that are put fit their slots.
pub run_commands-IsConsistent :
    (cs : List Command) (s : Storage) → Fits cs → IsConsistent s → IsConsistent (run_commands cs s)
unfolding run_commands
run_commands-IsConsistent [] s fits ok = ok
run_commands-IsConsistent (put a uri bytes size ∷ cs) s fits ok =
    run_commands-IsConsistent cs _ fits.1
      (run_command-IsConsistent (put a uri bytes size) s (fits.0, tt) ok)
run_commands-IsConsistent (get_fd a uri ∷ cs) s fits ok =
    run_commands-IsConsistent cs _ fits (run_command-IsConsistent (get_fd a uri) s tt ok)
run_commands-IsConsistent (get_mmap a uri ∷ cs) s fits ok =
    run_commands-IsConsistent cs _ fits (run_command-IsConsistent (get_mmap a uri) s tt ok)
run_commands-IsConsistent (remove uri ∷ cs) s fits ok =
    run_commands-IsConsistent cs _ fits (run_command-IsConsistent (remove uri) s tt ok)

-- After any operations on a new storage, in any order and with any answers of the kernel, the count
-- is that of the slots in use, it is at most the capacity, and a search finds exactly the slot that
-- holds a URI. The URIs that are put fit their slots.
pub find_slot-run_commands :
    (dir : List ℕ) (config : Config) (cs : List Command) (uri : List ℕ) (i : ℕ)
    → Fits cs
    → ((run_commands cs (opened_storage dir config)).count
        ≡ count_used (run_commands cs (opened_storage dir config)).objects)
      × ((count_used (run_commands cs (opened_storage dir config)).objects
            ≤ (run_commands cs (opened_storage dir config)).capacity)
          × ((find_slot (run_commands cs (opened_storage dir config)) uri ≡ some i)
              ↔ (slot_holds (run_commands cs (opened_storage dir config)).objects i uri ≡ true)))
find_slot-run_commands dir config cs uri i fits =
    let s = run_commands cs (opened_storage dir config) in
    let ok =
      run_commands-IsConsistent cs (opened_storage dir config) fits
        (opened_storage-IsConsistent dir config) in
    (
      ok.counted,
      (
        subst (λ n. count_used s.objects ≤ n) ok.slots (count_used-le s.objects),
        find_slot_iff s uri i ok.indexed,
      ),
    )
