-- ===== src/Tests/Storage.antt =====
-- The theorems on lib/storage at concrete inputs.
use objmapper.Base.{ℕ, true, ◌≤◌, ◌≡◌, ◌≢◌, ◌↔◌, inl, some, List, [], ◌∷◌, refl, arith, length, ap}
use objmapper.Storage.Types.{Config, Storage, Answers, Info, done, failed, enoent}
use objmapper.Storage.Table.{find_slot, slot_holds}
use objmapper.Storage.Objects.{opened_storage, storage_put, storage_get_info, storage_remove}
use objmapper.Storage.Objects.Keeps.{count_used}
use objmapper.Storage.Objects.Consistent.{IsConsistent}
use objmapper.Storage.Objects.Dictionary.{
  storage_get_info-storage_put, storage_get_info-storage_put_other,
}
use objmapper.Storage.Objects.Dictionary.Removal.{
  outcome, storage_get_info-storage_remove, storage_get_info-storage_remove_other,
}
use objmapper.Storage.Objects.Runs.{
  Command, put, get_fd, get_mmap, remove, run_commands, Fits, opened_storage-IsConsistent,
  run_commands-IsConsistent, find_slot-run_commands,
}

-- "/s"
abbrev dir : List ℕ
dir = b'/' ∷ b's' ∷ []

abbrev config : Config
config = record {
  backing_dir = some dir;
  cache_dir = some (b'/' ∷ b'c' ∷ []);
  cache_limit = 100;
  hash_size = 4;
}

abbrev answers : Answers
answers = record { opened = some 5; written = some 3; duplicate = some 6; mapped = some 4096 }

abbrev first_uri : List ℕ
first_uri = b'a' ∷ []

abbrev second_uri : List ℕ
second_uri = b'b' ∷ b'b' ∷ []

abbrev content : List ℕ
content = 7 ∷ 8 ∷ 9 ∷ []

abbrev commands : List Command
commands =
    put answers first_uri content 3
    ∷ put answers second_uri content 3
    ∷ get_fd answers first_uri
    ∷ get_mmap answers first_uri
    ∷ remove second_uri
    ∷ []

commands-Fits : Fits commands
commands-Fits = (omega arith, (omega arith, tt))

abbrev new_storage : Storage
new_storage = opened_storage dir config

abbrev used_storage : Storage
used_storage = run_commands commands new_storage

used_storage-IsConsistent : IsConsistent used_storage
used_storage-IsConsistent =
    run_commands-IsConsistent commands new_storage commands-Fits
      (opened_storage-IsConsistent dir config)

differ : first_uri ≢ second_uri
differ e = let lengths = ap length e in omega (arith, lengths)

find_slot-run_commands_example :
    (used_storage.count ≡ count_used used_storage.objects)
    × ((count_used used_storage.objects ≤ used_storage.capacity)
        × ((find_slot used_storage first_uri ≡ some 0)
            ↔ (slot_holds used_storage.objects 0 first_uri ≡ true)))
find_slot-run_commands_example =
    find_slot-run_commands dir config commands first_uri 0 commands-Fits

storage_get_info-storage_put_example :
    ((storage_put answers first_uri content 3 new_storage).0 ≡ done tt)
    × ((info : Info) × ((storage_get_info first_uri
              (storage_put answers first_uri content 3 new_storage).1
            ≡ done info)
          × (info.size ≡ 3)))
unfolding opened_storage
storage_get_info-storage_put_example =
    storage_get_info-storage_put answers first_uri content 3 5 new_storage
      (opened_storage-IsConsistent dir config) (omega arith) (inl (omega arith)) refl refl

storage_get_info-storage_put_other_example :
    storage_get_info second_uri (storage_put answers first_uri content 3 used_storage).1
    ≡ storage_get_info second_uri used_storage
storage_get_info-storage_put_other_example =
    storage_get_info-storage_put_other answers first_uri content 3 used_storage second_uri
      used_storage-IsConsistent (omega arith) differ

storage_get_info-storage_remove_example :
    ((storage_remove first_uri used_storage).0 ≡ outcome (storage_get_info first_uri used_storage))
    × (storage_get_info first_uri (storage_remove first_uri used_storage).1 ≡ failed enoent)
storage_get_info-storage_remove_example =
    storage_get_info-storage_remove first_uri used_storage used_storage-IsConsistent

storage_get_info-storage_remove_other_example :
    storage_get_info second_uri (storage_remove first_uri used_storage).1
    ≡ storage_get_info second_uri used_storage
storage_get_info-storage_remove_other_example =
    storage_get_info-storage_remove_other first_uri used_storage second_uri
      used_storage-IsConsistent differ
