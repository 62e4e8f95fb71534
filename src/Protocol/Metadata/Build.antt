-- ===== src/Protocol/Metadata/Build.antt =====
-- Building metadata entry by entry, and error responses.
use objmapper.Base.{
  ℕ, ◌+◌, ◌≤◌, ◌≡◌, refl, ap, ◌∙◌, Option, none, some, List, [], ◌∷◌, ◌++◌, length, drop, be, arith,
  All, length-be, length-append, append_assoc, take-append, drop-append, drop-drop, le→ltb_false,
  le→leb, length-drop,
}
use native.Mathlib.Nat.{add_assoc}
use objmapper.Protocol.Metadata.{Entry, write_at, metadata_add, metadata_parse}
use objmapper.Protocol.Metadata.Parse.{IsEntry, entry_wire, entries_wire, metadata_parse-wire}

write_at-append :
    (front back bytes : List ℕ)
    → length bytes ≤ length back
    → write_at (front ++ back) (length front) bytes
      ≡ some (front ++ (bytes ++ drop (length bytes) back))
unfolding write_at
write_at-append front back bytes h = rw (
  le→leb (length front + length bytes) (length (front ++ back))
      (omega (arith, length-append front back)),
  take-append (length front) front back refl,
  ← drop-drop (length front) (length bytes) (front ++ back),
  drop-append (length front) front back refl,
  append_assoc,
)

-- An entry that fits is written behind the `length front` bytes that are there.
pub metadata_add_lem :
    (front back : List ℕ) (e : Entry)
    → IsEntry e
    → length (entry_wire e) ≤ length back
    → metadata_add (front ++ back) (length front) e.type_id e.bytes
      ≡ some (
        length front + 3 + length e.bytes,
        front ++ (entry_wire e ++ drop (length (entry_wire e)) back),
      )
unfolding metadata_add
metadata_add_lem front back e w h = rw (
  le→ltb_false 65535 (length e.bytes) (omega (arith, w.len_fits, w.len_bytes)),
  write_at-append front back (entry_wire e) h,
)

regroup :
    (xs ys zs : List ℕ) {m n : ℕ}
    → m ≡ n
    → ◌≡◌ {A = Option (ℕ × List ℕ)} (some (m, xs ++ (ys ++ zs))) (some (n, (xs ++ ys) ++ zs))
regroup xs ys zs h = rw (h, append_assoc xs ys zs)

merge :
    (front xs ys back : List ℕ)
    → ◌≡◌ {A = Option (ℕ × List ℕ)}
        (some (
          length (front ++ xs) + length ys,
          (front ++ xs) ++ (ys ++ drop (length ys) (drop (length xs) back)),
        ))
        (some (
          length front + length (xs ++ ys),
          front ++ ((xs ++ ys) ++ drop (length (xs ++ ys)) back),
        ))
merge front xs ys back = simp (append_assoc, drop-drop, length-append, add_assoc)

added :
    (front back : List ℕ) (e : Entry)
    → IsEntry e
    → length (entry_wire e) ≤ length back
    → metadata_add (front ++ back) (length front) e.type_id e.bytes
      ≡ some (
        length (front ++ entry_wire e),
        (front ++ entry_wire e) ++ drop (length (entry_wire e)) back,
      )
added front back e w h =
    metadata_add_lem front back e w h
    ∙ regroup front (entry_wire e) (drop (length (entry_wire e)) back) (
        omega (
          arith,
          length-append front (entry_wire e),
          length-append (be 2 (length e.bytes)) e.bytes,
          length-be 2 (length e.bytes),
        ))

-- A caller that adds entry after entry, each at the length that the call before it returned.
pub add_entries : List Entry → ℕ → List ℕ → Option (ℕ × List ℕ)
add_entries [] n buf = some (n, buf)
add_entries (e ∷ es) n buf = elim (metadata_add buf n e.type_id e.bytes) [
  | none ↦ none
  | some (n', buf') ↦ add_entries es n' buf'
]

add_entries_lem :
    (es : List Entry) (front back : List ℕ)
    → All IsEntry es
    → length (entries_wire es) ≤ length back
    → add_entries es (length front) (front ++ back)
      ≡ some (
        length front + length (entries_wire es),
        front ++ (entries_wire es ++ drop (length (entries_wire es)) back),
      )
unfolding add_entries entries_wire
add_entries_lem [] front back ws h = ap (λ (k : ℕ). some (k, front ++ back)) (omega arith)
add_entries_lem (e ∷ es) front back (w, ws) h =
    let size = length-append (entry_wire e) (entries_wire es) in
    rw (added front back e w (omega (arith, size)), add_entries)
      (add_entries_lem es (front ++ entry_wire e) (drop (length (entry_wire e)) back) ws
          (omega (arith, size, length-drop (length (entry_wire e)) back))
        ∙ merge front (entry_wire e) (entries_wire es) back)

-- Entries that were added to a buffer in which they fit are parsed back: all, in order, with their
-- types, lengths and data. Each length fits in 16 bits and is that of the data.
pub metadata_parse-add_entries :
    (es : List Entry) (buf : List ℕ)
    → All IsEntry es
    → length (entries_wire es) ≤ length buf
    → (n : ℕ) × (out : List ℕ) × (add_entries es 0 buf ≡ some (n, out))
      × (metadata_parse out n ≡ es)
metadata_parse-add_entries es buf ws h = (
  length (entries_wire es),
  entries_wire es ++ drop (length (entries_wire es)) buf,
  add_entries_lem es [] buf ws h
      ∙ ap (λ (k : ℕ). some (k, entries_wire es ++ drop (length (entries_wire es)) buf))
          (omega arith),
  metadata_parse-wire es _ ws,
)
