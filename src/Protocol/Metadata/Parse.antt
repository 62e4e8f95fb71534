-- ===== src/Protocol/Metadata/Parse.antt =====
-- Entries that were added are parsed back.
use objmapper.Base.{
  ℕ, zero, suc, ◌+◌, ◌^◌, ◌≤◌, ◌<◌, ◌≡◌, refl, ap, ◌∙◌, List, [], ◌∷◌, ◌++◌, length, drop, get_or,
  slice, be, arith, All, length-be, of_be-be, length-append, append_assoc, take-append, drop-append,
  drop-drop, leb, le→ltb_false, le→leb, false,
}
use objmapper.Protocol.Metadata.{Entry, entry_len, count_entries, parse_entries, metadata_parse}

-- The length field has 16 bits and is the length of the data.
pub record IsEntry (e : Entry) : Type 0 where
  pub len_fits : e.len < 2 ^ 16
  pub len_bytes : length e.bytes ≡ e.len

abbrev pub entry_wire : Entry → List ℕ
entry_wire e = e.type_id ∷ be 2 (length e.bytes) ++ e.bytes

unfoldable pub entries_wire : List Entry → List ℕ
entries_wire [] = []
entries_wire (e ∷ es) = entry_wire e ++ entries_wire es

length-entry_wire : (e : Entry) → length (entry_wire e) ≡ 3 + length e.bytes
length-entry_wire e =
    omega (arith, length-append (be 2 (length e.bytes)) e.bytes, length-be 2 (length e.bytes))

-- The fields of the entry that stands at an offset, and what follows it.
entry_at :
    (md : List ℕ) (offset : ℕ) (e : Entry) (more : List ℕ)
    → IsEntry e
    → drop offset md ≡ entry_wire e ++ more
    → (entry_len md offset ≡ e.len)
      × (get_or (drop offset md) 0 0 ≡ e.type_id)
      × (slice (offset + 3) e.len md ≡ e.bytes)
      × (drop (offset + (3 + e.len)) md ≡ more)
unfolding be
entry_at md offset e more w h = (
  rw (← drop-drop offset 1 md, h)
      (of_be-be 2 (length e.bytes) (omega (arith, w.len_fits, w.len_bytes)) ∙ w.len_bytes),
  rw h,
  rw (← drop-drop offset 3 md, h) (take-append e.len e.bytes more w.len_bytes),
  rw (← drop-drop offset (3 + e.len) md, h, ← drop-drop 3 e.len (entry_wire e ++ more))
      (drop-append e.len e.bytes more w.len_bytes),
)

count_entries_step :
    (fuel : ℕ) (md : List ℕ) (metadata_len offset count : ℕ)
    → offset + 3 + entry_len md offset ≤ metadata_len
    → count_entries (suc fuel) md metadata_len offset count
      ≡ count_entries fuel md metadata_len (offset + (3 + entry_len md offset)) (suc count)
unfolding count_entries
count_entries_step fuel md metadata_len offset count h = rw (
  le→leb (offset + 3) metadata_len (omega arith),
  le→ltb_false metadata_len (offset + 3 + entry_len md offset) h,
)

count_entries_stop :
    (fuel : ℕ) (md : List ℕ) (metadata_len offset count : ℕ)
    → metadata_len < offset + 3
    → count_entries (suc fuel) md metadata_len offset count ≡ count
unfolding count_entries
count_entries_stop fuel md metadata_len offset count h =
    let stop : leb (offset + 3) metadata_len ≡ false = ground arith in rw stop

parse_entries_step :
    (remaining : ℕ) (md : List ℕ) (metadata_len offset : ℕ) (e : Entry)
    → offset + 3 ≤ metadata_len
    → entry_len md offset ≡ e.len
    → get_or (drop offset md) 0 0 ≡ e.type_id
    → slice (offset + 3) e.len md ≡ e.bytes
    → parse_entries (suc remaining) md metadata_len offset
      ≡ e ∷ parse_entries remaining md metadata_len (offset + (3 + e.len))
unfolding parse_entries
parse_entries_step remaining md metadata_len offset e h l t b =
    rw (le→leb (offset + 3) metadata_len h, l, t, b)

count_entries-wire :
    (fuel : ℕ) (es : List Entry) (md tail : List ℕ) (metadata_len offset count : ℕ)
    → All IsEntry es
    → drop offset md ≡ entries_wire es ++ tail
    → metadata_len ≡ offset + length (entries_wire es)
    → length (entries_wire es) < fuel
    → count_entries fuel md metadata_len offset count ≡ count + length es
unfolding entries_wire
count_entries-wire zero es md tail metadata_len offset count ws d l h = absurd (omega arith)
count_entries-wire (suc fuel) [] md tail metadata_len offset count ws d l h =
    count_entries_stop fuel md metadata_len offset count (omega arith) ∙ omega arith
count_entries-wire (suc fuel) (e ∷ es) md tail metadata_len offset count (w, ws) d l h =
    let (len, _, _, next) =
      entry_at md offset e (entries_wire es ++ tail) w
        (d ∙ append_assoc (entry_wire e) (entries_wire es) tail) in
    let size = length-append (entry_wire e) (entries_wire es) in
    let size' = length-entry_wire e in
    count_entries_step fuel md metadata_len offset count
      (omega (arith, w.len_bytes, len, size, size', l))
    ∙ rw len (
        count_entries-wire fuel es md tail metadata_len (offset + (3 + e.len)) (suc count) ws next
          (omega (arith, size, size', w.len_bytes)) (omega (arith, size, size'))
        ∙ omega arith)

parse_entries-wire :
    (es : List Entry) (md tail : List ℕ) (metadata_len offset : ℕ)
    → All IsEntry es
    → drop offset md ≡ entries_wire es ++ tail
    → offset + length (entries_wire es) ≤ metadata_len
    → parse_entries (length es) md metadata_len offset ≡ es
unfolding entries_wire
parse_entries-wire [] md tail metadata_len offset ws d h = unfold parse_entries in refl
parse_entries-wire (e ∷ es) md tail metadata_len offset (w, ws) d h =
    let (len, type_id, bytes, next) =
      entry_at md offset e (entries_wire es ++ tail) w
        (d ∙ append_assoc (entry_wire e) (entries_wire es) tail) in
    let size = length-append (entry_wire e) (entries_wire es) in
    let size' = length-entry_wire e in
    parse_entries_step (length es) md metadata_len offset e (omega (arith, size, size')) len type_id
      bytes
    ∙ ap (◌∷◌ e) (
        parse_entries-wire es md tail metadata_len (offset + (3 + e.len)) ws next
          (omega (arith, size, size', w.len_bytes)))

-- The parser returns the entries whose bytes stand first in the buffer, where the length covers
-- just these.
pub metadata_parse-wire :
    (es : List Entry) (tail : List ℕ)
    → All IsEntry es
    → metadata_parse (entries_wire es ++ tail) (length (entries_wire es)) ≡ es
unfolding metadata_parse
metadata_parse-wire es tail ws =
    rw
      (count_entries-wire (suc (length (entries_wire es))) es (entries_wire es ++ tail) tail
        (length (entries_wire es)) 0 0 ws refl (omega arith) (omega arith))
      (let n : 0 + length es ≡ length es = omega arith in
        rw n (parse_entries-wire es (entries_wire es ++ tail) tail _ 0 ws refl (omega arith)))
