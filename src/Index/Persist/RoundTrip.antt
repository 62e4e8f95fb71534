-- ===== src/Index/Persist/RoundTrip.antt =====
-- An index file that is saved is read back.
pub mod Files
pub mod Loading
pub mod Growth
pub mod Whole
use objmapper.Base.{
  ℕ, zero, suc, ◌+◌, ◌-◌, ◌%◌, ◌^◌, ◌≤◌, ◌<◌, ◌≡◌, ◌≢◌, refl, sym, ap, subst, ◌∙◌, inl, inr, Bool,
  true, false, not, Option, none, some, List, [], ◌∷◌, ◌++◌, append_assoc, append-nil, map, length,
  length-append, take, drop, take-append, drop-append, take_short, take_all, ltb, leb, le→leb,
  le→ltb_false, ◌==◌, bytes_eq, bytes_eq_self, slice, if◌then◌else◌, if_eq_true, if_eq_false, arith,
  All,
}
use objmapper.Base.Little.{le, of_le, length-le, of_le-le}
use objmapper.Index.Entry.{Entry, Memory, index_entry_create}
use objmapper.Index.Tables.{BackendIndex}
use objmapper.Index.Persist.{
  header_bytes, index_magic, index_version, string_bytes, entry_bytes, entries_bytes,
  bucket_entries, file_bytes, SaveAnswers, backend_index_save, read_exact, read_over, c_string,
  read_text, read_string, read_path, read_uri, read_entry, read_entries, stored_entry, insert_all,
  load_body, load_header, backend_index_load,
}

pub read_exact-append :
    (n : ℕ) (xs ys : List ℕ) → length xs ≡ n → read_exact n (xs ++ ys) ≡ some (xs, ys)
unfolding read_exact
read_exact-append n xs ys h =
    if_eq_true (leb n (length (xs ++ ys))) _ _
      (le→leb n (length (xs ++ ys)) (omega (arith, h, length-append xs ys)))
    ∙ ap (λ zs. some (zs, drop n (xs ++ ys))) (take-append n xs ys h)
    ∙ ap (λ zs. some (xs, zs)) (drop-append n xs ys h)

-- A text of at most 65535 bytes is read back.
read_string-append :
    (text rest : List ℕ)
    → length text < 2 ^ 16
    → read_string (string_bytes text ++ rest) ≡ some (text, rest)
unfolding read_string string_bytes
read_string-append text rest h =
    let len = length text % 2 ^ 16 in
    let whole : len ≡ length text = omega (arith, h) in
    let read = take len text ++ rest in
    let regroup : (le 2 len ++ take len text) ++ rest ≡ le 2 len ++ (take len text ++ rest) =
      append_assoc (le 2 len) (take len text) rest in
    ap read_string regroup
    ∙ ap read_text (read_exact-append 2 (le 2 len) read (length-le 2 len))
    ∙ ap (λ n. read_exact n read) (of_le-le 2 len (omega (arith, h)) ∙ whole)
    ∙ ap (λ n. read_exact (length text) (take n text ++ rest)) whole
    ∙ ap (λ zs. read_exact (length text) (zs ++ rest)) (take_all (length text) text refl)
    ∙ read_exact-append (length text) text rest refl

drop_past : (n : ℕ) (xs : List ℕ) → length xs ≤ n → drop n xs ≡ []
drop_past zero [] h = refl
drop_past zero (x ∷ xs) h = absurd (omega arith)
drop_past (suc n) [] h = refl
drop_past (suc n) (x ∷ xs) h = drop_past n xs (omega arith)

take_bounded : (n : ℕ) (xs : List ℕ) → length (take n xs) ≤ n
take_bounded zero xs = omega arith
take_bounded (suc n) [] = omega arith
take_bounded (suc n) (x ∷ xs) = omega (arith, take_bounded n xs)

read_over-append :
    (n : ℕ) (stale xs ys : List ℕ) → length xs ≡ n → read_over n stale (xs ++ ys) ≡ xs
unfolding read_over
read_over-append n stale xs ys h =
    ap (λ zs. zs ++ drop (length zs) (take n stale)) (take-append n xs ys h)
    ∙ ap (λ k. xs ++ drop k (take n stale)) h
    ∙ ap (λ zs. xs ++ zs) (drop_past n (take n stale) (take_bounded n stale))
    ∙ append-nil xs

-- An entry whose fields fit the file.
pub record IsStored (e : Entry) : Type 0 where
  pub uri_fits : length e.uri < 2 ^ 16
  pub path_fits : length e.backend_path < 2 ^ 16
  pub uri_text : c_string e.uri ≡ e.uri
  pub path_text : c_string e.backend_path ≡ e.backend_path
  pub size_fits : e.size_bytes < 2 ^ 64
  pub mtime_fits : e.mtime < 2 ^ 64
  pub flags_fit : e.flags < 2 ^ 32

-- What of an entry is read back: its texts and its numbers, in a new entry of the backend.
unfoldable pub restored : ℕ → Entry → Entry
restored backend_id e = record (index_entry_create e.uri backend_id e.backend_path) {
  size_bytes = e.size_bytes;
  mtime = e.mtime;
  flags = e.flags;
}

module _ (stale rest : List ℕ) (e : Entry) (ok : IsStored e) where
  numbers : List ℕ
  numbers = (le 8 e.size_bytes ++ (le 8 e.mtime ++ le 4 e.flags)) ++ rest

  numbers_flat : numbers ≡ le 8 e.size_bytes ++ (le 8 e.mtime ++ (le 4 e.flags ++ rest))
  unfolding numbers
  numbers_flat =
      append_assoc (le 8 e.size_bytes) (le 8 e.mtime ++ le 4 e.flags) rest
      ∙ ap (λ zs. le 8 e.size_bytes ++ zs) (append_assoc (le 8 e.mtime) (le 4 e.flags) rest)

  size_read : of_le (read_over 8 stale numbers) ≡ e.size_bytes
  size_read =
      ap (λ zs. of_le (read_over 8 stale zs)) numbers_flat
      ∙ ap of_le (read_over-append 8 stale (le 8 e.size_bytes) _ (length-le 8 e.size_bytes))
      ∙ of_le-le 8 e.size_bytes ok.size_fits

  mtime_read : of_le (read_over 8 (drop 8 stale) (drop 8 numbers)) ≡ e.mtime
  mtime_read =
      ap (λ zs. of_le (read_over 8 (drop 8 stale) (drop 8 zs))) numbers_flat
      ∙ ap (λ zs. of_le (read_over 8 (drop 8 stale) zs))
          (drop-append 8 (le 8 e.size_bytes) _ (length-le 8 e.size_bytes))
      ∙ ap of_le (read_over-append 8 (drop 8 stale) (le 8 e.mtime) _ (length-le 8 e.mtime))
      ∙ of_le-le 8 e.mtime ok.mtime_fits

  flags_read : of_le (read_over 4 (drop 16 stale) (drop 16 numbers)) ≡ e.flags
  flags_read =
      ap (λ zs. of_le (read_over 4 (drop 16 stale) (drop 16 zs)))
        (numbers_flat
          ∙ sym (append_assoc (le 8 e.size_bytes) (le 8 e.mtime) (le 4 e.flags ++ rest)))
      ∙ ap (λ zs. of_le (read_over 4 (drop 16 stale) zs))
          (drop-append 16 (le 8 e.size_bytes ++ le 8 e.mtime) _ (
            length-append (le 8 e.size_bytes) (le 8 e.mtime)
            ∙ omega (arith, length-le 8 e.size_bytes, length-le 8 e.mtime)))
      ∙ ap of_le (read_over-append 4 (drop 16 stale) (le 4 e.flags) rest (length-le 4 e.flags))
      ∙ of_le-le 4 e.flags ok.flags_fit

  numbers_past : drop 20 numbers ≡ rest
  unfolding numbers
  numbers_past = drop-append 20 (le 8 e.size_bytes ++ (le 8 e.mtime ++ le 4 e.flags)) rest (
      length-append (le 8 e.size_bytes) (le 8 e.mtime ++ le 4 e.flags)
      ∙ omega (
        arith,
        length-append (le 8 e.mtime) (le 4 e.flags),
        length-le 8 e.size_bytes,
        length-le 8 e.mtime,
        length-le 4 e.flags,
      ))

  stored_entry-numbers :
      (backend_id : ℕ)
      → stored_entry stale backend_id e.uri e.backend_path numbers ≡ restored backend_id e
  unfolding stored_entry restored
  stored_entry-numbers backend_id =
      simp (ok.uri_text, ok.path_text, size_read, mtime_read, flags_read)

  pub read_entry-append :
      (backend_id : ℕ)
      → read_entry stale backend_id (entry_bytes e ++ rest) ≡ some (restored backend_id e, rest)
  unfolding read_entry read_uri read_path entry_bytes numbers
  read_entry-append backend_id =
      let path = string_bytes e.backend_path in
      let tail = le 8 e.size_bytes ++ (le 8 e.mtime ++ le 4 e.flags) in
      ap (read_entry stale backend_id) (
        append_assoc (string_bytes e.uri) (path ++ tail) rest
        ∙ ap (λ zs. string_bytes e.uri ++ zs) (append_assoc path tail rest))
      ∙ ap (read_uri stale backend_id)
          (read_string-append e.uri (path ++ (tail ++ rest)) ok.uri_fits)
      ∙ ap (read_path stale backend_id e.uri)
          (read_string-append e.backend_path (tail ++ rest) ok.path_fits)
      ∙ ap (λ x. some (x, drop 20 numbers)) (stored_entry-numbers backend_id)
      ∙ ap (λ zs. some (restored backend_id e, zs)) numbers_past
