-- ===== src/Protocol/Metadata.antt =====
-- lib/protocol/protocol.c, "Metadata utilities": entries of type(1) + length(2) + data in a
-- buffer, and objm_server_send_error, which adds one.
pub mod Parse
pub mod Build
pub mod Errors
use objmapper.Base.{
  ℕ, zero, suc, ◌+◌, Option, none, some, List, [], ◌∷◌, ◌++◌, length, take, drop, get_or, slice, be,
  of_be, ltb, leb, ◌==◌, if◌then◌else◌, replicate, ◌&&◌,
}
use objmapper.Protocol.Types.{Response, stuck, meta_size, meta_mtime, meta_backend}
use objmapper.Protocol.Io.{M}
use objmapper.Protocol.Response.{server_send_response}

-- objm_metadata_entry_t.
pub record Entry : Type 0 where
  pub type_id : ℕ
  pub len : ℕ
  pub bytes : List ℕ

-- The buffer of `malloc(estimated_size > 0 ? estimated_size : 128)`; its bytes read as 0.
unfoldable pub metadata_create : ℕ → List ℕ
metadata_create estimated_size = replicate (if ltb 0 estimated_size then estimated_size else 128) 0

-- The writes of an entry at `buf[at ..]`. `none`: a write behind the end of the buffer, which the
-- source does not test for.
write_at : List ℕ → ℕ → List ℕ → Option (List ℕ)
write_at buf at bytes =
    if leb (at + length bytes) (length buf)
    then some (take at buf ++ bytes ++ drop (at + length bytes) buf)
    else none

-- The new length (0 on an error) and the buffer.
unfoldable pub metadata_add : List ℕ → ℕ → ℕ → List ℕ → Option (ℕ × List ℕ)
unfolding write_at
metadata_add buf current_len type_id bytes =
    if ltb 65535 (length bytes)
    then some (0, buf)
    else elim (write_at buf current_len (type_id ∷ be 2 (length bytes) ++ bytes)) [
      | none ↦ none
      | some buf' ↦ some (current_len + 3 + length bytes, buf')
    ]

pub metadata_add_size : List ℕ → ℕ → ℕ → Option (ℕ × List ℕ)
unfolding metadata_add
metadata_add_size buf current_len size = metadata_add buf current_len meta_size (be 8 size)

pub metadata_add_mtime : List ℕ → ℕ → ℕ → Option (ℕ × List ℕ)
unfolding metadata_add
metadata_add_mtime buf current_len mtime = metadata_add buf current_len meta_mtime (be 8 mtime)

pub metadata_add_backend : List ℕ → ℕ → ℕ → Option (ℕ × List ℕ)
unfolding metadata_add
metadata_add_backend buf current_len backend_id =
    metadata_add buf current_len meta_backend (backend_id ∷ [])

-- The length field of the entry at an offset.
abbrev entry_len : List ℕ → ℕ → ℕ
entry_len md offset = of_be (slice (offset + 1) 2 md)

-- The first loop of objm_metadata_parse, on fuel; each round moves on by 3 at least.
count_entries : ℕ → List ℕ → ℕ → ℕ → ℕ → ℕ
count_entries zero md metadata_len offset count = count
count_entries (suc fuel) md metadata_len offset count =
    let rest =
      count_entries fuel md metadata_len (offset + (3 + entry_len md offset)) (suc count) in
    if leb (offset + 3) metadata_len
    then if ltb metadata_len (offset + 3 + entry_len md offset) then count else rest
    else count

-- The second loop: `remaining` is `count - idx`.
parse_entries : ℕ → List ℕ → ℕ → ℕ → List Entry
parse_entries zero md metadata_len offset = []
parse_entries (suc remaining) md metadata_len offset =
    let entry : Entry = record {
      type_id = get_or (drop offset md) 0 0;
      len = entry_len md offset;
      bytes = slice (offset + 3) (entry_len md offset) md;
    } in
    let rest = parse_entries remaining md metadata_len (offset + (3 + entry_len md offset)) in
    if leb (offset + 3) metadata_len then entry ∷ rest else []

unfoldable pub metadata_parse : List ℕ → ℕ → List Entry
unfolding count_entries parse_entries
metadata_parse md metadata_len =
    parse_entries (count_entries (suc metadata_len) md metadata_len 0 0) md metadata_len 0

-- The first entry of a type.
unfoldable pub metadata_get : List Entry → ℕ → Option Entry
metadata_get [] type_id = none
metadata_get (e ∷ es) type_id = if e.type_id == type_id then some e else metadata_get es type_id

-- The error text travels as metadata of type 0xFF. `stuck` would be a write behind the buffer.
unfoldable pub error_response : ℕ → ℕ → Option (ℕ × List ℕ) → Response
error_response request_id status md = record {
  request_id = request_id;
  status = status;
  fd = none;
  content_len = 0;
  metadata = elim md [ none ↦ none | some (len, buf) ↦ some buf ];
  metadata_len = elim md [ none ↦ 0 | some (len, buf) ↦ len ];
  error_msg = none;
}

unfoldable pub server_send_error : ℕ → ℕ → Option (List ℕ) → M (Unit {0})
unfolding error_response
server_send_error request_id status none =
    server_send_response (error_response request_id status none)
server_send_error request_id status (some msg) =
    elim (metadata_add (metadata_create (length msg + 10)) 0 0xFF msg) [
      | none ↦ λ c. (stuck, c)
      | some md ↦ server_send_response (error_response request_id status (some md))
    ]
