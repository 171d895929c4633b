-- ===== src/Archive/Record/Laws.antt =====
-- Records: round trip, and what an incremental reader may rely on.
use bseal_cpp.Base.{
  ℕ, ◌+◌, ◌<◌, ◌≤◌, ◌^◌, ◌≡◌, refl, sym, ap, ◌∙◌, subst, List, [], ◌∷◌, ◌++◌, length, length-append,
  length-drop, ◌≢◌, true, ◌==◌, ==_iff, drop, get_or, append_assoc, append-nil, take-append_le,
  drop-append_le, none, some, ok, arith, le→ltb_false,
}
use bseal_cpp.Endian.Laws.{
  le64, append_u8_lem, append_u64_le_lem, append_bytes_lem, bind_step, then_step, read_u8-append,
  read_u64_le-append, read_bytes_all, lift_ok,
}
use bseal_cpp.Endian.{sum_bytes_le}
use bseal_cpp.Archive.Record.{
  RecordType, ArchiveRecord, type_byte, record_type_of, checked_record_type, serialize_record,
  encoded_record_size_if_complete, read_record, parse_record, max_record_payload_bytes,
  declared_payload_size, complete_size, truncated_record, require_eof, is_exactly,
}

pub record_bytes :
    (r : ArchiveRecord)
    → serialize_record r ≡ type_byte r.type ∷ (le64 (length r.payload) ++ r.payload)
unfolding serialize_record
record_bytes r = simp (append_u8_lem, append_u64_le_lem, append_bytes_lem, append_assoc)

pub length-serialize_record :
    (r : ArchiveRecord) → length (serialize_record r) ≡ 9 + length r.payload
length-serialize_record r = rw record_bytes (omega arith)

checked-type_byte : (t : RecordType) → checked_record_type (type_byte t) ≡ ok t
unfolding checked_record_type type_byte record_type_of
checked-type_byte RecordType.archive_begin = refl
checked-type_byte _ = refl

declared-record_bytes :
    (b : ℕ) (n : ℕ) (t : List ℕ) → n < 2 ^ 64 → declared_payload_size (b ∷ (le64 n ++ t)) ≡ n
unfolding declared_payload_size sum_bytes_le
declared-record_bytes b n t h = omega arith

-- The answer on a buffer whose prefix is known.
encoded_some :
    (bytes : List ℕ) (t : RecordType) (n : ℕ)
    → checked_record_type (get_or bytes 0 0) ≡ ok t
    → declared_payload_size bytes ≡ n
    → n ≤ max_record_payload_bytes
    → 9 + n ≤ length bytes
    → encoded_record_size_if_complete bytes ≡ ok (some (9 + n))
unfolding encoded_record_size_if_complete
encoded_some bytes t n e d le long =
    rw (le→ltb_false (length bytes) 9 (omega arith), e, encoded_record_size_if_complete)
      (rw (d, complete_size) (ground arith))

-- The size that encoded_record_size_if_complete reports once a whole record is there, whatever
-- follows it in the buffer.
pub encoded_size-serialize :
    (r : ArchiveRecord) (rest : List ℕ)
    → length r.payload ≤ max_record_payload_bytes
    → encoded_record_size_if_complete (serialize_record r ++ rest)
      ≡ ok (some (9 + length r.payload))
encoded_size-serialize r rest h = rw record_bytes (
    encoded_some _ r.type (length r.payload) (checked-type_byte r.type)
      (rw (append_assoc (le64 (length r.payload)) r.payload rest) (
        declared-record_bytes (type_byte r.type) (length r.payload) (r.payload ++ rest)
          (omega arith)))
      h (omega (arith, length-append r.payload rest)))

read_record-serialize :
    (r : ArchiveRecord) → length r.payload < 2 ^ 64 → read_record (serialize_record r) ≡ ok (r, [])
unfolding read_record require_eof
read_record-serialize r h = rw record_bytes (
    bind_step _ _ (read_u8-append truncated_record (type_byte r.type) _)
    ∙ bind_step _ _ (lift_ok _ _ (checked-type_byte r.type))
    ∙ bind_step _ _ (read_u64_le-append truncated_record (length r.payload) r.payload h)
    ∙ bind_step _ _ (read_bytes_all truncated_record r.payload)
    ∙ then_step _ _ refl)

-- parse_record reads back what serialize_record wrote, for every payload of at most 128 MiB.
pub parse-serialize_record :
    (r : ArchiveRecord)
    → length r.payload ≤ max_record_payload_bytes
    → parse_record (serialize_record r) ≡ ok r
unfolding parse_record is_exactly
parse-serialize_record r h =
    let size : encoded_record_size_if_complete (serialize_record r)
        ≡ ok (some (9 + length r.payload)) =
      subst (λ b. encoded_record_size_if_complete b ≡ ok (some (9 + length r.payload)))
        (append-nil (serialize_record r)) (encoded_size-serialize r [] h) in
    let exact : (9 + length r.payload == length (serialize_record r)) ≡ true =
      (==_iff _ _).1 (sym (length-serialize_record r)) in
    rw (size, exact, read_record-serialize r (omega arith), parse_record)

declared-append :
    (p q : List ℕ) → 9 ≤ length p → declared_payload_size (p ++ q) ≡ declared_payload_size p
unfolding declared_payload_size
declared-append p q h =
    rw (drop-append_le 1 p q (omega arith))
      (ap (sum_bytes_le 0) (take-append_le 8 (drop 1 p) q (omega (arith, length-drop 1 p))))

complete_size_extend :
    (p q : List ℕ)
    → 9 ≤ length p
    → complete_size p ≢ ok none
    → complete_size (p ++ q) ≡ complete_size p
unfolding complete_size
complete_size_extend p q h n = ground (arith, declared-append p q h, length-append p q)

get_or-append : (p q : List ℕ) → 1 ≤ length p → get_or (p ++ q) 0 0 ≡ get_or p 0 0
get_or-append [] q h = absurd (omega arith)
get_or-append (x ∷ p) q h = refl

-- Once encoded_record_size_if_complete has an answer, a size or an exception, more bytes behind
-- the buffer do not change it.
pub encoded_size_extend :
    (p q : List ℕ)
    → encoded_record_size_if_complete p ≢ ok none
    → encoded_record_size_if_complete (p ++ q) ≡ encoded_record_size_if_complete p
unfolding encoded_record_size_if_complete
encoded_size_extend p q n =
    ground (arith, get_or-append p q, length-append p q, declared-append p q)

-- A size that it reports is that of bytes which are there, and at least the prefix.
pub encoded_size_bounds :
    (p : List ℕ) (size : ℕ)
    → encoded_record_size_if_complete p ≡ ok (some size)
    → (9 ≤ size) × (size ≤ length p)
unfolding encoded_record_size_if_complete complete_size
encoded_size_bounds p size e = ground arith
