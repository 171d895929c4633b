-- ===== src/Archive/Record/Sound.antt =====
-- parse_record accepts the serialised form of the record that it returns, and nothing else.
use bseal_cpp.Base.{
  ℕ, ◌≡◌, refl, sym, ap, ◌∙◌, ◌==◌, List, [], ◌∷◌, ◌++◌, length, get_or, String, Result, ok, err,
  arith, Result-cases, Bool-cases, inl, inr, ok_injective, err_not_ok, append-nil, length_zero,
  ==_iff,
}
use bseal_cpp.Endian.{AreBytes, Parser, ◌>>=◌, ◌>>◌, lift, read_u8}
use bseal_cpp.Endian.Laws.{le64}
use bseal_cpp.Endian.Inverse.{Holds, Holds-bind, Holds_elim, bind_read_bytes, bind_read_u64}
use bseal_cpp.Archive.Record.{
  RecordType, ArchiveRecord, type_byte, record_type_of, checked_record_type, serialize_record,
  encoded_record_size_if_complete, require_eof, truncated_record, read_record, parse_record,
  is_exactly,
}
use bseal_cpp.Archive.Record.Laws.{record_bytes}

type_byte-checked : (v : ℕ) (t : RecordType) → checked_record_type v ≡ ok t → type_byte t ≡ v
unfolding checked_record_type record_type_of type_byte
type_byte-checked v t e = ground arith

one_byte : (xs : List ℕ) → length xs ≡ 1 → xs ≡ get_or xs 0 0 ∷ []
one_byte (x ∷ []) e = refl
one_byte [] e = absurd (omega arith)
one_byte (x ∷ y ∷ xs) e = absurd (omega arith)

read_u8-Holds :
    (message : String) (r : List ℕ)
    → AreBytes r
    → Holds (λ v rest. (r ≡ v ∷ rest) × AreBytes rest) (read_u8 message r)
unfolding read_u8
read_u8-Holds message r h = bind_read_bytes _ message 1 _ r h λ xs r' e len x b.
    (e ∙ ap {A = List ℕ} {B = List ℕ} (λ front. front ++ r') (one_byte xs len), b)

bind_lift :
    {A B : Type 0} (Q : B → List ℕ → Type 0) (q : Result A) (f : A → Parser B) (r : List ℕ)
    → ((a : A) → q ≡ ok a → Holds Q (f a r))
    → Holds Q ((lift q >>= f) r)
unfolding ◌>>=◌
bind_lift Q (ok a) f r k = k a refl
bind_lift Q (err e) f r k = tt

bind_eof :
    {B : Type 0} (Q : B → List ℕ → Type 0) (message : String) (k : Parser B) (r : List ℕ)
    → (r ≡ [] → Holds Q (k r))
    → Holds Q ((require_eof message >> k) r)
unfolding require_eof ◌>>◌
bind_eof Q message k r h = elim (Bool-cases (length r == 0)) [
  | inl y ↦ rw (y, require_eof, Holds, ◌>>◌) (h (length_zero r ((==_iff _ _).0 y)))
  | inr n ↦ rw (n, require_eof, Holds, ◌>>◌) tt
]

pub RecordRead : List ℕ → ArchiveRecord → List ℕ → Type 0
RecordRead bytes r rest = (serialize_record r ≡ bytes) × AreBytes r.payload

read_record_sound : (bytes : List ℕ) → AreBytes bytes → Holds (RecordRead bytes) (read_record bytes)
unfolding read_record RecordRead
read_record_sound bytes are =
    let Q = RecordRead bytes in
    Holds-bind _ Q (read_u8 truncated_record) _ bytes (read_u8-Holds truncated_record bytes are)
      λ value r0 (e0, b0). bind_lift Q (checked_record_type value) _ r0 λ type t.
        bind_read_u64 Q truncated_record _ r0 b0 λ size r1 e1 f1 b1.
          bind_read_bytes Q truncated_record size _ r1 b1 λ payload r2 e2 len x b2.
            bind_eof Q _ _ r2 λ nil. (
              record_bytes (record { type = type; payload = payload })
                  ∙ rw (type_byte-checked value type t, len)
                      (sym (
                        e0
                        ∙ ap (λ r. value ∷ r)
                            (e1
                              ∙ ap (λ r. le64 size ++ r)
                                  (e2 ∙ ap (λ r. payload ++ r) nil ∙ append-nil payload)))),
              x,
            )

value_of :
    (q : Result (ArchiveRecord × List ℕ)) (r : ArchiveRecord)
    → (elim q [ err e ↦ err e | ok (r, _) ↦ ok r ]) ≡ ok r
    → (rest : List ℕ) × (q ≡ ok (r, rest))
value_of (err x) r e = cc
value_of (ok (r', rest)) r e = (rest, ap (λ x. ok (x, rest)) (ok_injective e))

parse_record_reads :
    (bytes : List ℕ) (r : ArchiveRecord)
    → parse_record bytes ≡ ok r
    → (rest : List ℕ) × (read_record bytes ≡ ok (r, rest))
unfolding parse_record
parse_record_reads bytes r e = elim (Result-cases (encoded_record_size_if_complete bytes)) [
  | inr (x, q) ↦ absurd (err_not_ok (rw (q, parse_record) at e))
  | inl (complete, q) ↦ elim (Bool-cases (is_exactly complete (length bytes))) [
    | inr n ↦ absurd (err_not_ok (rw (q, n, parse_record) at e))
    | inl y ↦ value_of (read_record bytes) r (rw (q, y, parse_record) at e)
  ]
]

-- The bytes that parse_record accepts are exactly what serialize_record writes for the record
-- that it returns.
pub parse_record_sound :
    (bytes : List ℕ) (r : ArchiveRecord)
    → AreBytes bytes
    → parse_record bytes ≡ ok r
    → (serialize_record r ≡ bytes) × AreBytes r.payload
unfolding parse_record RecordRead
parse_record_sound bytes r are e =
    let (rest, q) = parse_record_reads bytes r e in
    Holds_elim (RecordRead bytes) (read_record bytes) (read_record_sound bytes are) q
