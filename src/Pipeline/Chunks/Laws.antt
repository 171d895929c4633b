-- ===== src/Pipeline/Chunks/Laws.antt =====
-- The chunks are the stream, cut into full chunks and a final one.
use bseal_cpp.Base.{
  ℕ, zero, suc, ◌+◌, ◌-◌, ◌≤◌, ◌<◌, ◌≡◌, refl, sym, ap, ◌∙◌, subst, min, true, false, ltb, ◌==◌,
  ==_iff, length, length-append, length-take, length-drop, take, drop, take-append-drop, List, [],
  ◌∷◌, ◌++◌, append_assoc, append-nil, Option, none, some, arith, Bool-cases, inl, inr,
}
use bseal_cpp.Pipeline.Chunks.{
  PlainChunk, Producer, add_call, flush_pending_as_non_final, rotate_full, space_left,
  append_rounds, append_record_bytes_to_chunks, append_records,
}

abbrev pub concat : List (List ℕ) → List ℕ
concat [] = []
concat (r ∷ rs) = r ++ concat rs

abbrev pub plaintext : List PlainChunk → List ℕ
plaintext [] = []
plaintext (c ∷ cs) = c.bytes ++ plaintext cs

-- Full chunks that are not final, numbered from an index on.
abbrev pub Full : ℕ → ℕ → List PlainChunk → Type 0
Full size i [] = Unit {0}
Full size i (c ∷ cs) =
    (c.index ≡ i) × (length c.bytes ≡ size) × (c.final_chunk ≡ false) × Full size (i + 1) cs

abbrev pub pending_bytes : Option (List ℕ) → List ℕ
pending_bytes none = []
pending_bytes (some b) = b

abbrev pub PendingFull : ℕ → Option (List ℕ) → Type 0
PendingFull size none = Unit {0}
PendingFull size (some b) = length b ≡ size

-- The state of the producer after the bytes `done`.
pub record Produced (size : ℕ) (done : List ℕ) (s : Producer) : Type 0 where
  pub bytes : done ≡ plaintext s.calls ++ (pending_bytes s.pending_full_chunk ++ s.current_chunk)
  pub full : Full size 0 s.calls
  pub count : s.next_chunk_index ≡ length s.calls
  pub pending : PendingFull size s.pending_full_chunk
  pub current : length s.current_chunk < size
  pub kept : s.pending_full_chunk ≡ none → s.calls ≡ []

pub plaintext-append :
    (xs ys : List PlainChunk) → plaintext (xs ++ ys) ≡ plaintext xs ++ plaintext ys
plaintext-append [] ys = refl
plaintext-append (x ∷ xs) ys =
    ap (λ t. x.bytes ++ t) (plaintext-append xs ys)
    ∙ sym (append_assoc x.bytes (plaintext xs) (plaintext ys))

pub Full-snoc :
    (size i : ℕ) (cs : List PlainChunk) (b : List ℕ)
    → Full size i cs
    → length b ≡ size
    → Full size i (cs ++ (record { index = i + length cs; bytes = b; final_chunk = false } ∷ []))
Full-snoc size i [] b f e = (omega arith, e, refl, tt)
Full-snoc size i (c ∷ cs) b f e =
    let (x, y, z, rest) = f in
    let place : i + 1 + length cs ≡ i + suc (length cs) = omega arith in
    (
      x,
      y,
      z,
      subst
          (λ k.
            Full size (i + 1) (cs ++ (record { index = k; bytes = b; final_chunk = false } ∷ [])))
          place (Full-snoc size (i + 1) cs b rest e),
    )

-- One more full chunk is calls, from the pending one.
pub flushed :
    (size : ℕ) (s : Producer)
    → Full size 0 s.calls
    → s.next_chunk_index ≡ length s.calls
    → PendingFull size s.pending_full_chunk
    → Full size 0 (flush_pending_as_non_final s).calls
      × ((flush_pending_as_non_final s).next_chunk_index
          ≡ length (flush_pending_as_non_final s).calls)
      × (plaintext (flush_pending_as_non_final s).calls
          ≡ plaintext s.calls ++ pending_bytes s.pending_full_chunk)
unfolding flush_pending_as_non_final add_call
flushed size s full count pending = go s.pending_full_chunk refl pending
  where
    go :
        (o : Option (List ℕ))
        → s.pending_full_chunk ≡ o
        → PendingFull size o
        → Full size 0 (flush_pending_as_non_final s).calls
          × ((flush_pending_as_non_final s).next_chunk_index
              ≡ length (flush_pending_as_non_final s).calls)
          × (plaintext (flush_pending_as_non_final s).calls
              ≡ plaintext s.calls ++ pending_bytes s.pending_full_chunk)
    go none e h =
        rw (e, flush_pending_as_non_final) (full, count, sym (append-nil (plaintext s.calls)))
    go (some b) e h =
        let place : 0 + length s.calls ≡ s.next_chunk_index = omega (arith, count) in
        let item : ℕ → PlainChunk = λ k. record { index = k; bytes = b; final_chunk = false } in
        rw (e, flush_pending_as_non_final)
          (
            subst (λ k. Full size 0 (s.calls ++ (item k ∷ []))) place
                (Full-snoc size 0 s.calls b full h),
            omega (arith, count, length-append s.calls (item s.next_chunk_index ∷ [])),
            plaintext-append s.calls (item s.next_chunk_index ∷ [])
                ∙ ap (λ t. plaintext s.calls ++ t) (append-nil b),
          )

rotated :
    (size : ℕ) (done more : List ℕ) (s : Producer)
    → 0 < size
    → Produced size done s
    → length s.current_chunk + length more ≤ size
    → Produced size
        (done ++ more)
        (rotate_full size (record s { current_chunk = s.current_chunk ++ more }))
unfolding rotate_full flush_pending_as_non_final add_call
rotated size done more s pos p fits =
    let grown = s.current_chunk ++ more in
    let bytes : done ++ more ≡ plaintext s.calls ++ (pending_bytes s.pending_full_chunk ++ grown) =
      ap {A = List ℕ} {B = List ℕ} (λ t. t ++ more) p.bytes
      ∙ append_assoc (plaintext s.calls) (pending_bytes s.pending_full_chunk ++ s.current_chunk)
          more
      ∙ ap (λ t. plaintext s.calls ++ t)
          (append_assoc (pending_bytes s.pending_full_chunk) s.current_chunk more) in
    elim (Bool-cases (length grown == size)) [
      | inr n ↦
          rw (n, rotate_full)
            (record {
              bytes = bytes;
              full = p.full;
              count = p.count;
              pending = p.pending;
              current = ground (arith, length-append s.current_chunk more);
              kept = p.kept;
            })
      | inl y ↦
          let (full, count, text) =
            flushed size (record s { current_chunk = grown }) p.full p.count p.pending in
          rw (y, rotate_full)
            (record {
              bytes =
                  bytes
                  ∙ sym
                      (append_assoc (plaintext s.calls) (pending_bytes s.pending_full_chunk) grown)
                  ∙ ap {A = List ℕ} {B = List ℕ} (λ t. t ++ grown) (sym text)
                  ∙ ap
                      (λ t.
                        plaintext
                          (flush_pending_as_non_final (record s { current_chunk = grown })).calls
                        ++ t)
                      (sym (append-nil grown));
              full = full;
              count = count;
              pending = (==_iff _ _).0 y;
              current = pos;
              kept = λ h. cc;
            })
    ]

rounds :
    (fuel size : ℕ) (done bytes : List ℕ) (s : Producer)
    → 0 < size
    → Produced size done s
    → length bytes ≤ fuel
    → Produced size (done ++ bytes) (append_rounds fuel size s bytes)
unfolding append_rounds space_left
rounds fuel size done [] s pos p h =
    subst (λ d. Produced size d (append_rounds fuel size s [])) (sym (append-nil done)) (stop fuel)
  where
    stop : (fuel : ℕ) → Produced size done (append_rounds fuel size s [])
    stop zero = p
    stop (suc n) = p
rounds zero size done (b ∷ bs) s pos p h = absurd (omega (arith, h))
rounds (suc fuel) size done (b ∷ bs) s pos p h =
    let bytes : List ℕ = b ∷ bs in
    let n : ℕ = min (length bytes) (size - length s.current_chunk) in
    let current = p.current in
    let front = length-take n bytes in
    let back = length-drop n bytes in
    let more : ltb 0 (length bytes) ≡ true = ground arith in
    let next = rotate_full size (record s { current_chunk = s.current_chunk ++ take n bytes }) in
    let whole : (done ++ take n bytes) ++ drop n bytes ≡ done ++ bytes =
      append_assoc done (take n bytes) (drop n bytes)
      ∙ ap (λ t. done ++ t) (take-append-drop n bytes) in
    rw (more, append_rounds)
      (subst (λ d. Produced size d (append_rounds fuel size next (drop n bytes))) whole
        (rounds fuel size (done ++ take n bytes) (drop n bytes) next pos
          (rotated size done (take n bytes) s pos p (omega (arith, front, current)))
          (omega (arith, back, current, h))))

pub all_records :
    (size : ℕ) (done : List ℕ) (records : List (List ℕ)) (s : Producer)
    → 0 < size
    → Produced size done s
    → Produced size (done ++ concat records) (append_records size s records)
unfolding append_records append_record_bytes_to_chunks
all_records size done [] s pos p = subst (λ d. Produced size d s) (sym (append-nil done)) p
all_records size done (r ∷ rs) s pos p =
    subst (λ d. Produced size d (append_records size (append_record_bytes_to_chunks size s r) rs))
      (append_assoc done r (concat rs))
      (all_records size (done ++ r) rs _ pos (rounds (length r) size done r s pos p (omega arith)))
