-- ===== src/Endian/Inverse.antt =====
-- From what a read returned back to the bytes that it consumed.
use bseal_cpp.Base.{
  ltb, ◌&&◌, ℕ, zero, suc, ◌+◌, ◌*◌, ◌^◌, ◌<◌, ◌≡◌, refl, subst, Bool, true, false, List, [], ◌∷◌,
  ◌++◌, get_or, length, length-take, take, take-append-drop, drop, String, Result, ok, err, arith,
  reject_if,
}
use bseal_cpp.Endian.{
  Parser, ◌>>=◌, ◌>>◌, lift, read_bytes, read_u16_le, read_u32_le, read_u64_le, AreBytes,
  sum_bytes_le,
}
use bseal_cpp.Endian.Laws.{le16, le32, le64}

-- A parse that returns meets the condition; one that throws owes nothing.
abbrev pub Holds : {A : Type 0} → (A → List ℕ → Type 0) → Result (A × List ℕ) → Type 0
Holds P (ok (a, r)) = P a r
Holds P (err e) = Unit

pub Holds-bind :
    {A B : Type 0} (P : A → List ℕ → Type 0) (Q : B → List ℕ → Type 0) (m : Parser A)
    (f : A → Parser B) (r : List ℕ)
    → Holds P (m r)
    → ((a : A) (r' : List ℕ) → P a r' → Holds Q (f a r'))
    → Holds Q ((m >>= f) r)
unfolding ◌>>=◌
Holds-bind {A} {B} P Q m f r = go (m r)
  where
    go :
        (q : Result (A × List ℕ))
        → Holds P q
        → ((a : A) (r' : List ℕ) → P a r' → Holds Q (f a r'))
        → Holds Q (elim q [ err e ↦ err e | ok (a, r') ↦ f a r' ])
    go (ok (a, s)) h k = k a s h
    go (err x) h k = tt

pub bind_reject :
    {B : Type 0} (Q : B → List ℕ → Type 0) (test : Bool) (message : String) (k : Parser B)
    (r : List ℕ)
    → (test ≡ false → Holds Q (k r))
    → Holds Q ((lift (reject_if test message) >> k) r)
unfolding ◌>>◌
bind_reject Q true message k r h = tt
bind_reject Q false message k r h = h refl

pub Holds-map :
    {A : Type 0} (P Q : A → List ℕ → Type 0) (q : Result (A × List ℕ))
    → Holds P q
    → ((a : A) (r : List ℕ) → P a r → Holds Q (ok (a, r)))
    → Holds Q q
Holds-map P Q (ok (a, r)) h k = k a r h
Holds-map P Q (err e) h k = tt

pub Holds_elim :
    {A : Type 0} (P : A → List ℕ → Type 0) (q : Result (A × List ℕ)) {a : A} {r : List ℕ}
    → Holds P q
    → q ≡ ok (a, r)
    → P a r
Holds_elim P q h e = subst (Holds P) e h

-- The bytes in front are those that were read, and bytes are left.
abbrev pub Took : List ℕ → List ℕ → List ℕ → Type 0
Took r xs rest = (r ≡ xs ++ rest) × AreBytes rest

drop-AreBytes : (n : ℕ) (r : List ℕ) → AreBytes r → AreBytes (drop n r)
drop-AreBytes zero r h = h
drop-AreBytes (suc n) [] h = h
drop-AreBytes (suc n) (b ∷ bs) h = drop-AreBytes n bs h.1

pub take-AreBytes : (n : ℕ) (r : List ℕ) → AreBytes r → AreBytes (take n r)
take-AreBytes zero r h = tt
take-AreBytes (suc n) [] h = h
take-AreBytes (suc n) (b ∷ bs) h = (h.0, take-AreBytes n bs h.1)

pub AreBytes-append : (xs ys : List ℕ) → AreBytes (xs ++ ys) → AreBytes xs × AreBytes ys
AreBytes-append [] ys h = (tt, h)
AreBytes-append (x ∷ xs) ys h = let (a, b) = AreBytes-append xs ys h.1 in ((h.0, a), b)

pub read_bytes-Holds :
    (message : String) (n : ℕ) (r : List ℕ)
    → AreBytes r
    → Holds (λ xs rest. Took r xs rest × (length xs ≡ n) × AreBytes xs) (read_bytes message n r)
unfolding read_bytes
read_bytes-Holds message n r h =
    ground (arith, take-append-drop n r, length-take n r, drop-AreBytes n r h, take-AreBytes n r h)

pub AreBytes-join : (xs ys : List ℕ) → AreBytes xs → AreBytes ys → AreBytes (xs ++ ys)
AreBytes-join [] ys a b = b
AreBytes-join (x ∷ xs) ys a b = (a.0, AreBytes-join xs ys a.1 b)

pub bind_read_bytes :
    {B : Type 0} (Q : B → List ℕ → Type 0) (message : String) (n : ℕ) (f : List ℕ → Parser B)
    (r : List ℕ)
    → AreBytes r
    → ((xs r' : List ℕ)
        → r ≡ xs ++ r'
        → length xs ≡ n
        → AreBytes xs
        → AreBytes r'
        → Holds Q (f xs r'))
    → Holds Q ((read_bytes message n >>= f) r)
bind_read_bytes Q message n f r h k =
    Holds-bind _ Q (read_bytes message n) f r (read_bytes-Holds message n r h)
      λ xs r' ((e, b), len, x). k xs r' e len x b

-- Blocks of known length.
block16 :
    (xs : List ℕ)
    → AreBytes xs
    → length xs ≡ 2
    → (xs ≡ le16 (get_or xs 0 0 + get_or xs 1 0 * 2 ^ 8))
      × (get_or xs 0 0 + get_or xs 1 0 * 2 ^ 8 < 2 ^ 16)
block16 (a ∷ b ∷ []) h len = ground arith
block16 [] h len = absurd (omega arith)
block16 (a ∷ []) h len = absurd (omega arith)
block16 (a ∷ b ∷ c ∷ xs) h len = absurd (omega arith)

block32 :
    (xs : List ℕ)
    → AreBytes xs
    → length xs ≡ 4
    → (xs ≡ le32 (sum_bytes_le 0 xs)) × (sum_bytes_le 0 xs < 2 ^ 32)
unfolding sum_bytes_le
block32 (a ∷ b ∷ c ∷ d ∷ []) h len = ground arith
block32 [] h len = absurd (omega arith)
block32 (a ∷ []) h len = absurd (omega arith)
block32 (a ∷ b ∷ []) h len = absurd (omega arith)
block32 (a ∷ b ∷ c ∷ []) h len = absurd (omega arith)
block32 (a ∷ b ∷ c ∷ d ∷ e ∷ xs) h len = absurd (omega arith)

block64 :
    (xs : List ℕ)
    → AreBytes xs
    → length xs ≡ 8
    → (xs ≡ le64 (sum_bytes_le 0 xs)) × (sum_bytes_le 0 xs < 2 ^ 64)
unfolding sum_bytes_le
block64 (a ∷ b ∷ c ∷ d ∷ e ∷ f ∷ g ∷ i ∷ []) h len = ground arith
block64 [] h len = absurd (omega arith)
block64 (a ∷ []) h len = absurd (omega arith)
block64 (a ∷ b ∷ []) h len = absurd (omega arith)
block64 (a ∷ b ∷ c ∷ []) h len = absurd (omega arith)
block64 (a ∷ b ∷ c ∷ d ∷ []) h len = absurd (omega arith)
block64 (a ∷ b ∷ c ∷ d ∷ e ∷ []) h len = absurd (omega arith)
block64 (a ∷ b ∷ c ∷ d ∷ e ∷ f ∷ []) h len = absurd (omega arith)
block64 (a ∷ b ∷ c ∷ d ∷ e ∷ f ∷ g ∷ []) h len = absurd (omega arith)
block64 (a ∷ b ∷ c ∷ d ∷ e ∷ f ∷ g ∷ i ∷ j ∷ xs) h len = absurd (omega arith)

read_u16_le-Holds :
    (message : String) (r : List ℕ)
    → AreBytes r
    → Holds (λ v rest. Took r (le16 v) rest × (v < 2 ^ 16)) (read_u16_le message r)
unfolding read_u16_le
read_u16_le-Holds message r h =
    bind_read_bytes _ message 2 _ r h λ xs r' e len x b. ground (arith, block16 xs x len)

pub bind_read_u16 :
    {B : Type 0} (Q : B → List ℕ → Type 0) (message : String) (f : ℕ → Parser B) (r : List ℕ)
    → AreBytes r
    → ((v : ℕ) (r' : List ℕ) → r ≡ le16 v ++ r' → v < 2 ^ 16 → AreBytes r' → Holds Q (f v r'))
    → Holds Q ((read_u16_le message >>= f) r)
bind_read_u16 Q message f r h k =
    Holds-bind _ Q (read_u16_le message) f r (read_u16_le-Holds message r h)
      λ v r' ((e, b), fits). k v r' e fits b

read_u32_le-Holds :
    (message : String) (r : List ℕ)
    → AreBytes r
    → Holds (λ v rest. Took r (le32 v) rest × (v < 2 ^ 32)) (read_u32_le message r)
unfolding read_u32_le
read_u32_le-Holds message r h =
    bind_read_bytes _ message 4 _ r h λ xs r' e len x b. ground (arith, block32 xs x len)

pub bind_read_u32 :
    {B : Type 0} (Q : B → List ℕ → Type 0) (message : String) (f : ℕ → Parser B) (r : List ℕ)
    → AreBytes r
    → ((v : ℕ) (r' : List ℕ) → r ≡ le32 v ++ r' → v < 2 ^ 32 → AreBytes r' → Holds Q (f v r'))
    → Holds Q ((read_u32_le message >>= f) r)
bind_read_u32 Q message f r h k =
    Holds-bind _ Q (read_u32_le message) f r (read_u32_le-Holds message r h)
      λ v r' ((e, b), fits). k v r' e fits b

read_u64_le-Holds :
    (message : String) (r : List ℕ)
    → AreBytes r
    → Holds (λ v rest. Took r (le64 v) rest × (v < 2 ^ 64)) (read_u64_le message r)
unfolding read_u64_le
read_u64_le-Holds message r h =
    bind_read_bytes _ message 8 _ r h λ xs r' e len x b. ground (arith, block64 xs x len)

pub bind_read_u64 :
    {B : Type 0} (Q : B → List ℕ → Type 0) (message : String) (f : ℕ → Parser B) (r : List ℕ)
    → AreBytes r
    → ((v : ℕ) (r' : List ℕ) → r ≡ le64 v ++ r' → v < 2 ^ 64 → AreBytes r' → Holds Q (f v r'))
    → Holds Q ((read_u64_le message >>= f) r)
bind_read_u64 Q message f r h k =
    Holds-bind _ Q (read_u64_le message) f r (read_u64_le-Holds message r h)
      λ v r' ((e, b), fits). k v r' e fits b

-- A test of AreBytes, for concrete bytes.
abbrev pub all_bytes : List ℕ → Bool
all_bytes [] = true
all_bytes (b ∷ bs) = ltb b 256 && all_bytes bs

pub are_bytes : (bs : List ℕ) → all_bytes bs ≡ true → AreBytes bs
are_bytes [] h = tt
are_bytes (b ∷ bs) h = ground (arith, are_bytes bs)
