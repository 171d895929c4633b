-- ===== src/Endian/Laws.antt =====
-- What the appends write, and that the reads read it back.
use bseal_cpp.Base.{
  ℕ, ◌/◌, ◌%◌, ◌^◌, ◌<◌, ◌≡◌, refl, ap, subst, append-nil, List, [], ◌∷◌, ◌++◌, length,
  length-append, take, drop, String, Result, ok, append_assoc, arith,
}
use bseal_cpp.Endian.{
  append_u8, append_u16_le, append_u32_le, append_u64_le, append_i64_le, append_bytes, Parser,
  ◌>>=◌, ◌>>◌, lift, read_bytes, read_u8, read_u16_le, read_u32_le, read_u64_le,
}

abbrev pub le16 : ℕ → List ℕ
le16 v = v % 256 ∷ v / 2 ^ 8 % 256 ∷ []

abbrev pub le32 : ℕ → List ℕ
le32 v = v / 2 ^ 0 % 256 ∷ v / 2 ^ 8 % 256 ∷ v / 2 ^ 16 % 256 ∷ v / 2 ^ 24 % 256 ∷ []

abbrev pub le64 : ℕ → List ℕ
le64 v =
    v / 2 ^ 0 % 256
    ∷ v / 2 ^ 8 % 256
    ∷ v / 2 ^ 16 % 256
    ∷ v / 2 ^ 24 % 256
    ∷ v / 2 ^ 32 % 256
    ∷ v / 2 ^ 40 % 256
    ∷ v / 2 ^ 48 % 256
    ∷ v / 2 ^ 56 % 256
    ∷ []

pub append_u8_lem : (out : List ℕ) (v : ℕ) → append_u8 out v ≡ out ++ (v ∷ [])
unfolding append_u8
append_u8_lem out v = refl

pub append_u16_le_lem : (out : List ℕ) (v : ℕ) → append_u16_le out v ≡ out ++ le16 v
unfolding append_u16_le
append_u16_le_lem out v = simp append_assoc

pub append_u32_le_lem : (out : List ℕ) (v : ℕ) → append_u32_le out v ≡ out ++ le32 v
unfolding append_u32_le
append_u32_le_lem out v = simp append_assoc

pub append_u64_le_lem : (out : List ℕ) (v : ℕ) → append_u64_le out v ≡ out ++ le64 v
unfolding append_u64_le
append_u64_le_lem out v = simp append_assoc

pub append_i64_le_lem : (out : List ℕ) (v : ℕ) → append_i64_le out v ≡ out ++ le64 v
unfolding append_i64_le
append_i64_le_lem out v = append_u64_le_lem out v

pub append_bytes_lem : (out bs : List ℕ) → append_bytes out bs ≡ out ++ bs
unfolding append_bytes
append_bytes_lem out bs = refl

pub take-append : (xs rest : List ℕ) → take (length xs) (xs ++ rest) ≡ xs
take-append [] rest = refl
take-append (x ∷ xs) rest = ap (λ t. x ∷ t) (take-append xs rest)

pub drop-append : (xs rest : List ℕ) → drop (length xs) (xs ++ rest) ≡ rest
drop-append [] rest = refl
drop-append (x ∷ xs) rest = drop-append xs rest

pub take-block : (n : ℕ) (xs rest : List ℕ) → length xs ≡ n → take n (xs ++ rest) ≡ xs
take-block n xs rest e = rw (← e) (take-append xs rest)

-- Steps of a parse that succeed.
pub bind_step :
    {A B : Type 0} (m : Parser A) (f : A → Parser B) {r r' : List ℕ} {a : A}
    → m r ≡ ok (a, r')
    → (m >>= f) r ≡ f a r'
unfolding ◌>>=◌
bind_step m f e = rw (e, ◌>>=◌)

pub then_step :
    {B : Type 0} (m : Parser (Unit {0})) (k : Parser B) {r r' : List ℕ}
    → m r ≡ ok (tt, r')
    → (m >> k) r ≡ k r'
unfolding ◌>>◌
then_step m k e = rw (e, ◌>>◌)

pub lift_ok : {A : Type 0} (m : Result A) {a : A} (r : List ℕ) → m ≡ ok a → lift m r ≡ ok (a, r)
lift_ok m r e = rw (e, lift)

-- read_bytes takes the block in front, whatever follows.
pub read_bytes-append :
    (message : String) (xs rest : List ℕ) (n : ℕ)
    → length xs ≡ n
    → read_bytes message n (xs ++ rest) ≡ ok (xs, rest)
unfolding read_bytes
read_bytes-append message xs rest n e =
    rw (← e, take-append xs rest, drop-append xs rest) (ground (arith, length-append xs rest))

pub read_bytes_all :
    (message : String) (xs : List ℕ) → read_bytes message (length xs) xs ≡ ok (xs, [])
read_bytes_all message xs =
    subst (λ ys. read_bytes message (length xs) ys ≡ ok (xs, [])) (append-nil xs)
      (read_bytes-append message xs [] (length xs) refl)

pub read_u8-append :
    (message : String) (v : ℕ) (rest : List ℕ) → read_u8 message (v ∷ rest) ≡ ok (v, rest)
unfolding read_u8
read_u8-append message v rest = ground (arith, read_bytes-append message (v ∷ []) rest 1)

pub read_u16_le-append :
    (message : String) (v : ℕ) (rest : List ℕ)
    → v < 2 ^ 16
    → read_u16_le message (le16 v ++ rest) ≡ ok (v, rest)
unfolding read_u16_le
read_u16_le-append message v rest h = ground (arith, read_bytes-append message (le16 v) rest 2)

pub read_u32_le-append :
    (message : String) (v : ℕ) (rest : List ℕ)
    → v < 2 ^ 32
    → read_u32_le message (le32 v ++ rest) ≡ ok (v, rest)
unfolding read_u32_le
read_u32_le-append message v rest h = ground (arith, read_bytes-append message (le32 v) rest 4)

pub read_u64_le-append :
    (message : String) (v : ℕ) (rest : List ℕ)
    → v < 2 ^ 64
    → read_u64_le message (le64 v ++ rest) ≡ ok (v, rest)
unfolding read_u64_le
read_u64_le-append message v rest h = ground (arith, read_bytes-append message (le64 v) rest 8)
