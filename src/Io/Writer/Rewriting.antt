-- ===== src/Io/Writer/Rewriting.antt =====
-- rewrite_shard_header (io/ShardWriter.cpp) succeeds and replaces the shard header only.
use bseal_cpp.Base.{
  ℕ, zero, suc, ◌+◌, ◌-◌, ◌^◌, ◌<◌, ◌≡◌, refl, ◌∙◌, ap, false, le→ltb_false, ◌==◌, length, take,
  drop, take-append_le, replicate, List, [], ◌∷◌, ◌++◌, append_assoc, Option, some, ok, arith,
}
use bseal_cpp.Frame.Global.Layout.{global_bytes}
use bseal_cpp.Frame.{
  default_shard_header, GlobalPublicHeaderV1, ShardPublicHeaderV1, GlobalFits, ShardFits,
}
use bseal_cpp.Frame.Shard.Laws.{shard_bytes, serialize_shard-eq, length-shard_bytes}
use bseal_cpp.Frame.Mac.{compute_shard_header_mac, header_mac_domain}
use bseal_cpp.Frame.Mac.Laws.{header_message-eq, without_mac}
use bseal_cpp.Io.Writer.{FinalizedShard}
use bseal_cpp.Io.Writer.Shards.{header_of, overwrite, rewrite_shard_header}

-- HMAC returns 32 bytes under every key that the writer gives it.
pub record Keyed (hmac_sha256 : List ℕ → List ℕ → Option (List ℕ)) (key : List ℕ) : Type 0 where
  pub some_key : 0 < length key
  pub small_key : length key < 2 ^ 31
  pub mac : List ℕ → List ℕ
  pub mac_is : (message : List ℕ) → hmac_sha256 key message ≡ some (mac message)
  pub mac_size : (message : List ℕ) → length (mac message) ≡ 32

-- What the C++ types guarantee of a finalized shard.
pub record FinalizedFits (s : FinalizedShard) : Type 0 where
  pub index_fits : s.shard_index < 2 ^ 32
  pub first_fits : s.first_chunk_index < 2 ^ 64
  pub count_fits : s.chunk_count < 2 ^ 64
  pub payload_fits : s.payload_len < 2 ^ 64

pub drop_past : (n : ℕ) (xs ys : List ℕ) → length xs ≡ n → drop n (xs ++ ys) ≡ ys
drop_past zero [] ys e = refl
drop_past zero (x ∷ xs) ys e = absurd (omega (arith, e))
drop_past (suc n) [] ys e = absurd (omega (arith, e))
drop_past (suc n) (x ∷ xs) ys e = drop_past n xs ys (omega (arith, e))

-- The header of a finalized shard, with a MAC.
abbrev pub sealed_header : FinalizedShard → List ℕ → ShardPublicHeaderV1
sealed_header s mac =
    record (header_of s.shard_index s.first_chunk_index s.chunk_count s.payload_len) {
      header_mac = mac;
    }

pub sealed_header-ShardFits :
    (s : FinalizedShard) (mac : List ℕ)
    → FinalizedFits s
    → length mac ≡ 32
    → ShardFits (sealed_header s mac)
sealed_header-ShardFits s mac f e = record {
  shard_magic_size = refl;
  shard_header_len_fits = omega arith;
  shard_index_fits = f.index_fits;
  first_global_chunk_index_fits = f.first_fits;
  shard_chunk_count_fits = f.count_fits;
  shard_payload_len_fits = f.payload_fits;
  header_mac_size = e;
  reserved0_fits = omega arith;
}

unsealed :
    (s : FinalizedShard)
    → header_of s.shard_index s.first_chunk_index s.chunk_count s.payload_len
      ≡ sealed_header s (replicate 32 0)
unfolding default_shard_header
unsealed s = refl

pub overwrite-append :
    (bytes head rest : List ℕ) (offset : ℕ)
    → length head ≡ offset + length bytes
    → overwrite offset bytes (head ++ rest) ≡ (take offset head ++ bytes) ++ rest
unfolding overwrite
overwrite-append bytes head rest offset e =
    rw
      (
        take-append_le offset head rest (omega (arith, e)),
        drop_past (offset + length bytes) head rest e,
        append_assoc (take offset head) bytes rest,
      )
      refl

module _ (hmac_sha256 : List ℕ → List ℕ → Option (List ℕ)) (key : List ℕ)
    (global : GlobalPublicHeaderV1) (keyed : Keyed hmac_sha256 key) (fits : GlobalFits global) where
  -- The MAC that is stored.
  pub mac_of : FinalizedShard → List ℕ
  mac_of s = keyed.mac (
      header_mac_domain
      ++ global_bytes global (shard_bytes (without_mac (sealed_header s (replicate 32 0))) []))

  pub length-mac_of : (s : FinalizedShard) → length (mac_of s) ≡ 32
  unfolding mac_of
  length-mac_of s = keyed.mac_size _

  pub computed :
      (s : FinalizedShard)
      → FinalizedFits s
      → compute_shard_header_mac hmac_sha256 key global (sealed_header s (replicate 32 0))
        ≡ ok (mac_of s)
  unfolding compute_shard_header_mac mac_of
  computed s f =
      let message =
        header_mac_domain
        ++ global_bytes global (shard_bytes (without_mac (sealed_header s (replicate 32 0))) []) in
      rw
        (
          nonempty key keyed.some_key,
          header_message-eq header_mac_domain global (sealed_header s (replicate 32 0)) fits
              (sealed_header-ShardFits s (replicate 32 0) f refl),
          le→ltb_false (2 ^ 31 - 1) (length key) (omega (arith, keyed.small_key)),
          keyed.mac_is message,
          keyed.mac_size message,
          compute_shard_header_mac,
        )
        refl
    where
      nonempty : (key : List ℕ) → 0 < length key → (length key == 0) ≡ false
      nonempty key h = ground arith

  pub rewrite_ok :
      (s : FinalizedShard) (head rest : List ℕ)
      → FinalizedFits s
      → s.content ≡ head ++ rest
      → length head ≡ 272
      → rewrite_shard_header hmac_sha256 key global s
        ≡ ok (record s {
          content = (take 192 head ++ shard_bytes (sealed_header s (mac_of s)) []) ++ rest;
        })
  unfolding rewrite_shard_header
  rewrite_ok s head rest f e size =
      let sealed_fits = sealed_header-ShardFits s (mac_of s) f (length-mac_of s) in
      let written : overwrite 192 (shard_bytes (sealed_header s (mac_of s)) []) s.content
          ≡ (take 192 head ++ shard_bytes (sealed_header s (mac_of s)) []) ++ rest =
        ap (overwrite 192 (shard_bytes (sealed_header s (mac_of s)) [])) e
        ∙ overwrite-append (shard_bytes (sealed_header s (mac_of s)) []) head rest 192
            (omega (arith, size, length-shard_bytes (sealed_header s (mac_of s)) [] sealed_fits)) in
      rw
        (
          ap (compute_shard_header_mac hmac_sha256 key global) (unsealed s) ∙ computed s f,
          serialize_shard-eq (sealed_header s (mac_of s)) sealed_fits,
          written,
          rewrite_shard_header,
        )
        refl
