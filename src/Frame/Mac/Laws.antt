-- ===== src/Frame/Mac/Laws.antt =====
-- What the header MAC and the header hash bind.
use bseal_cpp.Base.{
  ℕ, ◌≡◌, refl, sym, ap, ◌∙◌, subst, true, length, arith, List, [], ◌∷◌, ◌++◌, replicate,
  append_assoc, Option, Result, ok, err, ok_injective, ◌>>=◌, ◌↔◌,
}
use bseal_cpp.Frame.{
  GlobalPublicHeaderV1, ShardPublicHeaderV1, GlobalFits, ShardFits, global_header_v1_magic,
  shard_header_v1_magic, default_shard_header,
}
use bseal_cpp.Frame.Bytes.{equal_bytes, equal_bytes_refl, equal_bytes→eq}
use bseal_cpp.Frame.Global.{read_global}
use bseal_cpp.Frame.Global.Layout.{global_bytes, serialize_global-eq, length-global_bytes}
use bseal_cpp.Frame.Global.RoundTrip.{read_global_lem}
use bseal_cpp.Frame.Shard.{serialize_shard_public_header_for_mac, read_shard}
use bseal_cpp.Frame.Shard.Laws.{shard_bytes, serialize_shard-eq, read_shard_lem}
use bseal_cpp.Frame.Mac.{header_message, compute_shard_header_mac, verify_shard_header_mac}

-- The shard header as the MAC sees it.
abbrev pub without_mac : ShardPublicHeaderV1 → ShardPublicHeaderV1
without_mac s = record s { header_mac = replicate 32 0 }

without_mac-ShardFits : (s : ShardPublicHeaderV1) → ShardFits s → ShardFits (without_mac s)
without_mac-ShardFits s f = record {
  shard_magic_size = f.shard_magic_size;
  shard_header_len_fits = f.shard_header_len_fits;
  shard_index_fits = f.shard_index_fits;
  first_global_chunk_index_fits = f.first_global_chunk_index_fits;
  shard_chunk_count_fits = f.shard_chunk_count_fits;
  shard_payload_len_fits = f.shard_payload_len_fits;
  header_mac_size = refl;
  reserved0_fits = f.reserved0_fits;
}

global_bytes-append :
    (g : GlobalPublicHeaderV1) (rest : List ℕ) → global_bytes g [] ++ rest ≡ global_bytes g rest
global_bytes-append g rest = simp append_assoc

pub header_message-eq :
    (domain : List ℕ) (g : GlobalPublicHeaderV1) (s : ShardPublicHeaderV1)
    → GlobalFits g
    → ShardFits s
    → header_message domain g s ≡ ok (domain ++ global_bytes g (shard_bytes (without_mac s) []))
unfolding header_message serialize_shard_public_header_for_mac
header_message-eq domain g s gf sf = rw (
  serialize_global-eq g gf,
  serialize_shard-eq (without_mac s) (without_mac-ShardFits s sf),
  global_bytes-append g (shard_bytes (without_mac s) []),
)

append_cancel : (xs : List ℕ) {ys zs : List ℕ} → xs ++ ys ≡ xs ++ zs → ys ≡ zs
append_cancel [] e = e
append_cancel (x ∷ xs) e = append_cancel xs (cc)

-- Two pieces of the same length in front of two lists.
append_split :
    (n : ℕ) (xs ys xs' ys' : List ℕ)
    → length xs ≡ n
    → length xs' ≡ n
    → xs ++ ys ≡ xs' ++ ys'
    → (xs ≡ xs') × (ys ≡ ys')
append_split n [] ys [] ys' a b e = (refl, e)
append_split n [] ys (x' ∷ xs') ys' a b e = absurd (omega (arith, a, b))
append_split n (x ∷ xs) ys [] ys' a b e = absurd (omega (arith, a, b))
append_split n (x ∷ xs) ys (x' ∷ xs') ys' a b e =
    let head : x ≡ x' = cc in
    let (front, back) = append_split (length xs) xs ys xs' ys' refl (omega (arith, a, b)) (cc) in
    (cc, back)

-- For headers with the magic of the format.
same_headers :
    (g g' : GlobalPublicHeaderV1) (s s' : ShardPublicHeaderV1)
    → GlobalFits g
    → GlobalFits g'
    → ShardFits s
    → ShardFits s'
    → g.magic ≡ global_header_v1_magic
    → g'.magic ≡ global_header_v1_magic
    → s.shard_magic ≡ shard_header_v1_magic
    → s'.shard_magic ≡ shard_header_v1_magic
    → (global_bytes g [] ≡ global_bytes g' [])
    → (shard_bytes s [] ≡ shard_bytes s' [])
    → (g ≡ g') × (s ≡ s')
same_headers g g' s s' gf gf' sf sf' gm gm' sm sm' ge se =
    let globals : (g, []) ≡ (g', []) =
      ok_injective
        (sym (read_global_lem g [] gf gm) ∙ ap read_global ge ∙ read_global_lem g' [] gf' gm') in
    let shards : (s, []) ≡ (s', []) = ok_injective (
      sym (read_shard_lem default_shard_header s [] sf sm)
      ∙ ap (read_shard default_shard_header) se
      ∙ read_shard_lem default_shard_header s' [] sf' sm') in
    (ap (λ p. p.0) globals, ap (λ p. p.0) shards)

-- The headers with the magic of the format in place of their own.
with_global_magic : GlobalPublicHeaderV1 → GlobalPublicHeaderV1
with_global_magic g = record g { magic = global_header_v1_magic }

with_shard_magic : ShardPublicHeaderV1 → ShardPublicHeaderV1
with_shard_magic s = record s { shard_magic = shard_header_v1_magic }

with_global_magic-GlobalFits :
    (g : GlobalPublicHeaderV1) → GlobalFits g → GlobalFits (with_global_magic g)
unfolding with_global_magic
with_global_magic-GlobalFits g f = record {
  magic_size = refl;
  format_major_fits = f.format_major_fits;
  format_minor_fits = f.format_minor_fits;
  global_header_len_fits = f.global_header_len_fits;
  shard_header_len_fits = f.shard_header_len_fits;
  frame_header_len_fits = f.frame_header_len_fits;
  global_flags_fits = f.global_flags_fits;
  archive_id_size = f.archive_id_size;
  aead_alg_id_fits = f.aead_alg_id_fits;
  kdf_alg_id_fits = f.kdf_alg_id_fits;
  hash_alg_id_fits = f.hash_alg_id_fits;
  mac_alg_id_fits = f.mac_alg_id_fits;
  kdf_salt_size = f.kdf_salt_size;
  argon2_version_fits = f.argon2_version_fits;
  argon2_memory_kib_fits = f.argon2_memory_kib_fits;
  argon2_iterations_fits = f.argon2_iterations_fits;
  argon2_parallelism_fits = f.argon2_parallelism_fits;
  chunk_plain_size_fits = f.chunk_plain_size_fits;
  shard_count_fits = f.shard_count_fits;
  global_chunk_count_fits = f.global_chunk_count_fits;
  padded_plaintext_size_fits = f.padded_plaintext_size_fits;
  final_plaintext_chunk_len_fits = f.final_plaintext_chunk_len_fits;
  padding_policy_id_fits = f.padding_policy_id_fits;
  reserved0_fits = f.reserved0_fits;
  padding_policy_value_fits = f.padding_policy_value_fits;
  max_shard_payload_len_fits = f.max_shard_payload_len_fits;
  required_feature_flags_fits = f.required_feature_flags_fits;
  reserved1_size = f.reserved1_size;
}

with_shard_magic-ShardFits :
    (s : ShardPublicHeaderV1) → ShardFits s → ShardFits (with_shard_magic s)
unfolding with_shard_magic
with_shard_magic-ShardFits s f = record {
  shard_magic_size = refl;
  shard_header_len_fits = f.shard_header_len_fits;
  shard_index_fits = f.shard_index_fits;
  first_global_chunk_index_fits = f.first_global_chunk_index_fits;
  shard_chunk_count_fits = f.shard_chunk_count_fits;
  shard_payload_len_fits = f.shard_payload_len_fits;
  header_mac_size = f.header_mac_size;
  reserved0_fits = f.reserved0_fits;
}

-- The bytes that are hashed and authenticated determine the whole global header and the whole shard
-- header, but for its MAC: a change of any other field of either header changes the message.
pub header_message_injective :
    (domain : List ℕ) (g g' : GlobalPublicHeaderV1) (s s' : ShardPublicHeaderV1)
    → GlobalFits g
    → GlobalFits g'
    → ShardFits s
    → ShardFits s'
    → header_message domain g s ≡ header_message domain g' s'
    → (g ≡ g') × (without_mac s ≡ without_mac s')
unfolding with_global_magic with_shard_magic
header_message_injective domain g g' s s' gf gf' sf sf' e =
    let w = without_mac s in
    let w' = without_mac s' in
    let wf = without_mac-ShardFits s sf in
    let wf' = without_mac-ShardFits s' sf' in
    let whole : global_bytes g (shard_bytes w []) ≡ global_bytes g' (shard_bytes w' []) =
      append_cancel domain (
        ok_injective (
          sym (header_message-eq domain g s gf sf) ∙ e ∙ header_message-eq domain g' s' gf' sf')) in
    let (globals, shards) =
      append_split 192 (global_bytes g []) (shard_bytes w []) (global_bytes g' [])
        (shard_bytes w' []) (omega (arith, length-global_bytes g [] gf))
        (omega (arith, length-global_bytes g' [] gf'))
        (global_bytes-append g (shard_bytes w [])
          ∙ whole
          ∙ sym (global_bytes-append g' (shard_bytes w' []))) in
    let (magic, behind) =
      append_split 8 g.magic _ g'.magic _ gf.magic_size gf'.magic_size globals in
    let (shard_magic, shard_behind) =
      append_split 8 w.shard_magic _ w'.shard_magic _ wf.shard_magic_size wf'.shard_magic_size
        shards in
    let (same, shard_same) =
      same_headers (with_global_magic g) (with_global_magic g') (with_shard_magic w)
        (with_shard_magic w') (with_global_magic-GlobalFits g gf)
        (with_global_magic-GlobalFits g' gf') (with_shard_magic-ShardFits w wf)
        (with_shard_magic-ShardFits w' wf') refl refl refl refl
        (ap (λ l. global_header_v1_magic ++ l) behind)
        (ap (λ l. shard_header_v1_magic ++ l) shard_behind) in
    (
      ap {A = GlobalPublicHeaderV1} {B = GlobalPublicHeaderV1} (λ h. record h { magic = g.magic })
            same
          ∙ ap (λ (m : List ℕ). record g' { magic = m }) magic,
      ap {A = ShardPublicHeaderV1} {B = ShardPublicHeaderV1}
            (λ h. record h { shard_magic = w.shard_magic }) shard_same
          ∙ ap (λ (m : List ℕ). record w' { shard_magic = m }) shard_magic,
    )

compare_iff :
    (q : Result (List ℕ)) (m : List ℕ) → ((q >>= λ e. ok (equal_bytes e m)) ≡ ok true) ↔ (q ≡ ok m)
compare_iff (ok x) m = (
  λ e. ap ok (equal_bytes→eq x m (ok_injective e)),
  λ e. ap ok (subst (λ y. equal_bytes y m ≡ true) (sym (ok_injective e)) (equal_bytes_refl m)),
)
compare_iff (err x) m = (λ e. cc, λ e. cc)

module _ (hmac_sha256 : List ℕ → List ℕ → Option (List ℕ)) where
  -- The MAC does not depend on the MAC field, and verification accepts a shard header exactly when
  -- that field holds what compute_shard_header_mac returns for the two headers.
  pub verify_iff_computed :
      (key : List ℕ) (g : GlobalPublicHeaderV1) (s : ShardPublicHeaderV1) (m : List ℕ)
      → (verify_shard_header_mac hmac_sha256 key g (record s { header_mac = m }) ≡ ok true)
        ↔ (compute_shard_header_mac hmac_sha256 key g s ≡ ok m)
  unfolding verify_shard_header_mac compute_shard_header_mac header_message
      serialize_shard_public_header_for_mac
  verify_iff_computed key g s m = compare_iff (compute_shard_header_mac hmac_sha256 key g s) m
