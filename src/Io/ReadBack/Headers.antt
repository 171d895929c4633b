-- ===== src/Io/ReadBack/Headers.antt =====
-- read_headers (io/ShardReader.cpp) over a file of a finished ShardWriter.
use bseal_cpp.Base.{
  ℕ, zero, suc, ◌+◌, ◌^◌, ◌%◌, ◌≤◌, ◌<◌, ◌≡◌, refl, sym, subst, ◌∙◌, ap, true, false, leb, ◌==◌,
  ==_iff, drop, length, length-append, drop-append_length, append-nil, append_assoc, List, [], ◌++◌,
  Option, ok, ok_injective, arith,
}
use bseal_cpp.Frame.{GlobalPublicHeaderV1, GlobalFits, ShardFits, global_header_v1_magic}
use bseal_cpp.Frame.Global.{parse_global_public_header}
use bseal_cpp.Frame.Global.Layout.{global_bytes, length-global_bytes, serialize_global-eq}
use bseal_cpp.Frame.Global.Rules.{GlobalRules}
use bseal_cpp.Frame.Global.RoundTrip.{parse-serialize_global}
use bseal_cpp.Frame.Shard.{parse_shard_public_header}
use bseal_cpp.Frame.Shard.Laws.{
  shard_bytes, length-shard_bytes, serialize_shard-eq, parse-serialize_shard,
}
use bseal_cpp.Frame.Mac.{compute_public_header_hash, public_header_hash_domain}
use bseal_cpp.Frame.Mac.Laws.{header_message-eq, without_mac}
use bseal_cpp.App.Plan.{PlanParams}
use bseal_cpp.App.Plan.Laws.{frames_len}
use bseal_cpp.Io.Stream.{Stream, read_exact}
use bseal_cpp.Io.Stream.Laws.{read_exact_ok}
use bseal_cpp.Io.Discover.{ShardInfo, has_bin_extension, read_headers}
use bseal_cpp.Io.Writer.{ShardWriterOptions, FinalizedShard}
use bseal_cpp.Io.Writer.Planner.{Matches}
use bseal_cpp.Io.Writer.Rewriting.{
  Keyed, FinalizedFits, sealed_header, sealed_header-ShardFits, mac_of, length-mac_of, computed,
}
use bseal_cpp.Io.Writer.Chain.{stored}
use bseal_cpp.Io.Writer.Finish.{IsFile}
use bseal_cpp.Io.Writer.Files.{Bodies}
use bseal_cpp.Io.ReadBack.Frames.{length-stored}

-- A global header that the reader accepts, for the chunks of a plan; a writer with the options of the plan,
-- bodies of the planned lengths, a key, and names that end in ".bin".
pub record Readable (options : ShardWriterOptions) (p : PlanParams) (names : ℕ → List ℕ)
    (body : ℕ → List ℕ) (hmac_sha256 : List ℕ → List ℕ → Option (List ℕ)) (key : List ℕ)
    (global : GlobalPublicHeaderV1) : Type 0 where
  pub matches : Matches options p
  pub bodies : Bodies p body
  pub keyed : Keyed hmac_sha256 key
  pub sizes : p.max_shard_payload_len + 272 < 2 ^ 64
  pub extension : (j : ℕ) → has_bin_extension (names j) ≡ true
  pub fits : GlobalFits global
  pub is_magic : global.magic ≡ global_header_v1_magic
  pub rules : GlobalRules global
  pub same_size : global.chunk_plain_size ≡ p.chunk_plain_size
  pub same_count : global.global_chunk_count ≡ p.global_chunk_count

some_frames : (p : PlanParams) (first n : ℕ) → 0 < n → 0 < frames_len p first n
some_frames p first zero h = absurd (omega (arith, h))
some_frames p first (suc n) h = omega arith

module _ (options : ShardWriterOptions) (p : PlanParams) (names : ℕ → List ℕ) (body : ℕ → List ℕ)
    (hmac_sha256 : List ℕ → List ℕ → Option (List ℕ)) (key : List ℕ) (blake3 : List ℕ → List ℕ)
    (global : GlobalPublicHeaderV1) (g : Readable options p names body hmac_sha256 key global) where
  -- What is read of a file.
  abbrev pub info_of : FinalizedShard → List ℕ → ShardInfo
  info_of s mac = record {
    path = s.path;
    global_header = global;
    shard_header = sealed_header s mac;
    public_header_hash = blake3 (
        public_header_hash_domain
        ++ global_bytes global (shard_bytes (without_mac (sealed_header s mac)) []));
    file_size = length s.content;
  }

  pub file_fits :
      (s : FinalizedShard) (low k first : ℕ)
      → IsFile p body names hmac_sha256 key global s low k first
      → first + s.chunk_count ≤ p.global_chunk_count
      → FinalizedFits s
  file_fits s low k first file within = record {
    index_fits = omega (arith, file.index_is);
    first_fits = omega (arith, file.first_is, within, g.matches.fits.count_fits);
    count_fits = omega (arith, within, g.matches.fits.count_fits);
    payload_fits = omega (arith, file.payload_fits, g.matches.fits.max_fits);
  }

  pub file_header-ShardFits :
      (s : FinalizedShard) (low k first : ℕ)
      → (file : IsFile p body names hmac_sha256 key global s low k first)
      → first + s.chunk_count ≤ p.global_chunk_count
      → ShardFits (sealed_header s file.mac)
  file_header-ShardFits s low k first file within =
      let fits = file_fits s low k first file within in
      let same : mac_of hmac_sha256 key global g.keyed g.fits s ≡ file.mac =
        ok_injective (sym (computed hmac_sha256 key global g.keyed g.fits s fits) ∙ file.mac_is) in
      sealed_header-ShardFits s file.mac fits
        (ap length (sym same) ∙ length-mac_of hmac_sha256 key global g.keyed g.fits s)

  length-file :
      (s : FinalizedShard) (low k first : ℕ)
      → (file : IsFile p body names hmac_sha256 key global s low k first)
      → first + s.chunk_count ≤ p.global_chunk_count
      → length s.content ≡ 272 + s.payload_len
  length-file s low k first file within =
      let head = global_bytes global [] ++ shard_bytes (sealed_header s file.mac) [] in
      ap length file.content_is
      ∙ omega (
        arith,
        length-append head (stored p body k first s.chunk_count),
        length-append (global_bytes global []) (shard_bytes (sealed_header s file.mac) []),
        length-global_bytes global [] g.fits,
        length-shard_bytes (sealed_header s file.mac) []
            (file_header-ShardFits s low k first file within),
        length-stored options p body g.matches g.bodies s.chunk_count k first within,
        file.payload_is,
      )

  parses :
      (s : FinalizedShard) (low k first : ℕ)
      → (file : IsFile p body names hmac_sha256 key global s low k first)
      → first + s.chunk_count ≤ p.global_chunk_count
      → (parse_global_public_header (global_bytes global []) ≡ ok global)
        × (parse_shard_public_header (shard_bytes (sealed_header s file.mac) [])
            ≡ ok (sealed_header s file.mac))
  parses s low k first file within =
      let fits = file_header-ShardFits s low k first file within in
      let (out, same, parsed) = parse-serialize_global global [] g.fits g.is_magic g.rules in
      let (out', same', parsed') =
        parse-serialize_shard (sealed_header s file.mac) [] fits refl (record {
          header_len = refl;
          some_chunk = file.some_chunk;
          some_payload =
              omega (arith, file.payload_is, some_frames p first s.chunk_count file.some_chunk);
          reserved = refl;
        }) in
      (
        subst (λ b. parse_global_public_header b ≡ ok global)
            (append-nil out ∙ ok_injective (sym same ∙ serialize_global-eq global g.fits)) parsed,
        subst (λ b. parse_shard_public_header b ≡ ok (sealed_header s file.mac))
            (append-nil out'
              ∙ ok_injective (sym same' ∙ serialize_shard-eq (sealed_header s file.mac) fits))
            parsed',
      )

  pub read_one :
      (s : FinalizedShard) (low k first : ℕ)
      → (file : IsFile p body names hmac_sha256 key global s low k first)
      → first + s.chunk_count ≤ p.global_chunk_count
      → k < global.shard_count
      → read_headers blake3 s.path s.content ≡ ok (info_of s file.mac)
  unfolding read_headers compute_public_header_hash
  read_one s low k first file within inside =
      let fits = file_header-ShardFits s low k first file within in
      let front = global_bytes global [] in
      let second = shard_bytes (sealed_header s file.mac) [] in
      let rest = stored p body k first s.chunk_count in
      let front_size : length front ≡ 192 = omega (arith, length-global_bytes global [] g.fits) in
      let second_size : length second ≡ 80 =
        omega (arith, length-shard_bytes (sealed_header s file.mac) [] fits) in
      let content : s.content ≡ front ++ (second ++ rest) =
        file.content_is ∙ append_assoc front second rest in
      let start : Stream = record { bytes = s.content; position = 0 } in
      let one : read_exact start 192 "truncated global public header"
          ≡ ok (front, record start { position = 192 }) =
        subst
          (λ n.
            read_exact start n "truncated global public header"
            ≡ ok (front, record start { position = 0 + n }))
          front_size
          (read_exact_ok start "truncated global public header" front (second ++ rest)
            (omega (arith, front_size)) content) in
      let behind : drop 192 s.content ≡ second ++ rest =
        subst (λ n. drop n s.content ≡ second ++ rest) front_size
          (ap (drop (length front)) content ∙ drop-append_length front (second ++ rest)) in
      let after : Stream = record { bytes = s.content; position = 192 } in
      let two : read_exact after 80 "truncated shard public header"
          ≡ ok (second, record after { position = 272 }) =
        subst
          (λ n.
            read_exact after n "truncated shard public header"
            ≡ ok (second, record after { position = 192 + n }))
          second_size
          (read_exact_ok after "truncated shard public header" second rest
            (omega (arith, second_size)) behind) in
      let (global_read, shard_read) = parses s low k first file within in
      let placed : leb global.shard_count s.shard_index ≡ false =
        not_above global.shard_count s.shard_index
          (omega (arith, inside, file.index_is, g.fits.shard_count_fits)) in
      let whole : (length s.content == (272 + s.payload_len) % 2 ^ 64) ≡ true =
        (==_iff (length s.content) ((272 + s.payload_len) % 2 ^ 64)).1
          (omega (arith, length-file s low k first file within, file.payload_fits, g.sizes)) in
      rw
        (
          one,
          global_read,
          two,
          shard_read,
          placed,
          whole,
          header_message-eq public_header_hash_domain global (sealed_header s file.mac) g.fits fits,
          read_headers,
          compute_public_header_hash,
        )
        refl
    where
      not_above : (a b : ℕ) → b < a → leb a b ≡ false
      not_above a b h = ground arith
