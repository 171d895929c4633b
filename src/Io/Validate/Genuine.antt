-- ===== src/Io/Validate/Genuine.antt =====
-- The test of the MAC of a shard by the constructor of ShardReader (io/ShardReader.cpp).
use bseal_cpp.Base.{
  ℕ, ◌-◌, ◌^◌, ◌<◌, ◌≡◌, ◌≢◌, ◌↔◌, refl, sym, subst, ◌∙◌, Bool-cases, inl, inr, true, false,
  le→ltb_false, ◌==◌, length, List, [], ◌++◌, Option, ok, err, authentication_failed, arith,
  if◌then◌else◌,
}
use bseal_cpp.Frame.{GlobalFits, ShardFits}
use bseal_cpp.Frame.Bytes.{equal_bytes, equal_bytes→eq, equal_bytes_refl}
use bseal_cpp.Frame.Global.Layout.{global_bytes}
use bseal_cpp.Frame.Shard.Laws.{shard_bytes}
use bseal_cpp.Frame.Mac.{compute_shard_header_mac, verify_shard_header_mac, header_mac_domain}
use bseal_cpp.Frame.Mac.Laws.{header_message-eq, without_mac}
use bseal_cpp.Io.Discover.{ShardInfo}
use bseal_cpp.Io.Validate.{authenticate}
use bseal_cpp.Io.Writer.Rewriting.{Keyed}

not_zero : (n : ℕ) → 0 < n → (n == 0) ≡ false
not_zero n h = ground arith

module _ (hmac_sha256 : List ℕ → List ℕ → Option (List ℕ)) (key : List ℕ) (shard : ShardInfo)
    (keyed : Keyed hmac_sha256 key) (global_fits : GlobalFits shard.global_header)
    (shard_fits : ShardFits shard.shard_header) where
  right_mac : List ℕ
  right_mac = keyed.mac (
      header_mac_domain
      ++ global_bytes shard.global_header (shard_bytes (without_mac shard.shard_header) []))

  right_mac_computed :
      compute_shard_header_mac hmac_sha256 key shard.global_header shard.shard_header ≡ ok right_mac
  unfolding compute_shard_header_mac right_mac
  right_mac_computed =
      let message =
        header_mac_domain
        ++ global_bytes shard.global_header (shard_bytes (without_mac shard.shard_header) []) in
      rw
        (
          not_zero (length key) keyed.some_key,
          header_message-eq header_mac_domain shard.global_header shard.shard_header global_fits
              shard_fits,
          le→ltb_false (2 ^ 31 - 1) (length key) (omega (arith, keyed.small_key)),
          keyed.mac_is message,
          keyed.mac_size message,
          compute_shard_header_mac,
        )
        refl

  authenticate-eq : authenticate hmac_sha256 key shard ≡ (
      if equal_bytes right_mac shard.shard_header.header_mac
      then ok tt
      else err authentication_failed)
  unfolding authenticate verify_shard_header_mac
  authenticate-eq =
      rw
        (
          not_zero (length key) keyed.some_key,
          right_mac_computed,
          authenticate,
          verify_shard_header_mac,
        )
        refl

  decided :
      ((authenticate hmac_sha256 key shard ≡ ok tt) ↔ (shard.shard_header.header_mac ≡ right_mac))
      × ((authenticate hmac_sha256 key shard ≡ err authentication_failed)
          ↔ (shard.shard_header.header_mac ≢ right_mac))
  decided =
      let mac = right_mac in
      let stored = shard.shard_header.header_mac in
      elim (Bool-cases (equal_bytes mac stored)) [
        | inl y ↦
            let same : stored ≡ mac = sym (equal_bytes→eq mac stored y) in
            let passes : authenticate hmac_sha256 key shard ≡ ok tt = authenticate-eq ∙ rw y refl in
            ((λ _. same, λ _. passes), (λ e. cc, λ n. absurd (n same)))
        | inr n ↦
            let fails : authenticate hmac_sha256 key shard ≡ err authentication_failed =
              authenticate-eq ∙ rw n refl in
            let differ : stored ≢ mac = λ e.
              let equal : equal_bytes mac stored ≡ true =
                subst (λ m. equal_bytes mac m ≡ true) (sym e) (equal_bytes_refl mac) in
              cc in
            ((λ e. cc, λ e. absurd (differ e)), (λ _. differ, λ _. fails))
      ]

-- For a key of at least 1 and fewer than 2 ^ 31 bytes under which HMAC returns 32 bytes, and headers of
-- their sizes: the MAC of the two headers is computed without an exception; the shard passes exactly when
-- its header carries that MAC, and AuthenticationFailed is thrown exactly when it carries another one.
pub authenticate_decides :
    (hmac_sha256 : List ℕ → List ℕ → Option (List ℕ)) (key : List ℕ) (shard : ShardInfo)
    → Keyed hmac_sha256 key
    → GlobalFits shard.global_header
    → ShardFits shard.shard_header
    → (mac : List ℕ) × (compute_shard_header_mac hmac_sha256 key shard.global_header
          shard.shard_header
        ≡ ok mac)
      × ((authenticate hmac_sha256 key shard ≡ ok tt) ↔ (shard.shard_header.header_mac ≡ mac))
      × ((authenticate hmac_sha256 key shard ≡ err authentication_failed)
          ↔ (shard.shard_header.header_mac ≢ mac))
authenticate_decides hmac_sha256 key shard keyed global_fits shard_fits =
    let (accepts, rejects) = decided hmac_sha256 key shard keyed global_fits shard_fits in
    (
      right_mac hmac_sha256 key shard keyed global_fits shard_fits,
      right_mac_computed hmac_sha256 key shard keyed global_fits shard_fits,
      accepts,
      rejects,
    )
