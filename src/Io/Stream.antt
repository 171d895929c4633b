-- ===== src/Io/Stream.antt =====
-- A std::ifstream over the bytes of a file, with its position, and read_exact (io/ShardReader.cpp).
-- A file does not change while it is open.
pub mod Laws
use bseal_cpp.Base.{
  ℕ, ◌+◌, ◌-◌, ◌^◌, ltb, ◌==◌, not, length, take, drop, List, [], String, Result, ok, err,
  invalid_argument, reject_if, ◌>>◌,
}

pub record Stream : Type 0 where
  pub bytes : List ℕ
  pub position : ℕ

-- What lies behind the position.
abbrev pub ahead : Stream → List ℕ
ahead stream = drop stream.position stream.bytes

-- A short read throws; after any other the position is `count` further on.
unfoldable pub read_exact : Stream → ℕ → String → Result (List ℕ × Stream)
read_exact stream count message = do
  reject_if (ltb (2 ^ 63 - 1) count) "read size too large"
  let out = take count (ahead stream)
  reject_if (not (length out == count)) message
  ok (out, record stream { position = stream.position + count })
