-- ===== src/Connection/Stream.antt =====
-- blocking/connection.rs: reading from the socket. The bytes that the peer sends before it closes
-- the stream are a list; what `read_exact` reports at the end is the standard library's error.
use ruslock.Prelude.{
  ℕ, List, ◌++◌, leb, if◌then◌else◌, length, take, drop, replicate, from_le_bytes,
}
use ruslock.Error.{IoError, Result, ok, err, ◌>>=◌, io}

module _ (unexpected_eof : IoError) where
  -- `stream.read_exact(&mut [0u8; n])`: the bytes, and what is left.
  unfoldable pub read_exact : ℕ → List ℕ → Result (List ℕ × List ℕ)
  read_exact n stream =
      if leb n (length stream) then ok (take n stream, drop n stream) else err (io unexpected_eof)

  unfoldable pub read_extra_data : List ℕ → Result (List ℕ × List ℕ)
  unfolding read_exact from_le_bytes
  read_extra_data stream = do
    (len_bytes, rest) ← read_exact 4 stream
    (payload, rest') ← read_exact (from_le_bytes len_bytes) rest
    ok (replicate 4 0 ++ payload, rest')
