-- ===== src/StableStorage/Header/Async/Writer.antt =====
-- The async writer of a header, over the writer of the futures crate.
use metamagic.Prelude.{ℕ, ◌≡◌, ◌≢◌, ap, ◌∙◌, List, [], ◌++◌, Outcome, ok}
use metamagic.StableStorage.DataFormat.{unknown}
use metamagic.StableStorage.Header.{Error, Header, num_fields, as_bytes, new_from_reader}
use metamagic.StableStorage.Header.Codec.{IsValid, new_from_reader-as_bytes}
use metamagic.StableStorage.Header.Async.{
  AsyncRead, IsExact, with_contents, new_from_reader_async, new_from_reader_async_lem,
}

-- `AsyncWriteExt::write_all`, and the bytes that a writer was given.
pub record AsyncWrite (W : Type 0) : Type 0 where
  pub write_all_async : List ℕ → W → Outcome Error W
  pub written : W → List ℕ

-- A write that succeeds appends its bytes.
abbrev pub IsAppending : {W : Type 0} → AsyncWrite W → Type 0
IsAppending {W} sink =
    (bytes : List ℕ) (w w' : W)
    → sink.write_all_async bytes w ≡ ok w'
    → sink.written w' ≡ sink.written w ++ bytes

module _ {W : Type 0} (sink : AsyncWrite W) where
  unfoldable pub write_async : Header → W → Outcome Error W
  write_async h writer = sink.write_all_async (as_bytes h) writer

  -- A header that was written to an empty writer is read from any stream of what was written and
  -- of what was written behind it.
  pub new_from_reader_async-write_async :
      {R : Type 0} (stream : AsyncRead R) (h : Header) (w w' : W) (r : R) (rest : List ℕ)
      → IsAppending sink
      → IsExact stream
      → IsValid h
      → h.content_format ≢ unknown
      → sink.written w ≡ []
      → write_async h w ≡ ok w'
      → stream.contents r ≡ sink.written w' ++ rest
      → with_contents stream.contents (new_from_reader_async stream r)
        ≡ ok (record h { header_length = num_fields }, rest)
  unfolding write_async
  new_from_reader_async-write_async stream h w w' r rest appends exact valid named fresh wrote
        piped =
      new_from_reader_async_lem stream exact r
      ∙ ap new_from_reader (
          piped
          ∙ ap (λ bytes. bytes ++ rest)
              (appends (as_bytes h) w w' wrote ∙ ap (λ bytes. bytes ++ as_bytes h) fresh))
      ∙ new_from_reader-as_bytes h rest valid named
