-- ===== src/Blocky/Upload.antt =====
-- `uploadAttachment` and `uploadConnectAttachment` of email/blockyemail/blocky.go.
-- The service is two parameters: `reply` is the error of a `Send` on the stream, given all requests so
-- far, and `receive` what `CloseAndRecv` returns behind them. A file is what its calls of `Read` return,
-- in turn, for a buffer of some size; where the list ends, the next call does not return.
use blocky_cloud.Prelude.{
  ℤ, pos, negsuc, ℕ, ◌+◌, ◌%◌, List, [], ◌∷◌, ◌++◌, Option, none, some, ◌==◌, if◌then◌else◌, length,
}
use blocky_cloud.Address.Utf8.{Bytes}

-- What `Read` has put into the buffer, with the error nil or `io.EOF`; or another error.
pub data Read (E : Type 0) : Type 0 where
  some_bytes : Bytes → Read E
  last_bytes : Bytes → Read E
  broken : E → Read E

-- The fields of `driver.StreamedAttachment` that the upload reads.
pub record StreamedAttachment (E : Type 0) : Type 0 where
  pub content_id : Bytes
  pub filename : Bytes
  pub content_type : Bytes
  pub file : ℕ → List (Read E)

pub data Request : Type 0 where
  header : Bytes → Bytes → Bytes → Request
  chunk : Bytes → Request

pub record Response : Type 0 where
  pub size : ℕ
  pub attachment_id : Bytes

pub data ServiceAnswer (E : Type 0) : Type 0 where
  response : Response → ServiceAnswer E
  lost : E → ServiceAnswer E

-- How the upload ends: with the new `att.ContentID`, an error, or in a `Read` that does not return.
pub data Outcome (E : Type 0) : Type 0 where
  uploaded : Bytes → Outcome E
  failed : E → Outcome E
  size_mismatch : Outcome E
  waiting : Outcome E

abbrev pub default_chunk_size : ℕ
default_chunk_size = 65536

-- `uint32(n)`.
abbrev pub uint32 : ℕ → ℕ
uint32 n = n % 4294967296

-- `if chunkSize <= 0 { chunkSize = defaultChunkSize }`.
unfoldable pub chunk_size_or_default : ℤ → ℕ
chunk_size_or_default (pos n) = if n == 0 then default_chunk_size else n
chunk_size_or_default (negsuc n) = default_chunk_size

unfoldable pub header_of : {E : Type 0} → StreamedAttachment E → Request
header_of a = header a.content_id a.filename a.content_type

module _ {E : Type 0} (reply : List Request → Option E)
    (receive : List Request → ServiceAnswer E) where
  -- Behind `CloseAndRecv`.
  unfoldable pub check_size : ℕ → ServiceAnswer E → Outcome E
  check_size n (lost e) = failed e
  check_size n (response r) = if r.size == uint32 n then uploaded r.attachment_id else size_mismatch

  abbrev pub after_send :
      Option E → List Request → Outcome E × List Request → Outcome E × List Request
  after_send none sent next = next
  after_send (some e) sent next = (failed e, sent)

  -- The loop over the chunks, with the requests so far and `bytesRead`.
  unfoldable pub upload_loop : List (Read E) → List Request → ℕ → Outcome E × List Request
  upload_loop [] sent n = (waiting, sent)
  upload_loop (broken e ∷ rs) sent n = (failed e, sent)
  upload_loop (some_bytes s ∷ rs) sent n =
      let sent' = sent ++ chunk s ∷ [] in
      after_send (reply sent') sent' (upload_loop rs sent' (n + length s))
  upload_loop (last_bytes s ∷ rs) sent n =
      let sent' = sent ++ chunk s ∷ [] in
      after_send (reply sent') sent' (check_size (n + length s) (receive sent'), sent')

  -- The header, and the loop.
  unfoldable pub upload_from : StreamedAttachment E → ℕ → Outcome E × List Request
  upload_from a size =
      let sent = header_of a ∷ [] in after_send (reply sent) sent (upload_loop (a.file size) sent 0)

  -- `uploadAttachment`; `opened` is the error of `UploadAttachment`.
  unfoldable pub upload_attachment : Option E → ℤ → StreamedAttachment E → Outcome E × List Request
  upload_attachment (some e) chunk_size a = (failed e, [])
  upload_attachment none chunk_size a = upload_from a (chunk_size_or_default chunk_size)

  -- `uploadConnectAttachment`, which takes the size of the options as it is; `make` panics at
  -- a negative one, which is left out.
  unfoldable pub upload_connect_attachment : ℕ → StreamedAttachment E → Outcome E × List Request
  upload_connect_attachment chunk_size a = upload_from a chunk_size
