-- ===== src/Blocky/Uploaded.antt =====
-- What an upload of email/blockyemail/blocky.go has sent.
use mathlib.Core.Path.{subst}
use native.Mathlib.Nat.{zero-add}
use blocky_cloud.Prelude.{
  ℤ, ℕ, ◌+◌, List, [], ◌∷◌, ◌++◌, Option, none, some, ◌≡◌, refl, sym, ap, ◌∙◌, arith, append_assoc,
  append-nil, length, length-append, if_cases, ◌==◌, ==_iff, if◌then◌else◌,
}
use blocky_cloud.Address.Utf8.{Bytes}
use blocky_cloud.Blocky.Upload.{
  Read, some_bytes, last_bytes, broken, StreamedAttachment, Request, header, chunk, Response,
  ServiceAnswer, response, lost, Outcome, uploaded, failed, size_mismatch, waiting, uint32,
  chunk_size_or_default, header_of, check_size, after_send, upload_loop, upload_from,
  upload_attachment,
}

-- The bytes of all chunks, in the order of the requests.
unfoldable pub content : List Request → Bytes
content [] = []
content (header i f t ∷ rs) = content rs
content (chunk s ∷ rs) = s ++ content rs

-- The bytes that a file has given, up to the end.
unfoldable pub whole : {E : Type 0} → List (Read E) → Bytes
whole [] = []
whole (some_bytes s ∷ rs) = s ++ whole rs
whole (last_bytes s ∷ rs) = s
whole (broken e ∷ rs) = []

content-append : (rs qs : List Request) → content (rs ++ qs) ≡ content rs ++ content qs
unfolding content
content-append [] qs = refl
content-append (header i f t ∷ rs) qs = content-append rs qs
content-append (chunk s ∷ rs) qs =
    ap (λ c. s ++ c) (content-append rs qs) ∙ sym (append_assoc s (content rs) (content qs))

content-chunk : (rs : List Request) (s : Bytes) → content (rs ++ chunk s ∷ []) ≡ content rs ++ s
unfolding content
content-chunk rs s = content-append rs (chunk s ∷ []) ∙ ap (λ c. content rs ++ c) (append-nil s)

module _ {E : Type 0} (reply : List Request → Option E)
    (receive : List Request → ServiceAnswer E) where
  -- The service has the whole file, and says so.
  pub record IsComplete (file : Bytes) (id : Bytes) (sent : List Request) : Type 0 where
    pub answer : Response
    pub received : receive sent ≡ response answer
    pub named : answer.attachment_id ≡ id
    pub complete : content sent ≡ file
    pub sized : answer.size ≡ uint32 (length file)

  -- A successful upload is complete; `got` is what was read before.
  abbrev Completes : Bytes → Outcome E × List Request → Type 0
  Completes file (uploaded id, sent) = IsComplete file id sent
  Completes file _ = Unit

  after_send-Completes :
      (o : Option E) (sent : List Request) (r : Outcome E × List Request) (file : Bytes)
      → Completes file r
      → Completes file (after_send reply receive o sent r)
  after_send-Completes none sent r file h = h
  after_send-Completes (some e) sent r file h = tt

  check_size-Completes :
      (sent : List Request) (n : ℕ) (o : ServiceAnswer E)
      → receive sent ≡ o
      → n ≡ length (content sent)
      → Completes (content sent) (check_size reply receive n o, sent)
  unfolding check_size
  check_size-Completes sent n (lost e) q h = tt
  check_size-Completes sent n (response r) q h =
      if_cases (λ o. Completes (content sent) (o, sent)) (r.size == uint32 n) _ _
        (λ e. record {
          answer = r;
          received = q;
          named = refl;
          complete = refl;
          sized = (==_iff r.size (uint32 n)).0 e ∙ ap uint32 h;
        })
        (λ _. tt)

  grown :
      (sent : List Request) (s : Bytes) (n : ℕ)
      → n ≡ length (content sent)
      → n + length s ≡ length (content (sent ++ chunk s ∷ []))
  grown sent s n h = omega (arith, ap length (content-chunk sent s), length-append (content sent) s)

  upload_loop-Completes :
      (rs : List (Read E)) (sent : List Request) (n : ℕ)
      → n ≡ length (content sent)
      → Completes (content sent ++ whole rs) (upload_loop reply receive rs sent n)
  unfolding upload_loop whole
  upload_loop-Completes [] sent n h = tt
  upload_loop-Completes (broken e ∷ rs) sent n h = tt
  upload_loop-Completes (some_bytes s ∷ rs) sent n h =
      let sent' = sent ++ chunk s ∷ [] in
      let next = upload_loop reply receive rs sent' (n + length s) in
      subst (λ file. Completes file (after_send reply receive (reply sent') sent' next))
        (ap (λ c. c ++ whole rs) (content-chunk sent s) ∙ append_assoc (content sent) s (whole rs))
        (after_send-Completes (reply sent') sent' next (content sent' ++ whole rs)
          (upload_loop-Completes rs sent' (n + length s) (grown sent s n h)))
  upload_loop-Completes (last_bytes s ∷ rs) sent n h =
      let sent' = sent ++ chunk s ∷ [] in
      let done = check_size reply receive (n + length s) (receive sent') in
      subst (λ file. Completes file (after_send reply receive (reply sent') sent' (done, sent')))
        (content-chunk sent s)
        (after_send-Completes (reply sent') sent' (done, sent') (content sent')
          (check_size-Completes sent' (n + length s) (receive sent') refl (grown sent s n h)))

  upload_from-Completes :
      (a : StreamedAttachment E) (size : ℕ)
      → Completes (whole (a.file size)) (upload_from reply receive a size)
  unfolding upload_from header_of content
  upload_from-Completes a size =
      let sent = header_of a ∷ [] in
      after_send-Completes (reply sent) sent _ (whole (a.file size))
        (upload_loop-Completes (a.file size) sent 0 refl)

  completed :
      (file id : Bytes) (r : Outcome E × List Request)
      → r.0 ≡ uploaded id
      → Completes file r
      → IsComplete file id r.1
  completed file id (uploaded id', sent) e h =
      let same : id' ≡ id = cc in subst (λ i. IsComplete file i sent) same h
  completed file id (failed x, sent) e h = cc
  completed file id (size_mismatch, sent) e h = cc
  completed file id (waiting, sent) e h = cc

  -- An upload that succeeds has sent every byte that the file gave up to its end, in order and whatever
  -- the sizes of its reads, and the service has counted as many, modulo 2^32, and given the new id.
  pub upload_attachment-IsComplete :
      (opened : Option E) (chunk_size : ℤ) (a : StreamedAttachment E) (id : Bytes)
      → (upload_attachment reply receive opened chunk_size a).0 ≡ uploaded id
      → IsComplete
          (whole (a.file (chunk_size_or_default chunk_size)))
          id
          (upload_attachment reply receive opened chunk_size a).1
  unfolding upload_attachment
  upload_attachment-IsComplete (some e) chunk_size a id h = cc
  upload_attachment-IsComplete none chunk_size a id h =
      let size = chunk_size_or_default chunk_size in
      completed (whole (a.file size)) id (upload_from reply receive a size) h
        (upload_from-Completes a size)

-- The reads come to the end of the file, without an error before.
abbrev pub Ends : {E : Type 0} → List (Read E) → Type 0
Ends [] = ⊥
Ends (some_bytes s ∷ rs) = Ends rs
Ends (last_bytes s ∷ rs) = Unit
Ends (broken e ∷ rs) = ⊥

-- A request for each read up to the end.
unfoldable pub chunks : {E : Type 0} → List (Read E) → List Request
chunks [] = []
chunks (some_bytes s ∷ rs) = chunk s ∷ chunks rs
chunks (last_bytes s ∷ rs) = chunk s ∷ []
chunks (broken e ∷ rs) = []

-- What the upload of a file makes of the service's answer.
abbrev pub verdict : {E : Type 0} → Bytes → ServiceAnswer E → Outcome E
verdict file (lost e) = failed e
verdict file (response r) =
    if r.size == uint32 (length file) then uploaded r.attachment_id else size_mismatch

more : (s t : Bytes) (n : ℕ) → n + length s + length t ≡ n + length (s ++ t)
more s t n = omega (arith, length-append s t)

module _ {E : Type 0} (reply : List Request → Option E) (receive : List Request → ServiceAnswer E)
    (accepts : (rs : List Request) → reply rs ≡ none) where
  loop-Ends :
      (rs : List (Read E)) (sent : List Request) (n : ℕ)
      → Ends rs
      → upload_loop reply receive rs sent n ≡ (
        check_size reply receive (n + length (whole rs)) (receive (sent ++ chunks rs)),
        sent ++ chunks rs,
      )
  unfolding upload_loop whole chunks
  loop-Ends [] sent n h = absurd h
  loop-Ends (broken e ∷ rs) sent n h = absurd h
  loop-Ends (some_bytes s ∷ rs) sent n h =
      let sent' = sent ++ chunk s ∷ [] in
      rw (accepts sent') (
        loop-Ends rs sent' (n + length s) h
        ∙ ap (λ k. (check_size reply receive k (receive (sent' ++ chunks rs)), sent' ++ chunks rs))
            (more s (whole rs) n)
        ∙ ap (λ l. (check_size reply receive (n + length (s ++ whole rs)) (receive l), l))
            (append_assoc sent (chunk s ∷ []) (chunks rs)))
  loop-Ends (last_bytes s ∷ rs) sent n h = rw (accepts (sent ++ chunk s ∷ [])) refl

  check_size-verdict :
      (file : Bytes) (r : ServiceAnswer E)
      → check_size reply receive (length file) r ≡ verdict file r
  unfolding check_size
  check_size-verdict file (lost e) = refl
  check_size-verdict file (response r) = refl

  -- Where the service takes every request and the file ends, the requests are the header and a chunk for
  -- each read, and the outcome is the verdict on the service's answer: the new id where it counts as many
  -- bytes as the file has, modulo 2^32, a mismatch where it counts others, and its error where it fails.
  pub upload_attachment-verdict :
      (chunk_size : ℤ) (a : StreamedAttachment E)
      → Ends (a.file (chunk_size_or_default chunk_size))
      → let rs = a.file (chunk_size_or_default chunk_size) in
        let sent = header_of a ∷ chunks rs in
        upload_attachment reply receive none chunk_size a
        ≡ (verdict (whole rs) (receive sent), sent)
  unfolding upload_attachment upload_from
  upload_attachment-verdict chunk_size a h =
      let rs = a.file (chunk_size_or_default chunk_size) in
      let sent = header_of a ∷ chunks rs in
      rw (accepts (header_of a ∷ [])) (
        loop-Ends rs (header_of a ∷ []) 0 h
        ∙ ap (λ k. (check_size reply receive k (receive sent), sent)) (zero-add (length (whole rs)))
        ∙ ap (λ o. (o, sent)) (check_size-verdict (whole rs) (receive sent)))
