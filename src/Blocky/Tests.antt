-- ===== src/Blocky/Tests.antt =====
-- An upload by email/blockyemail/blocky.go, and its theorems at a concrete input.
use blocky_cloud.Prelude.{pos, negsuc, ℕ, List, [], ◌∷◌, Option, none, ◌≡◌, refl}
use blocky_cloud.Text.{codes}
use blocky_cloud.Blocky.Upload.{
  Read, some_bytes, last_bytes, StreamedAttachment, Request, header, chunk, ServiceAnswer, response,
  Outcome, uploaded, chunk_size_or_default, header_of, check_size, upload_loop, upload_from,
  upload_attachment,
}
use blocky_cloud.Blocky.Uploaded.{
  whole, chunks, verdict, IsComplete, upload_attachment-IsComplete, upload_attachment-verdict,
}

-- Errors are numbers here.
abbrev takes_all : List Request → Option ℕ
takes_all sent = none

abbrev counts_five : List Request → ServiceAnswer ℕ
counts_five sent = response (record { size = 5; attachment_id = codes "id" })

abbrev in_two_reads : ℕ → List (Read ℕ)
in_two_reads size = some_bytes (codes "abc") ∷ last_bytes (codes "de") ∷ []

abbrev note : StreamedAttachment ℕ
note = record {
  content_id = codes "n";
  filename = codes "n.txt";
  content_type = codes "text/plain";
  file = in_two_reads;
}

upload : Outcome ℕ × List Request
unfolding chunk_size_or_default header_of check_size upload_loop upload_from upload_attachment
upload = upload_attachment takes_all counts_five none (negsuc 0) note

upload-note : upload ≡ (
  uploaded (codes "id"),
  header (codes "n") (codes "n.txt") (codes "text/plain")
      ∷ chunk (codes "abc")
      ∷ chunk (codes "de")
      ∷ [],
)
unfolding upload
upload-note = refl

upload_attachment-IsComplete_example :
    IsComplete takes_all counts_five
      (whole (in_two_reads 65536))
      (codes "id")
      (upload_attachment takes_all counts_five none (pos 65536) note).1
unfolding chunk_size_or_default header_of check_size upload_loop upload_from upload_attachment
upload_attachment-IsComplete_example =
    upload_attachment-IsComplete takes_all counts_five none (pos 65536) note (codes "id") refl

upload_attachment-verdict_example :
    upload_attachment takes_all counts_five none (pos 65536) note ≡ (
      verdict (whole (in_two_reads 65536)) (counts_five []),
      header_of note ∷ chunks (in_two_reads 65536),
    )
unfolding chunk_size_or_default
upload_attachment-verdict_example =
    upload_attachment-verdict takes_all counts_five (λ rs. refl) (pos 65536) note tt
