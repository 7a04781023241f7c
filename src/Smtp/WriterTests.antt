-- ===== src/Smtp/WriterTests.antt =====
-- Runs of the message writer of email/smtpemail/writer.go, and its theorems at concrete inputs.
use blocky_cloud.Prelude.{[], ◌∷◌, ◌++◌, ◌≡◌, refl, arith}
use blocky_cloud.Text.{codes}
use blocky_cloud.Address.Utf8.{Bytes}
use blocky_cloud.Smtp.Fold.{
  index_byte, last_index_byte, later_break, write_line, fold_loop, write_folded, separator,
  write_values, write_header,
}
use blocky_cloud.Smtp.Unfolded.{unfolded}
use blocky_cloud.Smtp.HeaderText.{write_header-unfolded}
use blocky_cloud.Smtp.Broken.{broken, is_text-IsText}
use blocky_cloud.Smtp.Message.{Part, File, Mail}
use blocky_cloud.Smtp.Multipart.{Kind, at_depth, write_top, write_message}
use blocky_cloud.Smtp.Nesting.{flatten, tree}
use blocky_cloud.Smtp.TopLevel.{roots, expected_roots, write_message-tree}

abbrev word : Bytes
word = codes "abcdefghij"

-- A value of 43 bytes; two of them do not fit on a line.
abbrev long : Bytes
long = word ++ (b' ' ∷ (word ++ (b' ' ∷ (word ++ (b' ' ∷ word)))))

folds :
    write_header (codes "To") (long ∷ long ∷ [])
    ≡ codes "To: "
      ++ (long
          ++ (codes ", "
              ++ (word
                  ++ (b' '
                      ∷ (word ++ (codes "\r\n " ++ (word ++ (b' ' ∷ (word ++ codes "\r\n")))))))))
unfolding index_byte last_index_byte later_break write_line fold_loop write_folded separator
    write_values write_header
folds = refl

write_header-unfolded_example :
    unfolded (
      write_header
        (codes "Content-Type")
        (codes "multipart/mixed;\r\n boundary=b" ∷ codes "c" ∷ []))
    ≡ codes "Content-Type: multipart/mixed; boundary=b, c\r\n"
unfolding separator
write_header-unfolded_example =
    write_header-unfolded (codes "Content-Type") (codes "multipart/mixed;\r\n boundary=b")
      (codes "multipart/mixed; boundary=b") (codes "c" ∷ [])
      (is_text-IsText (codes "Content-Type") refl)
      (broken (codes "multipart/mixed;") (codes "boundary=b")
        (is_text-IsText (codes "multipart/mixed;") refl) (is_text-IsText (codes "boundary=b") refl)
        (omega arith) (omega arith))
      (is_text-IsText (codes "c") refl, tt)

abbrev page : Part
page = record { content_type = codes "text/html"; content = codes "h"; encoding = codes "8bit" }

abbrev picture : File
picture = record { name = codes "p"; file_header = []; to_writer = codes "x" }

-- A page and an attached picture.
abbrev mail_with_file : Mail
mail_with_file = record {
  id = [];
  from = codes "a@x";
  to = codes "b@x" ∷ [];
  header = (codes "Date", codes "d" ∷ []) ∷ (codes "Bcc", codes "c@x" ∷ []) ∷ [];
  parts = page ∷ [];
  attachments = picture ∷ [];
  embedded = [];
  charset = codes "utf-8";
  encoding = codes "8bit";
}

abbrev no_boundary : Kind → Bytes
no_boundary k = []

abbrev unknown_type : Bytes → Bytes
unknown_type name = []

write_message-tree_example :
    (write_message no_boundary unknown_type [] mail_with_file
      ≡ at_depth 0
          (write_top [] mail_with_file ++ flatten no_boundary 0 (tree unknown_type mail_with_file)))
    × (roots (tree unknown_type mail_with_file) ≡ expected_roots 1 0 1)
write_message-tree_example = write_message-tree no_boundary unknown_type [] mail_with_file
