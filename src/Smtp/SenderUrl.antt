-- ===== src/Smtp/SenderUrl.antt =====
-- The options of a sender's URL: `OpenSenderURL`, `OpenTemplatedSenderURL` and `openSender` of
-- email/smtpemail/urls.go, up to the pool, which opens connections. `u.Query()` is a map, here the list
-- of its entries in the order of the iteration. `strings.ToLower` and `strconv.ParseInt` of base 10 and 32 bits
-- are parameters; a number is an integer.
use blocky_cloud.Prelude.{
  ℤ, pos, negsuc, ℕ, Bool, ◌==◌, List, [], ◌∷◌, Option, none, some, ◌||◌, if◌then◌else◌,
}
use blocky_cloud.Text.{codes, same}
use blocky_cloud.Address.Utf8.{Bytes}
use blocky_cloud.Batcher.Options.{Options}

pub data Encoding : Type 0 where
  quoted_printable : Encoding
  base64 : Encoding
  unencoded : Encoding

pub record SenderOptions : Type 0 where
  pub encoding : Encoding
  pub max_batch_size : ℤ
  pub max_handlers : ℤ
  pub charset : Bytes

-- The options, and `topicURL`.
pub record Settings : Type 0 where
  pub opts : SenderOptions
  pub topic_url : Bytes

-- The cases of the `switch` on a key.
pub data Parameter : Type 0 where
  encoding_key : Parameter
  max_batch_size_key : Parameter
  max_handlers_key : Parameter
  charset_key : Parameter
  delivery_topic_key : Parameter
  unknown_key : Parameter

-- `FromString`, which leaves the encoding as it is where it does not know the text.
unfoldable pub from_string : Bytes → Encoding → Encoding
from_string s e =
    if same s (codes "quoted-printable")
      || same s (codes "qp")
      || same s (codes "quoted")
      || same s (codes "quotedprintable")
    then quoted_printable
    else if same s (codes "base64") || same s (codes "b64")
    then base64
    else if same s (codes "unencoded")
        || same s (codes "8bit")
        || same s (codes "8bits")
        || same s (codes "8-bit")
        || same s (codes "8-bits")
    then unencoded
    else e

-- The entries of a query.
abbrev pub Query : Type 0
Query = List (Bytes × List Bytes)

pub data ParsedQuery (A : Type 0) : Type 0 where
  ok : A → ParsedQuery A
  err : Parameter → ParsedQuery A

abbrev pub set_opts : Settings → SenderOptions → Settings
set_opts s o = record s { opts = o }

abbrev pub then_parse :
    ParsedQuery Settings → (Settings → ParsedQuery Settings) → ParsedQuery Settings
then_parse (ok s) next = next s
then_parse (err p) next = err p

module _ (to_lower : Bytes → Bytes) (parse_int : Bytes → Option ℤ) where
  -- The case of a key; `handlers` says whether there is one for `maxhandlers`.
  unfoldable pub parameter_of : Bool → Bytes → Parameter
  parameter_of handlers key =
      let k = to_lower key in
      if same k (codes "encoding")
      then encoding_key
      else if same k (codes "maxbatchsize")
      then max_batch_size_key
      else if same k (codes "maxhandlers")
      then (if handlers then max_handlers_key else unknown_key)
      else if same k (codes "charset")
      then charset_key
      else if same k (codes "deliverytopic")
      then delivery_topic_key
      else unknown_key

  abbrev pub with_number : (ℤ → Settings) → Parameter → Option ℤ → ParsedQuery Settings
  with_number f p none = err p
  with_number f p (some n) = ok (f n)

  -- The case for one value; the other lengths of `v` are refused.
  unfoldable pub set_parameter : Parameter → Bytes → Settings → ParsedQuery Settings
  set_parameter encoding_key v s =
      ok (set_opts s (record s.opts { encoding = from_string v s.opts.encoding }))
  set_parameter max_batch_size_key v s =
      with_number (λ n. set_opts s (record s.opts { max_batch_size = n })) max_batch_size_key
        (parse_int v)
  set_parameter max_handlers_key v s =
      with_number (λ n. set_opts s (record s.opts { max_handlers = n })) max_handlers_key
        (parse_int v)
  set_parameter charset_key v s = ok (set_opts s (record s.opts { charset = v }))
  set_parameter delivery_topic_key v s = ok (record s { topic_url = v })
  set_parameter unknown_key v s = err unknown_key

  unfoldable pub set_values : Parameter → List Bytes → Settings → ParsedQuery Settings
  set_values p (v ∷ []) s = set_parameter p v s
  set_values p [] s = err p
  set_values p (v ∷ w ∷ vs) s = err p

  -- The loop over the query, of `OpenSenderURL` and of `OpenTemplatedSenderURL`.
  unfoldable pub parse_query : Bool → Query → Settings → ParsedQuery Settings
  parse_query handlers [] s = ok s
  parse_query handlers ((k, v) ∷ query) s =
      then_parse (set_values (parameter_of handlers k) v s) (λ s'. parse_query handlers query s')

-- `if n <= 0 { n = 1 }`.
unfoldable pub at_least_one : ℤ → ℕ
at_least_one (pos n) = if n == 0 then 1 else n
at_least_one (negsuc n) = 1

-- `openSender`: the capacity of the pool of clients, and the options of the batcher.
pub record Opened : Type 0 where
  pub pool_size : ℕ
  pub batcher_options : Options

unfoldable pub open_sender : SenderOptions → Opened
open_sender o = record {
  pool_size = at_least_one o.max_handlers;
  batcher_options = record {
    max_handlers = 1;
    min_batch_size = 1;
    max_batch_size = at_least_one o.max_batch_size;
    max_batch_byte_size = 0;
  };
}
