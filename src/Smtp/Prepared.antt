-- ===== src/Smtp/Prepared.antt =====
-- What `prepare` (email/smtpemail/message.go) makes of the addresses of a message.
use blocky_cloud.Prelude.{
  false, not, List, [], ◌∷◌, ◌++◌, some, if◌then◌else◌, if_cases, ◌≡◌, refl, ap, ◌∙◌, arith,
}
use mathlib.Core.Path.{subst}
use blocky_cloud.Address.Utf8.{Bytes}
use blocky_cloud.Address.Phrase.{Decoding}
use blocky_cloud.Address.Parser.{Address}
use blocky_cloud.Address.Entry.{Result, done, fail, parse_single}
use blocky_cloud.Address.Lexer.{Error, is_empty}
use blocky_cloud.Smtp.Codes.{codes}
use blocky_cloud.Text.{same, same-eq, same_refl}
use blocky_cloud.Smtp.Message.{
  Header, set_field, get_header, Mail, Attachment, set_body, add_alternative, DriverMessage,
  get_recipients, add_files, add_bodies, then_mail, format_address, set_address_header, set_parsed,
  set_each, set_header, finish_prepare, set_rest, prepare,
}

get_header-set_field :
    (h : Header) (field : Bytes) (value : List Bytes)
    → get_header (set_field h field value) field ≡ some value
unfolding get_header set_field
get_header-set_field [] field value = rw (same_refl field) refl
get_header-set_field ((f, v) ∷ h) field value =
    ground (arith, same_refl field, get_header-set_field h field value)

get_header-other :
    (h : Header) (field other : Bytes) (value : List Bytes)
    → same field other ≡ false
    → get_header (set_field h field value) other ≡ get_header h other
unfolding get_header set_field
get_header-other [] field other value n = rw n refl
get_header-other ((f, v) ∷ h) field other value n =
    ground (arith, same-eq f field, get_header-other h field other value n)

module _ (decode : Bytes → Decoding) (q_encode b_encode : Bytes → Bytes → Bytes) where
  -- The header `field` of a message is the address that `addr` is read as, printed for `charset`.
  pub data IsShown (charset field addr : Bytes) (h : Header) : Type 0 where
    shown :
        (a : Address)
        → parse_single decode addr ≡ done a
        → get_header h field ≡ some (format_address decode q_encode b_encode charset a ∷ [])
        → IsShown charset field addr h

  -- A property of the message that a step returns, if it returns one.
  data OnDone (P : Mail → Type 0) : Result Mail → Type 0 where
    on_done : (m : Mail) → P m → OnDone P (done m)
    on_fail : (e : Error) → OnDone P (fail e)

  then_mail-OnDone :
      (P Q : Mail → Type 0) (r : Result Mail) (next : Mail → Result Mail)
      → OnDone P r
      → ((m : Mail) → P m → OnDone Q (next m))
      → OnDone Q (then_mail r next)
  then_mail-OnDone P Q r next (on_done m p) f = f m p
  then_mail-OnDone P Q r next (on_fail e) f = on_fail e

  OnDone-map :
      (P Q : Mail → Type 0) (r : Result Mail) → OnDone P r → ((m : Mail) → P m → Q m) → OnDone Q r
  OnDone-map P Q r (on_done m p) f = on_done m (f m p)
  OnDone-map P Q r (on_fail e) f = on_fail e

  -- A step that leaves the charset, the envelope's recipients and the field as they are.
  record IsKept (field : Bytes) (m m' : Mail) : Type 0 where
    charset : m'.charset ≡ m.charset
    to : m'.to ≡ m.to
    value : get_header m'.header field ≡ get_header m.header field

  IsKept-trans :
      (field : Bytes) (l m n : Mail) → IsKept field l m → IsKept field m n → IsKept field l n
  IsKept-trans field l m n p q = record {
    charset = q.charset ∙ p.charset;
    to = q.to ∙ p.to;
    value = q.value ∙ p.value;
  }

  set_parsed-IsKept :
      (m : Mail) (field other : Bytes) (r : Result Address)
      → same field other ≡ false
      → OnDone (IsKept other m) (set_parsed decode q_encode b_encode m field r)
  set_parsed-IsKept m field other (done a) n =
      on_done _
        (record { charset = refl; to = refl; value = get_header-other m.header field other _ n })
  set_parsed-IsKept m field other (fail e) n = on_fail e

  set_each-IsKept :
      (l m : Mail) (field other : Bytes) (ts : List Bytes)
      → same field other ≡ false
      → IsKept other l m
      → OnDone (IsKept other l) (set_each decode q_encode b_encode m field ts)
  unfolding set_each set_address_header
  set_each-IsKept l m field other [] n k = on_done m k
  set_each-IsKept l m field other (t ∷ ts) n k =
      then_mail-OnDone (IsKept other m) (IsKept other l) _ _
        (set_parsed-IsKept m field other (parse_single decode t) n)
        (λ m' k'. set_each-IsKept l m' field other ts n (IsKept-trans other l m m' k k'))

  -- The header of the last of the addresses, if there are any.
  abbrev pub LastIsShown : Bytes → Bytes → List Bytes → Header → Type 0
  LastIsShown charset field [] h = Unit {0}
  LastIsShown charset field (t ∷ []) h = IsShown charset field t h
  LastIsShown charset field (t ∷ u ∷ ts) h = LastIsShown charset field (u ∷ ts) h

  IsAdded : Bytes → List Bytes → Mail → Mail → Type 0
  IsAdded field ts m m' =
      (m'.charset ≡ m.charset) × ((m'.to ≡ m.to) × LastIsShown m.charset field ts m'.header)

  set_parsed-IsAdded :
      (m : Mail) (field t : Bytes) (r : Result Address)
      → parse_single decode t ≡ r
      → OnDone (IsAdded field (t ∷ []) m) (set_parsed decode q_encode b_encode m field r)
  unfolding IsAdded
  set_parsed-IsAdded m field t (done a) q =
      on_done _ (refl, (refl, shown a q (get_header-set_field m.header field _)))
  set_parsed-IsAdded m field t (fail e) q = on_fail e

  set_each-IsAdded :
      (m : Mail) (field : Bytes) (ts : List Bytes)
      → OnDone (IsAdded field ts m) (set_each decode q_encode b_encode m field ts)
  unfolding set_each set_address_header IsAdded
  set_each-IsAdded m field [] = on_done m (refl, (refl, tt))
  set_each-IsAdded m field (t ∷ []) =
      then_mail-OnDone (IsAdded field (t ∷ []) m) (IsAdded field (t ∷ []) m) _ _
        (set_parsed-IsAdded m field t (parse_single decode t) refl) (λ m' k. on_done m' k)
  set_each-IsAdded m field (t ∷ u ∷ ts) =
      then_mail-OnDone (IsAdded field (t ∷ []) m) (IsAdded field (t ∷ u ∷ ts) m) _ _
        (set_parsed-IsAdded m field t (parse_single decode t) refl)
        (λ m' k.
          OnDone-map (IsAdded field (u ∷ ts) m') (IsAdded field (t ∷ u ∷ ts) m) _
            (set_each-IsAdded m' field (u ∷ ts))
            (λ m'' l. (
              l.0 ∙ k.0,
              (l.1.0 ∙ k.1.0, subst (λ c. LastIsShown c field (u ∷ ts) m''.header) k.0 l.1.1),
            )))

  add_files-IsKept :
      (field : Bytes) (l : Mail) (list : List Attachment) (m : Mail)
      → IsKept field l m
      → IsKept field l (add_files m list)
  unfolding add_files
  add_files-IsKept field l [] m k = k
  add_files-IsKept field l (a ∷ list) m k =
      if_cases (λ x. IsKept field l (add_files x list)) a.inline _ _
        (λ q.
          add_files-IsKept field l list _
            (record { charset = k.charset; to = k.to; value = k.value }))
        (λ q.
          add_files-IsKept field l list _
            (record { charset = k.charset; to = k.to; value = k.value }))

  add_bodies-header : (m : Mail) (d : DriverMessage) → (add_bodies m d).header ≡ m.header
  unfolding add_bodies set_body add_alternative
  add_bodies-header m d = ground arith

  add_bodies-to : (m : Mail) (d : DriverMessage) → (add_bodies m d).to ≡ m.to
  unfolding add_bodies set_body add_alternative
  add_bodies-to m d = ground arith

  add_bodies-charset : (m : Mail) (d : DriverMessage) → (add_bodies m d).charset ≡ m.charset
  unfolding add_bodies set_body add_alternative
  add_bodies-charset m d = ground arith

  set_header-IsKept :
      (m : Mail) (field other value : Bytes)
      → same field other ≡ false
      → IsKept other m (set_header decode q_encode b_encode m field value)
  unfolding set_header
  set_header-IsKept m field other value n = record {
    charset = refl;
    to = refl;
    value = get_header-other m.header field other _ n;
  }

  add_bodies-IsKept :
      (m : Mail) (d : DriverMessage) (field : Bytes) → IsKept field m (add_bodies m d)
  add_bodies-IsKept m d field = record {
    charset = add_bodies-charset m d;
    to = add_bodies-to m d;
    value = ap (λ h. get_header h field) (add_bodies-header m d);
  }

  finish_prepare-IsKept :
      (d : DriverMessage) (m : Mail)
      → IsKept (codes "To") m (finish_prepare decode q_encode b_encode d m)
  unfolding finish_prepare same
  finish_prepare-IsKept d m =
      if_cases (IsKept (codes "To") m) (not (is_empty d.message_id)) _ _
        (λ q. set_header-IsKept m (codes "Message-ID") (codes "To") d.message_id refl)
        (λ q. record { charset = refl; to = refl; value = refl })

  LastIsShown-kept :
      (charset field : Bytes) (ts : List Bytes) (h h' : Header)
      → get_header h' field ≡ get_header h field
      → LastIsShown charset field ts h
      → LastIsShown charset field ts h'
  LastIsShown-kept charset field [] h h' e s = tt
  LastIsShown-kept charset field (t ∷ []) h h' e (shown a q g) = shown a q (e ∙ g)
  LastIsShown-kept charset field (t ∷ u ∷ ts) h h' e s =
      LastIsShown-kept charset field (u ∷ ts) h h' e s

  reply_to-IsKept :
      (d : DriverMessage) (m : Mail)
      → OnDone (IsKept (codes "To") m) (
          if not (is_empty d.reply_to)
          then set_address_header decode q_encode b_encode m (codes "Reply-To") d.reply_to
          else done m)
  unfolding set_address_header same
  reply_to-IsKept d m =
      if_cases (OnDone (IsKept (codes "To") m)) (not (is_empty d.reply_to)) _ _
        (λ q. set_parsed-IsKept m (codes "Reply-To") (codes "To") _ refl)
        (λ q. on_done m (record { charset = refl; to = refl; value = refl }))

  set_rest-IsKept :
      (d : DriverMessage) (l m : Mail)
      → IsKept (codes "To") l m
      → OnDone (IsKept (codes "To") l) (set_rest decode q_encode b_encode d m)
  unfolding set_rest same
  set_rest-IsKept d l m k =
      let to_ = codes "To" in
      let m' = set_header decode q_encode b_encode m (codes "Subject") d.subject in
      let k' =
        IsKept-trans to_ l m m' k (set_header-IsKept m (codes "Subject") to_ d.subject refl) in
      let m'' = add_bodies m' d in
      let k'' = IsKept-trans to_ l m' m'' k' (add_bodies-IsKept m' d to_) in
      let n = add_files m'' d.attachments in
      let kn = add_files-IsKept to_ l d.attachments m'' k'' in
      then_mail-OnDone (IsKept to_ n) (IsKept to_ l) _ _ (reply_to-IsKept d n) (λ o p.
        on_done _
          (IsKept-trans to_ l n _ kn (IsKept-trans to_ n o _ p (finish_prepare-IsKept d o))))

  set_cc-IsKept :
      (d : DriverMessage) (m : Mail)
      → OnDone (IsKept (codes "To") m) (
          then_mail
            (set_each decode q_encode b_encode m (codes "Cc") d.cc)
            (set_rest decode q_encode b_encode d))
  unfolding same
  set_cc-IsKept d m =
      let to_ = codes "To" in
      then_mail-OnDone (IsKept to_ m) (IsKept to_ m) _ _
        (set_each-IsKept m m (codes "Cc") to_ d.cc refl
          (record { charset = refl; to = refl; value = refl }))
        (set_rest-IsKept d m)

  -- What `prepare` promises of its recipients.
  IsPrepared : Mail → DriverMessage → Mail → Type 0
  IsPrepared m0 d m = (m.to ≡ get_recipients d) × LastIsShown m0.charset (codes "To") d.to m.header

  prepare-OnDone :
      (m0 : Mail) (d : DriverMessage)
      → OnDone (IsPrepared m0 d) (prepare decode q_encode b_encode m0 d)
  unfolding prepare set_address_header IsAdded IsPrepared
  prepare-OnDone m0 d =
      let to_ = codes "To" in
      let m : Mail = record m0 { id = d.message_id; from = d.from; to = get_recipients d } in
      then_mail-OnDone (IsAdded (codes "From") (d.from ∷ []) m) (IsPrepared m0 d) _ _
        (set_parsed-IsAdded m (codes "From") d.from _ refl)
        (λ m1 k1.
          then_mail-OnDone (IsAdded to_ d.to m1) (IsPrepared m0 d) _ _
            (set_each-IsAdded m1 to_ d.to)
            (λ m2 k2. OnDone-map (IsKept to_ m2) (IsPrepared m0 d) _ (set_cc-IsKept d m2) (λ m' r. (
              r.to ∙ (k2.1.0 ∙ k1.1.0),
              LastIsShown-kept m0.charset to_ d.to m2.header m'.header r.value
                  (subst (λ c. LastIsShown c to_ d.to m2.header) k1.0 k2.1.1),
            ))))

  IfDone : (Mail → Type 0) → Result Mail → Type 0
  IfDone P (done m) = P m
  IfDone P (fail e) = Unit {0}

  OnDone-IfDone : (P : Mail → Type 0) (r : Result Mail) → OnDone P r → IfDone P r
  unfolding IfDone
  OnDone-IfDone P r (on_done m p) = p
  OnDone-IfDone P r (on_fail e) = tt

  OnDone-done : (P : Mail → Type 0) (r : Result Mail) (m : Mail) → OnDone P r → r ≡ done m → P m
  unfolding IfDone
  OnDone-done P r m o q = subst (λ x. IfDone P x) q (OnDone-IfDone P r o)

  -- If `prepare` succeeds, the message goes to all of To, Cc and Bcc, and its To header, unless there
  -- is nobody in To, holds the last address of To alone, as `formatAddress` prints what it reads.
  pub prepare-LastIsShown :
      (m0 m : Mail) (d : DriverMessage)
      → prepare decode q_encode b_encode m0 d ≡ done m
      → (m.to ≡ d.to ++ (d.cc ++ d.bcc)) × LastIsShown m0.charset (codes "To") d.to m.header
  unfolding IsPrepared get_recipients
  prepare-LastIsShown m0 m d q = OnDone-done (IsPrepared m0 d) _ m (prepare-OnDone m0 d) q
