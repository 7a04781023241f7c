-- ===== src/Template/Views.antt =====
-- The store of templates as a dictionary of versions: email/emailtemplate/template.go.
use blocky_cloud.Prelude.{
  Bool, true, false, ◌&&◌, List, [], ◌∷◌, ◌++◌, Option, none, some, if◌then◌else◌, ◌≡◌, refl, sym,
  ap, ◌∙◌, arith, Bool-cases, inl, inr,
}
use blocky_cloud.Text.{same, same-eq, same_sym, get, get-put}
use blocky_cloud.Address.Utf8.{Bytes}
use blocky_cloud.Template.Data.{Failure, already_exists, not_found, Result, ok, err, ◌>>=◌, Map}
use blocky_cloud.Template.Store.{
  TemplateVersion, ParsedTemplateVersion, ParsedTemplate, ParsedTemplates, find_template,
  get_template, first_version, version_in, find_version, made, store_template, replace_version,
  parse_version, append_version, put_version, add_to, upsert_to, add_version, upsert_version,
}

module _ {T : Type 0} where
  first_version-replace_version :
      (vs : List (ParsedTemplateVersion T)) (x : ParsedTemplateVersion T) (w : Bytes)
      → first_version (replace_version vs x) w
        ≡ (if same x.version w then some x else first_version vs w)
  unfolding first_version replace_version
  first_version-replace_version [] x w = refl
  first_version-replace_version (v ∷ vs) x w = elim (Bool-cases (same v.version x.version)) [
    | inl q ↦ elim (Bool-cases (same x.version w)) [
      | inl r ↦ rw (q, r) refl
      | inr r ↦ rw (q, r, ap (λ k. same k w) (same-eq v.version x.version q) ∙ r) refl
    ]
    | inr q ↦ elim (Bool-cases (same v.version w)) [
      | inl r ↦
          let n : same x.version w ≡ false =
            ap (same x.version) (sym (same-eq v.version w r)) ∙ same_sym x.version v.version ∙ q in
          rw (q, n, r) refl
      | inr r ↦ rw (q, r) (first_version-replace_version vs x w)
    ]
  ]

  -- Where no version has the name, the new one goes to the end.
  replace_version-append :
      (vs : List (ParsedTemplateVersion T)) (x : ParsedTemplateVersion T)
      → first_version vs x.version ≡ none
      → replace_version vs x ≡ vs ++ x ∷ []
  unfolding first_version replace_version
  replace_version-append [] x h = refl
  replace_version-append (v ∷ vs) x h = elim (Bool-cases (same v.version x.version)) [
    | inl q ↦ let h' = rw q at h in cc
    | inr q ↦ rw q (ap (λ l. v ∷ l) (replace_version-append vs x (rw q at h)))
  ]

  get-made :
      (m : Option (List (Bytes × ParsedTemplate T))) (n : Bytes)
      → get (made m) n ≡ find_template m n
  unfolding find_template get
  get-made none n = refl
  get-made (some m) n = refl

  version_in-if :
      (b : Bool) (t : ParsedTemplate T) (o : Option (ParsedTemplate T)) (w : Bytes)
      → version_in (if b then some t else o) w
        ≡ (if b then first_version t.versions w else version_in o w)
  version_in-if true t o w = refl
  version_in-if false t o w = refl

  find_version-store_template :
      (p : ParsedTemplates T) (name : Bytes) (t : ParsedTemplate T) (n w : Bytes)
      → find_version (store_template p name t) n w
        ≡ (if same name n then first_version t.versions w else find_version p n w)
  unfolding find_version get_template find_template
  find_version-store_template p name t n w =
      ap (λ o. version_in o w)
        (get-put (made p.templates) name t n
          ∙ ap (λ o. if same name n then some t else o) (get-made p.templates n))
      ∙ version_in-if (same name n) t (find_template p.templates n) w

  -- The dictionary of versions with an entry for one template's version.
  abbrev pub updated :
      ParsedTemplates T
      → Bytes
      → ParsedTemplateVersion T
      → Bytes
      → Bytes
      → Option (ParsedTemplateVersion T)
  updated p name x n w = if same name n && same x.version w then some x else find_version p n w

  find_version-put :
      (p : ParsedTemplates T) (name : Bytes) (t : ParsedTemplate T) (x : ParsedTemplateVersion T)
      (d : ParsedTemplate T) (n w : Bytes)
      → get_template p name ≡ some t
      → d.versions ≡ replace_version t.versions x
      → find_version (store_template p name d) n w ≡ updated p name x n w
  find_version-put p name t x d n w g e = elim (Bool-cases (same name n)) [
    | inl q ↦
        let here : find_version p n w ≡ first_version t.versions w =
          ap (λ k. find_version p k w) (sym (same-eq name n q))
          ∙ unfold find_version in ap (λ o. version_in o w) g in
        find_version-store_template p name d n w
        ∙ rw (q, e, first_version-replace_version t.versions x w, here) refl
    | inr q ↦ find_version-store_template p name d n w ∙ rw q refl
  ]

module _ {T : Type 0} (copy : Map → Option Map) (parse : Bytes → Option (Bytes → Option T)) where
  -- What becomes of a call of `UpsertVersion`. It changes one entry of the dictionary of versions, or it
  -- finds no template, or the content cannot be parsed.
  pub data IsUpserted (p : ParsedTemplates T) (name : Bytes) (v : TemplateVersion)
      : Result (ParsedTemplates T) → Type 0 where
    stored :
        (t : ParsedTemplate T) (x : ParsedTemplateVersion T) (p' : ParsedTemplates T)
        → get_template p name ≡ some t
        → parse_version copy parse v t.template_data ≡ ok x
        → x.version ≡ v.version
        → ((n w : Bytes) → find_version p' n w ≡ updated p name x n w)
        → IsUpserted p name v (ok p')
    missing : get_template p name ≡ none → IsUpserted p name v (err not_found)
    unparsed :
        (t : ParsedTemplate T) (e : Failure)
        → get_template p name ≡ some t
        → parse_version copy parse v t.template_data ≡ err e
        → IsUpserted p name v (err e)

  parse_version-version :
      (v : TemplateVersion) (m : Map) (x : ParsedTemplateVersion T)
      → parse_version copy parse v m ≡ ok x
      → x.version ≡ v.version
  unfolding parse_version
  parse_version-version v m x h = ground arith

  put_version-IsUpserted :
      (p : ParsedTemplates T) (name : Bytes) (v : TemplateVersion) (t : ParsedTemplate T)
      (r : Result (ParsedTemplateVersion T))
      → get_template p name ≡ some t
      → parse_version copy parse v t.template_data ≡ r
      → IsUpserted p name v (
          r >>= λ x.
          ok (store_template p name (record t { versions = replace_version t.versions x })))
  put_version-IsUpserted p name v t (ok x) g h =
      stored t x _ g h (parse_version-version v t.template_data x h)
        (λ n w. find_version-put p name t x _ n w g refl)
  put_version-IsUpserted p name v t (err e) g h = unparsed t e g h

  upsert_to-IsUpserted :
      (p : ParsedTemplates T) (name : Bytes) (v : TemplateVersion) (o : Option (ParsedTemplate T))
      → get_template p name ≡ o
      → IsUpserted p name v (upsert_to copy parse p name v o)
  upsert_to-IsUpserted p name v none g = missing g
  upsert_to-IsUpserted p name v (some t) g = put_version-IsUpserted p name v t _ g refl

  -- `UpsertVersion` sets the entry of a known template to the parsed version and no other entry; it
  -- fails if there is no such template, or as the parsing does.
  pub upsert_version-IsUpserted :
      (p : ParsedTemplates T) (name : Bytes) (v : TemplateVersion)
      → IsUpserted p name v (upsert_version copy parse p name v)
  unfolding upsert_version
  upsert_version-IsUpserted p name v = upsert_to-IsUpserted p name v (get_template p name) refl

  abbrev pub unless_present :
      Option (ParsedTemplateVersion T) → Result (ParsedTemplates T) → Result (ParsedTemplates T)
  unless_present none r = r
  unless_present (some old) r = err already_exists

  appended :
      (p : ParsedTemplates T) (name : Bytes) (v : TemplateVersion) (t : ParsedTemplate T)
      (r : Result (ParsedTemplateVersion T))
      → first_version t.versions v.version ≡ none
      → parse_version copy parse v t.template_data ≡ r
      → (r >>= λ x. ok (store_template p name (record t { versions = t.versions ++ x ∷ [] }))) ≡ (
          r >>= λ x.
          ok (store_template p name (record t { versions = replace_version t.versions x })))
  appended p name v t (err e) h q = refl
  appended p name v t (ok x) h q =
      let fresh = ap (first_version t.versions) (parse_version-version v t.template_data x q) ∙ h in
      ap (λ l. ok (store_template p name (record t { versions = l })))
        (sym (replace_version-append t.versions x fresh))

  append_version-put_version :
      (p : ParsedTemplates T) (name : Bytes) (v : TemplateVersion) (t : ParsedTemplate T)
      (o : Option (ParsedTemplateVersion T))
      → first_version t.versions v.version ≡ o
      → append_version copy parse p name v t o
        ≡ unless_present o (put_version copy parse p name v t)
  append_version-put_version p name v t (some old) h = refl
  append_version-put_version p name v t none h = appended p name v t _ h refl

  add_to-upsert_to :
      (p : ParsedTemplates T) (name : Bytes) (v : TemplateVersion) (o : Option (ParsedTemplate T))
      → add_to copy parse p name v o
        ≡ unless_present (version_in o v.version) (upsert_to copy parse p name v o)
  add_to-upsert_to p name v none = refl
  add_to-upsert_to p name v (some t) = append_version-put_version p name v t _ refl

  -- `AddVersion` does what `UpsertVersion` does, but refuses a version that is there.
  add_version-upsert_version :
      (p : ParsedTemplates T) (name : Bytes) (v : TemplateVersion)
      → add_version copy parse p name v
        ≡ unless_present (find_version p name v.version) (upsert_version copy parse p name v)
  unfolding add_version upsert_version find_version
  add_version-upsert_version p name v = add_to-upsert_to p name v (get_template p name)
