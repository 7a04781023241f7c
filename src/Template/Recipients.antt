-- ===== src/Template/Recipients.antt =====
-- The recipients of a templated message: `Execute` of email/emailtemplate/template.go.
use blocky_cloud.Prelude.{
  ℕ, ◌+◌, Bool, true, false, List, [], ◌∷◌, Option, none, some, ◌≡◌, refl, arith,
}
use blocky_cloud.Address.Utf8.{Bytes}
use blocky_cloud.Smtp.Message.{DriverMessage}
use blocky_cloud.Template.Data.{ok, ok->>=, Map, merge_data}
use blocky_cloud.Template.Store.{ParsedTemplateVersion}
use blocky_cloud.Template.Execute.{
  TemplatedMessage, render_first, render_at, render_each, execute_with, execute_version,
}

module _ {T : Type 0} (render : T → Map → Option Bytes) where
  first_none :
      (keep : Bool) (t : Option T) (m : Map) (l : List Bytes)
      → t ≡ none
      → render_first render keep t m l ≡ ok []
  unfolding render_first
  first_none keep none m l h = refl
  first_none keep (some t) m l h = cc

  each_none :
      (always : Bool) (t : Option T) (m : Map) (n : ℕ) (l : List Bytes)
      → t ≡ none
      → render_each render always t m n l ≡ ok (l, m)
  unfolding render_each render_at
  each_none always none m n [] h = refl
  each_none always none m n (a ∷ l) h = rw (each_none always none m (n + 1) l refl) refl
  each_none always (some t) m n l h = cc

  execute_with-recipients :
      (p : ParsedTemplateVersion T) (i : TemplatedMessage) (m : Map) (d : DriverMessage)
      → p.to ≡ none
      → p.cc ≡ none
      → p.bcc ≡ none
      → execute_with render p i m ≡ ok d
      → (d.to ≡ i.to) × (d.cc ≡ i.cc) × (d.bcc ≡ i.cc) × (d.attachments ≡ [])
  unfolding execute_with
  execute_with-recipients p i m d t c b h = ground (
    arith,
    first_none true p.to m i.to,
    each_none false p.to m 0 i.to,
    first_none false p.cc m i.cc,
    each_none true p.cc m 0 i.cc,
    first_none false p.bcc m i.bcc,
    each_none false p.bcc m 0 i.cc,
  )

  -- If a version has no templates for recipients, an executed message has the recipients of To and Cc
  -- that it was given, the recipients of Cc for Bcc, and no attachments.
  pub execute_version-recipients :
      (copy : Map → Option Map) (p : ParsedTemplateVersion T) (i : TemplatedMessage)
      (d : DriverMessage)
      → p.to ≡ none
      → p.cc ≡ none
      → p.bcc ≡ none
      → execute_version render copy p i ≡ ok d
      → (d.to ≡ i.to) × (d.cc ≡ i.cc) × (d.bcc ≡ i.cc) × (d.attachments ≡ [])
  unfolding execute_version
  execute_version-recipients copy p i d t c b h =
      let r = ok->>= (merge_data copy (some p.version_data) i.template_data) _ d h in
      execute_with-recipients p i r.0 d t c b r.2
