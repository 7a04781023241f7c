-- ===== src/Template/Store.antt =====
-- `ParsedTemplates` of email/emailtemplate/template.go. The mutex makes each operation atomic.
-- `copy` is gob's copy of a map. The template engine is a parameter: `parse` reads the content of a
-- version, and gives the templates that it defines by their names.
use blocky_cloud.Prelude.{List, [], ◌∷◌, ◌++◌, Option, none, some, if◌then◌else◌}
use blocky_cloud.Text.{codes, same, get, put}
use blocky_cloud.Address.Utf8.{Bytes}
use blocky_cloud.Template.Data.{
  not_found, already_exists, parse_failed, Result, ok, err, ◌>>=◌, Data, Map, merge_data,
}

pub record TemplateVersion : Type 0 where
  pub version : Bytes
  pub content : Bytes
  pub default_data : Data

pub record Template : Type 0 where
  pub name : Bytes
  pub versions : List TemplateVersion
  pub default_data : Data

-- `none` is a template that the content does not define.
pub record ParsedTemplateVersion (T : Type 0) : Type 0 where
  pub version : Bytes
  pub from : Option T
  pub to : Option T
  pub cc : Option T
  pub bcc : Option T
  pub subj : Option T
  pub html : Option T
  pub text : Option T
  pub version_data : Map

pub record ParsedTemplate (T : Type 0) : Type 0 where
  pub name : Bytes
  pub versions : List (ParsedTemplateVersion T)
  pub template_data : Map

-- `templates` is `none` for the nil map.
pub record ParsedTemplates (T : Type 0) : Type 0 where
  pub templates : Option (List (Bytes × ParsedTemplate T))
  pub general_data : Data

module _ {T : Type 0} where
  -- A lookup in a map that may be nil.
  unfoldable pub find_template :
      Option (List (Bytes × ParsedTemplate T)) → Bytes → Option (ParsedTemplate T)
  find_template none name = none
  find_template (some m) name = get m name

  -- `Get`.
  unfoldable pub get_template : ParsedTemplates T → Bytes → Option (ParsedTemplate T)
  get_template p name = find_template p.templates name

  -- The loop of `findVersion`: the first of the versions with this name.
  unfoldable pub first_version :
      List (ParsedTemplateVersion T) → Bytes → Option (ParsedTemplateVersion T)
  first_version [] version = none
  first_version (v ∷ vs) version =
      let rest = first_version vs version in if same v.version version then some v else rest

  abbrev pub version_in : Option (ParsedTemplate T) → Bytes → Option (ParsedTemplateVersion T)
  version_in none version = none
  version_in (some t) version = first_version t.versions version

  -- `findVersion` and `GetVersion`.
  unfoldable pub find_version : ParsedTemplates T → Bytes → Bytes → Option (ParsedTemplateVersion T)
  find_version p name version = version_in (get_template p name) version

  -- The map of `Add`, which makes one where there is none.
  abbrev pub made : Option (List (Bytes × ParsedTemplate T)) → List (Bytes × ParsedTemplate T)
  made none = []
  made (some m) = m

  -- `p.templates[name] = t`.
  abbrev pub store_template : ParsedTemplates T → Bytes → ParsedTemplate T → ParsedTemplates T
  store_template p name t = record p { templates = some (put (made p.templates) name t) }

  -- `temp.versions[idx] = parsed` at the first index with this version, and the end if there is none.
  unfoldable pub replace_version :
      List (ParsedTemplateVersion T) → ParsedTemplateVersion T → List (ParsedTemplateVersion T)
  replace_version [] parsed = parsed ∷ []
  replace_version (v ∷ vs) parsed =
      let rest = v ∷ replace_version vs parsed in
      if same v.version parsed.version then parsed ∷ vs else rest

module _ {T : Type 0} (copy : Map → Option Map) (parse : Bytes → Option (Bytes → Option T)) where
  abbrev pub parsed_version :
      TemplateVersion → Map → Option (Bytes → Option T) → Result (ParsedTemplateVersion T)
  parsed_version t general none = err parse_failed
  parsed_version t general (some find) = merge_data copy (some general) t.default_data >>= λ merged.
      ok (record {
        version = t.version;
        from = find (codes "from_t");
        to = find (codes "to_t");
        cc = find (codes "cc_t");
        bcc = find (codes "bcc_t");
        subj = find (codes "subject_t");
        html = find (codes "html_t");
        text = find (codes "text_t");
        version_data = merged;
      })

  -- `TemplateVersion.parse`.
  unfoldable pub parse_version : TemplateVersion → Map → Result (ParsedTemplateVersion T)
  parse_version t general = parsed_version t general (parse t.content)

  -- The loop of `Add` over the versions.
  unfoldable pub parse_versions :
      List TemplateVersion → Map → Result (List (ParsedTemplateVersion T))
  parse_versions [] general = ok []
  parse_versions (v ∷ vs) general =
      parse_version v general >>= λ parsed. parse_versions vs general >>= λ rest. ok (parsed ∷ rest)

  abbrev pub add_new :
      ParsedTemplates T → Template → Option (ParsedTemplate T) → Result (ParsedTemplates T)
  add_new p t (some old) = err already_exists
  add_new p t none = merge_data copy p.general_data t.default_data >>= λ merged.
      parse_versions t.versions merged >>= λ versions. ok (
        store_template p t.name
          (record { name = t.name; versions = versions; template_data = merged }))

  -- `Add`.
  unfoldable pub add : ParsedTemplates T → Template → Result (ParsedTemplates T)
  add p t = add_new p t (get_template p t.name)

  -- What `AddVersion` and `UpsertVersion` do with a template that is there.
  abbrev pub append_version :
      ParsedTemplates T
      → Bytes
      → TemplateVersion
      → ParsedTemplate T
      → Option (ParsedTemplateVersion T)
      → Result (ParsedTemplates T)
  append_version p name v t (some old) = err already_exists
  append_version p name v t none = parse_version v t.template_data >>= λ parsed.
      ok (store_template p name (record t { versions = t.versions ++ parsed ∷ [] }))

  abbrev pub put_version :
      ParsedTemplates T → Bytes → TemplateVersion → ParsedTemplate T → Result (ParsedTemplates T)
  put_version p name v t = parse_version v t.template_data >>= λ parsed.
      ok (store_template p name (record t { versions = replace_version t.versions parsed }))

  abbrev pub add_to :
      ParsedTemplates T
      → Bytes
      → TemplateVersion
      → Option (ParsedTemplate T)
      → Result (ParsedTemplates T)
  add_to p name v none = err not_found
  add_to p name v (some t) = append_version p name v t (first_version t.versions v.version)

  abbrev pub upsert_to :
      ParsedTemplates T
      → Bytes
      → TemplateVersion
      → Option (ParsedTemplate T)
      → Result (ParsedTemplates T)
  upsert_to p name v none = err not_found
  upsert_to p name v (some t) = put_version p name v t

  -- `AddVersion`.
  unfoldable pub add_version :
      ParsedTemplates T → Bytes → TemplateVersion → Result (ParsedTemplates T)
  add_version p name v = add_to p name v (get_template p name)

  -- `UpsertVersion`.
  unfoldable pub upsert_version :
      ParsedTemplates T → Bytes → TemplateVersion → Result (ParsedTemplates T)
  upsert_version p name v = upsert_to p name v (get_template p name)

  -- The loop of `ParseTemplates`.
  unfoldable pub add_all : ParsedTemplates T → List Template → Result (ParsedTemplates T)
  add_all p [] = ok p
  add_all p (t ∷ ts) = add p t >>= λ p'. add_all p' ts

  -- `ParseTemplates`.
  unfoldable pub parse_templates : Data → List Template → Result (ParsedTemplates T)
  parse_templates general ts = add_all (record { templates = some []; general_data = general }) ts
