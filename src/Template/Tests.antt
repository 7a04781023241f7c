-- ===== src/Template/Tests.antt =====
-- Runs of the template store and of `Execute`, with texts for templates.
use mathlib.Core.Path.{subst}
use blocky_cloud.Prelude.{List, [], ◌∷◌, Option, none, some, if◌then◌else◌, ◌≡◌, refl}
use blocky_cloud.Text.{codes, same, get, put}
use blocky_cloud.Address.Utf8.{Bytes}
use blocky_cloud.Smtp.Message.{DriverMessage}
use blocky_cloud.Template.Data.{
  Result, ok, err, already_exists, Value, int, Map, put_all, deep_copy_map, merge_data, nil, entry,
  merge_data-value, IsMap, Merges, err, panics,
}
use blocky_cloud.Template.Store.{
  TemplateVersion, Template, ParsedTemplateVersion, ParsedTemplate, ParsedTemplates, find_template,
  get_template, first_version, find_version, replace_version, parse_version, parse_versions, add,
  add_version, upsert_version, add_all, parse_templates,
}
use blocky_cloud.Template.Execute.{
  TemplatedMessage, remove, render_or, render_first, render_at, render_each, render_from,
  execute_with, execute_version, execute,
}
use blocky_cloud.Template.Views.{IsUpserted, upsert_version-IsUpserted}
use blocky_cloud.Template.Recipients.{execute_version-recipients}

abbrev exact_copy : Map → Option Map
exact_copy m = some m

-- A content that defines the subject only, as itself.
abbrev subject_only : Bytes → Option (Bytes → Option Bytes)
subject_only content = some (λ name. if same name (codes "subject_t") then some content else none)

abbrev as_it_is : Bytes → Map → Option Bytes
as_it_is t m = some t

abbrev base_map : Map
base_map = (codes "a", int 1) ∷ (codes "b", int 2) ∷ []

abbrev over_map : Map
over_map = (codes "b", int 3) ∷ []

first_fresh : get ((codes "b", int 2) ∷ []) (codes "a") ≡ none
unfolding get same
first_fresh = refl

get-nil : (k : Bytes) → get {A = Value} [] k ≡ none
unfolding get
get-nil k = refl

exact_copy-maps : (m c : Map) → exact_copy m ≡ some c → IsMap m → IsMap c
exact_copy-maps m c h p = let e : m ≡ c = cc in subst IsMap e p

merge_data-value_example :
    Merges
      (some (some base_map))
      (some over_map)
      (merge_data exact_copy (some base_map) (some over_map))
merge_data-value_example =
    merge_data-value exact_copy exact_copy-maps (some base_map) (some over_map)
      (entry _ _ first_fresh (entry _ _ (get-nil _) nil)) (entry _ _ (get-nil _) nil)

-- A map that gob cannot copy.
no_copy : merge_data (λ m. none) (some base_map) (some over_map) ≡ err panics
unfolding merge_data deep_copy_map
no_copy = refl

abbrev version_one : TemplateVersion
version_one = record { version = codes "1"; content = codes "Hi"; default_data = none }

abbrev welcome : Template
welcome = record { name = codes "w"; versions = version_one ∷ []; default_data = some base_map }

abbrev parsed_one : ParsedTemplateVersion Bytes
parsed_one = record {
  version = codes "1";
  from = none;
  to = none;
  cc = none;
  bcc = none;
  subj = some (codes "Hi");
  html = none;
  text = none;
  version_data = base_map;
}

abbrev parsed_welcome : ParsedTemplate Bytes
parsed_welcome = record { name = codes "w"; versions = parsed_one ∷ []; template_data = base_map }

abbrev store : ParsedTemplates Bytes
store = record { templates = some ((codes "w", parsed_welcome) ∷ []); general_data = none }

parses : List Template → Result (ParsedTemplates Bytes)
unfolding same get put put_all deep_copy_map merge_data find_template get_template first_version
    find_version replace_version parse_version parse_versions add add_version upsert_version add_all
    parse_templates remove render_or render_first render_at render_each render_from execute_with
    execute_version execute
parses ts = parse_templates exact_copy subject_only none ts

parsed_store : parses (welcome ∷ []) ≡ ok store
unfolding parses
parsed_store = refl

added_twice : parses (welcome ∷ welcome ∷ []) ≡ err already_exists
unfolding parses
added_twice = refl

upsert_version-IsUpserted_example :
    IsUpserted exact_copy subject_only store
      (codes "w")
      version_one
      (upsert_version exact_copy subject_only store (codes "w") version_one)
upsert_version-IsUpserted_example =
    upsert_version-IsUpserted exact_copy subject_only store (codes "w") version_one

abbrev order : TemplatedMessage
order = record {
  message_id = [];
  from = codes "f@x";
  to = codes "t@x" ∷ [];
  cc = codes "c@x" ∷ [];
  bcc = codes "b@x" ∷ [];
  html_body = [];
  text_body = codes "text";
  subject = [];
  attachments = [];
  date = 0;
  reply_to = [];
  template_name = codes "w";
  template_data = none;
  template_version = codes "1";
}

abbrev executed : DriverMessage
executed = record {
  message_id = [];
  from = codes "f@x";
  to = codes "t@x" ∷ [];
  cc = codes "c@x" ∷ [];
  bcc = codes "c@x" ∷ [];
  subject = codes "Hi";
  html_body = [];
  text_body = codes "text";
  reply_to = [];
  date = 0;
  attachments = [];
}

execute-order : execute as_it_is exact_copy store order ≡ ok executed
execute-order = unfold parses in refl

execute_version-order : execute_version as_it_is exact_copy parsed_one order ≡ ok executed
execute_version-order = unfold parses in refl

execute_version-recipients_example :
    (executed.to ≡ order.to)
    × (executed.cc ≡ order.cc)
    × (executed.bcc ≡ order.cc)
    × (executed.attachments ≡ [])
execute_version-recipients_example =
    execute_version-recipients as_it_is exact_copy parsed_one order executed refl refl refl
      execute_version-order
