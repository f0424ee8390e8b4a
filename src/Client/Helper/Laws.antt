-- ===== src/Client/Helper/Laws.antt =====
-- The helpers of pkg/client/client_helper.go: base URLs and the names of tags.
use Prim.Native.String.{[] as empty, ◌∷◌ as cons}
use Prim.Native.Char.{Char}
use Prim.Native.String
use mathlib.Core.Option
use baton_tenable_vm.Strings.{keep_but, char_eq, cut, replace_first, trim_right_char, trim_space}
use text.Mathlib.TextLemmas.{nil-append, cons-append}
use baton_tenable_vm.Prelude.{
  Bool-cases, List, Option, String, [], arith, eq_iff, false, if◌then◌else◌, inl, inr, map, none,
  refl, some, string_eq, subst, sym, true, ℕ_eq, ℤ_eq, ◌==◌, ◌||◌, ◌∷◌, ◌≡◌, ◌≢◌,
}
use baton_tenable_vm.Client.Types.{TenableObject}
use baton_tenable_vm.Client.Action.{ok, failed, Result}
use baton_tenable_vm.Client.Helper.{
  normalize_base_url, parse_tag_names, after_parse, absolute, parse_tag_name,
}
use baton_tenable_vm.Client.Http.{UrlLibrary}
use baton_tenable_vm.Server.Keys.{accepted}

keep_but-twice :
    (sep c : Char) (t : String)
    → trim_right_char sep t ≡ t
    → trim_right_char sep (keep_but sep c t) ≡ keep_but sep c t
unfolding trim_right_char
keep_but-twice sep c empty trimmed = elim (Bool-cases (char_eq c sep)) [
  | inl same ↦ rw same refl
  | inr other ↦ rw (other, other) refl
]
keep_but-twice sep c (cons d t) trimmed = rw trimmed refl

trim_right_char-twice :
    (sep : Char) (s : String) → trim_right_char sep (trim_right_char sep s) ≡ trim_right_char sep s
unfolding trim_right_char
trim_right_char-twice sep empty = refl
trim_right_char-twice sep (cons c s) =
    keep_but-twice sep c (trim_right_char sep s) (trim_right_char-twice sep s)

-- An absolute URL over http or https that does not end in a slash
pub record IsBaseUrl (urls : UrlLibrary) (text : String) : Type 0 where
  pub parsed : urls.Url
  pub parses : urls.parse text ≡ ok parsed
  pub scheme : ((urls.scheme parsed == "http") || (urls.scheme parsed == "https")) ≡ true
  pub host : urls.host parsed ≢ ""
  pub nonempty : text ≢ ""
  pub trimmed : trim_right_char "/" text ≡ text

absolute_lem :
    (urls : UrlLibrary) (t text : String) (parsed : urls.Url)
    → absolute urls t parsed ≡ ok text
    → (text ≡ t)
      × (((urls.scheme parsed == "http") || (urls.scheme parsed == "https")) ≡ true)
      × ((urls.host parsed == "") ≡ false)
absolute_lem urls t text parsed accepted = ground arith

after_parse_lem :
    (urls : UrlLibrary) (t text : String) (r : Result urls.Url)
    → urls.parse t ≡ r
    → t ≢ ""
    → trim_right_char "/" t ≡ t
    → after_parse urls t r ≡ ok text
    → (text ≡ t) × IsBaseUrl urls text
after_parse_lem urls t text (failed reason) parses nonempty trimmed accepted = ground arith
after_parse_lem urls t text (ok parsed) parses nonempty trimmed accepted =
    let h = absolute_lem urls t text parsed accepted in
    subst (λ x. (x ≡ t) × IsBaseUrl urls x) (sym h.0)
      (
        refl,
        record {
          parsed = parsed;
          parses = parses;
          scheme = h.1;
          host = λ e. ground (arith, eq_iff (urls.host parsed) "");
          nonempty = nonempty;
          trimmed = trimmed;
        },
      )

checked_lem :
    (urls : UrlLibrary) (t text : String)
    → trim_right_char "/" t ≡ t
    → (if t == "" then failed "base URL is empty" else after_parse urls t (urls.parse t)) ≡ ok text
    → (text ≡ t) × IsBaseUrl urls text
checked_lem urls t text trimmed accepted =
    let parts : ((t == "") ≡ false) × (after_parse urls t (urls.parse t) ≡ ok text) =
      ground arith in
    after_parse_lem urls t text (urls.parse t) refl (λ e. ground (arith, eq_iff t "")) trimmed
      parts.1

-- A base URL that the client accepts is the configured one without the spaces around it and the
-- slashes at its end, and is absolute, with a host, over http or https.
pub normalize_base_url_lem :
    (urls : UrlLibrary) (base_url text : String)
    → normalize_base_url urls base_url ≡ ok text
    → (text ≡ trim_right_char "/" (trim_space base_url)) × IsBaseUrl urls text
unfolding normalize_base_url
normalize_base_url_lem urls base_url text accepted =
    checked_lem urls (trim_right_char "/" (trim_space base_url)) text
      (trim_right_char-twice "/" (trim_space base_url)) accepted

abbrev pub renamed : Option (String × String) → String → String
renamed none name = name
renamed (some (category, value)) name = String.◌++◌ category (cons "," value)

-- The name of a tag with a comma in place of the colon behind its category
abbrev pub comma_name : {Uuid : Type 0} → TenableObject Uuid → TenableObject Uuid
comma_name obj =
    if obj.type == "Tag" then record obj { name = renamed (cut ":" obj.name) obj.name } else obj

renamed-map :
    (c : Char) (s : String) (found : Option (String × String))
    → renamed (Option.map (λ (b : String × String). (cons c b.0, b.1)) found) (cons c s)
      ≡ cons c (renamed found s)
renamed-map c s none = refl
renamed-map c s (some (category, value)) = rw cons-append refl

replace_first-cut : (s : String) → replace_first ":" "," s ≡ renamed (cut ":" s) s
unfolding replace_first cut
replace_first-cut empty = refl
replace_first-cut (cons c s) = elim (Bool-cases (char_eq c ":")) [
  | inl colon ↦ rw (colon, nil-append) refl
  | inr other ↦ rw (other, replace_first-cut s) (sym (renamed-map c s (cut ":" s)))
]

parse_tag_name_lem :
    {Uuid : Type 0} (obj : TenableObject Uuid) → parse_tag_name obj ≡ comma_name obj
parse_tag_name_lem obj = rw (replace_first-cut obj.name) refl

-- In the objects of a permission update, a tag has its name cut at the first colon and put together
-- with a comma, and keeps it if there is no colon; the other objects stay as they are.
pub parse_tag_names_lem :
    {Uuid : Type 0} (objs : List (TenableObject Uuid)) → parse_tag_names objs ≡ map comma_name objs
unfolding parse_tag_names
parse_tag_names_lem [] = refl
parse_tag_names_lem (obj ∷ objs) = rw (parse_tag_name_lem obj, parse_tag_names_lem objs) refl
