-- ===== src/Tests/Sample.antt =====
-- A small registry: seconds for instants, texts for versions, and packuments of one package.
use npmfilter.Prelude.{
  ℕ, ◌-◌, length, String, Bool, false, not, Option, none, some, List, [], ◌∷◌, ◌==◌, leb, nat_eq,
  if◌then◌else◌,
}
use npmfilter.Prelude.Int.{ℤ, pos, negsuc}
use npmfilter.Prelude.Text.{any_char, is_blank, str_compare}
use npmfilter.External.{External}
use npmfilter.Json.{Value, string, object, end, field}
use npmfilter.Policy.Types.{PolicyConfig, Rule, allow}

abbrev seconds : String → Option ℕ
seconds raw =
    if raw == "1970-01-01T00:00:00Z"
    then some 0
    else if raw == "1970-01-12T00:00:00Z"
    then some 950_400
    else none

abbrev non_negative : ℤ → Option ℕ
non_negative (pos n) = some n
non_negative (negsuc n) = none

abbrev starts_with_dot : List ℕ → Bool
starts_with_dot [] = false
starts_with_dot (byte ∷ bytes) = nat_eq byte 46

abbrev pub one_file : List (String × String)
one_file = ("index.js", "00") ∷ []

abbrev pub env : External
env = record {
  Instant = ℕ;
  parse_from_rfc3339 = seconds;
  to_rfc3339 = λ at. "1970-01-01T00:00:00Z";
  num_seconds = λ now at. if leb at now then pos (now - at) else negsuc (at - now - 1);
  timestamp = pos;
  from_timestamp = non_negative;
  Version = String;
  parse_version = λ raw. if is_blank raw then none else some raw;
  compare_parsed = str_compare;
  pre_is_empty = λ version. not (any_char (nat_eq b'-') version);
  sha256 = λ bytes. length bytes ∷ [];
  to_text = λ v. "{}";
  map_to_string = λ m. elim m [ [] ↦ some "{}" | _ ↦ some "{one}" ];
  map_from_str =
      λ raw. if raw == "{}" then some [] else if raw == "{one}" then some one_file else none;
  debug = λ raw. raw;
  from_utf8_lossy = λ bytes. if starts_with_dot bytes then ".." else "decoded";
}

-- Eleven and a half days.
abbrev pub now : ℕ
now = 1_000_000

abbrev pub config : PolicyConfig
config = record {
  min_age_days = 7;
  bypass_scopes = "@corp" ∷ [];
  allow_dist_tag_downgrade = false;
  install_script_quarantine_days = 3;
}

abbrev pub old_date : String
old_date = "1970-01-01T00:00:00Z"

abbrev pub new_date : String
new_date = "1970-01-12T00:00:00Z"

abbrev hashed : String → Value
hashed integrity = object (field "integrity" (string integrity) end)

abbrev pub plain : Value
plain = object (field "dist" (hashed "sha512-AAAA") end)

abbrev pub hooked : Value
hooked = object (
    field "dist" (hashed "sha512-BBBB")
      (field "scripts" (object (field "install" (string "node x.js") end)) end))

abbrev pub approval : Rule
approval = record {
  name = "pkg";
  version = "1.1.0";
  verdict = allow;
  integrity = some "sha512-BBBB";
  scripts_sha256 = none;
  reason = none;
  actor = none;
}

abbrev pub versions : List (String × Value)
versions = ("1.0.0", plain) ∷ ("1.1.0", hooked) ∷ []

abbrev pub times : List (String × Value)
times = ("1.0.0", string old_date) ∷ ("1.1.0", string old_date) ∷ ("modified", string old_date) ∷ []

abbrev pub tags : List (String × Value)
tags = ("latest", string "1.1.0") ∷ []

abbrev pub packument : Value
packument = object (
    field "dist-tags" (object (field "latest" (string "1.1.0") end)) (
      field "name" (string "pkg") (
        field "readme" (string "hello") (
          field "time"
            (object (
              field "1.0.0" (string old_date)
                (field "1.1.0" (string old_date) (field "modified" (string old_date) end))))
            (field "versions" (object (field "1.0.0" plain (field "1.1.0" hooked end))) end)))))
