-- ===== src/Proxy/Serve.antt =====
-- `serve_version` of src/proxy/mod.rs: the manifest of one version, out of the filtered packument. The
-- resolution of the packument before it and the headers after it are left out.
pub mod Answers
use npmfilter.Prelude.{
  String, Bool, true, Option, none, some, List, [], ◌∷◌, if◌then◌else◌, ◌>>=◌, ◌==◌,
}
use npmfilter.Prelude.Text.{format}
use npmfilter.Prelude.Tree
use npmfilter.Json
use npmfilter.Json.{Value, string, boolean, object, field, end, as_object}
use npmfilter.Policy.Types
use npmfilter.Policy.Types.{BlockRecord, PolicyOutcome}
use npmfilter.Proxy.Shape.{find_record}

abbrev pub Source : Type 0
Source = List (String × Value)

abbrev pub versions_in : Value → Option Source
versions_in packument = Json.get "versions" packument >>= as_object

abbrev pub exact_or_tag : Option Source → Option Source → String → Option String
exact_or_tag none tags spec = tags >>= Tree.get spec >>= Json.as_str
exact_or_tag (some versions) tags spec =
    if Tree.contains_key spec versions then some spec else tags >>= Tree.get spec >>= Json.as_str

-- An exact version, or a tag.
unfoldable pub resolve_spec : Value → String → Option String
resolve_spec packument spec =
    exact_or_tag (versions_in packument) (Json.get "dist-tags" packument >>= as_object) spec

-- `status.into_response()` with a body: 200, or 404.
pub data Response : Type 0 where
  found : (body : Value) → Response
  refused : (body : Value) → Response

-- `resolved.unwrap_or(spec)`.
abbrev pub target_of : Option String → String → String
target_of none spec = spec
target_of (some resolved) spec = resolved

abbrev withheld_error : String → String → String → String
withheld_error name spec target =
    if target == spec
    then format ("npmfilter withheld " ∷ name ∷ "@" ∷ spec ∷ [])
    else format ("npmfilter withheld " ∷ name ∷ "@" ∷ target ∷ ", which `" ∷ spec ∷ "` names" ∷ [])

abbrev action : String
action =
    "review it with npmfilter_recent_blocks then npmfilter_inspect, and approve with npmfilter_allow if the hook is legitimate — or request an older version explicitly. npmfilter does not move dist-tags onto older releases, so nothing was silently downgraded."

-- The two bodies, with their keys in order.
unfoldable pub withheld_body : String → String → String → BlockRecord → Value
withheld_body name spec target withheld = object (
    field "action" (string action) (
      field "code" (string "version_withheld") (
        field "detail" (string withheld.public_detail) (
          field "error" (string (withheld_error name spec target)) (
            field "npmfilter" (boolean true) (
              field "reason" (string (Types.as_str withheld.reason))
                (field "resolved_version" (string target) end)))))))

unfoldable pub unknown_body : String → String → Value
unknown_body name spec = object (
    field "code" (string "version_not_found") (
      field "error" (string (format ("version not found: " ∷ spec ∷ [])))
        (field "npmfilter" (boolean true) (field "package" (string name) end))))

abbrev pub refusal : String → String → String → Option BlockRecord → Response
refusal name spec target (some withheld) = refused (withheld_body name spec target withheld)
refusal name spec target none = refused (unknown_body name spec)

unfoldable pub version_not_found : String → String → Option String → List BlockRecord → Response
version_not_found name spec resolved blocked =
    let target = target_of resolved spec in refusal name spec target (find_record target blocked)

abbrev pub found_or : Option Value → Response → Response
found_or none otherwise = otherwise
found_or (some meta) otherwise = found meta

unfoldable pub serve_version : String → String → PolicyOutcome → Response
serve_version name spec outcome =
    let target = resolve_spec outcome.packument spec in
    let meta = target >>= λ version. versions_in outcome.packument >>= Tree.get version in
    found_or meta (version_not_found name spec target outcome.blocked)
