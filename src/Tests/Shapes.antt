-- ===== src/Tests/Shapes.antt =====
-- The shapes of the sample packument.
use npmfilter.Prelude.{◌≡◌, refl, some, [], ◌∷◌, true, ◌>>=◌}
use npmfilter.Prelude.Tree
use npmfilter.Json
use npmfilter.Json.{Value, string, object, field, end, boolean, as_object}
use npmfilter.Policy.Types.{BlockRecord, install_script}
use npmfilter.Policy.Meta.{install_hooks}
use npmfilter.Proxy.Shape.{
  abbreviate_version, abbreviate, withheld_dist_tags, has_install_script, find_record,
}
use npmfilter.Prelude.Bytes.{as_bytes, char_bytes}
use npmfilter.Proxy.Route.{decode_bytes}
use npmfilter.Proxy.Shape.Path.{
  encode_package_path, encode_char, escape_bytes, hex_digit, is_unreserved,
}
use npmfilter.Proxy.Shape.Path.Decoded.{decode_bytes-encode_package_path}
use npmfilter.Proxy.Shape.Abbreviated.{get-abbreviate_version, get-abbreviate_versions}
use npmfilter.Proxy.Shape.Tagged.{reported, reported-withheld_dist_tags}
use npmfilter.Tests.Sample.{env, plain, hooked, versions, tags, packument}

get-abbreviate_version_example :
    Json.get "hasInstallScript" (abbreviate_version env hooked) ≡ some (boolean true)
unfolding has_install_script install_hooks Tree.get
get-abbreviate_version_example = get-abbreviate_version env hooked _ "hasInstallScript" refl

get-abbreviate_versions_example :
    (Json.get "versions" (abbreviate env packument) >>= as_object >>= Tree.get "1.0.0")
    ≡ some (abbreviate_version env plain)
unfolding Tree.get
get-abbreviate_versions_example =
    get-abbreviate_versions env packument versions "1.0.0" refl (refl, (refl, tt))

-- The packument without version 1.1.0, and its record.
abbrev filtered : Value
filtered = object (
    field "dist-tags" (object (field "latest" (string "1.1.0") end))
      (field "versions" (object (field "1.0.0" plain end)) end))

abbrev withheld : BlockRecord
withheld = record {
  version = "1.1.0";
  reason = install_script;
  detail = "install: node x.js";
  public_detail = "runs a hook";
}

reported-withheld_dist_tags_example :
    reported "latest" (withheld_dist_tags filtered (withheld ∷ []))
    ≡ some (record { tag = "latest"; version = "1.1.0"; reason = install_script })
unfolding Tree.get find_record
reported-withheld_dist_tags_example =
    reported-withheld_dist_tags filtered (withheld ∷ []) tags "latest" "1.1.0" refl (refl, tt) refl

scoped : encode_package_path "@scope/é" ≡ "@scope%2F%C3%A9"
unfolding encode_package_path encode_char escape_bytes hex_digit is_unreserved char_bytes
scoped = refl

decode_bytes-encode_package_path_example :
    decode_bytes (as_bytes (encode_package_path "@scope/é")) ≡ as_bytes "@scope/é"
decode_bytes-encode_package_path_example = decode_bytes-encode_package_path "@scope/é"
