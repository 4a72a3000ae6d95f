-- ===== src/Control/Request.antt =====
-- `validate` of src/control/protocol.rs: of an envelope, a request, the arguments of `seed` and one
-- entry of them.
use npmfilter.Prelude.{
  String, not, ◌||◌, Option, none, some, List, [], ◌∷◌, any, length, ltb, nat_eq, if◌then◌else◌,
  ◌==◌,
}
use npmfilter.Prelude.Result.{ok, err, ◌>>◌}
use npmfilter.External.{External}
use npmfilter.Policy.Meta.{install_hook_names}
use npmfilter.Control.Protocol.{
  protocol_version, max_label_bytes, max_reason_bytes, max_pins, max_path_bytes, max_seed_entries,
  max_integrity_bytes, max_command_bytes, wrong_version, too_many_pins, too_many_seed_entries,
  bad_verdict, bad_hook, PinRequest, SeedEntry, SeedArgs, Request, RequestEnvelope, status,
  recent_blocks, inspect, allow, deny, rules, ledger, seed,
}
use npmfilter.Control.Validate.{
  Checked, check_text, optional_text, pin_path, sha256_hex, package_name, exact_version,
  version_or_tag, check_integrity,
}

-- A check of a field that may be absent.
abbrev pub if_some : (String → Checked) → Option String → Checked
if_some check none = ok tt
if_some check (some value) = check value

-- `for x in xs { check(x)?; }`.
unfoldable pub each : {A : Type 0} → (A → Checked) → List A → Checked
each check [] = ok tt
each check (x ∷ xs) = check x >> each check xs

unfoldable pub validate_pin : PinRequest → Checked
validate_pin pin = pin_path "pins.path" pin.path >> if_some (sha256_hex "pins.sha256") pin.sha256

unfoldable pub validate_verdict : Option String → Checked
validate_verdict none = ok tt
validate_verdict (some v) = if v == "allow" || v == "deny" then ok tt else err bad_verdict

unfoldable pub validate_hook : String × String → Checked
validate_hook (hook, command) =
    if not (any (λ name. name == hook) install_hook_names)
    then err (bad_hook "hooks")
    else check_text "hooks" command max_command_bytes

unfoldable pub validate_entry : External → SeedEntry → Checked
validate_entry env entry =
    package_name "name" entry.name
    >> exact_version env "version" entry.version
    >> check_integrity "integrity" entry.integrity
    >> check_text "integrity_source" entry.integrity_source max_reason_bytes
    >> check_text "key" entry.key max_path_bytes
    >> check_text "tree_sha256" entry.tree_sha256 max_integrity_bytes
    >> each validate_hook entry.hooks

unfoldable pub validate_seed : External → SeedArgs → Checked
validate_seed env args =
    check_text "root" args.root max_path_bytes
    >> (if ltb max_seed_entries (length args.entries)
        then err (too_many_seed_entries (length args.entries))
        else each (validate_entry env) args.entries)

unfoldable pub validate_request : External → Request → Checked
validate_request env status = ok tt
validate_request env (recent_blocks args) = if_some (package_name "package") args.package_filter
validate_request env (inspect args) =
    package_name "package" args.name >> if_some (version_or_tag "version") args.version
validate_request env (allow args) =
    package_name "package" args.name
    >> exact_version env "version" args.version
    >> optional_text "reason" args.reason max_reason_bytes
    >> (if ltb max_pins (length args.pins)
        then err (too_many_pins max_pins)
        else each validate_pin args.pins)
validate_request env (deny args) =
    package_name "package" args.name
    >> exact_version env "version" args.version
    >> optional_text "reason" args.reason max_reason_bytes
validate_request env (rules args) =
    if_some (package_name "package") args.package_filter >> validate_verdict args.verdict
validate_request env (ledger args) = package_name "package" args.name
validate_request env (seed args) = validate_seed env args

unfoldable pub validate : External → RequestEnvelope → Checked
validate env envelope =
    if not (nat_eq envelope.version protocol_version)
    then err (wrong_version envelope.version)
    else check_text "client" envelope.client max_label_bytes
      >> validate_request env envelope.request
