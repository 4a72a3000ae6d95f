-- ===== src/Control/Accepted/Requests.antt =====
-- The requests that `validate` of src/control/protocol.rs accepts.
use npmfilter.Prelude.{
  ℕ, ◌≤◌, String, Option, none, some, List, [], ◌∷◌, All, length, ◌≡◌, ◌⊎◌, ◌↔◌, arith, eq_iff,
  refl,
}
use npmfilter.Prelude.Result.{ok, err, ◌>>◌}
use npmfilter.External.{External}
use npmfilter.Control.Protocol.{
  max_label_bytes, max_reason_bytes, max_pins, max_path_bytes, max_seed_entries,
  max_integrity_bytes, max_command_bytes, PinRequest, SeedEntry, SeedArgs, Request, RequestEnvelope,
  status, recent_blocks, inspect, allow, deny, rules, ledger, seed,
}
use npmfilter.Control.Validate.{
  Checked, check_text, optional_text, pin_path, sha256_hex, package_name, exact_version,
  version_or_tag, check_integrity,
}
use npmfilter.Control.Request.{
  if_some, each, validate_pin, validate_verdict, validate_hook, validate_entry, validate_seed,
  validate_request, validate,
}
use npmfilter.Control.Accepted.Names.{IsPackageName, package_name-ok_iff}
use npmfilter.Control.Accepted.Fields.{
  IsText, IsPinPath, IsSha256, IsVersion, IsTag, IsIntegrity, check_text-ok_iff, pin_path-ok_iff,
  sha256_hex-ok_iff, exact_version-ok_iff, version_or_tag-ok_iff, check_integrity-ok_iff,
}

-- Absent, or with the property.
abbrev pub IfSome : (String → Type 0) → Option String → Type 0
IfSome P none = Unit
IfSome P (some s) = P s

if_some_iff :
    (check : String → Checked) (P : String → Type 0) (o : Option String)
    → ((s : String) → (check s ≡ ok tt) ↔ P s)
    → (if_some check o ≡ ok tt) ↔ IfSome P o
if_some_iff check P none h = (λ e. tt, λ e. refl)
if_some_iff check P (some s) h = h s

optional_text_iff :
    (field_name : String) (o : Option String) (limit : ℕ)
    → (optional_text field_name o limit ≡ ok tt) ↔ IfSome (IsText limit) o
unfolding optional_text
optional_text_iff field_name none limit = (λ e. tt, λ e. refl)
optional_text_iff field_name (some s) limit = check_text-ok_iff field_name s limit

then_iff : (a b : Checked) → (a >> b ≡ ok tt) ↔ ((a ≡ ok tt) × (b ≡ ok tt))
then_iff (ok u) b = ground arith
then_iff (err e) b = ground arith

each_iff :
    {A : Type 0} (check : A → Checked) (P : A → Type 0) (xs : List A)
    → ((x : A) → (check x ≡ ok tt) ↔ P x)
    → (each check xs ≡ ok tt) ↔ All P xs
unfolding each
each_iff check P [] h = (λ e. tt, λ e. refl)
each_iff check P (x ∷ xs) h =
    ground (arith, then_iff (check x) (each check xs), h x, each_iff check P xs h)

abbrev pub IsPin : PinRequest → Type 0
IsPin pin = IsPinPath pin.path × IfSome IsSha256 pin.sha256

IsPin-iff : (pin : PinRequest) → (validate_pin pin ≡ ok tt) ↔ IsPin pin
unfolding validate_pin
IsPin-iff pin = ground (
  arith,
  then_iff (pin_path "pins.path" pin.path) (if_some (sha256_hex "pins.sha256") pin.sha256),
  pin_path-ok_iff "pins.path" pin.path,
  if_some_iff (sha256_hex "pins.sha256") IsSha256 pin.sha256 (sha256_hex-ok_iff "pins.sha256"),
)

abbrev pub IsVerdict : Option String → Type 0
IsVerdict verdict = (verdict ≡ none) ⊎ (verdict ≡ some "allow") ⊎ (verdict ≡ some "deny")

IsVerdict-iff : (verdict : Option String) → (validate_verdict verdict ≡ ok tt) ↔ IsVerdict verdict
unfolding validate_verdict
IsVerdict-iff none = ground arith
IsVerdict-iff (some v) = ground (arith, eq_iff v "allow", eq_iff v "deny")

abbrev pub IsHook : String × String → Type 0
IsHook (hook, command) =
    ((hook ≡ "preinstall") ⊎ (hook ≡ "install") ⊎ (hook ≡ "postinstall"))
    × IsText max_command_bytes command

IsHook-iff : (hook : String × String) → (validate_hook hook ≡ ok tt) ↔ IsHook hook
unfolding validate_hook
IsHook-iff (hook, command) = ground (
  arith,
  eq_iff "preinstall" hook,
  eq_iff "install" hook,
  eq_iff "postinstall" hook,
  check_text-ok_iff "hooks" command max_command_bytes,
)

abbrev pub IsEntry : External → SeedEntry → Type 0
IsEntry env entry =
    IsPackageName entry.name
    × IsVersion env entry.version
    × IsIntegrity entry.integrity
    × IsText max_reason_bytes entry.integrity_source
    × IsText max_path_bytes entry.key
    × IsText max_integrity_bytes entry.tree_sha256
    × All IsHook entry.hooks

IsEntry-iff :
    (env : External) (entry : SeedEntry) → (validate_entry env entry ≡ ok tt) ↔ IsEntry env entry
unfolding validate_entry
IsEntry-iff env entry =
    let a = package_name "name" entry.name in
    let b = exact_version env "version" entry.version in
    let c = check_integrity "integrity" entry.integrity in
    let d = check_text "integrity_source" entry.integrity_source max_reason_bytes in
    let e = check_text "key" entry.key max_path_bytes in
    let f = check_text "tree_sha256" entry.tree_sha256 max_integrity_bytes in
    let g = each validate_hook entry.hooks in
    ground (
      arith,
      then_iff a b,
      then_iff (a >> b) c,
      then_iff (a >> b >> c) d,
      then_iff (a >> b >> c >> d) e,
      then_iff (a >> b >> c >> d >> e) f,
      then_iff (a >> b >> c >> d >> e >> f) g,
      package_name-ok_iff "name" entry.name,
      exact_version-ok_iff env "version" entry.version,
      check_integrity-ok_iff "integrity" entry.integrity,
      check_text-ok_iff "integrity_source" entry.integrity_source max_reason_bytes,
      check_text-ok_iff "key" entry.key max_path_bytes,
      check_text-ok_iff "tree_sha256" entry.tree_sha256 max_integrity_bytes,
      each_iff validate_hook IsHook entry.hooks IsHook-iff,
    )

abbrev pub IsSeed : External → SeedArgs → Type 0
IsSeed env args =
    IsText max_path_bytes args.root
    × (length args.entries ≤ max_seed_entries)
    × All (IsEntry env) args.entries

IsSeed-iff : (env : External) (args : SeedArgs) → (validate_seed env args ≡ ok tt) ↔ IsSeed env args
unfolding validate_seed
IsSeed-iff env args = ground (
  arith,
  check_text-ok_iff "root" args.root max_path_bytes,
  each_iff (validate_entry env) (IsEntry env) args.entries (IsEntry-iff env),
)

-- What each request must satisfy.
abbrev pub IsRequest : External → Request → Type 0
IsRequest env status = Unit
IsRequest env (recent_blocks args) = IfSome IsPackageName args.package_filter
IsRequest env (inspect args) = IsPackageName args.name × IfSome IsTag args.version
IsRequest env (allow args) =
    IsPackageName args.name
    × IsVersion env args.version
    × IfSome (IsText max_reason_bytes) args.reason
    × (length args.pins ≤ max_pins)
    × All IsPin args.pins
IsRequest env (deny args) =
    IsPackageName args.name
    × IsVersion env args.version
    × IfSome (IsText max_reason_bytes) args.reason
IsRequest env (rules args) = IfSome IsPackageName args.package_filter × IsVerdict args.verdict
IsRequest env (ledger args) = IsPackageName args.name
IsRequest env (seed args) = IsSeed env args

rule_iff :
    (env : External) (name version : String) (reason : Option String)
    → (package_name "package" name
          >> exact_version env "version" version
          >> optional_text "reason" reason max_reason_bytes
        ≡ ok tt)
      ↔ (IsPackageName name × IsVersion env version × IfSome (IsText max_reason_bytes) reason)
rule_iff env name version reason = ground (
  arith,
  then_iff (package_name "package" name) (exact_version env "version" version),
  then_iff (package_name "package" name >> exact_version env "version" version)
      (optional_text "reason" reason max_reason_bytes),
  package_name-ok_iff "package" name,
  exact_version-ok_iff env "version" version,
  optional_text_iff "reason" reason max_reason_bytes,
)

request_iff : (env : External) (r : Request) → (validate_request env r ≡ ok tt) ↔ IsRequest env r
unfolding validate_request
request_iff env status = (λ e. tt, λ e. refl)
request_iff env (recent_blocks args) =
    if_some_iff (package_name "package") IsPackageName args.package_filter
      (package_name-ok_iff "package")
request_iff env (inspect args) = ground (
  arith,
  then_iff (package_name "package" args.name) (if_some (version_or_tag "version") args.version),
  package_name-ok_iff "package" args.name,
  if_some_iff (version_or_tag "version") IsTag args.version (version_or_tag-ok_iff "version"),
)
request_iff env (allow args) = ground (
  arith,
  then_iff
      (package_name "package" args.name
        >> exact_version env "version" args.version
        >> optional_text "reason" args.reason max_reason_bytes)
      (each validate_pin args.pins),
  rule_iff env args.name args.version args.reason,
  each_iff validate_pin IsPin args.pins IsPin-iff,
)
request_iff env (deny args) = rule_iff env args.name args.version args.reason
request_iff env (rules args) = ground (
  arith,
  then_iff (if_some (package_name "package") args.package_filter) (validate_verdict args.verdict),
  if_some_iff (package_name "package") IsPackageName args.package_filter
      (package_name-ok_iff "package"),
  IsVerdict-iff args.verdict,
)
request_iff env (ledger args) = package_name-ok_iff "package" args.name
request_iff env (seed args) = IsSeed-iff env args

-- An envelope is accepted exactly if it declares version 1 of the protocol, its label is a text of at most 32
-- bytes, and every field of its request is within its length and its characters.
pub validate-ok_iff :
    (env : External) (envelope : RequestEnvelope)
    → (validate env envelope ≡ ok tt) ↔ (
        (envelope.version ≡ 1)
        × IsText max_label_bytes envelope.client
        × IsRequest env envelope.request)
unfolding validate
validate-ok_iff env envelope = ground (
  arith,
  then_iff (check_text "client" envelope.client max_label_bytes)
      (validate_request env envelope.request),
  check_text-ok_iff "client" envelope.client max_label_bytes,
  request_iff env envelope.request,
)
