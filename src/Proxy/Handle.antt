-- ===== src/Proxy/Handle.antt =====
-- `handle` of src/proxy/mod.rs: which requests are refused, which are relayed as they are, and which go
-- through the policy engine. What the relaying and the engine answer is left out.
pub mod Relayed
use npmfilter.Prelude.{String, Bool, true, false, not, Option, none, some, [], ◌∷◌, if◌then◌else◌}
use npmfilter.Prelude.Text.{format}
use npmfilter.Prelude.Result.{Result, ok, err}
use npmfilter.External.{External}
use npmfilter.Store.Errors.{StoreError, error_text}
use npmfilter.Store.Types.{AuditEntry, event_publish, warning}
use npmfilter.Store.FailClosed.{Store, on_connection}
use npmfilter.Store.Audit.{append_audit}
use npmfilter.Proxy.Errors.{ProxyError, store_unavailable}
use npmfilter.Proxy.Foreign.{printable}
use npmfilter.Proxy.Route.{Route, packument, dist_tags, version, passthrough, invalid, classify}

-- `Method`: the three that are told apart, and the rest by their name.
pub data Method : Type 0 where
  get head post : Method
  other : (name : String) → Method

abbrev method_text : Method → String
method_text get = "GET"
method_text head = "HEAD"
method_text post = "POST"
method_text (other name) = name

abbrev is_passthrough : Route → Bool
is_passthrough passthrough = true
is_passthrough _ = false

unfoldable pub is_mutating : Method → Route → Bool
is_mutating get route = false
is_mutating head route = false
is_mutating post route = not (is_passthrough route)
is_mutating (other name) route = true

-- A request, as far as `handle` looks at it: the peer, and whether it carries `Authorization`.
pub record Request : Type 0 where
  pub method : Method
  pub path : String
  pub peer : Option String
  pub is_authorized : Bool

-- What becomes of a request.
pub data Handled : Type 0 where
  refused_path refused_mutation relayed : Handled
  failed : (error : ProxyError) → Handled
  serve_packument serve_dist_tags : (name : String) → Handled
  serve_version : (name spec : String) → Handled

abbrev package_in : Route → Option String
package_in (packument name) = some name
package_in (dist_tags name) = some name
package_in (version name spec) = some name
package_in passthrough = none
package_in invalid = none

abbrev or_text : String → Option String → String
or_text default none = default
or_text default (some text) = text

abbrev or_else : Option String → Option String → Option String
or_else none o = o
or_else (some text) o = some text

abbrev pub relay_or_fail : Result ProxyError (Unit {0}) × Store → Handled × Store
relay_or_fail (ok u, s) = (relayed, s)
relay_or_fail (err e, s) = (failed e, s)

abbrev pub serve : Route → Handled
serve (packument name) = serve_packument name
serve (dist_tags name) = serve_dist_tags name
serve (version name spec) = serve_version name spec
serve passthrough = relayed
serve invalid = refused_path

module _ (env : External) where
  open env use {Instant}

  unfoldable pub mutation_audit_entry : Request → Route → Instant → AuditEntry Instant
  unfolding format printable
  mutation_audit_entry request route now =
      let actor = or_text "<unknown peer>" request.peer in
      let authorization = if request.is_authorized then "present" else "absent" in
      let name =
        or_text "-" (or_else (package_in route) (package_in (classify env request.path))) in
      record {
        ts = now;
        event = event_publish;
        severity = warning;
        name = printable name 214;
        version = none;
        detail = format (
            "relayed "
            ∷ method_text request.method
            ∷ " "
            ∷ printable request.path 512
            ∷ " for actor "
            ∷ actor
            ∷ " (allow_publish_passthrough = true; authorization "
            ∷ authorization
            ∷ ", never recorded)"
            ∷ []);
      }

  abbrev pub recorded :
      {A : Type 0} → Result StoreError A × Store → Result ProxyError (Unit {0}) × Store
  recorded (ok id, s) = (ok tt, s)
  recorded (err error, s) = (
    err (
        store_unavailable (
          format (
            "the mutating request was not relayed because it could not be audited: "
            ∷ error_text env error
            ∷ []))),
    s,
  )

  unfoldable pub record_mutation : AuditEntry Instant → Store → Result ProxyError (Unit {0}) × Store
  record_mutation entry s = recorded (on_connection (append_audit env entry) s)

  abbrev pub by_method : Bool → Request → Instant → Store → Route → Handled × Store
  by_method allowed request now s route =
      if is_mutating request.method route
      then if allowed
        then relay_or_fail (record_mutation (mutation_audit_entry request route now) s)
        else (refused_mutation, s)
      else (serve route, s)

  abbrev pub handle_route : Bool → Request → Instant → Store → Route → Handled × Store
  handle_route allowed request now s invalid = (refused_path, s)
  handle_route allowed request now s route = by_method allowed request now s route

  -- `allowed` is `config.allow_publish_passthrough`.
  unfoldable pub handle : Bool → Request → Instant → Store → Handled × Store
  handle allowed request now s = handle_route allowed request now s (classify env request.path)
