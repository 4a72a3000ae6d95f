-- ===== src/Proxy/Foreign.antt =====
-- Texts of src/proxy/mod.rs about hosts and for the log: `url_host`, `printable`, `summarize` and
-- `note_foreign_tarballs`.
use Prim.Native.Char.{Char, char, code}
use npmfilter.Prelude.{
  ℕ, ◌+◌, zero, String, Bool, false, ◌||◌, Option, none, some, List, [], ◌∷◌, ◌>>=◌, ltb, nat_eq,
  if◌then◌else◌, length, map,
}
use npmfilter.Prelude.Text.{
  format, join, decimal, is_blank, is_control, split_once_text, rsplit_once, first_piece,
  take_chars, map_chars, eq_ignore_ascii_case,
}
use npmfilter.Prelude.Tree
use npmfilter.External.{External}
use npmfilter.Json
use npmfilter.Json.{Value, as_object}
use npmfilter.Policy.Types.{BlockRecord, as_str}
use npmfilter.Policy.Meta.{version_tarball}
use npmfilter.Store.Types.{AuditEntry, event_foreign_tarball, warning}
use npmfilter.Store.FailClosed.{Store, on_connection}
use npmfilter.Store.Audit.{append_audit_once}

abbrev ends_authority : ℕ → Bool
ends_authority c = nat_eq c b'/' || nat_eq c b'?' || nat_eq c b'#'

-- `rsplit_once('@')`, or the whole.
abbrev after_user : String → Option (String × String) → String
after_user authority none = authority
after_user authority (some (user, host)) = host

abbrev non_empty : String → Option String
non_empty text = if is_blank text then none else some text

abbrev host_of : String → Option String
host_of authority = non_empty (after_user authority (rsplit_once b'@' authority))

unfoldable pub url_host : String → Option String
url_host url = do
  (scheme, rest) ← split_once_text "://" url
  host_of (first_piece ends_authority rest)

abbrev full_stop : Char
full_stop = char b'.' tt

abbrev defanged : Char → Char
defanged c = if is_control (code c) then full_stop else c

unfoldable pub printable : String → ℕ → String
unfolding is_control
printable raw limit = map_chars defanged (take_chars limit raw)

-- `reason=count` pairs, by the names of the reasons.
abbrev or_none : Option ℕ → ℕ
or_none none = 0
or_none (some n) = n

unfoldable pub count_reasons : List BlockRecord → List (String × ℕ) → List (String × ℕ)
count_reasons [] counts = counts
count_reasons (record_of ∷ blocked) counts =
    let reason = as_str record_of.reason in
    count_reasons blocked (Tree.insert reason (or_none (Tree.get reason counts) + 1) counts)

abbrev count_text : String × ℕ → String
count_text (reason, count) = format (reason ∷ "=" ∷ decimal count ∷ [])

unfoldable pub summarize : List BlockRecord → String
unfolding format decimal join
summarize blocked = join " " (map count_text (count_reasons blocked []))

-- The loop over the versions: how many are elsewhere, and the first few hosts.
abbrev is_upstream : String → Option String → Bool
is_upstream upstream_host none = false
is_upstream upstream_host (some host) = eq_ignore_ascii_case host upstream_host

abbrev or_no_host : Option String → String
or_no_host none = "<no host>"
or_no_host (some host) = host

abbrev note_host : String → Option String → ℕ × List String → ℕ × List String
note_host upstream_host host (count, hosts) =
    if is_upstream upstream_host host then (count, hosts) else (
      count + 1,
      if ltb (length hosts) 4 then Tree.add (printable (or_no_host host) 128) hosts else hosts,
    )

unfoldable pub foreign_hosts : String → List (String × Value) → ℕ × List String → ℕ × List String
foreign_hosts upstream_host [] found = found
foreign_hosts upstream_host ((version, meta) ∷ versions) found = elim (version_tarball meta) [
  | none ↦ foreign_hosts upstream_host versions found
  | some tarball ↦
      foreign_hosts upstream_host versions (note_host upstream_host (url_host tarball) found)
]

module _ (env : External) where
  open env use {Instant}

  unfoldable pub foreign_entry : String → String → ℕ → List String → Instant → AuditEntry Instant
  unfolding format join decimal printable
  foreign_entry name upstream_host count hosts now = record {
    ts = now;
    event = event_foreign_tarball;
    severity = warning;
    name = printable name 214;
    version = none;
    detail = format (
        decimal count
        ∷ " version(s) point dist.tarball at "
        ∷ join ", " hosts
        ∷ ", which is not the configured upstream host "
        ∷ upstream_host
        ∷ ". npmfilter relays the URL untouched, so those bytes are fetched from there; the version's dist.integrity is what verifies them"
        ∷ []);
  }

  -- The failure of the write is only logged.
  abbrev note_found : String → String → Instant → ℕ × List String → Store → Store
  note_found name upstream_host now (zero, hosts) s = s
  note_found name upstream_host now (count, hosts) s =
      (on_connection (append_audit_once env (foreign_entry name upstream_host count hosts now)) s).1

  abbrev note_versions : String → String → Instant → Option (List (String × Value)) → Store → Store
  note_versions name upstream_host now none s = s
  note_versions name upstream_host now (some versions) s =
      note_found name upstream_host now (foreign_hosts upstream_host versions (0, [])) s

  unfoldable pub note_foreign_tarballs : String → Value → String → Instant → Store → Store
  note_foreign_tarballs name document upstream_host now s =
      note_versions name upstream_host now (Json.get "versions" document >>= as_object) s
