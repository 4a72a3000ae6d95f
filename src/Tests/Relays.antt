-- ===== src/Tests/Relays.antt =====
-- Requests through `handle`.
use npmfilter.Prelude.{true, some, ◌≡◌, refl}
use npmfilter.Proxy.Route.{
  is_dot_segment, segments_of, classify, classify_segments, percent_decode, decode_bytes, escape,
  invalid,
}
use npmfilter.Proxy.Handle.{Request, other}
use npmfilter.Prelude.Bytes.{as_bytes}
use npmfilter.Tests.Sample.{env}

-- `DELETE /pkg`, where writes are allowed.
abbrev unpublish : Request
unpublish = record {
  method = other "DELETE";
  path = "/pkg";
  peer = some "127.0.0.1:50000";
  is_authorized = true;
}

-- A path with an escaped `..` is not classified as a package.
dotted : classify env "/%2e%2e/pkg" ≡ invalid
unfolding classify classify_segments segments_of is_dot_segment percent_decode decode_bytes as_bytes
    escape
dotted = refl
