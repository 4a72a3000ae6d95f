-- ===== src/Tests/Requests.antt =====
-- Requests on the control socket, and rows of the audit trail.

use npmfilter.Prelude.{◌≡◌, refl, none, arith, inl, inr}
use npmfilter.Prelude.Result.{ok}
use npmfilter.Prelude.Text.{format}
use npmfilter.Policy.Types.{no_integrity, as_str}
use npmfilter.Control.Protocol.{RequestEnvelope, deny}
use npmfilter.Control.Validate.{package_name}
use npmfilter.Control.Request.{validate}
use npmfilter.Control.Accepted.Names.{package_name-ok_iff}
use npmfilter.Control.Accepted.Requests.{validate-ok_iff}
use npmfilter.Mcp.Blocks.{split_reason}
use npmfilter.Mcp.Blocks.Reasons.{split_reason-row}
use npmfilter.Tests.Sample.{env}

package_name-ok_iff_example : package_name "package" "@corp/a-1" ≡ ok tt
package_name-ok_iff_example =
    (package_name-ok_iff "package" "@corp/a-1").1
      ((refl, omega arith), inr ("corp", "a-1", refl, ground arith, ground arith))

abbrev envelope : RequestEnvelope
envelope = record {
  version = 1;
  client = "cli";
  request = deny (record { name = "is-odd"; version = "3.0.1"; reason = none });
}

validate-ok_iff_example : validate env envelope ≡ ok tt
validate-ok_iff_example = (validate-ok_iff env envelope).1 (
  refl,
  ground arith,
  (((refl, omega arith), inl (ground arith)), ((refl, omega arith), ("3.0.1", refl)), tt),
)

split_reason-row_example : split_reason "no_integrity: no hash" ≡ (none, "no_integrity: no hash")
unfolding format as_str
split_reason-row_example = split_reason-row no_integrity "no hash"
