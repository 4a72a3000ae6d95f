-- ===== src/Policy/Public.antt =====
-- `BlockReason::public_detail` of src/policy/mod.rs: what a registry client is told.
use npmfilter.Prelude.{String}
use npmfilter.Policy.Types.{
  BlockReason, integrity_changed, deny_rule, too_new, install_script, scripts_changed, no_integrity,
  install_script_quarantine,
}

unfoldable pub public_detail : BlockReason → String
public_detail integrity_changed =
    "this version no longer serves the dist.integrity npmfilter recorded when it first observed it. Published npm versions are immutable, so this is version replacement; run `npmfilter ledger <package>` for the recorded value. No approval can override it"
public_detail deny_rule = "an explicit deny rule withholds this version"
public_detail too_new =
    "this version is younger than the configured quarantine window, or publishes no usable publish time; run `npmfilter inspect <package> <version>`"
public_detail install_script =
    "this version runs an install hook (preinstall/install/postinstall). Run `npmfilter inspect <package> <version>` to read the commands, then `npmfilter allow` if they are legitimate"
public_detail scripts_changed =
    "the install-hook commands this version declares are not the ones its approval covered. Run `npmfilter inspect <package> <version>` and re-approve only once you know why the command changed"
public_detail no_integrity =
    "this version publishes no content hash — neither dist.integrity nor dist.shasum — so npmfilter cannot pin it, the integrity ledger cannot tell whether its bytes were replaced, and npm has nothing to verify a download against. Run `npmfilter inspect <package> <version>`"
public_detail install_script_quarantine =
    "this version runs an install hook and was published too recently. No approval overrides this window: a malicious release is normally found and pulled within a day or two, and reviewing it early cannot shorten that. Approve it now if you have reviewed it — the rule is recorded and takes effect when the window clears — or install a version already past it"
