-- ===== src/UriRule/Tests.antt =====
-- The URI rule at concrete URIs.
use onym_audit.Prelude.{◌≡◌, refl, Bytes, codes, some, Result, err, uri_rule}
use onym_audit.UriRule.Host.{labels}
use onym_audit.UriRule.Check.{check}
use onym_audit.UriRule.Address.{address_of}
use onym_audit.Audit.Tests.{run_verify}

run_check : Bytes → Result (Unit {0})
unfolding run_verify check
run_check = check

bracket_inside : check (codes "https://a.ex[ample/x") ≡ err uri_rule
unfolding run_check
bracket_inside = refl

-- The local host, as a shortened address with a hexadecimal and an octal part.
address_short : address_of 4 (labels (codes "0x7f.0.01")) ≡ some 2130706433
unfolding address_of run_check
address_short = refl
