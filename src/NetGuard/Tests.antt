-- ===== src/NetGuard/Tests.antt =====
-- The address ranges at concrete addresses.
use onym_audit.Prelude.{◌≡◌, ◌+◌, ◌*◌, ◌^◌, refl, not, true, ◌∷◌, []}
use onym_audit.NetGuard.{v4, v6, quad, public}
use onym_audit.NetGuard.Ranges.{special_v4, public_v4, public_zoned}

public_v4_example : public (v4 (quad 10 1 2 3)) ≡ not (special_v4 (quad 10 1 2 3))
public_v4_example = public_v4 (quad 10 1 2 3)

-- fe80::1%1
public_zoned_example : public (v6 (0xfe80 * 2 ^ 112 + 1) (b'1' ∷ [])) ≡ true
public_zoned_example = public_zoned (0xfe80 * 2 ^ 112 + 1) b'1' [] refl
