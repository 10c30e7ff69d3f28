-- ===== src/NetGuard/Ranges.antt =====
-- netguard/netguard.go: the blocked prefixes as ranges of addresses.
use onym_audit.Prelude.{
  ℕ, ◌+◌, ◌*◌, ◌/◌, ◌<◌, ◌^◌, ◌≡◌, Bool, true, false, not, arith, any, List, ◌==◌, between, [], ◌∷◌,
  Bytes,
}
use onym_audit.NetGuard.{v4, v6, quad, public}

-- The IPv4 addresses that are not globally routable unicast, as ranges: this network, private,
-- shared, loopback, link-local, IETF, documentation, relay, benchmarking, multicast and reserved.
abbrev pub special_ranges : List (ℕ × ℕ)
special_ranges =
    (quad 0 0 0 0, quad 0 255 255 255)
    ∷ (quad 10 0 0 0, quad 10 255 255 255)
    ∷ (quad 100 64 0 0, quad 100 127 255 255)
    ∷ (quad 127 0 0 0, quad 127 255 255 255)
    ∷ (quad 169 254 0 0, quad 169 254 255 255)
    ∷ (quad 172 16 0 0, quad 172 31 255 255)
    ∷ (quad 192 0 0 0, quad 192 0 0 255)
    ∷ (quad 192 0 2 0, quad 192 0 2 255)
    ∷ (quad 192 88 99 0, quad 192 88 99 255)
    ∷ (quad 192 168 0 0, quad 192 168 255 255)
    ∷ (quad 198 18 0 0, quad 198 19 255 255)
    ∷ (quad 198 51 100 0, quad 198 51 100 255)
    ∷ (quad 203 0 113 0, quad 203 0 113 255)
    ∷ (quad 224 0 0 0, quad 239 255 255 255)
    ∷ (quad 240 0 0 0, quad 255 255 255 255)
    ∷ []

abbrev pub special_v4 : ℕ → Bool
special_v4 a = any (λ r. between r.0 r.1 a) special_ranges

-- Division by a prefix's size tests for its range.
prefix_8 :
    (a base : ℕ) → (a / 16777216 == base) ≡ between (base * 16777216) (base * 16777216 + 16777215) a
prefix_8 a base = ground arith

prefix_10 :
    (a base : ℕ) → (a / 4194304 == base) ≡ between (base * 4194304) (base * 4194304 + 4194303) a
prefix_10 a base = ground arith

prefix_12 :
    (a base : ℕ) → (a / 1048576 == base) ≡ between (base * 1048576) (base * 1048576 + 1048575) a
prefix_12 a base = ground arith

prefix_15 : (a base : ℕ) → (a / 131072 == base) ≡ between (base * 131072) (base * 131072 + 131071) a
prefix_15 a base = ground arith

prefix_16 : (a base : ℕ) → (a / 65536 == base) ≡ between (base * 65536) (base * 65536 + 65535) a
prefix_16 a base = ground arith

prefix_24 : (a base : ℕ) → (a / 256 == base) ≡ between (base * 256) (base * 256 + 255) a
prefix_24 a base = ground arith

prefix_4 :
    (a base : ℕ)
    → (a / 268435456 == base) ≡ between (base * 268435456) (base * 268435456 + 268435455) a
prefix_4 a base = ground arith

-- An IPv4 address is dialled exactly when it lies in none of these ranges.
pub public_v4 : (a : ℕ) → public (v4 a) ≡ not (special_v4 a)
unfolding public
public_v4 a = rw (
  prefix_8 a 0,
  prefix_8 a 10,
  prefix_10 a 401,
  prefix_8 a 127,
  prefix_16 a 43518,
  prefix_12 a 2753,
  prefix_24 a 12582912,
  prefix_24 a 12582914,
  prefix_24 a 12605539,
  prefix_16 a 49320,
  prefix_15 a 25353,
  prefix_24 a 12989284,
  prefix_24 a 13303921,
  prefix_4 a 14,
  prefix_4 a 15,
)

-- An IPv4 address written as an IPv6 one is judged as the IPv4 address, with or without a zone.
pub public_mapped :
    (a : ℕ) (zone : Bytes) → a < 2 ^ 32 → public (v6 (0xffff * 2 ^ 32 + a) zone) ≡ public (v4 a)
unfolding public
public_mapped a zone h = ground arith

-- Every other IPv6 address that carries a zone is taken for public, link-local addresses included.
pub public_zoned :
    (a z : ℕ) (zone : Bytes) → (a / 2 ^ 32 == 0xffff) ≡ false → public (v6 a (z ∷ zone)) ≡ true
unfolding public
public_zoned a z zone h = rw h
