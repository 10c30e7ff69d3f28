-- ===== src/NetGuard.antt =====
-- netguard/netguard.go: which addresses may be dialled. An address is its number, an IPv6 address
-- with its zone.

pub mod Ranges
mod Tests
use onym_audit.Prelude.{
  ℕ, ◌^◌, ◌+◌, ◌-◌, ◌*◌, ◌/◌, Bool, true, false, ◌&&◌, ◌||◌, not, [], ◌∷◌, List, ◌==◌, is_nil, any,
  Bytes, Option, none, some, Result, ok, err, plain, if◌then◌else◌, ◌>>=◌, require,
}

-- netip.Addr
pub data Addr : Type 0 where
  invalid : Addr
  v4 : ℕ → Addr
  v6 : ℕ → Bytes → Addr

-- netip.Prefix: its address and its length.
pub data Prefix : Type 0 where
  p4 : ℕ → ℕ → Prefix
  p6 : ℕ → ℕ → Prefix

abbrev pub quad : ℕ → ℕ → ℕ → ℕ → ℕ
quad a b c d = ((a * 256 + b) * 256 + c) * 256 + d

-- blocked
abbrev pub blocked : List Prefix
blocked =
    p4 (quad 0 0 0 0) 8
    ∷ p4 (quad 10 0 0 0) 8
    ∷ p4 (quad 100 64 0 0) 10
    ∷ p4 (quad 127 0 0 0) 8
    ∷ p4 (quad 169 254 0 0) 16
    ∷ p4 (quad 172 16 0 0) 12
    ∷ p4 (quad 192 0 0 0) 24
    ∷ p4 (quad 192 0 2 0) 24
    ∷ p4 (quad 192 88 99 0) 24
    ∷ p4 (quad 192 168 0 0) 16
    ∷ p4 (quad 198 18 0 0) 15
    ∷ p4 (quad 198 51 100 0) 24
    ∷ p4 (quad 203 0 113 0) 24
    ∷ p4 (quad 224 0 0 0) 4
    ∷ p4 (quad 240 0 0 0) 4
    ∷ p6 0 128
    ∷ p6 1 128
    ∷ p6 (0xffff * 2 ^ 32) 96
    ∷ p6 (0x0064ff9b * 2 ^ 96) 96
    ∷ p6 (0x0100 * 2 ^ 112) 64
    ∷ p6 (0x20010db8 * 2 ^ 96) 32
    ∷ p6 (0xfc00 * 2 ^ 112) 7
    ∷ p6 (0xfe80 * 2 ^ 112) 10
    ∷ p6 (0xff00 * 2 ^ 112) 8
    ∷ []

-- (Addr).Unmap: an IPv4 address mapped into IPv6 loses its zone too.
unfoldable pub unmap : Addr → Addr
unmap invalid = invalid
unmap (v4 a) = v4 a
unmap (v6 a zone) = if a / 2 ^ 32 == 0xffff then v4 (a - 0xffff * 2 ^ 32) else v6 a zone

-- (Prefix).Contains: of one family, and never where there is a zone.
unfoldable pub contains : Prefix → Addr → Bool
contains (p4 base bits) (v4 a) = a / 2 ^ (32 - bits) == base / 2 ^ (32 - bits)
contains (p6 base bits) (v6 a zone) =
    is_nil zone && (a / 2 ^ (128 - bits) == base / 2 ^ (128 - bits))
contains _ _ = false

abbrev outside_all : Addr → Bool
outside_all invalid = false
outside_all a = not (any (λ p. contains p a) blocked)

-- Public
unfoldable pub public : Addr → Bool
unfolding unmap contains
public a = outside_all (unmap a)

abbrev admit : Option Addr → Result (Unit {0})
admit none = err plain
admit (some a) = require (public a) plain

-- Control, over net.SplitHostPort and netip.ParseAddr
unfoldable pub control : (Bytes → Result Bytes) → (Bytes → Option Addr) → Bytes → Result (Unit {0})
control split parse_addr address = do host ← split address; admit (parse_addr host)
