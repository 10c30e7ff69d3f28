-- ===== src/Onymid/RoundTrip.antt =====
-- onymid/onymid.go: ParseAccountID reads AccountID's text back.
use onym_audit.Prelude.{
  append-nil, ℕ, zero, suc, ◌+◌, ◌*◌, ◌/◌, ◌%◌, ◌^◌, ◌≡◌, ◌<◌, refl, ◌∙◌, true, false, ◌||◌, [],
  ◌∷◌, ◌++◌, List, AreBytes, All-append, length, length-append_bytes, ◌==◌, Bytes, some, ok, arith,
}
use onym_audit.Onymid.{
  account_version, char32, value32, encode_base32, values32, join32, decode_base32, crc16, checksum,
  account_id, split_at, same_sum, parse_account_id,
}

value32-char32 : (q : ℕ) → q < 32 → value32 (char32 q) ≡ some q
value32-char32 q l = ground (arith, l)

no_newline : (q : ℕ) → q < 32 → (char32 q == b'\r' || char32 q == b'\n') ≡ false
no_newline q l = ground (arith, l)

values32-cons :
    (q : ℕ) (s : Bytes) (vs : List ℕ)
    → q < 32
    → values32 s ≡ some vs
    → values32 (char32 q ∷ s) ≡ some (q ∷ vs)
unfolding values32
values32-cons q s vs l e = rw (no_newline q l, value32-char32 q l, e) refl

-- A list of so many whole groups of five bytes.
data AreGroups : ℕ → Bytes → Type 0 where
  done : AreGroups zero []
  group :
      {n : ℕ} {s : Bytes} (a b c d e : ℕ)
      → AreBytes (a ∷ b ∷ c ∷ d ∷ e ∷ [])
      → AreGroups n s
      → AreGroups (suc n) (a ∷ b ∷ c ∷ d ∷ e ∷ s)

groups : (n : ℕ) (s : Bytes) → length s ≡ 5 * n → AreBytes s → AreGroups n s
groups zero [] l h = done
groups zero (a ∷ s) l h = absurd (omega (arith, l))
groups (suc n) (a ∷ b ∷ c ∷ d ∷ e ∷ s) l h =
    group a b c d e (h.0, (h.1.0, (h.1.1.0, (h.1.1.1.0, (h.1.1.1.1.0, tt)))))
      (groups n s (omega (arith, l)) h.1.1.1.1.1)
groups (suc n) [] l h = absurd (omega (arith, l))
groups (suc n) (a ∷ []) l h = absurd (omega (arith, l))
groups (suc n) (a ∷ b ∷ []) l h = absurd (omega (arith, l))
groups (suc n) (a ∷ b ∷ c ∷ []) l h = absurd (omega (arith, l))
groups (suc n) (a ∷ b ∷ c ∷ d ∷ []) l h = absurd (omega (arith, l))

abbrev quintets : (a b c d e : ℕ) → List ℕ → List ℕ
quintets a b c d e vs =
    (a / 8)
    ∷ (a % 8 * 4 + b / 64)
    ∷ (b / 2 % 32)
    ∷ (b % 2 * 16 + c / 16)
    ∷ (c % 16 * 2 + d / 128)
    ∷ (d / 4 % 32)
    ∷ (d % 4 * 8 + e / 32)
    ∷ (e % 32)
    ∷ vs

join32-quintets :
    (a b c d e : ℕ) (vs : List ℕ)
    → AreBytes (a ∷ b ∷ c ∷ d ∷ e ∷ [])
    → join32 (quintets a b c d e vs) ≡ a ∷ b ∷ c ∷ d ∷ e ∷ join32 vs
unfolding join32
join32-quintets a b c d e vs h =
    let h0 = h.0 in
    let h1 = h.1.0 in
    let h2 = h.1.1.0 in
    let h3 = h.1.1.1.0 in
    let h4 = h.1.1.1.1.0 in
    let e0 : a / 8 * 8 + (a % 8 * 4 + b / 64) / 4 ≡ a = omega (arith, h1) in
    let e1 : (a % 8 * 4 + b / 64) % 4 * 64 + b / 2 % 32 * 2 + (b % 2 * 16 + c / 16) / 16 ≡ b =
      omega (arith, h1, h2) in
    let e2 : (b % 2 * 16 + c / 16) % 16 * 16 + (c % 16 * 2 + d / 128) / 2 ≡ c =
      omega (arith, h2, h3) in
    let e3 : (c % 16 * 2 + d / 128) % 2 * 128 + d / 4 % 32 * 4 + (d % 4 * 8 + e / 32) / 8 ≡ d =
      omega (arith, h3, h4) in
    let e4 : (d % 4 * 8 + e / 32) % 8 * 32 + e % 32 ≡ e = omega (arith, h4) in
    rw (e0, e1, e2, e3, e4) refl

values32-quintets :
    (a b c d e : ℕ) (s t : Bytes) (vs : List ℕ)
    → AreBytes (a ∷ b ∷ c ∷ d ∷ e ∷ [])
    → values32 (encode_base32 s ++ t) ≡ some vs
    → values32 (encode_base32 (a ∷ b ∷ c ∷ d ∷ e ∷ s) ++ t) ≡ some (quintets a b c d e vs)
unfolding encode_base32
values32-quintets a b c d e s t vs h v = values32-cons (a / 8) _ _ (omega (arith, h.0)) (
    values32-cons (a % 8 * 4 + b / 64) _ _ (omega (arith, h.1.0)) (
      values32-cons (b / 2 % 32) _ _ (omega arith) (
        values32-cons (b % 2 * 16 + c / 16) _ _ (omega (arith, h.1.1.0)) (
          values32-cons (c % 16 * 2 + d / 128) _ _ (omega (arith, h.1.1.1.0)) (
            values32-cons (d / 4 % 32) _ _ (omega arith) (
              values32-cons (d % 4 * 8 + e / 32) _ _ (omega (arith, h.1.1.1.1.0))
                (values32-cons (e % 32) _ _ (omega arith) v)))))))

-- What follows whole groups is decoded as it is by itself.
values32-encode_base32 :
    (n : ℕ) (s t : Bytes) (ts : List ℕ)
    → AreGroups n s
    → values32 t ≡ some ts
    → (vs : List ℕ) × (values32 (encode_base32 s ++ t) ≡ some vs) × (join32 vs ≡ s ++ join32 ts)
values32-encode_base32 n s t ts done e = (ts, unfold encode_base32 in e, refl)
values32-encode_base32 n s t ts (group {n = m} {s = r} a b c d e h g) z =
    let (vs, v, j) = values32-encode_base32 m r t ts g z in
    (
      quintets a b c d e vs,
      values32-quintets a b c d e r t vs h v,
      join32-quintets a b c d e vs h ∙ rw j refl,
    )

decode_base32-encode_base32 :
    (n : ℕ) (s t : Bytes) (ts : List ℕ)
    → AreGroups n s
    → values32 t ≡ some ts
    → join32 ts ≡ []
    → decode_base32 (encode_base32 s ++ t) ≡ ok s
unfolding decode_base32
decode_base32-encode_base32 n s t ts g e j =
    let (vs, v, q) = values32-encode_base32 n s t ts g e in rw (v, q, j, append-nil s) refl

split_at-append : (s t : Bytes) → split_at (length s) (s ++ t) ≡ (s, t)
unfolding split_at
split_at-append [] t = refl
split_at-append (c ∷ s) t = rw (split_at-append s t) refl

sum-AreBytes : (p : Bytes) → AreBytes (checksum p)
sum-AreBytes p = (omega arith, (omega arith, tt))

sum_same : (p : Bytes) → same_sum (checksum p) (checksum p) ≡ true
sum_same p = rw (equal (crc16 p % 256), equal (crc16 p / 2 ^ 8 % 256)) refl
  where
    equal : (n : ℕ) → (n == n) ≡ true
    equal n = ground arith

-- After the text of an account ID may come what decodes to no byte.
parse_account_id-followed :
    (k t : Bytes) (ts : List ℕ)
    → AreBytes k
    → length k ≡ 32
    → values32 t ≡ some ts
    → join32 ts ≡ []
    → parse_account_id (account_id k ++ t) ≡ ok k
unfolding parse_account_id account_id
parse_account_id-followed k t ts h l v j =
    let p = account_version ∷ k in
    let size : length (k ++ checksum p) ≡ 34 =
      omega (arith, length-append_bytes k (checksum p), l) in
    let g =
      groups 7 (p ++ checksum p) (omega (arith, size))
        (omega arith, All-append _ k (checksum p) h (sum-AreBytes p)) in
    rw (decode_base32-encode_base32 7 (p ++ checksum p) t ts g v j, size, found, sum_same p) refl
  where
    found : split_at 32 (k ++ checksum (account_version ∷ k)) ≡ (k, checksum (account_version ∷ k))
    found = rw l at (split_at-append k (checksum (account_version ∷ k)))

-- ParseAccountID reads the account ID of a 32-byte key back to the key, and the same text with one
-- more character of the alphabet after it to the same key.
pub parse_account_id-account_id :
    (pub_key : Bytes) (x : ℕ)
    → AreBytes pub_key
    → length pub_key ≡ 32
    → x < 32
    → (parse_account_id (account_id pub_key) ≡ ok pub_key)
      × (parse_account_id (account_id pub_key ++ char32 x ∷ []) ≡ ok pub_key)
parse_account_id-account_id k x h l b = (
  rw (append-nil (account_id k)) at
      (parse_account_id-followed k [] [] h l nothing (unfold join32 in refl)),
  parse_account_id-followed k (char32 x ∷ []) (x ∷ []) h l (values32-cons x [] [] b nothing)
      (unfold join32 in refl),
)
  where
    nothing : values32 [] ≡ some []
    nothing = unfold values32 in refl
