-- ===== src/Sig/Time/Texts.antt =====
-- sig/sig.go: what ParseTime accepts is text.
use onym_audit.Prelude.{
  ℕ, zero, suc, ◌+◌, ◌-◌, ◌*◌, ◌<◌, ◌≡◌, refl, Bool, [], ◌∷◌, arith, Bytes, ok, ◌==◌, is_nil,
  require, plain, ◌>>=◌, ◌>>◌, Result, >>=-eq-ok, Bool-cases, inl, inr, ◌&&◌,
}
use onym_audit.Canon.Value.{is_digit}
use onym_audit.Utf8.{IsText, IsText-cons, utf8_run}
use onym_audit.Sig.Time.{Time, digits, sign, parse_time, format_time, second, before_year}
use onym_audit.Sig.Time.RoundTrip.{parse_time-format_time}

digit_read :
    (c n acc : ℕ) (s : Bytes) (r : ℕ) (rest : Bytes)
    → digits (suc n) acc (c ∷ s) ≡ ok (r, rest)
    → (c < 0x80) × (digits n (acc * 10 + (c - b'0')) s ≡ ok (r, rest))
unfolding digits
digit_read c n acc s r rest h = elim (Bool-cases (is_digit c)) [
  | inl e ↦ (ground arith, rw e at h)
  | inr e ↦ absurd (let z = rw e at h in cc)
]

digits-IsText :
    (n acc : ℕ) (s : Bytes) (r : ℕ) (rest : Bytes)
    → digits n acc s ≡ ok (r, rest)
    → IsText rest
    → IsText s
unfolding digits
digits-IsText zero acc s r rest h t = cc
digits-IsText (suc n) acc [] r rest h t = absurd (cc)
digits-IsText (suc n) acc (c ∷ s) r rest h t =
    let (d, e) = digit_read c n acc s r rest h in
    IsText-cons c s d (digits-IsText n (acc * 10 + (c - b'0')) s r rest e t)

sign-IsText : (x : ℕ) (s rest : Bytes) → x < 0x80 → sign x s ≡ ok rest → IsText rest → IsText s
unfolding sign
sign-IsText x [] rest l h t = absurd (cc)
sign-IsText x (c ∷ s) rest l h t = elim (Bool-cases (c == x)) [
  | inl e ↦
      (let z = rw e at h in IsText-cons c s (ground arith) (let r : s ≡ rest = cc z in rw r t))
  | inr e ↦ absurd (let z = rw e at h in cc)
]

after_digits :
    (n acc : ℕ) (s : Bytes) (k : ℕ × Bytes → Result Time) (t : Time)
    → ((p : ℕ × Bytes) → k p ≡ ok t → IsText p.1)
    → (digits n acc s >>= k) ≡ ok t
    → IsText s
after_digits n acc s k t f h =
    let (p, e, h1) = >>=-eq-ok (digits n acc s) k h in digits-IsText n acc s p.0 p.1 e (f p h1)

after_sign :
    (x : ℕ) (s : Bytes) (k : Bytes → Result Time) (t : Time)
    → x < 0x80
    → ((r : Bytes) → k r ≡ ok t → IsText r)
    → (sign x s >>= k) ≡ ok t
    → IsText s
after_sign x s k t l f h =
    let (r, e, h1) = >>=-eq-ok (sign x s) k h in sign-IsText x s r l e (f r h1)

at_end :
    (s : Bytes) (c : Bool) (i t : Time) → (require (is_nil s && c) plain >> ok i) ≡ ok t → IsText s
at_end [] c i t h = unfold utf8_run in refl
at_end (x ∷ s) c i t h = absurd (cc)

pub parse_time-IsText : (s : Bytes) (t : Time) → parse_time s ≡ ok t → IsText s
unfolding parse_time
parse_time-IsText s t h =
    after_digits 4 0 s _ t
      (λ y h1.
        after_sign b'-' y.1 _ t (omega arith)
          (λ s2 h2.
            after_digits 2 0 s2 _ t
              (λ m h3.
                after_sign b'-' m.1 _ t (omega arith)
                  (λ s4 h4.
                    after_digits 2 0 s4 _ t
                      (λ d h5.
                        after_sign b'T' d.1 _ t (omega arith)
                          (λ s6 h6.
                            after_digits 2 0 s6 _ t
                              (λ hh h7.
                                after_sign b':' hh.1 _ t (omega arith)
                                  (λ s8 h8.
                                    after_digits 2 0 s8 _ t
                                      (λ mi h9.
                                        after_sign b':' mi.1 _ t (omega arith)
                                          (λ s10 h10.
                                            after_digits 2 0 s10 _ t
                                              (λ c h11.
                                                after_sign b'Z' c.1 _ t (omega arith)
                                                  (λ s12 h12. at_end s12 _ _ t h12) h11)
                                              h10)
                                          h9)
                                      h8)
                                  h7)
                              h6)
                          h5)
                      h4)
                  h3)
              h2)
          h1)
      h

pub format_time-IsText :
    (t : Time) → t < before_year 10000 * 86400 * second → IsText (format_time t)
format_time-IsText t l = parse_time-IsText (format_time t) _ (parse_time-format_time t l)
