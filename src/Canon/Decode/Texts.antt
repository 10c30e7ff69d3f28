-- ===== src/Canon/Decode/Texts.antt =====
-- The leaf parsers of canon/canon.go consume input, leave valid UTF-8 and return what is valid.
use native.Mathlib.Nat.{le_trans}
use onym_audit.Prelude.{
  ℕ, zero, suc, ◌<◌, ◌≤◌, ◌≡◌, refl, subst, [], ◌∷◌, ◌++◌, arith, ltb, ◌==◌, length, Bytes, ◌&&◌,
  ◌||◌, Ensures-map, Ensures-require, between, ok, malformed_ne, Ensures, holds, refused,
  Ensures-bind, Ensures-if, Ensures-of,
}
use onym_audit.Utf8.{
  Utf8State, IsText, utf8_run, utf8_run-append, start, start_before_ascii, encode_rune-IsText,
  IsText-tail, IsText-append, IsText-cons, is_surrogate,
}
use onym_audit.Canon.Decode.{ws, hex4, hex_digit, trail, unicode, escape, str_from, read_str}

pub length-ws : (s : Bytes) → length (ws s) ≤ length s
unfolding ws
length-ws [] = omega arith
length-ws (c ∷ s) = ground (arith, length-ws s)

pub ws-IsText : (s : Bytes) → IsText s → IsText (ws s)
unfolding ws
ws-IsText [] h = h
ws-IsText (c ∷ s) h = ground (arith, ws-IsText s, IsText-tail c s h)

-- What a leaf parser promises of its value and of the rest, on the input `s`.
pub record Leaves (s rest : Bytes) : Type 0 where
  pub text : IsText rest
  pub shorter : length rest < length s

hex_digit-Ensures : (c : ℕ) → Ensures (λ d. c < 0x80) (hex_digit c)
unfolding hex_digit
hex_digit-Ensures c = Ensures-of _ (λ d h. ground arith) (ground arith)

hex4-Ensures : (s : Bytes) → IsText s → Ensures (λ (r, rest). Leaves s rest) (hex4 s)
unfolding hex4
hex4-Ensures [] t = refused malformed_ne
hex4-Ensures (a ∷ []) t = refused malformed_ne
hex4-Ensures (a ∷ b ∷ []) t = refused malformed_ne
hex4-Ensures (a ∷ b ∷ c ∷ []) t = refused malformed_ne
hex4-Ensures (a ∷ b ∷ c ∷ d ∷ s) t = Ensures-bind (hex_digit-Ensures a) λ _ ha.
    Ensures-bind (hex_digit-Ensures b) λ _ hb. Ensures-bind (hex_digit-Ensures c) λ _ hc.
      Ensures-bind (hex_digit-Ensures d) λ _ hd.
        let t1 = IsText-tail a _ t ha in
        let t2 = IsText-tail b _ t1 hb in
        let t3 = IsText-tail c _ t2 hc in
        holds (record { text = IsText-tail d s t3 hd; shorter = omega arith })

trail-Ensures :
    (r : ℕ) (s : Bytes) → IsText s → Ensures (λ (w, rest). IsText w × Leaves s rest) (trail r s)
unfolding trail
trail-Ensures r [] t = refused malformed_ne
trail-Ensures r (x ∷ []) t = refused malformed_ne
trail-Ensures r (x ∷ y ∷ s) t =
    Ensures-require {P = λ z. IsText z.0 × Leaves (x ∷ y ∷ s) z.1} (x == b'\\' && y == b'u')
      malformed_ne
      λ e.
        let ty = IsText-tail x _ t (ground arith) in
        let ts = IsText-tail y s ty (ground arith) in
        Ensures-bind (hex4-Ensures s ts) λ (r2, rest) l.
          Ensures-require (between 0xdc00 0xdfff r2) malformed_ne λ _. holds (
            encode_rune-IsText _,
            record { text = l.text; shorter = le_trans l.shorter (omega arith) },
          )

unicode-Ensures :
    (s : Bytes) → IsText s → Ensures (λ (w, rest). IsText w × Leaves s rest) (unicode s)
unfolding unicode
unicode-Ensures s t = Ensures-bind (hex4-Ensures s t) λ (r, rest) l.
    Ensures-if (is_surrogate r)
      (λ _.
        Ensures-if (ltb r 0xdc00)
          (λ _. Ensures-map (trail-Ensures r rest l.text) λ z p.
            (p.0, record { text = p.1.text; shorter = omega (arith, p.1.shorter, l.shorter) }))
          (λ _. refused malformed_ne))
      (λ _. holds (encode_rune-IsText r, l))

escape-Ensures : (s : Bytes) → IsText s → Ensures (λ (w, rest). IsText w × Leaves s rest) (escape s)
unfolding escape
escape-Ensures [] t = refused malformed_ne
escape-Ensures (c ∷ s) t =
    Ensures-if (c == b'"' || c == b'\\' || c == b'/') (λ e. wrote c (ground arith) (ground arith))
      λ _.
        Ensures-if (c == b'b') (λ e. wrote 8 (omega arith) (ground arith))
          λ _.
            Ensures-if (c == b'f') (λ e. wrote 12 (omega arith) (ground arith))
              λ _.
                Ensures-if (c == b'n') (λ e. wrote 10 (omega arith) (ground arith))
                  λ _.
                    Ensures-if (c == b'r') (λ e. wrote 13 (omega arith) (ground arith))
                      λ _.
                        Ensures-if (c == b't') (λ e. wrote 9 (omega arith) (ground arith))
                          λ _.
                            Ensures-if (c == b'u') (λ e. longer (ground arith))
                              λ _. refused malformed_ne
  where
    wrote :
        (w : ℕ)
        → w < 0x80
        → c < 0x80
        → Ensures (λ (out, rest). IsText out × Leaves (c ∷ s) rest) (ok (w ∷ [], s))
    wrote w lw lc = holds (
      IsText-cons w [] lw (unfold utf8_run in refl),
      record { text = IsText-tail c s t lc; shorter = omega arith },
    )

    longer : c < 0x80 → Ensures (λ (out, rest). IsText out × Leaves (c ∷ s) rest) (unicode s)
    longer lc =
        Ensures-map (unicode-Ensures s (IsText-tail c s t lc))
          λ z p. (p.0, record { text = p.1.text; shorter = omega (arith, p.1.shorter) })

-- `q` is where the text built so far leaves the automaton.
str_from-Ensures :
    (f : ℕ) (out s : Bytes)
    → length s < f
    → utf8_run (utf8_run start out) s ≡ start
    → Ensures (λ (t, rest). IsText t × Leaves s rest) (str_from f out s)
unfolding str_from
str_from-Ensures zero out s l t = absurd (omega arith)
str_from-Ensures (suc f) out [] l t = refused malformed_ne
str_from-Ensures (suc f) out (c ∷ s) l t =
    Ensures-if (c == b'"')
      (λ e.
        let q = begun (ground arith) in
        holds (q, record { text = tail q (ground arith); shorter = omega arith }))
      λ _.
        Ensures-if (ltb c 0x20) (λ _. refused malformed_ne)
          λ _.
            Ensures-if (c == b'\\')
              (λ e.
                let q = begun (ground arith) in
                Ensures-bind (escape-Ensures s (tail q (ground arith))) λ (w, rest) p.
                  Ensures-map
                    (str_from-Ensures f (out ++ w) rest (omega (arith, p.1.shorter))
                      (rw (IsText-append out w q p.0) p.1.text))
                    λ z r. (
                      r.0,
                      record { text = r.1.text; shorter = omega (arith, r.1.shorter, p.1.shorter) },
                    ))
              λ _.
                Ensures-map
                  (str_from-Ensures f (out ++ c ∷ []) s (omega arith) (rw utf8_run-append t'))
                  λ z r. (r.0, record { text = r.1.text; shorter = omega (arith, r.1.shorter) })
  where
    t' : utf8_run (utf8_run (utf8_run start out) (c ∷ [])) s ≡ start
    t' = unfold utf8_run in t

    begun : c < 0x80 → IsText out
    begun lc = start_before_ascii (utf8_run start out) c s lc (unfold utf8_run in t)

    tail : IsText out → c < 0x80 → IsText s
    tail q lc = IsText-tail c s (subst (λ (x : Utf8State). utf8_run x (c ∷ s) ≡ start) q t) lc

-- A string ends within the input, and what it holds is valid UTF-8.
pub read_str-Ensures :
    (s : Bytes) → IsText s → Ensures (λ (t, rest). IsText t × Leaves s rest) (read_str s)
unfolding read_str
read_str-Ensures s t = str_from-Ensures (suc (length s)) [] s (omega arith) (unfold utf8_run in t)
