-- ===== src/Canon/Decode/Sound.antt =====
-- Parse in canon/canon.go: the fuel suffices on every input, and what is returned is a document.
use onym_audit.Prelude.{
  ℕ, zero, suc, ◌+◌, ◌*◌, ◌<◌, ◌≤◌, ◌≡◌, ◌≢◌, refl, Bool, true, false, not, ◌||◌, [], ◌∷◌, arith,
  ltb, ◌==◌, length, all, is_nil, Bytes, Result, ok, err, out_of_fuel, malformed_ne, Ensures, holds,
  refused, Ensures-bind, Ensures-if, Ensures-map, Ensures-require, Ensures-ok, Ensures-out_of_fuel,
  ◌>>=◌, codes, if◌then◌else◌,
}
use onym_audit.Utf8.{IsText, IsText-tail, utf8_valid, utf8_valid→IsText}
use onym_audit.Canon.Value.{
  Value, Fields, Items, null, bool, str, object, array, no_fields, no_items, put, push, has_key,
  is_digit, IsDocument, AreMembers, AreElements, leading_zero, decimal, max_safe_integer, max_depth,
}
use onym_audit.Canon.Value.Maps.{put-AreMembers, push-AreElements}
use onym_audit.Canon.Decode.{
  Parser, ws, span_digits, check_number, read_number, lit, value_at, open_with, go_on, key, colon,
  value, members, items, finish, parse, is_fraction, read_str,
}
use onym_audit.Canon.Decode.Texts.{Leaves, length-ws, ws-IsText, read_str-Ensures}

-- What a parser of values promises on the input `s` at depth `d`.
abbrev Reads : ℕ → Bytes → Result (Value × Bytes) → Type 0
Reads d s = Ensures (λ (v, rest). IsDocument d v × Leaves s rest)

behind : (c : ℕ) (s rest : Bytes) → Leaves s rest → Leaves (c ∷ s) rest
behind c s rest l = record { text = l.text; shorter = omega (arith, l.shorter) }

at_once : (c : ℕ) (s : Bytes) → IsText (c ∷ s) → c < 0x80 → Leaves (c ∷ s) s
at_once c s t l = record { text = IsText-tail c s t l; shorter = omega arith }

further : (s r q : Bytes) → length r ≤ length s → Leaves r q → Leaves s q
further s r q h l = record { text = l.text; shorter = omega (arith, l.shorter) }

record Spans (s digits rest : Bytes) : Type 0 where
  digits_only : all is_digit digits ≡ true
  text : IsText s → IsText rest
  sizes : length digits + length rest ≡ length s

span_digits-Spans : (s : Bytes) → Spans s (span_digits s).0 (span_digits s).1
unfolding span_digits
span_digits-Spans [] = record { digits_only = refl; text = λ t. t; sizes = omega arith }
span_digits-Spans (c ∷ s) =
    let ih = span_digits-Spans s in
    elim (is_digit c) as (λ b. is_digit c ≡ b → Spans (c ∷ s) (split b).0 (split b).1) [
      | true ↦ λ e. record {
        digits_only = ground (arith, ih.digits_only);
        text = λ t. ih.text (IsText-tail c s t (ground arith));
        sizes = omega (arith, ih.sizes);
      }
      | false ↦ λ e. record { digits_only = refl; text = λ t. t; sizes = omega arith }
    ]
      refl
  where
    split : Bool → Bytes × Bytes
    split b = if b then (c ∷ (span_digits s).0, (span_digits s).1) else ([], c ∷ s)

read_number-Reads : (d : ℕ) (s : Bytes) → d ≤ max_depth → IsText s → Reads d s (read_number s)
unfolding read_number check_number IsDocument
read_number-Reads d s h t =
    let (ds, rest) = span_digits s in
    let sp = span_digits-Spans s in
    Ensures-if (is_fraction rest || leading_zero ds || is_nil ds) (λ _. refused malformed_ne)
      λ e.
        Ensures-if (ltb max_safe_integer (decimal 0 ds)) (λ _. refused malformed_ne)
          λ l. holds (
            (
              h,
              record {
                digits = sp.digits_only;
                not_empty = ground arith;
                no_leading_zero = ground arith;
                in_range = ground arith;
              },
            ),
            record { text = sp.text t; shorter = omega (arith, sp.sizes, pos ds (ground arith)) },
          )
  where
    pos : (ds : Bytes) → is_nil ds ≡ false → 0 < length ds
    pos [] e = cc
    pos (c ∷ ds) e = omega arith

lit-Reads :
    (word : Bytes) (v : Value) (d : ℕ) (s : Bytes)
    → d ≤ max_depth
    → all (λ c. ltb c 0x80) word ≡ true
    → IsText s
    → IsDocument d v
    → Ensures
        (λ (w, rest). IsDocument d w × IsText rest × (length rest + length word ≡ length s))
        (lit word v s)
unfolding lit
lit-Reads [] v d s h a t hv = holds (hv, t, omega arith)
lit-Reads (w ∷ word) v d [] h a t hv = refused malformed_ne
lit-Reads (w ∷ word) v d (c ∷ s) h a t hv =
    Ensures-if (c == w)
      (λ e.
        Ensures-map (lit-Reads word v d s h (ground arith) (IsText-tail c s t (ground arith)) hv)
          λ z p. (p.0, p.1, omega (arith, p.2)))
      λ _. refused malformed_ne

-- The switch on the first character, with the parsers of what a bracket opens.
value_at-Reads :
    (d : ℕ) (s : Bytes) (ms is : Parser Value)
    → d ≤ max_depth
    → IsText s
    → ((t : Bytes) → IsText t → length t < length s → Reads d t (ms t))
    → ((t : Bytes) → IsText t → length t < length s → Reads d t (is t))
    → Reads d s (value_at ms is s)
unfolding value_at
value_at-Reads d [] ms is h t km ki = refused malformed_ne
value_at-Reads d (c ∷ s) ms is h t km ki =
    Ensures-if (c == b'{') (λ e. wider (km s (tail (ground arith)) (omega arith)))
      λ _.
        Ensures-if (c == b'[') (λ e. wider (ki s (tail (ground arith)) (omega arith)))
          λ _.
            Ensures-if (c == b'"') (λ e. quoted (ground arith))
              λ _.
                Ensures-if (c == b't')
                  (λ _. word (codes "true") (bool true) (omega arith) refl (unfold IsDocument in h))
                  λ _.
                    Ensures-if (c == b'f')
                      (λ _.
                        word (codes "false") (bool false) (omega arith) refl
                          (unfold IsDocument in h))
                      λ _.
                        Ensures-if (c == b'n')
                          (λ _.
                            word (codes "null") null (omega arith) refl (unfold IsDocument in h))
                          λ _.
                            Ensures-if (is_digit c) (λ _. read_number-Reads d (c ∷ s) h t)
                              λ _. refused malformed_ne
  where
    tail : c < 0x80 → IsText s
    tail l = IsText-tail c s t l

    wider : {r : Result (Value × Bytes)} → Reads d s r → Reads d (c ∷ s) r
    wider r = Ensures-map r λ z p. (p.0, behind c s z.1 p.1)

    quoted : c < 0x80 → Reads d (c ∷ s) (read_str s >>= λ (u, rest). ok (str u, rest))
    quoted l = Ensures-bind (read_str-Ensures s (tail l)) λ z p.
        let doc : IsDocument d (str z.0) = unfold IsDocument in (h, p.0) in
        holds (doc, behind c s z.1 p.1)

    word :
        (w : Bytes) (v : Value)
        → 0 < length w
        → all (λ x. ltb x 0x80) w ≡ true
        → IsDocument d v
        → Reads d (c ∷ s) (lit w v (c ∷ s))
    word w v l a hv =
        Ensures-map (lit-Reads w v d (c ∷ s) h a t hv)
          λ z p. (p.0, record { text = p.1; shorter = omega (arith, p.2) })

open_with-Reads :
    (d close : ℕ) (empty : Value) (loop : Parser Value) (s : Bytes)
    → close < 0x80
    → IsText s
    → IsDocument d empty
    → Reads d s (loop s)
    → Reads d s (open_with close empty loop s)
unfolding open_with
open_with-Reads d close empty loop [] l t h k = k
open_with-Reads d close empty loop (c ∷ s) l t h k =
    Ensures-if (c == close) (λ e. holds (h, at_once c s t (ground arith))) λ _. k

go_on-Reads :
    (d close : ℕ) (whole : Value) (loop : Parser Value) (s : Bytes)
    → close < 0x80
    → IsText s
    → IsDocument d whole
    → ((t : Bytes) → IsText t → length t < length s → Reads d t (loop t))
    → Reads d s (go_on close whole loop s)
unfolding go_on
go_on-Reads d close whole loop [] l t h k = refused malformed_ne
go_on-Reads d close whole loop (c ∷ s) l t h k =
    Ensures-if (c == b',')
      (λ e.
        Ensures-map (k s (IsText-tail c s t (ground arith)) (omega arith))
          λ z p. (p.0, behind c s z.1 p.1))
      λ _.
        Ensures-if (c == close) (λ e. holds (h, at_once c s t (ground arith)))
          λ _. refused malformed_ne

key-Ensures : (s : Bytes) → IsText s → Ensures (λ (k, rest). IsText k × Leaves s rest) (key s)
unfolding key
key-Ensures [] t = refused malformed_ne
key-Ensures (c ∷ s) t =
    Ensures-if (c == b'"')
      (λ e.
        Ensures-map (read_str-Ensures s (IsText-tail c s t (ground arith)))
          λ z p. (p.0, behind c s z.1 p.1))
      λ _. refused malformed_ne

colon-Ensures : (s : Bytes) → IsText s → Ensures (Leaves s) (colon s)
unfolding colon
colon-Ensures [] t = refused malformed_ne
colon-Ensures (c ∷ s) t =
    Ensures-if (c == b':') (λ e. holds (at_once c s t (ground arith))) λ _. refused malformed_ne

-- One induction on the fuel: what is left is shorter, so the fuel stays above its bound.
mutual
  unfolding value members items IsDocument

  value-Reads : (f d : ℕ) (s : Bytes) → 2 * length s < f → IsText s → Reads d s (value f d s)
  value-Reads zero d s l t = absurd (omega arith)
  value-Reads (suc f) d s l t =
      Ensures-if (ltb max_depth d) (λ _. refused malformed_ne)
        λ e.
          value_at-Reads d s _ _ (ground arith) t
            (λ r tr lr.
              Ensures-map
                (open_with-Reads d b'}' (object no_fields) _ (ws r) (omega arith) (ws-IsText r tr)
                  ((ground arith, tt))
                  (members-Reads f d no_fields (ws r) (omega (arith, length-ws r)) (ws-IsText r tr)
                    (ground arith) tt))
                λ z p. (p.0, further r (ws r) z.1 (length-ws r) p.1))
            (λ r tr lr.
              Ensures-map
                (open_with-Reads d b']' (array no_items) _ (ws r) (omega arith) (ws-IsText r tr)
                  ((ground arith, tt))
                  (items-Reads f d no_items (ws r) (omega (arith, length-ws r)) (ws-IsText r tr)
                    (ground arith) tt))
                λ z p. (p.0, further r (ws r) z.1 (length-ws r) p.1))

  members-Reads :
      (f d : ℕ) (obj : Fields) (s : Bytes)
      → suc (2 * length s) < f
      → IsText s
      → d ≤ max_depth
      → AreMembers d obj
      → Reads d s (members f d obj s)
  members-Reads zero d obj s l t h m = absurd (omega arith)
  members-Reads (suc f) d obj s l t h m =
      Ensures-bind (key-Ensures (ws s) (ws-IsText s t)) λ (k, s1) p1.
        Ensures-require (not (has_key k obj)) malformed_ne λ e.
          Ensures-bind (colon-Ensures (ws s1) (ws-IsText s1 p1.1.text)) λ s2 p2.
            let l1 = length-ws s in
            let l2 = p1.1.shorter in
            let l3 = length-ws s1 in
            let l4 = p2.shorter in
            let l5 = length-ws s2 in
            Ensures-bind (value-Reads f (suc d) (ws s2) (omega arith) (ws-IsText s2 p2.text))
              λ (v, s3) p3.
                let l6 = p3.1.shorter in
                let l7 = length-ws s3 in
                let m' = put-AreMembers d k v obj (ground arith) p1.0 p3.0 m in
                Ensures-map
                  (go_on-Reads d b'}' (object (put k v obj)) _ (ws s3) (omega arith)
                    (ws-IsText s3 p3.1.text) ((h, m'))
                    λ r tr lr. members-Reads f d (put k v obj) r (omega arith) tr h m')
                  λ z q. (q.0, further s (ws s3) z.1 (omega arith) q.1)

  items-Reads :
      (f d : ℕ) (arr : Items) (s : Bytes)
      → suc (2 * length s) < f
      → IsText s
      → d ≤ max_depth
      → AreElements d arr
      → Reads d s (items f d arr s)
  items-Reads zero d arr s l t h m = absurd (omega arith)
  items-Reads (suc f) d arr s l t h m =
      let l1 = length-ws s in
      Ensures-bind (value-Reads f (suc d) (ws s) (omega arith) (ws-IsText s t)) λ (v, s1) p1.
        let l2 = p1.1.shorter in
        let l3 = length-ws s1 in
        let m' = push-AreElements d arr v m p1.0 in
        Ensures-map
          (go_on-Reads d b']' (array (push arr v)) _ (ws s1) (omega arith) (ws-IsText s1 p1.1.text)
            ((h, m')) λ r tr lr. items-Reads f d (push arr v) r (omega arith) tr h m')
          λ z q. (q.0, further s (ws s1) z.1 (omega arith) q.1)

finish-Ensures : (v : Value) (s : Bytes) → IsDocument 0 v → Ensures (AreMembers 0) (finish v s)
unfolding finish IsDocument
finish-Ensures (object fs) [] h = holds h.1
finish-Ensures (object fs) (c ∷ s) h = refused malformed_ne
finish-Ensures _ s h = refused malformed_ne

pub parse-Ensures : (raw : Bytes) → Ensures (AreMembers 0) (parse raw)
unfolding parse
parse-Ensures raw = Ensures-require (utf8_valid raw) malformed_ne λ e.
    let t = ws-IsText raw (utf8_valid→IsText raw e) in
    Ensures-bind (value-Reads (2 * length raw + 1) 0 (ws raw) (omega (arith, length-ws raw)) t)
      λ (v, rest) p. finish-Ensures v (ws rest) p.0

-- The fuel that `parse` hands out is enough for every input: the parser always ends.
pub parse_terminates : (raw : Bytes) → parse raw ≢ err out_of_fuel
parse_terminates raw = Ensures-out_of_fuel (parse-Ensures raw)

pub parse-AreMembers : (raw : Bytes) (obj : Fields) → parse raw ≡ ok obj → AreMembers 0 obj
parse-AreMembers raw obj e = Ensures-ok (parse-Ensures raw) e

-- Every object that the parser accepts has distinct keys at every level, is nested at most 64 deep,
-- holds only valid UTF-8 texts and only integers up to 2^53 - 1 in their one decimal form.
pub parse-IsDocument : (raw : Bytes) (obj : Fields) → parse raw ≡ ok obj → IsDocument 0 (object obj)
unfolding IsDocument
parse-IsDocument raw obj e = (omega arith, Ensures-ok (parse-Ensures raw) e)
