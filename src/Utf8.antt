-- ===== src/Utf8.antt =====
-- What canon/canon.go uses of unicode/utf8, unicode/utf16 and strings.Builder: utf8.Valid as the
-- automaton of its accept ranges, WriteRune, IsSurrogate and DecodeRune.
use onym_audit.Prelude.{
  ℕ, ◌+◌, ◌-◌, ◌*◌, ◌/◌, ◌%◌, ◌<◌, ◌≡◌, refl, ap, ◌∙◌, Bool, true, false, ◌||◌, [], ◌∷◌, ◌++◌,
  arith, ltb, ◌==◌, between, if◌then◌else◌, Bytes,
}

-- How many continuation bytes are due, and which the next may be; `bad` is final.
pub data Utf8State : Type 0 where
  start due_one due_two due_three after_e0 after_ed after_f0 after_f4 bad : Utf8State

first_byte : ℕ → Utf8State
first_byte c =
    if ltb c 0x80
    then start
    else if between 0xc2 0xdf c
    then due_one
    else if c == 0xe0
    then after_e0
    else if c == 0xed
    then after_ed
    else if between 0xe1 0xef c
    then due_two
    else if c == 0xf0
    then after_f0
    else if between 0xf1 0xf3 c
    then due_three
    else if c == 0xf4
    then after_f4
    else bad

unfoldable pub utf8_step : Utf8State → ℕ → Utf8State
unfolding first_byte
utf8_step start c = first_byte c
utf8_step due_one c = if between 0x80 0xbf c then start else bad
utf8_step due_two c = if between 0x80 0xbf c then due_one else bad
utf8_step due_three c = if between 0x80 0xbf c then due_two else bad
utf8_step after_e0 c = if between 0xa0 0xbf c then due_one else bad
utf8_step after_ed c = if between 0x80 0x9f c then due_one else bad
utf8_step after_f0 c = if between 0x90 0xbf c then due_two else bad
utf8_step after_f4 c = if between 0x80 0x8f c then due_two else bad
utf8_step bad c = bad

unfoldable pub utf8_run : Utf8State → Bytes → Utf8State
utf8_run q [] = q
utf8_run q (c ∷ s) = utf8_run (utf8_step q c) s

abbrev pub is_start : Utf8State → Bool
is_start start = true
is_start _ = false

-- utf8.Valid
unfoldable pub utf8_valid : Bytes → Bool
utf8_valid s = is_start (utf8_run start s)

-- The text is valid UTF-8.
abbrev pub IsText : Bytes → Type 0
IsText s = utf8_run start s ≡ start

-- utf16.IsSurrogate
unfoldable pub is_surrogate : ℕ → Bool
is_surrogate r = between 0xd800 0xdfff r

-- utf16.DecodeRune of a leading and a trailing surrogate
unfoldable pub decode_pair : ℕ → ℕ → ℕ
decode_pair r r2 = (r - 0xd800) * 1024 + (r2 - 0xdc00) + 0x10000

abbrev continuation : ℕ → ℕ
continuation x = 0x80 + x % 64

-- (*strings.Builder).WriteRune; what is no scalar value is written as U+FFFD
unfoldable pub encode_rune : ℕ → Bytes
unfolding is_surrogate
encode_rune r =
    if ltb r 0x80
    then r ∷ []
    else if ltb r 0x800
    then (0xc0 + r / 64) ∷ continuation r ∷ []
    else if is_surrogate r || ltb 0x10ffff r
    then 0xef ∷ 0xbf ∷ 0xbd ∷ []
    else if ltb r 0x10000
    then (0xe0 + r / 4096) ∷ continuation (r / 64) ∷ continuation r ∷ []
    else (0xf0 + r / 262144) ∷ continuation (r / 4096) ∷ continuation (r / 64) ∷ continuation r ∷ []

pub utf8_run-append :
    (q : Utf8State) (s t : Bytes) → utf8_run q (s ++ t) ≡ utf8_run (utf8_run q s) t
unfolding utf8_run
utf8_run-append q [] t = refl
utf8_run-append q (c ∷ s) t = utf8_run-append (utf8_step q c) s t

pub utf8_run-cons :
    (q : Utf8State) (c : ℕ) (s : Bytes) → utf8_run q (c ∷ s) ≡ utf8_run (utf8_step q c) s
unfolding utf8_run
utf8_run-cons q c s = refl

pub utf8_run_bad : (s : Bytes) → utf8_run bad s ≡ bad
unfolding utf8_run utf8_step
utf8_run_bad [] = refl
utf8_run_bad (c ∷ s) = utf8_run_bad s

-- A byte below 0x80 stands alone.
pub utf8_step_ascii : (c : ℕ) → c < 0x80 → utf8_step start c ≡ start
unfolding utf8_step
utf8_step_ascii c h = ground arith

-- Where a text goes on validly after such a byte, the byte began a rune.
pub start_before_ascii :
    (q : Utf8State) (c : ℕ) (s : Bytes) → c < 0x80 → utf8_run (utf8_step q c) s ≡ start → q ≡ start
unfolding utf8_step
start_before_ascii start c s l h = refl
start_before_ascii bad c s l h = ground (arith, utf8_run_bad s)
start_before_ascii _ c s l h = ground (arith, utf8_run_bad s)

pub IsText-append : (s t : Bytes) → IsText s → IsText t → IsText (s ++ t)
IsText-append s t h k = utf8_run-append start s t ∙ ap (λ q. utf8_run q t) h ∙ k

pub encode_rune-IsText : (r : ℕ) → IsText (encode_rune r)
unfolding encode_rune utf8_run utf8_step
encode_rune-IsText r = ground arith

pub utf8_valid→IsText : (s : Bytes) → utf8_valid s ≡ true → IsText s
unfolding utf8_valid
utf8_valid→IsText s h = ground arith

pub IsText→utf8_valid : (s : Bytes) → IsText s → utf8_valid s ≡ true
unfolding utf8_valid
IsText→utf8_valid s h = rw h

-- A text goes on as one behind a byte below 0x80.
pub IsText-tail : (c : ℕ) (s : Bytes) → IsText (c ∷ s) → c < 0x80 → IsText s
unfolding utf8_run
IsText-tail c s h l = cc (utf8_step_ascii c l)

pub IsText-cons : (c : ℕ) (s : Bytes) → c < 0x80 → IsText s → IsText (c ∷ s)
unfolding utf8_run
IsText-cons c s l h = rw (utf8_step_ascii c l) h
