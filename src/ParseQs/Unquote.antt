-- ===== src/ParseQs/Unquote.antt =====
-- `unquote` undoes percent-encoding.
use shadyurl.Common.{
  ℕ, zero, suc, ◌+◌, ◌/◌, ◌%◌, ◌<◌, ◌≡◌, ◌≢◌, refl, ap, ◌∙◌, Bool, true, false, not, ◌&&◌, [], ◌∷◌,
  Bytes, ◌==◌, ltb, if◌then◌else◌, arith,
}
use shadyurl.ParseQs.{is_hex, hex_pair, unquoted, skipped, unquote_from, unquote}

-- The hexadecimal digit of a number below 16, in either case of letters.
unfoldable pub hex_digit : Bool → ℕ → ℕ
hex_digit upper n = if ltb n 10 then b'0' + n else (if upper then 55 else 87) + n

abbrev pub IsByte : ℕ → Type 0
IsByte c = c < 256

-- A text and a way to write it in a URL-encoded form. Every byte may be '%' and two hexadecimal
-- digits, each in either case; a space may be '+'; and every byte but '%', '+', '&' and '=' may stand
-- for itself.
pub data IsQuoted : Bytes → Bytes → Type 0 where
  end_of_text : IsQuoted [] []
  as_itself :
      {s q : Bytes} (c : ℕ)
      → c ≢ b'%'
      → c ≢ b'+'
      → c ≢ b'&'
      → c ≢ b'='
      → IsQuoted s q
      → IsQuoted (c ∷ s) (c ∷ q)
  as_plus : {s q : Bytes} → IsQuoted s q → IsQuoted (b' ' ∷ s) (b'+' ∷ q)
  as_digits :
      {s q : Bytes} (c : ℕ) (first_upper second_upper : Bool)
      → IsByte c
      → IsQuoted s q
      → IsQuoted
          (c ∷ s)
          (b'%' ∷ hex_digit first_upper (c / 16) ∷ hex_digit second_upper (c % 16) ∷ q)

-- A test of the numbers under a bound, largest first.
passes_under : (ℕ → Bool) → ℕ → Bool
passes_under test zero = true
passes_under test (suc top) = if test top then passes_under test top else false

passes_under_at :
    (test : ℕ → Bool) (bound c : ℕ) → c < bound → passes_under test bound ≡ true → test c ≡ true
unfolding passes_under
passes_under_at test zero c below e = elim below [ ]
passes_under_at test (suc top) c below e = ground (arith, passes_under_at test top c)

-- What the decoder needs of the two digits of a byte.
abbrev decodes : Bool → Bool → ℕ → Bool
decodes first_upper second_upper c =
    let a = hex_digit first_upper (c / 16) in
    let b = hex_digit second_upper (c % 16) in
    hex_pair a b == c && (is_hex a && is_hex b) && (not (a == 0) && not (b == 0))

decodes_table :
    (first_upper second_upper : Bool) → passes_under (decodes first_upper second_upper) 256 ≡ true
unfolding passes_under hex_pair is_hex hex_digit
decodes_table true true = refl
decodes_table true false = refl
decodes_table false true = refl
decodes_table false false = refl

decodes_byte :
    (first_upper second_upper : Bool) (c : ℕ) → IsByte c → decodes first_upper second_upper c ≡ true
decodes_byte first_upper second_upper c h =
    passes_under_at (decodes first_upper second_upper) 256 c h
      (decodes_table first_upper second_upper)

abbrev digits_ok : ℕ → ℕ → Bool
digits_ok a b = (is_hex a && is_hex b) && (not (a == 0) && not (b == 0))

unquote_from_escape :
    (a b : ℕ) (s : Bytes)
    → digits_ok a b ≡ true
    → unquote_from 0 (b'%' ∷ a ∷ b ∷ s) ≡ hex_pair a b ∷ unquote_from 0 s
unfolding unquote_from unquoted skipped
unquote_from_escape a b s h = unfold is_hex hex_pair in ground arith

unquote_from_plus : (s : Bytes) → unquote_from 0 (b'+' ∷ s) ≡ b' ' ∷ unquote_from 0 s
unfolding unquote_from
unquote_from_plus s = refl

unquote_from_plain :
    (c : ℕ) (s : Bytes) → c ≢ b'%' → c ≢ b'+' → unquote_from 0 (c ∷ s) ≡ c ∷ unquote_from 0 s
unfolding unquote_from unquoted skipped
unquote_from_plain c s h k = ground arith

-- Two digits are decoded, whatever follows them.
unquote_from_digits :
    (c : ℕ) (first_upper second_upper : Bool) (s : Bytes)
    → IsByte c
    → unquote_from 0 (b'%' ∷ hex_digit first_upper (c / 16) ∷ hex_digit second_upper (c % 16) ∷ s)
      ≡ c ∷ unquote_from 0 s
unquote_from_digits c first_upper second_upper s h =
    let a = hex_digit first_upper (c / 16) in
    let b = hex_digit second_upper (c % 16) in
    ground (arith, decodes_byte first_upper second_upper c h, unquote_from_escape a b s)

-- Decoding gives the text back, in whichever way each of its bytes was written.
pub unquote_quoted : {s q : Bytes} → IsQuoted s q → unquote q ≡ s
unfolding unquote unquote_from
unquote_quoted end_of_text = refl
unquote_quoted (as_itself {s} {q} c percent plus amp eq h) =
    unquote_from_plain c q percent plus ∙ ap (◌∷◌ c) (unquote_quoted h)
unquote_quoted (as_plus {s} {q} h) = ap (◌∷◌ b' ') (unquote_quoted h)
unquote_quoted (as_digits {s} {q} c first_upper second_upper byte h) =
    unquote_from_digits c first_upper second_upper q byte ∙ ap (◌∷◌ c) (unquote_quoted h)
