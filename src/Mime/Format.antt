-- ===== src/Mime/Format.antt =====
-- The format of the file of MIME types: a line for each entry, an extension and a type.
use shadyurl.Common.{
  ℕ, ◌≡◌, ◌≢◌, refl, sym, ap, ◌∙◌, true, false, none, some, List, [], ◌∷◌, ◌++◌, append-nil,
  append_assoc, Bytes, is_space, All, Dict, insert, arith, All-append,
}
use shadyurl.Common.Result.{ok}
use shadyurl.Mime.{skip_blanks, take_word, add_line, add_lines, FileText, text, make_mime_type_map}

-- A text of one word.
abbrev pub IsWord : Bytes → Type 0
IsWord [] = ⊥
IsWord (c ∷ s) = All (λ x. is_space x ≡ false) (c ∷ s)

abbrev pub IsEntry : Bytes × Bytes → Type 0
IsEntry (extension, type) = IsWord extension × IsWord type

-- The entries, one to a line, with the given separator.
abbrev pub printed : ℕ → List (Bytes × Bytes) → Bytes
printed sep [] = []
printed sep ((extension, type) ∷ entries) = extension ++ sep ∷ (type ++ b'\n' ∷ printed sep entries)

-- The entries in their order, where a later one takes the place of one with the same extension.
abbrev pub insert_all : List (Bytes × Bytes) → Dict Bytes → Dict Bytes
insert_all [] m = m
insert_all ((extension, type) ∷ entries) m = insert_all entries (insert extension type m)

take_word-append :
    (s : Bytes) (c : ℕ) (t : Bytes)
    → All (λ x. is_space x ≡ false) s
    → is_space c ≡ true
    → take_word (s ++ c ∷ t) ≡ (s, c ∷ t)
unfolding take_word
take_word-append [] c t h b = ground (arith, b)
take_word-append (x ∷ s) c t (e, h) b = ground (arith, take_word-append s c t h b, e)

take_word-whole : (s : Bytes) → All (λ x. is_space x ≡ false) s → take_word s ≡ (s, [])
unfolding take_word
take_word-whole [] h = refl
take_word-whole (x ∷ s) (e, h) = ground (arith, take_word-whole s h, e)

skip_blanks-IsWord : (s t : Bytes) → IsWord s → skip_blanks (s ++ t) ≡ s ++ t
unfolding skip_blanks
skip_blanks-IsWord [] t h = absurd h
skip_blanks-IsWord (x ∷ s) t (e, h) = ground (arith, e)

skip_blanks-sep : (sep : ℕ) (s : Bytes) → is_space sep ≡ true → IsWord s → skip_blanks (sep ∷ s) ≡ s
unfolding skip_blanks
skip_blanks-sep sep [] b h = absurd h
skip_blanks-sep sep (x ∷ s) b (e, h) = ground (arith, b, e)

IsWord-All : (s : Bytes) → IsWord s → All (λ x. is_space x ≡ false) s
IsWord-All [] h = tt
IsWord-All (x ∷ s) h = h

add_line_lem :
    (sep : ℕ) (extension type : Bytes) (m : Dict Bytes)
    → is_space sep ≡ true
    → IsWord extension
    → IsWord type
    → add_line (extension ++ sep ∷ type) m ≡ insert extension type m
unfolding add_line
add_line_lem sep extension type m b h k =
    let second = skip_blanks-sep sep type b k in
    rw
      (
        skip_blanks-IsWord extension (sep ∷ type) h,
        take_word-append extension sep type (IsWord-All extension h) b,
        second,
        take_word-whole type (IsWord-All type k),
      )
      refl

add_lines-line :
    (read line s : Bytes) (m : Dict Bytes)
    → All (λ x. x ≢ b'\n') line
    → add_lines (some read) (line ++ b'\n' ∷ s) m ≡ add_lines none s (add_line (read ++ line) m)
unfolding add_lines
add_lines-line read [] s m h = rw append-nil refl
add_lines-line read (c ∷ line) s m (e, h) =
    let rest = add_lines-line (read ++ c ∷ []) line s m h in
    let whole = append_assoc read (c ∷ []) line in ground (arith, rest, whole, e)

add_lines-first :
    (line s : Bytes) (m : Dict Bytes)
    → All (λ x. x ≢ b'\n') line
    → line ≢ []
    → add_lines none (line ++ b'\n' ∷ s) m ≡ add_lines none s (add_line line m)
unfolding add_lines
add_lines-first [] s m h n = absurd (n refl)
add_lines-first (c ∷ line) s m (e, h) n = ground (arith, add_lines-line (c ∷ []) line s m h, e)

blank-ne : (c : ℕ) → is_space c ≡ false → c ≢ b'\n'
blank-ne c h = ground arith

words_one_line : (s : Bytes) → All (λ x. is_space x ≡ false) s → All (λ x. x ≢ b'\n') s
words_one_line [] h = tt
words_one_line (c ∷ s) (e, h) = (blank-ne c e, words_one_line s h)

entry_line :
    (sep : ℕ) (extension type : Bytes)
    → sep ≢ b'\n'
    → IsWord extension
    → IsWord type
    → All (λ x. x ≢ b'\n') (extension ++ sep ∷ type) × (extension ++ sep ∷ type ≢ [])
entry_line sep [] type n h k = absurd h
entry_line sep (c ∷ extension) type n h k = (
  All-append (λ x. x ≢ b'\n') (c ∷ extension) (sep ∷ type) (words_one_line (c ∷ extension) h)
      (n, words_one_line type (IsWord-All type k)),
  λ e. cc,
)

add_lines-printed :
    (sep : ℕ) (entries : List (Bytes × Bytes)) (m : Dict Bytes)
    → is_space sep ≡ true
    → sep ≢ b'\n'
    → All IsEntry entries
    → add_lines none (printed sep entries) m ≡ insert_all entries m
unfolding add_lines
add_lines-printed sep [] m b n h = refl
add_lines-printed sep ((extension, type) ∷ entries) m b n ((e, t), h) =
    let (one_line, some_line) = entry_line sep extension type n e t in
    ap (λ x. add_lines none x m)
      (sym (append_assoc extension (sep ∷ type) (b'\n' ∷ printed sep entries)))
    ∙ add_lines-first (extension ++ sep ∷ type) (printed sep entries) m one_line some_line
    ∙ ap (add_lines none (printed sep entries)) (add_line_lem sep extension type m b e t)
    ∙ add_lines-printed sep entries (insert extension type m) b n h

-- A file of one line for each entry, whose extension and type are words, with a blank between them,
-- is read as the table of its entries, of which a later one takes the place of one with the same
-- extension.
pub make_mime_type_map-printed :
    (read : Bytes → FileText) (file default : Bytes) (sep : ℕ) (entries : List (Bytes × Bytes))
    → is_space sep ≡ true
    → sep ≢ b'\n'
    → All IsEntry entries
    → read file ≡ text (printed sep entries) false
    → make_mime_type_map read file default
      ≡ ok (record {
        mimetypes = insert_all entries [];
        mimetypes_file = file;
        default_mimetype = default;
      })
unfolding make_mime_type_map
make_mime_type_map-printed read file default sep entries b n h e =
    ground (arith, e, add_lines-printed sep entries [] b n h)
