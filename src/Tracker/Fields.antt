-- ===== src/Tracker/Fields.antt =====
-- What a reader of CSV gets from an escaped field.
use layer_mount.Base.{
  ℕ, Bool, true, ◌||◌, ◌≡◌, refl, ap, ◌∙◌, false, [], ◌∷◌, ◌++◌, arith, ◌==◌, eq_nat, if◌then◌else◌,
  Bool-cases, inl, inr, ==_eq, append_assoc,
}
use layer_mount.Layer.Disk.{WString}
use layer_mount.Tracker.{quote, apostrophe, starts_formula, has_special, double_quotes, csv_escape}

-- Whether a field ends here: at the end of the text, at a comma or at an end of line.
abbrev pub ends_field : WString → Bool
ends_field [] = true
ends_field (c ∷ rest) = c == 44 || (c == 10 || c == 13)

abbrev with_first : ℕ → WString × WString → WString × WString
with_first c (content, rest) = (c ∷ content, rest)

-- The content of a quoted field behind its opening quote, as RFC 4180 reads it, and the text behind
-- the field: two quotes are one, and a single one ends the field.
unfoldable pub read_quoted : WString → WString × WString
read_quoted [] = ([], [])
read_quoted (c ∷ []) = if c == quote then ([], []) else (c ∷ [], [])
read_quoted (c ∷ d ∷ rest) =
    let doubled = with_first quote (read_quoted rest) in
    let plain = with_first c (read_quoted (d ∷ rest)) in
    if c == quote then (if d == quote then doubled else ([], d ∷ rest)) else plain

-- The content of a field without quotes, which goes up to where the field ends.
unfoldable pub read_unquoted : WString → WString × WString
read_unquoted [] = ([], [])
read_unquoted (c ∷ rest) =
    let longer = with_first c (read_unquoted rest) in
    if ends_field (c ∷ rest) then ([], c ∷ rest) else longer

-- The content of the first field of a text, and the text behind the field.
unfoldable pub read_field : WString → WString × WString
unfolding read_quoted read_unquoted
read_field [] = ([], [])
read_field (c ∷ rest) = if c == quote then read_quoted rest else read_unquoted (c ∷ rest)

read_quoted-plain :
    (c : ℕ) (rest : WString)
    → (c == quote) ≡ false
    → read_quoted (c ∷ rest) ≡ with_first c (read_quoted rest)
unfolding read_quoted
read_quoted-plain c [] other = rw other refl
read_quoted-plain c (d ∷ rest) other = rw other refl

read_quoted-end :
    (tail : WString) → ends_field tail ≡ true → read_quoted (quote ∷ tail) ≡ ([], tail)
unfolding read_quoted
read_quoted-end [] ends = refl
read_quoted-end (c ∷ tail) ends = elim (Bool-cases (c == quote)) [
  | inl same ↦ ground (arith, same, ends)
  | inr other ↦ rw other refl
]

read_quoted-double_quotes :
    (field tail : WString)
    → ends_field tail ≡ true
    → read_quoted (double_quotes field ++ quote ∷ tail) ≡ (field, tail)
unfolding double_quotes read_quoted
read_quoted-double_quotes [] tail ends = read_quoted-end tail ends
read_quoted-double_quotes (c ∷ rest) tail ends = elim (Bool-cases (c == quote)) [
  | inl same ↦
      rw (same, ==_eq c quote same)
        (ap (with_first quote) (read_quoted-double_quotes rest tail ends))
  | inr other ↦ rw other (
      read_quoted-plain c (double_quotes rest ++ quote ∷ tail) other
      ∙ ap (with_first c) (read_quoted-double_quotes rest tail ends))
]

read_unquoted-end : (tail : WString) → ends_field tail ≡ true → read_unquoted tail ≡ ([], tail)
unfolding read_unquoted
read_unquoted-end [] ends = refl
read_unquoted-end (c ∷ tail) ends = rw ends refl

not_end : (c : ℕ) (rest : WString) → has_special (c ∷ rest) ≡ false → ends_field (c ∷ rest) ≡ false
unfolding has_special
not_end c rest plain = ground (arith, plain)

rest_plain : (c : ℕ) (rest : WString) → has_special (c ∷ rest) ≡ false → has_special rest ≡ false
unfolding has_special
rest_plain c rest plain = ground (arith, plain)

read_unquoted-plain :
    (field tail : WString)
    → has_special field ≡ false
    → ends_field tail ≡ true
    → read_unquoted (field ++ tail) ≡ (field, tail)
unfolding read_unquoted
read_unquoted-plain [] tail plain ends = read_unquoted-end tail ends
read_unquoted-plain (c ∷ rest) tail plain ends =
    rw (not_end c rest plain)
      (ap (with_first c) (read_unquoted-plain rest tail (rest_plain c rest plain) ends))

unquoted_end : (c : ℕ) (rest : WString) → ends_field (c ∷ rest) ≡ true → (c == quote) ≡ false
unquoted_end c rest ends = ground (arith, ends)

unquoted : (c : ℕ) (rest : WString) → has_special (c ∷ rest) ≡ false → (c == quote) ≡ false
unfolding has_special
unquoted c rest plain = ground (arith, plain)

read_field-plain :
    (field tail : WString)
    → has_special field ≡ false
    → ends_field tail ≡ true
    → read_field (field ++ tail) ≡ (field, tail)
unfolding read_field
read_field-plain [] [] plain ends = refl
read_field-plain [] (c ∷ tail) plain ends =
    rw (unquoted_end c tail ends) (read_unquoted-end (c ∷ tail) ends)
read_field-plain (c ∷ rest) tail plain ends =
    rw (unquoted c rest plain) (read_unquoted-plain (c ∷ rest) tail plain ends)

-- What a reader shows for a field.
abbrev pub shown : WString → WString
shown field = if starts_formula field then apostrophe ∷ field else field

csv_escape-read :
    (field tail : WString)
    → ends_field tail ≡ true
    → read_field (csv_escape field ++ tail) ≡ (shown field, tail)
unfolding read_field csv_escape
csv_escape-read field tail ends = elim (Bool-cases (starts_formula field)) [
  | inl formula ↦
      rw (formula, append_assoc (double_quotes field) (quote ∷ []) tail)
        (read_quoted-plain apostrophe (double_quotes field ++ quote ∷ tail) refl
          ∙ ap (with_first apostrophe) (read_quoted-double_quotes field tail ends))
  | inr safe ↦ elim (Bool-cases (has_special field)) [
    | inl special ↦
        rw (safe, special, append_assoc (double_quotes field) (quote ∷ []) tail)
          (read_quoted-double_quotes field tail ends)
    | inr plain ↦ rw (safe, plain) (read_field-plain field tail plain ends)
  ]
]

never_formula : (field : WString) → starts_formula (shown field) ≡ false
unfolding starts_formula
never_formula field = elim (Bool-cases (starts_formula field)) [
  | inl formula ↦ rw formula refl
  | inr safe ↦ rw safe safe
]

-- In front of the end of the text, a comma or an end of line, a reader of CSV gets from an escaped
-- field exactly that field, with an apostrophe in front where it would start a spreadsheet formula,
-- and goes on right behind it. What it gets never starts a formula.
pub read_field-csv_escape :
    (field tail : WString)
    → ends_field tail ≡ true
    → (read_field (csv_escape field ++ tail)
        ≡ ((if starts_formula field then apostrophe ∷ field else field), tail))
      × (starts_formula (read_field (csv_escape field ++ tail)).0 ≡ false)
read_field-csv_escape field tail ends = (
  csv_escape-read field tail ends,
  ap (λ r. starts_formula r.0) (csv_escape-read field tail ends) ∙ never_formula field,
)
