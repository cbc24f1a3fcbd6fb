-- ===== src/Lint/Scan/Marks.antt =====
-- On `literal_content_lines` of lint-collapse-sites.py: its marks and those of its scans.
use codex_platform.Base.{
  ℕ, zero, suc, ◌≡◌, refl, ap, sym, ◌∙◌, Bool, true, false, ◌||◌, List, [], ◌∷◌, Option, none, some,
  Text, get_elem?, or-false,
}
use codex_platform.Lint.Scan.{
  Scanner, scan_line, scan_from, scan_literal_lines, any_mark, both_readings, with_front_matter,
  literal_content_lines, front_matter_delimiter,
}

some-eq : {a b : Bool} → ◌≡◌ {A = Option Bool} (some a) (some b) → a ≡ b
some-eq h = cc

scan_from-marks :
    (is_word : ℕ → Bool) (strict : Bool) (n : ℕ) (lines : List Text) (s : Scanner) (i : ℕ)
    (line : Text)
    → get_elem? lines i ≡ some line
    → (b : Bool) × (get_elem? (scan_from is_word strict n lines s) i ≡ some b)
unfolding scan_from
scan_from-marks is_word strict n [] s i line h = cc
scan_from-marks is_word strict n (l ∷ lines) s zero line h = (_, refl)
scan_from-marks is_word strict n (l ∷ lines) s (suc i) line h =
    scan_from-marks is_word strict (suc n) lines (scan_line is_word strict n l s s.delimiter).1 i
      line h

scan-marks :
    (is_word : ℕ → Bool) (lines : List Text) (delimiter : Option Text) (strict : Bool) (i : ℕ)
    (line : Text)
    → get_elem? lines i ≡ some line
    → (b : Bool) × (get_elem? (scan_literal_lines is_word lines delimiter strict) i ≡ some b)
unfolding scan_literal_lines
scan-marks is_word lines delimiter strict i line h =
    scan_from-marks is_word strict 0 lines _ i line h

any_mark-at :
    (xs ys : List Bool) (i : ℕ) (a b : Bool)
    → get_elem? xs i ≡ some a
    → get_elem? ys i ≡ some b
    → get_elem? (any_mark xs ys) i ≡ some (a || b)
unfolding any_mark
any_mark-at [] ys i a b h k = cc
any_mark-at (x ∷ xs) [] i a b h k = cc
any_mark-at (x ∷ xs) (y ∷ ys) zero a b h k = cc (some-eq h, some-eq k)
any_mark-at (x ∷ xs) (y ∷ ys) (suc i) a b h k = any_mark-at xs ys i a b h k

-- A line that neither list marks.
any_mark-false :
    (xs ys : List Bool) (i : ℕ) {a b : Bool}
    → get_elem? xs i ≡ some a
    → get_elem? ys i ≡ some b
    → get_elem? (any_mark xs ys) i ≡ some false
    → (get_elem? xs i ≡ some false) × (get_elem? ys i ≡ some false)
any_mark-false xs ys i {a} {b} h k none_marks =
    let both = or-false a b (some-eq (sym (any_mark-at xs ys i a b h k) ∙ none_marks)) in
    (h ∙ ap some both.0, k ∙ ap some both.1)

module _ (is_word : ℕ → Bool) (lines : List Text) (i : ℕ) (line : Text)
    (found : get_elem? lines i ≡ some line) where
  readings-marks :
      (delimiter : Option Text)
      → (b : Bool) × (get_elem? (both_readings is_word lines delimiter) i ≡ some b)
  unfolding both_readings
  readings-marks delimiter =
      let (a, h) = scan-marks is_word lines delimiter true i line found in
      let (b, k) = scan-marks is_word lines delimiter false i line found in
      (a || b, any_mark-at _ _ i a b h k)

  readings_unmarked :
      (delimiter : Option Text)
      → get_elem? (both_readings is_word lines delimiter) i ≡ some false
      → (strict : Bool)
      → get_elem? (scan_literal_lines is_word lines delimiter strict) i ≡ some false
  unfolding both_readings
  readings_unmarked delimiter h strict =
      let (a, ha) = scan-marks is_word lines delimiter true i line found in
      let (b, hb) = scan-marks is_word lines delimiter false i line found in
      let both = any_mark-false _ _ i ha hb h in pick both strict
    where
      pick :
          (get_elem? (scan_literal_lines is_word lines delimiter true) i ≡ some false)
            × (get_elem? (scan_literal_lines is_word lines delimiter false) i ≡ some false)
          → (strict : Bool)
          → get_elem? (scan_literal_lines is_word lines delimiter strict) i ≡ some false
      pick both true = both.0
      pick both false = both.1

  with_front_matter-marks :
      (delimiter : Option Text)
      → (b : Bool) × (get_elem? (with_front_matter is_word lines delimiter) i ≡ some b)
  unfolding with_front_matter
  with_front_matter-marks none = readings-marks none
  with_front_matter-marks (some d) =
      let (a, h) = readings-marks none in
      let (b, k) = readings-marks (some d) in (a || b, any_mark-at _ _ i a b h k)

  with_front_matter_unmarked :
      (delimiter : Option Text)
      → get_elem? (with_front_matter is_word lines delimiter) i ≡ some false
      → (get_elem? (both_readings is_word lines none) i ≡ some false)
        × ((d : Text)
            → delimiter ≡ some d
            → get_elem? (both_readings is_word lines (some d)) i ≡ some false)
  unfolding with_front_matter
  with_front_matter_unmarked none h = (h, λ d e. cc)
  with_front_matter_unmarked (some c) h =
      let (a, ha) = readings-marks none in
      let (b, hb) = readings-marks (some c) in
      let both = any_mark-false _ _ i ha hb h in
      (both.0, λ d e. cc (both.1, ap (both_readings is_word lines) e))

  pub literal_content_lines-marks :
      (b : Bool) × (get_elem? (literal_content_lines is_word lines) i ≡ some b)
  unfolding literal_content_lines
  literal_content_lines-marks = with_front_matter-marks (front_matter_delimiter lines)

  -- A line that is no literal content is none in any of the scans.
  pub unmarked :
      get_elem? (literal_content_lines is_word lines) i ≡ some false
      → ((strict : Bool) → get_elem? (scan_literal_lines is_word lines none strict) i ≡ some false)
        × ((strict : Bool) (d : Text)
            → front_matter_delimiter lines ≡ some d
            → get_elem? (scan_literal_lines is_word lines (some d) strict) i ≡ some false)
  unfolding literal_content_lines
  unmarked h =
      let (plain, matter) = with_front_matter_unmarked (front_matter_delimiter lines) h in
      (readings_unmarked none plain, λ strict d e. readings_unmarked (some d) (matter d e) strict)
