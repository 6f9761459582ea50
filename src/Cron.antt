-- ===== src/Cron.antt =====
-- queue/cron.go: the matching of a cron expression with a time. strings.Fields is modelled for ASCII.
pub mod Lists
use orkai_runiq.Common.{
  ℕ, zero, suc, ◌+◌, ◌-◌, ◌*◌, ◌^◌, ◌%◌, ◌==◌, ◌-ℤ◌, ℤ, pos, negsuc, pos_part, neg_part, Text,
  codes, text_eq, is_empty, split, Bool, true, false, ◌&&◌, ◌||◌, not, Option, none, some, List, [],
  ◌∷◌, ltb, leb, ltb_ℤ, leb_ℤ, eqb_ℤ, non_positive, if◌then◌else◌, length, drop,
}

abbrev pub digit : ℕ → Option ℕ
digit c = if leb b'0' c && leb c b'9' then some (c - b'0') else none

abbrev pub add_digit : ℕ → Option ℕ → Option ℕ
add_digit n none = none
add_digit n (some d) = some (n * 10 + d)

-- The digits after a number that has been read.
unfoldable pub digits_after : Option ℕ → Text → Option ℕ
digits_after n [] = n
digits_after none (c ∷ cs) = none
digits_after (some n) (c ∷ cs) = digits_after (add_digit n (digit c)) cs

abbrev pub digits : Text → Option ℕ
digits [] = none
digits (c ∷ cs) = digits_after (some 0) (c ∷ cs)

-- A value that does not fit 64 bits is an error.
abbrev pub positive : Option ℕ → Option ℤ
positive none = none
positive (some n) = if ltb n (2 ^ 63) then some (pos n) else none

abbrev pub negative : Option ℕ → Option ℤ
negative none = none
negative (some zero) = some (pos 0)
negative (some (suc n)) = if ltb n (2 ^ 63) then some (negsuc n) else none

-- strconv.Atoi; `none` is an error.
unfoldable pub atoi : Text → Option ℤ
unfolding digits_after
atoi [] = none
atoi (c ∷ cs) =
    if c == b'-'
    then negative (digits cs)
    else if c == b'+'
    then positive (digits cs)
    else positive (digits (c ∷ cs))

-- strings.Contains for one byte.
unfoldable pub contains : ℕ → Text → Bool
contains c [] = false
contains c (x ∷ xs) = if x == c then true else contains c xs

-- strings.HasPrefix
unfoldable pub has_prefix : Text → Text → Bool
has_prefix [] s = true
has_prefix (p ∷ ps) [] = false
has_prefix (p ∷ ps) (c ∷ cs) = c == p && has_prefix ps cs

abbrev pub is_space : ℕ → Bool
is_space c = c == 32 || (leb 9 c && leb c 13)

-- strings.Fields: `word` is the field that is being read, from its end.
abbrev pub add_field : Text → List Text → List Text
add_field [] fs = fs
add_field (c ∷ cs) fs = (c ∷ cs) ∷ fs

-- The field that a text begins with, and the fields after it.
unfoldable pub fields_from : Text → Text × List Text
fields_from [] = ([], [])
fields_from (c ∷ cs) =
    let (word, rest) = fields_from cs in
    if is_space c then ([], add_field word rest) else (c ∷ word, rest)

unfoldable pub fields : Text → List Text
unfolding fields_from
fields s = let (word, rest) = fields_from s in add_field word rest

abbrev pub within : Option ℤ → Option ℤ → ℕ → Bool
within (some start) (some end) val = leb_ℤ start (pos val) && leb_ℤ (pos val) end
within _ _ val = false

abbrev pub range_of : List Text → ℕ → Bool
range_of (a ∷ b ∷ []) val = within (atoi a) (atoi b) val
range_of _ val = false

unfoldable pub match_range : Text → ℕ → Bool
unfolding atoi
match_range spec val = range_of (split b'-' spec) val

abbrev pub is_target : Option ℤ → ℕ → Bool
is_target none val = false
is_target (some target) val = eqb_ℤ (pos val) target

unfoldable pub match_single : Text → ℕ → Bool
unfolding atoi
match_single spec val = is_target (atoi spec) val

-- (val - min) % step == 0, on Go's signed ints, for a step above 0.
abbrev pub is_multiple : ℕ → ℕ → ℤ → Bool
is_multiple val min (pos zero) = false
is_multiple val min (pos (suc step)) = ((val - min) + (min - val)) % suc step == 0
is_multiple val min (negsuc step) = false

abbrev pub steps_by : Option ℤ → ℕ → ℕ → Bool
steps_by none val min = false
steps_by (some step) val min = is_multiple val min step

-- strings.TrimPrefix of a text that has the prefix "*/" drops two bytes.
unfoldable pub match_step : Text → ℕ → ℕ → Bool
unfolding atoi
match_step spec val min = steps_by (atoi (drop 2 spec)) val min

-- matchPart of a text without a comma, after the test for "*".
unfoldable pub match_rest : Text → ℕ → ℕ → Bool
unfolding match_step match_range match_single
match_rest spec val min =
    if has_prefix (codes "*/") spec
    then match_step spec val min
    else if contains b'-' spec
    then match_range spec val
    else match_single spec val

-- matchPart of a piece of a list, which has no comma.
unfoldable pub match_piece : Text → ℕ → ℕ → Bool
unfolding match_rest
match_piece spec val min = if text_eq spec (codes "*") then true else match_rest spec val min

unfoldable pub match_pieces : List Text → ℕ → ℕ → Bool
unfolding match_piece
match_pieces [] val min = false
match_pieces (p ∷ ps) val min = if match_piece p val min then true else match_pieces ps val min

unfoldable pub match_list : Text → ℕ → ℕ → Bool
unfolding match_pieces
match_list spec val min = match_pieces (split b',' spec) val min

-- The parameter max of the source is not used there.
unfoldable pub match_part : Text → ℕ → ℕ → Bool
unfolding match_list match_rest
match_part spec val min =
    if text_eq spec (codes "*")
    then true
    else if contains b',' spec
    then match_list spec val min
    else match_rest spec val min

unfoldable pub match_dow : Text → ℕ → Bool
unfolding match_part
match_dow spec val =
    if val == 0 then match_part spec 0 0 || match_part spec 7 0 else match_part spec val 0

-- The fields of a time that an expression looks at. The weekday of Sunday is 0.
pub record Moment : Type 0 where
  pub minute : ℕ
  pub hour : ℕ
  pub day : ℕ
  pub month : ℕ
  pub weekday : ℕ

abbrev pub match_fields : List Text → Moment → Bool
match_fields (minute ∷ hour ∷ dom ∷ month ∷ dow ∷ []) t =
    match_part minute t.minute 0
    && (match_part hour t.hour 0
        && (match_part dom t.day 1 && (match_part month t.month 1 && match_dow dow t.weekday)))
match_fields _ t = false

unfoldable pub match_cron : Text → Moment → Bool
unfolding match_dow fields
match_cron spec t = match_fields (fields spec) t
