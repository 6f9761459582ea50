-- ===== src/Cron/Lists.antt =====
-- Lists in a field of a cron expression.
use orkai_runiq.Common.{
  ℕ, ◌==◌, ◌≡◌, ◌≢◌, refl, sym, ap, ◌∙◌, inl, inr, Text, codes, text_eq, text_eq_sound, split,
  cons_head, Bool, true, false, ◌||◌, List, [], ◌∷◌, ◌++◌, if◌then◌else◌, arith, Bool-cases,
}
use orkai_runiq.Cron.{contains, match_rest, match_piece, match_pieces, match_list, match_part}

contains-append : (a b : Text) → contains b',' (a ++ b',' ∷ b) ≡ true
unfolding contains
contains-append [] b = refl
contains-append (x ∷ a) b = ground (arith, contains-append a b)

not_star : (a b : Text) → text_eq (a ++ b',' ∷ b) (codes "*") ≡ false
unfolding text_eq
not_star [] b = refl
not_star (x ∷ []) b = ground arith
not_star (x ∷ y ∷ a) b = ground arith

-- The pieces of a text are a first one and others.
first_piece : (s : Text) → (p : Text) × (ps : List Text) × (split b',' s ≡ p ∷ ps)
unfolding split
first_piece [] = ([], [], refl)
first_piece (c ∷ s) = elim (Bool-cases (c == b',')) [
  | inl e ↦ ([], split b',' s, rw e refl)
  | inr e ↦ let (p, ps, q) = first_piece s in (c ∷ p, ps, rw (e, q) refl)
]

cons_head-append :
    (c : ℕ) (s : Text) (qs : List Text)
    → cons_head c (split b',' s ++ qs) ≡ cons_head c (split b',' s) ++ qs
cons_head-append c s qs = let (p, ps, e) = first_piece s in rw e refl

split-append : (a b : Text) → split b',' (a ++ b',' ∷ b) ≡ split b',' a ++ split b',' b
unfolding split
split-append [] b = refl
split-append (x ∷ a) b = elim (Bool-cases (x == b',')) [
  | inl e ↦ rw (e, split-append a b) refl
  | inr e ↦ rw (e, split-append a b) (cons_head-append x a (split b',' b))
]

split_alone : (s : Text) → contains b',' s ≡ false → split b',' s ≡ s ∷ []
unfolding split contains
split_alone [] h = refl
split_alone (c ∷ s) h = elim (Bool-cases (c == b',')) [
  | inl e ↦ absurd (ground arith)
  | inr e ↦ rw (e, split_alone s (rw e at h)) refl
]

match_pieces-append :
    (ps qs : List Text) (val min : ℕ)
    → match_pieces (ps ++ qs) val min ≡ match_pieces ps val min || match_pieces qs val min
unfolding match_pieces
match_pieces-append [] qs val min = refl
match_pieces-append (p ∷ ps) qs val min = ground (arith, match_pieces-append ps qs val min)

star_alone : (s : Text) → contains b',' s ≡ true → text_eq s (codes "*") ≡ false
unfolding contains
star_alone s h = elim (Bool-cases (text_eq s (codes "*"))) [
  | inl e ↦ absurd (true_ne (sym h ∙ ap (contains b',') (text_eq_sound s (codes "*") e)))
  | inr e ↦ e
]
  where
    true_ne : true ≢ false
    true_ne q = ground arith

or_else_false : (b : Bool) → (if b then true else false) ≡ b
or_else_false true = refl
or_else_false false = refl

match_part-split :
    (s : Text) (val min : ℕ) → match_part s val min ≡ match_pieces (split b',' s) val min
unfolding match_part match_pieces match_piece match_list
match_part-split s val min = elim (Bool-cases (contains b',' s)) [
  | inl many ↦ rw (star_alone s many, many) refl
  | inr one ↦ elim (Bool-cases (text_eq s (codes "*"))) [
    | inl star ↦ rw (one, split_alone s one, star) refl
    | inr e ↦ rw (one, split_alone s one, e) (sym (or_else_false (match_rest s val min)))
  ]
]

-- A list of two parts matches a value exactly when one of the parts does, whatever they are.
pub match_part-comma :
    (a b : Text) (val min : ℕ)
    → match_part (a ++ b',' ∷ b) val min ≡ match_part a val min || match_part b val min
match_part-comma a b val min =
    rw
      (
        match_part-split (a ++ b',' ∷ b) val min,
        split-append a b,
        match_part-split a val min,
        match_part-split b val min,
      )
      (match_pieces-append (split b',' a) (split b',' b) val min)
