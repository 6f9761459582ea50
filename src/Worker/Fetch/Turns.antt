-- ===== src/Worker/Fetch/Turns.antt =====
-- The queues that a counter chooses one after another, and how often a queue is listed:
-- queue/worker.go, setupWeightedQueues.
use orkai_runiq.Common.{
  ℕ, zero, suc, ◌+◌, ◌<◌, ◌≡◌, refl, sym, ap, ◌∙◌, subst, Text, text_eq, text_eq_refl, text_eq_ne,
  true, false, List, [], ◌∷◌, ◌++◌, In, inl, inr, length, length-append, ℤ, arith, if◌then◌else◌,
  Bool-cases,
}
use native.Mathlib.Nat.{mod-eq_of_lt, add-mod_right}
use orkai_runiq.Sql.{count}
use orkai_runiq.Worker.Setup.{append_times, weight_of, weighted}
use orkai_runiq.Worker.Fetch.{nth, primary_at}

-- How often a queue stands in a list.
abbrev pub times : Text → List Text → ℕ
times q qs = count (λ x. text_eq x q) qs

-- The queues that so many counters from this one choose.
unfoldable pub turns : List Text → ℕ → ℕ → List Text
turns qs c zero = []
turns qs c (suc n) = primary_at qs c ∷ turns qs (suc c) n

abbrev one : Text → Text → ℕ
one q x = if text_eq x q then 1 else 0

times-cons : (q x : Text) (qs : List Text) → times q (x ∷ qs) ≡ one q x + times q qs
times-cons q x qs = ground arith

-- The next window of turns drops its first choice and adds one.
turns-next :
    (qs : List Text) (q : Text) (c n : ℕ)
    → times q (turns qs (suc c) n) + one q (primary_at qs c)
      ≡ times q (turns qs c n) + one q (primary_at qs (c + n))
unfolding turns
turns-next qs q c zero = rw (let e : c + 0 ≡ c = omega arith in e) refl
turns-next qs q c (suc n) =
    let ih = turns-next qs q (suc c) n in
    let e : suc c + n ≡ c + suc n = omega arith in
    omega (
      arith,
      rw e at ih,
      times-cons q (primary_at qs (suc c)) (turns qs (suc (suc c)) n),
      times-cons q (primary_at qs c) (turns qs (suc c) n),
    )

-- A full cycle: from any counter on, each queue is chosen as often as it is listed.
nth_middle : (pre qs : List Text) (q : Text) → nth (pre ++ q ∷ qs) (length pre) ≡ q
unfolding nth
nth_middle [] qs q = refl
nth_middle (x ∷ pre) qs q = nth_middle pre qs q

append_one : (pre qs : List Text) (q : Text) → (pre ++ q ∷ []) ++ qs ≡ pre ++ q ∷ qs
append_one [] qs q = refl
append_one (x ∷ pre) qs q = ap (λ r. x ∷ r) (append_one pre qs q)

length_last : (pre : List Text) (q : Text) → length (pre ++ q ∷ []) ≡ suc (length pre)
length_last pre q = omega (arith, length-append pre (q ∷ []))

primary_middle : (pre qs : List Text) (q : Text) → primary_at (pre ++ q ∷ qs) (length pre) ≡ q
unfolding primary_at
primary_middle pre qs q =
    let small : length pre < length (pre ++ q ∷ qs) = omega (arith, length-append pre (q ∷ qs)) in
    rw (mod-eq_of_lt small) (nth_middle pre qs q)

turns_middle : (pre qs : List Text) → turns (pre ++ qs) (length pre) (length qs) ≡ qs
unfolding turns
turns_middle pre [] = refl
turns_middle pre (q ∷ qs) =
    let ih = turns_middle (pre ++ q ∷ []) qs in
    let ih' : turns (pre ++ q ∷ qs) (suc (length pre)) (length qs) ≡ qs =
      subst (λ l. turns l (suc (length pre)) (length qs) ≡ qs) (append_one pre qs q)
        (subst (λ n. turns ((pre ++ q ∷ []) ++ qs) n (length qs) ≡ qs) (length_last pre q) ih) in
    rw (primary_middle pre qs q, ih') refl

primary_cycle : (qs : List Text) (c : ℕ) → primary_at qs (c + length qs) ≡ primary_at qs c
unfolding primary_at
primary_cycle qs c = rw (add-mod_right c (length qs)) refl

pub turns_fair : (qs : List Text) (q : Text) (c : ℕ) → times q (turns qs c (length qs)) ≡ times q qs
turns_fair qs q zero = ap (times q) (turns_middle [] qs)
turns_fair qs q (suc c) =
    let step = turns-next qs q c (length qs) in
    let ih = turns_fair qs q c in omega (arith, rw (primary_cycle qs c) at step, ih)

-- The weights.
times-append_times :
    (n : ℕ) (q x : Text) (rest : List Text)
    → times q (append_times n x rest) ≡ (if text_eq x q then n else 0) + times q rest
unfolding append_times
times-append_times zero q x rest = elim (Bool-cases (text_eq x q)) [
  | inl e ↦ rw e (omega arith)
  | inr e ↦ rw e (omega arith)
]
times-append_times (suc n) q x rest =
    let ih = times-append_times n q x rest in
    elim (Bool-cases (text_eq x q)) [
      | inl e ↦ rw e (omega (arith, rw e at ih))
      | inr e ↦ rw e (rw e at ih)
    ]

-- No queue stands twice in the list.
abbrev pub AreDistinct : List Text → Type 0
AreDistinct [] = Unit
AreDistinct (q ∷ qs) = (In q qs → ⊥) × AreDistinct qs

times_absent :
    (weights : List (Text × ℤ)) (q : Text) (qs : List Text)
    → (In q qs → ⊥)
    → times q (weighted weights qs) ≡ 0
unfolding weighted
times_absent weights q [] out = refl
times_absent weights q (x ∷ qs) out =
    let ih = times_absent weights q qs (λ i. out (inr i)) in
    let other : text_eq x q ≡ false = text_eq_ne x q (λ e. out (inl (sym e))) in
    times-append_times (weight_of weights x) q x (weighted weights qs) ∙ rw (other, ih) refl

pub times-weighted :
    (weights : List (Text × ℤ)) (q : Text) (qs : List Text)
    → AreDistinct qs
    → In q qs
    → times q (weighted weights qs) ≡ weight_of weights q
unfolding weighted
times-weighted weights q [] d i = absurd i
times-weighted weights q (x ∷ qs) d (inl e) =
    let none_left : times q (weighted weights qs) ≡ 0 =
      times_absent weights q qs (λ i. d.0 (subst (λ y. In y qs) e i)) in
    let same : text_eq x q ≡ true = subst (λ y. text_eq y q ≡ true) e (text_eq_refl q) in
    times-append_times (weight_of weights x) q x (weighted weights qs)
    ∙ rw (same, none_left) (omega (arith, ap (weight_of weights) e))
times-weighted weights q (x ∷ qs) d (inr i) =
    let other : text_eq x q ≡ false = text_eq_ne x q (λ e. d.0 (subst (λ y. In y qs) (sym e) i)) in
    times-append_times (weight_of weights x) q x (weighted weights qs)
    ∙ rw other (omega (arith, times-weighted weights q qs d.1 i))
