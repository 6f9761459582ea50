-- ===== src/Helpers/Tags.antt =====
-- What matchTags decides.
use orkai_runiq.Common.{
  ◌≡◌, refl, ◌↔◌, inl, inr, true, Text, text_eq, text_eq_refl, text_eq_sound, List, [], ◌∷◌, In,
  arith, Bool-cases,
}
use orkai_runiq.Helpers.{tag_found, tags_found, match_tags}

tag_found-In : (t : Text) (ws : List Text) → tag_found t ws ≡ true → In t ws
unfolding tag_found
tag_found-In t [] h = cc
tag_found-In t (w ∷ ws) h = elim (Bool-cases (text_eq t w)) [
  | inl e ↦ inl (text_eq_sound t w e)
  | inr e ↦ inr (tag_found-In t ws (rw e at h))
]

In-tag_found : (t : Text) (ws : List Text) → In t ws → tag_found t ws ≡ true
unfolding tag_found
In-tag_found t [] h = absurd h
In-tag_found t (w ∷ ws) (inl e) = rw (e, text_eq_refl w) refl
In-tag_found t (w ∷ ws) (inr h) = ground (arith, In-tag_found t ws h)

abbrev pub Covers : List Text → List Text → Type 0
Covers job_tags worker_tags = (t : Text) → In t job_tags → In t worker_tags

tags_found-Covers : (ts ws : List Text) → tags_found ts ws ≡ true → Covers ts ws
unfolding tags_found
tags_found-Covers [] ws h t i = absurd i
tags_found-Covers (x ∷ ts) ws h t (inl e) = rw e (tag_found-In x ws (ground arith))
tags_found-Covers (x ∷ ts) ws h t (inr i) = tags_found-Covers ts ws (ground arith) t i

Covers-tags_found : (ts ws : List Text) → Covers ts ws → tags_found ts ws ≡ true
unfolding tags_found
Covers-tags_found [] ws h = refl
Covers-tags_found (x ∷ ts) ws h =
    rw (In-tag_found x ws (h x (inl refl))) (Covers-tags_found ts ws (λ t i. h t (inr i)))

-- A worker may take a job exactly when it has every tag that the job requires.
pub match_tags-Covers :
    (job_tags worker_tags : List Text)
    → (match_tags job_tags worker_tags ≡ true) ↔ Covers job_tags worker_tags
unfolding match_tags
match_tags-Covers [] ws = ((λ h t i. absurd i), λ h. refl)
match_tags-Covers (x ∷ ts) ws = (tags_found-Covers (x ∷ ts) ws, Covers-tags_found (x ∷ ts) ws)
