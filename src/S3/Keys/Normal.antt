-- ===== src/S3/Keys/Normal.antt =====
-- What normalising a key or a prefix keeps and what it removes.
use s3gator.Base.{
  ℕ, Bool, true, false, [], ◌∷◌, ◌++◌, ◌&&◌, ◌||◌, ◌==◌, ◌≡◌, refl, ap, ◌∙◌, Bool-cases, inl, inr,
}
use s3gator.Base.Text.{Text, ends_with, text_eq}
use s3gator.S3.Keys.{
  slash, drop_slashes, collapse, normalize_key, normalize_prefix, segments, segments_from,
  push_part,
}

-- No slash stands behind a slash; nor at the front, if a slash stands before the text.
abbrev pub IsNormalAfter : Bool → Text → Type 0
IsNormalAfter after [] = Unit
IsNormalAfter after (c ∷ s) = (after && c == slash ≡ false) × IsNormalAfter (c == slash) s

-- No slash at the front, and no two in a row.
abbrev pub IsNormal : Text → Type 0
IsNormal s = IsNormalAfter true s

collapse-IsNormalAfter : (after : Bool) (s : Text) → IsNormalAfter after (collapse after s)
unfolding collapse
collapse-IsNormalAfter after [] = tt
collapse-IsNormalAfter true (c ∷ s) = elim (Bool-cases (c == slash)) [
  | inl e ↦ rw e (collapse-IsNormalAfter true s)
  | inr e ↦ rw e (e, rw e (collapse-IsNormalAfter false s))
]
collapse-IsNormalAfter false (c ∷ s) = (refl, collapse-IsNormalAfter (c == slash) s)

collapse_of_IsNormalAfter : (after : Bool) (s : Text) → IsNormalAfter after s → collapse after s ≡ s
unfolding collapse
collapse_of_IsNormalAfter after [] h = refl
collapse_of_IsNormalAfter after (c ∷ s) h =
    rw h.0 (ap (λ (t : Text). c ∷ t) (collapse_of_IsNormalAfter (c == slash) s h.1))

-- Dropping the slashes at the front first makes no difference to collapsing behind a slash.
collapse-drop_slashes : (s : Text) → collapse false (drop_slashes s) ≡ collapse true s
unfolding collapse drop_slashes
collapse-drop_slashes [] = refl
collapse-drop_slashes (c ∷ s) = elim (Bool-cases (c == slash)) [
  | inl e ↦ rw (e, drop_slashes) (collapse-drop_slashes s)
  | inr e ↦ rw (e, drop_slashes) (rw e refl)
]

segments_from-slash :
    (part s : Text) → segments_from part (slash ∷ s) ≡ push_part part (segments_from [] s)
unfolding segments_from
segments_from-slash part s = refl

segments_from-collapse :
    (after : Bool) (part s : Text)
    → (after ≡ true → part ≡ [])
    → segments_from part (collapse after s) ≡ segments_from part s
unfolding collapse segments_from
segments_from-collapse after part [] h = refl
segments_from-collapse true part (c ∷ s) h = elim (Bool-cases (c == slash)) [
  | inl e ↦ rw (e, h refl) (segments_from-collapse true [] s (λ _. refl))
  | inr e ↦ rw (e, e) (segments_from-collapse false (part ++ c ∷ []) s (λ bad. absurd (cc bad)))
]
segments_from-collapse false part (c ∷ s) h = elim (Bool-cases (c == slash)) [
  | inl e ↦ rw e (ap (push_part part) (segments_from-collapse true [] s (λ _. refl)))
  | inr e ↦ rw e (segments_from-collapse false (part ++ c ∷ []) s (λ bad. absurd (cc bad)))
]

segments-collapse : (s : Text) → segments (collapse true s) ≡ segments s
unfolding segments
segments-collapse s = segments_from-collapse true [] s (λ _. refl)

pub normalize_key-collapse : (key : Text) → normalize_key key ≡ collapse true key
unfolding normalize_key
normalize_key-collapse key = collapse-drop_slashes key

-- For every key, the normalised key has no slash at its front and no two in a row, a normalised
-- key is left as it is, and the names between the slashes are those of the key.
pub normalize_key_lem :
    (key : Text)
    → IsNormal (normalize_key key)
      × (normalize_key (normalize_key key) ≡ normalize_key key)
      × (segments (normalize_key key) ≡ segments key)
normalize_key_lem key = (
  rw (normalize_key-collapse key) (collapse-IsNormalAfter true key),
  rw (normalize_key-collapse key, normalize_key-collapse (collapse true key))
      (collapse_of_IsNormalAfter true (collapse true key) (collapse-IsNormalAfter true key)),
  rw (normalize_key-collapse key) (segments-collapse key),
)

-- Names are ended by a slash as by the end of the text.
segments_from-ended : (part s : Text) → segments_from part (s ++ slash ∷ []) ≡ segments_from part s
unfolding segments_from
segments_from-ended part [] = refl
segments_from-ended part (c ∷ s) = elim (Bool-cases (c == slash)) [
  | inl e ↦ rw e (ap (push_part part) (segments_from-ended [] s))
  | inr e ↦ rw e (segments_from-ended (part ++ c ∷ []) s)
]

or-right : {b : Bool} (a : Bool) → b ≡ true → (a || b) ≡ true
or-right true h = refl
or-right false h = h

segments-ended : (s : Text) → segments (s ++ slash ∷ []) ≡ segments s
unfolding segments
segments-ended s = segments_from-ended [] s

ends_with-append : (s : Text) → ends_with (s ++ slash ∷ []) (slash ∷ []) ≡ true
unfolding ends_with text_eq
ends_with-append [] = refl
ends_with-append (c ∷ s) =
    or-right (c == slash && text_eq (s ++ slash ∷ []) []) (ends_with-append s)

-- The prefix of a text that is not empty ends with a slash, and the names between its slashes are
-- those of the text.
pub normalize_prefix_lem :
    (c : ℕ) (s : Text)
    → (ends_with (normalize_prefix (c ∷ s)) (slash ∷ []) ≡ true)
      × (segments (normalize_prefix (c ∷ s)) ≡ segments (c ∷ s))
unfolding normalize_prefix
normalize_prefix_lem c s =
    let same = collapse-drop_slashes (c ∷ s) in
    elim (Bool-cases (ends_with (collapse false (drop_slashes (c ∷ s))) (slash ∷ []))) [
      | inl e ↦ rw e (e, rw same (segments-collapse (c ∷ s)))
      | inr e ↦ rw e (
        ends_with-append (collapse false (drop_slashes (c ∷ s))),
        segments-ended (collapse false (drop_slashes (c ∷ s)))
            ∙ rw same (segments-collapse (c ∷ s)),
      )
    ]
