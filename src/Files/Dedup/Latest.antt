-- ===== src/Files/Dedup/Latest.antt =====
-- The parts that are kept are in ascending order, each number with the tag that came last.
use s3gator.Base.{
  ℕ, String, true, false, Option, none, some, List, [], ◌∷◌, ◌≡◌, ◌≢◌, refl, ◌∙◌, ap, inl, inr,
  arith, if◌then◌else◌, ◌==◌, ==_iff, or_else, Bool-cases, All, ◌<◌,
}
use s3gator.Base.Sorting.{insert_by, sort_by, All-insert_by, All-sort_by}
use s3gator.S3.Multipart.{MultipartCompletePart, part_le, sort_parts}
use s3gator.Files.Dedup.{set_part, set_parts, merge_part}

abbrev pub IsAscending : List MultipartCompletePart → Type 0
IsAscending [] = Unit
IsAscending (p ∷ parts) = All (λ q. p.part_number < q.part_number) parts × IsAscending parts

abbrev IsDistinct : List MultipartCompletePart → Type 0
IsDistinct [] = Unit
IsDistinct (p ∷ parts) = All (λ q. p.part_number ≢ q.part_number) parts × IsDistinct parts

-- The tag of the first part with the number.
abbrev pub tag_at : ℕ → List MultipartCompletePart → Option String
tag_at n [] = none
tag_at n (p ∷ parts) = if p.part_number == n then some p.e_tag else tag_at n parts

-- The tag of the last part with the number.
abbrev pub last_tag : ℕ → List MultipartCompletePart → Option String
last_tag n [] = none
last_tag n (p ∷ parts) =
    or_else (last_tag n parts) (if p.part_number == n then some p.e_tag else none)

tag_at-set_part :
    (n : ℕ) (p : MultipartCompletePart) (entries : List MultipartCompletePart)
    → tag_at n (set_part p entries)
      ≡ (if p.part_number == n then some p.e_tag else tag_at n entries)
unfolding set_part
tag_at-set_part n p [] = refl
tag_at-set_part n p (q ∷ entries) = ground (arith, tag_at-set_part n p entries)

or_else-none : (o : Option String) → or_else o none ≡ o
or_else-none none = refl
or_else-none (some t) = refl

or_else_assoc : (a b c : Option String) → or_else a (or_else b c) ≡ or_else (or_else a b) c
or_else_assoc none b c = refl
or_else_assoc (some t) b c = refl

choose_or_else :
    (n : ℕ) (p : MultipartCompletePart) (o : Option String)
    → (if p.part_number == n then some p.e_tag else o)
      ≡ or_else (if p.part_number == n then some p.e_tag else none) o
choose_or_else n p o = ground arith

tag_at-set_parts :
    (n : ℕ) (parts entries : List MultipartCompletePart)
    → tag_at n (set_parts parts entries) ≡ or_else (last_tag n parts) (tag_at n entries)
unfolding set_parts
tag_at-set_parts n [] entries = refl
tag_at-set_parts n (p ∷ parts) entries =
    tag_at-set_parts n parts (set_part p entries)
    ∙ ap (or_else (last_tag n parts))
        (tag_at-set_part n p entries ∙ choose_or_else n p (tag_at n entries))
    ∙ or_else_assoc (last_tag n parts) (if p.part_number == n then some p.e_tag else none)
        (tag_at n entries)

tag_at-insert_by :
    (n : ℕ) (p : MultipartCompletePart) (parts : List MultipartCompletePart)
    → tag_at n (insert_by part_le p parts)
      ≡ (if p.part_number == n then some p.e_tag else tag_at n parts)
unfolding insert_by
tag_at-insert_by n p [] = refl
tag_at-insert_by n p (q ∷ parts) = ground (arith, tag_at-insert_by n p parts)

tag_at-sort_parts :
    (n : ℕ) (parts : List MultipartCompletePart) → tag_at n (sort_parts parts) ≡ tag_at n parts
unfolding sort_by
tag_at-sort_parts n [] = refl
tag_at-sort_parts n (p ∷ parts) =
    tag_at-insert_by n p (sort_parts parts)
    ∙ ap (λ o. if p.part_number == n then some p.e_tag else o) (tag_at-sort_parts n parts)

All-set_part :
    (P : MultipartCompletePart → Type 0) (p : MultipartCompletePart)
    (entries : List MultipartCompletePart)
    → P p
    → All P entries
    → All P (set_part p entries)
unfolding set_part
All-set_part P p [] hp h = (hp, tt)
All-set_part P p (q ∷ entries) hp h = elim (Bool-cases (q.part_number == p.part_number)) [
  | inl e ↦ rw e (hp, h.1)
  | inr e ↦ rw e (h.0, All-set_part P p entries hp h.1)
]

same_number-All :
    (a b : ℕ) (parts : List MultipartCompletePart)
    → a ≡ b
    → All (λ q. a ≢ q.part_number) parts
    → All (λ q. b ≢ q.part_number) parts
same_number-All a b [] e h = tt
same_number-All a b (q ∷ parts) e h = (λ g. h.0 (e ∙ g), same_number-All a b parts e h.1)

set_part-IsDistinct :
    (p : MultipartCompletePart) (entries : List MultipartCompletePart)
    → IsDistinct entries
    → IsDistinct (set_part p entries)
unfolding set_part
set_part-IsDistinct p [] h = (tt, tt)
set_part-IsDistinct p (q ∷ entries) h = elim (Bool-cases (q.part_number == p.part_number)) [
  | inl e ↦ rw e (same_number-All q.part_number p.part_number entries ((==_iff _ _).0 e) h.0, h.1)
  | inr e ↦ rw e (
    All-set_part (λ r. q.part_number ≢ r.part_number) p entries (λ g. ground arith) h.0,
    set_part-IsDistinct p entries h.1,
  )
]

set_parts-IsDistinct :
    (parts entries : List MultipartCompletePart)
    → IsDistinct entries
    → IsDistinct (set_parts parts entries)
unfolding set_parts
set_parts-IsDistinct [] entries h = h
set_parts-IsDistinct (p ∷ parts) entries h =
    set_parts-IsDistinct parts (set_part p entries) (set_part-IsDistinct p entries h)

above-All :
    (a b : ℕ) (parts : List MultipartCompletePart)
    → a < b
    → All (λ q. b < q.part_number) parts
    → All (λ q. a < q.part_number) parts
above-All a b [] h g = tt
above-All a b (q ∷ parts) h g = (omega (arith, g.0), above-All a b parts h g.1)

insert_by-IsAscending :
    (p : MultipartCompletePart) (parts : List MultipartCompletePart)
    → All (λ q. p.part_number ≢ q.part_number) parts
    → IsAscending parts
    → IsAscending (insert_by part_le p parts)
unfolding insert_by
insert_by-IsAscending p [] d h = (tt, tt)
insert_by-IsAscending p (q ∷ parts) d h = elim (Bool-cases (part_le p q)) [
  | inl e ↦ rw e ((under e, above-All p.part_number q.part_number parts (under e) h.0), h)
  | inr e ↦ rw e (
    All-insert_by part_le (λ r. q.part_number < r.part_number) p parts (over e) h.0,
    insert_by-IsAscending p parts d.1 h.1,
  )
]
  where
    under : part_le p q ≡ true → p.part_number < q.part_number
    under e = ground (arith, d.0)

    over : part_le p q ≡ false → q.part_number < p.part_number
    over e = ground arith

sort_parts-IsAscending :
    (parts : List MultipartCompletePart) → IsDistinct parts → IsAscending (sort_parts parts)
unfolding sort_by
sort_parts-IsAscending [] d = tt
sort_parts-IsAscending (p ∷ parts) d =
    insert_by-IsAscending p (sort_parts parts)
      (All-sort_by part_le (λ q. p.part_number ≢ q.part_number) parts d.0)
      (sort_parts-IsAscending parts d.1)

-- Recording a part leaves parts of strictly ascending numbers, whatever parts were there: the
-- number of the new part has its tag, and each other number the tag that was listed last for it.
pub merge_part_lem :
    (p : MultipartCompletePart) (existing : List MultipartCompletePart) (n : ℕ)
    → IsAscending (merge_part p existing)
      × (tag_at n (merge_part p existing)
          ≡ (if p.part_number == n then some p.e_tag else last_tag n existing))
unfolding merge_part
merge_part_lem p existing n = (
  sort_parts-IsAscending (set_part p (set_parts existing []))
      (set_part-IsDistinct p (set_parts existing []) (set_parts-IsDistinct existing [] tt)),
  tag_at-sort_parts n (set_part p (set_parts existing []))
      ∙ tag_at-set_part n p (set_parts existing [])
      ∙ ap (λ o. if p.part_number == n then some p.e_tag else o)
          (tag_at-set_parts n existing [] ∙ or_else-none (last_tag n existing)),
)
