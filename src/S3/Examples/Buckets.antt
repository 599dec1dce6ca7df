-- ===== src/S3/Examples/Buckets.antt =====
-- A store of buckets that keeps to the documentation, for deletions.
use s3gator.Base.{
  Bool, true, false, ◌&&◌, Option, none, some, List, [], ◌∷◌, map, ◌≡◌, ◌≢◌, ◌⊎◌, inl, inr, refl,
  sym, ◌∙◌, All, All-keep_if, keep_if, Bool-cases, if◌then◌else◌,
}
use s3gator.Base.Text.{Text, codes, starts_with, text_eq, text_eq_iff}
use s3gator.S3.{S3Object, Page, Sent, answered, S3Client}
use s3gator.S3.Laws.{Matches, S3Laws, Advances}

-- Which keys a bucket has.
abbrev pub Buckets : Type 0
Buckets = Text → Text → Bool

abbrev pub known : List Text
known = codes "a" ∷ codes "a/1" ∷ codes "a/2" ∷ codes "b" ∷ []

abbrev object_of : Text → S3Object
object_of k = record { object_key = some k; object_size = some 1 }

abbrev listed : Text → Text → Buckets → List S3Object
listed b p s = map object_of (keep_if (λ k. starts_with k p) (keep_if (s b) known))

abbrev without : Text → Text → Buckets → Buckets
without b key s b' k = if text_eq b' b && text_eq k key then false else s b' k

abbrev without_all : Text → List (Option Text) → Buckets → Buckets
without_all b [] s = s
without_all b (none ∷ keys) s = without_all b keys s
without_all b (some key ∷ keys) s = without b key (without_all b keys s)

abbrev pub client : S3Client Buckets
client = record {
  list_objects = λ b p t n s. (s, answered record { objects = listed b p s; next_token = none });
  delete_object = λ b key s. (without b key s, answered tt);
  delete_objects =
      λ b keys s. (without_all b keys s, answered record { deleted_keys = none; errors = [] });
  put_object = λ b key s. (s, answered tt);
  copy_object = λ b key source s. (s, answered tt);
}

abbrev pub holds : Buckets → Text → Text → Bool
holds s b k = s b k

All-objects :
    (p : Text) (ks : List Text)
    → All (λ k. starts_with k p ≡ true) ks
    → All (Matches p) (map object_of ks)
All-objects p [] h = tt
All-objects p (k ∷ ks) h = ((λ j e. matched k j (cc e) h.0), All-objects p ks h.1)
  where
    matched : (k j : Text) → k ≡ j → starts_with k p ≡ true → starts_with j p ≡ true
    matched k j e h = cc (e, h)

without_other :
    (b key b' k : Text) (s : Buckets) → (b' ≢ b) ⊎ (k ≢ key) → without b key s b' k ≡ s b' k
without_other b key b' k s (inl other) = elim (Bool-cases (text_eq b' b)) [
  | inl e ↦ absurd (other ((text_eq_iff b' b).0 e))
  | inr e ↦ rw e refl
]
without_other b key b' k s (inr other) = elim (Bool-cases (text_eq k key)) [
  | inl e ↦ absurd (other ((text_eq_iff k key).0 e))
  | inr e ↦ elim (Bool-cases (text_eq b' b)) [
    | inl same ↦ rw (same, e) refl
    | inr differ ↦ rw differ refl
  ]
]

without_all_other :
    (b : Text) (keys : List (Option Text)) (s : Buckets) (b' k : Text)
    → (b' ≢ b) ⊎ All (λ (x : Option Text). x ≢ some k) keys
    → without_all b keys s b' k ≡ s b' k
without_all_other b [] s b' k out = refl
without_all_other b (none ∷ keys) s b' k (inl other) = without_all_other b keys s b' k (inl other)
without_all_other b (none ∷ keys) s b' k (inr out) = without_all_other b keys s b' k (inr out.1)
without_all_other b (some key ∷ keys) s b' k (inl other) =
    without_other b key b' k (without_all b keys s) (inl other)
    ∙ without_all_other b keys s b' k (inl other)
without_all_other b (some key ∷ keys) s b' k (inr out) =
    without_other b key b' k (without_all b keys s) (inr (λ e. out.0 (cc e)))
    ∙ without_all_other b keys s b' k (inr out.1)

pub laws : S3Laws client holds
laws = record {
  listing_keeps = λ b p t n s b' k. refl;
  listing_matches = λ b p t n s page e. matched_page b p s page e;
  deletion_keeps = λ b key s b' k out. without_other b key b' k s out;
  deletions_keep = λ b keys s b' k out. without_all_other b keys s b' k out;
}
  where
    matched_page :
        (b p : Text) (s : Buckets) (page : Page)
        → ◌≡◌ {A = Sent Page}
            (answered record { objects = listed b p s; next_token = none })
            (answered page)
        → All (Matches p) page.objects
    matched_page b p s page e =
        let same : listed b p s ≡ page.objects = cc e in
        rw (sym same) (
          All-objects p (keep_if (λ k. starts_with k p) (keep_if (s b) known)) (
            All-keep_if (λ k. starts_with k p ≡ true) (λ k. starts_with k p) (keep_if (s b) known)
              (λ k h. h)))

pub advances : Advances client (λ t. 0)
advances b p t n s page e more =
    let last : ◌≡◌ {A = Option Text} none page.next_token = cc e in
    absurd (cc (rw (sym last) at more))
