-- ===== src/S3/Examples/Folder.antt =====
-- One bucket of a store that keeps to the documentation, for renames.
use s3gator.Base.{
  ℕ, suc, ◌+◌, ◌-◌, true, false, Option, none, some, List, [], ◌∷◌, ◌++◌, map, ◌≡◌, ◌≢◌, ◌⊎◌, inl,
  inr, refl, sym, arith, All, All-keep_if, keep_if, Bool-cases, if◌then◌else◌, length, drop,
  is_some,
}
use s3gator.Base.Text.{Text, codes, starts_with, text_eq, text_eq_iff}
use s3gator.S3.{S3Object, Page, Sent, answered, failed, S3Client}
use s3gator.S3.Laws.{Matches, RenameLaws}
use s3gator.S3.Keys.{slash}
use s3gator.S3.Rename.{copy_source, restore_slashes}

-- The content of each key of the bucket.
abbrev pub Bucket : Type 0
Bucket = Text → Option ℕ

abbrev pub known : List Text
known = codes "a/1" ∷ codes "a/2" ∷ codes "c" ∷ []

abbrev object_of : Text → S3Object
object_of k = record { object_key = some k; object_size = some 1 }

abbrev listed : Text → Bucket → List S3Object
listed p s = map object_of (keep_if (λ k. starts_with k p) (keep_if (λ k. is_some (s k)) known))

-- A code for keys that leaves no character of ASCII.
abbrev pub encode : Text → Text
encode k = map (λ c. c + 1000) k

abbrev decode : Text → Text
decode s = map (λ c. c - 1000) s

abbrev set : Text → Option ℕ → Bucket → Bucket
set key v s k = if text_eq k key then v else s k

-- A copy of a missing object fails.
abbrev copied : Text → Option ℕ → Bucket → Bucket × Sent (Unit {0})
copied dst none s = (s, failed "NoSuchKey")
copied dst (some v) s = (set dst (some v) s, answered tt)

abbrev pub client : S3Client Bucket
client = record {
  list_objects = λ b p t n s. (s, answered record { objects = listed p s; next_token = none });
  delete_object = λ b key s. (set key none s, answered tt);
  delete_objects = λ b keys s. (s, failed "not used");
  put_object = λ b key s. (s, answered tt);
  copy_object = λ b dst source s. copied dst (s (decode (drop (suc (length b)) source))) s;
}

abbrev pub lookup : Bucket → Text → Option ℕ
lookup s k = s k

not_percent : (c : ℕ) (rest : Text) → starts_with ((c + 1000) ∷ rest) (codes "%2F") ≡ false
unfolding starts_with
not_percent c rest = ground arith

back : (c : ℕ) → (c + 1000) - 1000 ≡ c
back c = omega arith

decode-restore : (k : Text) → decode (restore_slashes 0 (encode k)) ≡ k
unfolding restore_slashes
decode-restore [] = refl
decode-restore (c ∷ k) = rw (not_percent c (encode k)) (cc (back c, decode-restore k))

drop-bucket : (b rest : Text) → drop (suc (length b)) (b ++ slash ∷ rest) ≡ rest
drop-bucket [] rest = refl
drop-bucket (c ∷ b) rest = drop-bucket b rest

decode-copy_source : (b k : Text) → decode (drop (suc (length b)) (copy_source encode b k)) ≡ k
unfolding copy_source
decode-copy_source b k = rw (drop-bucket b (restore_slashes 0 (encode k))) (decode-restore k)

set_other : (key k : Text) (v : Option ℕ) (s : Bucket) → k ≢ key → set key v s k ≡ s k
set_other key k v s other = elim (Bool-cases (text_eq k key)) [
  | inl e ↦ absurd (other ((text_eq_iff k key).0 e))
  | inr e ↦ rw e refl
]

set_same : (key : Text) (v : Option ℕ) (s : Bucket) → set key v s key ≡ v
set_same key v s = rw ((text_eq_iff key key).1 refl) refl

copied_other : (dst k : Text) (o : Option ℕ) (s : Bucket) → k ≢ dst → (copied dst o s).0 k ≡ s k
copied_other dst k none s other = refl
copied_other dst k (some v) s other = set_other dst k (some v) s other

copied_target :
    (dst : Text) (o : Option ℕ) (s : Bucket)
    → ((copied dst o s).0 dst ≡ s dst) ⊎ ((copied dst o s).0 dst ≡ o)
copied_target dst none s = inl refl
copied_target dst (some v) s = inr (set_same dst (some v) s)

copied_missing :
    (dst : Text) (o : Option ℕ) (s : Bucket) → o ≡ none → (copied dst o s).0 dst ≡ s dst
copied_missing dst none s e = refl
copied_missing dst (some v) s e = absurd (cc e)

copied_answered :
    (dst : Text) (o : Option ℕ) (s : Bucket) (u : Unit {0})
    → (copied dst o s).1 ≡ answered u
    → (o ≢ none) × ((copied dst o s).0 dst ≡ o)
copied_answered dst none s u e = absurd (cc e)
copied_answered dst (some v) s u e = (λ h. absurd (cc h), set_same dst (some v) s)

All-objects :
    (p : Text) (ks : List Text)
    → All (λ k. starts_with k p ≡ true) ks
    → All (Matches p) (map object_of ks)
All-objects p [] h = tt
All-objects p (k ∷ ks) h = ((λ j e. matched k j (cc e) h.0), All-objects p ks h.1)
  where
    matched : (k j : Text) → k ≡ j → starts_with k p ≡ true → starts_with j p ≡ true
    matched k j e h = cc (e, h)

matched_page :
    (p : Text) (s : Bucket) (page : Page)
    → ◌≡◌ {A = Sent Page}
        (answered record { objects = listed p s; next_token = none })
        (answered page)
    → All (Matches p) page.objects
matched_page p s page e =
    let same : listed p s ≡ page.objects = cc e in
    let present = keep_if (λ k. is_some (s k)) known in
    rw (sym same) (
      All-objects p (keep_if (λ k. starts_with k p) present)
        (All-keep_if (λ k. starts_with k p ≡ true) (λ k. starts_with k p) present (λ k h. h)))

pub laws : RenameLaws client lookup encode (codes "media")
laws = record {
  listing_keeps = λ p t n s k. refl;
  listing_matches = λ p t n s page e. matched_page p s page e;
  copy_keeps = λ src dst k s other.
      rw (decode-copy_source (codes "media") src) (copied_other dst k (s src) s other);
  copy_target =
      λ src dst s. rw (decode-copy_source (codes "media") src) (copied_target dst (s src) s);
  copy_missing = λ src dst s gone.
      rw (decode-copy_source (codes "media") src) (copied_missing dst (s src) s gone);
  copy_answered = λ src dst s u e.
      rw (decode-copy_source (codes "media") src)
        (copied_answered dst (s src) s u (rw (decode-copy_source (codes "media") src) at e));
  deletion_keeps = λ key k s other. set_other key k none s other;
  deletion_target = λ key s. inr (set_same key none s);
}
