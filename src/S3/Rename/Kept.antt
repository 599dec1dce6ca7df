-- ===== src/S3/Rename/Kept.antt =====
-- A folder's rename never loses an object, whatever fails and however the workers interleave.
use s3gator.Base.{
  ℕ, zero, suc, true, false, Option, none, some, List, [], ◌∷◌, ◌≡◌, ◌≢◌, ◌⊎◌, refl, sym, ap, ◌∙◌,
  subst, Bool-cases, inl, inr, All, All-append, length, drop,
}
use s3gator.Base.Text.{Text, starts_with, text_eq, text_eq_iff}
use s3gator.S3.Keys.{normalize_prefix}
use s3gator.S3.{S3Object, Sent, answered, failed, S3Client}
use s3gator.S3.Delete.{list_object_keys, is_more, batch}
use s3gator.S3.Laws.{Matches, Sent-cases, RenameLaws}
use s3gator.S3.Rename.{
  Phase, idle, stopped, copying, deleting, Pool, nth, set_nth, destination, copy_source, taken,
  finish_copy, finish_deletion, work, run_workers, start_pool, rename_keys, rename_folder,
  list_all_keys, keys_of, with_key, before, idle_workers, worker_count,
}
use s3gator.S3.Rename.Prefixes.{destination-injective, destination-apart}

module _ {ℓ κ} {A : Type ℓ} (P : A → Type κ) where
  All-set_nth : (i : ℕ) (y : A) (xs : List A) → P y → All P xs → All P (set_nth i y xs)
  All-set_nth i y [] hy h = tt
  All-set_nth zero y (x ∷ xs) hy h = (hy, h.1)
  All-set_nth (suc i) y (x ∷ xs) hy h = (h.0, All-set_nth i y xs hy h.1)

  All-nth : (i : ℕ) (x : A) (xs : List A) → All P xs → nth xs i ≡ some x → P x
  All-nth i x [] h e = absurd (cc e)
  All-nth zero x (y ∷ xs) h e = subst P (cc e) h.0
  All-nth (suc i) x (y ∷ xs) h e = All-nth i x xs h.1 e

module _ {S V : Type 0} (client : S3Client S) (lookup : S → Text → Option V) (encode : Text → Text)
    (name source target k : Text) (v : V) where
  -- The object's key in the renamed folder.
  abbrev moved : Text
  moved = destination source target k

  -- The object is under its key, or has left it for its new one.
  abbrev IsKept : S → Type 0
  IsKept s = (lookup s k ≡ some v) ⊎ ((lookup s k ≡ none) × (lookup s moved ≡ some v))

  -- A worker has a key of the folder, and deletes the object's only once it is copied.
  abbrev IsSafe : S → Phase → Type 0
  IsSafe s idle = Unit
  IsSafe s stopped = Unit
  IsSafe s (copying key) = starts_with key source ≡ true
  IsSafe s (deleting key) = (starts_with key source ≡ true) × (key ≡ k → lookup s moved ≡ some v)

  abbrev IsGood : Pool S → Type 0
  IsGood p = IsKept p.store × All (IsSafe p.store) p.workers

  All-IsSafe_later :
      (s s' : S)
      → (lookup s moved ≡ some v → lookup s' moved ≡ some v)
      → (ws : List Phase) → All (IsSafe s) ws
      → All (IsSafe s') ws
  All-IsSafe_later s s' later [] h = tt
  All-IsSafe_later s s' later (idle ∷ ws) h = (tt, All-IsSafe_later s s' later ws h.1)
  All-IsSafe_later s s' later (stopped ∷ ws) h = (tt, All-IsSafe_later s s' later ws h.1)
  All-IsSafe_later s s' later (copying key ∷ ws) h = (h.0, All-IsSafe_later s s' later ws h.1)
  All-IsSafe_later s s' later (deleting key ∷ ws) h =
      ((h.0.0, λ e. later (h.0.1 e)), All-IsSafe_later s s' later ws h.1)

  IsKept-IsKept :
      (s s' : S)
      → lookup s' k ≡ lookup s k
      → (lookup s moved ≡ some v → lookup s' moved ≡ some v)
      → IsKept s
      → IsKept s'
  IsKept-IsKept s s' same later (inl here) = inl (same ∙ here)
  IsKept-IsKept s s' same later (inr (gone, there)) = inr (same ∙ gone, later there)

  module _ (laws : RenameLaws client lookup encode name) (in_folder : starts_with k source ≡ true)
      (apart : starts_with source target ≡ false) (apart' : starts_with target source ≡ false) where
    abbrev after_copy : Text → S → S × Sent (Unit {0})
    after_copy key s =
        client.copy_object name (destination source target key) (copy_source encode name key) s

    -- Keys of the folder are no destinations.
    not_destination :
        (key j : Text) → starts_with j source ≡ true → j ≢ destination source target key
    unfolding destination
    not_destination key j h e = cc (
      destination-apart source target (drop (length source) key) apart apart',
      ap (λ (x : Text). starts_with x source) e,
      h,
    )

    own_later :
        (s : S) → IsKept s → lookup s moved ≡ some v → lookup (after_copy k s).0 moved ≡ some v
    own_later s (inr (gone, _)) there = laws.copy_missing k moved s gone ∙ there
    own_later s (inl here) there = elim (laws.copy_target k moved s) [
      | inl same ↦ same ∙ there
      | inr new ↦ new ∙ here
    ]

    own_done :
        (s : S) (u : Unit {0})
        → IsKept s
        → (after_copy k s).1 ≡ answered u
        → lookup (after_copy k s).0 moved ≡ some v
    own_done s u (inl here) e = (laws.copy_answered k moved s u e).1 ∙ here
    own_done s u (inr (gone, _)) e = absurd ((laws.copy_answered k moved s u e).0 gone)

    moved_later :
        (key : Text) (s : S)
        → starts_with key source ≡ true
        → IsKept s
        → lookup s moved ≡ some v
        → lookup (after_copy key s).0 moved ≡ some v
    moved_later key s h kept there = elim (Bool-cases (text_eq key k)) [
      | inl e ↦
          subst (λ (x : Text). lookup (after_copy x s).0 moved ≡ some v)
            (sym ((text_eq_iff key k).0 e)) (own_later s kept there)
      | inr e ↦
          laws.copy_keeps key (destination source target key) moved s (λ same. cc (
            (text_eq_iff key k).1
                (destination-injective source target key k h in_folder (sym same)),
            e,
          ))
          ∙ there
    ]

    after_copy-IsKept :
        (key : Text) (s : S)
        → starts_with key source ≡ true
        → IsKept s
        → IsKept (after_copy key s).0
    after_copy-IsKept key s h kept =
        IsKept-IsKept s (after_copy key s).0
          (laws.copy_keeps key (destination source target key) k s
            (not_destination key k in_folder))
          (moved_later key s h kept) kept

    copy_done :
        (key : Text) (s : S) (u : Unit {0})
        → IsKept s
        → (after_copy key s).1 ≡ answered u
        → key ≡ k
        → lookup (after_copy key s).0 moved ≡ some v
    copy_done key s u kept e same =
        subst
          (λ (x : Text). (after_copy x s).1 ≡ answered u → lookup (after_copy x s).0 moved ≡ some v)
          (sym same) (own_done s u kept) e

    deletion_keeps_moved :
        (key : Text) (s : S)
        → starts_with key source ≡ true
        → lookup s moved ≡ some v
        → lookup (client.delete_object name key s).0 moved ≡ some v
    deletion_keeps_moved key s h there =
        laws.deletion_keeps key moved s (λ e. not_destination k key h (sym e)) ∙ there

    own_deletion-IsKept :
        (s : S) → lookup s moved ≡ some v → IsKept s → IsKept (client.delete_object name k s).0
    own_deletion-IsKept s there kept =
        let later = deletion_keeps_moved k s in_folder in
        elim (laws.deletion_target k s) [
          | inl same ↦ IsKept-IsKept s (client.delete_object name k s).0 same later kept
          | inr gone ↦ inr (gone, later there)
        ]

    deletion-IsKept :
        (key : Text) (s : S)
        → starts_with key source ≡ true
        → (key ≡ k → lookup s moved ≡ some v)
        → IsKept s
        → IsKept (client.delete_object name key s).0
    deletion-IsKept key s h copied_first kept = elim (Bool-cases (text_eq key k)) [
      | inl e ↦
          let same = (text_eq_iff key k).0 e in
          subst (λ (x : Text). IsKept (client.delete_object name x s).0) (sym same)
            (own_deletion-IsKept s (copied_first same) kept)
      | inr e ↦
          IsKept-IsKept s (client.delete_object name key s).0
            (laws.deletion_keeps key k s (λ same. cc ((text_eq_iff key k).1 (sym same), e)))
            (deletion_keeps_moved key s h) kept
    ]

    -- A worker's step keeps the object, and every worker safe.
    finish_copy-IsGood :
        (i : ℕ) (key : Text) (p : Pool S)
        → starts_with key source ≡ true
        → IsGood p
        → IsGood (finish_copy client encode name source target i key (after_copy key p.store) p)
    unfolding finish_copy
    finish_copy-IsGood i key p h (kept, safe) =
        let s = p.store in
        let later =
          All-IsSafe_later s (after_copy key s).0 (moved_later key s h kept) p.workers safe in
        elim (Sent-cases (after_copy key s).1) [
          | inl (m, e) ↦
              rw (finish_copy, e)
                (
                  after_copy-IsKept key s h kept,
                  All-set_nth (IsSafe (after_copy key s).0) i idle p.workers tt later,
                )
          | inr (u, e) ↦
              rw (finish_copy, e)
                (
                  after_copy-IsKept key s h kept,
                  All-set_nth (IsSafe (after_copy key s).0) i (deleting key) p.workers
                      (h, copy_done key s u kept e) later,
                )
        ]

    finish_deletion-IsGood :
        (i : ℕ) (key : Text) (p : Pool S)
        → IsSafe p.store (deleting key)
        → IsGood p
        → IsGood (
            finish_deletion client encode name source target i key
              (client.delete_object name key p.store)
              p)
    unfolding finish_deletion
    finish_deletion-IsGood i key p (h, first) (kept, safe) =
        let s = p.store in
        let after = client.delete_object name key s in
        let later =
          All-set_nth (IsSafe after.0) i idle p.workers tt
            (All-IsSafe_later s after.0 (deletion_keeps_moved key s h) p.workers safe) in
        elim (Sent-cases after.1) [
          | inl (m, e) ↦ rw (finish_deletion, e) (deletion-IsKept key s h first kept, later)
          | inr (u, e) ↦ rw (finish_deletion, e) (deletion-IsKept key s h first kept, later)
        ]

    taken-IsGood :
        (i : ℕ) (o : Option Text) (p : Pool S)
        → ((key : Text) → o ≡ some key → starts_with key source ≡ true)
        → IsGood p
        → IsGood (taken i o p)
    unfolding taken
    taken-IsGood i none p h (kept, safe) =
        (kept, All-set_nth (IsSafe p.store) i stopped p.workers tt safe)
    taken-IsGood i (some key) p h (kept, safe) =
        (kept, All-set_nth (IsSafe p.store) i (copying key) p.workers (h key refl) safe)

    work-IsGood :
        (keys : List Text) (i : ℕ) (o : Option Phase) (p : Pool S)
        → All (λ key. starts_with key source ≡ true) keys
        → nth p.workers i ≡ o
        → IsGood p
        → IsGood (work client encode name source target keys i o p)
    unfolding work
    work-IsGood keys i none p hk e good = good
    work-IsGood keys i (some stopped) p hk e good = good
    work-IsGood keys i (some idle) p hk e good =
        taken-IsGood i (nth keys p.cursor) p
          (λ key found. All-nth (λ x. starts_with x source ≡ true) p.cursor key keys hk found) good
    work-IsGood keys i (some (copying key)) p hk e good =
        finish_copy-IsGood i key p (All-nth (IsSafe p.store) i (copying key) p.workers good.1 e)
          good
    work-IsGood keys i (some (deleting key)) p hk e good =
        finish_deletion-IsGood i key p
          (All-nth (IsSafe p.store) i (deleting key) p.workers good.1 e) good

    run_workers-IsGood :
        (keys : List Text) (schedule : List ℕ) (p : Pool S)
        → All (λ key. starts_with key source ≡ true) keys
        → IsGood p
        → IsGood (run_workers client encode name source target keys schedule p)
    unfolding run_workers
    run_workers-IsGood keys [] p hk good = good
    run_workers-IsGood keys (i ∷ schedule) p hk good =
        run_workers-IsGood keys schedule
          (work client encode name source target keys i (nth p.workers i) p) hk
          (work-IsGood keys i (nth p.workers i) p hk refl good)

    idle_workers-IsSafe : (n : ℕ) (s : S) → All (IsSafe s) (idle_workers n)
    idle_workers-IsSafe zero s = tt
    idle_workers-IsSafe (suc n) s = (tt, idle_workers-IsSafe n s)

    with_key_match :
        (o : Option Text) (keys : List Text)
        → ((j : Text) → o ≡ some j → starts_with j source ≡ true)
        → All (λ key. starts_with key source ≡ true) keys
        → All (λ key. starts_with key source ≡ true) (with_key o keys)
    with_key_match none keys h rest = rest
    with_key_match (some []) keys h rest = rest
    with_key_match (some (c ∷ s)) keys h rest = (h (c ∷ s) refl, rest)

    keys_of_match :
        (os : List S3Object)
        → All (Matches source) os
        → All (λ key. starts_with key source ≡ true) (keys_of os)
    unfolding keys_of
    keys_of_match [] h = tt
    keys_of_match (o ∷ os) h = with_key_match o.object_key (keys_of os) h.0 (keys_of_match os h.1)

    -- The keys that were listed, if they were, are the folder's.
    abbrev AreListed : Option (Sent (List Text)) → Type 0
    AreListed none = Unit
    AreListed (some (failed m)) = Unit
    AreListed (some (answered keys)) = All (λ key. starts_with key source ≡ true) keys

    before-AreListed :
        (keys : List Text) (o : Option (Sent (List Text)))
        → All (λ key. starts_with key source ≡ true) keys
        → AreListed o
        → AreListed (before keys o)
    before-AreListed keys none h more = tt
    before-AreListed keys (some (failed m)) h more = tt
    before-AreListed keys (some (answered rest)) h more =
        All-append (λ key. starts_with key source ≡ true) keys rest h more

    list_all_keys-AreListed :
        (fuel : ℕ) (token : Option Text) (s : S)
        → (lookup (list_all_keys client encode name fuel source token s).0 k ≡ lookup s k)
          × AreListed (list_all_keys client encode name fuel source token s).1
    unfolding list_all_keys list_object_keys
    list_all_keys-AreListed zero token s = (refl, tt)
    list_all_keys-AreListed (suc fuel) token s =
        let same = laws.listing_keeps source token batch s k in
        let listed = (client.list_objects name source token batch s).0 in
        elim (Sent-cases (client.list_objects name source token batch s).1) [
          | inl (m, e) ↦ rw (list_all_keys, e) (same, tt)
          | inr (page, e) ↦
              let match =
                keys_of_match page.objects (laws.listing_matches source token batch s page e) in
              let rest = list_all_keys-AreListed fuel page.next_token listed in
              elim (Bool-cases (is_more page.next_token)) [
                | inl more ↦
                    rw (list_all_keys, e, more)
                      (
                        rest.0 ∙ same,
                        before-AreListed (keys_of page.objects)
                            (list_all_keys client encode name fuel source page.next_token listed).1
                            match rest.1,
                      )
                | inr last ↦ rw (list_all_keys, e, last) (same, match)
              ]
        ]

    rename_keys-IsKept :
        (concurrency : ℕ) (schedule : List ℕ) (s : S) (o : Option (Sent (List Text)))
        → lookup s k ≡ some v
        → AreListed o
        → IsKept (rename_keys client encode name source target concurrency schedule (s, o)).0
    unfolding rename_keys
    rename_keys-IsKept concurrency schedule s none here listed = inl here
    rename_keys-IsKept concurrency schedule s (some (failed m)) here listed = inl here
    rename_keys-IsKept concurrency schedule s (some (answered keys)) here listed =
        (run_workers-IsGood keys schedule
          (start_pool client encode name source target concurrency keys s) listed
          (inl here, idle_workers-IsSafe (worker_count concurrency (length keys)) s)).0

-- Where the store keeps to its documentation and neither folder contains the other, an object of
-- the folder that is renamed is, after any number of steps of the workers in any order and
-- whichever commands fail, either under its old key with its content or under its new key with it.
pub rename_folder-kept :
    {S V : Type 0} (client : S3Client S) (lookup : S → Text → Option V) (encode : Text → Text)
    (name old new k : Text) (v : V) (concurrency fuel : ℕ) (schedule : List ℕ) (s : S)
    → RenameLaws client lookup encode name
    → starts_with k (normalize_prefix old) ≡ true
    → starts_with (normalize_prefix old) (normalize_prefix new) ≡ false
    → starts_with (normalize_prefix new) (normalize_prefix old) ≡ false
    → lookup s k ≡ some v
    → (lookup (rename_folder client encode name concurrency fuel schedule old new s).0 k ≡ some v)
      ⊎ (lookup
            (rename_folder client encode name concurrency fuel schedule old new s).0
            (destination (normalize_prefix old) (normalize_prefix new) k)
          ≡ some v)
unfolding rename_folder
rename_folder-kept client lookup encode name old new k v concurrency fuel schedule s laws h apart
      apart' here =
    let source = normalize_prefix old in
    let target = normalize_prefix new in
    let listed =
      list_all_keys-AreListed client lookup encode name source target k v laws h apart apart' fuel
        none s in
    let listing = list_all_keys client encode name fuel source none s in
    elim (Bool-cases (text_eq source target)) [
      | inl e ↦ rw (rename_folder, e) (inl here)
      | inr e ↦
          rw (rename_folder, e)
            (elim (rename_keys-IsKept client lookup encode name source target k v laws h apart
              apart' concurrency schedule listing.0 listing.1 (listed.0 ∙ here) listed.1) [
                | inl stays ↦ inl stays
                | inr (gone, there) ↦ inr there
              ])
    ]
