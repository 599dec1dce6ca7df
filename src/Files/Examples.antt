-- ===== src/Files/Examples.antt =====
-- A concrete service: two buckets, a store that counts the commands, and a session of alice.
use s3gator.Base.{
  ℕ, suc, ◌-◌, ◌*◌, ◌≤◌, ◌<◌, String, none, some, List, [], ◌∷◌, ◌++◌, map, ◌≡◌, ◌≢◌, ap, eq_iff,
  refl, inl, arith, length, keep_if, min, max, or_default,
}
use s3gator.Base.Outcome.{ok}
use s3gator.Base.Text.{codes}
use s3gator.Auth.{SessionUser, super_admin, user, permission_eq, object_upload}
use s3gator.Auth.Authorization.{Bucket, require_bucket_permission, find_bucket, has_grant}
use s3gator.S3.{answered}
use s3gator.S3.Multipart.{MultipartCompletePart, MultipartClient, abort_multipart_upload}
use s3gator.Files.Model.{
  initiated, meta_numbers, UploadSession, Env, State, find_upload, find_bucket_by_id,
}
use s3gator.Files.Dedup.{merge_part}
use s3gator.Files.Dedup.Latest.{IsAscending, tag_at, merge_part_lem}
use s3gator.Files.Entered.{Entry, check_session, get_upload_session_for_user, enter}
use s3gator.Files.Entered.Admitted.{IsAdmitted}
use s3gator.Files.Create.{parts_for}
use s3gator.Files.Create.Sizes.{parts_for-IsCover}
use s3gator.Files.Uploads.{abort_in_store, abort_entered, abort_multipart}
use s3gator.Files.Uploads.Unchanged.{abort, run, run-IsAdmitted}
use s3gator.Files.Public.{is_expired, cleanup_expired_multipart_sessions}
use s3gator.Files.Public.Over.{IsOver}
use s3gator.Files.Public.Cleaned.{IsUnique, Cleans, cleanup-IsExpired}
use s3gator.Files.Steps.{Identity, identity_of, Step, worked, cleaned, Reach, here, next}
use s3gator.Files.Steps.Reached.{Reach-IsUnique}

abbrev alice : SessionUser
alice = record { id = "u1"; username = "alice"; email = none; display_name = none; role = user }

abbrev root : SessionUser
root = record {
  id = "u0";
  username = "root";
  email = none;
  display_name = none;
  role = super_admin;
}

abbrev photos : Bucket
photos = record {
  id = "b1";
  name = "photos";
  garage_bucket_id = some "g1";
  connection_id = none;
  created_at = 1;
  updated_at = 1;
}

abbrev counting : MultipartClient ℕ
counting = record {
  create_multipart_upload = λ request s. (suc s, answered (some "up"));
  complete_multipart_upload = λ bucket key id parts s. (suc s, answered (some "tag"));
  abort_multipart_upload = λ bucket key id s. (suc s, answered tt);
  get_signed_url = λ bucket key id n expiry s. answered "https://s3";
}

abbrev service : Env ℕ
service = record {
  tables = record {
    buckets = photos ∷ [];
    grants = record { user_id = "u1"; bucket_id = "b1"; permission = object_upload } ∷ [];
  };
  scopes = [];
  config = record { part_size_bytes = 5; session_ttl_hours = 24 };
  client = ok counting;
}

abbrev begun : UploadSession
begun = record {
  id = "s1";
  user_id = "u1";
  bucket_id = "b1";
  object_key = codes "a.txt";
  upload_id = "up";
  status = initiated;
  parts_meta = meta_numbers [];
  completed_parts = [];
  part_size = some 5;
  total_parts = some 3;
  file_size = some 12;
  content_type = none;
  relative_path = none;
  error = none;
  last_activity_at = 10;
  created_at = 10;
  updated_at = 10;
  expires_at = 100;
}

abbrev later : UploadSession
later = record begun { id = "s2"; expires_at = 300 }

abbrev one_begun : State ℕ
one_begun = record { sessions = begun ∷ later ∷ []; audits = []; upload_events = []; store = 0 }

abbrev part : ℕ → String → MultipartCompletePart
part n e_tag = record { part_number = n; e_tag = e_tag }

merge_part_lem_example :
    IsAscending (merge_part (part 2 "new") (part 3 "c" ∷ part 2 "old" ∷ part 3 "d" ∷ []))
    × (tag_at 3 (merge_part (part 2 "new") (part 3 "c" ∷ part 2 "old" ∷ part 3 "d" ∷ []))
        ≡ some "d")
merge_part_lem_example =
    merge_part_lem (part 2 "new") (part 3 "c" ∷ part 2 "old" ∷ part 3 "d" ∷ []) 3

parts_for-IsCover_example : (12 ≤ parts_for 12 5 * 5) × ((parts_for 12 5 - 1) * 5 < 12)
parts_for-IsCover_example = parts_for-IsCover 12 5 (ground arith) (ground arith)

abort_counts : (run service (abort none) alice "s1" 50 one_begun).store ≡ 1
unfolding run abort_multipart enter get_upload_session_for_user find_upload check_session
    find_bucket_by_id require_bucket_permission find_bucket has_grant permission_eq abort_entered
    abort_in_store abort_multipart_upload
abort_counts = refl

run-IsAdmitted_example : (entry : Entry) × IsAdmitted service alice "s1" 50 one_begun entry
run-IsAdmitted_example =
    run-IsAdmitted service (abort none) alice "s1" 50 one_begun aborting_changes
  where
    aborting_changes : run service (abort none) alice "s1" 50 one_begun ≢ one_begun
    aborting_changes e = absurd (omega (arith, abort_counts, ap (λ st. st.store) e))

distinct_names : ◌≢◌ {A = String} "s1" "s2"
distinct_names e = absurd (cc ((eq_iff "s1" "s2").1 e))

one_begun-IsUnique : IsUnique one_begun.sessions
one_begun-IsUnique = ((distinct_names, tt), (tt, tt))

few_expired_at_200 :
    length (keep_if (is_expired service.scopes root 200) one_begun.sessions)
    ≤ min (max (or_default none 100) 1) 500
unfolding is_expired
few_expired_at_200 = ground arith

cleanup-IsExpired_example :
    (n : ℕ) × Cleans
      (IsOver service.scopes root 200)
      200
      one_begun.sessions
      (cleanup_expired_multipart_sessions service root none 200 one_begun).0.sessions
      n
    × ((cleanup_expired_multipart_sessions service root none 200 one_begun).1 ≡ ok (n, n))
cleanup-IsExpired_example =
    cleanup-IsExpired service root none 200 one_begun (inl refl) one_begun-IsUnique
      few_expired_at_200

Reach-IsUnique_example :
    s3gator.Files.Steps.Reached.IsUnique
      (map identity_of (run service (abort none) alice "s1" 50 one_begun).sessions)
    × ((added : List Identity) × (map identity_of
            (run service (abort none) alice "s1" 50 one_begun).sessions
          ≡ map identity_of one_begun.sessions ++ added))
Reach-IsUnique_example =
    Reach-IsUnique service (next here (worked (abort none) alice "s1" 50))
      ((distinct_names, tt), (tt, tt))
