-- ===== src/S3/Multipart/Parts.antt =====
-- The parts that the completion of an upload sends.
use mathlib.Core.List.{Permᴰ}
use s3gator.Base.{◌≤◌, true, false, Option, String, List, [], ◌∷◌, ◌≡◌, refl, arith, All}
use s3gator.Base.Sorting.{IsSorted, sort_by-IsSorted, sort_by-Perm}
use s3gator.S3.{Sent, answered, failed}
use s3gator.S3.Keys.{normalize_key}
use s3gator.S3.Multipart.{
  MultipartClient, MultipartCompletePart, MultipartCompleteRequest, MultipartCompleteResult,
  complete_multipart_upload, sent_completion, part_le, sort_parts,
}

part_le_total : (p q : MultipartCompletePart) → part_le p q ≡ false → part_le q p ≡ true
part_le_total p q h = ground arith

part_le_chained :
    (p q r : MultipartCompletePart) → part_le p q ≡ true → part_le q r ≡ true → part_le p r ≡ true
part_le_chained p q r h g = ground arith

-- No part has a greater number than one that follows.
abbrev pub Ascending : List MultipartCompletePart → Type 0
Ascending [] = Unit
Ascending (p ∷ parts) = All (λ q. p.part_number ≤ q.part_number) parts × Ascending parts

IsSorted-Ascending : (parts : List MultipartCompletePart) → IsSorted part_le parts → Ascending parts
IsSorted-Ascending [] h = tt
IsSorted-Ascending (p ∷ parts) h = (each parts h.0, IsSorted-Ascending parts h.1)
  where
    each :
        (others : List MultipartCompletePart)
        → All (λ q. part_le p q ≡ true) others
        → All (λ q. p.part_number ≤ q.part_number) others
    each [] g = tt
    each (q ∷ others) g = (ground (arith, g.0), each others g.1)

-- What the caller is told: the error of the store, or where the object is, with the store's tag.
abbrev pub Told :
    MultipartCompleteRequest → Sent (Option String) → Sent MultipartCompleteResult → Type 0
Told input (failed m) told = told ≡ failed m
Told input (answered tag) told =
    told
    ≡ answered (record {
      bucket = input.bucket;
      object_key = normalize_key input.object_key;
      upload_id = input.upload_id;
      e_tag = tag;
    })

told_lem :
    (input : MultipartCompleteRequest) (sent : Sent (Option String))
    → Told input sent
        (sent_completion (record input { object_key = normalize_key input.object_key }) sent)
told_lem input (failed m) = refl
told_lem input (answered tag) = refl

-- The completion of an upload sends one command to the store, for the bucket, the normalised key
-- and the upload of the request. Its parts are those of the request, each as often, in the order
-- of their numbers. The caller is told the store's error, or that place and the store's tag.
pub complete_multipart_upload_lem :
    {S : Type 0} (client : MultipartClient S) (input : MultipartCompleteRequest) (s : S)
    → (parts : List MultipartCompletePart) × Ascending parts
      × Permᴰ parts input.parts
      × (let sent =
            client.complete_multipart_upload input.bucket
              (normalize_key input.object_key)
              input.upload_id
              parts
              s in
          ((complete_multipart_upload client input s).0 ≡ sent.0)
          × Told input sent.1 (complete_multipart_upload client input s).1)
unfolding complete_multipart_upload
complete_multipart_upload_lem client input s =
    let parts = sort_parts input.parts in
    (
      parts,
      IsSorted-Ascending parts (sort_by-IsSorted part_le part_le_total part_le_chained input.parts),
      sort_by-Perm part_le input.parts,
      (refl, told_lem input _),
    )
