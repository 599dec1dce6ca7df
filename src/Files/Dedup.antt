-- ===== src/Files/Dedup.antt =====
-- apps/api/src/files/files.service.ts: the parts that `recordMultipartPart` keeps.
pub mod Latest
use s3gator.Base.{List, [], ◌∷◌, if◌then◌else◌, ◌==◌}
use s3gator.S3.Multipart.{MultipartCompletePart, sort_parts}

-- `dedup.set(part.partNumber, part)`, on the entries in the order of their insertion
unfoldable pub set_part :
    MultipartCompletePart → List MultipartCompletePart → List MultipartCompletePart
set_part p [] = p ∷ []
set_part p (q ∷ entries) =
    let rest = set_part p entries in
    if q.part_number == p.part_number then p ∷ entries else q ∷ rest

unfoldable pub set_parts :
    List MultipartCompletePart → List MultipartCompletePart → List MultipartCompletePart
unfolding set_part
set_parts [] entries = entries
set_parts (p ∷ parts) entries = set_parts parts (set_part p entries)

-- The parts that `recordMultipartPart` writes.
unfoldable pub merge_part :
    MultipartCompletePart → List MultipartCompletePart → List MultipartCompletePart
unfolding set_parts
merge_part p existing = sort_parts (set_part p (set_parts existing []))
