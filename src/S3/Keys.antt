-- ===== src/S3/Keys.antt =====
-- packages/s3/src/utils.ts: keys, prefixes and names.
pub mod Normal
use s3gator.Base.{
  ℕ, Bool, true, false, Option, none, some, List, [], ◌∷◌, ◌++◌, ◌&&◌, ◌||◌, if◌then◌else◌, ◌==◌,
  or_default,
}
use s3gator.Base.Text.{Text, codes, ends_with, starts_with, includes, text_eq}

abbrev pub slash : ℕ
slash = b'/'

-- `s.replace(/^\/+/, "")`
unfoldable pub drop_slashes : Text → Text
drop_slashes [] = []
drop_slashes (c ∷ s) = if c == slash then drop_slashes s else c ∷ s

-- `s.replace(/\/+/g, "/")`, where `after` tells that a slash stands before the text
unfoldable pub collapse : Bool → Text → Text
collapse after [] = []
collapse after (c ∷ s) =
    let rest = collapse (c == slash) s in if after && c == slash then rest else c ∷ rest

unfoldable pub normalize_key : Text → Text
unfolding drop_slashes collapse
normalize_key key = collapse false (drop_slashes key)

unfoldable pub normalize_prefix : Text → Text
unfolding drop_slashes collapse
normalize_prefix [] = []
normalize_prefix (c ∷ s) =
    let cleaned = collapse false (drop_slashes (c ∷ s)) in
    if ends_with cleaned (slash ∷ []) then cleaned else cleaned ++ slash ∷ []

abbrev push_part : Text → List Text → List Text
push_part [] parts = parts
push_part (c ∷ s) parts = (c ∷ s) ∷ parts

-- `s.split("/").filter(Boolean)`, where `part` is what stands since the last slash
unfoldable pub segments_from : Text → Text → List Text
segments_from part [] = push_part part []
segments_from part (c ∷ s) =
    let closed = push_part part (segments_from [] s) in
    let longer = segments_from (part ++ c ∷ []) s in if c == slash then closed else longer

unfoldable pub segments : Text → List Text
unfolding segments_from
segments s = segments_from [] s

-- `key.slice(0, -1)`
unfoldable pub drop_last : Text → Text
drop_last [] = []
drop_last (c ∷ []) = []
drop_last (c ∷ d ∷ s) = c ∷ drop_last (d ∷ s)

-- `parts.at(-1)`
abbrev pub last? : List Text → Option Text
last? [] = none
last? (p ∷ []) = some p
last? (p ∷ q ∷ parts) = last? (q ∷ parts)

unfoldable pub base_name_from_key : Text → Text
unfolding drop_last
base_name_from_key key =
    let cleaned = if ends_with key (slash ∷ []) then drop_last key else key in
    or_default (last? (segments cleaned)) cleaned

-- The endings in the order in which they are tried, with their types.
abbrev pub content_types : List (List Text × Text)
content_types =
    (codes ".pdf" ∷ [], codes "application/pdf")
    ∷ (codes ".json" ∷ [], codes "application/json")
    ∷ (
      codes ".txt" ∷ codes ".md" ∷ codes ".log" ∷ codes ".yaml" ∷ codes ".yml" ∷ [],
      codes "text/plain",
    )
    ∷ (codes ".html" ∷ [], codes "text/html")
    ∷ (codes ".css" ∷ [], codes "text/css")
    ∷ (codes ".js" ∷ codes ".mjs" ∷ codes ".cjs" ∷ codes ".ts" ∷ [], codes "text/javascript")
    ∷ (codes ".csv" ∷ [], codes "text/csv")
    ∷ (codes ".png" ∷ [], codes "image/png")
    ∷ (codes ".jpg" ∷ codes ".jpeg" ∷ [], codes "image/jpeg")
    ∷ (codes ".gif" ∷ [], codes "image/gif")
    ∷ (codes ".webp" ∷ [], codes "image/webp")
    ∷ (codes ".svg" ∷ [], codes "image/svg+xml")
    ∷ (codes ".mp4" ∷ [], codes "video/mp4")
    ∷ (codes ".webm" ∷ [], codes "video/webm")
    ∷ (codes ".mp3" ∷ [], codes "audio/mpeg")
    ∷ (codes ".wav" ∷ [], codes "audio/wav")
    ∷ []

abbrev ends_with_any : List Text → Text → Bool
ends_with_any [] s = false
ends_with_any (e ∷ endings) s = ends_with s e || ends_with_any endings s

unfoldable pub first_type : List (List Text × Text) → Text → Text
first_type [] lower = codes "application/octet-stream"
first_type ((endings, type) ∷ rest) lower =
    if ends_with_any endings lower then type else first_type rest lower

-- `lower` is `String.prototype.toLowerCase`.
unfoldable pub infer_content_type_from_key : (Text → Text) → Text → Text
unfolding first_type
infer_content_type_from_key lower key = first_type content_types (lower key)

pub data PreviewType : Type 0 where
  image video audio text pdf download : PreviewType

unfoldable pub infer_preview_type : Text → PreviewType
unfolding includes
infer_preview_type content_type =
    if starts_with content_type (codes "image/")
    then image
    else if starts_with content_type (codes "video/")
    then video
    else if starts_with content_type (codes "audio/")
    then audio
    else if text_eq content_type (codes "application/pdf")
    then pdf
    else if starts_with content_type (codes "text/")
        || includes content_type (codes "json")
        || includes content_type (codes "xml")
        || includes content_type (codes "javascript")
    then text
    else download
