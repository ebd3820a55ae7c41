-- ===== src/Services/Media.antt =====
-- The media service: internal/media/service.go and services/media-service/cmd/main.go. The hash
-- functions, `url.Values.Encode`, `url.PathEscape`, `path.Join` and the formats of times are
-- parameters.
pub mod Keys
use wire_server.Prelude.{
  ℕ, ◌+◌, ◌*◌, String, Bool, true, false, Option, none, some, List, [], ◌∷◌, ◌++◌, ◌==◌, map,
  if◌then◌else◌,
}
use mathlib.Core.Option.{map as map_option}
use wire_server.Text.{◌<>◌, decimal, hex_encode}
use wire_server.Text.Words.{split_at}

pub record MediaObject : Type 0 where
  pub id : String
  pub owner_phone : String
  pub bucket : String
  pub object_key : String
  pub content_type : String
  pub size_bytes : ℕ
  pub status : String
  pub created_at : ℕ

-- `Service`
pub record MediaService : Type 0 where
  pub bucket : String
  pub region : String
  pub access_key_id : String
  pub secret_key : String

pub record PresignRequest : Type 0 where
  pub user_phone : String
  pub object_key : String
  pub content_type : String
  pub size_bytes : ℕ

pub record PresignResponse : Type 0 where
  pub url : String
  pub method : String
  pub headers : List (String × String)
  pub expires_at : ℕ
  pub media_object_id : String

-- `RequestUploadURLResponse`
pub record UploadUrl : Type 0 where
  pub url : String
  pub headers : List (String × String)
  pub expires_at : ℕ

-- `MediaItem`
pub record MediaItem : Type 0 where
  pub media_id : String
  pub owner_phone : String
  pub bucket : String
  pub object_key : String
  pub status : String
  pub created_at : ℕ

-- What the service takes from the standard library. Times are nanoseconds.
pub record MediaLibrary : Type 0 where
  pub sha256 : String → List ℕ
  pub hmac_sha256 : List ℕ → String → List ℕ
  pub bytes : String → List ℕ
  pub encode_query : List (String × String) → String
  pub path_escape : String → String
  pub path_join : List String → String
  pub date_time : ℕ → String
  pub date : ℕ → String

-- `strings.Join`
unfoldable pub join_with : String → List String → String
join_with sep [] = ""
join_with sep (s ∷ []) = s
join_with sep (s ∷ t ∷ ts) = s <> (sep <> join_with sep (t ∷ ts))

-- `newID` at a time.
unfoldable pub new_id : String → ℕ → String
new_id prefix now = prefix <> ("_" <> decimal now)

module _ (lib : MediaLibrary) (s : MediaService) where
  unfoldable pub escape_s3_key : String → String
  unfolding join_with
  escape_s3_key key = join_with "/" (map lib.path_escape (split_at 47 key))

  unfoldable pub signing_key : String → List ℕ
  signing_key date =
      let k_date = lib.hmac_sha256 (lib.bytes ("AWS4" <> s.secret_key)) date in
      let k_region = lib.hmac_sha256 k_date s.region in
      let k_service = lib.hmac_sha256 k_region "s3" in lib.hmac_sha256 k_service "aws4_request"

  abbrev object_key_of : PresignRequest → String → String
  object_key_of req object_id =
      if req.object_key == ""
      then lib.path_join ("uploads" ∷ req.user_phone ∷ object_id ∷ [])
      else req.object_key

  abbrev credential_scope : ℕ → String
  credential_scope now = lib.date now <> ("/" <> (s.region <> "/s3/aws4_request"))

  -- The query before the signature, in the order of the calls of `Set`.
  abbrev unsigned_query : ℕ → List (String × String)
  unsigned_query now =
      ("X-Amz-Algorithm", "AWS4-HMAC-SHA256")
      ∷ ("X-Amz-Credential", s.access_key_id <> ("/" <> credential_scope now))
      ∷ ("X-Amz-Date", lib.date_time now)
      ∷ ("X-Amz-Expires", "900")
      ∷ ("X-Amz-SignedHeaders", "host")
      ∷ []

  unfoldable pub canonical_request : String → ℕ → String
  unfolding join_with
  canonical_request escaped_key now = join_with "\n" (
      "PUT"
      ∷ ("/" <> escaped_key)
      ∷ lib.encode_query (unsigned_query now)
      ∷ ("host:" <> (s.bucket <> (".s3." <> (s.region <> ".amazonaws.com\n"))))
      ∷ "host"
      ∷ "UNSIGNED-PAYLOAD"
      ∷ [])

  unfoldable pub signature_of : String → ℕ → String
  unfolding join_with signing_key canonical_request hex_encode
  signature_of escaped_key now = hex_encode (
      lib.hmac_sha256 (signing_key (lib.date now)) (
        join_with "\n" (
          "AWS4-HMAC-SHA256"
          ∷ lib.date_time now
          ∷ credential_scope now
          ∷ hex_encode (lib.sha256 (canonical_request escaped_key now))
          ∷ [])))

  unfoldable pub presigned_url : String → ℕ → String
  unfolding signature_of
  presigned_url escaped_key now =
      "https://"
      <> (s.bucket
          <> (".s3."
              <> (s.region
                  <> (".amazonaws.com/"
                      <> (escaped_key
                          <> ("?"
                              <> lib.encode_query (
                                  unsigned_query now
                                  ++ ("X-Amz-Signature", signature_of escaped_key now) ∷ [])))))))

  -- The row, if the insertion succeeds; `lost` says that it fails. `none` is an error. The id is made at
  -- a time of its own.
  unfoldable pub presign_upload :
      (lost : Bool)
      → PresignRequest
      → (now id_time : ℕ) → List MediaObject
      → Option PresignResponse × List MediaObject
  unfolding new_id escape_s3_key presigned_url
  presign_upload lost req now id_time objects =
      let object_id = new_id "media" id_time in
      let key = object_key_of req object_id in
      if lost then (none, objects) else (
        some (record {
          url = presigned_url (escape_s3_key key) now;
          method = "PUT";
          headers = ("Content-Type", req.content_type) ∷ [];
          expires_at = now + 15 * 60 * 1000000000;
          media_object_id = object_id;
        }),
        record {
          id = object_id;
          owner_phone = req.user_phone;
          bucket = s.bucket;
          object_key = key;
          content_type = req.content_type;
          size_bytes = req.size_bytes;
          status = "pending";
          created_at = now;
        }
            ∷ objects,
      )

  abbrev upload_url : PresignResponse → UploadUrl
  upload_url r = record { url = r.url; headers = r.headers; expires_at = r.expires_at }

  -- `RequestUploadURL`: no object key is asked for, and `none` is the status `Internal`.
  unfoldable pub request_upload_url :
      (lost : Bool)
      → (owner_phone content_type : String) → (size now id_time : ℕ) → List MediaObject
      → Option UploadUrl × List MediaObject
  request_upload_url lost owner_phone content_type size now id_time objects =
      let req : PresignRequest = record {
        user_phone = owner_phone;
        object_key = "";
        content_type = content_type;
        size_bytes = size;
      } in
      let (answer, objects') = presign_upload lost req now id_time objects in
      (map_option upload_url answer, objects')

abbrev pub find_object : String → List MediaObject → Option MediaObject
find_object id [] = none
find_object id (o ∷ os) = if o.id == id then some o else find_object id os

abbrev item_of : MediaObject → MediaItem
item_of o = record {
  media_id = o.id;
  owner_phone = o.owner_phone;
  bucket = o.bucket;
  object_key = o.object_key;
  status = o.status;
  created_at = o.created_at;
}

-- `GetMediaItem`: any error of the query is "not found", `none`.
unfoldable pub get_media_item : Bool → String → List MediaObject → Option MediaItem
get_media_item lost id objects = if lost then none else map_option item_of (find_object id objects)
