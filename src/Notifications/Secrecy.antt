-- ===== src/Notifications/Secrecy.antt =====
-- The details that `send` and the wrappers of src/notifications/notifications.service.ts deliver.
use backups_microservice.Prelude.{
  ◌≡◌, ap, sym, subst, true, Option, none, some, List, ◌∷◌, ◌++◌, arith,
}
use backups_microservice.Js.{Text}
use backups_microservice.Redaction.{Fields, obj, sanitize_value, sanitize_fields}
use backups_microservice.Redaction.Reading.{
  Key, key, read, is_plain, IsHidden, read-sanitize_sensitive, read-sanitize_plain,
}
use backups_microservice.Notifications.{
  Request, Delivery, skipped, posted, warned, is_sensitive, by_key, sanitize_details, notification,
  send,
}

-- The request of a delivery, where one was posted, with success or without.
unfoldable pub request_of : Delivery → Option Request
request_of skipped = none
request_of (posted request) = some request
request_of (warned request warning) = some request

module _ (env : Text → Option Text) (post : Request → Option Text) (event message : Text)
    (details : Fields) (request : Request)
    (delivered : request_of (send env post event message (some details)) ≡ some request) where
  sent_request : request ≡ notification env post event message (some details)
  unfolding send request_of
  sent_request = ground arith

  sanitized : request.payload.details ≡ sanitize_details (some details)
  unfolding notification
  sanitized = ap (λ (r : Request). r.payload.details) sent_request

  module _ (ds : Fields) (carried : request.payload.details ≡ some ds) where
    carried_fields : ds ≡ sanitize_fields by_key details
    unfolding sanitize_details
    carried_fields = cc (sanitized)

    -- In the details that a notification delivers, everything at and below a key that is sensitive
    -- reads as nothing or as the redacted text, at whatever depth the key stands.
    pub delivered_secrets-IsHidden :
        (p : List Key) (k : Text) (q : List Key)
        → is_sensitive k ≡ true
        → IsHidden (read (p ++ key k ∷ q) (obj ds))
    unfolding sanitize_value by_key
    delivered_secrets-IsHidden p k q h =
        subst (λ f. IsHidden (read (p ++ key k ∷ q) (obj f))) (sym carried_fields)
          (read-sanitize_sensitive by_key p k q (obj details) h)

    -- A notification is delivered with the event and message it was sent with, and along a path
    -- without sensitive keys its details read the redaction of the value that the caller gave there.
    pub delivered_rest_kept :
        (p : List Key)
        → is_plain by_key p ≡ true
        → (request.payload.event ≡ event)
          × (request.payload.message ≡ message)
          × (read p (obj ds) ≡ sanitize_value by_key (read p (obj details)))
    unfolding sanitize_value notification
    delivered_rest_kept p h = (
      ap (λ (r : Request). r.payload.event) sent_request,
      ap (λ (r : Request). r.payload.message) sent_request,
      subst (λ f. read p (obj f) ≡ sanitize_value by_key (read p (obj details)))
          (sym carried_fields) (read-sanitize_plain by_key p (obj details) h),
    )
