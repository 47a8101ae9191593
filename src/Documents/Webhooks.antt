-- ===== src/Documents/Webhooks.antt =====
-- storage/document_store.go: the webhook subscriptions of a document.
use minio_3d.Base.{String, not, ◌||◌, List, [], ◌∷◌, ◌++◌, ◌==◌, any, select, if◌then◌else◌}
use minio_3d.Errors.{ok, err}
use minio_3d.Types.{WebhookSubscription}
use minio_3d.Exec.{label}
use minio_3d.Sql.{Tables, Postgres, Sql, Statement, query, reading, violation}

-- `id` is unique, and `user_id` and `document_id` refer to rows.
unfoldable pub insert_webhook : WebhookSubscription → Statement WebhookSubscription
insert_webhook w t =
    if any (λ v. v.id == w.id) t.webhooks
      || (not (any (λ u. u.id == w.user_id) t.users)
          || not (any (λ d. d.id == w.document_id) t.documents))
    then err violation
    else ok (w, record t { webhooks = t.webhooks ++ w ∷ [] })

-- The row that `INSERT INTO webhook_subscriptions` describes.
abbrev pub new_webhook : Postgres → String → String → String → String → Tables → WebhookSubscription
new_webhook pg user_id doc_id url secret t = record {
  id = pg.new_id t;
  user_id = user_id;
  document_id = doc_id;
  url = url;
  secret = secret;
  created_at = pg.now t;
}

unfoldable pub create_webhook :
    Postgres → String → String → String → String → Sql WebhookSubscription
unfolding query insert_webhook
create_webhook pg user_id doc_id url secret =
    label "create webhook"
      (query (λ t. insert_webhook (new_webhook pg user_id doc_id url secret t) t))

unfoldable pub get_webhooks_for_document : String → Sql (List WebhookSubscription)
unfolding query
get_webhooks_for_document doc_id =
    label "get webhooks"
      (query (reading (λ t. ok (select (λ w. w.document_id == doc_id) t.webhooks))))
