-- ===== src/Worker/Deliver.antt =====
-- worker/processor.go: `HandleFireWebhook`, which delivers one notification. The JSON encoder, HMAC
-- and the HTTP client are third-party code or Go's own, and are parameters; `N` is the state of the
-- network, on which the client acts.
use Prim.Native.String.{◌++◌}
use text.Mathlib.TextLemmas.{append-eq-nil_iff}
use mathlib.Core.Path.{subst}
use minio_3d.Base.{
  ℕ, String, Bool, true, ◌||◌, not, ◌≡◌, ◌≢◌, ◌≤◌, ◌<◌, refl, sym, ap, Option, none, some, [], ◌∷◌,
  ◌==◌, leb, ltb, arith, inl, inr, Bool-cases, eq_iff, if◌then◌else◌,
}
use minio_3d.Errors.{plain, Result, ok}
use minio_3d.Numbers.{decimal}
use minio_3d.Paths.{concat}
use minio_3d.Exec.{Exec, label, lift, guard, ◌>>=◌, ◌>>◌}
use minio_3d.Exec.Laws.{>>=-eq-ok, guard-eq-ok, relabel-eq-ok}
use minio_3d.Storage.{Bytes}
use minio_3d.Worker.Tasks.{FireWebhookPayload}

-- The fields of the body.
pub record Notification : Type 0 where
  pub document_id : String
  pub status : String
  pub total_pages : ℕ
  pub timestamp : ℕ

-- The POST request, with the header `X-Signature-SHA256` if it is set.
pub record Delivery : Type 0 where
  pub url : String
  pub body : Bytes
  pub content_type : String
  pub signature : Option String

pub record WebhookClient (N : Type 0) : Type 0 where
  pub marshal : Notification → Result Bytes
  pub hmac_hex : String → Bytes → String
  pub new_request : String → Bytes → Result (Unit {0})
  pub do_request : Delivery → Exec N ℕ

-- `if sig != "" { req.Header.Set("X-Signature-SHA256", sig) }`
abbrev header_of : String → Option String
header_of sig = if sig == "" then none else some sig

abbrev is_success : ℕ → Bool
is_success status = not (ltb status 200 || leb 300 status)

not_empty : (s : String) → "sha256=" ++ s ≡ "" → ⊥
not_empty s h = differ (append-eq-nil_iff.0 h).0
  where
    differ : ◌≡◌ {A = String} "sha256=" "" → ⊥
    differ k = cc

header_of_signature :
    (hex : String)
    → header_of (concat ("sha256=" ∷ hex ∷ [])) ≡ some (concat ("sha256=" ∷ hex ∷ []))
header_of_signature hex = elim (Bool-cases (concat ("sha256=" ∷ hex ∷ []) == "")) [
  | inl same ↦ absurd (not_empty (hex ++ "") ((eq_iff (concat ("sha256=" ∷ hex ∷ [])) "").0 same))
  | inr differ ↦ rw differ refl
]

module _ {N : Type 0} (client : WebhookClient N) where
  unfoldable pub signature_of : String → Bytes → String
  signature_of secret body =
      if secret == "" then "" else concat ("sha256=" ∷ client.hmac_hex secret body ∷ [])

  abbrev pub delivery : FireWebhookPayload → Bytes → Delivery
  delivery p body = record {
    url = p.webhook_url;
    body = body;
    content_type = "application/json";
    signature = header_of (signature_of p.secret body);
  }

  abbrev notification : FireWebhookPayload → ℕ → Notification
  notification p now = record {
    document_id = p.document_id;
    status = p.status;
    total_pages = p.total_pages;
    timestamp = now;
  }

  abbrev posted : FireWebhookPayload → Bytes → Exec N (Unit {0})
  posted p body = label "deliver webhook" (client.do_request (delivery p body)) >>= λ status.
      guard (is_success status)
        (plain (concat ("webhook returned non-2xx: " ∷ decimal status ∷ [])))

  unfoldable pub handle_fire_webhook : ℕ → Result FireWebhookPayload → Exec N (Unit {0})
  unfolding ◌>>=◌ signature_of decimal
  handle_fire_webhook now payload = do
    p ← label "unmarshal webhook payload" (lift payload)
    body ← label "marshal webhook body" (lift (client.marshal (notification p now)))
    label "build webhook request" (lift (client.new_request p.webhook_url body))
    posted p body

  -- What has been sent when a delivery ends well.
  pub record Delivered (p : FireWebhookPayload) (now : ℕ) (n n' : N) : Type 0 where
    pub body : Bytes
    pub status : ℕ
    pub encoded : client.marshal (notification p now) ≡ ok body
    pub sent : client.do_request (delivery p body) n ≡ (ok status, n')
    pub from : 200 ≤ status
    pub below : status < 300
    pub unsigned : p.secret ≡ "" → (delivery p body).signature ≡ none
    pub signed :
        p.secret ≢ ""
        → (delivery p body).signature
          ≡ some (concat ("sha256=" ∷ client.hmac_hex p.secret body ∷ []))

  unsigned_of :
      (p : FireWebhookPayload) (body : Bytes) → p.secret ≡ "" → (delivery p body).signature ≡ none
  unfolding signature_of
  unsigned_of p body no_secret = ap (λ secret. header_of (signature_of secret body)) no_secret

  signed_of :
      (p : FireWebhookPayload) (body : Bytes)
      → p.secret ≢ ""
      → (delivery p body).signature ≡ some (concat ("sha256=" ∷ client.hmac_hex p.secret body ∷ []))
  unfolding signature_of
  signed_of p body some_secret = elim (Bool-cases (p.secret == "")) [
    | inl same ↦ absurd (some_secret ((eq_iff p.secret "").0 same))
    | inr differ ↦ rw differ (header_of_signature (client.hmac_hex p.secret body))
  ]

  posted-eq-ok :
      (p : FireWebhookPayload) (body : Bytes) (n : N) (u : Unit) (n' : N)
      → posted p body n ≡ (ok u, n')
      → (status : ℕ) × (client.do_request (delivery p body) n ≡ (ok status, n'))
        × (is_success status ≡ true)
  posted-eq-ok p body n u n' h =
      let (status, n₁, sent, checked) =
        >>=-eq-ok (label "deliver webhook" (client.do_request (delivery p body)))
          (λ status.
            guard (is_success status)
              (plain (concat ("webhook returned non-2xx: " ∷ decimal status ∷ []))))
          n u n' h in
      let (success, same) = guard-eq-ok (is_success status) _ n₁ u n' checked in
      (
        status,
        subst (λ v. client.do_request (delivery p body) n ≡ (ok status, v)) (sym same)
            (relabel-eq-ok "deliver webhook" (client.do_request (delivery p body) n) status n₁
              sent),
        success,
      )

  -- A delivery that ends well has sent one request, to the address of the subscription; the answer
  -- was a status from 200 to 299; and the request carries a signature, made from the secret and the
  -- bytes of its body, exactly when the secret is not empty.
  pub handle_fire_webhook-Delivered :
      (p : FireWebhookPayload) (now : ℕ) (n : N) (n' : N)
      → handle_fire_webhook now (ok p) n ≡ (ok tt, n')
      → Delivered p now n n'
  unfolding handle_fire_webhook
  handle_fire_webhook-Delivered p now n n' h =
      let (body, n₁, encoded, rest) =
        >>=-eq-ok (label "marshal webhook body" (lift (client.marshal (notification p now))))
          (λ body.
            label "build webhook request" (lift (client.new_request p.webhook_url body))
            >> posted p body)
          n tt n' h in
      let marshalled = relabel-eq-ok "marshal webhook body" _ body n₁ encoded in
      let (_, n₂, built, last) =
        >>=-eq-ok (label "build webhook request" (lift (client.new_request p.webhook_url body)))
          (λ _. posted p body) n₁ tt n' rest in
      let made = relabel-eq-ok "build webhook request" _ tt n₂ built in
      let (status, sent, success) = posted-eq-ok p body n₂ tt n' last in
      let same : n₂ ≡ n = ground (arith, made, marshalled) in
      record {
        body = body;
        status = status;
        encoded = ap (λ (q : Result Bytes × N). q.0) marshalled;
        sent = subst (λ v. client.do_request (delivery p body) v ≡ (ok status, n')) same sent;
        from = ground (arith, success);
        below = ground (arith, success);
        unsigned = unsigned_of p body;
        signed = signed_of p body;
      }
