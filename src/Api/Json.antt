-- ===== src/Api/Json.antt =====
-- getJson, postJson, patchJson and deleteJson of ui/desktop/src/renderer/utils/api.ts: what a caller gets.
use orc_torrent.Prelude.{
  ℕ, ◌≡◌, ◌⊎◌, ◌↔◌, inl, inr, refl, ap, ◌∙◌, Option-cases, Bool-cases, arith, true, false, Option,
  some,
}
use Prim.Native.String.{String}
use orc_torrent.Prelude.Assoc.{string_eq}
use orc_torrent.Api.{
  Connection, Attempt, responds, response, failure, Outcome, fetch_with_retry, max_retries,
  Response, value, error, read_json, get_result, send_result,
}
use orc_torrent.Api.Retry.{fetch_with_retry-recovers}

-- A response with a failing status is final, whatever the status: the first fetch of a request that
-- gets it is its last, and the caller gets an error with that status, not marked as a network error.
-- A 5xx status is no exception.
pub error_status_final :
    {T : Type 0} (parse : String → Option T) (fetch : ℕ → Attempt Response)
    (others : ℕ → Connection → Connection) (c : Connection) (r : Response)
    → fetch 0 ≡ responds r
    → r.ok ≡ false
    → ((fetch_with_retry fetch others max_retries 0 c).fetches ≡ 1)
      × (get_result parse (fetch_with_retry fetch others max_retries 0 c).outcome
          ≡ error (record { status = some r.status; is_network_error = false }))
unfolding get_result
error_status_final parse fetch others c r e k =
    let q =
      fetch_with_retry-recovers fetch others 0 max_retries 0 c r (omega arith) (omega arith)
        (λ j u v. ground arith) e in
    rw q (refl, rw k refl)

module _ {T : Type 0} (parse : String → Option T) where
  -- what a value comes from
  pub record IsParsed (o : Outcome Response) (v : T) : Type 0 where
    pub answer : Response
    pub body : String
    pub got : o ≡ response answer
    pub fine : answer.ok ≡ true
    pub has_body : answer.text ≡ some body
    pub parsed : parse body ≡ some v

  read_json-IsParsed :
      (r : Response) (v : T) → r.ok ≡ true → read_json parse r ≡ value v → IsParsed (response r) v
  unfolding read_json
  read_json-IsParsed r v k h = elim (Option-cases r.text) [
    | inl e ↦ ground (arith, h, e)
    | inr (t, e) ↦ elim (Option-cases (parse t)) [
      | inl q ↦ ground (arith, h, e, q)
      | inr (w, q) ↦ record {
        answer = r;
        body = t;
        got = refl;
        fine = k;
        has_body = e;
        parsed = ground (arith, h, e, q);
      }
    ]
  ]

  -- `getJson` returns a value exactly if the daemon gave an `ok` response with a text that the parser
  -- reads as that value.
  pub get_result-IsParsed :
      (o : Outcome Response) (v : T) → (get_result parse o ≡ value v) ↔ IsParsed o v
  unfolding get_result read_json
  get_result-IsParsed (failure f) v = (λ h. ground (arith, h), λ p. ground (arith, p.got))
  get_result-IsParsed (response r) v = (
    λ h. elim (Bool-cases r.ok) [
      | inl k ↦ read_json-IsParsed r v k (ground (arith, h, k))
      | inr k ↦ ground (arith, h, k)
    ],
    λ p. ground (arith, p.got, p.fine, p.has_body, p.parsed),
  )

  -- A response with a text that is not empty, a response whose text cannot be read and a failure give
  -- `postJson`, `patchJson` and `deleteJson` what they give `getJson`; an `ok` response with an empty
  -- text gives them the empty object.
  pub send_result-get_result :
      (empty_object : T) (o : Outcome Response)
      → (send_result parse empty_object o ≡ get_result parse o)
        ⊎ ((r : Response) × (o ≡ response r)
            × (r.ok ≡ true)
            × (r.text ≡ some "")
            × (send_result parse empty_object o ≡ value empty_object))
  unfolding send_result get_result
  send_result-get_result d (failure f) = inl refl
  send_result-get_result d (response r) = elim (Bool-cases r.ok) [
    | inr k ↦ inl (ground (arith, k))
    | inl k ↦ elim (Option-cases r.text) [
      | inl e ↦ inl (ground (arith, k, e))
      | inr (t, e) ↦ elim (Bool-cases (string_eq.beq t "")) [
        | inr b ↦ inl (ground (arith, k, e, b))
        | inl b ↦
            let q = (string_eq.beq_iff t "").0 b in
            inr (r, refl, k, e ∙ ap some q, ground (arith, k, e, b))
      ]
    ]
  ]
