-- ===== src/Csr/Approval.antt =====
-- The approvals that Reconcile of internal/controller/csr_controller.go sends.
use text.Mathlib.TextEquality.{eq_iff}
use openshift_capi_alicloud.Prelude.{
  sym, subst, ◌++◌, if-cases, ℕ, true, false, none, some, [], ◌∷◌, ok, err, refl, inl, inr, ◌≡◌,
  List, Result, arith, string_eq, Message, ◌==◌, not, ◌&&◌, ◌||◌,
}
use openshift_capi_alicloud.Api.Kube.{not_found, found, failed, Fetched}
use openshift_capi_alicloud.Csr.{
  CsrCondition, is_nil, Answer, is_csr_decided, serving_signer, CertificateRequest, client_signer,
  SigningRequest, Api,
}
use openshift_capi_alicloud.Csr.Grounds.{should_approve-Justified, Justified}
use openshift_capi_alicloud.Csr.Reconcile.{
  approved, on_answer, on_parsed, reconcile_csr, parse_csr, reconcile, send, should_approve,
}

-- What a reconcile that sends a request had before it.
pub record Approves (api : Api) (f : Fetched SigningRequest) (sent : SigningRequest) : Type 0 where
  pub csr : SigningRequest
  pub fetched : f ≡ found csr
  pub undecided : is_csr_decided csr.conditions ≡ false
  pub no_certificate : csr.certificate ≡ []
  pub cr : CertificateRequest
  pub parsed : parse_csr api csr.request ≡ ok cr
  pub justified : Justified api csr cr
  pub reason : Message
  pub sends : sent ≡ approved api reason csr

no_bytes : (xs : List ℕ) → not (is_nil xs) ≡ false → xs ≡ []
no_bytes [] h = refl
no_bytes (x ∷ xs) h = cc

module _ (api : Api) {sent : SigningRequest} {r : Result (Unit {0})} where
  sent-is :
      (csr : SigningRequest) (u : Result (Unit {0})) → send api csr u ≡ (r, some sent) → sent ≡ csr
  sent-is csr (ok _) h = cc
  sent-is csr (err e) h = cc

  answer-Approves :
      (csr : SigningRequest) (cr : CertificateRequest) (a : Answer)
      → should_approve api csr cr ≡ a
      → on_answer api csr a ≡ (r, some sent)
      → Justified api csr cr × ((reason : Message) × (sent ≡ approved api reason csr))
  answer-Approves csr cr (err e) q h = cc
  answer-Approves csr cr (ok none) q h = cc
  answer-Approves csr cr (ok (some reason)) q h = (
    should_approve-Justified api csr cr q,
    (reason, sent-is _ (api.update_approval (approved api reason csr)) h),
  )

  parsed-Approves :
      (csr : SigningRequest) (p : Result CertificateRequest)
      → parse_csr api csr.request ≡ p
      → is_csr_decided csr.conditions ≡ false
      → csr.certificate ≡ []
      → on_parsed api csr p ≡ (r, some sent)
      → Approves api (found csr) sent
  parsed-Approves csr (err e) q d c h = cc
  parsed-Approves csr (ok cr) q d c h =
      let (j, (reason, e)) = answer-Approves csr cr (should_approve api csr cr) refl h in
      record {
        csr = csr;
        fetched = refl;
        undecided = d;
        no_certificate = c;
        cr = cr;
        parsed = q;
        justified = j;
        reason = reason;
        sends = e;
      }

  -- When a reconcile sends an approval, the request that it fetched was not decided and had no
  -- certificate, its signing request parses to that of a kubelet of the group system:nodes, and
  -- either it is for the client signer, from the bootstrapper, while a machine with an instance
  -- awaits its node, or it is for the serving signer, from the user of a node that is a member and
  -- owns each name and address in it, of which there is one at least; and what is sent is the
  -- fetched request with one Approved condition added.
  pub reconcile-Approves :
      (f : Fetched SigningRequest) → reconcile api f ≡ (r, some sent) → Approves api f sent
  unfolding reconcile reconcile_csr
  reconcile-Approves not_found h = cc
  reconcile-Approves (failed e) h = cc
  reconcile-Approves (found csr) h =
      elim (if-cases (is_csr_decided csr.conditions || not (is_nil csr.certificate)) _ _ h) [
        | inl (_, h) ↦ cc
        | inr (d, h) ↦
            elim (if-cases
              (not (csr.signer_name == client_signer) && not (csr.signer_name == serving_signer)) _
              _ h) [
                | inl (_, h) ↦ cc
                | inr (_, h) ↦
                    parsed-Approves csr (parse_csr api csr.request) refl (ground arith)
                      (no_bytes csr.certificate (ground arith)) h
              ]
      ]

decided_append :
    (cs : List CsrCondition) (c : CsrCondition)
    → c.type ≡ "Approved"
    → is_csr_decided (cs ++ (c ∷ [])) ≡ true
unfolding is_csr_decided
decided_append [] c h = ground (arith, eq_iff c.type "Approved")
decided_append (x ∷ cs) c h = ground (arith, decided_append cs c h)

-- A reconcile that fetches what a reconcile sent sends nothing more.
pub reconcile-reconcile :
    (api : Api) (f : Fetched SigningRequest) {sent : SigningRequest} {r : Result (Unit {0})}
    → reconcile api f ≡ (r, some sent)
    → reconcile api (found sent) ≡ (ok tt, none)
unfolding reconcile reconcile_csr
reconcile-reconcile api f {sent} {r} h =
    let a = reconcile-Approves api f h in
    let d : is_csr_decided sent.conditions ≡ true =
      subst (λ s. is_csr_decided s.conditions ≡ true) (sym a.sends)
        (decided_append a.csr.conditions _ refl) in
    ground arith
