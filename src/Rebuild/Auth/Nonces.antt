-- ===== src/Rebuild/Auth/Nonces.antt =====
-- What an accepted request has shown, and the nonces of a series of requests.
use Prim.Native.String.{count}
use taha_mohammadi_platform.Prelude.{
  ℕ, ◌+◌, ◌≤◌, String, some, List, [], ◌∷◌, ◌++◌, Bool, true, false, ◌==◌, ◌≡◌, ap, ◌⊎◌, ◌&&◌, ◌≢◌,
  ◌↔◌, refl, sym, ◌∙◌, inl, inr, arith, if◌then◌else◌, eq_iff, Option-cases,
}
use taha_mohammadi_platform.Prelude.Lists.{contains, contains-append, text_eq}
use taha_mohammadi_platform.Prelude.Text.{
  is_blank, is_ascii, compare_digest, compare_digest-true, compare_digest-same,
}
use taha_mohammadi_platform.Prelude.Decimal.{ℤ, distance, parse_int}
use taha_mohammadi_platform.Rebuild.Auth.{
  Digests, MachineSettings, MachineRequest, Verdict, accepted, refused, raised,
  get_publication_machine_secret, header_value, max_trigger_age_seconds, sign_machine_request,
  claim_nonce, validate_machine_request,
}

Verdict-cases : (v : Verdict) → (v ≡ accepted) ⊎ (v ≢ accepted)
Verdict-cases accepted = inl refl
Verdict-cases (refused why) = inr (λ e. cc e)
Verdict-cases raised = inr (λ e. cc e)

module _ (d : Digests) (s : MachineSettings) where
  -- Everything that the checks ask of a request.
  pub record IsAuthentic (now : ℕ) (q : MachineRequest) (nonces : List String) : Type 0 where
    pub ts : ℤ
    pub secret_set : is_blank (get_publication_machine_secret s) ≡ false
    pub timestamp_set : (header_value q.timestamp == "") ≡ false
    pub nonce_set : (header_value q.nonce == "") ≡ false
    pub signature_set : (header_value q.signature == "") ≡ false
    pub parsed : parse_int (header_value q.timestamp) ≡ some ts
    pub recent : distance now ts ≤ max_trigger_age_seconds
    pub short : count (header_value q.nonce) ≤ 64
    pub signed :
        header_value q.signature
        ≡ sign_machine_request d
            (get_publication_machine_secret s)
            q.method
            q.path
            ts
            (header_value q.nonce)
            q.body
    pub plain : is_ascii (header_value q.signature) ≡ true
    pub unused : contains nonces (header_value q.nonce) ≡ false

  comparison :
      (now : ℕ) (q : MachineRequest) (nonces : List String) (t : ℤ)
      → parse_int (header_value q.timestamp) ≡ some t
      → (validate_machine_request d s now q nonces).0 ≡ accepted
      → (header_value q.signature
          ≡ sign_machine_request d
              (get_publication_machine_secret s)
              q.method
              q.path
              t
              (header_value q.nonce)
              q.body)
        × (is_ascii (header_value q.signature) ≡ true)
  unfolding validate_machine_request claim_nonce
  comparison now q nonces t parsed h =
      let expected_sig =
        sign_machine_request d (get_publication_machine_secret s) q.method q.path t
          (header_value q.nonce) q.body in
      compare_digest-true (header_value q.signature) expected_sig
        (elim (Option-cases (compare_digest (header_value q.signature) expected_sig)) [
          | inl nothing ↦ ground arith
          | inr (b, found) ↦ ground arith
        ])

  IsAuthentic-of_accepted :
      (now : ℕ) (q : MachineRequest) (nonces : List String)
      → (validate_machine_request d s now q nonces).0 ≡ accepted
      → IsAuthentic now q nonces
  unfolding validate_machine_request claim_nonce
  IsAuthentic-of_accepted now q nonces h =
      elim (Option-cases (parse_int (header_value q.timestamp))) [
        | inl bad ↦ ground arith
        | inr (t, parsed) ↦ record {
          ts = t;
          secret_set = ground arith;
          timestamp_set = ground arith;
          nonce_set = ground arith;
          signature_set = ground arith;
          parsed = parsed;
          recent = ground arith;
          short = ground arith;
          signed = (comparison now q nonces t parsed h).0;
          plain = (comparison now q nonces t parsed h).1;
          unused = ground arith;
        }
      ]

  accepted_of_authentic :
      (now : ℕ) (q : MachineRequest) (nonces : List String)
      → IsAuthentic now q nonces
      → validate_machine_request d s now q nonces ≡ (accepted, nonces ++ header_value q.nonce ∷ [])
  unfolding validate_machine_request claim_nonce
  accepted_of_authentic now q nonces a =
      let same = compare_digest-same (header_value q.signature) a.plain in
      let matches : compare_digest (header_value q.signature) (
            sign_machine_request d (get_publication_machine_secret s) q.method q.path a.ts
              (header_value q.nonce) q.body)
          ≡ some true =
        ap (compare_digest (header_value q.signature)) (sym a.signed) ∙ same in
      ground (arith, matches)

  -- A refused request stores no nonce.
  pub refused_keeps_nonces :
      (now : ℕ) (q : MachineRequest) (nonces : List String)
      → (validate_machine_request d s now q nonces).0 ≢ accepted
      → (validate_machine_request d s now q nonces).1 ≡ nonces
  unfolding validate_machine_request claim_nonce
  refused_keeps_nonces now q nonces h = ground arith

  -- A request is accepted exactly when a secret is set, the three headers are there, the timestamp
  -- is an integer at most 300 seconds from the clock, the nonce has at most 64 characters and is
  -- not stored, and the signature is an ASCII text, that of the method, path, timestamp, nonce and
  -- body. Then the nonce is stored; a request that is not accepted leaves the table as it is.
  pub validate_machine_request_decides :
      (now : ℕ) (q : MachineRequest) (nonces : List String)
      → (((validate_machine_request d s now q nonces).0 ≡ accepted) ↔ IsAuthentic now q nonces)
        × (IsAuthentic now q nonces
            → (validate_machine_request d s now q nonces).1 ≡ nonces ++ header_value q.nonce ∷ [])
        × ((validate_machine_request d s now q nonces).0 ≢ accepted
            → (validate_machine_request d s now q nonces).1 ≡ nonces)
  validate_machine_request_decides now q nonces = (
    (
      IsAuthentic-of_accepted now q nonces,
      λ a. ap (λ (v : Verdict × List String). v.0) (accepted_of_authentic now q nonces a),
    ),
    λ a. ap (λ (v : Verdict × List String). v.1) (accepted_of_authentic now q nonces a),
    refused_keeps_nonces now q nonces,
  )

  -- The table of nonces after a series of requests, each at its time.
  unfoldable pub serve : List String → List (ℕ × MachineRequest) → List String
  serve nonces [] = nonces
  serve nonces ((now, q) ∷ rest) = serve (validate_machine_request d s now q nonces).1 rest

  abbrev accepts : Verdict → Bool
  accepts accepted = true
  accepts (refused _) = false
  accepts raised = false

  -- How many requests of a series are accepted with the nonce `n`.
  unfoldable pub uses : String → List String → List (ℕ × MachineRequest) → ℕ
  uses n nonces [] = 0
  uses n nonces ((now, q) ∷ rest) =
      (if accepts (validate_machine_request d s now q nonces).0 && header_value q.nonce == n
        then 1
        else 0)
      + uses n (validate_machine_request d s now q nonces).1 rest

  abbrev unused_count : String → List String → ℕ
  unused_count n nonces = if contains nonces n then 0 else 1

  uses_step :
      (n : String) (nonces : List String) (now : ℕ) (q : MachineRequest)
      → (if accepts (validate_machine_request d s now q nonces).0 && header_value q.nonce == n
            then 1
            else 0)
          + unused_count n (validate_machine_request d s now q nonces).1
        ≤ unused_count n nonces
  unfolding contains
  uses_step n nonces now q = elim (Verdict-cases (validate_machine_request d s now q nonces).0) [
    | inl yes' ↦
        let a = IsAuthentic-of_accepted now q nonces yes' in
        rw (accepted_of_authentic now q nonces a) (
          ground (
            arith,
            a.unused,
            eq_iff (header_value q.nonce) n,
            eq_iff n (header_value q.nonce),
            contains-append nonces (header_value q.nonce ∷ []) n,
          ))
    | inr no' ↦ ground (arith, refused_keeps_nonces now q nonces)
  ]

  uses-le :
      (n : String) (nonces : List String) (qs : List (ℕ × MachineRequest))
      → uses n nonces qs ≤ unused_count n nonces
  unfolding uses
  uses-le n nonces [] = omega arith
  uses-le n nonces ((now, q) ∷ rest) = omega (
    arith,
    uses_step n nonces now q,
    uses-le n (validate_machine_request d s now q nonces).1 rest,
  )

  -- In any series of requests at any times, at most one is accepted with a given nonce, and none
  -- if that nonce is stored already.
  pub accepted_once :
      (n : String) (nonces : List String) (qs : List (ℕ × MachineRequest))
      → (uses n nonces qs ≤ 1) × (contains nonces n ≡ true → uses n nonces qs ≡ 0)
  accepted_once n nonces qs = ground (arith, uses-le n nonces qs)
