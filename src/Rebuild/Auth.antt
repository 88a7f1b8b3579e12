-- ===== src/Rebuild/Auth.antt =====
-- apps/rebuild/services.py: the authentication of the machine runner, with the table of nonces
-- that have been used, and the two callback views of apps/rebuild/views.py behind it.
pub mod Nonces
pub mod Views
use Prim.Native.String.{count}
use taha_mohammadi_platform.Prelude.{
  ℕ, String, Option, none, some, List, [], ◌∷◌, ◌++◌, Bool, true, false, not, ◌||◌, ◌==◌, ◌<>◌, ltb,
  if◌then◌else◌,
}
use taha_mohammadi_platform.Prelude.Lists.{contains, text_eq}
use taha_mohammadi_platform.Prelude.Text.{or_else, truthy, is_blank, compare_digest}
use taha_mohammadi_platform.Prelude.Decimal.{ℤ, distance, parse_int, show_int, upper}

-- The digests of the `hmac` and `hashlib` modules, in hexadecimal: of a key and a message, and of
-- the bytes of a body.
pub record Digests : Type 0 where
  pub hmac_sha256 : String → String → String
  pub sha256 : String → String

pub record MachineSettings : Type 0 where
  pub publication_machine_secret : String
  pub rebuild_trigger_secret : String

-- A header as `request.headers` and as `request.META` give it.
pub record Header : Type 0 where
  pub headers : Option String
  pub meta : Option String

pub record MachineRequest : Type 0 where
  pub method : String
  pub path : String
  pub timestamp : Header
  pub nonce : Header
  pub signature : Header
  pub body : String

pub data Refusal : Type 0 where
  no_secret missing_headers bad_timestamp stale_timestamp bad_nonce : Refusal
  bad_signature reused_nonce : Refusal

-- `raised` is the TypeError of `hmac.compare_digest`, which leaves the view.
pub data Verdict : Type 0 where
  accepted : Verdict
  refused : Refusal → Verdict
  raised : Verdict

-- The status code that goes with the answer; an exception that leaves a view is a 500.
unfoldable pub status_of : Verdict → ℕ
status_of accepted = 200
status_of (refused no_secret) = 403
status_of (refused _) = 401
status_of raised = 500

unfoldable pub get_publication_machine_secret : MachineSettings → String
get_publication_machine_secret s =
    if s.publication_machine_secret == ""
    then s.rebuild_trigger_secret
    else s.publication_machine_secret

-- `request.headers.get(...) or request.META.get(...)`, as a text that may be empty.
unfoldable pub header_value : Header → String
unfolding or_else
header_value h = or_else h.headers (or_else h.meta "")

abbrev pub max_trigger_age_seconds : ℕ
max_trigger_age_seconds = 300

module _ (d : Digests) where
  unfoldable pub sign_machine_request : String → String → String → ℤ → String → String → String
  unfolding upper show_int
  sign_machine_request secret method path timestamp nonce body = d.hmac_sha256 secret (
      upper method
      <> ("\n"
          <> (path
              <> ("\n" <> (show_int timestamp <> ("\n" <> (nonce <> ("\n" <> d.sha256 body))))))))

  -- The checks from the signature on: a nonce is stored only behind a valid signature.
  unfoldable pub claim_nonce : String → MachineRequest → ℤ → List String → Verdict × List String
  claim_nonce secret q ts nonces =
      let nonce = header_value q.nonce in
      let expected_sig = sign_machine_request secret q.method q.path ts nonce q.body in
      elim (compare_digest (header_value q.signature) expected_sig) [
        | none ↦ (raised, nonces)
        | some same ↦
            if not same
            then (refused bad_signature, nonces)
            else if contains nonces nonce
            then (refused reused_nonce, nonces)
            else (accepted, nonces ++ nonce ∷ [])
      ]

  unfoldable pub validate_machine_request :
      MachineSettings → ℕ → MachineRequest → List String → Verdict × List String
  validate_machine_request s now q nonces =
      let secret = get_publication_machine_secret s in
      if is_blank secret
      then (refused no_secret, nonces)
      else if header_value q.timestamp == ""
          || (header_value q.nonce == "" || header_value q.signature == "")
      then (refused missing_headers, nonces)
      else elim (parse_int (header_value q.timestamp)) [
        | none ↦ (refused bad_timestamp, nonces)
        | some ts ↦
            if ltb max_trigger_age_seconds (distance now ts)
            then (refused stale_timestamp, nonces)
            else if header_value q.nonce == "" || ltb 64 (count (header_value q.nonce))
            then (refused bad_nonce, nonces)
            else claim_nonce secret q ts nonces
      ]
