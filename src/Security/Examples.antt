-- ===== src/Security/Examples.antt =====
-- The theorems on recovery codes, with a password check that compares texts.
use Prim.Native.String.{count}
use taha_mohammadi_platform.Prelude.{
  ℕ, suc, ◌≤◌, String, Option, none, some, List, [], ◌∷◌, map, Bool, true, false, ◌==◌, ◌++◌, ◌&&◌,
  ◌||◌, leb, ◌≡◌, ◌≢◌, ◌⊎◌, refl, arith,
}
use taha_mohammadi_platform.Prelude.Lists.{length, contains, text_eq, dedup, dedup_from}
use taha_mohammadi_platform.Prelude.Text.{strip, clip}
use taha_mohammadi_platform.Prelude.Decimal.{upper, show_nat}
use taha_mohammadi_platform.Security.Recovery.{
  RecoveryCode, Vault, Unicode, format_display, drop_chars, normalize_recovery_code, alnum_only,
  unused_recovery_code_count, use_first, consume_recovery_code, issue_recovery_codes,
}
use taha_mohammadi_platform.Security.Recovery.Use.{
  UsedOne, accepted_of, consume_recovery_code_uses_one, accepted_of-le,
}
use taha_mohammadi_platform.Security.Recovery.Issue.{issue_recovery_codes_replaces}

-- The tables on ASCII.
abbrev ascii : Unicode
ascii = record {
  upper = upper;
  isalnum = λ c. leb b'0' c && leb c b'9' || (leb b'A' c && leb c b'Z' || leb b'a' c && leb c b'z');
}

abbrev check : String → String → Bool
check norm hash = norm == hash

abbrev code_row : Option ℕ → RecoveryCode
code_row used_at = record { pk = 3; user = 1; code_hash = "0123456789ABCDEF"; used_at = used_at }

abbrev vault : Vault
vault = record { codes = code_row none ∷ []; totp_users = 1 ∷ []; audit = [] }

abbrev typed : String
typed = "0123-4567-89ab-cdef"

taken : (consume_recovery_code ascii check 50 1 typed "" vault).0 ≡ true
unfolding consume_recovery_code use_first normalize_recovery_code alnum_only upper strip
taken = refl

-- The same code again is refused.
twice : accepted_of ascii check 1 ((50, typed, "") ∷ (60, typed, "") ∷ []) vault ≡ 1
unfolding consume_recovery_code use_first normalize_recovery_code alnum_only upper strip
twice = refl

abbrev after : Vault
after = (consume_recovery_code ascii check 50 1 typed "" vault).1

consume_recovery_code_uses_one_example :
    (((consume_recovery_code ascii check 50 1 typed "" vault).0 ≡ false) × (after ≡ vault))
    ⊎ (((consume_recovery_code ascii check 50 1 typed "" vault).0 ≡ true)
        × (16 ≤ count (normalize_recovery_code ascii typed))
        × ((pk : ℕ) × UsedOne ascii check 50 1 pk
              (normalize_recovery_code ascii typed)
              vault.codes
              after.codes
            × (after.audit
                ≡ vault.audit
                  ++ record {
                    user = 1;
                    action = "mfa.recovery_used";
                    model_name = "recoverycode";
                    object_id = show_nat pk;
                    ip = "";
                    detail = "consumed";
                  }
                    ∷ []))
        × (suc (unused_recovery_code_count 1 after.codes)
            ≡ unused_recovery_code_count 1 vault.codes)
        × ((u : ℕ)
            → u ≢ 1
            → unused_recovery_code_count u after.codes ≡ unused_recovery_code_count u vault.codes)
        × (after.totp_users ≡ vault.totp_users))
unfolding clip
consume_recovery_code_uses_one_example =
    consume_recovery_code_uses_one ascii check 50 1 typed "" vault after
      ((consume_recovery_code ascii check 50 1 typed "" vault).0) refl

accepted_of-le_example :
    accepted_of ascii check 1 ((50, typed, "") ∷ (60, typed, "") ∷ []) vault
    ≤ unused_recovery_code_count 1 vault.codes
accepted_of-le_example = accepted_of-le ascii check 1 ((50, typed, "") ∷ (60, typed, "") ∷ []) vault

abbrev salted : ℕ → String → String
salted pk plain = plain

abbrev numbered : ℕ → ℕ
numbered i = i

-- The second token repeats the first.
abbrev draws : List String
draws = "0123456789abcdef" ∷ "0123456789abcdef" ∷ "fedcba9876543210" ∷ []

enough_draws : 2 ≤ length (dedup (map upper draws))
unfolding upper contains dedup dedup_from
enough_draws = omega arith

issue_recovery_codes_replaces_example :
    (plains : List String) × (new : Vault) × (issue_recovery_codes ascii salted numbered 1 2 ""
        draws vault
      ≡ some (plains, new))
    × (plains ≡ "0123-4567-89AB-CDEF" ∷ "FEDC-BA98-7654-3210" ∷ [])
    × (length plains ≡ 2)
    × (unused_recovery_code_count 1 new.codes ≡ 2)
    × ((u : ℕ)
        → u ≢ 1
        → unused_recovery_code_count u new.codes ≡ unused_recovery_code_count u vault.codes)
    × (new.audit
        ≡ record {
          user = 1;
          action = "mfa.recovery_issued";
          model_name = "recoverycode";
          object_id = "1";
          ip = "";
          detail = "issued=2";
        }
          ∷ [])
unfolding upper contains dedup dedup_from format_display drop_chars clip show_nat
issue_recovery_codes_replaces_example =
    issue_recovery_codes_replaces ascii salted numbered 1 2 "" draws vault enough_draws
