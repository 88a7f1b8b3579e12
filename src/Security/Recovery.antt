-- ===== src/Security/Recovery.antt =====
-- apps/security/recovery.py: the one-time recovery codes of a user. The codes, the users of the
-- TOTP devices and the audit log are one store. The password hashers of Django are arguments, and so
-- are the random tokens, as a list that a loop draws from, and the Unicode tables behind the text
-- that a user types.
pub mod Use
pub mod Issue
use Prim.Native.Char.{code}
use Prim.Native.String.{count}
use taha_mohammadi_platform.Prelude.{
  ℕ, zero, suc, String, Option, none, some, List, [], ◌∷◌, ◌++◌, Bool, true, false, not, ◌&&◌, ◌||◌,
  ◌<>◌, ltb, leb, eqb, if◌then◌else◌,
}
use taha_mohammadi_platform.Prelude.Lists.{contains, text_eq, length}
use taha_mohammadi_platform.Prelude.Text.{strip, clip}
use taha_mohammadi_platform.Prelude.Decimal.{show_nat, upper}
use taha_mohammadi_platform.Content.Lifecycle.{AuditRow}

pub record RecoveryCode : Type 0 where
  pub pk : ℕ
  pub user : ℕ
  pub code_hash : String
  pub used_at : Option ℕ

pub record Vault : Type 0 where
  pub codes : List RecoveryCode
  pub totp_users : List ℕ
  pub audit : List AuditRow

abbrev pub recovery_code_count : ℕ
recovery_code_count = 10

-- What Python takes from the Unicode database: `str.upper` of a text, and `str.isalnum` of a
-- character, by its code point.
pub record Unicode : Type 0 where
  pub upper : String → String
  pub isalnum : ℕ → Bool

module _ (u : Unicode) where
  unfoldable pub alnum_only : String → String
  alnum_only String.[] = ""
  alnum_only (String.◌∷◌ c s) =
      let rest = alnum_only s in if u.isalnum (code c) then String.◌∷◌ c rest else rest

  unfoldable pub normalize_recovery_code : String → String
  normalize_recovery_code raw = alnum_only (u.upper (strip raw))

-- `s[n:]`
unfoldable pub drop_chars : ℕ → String → String
drop_chars zero s = s
drop_chars (suc n) String.[] = ""
drop_chars (suc n) (String.◌∷◌ c s) = drop_chars n s

-- `_format_display`
unfoldable pub format_display : String → String
format_display raw =
    clip 4 raw
    <> ("-"
        <> (clip 4 (drop_chars 4 raw)
            <> ("-" <> (clip 4 (drop_chars 8 raw) <> ("-" <> drop_chars 12 raw)))))

abbrev pub then_cons : String → Option (List String) → Option (List String)
then_cons c none = none
then_cons c (some codes) = some (c ∷ codes)

-- The loop of `generate_plain_recovery_codes`, on the tokens that it draws, which are hexadecimal;
-- `none` is a loop that has not ended with the last of them.
unfoldable pub generate : ℕ → List String → List String → Option (List String)
generate zero seen draws = some []
generate (suc n) seen [] = none
generate (suc n) seen (draw ∷ draws) =
    let again = generate (suc n) seen draws in
    let next = generate n (upper draw ∷ seen) draws in
    if contains seen (upper draw) then again else then_cons (format_display (upper draw)) next

abbrev pub is_unused : ℕ → RecoveryCode → Bool
is_unused user row = eqb row.user user && (elim row.used_at [ none ↦ true | some _ ↦ false ])

unfoldable pub unused_recovery_code_count : ℕ → List RecoveryCode → ℕ
unused_recovery_code_count user [] = 0
unused_recovery_code_count user (row ∷ rows) =
    let others = unused_recovery_code_count user rows in
    if is_unused user row then suc others else others

-- `filter(user=user, used_at__isnull=True).delete()`
unfoldable pub without_unused : ℕ → List RecoveryCode → List RecoveryCode
without_unused user [] = []
without_unused user (row ∷ rows) =
    let others = without_unused user rows in if is_unused user row then others else row ∷ others

unfoldable pub without_user : ℕ → List RecoveryCode → List RecoveryCode
without_user user [] = []
without_user user (row ∷ rows) =
    let others = without_user user rows in if eqb row.user user then others else row ∷ others

unfoldable pub without_devices : ℕ → List ℕ → List ℕ
without_devices user [] = []
without_devices user (u ∷ users) =
    let others = without_devices user users in if eqb u user then others else u ∷ others

abbrev pub audit_row : ℕ → String → String → String → String → String → AuditRow
audit_row user action model_name object_id ip detail = record {
  user = user;
  action = action;
  model_name = model_name;
  object_id = object_id;
  ip = clip 45 ip;
  detail = detail;
}

-- `make_password` salts by the row's key here, and `fresh` gives the key of each new row.
module _ (unicode : Unicode) (make_password : ℕ → String → String) (fresh : ℕ → ℕ) where
  unfoldable pub new_codes : ℕ → ℕ → List String → List RecoveryCode
  new_codes user i [] = []
  new_codes user i (plain ∷ plains) =
      record {
        pk = fresh i;
        user = user;
        code_hash = make_password (fresh i) (normalize_recovery_code unicode plain);
        used_at = none;
      }
      ∷ new_codes user (suc i) plains

  -- The transaction of `issue_recovery_codes`.
  abbrev pub reissued : ℕ → ℕ → String → List String → Vault → Vault
  reissued user n ip plains v = record v {
    codes = without_unused user v.codes ++ new_codes user 0 plains;
    audit =
        v.audit
        ++ audit_row user "mfa.recovery_issued" "recoverycode" (show_nat user) ip
            ("issued=" <> show_nat n)
          ∷ [];
  }

  unfoldable pub issue_recovery_codes :
      ℕ → ℕ → String → List String → Vault → Option (List String × Vault)
  issue_recovery_codes user n ip draws v = elim (generate n [] draws) [
    | none ↦ none
    | some plains ↦ some (plains, reissued user n ip plains v)
  ]

module _ (unicode : Unicode) (check_password : String → String → Bool) where
  -- The loop over the candidates: the code that matches first is marked used.
  unfoldable pub use_first : ℕ → ℕ → String → List RecoveryCode → Option (ℕ × List RecoveryCode)
  use_first now user norm [] = none
  use_first now user norm (row ∷ rows) =
      let later = use_first now user norm rows in
      if is_unused user row && check_password norm row.code_hash
      then some (row.pk, record row { used_at = some now } ∷ rows)
      else elim later [ none ↦ none | some (pk, rest) ↦ some (pk, row ∷ rest) ]

  unfoldable pub consume_recovery_code : ℕ → ℕ → String → String → Vault → Bool × Vault
  consume_recovery_code now user raw ip v =
      let norm = normalize_recovery_code unicode raw in
      if ltb (count norm) 16 then (false, v) else elim (use_first now user norm v.codes) [
        | none ↦ (false, v)
        | some (pk, codes) ↦ (
          true,
          record v {
            codes = codes;
            audit =
                v.audit
                ++ audit_row user "mfa.recovery_used" "recoverycode" (show_nat pk) ip "consumed"
                  ∷ [];
          },
        )
      ]

-- `purge_mfa_state`
unfoldable pub purge_mfa_state : ℕ → String → Vault → Vault
purge_mfa_state user ip v = record {
  codes = without_user user v.codes;
  totp_users = without_devices user v.totp_users;
  audit =
      v.audit
      ++ audit_row user "mfa.disabled" "totpdevice" (show_nat user) ip "devices_and_recovery_purged"
        ∷ [];
}
