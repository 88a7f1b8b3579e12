-- ===== src/Security/Recovery/Use.antt =====
-- `consume_recovery_code`: one call of it, and histories of calls.
use Prim.Native.String.{count}
use taha_mohammadi_platform.Prelude.{
  ℕ, suc, ◌≤◌, String, some, List, [], ◌∷◌, ◌++◌, Bool, true, false, ◌&&◌, ◌≡◌, ◌≢◌, ◌⊎◌, refl, sym,
  ap, subst, inl, inr, arith, ltb, if◌then◌else◌, Bool-cases, Option-cases,
}
use taha_mohammadi_platform.Prelude.Text.{clip}
use taha_mohammadi_platform.Prelude.Decimal.{show_nat}
use taha_mohammadi_platform.Security.Recovery.{
  RecoveryCode, Vault, Unicode, normalize_recovery_code, is_unused, unused_recovery_code_count,
  use_first, consume_recovery_code,
}

module _ (unicode : Unicode) (check_password : String → String → Bool) where
  -- The code with the given key, the user's, unused and matching, was marked used; the others are as
  -- they were.
  pub data UsedOne (now user pk : ℕ) (norm : String)
      : List RecoveryCode → List RecoveryCode → Type 0 where
    here :
        (row : RecoveryCode) (rows : List RecoveryCode)
        → is_unused user row ≡ true
        → check_password norm row.code_hash ≡ true
        → row.pk ≡ pk
        → UsedOne now user pk norm (row ∷ rows) (record row { used_at = some now } ∷ rows)
    there :
        (row : RecoveryCode) (rows after : List RecoveryCode)
        → UsedOne now user pk norm rows after
        → UsedOne now user pk norm (row ∷ rows) (row ∷ after)

  use_first-UsedOne :
      (now user : ℕ) (norm : String) (rows after : List RecoveryCode) (pk : ℕ)
      → use_first unicode check_password now user norm rows ≡ some (pk, after)
      → UsedOne now user pk norm rows after
  unfolding use_first
  use_first-UsedOne now user norm [] after pk h = cc h
  use_first-UsedOne now user norm (row ∷ rows) after pk h =
      elim (Bool-cases (is_unused user row && check_password norm row.code_hash)) [
        | inl hit ↦
            let e : record row { used_at = some now } ∷ rows ≡ after = cc (rw hit at h) in
            subst (UsedOne now user pk norm (row ∷ rows)) e
              (here row rows (ground arith) (ground arith) (cc (rw hit at h)))
        | inr miss ↦ elim (Option-cases (use_first unicode check_password now user norm rows)) [
          | inl nothing ↦ cc (rw (miss, nothing) at h)
          | inr ((i, rest), found) ↦
              let e : row ∷ rest ≡ after = cc (rw (miss, found) at h) in
              let same : i ≡ pk = cc (rw (miss, found) at h) in
              subst (UsedOne now user pk norm (row ∷ rows)) e (
                there row rows rest (
                  subst (λ k. UsedOne now user k norm rows rest) same
                    (use_first-UsedOne now user norm rows rest i found)))
        ]
      ]

  used-is_unused :
      (now user u : ℕ) (row : RecoveryCode)
      → is_unused u (record row { used_at = some now }) ≡ false
  used-is_unused now user u row = ground arith

  UsedOne-count :
      (now user pk : ℕ) (norm : String) (rows after : List RecoveryCode)
      → UsedOne now user pk norm rows after
      → suc (unused_recovery_code_count user after) ≡ unused_recovery_code_count user rows
  unfolding unused_recovery_code_count
  UsedOne-count now user pk norm _ _ (here row rows free hit key) =
      ground (arith, used-is_unused now user user row)
  UsedOne-count now user pk norm _ _ (there row rows after step) =
      ground (arith, UsedOne-count now user pk norm rows after step)

  UsedOne-other :
      (now user pk u : ℕ) (norm : String) (rows after : List RecoveryCode)
      → u ≢ user
      → UsedOne now user pk norm rows after
      → unused_recovery_code_count u after ≡ unused_recovery_code_count u rows
  unfolding unused_recovery_code_count
  UsedOne-other now user pk u norm _ _ apart (here row rows free hit key) =
      ground (arith, used-is_unused now user u row)
  UsedOne-other now user pk u norm _ _ apart (there row rows after step) =
      ground (arith, UsedOne-other now user pk u norm rows after apart step)

  -- A call that accepts a code marks exactly one unused code of the user as used, which the hasher
  -- matches with the normalised text of at least 16 characters: the user has one unused code less
  -- and every other user as many as before. It appends one audit row, which names the user, the key
  -- of that code and the first 45 characters of the address, and leaves the TOTP devices as they
  -- were. A call that refuses leaves the whole store as it was.
  pub consume_recovery_code_uses_one :
      (now user : ℕ) (raw ip : String) (v after : Vault) (accepted : Bool)
      → consume_recovery_code unicode check_password now user raw ip v ≡ (accepted, after)
      → ((accepted ≡ false) × (after ≡ v))
        ⊎ ((accepted ≡ true)
            × (16 ≤ count (normalize_recovery_code unicode raw))
            × ((pk : ℕ) × UsedOne now user pk
                  (normalize_recovery_code unicode raw)
                  v.codes
                  after.codes
                × (after.audit
                    ≡ v.audit
                      ++ record {
                        user = user;
                        action = "mfa.recovery_used";
                        model_name = "recoverycode";
                        object_id = show_nat pk;
                        ip = clip 45 ip;
                        detail = "consumed";
                      }
                        ∷ []))
            × (suc (unused_recovery_code_count user after.codes)
                ≡ unused_recovery_code_count user v.codes)
            × ((u : ℕ)
                → u ≢ user
                → unused_recovery_code_count u after.codes ≡ unused_recovery_code_count u v.codes)
            × (after.totp_users ≡ v.totp_users))
  unfolding consume_recovery_code
  consume_recovery_code_uses_one now user raw ip v after accepted h =
      let norm = normalize_recovery_code unicode raw in
      elim (Bool-cases (ltb (count norm) 16)) [
        | inl short ↦ let h₁ = rw short at h in inl (cc h₁, cc h₁)
        | inr long ↦ elim (Option-cases (use_first unicode check_password now user norm v.codes)) [
          | inl nothing ↦ let h₁ = rw (long, nothing) at h in inl (cc h₁, cc h₁)
          | inr ((pk, codes), found) ↦
              let h₁ = rw (long, found) at h in
              let step = use_first-UsedOne now user norm v.codes codes pk found in
              let e : codes ≡ after.codes = ap (λ (p : Bool × Vault). p.1.codes) h₁ in
              let step' = subst (UsedOne now user pk norm v.codes) e step in
              inr (
                cc (ap (λ (p : Bool × Vault). p.0) h₁),
                ground arith,
                (pk, step', sym (ap (λ (p : Bool × Vault). p.1.audit) h₁)),
                UsedOne-count now user pk norm v.codes after.codes step',
                λ u apart. UsedOne-other now user pk u norm v.codes after.codes apart step',
                sym (ap (λ (p : Bool × Vault). p.1.totp_users) h₁),
              )
        ]
      ]

  -- A history of attempts of a user, each at a time and with a text: how many were accepted.
  abbrev pub accepted_of : ℕ → List (ℕ × String × String) → Vault → ℕ
  accepted_of user [] v = 0
  accepted_of user ((now, raw, ip) ∷ attempts) v =
      let after = consume_recovery_code unicode check_password now user raw ip v in
      let later = accepted_of user attempts (after.1) in if after.0 then suc later else later

  -- However often and with whatever texts a user tries, no more attempts are accepted than the user
  -- had unused codes.
  pub accepted_of-le :
      (user : ℕ) (attempts : List (ℕ × String × String)) (v : Vault)
      → accepted_of user attempts v ≤ unused_recovery_code_count user v.codes
  accepted_of-le user [] v = omega arith
  accepted_of-le user ((now, raw, ip) ∷ attempts) v =
      let after = consume_recovery_code unicode check_password now user raw ip v in
      let later = accepted_of-le user attempts (after.1) in
      elim (consume_recovery_code_uses_one now user raw ip v (after.1) (after.0) refl) [
        | inl (refused, same) ↦ rw (refused, same) (accepted_of-le user attempts v)
        | inr (taken, _, _, fewer, _, _) ↦ rw taken (omega (arith, later, fewer))
      ]
